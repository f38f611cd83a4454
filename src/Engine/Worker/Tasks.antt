-- ===== src/Engine/Worker/Tasks.antt =====
-- src/engine/worker.rs: `delete`, `rename` and `handle`. The report of a simulation is left out.
use syncgdrive.Base.{
  ◌-◌, Text, codes, is_empty, Bool, true, false, none, some, [], ◌∷◌, ok, err, or_context, Act,
  pure, lift, gets, ◌>>=◌,
}
use syncgdrive.Paths.{FilePath, parse}
use syncgdrive.Config.{AppConfig, SyncPair, get_primary_pair}
use syncgdrive.Db.{get_file, delete_file, rename_file}
use syncgdrive.Remote.PathCache.{lookup, insert, remove_cascades}
use syncgdrive.Engine.Tasks.{Task}
use syncgdrive.Engine.Worker.{
  observe, ask_db, on_db_at, on_remote, drive_id_of, is_indexed, rel_str, or_default,
  parent_rel_str, is_ignored, is_dir_at, is_file_at, retry, Environment, Provider, State,
}
use syncgdrive.Engine.Worker.Sync.{folder_id, name_of, sync_file}

module _ {R : Type 0} (env : Environment) (provider : Provider R) (cfg : AppConfig) where
  -- `delete`, with the relative path.
  unfoldable pub delete_rel : Text → Act (State R) (Unit {0})
  delete_rel rel s = elim (lookup s.path_cache rel) [
    | none ↦ on_db_at env.db_fault (λ fault. delete_file fault rel) s
    | some entry ↦
        (retry env (cfg.retry.max_attempts - 1) (on_remote (provider.delete entry.drive_id))
            >>= λ _. λ s'.
              on_db_at env.db_fault (λ fault. delete_file fault rel)
                (record s' { path_cache = remove_cascades s'.path_cache rel }))
          s
  ]

  unfoldable pub delete : FilePath → Act (State R) (Unit {0})
  delete path = observe (λ now. ok (is_dir_at env path now)) >>= λ is_dir.
      elim (is_ignored env path is_dir) [
        | true ↦ pure tt
        | false ↦ lift (or_context (codes "Aucun dossier") (get_primary_pair cfg)) >>= λ primary.
            elim (rel_str (parse primary.local_path) path) [
              | err e ↦ pure tt
              | ok rel ↦ delete_rel rel
            ]
      ]

  -- `rename` of a file that is known.
  unfoldable pub move_known : SyncPair → FilePath → Text → Text → Text → Act (State R) (Unit {0})
  move_known primary to from_rel to_rel file_id = lift (name_of env provider cfg to) >>= λ new_name.
      folder_id env provider cfg primary (parent_rel_str (parse primary.local_path) to)
        (codes "Dossier destination introuvable" ∷ [])
      >>= λ new_parent_id.
          retry env (cfg.retry.max_attempts - 1)
            (on_remote (provider.rename file_id (some new_name) (some new_parent_id)))
          >>= λ _. λ s.
            on_db_at env.db_fault (λ fault. rename_file fault from_rel to_rel)
              (record s {
                path_cache =
                    insert (remove_cascades s.path_cache from_rel) to_rel file_id new_parent_id;
              })

  -- `rename` of a file that is not known: the target is synchronised if it is a file.
  unfoldable pub sync_target : FilePath → Act (State R) (Unit {0})
  sync_target to = observe (λ now. ok (is_file_at env to now)) >>= λ is_file. elim is_file [
    | false ↦ pure tt
    | true ↦ observe (λ now. ok (is_dir_at env to now)) >>= λ is_dir.
        elim (is_ignored env to is_dir) [ true ↦ pure tt | false ↦ sync_file env provider cfg to ]
  ]

  -- `from_in_db`: the index is asked for a path that is not empty.
  abbrev pub in_index : Text → Act (State R) Bool
  in_index rel s = elim (is_empty rel) [
    | true ↦ (ok false, s)
    | false ↦ (ask_db (get_file rel) >>= λ e. pure (is_indexed e)) s
  ]

  -- `rename`, with the relative paths.
  unfoldable pub rename_rel : SyncPair → FilePath → Text → Text → Act (State R) (Unit {0})
  rename_rel primary to from_rel to_rel = gets (λ s. lookup s.path_cache from_rel) >>= λ from_entry.
      in_index from_rel >>= λ from_in_db. elim (drive_id_of from_entry) [
        | none ↦ sync_target to
        | some file_id ↦ elim from_in_db [
          | false ↦ sync_target to
          | true ↦ move_known primary to from_rel to_rel file_id
        ]
      ]

  unfoldable pub rename : FilePath → FilePath → Act (State R) (Unit {0})
  rename from to =
      observe (λ now. ok (is_ignored env from (is_dir_at env from now))) >>= λ from_ignored.
      elim from_ignored [
        | false ↦ pure false
        | true ↦ observe λ now. ok (is_ignored env to (is_dir_at env to now))
      ]
      >>= λ both_ignored. elim both_ignored [
        | true ↦ pure tt
        | false ↦ lift (or_context (codes "Aucun dossier") (get_primary_pair cfg)) >>= λ primary.
            let root = parse primary.local_path in
            rename_rel primary to (or_default (rel_str root from)) (or_default (rel_str root to))
      ]

  -- A simulation changes nothing.
  unfoldable pub handle : Bool → Task → Act (State R) (Unit {0})
  handle true task = pure tt
  handle false (Task.sync_file path) = sync_file env provider cfg path
  handle false (Task.delete path) = delete path
  handle false (Task.rename from to) = rename from to
