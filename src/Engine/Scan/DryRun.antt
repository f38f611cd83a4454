-- ===== src/Engine/Scan/DryRun.antt =====
-- src/engine/scan.rs: what a simulated scan sends and counts.
use syncgdrive.Base.{
  ℕ, ◌+◌, ◌≡◌, refl, ◌∙◌, Text, codes, true, List, [], ◌∷◌, ◌++◌, Result-cases, ◌⊎◌, Act, Keeps,
  bind-Keeps, arith, ◌>>=◌, Option-cases, inl, inr, some, Bool-cases, member,
}
use syncgdrive.Paths.{FilePath, parse, join, strip_prefix}
use syncgdrive.Config.{AppConfig, SyncPair, get_primary_pair}
use syncgdrive.Remote.{RemoteIndex, RemoteFile}
use syncgdrive.Engine.Status.{scan_progress, remote_listing}
use syncgdrive.Engine.Worker.{Environment, Provider, State}
use syncgdrive.Engine.Scan.{
  remote_index, fill_cache, ScanState, Walk, Entry, Listing, check_shutdown, new_dir, ensure_parts,
  ensure_dir, create_dirs, list_local,
}
use syncgdrive.Engine.Scan.Compare.{
  has_changed, adopt, must_sync, compare_files, retain_filled, sum_len,
}
use syncgdrive.Engine.Scan.Queueing.{
  submit, submit_delete, enqueue_files, delete_db_orphans, is_spared, delete_remote_orphan,
  delete_remote_orphans,
}
use syncgdrive.Engine.Scan.Run.{run_listed, queue_tasks, compare, synchronise, run}

-- The tracker and the remote side are as they were.
abbrev pub Calm : {R : Type 0} → State R → State R → Type 0
Calm s s' = (s'.tracker ≡ s.tracker) × (s'.remote ≡ s.remote)

-- So is the channel to the workers.
abbrev pub Silent : {R : Type 0} → ScanState R → ScanState R → Type 0
Silent s s' = (s'.channel ≡ s.channel) × Calm s.base s'.base

module _ {R : Type 0} where
  Calm-trans : (s t u : State R) → Calm s t → Calm t u → Calm s u
  Calm-trans s t u h k = (k.0 ∙ h.0, k.1 ∙ h.1)

  Silent-trans : (s t u : ScanState R) → Silent s t → Silent t u → Silent s u
  Silent-trans s t u h k = (k.0 ∙ h.0, Calm-trans s.base t.base u.base h.1 k.1)

  bind-Calm :
      {A B : Type 0} (m : Act (State R) A) (f : A → Act (State R) B)
      → Keeps Calm m
      → ((a : A) → Keeps Calm (f a))
      → Keeps Calm (m >>= f)
  bind-Calm = bind-Keeps Calm (λ s. (refl, refl)) Calm-trans

  bind-Silent :
      {A B : Type 0} (m : Act (ScanState R) A) (f : A → Act (ScanState R) B)
      → Keeps Silent m
      → ((a : A) → Keeps Silent (f a))
      → Keeps Silent (m >>= f)
  bind-Silent = bind-Keeps Silent (λ s. (refl, (refl, refl))) Silent-trans

  module _ (env : Environment) where
    check_shutdown-Silent : Keeps Silent (check_shutdown {R = R} env)
    unfolding check_shutdown
    check_shutdown-Silent s = ground arith

    must_sync-Calm :
        (db_index : List Text) (path : FilePath) (rel : Text)
        → Keeps Calm (must_sync {R = R} env db_index path rel)
    unfolding must_sync has_changed adopt ◌>>=◌
    must_sync-Calm db_index path rel s = ground arith

    compare_files-Silent :
        (root : FilePath) (db_index : List Text) (i total : ℕ) (paths to_sync : List FilePath)
        → Keeps Silent (compare_files {R = R} env root db_index i total paths to_sync)
    unfolding compare_files
    compare_files-Silent root db_index i total [] to_sync = λ s. (refl, (refl, refl))
    compare_files-Silent root db_index i total (path ∷ paths) to_sync =
        bind-Silent _ _ check_shutdown-Silent λ _. elim (Option-cases (strip_prefix root path)) [
          | inl outside ↦
              rw outside (compare_files-Silent root db_index (i + 1) total paths to_sync)
          | inr (rel, inside) ↦ rw inside (
              bind-Silent _ _ (λ s. ground arith)
                λ _.
                  bind-Silent _ _ (λ s. (refl, must_sync-Calm db_index path _ s.base))
                    λ sync. compare_files-Silent root db_index (i + 1) total paths _)
        ]

    retain_filled-Calm : (paths : List FilePath) → Keeps Calm (retain_filled {R = R} env paths)
    unfolding retain_filled
    retain_filled-Calm [] = λ s. (refl, refl)
    retain_filled-Calm (path ∷ paths) =
        bind-Calm _ _ (λ s. (refl, refl))
          λ len. bind-Calm _ _ (retain_filled-Calm paths) λ rest. λ s. ground arith

    sum_len-Calm : (paths : List FilePath) → Keeps Calm (sum_len {R = R} env paths)
    unfolding sum_len
    sum_len-Calm [] = λ s. (refl, refl)
    sum_len-Calm (path ∷ paths) =
        bind-Calm _ _ (λ s. (refl, refl))
          λ len. bind-Calm _ _ (sum_len-Calm paths) λ rest. λ s. (refl, refl)

    enqueue_files-Silent :
        (i total : ℕ) (paths : List FilePath)
        → Keeps Silent (enqueue_files {R = R} env true i total paths)
    unfolding enqueue_files submit
    enqueue_files-Silent i total [] = λ s. (refl, (refl, refl))
    enqueue_files-Silent i total (path ∷ paths) = bind-Silent _ _ check_shutdown-Silent λ _.
        bind-Silent _ _ (λ s. (refl, (refl, refl)))
          λ _.
            bind-Silent _ _ (λ s. (refl, (refl, refl)))
              λ _. enqueue_files-Silent (i + 1) total paths

    submit_delete-Silent : (path : FilePath) → Keeps Silent (submit_delete {R = R} true path)
    unfolding submit_delete submit ◌>>=◌
    submit_delete-Silent path s = (refl, (refl, refl))

    delete_db_orphans-Silent :
        (root : FilePath) (local_rels db_paths : List Text)
        → Keeps Silent (delete_db_orphans {R = R} env true root local_rels db_paths)
    unfolding delete_db_orphans
    delete_db_orphans-Silent root local_rels [] = λ s. (refl, (refl, refl))
    delete_db_orphans-Silent root local_rels (p ∷ ps) = bind-Silent _ _ check_shutdown-Silent λ _.
        bind-Silent _ _ (λ s. ground (arith, submit_delete-Silent (join root (parse p)) s))
          λ _. delete_db_orphans-Silent root local_rels ps

    is_spared-Calm :
        (db_index : List Text) (rel : Text) (path : FilePath)
        → Keeps Calm (is_spared {R = R} env db_index rel path)
    unfolding is_spared ◌>>=◌
    is_spared-Calm db_index rel path s = ground arith

    delete_remote_orphan-Silent :
        (root : FilePath) (local_rels db_index : List Text) (rel : Text)
        → Keeps Silent (delete_remote_orphan {R = R} env true root local_rels db_index rel)
    unfolding delete_remote_orphan
    delete_remote_orphan-Silent root local_rels db_index rel =
        elim (Bool-cases (member rel local_rels)) [
          | inl here ↦ rw (here, delete_remote_orphan) (λ s. (refl, (refl, refl)))
          | inr gone ↦
              rw (gone, delete_remote_orphan)
                (bind-Silent _ _ (λ s. (refl, is_spared-Calm db_index rel _ s.base))
                  λ spared. λ s. ground (arith, submit_delete-Silent (join root (parse rel)) s))
        ]

    delete_remote_orphans-Silent :
        (root : FilePath) (local_rels db_index : List Text) (files : List RemoteFile)
        → Keeps Silent (delete_remote_orphans {R = R} env true root local_rels db_index files)
    unfolding delete_remote_orphans
    delete_remote_orphans-Silent root local_rels db_index [] = λ s. (refl, (refl, refl))
    delete_remote_orphans-Silent root local_rels db_index (f ∷ files) =
        bind-Silent _ _ check_shutdown-Silent λ _.
          bind-Silent _ _ (delete_remote_orphan-Silent root local_rels db_index f.relative_path)
            λ _. delete_remote_orphans-Silent root local_rels db_index files

    list_local-Silent :
        (root : FilePath) (n : ℕ) (entries : List Entry) (found : Listing)
        → Keeps Silent (list_local {R = R} env root n entries found)
    unfolding list_local
    list_local-Silent root n [] found = λ s. (refl, (refl, refl))
    list_local-Silent root n (e ∷ es) found =
        bind-Silent _ _ check_shutdown-Silent
          λ _. bind-Silent _ _ (λ s. ground arith) λ _. list_local-Silent root (n + 1) es _

    module _ (provider : Provider R) (cfg : AppConfig) where
      ensure_parts-Silent :
          (parts : List Text) (rel parent : Text)
          → Keeps Silent (ensure_parts env provider cfg true parts rel parent)
      unfolding ensure_parts new_dir
      ensure_parts-Silent [] rel parent = λ s. (refl, (refl, refl))
      ensure_parts-Silent (part ∷ parts) rel parent =
          bind-Silent _ _ (λ s. (refl, (refl, refl)))
            λ known. elim (Option-cases known) [
              | inl missing ↦ rw missing (
                  bind-Silent _ _ (λ s. (refl, (refl, refl)))
                    λ id.
                      bind-Silent _ _ (λ s. (refl, (refl, refl)))
                        λ _. ensure_parts-Silent parts _ _)
              | inr (id, there) ↦ rw there (ensure_parts-Silent parts _ _)
            ]

      ensure_dir-Silent :
          (primary : SyncPair) (rel : FilePath)
          → Keeps Silent (ensure_dir env provider cfg true primary rel)
      unfolding ensure_dir
      ensure_dir-Silent primary rel =
          bind-Silent _ _ (λ s. (refl, (refl, refl)))
            λ known. elim (Option-cases known) [
              | inl missing ↦ rw missing (ensure_parts-Silent rel.parts [] primary.remote_folder_id)
              | inr (id, there) ↦ rw there (λ s. (refl, (refl, refl)))
            ]

      create_dirs-Silent :
          (primary : SyncPair) (root : FilePath) (i total : ℕ) (dirs : List FilePath)
          → Keeps Silent (create_dirs env provider cfg true primary root i total dirs)
      unfolding create_dirs
      create_dirs-Silent primary root i total [] = λ s. (refl, (refl, refl))
      create_dirs-Silent primary root i total (dir ∷ dirs) =
          bind-Silent _ _ check_shutdown-Silent λ _.
            bind-Silent _ _ (λ s. (refl, (refl, refl)))
              λ rel.
                bind-Silent _ _ (λ s. (refl, (refl, refl)))
                  λ _.
                    bind-Silent _ _ (ensure_dir-Silent primary rel)
                      λ _. create_dirs-Silent primary root (i + 1) total dirs

      synchronise-Silent :
          (walk : Walk) (primary : SyncPair) (index : RemoteIndex) (found : Listing)
          → Keeps Silent (synchronise env walk provider cfg true primary index found)
      unfolding synchronise compare queue_tasks
      synchronise-Silent walk primary index found =
          bind-Silent _ _ (create_dirs-Silent primary _ 0 _ found.dirs) λ _.
            bind-Silent _ _ (λ s. (refl, (refl, refl)))
              λ _.
                bind-Silent _ _ (λ s. (refl, (refl, refl)))
                  λ db_index.
                    bind-Silent _ _
                      (bind-Silent _ _ (compare_files-Silent _ db_index 0 _ found.files [])
                        λ to_sync.
                          bind-Silent _ _ (λ s. (refl, retain_filled-Calm to_sync s.base))
                            λ filled.
                              bind-Silent _ _ (λ s. (refl, sum_len-Calm filled s.base))
                                λ bytes.
                                  bind-Silent _ _ (λ s. (refl, (refl, refl)))
                                    λ _. λ s. (refl, (refl, refl)))
                      λ to_sync. bind-Silent _ _ (enqueue_files-Silent 0 _ to_sync) λ _.
                        bind-Silent _ _ (delete_db_orphans-Silent _ _ db_index)
                          λ _. delete_remote_orphans-Silent _ _ db_index index.files

      run_listed-Silent :
          (walk : Walk) (primary : SyncPair) (index : RemoteIndex)
          → Keeps Silent (run_listed env walk provider cfg true primary index)
      unfolding run_listed fill_cache
      run_listed-Silent walk primary index =
          bind-Silent _ _ (λ s. (refl, (refl, refl)))
            λ _.
              bind-Silent _ _ (λ s. (refl, (refl, refl)))
                λ _. bind-Silent _ _ (list_local-Silent _ 0 _ _) λ found.
                  bind-Silent _ _ (synchronise-Silent walk primary index found)
                    λ _. λ s. (refl, (refl, refl))

      remote_index-listed :
          (id : Text) (s : ScanState R)
          → let s' = (remote_index provider id s).1 in
            (s'.channel ≡ s.channel)
            × (s'.base.tracker ≡ s.base.tracker)
            × (s'.base.remote ≡ (provider.list_remote id s.base.remote).1)
      unfolding remote_index
      remote_index-listed id s = elim (Result-cases (provider.list_remote id s.base.remote).0) [
        | inl (index, listed) ↦ rw (remote_index, listed) (refl, refl, refl)
        | inr (e, failed) ↦ rw (remote_index, failed) (refl, refl, refl)
      ]

      -- A simulated scan, however it ends, leaves the channel to the workers and the tracker as they
      -- were, and asks the remote side for nothing but one listing of the folder of the active pair.
      pub run-dry_run :
          (walk : Walk) (s : ScanState R)
          → let s' = (run env walk provider cfg true s).1 in
            (s'.channel ≡ s.channel)
            × (s'.base.tracker ≡ s.base.tracker)
            × ((s'.base.remote ≡ s.base.remote)
                ⊎ ((primary : SyncPair) × (get_primary_pair cfg ≡ some primary)
                    × (s'.base.remote
                        ≡ (provider.list_remote primary.remote_folder_id s.base.remote).1)))
      unfolding run ◌>>=◌
      run-dry_run walk s = elim (Option-cases (get_primary_pair cfg)) [
        | inl nothing ↦ rw (run, nothing, ◌>>=◌) (refl, refl, inl refl)
        | inr (primary, active) ↦
            let s1 = record s {
              statuses =
                  s.statuses ++ scan_progress remote_listing 0 0 (codes "listing remote…") ∷ [];
            } in
            let h = remote_index-listed primary.remote_folder_id s1 in
            elim (Result-cases (remote_index provider primary.remote_folder_id s1).0) [
              | inl (index, listed) ↦
                  rw (run, active, ◌>>=◌, listed)
                    (let k =
                        run_listed-Silent walk primary index
                          (remote_index provider primary.remote_folder_id s1).1 in
                      (k.0 ∙ h.0, k.1.0 ∙ h.1, inr (primary, refl, k.1.1 ∙ h.2)))
              | inr (e, failed) ↦
                  rw (run, active, ◌>>=◌, failed) (h.0, h.1, inr (primary, refl, h.2))
            ]
      ]
