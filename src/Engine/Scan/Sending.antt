-- ===== src/Engine/Scan/Sending.antt =====
-- src/engine/scan.rs, phases 4 to 6: what they send to the workers.
use syncgdrive.Base.{
  ℕ, ◌+◌, Text, true, false, not, Bool-cases, List, [], ◌∷◌, ◌++◌, map, All, All-weaken, member,
  keep, append-nil, append_assoc, ok, Triple, bind-Triple, arith, ◌>>=◌, ◌≡◌, ◌⊎◌, refl, sym, ap,
  ◌∙◌, inl, inr, text_eq_refl,
}
use syncgdrive.Paths.{FilePath, parse, join}
use syncgdrive.Config.{AppConfig}
use syncgdrive.Remote.{RemoteIndex, RemoteFile}
use syncgdrive.Engine.Tasks.{Task, Channel, sync_file, delete, send}
use syncgdrive.Engine.Worker.{Environment, Provider, State}
use syncgdrive.Engine.Scan.{ScanState, Walk, check_shutdown, on_base}
use syncgdrive.Engine.Scan.Queueing.{
  relative_paths, submit, submit_delete, enqueue_files, delete_db_orphans, is_spared,
  delete_remote_orphan, delete_remote_orphans,
}
use syncgdrive.Engine.Scan.Run.{queue_tasks}

abbrev pub Sent : {R : Type 0} → List Task → ScanState R → Type 0
Sent ts s = s.channel.sent ≡ ts

-- The deletion of a file by its path below the root.
abbrev pub delete_below : FilePath → Text → Task
delete_below root rel = delete (join root (parse rel))

-- The rows of the index that the local listing lacks.
abbrev pub orphans : List Text → List Text → List Text
orphans local_rels db_index = keep (λ p. not (member p local_rels)) db_index

-- A remote file that neither the local listing nor the index has.
abbrev pub IsUnknown : List Text → List Text → List RemoteFile → Text → Type 0
IsUnknown local_rels db_index files rel =
    (member rel local_rels ≡ false)
    × (member rel db_index ≡ false)
    × (member rel (map (λ f. f.relative_path) files) ≡ true)

IsUnknown-cons :
    (local_rels db_index : List Text) (f : RemoteFile) (files : List RemoteFile) (rel : Text)
    → IsUnknown local_rels db_index files rel
    → IsUnknown local_rels db_index (f ∷ files) rel
unfolding member
IsUnknown-cons local_rels db_index f files rel (gone, lost, there) =
    (gone, lost, ground (arith, there))

first_member :
    (f : RemoteFile) (files : List RemoteFile)
    → member f.relative_path (map (λ g. g.relative_path) (f ∷ files)) ≡ true
unfolding member
first_member f files = rw (text_eq_refl f.relative_path) refl

send-sent :
    (task : Task) (ch : Channel)
    → (send task ch).0 ≡ true
    → (send task ch).1.sent ≡ ch.sent ++ task ∷ []
unfolding send
send-sent task ch e = ground arith

module _ {R : Type 0} where
  submit-Sent :
      (b : List Task) (task : Task)
      → Triple (Sent b) (submit {R = R} false task) (λ _. Sent (b ++ task ∷ []))
  unfolding submit
  submit-Sent b task s h a = elim (Bool-cases (send task s.channel).0) [
    | inl delivered ↦
        rw (delivered, submit)
          (λ e. send-sent task s.channel delivered ∙ ap (λ ts. ts ++ task ∷ []) h)
    | inr closed ↦ rw (closed, submit) (λ e. absurd (ground (arith, e)))
  ]

  submit_delete-Sent :
      (b : List Task) (path : FilePath)
      → Triple (Sent b) (submit_delete {R = R} false path) (λ _. Sent (b ++ delete path ∷ []))
  unfolding submit_delete
  submit_delete-Sent b path =
      bind-Triple _ (λ _. Sent b) (λ _. Sent (b ++ delete path ∷ [])) _ _ (λ s h a e. h)
        λ _. submit-Sent b (delete path)

  module _ (env : Environment) where
    check_shutdown-Sent :
        (b : List Task) → Triple (Sent b) (check_shutdown {R = R} env) (λ _. Sent b)
    unfolding check_shutdown
    check_shutdown-Sent b s h a e = ground (arith, h)

    enqueue_files-Sent :
        (b : List Task) (i total : ℕ) (paths : List FilePath)
        → Triple
            (Sent b)
            (enqueue_files {R = R} env false i total paths)
            (λ _. Sent (b ++ map sync_file paths))
    unfolding enqueue_files
    enqueue_files-Sent b i total [] = λ s h a e. h ∙ sym (append-nil b)
    enqueue_files-Sent b i total (path ∷ paths) =
        let all = λ (_ : Unit {0}).
          λ (s : ScanState R). Sent (b ++ sync_file path ∷ map sync_file paths) s in
        bind-Triple _ (λ _. Sent b) all _ _ (check_shutdown-Sent b)
          λ _.
            bind-Triple _ (λ _. Sent b) all _ _ (λ s h a e. h)
              λ _.
                bind-Triple _ (λ _. Sent (b ++ sync_file path ∷ [])) all _ _
                  (submit-Sent b (sync_file path))
                  λ _ s h a e.
                    enqueue_files-Sent (b ++ sync_file path ∷ []) (i + 1) total paths s h a e
                    ∙ append_assoc b (sync_file path ∷ []) (map sync_file paths)

    delete_db_orphans-Sent :
        (b : List Task) (root : FilePath) (local_rels db_paths : List Text)
        → Triple
            (Sent b)
            (delete_db_orphans {R = R} env false root local_rels db_paths)
            (λ _. Sent (b ++ map (delete_below root) (orphans local_rels db_paths)))
    unfolding delete_db_orphans keep
    delete_db_orphans-Sent b root local_rels [] = λ s h a e. h ∙ sym (append-nil b)
    delete_db_orphans-Sent b root local_rels (p ∷ ps) =
        let rest = map (delete_below root) (orphans local_rels ps) in
        elim (Bool-cases (member p local_rels)) [
          | inl here ↦ rw here (
              let all = λ (_ : Unit {0}). λ (s : ScanState R). Sent (b ++ rest) s in
              bind-Triple _ (λ _. Sent b) all _ _ (check_shutdown-Sent b)
                λ _.
                  bind-Triple _ (λ _. Sent b) all _ _ (λ s h a e. h)
                    λ _. delete_db_orphans-Sent b root local_rels ps)
          | inr gone ↦ rw gone (
              let all =
                λ (_ : Unit {0}). λ (s : ScanState R). Sent (b ++ delete_below root p ∷ rest) s in
              bind-Triple _ (λ _. Sent b) all _ _ (check_shutdown-Sent b)
                λ _.
                  bind-Triple _ (λ _. Sent (b ++ delete_below root p ∷ [])) all _ _
                    (submit_delete-Sent b _)
                    λ _ s h a e.
                      delete_db_orphans-Sent (b ++ delete_below root p ∷ []) root local_rels ps s h
                        a e
                      ∙ append_assoc b (delete_below root p ∷ []) rest)
        ]

    is_spared-member :
        (db_index : List Text) (rel : Text) (path : FilePath) (s : State R)
        → (is_spared {R = R} env db_index rel path s).0 ≡ ok false
        → member rel db_index ≡ false
    unfolding is_spared ◌>>=◌
    is_spared-member db_index rel path s e = ground (arith, e)

    -- The paths that were sent for deletion, and why.
    abbrev Reported : List Task → FilePath → (Text → Type 0) → ScanState R → Type 0
    Reported b root P s =
        (rels : List Text) × Sent (b ++ map (delete_below root) rels) s × All P rels

    abbrev Done : List Task → FilePath → List Text → List Text → Text → ScanState R → Type 0
    Done b root local_rels db_index rel s =
        Sent b s
        ⊎ (Sent (b ++ delete_below root rel ∷ []) s
            × (member rel local_rels ≡ false)
            × (member rel db_index ≡ false))

    delete_remote_orphan-Sent :
        (b : List Task) (root : FilePath) (local_rels db_index : List Text) (rel : Text)
        → Triple
            (Sent b)
            (delete_remote_orphan {R = R} env false root local_rels db_index rel)
            (λ _. Done b root local_rels db_index rel)
    unfolding delete_remote_orphan
    delete_remote_orphan-Sent b root local_rels db_index rel s h a =
        elim (Bool-cases (member rel local_rels)) [
          | inl here ↦ rw (here, delete_remote_orphan) (λ e. inl h)
          | inr gone ↦
              rw (gone, delete_remote_orphan)
                (bind-Triple (Sent b)
                  (λ spared t. Sent b t × (spared ≡ false → member rel db_index ≡ false))
                  (λ _ t.
                    Sent b t
                    ⊎ (Sent (b ++ delete_below root rel ∷ []) t
                        × (false ≡ false)
                        × (member rel db_index ≡ false)))
                  (on_base (is_spared env db_index rel (join root (parse rel)))) _
                  (λ t k spared e.
                    (k, λ lost. is_spared-member db_index rel _ t.base (e ∙ ap (λ b. ok b) lost)))
                  (λ spared t k c. elim (Bool-cases spared) [
                    | inl kept ↦ rw kept (λ e. inl k.0)
                    | inr lost ↦
                        rw lost (λ e. inr (submit_delete-Sent b _ t k.0 c e, refl, k.1 lost))
                  ])
                  s h a)
        ]

    delete_remote_orphans-Sent :
        (b : List Task) (root : FilePath) (local_rels db_index : List Text)
        (files : List RemoteFile)
        → Triple
            (Sent b)
            (delete_remote_orphans {R = R} env false root local_rels db_index files)
            (λ _. Reported b root (IsUnknown local_rels db_index files))
    unfolding delete_remote_orphans
    delete_remote_orphans-Sent b root local_rels db_index [] =
        λ s h a e. ([], h ∙ sym (append-nil b), tt)
    delete_remote_orphans-Sent b root local_rels db_index (f ∷ files) =
        let rel = f.relative_path in
        let P = IsUnknown local_rels db_index (f ∷ files) in
        let all = λ (_ : Unit {0}). Reported b root P in
        let later = λ (r : Text) (h : IsUnknown local_rels db_index files r).
          IsUnknown-cons local_rels db_index f files r h in
        bind-Triple _ (λ _. Sent b) all _ _ (check_shutdown-Sent b)
          λ _.
            bind-Triple _ (λ _. Done b root local_rels db_index rel) all _ _
              (delete_remote_orphan-Sent b root local_rels db_index rel)
              λ _ s done a e. elim done [
                | inl h ↦
                    let (rels, k, unknown) =
                      delete_remote_orphans-Sent b root local_rels db_index files s h a e in
                    (rels, k, All-weaken _ P later rels unknown)
                | inr (h, gone, lost) ↦
                    let (rels, k, unknown) =
                      delete_remote_orphans-Sent (b ++ delete_below root rel ∷ []) root local_rels
                        db_index files s h a e in
                    (
                      rel ∷ rels,
                      k ∙ append_assoc b (delete_below root rel ∷ []) _,
                      ((gone, lost, first_member f files), All-weaken _ P later rels unknown),
                    )
              ]

    -- Where the phases 4 to 6 of a scan that is no simulation end well, they have sent, in this order:
    -- every file to synchronise, the deletion of every row of the index that the local listing lacks,
    -- and deletions of remote files whose relative paths neither the local listing nor the index has.
    pub queue_tasks-Sent :
        (walk : Walk) (provider : Provider R) (cfg : AppConfig) (root : FilePath)
        (index : RemoteIndex) (files : List FilePath) (db_index : List Text)
        (to_sync : List FilePath) (s : ScanState R)
        → (queue_tasks env walk provider cfg false root index files db_index to_sync s).0 ≡ ok tt
        → (rels : List Text) × ((queue_tasks env walk provider cfg false root index files db_index
              to_sync s).1.channel.sent
            ≡ s.channel.sent
              ++ map sync_file to_sync
              ++ map (delete_below root) (orphans (relative_paths root files) db_index)
              ++ map (delete_below root) rels)
          × All (IsUnknown (relative_paths root files) db_index index.files) rels
    unfolding queue_tasks
    queue_tasks-Sent walk provider cfg root index files db_index to_sync s =
        let P = IsUnknown (relative_paths root files) db_index index.files in
        let all = λ (_ : Unit {0}).
          Reported
            (s.channel.sent
              ++ map sync_file to_sync
              ++ map (delete_below root) (orphans (relative_paths root files) db_index))
            root P in
        bind-Triple (Sent s.channel.sent) (λ _. Sent (s.channel.sent ++ map sync_file to_sync)) all
          _ _ (enqueue_files-Sent s.channel.sent 0 _ to_sync)
          (λ _.
            bind-Triple _ (λ _. Sent _) all _ _ (delete_db_orphans-Sent _ root _ db_index)
              λ _. delete_remote_orphans-Sent _ root _ db_index index.files)
          s refl tt
