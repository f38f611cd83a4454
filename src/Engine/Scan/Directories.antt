-- ===== src/Engine/Scan/Directories.antt =====
-- src/engine/scan.rs, phase 2: the directories and the cache.
use syncgdrive.Base.{
  ℕ, ◌+◌, ◌-◌, Text, is_empty, Bool, true, false, Bool-cases, Option, some, Option-cases, List, [],
  ◌∷◌, ◌++◌, All, ok, or_context, Act, Keeps, bind-Keeps, arith, ◌>>=◌, ◌≡◌, refl, sym, ap, ◌∙◌,
  inl, inr, if◌then◌else◌, text_eq_iff, modify, Triple, bind-Triple, append-nil, append_assoc,
  length,
}
use syncgdrive.Paths.{FilePath, slash, render, join_slash, strip_prefix, strip_parts, is_part}
use syncgdrive.Paths.Prefix.{AreParts, strip_prefix-absolute}
use syncgdrive.Config.{AppConfig, SyncPair}
use syncgdrive.Remote.PathCache.{lookup, insert}
use syncgdrive.Remote.PathCache.Laws.{lookup-insert}
use syncgdrive.Engine.Worker.{Environment, Provider, is_known, on_remote, drive_id_of}
use syncgdrive.Engine.Worker.Attempts.{retry-Same}
use syncgdrive.Engine.Scan.{
  ScanState, with_cache, check_shutdown, is_below, new_dir, ensure_parts, ensure_dir, create_dirs,
}

abbrev pub Knows : {R : Type 0} → Text → ScanState R → Type 0
Knows k s = is_known (lookup s.base.path_cache k) ≡ true

-- The cache knows the path, relative to the root.
abbrev pub IsMade : {R : Type 0} → FilePath → ScanState R → FilePath → Type 0
IsMade root s dir = (rel : FilePath) × (strip_prefix root dir ≡ some rel) × Knows (render rel) s

-- Nothing that the cache knows is forgotten.
abbrev pub Grows : {R : Type 0} → ScanState R → ScanState R → Type 0
Grows s s' = (k : Text) → Knows k s → Knows k s'

-- The text that `ensure_parts` ends with.
abbrev text_after : Text → List Text → Text
text_after rel [] = rel
text_after rel (part ∷ parts) =
    text_after (if is_empty rel then part else rel ++ slash ∷ part) parts

abbrev tail_text : List Text → Text
tail_text [] = []
tail_text (part ∷ parts) = slash ∷ join_slash (part ∷ parts)

join_slash-cons :
    (part : Text) (parts : List Text) → join_slash (part ∷ parts) ≡ part ++ tail_text parts
unfolding join_slash
join_slash-cons part [] = sym (append-nil part)
join_slash-cons part (part' ∷ parts) = refl

text_after-tail_text :
    (c : ℕ) (rel : Text) (parts : List Text)
    → text_after (c ∷ rel) parts ≡ (c ∷ rel) ++ tail_text parts
text_after-tail_text c rel [] = sym (append-nil (c ∷ rel))
text_after-tail_text c rel (part ∷ parts) =
    rw (text_after-tail_text c (rel ++ slash ∷ part) parts, join_slash-cons part parts)
      (ap (λ t. c ∷ t) (append_assoc rel (slash ∷ part) (tail_text parts)))

text_after-join_slash :
    (parts : List Text) → AreParts parts → text_after [] parts ≡ join_slash parts
unfolding is_part join_slash
text_after-join_slash [] h = refl
text_after-join_slash ([] ∷ parts) h = absurd (ground (arith, h))
text_after-join_slash ((c ∷ part) ∷ parts) h =
    text_after-tail_text c part parts ∙ sym (join_slash-cons (c ∷ part) parts)

strip_parts-AreParts :
    (rs ps rest : List Text) → strip_parts rs ps ≡ some rest → AreParts ps → AreParts rest
unfolding strip_parts
strip_parts-AreParts [] ps rest e h = let same : rest ≡ ps = ground (arith, e) in rw same h
strip_parts-AreParts (r ∷ rs) [] rest e h = absurd (ground (arith, e))
strip_parts-AreParts (r ∷ rs) (p ∷ ps) rest e h =
    strip_parts-AreParts rs ps rest (ground (arith, e)) h.1

abbrev IsBelow : FilePath → Type 0
IsBelow rel = (rel.absolute ≡ false) × AreParts rel.parts × (is_empty rel.parts ≡ false)

-- A path below a root, as a walk of the root lists it.
abbrev pub IsDirectory : FilePath → FilePath → Type 0
IsDirectory root dir = (is_below root dir ≡ true) × AreParts dir.parts

strip_prefix-AreParts :
    (root p rel : FilePath) → strip_prefix root p ≡ some rel → AreParts p.parts → AreParts rel.parts
unfolding strip_prefix
strip_prefix-AreParts root p rel e h = elim (Option-cases (strip_parts root.parts p.parts)) [
  | inl outside ↦ absurd (ground (arith, e, outside))
  | inr (rest, inside) ↦
      let same : rel.parts ≡ rest = ground (arith, e, inside) in
      rw same (strip_parts-AreParts root.parts p.parts rest inside h)
]

IsBelow-IsBelow :
    (root dir rel : FilePath)
    → strip_prefix root dir ≡ some rel
    → IsDirectory root dir
    → IsBelow rel
IsBelow-IsBelow root dir rel inside (below, parts) = (
  (strip_prefix-absolute root dir rel inside).0,
  strip_prefix-AreParts root dir rel inside parts,
  ground (arith, below, inside),
)

or_context-some :
    (m : Text) (o : Option FilePath) (rel : FilePath) → or_context m o ≡ ok rel → o ≡ some rel
or_context-some m o rel e = ground (arith, e)

render-relative : (rel : FilePath) → rel.absolute ≡ false → render rel ≡ join_slash rel.parts
unfolding render
render-relative rel relative = rw relative refl

module _ {R : Type 0} where
  Grows-trans : (s t u : ScanState R) → Grows s t → Grows t u → Grows s u
  Grows-trans s t u h k key known = k key (h key known)

  bind-Grows :
      {A B : Type 0} (m : Act (ScanState R) A) (f : A → Act (ScanState R) B)
      → Keeps Grows m
      → ((a : A) → Keeps Grows (f a))
      → Keeps Grows (m >>= f)
  bind-Grows = bind-Keeps Grows (λ s k known. known) Grows-trans

  insert-Grows :
      (rel id parent : Text)
      → Keeps Grows (modify {S = ScanState R} (with_cache (λ cache. insert cache rel id parent)))
  insert-Grows rel id parent s k known =
      ground (arith, lookup-insert s.base.path_cache rel id parent k)

  insert-Knows :
      (rel id parent : Text) (s : ScanState R)
      → Knows rel (with_cache (λ cache. insert cache rel id parent) s)
  insert-Knows rel id parent s =
      ground (arith, lookup-insert s.base.path_cache rel id parent rel, text_eq_iff rel rel)

  known_of :
      (s : ScanState R) (rel id : Text)
      → drive_id_of (lookup s.base.path_cache rel) ≡ some id
      → Knows rel s
  known_of s rel id e = elim (Option-cases (lookup s.base.path_cache rel)) [
    | inl missing ↦ absurd (ground (arith, e, missing))
    | inr (entry, there) ↦ rw there refl
  ]

  module _ (env : Environment) (provider : Provider R) (cfg : AppConfig) (dry_run : Bool) where
    check_shutdown-Grows : Keeps Grows (check_shutdown {R = R} env)
    unfolding check_shutdown
    check_shutdown-Grows s k = ground arith

    new_dir-Grows :
        (rel parent part : Text) → Keeps Grows (new_dir env provider cfg dry_run rel parent part)
    unfolding new_dir
    new_dir-Grows rel parent part s k = elim (Bool-cases dry_run) [
      | inl dry ↦ rw dry (λ known. known)
      | inr wet ↦
          rw
            (
              wet,
              (retry-Same env (on_remote (provider.mkdir parent part)) (λ t. (refl, refl))
                  (cfg.retry.max_attempts - 1) s.base).0,
            )
            (λ known. known)
    ]

    ensure_parts-Grows :
        (parts : List Text) (rel parent : Text)
        → Keeps Grows (ensure_parts env provider cfg dry_run parts rel parent)
    unfolding ensure_parts
    ensure_parts-Grows [] rel parent = λ s k known. known
    ensure_parts-Grows (part ∷ parts) rel parent =
        bind-Grows _ _ (λ s k known. known)
          λ found. elim (Option-cases found) [
            | inl missing ↦ rw missing (
                bind-Grows _ _ (new_dir-Grows _ parent part) λ id.
                  bind-Grows _ _ (insert-Grows _ id parent) λ _. ensure_parts-Grows parts _ id)
            | inr (id, there) ↦ rw there (ensure_parts-Grows parts _ id)
          ]

    ensure_parts-Knows :
        (parts : List Text) (rel parent : Text)
        → Triple
            (λ s. is_empty parts ≡ true → Knows rel s)
            (ensure_parts env provider cfg dry_run parts rel parent)
            (λ _. Knows (text_after rel parts))
    unfolding ensure_parts
    ensure_parts-Knows [] rel parent = λ s known a e. known refl
    ensure_parts-Knows (part ∷ parts) rel parent =
        let rel' = if is_empty rel then part else rel ++ slash ∷ part in
        let all = λ (_ : Unit {0}). λ (s : ScanState R). Knows (text_after rel' parts) s in
        bind-Triple _ (λ found s. drive_id_of (lookup s.base.path_cache rel') ≡ found) all _ _
          (λ s _ a e. ground (arith, e))
          λ found. elim (Option-cases found) [
            | inl missing ↦ rw missing (
                bind-Triple _ (λ _ _. Unit) all _ _ (λ _ _ _ _. tt)
                  λ id.
                    bind-Triple _ (λ _. Knows rel') all _ _
                      (λ s _ _ _. insert-Knows rel' id parent s)
                      λ _. λ s known. ensure_parts-Knows parts rel' id s (λ _. known))
            | inr (id, there) ↦
                rw there
                  (λ s known. ensure_parts-Knows parts rel' id s (λ _. known_of s rel' id known))
          ]

    ensure_dir-Grows :
        (primary : SyncPair) (rel : FilePath)
        → Keeps Grows (ensure_dir env provider cfg dry_run primary rel)
    unfolding ensure_dir
    ensure_dir-Grows primary rel =
        bind-Grows _ _ (λ s k known. known)
          λ found. elim (Option-cases found) [
            | inl missing ↦ rw missing (ensure_parts-Grows rel.parts [] primary.remote_folder_id)
            | inr (id, there) ↦ rw there (λ s k known. known)
          ]

    ensure_dir-Knows :
        (primary : SyncPair) (rel : FilePath)
        → IsBelow rel
        → Triple
            (λ _. Unit)
            (ensure_dir env provider cfg dry_run primary rel)
            (λ _. Knows (render rel))
    unfolding ensure_dir
    ensure_dir-Knows primary rel (relative, parts, some_part) =
        let all = λ (_ : Unit {0}). λ (s : ScanState R). Knows (render rel) s in
        bind-Triple _ (λ found s. drive_id_of (lookup s.base.path_cache (render rel)) ≡ found) all _
          _ (λ s _ a e. ground (arith, e))
          λ found. elim (Option-cases found) [
            | inl missing ↦ rw missing (λ s _ a e.
                rw (render-relative rel relative, sym (text_after-join_slash rel.parts parts))
                  (ensure_parts-Knows rel.parts [] primary.remote_folder_id s
                    (λ nil. absurd (ground (arith, nil, some_part))) a e))
            | inr (id, there) ↦ rw there (λ s known a e. known_of s (render rel) id known)
          ]

    create_dirs-Grows :
        (primary : SyncPair) (root : FilePath) (i total : ℕ) (dirs : List FilePath)
        → Keeps Grows (create_dirs env provider cfg dry_run primary root i total dirs)
    unfolding create_dirs
    create_dirs-Grows primary root i total [] = λ s k known. known
    create_dirs-Grows primary root i total (dir ∷ dirs) = bind-Grows _ _ check_shutdown-Grows λ _.
        bind-Grows _ _ (λ s k known. known)
          λ rel.
            bind-Grows _ _ (λ s k known. known)
              λ _.
                bind-Grows _ _ (ensure_dir-Grows primary rel)
                  λ _. create_dirs-Grows primary root (i + 1) total dirs

    create_dirs-IsMade :
        (primary : SyncPair) (root : FilePath) (i total : ℕ) (dirs : List FilePath)
        → All (IsDirectory root) dirs
        → Triple
            (λ _. Unit)
            (create_dirs env provider cfg dry_run primary root i total dirs)
            (λ _ s. All (IsMade root s) dirs)
    unfolding create_dirs
    create_dirs-IsMade primary root i total [] below = λ s _ a e. tt
    create_dirs-IsMade primary root i total (dir ∷ dirs) (below, belows) =
        let all =
          λ (_ : Unit {0}). λ (s : ScanState R). IsMade root s dir × All (IsMade root s) dirs in
        bind-Triple _ (λ _ _. Unit) all _ _ (λ _ _ _ _. tt)
          λ _.
            bind-Triple _ (λ rel _. strip_prefix root dir ≡ some rel) all _ _
              (λ s _ rel e. or_context-some _ (strip_prefix root dir) rel e)
              λ rel s inside.
                bind-Triple (λ _. Unit) (λ _ _. Unit) all _ _ (λ _ _ _ _. tt)
                  (λ _.
                    bind-Triple _ (λ _. Knows (render rel)) all _ _
                      (ensure_dir-Knows primary rel (IsBelow-IsBelow root dir rel inside below))
                      (λ _ s known a e. (
                        (
                          rel,
                          inside,
                          create_dirs-Grows primary root (i + 1) total dirs s (render rel) known,
                        ),
                        create_dirs-IsMade primary root (i + 1) total dirs belows s tt a e,
                      )))
                  s tt

    -- Where the creation of the missing directories succeeds, simulated or not, the cache knows an
    -- identifier for every directory below the root that the local listing has, whatever it knew before.
    pub create_dirs-Knows :
        (primary : SyncPair) (root : FilePath) (dirs : List FilePath) (s : ScanState R)
        → All (IsDirectory root) dirs
        → (create_dirs env provider cfg dry_run primary root 0 (length dirs) dirs s).0 ≡ ok tt
        → All
            (IsMade root
              (create_dirs env provider cfg dry_run primary root 0 (length dirs) dirs s).1)
            dirs
    create_dirs-Knows primary root dirs s below e =
        create_dirs-IsMade primary root 0 (length dirs) dirs below s tt tt e
