-- ===== src/Remote/GDrive/Walk.antt =====
-- src/remote/gdrive.rs: the breadth-first walk, beside a depth-first walk of the tree.
use syncgdrive.Base.{
  ℕ, zero, suc, ◌+◌, ◌≤◌, ◌<◌, Text, true, false, none, List, [], ◌∷◌, ◌++◌, map, All, append-nil,
  append_assoc, ok, bind-done, arith, ◌≡◌, refl, sym, ap, ◌∙◌,
}
use syncgdrive.Remote.{RemoteFile, RemoteDir, RemoteIndex}
use syncgdrive.Engine.Bandwidth.{BandwidthLimiter}
use syncgdrive.Engine.RateLimiter.{ApiRateLimiter}
use syncgdrive.Remote.GDrive.{Service}
use syncgdrive.Remote.GDrive.Listing.{
  Folder, Found, is_folder, dir_of, file_of, folder_of, add_item, add_items, list_pages, list_queue,
  list_remote,
}
use syncgdrive.Remote.GDrive.Tree.{
  Forest, done, file, folder, roots, folders, total, total-append, tree_files, tree_dirs, Pages,
  drive, Gives, list_pages-Gives,
}

module _ {J W : Type 0} (service : Service J W) where
  -- The server holds a forest at a folder, in at most so many pages each.
  abbrev pub Holds : W → Text → ℕ → Folder → Forest J → Type 0
  Holds w token pages at done = Unit
  Holds w token pages at (file item rest) =
      (is_folder service item ≡ false) × Holds w token pages at rest
  Holds w token pages at (folder item inner rest) =
      (is_folder service item ≡ true)
      × ((k : ℕ) × (k ≤ pages)
          × Pages service w token (folder_of service at item) none (roots inner) k)
      × Holds w token pages (folder_of service at item) inner
      × Holds w token pages at rest

  -- The folders in the queue, with what they hold.
  abbrev Entry : Type 0
  Entry = Folder × Forest J

  -- What one folder adds to the files, the directories and the queue.
  abbrev leaves : Folder → Forest J → List RemoteFile
  leaves at done = []
  leaves at (file item rest) = file_of service at item ∷ leaves at rest
  leaves at (folder item inner rest) = leaves at rest

  abbrev branches : Folder → Forest J → List RemoteDir
  branches at done = []
  branches at (file item rest) = branches at rest
  branches at (folder item inner rest) = dir_of service at item ∷ branches at rest

  abbrev children : Folder → Forest J → List Entry
  children at done = []
  children at (file item rest) = children at rest
  children at (folder item inner rest) = (folder_of service at item, inner) ∷ children at rest

  abbrev names : List Entry → List Folder
  names es = map (λ e. e.0) es

  abbrev queued_files : List Entry → List RemoteFile
  queued_files [] = []
  queued_files ((at, forest) ∷ es) = tree_files service at forest ++ queued_files es

  abbrev queued_dirs : List Entry → List RemoteDir
  queued_dirs [] = []
  queued_dirs ((at, forest) ∷ es) = tree_dirs service at forest ++ queued_dirs es

  abbrev queued_folders : List Entry → ℕ
  queued_folders [] = 0
  queued_folders ((at, forest) ∷ es) = 1 + folders forest + queued_folders es

  add_item-file :
      (at : Folder) (item : J) (found : Found)
      → is_folder service item ≡ false
      → add_item service at item found
        ≡ record found { files = found.files ++ file_of service at item ∷ [] }
  unfolding add_item
  add_item-file at item found plain = rw (add_item, plain) refl

  add_item-folder :
      (at : Folder) (item : J) (found : Found)
      → is_folder service item ≡ true
      → add_item service at item found ≡ record found {
        dirs = found.dirs ++ dir_of service at item ∷ [];
        queue = found.queue ++ folder_of service at item ∷ [];
      }
  unfolding add_item
  add_item-folder at item found dir = rw (add_item, dir) refl

  add_items-roots :
      (w : W) (token : Text) (pages : ℕ) (at : Folder) (forest : Forest J) (fs : List RemoteFile)
      (ds : List RemoteDir) (q : List Folder)
      → Holds w token pages at forest
      → add_items service at (roots forest) (record { files = fs; dirs = ds; queue = q }) ≡ record {
        files = fs ++ leaves at forest;
        dirs = ds ++ branches at forest;
        queue = q ++ names (children at forest);
      }
  unfolding add_items add_item
  add_items-roots w token pages at done fs ds q h =
      rw (append-nil fs, append-nil ds, append-nil q) refl
  add_items-roots w token pages at (file item rest) fs ds q (plain, h) =
      let x = file_of service at item in
      ap (add_items service at (roots rest))
        (add_item-file at item (record { files = fs; dirs = ds; queue = q }) plain)
      ∙ add_items-roots w token pages at rest (fs ++ x ∷ []) ds q h
      ∙ ap
          (λ v. record {
            files = v;
            dirs = ds ++ branches at rest;
            queue = q ++ names (children at rest);
          })
          (append_assoc fs (x ∷ []) (leaves at rest))
  add_items-roots w token pages at (folder item inner rest) fs ds q (dir, there, below, h) =
      let x = dir_of service at item in
      let y = folder_of service at item in
      ap (add_items service at (roots rest))
        (add_item-folder at item (record { files = fs; dirs = ds; queue = q }) dir)
      ∙ add_items-roots w token pages at rest fs (ds ++ x ∷ []) (q ++ y ∷ []) h
      ∙ ap
          (λ v. record {
            files = fs ++ leaves at rest;
            dirs = v;
            queue = (q ++ y ∷ []) ++ names (children at rest);
          })
          (append_assoc ds (x ∷ []) (branches at rest))
      ∙ ap
          (λ v. record {
            files = fs ++ leaves at rest;
            dirs = ds ++ x ∷ branches at rest;
            queue = v;
          })
          (append_assoc q (y ∷ []) (names (children at rest)))

  total-children :
      (weigh : RemoteFile → ℕ) (at : Folder) (forest : Forest J)
      → total weigh (tree_files service at forest)
        ≡ total weigh (leaves at forest) + total weigh (queued_files (children at forest))
  total-children weigh at done = omega arith
  total-children weigh at (file item rest) = omega (arith, total-children weigh at rest)
  total-children weigh at (folder item inner rest) = omega (
    arith,
    total-children weigh at rest,
    total-append weigh (tree_files service (folder_of service at item) inner)
        (tree_files service at rest),
    total-append weigh (tree_files service (folder_of service at item) inner)
        (queued_files (children at rest)),
  )

  folders-children :
      (at : Folder) (forest : Forest J) → queued_folders (children at forest) ≡ folders forest
  folders-children at done = refl
  folders-children at (file item rest) = folders-children at rest
  folders-children at (folder item inner rest) = omega (arith, folders-children at rest)

  total-branches :
      (weigh : RemoteDir → ℕ) (at : Folder) (forest : Forest J)
      → total weigh (tree_dirs service at forest)
        ≡ total weigh (branches at forest) + total weigh (queued_dirs (children at forest))
  total-branches weigh at done = omega arith
  total-branches weigh at (file item rest) = omega (arith, total-branches weigh at rest)
  total-branches weigh at (folder item inner rest) = omega (
    arith,
    total-branches weigh at rest,
    total-append weigh (tree_dirs service (folder_of service at item) inner)
        (tree_dirs service at rest),
    total-append weigh (tree_dirs service (folder_of service at item) inner)
        (queued_dirs (children at rest)),
  )

  queued_files-append :
      (weigh : RemoteFile → ℕ) (xs ys : List Entry)
      → total weigh (queued_files (xs ++ ys))
        ≡ total weigh (queued_files xs) + total weigh (queued_files ys)
  queued_files-append weigh [] ys = omega arith
  queued_files-append weigh ((at, forest) ∷ xs) ys = omega (
    arith,
    queued_files-append weigh xs ys,
    total-append weigh (tree_files service at forest) (queued_files (xs ++ ys)),
    total-append weigh (tree_files service at forest) (queued_files xs),
  )

  queued_dirs-append :
      (weigh : RemoteDir → ℕ) (xs ys : List Entry)
      → total weigh (queued_dirs (xs ++ ys))
        ≡ total weigh (queued_dirs xs) + total weigh (queued_dirs ys)
  queued_dirs-append weigh [] ys = omega arith
  queued_dirs-append weigh ((at, forest) ∷ xs) ys = omega (
    arith,
    queued_dirs-append weigh xs ys,
    total-append weigh (tree_dirs service at forest) (queued_dirs (xs ++ ys)),
    total-append weigh (tree_dirs service at forest) (queued_dirs xs),
  )

  queued_folders-append :
      (xs ys : List Entry) → queued_folders (xs ++ ys) ≡ queued_folders xs + queued_folders ys
  queued_folders-append [] ys = omega arith
  queued_folders-append ((at, forest) ∷ xs) ys = omega (arith, queued_folders-append xs ys)

  names-append : (xs ys : List Entry) → names (xs ++ ys) ≡ names xs ++ names ys
  names-append [] ys = refl
  names-append (e ∷ xs) ys = ap (λ v. e.0 ∷ v) (names-append xs ys)

  module _ (w : W) (token : Text) (authorised : service.get_valid_token w ≡ (ok token, w))
      (pages : ℕ) where
    abbrev IsHeld : Entry → Type 0
    IsHeld (at, forest) =
        ((k : ℕ) × (k ≤ pages) × Pages service w token at none (roots forest) k)
        × Holds w token pages at forest

    children-IsHeld :
        (at : Folder) (forest : Forest J)
        → Holds w token pages at forest
        → All IsHeld (children at forest)
    children-IsHeld at done h = tt
    children-IsHeld at (file item rest) (plain, h) = children-IsHeld at rest h
    children-IsHeld at (folder item inner rest) (dir, there, below, h) =
        ((there, below), children-IsHeld at rest h)

    append-IsHeld : (xs ys : List Entry) → All IsHeld xs → All IsHeld ys → All IsHeld (xs ++ ys)
    append-IsHeld [] ys h k = k
    append-IsHeld (x ∷ xs) ys (p, h) k = (p, append-IsHeld xs ys h k)

    -- The walk of a queue adds what its folders hold.
    list_queue-Gives :
        (n : ℕ) (es : List Entry) (fs : List RemoteFile) (ds : List RemoteDir)
        (l : BandwidthLimiter) (a : ApiRateLimiter) (c : ℕ)
        → All IsHeld es
        → queued_folders es < n
        → (index : RemoteIndex) × Gives service w token authorised l
            (list_queue service pages n
              (record { files = fs; dirs = ds; queue = names es })
              (drive service w token authorised l a c))
            index
          × ((weigh : RemoteFile → ℕ)
              → total weigh index.files ≡ total weigh fs + total weigh (queued_files es))
          × ((weigh : RemoteDir → ℕ)
              → total weigh index.dirs ≡ total weigh ds + total weigh (queued_dirs es))
    unfolding list_queue
    list_queue-Gives zero es fs ds l a c h k = absurd (omega (arith, k))
    list_queue-Gives (suc n) [] fs ds l a c h k =
        (record { files = fs; dirs = ds }, (a, c, refl), λ weigh. omega arith, λ weigh. omega arith)
    list_queue-Gives (suc n) ((at, forest) ∷ es) fs ds l a c (((j, few, held), holds), h) k =
        let found : Found = record { files = fs; dirs = ds; queue = names es } in
        let inner = children at forest in
        let (a', c', first) =
          list_pages-Gives service w token authorised at none (roots forest) j pages found l a c
            held few in
        let (index, (a'', c'', rest), files_sum, dirs_sum) =
          list_queue-Gives n (es ++ inner) (fs ++ leaves at forest) (ds ++ branches at forest) l a'
            c' (append-IsHeld es inner h (children-IsHeld at forest holds))
            (omega (arith, k, queued_folders-append es inner, folders-children at forest)) in
        let s = drive service w token authorised l a' c' in
        (
          index,
          (
            a'',
            c'',
            bind-done (list_pages service pages at none found) (λ f. list_queue service pages n f)
                  (drive service w token authorised l a c)
                  (add_items service at (roots forest) found) s first
                ∙ ap (λ f. list_queue service pages n f s)
                    (add_items-roots w token pages at forest fs ds (names es) holds)
                ∙ ap
                    (λ q.
                      list_queue service pages n
                        (record {
                          files = fs ++ leaves at forest;
                          dirs = ds ++ branches at forest;
                          queue = q;
                        })
                        s)
                    (sym (names-append es inner))
                ∙ rest,
          ),
          (λ weigh. omega (
            arith,
            files_sum weigh,
            total-append weigh fs (leaves at forest),
            queued_files-append weigh es inner,
            total-children weigh at forest,
            total-append weigh (tree_files service at forest) (queued_files es),
          )),
          λ weigh. omega (
            arith,
            dirs_sum weigh,
            total-append weigh ds (branches at forest),
            queued_dirs-append weigh es inner,
            total-branches weigh at forest,
            total-append weigh (tree_dirs service at forest) (queued_dirs es),
          ),
        )

    -- Where the server holds a tree of folders and gives each of them in a bounded number of pages, the
    -- listing of its root ends, with fuel for the pages of one folder and for one pass for each folder,
    -- one for the root and one for the end, and finds exactly the files and the directories of the tree, each as often as it is
    -- there, with the paths and the parents that a depth-first walk gives them.
    pub list_remote-tree :
        (root_id : Text) (forest : Forest J) (k n : ℕ) (l : BandwidthLimiter) (a : ApiRateLimiter)
        (c : ℕ)
        → Pages service w token (record { id = root_id; path = [] }) none (roots forest) k
        → k ≤ pages
        → Holds w token pages (record { id = root_id; path = [] }) forest
        → folders forest + 1 < n
        → (index : RemoteIndex) × ((list_remote service pages n root_id
              (drive service w token authorised l a c)).0
            ≡ ok index)
          × ((weigh : RemoteFile → ℕ)
              → total weigh index.files
                ≡ total weigh (tree_files service (record { id = root_id; path = [] }) forest))
          × ((weigh : RemoteDir → ℕ)
              → total weigh index.dirs
                ≡ total weigh (tree_dirs service (record { id = root_id; path = [] }) forest))
    unfolding list_remote
    list_remote-tree root_id forest k n l a c held few holds enough =
        let root : Folder = record { id = root_id; path = [] } in
        let (index, (a', c', e), files_sum, dirs_sum) =
          list_queue-Gives n ((root, forest) ∷ []) [] [] l a c (((k, few, held), holds), tt)
            (omega (arith, enough)) in
        (
          index,
          ap (λ r. r.0) e,
          (λ weigh.
              omega
                (arith, files_sum weigh, total-append weigh (tree_files service root forest) [])),
          λ weigh.
              omega (arith, dirs_sum weigh, total-append weigh (tree_dirs service root forest) []),
        )
