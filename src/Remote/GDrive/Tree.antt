-- ===== src/Remote/GDrive/Tree.antt =====
-- src/remote/gdrive.rs: the tree that the server holds, and the listing of one folder.
use syncgdrive.Base.{
  ℕ, zero, suc, ◌+◌, ◌≤◌, Text, codes, Option, none, some, List, [], ◌∷◌, ◌++◌, Result, ok, Act,
  bind-done, arith, pure, context, ◌>>=◌, ◌≡◌, refl, ap, ◌∙◌,
}
use syncgdrive.Remote.{RemoteFile, RemoteDir}
use syncgdrive.Engine.Bandwidth.{BandwidthLimiter}
use syncgdrive.Engine.RateLimiter.{ApiRateLimiter}
use syncgdrive.Engine.RateLimiter as RateLimiter
use syncgdrive.Remote.GDrive.{Response, Service, Drive, acquire, get_token, check_success}
use syncgdrive.Remote.GDrive.Listing.{
  Folder, Found, list_request, dir_of, file_of, folder_of, add_item, add_items, items_of,
  next_token, ask_page, take_page, list_pages,
}

-- What a folder holds: files and folders, one after another.
pub data Forest (J : Type 0) : Type 0 where
  done : Forest J
  file : J → Forest J → Forest J
  folder : J → Forest J → Forest J → Forest J

module _ {J : Type 0} where
  abbrev pub roots : Forest J → List J
  roots done = []
  roots (file item rest) = item ∷ roots rest
  roots (folder item inner rest) = item ∷ roots rest

  -- The number of its folders.
  abbrev pub folders : Forest J → ℕ
  folders done = 0
  folders (file item rest) = folders rest
  folders (folder item inner rest) = 1 + folders inner + folders rest

-- The sum of a weight over a list: two lists with the same sums have the same elements, each as often.
abbrev pub total : {A : Type 0} → (A → ℕ) → List A → ℕ
total weight [] = 0
total weight (x ∷ xs) = weight x + total weight xs

pub total-append :
    {A : Type 0} (weight : A → ℕ) (xs ys : List A)
    → total weight (xs ++ ys) ≡ total weight xs + total weight ys
total-append weight [] ys = omega arith
total-append weight (x ∷ xs) ys = omega (arith, total-append weight xs ys)

module _ {J W : Type 0} (service : Service J W) where
  -- The files and the directories below a folder, depth first.
  abbrev pub tree_files : Folder → Forest J → List RemoteFile
  tree_files at done = []
  tree_files at (file item rest) = file_of service at item ∷ tree_files at rest
  tree_files at (folder item inner rest) =
      tree_files (folder_of service at item) inner ++ tree_files at rest

  abbrev pub tree_dirs : Folder → Forest J → List RemoteDir
  tree_dirs at done = []
  tree_dirs at (file item rest) = tree_dirs at rest
  tree_dirs at (folder item inner rest) =
      dir_of service at item ∷ tree_dirs (folder_of service at item) inner ++ tree_dirs at rest

  -- A response with status 200 and a page.
  abbrev pub page_response : Option Text → Option Text → J → Response J
  page_response retry_after location page = record {
    status = 200;
    retry_after = retry_after;
    location = location;
    data_of = ok page;
  }

  -- A page that the server answers with, while the world stays as it is.
  abbrev pub Answers : W → Text → Folder → Option Text → J → Type 0
  Answers w token at page_token page =
      (retry_after : Option Text) × (location : Option Text) × (service.send
          (list_request service token at.id page_token) w
        ≡ (ok (page_response retry_after location page), w))

  -- The pages of a folder, from one on, with their items and their number.
  pub data Pages (w : W) (token : Text) (at : Folder) : Option Text → List J → ℕ → Type 0 where
    last :
        (page_token : Option Text) (page : J)
        → Answers w token at page_token page
        → next_token service page ≡ none
        → Pages w token at page_token (items_of service page) 1
    more :
        (page_token : Option Text) (page : J) (next : Text) (rest : List J) (n : ℕ)
        → Answers w token at page_token page
        → next_token service page ≡ some next
        → Pages w token at (some next) rest n
        → Pages w token at page_token (items_of service page ++ rest) (suc n)

  add_items-append :
      (at : Folder) (xs ys : List J) (found : Found)
      → add_items service at (xs ++ ys) found
        ≡ add_items service at ys (add_items service at xs found)
  unfolding add_items
  add_items-append at [] ys found = refl
  add_items-append at (x ∷ xs) ys found = add_items-append at xs ys (add_item service at x found)

  module _ (w : W) (token : Text) (authorised : service.get_valid_token w ≡ (ok token, w)) where
    abbrev pub drive : BandwidthLimiter → ApiRateLimiter → ℕ → Drive W
    drive l a c = record { world = w; limiter = l; api_limiter = a; clock = c }

    -- The result of an action that leaves the world alone.
    abbrev pub Gives : {A : Type 0} → BandwidthLimiter → Result A × Drive W → A → Type 0
    Gives l r a = (api : ApiRateLimiter) × (c : ℕ) × (r ≡ (ok a, drive l api c))

    -- The limiter after the permission for a request.
    abbrev granted : ApiRateLimiter → ℕ → ApiRateLimiter
    granted a c = (RateLimiter.acquire a (service.readings c)).1

    abbrev after_page : ℕ → Folder → J → Found → Act (Drive W) Found
    after_page n at page found = elim (next_token service page) [
      | some t ↦
          list_pages service n at (some t) (add_items service at (items_of service page) found)
      | none ↦ pure (add_items service at (items_of service page) found)
    ]

    ask_page-answer :
        (at : Folder) (page_token : Option Text) (l : BandwidthLimiter) (a : ApiRateLimiter) (c : ℕ)
        (res : Response J)
        → service.send (list_request service token at.id page_token) w ≡ (ok res, w)
        → ask_page service at page_token (drive l a c) ≡ (ok res, drive l (granted a c) (c + 1))
    unfolding ask_page acquire
    ask_page-answer at page_token l a c res sent =
        let s = drive l (granted a c) (c + 1) in
        bind-done (acquire service) _ (drive l a c) tt s refl
        ∙ bind-done (get_token service) _ s token s
            (ap (λ r. (r.0, record s { world = r.1 })) authorised)
        ∙ ap (λ r. (context (codes "Erreur réseau (listing BFS)") r.0, record s { world = r.1 }))
            sent

    list_pages-answer :
        (at : Folder) (page_token : Option Text) (page : J) (n : ℕ) (found : Found)
        (l : BandwidthLimiter) (a : ApiRateLimiter) (c : ℕ)
        → Answers w token at page_token page
        → list_pages service (suc n) at page_token found (drive l a c)
          ≡ after_page n at page found (drive l (granted a c) (c + 1))
    unfolding list_pages take_page check_success ◌>>=◌
    list_pages-answer at page_token page n found l a c (retry_after, location, sent) =
        bind-done (ask_page service at page_token)
          (take_page service (list_pages service n at) at page_token found) (drive l a c)
          (page_response retry_after location page) (drive l (granted a c) (c + 1))
          (ask_page-answer at page_token l a c _ sent)

    pub list_pages-Gives :
        (at : Folder) (page_token : Option Text) (items : List J) (k n : ℕ) (found : Found)
        (l : BandwidthLimiter) (a : ApiRateLimiter) (c : ℕ)
        → Pages w token at page_token items k
        → k ≤ n
        → Gives l
            (list_pages service n at page_token found (drive l a c))
            (add_items service at items found)
    list_pages-Gives at _ _ _ zero found l a c (last page_token page answer over) h =
        absurd (omega (arith, h))
    list_pages-Gives at _ _ _ zero found l a c (more page_token page next rest m answer goes pages)
          h =
        absurd (omega (arith, h))
    list_pages-Gives at _ _ _ (suc n) found l a c (last page_token page answer over) h = (
      granted a c,
      c + 1,
      list_pages-answer at page_token page n found l a c answer ∙ rw (after_page, over) refl,
    )
    list_pages-Gives at _ _ _ (suc n) found l a c
          (more page_token page next rest m answer goes pages) h =
        let found' = add_items service at (items_of service page) found in
        let (a', c', e) =
          list_pages-Gives at (some next) rest m n found' l (granted a c) (c + 1) pages
            (omega (arith, h)) in
        (
          a',
          c',
          list_pages-answer at page_token page n found l a c answer
              ∙ rw (after_page, goes, add_items-append at (items_of service page) rest found) e,
        )
