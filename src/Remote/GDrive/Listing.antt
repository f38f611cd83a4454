-- ===== src/Remote/GDrive/Listing.antt =====
-- src/remote/gdrive.rs, `list_remote`: the walk of the folders, breadth first, page by page.
use syncgdrive.Base.{
  ℕ, zero, suc, Text, codes, text_eq, is_empty, Bool, true, false, ◌==◌, Option, none, some, List,
  [], ◌∷◌, ◌++◌, Act, pure, fail, lift, ◌>>=◌, if◌then◌else◌,
}
use syncgdrive.Paths.{slash}
use syncgdrive.Remote.{RemoteFile, RemoteDir, RemoteIndex}
use syncgdrive.Remote.GDrive.{
  Request, http_get, no_body, Response, Service, Drive, or_text, number_or, acquire, get_token,
  request, with_context, handle_429, check_success, str_at,
}

-- A folder that waits in the queue.
pub record Folder : Type 0 where
  pub id : Text
  pub path : Text

-- What the walk has found.
pub record Found : Type 0 where
  pub files : List RemoteFile
  pub dirs : List RemoteDir
  pub queue : List Folder

abbrev pub folder_mime : Text
folder_mime = codes "application/vnd.google-apps.folder"

-- `replace('\'', "\\'")`
unfoldable pub quoted : Text → Text
quoted [] = []
quoted (c ∷ s) = if c == b'\'' then b'\\' ∷ b'\'' ∷ quoted s else c ∷ quoted s

abbrev pub child_path : Text → Text → Text
child_path path name = if is_empty path then name else path ++ slash ∷ name

module _ {J W : Type 0} (service : Service J W) where
  abbrev pub list_query : Text → Text
  list_query id = codes "'" ++ quoted id ++ codes "' in parents and trashed = false"

  -- The request for a page of a folder.
  unfoldable pub list_request : Text → Text → Option Text → Request J
  list_request token id page_token = record {
    method = http_get;
    url = service.config.api_base ++ codes "/files";
    query =
        (codes "q", list_query id)
        ∷ (
          codes "fields",
          codes
              "nextPageToken, files(id, name, mimeType, parents, md5Checksum, size, modifiedTime)",
        )
        ∷ (codes "pageSize", codes "1000")
        ∷ elim page_token [ none ↦ [] | some t ↦ (codes "pageToken", t) ∷ [] ];
    token = some token;
    body = no_body;
  }

  abbrev pub id_of : J → Text
  id_of item = or_text [] (str_at service item (codes "id"))

  abbrev pub name_of : J → Text
  name_of item = or_text [] (str_at service item (codes "name"))

  abbrev pub is_folder : J → Bool
  is_folder item = text_eq (or_text [] (str_at service item (codes "mimeType"))) folder_mime

  abbrev pub timestamp_or_0 : Text → ℕ
  timestamp_or_0 t = elim (service.timestamp t) [ none ↦ 0 | some n ↦ n ]

  unfoldable pub dir_of : Folder → J → RemoteDir
  dir_of folder item = record {
    relative_path = child_path folder.path (name_of item);
    drive_id = id_of item;
    parent_id = folder.id;
  }

  unfoldable pub file_of : Folder → J → RemoteFile
  file_of folder item = record {
    relative_path = child_path folder.path (name_of item);
    drive_id = id_of item;
    parent_id = folder.id;
    md5 = or_text [] (str_at service item (codes "md5Checksum"));
    size = number_or 0 (some (or_text (codes "0") (str_at service item (codes "size"))));
    modified_time = timestamp_or_0 (or_text [] (str_at service item (codes "modifiedTime")));
  }

  abbrev pub folder_of : Folder → J → Folder
  folder_of folder item = record { id = id_of item; path = child_path folder.path (name_of item) }

  unfoldable pub add_item : Folder → J → Found → Found
  add_item folder item found = elim (is_folder item) [
    | true ↦ record found {
      dirs = found.dirs ++ dir_of folder item ∷ [];
      queue = found.queue ++ folder_of folder item ∷ [];
    }
    | false ↦ record found { files = found.files ++ file_of folder item ∷ [] }
  ]

  unfoldable pub add_items : Folder → List J → Found → Found
  add_items folder [] found = found
  add_items folder (item ∷ items) found = add_items folder items (add_item folder item found)

  -- `data["files"].as_array()`, and nothing where it is none.
  abbrev pub items_of : J → List J
  items_of page = elim (service.values.as_array (service.values.index page (codes "files"))) [
    | none ↦ []
    | some items ↦ items
  ]

  abbrev pub next_token : J → Option Text
  next_token page = str_at service page (codes "nextPageToken")

  -- The request for a page.
  unfoldable pub ask_page : Folder → Option Text → Act (Drive W) (Response J)
  ask_page folder page_token = acquire service >>= λ _. get_token service >>= λ token.
      with_context service (codes "Erreur réseau (listing BFS)")
        (request service (list_request token folder.id page_token))

  -- What follows its answer: `again` is the loop, at the same page or at the next one.
  unfoldable pub take_page :
      (Option Text → Found → Act (Drive W) Found)
      → Folder
      → Option Text
      → Found
      → Response J
      → Act (Drive W) Found
  take_page again folder page_token found res = elim (res.status == 429) [
    | true ↦ handle_429 service res >>= λ wait. again page_token found
    | false ↦
        check_success service res (codes "Erreur API (listing dossier " ++ folder.path ++ codes ")")
        >>= λ _. lift res.data_of >>= λ page. elim (next_token page) [
          | some t ↦ again (some t) (add_items folder (items_of page) found)
          | none ↦ pure (add_items folder (items_of page) found)
        ]
  ]

  -- The loop over the pages of a folder. The fuel bounds the requests: an error with no message is a
  -- loop that is still at work.
  unfoldable pub list_pages : ℕ → Folder → Option Text → Found → Act (Drive W) Found
  list_pages zero folder page_token found = fail []
  list_pages (suc n) folder page_token found = ask_page folder page_token >>= λ res.
      take_page (list_pages n folder) folder page_token found res

  -- The loop over the queue.
  unfoldable pub list_queue : ℕ → ℕ → Found → Act (Drive W) RemoteIndex
  list_queue pages zero found = fail []
  list_queue pages (suc n) found = elim found.queue [
    | [] ↦ pure (record { files = found.files; dirs = found.dirs })
    | folder ∷ queue ↦ list_pages pages folder none (record found { queue = queue }) >>= λ found'.
        list_queue pages n found'
  ]

  unfoldable pub list_remote : ℕ → ℕ → Text → Act (Drive W) RemoteIndex
  list_remote pages folders root_id =
      list_queue pages folders
        (record { files = []; dirs = []; queue = record { id = root_id; path = [] } ∷ [] })
