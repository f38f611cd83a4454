-- ===== src/Remote/GDrive/Calls.antt =====
-- src/remote/gdrive.rs: the calls of one or two requests.
use syncgdrive.Base.{
  ◌==◌, Text, codes, text_eq, Bool, true, false, Option, none, some, List, [], ◌∷◌, ◌++◌,
  or_context, Act, pure, lift, ◌>>=◌, if◌then◌else◌,
}
use syncgdrive.Remote.{
  Change, modified, deleted, ChangesPage, HealthStatus, healthy, auth_expired, unreachable,
}
use syncgdrive.Remote.GDrive.{
  http_get, http_post, http_patch, http_delete, no_body, json, Request, Response, Json, Service,
  Drive, or_text, number_or, is_success, is_client_error, acquire, get_token, request, handle_429,
  check_rate_limit, check_success, str_at,
}
use syncgdrive.Remote.GDrive.Listing.{quoted, folder_mime}

abbrev pub has_some : {A : Type 0} → Option A → Bool
has_some none = false
has_some (some a) = true

abbrev pub head_of : {A : Type 0} → Option (List A) → Option A
head_of none = none
head_of (some []) = none
head_of (some (a ∷ rest)) = some a

-- `[&str]::join(",")`
unfoldable pub join_comma : List Text → Text
join_comma [] = []
join_comma (s ∷ []) = s
join_comma (s ∷ t ∷ ts) = s ++ b',' ∷ join_comma (t ∷ ts)

module _ {J W : Type 0} (service : Service J W) where
  abbrev values : Json J
  values = service.values

  abbrev pub file_url : Text → Text
  file_url file_id = service.config.api_base ++ codes "/files/" ++ file_id

  abbrev pub at : J → Text → J
  at data_of key = values.index data_of key

  -- A request with a token: its answer is checked for a 429 first.
  unfoldable pub call : Text → Request J → Act (Drive W) (Response J)
  call name req = request service req >>= λ res. check_rate_limit service res name >>= λ _. pure res

  unfoldable pub search_request : Text → Text → Text → Request J
  search_request token parent_id name = record {
    method = http_get;
    url = service.config.api_base ++ codes "/files";
    query =
        (
          codes "q",
          codes "name = '"
              ++ quoted name
              ++ codes "' and '"
              ++ parent_id
              ++ codes "' in parents and mimeType = '"
              ++ folder_mime
              ++ codes "' and trashed = false",
        )
        ∷ (codes "fields", codes "files(id)")
        ∷ [];
    token = some token;
    body = no_body;
  }

  unfoldable pub create_request : Text → Text → Text → Request J
  create_request token parent_id name = record {
    method = http_post;
    url = service.config.api_base ++ codes "/files";
    query = [];
    token = some token;
    body = json (
        values.object (
          (codes "name", values.string name)
          ∷ (codes "mimeType", values.string folder_mime)
          ∷ (codes "parents", values.array (values.string parent_id ∷ []))
          ∷ []));
  }

  -- The identifier of the first folder that the search found.
  abbrev pub first_id : J → Option Text
  first_id found = elim (head_of (values.as_array (at found (codes "files")))) [
    | none ↦ none
    | some first ↦ str_at service first (codes "id")
  ]

  unfoldable pub create : Text → Text → Text → Act (Drive W) Text
  create token parent_id name = acquire service >>= λ _.
      call (codes "mkdir create") (create_request token parent_id name) >>= λ res.
      check_success service res (codes "Erreur API (création dossier)") >>= λ _.
      lift res.data_of >>= λ created. lift (
        or_context (codes "L'API Google n'a pas retourné d'ID")
          (str_at service created (codes "id")))

  unfoldable pub mkdir : Text → Text → Act (Drive W) Text
  mkdir parent_id name = acquire service >>= λ _. get_token service >>= λ token.
      call (codes "mkdir search") (search_request token parent_id name) >>= λ res.
      check_success service res (codes "Erreur API (vérification dossier)") >>= λ _.
      lift res.data_of >>= λ found. elim (first_id found) [
        | some id ↦ pure id
        | none ↦ create token parent_id name
      ]

  unfoldable pub delete_request : Text → Text → Request J
  delete_request token file_id = elim (text_eq service.config.delete_mode (codes "permanent")) [
    | true ↦ record {
      method = http_delete;
      url = file_url file_id;
      query = [];
      token = some token;
      body = no_body;
    }
    | false ↦ record {
      method = http_patch;
      url = file_url file_id;
      query = [];
      token = some token;
      body = json (values.object ((codes "trashed", values.boolean true) ∷ []));
    }
  ]

  unfoldable pub delete : Text → Act (Drive W) (Unit {0})
  delete file_id = acquire service >>= λ _. get_token service >>= λ token.
      call (codes "delete") (delete_request token file_id) >>= λ res.
      check_success service res (codes "Erreur API (suppression)")

  -- `filter_map(|p| p.as_str())`
  unfoldable pub strings : List J → List Text
  strings [] = []
  strings (v ∷ vs) =
      let rest = strings vs in elim (values.as_str v) [ none ↦ rest | some s ↦ s ∷ rest ]

  unfoldable pub parents_request : Text → Text → Request J
  parents_request token file_id = record {
    method = http_get;
    url = file_url file_id ++ codes "?fields=parents";
    query = [];
    token = some token;
    body = no_body;
  }

  -- The query that moves a file, from what the server says of its parents.
  unfoldable pub move_query : Text → J → List (Text × Text)
  move_query new_parent got = elim (values.as_array (at got (codes "parents"))) [
    | none ↦ []
    | some parents ↦
        (codes "addParents", new_parent)
        ∷ (codes "removeParents", join_comma (strings parents))
        ∷ []
  ]

  unfoldable pub parents_query : Text → Text → Option Text → Act (Drive W) (List (Text × Text))
  parents_query token file_id none = pure []
  parents_query token file_id (some new_parent) = acquire service >>= λ _.
      call (codes "rename get_parents") (parents_request token file_id) >>= λ res.
      elim (is_success res) [
        | false ↦ pure []
        | true ↦ lift res.data_of >>= λ got. pure (move_query new_parent got)
      ]

  unfoldable pub rename_request : Text → Text → Option Text → List (Text × Text) → Request J
  rename_request token file_id new_name query = record {
    method = http_patch;
    url = file_url file_id;
    query = query;
    token = some token;
    body = json (
        values.object
          (elim new_name [ none ↦ [] | some name ↦ (codes "name", values.string name) ∷ [] ]));
  }

  unfoldable pub rename : Text → Option Text → Option Text → Act (Drive W) (Unit {0})
  rename file_id new_name new_parent_id = get_token service >>= λ token.
      parents_query token file_id new_parent_id >>= λ query. acquire service >>= λ _.
      call (codes "rename patch") (rename_request token file_id new_name query) >>= λ res.
      check_success service res (codes "Erreur API (renommage)")

  abbrev pub plain_get : Text → Text → List (Text × Text) → Request J
  plain_get token path query = record {
    method = http_get;
    url = service.config.api_base ++ path;
    query = query;
    token = some token;
    body = no_body;
  }

  -- The cursor to start at: the status of its answer is not looked at.
  unfoldable pub start_cursor : Text → Option Text → Act (Drive W) Text
  start_cursor token (some c) = pure c
  start_cursor token none =
      call (codes "get_changes startToken") (plain_get token (codes "/changes/startPageToken") [])
      >>= λ res. lift res.data_of >>= λ start.
          pure (or_text [] (str_at service start (codes "startPageToken")))

  abbrev pub is_removed : J → Bool
  is_removed item = elim (values.as_bool (at item (codes "removed"))) [ none ↦ false | some b ↦ b ]

  unfoldable pub change_of : J → List Change
  change_of item =
      let file_id = or_text [] (str_at service item (codes "fileId")) in
      elim (is_removed item) [
        | true ↦ deleted file_id ∷ []
        | false ↦ elim (values.get item (codes "file")) [
          | none ↦ []
          | some file ↦
              modified file_id (or_text [] (str_at service file (codes "name"))) (
                or_text [] (elim (head_of (values.as_array (at file (codes "parents")))) [
                  | none ↦ none
                  | some id ↦ values.as_str id
                ]))
              ∷ []
        ]
      ]

  unfoldable pub changes_of : List J → List Change
  changes_of [] = []
  changes_of (item ∷ items) = change_of item ++ changes_of items

  abbrev pub or_else : Option Text → Option Text → Option Text
  or_else none o = o
  or_else (some t) o = some t

  unfoldable pub changes_page : Text → J → ChangesPage
  changes_page current_cursor page =
      let next = str_at service page (codes "nextPageToken") in
      record {
        changes = elim (values.as_array (at page (codes "changes"))) [
          | none ↦ []
          | some items ↦ changes_of items
        ];
        new_cursor =
            or_text current_cursor (or_else next (str_at service page (codes "newStartPageToken")));
        has_more = has_some next;
      }

  unfoldable pub get_changes : Option Text → Act (Drive W) ChangesPage
  get_changes cursor = acquire service >>= λ _. get_token service >>= λ token.
      start_cursor token cursor >>= λ current_cursor. acquire service >>= λ _.
      call (codes "get_changes fetch") (
        plain_get token (codes "/changes") (
          (codes "pageToken", current_cursor)
          ∷ (
            codes "fields",
            codes "nextPageToken, newStartPageToken, changes(fileId, file(name, parents), removed)",
          )
          ∷ []))
      >>= λ res. check_success service res (codes "Erreur API (get_changes)") >>= λ _.
          lift res.data_of >>= λ page. pure (changes_page current_cursor page)

  unfoldable pub health_of : J → HealthStatus
  health_of about =
      let quota = at about (codes "storageQuota") in
      healthy
        (or_text (codes "Inconnu")
          (str_at service (at about (codes "user")) (codes "emailAddress")))
        (number_or 0 (some (or_text (codes "0") (str_at service quota (codes "usage")))))
        (number_or 0 (some (or_text (codes "0") (str_at service quota (codes "limit")))))

  unfoldable pub check_health : Act (Drive W) HealthStatus
  check_health = acquire service >>= λ _. get_token service >>= λ token.
      request service
        (plain_get token (codes "/about") ((codes "fields", codes "user,storageQuota") ∷ []))
      >>= λ res. elim (res.status == 429) [
        | true ↦ handle_429 service res >>= λ wait. pure unreachable
        | false ↦ elim (is_client_error res) [
          | true ↦ pure (if res.status == 401 then auth_expired else unreachable)
          | false ↦ lift res.data_of >>= λ about. pure (health_of about)
        ]
      ]

  unfoldable pub refresh_auth : Act (Drive W) (Unit {0})
  refresh_auth = get_token service >>= λ token. pure tt
