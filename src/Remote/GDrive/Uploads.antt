-- ===== src/Remote/GDrive/Uploads.antt =====
-- src/remote/gdrive.rs: the two ways to upload a file. The progress is reported to the tracker of the
-- call. What was read counts before the answer is looked at. The time that the bandwidth limiter
-- waits for is given by the readings of the clock.
use syncgdrive.Base.{
  ℕ, ◌+◌, Text, codes, Bool, true, false, ltb, leb, length, Option, none, some, List, [], ◌∷◌, ◌++◌,
  Result, Error, ok, err, context, or_context, Act, pure, fail, lift, ◌>>=◌,
}
use syncgdrive.Paths.{FilePath}
use syncgdrive.Remote.{UploadResult}
use syncgdrive.Engine.Bandwidth as Bandwidth
use syncgdrive.Engine.Progress.{ProgressTracker, record_bytes}
use syncgdrive.Engine.Worker.{Provider}
use syncgdrive.Remote.GDrive.{
  Method, http_post, http_patch, http_put, json, multipart, stream, Request, Response, Service,
  Drive, look, acquire, get_token, request, with_context, check_rate_limit, check_success,
  parse_upload_result,
}
use syncgdrive.Remote.GDrive.Calls.{mkdir, delete, rename, check_health, refresh_auth}
use syncgdrive.Remote.GDrive.Listing.{list_remote}

-- The provider, and the tracker of the call.
abbrev pub Upload : Type 0 → Type 0
Upload W = Drive W × ProgressTracker

module _ {W A : Type 0} where
  abbrev pub on_drive : Act (Drive W) A → Act (Upload W) A
  on_drive m (s, t) = let (r, s') = m s in (r, (s', t))

module _ {J W : Type 0} (service : Service J W) where
  abbrev pub is_cancelled : Act (Drive W) Bool
  is_cancelled = look >>= λ now. pure (service.cancelled now)

  -- `self.limiter.acquire(n).await`. Where the permission has not come by the last reading of the
  -- clock the call has not returned: an error without a message.
  unfoldable pub throttle : ℕ → Act (Upload W) (Unit {0})
  throttle n (s, t) =
      let (left, l) = Bandwidth.acquire s.limiter n (service.readings s.clock) in
      (
        elim left [ none ↦ err [] | some readings ↦ ok tt ],
        (record s { limiter = l; clock = s.clock + 1 }, t),
      )

  -- `tracker.record_bytes(n)`
  unfoldable pub report_bytes : ℕ → Act (Upload W) (Unit {0})
  report_bytes n (s, t) =
      (ok tt, (record s { clock = s.clock + 1 }, record_bytes n (service.now s.clock) t))

  -- The metadata of an upload: the parent of a file that is new.
  unfoldable pub metadata : Text → Text → Option Text → J
  metadata parent_id file_name existing_id = service.values.object (
      (codes "name", service.values.string file_name) ∷ elim existing_id [
        | some id ↦ []
        | none ↦ (codes "parents", service.values.array (service.values.string parent_id ∷ [])) ∷ []
      ])

  abbrev pub upload_url : Option Text → Text → Text
  upload_url (some id) tail = service.config.upload_base ++ codes "/files/" ++ id ++ tail
  upload_url none tail = service.config.upload_base ++ codes "/files" ++ tail

  abbrev pub upload_method : Option Text → Method
  upload_method (some id) = http_patch
  upload_method none = http_post

  unfoldable pub simple_request : Text → Text → Text → Option Text → List ℕ → Request J
  simple_request token parent_id file_name existing_id file_bytes = record {
    method = upload_method existing_id;
    url = upload_url existing_id (codes "?uploadType=multipart&fields=id,md5Checksum,size");
    query = [];
    token = some token;
    body = multipart (metadata parent_id file_name existing_id) file_name file_bytes;
  }

  -- The wait for the bandwidth, or a look at the token where there is no limit.
  unfoldable pub before_sending : ℕ → Act (Upload W) (Unit {0})
  before_sending file_size = elim (ltb 0 service.config.upload_limit_kbps) [
    | true ↦ on_drive is_cancelled >>= λ stop. elim stop [
      | true ↦ fail (codes "Upload annulé proprement." ∷ [])
      | false ↦ throttle file_size
    ]
    | false ↦ on_drive is_cancelled >>= λ stop. elim stop [
      | true ↦ fail (codes "Upload annulé." ∷ [])
      | false ↦ pure tt
    ]
  ]

  -- A request that the token may interrupt.
  unfoldable pub send_unless_cancelled : Text → Text → Request J → Act (Drive W) (Response J)
  send_unless_cancelled network stopped req = is_cancelled >>= λ stop. elim stop [
    | true ↦ fail (stopped ∷ [])
    | false ↦ with_context service network (request service req)
  ]

  unfoldable pub upload_simple : FilePath → Text → Text → Option Text → Act (Upload W) UploadResult
  upload_simple local_path parent_id file_name existing_id = on_drive (acquire service) >>= λ _.
      on_drive (get_token service) >>= λ token.
      on_drive (
        look >>= λ now.
        lift (context (codes "Erreur de lecture du fichier local") (service.read now local_path)))
      >>= λ file_bytes. before_sending (length file_bytes) >>= λ _.
          on_drive (
            send_unless_cancelled (codes "Erreur réseau (upload simple)")
              (codes "Upload annulé proprement.")
              (simple_request token parent_id file_name existing_id file_bytes))
          >>= λ res. on_drive (check_rate_limit service res (codes "upload simple")) >>= λ _.
              on_drive (check_success service res (codes "Erreur API (upload simple)")) >>= λ _.
              report_bytes (length file_bytes) >>= λ _.
              lift res.data_of >>= λ got. pure (parse_upload_result service got)

  unfoldable pub init_request : Text → Text → Text → Option Text → Request J
  init_request token parent_id file_name existing_id = record {
    method = upload_method existing_id;
    url = upload_url existing_id (codes "?uploadType=resumable");
    query = (codes "fields", codes "id,md5Checksum,size") ∷ [];
    token = some token;
    body = json (metadata parent_id file_name existing_id);
  }

  -- The session of an upload.
  unfoldable pub open_session : Text → Text → Option Text → Act (Drive W) Text
  open_session parent_id file_name existing_id = acquire service >>= λ _.
      get_token service >>= λ token.
      with_context service (codes "Erreur réseau (init resumable)")
        (request service (init_request token parent_id file_name existing_id))
      >>= λ res. check_rate_limit service res (codes "init resumable") >>= λ _.
          check_success service res (codes "Erreur API (init resumable)") >>= λ _.
          lift (or_context (codes "L'API Google n'a pas renvoyé l'en-tête Location") res.location)

  -- What is done about a block before it is sent.
  unfoldable pub account : List ℕ → Act (Upload W) (Unit {0})
  account block =
      elim (ltb 0 service.config.upload_limit_kbps) [
        | true ↦ throttle (length block)
        | false ↦ pure tt
      ]
      >>= λ _. report_bytes (length block)

  -- The stream: each block that was read is accounted for, then sent. A read of nothing ends it, and
  -- so does, for the body of the request, a read that fails.
  unfoldable pub stream_blocks : List (Result (List ℕ)) → Act (Upload W) (List (List ℕ))
  stream_blocks [] = pure []
  stream_blocks (err e ∷ reads) = fail e
  stream_blocks (ok [] ∷ reads) = pure []
  stream_blocks (ok (b ∷ bs) ∷ reads) =
      account (b ∷ bs) >>= λ _. stream_blocks reads >>= λ rest. pure ((b ∷ bs) ∷ rest)

  -- The error of the request whose body broke off; a body that has not ended gives none.
  abbrev pub network_error : Error → Error
  network_error [] = []
  network_error (m ∷ ms) = codes "Erreur réseau (streaming)" ∷ m ∷ ms

  abbrev pub send_body : List (Result (List ℕ)) → Act (Upload W) (List (List ℕ))
  send_body reads s =
      let (r, s') = stream_blocks reads s in
      (elim r [ ok blocks ↦ ok blocks | err e ↦ err (network_error e) ], s')

  unfoldable pub put_request : Text → ℕ → List (List ℕ) → Request J
  put_request session_uri file_size blocks = record {
    method = http_put;
    url = session_uri;
    query = [];
    token = none;
    body = stream file_size blocks;
  }

  unfoldable pub upload_resumable :
      FilePath → Text → Text → Option Text → ℕ → Act (Upload W) UploadResult
  upload_resumable local_path parent_id file_name existing_id file_size =
      on_drive (open_session parent_id file_name existing_id) >>= λ session_uri.
      on_drive (look >>= λ now. lift (service.reads now local_path)) >>= λ reads.
      on_drive (acquire service) >>= λ _. send_body reads >>= λ sent.
      on_drive (
        send_unless_cancelled (codes "Erreur réseau (streaming)")
          (codes "Upload lourd annulé proprement.") (put_request session_uri file_size sent))
      >>= λ res. on_drive (check_rate_limit service res (codes "streaming resumable")) >>= λ _.
          on_drive (check_success service res (codes "Erreur API (envoi du fichier)")) >>= λ _.
          lift res.data_of >>= λ got. pure (parse_upload_result service got)

  unfoldable pub upload : FilePath → Text → Text → Option Text → Act (Upload W) UploadResult
  upload local_path parent_id file_name existing_id =
      on_drive (
        look >>= λ now.
        lift (context (codes "Metadata inaccessibles") (service.file_len now local_path)))
      >>= λ file_size. elim (leb file_size service.config.chunk_threshold) [
        | true ↦ upload_simple local_path parent_id file_name existing_id
        | false ↦ upload_resumable local_path parent_id file_name existing_id file_size
      ]

  -- `impl RemoteProvider for GDriveProvider`, with the fuel of its listing.
  unfoldable pub gdrive : ℕ → ℕ → Provider (Drive W)
  gdrive pages folders = record {
    upload = upload;
    delete = delete service;
    rename = rename service;
    list_remote = list_remote service pages folders;
    mkdir = mkdir service;
    check_health = check_health service;
    refresh_auth = refresh_auth service;
  }
