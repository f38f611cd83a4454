-- ===== src/Remote/GDrive.antt =====
-- src/remote/gdrive.rs: the state of the provider, its requests, and the answer to an HTTP 429. The
-- HTTP client, the JSON values, the time parser and the access token are parameters; so are the
-- readings of the clock during a wait, up to the permission.
pub mod Listing
pub mod Uploads
pub mod Calls
pub mod Tree
pub mod Walk
pub mod Blocks
mod Examples
use syncgdrive.Base.{
  ℕ, zero, suc, ◌+◌, ◌-◌, ◌*◌, ◌^◌, Text, codes, Bool, true, false, ◌&&◌, ltb, leb, ◌==◌, Option,
  none, some, List, [], ◌∷◌, ◌++◌, Result, ok, err, Error, bail, context, Act, pure, fail, lift,
  gets, modify, ◌>>=◌, if◌then◌else◌,
}
use syncgdrive.Paths.{FilePath}
use syncgdrive.Config.{AdvancedConfig}
use syncgdrive.Remote.{UploadResult}
use syncgdrive.Engine.Bandwidth.{BandwidthLimiter}
use syncgdrive.Engine.RateLimiter.{ApiRateLimiter, handle_rate_limit}
use syncgdrive.Engine.RateLimiter as RateLimiter
use syncgdrive.Engine.Progress.{show}

pub data Method : Type 0 where
  http_get : Method
  http_post : Method
  http_patch : Method
  http_put : Method
  http_delete : Method

-- A body: nothing, a JSON value, a form with metadata and a file, or a stream of blocks under the
-- length that it announces.
pub data Body (J : Type 0) : Type 0 where
  no_body : Body J
  json : J → Body J
  multipart : J → Text → List ℕ → Body J
  stream : ℕ → List (List ℕ) → Body J

pub record Request (J : Type 0) : Type 0 where
  pub method : Method
  pub url : Text
  pub query : List (Text × Text)
  pub token : Option Text
  pub body : Body J

-- A response: its status, two of its headers where they are texts, and its JSON.
pub record Response (J : Type 0) : Type 0 where
  pub status : ℕ
  pub retry_after : Option Text
  pub location : Option Text
  pub data_of : Result J

-- `serde_json::Value`
pub record Json (J : Type 0) : Type 0 where
  pub index : J → Text → J
  pub get : J → Text → Option J
  pub as_str : J → Option Text
  pub as_array : J → Option (List J)
  pub as_bool : J → Option Bool
  pub object : List (Text × J) → J
  pub string : Text → J
  pub boolean : Bool → J
  pub array : List J → J

-- What lies outside of the provider, with its configuration.
pub record Service (J W : Type 0) : Type 0 where
  pub values : Json J
  pub send : Request J → Act W (Response J)
  -- `GoogleAuth::get_valid_token`
  pub get_valid_token : Act W Text
  -- `DateTime::parse_from_rfc3339(…).timestamp()`
  pub timestamp : Text → Option ℕ
  -- `StatusCode::to_string`
  pub status_text : ℕ → Text
  pub now : ℕ → ℕ
  pub readings : ℕ → List ℕ
  pub cancelled : ℕ → Bool
  -- `metadata(path).len()`, `fs::read(path)`, and the reads of an open file.
  pub file_len : ℕ → FilePath → Result ℕ
  pub read : ℕ → FilePath → Result (List ℕ)
  pub reads : ℕ → FilePath → Result (List (Result (List ℕ)))
  pub config : AdvancedConfig

-- `GDriveProvider`, with the world that it talks to.
pub record Drive (W : Type 0) : Type 0 where
  pub world : W
  pub limiter : BandwidthLimiter
  pub api_limiter : ApiRateLimiter
  pub clock : ℕ

-- `Option::unwrap_or_default`, `unwrap_or`
abbrev pub or_text : Text → Option Text → Text
or_text default none = default
or_text default (some t) = t

-- `str::parse::<u64>`: a number that fits, after one `+` at most.
unfoldable pub parse_digits : Text → ℕ → Option ℕ
parse_digits [] n = some n
parse_digits (c ∷ s) n =
    let m = n * 10 + (c - b'0') in
    let rest = parse_digits s m in
    if (leb b'0' c && leb c b'9') && ltb m (2 ^ 64) then rest else none

unfoldable pub parse_unsigned : Text → Option ℕ
parse_unsigned [] = none
parse_unsigned (c ∷ s) = parse_digits (c ∷ s) 0

unfoldable pub parse_u64 : Text → Option ℕ
parse_u64 [] = none
parse_u64 (c ∷ s) = if c == b'+' then parse_unsigned s else parse_unsigned (c ∷ s)

-- `and_then(|s| s.parse().ok()).unwrap_or(default)`
abbrev pub number_or : ℕ → Option Text → ℕ
number_or default none = default
number_or default (some s) = elim (parse_u64 s) [ none ↦ default | some n ↦ n ]

module _ {J : Type 0} where
  unfoldable pub parse_retry_after : Response J → ℕ
  parse_retry_after res = number_or 60 res.retry_after

  abbrev pub is_success : Response J → Bool
  is_success res = leb 200 res.status && ltb res.status 300

  abbrev pub is_client_error : Response J → Bool
  is_client_error res = leb 400 res.status && ltb res.status 500

-- A time at which something is looked at.
abbrev pub look : {W : Type 0} → Act (Drive W) ℕ
look s = (ok s.clock, record s { clock = s.clock + 1 })

module _ {W A : Type 0} where
  abbrev pub on_world : Act W A → Act (Drive W) A
  on_world m s = let (r, w) = m s.world in (r, record s { world = w })

module _ {J W : Type 0} (service : Service J W) where
  -- `self.api_limiter.acquire().await`
  unfoldable pub acquire : Act (Drive W) (Unit {0})
  acquire s =
      let (left, l) = RateLimiter.acquire s.api_limiter (service.readings s.clock) in
      (ok tt, record s { api_limiter = l; clock = s.clock + 1 })

  abbrev pub get_token : Act (Drive W) Text
  get_token = on_world service.get_valid_token

  abbrev pub request : Request J → Act (Drive W) (Response J)
  request req = on_world (service.send req)

  -- `.context(message)`
  abbrev pub with_context : {A : Type 0} → Text → Act (Drive W) A → Act (Drive W) A
  with_context message m s = let (r, s') = m s in (context message r, s')

  unfoldable pub handle_429 : Response J → Act (Drive W) ℕ
  handle_429 res s =
      let wait = parse_retry_after res in
      (
        ok wait,
        record s {
          api_limiter = record (s.api_limiter) {
            state = handle_rate_limit wait (service.now s.clock) s.api_limiter.state;
          };
          clock = s.clock + 1;
        },
      )

  unfoldable pub check_rate_limit : Response J → Text → Act (Drive W) (Unit {0})
  check_rate_limit res name = elim (res.status == 429) [
    | false ↦ pure tt
    | true ↦ handle_429 res >>= λ wait. fail (
        (codes "Erreur API 429 (" ++ name ++ codes ") : Pause exigée de " ++ show wait ++ codes "s")
        ∷ [])
  ]

  -- `if !res.status().is_success() { bail!(…) }`
  unfoldable pub check_success : Response J → Text → Act (Drive W) (Unit {0})
  check_success res message = elim (is_success res) [
    | true ↦ pure tt
    | false ↦ fail ((message ++ codes " : " ++ service.status_text res.status) ∷ [])
  ]

  -- `data[key].as_str()`
  abbrev pub str_at : J → Text → Option Text
  str_at data_of key = service.values.as_str (service.values.index data_of key)

  unfoldable pub parse_upload_result : J → UploadResult
  parse_upload_result data_of = record {
    drive_id = or_text [] (str_at data_of (codes "id"));
    md5_checksum = or_text [] (str_at data_of (codes "md5Checksum"));
    size_bytes = number_or 0 (some (or_text (codes "0") (str_at data_of (codes "size"))));
  }
