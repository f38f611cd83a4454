-- ===== src/Remote/GDrive/Examples.antt =====
-- A service with one file.
use syncgdrive.Base.{
  Result, bail, ℕ, refl, Text, codes, text_eq, false, none, some, Option, List, [], ◌∷◌, map, ok,
  ◌≡◌, arith, if◌then◌else◌,
}
use syncgdrive.Config.{default_advanced}
use syncgdrive.Remote.{RemoteFile, RemoteDir, RemoteIndex}
use syncgdrive.Engine.Bandwidth as Bandwidth
use syncgdrive.Engine.RateLimiter as RateLimiter
use syncgdrive.Engine.Progress as Progress
use syncgdrive.Engine.Progress.{u64_mod}
use syncgdrive.Remote.GDrive.{Json, Service, Drive}
use syncgdrive.Remote.GDrive.Uploads.{Upload, stream_blocks}
use syncgdrive.Remote.GDrive.Listing.{list_remote}
use syncgdrive.Remote.GDrive.Tree.{Forest, done, file, total, tree_files, tree_dirs, last}
use syncgdrive.Remote.GDrive.Walk.{list_remote-tree}
use syncgdrive.Remote.GDrive.Blocks.{Streamed, stream_blocks-counts}

-- The values that the service gives.
data Value : Type 0 where
  missing : Value
  str : Text → Value
  entry : Text → Text → Value
  entries : List (Text × Text) → Value
  listing : List (Text × Text) → Value

abbrev index : Value → Text → Value
index (entry id name) key =
    if text_eq key (codes "id")
    then str id
    else if text_eq key (codes "name")
    then str name
    else missing
index (listing es) key = if text_eq key (codes "files") then entries es else missing
index _ key = missing

abbrev as_str : Value → Option Text
as_str (str t) = some t
as_str _ = none

abbrev as_array : Value → Option (List Value)
as_array (entries es) = some (map (λ e. entry e.0 e.1) es)
as_array _ = none

abbrev values : Json Value
values = record {
  index = index;
  get = λ v key. none;
  as_str = as_str;
  as_array = as_array;
  as_bool = λ v. none;
  object = λ fields. missing;
  string = str;
  boolean = λ b. missing;
  array = λ vs. missing;
}

abbrev page : Value
page = listing ((codes "7", codes "a") ∷ [])

abbrev service : Service Value (Unit {0})
service = record {
  values = values;
  send = λ req w.
      (ok (record { status = 200; retry_after = none; location = none; data_of = ok page }), w);
  get_valid_token = λ w. (ok (codes "key"), w);
  timestamp = λ t. none;
  status_text = λ n. [];
  now = λ n. n;
  readings = λ n. n ∷ [];
  cancelled = λ n. false;
  file_len = λ n p. ok 3;
  read = λ n p. ok (1 ∷ 2 ∷ 3 ∷ []);
  reads = λ n p. ok (ok (1 ∷ 2 ∷ 3 ∷ []) ∷ []);
  config = default_advanced;
}

abbrev forest : Forest Value
forest = file (entry (codes "7") (codes "a")) done

abbrev drive : Drive (Unit {0})
drive = record {
  world = tt;
  limiter = Bandwidth.new 0 0;
  api_limiter = RateLimiter.new 10 0;
  clock = 0;
}

list_remote-tree_example :
    (found : RemoteIndex) × ((list_remote service 1 2 (codes "0") drive).0 ≡ ok found)
    × ((weigh : RemoteFile → ℕ)
        → total weigh found.files
          ≡ total weigh (tree_files service (record { id = codes "0"; path = [] }) forest))
    × ((weigh : RemoteDir → ℕ)
        → total weigh found.dirs
          ≡ total weigh (tree_dirs service (record { id = codes "0"; path = [] }) forest))
unfolding text_eq
list_remote-tree_example =
    list_remote-tree service tt (codes "key") refl 1 (codes "0") forest 1 2 drive.limiter
      drive.api_limiter 0 (last none page (none, none, refl) refl) (omega arith) (refl, tt)
      (omega arith)

abbrev upload : Upload (Unit {0})
upload = (drive, Progress.new)

-- A block is read, then a read fails.
abbrev file_reads : List (Result (List ℕ))
file_reads = ok (1 ∷ 2 ∷ []) ∷ bail (codes "EIO") ∷ []

stream_blocks-counts_example :
    Streamed service upload file_reads (stream_blocks service file_reads upload)
stream_blocks-counts_example = stream_blocks-counts service file_reads upload (refl, (refl, tt))
