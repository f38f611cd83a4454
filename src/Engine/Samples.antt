-- ===== src/Engine/Samples.antt =====
-- A small engine to try things on: a file system of one kind of file, a provider that remembers
-- what it deletes, a configuration and a state.
use syncgdrive.Base.{Text, codes, true, false, some, none, List, [], ◌∷◌, ok, Dict}
use syncgdrive.Config.{AppConfig, SyncPair, default_config, default_provider}
use syncgdrive.Db.{FileRow}
use syncgdrive.Remote.{unreachable}
use syncgdrive.Engine.Progress.{new}
use syncgdrive.Paths.{FilePath}
use syncgdrive.Engine.Scan.{ScanState, Walk}
use syncgdrive.Engine.Worker.{Environment, Provider, State}

-- Every path is a file of three bytes, except the root.
abbrev pub env : Environment
env = record {
  cancelled = λ now. false;
  stat = λ now p. ok (record { is_dir = false; is_file = true; len = 3; modified = ok 7 });
  read = λ now p. ok (1 ∷ 2 ∷ 3 ∷ []);
  md5 = λ bytes. codes "abc";
  is_match = λ t. false;
  db_fault = λ n. none;
}

-- The remote state is the list of the identifiers deleted.
abbrev pub provider : Provider (List Text)
provider = record {
  upload = λ path parent name id s.
      (ok (record { drive_id = codes "9"; md5_checksum = codes "abc"; size_bytes = 3 }), s);
  delete = λ id gone. (ok tt, id ∷ gone);
  rename = λ id name parent gone. (ok tt, gone);
  list_remote = λ id r. (ok (record { files = []; dirs = [] }), r);
  mkdir = λ parent name r. (ok name, r);
  check_health = λ r. (ok unreachable, r);
  refresh_auth = λ r. (ok tt, r);
}

abbrev pub pair : SyncPair
pair = record {
  name = codes "home";
  local_path = codes "/home";
  remote_folder_id = codes "0";
  provider = default_provider;
  active = true;
  ignore_patterns = [];
}

abbrev pub cfg : AppConfig
cfg = record default_config { sync_pairs = pair ∷ [] }

abbrev pub row : FileRow
row = record { hash = codes "old"; mtime = 3 }

abbrev pub rows : Dict FileRow
rows = (codes "a", row) ∷ []

abbrev pub start : State (List Text)
start = record {
  remote = [];
  tracker = new;
  path_cache = (codes "a", record { drive_id = codes "5"; parent_id = codes "0" }) ∷ [];
  db = record {
    schema = some (2 ∷ []);
    file_index = some rows;
    dir_index = none;
    path_cache = none;
    offline_queue = none;
  };
  clock = 0;
}

abbrev pub at_root : Text → FilePath
at_root name = record { absolute = true; parts = codes "home" ∷ name ∷ [] }

-- One file in the folder.
abbrev pub walk : Walk
walk folder keeps = record { path = at_root (codes "b"); is_dir = false; is_file = true } ∷ []

abbrev pub idle_scan : ScanState (List Text)
idle_scan = record {
  base = start;
  channel = record { sent = []; room = 9; is_full = false };
  statuses = [];
}
