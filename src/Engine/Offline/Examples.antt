-- ===== src/Engine/Offline/Examples.antt =====
-- A flush of a concrete queue.
use syncgdrive.Base.{codes, true, none, some, [], ◌∷◌}
use syncgdrive.Paths.{FilePath}
use syncgdrive.Db.{QueueTable, empty}
use syncgdrive.Engine.Offline.{Flush}

abbrev root : FilePath
root = record { absolute = true; parts = codes "home" ∷ [] }

abbrev queue : QueueTable
queue = record {
  rows =
      record {
        id = 1;
        action = codes "sync";
        relative_path = codes "a";
        extra = none;
        created_at = 4;
      }
      ∷ record {
        id = 3;
        action = codes "touch";
        relative_path = codes "b";
        extra = none;
        created_at = 5;
      }
      ∷ record {
        id = 4;
        action = codes "rename";
        relative_path = codes "c";
        extra = some (codes "d");
        created_at = 6;
      }
      ∷ [];
  sequence = 4;
}

abbrev start : Flush
start = record {
  db = record empty { offline_queue = some queue };
  channel = record { sent = []; room = 1; is_full = true };
}
