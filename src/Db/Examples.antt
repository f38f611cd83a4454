-- ===== src/Db/Examples.antt =====
-- The database at concrete contents.
use syncgdrive.Base.{
  ◌≡◌, refl, ap, err, ◌>>=◌, codes, text_eq, true, false, none, some, [], ◌∷◌, ok, Dict, get,
  if◌then◌else◌,
}
use syncgdrive.Db.{
  Database, DirTable, FileRow, empty_queue, init_and_migrate, schema_version, migrate_v1, no_faults,
  transaction, create_schema_version, insert_version, add_drive_id, create_path_cache,
  create_offline_queue, get_file, rename_file,
}
use syncgdrive.Db.Schema.{
  KeepsRows, init_and_migrate-KeepsRows, init_and_migrate-atomic, init_and_migrate-twice,
}
use syncgdrive.Db.Files.{entry, get_file-rename_file}

abbrev row : FileRow
row = record { hash = codes "h"; mtime = 3 }

abbrev files : Dict FileRow
files = (codes "a", row) ∷ []

abbrev dirs : DirTable
dirs = record { has_drive_id = false; rows = (codes "d", none) ∷ [] }

abbrev v1 : Database
v1 = record {
  schema = none;
  file_index = some files;
  dir_index = some dirs;
  path_cache = none;
  offline_queue = none;
}

abbrev v2 : Database
v2 = record {
  schema = some (2 ∷ []);
  file_index = some files;
  dir_index = some (record dirs { has_drive_id = true });
  path_cache = some [];
  offline_queue = some empty_queue;
}

init_and_migrate-v1 : init_and_migrate no_faults v1 ≡ (ok tt, v2)
unfolding init_and_migrate schema_version transaction migrate_v1 create_schema_version
    insert_version add_drive_id create_path_cache create_offline_queue ◌>>=◌
init_and_migrate-v1 = refl

init_and_migrate-twice_example :
    init_and_migrate no_faults (init_and_migrate no_faults v1).1
    ≡ (ok tt, (init_and_migrate no_faults v1).1)
init_and_migrate-twice_example = init_and_migrate-twice v1 (ap (λ r. r.0) init_and_migrate-v1)

-- A file index without its directories: the second statement of the migration fails.
abbrev broken : Database
broken = record v1 { dir_index = none }

init_and_migrate-broken :
    (init_and_migrate no_faults broken).0 ≡ err (codes "no such table: dir_index" ∷ [])
unfolding init_and_migrate schema_version transaction migrate_v1 create_schema_version
    insert_version add_drive_id ◌>>=◌
init_and_migrate-broken = refl

init_and_migrate-atomic_example : (init_and_migrate no_faults broken).1 ≡ broken
init_and_migrate-atomic_example =
    init_and_migrate-atomic no_faults broken (codes "no such table: dir_index" ∷ [])
      init_and_migrate-broken

init_and_migrate-KeepsRows_example : KeepsRows v1 (init_and_migrate no_faults v1).1
init_and_migrate-KeepsRows_example = init_and_migrate-KeepsRows no_faults v1

get_file-rename_file_example :
    ((rename_file none (codes "a") (codes "b") v2).0 ≡ ok tt)
    × (get_file (codes "b") (rename_file none (codes "a") (codes "b") v2).1 ≡ (
        if text_eq (codes "b") (codes "b")
        then ok (entry (codes "b") (some row))
        else if text_eq (codes "a") (codes "b")
        then ok none
        else get_file (codes "b") v2))
unfolding get text_eq
get_file-rename_file_example =
    get_file-rename_file v2 files refl (codes "a") (codes "b") row (codes "b") refl refl
