-- ===== src/Db.antt =====
-- src/db.rs: the SQLite database. A table that has not been created is none. Rows stand in the
-- order of their row identifiers; a table with a TEXT primary key holds one row for a key. The
-- mutex makes each method one atomic step. The migration, the deletion, the rename and
-- `or_fault` take the errors that a poisoned mutex or SQLite itself may give; where none of them is
-- used these are left out.
pub mod Schema
pub mod Queue
pub mod Files
mod Examples
use syncgdrive.Base.{
  ℕ, zero, suc, ◌+◌, Text, codes, text_eq, Bool, true, false, not, Option, none, some, List, [],
  ◌∷◌, ◌++◌, map, length, keep, member, Dict, get, put, remove, ◌==◌, if◌then◌else◌, Result, ok,
  err, bail, max, ltb, Act, Error, ◌>>=◌,
}

pub record FileEntry : Type 0 where
  pub path : Text
  pub hash : Text
  pub mtime : ℕ

-- The columns of `file_index` besides its key.
pub record FileRow : Type 0 where
  pub hash : Text
  pub mtime : ℕ

pub record PathCacheEntry : Type 0 where
  pub relative_path : Text
  pub drive_id : Text
  pub parent_id : Text
  pub is_folder : Bool
  pub updated_at : ℕ

pub record OfflineTask : Type 0 where
  pub id : ℕ
  pub action : Text
  pub relative_path : Text
  pub extra : Option Text
  pub created_at : ℕ

-- `dir_index`: the second column came with V2.
pub record DirTable : Type 0 where
  pub has_drive_id : Bool
  pub rows : Dict (Option Text)

-- `offline_queue`, with the counter of AUTOINCREMENT.
pub record QueueTable : Type 0 where
  pub rows : List OfflineTask
  pub sequence : ℕ

pub record Database : Type 0 where
  pub schema : Option (List ℕ)
  pub file_index : Option (Dict FileRow)
  pub dir_index : Option DirTable
  pub path_cache : Option (Dict PathCacheEntry)
  pub offline_queue : Option QueueTable

abbrev pub empty : Database
empty = record {
  schema = none;
  file_index = none;
  dir_index = none;
  path_cache = none;
  offline_queue = none;
}

abbrev pub sql_error : Text → Text → Text
sql_error what table = what ++ codes ": " ++ table

-- `SELECT MAX(version)`
abbrev pub max_of : ℕ → List ℕ → ℕ
max_of v [] = v
max_of v (w ∷ ws) = max_of (max v w) ws

-- An empty `schema_version` gives NULL, which is no i32.
unfoldable pub schema_version : Database → Result ℕ
schema_version db = elim db.schema [
  | some versions ↦ elim versions [
    | [] ↦ bail (codes "Invalid column type Null")
    | v ∷ vs ↦ ok (max_of v vs)
  ]
  | none ↦ elim db.file_index [ some rows ↦ ok 1 | none ↦ ok 0 ]
]

-- The statements of the scripts. Each changes the database by itself; one that fails leaves what
-- those before it did.
-- `CREATE TABLE`: the table must not be there.
abbrev pub exists_error : Text → Result (Unit {0})
exists_error table = bail (sql_error (codes "table already exists") table)

unfoldable pub create_file_index : Act Database (Unit {0})
create_file_index db = elim db.file_index [
  | none ↦ (ok tt, record db { file_index = some [] })
  | some old ↦ (exists_error (codes "file_index"), db)
]

unfoldable pub create_dir_index : Act Database (Unit {0})
create_dir_index db = elim db.dir_index [
  | none ↦ (ok tt, record db { dir_index = some (record { has_drive_id = true; rows = [] }) })
  | some old ↦ (exists_error (codes "dir_index"), db)
]

unfoldable pub create_schema_version : Act Database (Unit {0})
create_schema_version db = elim db.schema [
  | none ↦ (ok tt, record db { schema = some [] })
  | some old ↦ (exists_error (codes "schema_version"), db)
]

-- `INSERT INTO schema_version (version) VALUES (2)`
unfoldable pub insert_version : Act Database (Unit {0})
insert_version db = elim db.schema [
  | none ↦ (bail (codes "no such table: schema_version"), db)
  | some versions ↦ (ok tt, record db { schema = some (versions ++ 2 ∷ []) })
]

unfoldable pub create_path_cache : Act Database (Unit {0})
create_path_cache db = elim db.path_cache [
  | none ↦ (ok tt, record db { path_cache = some [] })
  | some old ↦ (exists_error (codes "path_cache"), db)
]

abbrev pub empty_queue : QueueTable
empty_queue = record { rows = []; sequence = 0 }

unfoldable pub create_offline_queue : Act Database (Unit {0})
create_offline_queue db = elim db.offline_queue [
  | none ↦ (ok tt, record db { offline_queue = some empty_queue })
  | some old ↦ (exists_error (codes "offline_queue"), db)
]

-- `ALTER TABLE dir_index ADD COLUMN drive_id TEXT`
unfoldable pub add_drive_id : Act Database (Unit {0})
add_drive_id db = elim db.dir_index [
  | none ↦ (bail (codes "no such table: dir_index"), db)
  | some t ↦ elim t.has_drive_id [
    | true ↦ (bail (codes "duplicate column name: drive_id"), db)
    | false ↦ (ok tt, record db { dir_index = some (record t { has_drive_id = true }) })
  ]
]

-- The script of the first creation.
unfoldable pub create_v2 : Act Database (Unit {0})
create_v2 = create_file_index >>= λ _. create_dir_index >>= λ _. create_schema_version >>= λ _.
    insert_version >>= λ _. create_path_cache >>= λ _. create_offline_queue

-- The script of the migration from V1.
unfoldable pub migrate_v1 : Act Database (Unit {0})
migrate_v1 = create_schema_version >>= λ _.
    insert_version >>= λ _. add_drive_id >>= λ _. create_path_cache >>= λ _. create_offline_queue

-- `conn.transaction()`, the script, `tx.commit()`: SQLite rolls back a transaction that is dropped
-- without its commit. The faults are the errors of the lock or of the beginning, and of the commit.
unfoldable pub transaction :
    Option Error → Option Error → Act Database (Unit {0}) → Act Database (Unit {0})
transaction begin_fault commit_fault script db = elim begin_fault [
  | some e ↦ (err e, db)
  | none ↦
      let (r, db') = script db in
      elim r [
        | err e ↦ (err e, db)
        | ok done ↦ elim commit_fault [ some e ↦ (err e, db) | none ↦ (ok tt, db') ]
      ]
]

-- The faults of the three places where the lock or SQLite may fail.
pub record Faults : Type 0 where
  pub reading : Option Error
  pub beginning : Option Error
  pub committing : Option Error

abbrev pub no_faults : Faults
no_faults = record { reading = none; beginning = none; committing = none }

-- The version, where the lock and the statements give no error.
abbrev pub read_version : Option Error → Database → Result ℕ
read_version none db = schema_version db
read_version (some e) db = err e

unfoldable pub init_and_migrate : Faults → Act Database (Unit {0})
init_and_migrate faults db = elim (read_version faults.reading db) [
  | err e ↦ (err e, db)
  | ok version ↦ elim (version == 0) [
    | true ↦ transaction faults.beginning faults.committing create_v2 db
    | false ↦ elim (version == 1) [
      | true ↦ transaction faults.beginning faults.committing migrate_v1 db
      | false ↦ (ok tt, db)
    ]
  ]
]

-- A statement on a table that may be missing.
abbrev pub on_table : {T A : Type 0} → Text → Option T → (T → Result A) → Result A
on_table name none f = bail (sql_error (codes "no such table") name)
on_table name (some t) f = f t

abbrev on_files : {A : Type 0} → Database → (Dict FileRow → Result A) → Result A
on_files db f = on_table (codes "file_index") db.file_index f

-- The new rows of `file_index`, or an error that changes nothing.
abbrev pub set_files : Database → Result (Dict FileRow) → Result (Unit {0}) × Database
set_files db (ok rows) = (ok tt, record db { file_index = some rows })
set_files db (err e) = (err e, db)

abbrev pub set_queue : {A : Type 0} → Database → Result (A × QueueTable) → Result A × Database
set_queue db (ok (a, q)) = (ok a, record db { offline_queue = some q })
set_queue db (err e) = (err e, db)

abbrev pub set_cache : Database → Result (Dict PathCacheEntry) → Result (Unit {0}) × Database
set_cache db (ok rows) = (ok tt, record db { path_cache = some rows })
set_cache db (err e) = (err e, db)

abbrev pub set_dirs : Database → Result DirTable → Result (Unit {0}) × Database
set_dirs db (ok dirs) = (ok tt, record db { dir_index = some dirs })
set_dirs db (err e) = (err e, db)

-- `Database::get`
unfoldable pub get_file : Text → Database → Result (Option FileEntry)
get_file path db = on_files db λ rows. ok (elim (get rows path) [
  | none ↦ none
  | some r ↦ some (record { path = path; hash = r.hash; mtime = r.mtime })
])

unfoldable pub upsert : FileEntry → Act Database (Unit {0})
upsert e db =
    set_files db
      (on_files db λ rows. ok (put rows e.path (record { hash = e.hash; mtime = e.mtime })))

-- A method that a poisoned lock or SQLite itself may stop before it changes anything.
unfoldable pub or_fault : {A : Type 0} → Option Error → Act Database A → Act Database A
or_fault (some e) m db = (err e, db)
or_fault none m db = m db

unfoldable pub count : Database → Result ℕ
count db = on_files db λ rows. ok (length rows)

unfoldable pub count_files : Database → Result ℕ
count_files db = on_files db λ rows. ok (length rows)

-- `Database::delete`; the fault is the error of a poisoned lock or of SQLite itself.
unfoldable pub delete_file : Option Error → Text → Act Database (Unit {0})
delete_file (some e) path db = (err e, db)
delete_file none path db = set_files db (on_files db λ rows. ok (remove rows path))

-- The row of `from` gets the key `to`.
unfoldable pub rekey : Text → Text → Dict FileRow → Dict FileRow
rekey from to [] = []
rekey from to ((k, r) ∷ rows) =
    let k' = if text_eq k from then to else k in (k', r) ∷ rekey from to rows

-- `UPDATE … SET path = to WHERE path = from`: an error if another row has the key `to`.
unfoldable pub rename_rows : Text → Text → Dict FileRow → Result (Dict FileRow)
rename_rows from to rows = elim (get rows from) [
  | none ↦ ok rows
  | some r ↦ elim (get rows to) [
    | none ↦ ok (rekey from to rows)
    | some r' ↦ elim (text_eq from to) [
      | true ↦ ok rows
      | false ↦ bail (codes "UNIQUE constraint failed: file_index.path")
    ]
  ]
]

-- `Database::rename`, with such a fault.
unfoldable pub rename_file : Option Error → Text → Text → Act Database (Unit {0})
rename_file (some e) from to db = (err e, db)
rename_file none from to db = set_files db (on_files db (rename_rows from to))

unfoldable pub clear : Act Database (Unit {0})
clear db = set_files db (on_files db λ rows. ok [])

abbrev pub dict_keys : {V : Type 0} → Dict V → List Text
dict_keys [] = []
dict_keys ((k, v) ∷ rows) = k ∷ dict_keys rows

unfoldable pub all_paths : Database → Result (List Text)
all_paths db = on_files db λ rows. ok (dict_keys rows)

unfoldable pub upsert_path_cache : PathCacheEntry → Act Database (Unit {0})
upsert_path_cache e db =
    set_cache db
      (on_table (codes "path_cache") db.path_cache λ rows. ok (put rows e.relative_path e))

unfoldable pub get_path_cache : Text → Database → Result (Option PathCacheEntry)
get_path_cache path db = on_table (codes "path_cache") db.path_cache λ rows. ok (get rows path)

unfoldable pub delete_path_cache : Text → Act Database (Unit {0})
delete_path_cache path db =
    set_cache db (on_table (codes "path_cache") db.path_cache λ rows. ok (remove rows path))

-- The row that AUTOINCREMENT numbers.
unfoldable pub enqueue : Text → Text → Option Text → ℕ → QueueTable → ℕ × QueueTable
enqueue action path extra now q =
    let id = q.sequence + 1 in
    (
      id,
      record {
        rows =
            q.rows
            ++ record {
              id = id;
              action = action;
              relative_path = path;
              extra = extra;
              created_at = now;
            }
              ∷ [];
        sequence = id;
      },
    )

unfoldable pub push_offline_task : Text → Text → Option Text → ℕ → Act Database ℕ
push_offline_task action path extra now db =
    set_queue db
      (on_table (codes "offline_queue") db.offline_queue λ q. ok (enqueue action path extra now q))

unfoldable pub get_offline_tasks : Database → Result (List OfflineTask)
get_offline_tasks db = on_table (codes "offline_queue") db.offline_queue λ q. ok q.rows

unfoldable pub remove_offline_task : ℕ → Act Database (Unit {0})
remove_offline_task id db = set_queue db (
    on_table (codes "offline_queue") db.offline_queue
      λ q. ok (tt, record q { rows = keep (λ t. not (t.id == id)) q.rows }))

unfoldable pub clear_offline_queue : Act Database (Unit {0})
clear_offline_queue db =
    set_queue db
      (on_table (codes "offline_queue") db.offline_queue λ q. ok (tt, record q { rows = [] }))

-- `INSERT OR IGNORE` for each path, in one transaction.
unfoldable pub insert_dirs : List Text → Dict (Option Text) → Dict (Option Text)
insert_dirs [] rows = rows
insert_dirs (p ∷ ps) rows =
    insert_dirs ps (elim (get rows p) [ some id ↦ rows | none ↦ put rows p none ])

unfoldable pub insert_dirs_batch : List Text → Act Database (Unit {0})
insert_dirs_batch paths db = set_dirs db (
    on_table (codes "dir_index") db.dir_index
      λ t. ok (record t { rows = insert_dirs paths t.rows }))

unfoldable pub all_dir_paths : Database → Result (List Text)
all_dir_paths db = on_table (codes "dir_index") db.dir_index λ t. ok (dict_keys t.rows)

unfoldable pub clear_dirs : Act Database (Unit {0})
clear_dirs db =
    set_dirs db (on_table (codes "dir_index") db.dir_index λ t. ok (record t { rows = [] }))
