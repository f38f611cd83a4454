-- ===== src/Db/Schema.antt =====
-- src/db.rs: what the migration of the schema keeps.

use syncgdrive.Base.{
  ◌≡◌, refl, ap, ◌∙◌, Option, none, some, Bool-cases, inl, inr, ◌⊎◌, [], ◌∷◌, arith, Dict,
  Result-cases, Error, ok, err, ◌==◌, Act, Result, Keeps, bind-Keeps, ◌>>=◌, Text, Option-cases,
}
use syncgdrive.Db.{
  Database, DirTable, Faults, no_faults, read_version, schema_version, create_file_index,
  create_dir_index, create_schema_version, insert_version, create_path_cache, create_offline_queue,
  add_drive_id, create_v2, migrate_v1, transaction, init_and_migrate,
}

-- What was there is there as it was.
abbrev Retained : {A : Type 0} → Option A → Option A → Type 0
Retained old now = (old ≡ none) ⊎ (now ≡ old)

Retained-trans : {A : Type 0} (a b c : Option A) → Retained a b → Retained b c → Retained a c
Retained-trans a b c (inl e) h = inl e
Retained-trans a b c (inr e) (inl e') = inl (cc)
Retained-trans a b c (inr e) (inr e') = inr (e' ∙ e)

abbrev rows_of : Option DirTable → Option (Dict (Option Text))
rows_of none = none
rows_of (some t) = some t.rows

-- The rows of every table that was there are there as they were.
abbrev pub KeepsRows : Database → Database → Type 0
KeepsRows db db' =
    Retained db.file_index db'.file_index
    × Retained (rows_of db.dir_index) (rows_of db'.dir_index)
    × Retained db.path_cache db'.path_cache
    × Retained db.offline_queue db'.offline_queue

KeepsRows-refl : (db : Database) → KeepsRows db db
KeepsRows-refl db = (inr refl, inr refl, inr refl, inr refl)

KeepsRows-trans : (a b c : Database) → KeepsRows a b → KeepsRows b c → KeepsRows a c
KeepsRows-trans a b c (f, d, p, q) (f', d', p', q') = (
  Retained-trans _ _ _ f f',
  Retained-trans _ _ _ d d',
  Retained-trans _ _ _ p p',
  Retained-trans _ _ _ q q',
)

create_file_index-Keeps : Keeps KeepsRows create_file_index
unfolding create_file_index
create_file_index-Keeps db = elim (Option-cases db.file_index) [
  | inl e ↦ rw (create_file_index, e) (inl refl, inr refl, inr refl, inr refl)
  | inr (old, e) ↦ rw (create_file_index, e) (inr e, inr refl, inr refl, inr refl)
]

create_dir_index-Keeps : Keeps KeepsRows create_dir_index
unfolding create_dir_index
create_dir_index-Keeps db = elim (Option-cases db.dir_index) [
  | inl e ↦ rw (create_dir_index, e) (inr refl, inl refl, inr refl, inr refl)
  | inr (old, e) ↦ rw (create_dir_index, e) (inr refl, inr (ap rows_of e), inr refl, inr refl)
]

create_schema_version-Keeps : Keeps KeepsRows create_schema_version
unfolding create_schema_version
create_schema_version-Keeps db = elim (Option-cases db.schema) [
  | inl e ↦ rw (create_schema_version, e) (inr refl, inr refl, inr refl, inr refl)
  | inr (old, e) ↦ rw (create_schema_version, e) (inr refl, inr refl, inr refl, inr refl)
]

insert_version-Keeps : Keeps KeepsRows insert_version
unfolding insert_version
insert_version-Keeps db = elim (Option-cases db.schema) [
  | inl e ↦ rw (insert_version, e) (inr refl, inr refl, inr refl, inr refl)
  | inr (old, e) ↦ rw (insert_version, e) (inr refl, inr refl, inr refl, inr refl)
]

create_path_cache-Keeps : Keeps KeepsRows create_path_cache
unfolding create_path_cache
create_path_cache-Keeps db = elim (Option-cases db.path_cache) [
  | inl e ↦ rw (create_path_cache, e) (inr refl, inr refl, inl refl, inr refl)
  | inr (old, e) ↦ rw (create_path_cache, e) (inr refl, inr refl, inr e, inr refl)
]

create_offline_queue-Keeps : Keeps KeepsRows create_offline_queue
unfolding create_offline_queue
create_offline_queue-Keeps db = elim (Option-cases db.offline_queue) [
  | inl e ↦ rw (create_offline_queue, e) (inr refl, inr refl, inr refl, inl refl)
  | inr (old, e) ↦ rw (create_offline_queue, e) (inr refl, inr refl, inr refl, inr e)
]

add_drive_id-Keeps : Keeps KeepsRows add_drive_id
unfolding add_drive_id
add_drive_id-Keeps db = elim (Option-cases db.dir_index) [
  | inl e ↦ rw (add_drive_id, e) (inr refl, inr (ap rows_of e), inr refl, inr refl)
  | inr (t, e) ↦ elim (Bool-cases t.has_drive_id) [
    | inl there ↦ rw (add_drive_id, e, there) (inr refl, inr (ap rows_of e), inr refl, inr refl)
    | inr new ↦ rw (add_drive_id, e, new) (inr refl, inr refl, inr refl, inr refl)
  ]
]

both :
    {A B : Type 0} (m : Act Database A) (f : A → Act Database B)
    → Keeps KeepsRows m
    → ((a : A) → Keeps KeepsRows (f a))
    → Keeps KeepsRows (m >>= f)
both m f = bind-Keeps KeepsRows KeepsRows-refl KeepsRows-trans m f

create_v2-Keeps : Keeps KeepsRows create_v2
unfolding create_v2
create_v2-Keeps = both _ _ create_file_index-Keeps λ _. both _ _ create_dir_index-Keeps λ _.
    both _ _ create_schema_version-Keeps λ _.
      both _ _ insert_version-Keeps
        λ _. both _ _ create_path_cache-Keeps λ _. create_offline_queue-Keeps

migrate_v1-Keeps : Keeps KeepsRows migrate_v1
unfolding migrate_v1
migrate_v1-Keeps = both _ _ create_schema_version-Keeps λ _. both _ _ insert_version-Keeps λ _.
    both _ _ add_drive_id-Keeps
      λ _. both _ _ create_path_cache-Keeps λ _. create_offline_queue-Keeps

-- The two ends of a transaction.
transaction-cases :
    (b c : Option Error) (script : Act Database (Unit {0})) (db : Database)
    → ((e : Error) × (transaction b c script db ≡ (err e, db)))
      ⊎ (((script db).0 ≡ ok tt) × (transaction b c script db ≡ (ok tt, (script db).1)))
unfolding transaction
transaction-cases (some e) c script db = inl (e, refl)
transaction-cases none c script db = elim (Result-cases (script db).0) [
  | inr (e, failed) ↦ inl (e, rw (transaction, failed) refl)
  | inl (done, worked) ↦ elim (Option-cases c) [
    | inl fine ↦ inr (worked, rw (transaction, worked, fine) refl)
    | inr (e, broken) ↦ inl (e, rw (transaction, worked, broken) refl)
  ]
]

-- The ends of a migration: an error, nothing to do, one of the two scripts.
data Migrated (db : Database) : Result (Unit {0}) × Database → Type 0 where
  failed : (e : Error) → Migrated db (err e, db)
  current : Migrated db (ok tt, db)
  made : (create_v2 db).0 ≡ ok tt → Migrated db (ok tt, (create_v2 db).1)
  moved : (migrate_v1 db).0 ≡ ok tt → Migrated db (ok tt, (migrate_v1 db).1)

init_and_migrate-Migrated :
    (faults : Faults) (db : Database) → Migrated db (init_and_migrate faults db)
unfolding init_and_migrate
init_and_migrate-Migrated faults db = elim (Result-cases (read_version faults.reading db)) [
  | inr (e, unread) ↦ rw (init_and_migrate, unread) (failed e)
  | inl (version, known) ↦ elim (Bool-cases (version == 0)) [
    | inl first ↦ elim (transaction-cases faults.beginning faults.committing create_v2 db) [
      | inl (e, undone) ↦ rw (init_and_migrate, known, first, undone) (failed e)
      | inr (worked, done) ↦ rw (init_and_migrate, known, first, done) (made worked)
    ]
    | inr later ↦ elim (Bool-cases (version == 1)) [
      | inl one ↦ elim (transaction-cases faults.beginning faults.committing migrate_v1 db) [
        | inl (e, undone) ↦ rw (init_and_migrate, known, later, one, undone) (failed e)
        | inr (worked, done) ↦ rw (init_and_migrate, known, later, one, done) (moved worked)
      ]
      | inr new ↦ rw (init_and_migrate, known, later, new) current
    ]
  ]
]

Migrated-KeepsRows :
    (db : Database) (x : Result (Unit {0}) × Database) → Migrated db x → KeepsRows db x.1
Migrated-KeepsRows db _ (failed e) = KeepsRows-refl db
Migrated-KeepsRows db _ current = KeepsRows-refl db
Migrated-KeepsRows db _ (made worked) = create_v2-Keeps db
Migrated-KeepsRows db _ (moved worked) = migrate_v1-Keeps db

-- However a migration ends, and whatever fails in it, the rows of every table that was there are
-- there as they were: of the files, the directories, the cache and the queue.
pub init_and_migrate-KeepsRows :
    (faults : Faults) (db : Database) → KeepsRows db (init_and_migrate faults db).1
init_and_migrate-KeepsRows faults db = Migrated-KeepsRows db _ (init_and_migrate-Migrated faults db)

Migrated-undone :
    (db : Database) (x : Result (Unit {0}) × Database) (e : Error)
    → Migrated db x
    → x.0 ≡ err e
    → x.1 ≡ db
Migrated-undone db _ e (failed e') h = refl
Migrated-undone db _ e current h = refl
Migrated-undone db _ e (made worked) h = absurd (ground (arith, h))
Migrated-undone db _ e (moved worked) h = absurd (ground (arith, h))

-- A migration that fails, at the lock, at the beginning, at any statement of a script or at the
-- commit, leaves the database as it was, without the statements that had worked.
pub init_and_migrate-atomic :
    (faults : Faults) (db : Database) (e : Error)
    → (init_and_migrate faults db).0 ≡ err e
    → (init_and_migrate faults db).1 ≡ db
init_and_migrate-atomic faults db e h =
    Migrated-undone db _ e (init_and_migrate-Migrated faults db) h

create_v2-schema :
    (db : Database) → (create_v2 db).0 ≡ ok tt → (create_v2 db).1.schema ≡ some (2 ∷ [])
unfolding create_v2 create_file_index create_dir_index create_schema_version insert_version
    create_path_cache create_offline_queue ◌>>=◌
create_v2-schema db h = ground arith

migrate_v1-schema :
    (db : Database) → (migrate_v1 db).0 ≡ ok tt → (migrate_v1 db).1.schema ≡ some (2 ∷ [])
unfolding migrate_v1 add_drive_id create_schema_version insert_version create_path_cache
    create_offline_queue ◌>>=◌
migrate_v1-schema db h = ground arith

at_two : (db : Database) → db.schema ≡ some (2 ∷ []) → init_and_migrate no_faults db ≡ (ok tt, db)
unfolding init_and_migrate schema_version
at_two db h = ground arith

Migrated-again :
    (db : Database) (x : Result (Unit {0}) × Database)
    → Migrated db x
    → x.0 ≡ ok tt
    → (x ≡ (ok tt, db)) ⊎ (init_and_migrate no_faults x.1 ≡ (ok tt, x.1))
Migrated-again db _ (failed e) h = absurd (ground (arith, h))
Migrated-again db _ current h = inl refl
Migrated-again db _ (made worked) h = inr (at_two _ (create_v2-schema db worked))
Migrated-again db _ (moved worked) h = inr (at_two _ (migrate_v1-schema db worked))

-- After a successful migration a second one succeeds and changes nothing, if no fault befalls it.
pub init_and_migrate-twice :
    (db : Database)
    → (init_and_migrate no_faults db).0 ≡ ok tt
    → init_and_migrate no_faults (init_and_migrate no_faults db).1
      ≡ (ok tt, (init_and_migrate no_faults db).1)
init_and_migrate-twice db h =
    elim (Migrated-again db _ (init_and_migrate-Migrated no_faults db) h) [
      | inl same ↦ cc
      | inr done ↦ done
    ]
