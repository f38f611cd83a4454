-- ===== src/Db/Files.antt =====
-- src/db.rs: the index of files after each operation.
use syncgdrive.Base.{
  ◌≡◌, ◌≢◌, ap, codes, bail, Text, text_eq, text_eq_iff, Option, none, some, [], ◌∷◌, arith, Dict,
  get, get-put, get-remove, ok, if◌then◌else◌,
}
use syncgdrive.Db.{
  Database, FileEntry, FileRow, get_file, upsert, delete_file, rekey, rename_rows, rename_file,
}

abbrev pub entry : Text → Option FileRow → Option FileEntry
entry path none = none
entry path (some r) = some (record { path = path; hash = r.hash; mtime = r.mtime })

module _ (db : Database) (rows : Dict FileRow) (has : db.file_index ≡ some rows) where
  pub get_file-rows : (j : Text) → get_file j db ≡ ok (entry j (get rows j))
  unfolding get_file
  get_file-rows j = ground (arith, has)

  pub get_file-upsert :
      (e : FileEntry) (j : Text)
      → get_file j (upsert e db).1 ≡ (
          if text_eq e.path j
          then ok (some (record { path = j; hash = e.hash; mtime = e.mtime }))
          else get_file j db)
  unfolding get_file upsert
  get_file-upsert e j =
      ground (arith, has, get-put rows e.path (record { hash = e.hash; mtime = e.mtime }) j)

  pub get_file-delete_file :
      (path j : Text)
      → get_file j (delete_file none path db).1
        ≡ (if text_eq path j then ok none else get_file j db)
  unfolding get_file delete_file
  get_file-delete_file path j = ground (arith, has, get-remove rows path j)

get-rekey :
    (from to : Text) (rows : Dict FileRow) (j : Text)
    → from ≢ to
    → get rows to ≡ none
    → get (rekey from to rows) j
      ≡ (if text_eq to j then get rows from else if text_eq from j then none else get rows j)
unfolding get rekey
get-rekey from to [] j apart free = ground arith
get-rekey from to ((k, r) ∷ rows) j apart free = ground (
  arith,
  text_eq_iff k from,
  text_eq_iff k to,
  text_eq_iff k j,
  text_eq_iff to j,
  text_eq_iff from j,
  get-rekey from to rows j apart,
)

apart :
    (rows : Dict FileRow) (from to : Text) (r : FileRow)
    → get rows from ≡ some r
    → get rows to ≡ none
    → from ≢ to
apart rows from to r found free e = cc (found, free, ap (get rows) e)

module _ (db : Database) (rows : Dict FileRow) (has : db.file_index ≡ some rows) where
  -- A rename onto a free path moves the row of the file, and keeps every other.
  pub get_file-rename_file :
      (from to : Text) (r : FileRow) (j : Text)
      → get rows from ≡ some r
      → get rows to ≡ none
      → ((rename_file none from to db).0 ≡ ok tt)
        × (get_file j (rename_file none from to db).1 ≡ (
            if text_eq to j
            then ok (entry j (some r))
            else if text_eq from j
            then ok none
            else get_file j db))
  unfolding rename_file rename_rows get_file
  get_file-rename_file from to r j found free =
      ground (arith, has, get-rekey from to rows j (apart rows from to r found free))

  -- A rename onto a path that has a row of its own fails, and changes nothing.
  pub rename_file-occupied :
      (from to : Text) (r r' : FileRow)
      → from ≢ to
      → get rows from ≡ some r
      → get rows to ≡ some r'
      → rename_file none from to db ≡ (bail (codes "UNIQUE constraint failed: file_index.path"), db)
  unfolding rename_file rename_rows
  rename_file-occupied from to r r' apart found taken = ground (arith, has, text_eq_iff from to)
