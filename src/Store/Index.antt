-- ===== src/Store/Index.antt =====
-- The record index, the record history that it is written with, and the schema index of the store. A table
-- iterates in key order, so the rows of one space and table come in the order of their ids, in which the
-- source sorts them. serde_json is another package: the text of a body is an argument.
pub mod Laws
mod Tests
use xtable.Prelude.{
  ℕ, ◌≡◌, String, Bool, true, false, ◌||◌, ◌&&◌, Option, none, some, List, [], ◌∷◌, Map, lookup,
  insert, remove, leb, ◌==◌, nat_key, string_key, pair_key, triple_key, if◌then◌else◌,
}
use mathlib.Core.Option
use xtable.Errors.{Result, ok, err}
use xtable.Records.{Bytes, RecordIndexEntry, StoredRecord, StoredRecordVersion, SchemaIndexEntry}
use xtable.Wire.Utf8.{as_bytes}
use xtable.Store.Defs.{LocalStore, RecordKey, RecordRow, with_body, bare}
use xtable.Store.Gc.{put_record_version}

-- the entry of a row in either shape
abbrev pub entry_of : RecordRow → RecordIndexEntry
entry_of (with_body r) = r.entry
entry_of (bare e) = e

abbrev pub set_chunk : String → RecordIndexEntry → RecordIndexEntry
set_chunk chunk_id e = record e { chunk_id = chunk_id }

abbrev pub set_row_chunk : String → RecordRow → RecordRow
set_row_chunk chunk_id (with_body r) = with_body (record r { entry = set_chunk chunk_id r.entry })
set_row_chunk chunk_id (bare e) = bare (set_chunk chunk_id e)

unfoldable pub put_record_index : RecordKey → RecordIndexEntry → LocalStore → LocalStore
put_record_index key entry s = record s { record_index = insert key (bare entry) s.record_index }

unfoldable pub get_record_index : RecordKey → LocalStore → Option RecordIndexEntry
get_record_index key s = Option.map entry_of (lookup key s.record_index)

-- whether the row of a newer version is not there already
abbrev pub replaces_latest : ℕ → Option RecordRow → Bool
replaces_latest version none = true
replaces_latest version (some row) = leb (entry_of row).commit_version version

unfoldable pub put_record_index_with_body :
    RecordKey → RecordIndexEntry → String → LocalStore → LocalStore
put_record_index_with_body key entry body_json s =
    let row = with_body (record { entry = entry; body_json = body_json }) in
    record s {
      record_index =
          if replaces_latest entry.commit_version (lookup key s.record_index)
          then insert key row s.record_index
          else s.record_index;
      record_versions =
          insert (key, entry.commit_version) (record { entry = entry; body = as_bytes body_json })
            s.record_versions;
    }

unfoldable pub put_record_versions_bulk :
    List (RecordKey × RecordIndexEntry × Bytes) → LocalStore → LocalStore
put_record_versions_bulk [] s = s
put_record_versions_bulk ((key, entry, body) ∷ updates) s =
    put_record_versions_bulk updates (put_record_version key entry body s)

module _ {Json : Type 0} (null : Json) (from_str : String → Result Json) where
  abbrev pub parsed : RecordIndexEntry → Result Json → Result (Option (RecordIndexEntry × Json))
  parsed entry (ok body) = ok (some (entry, body))
  parsed entry (err e) = err e

  abbrev pub read_row : Option RecordRow → Result (Option (RecordIndexEntry × Json))
  read_row none = ok none
  read_row (some (with_body r)) =
      if r.body_json == "" then ok (some (r.entry, null)) else parsed r.entry (from_str r.body_json)
  read_row (some (bare e)) = ok (some (e, null))

  unfoldable pub get_record_index_with_body :
      RecordKey → LocalStore → Result (Option (RecordIndexEntry × Json))
  get_record_index_with_body key s = read_row (lookup key s.record_index)

unfoldable pub delete_record_index : RecordKey → LocalStore → LocalStore
delete_record_index key s = record s { record_index = remove key s.record_index }

unfoldable pub update_record_index_chunk_id : RecordKey → String → LocalStore → Bool × LocalStore
update_record_index_chunk_id key new_chunk_id s = elim (lookup key s.record_index) [
  | none ↦ (false, s)
  | some row ↦
      (true, record s { record_index = insert key (set_row_chunk new_chunk_id row) s.record_index })
]

-- the row of the record index is changed if it is of the version
abbrev pub update_latest :
    RecordKey
    → ℕ
    → String
    → Option RecordRow
    → Map RecordKey RecordRow
    → Bool × Map RecordKey RecordRow
update_latest key version chunk_id none m = (false, m)
update_latest key version chunk_id (some row) m =
    if (entry_of row).commit_version == version
    then (true, insert key (set_row_chunk chunk_id row) m)
    else (false, m)

abbrev pub update_version :
    RecordKey
    → ℕ
    → String
    → Option StoredRecordVersion
    → Map (RecordKey × ℕ) StoredRecordVersion
    → Bool × Map (RecordKey × ℕ) StoredRecordVersion
update_version key version chunk_id none m = (false, m)
update_version key version chunk_id (some stored) m =
    (true, insert (key, version) (record stored { entry = set_chunk chunk_id stored.entry }) m)

unfoldable pub update_record_index_chunk_id_for_version :
    RecordKey → ℕ → String → LocalStore → Bool × LocalStore
update_record_index_chunk_id_for_version key version chunk_id s =
    let latest = update_latest key version chunk_id (lookup key s.record_index) s.record_index in
    let versions =
      update_version key version chunk_id (lookup (key, version) s.record_versions)
        s.record_versions in
    (versions.0 || latest.0, record s { record_index = latest.1; record_versions = versions.1 })

abbrev pub rows_in : String → String → Map RecordKey RecordRow → List (String × RecordIndexEntry)
rows_in space table [] = []
rows_in space table (((s, t, rid), row) ∷ rows) =
    let rest = rows_in space table rows in
    if s == space && t == table then (rid, entry_of row) ∷ rest else rest

unfoldable pub iter_record_index : String → String → LocalStore → List (String × RecordIndexEntry)
iter_record_index space table s = rows_in space table s.record_index

unfoldable pub put_schema_index : String → String → SchemaIndexEntry → LocalStore → LocalStore
put_schema_index space name entry s = record s {
  schema_index = insert (space, name) entry s.schema_index;
}

unfoldable pub get_schema_index : String → String → LocalStore → Option SchemaIndexEntry
get_schema_index space name s = lookup (space, name) s.schema_index

abbrev pub schemas_in :
    String → Map (String × String) SchemaIndexEntry → List (String × SchemaIndexEntry)
schemas_in space [] = []
schemas_in space (((s, n), rec) ∷ rows) =
    let rest = schemas_in space rows in if s == space then (n, rec) ∷ rest else rest

unfoldable pub iter_schema_index : String → LocalStore → List (String × SchemaIndexEntry)
iter_schema_index space s = schemas_in space s.schema_index
