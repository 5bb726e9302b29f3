-- ===== src/Store/Meta.antt =====
-- The counters, the version index and the write-ahead log of the store.
use xtable.Prelude.{ℕ, String, Option, List, [], ◌∷◌, Map, lookup, insert, string_key, nat_key}
use xtable.Prelude.Words.{add_u64}
use mathlib.Core.Option
use xtable.Records.{VersionRecord, WalRecord}
use xtable.Store.Defs.{LocalStore}

-- a row of the `meta` table, or 0 where there is none
abbrev pub counter : String → LocalStore → ℕ
counter name s = Option.get_or (lookup name s.meta) 0

unfoldable pub next_global_version : LocalStore → ℕ × LocalStore
next_global_version s =
    let next = add_u64 (counter "global_version" s) 1 in
    (next, record s { meta = insert "global_version" next s.meta })

unfoldable pub current_global_version : LocalStore → ℕ
current_global_version s = counter "global_version" s

unfoldable pub get_version : String → LocalStore → Option VersionRecord
get_version key s = lookup key s.versions

unfoldable pub put_version : String → VersionRecord → LocalStore → LocalStore
put_version key rec s = record s { versions = insert key rec s.versions }

abbrev pub insert_all :
    List (String × VersionRecord) → Map String VersionRecord → Map String VersionRecord
insert_all [] m = m
insert_all ((k, r) ∷ updates) m = insert_all updates (insert k r m)

unfoldable pub put_versions_bulk : List (String × VersionRecord) → LocalStore → LocalStore
put_versions_bulk updates s = record s { versions = insert_all updates s.versions }

unfoldable pub next_wal_seq : LocalStore → ℕ × LocalStore
next_wal_seq s =
    let next = add_u64 (counter "last_wal_seq" s) 1 in
    (next, record s { meta = insert "last_wal_seq" next s.meta })

unfoldable pub append_wal : WalRecord → LocalStore → ℕ × LocalStore
append_wal rec s =
    let seq = add_u64 (counter "last_wal_seq" s) 1 in
    (seq, record s { meta = insert "last_wal_seq" seq s.meta; wal = insert seq rec s.wal })

-- the table iterates in the order of its keys, which is the order that `iter_wal` sorts by
unfoldable pub iter_wal : LocalStore → List (ℕ × WalRecord)
iter_wal s = s.wal

unfoldable pub last_wal_seq : LocalStore → ℕ
last_wal_seq s = counter "last_wal_seq" s
