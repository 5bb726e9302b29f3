-- ===== src/Memtable.antt =====
-- xtable-storage/src/memtable.rs: one memtable, a map from record keys to entries with its running
-- totals. An entry's `Arc<AtomicU64>` is the number it holds, since the table replaces the row when
-- it stores through it. The atomic updates of one call are one step. `now` is the clock's reading.
pub mod Visible
pub mod Bounds
pub mod Set
mod Tests
use xtable.Prelude.{
  ℕ, ◌-◌, ◌≡◌, ◌&&◌, ◌||◌, String, Bool, true, false, not, Option, none, some, List, [], ◌∷◌, Map,
  lookup, insert, modify, ◌==◌, nat_key, string_key, triple_key, if◌then◌else◌, leb, min, max,
}
use xtable.Prelude.Words.{u64_max, add_u64}
use xtable.Records.{Bytes}
use xtable.Store.{RecordKey}

-- `INVISIBLE`
abbrev pub invisible : ℕ
invisible = u64_max

pub record RecordValue : Type 0 where
  pub bytes : Bytes

pub record MemEntry : Type 0 where
  pub key : RecordKey
  pub value : RecordValue
  pub commit_version : ℕ
  pub txn_id : String
  pub deleted : Bool
  pub content_type : Option String
  pub user_meta : List (String × String)
  pub schema_version : ℕ
  pub wal_seq : ℕ
  pub size_bytes : ℕ

unfoldable pub visible_at : MemEntry → ℕ → Bool
visible_at e snapshot = not (e.commit_version == invisible) && leb e.commit_version snapshot

unfoldable pub is_invisible : MemEntry → Bool
is_invisible e = e.commit_version == invisible

pub record SerializedEntry : Type 0 where
  pub space : String
  pub table : String
  pub record_id : String
  pub body : Bytes
  pub commit_version : ℕ
  pub txn_id : String
  pub deleted : Bool
  pub content_type : Option String
  pub user_meta : List (String × String)
  pub schema_version : ℕ
  pub wal_seq : ℕ

unfoldable pub serialized : MemEntry → SerializedEntry
serialized e = record {
  space = e.key.0;
  table = e.key.1;
  record_id = e.key.2;
  body = e.value.bytes;
  commit_version = e.commit_version;
  txn_id = e.txn_id;
  deleted = e.deleted;
  content_type = e.content_type;
  user_meta = e.user_meta;
  schema_version = e.schema_version;
  wal_seq = e.wal_seq;
}

pub record MemTable : Type 0 where
  pub id : ℕ
  pub created_at : ℕ
  pub rows : Map RecordKey MemEntry
  pub bytes_estimate : ℕ
  pub earliest_seq : ℕ
  pub latest_seq : ℕ
  pub version_min : ℕ
  pub version_max : ℕ

unfoldable pub new_memtable : ℕ → ℕ → MemTable
new_memtable id now = record {
  id = id;
  created_at = now;
  rows = [];
  bytes_estimate = 0;
  earliest_seq = u64_max;
  latest_seq = 0;
  version_min = invisible;
  version_max = 0;
}

-- the size delta, and the table after the insert
unfoldable pub put_invisible : MemEntry → MemTable → ℕ × MemTable
put_invisible e m =
    let size_delta = max e.size_bytes 64 in
    let staged = e.commit_version == invisible in
    (
      size_delta,
      record m {
        bytes_estimate = add_u64 m.bytes_estimate size_delta;
        earliest_seq = min m.earliest_seq e.wal_seq;
        latest_seq = max m.latest_seq e.wal_seq;
        version_min = if staged then m.version_min else min m.version_min e.commit_version;
        version_max = if staged then m.version_max else max m.version_max e.commit_version;
        rows = insert e.key e m.rows;
      },
    )

abbrev pub set_version : ℕ → MemEntry → MemEntry
set_version v e = record e { commit_version = v }

-- the sequence number is not used
unfoldable pub publish : RecordKey → ℕ → ℕ → MemTable → MemTable
publish key wal_seq v m = elim (lookup key m.rows) [
  | none ↦ m
  | some _ ↦ record m {
    rows = modify key (set_version v) m.rows;
    version_min = min m.version_min v;
    version_max = max m.version_max v;
  }
]

abbrev pub when_visible : ℕ → Option MemEntry → Option MemEntry
when_visible snapshot none = none
when_visible snapshot (some e) = if visible_at e snapshot then some e else none

unfoldable pub get_visible : RecordKey → ℕ → MemTable → Option MemEntry
get_visible key snapshot m = when_visible snapshot (lookup key m.rows)

pub record FlushPolicy : Type 0 where
  pub memtable_size_bytes : ℕ
  pub memtable_age : ℕ
  pub soft_limit_bytes : ℕ

-- bytes, and milliseconds
abbrev pub default_policy : FlushPolicy
default_policy = record {
  memtable_size_bytes = 67108864;
  memtable_age = 60000;
  soft_limit_bytes = 53477376;
}

-- `elapsed` saturates at 0
unfoldable pub should_flush : FlushPolicy → ℕ → MemTable → Bool
should_flush policy now m =
    leb policy.memtable_size_bytes m.bytes_estimate || leb policy.memtable_age (now - m.created_at)
