-- ===== src/Store/Gc/Tests.antt =====
-- The collection of the record history at a store with three versions of a record.
use mathlib.Core.Option
use xtable.Prelude.{ℕ, ◌≡◌, refl, false, [], ◌∷◌, none, some, arith, lookup, insert, nat_key}
use xtable.Records.{RecordIndexEntry}
use xtable.Prelude.Words.{add_u64}
use xtable.Store.{LocalStore, RecordKey}
use xtable.Store.Pins.{register_snapshot}
use xtable.Store.Gc.{
  gc_chains_inner, prune_all, total_removed, prune_history, doomed, sort_versions, insert_version,
  versions_of, best_version, get_record_version_at_snapshot, put_record_version,
}
use xtable.Store.Gc.History.{IsHistory}
use xtable.Store.Gc.Retention.{read_history-gc}

collection : Unit {0}
unfolding lookup insert register_snapshot gc_chains_inner prune_all total_removed prune_history
    doomed sort_versions insert_version versions_of best_version add_u64
    get_record_version_at_snapshot put_record_version
collection = tt

abbrev row : ℕ → RecordIndexEntry
row v = record {
  commit_version = v;
  deleted = false;
  chunk_id = "";
  schema_version = 1;
  txn_id = "T";
  updated_ms = 0;
}

abbrev empty : LocalStore
empty = record {
  versions = [];
  meta = [];
  wal = [];
  txn_state = [];
  write_set = [];
  staged_blobs = [];
  version_chains = [];
  active_snapshots = [];
  record_versions = [];
  record_index = [];
  schema_index = [];
  chunk_index = [];
  multipart = [];
}

abbrev a_record : RecordKey
a_record = ("acme", "users", "u1")

-- the versions 1, 2 and 3 of a record, and a holder of the snapshot 2
abbrev kept_at_two : LocalStore
kept_at_two = register_snapshot 2 (
    put_record_version a_record (row 3) (3 ∷ []) (
      put_record_version a_record (row 2) (2 ∷ [])
        (put_record_version a_record (row 1) (1 ∷ []) empty)))

reads_two :
    Option.map
      (λ stored. stored.body)
      (get_record_version_at_snapshot a_record 2 (gc_chains_inner none kept_at_two).1)
    ≡ some (2 ∷ [])
unfolding collection
reads_two = refl

one_is_gone : get_record_version_at_snapshot a_record 1 (gc_chains_inner none kept_at_two).1 ≡ none
unfolding collection
one_is_gone = refl

kept-IsHistory : IsHistory kept_at_two.record_versions
unfolding collection
kept-IsHistory = (
  refl,
  omega arith,
  ((λ e. omega arith), ((λ e. omega arith), tt)),
  (refl, omega arith, ((λ e. omega arith), tt), (refl, omega arith, tt, tt)),
)

held : lookup 2 kept_at_two.active_snapshots ≡ some 1
unfolding collection
held = refl

read_history-gc_example :
    get_record_version_at_snapshot a_record 2 (gc_chains_inner none kept_at_two).1
    ≡ get_record_version_at_snapshot a_record 2 kept_at_two
read_history-gc_example =
    read_history-gc none kept_at_two a_record 2 1 held (omega arith) kept-IsHistory
