-- ===== src/Store/Tests.antt =====
-- Runs of the store, after the unit tests of store.rs and gc.rs, and instances of its laws.
use xtable.Prelude.{
  ℕ, ◌≡◌, ◌≢◌, inl, inr, refl, Bool-cases, String, false, List, [], ◌∷◌, none, some, arith, lookup,
  insert, remove, ◌==◌, nat_key, string_key, All, length,
}
use xtable.Prelude.Words.{add_u64}
use xtable.Errors.{ok}
use xtable.Chain.{VersionEntry, VersionChain, latest_commit_version, append, prune_below}
use xtable.Chain
use xtable.Chain.Prune.{Fits}
use xtable.Store.{LocalStore}
use xtable.Store.Meta.{
  next_global_version, current_global_version, append_wal, last_wal_seq, iter_wal,
}
use xtable.Store.Chains
use xtable.Store.Chains.{
  read_chain, is_empty, put_chain, append_chain_entry, ChainAppend, append_one, append_all,
  insert_sorted, sort, append_chain_entries_bulk,
}
use xtable.Store.Chains.Append.{IsOrdered}
use xtable.Store.Chains.Bulk.{with_row, row_of, IsFresh, bulk_publishes}
use xtable.Store.Chains.Conflict.{IsStale, bulk-ne-ok}
use xtable.Store.Pins.{
  holders, register_snapshot, unregister_snapshot, capture_and_register_snapshot,
  min_active_snapshot,
}
use xtable.Store.Gc.{
  gc_chains_inner, prune_all, total_removed, prune_history, doomed, sort_versions, insert_version,
  versions_of,
}
use xtable.Store.Gc.Chains.{read-gc_registered}

abbrev entry : ℕ → VersionEntry
entry v = record {
  commit_version = v;
  etag = "";
  backend_key = "k";
  txn_id = "T";
  size = 0;
  content_type = none;
  user_meta = [];
  deleted = false;
  created_ms = 0;
}

abbrev empty : LocalStore
empty = record {
  versions = [];
  meta = [];
  wal = [];
  txn_state = [];
  write_set = [];
  staged_blobs = [];
  version_chains = [];
  active_snapshots = [];
  record_versions = [];
  record_index = [];
  schema_index = [];
  chunk_index = [];
  multipart = [];
}

-- one key with the versions 1, 2 and 3, and a holder of the snapshot 2
abbrev three : LocalStore
three = record empty {
  meta = ("global_version", 3) ∷ [];
  version_chains = ("k", record { key = "k"; entries = entry 1 ∷ entry 2 ∷ entry 3 ∷ [] }) ∷ [];
  active_snapshots = (2, 2) ∷ [];
}

program : Unit {0}
unfolding lookup insert remove add_u64 append latest_commit_version prune_below
    Chain.read_at_snapshot read_chain append_chain_entry append_one append_all insert_sorted sort
    append_chain_entries_bulk register_snapshot unregister_snapshot capture_and_register_snapshot
    min_active_snapshot gc_chains_inner prune_all total_removed prune_history doomed sort_versions
    insert_version versions_of next_global_version current_global_version append_wal last_wal_seq
    iter_wal Chains.read_at_snapshot
program = tt

counters :
    ((next_global_version three).0 ≡ 4) × (current_global_version (next_global_version three).1 ≡ 4)
unfolding program
counters = (refl, refl)

-- test `gc_version_chains_with_active_snapshot_pins_old`
gc_pinned :
    ((gc_chains_inner none three).0 ≡ (1, 1))
    × (length (read_chain "k" (gc_chains_inner none three).1).entries ≡ 2)
unfolding program
gc_pinned = (refl, refl)

abbrev row : String → ℕ → ℕ → ChainAppend
row key v snapshot = record { key = key; entry = entry v; snapshot_version = snapshot }

bulk_runs : length (read_chain "j" three).entries ≡ 0
unfolding program
bulk_runs = refl

three-IsOrdered : IsOrdered three
unfolding read_chain lookup
three-IsOrdered key = elim (Bool-cases ("k" == key)) [
  | inl same ↦ rw same (omega arith)
  | inr other ↦ rw other tt
]

fits : Fits (read_chain "k" three).entries
unfolding program
fits = omega arith

abbrev batch : List ChainAppend
batch = row "k" 4 3 ∷ row "j" 4 3 ∷ []

batch-IsFresh : All (IsFresh three) batch
unfolding program
batch-IsFresh = omega arith

bulk_publishes_example :
    (s' : LocalStore) × (append_chain_entries_bulk batch three ≡ ok s')
    × ((j : String) → read_chain j s' ≡ with_row (row_of j batch) (read_chain j three))
bulk_publishes_example = bulk_publishes batch three ((refl, tt), (tt, tt)) batch-IsFresh

after_batch : LocalStore
after_batch = bulk_publishes_example.0

-- a row at snapshot 2, behind a row that is fresh
abbrev stale_batch : List ChainAppend
stale_batch = row "j" 4 3 ∷ row "k" 4 2 ∷ []

stale : IsStale (row "k" 4 2) three
unfolding program
stale = (refl, omega arith)

bulk-ne-ok_example : append_chain_entries_bulk stale_batch three ≢ ok three
bulk-ne-ok_example = bulk-ne-ok (row "k" 4 2) stale_batch three three (inr (inl refl)) stale

two_holders : (holders 2 three ≡ 2) × (holders 3 three ≡ 0)
unfolding program
two_holders = (refl, refl)

at_three : current_global_version three ≡ 3
unfolding program
at_three = refl

read-gc_registered_example :
    Chains.read_at_snapshot "k" 2 (gc_chains_inner none three).1
    ≡ Chains.read_at_snapshot "k" 2 three
read-gc_registered_example = read-gc_registered none three "k" 2 2 found (omega arith) fits
  where
    found : lookup 2 three.active_snapshots ≡ some 2
    found = unfold lookup in refl
