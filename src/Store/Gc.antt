-- ===== src/Store/Gc.antt =====
-- Garbage collection of the version chains and of the historical records, in one transaction.
pub mod Chains
pub mod Versions
pub mod History
pub mod Best
pub mod Retention
mod Tests
use xtable.Prelude.{
  ℕ, ◌+◌, ◌-◌, String, Bool, Option, none, some, List, [], ◌∷◌, Map, lookup, insert, remove,
  nat_key, string_key, pair_key, triple_key, if◌then◌else◌, not, ◌||◌, any, retain, ltb, leb,
  length, take, rposition, min, ◌==◌,
}
use xtable.Prelude.Words.{u64_max}
use mathlib.Core.Option
use xtable.Chain.{VersionChain, prune_below}
use xtable.Records.{RecordIndexEntry, StoredRecordVersion, Bytes}
use xtable.Store.Defs.{LocalStore, RecordKey}
use xtable.Store.Pins.{min_key}

-- the loop over the chains: every chain is visited, and a chain that loses entries is written back
unfoldable pub prune_all : ℕ → Map String VersionChain → Map String VersionChain
prune_all min_snapshot [] = []
prune_all min_snapshot ((key, chain) ∷ rows) =
    (key, (prune_below min_snapshot chain).1) ∷ prune_all min_snapshot rows

unfoldable pub total_removed : ℕ → Map String VersionChain → ℕ
total_removed min_snapshot [] = 0
total_removed min_snapshot ((key, chain) ∷ rows) =
    (prune_below min_snapshot chain).0 + total_removed min_snapshot rows

-- the commit versions of one record, ascending as the table keeps them
unfoldable pub versions_of : RecordKey → Map (RecordKey × ℕ) StoredRecordVersion → List ℕ
versions_of r [] = []
versions_of r (((q, v), _) ∷ rows) =
    let rest = versions_of r rows in if q == r then v ∷ rest else rest

-- the number of versions of a record that go
abbrev pub history_keep_from : ℕ → List ℕ → ℕ
history_keep_from min_snapshot versions =
    if min_snapshot == u64_max
    then length versions - 1
    else Option.get_or (rposition (λ v. leb v min_snapshot) versions) 0

-- `sort_unstable` on the versions of a record
unfoldable pub insert_version : ℕ → List ℕ → List ℕ
insert_version v [] = v ∷ []
insert_version v (w ∷ ws) =
    let rest = insert_version v ws in if ltb w v then w ∷ rest else v ∷ w ∷ ws

unfoldable pub sort_versions : List ℕ → List ℕ
sort_versions [] = []
sort_versions (v ∷ vs) = insert_version v (sort_versions vs)

-- the versions of a record that the collection removes
unfoldable pub doomed : ℕ → RecordKey → Map (RecordKey × ℕ) StoredRecordVersion → List ℕ
doomed min_snapshot r rows =
    let versions = sort_versions (versions_of r rows) in
    take (history_keep_from min_snapshot versions) versions

unfoldable pub prune_history :
    ℕ → Map (RecordKey × ℕ) StoredRecordVersion → Map (RecordKey × ℕ) StoredRecordVersion
prune_history min_snapshot rows =
    retain (λ row. not (any (λ v. v == row.0.1) (doomed min_snapshot row.0.0 rows))) rows

-- the threshold: no caller can prune past a snapshot that is registered
abbrev pub threshold : Option ℕ → LocalStore → ℕ
threshold none s = min_key s.active_snapshots
threshold (some requested) s = min requested (min_key s.active_snapshots)

-- the chains visited and the entries removed, and the new store
unfoldable pub gc_chains_inner : Option ℕ → LocalStore → (ℕ × ℕ) × LocalStore
gc_chains_inner requested s =
    let min_snapshot = threshold requested s in
    (
      (length s.version_chains, total_removed min_snapshot s.version_chains),
      record s {
        version_chains = prune_all min_snapshot s.version_chains;
        record_versions = prune_history min_snapshot s.record_versions;
      },
    )

unfoldable pub gc_chains : ℕ → LocalStore → (ℕ × ℕ) × LocalStore
unfolding gc_chains_inner
gc_chains min_snapshot s = gc_chains_inner (some min_snapshot) s

unfoldable pub gc_chains_at_active_snapshot : LocalStore → (ℕ × ℕ) × LocalStore
unfolding gc_chains_inner
gc_chains_at_active_snapshot s = gc_chains_inner none s

-- the fold of `get_record_version_at_snapshot`: a later row replaces the best one only if newer
abbrev pub better : Option StoredRecordVersion → StoredRecordVersion → Option StoredRecordVersion
better none stored = some stored
better (some best) stored =
    if ltb best.entry.commit_version stored.entry.commit_version then some stored else some best

unfoldable pub best_version :
    RecordKey
    → ℕ
    → Option StoredRecordVersion
    → Map (RecordKey × ℕ) StoredRecordVersion
    → Option StoredRecordVersion
best_version r snapshot best [] = best
best_version r snapshot best (((q, v), stored) ∷ rows) =
    best_version r snapshot (if not (q == r) || ltb snapshot v then best else better best stored)
      rows

unfoldable pub get_record_version_at_snapshot :
    RecordKey → ℕ → LocalStore → Option StoredRecordVersion
get_record_version_at_snapshot r snapshot s = best_version r snapshot none s.record_versions

unfoldable pub put_record_version : RecordKey → RecordIndexEntry → Bytes → LocalStore → LocalStore
put_record_version r entry body s = record s {
  record_versions =
      insert (r, entry.commit_version) (record { entry = entry; body = body }) s.record_versions;
}
