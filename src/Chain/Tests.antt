-- ===== src/Chain/Tests.antt =====
-- Runs of the version chain, after the unit tests of version_chain.rs, and instances of its laws.
use xtable.Prelude.{ℕ, ◌≡◌, ◌↔◌, refl, [], ◌∷◌, none, some, arith, true, false}
use xtable.Chain.{
  VersionEntry, VersionChain, new_entry, tombstone, read_at_snapshot, latest_commit_version,
  prune_below,
}
use xtable.Chain.Read.{IsNewest, read_at_snapshot_iff}

abbrev entry : ℕ → VersionEntry
entry v = record {
  commit_version = v;
  etag = "e";
  backend_key = "k";
  txn_id = "T";
  size = 0;
  content_type = none;
  user_meta = [];
  deleted = false;
  created_ms = 0;
}

abbrev chain : VersionChain
chain = record { key = "k"; entries = entry 1 ∷ entry 5 ∷ entry 10 ∷ [] }

builders : (new_entry 1 "e" "k" "T" 0 0 ≡ entry 1) × ((tombstone 1 "k" "T" 0).deleted ≡ true)
unfolding new_entry tombstone
builders = (refl, refl)

reads :
    (read_at_snapshot chain 0 ≡ none)
    × (read_at_snapshot chain 7 ≡ some (entry 5))
    × (read_at_snapshot chain 100 ≡ some (entry 10))
unfolding read_at_snapshot
reads = (refl, refl, refl)

latest : latest_commit_version chain ≡ 10
unfolding latest_commit_version
latest = refl

prune_at_anchor : (prune_below 7 chain).1.entries ≡ entry 5 ∷ entry 10 ∷ []
unfolding prune_below
prune_at_anchor = refl

prune_at_zero : (prune_below 0 chain).0 ≡ 0
unfolding prune_below
prune_at_zero = refl

prune_closed : (prune_below 18_446_744_073_709_551_615 chain).1.entries ≡ entry 10 ∷ []
unfolding prune_below
prune_closed = refl

read_at_snapshot_iff_example :
    (read_at_snapshot chain 7 ≡ some (entry 5)) ↔ IsNewest 7 chain.entries (some (entry 5))
read_at_snapshot_iff_example = read_at_snapshot_iff chain 7 (some (entry 5)) (omega arith)
