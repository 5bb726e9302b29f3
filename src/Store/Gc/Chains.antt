-- ===== src/Store/Gc/Chains.antt =====
-- The collection of the version chains: no registered snapshot loses a version that it reads.
use xtable.Prelude.{
  ℕ, ◌≤◌, ◌≡◌, refl, ◌∙◌, sym, ap, inl, inr, String, Option, none, some, [], ◌∷◌, Map, lookup, ◌==◌,
  nat_key, string_key, ==→eq, arith, Bool-cases,
}
use mathlib.Core.Option
use xtable.Prelude.Words.{u64_max}
use xtable.Chain.{VersionChain, new_chain, prune_below}
use xtable.Chain
use xtable.Chain.Prune.{Fits, read-prune, prune_below_keeps}
use xtable.Store.Defs.{LocalStore}
use xtable.Store.Chains
use xtable.Store.Chains.{read_chain}
use xtable.Store.Chains.Append.{IsOrdered}
use xtable.Store.Pins.{min_key}
use xtable.Store.Gc.{prune_all, threshold, gc_chains_inner}

abbrev pruned : ℕ → VersionChain → VersionChain
pruned m c = (prune_below m c).1

lookup-prune_all :
    (m : ℕ) (key : String) (rows : Map String VersionChain)
    → lookup key (prune_all m rows) ≡ Option.map (pruned m) (lookup key rows)
unfolding lookup prune_all
lookup-prune_all m key [] = refl
lookup-prune_all m key ((k, c) ∷ rows) = elim (Bool-cases (k == key)) [
  | inl same ↦ rw same refl
  | inr other ↦ rw other (lookup-prune_all m key rows)
]

pruned-new : (m : ℕ) (key : String) → pruned m (new_chain key) ≡ new_chain key
unfolding prune_below
pruned-new m key = refl

-- every chain is pruned at the threshold, and nothing else happens to it
pub read_chain-gc :
    (requested : Option ℕ) (s : LocalStore) (key : String)
    → read_chain key (gc_chains_inner requested s).1
      ≡ (prune_below (threshold requested s) (read_chain key s)).1
unfolding read_chain gc_chains_inner
read_chain-gc requested s key =
    ap (λ o. Option.get_or o (new_chain key)) (lookup-prune_all m key s.version_chains)
    ∙ there (lookup key s.version_chains)
  where
    m : ℕ
    m = threshold requested s

    there :
        (o : Option VersionChain)
        → Option.get_or (Option.map (pruned m) o) (new_chain key)
          ≡ pruned m (Option.get_or o (new_chain key))
    there none = sym (pruned-new m key)
    there (some c) = refl

pub min_key-le : (v n : ℕ) (rows : Map ℕ ℕ) → lookup v rows ≡ some n → min_key rows ≤ v
unfolding lookup
min_key-le v n [] h = cc
min_key-le v n ((w, k) ∷ rows) h = elim (Bool-cases (w == v)) [
  | inl same ↦ let e : w ≡ v = ==→eq w v same in omega arith
  | inr other ↦ let le = min_key-le v n rows (rw other at h) in omega arith
]

pub threshold-le :
    (requested : Option ℕ) (s : LocalStore) → threshold requested s ≤ min_key s.active_snapshots
threshold-le none s = omega arith
threshold-le (some r) s = omega arith

-- Garbage collection, at whatever threshold a caller asks for, changes no read at a snapshot that
-- is registered (invariant I8 of the source, with the threshold taken from the registry in the
-- same transaction). Versions and snapshots are `u64` values.
pub read-gc_registered :
    (requested : Option ℕ) (s : LocalStore) (key : String) (snapshot n : ℕ)
    → lookup snapshot s.active_snapshots ≡ some n
    → snapshot ≤ u64_max
    → Fits (read_chain key s).entries
    → Chains.read_at_snapshot key snapshot (gc_chains_inner requested s).1
      ≡ Chains.read_at_snapshot key snapshot s
unfolding Chains.read_at_snapshot
read-gc_registered requested s key snapshot n pinned max fits =
    let m = threshold requested s in
    let low : m ≤ snapshot =
      omega (arith, threshold-le requested s, min_key-le snapshot n s.active_snapshots pinned) in
    ap (λ c. Chain.read_at_snapshot c snapshot) (read_chain-gc requested s key)
    ∙ read-prune (read_chain key s) m snapshot low max fits

-- The collection keeps every chain strictly ascending, keeps the newest version of every key, and
-- so leaves a chain that has entries at least one.
pub gc_keeps :
    (requested : Option ℕ) (s : LocalStore) (key : String)
    → IsOrdered s
    → IsOrdered (gc_chains_inner requested s).1
      × (Chain.latest_commit_version (read_chain key (gc_chains_inner requested s).1)
          ≡ Chain.latest_commit_version (read_chain key s))
gc_keeps requested s key o =
    let m = threshold requested s in
    (
      (λ j. rw (read_chain-gc requested s j) (prune_below_keeps (read_chain j s) m (o j)).0),
      rw (read_chain-gc requested s key) (prune_below_keeps (read_chain key s) m (o key)).1,
    )
