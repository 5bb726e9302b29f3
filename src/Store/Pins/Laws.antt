-- ===== src/Store/Pins/Laws.antt =====
-- The holders of a snapshot under registration and release.
use xtable.Prelude.{
  ℕ, ◌+◌, ◌-◌, ◌≤◌, ◌<◌, ◌≡◌, refl, some, lookup, insert, lookup-insert, lookup-insert_self,
  lookup-remove, nat_key, if◌then◌else◌, ◌==◌, ==→eq, ==_self, arith,
}
use xtable.Prelude.Words.{u64_max, add_u64, add_u64_lem}
use xtable.Store.Defs.{LocalStore}
use xtable.Store.Meta.{current_global_version}
use xtable.Store.Pins.{
  holders, register_snapshot, capture_and_register_snapshot, unregister_snapshot,
  min_active_snapshot,
}
use xtable.Store.Gc.Chains.{min_key-le}

pub holders-register :
    (t v : ℕ) (s : LocalStore)
    → holders t s < u64_max
    → holders v (register_snapshot t s) ≡ (if t == v then holders t s + 1 else holders v s)
unfolding register_snapshot
holders-register t v s h = ground (
  arith,
  lookup-insert t (add_u64 (holders t s) 1) s.active_snapshots v,
  add_u64_lem (holders t s) 1,
)

pub holders-unregister :
    (t v : ℕ) (s : LocalStore)
    → holders v (unregister_snapshot t s) ≡ (if t == v then holders t s - 1 else holders v s)
unfolding unregister_snapshot
holders-unregister t v s = ground (
  arith,
  lookup-insert t (holders t s - 1) s.active_snapshots v,
  lookup-remove t s.active_snapshots v,
)

-- Registering a snapshot and releasing it again leaves every snapshot with as many holders as it
-- had; the count must not be at the end of its range.
pub holders-unregister-register :
    (t v : ℕ) (s : LocalStore)
    → holders t s < u64_max
    → holders v (unregister_snapshot t (register_snapshot t s)) ≡ holders v s
holders-unregister-register t v s h = ground (
  arith,
  holders-unregister t v (register_snapshot t s),
  holders-register t v s h,
  holders-register t t s h,
  ==→eq t v,
  ==_self t,
)

-- a row of the registry has a positive count
abbrev pub IsCounted : LocalStore → Type 0
IsCounted s = (v n : ℕ) → lookup v s.active_snapshots ≡ some n → 0 < n

-- Releasing one of several holders of a snapshot does not unpin it: the row stays, so the
-- collector's threshold stays at or below the snapshot.
pub unregister_shared :
    (t : ℕ) (s : LocalStore)
    → 1 < holders t s
    → (n : ℕ) × (lookup t (unregister_snapshot t s).active_snapshots ≡ some n)
      × (n + 1 ≡ holders t s)
      × (min_active_snapshot (unregister_snapshot t s) ≤ t)
unfolding unregister_snapshot min_active_snapshot
unregister_shared t s h =
    let rows = insert t (holders t s - 1) s.active_snapshots in
    let found : lookup t rows ≡ some (holders t s - 1) =
      lookup-insert_self t (holders t s - 1) s.active_snapshots in
    let low = min_key-le t (holders t s - 1) rows found in
    (holders t s - 1, ground arith, omega arith, ground arith)

IsCounted-unregister : (t : ℕ) (s : LocalStore) → IsCounted s → IsCounted (unregister_snapshot t s)
unfolding unregister_snapshot
IsCounted-unregister t s c v n h = ground (
  arith,
  lookup-insert t (holders t s - 1) s.active_snapshots v,
  lookup-remove t s.active_snapshots v,
  c v n,
)

-- A captured snapshot is the current global version, it gains one holder, no other snapshot
-- changes its holders, and the collector's threshold is then at or below it.
pub capture_lem :
    (s : LocalStore) (v : ℕ)
    → holders (current_global_version s) s < u64_max
    → let (snapshot, s') = capture_and_register_snapshot s in
      (snapshot ≡ current_global_version s)
      × (holders v s' ≡ (if snapshot == v then holders v s + 1 else holders v s))
      × (min_active_snapshot s' ≤ snapshot)
unfolding capture_and_register_snapshot current_global_version min_active_snapshot
capture_lem s v h =
    let t = current_global_version s in
    let n = add_u64 (holders t s) 1 in
    (
      refl,
      ground
          (arith, lookup-insert t n s.active_snapshots v, add_u64_lem (holders t s) 1, ==→eq t v),
      min_key-le t n (insert t n s.active_snapshots) (lookup-insert_self t n s.active_snapshots),
    )
