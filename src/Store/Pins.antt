-- ===== src/Store/Pins.antt =====
-- The registry of active snapshots: each snapshot version with the number of its holders.
pub mod Laws
use xtable.Prelude.{
  ℕ, ◌+◌, ◌-◌, List, [], ◌∷◌, Map, lookup, insert, remove, nat_key, string_key, if◌then◌else◌, leb,
  min,
}
use xtable.Prelude.Words.{u64_max, add_u64}
use mathlib.Core.Option
use xtable.Store.Defs.{LocalStore}
use xtable.Store.Meta.{counter}

-- the number of holders of a snapshot, 0 where the table has no row
abbrev pub holders : ℕ → LocalStore → ℕ
holders snapshot s = Option.get_or (lookup snapshot s.active_snapshots) 0

unfoldable pub register_snapshot : ℕ → LocalStore → LocalStore
register_snapshot snapshot s = record s {
  active_snapshots = insert snapshot (add_u64 (holders snapshot s) 1) s.active_snapshots;
}

unfoldable pub capture_and_register_snapshot : LocalStore → ℕ × LocalStore
capture_and_register_snapshot s =
    let snapshot = counter "global_version" s in
    (
      snapshot,
      record s {
        active_snapshots = insert snapshot (add_u64 (holders snapshot s) 1) s.active_snapshots;
      },
    )

unfoldable pub unregister_snapshot : ℕ → LocalStore → LocalStore
unregister_snapshot snapshot s =
    let cur = holders snapshot s in
    if leb cur 1
    then record s { active_snapshots = remove snapshot s.active_snapshots }
    else record s { active_snapshots = insert snapshot (cur - 1) s.active_snapshots }

-- the fold over the table's keys
abbrev pub min_key : Map ℕ ℕ → ℕ
min_key [] = u64_max
min_key ((v, _) ∷ rows) = min v (min_key rows)

unfoldable pub min_active_snapshot : LocalStore → ℕ
min_active_snapshot s = min_key s.active_snapshots

abbrev pub total : Map ℕ ℕ → ℕ
total [] = 0
total ((_, n) ∷ rows) = n + total rows

unfoldable pub count_active_snapshots : LocalStore → ℕ
count_active_snapshots s = total s.active_snapshots
