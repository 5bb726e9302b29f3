-- ===== src/Prelude/Words.antt =====
-- Unsigned 64-bit arithmetic. A release build wraps on `+`, and `saturating_add` does not.
use xtable.Prelude.{ℕ, ◌+◌, ◌%◌, ◌≤◌, ◌≡◌, arith, min}

abbrev pub u64_mod : ℕ
u64_mod = 18_446_744_073_709_551_616

-- `u64::MAX`
abbrev pub u64_max : ℕ
u64_max = 18_446_744_073_709_551_615

-- `a + b` on `u64`
unfoldable pub add_u64 : ℕ → ℕ → ℕ
add_u64 a b = (a + b) % u64_mod

-- `a.saturating_add(b)` on `u64`
unfoldable pub saturating_add : ℕ → ℕ → ℕ
saturating_add a b = min (a + b) u64_max

pub add_u64_lem : (a b : ℕ) → a + b ≤ u64_max → add_u64 a b ≡ a + b
unfolding add_u64
add_u64_lem a b h = omega arith
