-- ===== src/Query/Sorted.antt =====
-- The order of what a query finds.
use Prim.Native.Nat.{Ordering, compare}
use Prim.Native.Nat.compare
use Prim.Native.String.compare as str_compare
use Prim.Native.String.{then as in_turn, compare as str_compare}
use mathlib.Core.Option
use xtable.Prelude.{
  ℕ, zero, suc, String, ◌≡◌, refl, true, false, if◌then◌else◌, Option, List, [], ◌∷◌,
}
use xtable.Query.{Numbers, Record, Query, OrderBy, is_gt, reverse_order, record_order}

-- no record stands directly before one that it is greater than
abbrev pub IsSorted : {N : Type 0} → (Record N → Record N → Ordering) → List (Record N) → Type 0
IsSorted order [] = Unit
IsSorted order (r ∷ []) = Unit
IsSorted order (r ∷ x ∷ rs) = (is_gt (order r x) ≡ false) × IsSorted order (x ∷ rs)

-- what is greater one way is not greater the other way
abbrev pub IsOneWay : {A : Type 0} → (A → A → Ordering) → Type 0
IsOneWay order = (a b : _) → is_gt (order a b) ≡ true → is_gt (order b a) ≡ false

pub number-reverse : (m n : ℕ) → compare n m ≡ reverse_order (compare m n)
number-reverse zero zero = refl
number-reverse zero (suc n) = rw (compare.zero-suc n, compare.suc-zero n) refl
number-reverse (suc m) zero = rw (compare.zero-suc m, compare.suc-zero m) refl
number-reverse (suc m) (suc n) = rw (compare.suc-suc m n, compare.suc-suc n m) (number-reverse m n)

-- the partial order of the numbers is the reverse of itself with its arguments swapped
abbrev pub IsReversible : {N : Type 0} → Numbers N → Type 0
IsReversible {N} numbers =
    (x y : N) → numbers.cmp_f64 y x ≡ Option.map reverse_order (numbers.cmp_f64 x y)

module _ {N : Type 0} ⦃numbers : Numbers N⦄ where
  module _ (ob : OrderBy) (one_way : IsOneWay (record_order {N = N} ob)) where
    abbrev Starts : Record N → List (Record N) → Type 0
    Starts r [] = Unit
    Starts r (x ∷ xs) = is_gt (record_order ob r x) ≡ false

    abbrev IsInOrder : List (Record N) → Type 0
    IsInOrder rs = IsSorted (record_order ob) rs
