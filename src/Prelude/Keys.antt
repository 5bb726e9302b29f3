-- ===== src/Prelude/Keys.antt =====
-- Keys of the tables and maps: a three-way comparison that tells equal keys. Strings compare as
-- Rust's `str` does, by code points, and tuples lexicographically.
use Prim.Native.Nat.{ℕ, Ordering, compare}
use Prim.Native.Nat.Ordering.{eq}
use Prim.Native.String.{String, compare as str_compare}
use mathlib.Core.Path.{◌≡◌, refl}
use mathlib.Core.Logic.{◌≢◌}
use mathlib.Core.Bool.{Bool, true, false}
use native.Mathlib.Omega.{arith}
use text.Mathlib.TextEquality.{path_by_compare}
use text.Mathlib.TextPositions.{compare_refl}

pub record Key {ℓ} (K : Type ℓ) : Type ℓ where
  pub cmp : K → K → Ordering
  pub cmp_refl : (a : K) → cmp a a ≡ eq
  pub eq_of_cmp : (a b : K) → cmp a b ≡ eq → a ≡ b

abbrev pub is_eq : Ordering → Bool
is_eq eq = true
is_eq _ = false

infix 50 ◌==◌
abbrev pub ◌==◌ {ℓ} : {K : Type ℓ} ⦃k : Key K⦄ → K → K → Bool
◌==◌ ⦃k⦄ a b = is_eq (k.cmp a b)

module _ {ℓ} {K : Type ℓ} ⦃k : Key K⦄ where
  pub ==→eq : (a b : K) → (a == b) ≡ true → a ≡ b
  ==→eq a b h = ground (arith, k.eq_of_cmp a b)

  pub ==_self : (a : K) → (a == a) ≡ true
  ==_self a = rw (k.cmp_refl a) refl

  pub eq→== : (a b : K) → a ≡ b → (a == b) ≡ true
  eq→== a b h = rw h (==_self b)

  pub ne→== : (a b : K) → a ≢ b → (a == b) ≡ false
  ne→== a b h = ground (arith, ==→eq a b)

  pub ==→ne : (a b : K) → (a == b) ≡ false → a ≢ b
  ==→ne a b h e = ground (arith, eq→== a b)

  pub ==_comm : (a b : K) → (a == b) ≡ (b == a)
  ==_comm a b = ground (arith, ==→eq a b, ==→eq b a, eq→== a b, eq→== b a)

pub nat-eq_of_cmp : (a b : ℕ) → compare a b ≡ eq → a ≡ b
nat-eq_of_cmp a b h = ground arith

pub nat-cmp_refl : (a : ℕ) → compare a a ≡ eq
nat-cmp_refl a = ground arith

instance abbrev pub nat_key : Key ℕ
nat_key = record { cmp = compare; cmp_refl = nat-cmp_refl; eq_of_cmp = nat-eq_of_cmp }

instance abbrev pub string_key : Key String
string_key = record { cmp = str_compare; cmp_refl = compare_refl; eq_of_cmp = path_by_compare }

-- `Ordering::then`
abbrev pub then_with : Ordering → Ordering → Ordering
then_with eq second = second
then_with first _ = first

module _ {ℓ κ} {A : Type ℓ} {B : Type κ} ⦃a : Key A⦄ ⦃b : Key B⦄ where
  pub pair-cmp_refl : (x : A × B) → then_with (a.cmp x.0 x.0) (b.cmp x.1 x.1) ≡ eq
  pair-cmp_refl x = simp (a.cmp_refl, b.cmp_refl)

  pub pair-eq_of_cmp : (x y : A × B) → then_with (a.cmp x.0 y.0) (b.cmp x.1 y.1) ≡ eq → x ≡ y
  pair-eq_of_cmp x y h = ground (arith, a.eq_of_cmp x.0 y.0, b.eq_of_cmp x.1 y.1)

  instance abbrev pub pair_key : Key (A × B)
  pair_key = record {
    cmp = λ x y. then_with (a.cmp x.0 y.0) (b.cmp x.1 y.1);
    cmp_refl = pair-cmp_refl;
    eq_of_cmp = pair-eq_of_cmp;
  }

module _ {ℓ κ μ} {A : Type ℓ} {B : Type κ} {C : Type μ} ⦃a : Key A⦄ ⦃b : Key B⦄ ⦃c : Key C⦄ where
  abbrev pub triple_cmp : A × B × C → A × B × C → Ordering
  triple_cmp x y = then_with (a.cmp x.0 y.0) (then_with (b.cmp x.1 y.1) (c.cmp x.2 y.2))

  pub triple-cmp_refl : (x : A × B × C) → triple_cmp x x ≡ eq
  triple-cmp_refl x = simp (a.cmp_refl, b.cmp_refl, c.cmp_refl)

  pub triple-eq_of_cmp : (x y : A × B × C) → triple_cmp x y ≡ eq → x ≡ y
  triple-eq_of_cmp x y h =
      ground (arith, a.eq_of_cmp x.0 y.0, b.eq_of_cmp x.1 y.1, c.eq_of_cmp x.2 y.2)

  instance abbrev pub triple_key : Key (A × B × C)
  triple_key = record { cmp = triple_cmp; cmp_refl = triple-cmp_refl; eq_of_cmp = triple-eq_of_cmp }
