-- ===== src/Prelude/Maps.antt =====
-- Finite maps as association lists in key order: a redb table, and a Rust map where the code does
-- not look at its iteration order. A lookup takes the first row of a key, so the laws need no
-- invariant on the list.
use Prim.Native.Nat.Ordering.{lt, eq, gt}
use mathlib.Core.Path.{◌≡◌, refl}
use mathlib.Core.Bool.{Bool, true}
use mathlib.Core.List.{List, [], ◌∷◌, map}
use mathlib.Core.Option.{Option, none, some}
use native.Mathlib.Omega.{arith}
use xtable.Prelude.Tests.{if◌then◌else◌}
use xtable.Prelude.Keys.{Key, ◌==◌, ==_self}

abbrev pub Map {ℓ κ} : Type ℓ → Type κ → Type (ℓ ⊔ κ)
Map K V = List (K × V)

module _ {ℓ κ} {K : Type ℓ} {V : Type κ} where
  abbrev pub keys : Map K V → List K
  keys = map (λ e. e.0)

abbrev pub map_at {κ} : {V : Type κ} → Bool → (V → V) → Option V → Option V
map_at true f (some v) = some (f v)
map_at _ f o = o

module _ {ℓ κ} {K : Type ℓ} {V : Type κ} ⦃k : Key K⦄ where
  unfoldable pub lookup : K → Map K V → Option V
  lookup q [] = none
  lookup q ((j, v) ∷ m) = if j == q then some v else lookup q m

  unfoldable pub insert : K → V → Map K V → Map K V
  insert q w [] = (q, w) ∷ []
  insert q w ((j, v) ∷ m) = elim (k.cmp q j) [
    | lt ↦ (q, w) ∷ (j, v) ∷ m
    | eq ↦ (q, w) ∷ m
    | gt ↦ (j, v) ∷ insert q w m
  ]

  unfoldable pub remove : K → Map K V → Map K V
  remove q [] = []
  remove q ((j, v) ∷ m) = let rest = remove q m in if j == q then rest else (j, v) ∷ rest

  -- `get_mut` followed by a write through the reference: every row of the key is rewritten
  unfoldable pub modify : K → (V → V) → Map K V → Map K V
  modify q f [] = []
  modify q f ((j, v) ∷ m) = (j, (if j == q then f v else v)) ∷ modify q f m

  pub lookup-insert :
      (q : K) (w : V) (m : Map K V) (p : K)
      → lookup p (insert q w m) ≡ (if q == p then some w else lookup p m)
  unfolding lookup insert
  lookup-insert q w [] p = refl
  lookup-insert q w ((j, v) ∷ m) p = ground (
    arith,
    lookup-insert q w m p,
    k.eq_of_cmp q j,
    k.cmp_refl q,
    k.eq_of_cmp q p,
    k.eq_of_cmp j p,
    k.cmp_refl p,
  )

  pub lookup-insert_self : (q : K) (w : V) (m : Map K V) → lookup q (insert q w m) ≡ some w
  lookup-insert_self q w m = simp (lookup-insert, ==_self)

  pub lookup-remove :
      (q : K) (m : Map K V) (p : K) → lookup p (remove q m) ≡ (if q == p then none else lookup p m)
  unfolding lookup remove
  lookup-remove q [] p = ground arith
  lookup-remove q ((j, v) ∷ m) p = ground (
    arith,
    lookup-remove q m p,
    k.eq_of_cmp j q,
    k.cmp_refl q,
    k.eq_of_cmp q p,
    k.eq_of_cmp j p,
    k.cmp_refl p,
  )

  pub lookup-modify :
      (q : K) (f : V → V) (m : Map K V) (p : K)
      → lookup p (modify q f m) ≡ map_at (q == p) f (lookup p m)
  unfolding lookup modify
  lookup-modify q f [] p = ground arith
  lookup-modify q f ((j, v) ∷ m) p = ground (
    arith,
    lookup-modify q f m p,
    k.eq_of_cmp j q,
    k.cmp_refl q,
    k.eq_of_cmp q p,
    k.eq_of_cmp j p,
    k.cmp_refl p,
  )

pub ruleset map_laws = (lookup-insert, lookup-remove, lookup-modify, ==_self)
