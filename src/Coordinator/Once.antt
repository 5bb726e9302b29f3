-- ===== src/Coordinator/Once.antt =====
-- Actions that append at most one batch to the chains: rules for each way to build one.
use xtable.Prelude.{◌≡◌, refl, ◌∙◌, ◌⊎◌, inl, inr, List, Bool-cases, string_key}
use xtable.Errors.{XtableError, Result, ok, err}
use xtable.Store.{LocalStore}
use xtable.Store.Chains.{ChainAppend, append_chain_entries_bulk}
use xtable.World.{
  World, Exec, Done, next_fails, advance, redb_try, commit_result, proceed, ◌>>=◌, on_error,
  recovered,
}
use xtable.World.Frame.{Keeps}
use xtable.World.Inversion.{Returns}
use xtable.Coordinator.Isolation.{SameChains}

-- the chains of `b` are those of `a` after one batch, appended in one redb transaction, with rows as `P` says
abbrev pub IsPublished : (List ChainAppend → Type 0) → LocalStore → LocalStore → Type 0
IsPublished P a b =
    (rows : List ChainAppend) × (x : LocalStore) × (y : LocalStore) × SameChains a x
    × (append_chain_entries_bulk rows x ≡ ok y)
    × SameChains y b
    × P rows

abbrev pub IsOnce : (List ChainAppend → Type 0) → LocalStore → LocalStore → Type 0
IsOnce P a b = SameChains a b ⊎ IsPublished P a b

-- an action that publishes at most once
pub record Once {A : Type 0} (P : List ChainAppend → Type 0) (m : Exec A) : Type 0 where
  pub at : (w : World) → IsOnce P w.store (m w).1.store

module _ {P : List ChainAppend → Type 0} where
  extend-before : (a b c : LocalStore) → SameChains a b → IsOnce P b c → IsOnce P a c
  extend-before a b c e (inl same) = inl (e ∙ same)
  extend-before a b c e (inr (rows, x, y, p, q, r, all)) = inr (rows, x, y, e ∙ p, q, r, all)

  extend-after : (a b c : LocalStore) → IsOnce P a b → SameChains b c → IsOnce P a c
  extend-after a b c (inl same) e = inl (same ∙ e)
  extend-after a b c (inr (rows, x, y, p, q, r, all)) e = inr (rows, x, y, p, q, r ∙ e, all)

module _ {A : Type 0} {P : List ChainAppend → Type 0} where
  -- in the world `w`
  pub IsOnce-on_error :
      (m : Exec A) (h : XtableError → Exec Done) (w : World)
      → IsOnce P w.store (m w).1.store
      → ((e : XtableError) → Keeps SameChains (h e))
      → IsOnce P w.store (on_error m h w).1.store
  unfolding on_error
  IsOnce-on_error m h w k l = go (m w) k
    where
      go :
          (p : Result A × World)
          → IsOnce P w.store p.1.store
          → IsOnce P w.store (recovered h p).1.store
      go (ok a, w') q = q
      go (err e, w') q = extend-after w.store w'.store (h e w').1.store q ((l e).at w')

module _ {A B : Type 0} {P : List ChainAppend → Type 0} where
  -- in the world `w`, when what follows may use what the run of `m` is
  pub IsOnce-after :
      (m : Exec A) (f : A → Exec B) (w : World)
      → Keeps SameChains m
      → ((a : A) (w' : World) → Returns m w a w' → IsOnce P w'.store (f a w').1.store)
      → IsOnce P w.store ((m >>= f) w).1.store
  unfolding ◌>>=◌
  IsOnce-after m f w k l = go (m w) refl (k.at w)
    where
      go :
          (p : Result A × World)
          → m w ≡ p
          → SameChains w.store p.1.store
          → IsOnce P w.store (proceed f p).1.store
      go (ok a, w') e h = extend-before w.store w'.store (f a w').1.store h (l a w' e)
      go (err e, w') _ h = inl h

  pub Once-after :
      {m : Exec A} {f : A → Exec B}
      → Keeps SameChains m
      → ((a : A) → Once P (f a))
      → Once P (m >>= f)
  Once-after {m} {f} k l = record { at = λ w. IsOnce-after m f w k (λ a w' _. (l a).at w') }

  -- the same, when what follows may use what is known of the value
  pub Once-after_value :
      {m : Exec A} {f : A → Exec B} (Q : A → Type 0)
      → Keeps SameChains m
      → ((w w' : World) (a : A) → Returns m w a w' → Q a)
      → ((a : A) → Q a → Once P (f a))
      → Once P (m >>= f)
  Once-after_value {m} {f} Q k known l = record {
    at = λ w. IsOnce-after m f w k (λ a w' e. (l a (known w w' a e)).at w');
  }

  pub Once-before :
      {m : Exec A} {f : A → Exec B}
      → Once P m
      → ((a : A) → Keeps SameChains (f a))
      → Once P (m >>= f)
  unfolding ◌>>=◌
  Once-before {m} {f} k l = record { at = λ w. go w (m w) (k.at w) }
    where
      go :
          (w : World) (p : Result A × World)
          → IsOnce P w.store p.1.store
          → IsOnce P w.store (proceed f p).1.store
      go w (ok a, w') h = extend-after w.store w'.store (f a w').1.store h ((l a).at w')
      go w (err e, w') h = h

pub Once-bulk :
    (P : List ChainAppend → Type 0) (rows : List ChainAppend)
    → P rows
    → Once P (redb_try (append_chain_entries_bulk rows))
unfolding redb_try
Once-bulk P rows all = record {
  at = λ w. elim (Bool-cases (next_fails w.schedule)) [
    | inl fails ↦ rw fails (inl refl)
    | inr works ↦ rw works (go w (append_chain_entries_bulk rows w.store) refl)
  ];
}
  where
    go :
        (w : World) (r : Result LocalStore)
        → append_chain_entries_bulk rows w.store ≡ r
        → IsOnce P w.store (commit_result r (advance w)).1.store
    go w (ok s) e = inr (rows, w.store, s, refl, e, refl, all)
    go w (err x) e = inl refl
