-- ===== src/World/Inversion.antt =====
-- A run that returned a value, taken apart.
use xtable.Prelude.{◌≡◌, refl, ap, ◌∙◌, ◌⊎◌, Bool, true, false, inl, inr, if◌then◌else◌}
use xtable.Errors.{XtableError, Result, ok, err}
use xtable.Store.{LocalStore}
use xtable.World.{
  World, Exec, Done, next_fails, advance, return, raise, update, redb, redb_read, redb_do, redb_try,
  commit_result, proceed, ◌>>=◌, on_error, recovered,
}

module _ {A : Type 0} where
  -- the run of `m` from `w` returns `a` and leaves `w'`
  abbrev pub Returns : Exec A → World → A → World → Type 0
  Returns m w a w' = m w ≡ (ok a, w')

module _ {A B : Type 0} where
  pub bind-Returns :
      (m : Exec A) (f : A → Exec B) (w w' : World) (b : B)
      → Returns (m >>= f) w b w'
      → (a : A) × (mid : World) × Returns m w a mid × Returns (f a) mid b w'
  unfolding ◌>>=◌
  bind-Returns m f w w' b h = go (m w) refl h
    where
      go :
          (p : Result A × World)
          → m w ≡ p
          → proceed f p ≡ (ok b, w')
          → (a : A) × (mid : World) × Returns m w a mid × Returns (f a) mid b w'
      go (ok a, mid) e k = (a, mid, e, k)
      go (err x, mid) e k = cc

module _ {A : Type 0} where
  pub return-Returns : (a b : A) (w w' : World) → Returns (return a) w b w' → (a ≡ b) × (w ≡ w')
  unfolding return
  return-Returns a b w w' h = (cc, cc)

  pub raise-Returns : (e : XtableError) (b : A) (w w' : World) → Returns (raise e) w b w' → ⊥
  unfolding raise
  raise-Returns e b w w' h = cc

  pub on_error-Returns :
      (m : Exec A) (h : XtableError → Exec Done) (w w' : World) (a : A)
      → Returns (on_error m h) w a w'
      → Returns m w a w'
  unfolding on_error
  on_error-Returns m h w w' a r = go (m w) refl r
    where
      go : (p : Result A × World) → m w ≡ p → recovered h p ≡ (ok a, w') → Returns m w a w'
      go (ok x, mid) e k = cc
      go (err x, mid) e k = cc

module _ {A : Type 0} where
  if_failed :
      (b : Bool) (bad good : Result A × World) (a : A) (w' : World)
      → (if b then bad else good) ≡ (ok a, w')
      → (bad ≡ (ok a, w')) ⊎ (good ≡ (ok a, w'))
  if_failed true bad good a w' h = inl h
  if_failed false bad good a w' h = inr h

  pub redb-Returns :
      (f : LocalStore → A × LocalStore) (w w' : World) (a : A)
      → Returns (redb f) w a w'
      → ((f w.store).0 ≡ a) × ((f w.store).1 ≡ w'.store)
  unfolding redb
  redb-Returns f w w' a h = elim (if_failed (next_fails w.schedule) _ _ a w' h) [
    | inl bad ↦ absurd cc
    | inr good ↦ (cc, ap (λ (p : Result A × World). (p.1).store) good)
  ]

  pub redb_read-Returns :
      (f : LocalStore → A) (w w' : World) (a : A)
      → Returns (redb_read f) w a w'
      → (f w.store ≡ a) × (w.store ≡ w'.store)
  unfolding redb_read
  redb_read-Returns f w w' a h = elim (if_failed (next_fails w.schedule) _ _ a w' h) [
    | inl bad ↦ absurd cc
    | inr good ↦ (cc, ap (λ (p : Result A × World). (p.1).store) good)
  ]

  pub update-Returns :
      (f : World → A × World) (w w' : World) (a : A)
      → Returns (update f) w a w'
      → ((f w).0 ≡ a) × ((f w).1 ≡ w')
  unfolding update
  update-Returns f w w' a h = (cc, cc)

pub redb_do-Returns :
    (f : LocalStore → LocalStore) (w w' : World) (u : Done)
    → Returns (redb_do f) w u w'
    → f w.store ≡ w'.store
unfolding redb_do
redb_do-Returns f w w' u h = elim (if_failed (next_fails w.schedule) _ _ u w' h) [
  | inl bad ↦ absurd cc
  | inr good ↦ ap (λ (p : Result Done × World). (p.1).store) good
]

pub redb_try-Returns :
    (f : LocalStore → Result LocalStore) (w w' : World) (u : Done)
    → Returns (redb_try f) w u w'
    → f w.store ≡ ok w'.store
unfolding redb_try
redb_try-Returns f w w' u h = elim (if_failed (next_fails w.schedule) _ _ u w' h) [
  | inl bad ↦ absurd cc
  | inr good ↦ go (f w.store) refl good
]
  where
    go :
        (r : Result LocalStore)
        → f w.store ≡ r
        → commit_result r (advance w) ≡ (ok u, w')
        → f w.store ≡ ok w'.store
    go (ok s) e k = e ∙ ap ok (ap (λ (p : Result Done × World). (p.1).store) k)
    go (err x) e k = cc
