-- ===== src/World/Objects.antt =====
-- Parts of the world that actions on the store leave alone, and what a request to the bucket that returns has
-- done.
use xtable.Prelude.{
  ◌≡◌, refl, ◌∙◌, ap, Bool, true, false, String, List, [], ◌∷◌, Option, none, some, lookup, insert,
  string_key, if◌then◌else◌, inl, inr, Bool-cases,
}
use xtable.Errors.{Result, ok, err}
use xtable.Records.{Bytes}
use xtable.Store.{LocalStore}
use xtable.World.{
  World, Exec, Done, next_fails, rest_of, advance, return, redb, redb_do, redb_read, put_object,
  get_object, object_body, proceed, ◌>>=◌, ignore, each,
}
use xtable.World.Inversion.{Returns}

-- a part of the world that is neither the store nor the schedule
abbrev pub IsApart : {X : Type 0} → (World → X) → Type 0
IsApart part =
    (w : World) (store : LocalStore) (schedule : List Bool)
    → part (record w { store = store; schedule = schedule }) ≡ part w

-- the part is the same after the action, whatever fails
pub record Stays {X A : Type 0} (part : World → X) (m : Exec A) : Type 0 where
  pub at : (w : World) → part (m w).1 ≡ part w

module _ {X A : Type 0} (part : World → X) (apart : IsApart part) where
  pub Stays-return : (a : A) → Stays part (return a)
  unfolding return
  Stays-return a = record { at = λ w. refl }

  pub Stays-redb : (f : LocalStore → A × LocalStore) → Stays part (redb f)
  unfolding redb
  Stays-redb f = record {
    at = λ w. elim (Bool-cases (next_fails w.schedule)) [
      | inl fails ↦ rw fails (apart w w.store (rest_of w.schedule))
      | inr works ↦ rw works (apart w (f w.store).1 (rest_of w.schedule))
    ];
  }

  pub Stays-redb_read : (f : LocalStore → A) → Stays part (redb_read f)
  unfolding redb_read
  Stays-redb_read f = record {
    at = λ w. elim (Bool-cases (next_fails w.schedule)) [
      | inl fails ↦ rw fails (apart w w.store (rest_of w.schedule))
      | inr works ↦ rw works (apart w w.store (rest_of w.schedule))
    ];
  }

module _ {X : Type 0} (part : World → X) (apart : IsApart part) where
  pub Stays-redb_do : (f : LocalStore → LocalStore) → Stays part (redb_do f)
  unfolding redb_do
  Stays-redb_do f = record {
    at = λ w. elim (Bool-cases (next_fails w.schedule)) [
      | inl fails ↦ rw fails (apart w w.store (rest_of w.schedule))
      | inr works ↦ rw works (apart w (f w.store) (rest_of w.schedule))
    ];
  }

module _ {X A : Type 0} {part : World → X} where
  pub Stays-ignore : {m : Exec A} → Stays part m → Stays part (ignore m)
  unfolding ignore
  Stays-ignore k = record { at = k.at }

  pub Stays-if :
      (b : Bool) {m n : Exec A} → Stays part m → Stays part n → Stays part (if b then m else n)
  Stays-if true k l = k
  Stays-if false k l = l

module _ {X A B : Type 0} {part : World → X} where
  pub Stays-bind :
      {m : Exec A} {f : A → Exec B}
      → Stays part m
      → ((a : A) → Stays part (f a))
      → Stays part (m >>= f)
  unfolding ◌>>=◌
  Stays-bind {m} {f} k l = record { at = λ w. go (m w) ∙ k.at w }
    where
      go : (p : Result A × World) → part (proceed f p).1 ≡ part p.1
      go (ok a, w) = (l a).at w
      go (err e, w) = refl

module _ {X A : Type 0} {part : World → X} (apart : IsApart part) where
  pub Stays-each :
      (f : A → Exec Done) (xs : List A) → ((x : A) → Stays part (f x)) → Stays part (each f xs)
  unfolding each
  Stays-each f [] h = Stays-return part apart tt
  Stays-each f (x ∷ xs) h = Stays-bind (h x) (λ _. Stays-each f xs h)

pub objects-IsApart : IsApart (λ (w : World). w.objects)
objects-IsApart w store schedule = refl

-- an upload that returns has stored the object, and the store of the service is as it was
pub put_object-Returns :
    (key : String) (body : Bytes) (w w' : World) (u : Done)
    → Returns (put_object key body) w u w'
    → (w.store ≡ w'.store) × (insert key body w.objects ≡ w'.objects)
unfolding put_object
put_object-Returns key body w w' u h = elim (Bool-cases (next_fails w.schedule)) [
  | inl fails ↦ absurd (cc (rw fails at h))
  | inr works ↦
      let good = rw works at h in
      (
        ap (λ (p : Result Done × World). p.1.store) good,
        ap (λ (p : Result Done × World). p.1.objects) good,
      )
]

-- a download that returns has found the object
pub get_object-Returns :
    (key : String) (w w' : World) (body : Bytes)
    → Returns (get_object key) w body w'
    → lookup key w.objects ≡ some body
unfolding get_object
get_object-Returns key w w' body h = elim (Bool-cases (next_fails w.schedule)) [
  | inl fails ↦ absurd (cc (rw fails at h))
  | inr works ↦ go (lookup key w.objects) (rw works at h)
]
  where
    go : (o : Option Bytes) → object_body o (advance w) ≡ (ok body, w') → o ≡ some body
    go none e = absurd cc
    go (some x) e = cc
