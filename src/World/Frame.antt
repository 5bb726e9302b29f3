-- ===== src/World/Frame.antt =====
-- What an action leaves alone: rules for a relation between the store before and the store after,
-- one for each way to build an action. They hold for every schedule.
use xtable.Prelude.{
  ◌≡◌, refl, String, Bool, true, false, Option, none, some, List, [], ◌∷◌, Bool-cases, inl, inr,
  if◌then◌else◌, lookup, string_key,
}
use xtable.Errors.{XtableError, Result, ok, err}
use xtable.Records.{Bytes}
use xtable.Store.{LocalStore}
use xtable.World.{
  World, Exec, Done, next_fails, advance, return, raise, update, redb, redb_read, redb_do, redb_try,
  commit_result, file_contents, read_file, write_file, remove_file, put_object, try_lock, proceed,
  ◌>>=◌, ignore, to_option, optional, on_error, recovered, each,
}

pub record Order (S : LocalStore → LocalStore → Type 0) : Type 0 where
  pub same : (a : LocalStore) → S a a
  pub after : (a b c : LocalStore) → S a b → S b c → S a c

-- the store that `m` leaves is related to the one it found, whatever fails
pub record Keeps {A : Type 0} (S : LocalStore → LocalStore → Type 0) (m : Exec A) : Type 0 where
  pub at : (w : World) → S w.store (m w).1.store

module _ {A : Type 0} {S : LocalStore → LocalStore → Type 0} (o : Order S) where
  pub Keeps-return : (a : A) → Keeps S (return a)
  unfolding return
  Keeps-return a = record { at = λ w. o.same w.store }

  pub Keeps-raise : (e : XtableError) → Keeps S (raise {A = A} e)
  unfolding raise
  Keeps-raise e = record { at = λ w. o.same w.store }

  pub Keeps-if : (b : Bool) {m n : Exec A} → Keeps S m → Keeps S n → Keeps S (if b then m else n)
  Keeps-if true k l = k
  Keeps-if false k l = l

  pub Keeps-update :
      (f : World → A × World) → ((w : World) → S w.store (f w).1.store) → Keeps S (update f)
  unfolding update
  Keeps-update f h = record { at = h }

  pub Keeps-redb :
      (f : LocalStore → A × LocalStore) → ((s : LocalStore) → S s (f s).1) → Keeps S (redb f)
  unfolding redb
  Keeps-redb f h = record {
    at = λ w. elim (Bool-cases (next_fails w.schedule)) [
      | inl fails ↦ rw fails (o.same w.store)
      | inr works ↦ rw works (h w.store)
    ];
  }

  pub Keeps-redb_read : (f : LocalStore → A) → Keeps S (redb_read f)
  unfolding redb_read
  Keeps-redb_read f = record {
    at = λ w. elim (Bool-cases (next_fails w.schedule)) [
      | inl fails ↦ rw fails (o.same w.store)
      | inr works ↦ rw works (o.same w.store)
    ];
  }

module _ {S : LocalStore → LocalStore → Type 0} (o : Order S) where
  pub Keeps-redb_do :
      (f : LocalStore → LocalStore) → ((s : LocalStore) → S s (f s)) → Keeps S (redb_do f)
  unfolding redb_do
  Keeps-redb_do f h = record {
    at = λ w. elim (Bool-cases (next_fails w.schedule)) [
      | inl fails ↦ rw fails (o.same w.store)
      | inr works ↦ rw works (h w.store)
    ];
  }

  pub Keeps-redb_try :
      (f : LocalStore → Result LocalStore)
      → ((s s' : LocalStore) → f s ≡ ok s' → S s s')
      → Keeps S (redb_try f)
  unfolding redb_try
  Keeps-redb_try f h = record { at = λ w. go w (next_fails w.schedule) }
    where
      kept :
          (w : World) (r : Result LocalStore)
          → f w.store ≡ r
          → S w.store (commit_result r (advance w)).1.store
      kept w (ok s') e = h w.store s' e
      kept w (err x) e = o.same w.store

      go :
          (w : World) (b : Bool)
          → S w.store
              (if b
                then (err XtableError.storage, advance w)
                else commit_result (f w.store) (advance w)).1.store
      go w true = o.same w.store
      go w false = kept w (f w.store) refl

  pub Keeps-read_file : (path : String) → Keeps S (read_file path)
  unfolding read_file
  Keeps-read_file path = record { at = λ w. go w (next_fails w.schedule) }
    where
      read : (w : World) (c : Option Bytes) → S w.store (file_contents c (advance w)).1.store
      read w none = o.same w.store
      read w (some body) = o.same w.store

      go :
          (w : World) (b : Bool)
          → S w.store
              (if b
                then (err XtableError.io, advance w)
                else file_contents (lookup path w.files) (advance w)).1.store
      go w true = o.same w.store
      go w false = read w (lookup path w.files)

  pub Keeps-write_file : (path : String) (body : Bytes) → Keeps S (write_file path body)
  unfolding write_file
  Keeps-write_file path body = record {
    at = λ w. elim (Bool-cases (next_fails w.schedule)) [
      | inl fails ↦ rw fails (o.same w.store)
      | inr works ↦ rw works (o.same w.store)
    ];
  }

  pub Keeps-remove_file : (path : String) → Keeps S (remove_file path)
  unfolding remove_file
  Keeps-remove_file path = record {
    at = λ w. elim (Bool-cases (next_fails w.schedule)) [
      | inl fails ↦ rw fails (o.same w.store)
      | inr works ↦ rw works (o.same w.store)
    ];
  }

  pub Keeps-put_object : (key : String) (body : Bytes) → Keeps S (put_object key body)
  unfolding put_object
  Keeps-put_object key body = record {
    at = λ w. elim (Bool-cases (next_fails w.schedule)) [
      | inl fails ↦ rw fails (o.same w.store)
      | inr works ↦ rw works (o.same w.store)
    ];
  }

  pub Keeps-try_lock : Keeps S try_lock
  unfolding try_lock
  Keeps-try_lock = record { at = λ w. o.same w.store }

module _ {A B : Type 0} {S : LocalStore → LocalStore → Type 0} (o : Order S) where
  pub Keeps-bind :
      {m : Exec A} {f : A → Exec B} → Keeps S m → ((a : A) → Keeps S (f a)) → Keeps S (m >>= f)
  unfolding ◌>>=◌
  Keeps-bind {m} {f} k l = record { at = λ w. go w (m w) (k.at w) }
    where
      go :
          (w : World) (p : Result A × World) → S w.store p.1.store → S w.store (proceed f p).1.store
      go w (ok a, w') h = o.after w.store w'.store (f a w').1.store h ((l a).at w')
      go w (err e, w') h = h

module _ {A : Type 0} {S : LocalStore → LocalStore → Type 0} (o : Order S) where
  pub Keeps-ignore : {m : Exec A} → Keeps S m → Keeps S (ignore m)
  unfolding ignore
  Keeps-ignore k = record { at = k.at }

  pub Keeps-to_option : {m : Exec A} → Keeps S m → Keeps S (to_option m)
  unfolding to_option
  Keeps-to_option {m} k = record { at = λ w. go w (m w) (k.at w) }
    where
      go : (w : World) (p : Result A × World) → S w.store p.1.store → S w.store (optional p).1.store
      go w (ok a, w') h = h
      go w (err e, w') h = h

  pub Keeps-on_error :
      {m : Exec A} {f : XtableError → Exec Done}
      → Keeps S m
      → ((e : XtableError) → Keeps S (f e))
      → Keeps S (on_error m f)
  unfolding on_error
  Keeps-on_error {m} {f} k l = record { at = λ w. go w (m w) (k.at w) }
    where
      go :
          (w : World) (p : Result A × World)
          → S w.store p.1.store
          → S w.store (recovered f p).1.store
      go w (ok a, w') h = h
      go w (err e, w') h = o.after w.store w'.store (f e w').1.store h ((l e).at w')

  pub Keeps-each :
      {f : A → Exec Done} → ((a : A) → Keeps S (f a)) → (xs : List A) → Keeps S (each f xs)
  unfolding each
  Keeps-each k [] = Keeps-return o tt
  Keeps-each k (x ∷ xs) = Keeps-bind o (k x) (λ u. Keeps-each k xs)
