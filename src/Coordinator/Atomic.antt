-- ===== src/Coordinator/Atomic.antt =====
-- What `commit` of xtable-tx/src/coordinator.rs does to the chains, for every schedule of failures.
use xtable.Prelude.{
  ℕ, ◌≡◌, refl, sym, ◌∙◌, ap, subst, inl, inr, String, List, Bool-cases, lookup, Bool, true, false,
  insert, arith, lookup-insert_self, string_key, ◌⊎◌, Option, some, none, Option-cases,
}
use xtable.Errors.{Result}
use xtable.Records.{
  Bytes, TxnStatus, active, committing, same_status, TxnStateRecord, WriteSetEntry,
}
use xtable.Chain.{VersionChain, new_chain}
use xtable.Chain.Order.{IsAscending}
use mathlib.Core.Option
use xtable.Store.{LocalStore}
use xtable.Store.Meta.{put_versions_bulk}
use xtable.Store.Txns.{get_txn_state, iter_write_set, compare_and_set_txn_status}
use xtable.Store.Chains.{ChainAppend, read_chain}
use xtable.Store.Chains.Append.{IsOrdered}
use xtable.Store.Chains.Bulk.{bulk-IsOrdered}
use xtable.World.{World, next_fails, redb_read, raise, ◌>>=◌}
use xtable.World.Frame.{Order, Keeps-return, Keeps-bind, Keeps-redb_read, Keeps-redb_do}
use xtable.World.Inversion.{Returns, bind-Returns, return-Returns, redb_read-Returns}
use xtable.Coordinator.Keys.{sort_keys}
use xtable.Coordinator.Commit.Enter.{Entry, done, owned, enter}
use xtable.Coordinator.Commit.Reconcile.{reconcile_failed_commit}
use xtable.Coordinator.Commit.{
  commit, run_entry, commit_owned, publish, prepare, batch, with_versions, materialize, check_cycle,
  allocate, found,
}
use xtable.Coordinator.Frame.{Footprint}
use xtable.Coordinator.Frame.Commit.{
  Keeps-enter, Keeps-enter_step, Keeps-materialize, Keeps-check_cycle, Keeps-allocate,
  Keeps-prepare, Keeps-found, Keeps-finish, Keeps-reconcile,
}
use xtable.Coordinator.Isolation.{SameChains, chains_order, chains_footprint}
use xtable.Coordinator.Once.{
  IsPublished, IsOnce, IsOnce-on_error, IsOnce-after, Once, Once-after, Once-after_value,
  Once-before, Once-bulk,
}
use xtable.Coordinator.WriteSet.{IsWriteSet, sorted_at, batch-IsOf, allocated-At, prepare-Returns}

-- the chains are as they were, or they are those after the one batch of the staged writes that the store `a`
-- has for the transaction
abbrev pub IsAtomic : String → ℕ → LocalStore → LocalStore → Type 0
IsAtomic t now a b =
    SameChains a b
    ⊎ ((txn : TxnStateRecord) × (get_txn_state t a ≡ some txn)
        × IsPublished (IsWriteSet t now txn (iter_write_set t a)) a b)

-- the row of the transaction, but for its status, and its staged writes
abbrev IsStaged : String → TxnStateRecord → List (String × WriteSetEntry) → LocalStore → Type 0
IsStaged t txn entries s =
    (st : TxnStatus) × (get_txn_state t s ≡ some (record txn { status = st }))
    × (iter_write_set t s ≡ entries)

module _ (t : String) (now : ℕ) (txn : TxnStateRecord)
    (entries : List (String × WriteSetEntry)) where
  abbrev P : List ChainAppend → Type 0
  P = IsWriteSet t now txn entries

  abbrev Stages : LocalStore → LocalStore → Type 0
  Stages a b = IsStaged t txn entries a → IsStaged t txn entries b

  f : Footprint t SameChains
  f = chains_footprint t

  Stages-order : Order Stages
  Stages-order = record { same = λ a k. k; after = λ a b c p q k. q (p k) }

  step-Stages : (s : LocalStore) → Stages s (compare_and_set_txn_status t active committing s).1
  unfolding compare_and_set_txn_status get_txn_state iter_write_set
  step-Stages s (st, there, staged) =
      let row : lookup t s.txn_state ≡ some (record txn { status = st }) = there in
      elim (Bool-cases (same_status st active)) [
        | inl is_active ↦
            let e : compare_and_set_txn_status t active committing s ≡ (
              true,
              record s { txn_state = insert t (record txn { status = committing }) s.txn_state },
            ) =
              ground (arith, row, is_active) in
            subst (λ (p : Bool × LocalStore). IsStaged t txn entries p.1) (sym e)
              (
                committing,
                lookup-insert_self t (record txn { status = committing }) s.txn_state,
                staged,
              )
        | inr other ↦
            let e : compare_and_set_txn_status t active committing s ≡ (false, s) =
              ground (arith, row, other) in
            subst (λ (p : Bool × LocalStore). IsStaged t txn entries p.1) (sym e)
              (st, there, staged)
      ]

  Once-publish :
      (st : TxnStatus) (v : ℕ) (bodies : List (String × Bytes))
      → Once P (
          publish t
            (with_versions (sorted_at v txn) (record txn { status = st }))
            v
            entries
            bodies
            now)
  unfolding publish
  Once-publish st v bodies =
      Once-before
        (Once-bulk P (batch t txn now entries (sorted_at v txn)) (
          v,
          refl,
          batch-IsOf t txn now v entries (sorted_at v txn)
              (allocated-At (sort_keys txn.write_keys) v),
        ))
        (λ _.
          Keeps-bind chains_order (Keeps-redb_do chains_order (put_versions_bulk _) (f.versions _))
            (λ _. Keeps-finish f _ v entries bodies _ now))

  -- from the read of the row and of the staged writes on
  Once-owned :
      (st : TxnStatus)
      → Once P (
          materialize entries >>= λ bodies. check_cycle t (record txn { status = st }) >>= λ _.
          allocate (record txn { status = st }) (sort_keys txn.write_keys) >>= λ v.
          prepare t (record txn { status = st }) (sort_keys txn.write_keys) v >>= λ ready.
          publish t ready v entries bodies now)
  Once-owned st = Once-after (Keeps-materialize f entries) (λ bodies.
      Once-after (Keeps-check_cycle f (record txn { status = st })) (λ _.
        Once-after (Keeps-allocate f (record txn { status = st }) (sort_keys txn.write_keys)) (λ v.
          Once-after_value
            (λ (ready : TxnStateRecord).
              ready ≡ with_versions (sorted_at v txn) (record txn { status = st }))
            (Keeps-prepare f (record txn { status = st }) (sort_keys txn.write_keys) v)
            (λ w w' ready r.
              prepare-Returns t (record txn { status = st }) (sort_keys txn.write_keys) v w w' ready
                r)
            (λ ready h.
              subst (λ x. Once P (publish t x v entries bodies now)) (sym h)
                (Once-publish st v bodies)))))

  found-value :
      (o : Option TxnStateRecord) (w w' : World) (x y : TxnStateRecord)
      → o ≡ some x
      → Returns (found o) w y w'
      → (y ≡ x) × (w ≡ w')
  found-value none w w' x y e r = absurd cc
  found-value (some z) w w' x y e r = let (a, b) = return-Returns z y w w' r in (cc (a, e), b)

  owned-IsOnce :
      (w : World) → IsStaged t txn entries w.store → IsOnce P w.store (commit_owned t now w).1.store
  unfolding commit_owned
  owned-IsOnce w (st, there, staged) =
      IsOnce-after _ _ w
        (Keeps-bind chains_order (Keeps-redb_read chains_order (get_txn_state t)) (Keeps-found f))
        (λ got w₁ r.
          let (o, mid, first, rest) = bind-Returns _ _ w w₁ got r in
          let (value, kept) = redb_read-Returns (get_txn_state t) w mid o first in
          let (row, same) =
            found-value o mid w₁ (record txn { status = st }) got (sym value ∙ there) rest in
          let store : w.store ≡ w₁.store = kept ∙ ap (λ (x : World). x.store) same in
          IsOnce-after _ _ w₁ (Keeps-redb_read chains_order (iter_write_set t)) (λ es w₂ q.
            let (writes, _) = redb_read-Returns (iter_write_set t) w₁ w₂ es q in
            let all : es ≡ entries = sym writes ∙ ap (iter_write_set t) (sym store) ∙ staged in
            rw (row, all) ((Once-owned st).at w₂)))

  commit-IsOnce :
      (w : World) → IsStaged t txn entries w.store → IsOnce P w.store (commit t now w).1.store
  unfolding commit
  commit-IsOnce w staged = IsOnce-after (enter t) (run_entry t now) w (Keeps-enter f) run
    where
      run :
          (e : Entry) (w' : World)
          → Returns (enter t) w e w'
          → IsOnce P w'.store (run_entry t now e w').1.store
      run (done outcome) w' r = inl ((Keeps-return chains_order outcome).at w')
      run owned w' r =
          IsOnce-on_error (commit_owned t now) (reconcile_failed_commit t now) w'
            (owned-IsOnce w' (
              subst (λ (p : Result Entry × World). IsStaged t txn entries p.1.store) r
                ((Keeps-enter_step t Stages-order step-Stages).at w staged)))
            (Keeps-reconcile f now)

-- without a row there is nothing to commit
commit-unknown :
    (t : String) (now : ℕ) (w : World)
    → get_txn_state t w.store ≡ none
    → SameChains w.store (commit t now w).1.store
unfolding commit enter redb_read ◌>>=◌ raise
commit-unknown t now w absent = elim (Bool-cases (next_fails w.schedule)) [
  | inl fails ↦ rw fails refl
  | inr works ↦ rw (works, absent) refl
]

pub commit-IsAtomic :
    (t : String) (now : ℕ) (w : World) → IsAtomic t now w.store (commit t now w).1.store
commit-IsAtomic t now w = elim (Option-cases (get_txn_state t w.store)) [
  | inl absent ↦ inl (commit-unknown t now w absent)
  | inr (txn, there) ↦
      elim (commit-IsOnce t now txn (iter_write_set t w.store) w (txn.status, there, refl)) [
        | inl same ↦ inl same
        | inr published ↦ inr (txn, there, published)
      ]
]

pub read_chain-same :
    (key : String) (a b : LocalStore) → SameChains a b → read_chain key a ≡ read_chain key b
unfolding read_chain
read_chain-same key a b e = ap (λ chains. Option.get_or (lookup key chains) (new_chain key)) e

-- Whatever fails and whenever, a commit leaves every chain strictly ascending if every chain was.
pub commit-IsOrdered :
    (t : String) (now : ℕ) (w : World) → IsOrdered w.store → IsOrdered (commit t now w).1.store
commit-IsOrdered t now w h = elim (commit-IsAtomic t now w) [
  | inl same ↦ move w.store (commit t now w).1.store same h
  | inr (txn, there, (rows, x, y, before, batch_ok, after, all)) ↦
      move y (commit t now w).1.store after
        (bulk-IsOrdered rows x y batch_ok (move w.store x before h))
]
  where
    move : (a b : LocalStore) → SameChains a b → IsOrdered a → IsOrdered b
    move a b e k key =
        subst (λ (c : VersionChain). IsAscending c.entries) (read_chain-same key a b e) (k key)
