-- ===== src/Sweep/Aborts.antt =====
-- A sweep that succeeds has aborted every stale transaction.
use xtable.Prelude.{
  ℕ, ◌-◌, ◌*◌, ◌≡◌, refl, sym, ◌∙◌, ap, subst, inl, inr, String, Bool, true, false, some, List, [],
  ◌∷◌, Map, Elem, lookup, ◌==◌, ==→eq, ==→ne, string_key, Bool-cases, if◌then◌else◌, arith,
}
use xtable.Records.{TxnStatus, active, committing, committed, aborted, TxnStateRecord, same_status}
use xtable.Store.{LocalStore}
use xtable.Store.Txns.{get_txn_state, compare_and_set_txn_status}
use xtable.World.{World, redb, redb_read, return, ◌>>=◌}
use xtable.World.Inversion.{Returns, bind-Returns, return-Returns, redb-Returns, redb_read-Returns}
use xtable.Coordinator.{find_txn}
use xtable.Coordinator.Aborted.{step-aborted}
use xtable.Coordinator.Isolation.{SameRow, row_quiet, row_footprint}
use xtable.Coordinator.Outcome.{Keeps-Returns}
use xtable.Sweep.{
  is_stale_txn, stale_ids, if_claimed, claim, abort_txn_local, count_if, abort_all,
  sweep_stale_txns,
}
use xtable.Sweep.Stale.{Keeps-if_claimed, Keeps-abort_txn_local}

-- the store has a row of the transaction, and it is aborted
abbrev pub IsAborted : String → LocalStore → Type 0
IsAborted t s = (row : TxnStateRecord) × (get_txn_state t s ≡ some row) × (row.status ≡ aborted)

stale-active :
    (cutoff : ℕ) (txn : TxnStateRecord) → is_stale_txn cutoff txn ≡ true → txn.status ≡ active
stale-active cutoff txn h = by_status txn.status (ground arith)
  where
    by_status : (st : TxnStatus) → same_status st active ≡ true → st ≡ active
    by_status active e = refl
    by_status committing e = absurd cc
    by_status committed e = absurd cc
    by_status aborted e = absurd cc

Elem-stale_ids :
    (t : String) (cutoff : ℕ) (txn : TxnStateRecord) (rows : Map String TxnStateRecord)
    → lookup t rows ≡ some txn
    → is_stale_txn cutoff txn ≡ true
    → Elem t (stale_ids cutoff rows)
unfolding stale_ids lookup
Elem-stale_ids t cutoff txn [] there h = absurd cc
Elem-stale_ids t cutoff txn ((u, rec) ∷ rows) there h =
    let rest : lookup t rows ≡ some txn → Elem t (stale_ids cutoff rows) =
      λ e. Elem-stale_ids t cutoff txn rows e h in
    elim (Bool-cases (u == t)) [
      | inl same ↦ rw (found same) (inl (sym (==→eq u t same)))
      | inr other ↦ elim (Bool-cases (is_stale_txn cutoff rec)) [
        | inl stale ↦ rw stale (inr (rest (later other)))
        | inr fresh ↦ rw fresh (rest (later other))
      ]
    ]
  where
    found : (u == t) ≡ true → is_stale_txn cutoff rec ≡ true
    found same = ap (is_stale_txn cutoff) (some-inj (ground arith)) ∙ h
      where
        some-inj : some rec ≡ some txn → rec ≡ txn
        some-inj e = cc

    later : (u == t) ≡ false → lookup t rows ≡ some txn
    later other = ground arith

module _ (t : String) where
  claim-IsAborted :
      (txn : TxnStateRecord) (w w' : World) (b : Bool)
      → get_txn_state t w.store ≡ some txn
      → txn.status ≡ active
      → Returns (claim t (some txn)) w b w'
      → IsAborted t w'.store
  claim-IsAborted txn w w' b there e r =
      let step = compare_and_set_txn_status t active aborted in
      let run : Returns (redb step >>= if_claimed t txn) w b w' =
        subst
          (λ st.
            Returns (if same_status st active then redb step >>= if_claimed t txn else return false)
              w b w')
          e r in
      let (c, mid, first, rest) = bind-Returns (redb step) (if_claimed t txn) w w' b run in
      let (_, left) = redb-Returns step w mid c first in
      (
        record txn { status = aborted },
        sym (Keeps-Returns {S = SameRow t} _ mid w' b (Keeps-if_claimed (row_quiet t t) txn c) rest)
            ∙ sym (ap (get_txn_state t) left)
            ∙ step-aborted t txn w.store there e,
        refl,
      )

  claim-aborted :
      (txn : TxnStateRecord) (w w' : World) (b : Bool)
      → get_txn_state t w.store ≡ some txn
      → txn.status ≡ aborted
      → Returns (claim t (some txn)) w b w'
      → IsAborted t w'.store
  claim-aborted txn w w' b there e r =
      let step = compare_and_set_txn_status t active aborted in
      let run : Returns (return false) w b w' =
        subst
          (λ st.
            Returns (if same_status st active then redb step >>= if_claimed t txn else return false)
              w b w')
          e r in
      (
        txn,
        ap (λ (x : World). get_txn_state t x.store) (sym (return-Returns false b w w' run).1)
            ∙ there,
        e,
      )

  -- the abort reads the row, and claims it
  claimed :
      (txn : TxnStateRecord) (w w' : World) (b : Bool)
      → get_txn_state t w.store ≡ some txn
      → Returns (abort_txn_local t) w b w'
      → (mid : World) × (get_txn_state t mid.store ≡ some txn)
        × Returns (claim t (some txn)) mid b w'
  unfolding abort_txn_local
  claimed txn w w' b there r =
      let (o, mid, first, rest) = bind-Returns (find_txn t) (claim t) w w' b r in
      let (value, same) = redb_read-Returns (get_txn_state t) w mid o first in
      (
        mid,
        sym (ap (get_txn_state t) same) ∙ there,
        subst (λ x. Returns (claim t x) mid b w') (sym value ∙ there) rest,
      )

  turn-IsAborted :
      (u : String) (w w' : World) (b : Bool)
      → IsAborted t w.store
      → Returns (abort_txn_local u) w b w'
      → IsAborted t w'.store
  turn-IsAborted u w w' b (row, there, e) r = elim (Bool-cases (u == t)) [
    | inr other ↦ (
      row,
      sym (
            Keeps-Returns {S = SameRow t} _ w w' b
              (Keeps-abort_txn_local (row_footprint u t (==→ne u t other))) r)
          ∙ there,
      e,
    )
    | inl same ↦
        let (mid, here, rest) =
          claimed row w w' b there
            (subst (λ x. Returns (abort_txn_local x) w b w') (==→eq u t same) r) in
        claim-aborted row mid w' b here e rest
  ]

  all-keeps :
      (ts : List String) (n m : ℕ) (w w' : World)
      → IsAborted t w.store
      → Returns (abort_all ts n) w m w'
      → IsAborted t w'.store
  unfolding abort_all
  all-keeps [] n m w w' a r =
      subst (λ (x : World). IsAborted t x.store) (return-Returns n m w w' r).1 a
  all-keeps (u ∷ ts) n m w w' a r =
      let (b, mid, first, rest) = bind-Returns _ _ w w' m r in
      all-keeps ts (count_if b n) m mid w' (turn-IsAborted u w mid b a first) rest

  all-IsAborted :
      (ts : List String) (txn : TxnStateRecord) (n m : ℕ) (w w' : World)
      → Elem t ts
      → get_txn_state t w.store ≡ some txn
      → txn.status ≡ active
      → Returns (abort_all ts n) w m w'
      → IsAborted t w'.store
  unfolding abort_all
  all-IsAborted [] txn n m w w' i there e r = elim i [ ]
  all-IsAborted (u ∷ ts) txn n m w w' i there e r =
      let (b, mid, first, rest) = bind-Returns _ _ w w' m r in
      elim (Bool-cases (u == t)) [
        | inl same ↦
            let (read, here, last) =
              claimed txn w mid b there
                (subst (λ x. Returns (abort_txn_local x) w b mid) (==→eq u t same) first) in
            all-keeps ts (count_if b n) m mid w' (claim-IsAborted txn read mid b here e last) rest
        | inr other ↦
            all-IsAborted ts txn (count_if b n) m mid w' (later other i)
              (sym (
                  Keeps-Returns {S = SameRow t} _ w mid b
                    (Keeps-abort_txn_local (row_footprint u t (==→ne u t other))) first)
                ∙ there)
              e rest
      ]
    where
      later : (u == t) ≡ false → Elem t (u ∷ ts) → Elem t ts
      later other (inr l) = l
      later other (inl p) = absurd (==→ne u t other (sym p))

-- After a sweep that succeeds, whatever failed on the way, every transaction that was Active without a
-- recent heartbeat is aborted.
pub sweep-IsAborted :
    (t : String) (timeout_secs now n : ℕ) (txn : TxnStateRecord) (w w' : World)
    → get_txn_state t w.store ≡ some txn
    → is_stale_txn (now - timeout_secs * 1000) txn ≡ true
    → Returns (sweep_stale_txns timeout_secs now) w n w'
    → IsAborted t w'.store
unfolding sweep_stale_txns get_txn_state
sweep-IsAborted t timeout_secs now n txn w w' there stale r =
    let cutoff = now - timeout_secs * 1000 in
    let listed : LocalStore → List String = λ s. stale_ids cutoff s.txn_state in
    let (ts, mid, first, rest) = bind-Returns (redb_read listed) (λ ts. abort_all ts 0) w w' n r in
    let (value, same) = redb_read-Returns listed w mid ts first in
    all-IsAborted t ts txn 0 n mid w'
      (subst (λ x. Elem t x) value (Elem-stale_ids t cutoff txn w.store.txn_state there stale))
      (sym (ap (get_txn_state t) same) ∙ there) (stale-active cutoff txn stale) rest
