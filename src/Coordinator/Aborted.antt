-- ===== src/Coordinator/Aborted.antt =====
-- What an abort that succeeds has done.
use xtable.Prelude.{
  ◌≡◌, refl, sym, ◌∙◌, ap, String, Bool, true, false, Option, none, some, lookup-insert_self,
  string_key, arith,
}
use xtable.Records.{TxnStatus, active, committing, committed, aborted, TxnStateRecord}
use xtable.Store.{LocalStore}
use xtable.Store.Txns.{get_txn_state, compare_and_set_txn_status}
use xtable.World.{World, Done, redb}
use xtable.World.Inversion.{
  Returns, bind-Returns, return-Returns, raise-Returns, redb-Returns, redb_read-Returns,
}
use xtable.Coordinator.{find_txn}
use xtable.Coordinator.Abort.{abort, abort_in, abort_txn, if_taken, drop_and_log}
use xtable.Coordinator.Frame.{Keeps-drop_and_log}
use xtable.Coordinator.Isolation.{SameRow, row_quiet}
use xtable.Coordinator.Outcome.{Keeps-Returns}

-- the step to Aborted succeeds on an active row only
pub step-aborted :
    (t : String) (txn : TxnStateRecord) (s : LocalStore)
    → get_txn_state t s ≡ some txn
    → txn.status ≡ active
    → get_txn_state t (compare_and_set_txn_status t active aborted s).1
      ≡ some (record txn { status = aborted })
unfolding compare_and_set_txn_status get_txn_state
step-aborted t txn s there on =
    ground (arith, lookup-insert_self t (record txn { status = aborted }) s.txn_state)

drop-Returns :
    (t : String) (txn : TxnStateRecord) (w w' : World) (u : Done)
    → Returns (drop_and_log t txn) w u w'
    → get_txn_state t w.store ≡ get_txn_state t w'.store
drop-Returns t txn w w' u h =
    Keeps-Returns {S = SameRow t} (drop_and_log t txn) w w' u
      (Keeps-drop_and_log (row_quiet t t) txn) h

-- An abort that succeeds leaves the transaction aborted, whatever failed on the way; the transaction
-- was active, or aborted before.
pub abort-Returns :
    (t : String) (w w' : World) (u : Done)
    → Returns (abort t) w u w'
    → (row : TxnStateRecord) × (get_txn_state t w'.store ≡ some row) × (row.status ≡ aborted)
unfolding abort abort_txn
abort-Returns t w w' u h =
    let (o, mid, first, rest) = bind-Returns (find_txn t) (abort_txn t) w w' u h in
    let (there, same) = redb_read-Returns (get_txn_state t) w mid o first in
    go o mid (sym (ap (get_txn_state t) same) ∙ there) rest
  where
    taken :
        (txn : TxnStateRecord) (b : Bool) (mid : World)
        → get_txn_state t mid.store ≡ some (record txn { status = aborted })
        → Returns (if_taken t txn b) mid u w'
        → (row : TxnStateRecord) × (get_txn_state t w'.store ≡ some row) × (row.status ≡ aborted)
    taken txn true mid there r =
        (record txn { status = aborted }, sym (drop-Returns t txn mid w' u r) ∙ there, refl)
    taken txn false mid there r = absurd (raise-Returns _ u mid w' r)

    by_status :
        (txn : TxnStateRecord) (st : TxnStatus) (mid : World)
        → txn.status ≡ st
        → get_txn_state t mid.store ≡ some txn
        → Returns (abort_in t txn st) mid u w'
        → (row : TxnStateRecord) × (get_txn_state t w'.store ≡ some row) × (row.status ≡ aborted)
    by_status txn committed mid e there r = absurd (raise-Returns _ u mid w' r)
    by_status txn committing mid e there r = absurd (raise-Returns _ u mid w' r)
    by_status txn aborted mid e there r = (
      txn,
      ap (λ (x : World). get_txn_state t x.store) (sym (return-Returns tt u mid w' r).1) ∙ there,
      e,
    )
    by_status txn active mid e there r =
        let (b, after, second, last) =
          bind-Returns (redb (compare_and_set_txn_status t active aborted)) (if_taken t txn) mid w'
            u r in
        let (_, left) =
          redb-Returns (compare_and_set_txn_status t active aborted) mid after b second in
        taken txn b after (sym (ap (get_txn_state t) left) ∙ step-aborted t txn mid.store there e)
          last

    go :
        (o : Option TxnStateRecord) (mid : World)
        → get_txn_state t mid.store ≡ o
        → Returns (abort_txn t o) mid u w'
        → (row : TxnStateRecord) × (get_txn_state t w'.store ≡ some row) × (row.status ≡ aborted)
    go none mid there r = absurd (raise-Returns _ u mid w' r)
    go (some txn) mid there r = by_status txn txn.status mid refl there r
