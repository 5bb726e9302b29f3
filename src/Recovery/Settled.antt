-- ===== src/Recovery/Settled.antt =====
-- After a recovery that succeeds, no transaction that the log leaves open is open.
use xtable.Prelude.{
  ℕ, ◌+◌, ◌≡◌, refl, sym, ◌∙◌, ap, subst, String, Bool, true, false, not, Option, none, some, List,
  length, ltb, lookup-insert_self, ◌==◌, nat_key, string_key, if◌then◌else◌,
}
use xtable.Errors.{ok}
use xtable.Records.{TxnStatus, active, committing, committed, aborted, TxnStateRecord}
use xtable.Store.{LocalStore}
use xtable.Store.Txns.{get_txn_state, put_txn_state}
use xtable.World.{World, Exec, Done, return, ◌>>◌}
use xtable.World.Inversion.{
  Returns, bind-Returns, return-Returns, redb_read-Returns, redb_do-Returns,
}
use xtable.Coordinator.{find_txn, save}
use xtable.Coordinator.Ended.{is_final}
use xtable.Recovery.{
  RecoveryReport, Tally, save_aborted, abort_txn_no_uploads, tally, backfill, decide, settle_open,
  settle_row, settle_stored, recover_txn,
}

-- the store has a row of the transaction, and it is final
abbrev pub IsSettled : String → LocalStore → Type 0
IsSettled t s =
    (row : TxnStateRecord) × (get_txn_state t s ≡ some row) × (is_final row.status ≡ true)

saved-row :
    (t : String) (rec : TxnStateRecord) (w w' : World) (u : Done)
    → Returns (save t rec) w u w'
    → get_txn_state t w'.store ≡ some rec
unfolding put_txn_state get_txn_state
saved-row t rec w w' u h =
    sym (ap (get_txn_state t) (redb_do-Returns (put_txn_state t rec) w w' u h))
    ∙ lookup-insert_self t rec (w.store).txn_state

abort-IsSettled :
    (t : String) (now : ℕ) (w w' : World) (u : Done)
    → Returns (abort_txn_no_uploads t now) w u w'
    → IsSettled t w'.store
unfolding abort_txn_no_uploads
abort-IsSettled t now w w' u h =
    let (_, w₁, _, h₁) = bind-Returns _ _ w w' u h in
    let (_, w₂, _, h₂) = bind-Returns _ _ w₁ w' u h₁ in
    let (_, w₃, _, h₃) = bind-Returns _ _ w₂ w' u h₂ in
    let (_, w₄, _, h₄) = bind-Returns _ _ w₃ w' u h₃ in
    let (_, w₅, _, h₅) = bind-Returns _ _ w₄ w' u h₄ in
    let (row, w₆, _, h₆) = bind-Returns _ _ w₅ w' u h₅ in go row w₆ h₆
  where
    go :
        (o : Option TxnStateRecord) (mid : World)
        → Returns (save_aborted t now o) mid u w'
        → IsSettled t w'.store
    go none mid r = (_, saved-row t _ mid w' u r, refl)
    go (some rec) mid r = (_, saved-row t _ mid w' u r, refl)

backfill-IsSettled :
    (t : String) (rec : TxnStateRecord) (w w' : World) (u : Done)
    → Returns (backfill t rec) w u w'
    → IsSettled t w'.store
unfolding backfill
backfill-IsSettled t rec w w' u h =
    let (_, w₁, _, h₁) = bind-Returns _ _ w w' u h in
    let (_, w₂, _, h₂) = bind-Returns _ _ w₁ w' u h₁ in
    (record rec { status = committed }, saved-row t _ w₂ w' u h₂, refl)

-- an action followed by an answer
then_return :
    {A : Type 0} (m : Exec Done) (a b : A) (w w' : World)
    → Returns (m >> return a) w b w'
    → (u : Done) × Returns m w u w'
then_return m a b w w' h =
    let (u, mid, first, rest) = bind-Returns m (λ _. return a) w w' b h in
    (u, first ∙ ap (λ (x : World). (ok u, x)) (return-Returns a b mid w' rest).1)

decide-IsSettled :
    (t : String) (now : ℕ) (rec : TxnStateRecord) (report report' : RecoveryReport) (c : Tally)
    (w w' : World)
    → Returns (decide t now rec report c) w report' w'
    → IsSettled t w'.store
decide-IsSettled t now rec report report' c w w' h =
    go (not (length c.pending == 0)) (ltb 0 c.published) h
  where
    aborts :
        (a : RecoveryReport)
        → Returns (abort_txn_no_uploads t now >> return a) w report' w'
        → IsSettled t w'.store
    aborts a r =
        let (u, run) = then_return (abort_txn_no_uploads t now) a report' w w' r in
        abort-IsSettled t now w w' u run

    go :
        (pending published : Bool)
        → Returns
            (if pending
              then abort_txn_no_uploads t now
                >> return
                    (record report { partial_uploads_aborted = report.partial_uploads_aborted + 1 })
              else if published
              then backfill t rec
                >> return (record report { chain_won_wal_race = report.chain_won_wal_race + 1 })
              else abort_txn_no_uploads t now >> return report)
            w
            report'
            w'
        → IsSettled t w'.store
    go true published r = aborts _ r
    go false true r =
        let (u, run) = then_return (backfill t rec) _ report' w w' r in
        backfill-IsSettled t rec w w' u run
    go false false r = aborts _ r

-- the statuses of the log that the recovery acts on
abbrev pub is_open : TxnStatus → Bool
is_open active = true
is_open committing = true
is_open committed = false
is_open aborted = false

-- One turn of the recovery that succeeds leaves the row of its transaction final, if there is one and
-- the log leaves the transaction open.
pub recover_txn-IsSettled :
    (t : String) (now : ℕ) (uploaded : List String) (logged : TxnStatus)
    (report report' : RecoveryReport) (txn : TxnStateRecord) (w w' : World)
    → is_open logged ≡ true
    → get_txn_state t w.store ≡ some txn
    → Returns (recover_txn now t uploaded logged report) w report' w'
    → IsSettled t w'.store
unfolding recover_txn
recover_txn-IsSettled t now uploaded logged report report' txn w w' open_in_log there h =
    let (o, mid, first, rest) =
      bind-Returns (find_txn t) (settle_stored t now uploaded logged report) w w' report' h in
    let (value, same) = redb_read-Returns (get_txn_state t) w mid o first in
    row txn.status refl mid (sym (ap (get_txn_state t) same) ∙ there) (
      subst
        (λ (x : Option TxnStateRecord).
          Returns (settle_stored t now uploaded logged report x) mid report' w')
        (sym value ∙ there) rest)
  where
    acted :
        (st : TxnStatus) (mid : World)
        → is_open st ≡ true
        → Returns (settle_open t now uploaded txn report st) mid report' w'
        → IsSettled t w'.store
    acted active mid e r =
        let (u, run) = then_return (abort_txn_no_uploads t now) report report' mid w' r in
        abort-IsSettled t now mid w' u run
    acted committing mid e r =
        let (c, after, _, last) =
          bind-Returns (tally uploaded txn.alloc_versions _) (decide t now txn report) mid w'
            report' r in
        decide-IsSettled t now txn report report' c after w' last
    acted committed mid e r = absurd cc
    acted aborted mid e r = absurd cc

    kept :
        (a : RecoveryReport) (mid : World)
        → is_final txn.status ≡ true
        → get_txn_state t mid.store ≡ some txn
        → Returns (return a) mid report' w'
        → IsSettled t w'.store
    kept a mid e here r = (
      txn,
      ap (λ (x : World). get_txn_state t x.store) (sym (return-Returns a report' mid w' r).1)
          ∙ here,
      e,
    )

    row :
        (st : TxnStatus)
        → txn.status ≡ st
        → (mid : World) → get_txn_state t mid.store ≡ some txn
        → Returns (settle_row t now uploaded logged report txn txn.status) mid report' w'
        → IsSettled t w'.store
    row st e mid here r = by_status st mid e here (
        subst
          (λ (x : TxnStatus).
            Returns (settle_row t now uploaded logged report txn x) mid report' w')
          e r)
      where
        by_status :
            (st : TxnStatus) (mid : World)
            → txn.status ≡ st
            → get_txn_state t mid.store ≡ some txn
            → Returns (settle_row t now uploaded logged report txn st) mid report' w'
            → IsSettled t w'.store
        by_status active mid e here r = acted logged mid open_in_log r
        by_status committing mid e here r = acted logged mid open_in_log r
        by_status committed mid e here r = kept _ mid (ap is_final e) here r
        by_status aborted mid e here r = kept _ mid (ap is_final e) here r
