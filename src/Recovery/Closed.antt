-- ===== src/Recovery/Closed.antt =====
-- xtable-tx/src/recovery.rs: what `recover` does with a transaction that the log says is settled.
use xtable.Prelude.{
  ℕ, ◌≡◌, refl, sym, ap, inl, inr, String, false, List, [], ◌∷◌, Map, Elem, lookup, ◌==◌, ==→eq,
  ==→ne, string_key, Bool-cases,
}
use mathlib.Core.Option
use xtable.Records.{TxnStatus}
use xtable.Store.Txns.{get_txn_state}
use xtable.World.{World, next_fails, advance, redb_read, ◌>>=◌}
use xtable.World.Frame.{Keeps, Keeps-return, Keeps-bind}
use xtable.Coordinator.Isolation.{SameRow, row_order, row_footprint}
use xtable.Recovery.{RecoveryReport, no_report, recover_txn, recover_all, recover}
use xtable.Recovery.Frame.{Keeps-recover_txn}
use xtable.Recovery.Settled.{is_open}
use xtable.Recovery.Sweep.{recover_txn-skips, scanned}

-- the turns of the rows, of which none says that the transaction is open
Keeps-closed :
    (t : String) (now : ℕ) (uploads : Map String (List String)) (rows : List (String × TxnStatus))
    (report : RecoveryReport)
    → ((logged : TxnStatus) → Elem (t, logged) rows → is_open logged ≡ false)
    → Keeps (SameRow t) (recover_all now uploads rows report)
unfolding recover_all
Keeps-closed t now uploads [] report closed = Keeps-return (row_order t) report
Keeps-closed t now uploads ((u, st) ∷ rows) report closed =
    Keeps-bind (row_order t) first
      (λ report'. Keeps-closed t now uploads rows report' (λ logged m. closed logged (inr m)))
  where
    uploaded : List String
    uploaded = Option.get_or (lookup u uploads) []

    first : Keeps (SameRow t) (recover_txn now u uploaded st report)
    first = elim (Bool-cases (u == t)) [
      | inr other ↦ Keeps-recover_txn (row_footprint u t (==→ne u t other)) now uploaded st report
      | inl same ↦ record {
        at = λ w. ap (get_txn_state t) (
            recover_txn-skips u now uploaded st report w
              (closed st (inl (ap (λ (x : String). (x, st)) (sym (==→eq u t same))))));
      }
    ]

-- A transaction that the log says is committed or aborted keeps its row through the whole recovery, whatever
-- fails: a row that a crash left Active or Committing after the last row of the log was written stays so.
pub recover-keeps_closed :
    (t : String) (now : ℕ) (w : World)
    → ((logged : TxnStatus)
        → Elem (t, logged) (scanned w.store).last_status
        → is_open logged ≡ false)
    → get_txn_state t w.store ≡ get_txn_state t (recover now w).1.store
unfolding recover redb_read ◌>>=◌
recover-keeps_closed t now w closed = elim (Bool-cases (next_fails w.schedule)) [
  | inl fails ↦ rw fails refl
  | inr works ↦ rw works (
      (Keeps-closed t now (scanned w.store).last_uploaded (scanned w.store).last_status no_report
          closed).at
        (advance w))
]
