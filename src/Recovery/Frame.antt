-- ===== src/Recovery/Frame.antt =====
-- What the recovery leaves alone.
use xtable.Prelude.{ℕ, String, not, Option, none, some, List, [], ◌∷◌, length, ltb, ◌==◌, nat_key}
use xtable.Records.{TxnStatus, active, committing, committed, aborted, TxnStateRecord}
use xtable.Store.{LocalStore}
use xtable.Store.Txns.{get_txn_state, iter_write_set}
use xtable.Store.Chains.{read_chain}
use xtable.World.Frame.{
  Order, Keeps, Keeps-return, Keeps-if, Keeps-bind, Keeps-redb_read, Keeps-to_option, Keeps-each,
}
use xtable.Coordinator.Frame.{
  Quiet, Footprint, Keeps-log, Keeps-unpin, Keeps-save, Keeps-drop_staged,
}
use xtable.Recovery.{
  RecoveryReport, Tally, count, contains_key, release_pin, joined_txn, save_aborted,
  abort_txn_no_uploads, tally, backfill, decide, settle_open, settle_row, settle_stored,
  recover_txn,
}

module _ {S : LocalStore → LocalStore → Type 0} (o : Order S) where
  pub Keeps-tally :
      (uploaded : List String) (alloc : List (String × ℕ)) (c : Tally)
      → Keeps S (tally uploaded alloc c)
  unfolding tally
  Keeps-tally uploaded [] c = Keeps-return o c
  Keeps-tally uploaded ((key, version) ∷ alloc) c =
      Keeps-if o (contains_key uploaded key)
        (Keeps-bind o (Keeps-redb_read o (read_chain key))
          (λ chain. Keeps-tally uploaded alloc (count key version chain c)))
        (Keeps-tally uploaded alloc c)

module _ {t : String} {S : LocalStore → LocalStore → Type 0} (q : Quiet t S) where
  pub Keeps-release_pin : (o : Option TxnStateRecord) → Keeps S (release_pin o)
  Keeps-release_pin none = Keeps-return q.order tt
  Keeps-release_pin (some txn) = Keeps-unpin q txn.snapshot_version

module _ {t : String} {S : LocalStore → LocalStore → Type 0} (f : Footprint t S) where
  pub Keeps-abort_txn : (now : ℕ) → Keeps S (abort_txn_no_uploads t now)
  unfolding abort_txn_no_uploads
  Keeps-abort_txn now = Keeps-bind f.order (Keeps-redb_read f.order (iter_write_set t)) (λ writes.
      Keeps-bind f.order (Keeps-each f.order (Keeps-drop_staged f.quiet) writes) (λ _.
        Keeps-bind f.order (Keeps-log f.quiet _) (λ _.
          Keeps-bind f.order (Keeps-to_option f.order (Keeps-redb_read f.order (get_txn_state t)))
            (λ state.
              Keeps-bind f.order (Keeps-release_pin f.quiet (joined_txn state))
                (λ _. Keeps-bind f.order (Keeps-redb_read f.order (get_txn_state t)) saved)))))
    where
      saved : (o : Option TxnStateRecord) → Keeps S (save_aborted t now o)
      saved none = Keeps-save f _
      saved (some r) = Keeps-save f _

  Keeps-backfill : (rec : TxnStateRecord) → Keeps S (backfill t rec)
  unfolding backfill
  Keeps-backfill rec =
      Keeps-bind f.order (Keeps-log f.quiet _)
        (λ _. Keeps-bind f.order (Keeps-log f.quiet _) (λ _. Keeps-save f _))

  Keeps-decide :
      (now : ℕ) (rec : TxnStateRecord) (report : RecoveryReport) (c : Tally)
      → Keeps S (decide t now rec report c)
  Keeps-decide now rec report c =
      Keeps-if f.order (not (length c.pending == 0))
        (Keeps-bind f.order (Keeps-abort_txn now) (λ _. Keeps-return f.order _))
        (Keeps-if f.order (ltb 0 c.published)
          (Keeps-bind f.order (Keeps-backfill rec) (λ _. Keeps-return f.order _))
          (Keeps-bind f.order (Keeps-abort_txn now) (λ _. Keeps-return f.order report)))

  Keeps-settle_open :
      (now : ℕ) (uploaded : List String) (rec : TxnStateRecord) (report : RecoveryReport)
      (logged : TxnStatus)
      → Keeps S (settle_open t now uploaded rec report logged)
  Keeps-settle_open now uploaded rec report active =
      Keeps-bind f.order (Keeps-abort_txn now) (λ _. Keeps-return f.order report)
  Keeps-settle_open now uploaded rec report committing =
      Keeps-bind f.order (Keeps-tally f.order uploaded rec.alloc_versions _)
        (Keeps-decide now rec report)
  Keeps-settle_open now uploaded rec report committed = Keeps-return f.order report
  Keeps-settle_open now uploaded rec report aborted = Keeps-return f.order report

  -- One turn of the recovery works within the rows of its transaction.
  pub Keeps-recover_txn :
      (now : ℕ) (uploaded : List String) (logged : TxnStatus) (report : RecoveryReport)
      → Keeps S (recover_txn now t uploaded logged report)
  unfolding recover_txn
  Keeps-recover_txn now uploaded logged report =
      Keeps-bind f.order (Keeps-redb_read f.order (get_txn_state t)) stored
    where
      row :
          (rec : TxnStateRecord) (st : TxnStatus)
          → Keeps S (settle_row t now uploaded logged report rec st)
      row rec committed = Keeps-return f.order _
      row rec aborted = Keeps-return f.order report
      row rec active = Keeps-settle_open now uploaded rec report logged
      row rec committing = Keeps-settle_open now uploaded rec report logged

      stored : (o : Option TxnStateRecord) → Keeps S (settle_stored t now uploaded logged report o)
      stored none = Keeps-return f.order report
      stored (some rec) = row rec rec.status
