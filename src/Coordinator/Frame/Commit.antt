-- ===== src/Coordinator/Frame/Commit.antt =====
-- The parts of `commit` other than its append to the chains.
use xtable.Prelude.{ℕ, String, Bool, true, false, not, ◌&&◌, Option, none, some, List, [], ◌∷◌, ltb}
use xtable.Errors.{XtableError}
use xtable.Records.{
  Bytes, TxnStatus, active, committing, committed, aborted, same_status, TxnStateRecord,
  WriteSetEntry, BlobRecord,
}
use xtable.Store.{LocalStore}
use xtable.Store.Meta.{next_global_version}
use xtable.Store.Txns.{
  compare_and_set_txn_status, get_txn_state, get_blob, delete_blob, delete_write_entry,
}
use xtable.Store.Chains.{read_chain, is_empty, ChainAppend}
use xtable.Chain.{latest_commit_version}
use xtable.World.Frame.{
  Order, Keeps, Keeps-return, Keeps-raise, Keeps-if, Keeps-update, Keeps-redb, Keeps-redb_read,
  Keeps-redb_do, Keeps-read_file, Keeps-try_lock, Keeps-bind, Keeps-ignore, Keeps-to_option,
  Keeps-each,
}
use xtable.Coordinator.Begin.{blob_path}
use xtable.Coordinator.Abort.{joined}
use xtable.Coordinator.Commit.Enter.{enter, replay, take_over, after_step, lost_race, answer}
use xtable.Coordinator.Commit.Finish.{finish, publish_memtable, collect_staged, collect_blob}
use xtable.Coordinator.Commit.{
  body_from, materialize, refuse_if_dangerous, check_cycle, allocate, check_snapshot, prepare,
  found,
}
use xtable.Coordinator.Commit.Reconcile.{
  all_published, has_entry, was_published, settle, reconcile, reconcile_failed_commit,
}
use xtable.Coordinator.Frame.{
  Quiet, Footprint, Keeps-log, Keeps-save, Keeps-unpin, Keeps-forget, Keeps-remove_path,
}

module _ {t : String} {S : LocalStore → LocalStore → Type 0} (q : Quiet t S) where
  pub Keeps-publish_memtable :
      (version : ℕ) (bodies : List (String × Bytes)) (now : ℕ) (e : String × WriteSetEntry)
      → Keeps S (publish_memtable t version bodies now e)
  unfolding publish_memtable
  Keeps-publish_memtable version bodies now e =
      Keeps-bind q.order (Keeps-update q.order _ (λ w. q.order.same w.store)) (λ _.
        Keeps-bind q.order (Keeps-try_lock q.order)
          (λ _. Keeps-update q.order _ (λ w. q.order.same w.store)))

  Keeps-collect_blob : (key : String) (h : Option String) → Keeps S (collect_blob t key h)
  Keeps-collect_blob key none = Keeps-return q.order tt
  Keeps-collect_blob key (some handle) =
      Keeps-bind q.order (Keeps-to_option q.order (Keeps-redb_read q.order (get_blob handle)))
        (λ found.
          Keeps-bind q.order
            (Keeps-ignore q.order (Keeps-redb_do q.order (delete_blob handle) (q.no_blob handle)))
            (λ _. Keeps-bind q.order (Keeps-remove_path q (joined found)) (λ _.
              Keeps-ignore q.order
                (Keeps-redb_do q.order (delete_write_entry t key) (q.no_entry key)))))

  pub Keeps-collect_staged : (e : String × WriteSetEntry) → Keeps S (collect_staged t e)
  unfolding collect_staged
  Keeps-collect_staged e = Keeps-collect_blob (e.1).backend_key (e.1).body_handle

module _ {S : LocalStore → LocalStore → Type 0} (t : String) (o : Order S)
    (step : (s : LocalStore) → S s (compare_and_set_txn_status t active committing s).1) where
  Keeps-answer : (txn : TxnStateRecord) (st : TxnStatus) → Keeps S (answer txn st)
  Keeps-answer txn active = Keeps-raise o _
  Keeps-answer txn committing = Keeps-raise o _
  Keeps-answer txn committed = Keeps-return o _
  Keeps-answer txn aborted = Keeps-raise o _

  Keeps-after_step : (b : Bool) → Keeps S (after_step t b)
  Keeps-after_step true = Keeps-return o _
  Keeps-after_step false = Keeps-bind o (Keeps-redb_read o (get_txn_state t)) lost
    where
      lost : (found : Option TxnStateRecord) → Keeps S (lost_race found)
      lost none = Keeps-raise o _
      lost (some txn) = Keeps-answer txn txn.status

  Keeps-take_over : (txn : TxnStateRecord) (st : TxnStatus) → Keeps S (take_over t txn st)
  Keeps-take_over txn active =
      Keeps-bind o (Keeps-redb o (compare_and_set_txn_status t active committing) step)
        Keeps-after_step
  Keeps-take_over txn committing = Keeps-answer txn committing
  Keeps-take_over txn committed = Keeps-answer txn committed
  Keeps-take_over txn aborted = Keeps-answer txn aborted

  pub Keeps-enter_step : Keeps S (enter t)
  unfolding enter
  Keeps-enter_step = Keeps-bind o (Keeps-redb_read o (get_txn_state t)) go
    where
      go : (found : Option TxnStateRecord) → Keeps S (replay t found)
      go none = Keeps-raise o _
      go (some txn) = Keeps-take_over txn txn.status

module _ {t : String} {S : LocalStore → LocalStore → Type 0} (f : Footprint t S) where
  pub Keeps-enter : Keeps S (enter t)
  Keeps-enter = Keeps-enter_step t f.order (f.step active committing)

  Keeps-blob_path : (o : Option BlobRecord) → Keeps S (blob_path o)
  Keeps-blob_path none = Keeps-raise f.order _
  Keeps-blob_path (some rec) = Keeps-return f.order rec.path

  Keeps-body_from : (b : Option Bytes) (h : Option String) → Keeps S (body_from b h)
  Keeps-body_from (some bytes) h = Keeps-return f.order bytes
  Keeps-body_from none none = Keeps-return f.order []
  Keeps-body_from none (some handle) =
      Keeps-bind f.order
        (Keeps-bind f.order (Keeps-redb_read f.order (get_blob handle)) Keeps-blob_path)
        (Keeps-read_file f.order)

  pub Keeps-materialize : (entries : List (String × WriteSetEntry)) → Keeps S (materialize entries)
  unfolding materialize
  Keeps-materialize [] = Keeps-return f.order []
  Keeps-materialize ((key, e) ∷ entries) =
      Keeps-bind f.order (Keeps-body_from e.inline_body e.body_handle)
        (λ body. Keeps-bind f.order (Keeps-materialize entries) (λ bodies. Keeps-return f.order _))

  pub Keeps-check_cycle : (txn : TxnStateRecord) → Keeps S (check_cycle t txn)
  unfolding check_cycle
  Keeps-check_cycle txn = Keeps-bind f.order (Keeps-update f.order _ (λ w. f.order.same w.store)) go
    where
      go : (o : Option String) → Keeps S (refuse_if_dangerous t txn o)
      go none = Keeps-return f.order tt
      go (some peer) = Keeps-bind f.order (Keeps-log f.quiet _) (λ _.
          Keeps-bind f.order (Keeps-save f _) (λ _. Keeps-bind f.order (Keeps-forget f.quiet) (λ _.
            Keeps-bind f.order (Keeps-unpin f.quiet txn.snapshot_version)
              (λ _. Keeps-raise f.order _))))

  pub Keeps-allocate : (txn : TxnStateRecord) (ks : List String) → Keeps S (allocate txn ks)
  Keeps-allocate txn [] = Keeps-return f.order txn.snapshot_version
  Keeps-allocate txn (k ∷ ks) = Keeps-redb f.order next_global_version f.version

  pub Keeps-check_snapshot :
      (txn : TxnStateRecord) (key : String) → Keeps S (check_snapshot t txn key)
  unfolding check_snapshot
  Keeps-check_snapshot txn key =
      Keeps-bind f.order (Keeps-redb_read f.order (read_chain key)) (λ chain.
        Keeps-if f.order
          (not (is_empty chain) && ltb txn.snapshot_version (latest_commit_version chain))
          (Keeps-bind f.order (Keeps-log f.quiet _) (λ _. Keeps-bind f.order (Keeps-save f _) (λ _.
            Keeps-bind f.order (Keeps-unpin f.quiet txn.snapshot_version)
              (λ _. Keeps-raise f.order _))))
          (Keeps-return f.order tt))

  pub Keeps-prepare :
      (txn : TxnStateRecord) (ks : List String) (version : ℕ) → Keeps S (prepare t txn ks version)
  unfolding prepare
  Keeps-prepare txn ks version =
      Keeps-bind f.order (Keeps-each f.order (Keeps-check_snapshot txn) ks) (λ _.
        Keeps-bind f.order (Keeps-log f.quiet _)
          (λ _. Keeps-bind f.order (Keeps-save f _) (λ _. Keeps-return f.order _)))

  pub Keeps-found : (o : Option TxnStateRecord) → Keeps S (found o)
  Keeps-found none = Keeps-raise f.order _
  Keeps-found (some txn) = Keeps-return f.order txn

  pub Keeps-finish :
      (txn : TxnStateRecord) (version : ℕ) (entries : List (String × WriteSetEntry))
      (bodies : List (String × Bytes)) (rows : List ChainAppend) (now : ℕ)
      → Keeps S (finish t txn version entries bodies rows now)
  unfolding finish
  Keeps-finish txn version entries bodies rows now = Keeps-bind f.order (Keeps-log f.quiet _) (λ _.
      Keeps-bind f.order (Keeps-log f.quiet _) (λ _. Keeps-bind f.order (Keeps-save f _) (λ _.
        Keeps-bind f.order
          (Keeps-each f.order (Keeps-publish_memtable f.quiet version bodies now) entries)
          (λ _. Keeps-bind f.order (Keeps-update f.order _ (λ w. f.order.same w.store)) (λ _.
            Keeps-bind f.order (Keeps-update f.order _ (λ w. f.order.same w.store)) (λ _.
              Keeps-bind f.order (Keeps-unpin f.quiet txn.snapshot_version) (λ _.
                Keeps-bind f.order (Keeps-each f.order (Keeps-collect_staged f.quiet) entries)
                  (λ _. Keeps-return f.order _))))))))

  Keeps-all_published : (alloc : List (String × ℕ)) → Keeps S (all_published t alloc)
  unfolding all_published
  Keeps-all_published [] = Keeps-return f.order true
  Keeps-all_published ((key, version) ∷ alloc) =
      Keeps-bind f.order (Keeps-to_option f.order (Keeps-redb_read f.order (read_chain key)))
        (λ chain.
          Keeps-if f.order (has_entry t version chain) (Keeps-all_published alloc)
            (Keeps-return f.order false))

  Keeps-settle :
      (txn : TxnStateRecord) (cause : XtableError) (now : ℕ) (b : Bool)
      → Keeps S (settle t txn cause now b)
  Keeps-settle txn cause now true = Keeps-bind f.order (Keeps-ignore f.order (Keeps-save f _)) (λ _.
      Keeps-bind f.order (Keeps-update f.order _ (λ w. f.order.same w.store))
        (λ _. Keeps-unpin f.quiet txn.snapshot_version))
  Keeps-settle txn cause now false =
      Keeps-bind f.order (Keeps-ignore f.order (Keeps-log f.quiet _)) (λ _.
        Keeps-bind f.order (Keeps-ignore f.order (Keeps-save f _)) (λ _.
          Keeps-bind f.order (Keeps-forget f.quiet)
            (λ _. Keeps-unpin f.quiet txn.snapshot_version)))

  pub Keeps-reconcile :
      (now : ℕ) (cause : XtableError) → Keeps S (reconcile_failed_commit t now cause)
  unfolding reconcile_failed_commit
  Keeps-reconcile now cause =
      Keeps-bind f.order (Keeps-to_option f.order (Keeps-redb_read f.order (get_txn_state t))) go
    where
      published : (alloc : List (String × ℕ)) → Keeps S (was_published t alloc)
      published [] = Keeps-return f.order false
      published (a ∷ alloc) = Keeps-all_published (a ∷ alloc)

      go : (o : Option (Option TxnStateRecord)) → Keeps S (reconcile t cause now o)
      go none = Keeps-return f.order tt
      go (some none) = Keeps-return f.order tt
      go (some (some txn)) =
          Keeps-if f.order (same_status txn.status committing)
            (Keeps-bind f.order (published txn.alloc_versions) (Keeps-settle txn cause now))
            (Keeps-return f.order tt)
