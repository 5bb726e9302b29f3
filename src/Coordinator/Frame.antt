-- ===== src/Coordinator/Frame.antt =====
-- What the methods of the coordinator leave alone, for any relation between stores that the tables'
-- operations on one transaction keep.
pub mod Commit
use xtable.Prelude.{
  ℕ, ◌≡◌, String, Bool, true, false, Option, none, some, List, [], ◌∷◌, length, ltb,
}
use xtable.Errors.{XtableError, Result}
use xtable.Records.{
  Bytes, TxnStatus, active, aborted, committed, same_status, TxnStateRecord, WriteSetEntry,
  BlobRecord, VersionRecord, WalRecord,
}
use xtable.Store.{LocalStore}
use xtable.Store.Meta.{append_wal, next_global_version, put_versions_bulk}
use xtable.Store.Txns.{
  put_txn_state, delete_txn_state, compare_and_set_txn_status, put_write_entry, delete_write_entry,
  put_blob, delete_blob, get_blob, iter_write_set, get_txn_state,
}
use xtable.Store.Pins.{capture_and_register_snapshot, unregister_snapshot}
use xtable.Errors
use xtable.World.{World, Exec, Done, return, raise, update}
use xtable.World.Frame.{
  Order, Keeps, Keeps-return, Keeps-raise, Keeps-if, Keeps-update, Keeps-redb, Keeps-redb_read,
  Keeps-redb_do, Keeps-read_file, Keeps-write_file, Keeps-remove_file, Keeps-bind, Keeps-ignore,
  Keeps-to_option, Keeps-on_error, Keeps-each,
}
use xtable.Locks.Manager.{SiLockManager, begin_txn}
use xtable.Coordinator.{require_active, if_active, heartbeat, log, save, unpin, forget, throw}
use xtable.Coordinator.Begin.{
  begin, track, tracked, unsave, unless, has_key, stage, stage_on, read, read_on, spill,
  write_spill,
}
use xtable.Coordinator.Abort.{
  abort, abort_txn, if_taken, drop_and_log, drop_staged, drop_handle, remove_path, joined,
}

-- the relation holds across each operation on the tables that are neither chains nor rows of
-- transactions; the staged writes are those of the transaction `t`
pub record Quiet (t : String) (S : LocalStore → LocalStore → Type 0) : Type 0 where
  pub order : Order S
  pub wal : (r : WalRecord) (s : LocalStore) → S s (append_wal r s).1
  pub version : (s : LocalStore) → S s (next_global_version s).1
  pub versions :
      (us : List (String × VersionRecord)) (s : LocalStore) → S s (put_versions_bulk us s)
  pub entry : (key : String) (e : WriteSetEntry) (s : LocalStore) → S s (put_write_entry t key e s)
  pub no_entry : (key : String) (s : LocalStore) → S s (delete_write_entry t key s)
  pub blob : (handle : String) (b : BlobRecord) (s : LocalStore) → S s (put_blob handle b s)
  pub no_blob : (handle : String) (s : LocalStore) → S s (delete_blob handle s)
  pub pin : (s : LocalStore) → S s (capture_and_register_snapshot s).1
  pub release : (n : ℕ) (s : LocalStore) → S s (unregister_snapshot n s)

-- and across each operation on the row of `t`
pub record Footprint (t : String) (S : LocalStore → LocalStore → Type 0) : Type 0 where
  pub quiet : Quiet t S
  pub open quiet use *
  pub row : (rec : TxnStateRecord) (s : LocalStore) → S s (put_txn_state t rec s)
  pub no_row : (s : LocalStore) → S s (delete_txn_state t s)
  pub step : (from to : TxnStatus) (s : LocalStore) → S s (compare_and_set_txn_status t from to s).1

module _ {t : String} {S : LocalStore → LocalStore → Type 0} (q : Quiet t S) where
  pub Keeps-log : (r : WalRecord) → Keeps S (log r)
  Keeps-log r = Keeps-redb q.order (append_wal r) (q.wal r)

  pub Keeps-unpin : (n : ℕ) → Keeps S (unpin n)
  Keeps-unpin n = Keeps-ignore q.order (Keeps-redb_do q.order (unregister_snapshot n) (q.release n))

  pub Keeps-remove_path : (o : Option BlobRecord) → Keeps S (remove_path o)
  Keeps-remove_path none = Keeps-return q.order tt
  Keeps-remove_path (some rec) = Keeps-ignore q.order (Keeps-remove_file q.order rec.path)

  pub Keeps-forget : Keeps S (forget t)
  Keeps-forget = Keeps-update q.order _ (λ w. q.order.same w.store)

  Keeps-drop_handle : (h : Option String) → Keeps S (drop_handle h)
  Keeps-drop_handle none = Keeps-return q.order tt
  Keeps-drop_handle (some handle) =
      Keeps-bind q.order (Keeps-to_option q.order (Keeps-redb_read q.order (get_blob handle)))
        (λ found. Keeps-bind q.order (Keeps-remove_path (joined found)) (λ _.
          Keeps-ignore q.order (Keeps-redb_do q.order (delete_blob handle) (q.no_blob handle))))

  pub Keeps-drop_staged : (e : String × WriteSetEntry) → Keeps S (drop_staged t e)
  unfolding drop_staged
  Keeps-drop_staged (key, e) = Keeps-bind q.order (Keeps-drop_handle e.body_handle) (λ _.
      Keeps-ignore q.order
        (Keeps-redb_do q.order (delete_write_entry t e.backend_key) (q.no_entry e.backend_key)))

  pub Keeps-drop_and_log : (txn : TxnStateRecord) → Keeps S (drop_and_log t txn)
  unfolding drop_and_log
  Keeps-drop_and_log txn =
      Keeps-bind q.order (Keeps-redb_read q.order (iter_write_set t)) (λ writes.
        Keeps-bind q.order (Keeps-each q.order Keeps-drop_staged writes) (λ _.
          Keeps-bind q.order (Keeps-log _)
            (λ _. Keeps-bind q.order (Keeps-unpin txn.snapshot_version) (λ _. Keeps-forget))))

module _ {t : String} {S : LocalStore → LocalStore → Type 0} (f : Footprint t S) where
  pub Keeps-save : (rec : TxnStateRecord) → Keeps S (save t rec)
  Keeps-save rec = Keeps-redb_do f.order (put_txn_state t rec) (f.row rec)

  pub Keeps-require_active : Keeps S (require_active t)
  unfolding require_active
  Keeps-require_active = Keeps-bind f.order (Keeps-redb_read f.order (get_txn_state t)) go
    where
      go : (o : Option TxnStateRecord) → Keeps S (if_active o)
      go none = Keeps-raise f.order _
      go (some rec) =
          Keeps-if f.order (same_status rec.status active) (Keeps-return f.order rec)
            (Keeps-raise f.order _)

  pub Keeps-heartbeat : (now : ℕ) → Keeps S (heartbeat t now)
  unfolding heartbeat
  Keeps-heartbeat now = Keeps-bind f.order Keeps-require_active (λ txn. Keeps-save _)

  Keeps-track : (n : ℕ) → Keeps S (track t n)
  Keeps-track n = record { at = λ w. go w (begin_txn t n w.locks) }
    where
      go : (w : World) (r : Result SiLockManager) → S w.store (tracked r w).1.store
      go w (Errors.ok locks) = f.order.same w.store
      go w (Errors.err e) = f.order.same w.store

  Keeps-unsave : Keeps S (unsave t)
  Keeps-unsave = Keeps-ignore f.order (Keeps-redb_do f.order (delete_txn_state t) f.no_row)

  pub Keeps-begin :
      (idempotency_key : Option String) (now : ℕ) → Keeps S (begin t idempotency_key now)
  unfolding begin
  Keeps-begin idempotency_key now =
      Keeps-bind f.order (Keeps-redb f.order capture_and_register_snapshot f.pin) (λ n.
        Keeps-bind f.order (Keeps-on_error f.order (Keeps-save _) (λ _. Keeps-unpin f.quiet n))
          (λ _.
            Keeps-bind f.order
              (Keeps-on_error f.order (Keeps-track n)
                (λ _. Keeps-bind f.order (Keeps-unpin f.quiet n) (λ _. Keeps-unsave)))
              (λ _.
                Keeps-bind f.order
                  (Keeps-on_error f.order (Keeps-log f.quiet _) (λ _.
                    Keeps-bind f.order (Keeps-forget f.quiet)
                      (λ _. Keeps-bind f.order (Keeps-unpin f.quiet n) (λ _. Keeps-unsave))))
                  (λ _. Keeps-return f.order t))))

  Keeps-unless : (b : Bool) {m : Exec Done} → Keeps S m → Keeps S (unless b m)
  Keeps-unless true k = Keeps-return f.order tt
  Keeps-unless false k = k

  module _ (sha256_hex : Bytes → String) (uuid_like : String → String) (spill_dir : String) where
    Keeps-spill :
        (key : String) (body : Bytes) (now : ℕ)
        → Keeps S (spill sha256_hex uuid_like spill_dir t key body now)
    Keeps-spill key body now =
        Keeps-if f.order (ltb 262144 (length body))
          (Keeps-bind f.order (Keeps-write_file f.order _ body) (λ _.
            Keeps-bind f.order (Keeps-redb_do f.order (put_blob _ _) (f.blob _ _))
              (λ _. Keeps-return f.order _)))
          (Keeps-return f.order none)

    pub Keeps-stage_on :
        (key : String) (body : Bytes) (content_type : Option String)
        (user_meta : List (String × String)) (deleted : Bool) (now : ℕ) (txn : TxnStateRecord)
        → Keeps S (
            stage_on sha256_hex uuid_like spill_dir t key body content_type user_meta deleted now
              txn)
    Keeps-stage_on key body content_type user_meta deleted now txn =
        Keeps-bind f.order (Keeps-spill key body now) (λ handle.
          Keeps-bind f.order (Keeps-log f.quiet _) (λ _.
            Keeps-bind f.order (Keeps-redb_do f.order (put_write_entry t key _) (f.entry key _))
              (λ _.
                Keeps-bind f.order (Keeps-unless (has_key key txn.write_keys) (Keeps-save _))
                  (λ _. Keeps-update f.order _ (λ w. f.order.same w.store)))))

    pub Keeps-stage :
        (key : String) (body : Bytes) (content_type : Option String)
        (user_meta : List (String × String)) (deleted : Bool) (now : ℕ)
        → Keeps S
            (stage sha256_hex uuid_like spill_dir t key body content_type user_meta deleted now)
    unfolding stage
    Keeps-stage key body content_type user_meta deleted now =
        Keeps-bind f.order Keeps-require_active
          (Keeps-stage_on key body content_type user_meta deleted now)

  pub Keeps-read_on :
      (key : String) (observed : ℕ) (etag : String) (txn : TxnStateRecord)
      → Keeps S (read_on t key observed etag txn)
  Keeps-read_on key observed etag txn =
      Keeps-bind f.order (Keeps-update f.order _ (λ w. f.order.same w.store))
        (λ _. Keeps-unless (has_key key txn.read_keys) (Keeps-save _))

  pub Keeps-read :
      (key : String) (observed : ℕ) (etag : String) → Keeps S (read t key observed etag)
  unfolding read
  Keeps-read key observed etag =
      Keeps-bind f.order Keeps-require_active (Keeps-read_on key observed etag)

  pub Keeps-abort : Keeps S (abort t)
  unfolding abort abort_txn
  Keeps-abort = Keeps-bind f.order (Keeps-redb_read f.order (get_txn_state t)) go
    where
      taken : (txn : TxnStateRecord) (b : Bool) → Keeps S (if_taken t txn b)
      taken txn true = Keeps-drop_and_log f.quiet txn
      taken txn false = Keeps-raise f.order _

      go : (o : Option TxnStateRecord) → Keeps S (abort_txn t o)
      go none = Keeps-raise f.order _
      go (some txn) = Keeps-if f.order (same_status txn.status committed) (Keeps-raise f.order _) (
          Keeps-if f.order (same_status txn.status aborted) (Keeps-return f.order tt) (
            Keeps-if f.order (same_status txn.status active)
              (Keeps-bind f.order
                (Keeps-redb f.order (compare_and_set_txn_status t active aborted)
                  (f.step active aborted))
                (taken txn))
              (Keeps-raise f.order _)))
