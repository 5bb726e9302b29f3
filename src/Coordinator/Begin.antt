-- ===== src/Coordinator/Begin.antt =====
-- xtable-tx/src/coordinator.rs: the methods that open a transaction and that work inside one.
use xtable.Prelude.{
  ℕ, String, Bool, true, false, Option, none, some, List, [], ◌∷◌, ◌++◌, any, length, ◌==◌, nat_key,
  string_key, ltb, if◌then◌else◌,
}
use xtable.Prelude.Words.{saturating_add}
use Prim.Native.String.{◌++◌ as ◌⧺◌}
use xtable.Errors.{XtableError, storage}
use xtable.Errors
use xtable.Records.{Bytes, TxnStateRecord, WriteSetEntry, BlobRecord, new_active, WalRecord}
use xtable.Store.Txns.{delete_txn_state, put_blob, get_blob, put_write_entry, iter_write_set}
use xtable.Store.Pins.{capture_and_register_snapshot}
use xtable.Locks.Manager.{SiLockManager, begin_txn, register_write, register_read}
use xtable.World.{
  Exec, Done, return, raise, update, redb, redb_read, redb_do, ignore, on_error, read_file,
  write_file, ◌>>=◌, ◌>>◌,
}
use xtable.Coordinator.{log, save, unpin, forget, require_active}

abbrev pub tracked : Errors.Result SiLockManager → Exec Done
tracked (Errors.ok locks) w = (Errors.ok tt, record w { locks = locks })
tracked (Errors.err e) w = (Errors.err e, w)

abbrev pub track : String → ℕ → Exec Done
track txn_id snapshot w = tracked (begin_txn txn_id snapshot w.locks) w

abbrev pub unsave : String → Exec Done
unsave txn_id = ignore (redb_do (delete_txn_state txn_id))

unfoldable pub begin : String → Option String → ℕ → Exec String
begin txn_id idempotency_key now = do
  snapshot ← redb capture_and_register_snapshot
  on_error (save txn_id (new_active snapshot idempotency_key now)) (λ _. unpin snapshot)
  on_error (track txn_id snapshot) (λ _. unpin snapshot >> unsave txn_id)
  on_error (log (WalRecord.begin txn_id snapshot idempotency_key))
      (λ _. forget txn_id >> (unpin snapshot >> unsave txn_id))
  return txn_id

-- `push` unless the list has the key
abbrev pub has_key : String → List String → Bool
has_key key ks = any (λ k. k == key) ks

abbrev pub unless : Bool → Exec Done → Exec Done
unless true m = return tt
unless false m = m

-- a body of more than 256 KiB is spilled to a file; `sha256_hex` and `uuid_like` are digests
module _ (sha256_hex : Bytes → String) (uuid_like : String → String) (spill_dir : String) where
  abbrev pub spill_path : String → String
  spill_path handle = spill_dir ⧺ ("/" ⧺ handle)

  abbrev pub write_spill : String → Bytes → ℕ → Exec (Option String)
  write_spill handle body now = do
    write_file (spill_path handle) body
    redb_do (
        put_blob handle (record {
          path = spill_path handle;
          size = length body;
          sha256 = sha256_hex body;
          created_at_ms = now;
        }))
    return (some handle)

  abbrev pub spill : String → String → Bytes → ℕ → Exec (Option String)
  spill txn_id key body now =
      if ltb 262144 (length body)
      then write_spill (txn_id ⧺ ("-" ⧺ uuid_like key)) body now
      else return none

  abbrev pub inline : Option String → Bytes → Option Bytes
  inline none body = some body
  inline (some _) body = none

  -- `stage` from the row that it has read
  abbrev pub stage_on :
      String
      → String
      → Bytes
      → Option String
      → List (String × String)
      → Bool
      → ℕ
      → TxnStateRecord
      → Exec Done
  stage_on txn_id key body content_type user_meta deleted now txn = do
    body_handle ← spill txn_id key body now
    log (WalRecord.stage txn_id key body_handle)
    redb_do (
        put_write_entry txn_id key (record {
          backend_key = key;
          body_handle = body_handle;
          inline_body = inline body_handle body;
          size = length body;
          content_type = content_type;
          user_meta = user_meta;
          deleted = deleted;
        }))
    unless (has_key key txn.write_keys)
        (save txn_id (record txn { write_keys = txn.write_keys ++ key ∷ [] }))
    update (λ w. (
      tt,
      record w {
        locks = register_write txn_id key (saturating_add txn.snapshot_version 1) w.locks;
      },
    ))

  unfoldable pub stage :
      String → String → Bytes → Option String → List (String × String) → Bool → ℕ → Exec Done
  stage txn_id key body content_type user_meta deleted now =
      require_active txn_id >>= stage_on txn_id key body content_type user_meta deleted now

-- `read` from the row that it has read
abbrev pub read_on : String → String → ℕ → String → TxnStateRecord → Exec Done
read_on txn_id key observed etag txn = do
  update (λ w. (tt, record w { locks = register_read txn_id key observed etag w.locks }))
  unless (has_key key txn.read_keys)
      (save txn_id (record txn { read_keys = txn.read_keys ++ key ∷ [] }))

unfoldable pub read : String → String → ℕ → String → Exec Done
read txn_id key observed etag = require_active txn_id >>= read_on txn_id key observed etag

abbrev pub blob_path : Option BlobRecord → Exec String
blob_path none = raise storage
blob_path (some rec) = return rec.path

abbrev pub stored_body : Option Bytes → Option String → Exec (Option Bytes)
stored_body (some bytes) handle = return (some bytes)
stored_body none none = return none
stored_body none (some handle) =
    redb_read (get_blob handle) >>= blob_path >>= read_file >>= λ bytes. return (some bytes)

-- the body of the first entry of the key
unfoldable pub body_of : String → List (String × WriteSetEntry) → Exec (Option Bytes)
body_of key [] = return none
body_of key ((k, e) ∷ rest) =
    let later = body_of key rest in
    if k == key then stored_body e.inline_body e.body_handle else later

unfoldable pub stage_body : String → String → Exec (Option Bytes)
stage_body txn_id key = redb_read (iter_write_set txn_id) >>= body_of key
