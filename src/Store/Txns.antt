-- ===== src/Store/Txns.antt =====
-- The transaction states, the write sets and the staged blobs of the store.
use xtable.Prelude.{
  String, Bool, true, false, not, Option, none, some, List, [], ◌∷◌, lookup, insert, remove,
  string_key, pair_key, if◌then◌else◌, ◌==◌, Map,
}
use xtable.Records.{TxnStatus, TxnStateRecord, WriteSetEntry, BlobRecord, same_status}
use xtable.Store.Defs.{LocalStore}

unfoldable pub put_txn_state : String → TxnStateRecord → LocalStore → LocalStore
put_txn_state txn_id rec s = record s { txn_state = insert txn_id rec s.txn_state }

unfoldable pub get_txn_state : String → LocalStore → Option TxnStateRecord
get_txn_state txn_id s = lookup txn_id s.txn_state

unfoldable pub delete_txn_state : String → LocalStore → LocalStore
delete_txn_state txn_id s = record s { txn_state = remove txn_id s.txn_state }

unfoldable pub compare_and_set_txn_status :
    String → TxnStatus → TxnStatus → LocalStore → Bool × LocalStore
compare_and_set_txn_status txn_id expected_status next_status s = elim (lookup txn_id s.txn_state) [
  | none ↦ (false, s)
  | some rec ↦ if not (same_status rec.status expected_status) then (false, s) else (
    true,
    record s { txn_state = insert txn_id (record rec { status = next_status }) s.txn_state },
  )
]

unfoldable pub put_write_entry : String → String → WriteSetEntry → LocalStore → LocalStore
put_write_entry txn_id key entry s = record s { write_set = insert (txn_id, key) entry s.write_set }

unfoldable pub delete_write_entry : String → String → LocalStore → LocalStore
delete_write_entry txn_id key s = record s { write_set = remove (txn_id, key) s.write_set }

-- the rows of one transaction, in key order
abbrev pub rows_of : String → Map (String × String) WriteSetEntry → List (String × WriteSetEntry)
rows_of txn_id [] = []
rows_of txn_id (((t, key), rec) ∷ rows) =
    let rest = rows_of txn_id rows in if t == txn_id then (key, rec) ∷ rest else rest

unfoldable pub iter_write_set : String → LocalStore → List (String × WriteSetEntry)
iter_write_set txn_id s = rows_of txn_id s.write_set

unfoldable pub put_blob : String → BlobRecord → LocalStore → LocalStore
put_blob handle rec s = record s { staged_blobs = insert handle rec s.staged_blobs }

unfoldable pub get_blob : String → LocalStore → Option BlobRecord
get_blob handle s = lookup handle s.staged_blobs

unfoldable pub delete_blob : String → LocalStore → LocalStore
delete_blob handle s = record s { staged_blobs = remove handle s.staged_blobs }
