-- ===== src/Errors.antt =====
-- xtable-core/src/error.rs, xtable-tx/src/error.rs and the conversion of xtable-backend/src/error.rs:
-- the error types and how they map into one another. The message texts are not modelled.
use xtable.Prelude.{ℕ, String, ◌≡◌, refl}

pub data XtableError : Type 0 where
  invalid_argument not_found conflict txn_expired unknown_txn unauthorized forbidden : XtableError
  storage backend io serde internal not_implemented : XtableError

unfoldable pub http_status : XtableError → ℕ
http_status invalid_argument = 400
http_status unauthorized = 401
http_status forbidden = 403
http_status not_found = 404
http_status unknown_txn = 404
http_status conflict = 409
http_status txn_expired = 410
http_status storage = 500
http_status io = 500
http_status backend = 502
http_status serde = 500
http_status internal = 500
http_status not_implemented = 501

unfoldable pub s3_code : XtableError → String
s3_code invalid_argument = "InvalidArgument"
s3_code unauthorized = "Unauthorized"
s3_code forbidden = "Forbidden"
s3_code not_found = "NoSuchKey"
s3_code unknown_txn = "UnknownTxn"
s3_code conflict = "TransactionConflict"
s3_code txn_expired = "TxnExpired"
s3_code storage = "InternalError"
s3_code io = "InternalError"
s3_code backend = "BackendError"
s3_code serde = "InternalError"
s3_code internal = "InternalError"
s3_code not_implemented = "NotImplemented"

pub data TxnError : Type 0 where
  conflict aborted expired unknown_txn backend storage invalid_state : TxnError

-- `impl From<TxnError> for XtableError`
abbrev pub from_txn : TxnError → XtableError
from_txn TxnError.conflict = XtableError.conflict
from_txn aborted = XtableError.conflict
from_txn expired = txn_expired
from_txn TxnError.unknown_txn = XtableError.unknown_txn
from_txn TxnError.backend = XtableError.backend
from_txn TxnError.storage = XtableError.storage
from_txn invalid_state = internal

pub data BackendError : Type 0 where
  not_found invalid_argument unreachable upload sdk internal : BackendError

-- `impl From<BackendError> for XtableError`
abbrev pub from_backend : BackendError → XtableError
from_backend BackendError.not_found = XtableError.not_found
from_backend BackendError.invalid_argument = XtableError.invalid_argument
from_backend unreachable = XtableError.backend
from_backend upload = XtableError.backend
from_backend sdk = XtableError.backend
from_backend BackendError.internal = XtableError.backend

pub data Result {ℓ} (A : Type ℓ) : Type ℓ where
  ok : A → Result A
  err : XtableError → Result A

-- the operator `?`
infixl 5 ◌>>=◌
abbrev pub ◌>>=◌ {ℓ κ} : {X : Type ℓ} {Y : Type κ} → Result X → (X → Result Y) → Result Y
err reason >>= next = err reason
ok value >>= next = next value

module _ {ℓ κ} {X : Type ℓ} {Y : Type κ} where
  -- a successful chain of steps, taken apart
  pub >>=-ok :
      (first : Result X) (next : X → Result Y) {out : Y}
      → (first >>= next) ≡ ok out
      → (mid : X) × (first ≡ ok mid) × (next mid ≡ ok out)
  >>=-ok (err reason) next success = cc
  >>=-ok (ok value) next success = (value, refl, success)
