-- ===== src/World.antt =====
-- What a coordinator acts on, and its actions: functions on the world that return a value or an
-- error beside the world they leave, so that what was written before an error stays written.
--
-- The schedule answers for everything outside the process, one answer for each question: whether a
-- redb transaction, a file operation or a request to S3 fails, and whether a `try_lock` finds the lock taken. `true`
-- is the failure; past the end of the schedule nothing fails. A redb transaction that fails leaves
-- the tables as they were. A theorem for all worlds holds whatever fails, and when.
pub mod Frame
pub mod Inversion
pub mod Objects
use xtable.Prelude.{
  ℕ, ◌≡◌, refl, String, Bool, true, false, not, Option, none, some, List, [], ◌∷◌, ◌++◌, Map,
  lookup, insert, remove, string_key, if◌then◌else◌,
}
use xtable.Errors.{XtableError, Result, ok, err, storage, io, backend}
use xtable.Records.{Bytes}
use xtable.Store.{LocalStore}
use xtable.Locks.Manager.{SiLockManager}
use xtable.Memtable.Set.{MemTableSet}

-- `CommitWrite` and `CommitEvent` of xtable-tx/src/coordinator.rs
pub record CommitWrite : Type 0 where
  pub key : String
  pub commit_version : ℕ
  pub deleted : Bool
  pub size : ℕ

pub record CommitEvent : Type 0 where
  pub txn_id : String
  pub commit_version : ℕ
  pub writes : List CommitWrite

-- the fields of a `TxnCoordinator`, the spill files by their paths, the objects of the S3 bucket by their
-- keys, the events that the post-commit hooks were called with, and the schedule
pub record World : Type 0 where
  pub store : LocalStore
  pub locks : SiLockManager
  pub mems : MemTableSet
  pub files : Map String Bytes
  pub objects : Map String Bytes
  pub events : List CommitEvent
  pub schedule : List Bool

abbrev pub Exec : Type 0 → Type 0
Exec A = World → Result A × World

abbrev pub next_fails : List Bool → Bool
next_fails [] = false
next_fails (b ∷ bs) = b

abbrev pub rest_of : List Bool → List Bool
rest_of [] = []
rest_of (b ∷ bs) = bs

abbrev pub advance : World → World
advance w = record w { schedule = rest_of w.schedule }

module _ {A : Type 0} where
  unfoldable pub return : A → Exec A
  return a w = (ok a, w)

  unfoldable pub raise : XtableError → Exec A
  raise e w = (err e, w)

  -- an update of the parts that are in memory, which cannot fail
  unfoldable pub update : (World → A × World) → Exec A
  update f w = (ok (f w).0, (f w).1)

  -- one redb transaction
  unfoldable pub redb : (LocalStore → A × LocalStore) → Exec A
  redb f w =
      if next_fails w.schedule
      then (err storage, advance w)
      else (ok (f w.store).0, record (advance w) { store = (f w.store).1 })

  -- one redb read transaction
  unfoldable pub redb_read : (LocalStore → A) → Exec A
  redb_read f w =
      if next_fails w.schedule then (err storage, advance w) else (ok (f w.store), advance w)

abbrev pub Done : Type 0
Done = Unit {0}

abbrev pub commit_result : Result LocalStore → World → Result Done × World
commit_result (ok s) w = (ok tt, record w { store = s })
commit_result (err e) w = (err e, w)

-- one redb transaction that the store may refuse
unfoldable pub redb_try : (LocalStore → Result LocalStore) → Exec Done
redb_try f w =
    if next_fails w.schedule
    then (err storage, advance w)
    else commit_result (f w.store) (advance w)

-- one redb transaction without a value
unfoldable pub redb_do : (LocalStore → LocalStore) → Exec Done
redb_do f w =
    if next_fails w.schedule
    then (err storage, advance w)
    else (ok tt, record (advance w) { store = f w.store })

abbrev pub file_contents : Option Bytes → World → Result Bytes × World
file_contents (some body) w = (ok body, w)
file_contents none w = (err io, w)

unfoldable pub read_file : String → Exec Bytes
read_file path w =
    if next_fails w.schedule
    then (err io, advance w)
    else file_contents (lookup path w.files) (advance w)

unfoldable pub write_file : String → Bytes → Exec Done
write_file path body w =
    if next_fails w.schedule
    then (err io, advance w)
    else (ok tt, record (advance w) { files = insert path body w.files })

unfoldable pub remove_file : String → Exec Done
remove_file path w =
    if next_fails w.schedule
    then (err io, advance w)
    else (ok tt, record (advance w) { files = remove path w.files })

-- `put_object` and `get_object` of the client of the bucket; a request that fails changes nothing
unfoldable pub put_object : String → Bytes → Exec Done
put_object key body w =
    if next_fails w.schedule
    then (err backend, advance w)
    else (ok tt, record (advance w) { objects = insert key body w.objects })

abbrev pub object_body : Option Bytes → World → Result Bytes × World
object_body (some body) w = (ok body, w)
object_body none w = (err backend, w)

unfoldable pub get_object : String → Exec Bytes
get_object key w =
    if next_fails w.schedule
    then (err backend, advance w)
    else object_body (lookup key w.objects) (advance w)

-- whether a `try_lock` succeeds
unfoldable pub try_lock : Exec Bool
try_lock w = (ok (not (next_fails w.schedule)), advance w)

module _ {A B : Type 0} where
  abbrev pub proceed : (A → Exec B) → Result A × World → Result B × World
  proceed next (ok a, w) = next a w
  proceed next (err e, w) = (err e, w)

  infixl 5 ◌>>=◌
  unfoldable pub ◌>>=◌ : Exec A → (A → Exec B) → Exec B
  ◌>>=◌ m next w = proceed next (m w)

  infixl 5 ◌>>◌
  abbrev pub ◌>>◌ : Exec A → Exec B → Exec B
  m >> n = m >>= λ _. n

module _ {A : Type 0} where
  abbrev pub dropped : Result A × World → Result Done × World
  dropped (r, w) = (ok tt, w)

  -- `let _ = ...`
  unfoldable pub ignore : Exec A → Exec Done
  ignore m w = dropped (m w)

  abbrev pub optional : Result A × World → Result (Option A) × World
  optional (ok a, w) = (ok (some a), w)
  optional (err e, w) = (ok none, w)

  -- `.ok()`
  unfoldable pub to_option : Exec A → Exec (Option A)
  to_option m w = optional (m w)

  abbrev pub recovered : (XtableError → Exec Done) → Result A × World → Result A × World
  recovered h (ok a, w) = (ok a, w)
  recovered h (err e, w) = (err e, (h e w).1)

  -- the error of `m` is returned after `h` has run
  unfoldable pub on_error : Exec A → (XtableError → Exec Done) → Exec A
  on_error m h w = recovered h (m w)

module _ {A : Type 0} where
  -- a loop whose body may fail
  unfoldable pub each : (A → Exec Done) → List A → Exec Done
  each f [] = return tt
  each f (x ∷ xs) = f x >> each f xs
