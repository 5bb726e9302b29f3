-- ===== src/Coordinator/Calls.antt =====
-- The calls that a transaction receives, and the runs of a system: calls for any transactions in any
-- order, collections of garbage, and any change of what fails next. `commit` and `abort` run under the
-- `commit_lock` and are one step. `stage`, `read` and `heartbeat` take no lock: each reads the row of its
-- transaction in one step and goes on from what it has read in a later one, with any steps in between. What
-- is left of such a call writes the row at most once, so for the rows its other writes can be in that step.
-- Steps of other calls inside a commit or an abort touch the rows of other transactions only, or are of a call
-- of the same transaction that is under way, which the theorem on final transactions excludes.
use xtable.Prelude.{ℕ, ◌≡◌, ◌≢◌, String, Bool, true, false, Option, none, List, ◌∷◌, ◌++◌, refl}
use xtable.Errors.{XtableError, err}
use xtable.Records.{Bytes, TxnStateRecord}
use xtable.Store.Txns.{get_txn_state}
use xtable.Store.Gc.{gc_chains_inner}
use xtable.World.{World}
use xtable.World.Inversion.{Returns}
use xtable.Coordinator.{require_active, heartbeat, heartbeat_on}
use xtable.Coordinator.Begin.{begin, stage, stage_on, read, read_on}
use xtable.Coordinator.Abort.{abort}
use xtable.Coordinator.Commit.{commit}
use xtable.Coordinator.Frame.{
  Keeps-stage, Keeps-stage_on, Keeps-read, Keeps-read_on, Keeps-heartbeat, Keeps-abort, Keeps-save,
}
use xtable.Coordinator.Isolation.{row_footprint, chains_footprint, Keeps-commit}

-- the arguments of the method, without the id of the transaction
pub data Call : Type 0 where
  staging : String → Bytes → Option String → List (String × String) → Bool → ℕ → Call
  reading : String → ℕ → String → Call
  beating committing : ℕ → Call
  aborting : Call

abbrev pub is_commit : Call → Bool
is_commit (committing _) = true
is_commit _ = false

-- the calls that hold the `commit_lock`
abbrev pub is_exclusive : Call → Bool
is_exclusive (committing _) = true
is_exclusive aborting = true
is_exclusive _ = false

-- a call that has read the row of its transaction and has not gone on
abbrev pub Pending : Type 0
Pending = String × Call × TxnStateRecord

abbrev pub System : Type 0
System = World × List Pending

module _ (sha256_hex : Bytes → String) (uuid_like : String → String) (spill_dir : String) where
  -- the world that a call leaves when none comes in between
  unfoldable pub perform : String → Call → World → World
  perform t (staging key body content_type user_meta deleted now) w =
      (stage sha256_hex uuid_like spill_dir t key body content_type user_meta deleted now w).1
  perform t (reading key observed etag) w = (read t key observed etag w).1
  perform t (beating now) w = (heartbeat t now w).1
  perform t (committing now) w = (commit t now w).1
  perform t aborting w = (abort t w).1

  -- A call for one transaction leaves the row of every other transaction as it was, whatever fails.
  pub perform-row :
      (t u : String) (c : Call) (w : World)
      → t ≢ u
      → get_txn_state u w.store ≡ get_txn_state u (perform t c w).store
  unfolding perform
  perform-row t u (staging key body content_type user_meta deleted now) w apart =
      (Keeps-stage (row_footprint t u apart) sha256_hex uuid_like spill_dir key body content_type
          user_meta deleted now).at
        w
  perform-row t u (reading key observed etag) w apart =
      (Keeps-read (row_footprint t u apart) key observed etag).at w
  perform-row t u (beating now) w apart = (Keeps-heartbeat (row_footprint t u apart) now).at w
  perform-row t u (committing now) w apart = (Keeps-commit t u apart now).at w
  perform-row t u aborting w apart = (Keeps-abort (row_footprint t u apart)).at w

  -- No call but a commit changes a chain, whatever fails: what a transaction stages is seen by no
  -- reader before its commit, and an abort has nothing to undo.
  pub perform-chains :
      (t : String) (c : Call) (w : World)
      → is_commit c ≡ false
      → w.store.version_chains ≡ (perform t c w).store.version_chains
  unfolding perform
  perform-chains t (staging key body content_type user_meta deleted now) w h =
      (Keeps-stage (chains_footprint t) sha256_hex uuid_like spill_dir key body content_type
          user_meta deleted now).at
        w
  perform-chains t (reading key observed etag) w h =
      (Keeps-read (chains_footprint t) key observed etag).at w
  perform-chains t (beating now) w h = (Keeps-heartbeat (chains_footprint t) now).at w
  perform-chains t (committing now) w h = absurd cc
  perform-chains t aborting w h = (Keeps-abort (chains_footprint t)).at w

  -- the world that is left when a call goes on from the row that it has read
  unfoldable pub resume : String → Call → TxnStateRecord → World → World
  resume t (staging key body content_type user_meta deleted now) txn w =
      (stage_on sha256_hex uuid_like spill_dir t key body content_type user_meta deleted now txn
        w).1
  resume t (reading key observed etag) txn w = (read_on t key observed etag txn w).1
  resume t (beating now) txn w = (heartbeat_on t now txn w).1
  resume t (committing now) txn w = w
  resume t aborting txn w = w

  pub resume-row :
      (t u : String) (c : Call) (txn : TxnStateRecord) (w : World)
      → t ≢ u
      → get_txn_state u w.store ≡ get_txn_state u (resume t c txn w).store
  unfolding resume
  resume-row t u (staging key body content_type user_meta deleted now) txn w apart =
      (Keeps-stage_on (row_footprint t u apart) sha256_hex uuid_like spill_dir key body content_type
          user_meta deleted now txn).at
        w
  resume-row t u (reading key observed etag) txn w apart =
      (Keeps-read_on (row_footprint t u apart) key observed etag txn).at w
  resume-row t u (beating now) txn w apart =
      (Keeps-save (row_footprint t u apart) (record txn { last_heartbeat_ms = now })).at w
  resume-row t u (committing now) txn w apart = refl
  resume-row t u aborting txn w apart = refl

  -- one step of the system
  pub data Step : System → System → Type 0 where
    locked :
        (t : String) (c : Call) (w : World) (ps : List Pending)
        → is_exclusive c ≡ true
        → Step (w, ps) (perform t c w, ps)
    started :
        (t : String) (c : Call) (txn : TxnStateRecord) (w w' : World) (ps : List Pending)
        → is_exclusive c ≡ false
        → Returns (require_active t) w txn w'
        → Step (w, ps) (w', (t, c, txn) ∷ ps)
    refused :
        (t : String) (e : XtableError) (w w' : World) (ps : List Pending)
        → require_active t w ≡ (err e, w')
        → Step (w, ps) (w', ps)
    resumed :
        (t : String) (c : Call) (txn : TxnStateRecord) (w : World) (before after : List Pending)
        → Step (w, before ++ (t, c, txn) ∷ after) (resume t c txn w, before ++ after)
    begun :
        (t : String) (idempotency_key : Option String) (now : ℕ) (w : World) (ps : List Pending)
        → get_txn_state t w.store ≡ none
        → Step (w, ps) ((begin t idempotency_key now w).1, ps)
    collected :
        (requested : Option ℕ) (w : World) (ps : List Pending)
        → Step (w, ps) (record w { store = (gc_chains_inner requested w.store).1 }, ps)
    rescheduled :
        (schedule : List Bool) (w : World) (ps : List Pending)
        → Step (w, ps) (record w { schedule = schedule }, ps)

  pub data Run : System → System → Type 0 where
    stop : (a : System) → Run a a
    next : (a b c : System) → Step a b → Run b c → Run a c
