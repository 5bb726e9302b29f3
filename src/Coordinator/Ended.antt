-- ===== src/Coordinator/Ended.antt =====
-- The state machine of a transaction: Committed and Aborted are final.
use xtable.Prelude.{
  ℕ, ◌≡◌, ◌≢◌, ◌⊎◌, none, [], ◌∷◌, ◌++◌, All, refl, sym, ◌∙◌, ap, inl, inr, subst, String, Bool,
  true, false, Option, some, List, ◌==◌, ==→eq, ==→ne, string_key, Bool-cases, arith,
}
use xtable.Errors.{XtableError, Result, ok, err, internal, storage, conflict}
use xtable.Records.{
  Bytes, TxnStatus, active, committing, committed, aborted, same_status, TxnStateRecord,
}
use xtable.Store.{LocalStore}
use xtable.Store.Txns.{get_txn_state}
use xtable.Store.Gc.{gc_chains_inner}
use xtable.World.{World, Exec, Done, proceed, next_fails, advance, return, raise, redb_read, ◌>>=◌}
use xtable.Coordinator.{require_active, if_active, heartbeat, heartbeat_on}
use xtable.Coordinator.Begin.{stage, stage_on, read, read_on}
use xtable.Coordinator.Abort.{abort, abort_txn}
use xtable.Coordinator.Commit.Enter.{known_version, enter}
use xtable.Coordinator.Commit.{commit}
use xtable.Coordinator.Frame.{Keeps-begin}
use xtable.Coordinator.Isolation.{row_footprint}
use xtable.World.Frame.{
  Order, Keeps, Keeps-bind, Keeps-redb_read, Keeps-raise, Keeps-if, Keeps-return,
}
use xtable.World.Inversion.{Returns}
use xtable.Coordinator.Calls.{
  Call, Pending, System, staging, reading, beating, aborting, perform, perform-row, resume-row,
  Step, locked, started, refused, resumed, begun, collected, rescheduled, Run, stop, next,
}

abbrev pub is_final : TxnStatus → Bool
is_final active = false
is_final committing = false
is_final committed = true
is_final aborted = true

final-cases : (st : TxnStatus) → is_final st ≡ true → (st ≡ committed) ⊎ (st ≡ aborted)
final-cases active h = absurd cc
final-cases committing h = absurd cc
final-cases committed h = inl refl
final-cases aborted h = inr refl

module _ {A : Type 0} where
  -- the run makes its one read, and changes nothing
  abbrev pub OnlyReads : Exec A → World → Type 0
  OnlyReads m w = (r : Result A) × (m w ≡ (r, advance w))

  OnlyReads-store : (m : Exec A) (w : World) → OnlyReads m w → (m w).1.store ≡ w.store
  OnlyReads-store m w (r, e) = ap (λ (p : Result A × World). (p.1).store) e

module _ (t : String) (txn : TxnStateRecord) (w : World)
    (there : get_txn_state t w.store ≡ some txn) (final : is_final txn.status ≡ true) where
  require-final : (e : XtableError) × (require_active t w ≡ (err e, advance w))
  unfolding require_active redb_read ◌>>=◌ raise return
  require-final = elim (Bool-cases (next_fails w.schedule)) [
    | inl fails ↦ (storage, rw fails refl)
    | inr works ↦ elim (final-cases txn.status final) [
      | inl st ↦ (internal, rw (works, there, st) refl)
      | inr st ↦ (internal, rw (works, there, st) refl)
    ]
  ]

  -- what starts with a read of the row of an active transaction
  guarded-final : (more : TxnStateRecord → Exec Done) → OnlyReads (require_active t >>= more) w
  unfolding ◌>>=◌
  guarded-final more = let (e, refused_) = require-final in (err e, ap (proceed more) refused_)

  commit-final : (now : ℕ) → OnlyReads (commit t now) w
  unfolding commit enter redb_read ◌>>=◌ raise return
  commit-final now = elim (Bool-cases (next_fails w.schedule)) [
    | inl fails ↦ (err storage, rw fails refl)
    | inr works ↦ elim (final-cases txn.status final) [
      | inl st ↦ (ok (record { commit_version = known_version txn }), rw (works, there, st) refl)
      | inr st ↦ (err conflict, rw (works, there, st) refl)
    ]
  ]

  abort-final : OnlyReads (abort t) w
  unfolding abort abort_txn redb_read ◌>>=◌ raise return
  abort-final = elim (Bool-cases (next_fails w.schedule)) [
    | inl fails ↦ (err storage, rw fails refl)
    | inr works ↦ elim (final-cases txn.status final) [
      | inl st ↦ (err internal, rw (works, there, st) refl)
      | inr st ↦ (ok tt, rw (works, there, st) refl)
    ]
  ]

module _ (sha256_hex : Bytes → String) (uuid_like : String → String) (spill_dir : String) where
  -- Once a transaction is committed or aborted, no call for it changes anything in the store, whatever
  -- fails.
  pub perform-final :
      (t : String) (c : Call) (txn : TxnStateRecord) (w : World)
      → get_txn_state t w.store ≡ some txn
      → is_final txn.status ≡ true
      → (perform sha256_hex uuid_like spill_dir t c w).store ≡ w.store
  unfolding perform stage read heartbeat
  perform-final t (staging key body content_type user_meta deleted now) txn w there final =
      OnlyReads-store
        (stage sha256_hex uuid_like spill_dir t key body content_type user_meta deleted now) w
        (guarded-final t txn w there final
          (stage_on sha256_hex uuid_like spill_dir t key body content_type user_meta deleted now))
  perform-final t (reading key observed etag) txn w there final =
      OnlyReads-store (read t key observed etag) w
        (guarded-final t txn w there final (read_on t key observed etag))
  perform-final t (beating now) txn w there final =
      OnlyReads-store (heartbeat t now) w (guarded-final t txn w there final (heartbeat_on t now))
  perform-final t (Call.committing now) txn w there final =
      OnlyReads-store (commit t now) w (commit-final t txn w there final now)
  perform-final t aborting txn w there final =
      OnlyReads-store (abort t) w (abort-final t txn w there final)

  gc-row :
      (t : String) (requested : Option ℕ) (s : LocalStore)
      → get_txn_state t (gc_chains_inner requested s).1 ≡ get_txn_state t s
  unfolding gc_chains_inner get_txn_state
  gc-row t requested s = refl

  -- no call of the transaction has read its row and not gone on
  abbrev pub IsIdle : String → List Pending → Type 0
  IsIdle t ps = All (λ (p : Pending). p.0 ≢ t) ps

  IsIdle-drop :
      (t : String) (before after : List Pending) (p : Pending)
      → IsIdle t (before ++ p ∷ after)
      → (p.0 ≢ t) × IsIdle t (before ++ after)
  IsIdle-drop t [] after p h = h
  IsIdle-drop t (x ∷ before) after p h =
      let (apart, rest) = IsIdle-drop t before after p h.1 in (apart, (h.0, rest))

  abbrev IsFinal : String → TxnStateRecord → System → Type 0
  IsFinal t txn a =
      (get_txn_state t (a.0).store ≡ some txn) × (is_final txn.status ≡ true) × IsIdle t a.1

  same_order : Order (λ a b. a ≡ b)
  same_order = record { same = λ a. refl; after = λ a b c p q. p ∙ q }

  Keeps-require : (u : String) → Keeps (λ a b. a ≡ b) (require_active u)
  unfolding require_active
  Keeps-require u = Keeps-bind same_order (Keeps-redb_read same_order (get_txn_state u)) go
    where
      go : (o : Option TxnStateRecord) → Keeps (λ a b. a ≡ b) (if_active o)
      go none = Keeps-raise same_order _
      go (some rec) =
          Keeps-if same_order (same_status rec.status active) (Keeps-return same_order rec)
            (Keeps-raise same_order _)

  -- a read of the row of any transaction
  require-row :
      (t u : String) (w w' : World) (r : Result TxnStateRecord)
      → require_active u w ≡ (r, w')
      → get_txn_state t w'.store ≡ get_txn_state t w.store
  require-row t u w w' r e = sym (
      ap (get_txn_state t) ((Keeps-require u).at w)
      ∙ ap (λ (p : Result TxnStateRecord × World). get_txn_state t (p.1).store) e)

  -- no call of a final transaction starts
  never-starts :
      (t u : String) (txn rec : TxnStateRecord) (w w' : World)
      → get_txn_state t w.store ≡ some txn
      → is_final txn.status ≡ true
      → Returns (require_active u) w rec w'
      → u ≢ t
  never-starts t u txn rec w w' there final r e =
      let (x, refused_) =
        require-final u txn w (subst (λ y. get_txn_state y w.store ≡ some txn) (sym e) there)
          final in
      absurd (clash x (advance w) (sym refused_ ∙ r))
    where
      clash :
          (x : XtableError) (v : World)
          → ◌≡◌ {A = Result TxnStateRecord × World} (err x, v) (ok rec, w')
          → ⊥
      clash x v q = cc

  Step-IsFinal :
      (t : String) (txn : TxnStateRecord) (a b : System)
      → Step sha256_hex uuid_like spill_dir a b
      → IsFinal t txn a
      → IsFinal t txn b
  Step-IsFinal t txn a b (locked u c w ps lock) (there, final, idle) = (
    elim (Bool-cases (u == t)) [
      | inl same ↦
          let e = ==→eq u t same in
          ap (get_txn_state t) (
            perform-final u c txn w (subst (λ x. get_txn_state x w.store ≡ some txn) (sym e) there)
              final)
          ∙ there
      | inr other ↦
          sym (perform-row sha256_hex uuid_like spill_dir u t c w (==→ne u t other)) ∙ there
    ],
    final,
    idle,
  )
  Step-IsFinal t txn a b (started u c rec w w' ps open_ r) (there, final, idle) = (
    require-row t u w w' (ok rec) r ∙ there,
    final,
    (never-starts t u txn rec w w' there final r, idle),
  )
  Step-IsFinal t txn a b (refused u e w w' ps r) (there, final, idle) =
      (require-row t u w w' (err e) r ∙ there, final, idle)
  Step-IsFinal t txn a b (resumed u c rec w before after) (there, final, idle) =
      let (apart, rest) = IsIdle-drop t before after (u, c, rec) idle in
      (sym (resume-row sha256_hex uuid_like spill_dir u t c rec w apart) ∙ there, final, rest)
  Step-IsFinal t txn a b (begun u idempotency_key now w ps fresh) (there, final, idle) = (
    sym ((Keeps-begin (row_footprint u t (λ e. absurd (clash e))) idempotency_key now).at w)
        ∙ there,
    final,
    idle,
  )
    where
      clash : u ≡ t → ⊥
      clash e = ground (arith, fresh, there, ap (λ x. get_txn_state x w.store) e)
  Step-IsFinal t txn a b (collected requested w ps) (there, final, idle) =
      (gc-row t requested w.store ∙ there, final, idle)
  Step-IsFinal t txn a b (rescheduled schedule w ps) kept = kept

  Run-IsFinal :
      (t : String) (txn : TxnStateRecord) (a b : System)
      → Run sha256_hex uuid_like spill_dir a b
      → IsFinal t txn a
      → IsFinal t txn b
  Run-IsFinal t txn a b (stop _) kept = kept
  Run-IsFinal t txn a b (next _ mid _ step rest) kept =
      Run-IsFinal t txn mid b rest (Step-IsFinal t txn a mid step kept)

  -- In every run of the system, a transaction that is committed or aborted, and of which no call is under way,
  -- keeps its row for ever: its status, its snapshot and the versions that it was given.
  pub Run-final :
      (t : String) (txn : TxnStateRecord) (w w' : World) (ps qs : List Pending)
      → Run sha256_hex uuid_like spill_dir (w, ps) (w', qs)
      → get_txn_state t w.store ≡ some txn
      → is_final txn.status ≡ true
      → IsIdle t ps
      → get_txn_state t w'.store ≡ some txn
  Run-final t txn w w' ps qs run there final idle =
      (Run-IsFinal t txn (w, ps) (w', qs) run (there, final, idle)).0
