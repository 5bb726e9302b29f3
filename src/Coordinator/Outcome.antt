-- ===== src/Coordinator/Outcome.antt =====
-- What a commit that answers has done: the row of its transaction is committed and knows the version
-- of the answer, so a second commit gives the same answer.
use xtable.Prelude.{
  ℕ, ◌≡◌, refl, sym, ◌∙◌, ap, subst, String, Bool, true, false, Option, none, some, List,
  lookup-insert_self, string_key,
}
use xtable.Errors.{Result}
use xtable.Records.{
  Bytes, TxnStatus, active, committing, committed, aborted, TxnStateRecord, WriteSetEntry,
}
use xtable.Store.{LocalStore}
use xtable.Store.Txns.{get_txn_state, put_txn_state, compare_and_set_txn_status}
use xtable.Store.Chains.{ChainAppend}
use xtable.World.{World, Exec, redb}
use xtable.World.Frame.{Keeps, Keeps-update, Keeps-each}
use xtable.World.Inversion.{
  Returns, bind-Returns, return-Returns, raise-Returns, redb_read-Returns, redb_do-Returns,
}
use xtable.Coordinator.{find_txn}
use xtable.Coordinator.Commit.Enter.{
  CommitOutcome, Entry, done, owned, known_version, answer, lost_race, after_step, take_over,
  replay, enter,
}
use xtable.Coordinator.Commit.Finish.{finish}
use xtable.Coordinator.Frame.{Keeps-unpin}
use xtable.Coordinator.Frame.Commit.{Keeps-publish_memtable, Keeps-collect_staged}
use xtable.Coordinator.Isolation.{SameRow, row_order, row_quiet}

pub Keeps-Returns :
    {A : Type 0} {S : LocalStore → LocalStore → Type 0} (m : Exec A) (w w' : World) (a : A)
    → Keeps S m
    → Returns m w a w'
    → S w.store w'.store
Keeps-Returns {A} {S} m w w' a k r =
    subst (λ (p : Result A × World). S w.store (p.1).store) r (k.at w)

-- the row of `t` in the store is committed, at the version of the outcome
abbrev pub IsCommitted : String → CommitOutcome → LocalStore → Type 0
IsCommitted t out s =
    (row : TxnStateRecord) × (get_txn_state t s ≡ some row)
    × (row.status ≡ committed)
    × (known_version row ≡ out.commit_version)

answer-Returns :
    (txn : TxnStateRecord) (st : TxnStatus) (w w' : World) (e : Entry)
    → Returns (answer txn st) w e w'
    → (st ≡ committed) × (e ≡ done (record { commit_version = known_version txn })) × (w ≡ w')
answer-Returns txn active w w' e h = absurd (raise-Returns _ e w w' h)
answer-Returns txn committing w w' e h = absurd (raise-Returns _ e w w' h)
answer-Returns txn aborted w w' e h = absurd (raise-Returns _ e w w' h)
answer-Returns txn committed w w' e h = let (a, b) = return-Returns _ e w w' h in (refl, sym a, b)

-- an answer read from a row that the store has
answered :
    (t : String) (txn : TxnStateRecord) (w w' : World) (out : CommitOutcome)
    → get_txn_state t w.store ≡ some txn
    → Returns (answer txn txn.status) w (done out) w'
    → IsCommitted t out w'.store
answered t txn w w' out there h =
    let (st, e, same) = answer-Returns txn txn.status w w' (done out) h in
    subst (λ (x : World). IsCommitted t out x.store) same
      (txn, there, st, ap (λ (x : CommitOutcome). x.commit_version) (done_inj e))
  where
    done_inj : {a b : CommitOutcome} → done a ≡ done b → b ≡ a
    done_inj k = cc

after_step-done :
    (t : String) (b : Bool) (w w' : World) (out : CommitOutcome)
    → Returns (after_step t b) w (done out) w'
    → IsCommitted t out w'.store
after_step-done t true w w' out h = absurd (differ (return-Returns owned (done out) w w' h).0)
  where
    differ : owned ≡ done out → ⊥
    differ e = cc
after_step-done t false w w' out h =
    let (o, mid, first, rest) = bind-Returns (find_txn t) lost_race w w' (done out) h in
    let (there, same) = redb_read-Returns (get_txn_state t) w mid o first in
    go o mid (sym (ap (get_txn_state t) same) ∙ there) rest
  where
    go :
        (o : Option TxnStateRecord) (mid : World)
        → get_txn_state t mid.store ≡ o
        → Returns (lost_race o) mid (done out) w'
        → IsCommitted t out w'.store
    go none mid there r = absurd (raise-Returns _ (done out) mid w' r)
    go (some txn) mid there r = answered t txn mid w' out there r

take_over-done :
    (t : String) (txn : TxnStateRecord) (st : TxnStatus) (w w' : World) (out : CommitOutcome)
    → txn.status ≡ st
    → get_txn_state t w.store ≡ some txn
    → Returns (take_over t txn st) w (done out) w'
    → IsCommitted t out w'.store
take_over-done t txn active w w' out e there h =
    let (b, mid, first, rest) =
      bind-Returns (redb (compare_and_set_txn_status t active committing)) (after_step t) w w'
        (done out) h in
    after_step-done t b mid w' out rest
take_over-done t txn committing w w' out e there h =
    answered t txn w w' out there (subst (λ st. Returns (answer txn st) w (done out) w') (sym e) h)
take_over-done t txn committed w w' out e there h =
    answered t txn w w' out there (subst (λ st. Returns (answer txn st) w (done out) w') (sym e) h)
take_over-done t txn aborted w w' out e there h =
    answered t txn w w' out there (subst (λ st. Returns (answer txn st) w (done out) w') (sym e) h)

pub enter-done :
    (t : String) (w w' : World) (out : CommitOutcome)
    → Returns (enter t) w (done out) w'
    → IsCommitted t out w'.store
unfolding enter
enter-done t w w' out h =
    let (o, mid, first, rest) = bind-Returns (find_txn t) (replay t) w w' (done out) h in
    let (there, same) = redb_read-Returns (get_txn_state t) w mid o first in
    go o mid (sym (ap (get_txn_state t) same) ∙ there) rest
  where
    go :
        (o : Option TxnStateRecord) (mid : World)
        → get_txn_state t mid.store ≡ o
        → Returns (replay t o) mid (done out) w'
        → IsCommitted t out w'.store
    go none mid there r = absurd (raise-Returns _ (done out) mid w' r)
    go (some txn) mid there r = take_over-done t txn txn.status mid w' out refl there r

-- the last steps keep the row that was saved
pub finish-Returns :
    (t : String) (txn : TxnStateRecord) (v : ℕ) (entries : List (String × WriteSetEntry))
    (bodies : List (String × Bytes)) (rows : List ChainAppend) (now : ℕ) (w w' : World)
    (out : CommitOutcome)
    → Returns (finish t txn v entries bodies rows now) w out w'
    → (get_txn_state t w'.store ≡ some (record txn { status = committed }))
      × (v ≡ out.commit_version)
unfolding finish put_txn_state get_txn_state
finish-Returns t txn v entries bodies rows now w w' out h =
    let q = row_quiet t t in
    let o = row_order t in
    let row = record txn { status = committed } in
    let (_, w₁, _, h₁) = bind-Returns _ _ w w' out h in
    let (_, w₂, _, h₂) = bind-Returns _ _ w₁ w' out h₁ in
    let (u, w₃, saved, h₃) = bind-Returns _ _ w₂ w' out h₂ in
    let (u₄, w₄, mems, h₄) = bind-Returns _ _ w₃ w' out h₃ in
    let (u₅, w₅, locks, h₅) = bind-Returns _ _ w₄ w' out h₄ in
    let (u₆, w₆, hooks, h₆) = bind-Returns _ _ w₅ w' out h₅ in
    let (u₇, w₇, pin, h₇) = bind-Returns _ _ w₆ w' out h₆ in
    let (u₈, w₈, blobs, h₈) = bind-Returns _ _ w₇ w' out h₇ in
    let (answer, last) = return-Returns _ out w₈ w' h₈ in
    let there : get_txn_state t w₃.store ≡ some row =
      sym (ap (get_txn_state t) (redb_do-Returns (put_txn_state t row) w₂ w₃ u saved))
      ∙ lookup-insert_self t row (w₂.store).txn_state in
    let kept : SameRow t w₃.store w₈.store =
      Keeps-Returns {S = SameRow t} _ w₃ w₄ u₄
        (Keeps-each o (Keeps-publish_memtable q v bodies now) entries) mems
      ∙ Keeps-Returns {S = SameRow t} _ w₄ w₅ u₅ (Keeps-update o _ (λ x. refl)) locks
      ∙ Keeps-Returns {S = SameRow t} _ w₅ w₆ u₆ (Keeps-update o _ (λ x. refl)) hooks
      ∙ Keeps-Returns {S = SameRow t} _ w₆ w₇ u₇ (Keeps-unpin q txn.snapshot_version) pin
      ∙ Keeps-Returns {S = SameRow t} _ w₇ w₈ u₈ (Keeps-each o (Keeps-collect_staged q) entries)
          blobs in
    (
      ap (λ (x : World). get_txn_state t x.store) (sym last) ∙ sym kept ∙ there,
      ap (λ (x : CommitOutcome). x.commit_version) answer,
    )
