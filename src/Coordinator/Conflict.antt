-- ===== src/Coordinator/Conflict.antt =====
-- First committer wins: a transaction whose key has a newer version than its snapshot never commits.
use xtable.Prelude.{
  ℕ, ◌≡◌, sym, ◌∙◌, ap, subst, String, Bool, true, false, Option, some, Elem, lookup-insert_self,
  string_key, arith,
}
use xtable.Errors.{ok}
use xtable.Records.{active, committing, TxnStateRecord}
use xtable.Store.{LocalStore}
use xtable.Store.Txns.{get_txn_state, compare_and_set_txn_status, iter_write_set}
use xtable.Store.Chains.{read_chain}
use xtable.World.{World, redb, ◌>>=◌}
use xtable.World.Frame.{Keeps-bind, Keeps-redb_read}
use xtable.World.Inversion.{
  Returns, bind-Returns, return-Returns, on_error-Returns, redb-Returns, redb_read-Returns,
}
use xtable.Coordinator.{find_txn}
use xtable.Coordinator.Keys.{sort_keys}
use xtable.Coordinator.Commit.Enter.{
  CommitOutcome, Entry, owned, after_step, take_over, replay, enter,
}
use xtable.Coordinator.Commit.{commit, run_entry, commit_owned, prepare, found}
use xtable.Coordinator.Frame.{Footprint}
use xtable.Coordinator.Frame.Commit.{
  Keeps-enter, Keeps-materialize, Keeps-check_cycle, Keeps-allocate, Keeps-found,
}
use xtable.Coordinator.Isolation.{SameChains, chains_footprint, chains_order}
use xtable.Coordinator.Atomic.{read_chain-same}
use xtable.Coordinator.Outcome.{Keeps-Returns}
use xtable.Coordinator.Checks.{Elem-sort_keys, each-Returns, is_stale}

-- the step to Committing succeeds on an active row, and changes its status only
step-active :
    (t : String) (txn : TxnStateRecord) (s : LocalStore)
    → get_txn_state t s ≡ some txn
    → txn.status ≡ active
    → let (b, s') = compare_and_set_txn_status t active committing s in
      (b ≡ true) × (get_txn_state t s' ≡ some (record txn { status = committing }))
unfolding compare_and_set_txn_status get_txn_state
step-active t txn s there on = (
  ground arith,
  ground (arith, lookup-insert_self t (record txn { status = committing }) s.txn_state),
)

-- an active transaction enters: its row is Committing, and the chains are as they were
enter-active :
    (t : String) (txn : TxnStateRecord) (w w' : World) (e : Entry)
    → get_txn_state t w.store ≡ some txn
    → txn.status ≡ active
    → Returns (enter t) w e w'
    → (e ≡ owned) × (get_txn_state t w'.store ≡ some (record txn { status = committing }))
unfolding enter
enter-active t txn w w' e there on h =
    let (o, w₁, first, rest) = bind-Returns (find_txn t) (replay t) w w' e h in
    let (read, same) = redb_read-Returns (get_txn_state t) w w₁ o first in
    let here : get_txn_state t w₁.store ≡ some txn = sym (ap (get_txn_state t) same) ∙ there in
    let taken : Returns (take_over t txn active) w₁ e w' =
      subst (λ st. Returns (take_over t txn st) w₁ e w') on
        (subst (λ (x : Option TxnStateRecord). Returns (replay t x) w₁ e w') (sym read ∙ there)
          rest) in
    let (b, w₂, second, last) =
      bind-Returns (redb (compare_and_set_txn_status t active committing)) (after_step t) w₁ w' e
        taken in
    let (won, row) = step-active t txn w₁.store here on in
    let (value, left) =
      redb-Returns (compare_and_set_txn_status t active committing) w₁ w₂ b second in
    let (is_owned, world) =
      return-Returns owned e w₂ w'
        (subst (λ (x : Bool). Returns (after_step t x) w₂ e w') (sym value ∙ won) last) in
    (
      sym is_owned,
      ap (λ (x : World). get_txn_state t x.store) (sym world)
          ∙ sym (ap (get_txn_state t) left)
          ∙ row,
    )

module _ (t : String) (now : ℕ) where
  f : Footprint t SameChains
  f = chains_footprint t

  owned-stale :
      (txn : TxnStateRecord) (key : String) (w w' : World) (out : CommitOutcome)
      → get_txn_state t w.store ≡ some txn
      → Elem key txn.write_keys
      → Returns (commit_owned t now) w out w'
      → is_stale txn.snapshot_version (read_chain key w.store) ≡ false
  unfolding commit_owned prepare
  owned-stale txn key w w' out there m h =
      let (row, w₁, r₁, h₁) = bind-Returns (find_txn t >>= found) _ w w' out h in
      let (entries, w₂, r₂, h₂) = bind-Returns _ _ w₁ w' out h₁ in
      let (bodies, w₃, r₃, h₃) = bind-Returns _ _ w₂ w' out h₂ in
      let (u, w₄, r₄, h₄) = bind-Returns _ _ w₃ w' out h₃ in
      let (v, w₅, r₅, h₅) = bind-Returns _ _ w₄ w' out h₄ in
      let (ready, w₆, r₆, h₆) = bind-Returns _ _ w₅ w' out h₅ in
      let (u', w₇, checks, h₇) = bind-Returns _ _ w₅ w₆ ready r₆ in
      let same : row ≡ txn = found-row row w₁ r₁ in
      let moved : SameChains w.store w₅.store =
        Keeps-Returns {S = SameChains} _ w w₁ row
          (Keeps-bind chains_order (Keeps-redb_read chains_order (get_txn_state t)) (Keeps-found f))
          r₁
        ∙ Keeps-Returns {S = SameChains} _ w₁ w₂ entries
            (Keeps-redb_read chains_order (iter_write_set t)) r₂
        ∙ Keeps-Returns {S = SameChains} _ w₂ w₃ bodies (Keeps-materialize f entries) r₃
        ∙ Keeps-Returns {S = SameChains} _ w₃ w₄ u (Keeps-check_cycle f row) r₄
        ∙ Keeps-Returns {S = SameChains} _ w₄ w₅ v (Keeps-allocate f row (sort_keys row.write_keys))
            r₅ in
      ap (is_stale txn.snapshot_version) (read_chain-same key w.store w₅.store moved)
      ∙ subst
          (λ (x : TxnStateRecord). is_stale x.snapshot_version (read_chain key w₅.store) ≡ false)
          same
          (each-Returns t row (sort_keys row.write_keys) key w₅ w₇ u'
            (Elem-sort_keys key row.write_keys
              (subst (λ (x : TxnStateRecord). Elem key x.write_keys) (sym same) m))
            checks)
    where
      found-row :
          (row : TxnStateRecord) (mid : World)
          → Returns (find_txn t >>= found) w row mid
          → row ≡ txn
      found-row row mid r =
          let (o, w₁, first, rest) = bind-Returns (find_txn t) found w mid row r in
          let (value, _) = redb_read-Returns (get_txn_state t) w w₁ o first in
          sym
            (return-Returns txn row w₁ mid (
              subst (λ (x : Option TxnStateRecord). Returns (found x) w₁ row mid)
                (sym value ∙ there) rest)).0

  -- First committer wins: an active transaction that writes a key of which the chains have a newer
  -- version than its snapshot does not commit, whatever else it writes and whatever fails.
  pub stale-commit :
      (txn : TxnStateRecord) (key : String) (w w' : World) (out : CommitOutcome)
      → get_txn_state t w.store ≡ some txn
      → txn.status ≡ active
      → Elem key txn.write_keys
      → is_stale txn.snapshot_version (read_chain key w.store) ≡ true
      → ¬ (commit t now w ≡ (ok out, w'))
  unfolding commit
  stale-commit txn key w w' out there on m stale h =
      let (e, mid, entered, rest) = bind-Returns (enter t) (run_entry t now) w w' out h in
      let (is_owned, row) = enter-active t txn w mid e there on entered in
      let run =
        on_error-Returns _ _ mid w' out
          (subst (λ (x : Entry). Returns (run_entry t now x) mid out w') is_owned rest) in
      let fresh = owned-stale (record txn { status = committing }) key mid w' out row m run in
      let same =
        read_chain-same key w.store mid.store
          (Keeps-Returns {S = SameChains} _ w mid e (Keeps-enter f) entered) in
      absurd (ground (arith, stale, fresh, same))
