-- ===== src/Sweep/Stale.antt =====
-- Whom the sweep aborts.
use xtable.Prelude.{
  ℕ, ◌-◌, ◌*◌, ◌≡◌, ◌≢◌, refl, sym, ◌∙◌, ap, inl, inr, String, Bool, true, false, Option, none,
  some, List, [], ◌∷◌, Map, Elem, All, string_key, Bool-cases,
}
use xtable.Records.{active, aborted, TxnStateRecord, same_status}
use xtable.Store.{LocalStore}
use xtable.Store.Txns.{get_txn_state, compare_and_set_txn_status, iter_write_set}
use xtable.World.{World, next_fails, advance, redb_read, ◌>>=◌}
use xtable.World.Frame.{
  Keeps, Keeps-return, Keeps-if, Keeps-bind, Keeps-redb, Keeps-redb_read, Keeps-each,
}
use xtable.Coordinator.Frame.{Footprint, Quiet, Keeps-log, Keeps-unpin, Keeps-drop_staged}
use xtable.Coordinator.Isolation.{SameRow, row_order, row_footprint}
use xtable.Sweep.{
  is_stale_txn, stale_ids, clean, if_claimed, claim, abort_txn_local, count_if, abort_all,
  sweep_stale_txns,
}

module _ {t : String} {S : LocalStore → LocalStore → Type 0} (q : Quiet t S) where
  pub Keeps-if_claimed : (state : TxnStateRecord) (b : Bool) → Keeps S (if_claimed t state b)
  unfolding clean
  Keeps-if_claimed state false = Keeps-return q.order false
  Keeps-if_claimed state true =
      Keeps-bind q.order (Keeps-redb_read q.order (iter_write_set t)) (λ writes.
        Keeps-bind q.order (Keeps-each q.order (Keeps-drop_staged q) writes) (λ _.
          Keeps-bind q.order (Keeps-log q _) (λ _.
            Keeps-bind q.order (Keeps-unpin q state.snapshot_version)
              (λ _. Keeps-return q.order true))))

module _ {t : String} {S : LocalStore → LocalStore → Type 0} (f : Footprint t S) where
  pub Keeps-abort_txn_local : Keeps S (abort_txn_local t)
  unfolding abort_txn_local
  Keeps-abort_txn_local = Keeps-bind f.order (Keeps-redb_read f.order (get_txn_state t)) claimed
    where
      claimed : (o : Option TxnStateRecord) → Keeps S (claim t o)
      claimed none = Keeps-return f.order false
      claimed (some state) =
          Keeps-if f.order (same_status state.status active)
            (Keeps-bind f.order
              (Keeps-redb f.order (compare_and_set_txn_status t active aborted)
                (f.step active aborted))
              (Keeps-if_claimed f.quiet state))
            (Keeps-return f.order false)

Keeps-abort_all-row :
    (u : String) (ts : List String) (n : ℕ)
    → All (λ t. t ≢ u) ts
    → Keeps (SameRow u) (abort_all ts n)
unfolding abort_all
Keeps-abort_all-row u [] n h = Keeps-return (row_order u) n
Keeps-abort_all-row u (t ∷ ts) n h =
    Keeps-bind (row_order u) (Keeps-abort_txn_local (row_footprint t u h.0))
      (λ done. Keeps-abort_all-row u ts (count_if done n) h.1)

-- the ids of the table that are stale, in a table with one row for each id
abbrev pub IsLive : String → ℕ → Map String TxnStateRecord → Type 0
IsLive u cutoff rows = (rec : TxnStateRecord) → Elem (u, rec) rows → is_stale_txn cutoff rec ≡ false

live-All :
    (u : String) (cutoff : ℕ) (rows : Map String TxnStateRecord)
    → IsLive u cutoff rows
    → All (λ t. t ≢ u) (stale_ids cutoff rows)
unfolding stale_ids
live-All u cutoff [] h = tt
live-All u cutoff ((t, rec) ∷ rows) h =
    let rest = live-All u cutoff rows (λ r m. h r (inr m)) in
    elim (Bool-cases (is_stale_txn cutoff rec)) [
      | inr fresh ↦ rw fresh rest
      | inl stale ↦
          rw stale ((λ e. clash (sym stale ∙ h rec (inl (ap (λ x. (x, rec)) (sym e))))), rest)
    ]
  where
    clash : true ≡ false → ⊥
    clash k = cc

-- The sweep leaves alone a transaction whose row is not Active or has a recent heartbeat, whatever
-- fails.
pub sweep-live :
    (u : String) (timeout_secs now : ℕ) (w : World)
    → IsLive u (now - timeout_secs * 1000) w.store.txn_state
    → get_txn_state u w.store ≡ get_txn_state u (sweep_stale_txns timeout_secs now w).1.store
unfolding sweep_stale_txns redb_read ◌>>=◌
sweep-live u timeout_secs now w h =
    let rows = w.store.txn_state in
    let cutoff = now - timeout_secs * 1000 in
    elim (Bool-cases (next_fails w.schedule)) [
      | inl fails ↦ rw fails refl
      | inr works ↦ rw works (
          (Keeps-abort_all-row u (stale_ids cutoff rows) 0 (live-All u cutoff rows h)).at
            (advance w))
    ]
