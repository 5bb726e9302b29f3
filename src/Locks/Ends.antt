-- ===== src/Locks/Ends.antt =====
-- xtable-tx/src/si_lock_manager.rs: the methods for the end of a transaction, the window of recent ones,
-- and the reports.
use xtable.Prelude.{
  ℕ, String, Bool, true, false, not, ◌&&◌, none, some, List, [], ◌∷◌, ◌++◌, map, retain, any, Map,
  lookup, remove, modify, ◌==◌, nat_key, string_key, if◌then◌else◌, ltb, leb,
}
use xtable.Locks.{SiEdge, SiTxnPhase, active, committed, aborted, SiTxnLocks, is_read}
use xtable.Locks.Manager.{WriterView, SiLockManager, add_in, in_edge}

-- the first two critical sections of `mark_committed`
unfoldable pub out_edges_snapshot : String → SiLockManager → List (String × String)
out_edges_snapshot txn_id m = elim (lookup txn_id m.by_txn) [
  | none ↦ []
  | some l ↦ map (λ e. (e.peer, e.key)) (retain (λ e. is_read e.peer_action) l.out_edges.edges)
]

unfoldable pub my_writes : String → SiLockManager → List String
my_writes txn_id m = elim (lookup txn_id m.by_txn) [
  | none ↦ []
  | some l ↦ map (λ w. w.key) l.writes
]

abbrev pub add_once : SiEdge → SiTxnLocks → SiTxnLocks
add_once e l =
    if any (λ f. f.peer == e.peer && f.key == e.key) l.in_edges.edges then l else add_in e l

unfoldable pub mirror_committed :
    String → ℕ → List (String × String) → Map String SiTxnLocks → Map String SiTxnLocks
mirror_committed txn_id version [] by_txn = by_txn
mirror_committed txn_id version ((peer, key) ∷ es) by_txn =
    mirror_committed txn_id version es (modify peer (add_once (in_edge txn_id key version)) by_txn)

abbrev pub commit_view : String → ℕ → WriterView → WriterView
commit_view txn_id version w =
    if w.txn_id == txn_id
    then record w { committed_version = version; is_recently_committed = true }
    else w

unfoldable pub commit_writers :
    String → ℕ → List String → Map String (List WriterView) → Map String (List WriterView)
commit_writers txn_id version [] writers = writers
commit_writers txn_id version (k ∷ ks) writers =
    commit_writers txn_id version ks (modify k (map (commit_view txn_id version)) writers)

-- the third one; `now` is the clock's reading
unfoldable pub apply_committed :
    String → ℕ → List (String × String) → List String → ℕ → SiLockManager → SiLockManager
apply_committed txn_id version edges writes now m = record m {
  by_txn =
      mirror_committed txn_id version edges
        (modify txn_id (λ l. record l { status = committed }) m.by_txn);
  writers_of = commit_writers txn_id version writes m.writers_of;
  recent =
      m.recent
      ++ record { txn_id = txn_id; keys = writes; commit_version = version; committed_at_ms = now }
        ∷ [];
  recent_floor_version =
      if ltb m.recent_floor_version version then version else m.recent_floor_version;
}

unfoldable pub mark_committed : String → ℕ → ℕ → SiLockManager → SiLockManager
mark_committed txn_id version now m =
    apply_committed txn_id version (out_edges_snapshot txn_id m) (my_writes txn_id m) now m

-- every value of the map is rewritten
abbrev pub map_values {ℓ κ} : {A : Type ℓ} {B : Type κ} → (A → B) → Map String A → Map String B
map_values f [] = []
map_values f ((j, v) ∷ m) = (j, f v) ∷ map_values f m

abbrev pub without : String → SiTxnLocks → SiTxnLocks
without txn_id l = record l {
  in_edges = record { edges = retain (λ e. not (e.peer == txn_id)) l.in_edges.edges };
  out_edges = record { edges = retain (λ e. not (e.peer == txn_id)) l.out_edges.edges };
}

unfoldable pub mark_aborted : String → SiLockManager → SiLockManager
mark_aborted txn_id m = record m {
  by_txn = map_values (without txn_id) (remove txn_id m.by_txn);
  readers_of = map_values (retain (λ t. not (t == txn_id))) m.readers_of;
  writers_of = map_values (retain (λ w. not (w.txn_id == txn_id))) m.writers_of;
}

unfoldable pub snapshot_for_persist : SiLockManager → List (String × SiTxnLocks)
snapshot_for_persist m = m.by_txn

abbrev pub is_aborted : SiTxnPhase → Bool
is_aborted aborted = true
is_aborted _ = false

abbrev pub is_active_phase : SiTxnPhase → Bool
is_active_phase active = true
is_active_phase _ = false

unfoldable pub evict_recent_older_than : ℕ → SiLockManager → SiLockManager
evict_recent_older_than floor m = record m {
  recent = retain (λ r. leb floor r.commit_version) m.recent;
  recent_floor_version = floor;
  by_txn = retain (λ e. not (is_aborted (e.1).status)) m.by_txn;
}

unfoldable pub active_txn_ids : SiLockManager → List String
active_txn_ids m = map (λ e. e.0) (retain (λ e. is_active_phase (e.1).status) m.by_txn)
