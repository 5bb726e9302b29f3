-- ===== src/Locks/Manager.antt =====
-- xtable-tx/src/si_lock_manager.rs: the lock manager, a record with the fields of
-- `SiLockManagerInner` and a function for each method. `register_read` and `mark_committed` take
-- the mutex more than once, so each of their critical sections is a definition of its own, and the
-- method is their composition. Of the hash maps only lookups and updates are used.
pub mod Edges
pub mod Detect
pub mod Abort
pub mod Growth
pub mod Skew
use xtable.Prelude.{
  ℕ, ◌≡◌, String, Bool, true, false, not, ◌&&◌, Option, none, some, List, [], ◌∷◌, ◌++◌, map,
  retain, any, length, Map, lookup, insert, remove, modify, ◌==◌, nat_key, string_key,
  if◌then◌else◌, ltb, leb, max,
}
use mathlib.Core.Option
use xtable.Errors.{Result, ok, err, storage}
use xtable.Locks.{
  SiEdge, SiTxnPhase, active, committed, aborted, SiTxnLocks, RecentlyCommittedTxn, read, wrote,
  is_read, add, no_edges,
}
use xtable.Locks.Cahill.{contains, in_peers_of, first_common}

pub record WriterView : Type 0 where
  pub txn_id : String
  pub committed_version : ℕ
  pub is_recently_committed : Bool

pub record SiLockManager : Type 0 where
  pub by_txn : Map String SiTxnLocks
  pub readers_of : Map String (List String)
  pub writers_of : Map String (List WriterView)
  pub recent : List RecentlyCommittedTxn
  pub recent_floor_version : ℕ

abbrev pub new_manager : SiLockManager
new_manager = record {
  by_txn = [];
  readers_of = [];
  writers_of = [];
  recent = [];
  recent_floor_version = 0;
}

abbrev pub fresh_locks : ℕ → SiTxnLocks
fresh_locks snapshot = record {
  reads = [];
  writes = [];
  in_edges = no_edges;
  out_edges = no_edges;
  snapshot_version = snapshot;
  status = active;
}

unfoldable pub begin_txn : String → ℕ → SiLockManager → Result SiLockManager
begin_txn txn_id snapshot m = elim (lookup txn_id m.by_txn) [
  | some _ ↦ err storage
  | none ↦ ok (record m { by_txn = insert txn_id (fresh_locks snapshot) m.by_txn })
]

-- `entry(key).or_default().push(x)`
abbrev pub push_at {ℓ} : {A : Type ℓ} → String → A → Map String (List A) → Map String (List A)
push_at key x m = insert key (Option.get_or (lookup key m) [] ++ x ∷ []) m

abbrev pub add_in : SiEdge → SiTxnLocks → SiTxnLocks
add_in e l = record l { in_edges = add e l.in_edges }

abbrev pub add_out : SiEdge → SiTxnLocks → SiTxnLocks
add_out e l = record l { out_edges = add e l.out_edges }

abbrev pub add_all_in : List SiEdge → SiTxnLocks → SiTxnLocks
add_all_in [] l = l
add_all_in (e ∷ es) l = add_all_in es (add_in e l)

abbrev pub edge_of_writer : String → WriterView → SiEdge
edge_of_writer key w = record {
  peer = w.txn_id;
  key = key;
  peer_action = wrote;
  version = w.committed_version;
}

-- the first critical section of `register_read`
unfoldable pub new_in_edges : String → ℕ → SiLockManager → List SiEdge
new_in_edges key observed m = map (edge_of_writer key) (
    retain (λ w. w.is_recently_committed && ltb observed w.committed_version)
      (Option.get_or (lookup key m.writers_of) []))

-- its second one
unfoldable pub record_read :
    String → String → ℕ → String → List SiEdge → SiLockManager → SiLockManager
record_read txn_id key observed etag edges m = record m {
  by_txn =
      modify txn_id
        (λ l. add_all_in edges (record l {
          reads =
              l.reads
              ++ record { key = key; version_observed = observed; etag_observed = etag } ∷ [];
        }))
        m.by_txn;
  readers_of = push_at key txn_id m.readers_of;
}

unfoldable pub register_read : String → String → ℕ → String → SiLockManager → SiLockManager
register_read txn_id key observed etag m =
    record_read txn_id key observed etag (new_in_edges key observed m) m

abbrev pub readers : String → SiLockManager → List String
readers key m = Option.get_or (lookup key m.readers_of) []

abbrev pub out_edge : String → ℕ → String → SiEdge
out_edge key version reader = record {
  peer = reader;
  key = key;
  peer_action = read;
  version = version;
}

abbrev pub in_edge : String → String → ℕ → SiEdge
in_edge txn_id key version = record {
  peer = txn_id;
  key = key;
  peer_action = wrote;
  version = version;
}

-- the loop over the readers on the writer's own entry
unfoldable pub add_readers : String → String → ℕ → List String → SiTxnLocks → SiTxnLocks
add_readers txn_id key version [] l = l
add_readers txn_id key version (r ∷ rs) l =
    add_readers txn_id key version rs
      (if r == txn_id then l else add_out (out_edge key version r) l)

-- the loop that mirrors the edges on the readers
unfoldable pub mirror :
    String → String → ℕ → List String → Map String SiTxnLocks → Map String SiTxnLocks
mirror txn_id key version [] by_txn = by_txn
mirror txn_id key version (r ∷ rs) by_txn =
    mirror txn_id key version rs
      (if r == txn_id then by_txn else modify r (add_in (in_edge txn_id key version)) by_txn)

unfoldable pub register_write : String → String → ℕ → SiLockManager → SiLockManager
register_write txn_id key version m =
    let with_own =
      modify txn_id
        (λ l.
          add_readers txn_id key version (readers key m) (record l {
            writes = l.writes ++ record { key = key; version_to_write = version } ∷ [];
          }))
        m.by_txn in
    record m {
      by_txn = mirror txn_id key version (readers key m) with_own;
      writers_of =
          push_at key
            (record { txn_id = txn_id; committed_version = 0; is_recently_committed = false })
            m.writers_of;
    }

unfoldable pub find_dangerous_structure : String → SiLockManager → Option String
find_dangerous_structure txn_id m = elim (lookup txn_id m.by_txn) [
  | none ↦ none
  | some me ↦
      let in_peers = in_peers_of txn_id me.in_edges in
      if length in_peers == 0 then none else first_common in_peers me.out_edges.edges
]
