-- ===== src/Locks.antt =====
-- xtable-storage/src/locks.rs: the read and write locks of a transaction and its edges, the
-- rw-antidependencies to its peers; the in-memory manager over them and the cycle test of
-- xtable-tx are the children.
pub mod Cahill
pub mod Manager
pub mod Ends
mod Tests
use xtable.Prelude.{
  ℕ, String, Bool, false, true, List, [], ◌∷◌, ◌++◌, ◌&&◌, any, length, ◌==◌, nat_key, string_key,
}

pub record SiReadLock : Type 0 where
  pub key : String
  pub version_observed : ℕ
  pub etag_observed : String

pub record SiWriteLock : Type 0 where
  pub key : String
  pub version_to_write : ℕ

pub data PeerAction : Type 0 where
  read wrote : PeerAction

abbrev pub is_read : PeerAction → Bool
is_read read = true
is_read wrote = false

abbrev pub is_wrote : PeerAction → Bool
is_wrote read = false
is_wrote wrote = true

pub record SiEdge : Type 0 where
  pub peer : String
  pub key : String
  pub peer_action : PeerAction
  pub version : ℕ

pub record SiEdgeSet : Type 0 where
  pub edges : List SiEdge

unfoldable pub contains_in_edge_from : SiEdgeSet → String → Bool
contains_in_edge_from es candidate =
    any (λ e. e.peer == candidate && is_wrote e.peer_action) es.edges

unfoldable pub add : SiEdge → SiEdgeSet → SiEdgeSet
add e es = record { edges = es.edges ++ e ∷ [] }

abbrev pub no_edges : SiEdgeSet
no_edges = record { edges = [] }

pub data SiTxnPhase : Type 0 where
  active committed aborted : SiTxnPhase

pub record SiTxnLocks : Type 0 where
  pub reads : List SiReadLock
  pub writes : List SiWriteLock
  pub in_edges : SiEdgeSet
  pub out_edges : SiEdgeSet
  pub snapshot_version : ℕ
  pub status : SiTxnPhase

pub record RecentlyCommittedTxn : Type 0 where
  pub txn_id : String
  pub keys : List String
  pub commit_version : ℕ
  pub committed_at_ms : ℕ
