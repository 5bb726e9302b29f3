-- ===== src/Locks/Cahill.antt =====
-- xtable-tx/src/cahill.rs: the test for a dangerous structure on two sets of edges. The set of the
-- peers of the in-edges is the list of them: only membership is asked.
use xtable.Prelude.{
  String, Bool, not, Option, none, some, List, [], ◌∷◌, map, retain, any, length, ◌==◌, nat_key,
  string_key, if◌then◌else◌,
}
use xtable.Locks.{SiEdge, SiEdgeSet}

-- `contains` on the set of peers
abbrev pub contains : List String → String → Bool
contains peers p = any (λ q. q == p) peers

unfoldable pub in_peers_of : String → SiEdgeSet → List String
in_peers_of self_txn in_edges =
    map (λ e. e.peer) (retain (λ e. not (e.peer == self_txn)) in_edges.edges)

-- the loop over the out-edges
unfoldable pub first_common : List String → List SiEdge → Option String
first_common peers [] = none
first_common peers (e ∷ es) = if contains peers e.peer then some e.peer else first_common peers es

unfoldable pub detect_dangerous_structure : String → SiEdgeSet → SiEdgeSet → Option String
detect_dangerous_structure self_txn in_edges out_edges =
    let in_peers = in_peers_of self_txn in_edges in
    if length in_peers == 0 then none else first_common in_peers out_edges.edges
