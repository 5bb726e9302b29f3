-- ===== src/Locks/Manager/Detect.antt =====
-- `find_dangerous_structure` finds a peer exactly when one has edges both ways, and agrees with
-- the function of cahill.rs.
use xtable.Prelude.{
  ◌≡◌, refl, sym, ◌∙◌, ◌≢◌, ◌↔◌, String, true, false, none, some, List, [], ◌∷◌, length, ◌==◌,
  ==→eq, ==→ne, nat_key, string_key, arith, lookup, Option-cases, inl, inr,
}
use xtable.Locks.{SiEdgeSet, SiTxnLocks}
use xtable.Locks.Cahill.{contains, in_peers_of, detect_dangerous_structure}
use xtable.Locks.Manager.{SiLockManager, find_dangerous_structure}
use xtable.Locks.Manager.Edges.{
  has_peer, contains-in_peers_of, first_common-some, first_common-none,
}

-- `p` is another transaction with which `t` has an in-edge and an out-edge
abbrev pub IsDangerous : String → String → SiLockManager → Type 0
IsDangerous t p m =
    (l : SiTxnLocks) × (lookup t m.by_txn ≡ some l)
    × (p ≢ t)
    × (has_peer p l.in_edges.edges ≡ true)
    × (has_peer p l.out_edges.edges ≡ true)

detect-some :
    (t p : String) (ins outs : SiEdgeSet)
    → detect_dangerous_structure t ins outs ≡ some p
    → (p ≢ t) × (has_peer p ins.edges ≡ true) × (has_peer p outs.edges ≡ true)
unfolding detect_dangerous_structure
detect-some t p ins outs h =
    let peers = in_peers_of t ins in
    let (c, o) = first_common-some peers outs.edges p (ground arith) in
    (
      ==→ne p t (ground (arith, contains-in_peers_of t p ins)),
      ground (arith, contains-in_peers_of t p ins),
      o,
    )

nil-contains :
    (peers : List String) (p : String) → (length peers == 0) ≡ true → contains peers p ≡ false
nil-contains [] p h = refl
nil-contains (q ∷ peers) p h = ground arith

detect-none :
    (t p : String) (ins outs : SiEdgeSet)
    → detect_dangerous_structure t ins outs ≡ none
    → has_peer p ins.edges ≡ true
    → has_peer p outs.edges ≡ true
    → p ≡ t
unfolding detect_dangerous_structure
detect-none t p ins outs h i o =
    let peers = in_peers_of t ins in
    ==→eq p t (
      ground (
        arith,
        first_common-none peers outs.edges p,
        contains-in_peers_of t p ins,
        nil-contains peers p,
      ))

-- For a tracked transaction the manager's test and the function of cahill.rs give the same answer
-- on its two sets of edges.
pub find-detect :
    (t : String) (m : SiLockManager) (l : SiTxnLocks)
    → lookup t m.by_txn ≡ some l
    → find_dangerous_structure t m ≡ detect_dangerous_structure t l.in_edges l.out_edges
unfolding find_dangerous_structure detect_dangerous_structure
find-detect t m l h = rw (h, find_dangerous_structure) refl

find-untracked :
    (t : String) (m : SiLockManager)
    → lookup t m.by_txn ≡ none
    → find_dangerous_structure t m ≡ none
unfolding find_dangerous_structure
find-untracked t m h = rw (h, find_dangerous_structure) refl

-- A peer that the manager reports is another transaction to which the reporting one has both an
-- in-edge and an out-edge.
pub find_dangerous_structure-some :
    (t p : String) (m : SiLockManager) → find_dangerous_structure t m ≡ some p → IsDangerous t p m
find_dangerous_structure-some t p m h = elim (Option-cases (lookup t m.by_txn)) [
  | inl none_there ↦ absurd (ground (arith, find-untracked t m))
  | inr (l, there) ↦
      let (other, i, o) =
        detect-some t p l.in_edges l.out_edges (sym (find-detect t m l there) ∙ h) in
      (l, there, other, i, o)
]

-- The manager reports a peer for a transaction exactly when there is another transaction to which
-- it has both an in-edge and an out-edge.
pub find_dangerous_structure_iff :
    (t : String) (m : SiLockManager)
    → ((p : String) × (find_dangerous_structure t m ≡ some p)) ↔ ((p : String) × IsDangerous t p m)
find_dangerous_structure_iff t m = (to, from)
  where
    to :
        ((p : String) × (find_dangerous_structure t m ≡ some p))
        → ((p : String) × IsDangerous t p m)
    to (p, h) = (p, find_dangerous_structure-some t p m h)

    from :
        ((p : String) × IsDangerous t p m)
        → ((p : String) × (find_dangerous_structure t m ≡ some p))
    from (p, (l, there, other, i, o)) = elim (Option-cases (find_dangerous_structure t m)) [
      | inl nothing ↦ absurd (
          other
            (detect-none t p l.in_edges l.out_edges (sym (find-detect t m l there) ∙ nothing) i o))
      | inr (q, found) ↦ (q, found)
    ]
