-- ===== src/Locks/Manager/Edges.antt =====
-- The peers of a set of edges, and what each update of the locks does to them.
use xtable.Prelude.{
  ◌≡◌, refl, String, Bool, true, false, not, ◌&&◌, ◌||◌, none, some, List, [], ◌∷◌, ◌++◌, any,
  retain, map, ◌==◌, ==→eq, eq→==, ==_self, nat_key, string_key, arith, Map, lookup,
}
use mathlib.Core.Option
use xtable.Locks.{SiEdge, SiEdgeSet}
use xtable.Locks.Cahill.{contains, in_peers_of, first_common}
use xtable.Locks.Ends.{map_values}

-- some edge of the list is with the peer `p`
abbrev pub has_peer : String → List SiEdge → Bool
has_peer p es = any (λ e. e.peer == p) es

pub has_peer-append :
    (p : String) (es : List SiEdge) (e : SiEdge)
    → has_peer p (es ++ e ∷ []) ≡ (has_peer p es || e.peer == p)
has_peer-append p [] e = ground arith
has_peer-append p (x ∷ es) e = ground (arith, has_peer-append p es e)

pub contains-in_peers_of :
    (t p : String) (es : SiEdgeSet)
    → contains (in_peers_of t es) p ≡ (has_peer p es.edges && not (p == t))
unfolding in_peers_of
contains-in_peers_of t p es = go es.edges
  where
    go :
        (xs : List SiEdge)
        → contains (map (λ e. e.peer) (retain (λ e. not (e.peer == t)) xs)) p
          ≡ (has_peer p xs && not (p == t))
    go [] = ground arith
    go (x ∷ xs) = ground (arith, go xs, ==→eq x.peer p, ==→eq x.peer t, ==→eq p t, eq→== p t)

pub first_common-some :
    (peers : List String) (es : List SiEdge) (p : String)
    → first_common peers es ≡ some p
    → (contains peers p ≡ true) × (has_peer p es ≡ true)
unfolding first_common
first_common-some peers [] p h = ground arith
first_common-some peers (e ∷ es) p h = ground (arith, first_common-some peers es p, ==_self p)

pub first_common-none :
    (peers : List String) (es : List SiEdge) (p : String)
    → first_common peers es ≡ none
    → has_peer p es ≡ true
    → contains peers p ≡ false
unfolding first_common
first_common-none peers [] p h q = ground arith
first_common-none peers (e ∷ es) p h q =
    ground (arith, first_common-none peers es p, ==→eq e.peer p)

module _ {A : Type 0} where
  pub lookup-map_values :
      (f : A → A) (m : Map String A) (p : String)
      → lookup p (map_values f m) ≡ Option.map f (lookup p m)
  unfolding lookup
  lookup-map_values f [] p = refl
  lookup-map_values f ((j, v) ∷ m) p = ground (arith, lookup-map_values f m p)

pub has_peer-retain :
    (t p : String) (es : List SiEdge)
    → has_peer p (retain (λ e. not (e.peer == t)) es) ≡ (has_peer p es && not (p == t))
has_peer-retain t p [] = ground arith
has_peer-retain t p (x ∷ es) =
    ground (arith, has_peer-retain t p es, ==→eq x.peer p, ==→eq x.peer t, ==→eq p t, eq→== p t)
