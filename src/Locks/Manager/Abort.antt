-- ===== src/Locks/Manager/Abort.antt =====
-- An aborted transaction leaves no trace in the manager.
use xtable.Prelude.{
  ◌≡◌, refl, sym, ◌∙◌, ap, ◌≢◌, String, Bool, true, false, not, Option, none, some, List, [], ◌∷◌,
  any, retain, ◌==◌, ==_self, nat_key, string_key, if◌then◌else◌, arith, lookup, remove,
  lookup-remove,
}
use mathlib.Core.Option
use xtable.Locks.{SiTxnLocks}
use xtable.Locks.Manager.{WriterView, SiLockManager, readers, find_dangerous_structure}
use xtable.Locks.Ends.{mark_aborted, without}
use xtable.Locks.Manager.Edges.{has_peer, has_peer-retain, lookup-map_values}
use xtable.Locks.Manager.Detect.{find_dangerous_structure-some}

-- no entry, no edge and no index mentions the transaction
abbrev pub IsForgotten : String → SiLockManager → Type 0
IsForgotten t m =
    (lookup t m.by_txn ≡ none)
    × ((u : String) (l : SiTxnLocks)
        → lookup u m.by_txn ≡ some l
        → (has_peer t l.in_edges.edges ≡ false) × (has_peer t l.out_edges.edges ≡ false))
    × ((key : String) → any (λ r. r == t) (readers key m) ≡ false)
    × ((key : String)
        → any (λ w. w.txn_id == t) (Option.get_or (lookup key m.writers_of) []) ≡ false)

no_reader :
    (t : String) (rs : List String) → any (λ r. r == t) (retain (λ r. not (r == t)) rs) ≡ false
no_reader t [] = refl
no_reader t (r ∷ rs) = ground (arith, no_reader t rs)

no_writer :
    (t : String) (ws : List WriterView)
    → any (λ w. w.txn_id == t) (retain (λ w. not (w.txn_id == t)) ws) ≡ false
no_writer t [] = refl
no_writer t (w ∷ ws) = ground (arith, no_writer t ws)

pub lookup-mark_aborted :
    (t u : String) (m : SiLockManager)
    → lookup u (mark_aborted t m).by_txn
      ≡ (if t == u then none else Option.map (without t) (lookup u m.by_txn))
unfolding mark_aborted
lookup-mark_aborted t u m =
    lookup-map_values (without t) (remove t m.by_txn) u
    ∙ ap (Option.map (without t)) (lookup-remove t m.by_txn u)
    ∙ push (t == u)
  where
    push :
        (b : Bool)
        → Option.map (without t) (if b then none else lookup u m.by_txn)
          ≡ (if b then none else Option.map (without t) (lookup u m.by_txn))
    push true = refl
    push false = refl

pub readers-mark_aborted :
    (t key : String) (m : SiLockManager)
    → readers key (mark_aborted t m) ≡ retain (λ r. not (r == t)) (readers key m)
unfolding mark_aborted
readers-mark_aborted t key m =
    ap (λ o. Option.get_or o []) (lookup-map_values (retain (λ r. not (r == t))) m.readers_of key)
    ∙ push (lookup key m.readers_of)
  where
    push :
        (o : Option (List String))
        → Option.get_or (Option.map (retain (λ r. not (r == t))) o) []
          ≡ retain (λ r. not (r == t)) (Option.get_or o [])
    push none = refl
    push (some rs) = refl

writers-mark_aborted :
    (t key : String) (m : SiLockManager)
    → Option.get_or (lookup key (mark_aborted t m).writers_of) []
      ≡ retain (λ w. not (w.txn_id == t)) (Option.get_or (lookup key m.writers_of) [])
unfolding mark_aborted
writers-mark_aborted t key m =
    ap (λ o. Option.get_or o [])
      (lookup-map_values (retain (λ w. not (w.txn_id == t))) m.writers_of key)
    ∙ push (lookup key m.writers_of)
  where
    push :
        (o : Option (List WriterView))
        → Option.get_or (Option.map (retain (λ w. not (w.txn_id == t))) o) []
          ≡ retain (λ w. not (w.txn_id == t)) (Option.get_or o [])
    push none = refl
    push (some rs) = refl

-- Aborting a transaction removes it from the manager, from the edges of all its peers and from
-- both indices.
pub mark_aborted-IsForgotten : (t : String) (m : SiLockManager) → IsForgotten t (mark_aborted t m)
mark_aborted-IsForgotten t m = (
  ground (arith, lookup-mark_aborted t t m, ==_self t),
  edges,
  (λ key. ap (any (λ r. r == t)) (readers-mark_aborted t key m) ∙ no_reader t (readers key m)),
  (λ key.
      ap (any (λ w. w.txn_id == t)) (writers-mark_aborted t key m)
      ∙ no_writer t (Option.get_or (lookup key m.writers_of) [])),
)
  where
    gone :
        (b : Bool) (o : Option SiTxnLocks) (l : SiTxnLocks)
        → (if b then none else Option.map (without t) o) ≡ some l
        → (has_peer t l.in_edges.edges ≡ false) × (has_peer t l.out_edges.edges ≡ false)
    gone true o l h = ground arith
    gone false none l h = ground arith
    gone false (some k) l h = ground (
      arith,
      has_peer-retain t t k.in_edges.edges,
      has_peer-retain t t k.out_edges.edges,
      ==_self t,
    )

    edges :
        (u : String) (l : SiTxnLocks)
        → lookup u (mark_aborted t m).by_txn ≡ some l
        → (has_peer t l.in_edges.edges ≡ false) × (has_peer t l.out_edges.edges ≡ false)
    edges u l h = gone (t == u) (lookup u m.by_txn) l (sym (lookup-mark_aborted t u m) ∙ h)

-- No transaction is ever refused because of a peer that has aborted: after the abort the peer that
-- the cycle test reports, if any, is another one.
pub find-mark_aborted :
    (t u : String) (m : SiLockManager) → find_dangerous_structure u (mark_aborted t m) ≢ some t
find-mark_aborted t u m h =
    let (l, there, other, i, o) = find_dangerous_structure-some u t (mark_aborted t m) h in
    let (absent, edges, rs, ws) = mark_aborted-IsForgotten t m in ground (arith, edges u l there)
