-- ===== src/Coordinator/Checks.antt =====
-- What the check of the snapshots has seen when it lets a commit go on.
use xtable.Prelude.{
  ℕ, ◌≡◌, refl, sym, ◌∙◌, ap, subst, String, Bool, true, false, not, ◌&&◌, List, [], ◌∷◌, Elem, ◌⊎◌,
  inl, inr, ltb, string_key, Bool-cases, if◌then◌else◌,
}
use xtable.Records.{TxnStateRecord}
use xtable.Chain.{VersionChain, latest_commit_version}
use xtable.Store.Chains.{read_chain, is_empty, goes_after}
use xtable.World.{World, Done, return, redb_read, each}
use xtable.World.Inversion.{Returns, bind-Returns, raise-Returns, redb_read-Returns}
use xtable.Coordinator.Keys.{sort_keys, insert_key}
use xtable.Coordinator.Commit.{check_snapshot, judge, refuse_snapshot}
use xtable.Coordinator.Frame.Commit.{Keeps-check_snapshot}
use xtable.Coordinator.Isolation.{chains_footprint}
use xtable.Coordinator.Atomic.{read_chain-same}
use xtable.Coordinator.Outcome.{Keeps-Returns}

-- the chain of the key has a version that the snapshot does not see
abbrev pub is_stale : ℕ → VersionChain → Bool
is_stale snapshot c = not (is_empty c) && ltb snapshot (latest_commit_version c)

check_snapshot-Returns :
    (t : String) (txn : TxnStateRecord) (key : String) (w w' : World) (u : Done)
    → Returns (check_snapshot t txn key) w u w'
    → is_stale txn.snapshot_version (read_chain key w.store) ≡ false
unfolding check_snapshot
check_snapshot-Returns t txn key w w' u h =
    let (chain, mid, first, rest) =
      bind-Returns (redb_read (read_chain key)) (judge t txn key) w w' u h in
    let (there, _) = redb_read-Returns (read_chain key) w mid chain first in
    ap (is_stale txn.snapshot_version) there
    ∙ go chain mid (is_stale txn.snapshot_version chain) refl rest
  where
    refused :
        (chain : VersionChain) (mid : World)
        → Returns (refuse_snapshot t txn key (latest_commit_version chain)) mid u w'
        → ⊥
    refused chain mid r =
        let (_, w₁, _, r₁) = bind-Returns _ _ mid w' u r in
        let (_, w₂, _, r₂) = bind-Returns _ _ w₁ w' u r₁ in
        let (_, w₃, _, r₃) = bind-Returns _ _ w₂ w' u r₂ in raise-Returns _ u w₃ w' r₃

    go :
        (chain : VersionChain) (mid : World) (b : Bool)
        → is_stale txn.snapshot_version chain ≡ b
        → Returns (judge t txn key chain) mid u w'
        → b ≡ false
    go chain mid false e r = refl
    go chain mid true e r = absurd (
        refused chain mid (
          subst
            (λ (b : Bool).
              Returns
                (if b then refuse_snapshot t txn key (latest_commit_version chain) else return tt)
                mid u w')
            e r))

pub each-Returns :
    (t : String) (txn : TxnStateRecord) (ks : List String) (key : String) (w w' : World) (u : Done)
    → Elem key ks
    → Returns (each (check_snapshot t txn) ks) w u w'
    → is_stale txn.snapshot_version (read_chain key w.store) ≡ false
unfolding each
each-Returns t txn [] key w w' u m h = elim m [ ]
each-Returns t txn (k ∷ ks) key w w' u m h =
    let (v, mid, first, rest) = bind-Returns (check_snapshot t txn k) _ w w' u h in
    go v mid first (λ later. each-Returns t txn ks key mid w' u later rest) m
  where
    go :
        (v : Done) (mid : World)
        → Returns (check_snapshot t txn k) w v mid
        → (Elem key ks → is_stale txn.snapshot_version (read_chain key mid.store) ≡ false)
        → Elem key (k ∷ ks)
        → is_stale txn.snapshot_version (read_chain key w.store) ≡ false
    go v mid first rest (inl e) =
        subst (λ j. is_stale txn.snapshot_version (read_chain j w.store) ≡ false) (sym e)
          (check_snapshot-Returns t txn k w mid v first)
    go v mid first rest (inr later) =
        ap (is_stale txn.snapshot_version) (
          read_chain-same key w.store mid.store
            (Keeps-Returns _ w mid v (Keeps-check_snapshot (chains_footprint t) txn k) first))
        ∙ rest later

Elem-insert_key :
    (key k : String) (ks : List String) → Elem key (k ∷ ks) → Elem key (insert_key k ks)
Elem-insert_key key k [] m = m
Elem-insert_key key k (j ∷ js) m =
    let rest : Elem key (k ∷ js) → Elem key (insert_key k js) = Elem-insert_key key k js in
    elim (Bool-cases (goes_after (string_key.cmp k j))) [
      | inr here ↦ rw here m
      | inl later ↦ rw later (go rest m)
    ]
  where
    go :
        (Elem key (k ∷ js) → Elem key (insert_key k js))
        → Elem key (k ∷ j ∷ js)
        → (key ≡ j) ⊎ Elem key (insert_key k js)
    go rest (inl e) = inr (rest (inl e))
    go rest (inr (inl e)) = inl e
    go rest (inr (inr l)) = inr (rest (inr l))

pub Elem-sort_keys : (key : String) (ks : List String) → Elem key ks → Elem key (sort_keys ks)
Elem-sort_keys key [] m = m
Elem-sort_keys key (k ∷ ks) (inl e) = Elem-insert_key key k (sort_keys ks) (inl e)
Elem-sort_keys key (k ∷ ks) (inr m) =
    Elem-insert_key key k (sort_keys ks) (inr (Elem-sort_keys key ks m))
