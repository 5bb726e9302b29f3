-- ===== src/Locks/Manager/Growth.antt =====
-- The loops of `register_write` only add edges.
use xtable.Prelude.{
  ℕ, ◌≡◌, refl, ◌∙◌, ◌≢◌, String, true, false, some, List, [], ◌∷◌, any, ◌==◌, ==→eq, ==_self,
  nat_key, string_key, arith, Map, lookup, modify, lookup-modify, inl, inr, Bool-cases,
}
use xtable.Locks.{SiEdge, SiTxnLocks, add}
use xtable.Locks.Manager.{out_edge, in_edge, add_in, add_out, add_readers, mirror}
use xtable.Locks.Manager.Edges.{has_peer, has_peer-append}

-- every peer of `l` is a peer of `l'`
abbrev pub Grows : SiTxnLocks → SiTxnLocks → Type 0
Grows l l' =
    ((p : String) → has_peer p l.in_edges.edges ≡ true → has_peer p l'.in_edges.edges ≡ true)
    × ((p : String) → has_peer p l.out_edges.edges ≡ true → has_peer p l'.out_edges.edges ≡ true)

pub Grows-trans : (a b c : SiTxnLocks) → Grows a b → Grows b c → Grows a c
Grows-trans a b c f g = ((λ p h. g.0 p (f.0 p h)), (λ p h. g.1 p (f.1 p h)))

Grows-add_in : (e : SiEdge) (l : SiTxnLocks) → Grows l (add_in e l)
unfolding add
Grows-add_in e l = ((λ p h. ground (arith, has_peer-append p l.in_edges.edges e)), (λ p h. h))

Grows-add_out : (e : SiEdge) (l : SiTxnLocks) → Grows l (add_out e l)
unfolding add
Grows-add_out e l = ((λ p h. h), (λ p h. ground (arith, has_peer-append p l.out_edges.edges e)))

-- the entry of `u` is there after a change of the map, and has grown
abbrev pub Grown : String → SiTxnLocks → Map String SiTxnLocks → Type 0
Grown u l b = (l' : SiTxnLocks) × (lookup u b ≡ some l') × Grows l l'

Grown-modify :
    (r u : String) (f : SiTxnLocks → SiTxnLocks) (b : Map String SiTxnLocks) (l : SiTxnLocks)
    → ((k : SiTxnLocks) → Grows k (f k))
    → lookup u b ≡ some l
    → Grown u l (modify r f b)
Grown-modify r u f b l grows h = elim (Bool-cases (r == u)) [
  | inl same ↦ (f l, lookup-modify r f b u ∙ rw (same, h) refl, grows l)
  | inr other ↦ (l, lookup-modify r f b u ∙ rw (other, h) refl, ((λ p q. q), (λ p q. q)))
]

pub Grown-mirror :
    (t key : String) (v : ℕ) (rs : List String) (b : Map String SiTxnLocks) (u : String)
    (l : SiTxnLocks)
    → lookup u b ≡ some l
    → Grown u l (mirror t key v rs b)
unfolding mirror
Grown-mirror t key v [] b u l h = (l, h, ((λ p q. q), (λ p q. q)))
Grown-mirror t key v (r ∷ rs) b u l h = elim (Bool-cases (r == t)) [
  | inl own ↦ rw own (Grown-mirror t key v rs b u l h)
  | inr other ↦
      let (l₁, there, g) =
        Grown-modify r u (add_in (in_edge t key v)) b l (Grows-add_in (in_edge t key v)) h in
      let (l₂, there₂, g₂) =
        Grown-mirror t key v rs (modify r (add_in (in_edge t key v)) b) u l₁ there in
      rw other (l₂, there₂, Grows-trans l l₁ l₂ g g₂)
]

-- each tracked reader but the writer itself gets the in-edge
pub mirror-in :
    (t key : String) (v : ℕ) (rs : List String) (b : Map String SiTxnLocks) (u : String)
    (l : SiTxnLocks)
    → lookup u b ≡ some l
    → any (λ r. r == u) rs ≡ true
    → u ≢ t
    → (l' : SiTxnLocks) × (lookup u (mirror t key v rs b) ≡ some l')
      × (has_peer t l'.in_edges.edges ≡ true)
unfolding mirror add
mirror-in t key v [] b u l h r d = ground arith
mirror-in t key v (r ∷ rs) b u l h m d = elim (Bool-cases (r == u)) [
  | inl same ↦
      let e = in_edge t key v in
      let b₁ = modify r (add_in e) b in
      let there : lookup u b₁ ≡ some (add_in e l) =
        lookup-modify r (add_in e) b u ∙ rw (same, h) refl in
      let (l', found, g) = Grown-mirror t key v rs b₁ u (add_in e l) there in
      rw (foreign same) (l', found, g.0 t (added e l))
  | inr other ↦
      let rest : any (λ q. q == u) rs ≡ true = ground arith in
      elim (Bool-cases (r == t)) [
        | inl own ↦ rw own (mirror-in t key v rs b u l h rest d)
        | inr far ↦ rw far (
            mirror-in t key v rs (modify r (add_in (in_edge t key v)) b) u l
              (lookup-modify r (add_in (in_edge t key v)) b u ∙ rw (other, h) refl) rest d)
      ]
]
  where
    foreign : (r == u) ≡ true → (r == t) ≡ false
    foreign same = ground (arith, ==→eq r u, ==→eq r t)

    added : (e : SiEdge) (k : SiTxnLocks) → has_peer e.peer (add_in e k).in_edges.edges ≡ true
    added e k = ground (arith, has_peer-append e.peer k.in_edges.edges e, ==_self e.peer)

pub Grows-add_readers :
    (t key : String) (v : ℕ) (rs : List String) (l : SiTxnLocks)
    → Grows l (add_readers t key v rs l)
unfolding add_readers
Grows-add_readers t key v [] l = ((λ p q. q), (λ p q. q))
Grows-add_readers t key v (r ∷ rs) l = elim (Bool-cases (r == t)) [
  | inl own ↦ rw (own, add_readers) (Grows-add_readers t key v rs l)
  | inr other ↦
      let k = add_out (out_edge key v r) l in
      rw (other, add_readers)
        (Grows-trans l k (add_readers t key v rs k) (Grows-add_out (out_edge key v r) l)
          (Grows-add_readers t key v rs k))
]

-- the writer gets an out-edge to each reader but itself
pub add_readers-out :
    (t key : String) (v : ℕ) (rs : List String) (l : SiTxnLocks) (u : String)
    → any (λ r. r == u) rs ≡ true
    → u ≢ t
    → has_peer u (add_readers t key v rs l).out_edges.edges ≡ true
unfolding add_readers add
add_readers-out t key v [] l u m d = ground arith
add_readers-out t key v (r ∷ rs) l u m d = elim (Bool-cases (r == u)) [
  | inl same ↦
      let k = add_out (out_edge key v r) l in
      rw (foreign same, add_readers) ((Grows-add_readers t key v rs k).1 u (added same))
  | inr other ↦
      let rest : any (λ q. q == u) rs ≡ true = ground arith in
      elim (Bool-cases (r == t)) [
        | inl own ↦ rw (own, add_readers) (add_readers-out t key v rs l u rest d)
        | inr far ↦
            rw (far, add_readers)
              (add_readers-out t key v rs (add_out (out_edge key v r) l) u rest d)
      ]
]
  where
    foreign : (r == u) ≡ true → (r == t) ≡ false
    foreign same = ground (arith, ==→eq r u, ==→eq r t)

    added : (r == u) ≡ true → has_peer u (add_out (out_edge key v r) l).out_edges.edges ≡ true
    added same = ground (arith, has_peer-append u l.out_edges.edges (out_edge key v r))
