-- ===== src/Locks/Manager/Skew.antt =====
-- Two transactions that each read what the other one writes are both told of the other.
use xtable.Prelude.{
  ℕ, ◌≡◌, refl, sym, ◌∙◌, ◌≢◌, String, true, false, some, [], ◌∷◌, ◌++◌, any, ◌==◌, ==_self, ne→==,
  nat_key, string_key, subst, arith, lookup, modify, lookup-modify,
}
use xtable.Locks.{SiTxnLocks}
use xtable.Locks.Manager.{
  SiLockManager, readers, add_readers, register_write, find_dangerous_structure,
}
use xtable.Locks.Manager.Edges.{has_peer}
use xtable.Locks.Manager.Detect.{find_dangerous_structure_iff}
use xtable.Locks.Manager.Growth.{
  Grown-mirror, Grows, Grows-add_readers, Grows-trans, add_readers-out, mirror-in,
}

-- both ends of the edges that a write makes
pub register_write-edges :
    (t key : String) (v : ℕ) (m : SiLockManager) (u : String) (lt lu : SiTxnLocks)
    → lookup t m.by_txn ≡ some lt
    → lookup u m.by_txn ≡ some lu
    → any (λ r. r == u) (readers key m) ≡ true
    → u ≢ t
    → let after = (register_write t key v m).by_txn in
      ((lt' : SiTxnLocks) × (lookup t after ≡ some lt')
        × Grows lt lt'
        × (has_peer u lt'.out_edges.edges ≡ true))
      × ((lu' : SiTxnLocks) × (lookup u after ≡ some lu')
          × Grows lu lu'
          × (has_peer t lu'.in_edges.edges ≡ true))
unfolding register_write
register_write-edges t key v m u lt lu ht hu r d =
    let rs = readers key m in
    let own : SiTxnLocks → SiTxnLocks = λ l.
      add_readers t key v rs
        (record l { writes = l.writes ++ record { key = key; version_to_write = v } ∷ [] }) in
    let b = modify t own m.by_txn in
    let here : lookup t b ≡ some (own lt) =
      lookup-modify t own m.by_txn t ∙ rw (==_self t, ht) refl in
    let apart : (t == u) ≡ false = ne→== t u (λ e. d (sym e)) in
    let there : lookup u b ≡ some lu = lookup-modify t own m.by_txn u ∙ rw (apart, hu) refl in
    let base = record lt {
      writes = lt.writes ++ record { key = key; version_to_write = v } ∷ [];
    } in
    let (lt', found, g) = Grown-mirror t key v rs b t (own lt) here in
    let (lu₁, found₁, g₁) = Grown-mirror t key v rs b u lu there in
    let (lu₂, found₂, i) = mirror-in t key v rs b u lu there r d in
    let same : lu₂ ≡ lu₁ = ground (arith) in
    (
      (
        lt',
        found,
        Grows-trans lt (own lt) lt' (Grows-add_readers t key v rs base) g,
        g.1 u (add_readers-out t key v rs base u r d),
      ),
      (lu₁, found₁, g₁, subst (λ (l : SiTxnLocks). has_peer t l.in_edges.edges ≡ true) same i),
    )

pub readers-register_write :
    (t key k : String) (v : ℕ) (m : SiLockManager)
    → readers k (register_write t key v m) ≡ readers k m
unfolding register_write
readers-register_write t key k v m = refl

-- Write skew is detected: of two tracked transactions that have each read the key that the other
-- one writes, both are reported to be in danger once both writes are registered.
pub write_skew_detected :
    (t u x y : String) (v w : ℕ) (m : SiLockManager) (lt lu : SiTxnLocks)
    → t ≢ u
    → lookup t m.by_txn ≡ some lt
    → lookup u m.by_txn ≡ some lu
    → any (λ r. r == u) (readers x m) ≡ true
    → any (λ r. r == t) (readers y m) ≡ true
    → let after = register_write u y w (register_write t x v m) in
      ((p : String) × (find_dangerous_structure t after ≡ some p))
      × ((p : String) × (find_dangerous_structure u after ≡ some p))
write_skew_detected t u x y v w m lt lu d ht hu rx ry =
    let m₁ = register_write t x v m in
    let after = register_write u y w m₁ in
    let ((lt₁, ht₁, gt₁, ot₁), (lu₁, hu₁, gu₁, iu₁)) =
      register_write-edges t x v m u lt lu ht hu rx (λ e. d (sym e)) in
    let reads : any (λ r. r == t) (readers y m₁) ≡ true =
      rw (readers-register_write t x y v m) ry in
    let ((lu₂, hu₂, gu₂, ou₂), (lt₂, ht₂, gt₂, it₂)) =
      register_write-edges u y w m₁ t lu₁ lt₁ hu₁ ht₁ reads d in
    (
      (find_dangerous_structure_iff t after).1 (u, (lt₂, ht₂, (λ e. d (sym e)), it₂, gt₂.1 u ot₁)),
      (find_dangerous_structure_iff u after).1 (t, (lu₂, hu₂, d, gu₂.0 t iu₁, ou₂)),
    )
