-- ===== src/Coordinator/WriteSet.antt =====
-- The batch of rows that `commit` of xtable-tx/src/coordinator.rs makes of the staged writes.
use xtable.Prelude.{
  ℕ, ◌≡◌, refl, sym, ◌∙◌, inl, inr, String, List, [], ◌∷◌, map, All, Bool-cases, string_key,
}
use xtable.Records.{TxnStateRecord, WriteSetEntry}
use xtable.Chain.{new_entry, tombstone}
use xtable.Store.Chains.{ChainAppend}
use xtable.World.{World}
use xtable.World.Inversion.{Returns, bind-Returns, return-Returns}
use xtable.Coordinator.Keys.{sort_keys}
use xtable.Coordinator.Commit.{prepare, batch, version_entry, is_deleted, write_of, with_versions}

-- a row that the transaction `t` publishes at the version `v`
abbrev pub IsOf : String → ℕ → ChainAppend → Type 0
IsOf t v r = ((r.entry).txn_id ≡ t) × ((r.entry).commit_version ≡ v)

-- the rows of a batch are of the transaction, at the versions allocated
abbrev pub At : ℕ → List (String × ℕ) → Type 0
At v = All (λ a. a.1 ≡ v)

version_entry_lem :
    (t : String) (now : ℕ) (entries : List (String × WriteSetEntry)) (a : String × ℕ)
    → ((version_entry t now entries a).txn_id ≡ t)
      × ((version_entry t now entries a).commit_version ≡ a.1)
unfolding new_entry tombstone
version_entry_lem t now entries (k, v) = elim (Bool-cases (is_deleted (write_of k entries))) [
  | inl dead ↦ rw dead (refl, refl)
  | inr live ↦ rw live (refl, refl)
]

pub batch-IsOf :
    (t : String) (txn : TxnStateRecord) (now v : ℕ) (entries : List (String × WriteSetEntry))
    (alloc : List (String × ℕ))
    → At v alloc
    → All (IsOf t v) (batch t txn now entries alloc)
batch-IsOf t txn now v entries [] h = tt
batch-IsOf t txn now v entries (a ∷ alloc) h =
    let (who, when) = version_entry_lem t now entries a in
    ((who, when ∙ h.0), batch-IsOf t txn now v entries alloc h.1)

pub allocated-At : (ks : List String) (v : ℕ) → At v (map (λ k. (k, v)) ks)
allocated-At [] v = tt
allocated-At (k ∷ ks) v = (refl, allocated-At ks v)

pub prepare-Returns :
    (t : String) (txn : TxnStateRecord) (ks : List String) (v : ℕ) (w w' : World)
    (ready : TxnStateRecord)
    → Returns (prepare t txn ks v) w ready w'
    → ready ≡ with_versions (map (λ k. (k, v)) ks) txn
unfolding prepare
prepare-Returns t txn ks v w w' ready h =
    let (a, w₁, first, h₁) = bind-Returns _ _ w w' ready h in
    let (b, w₂, second, h₂) = bind-Returns _ _ w₁ w' ready h₁ in
    let (c, w₃, third, h₃) = bind-Returns _ _ w₂ w' ready h₂ in
    sym (return-Returns _ ready w₃ w' h₃).0

abbrev pub sorted_at : ℕ → TxnStateRecord → List (String × ℕ)
sorted_at v txn = map (λ k. (k, v)) (sort_keys txn.write_keys)

-- the rows are the batch of the whole write set: one for each written key, in order, all at one version
abbrev pub IsWriteSet :
    String → ℕ → TxnStateRecord → List (String × WriteSetEntry) → List ChainAppend → Type 0
IsWriteSet t now txn entries rows =
    (v : ℕ) × (rows ≡ batch t txn now entries (map (λ k. (k, v)) (sort_keys txn.write_keys)))
    × All (IsOf t v) rows
