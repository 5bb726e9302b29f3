-- ===== src/Store/Chains/Append.antt =====
-- One append: what it accepts, and what it leaves of every chain.
use xtable.Prelude.{
  ◌<◌, ◌≡◌, ◌⊎◌, inl, inr, refl, ap, String, true, List, [], ◌∷◌, length, lookup-insert, string_key,
  nat_key, if◌then◌else◌, ◌==◌, arith, Bool-cases,
}
use xtable.Errors.{ok}
use xtable.Chain.{VersionEntry, VersionChain, latest_commit_version, append}
use xtable.Chain.Order.{IsAscending, append-IsAscending}
use xtable.Store.Defs.{LocalStore}
use xtable.Store.Chains.{read_chain, is_empty, put_chain, ChainAppend, append_one}

-- every chain of the store is strictly ascending
abbrev pub IsOrdered : LocalStore → Type 0
IsOrdered s = (key : String) → IsAscending (read_chain key s).entries

pub read_chain-put :
    (key : String) (c : VersionChain) (s : LocalStore) (j : String)
    → read_chain j (put_chain key c s) ≡ (if key == j then c else read_chain j s)
unfolding read_chain
read_chain-put key c s j = ground (arith, lookup-insert key c s.version_chains j)

-- an entry that a chain can take: it is the first, or newer than the newest
abbrev pub IsNewer : VersionEntry → VersionChain → Type 0
IsNewer e c = (c.entries ≡ []) ⊎ (latest_commit_version c < e.commit_version)

pub is_empty→nil : (c : VersionChain) → is_empty c ≡ true → c.entries ≡ []
is_empty→nil c h = go c.entries h
  where
    go : (es : List VersionEntry) → (length es == 0) ≡ true → es ≡ []
    go [] p = refl
    go (e ∷ es) p = absurd (ground arith)

pub nil→is_empty : (c : VersionChain) → c.entries ≡ [] → is_empty c ≡ true
nil→is_empty c h = ap (λ (es : List VersionEntry). length es == 0) h

pub put-IsOrdered :
    (key : String) (e : VersionEntry) (s : LocalStore)
    → IsOrdered s
    → IsNewer e (read_chain key s)
    → IsOrdered (put_chain key (append e (read_chain key s)) s)
put-IsOrdered key e s o n j = elim (Bool-cases (key == j)) [
  | inl same ↦
      rw (read_chain-put key (append e (read_chain key s)) s j, same)
        (append-IsAscending (read_chain key s) e (o key) n)
  | inr other ↦ rw (read_chain-put key (append e (read_chain key s)) s j, other) (o j)
]

-- What one row of a batch does: it fails, or it changes nothing, or it appends a newer entry.
pub append_one-ok :
    (a : ChainAppend) (s s' : LocalStore)
    → append_one a s ≡ ok s'
    → (s' ≡ s)
      ⊎ (IsNewer a.entry (read_chain a.key s)
          × (s' ≡ put_chain a.key (append a.entry (read_chain a.key s)) s))
unfolding append_one
append_one-ok a s s' h = ground (arith, is_empty→nil (read_chain a.key s))
