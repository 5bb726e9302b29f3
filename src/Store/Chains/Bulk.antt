-- ===== src/Store/Chains/Bulk.antt =====
-- The bulk append of a commit: what a batch that succeeds has published, for every key.
use xtable.Prelude.{
  ◌≤◌, ◌<◌, ◌≡◌, ◌⊎◌, inl, inr, refl, ◌∙◌, sym, ap, subst, String, true, false, Option, none, some,
  List, [], ◌∷◌, string_key, nat_key, if◌then◌else◌, ◌==◌, ==→eq, eq→==, ==_comm, arith, Bool-cases,
  find, All,
}
use xtable.Errors.{ok, >>=-ok}
use xtable.Chain.{VersionChain, latest_commit_version, append}
use xtable.Store.Defs.{LocalStore}
use xtable.Store.Chains.{
  read_chain, put_chain, ChainAppend, append_one, append_all, insert_sorted, sort, goes_after,
  order_of, append_chain_entries_bulk,
}
use xtable.Store.Chains.Append.{IsOrdered, put-IsOrdered, append_one-ok, read_chain-put}

-- the row of a key in a batch
abbrev pub row_of : String → List ChainAppend → Option ChainAppend
row_of j = find (λ a. a.key == j)

-- what a batch makes of the chain of one key, where it has at most one row for the key
abbrev pub with_row : Option ChainAppend → VersionChain → VersionChain
with_row none c = c
with_row (some a) c = append a.entry c

-- no later row of the batch has the key
abbrev pub NoRow : String → List ChainAppend → Type 0
NoRow key = All (λ b. (b.key == key) ≡ false)

abbrev pub HasDistinctKeys : List ChainAppend → Type 0
HasDistinctKeys [] = Unit
HasDistinctKeys (a ∷ entries) = NoRow a.key entries × HasDistinctKeys entries

-- the transaction's snapshot has seen the newest version of the key, and the entry is newer
abbrev pub IsFresh : LocalStore → ChainAppend → Type 0
IsFresh s a =
    (latest_commit_version (read_chain a.key s) ≤ a.snapshot_version)
    × (latest_commit_version (read_chain a.key s) < a.entry.commit_version)

append_one_fresh :
    (a : ChainAppend) (s : LocalStore)
    → IsFresh s a
    → append_one a s ≡ ok (put_chain a.key (append a.entry (read_chain a.key s)) s)
unfolding append_one
append_one_fresh a s h = ground arith

row_of-NoRow : (j : String) (entries : List ChainAppend) → NoRow j entries → row_of j entries ≡ none
row_of-NoRow j [] h = refl
row_of-NoRow j (a ∷ entries) h = rw h.0 (row_of-NoRow j entries h.1)

-- the rows of other keys stay fresh when one key's chain is written
IsFresh-put :
    (key : String) (c : VersionChain) (s : LocalStore) (entries : List ChainAppend)
    → NoRow key entries
    → All (IsFresh s) entries
    → All (IsFresh (put_chain key c s)) entries
IsFresh-put key c s [] n h = tt
IsFresh-put key c s (b ∷ entries) n h =
    let other : (key == b.key) ≡ false = ==_comm key b.key ∙ n.0 in
    let same : read_chain b.key (put_chain key c s) ≡ read_chain b.key s =
      read_chain-put key c s b.key ∙ ap (λ t. if t then c else read_chain b.key s) other in
    (rw same h.0, IsFresh-put key c s entries n.1 h.1)

append_all_fresh :
    (entries : List ChainAppend) (s : LocalStore)
    → HasDistinctKeys entries
    → All (IsFresh s) entries
    → (s' : LocalStore) × (append_all entries s ≡ ok s')
      × ((j : String) → read_chain j s' ≡ with_row (row_of j entries) (read_chain j s))
unfolding append_all
append_all_fresh [] s d h = (s, refl, (λ j. refl))
append_all_fresh (a ∷ entries) s d h =
    let c = append a.entry (read_chain a.key s) in
    let s₁ : LocalStore = put_chain a.key c s in
    let (s', done, reads) =
      append_all_fresh entries s₁ d.1 (IsFresh-put a.key c s entries d.0 h.1) in
    (s', rw (append_one_fresh a s h.0) done, (λ j. reads j ∙ step j (Bool-cases (a.key == j))))
  where
    step :
        (j : String)
        → ((a.key == j) ≡ true) ⊎ ((a.key == j) ≡ false)
        → with_row
            (row_of j entries)
            (read_chain j (put_chain a.key (append a.entry (read_chain a.key s)) s))
          ≡ with_row (row_of j (a ∷ entries)) (read_chain j s)
    step j (inl same) =
        let e : a.key ≡ j = ==→eq a.key j same in
        let gone : row_of j entries ≡ none =
          row_of-NoRow j entries (subst (λ k. NoRow k entries) e d.0) in
        rw (read_chain-put a.key (append a.entry (read_chain a.key s)) s j, same, gone)
          (ap (λ k. append a.entry (read_chain k s)) e)
    step j (inr other) =
        rw (read_chain-put a.key (append a.entry (read_chain a.key s)) s j, other) refl

pub All-insert_sorted {κ} :
    (P : ChainAppend → Type κ) (a : ChainAppend) (bs : List ChainAppend)
    → P a
    → All P bs
    → All P (insert_sorted a bs)
unfolding insert_sorted
All-insert_sorted P a [] p h = (p, tt)
All-insert_sorted P a (b ∷ bs) p h = elim (Bool-cases (goes_after (order_of a b))) [
  | inl later ↦ rw later (h.0, All-insert_sorted P a bs p h.1)
  | inr here ↦ rw here (p, h)
]

pub All-sort {κ} :
    (P : ChainAppend → Type κ) (entries : List ChainAppend) → All P entries → All P (sort entries)
unfolding sort
All-sort P [] h = tt
All-sort P (a ∷ entries) h = All-insert_sorted P a (sort entries) h.0 (All-sort P entries h.1)

distinct-insert_sorted :
    (a : ChainAppend) (bs : List ChainAppend)
    → NoRow a.key bs
    → HasDistinctKeys bs
    → HasDistinctKeys (insert_sorted a bs)
unfolding insert_sorted
distinct-insert_sorted a [] n d = (tt, tt)
distinct-insert_sorted a (b ∷ bs) n d = elim (Bool-cases (goes_after (order_of a b))) [
  | inl later ↦ rw later (
    All-insert_sorted (λ c. (c.key == b.key) ≡ false) a bs (==_comm a.key b.key ∙ n.0) d.0,
    distinct-insert_sorted a bs n.1 d.1,
  )
  | inr here ↦ rw here (n, d)
]

row_of-insert_sorted :
    (j : String) (a : ChainAppend) (bs : List ChainAppend)
    → NoRow a.key bs
    → row_of j (insert_sorted a bs) ≡ row_of j (a ∷ bs)
unfolding insert_sorted
row_of-insert_sorted j a [] n = refl
row_of-insert_sorted j a (b ∷ bs) n = ground (
  arith,
  row_of-insert_sorted j a bs n.1,
  ==→eq a.key j,
  ==→eq b.key j,
  ==→eq b.key a.key,
  eq→== b.key a.key,
)

sort_lem :
    (entries : List ChainAppend)
    → HasDistinctKeys entries
    → HasDistinctKeys (sort entries) × ((j : String) → row_of j (sort entries) ≡ row_of j entries)
unfolding sort
sort_lem [] d = (tt, (λ j. refl))
sort_lem (a ∷ entries) d =
    let (distinct, same) = sort_lem entries d.1 in
    let alone : NoRow a.key (sort entries) = All-sort (λ b. (b.key == a.key) ≡ false) entries d.0 in
    (
      distinct-insert_sorted a (sort entries) alone distinct,
      (λ j.
          row_of-insert_sorted j a (sort entries) alone
          ∙ ap (λ o. if a.key == j then some a else o) (same j)),
    )

-- A batch with one row for each key, whose snapshots have seen the newest versions, is published
-- whole: it succeeds, the chain of each of its keys gains exactly the entry of its row at the end,
-- and every other chain stays as it was. The order of the rows in the batch does not matter.
pub bulk_publishes :
    (entries : List ChainAppend) (s : LocalStore)
    → HasDistinctKeys entries
    → All (IsFresh s) entries
    → (s' : LocalStore) × (append_chain_entries_bulk entries s ≡ ok s')
      × ((j : String) → read_chain j s' ≡ with_row (row_of j entries) (read_chain j s))
unfolding append_chain_entries_bulk
bulk_publishes entries s d h =
    let (distinct, same) = sort_lem entries d in
    let (s', done, reads) =
      append_all_fresh (sort entries) s distinct (All-sort (IsFresh s) entries h) in
    (s', done, (λ j. reads j ∙ ap (λ o. with_row o (read_chain j s)) (same j)))

append_one-IsOrdered :
    (a : ChainAppend) (s s' : LocalStore) → append_one a s ≡ ok s' → IsOrdered s → IsOrdered s'
append_one-IsOrdered a s s' h o = elim (append_one-ok a s s' h) [
  | inl same ↦ subst IsOrdered (sym same) o
  | inr (newer, put) ↦ subst IsOrdered (sym put) (put-IsOrdered a.key a.entry s o newer)
]

append_all-IsOrdered :
    (entries : List ChainAppend) (s s' : LocalStore)
    → append_all entries s ≡ ok s'
    → IsOrdered s
    → IsOrdered s'
unfolding append_all
append_all-IsOrdered [] s s' h o = let e : s ≡ s' = cc in subst IsOrdered e o
append_all-IsOrdered (a ∷ entries) s s' h o =
    let (s₁, first, rest) = >>=-ok (append_one a s) (append_all entries) h in
    append_all-IsOrdered entries s₁ s' rest (append_one-IsOrdered a s s₁ first o)

-- Any batch that succeeds, whatever its keys and snapshots, leaves every chain strictly ascending
-- if every chain was.
pub bulk-IsOrdered :
    (entries : List ChainAppend) (s s' : LocalStore)
    → append_chain_entries_bulk entries s ≡ ok s'
    → IsOrdered s
    → IsOrdered s'
unfolding append_chain_entries_bulk
bulk-IsOrdered entries s s' = append_all-IsOrdered (sort entries) s s'
