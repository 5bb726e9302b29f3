-- ===== src/Store/Chains/Conflict.antt =====
-- First committer wins: a batch with a row whose snapshot has not seen the newest version of its
-- key never succeeds.
use xtable.Prelude.{
  ◌<◌, ◌≡◌, ◌≢◌, ◌⊎◌, inl, inr, refl, sym, subst, true, false, List, [], ◌∷◌, ◌++◌, length, ==→eq,
  string_key, nat_key, if◌then◌else◌, ◌==◌, arith, Bool-cases, Elem,
}
use xtable.Errors.{ok, >>=-ok}
use xtable.Chain.{VersionEntry, VersionChain, latest_commit_version, append}
use xtable.Chain.Order.{latest-append}
use xtable.Store.Defs.{LocalStore}
use xtable.Store.Chains.{
  read_chain, is_empty, put_chain, ChainAppend, append_one, append_all, insert_sorted, sort,
  goes_after, order_of, append_chain_entries_bulk,
}
use xtable.Store.Chains.Append.{IsNewer, append_one-ok, read_chain-put, nil→is_empty}

-- another transaction has published the key since the row's snapshot
abbrev pub IsStale : ChainAppend → LocalStore → Type 0
IsStale a s =
    (is_empty (read_chain a.key s) ≡ false)
    × (a.snapshot_version < latest_commit_version (read_chain a.key s))

append_one_stale : (a : ChainAppend) (s s' : LocalStore) → IsStale a s → append_one a s ≢ ok s'
unfolding append_one
append_one_stale a s s' h e = ground arith

is_empty-append : (c : VersionChain) (e : VersionEntry) → is_empty (append e c) ≡ false
unfolding append
is_empty-append c e = go c.entries
  where
    go : (es : List VersionEntry) → (length (es ++ e ∷ []) == 0) ≡ false
    go [] = refl
    go (x ∷ es) = ground arith

-- a stale row stays stale: the newest version of a key only grows
IsStale-append_one :
    (a b : ChainAppend) (s s' : LocalStore) → IsStale a s → append_one b s ≡ ok s' → IsStale a s'
IsStale-append_one a b s s' h e = elim (append_one-ok b s s' e) [
  | inl same ↦ subst (IsStale a) (sym same) h
  | inr (newer, put) ↦ subst (IsStale a) (sym put) (moved newer (Bool-cases (b.key == a.key)))
]
  where
    c : VersionChain
    c = append b.entry (read_chain b.key s)

    read :
        read_chain a.key (put_chain b.key c s) ≡ (if b.key == a.key then c else read_chain a.key s)
    read = read_chain-put b.key c s a.key

    moved :
        IsNewer b.entry (read_chain b.key s)
        → ((b.key == a.key) ≡ true) ⊎ ((b.key == a.key) ≡ false)
        → IsStale a (put_chain b.key c s)
    moved newer (inr other) = rw (read, other) h
    moved (inl nil) (inl same) =
        let k : b.key ≡ a.key = ==→eq b.key a.key same in
        let full : is_empty (read_chain b.key s) ≡ false =
          subst (λ t. is_empty (read_chain t s) ≡ false) (sym k) h.0 in
        absurd (ground (arith, nil→is_empty (read_chain b.key s) nil))
    moved (inr lt) (inl same) =
        let k : b.key ≡ a.key = ==→eq b.key a.key same in
        let behind : a.snapshot_version < latest_commit_version (read_chain b.key s) =
          subst (λ t. a.snapshot_version < latest_commit_version (read_chain t s)) (sym k) h.1 in
        rw (read, same)
          (
            is_empty-append (read_chain b.key s) b.entry,
            omega (arith, latest-append (read_chain b.key s) b.entry),
          )

append_all_stale :
    (a : ChainAppend) (entries : List ChainAppend) (s s' : LocalStore)
    → Elem a entries
    → IsStale a s
    → append_all entries s ≢ ok s'
unfolding append_all
append_all_stale a [] s s' m h e = elim m [ ]
append_all_stale a (b ∷ entries) s s' (inl same) h e =
    let (s₁, first, rest) = >>=-ok (append_one b s) (append_all entries) e in
    append_one_stale b s s₁ (subst (λ x. IsStale x s) same h) first
append_all_stale a (b ∷ entries) s s' (inr m) h e =
    let (s₁, first, rest) = >>=-ok (append_one b s) (append_all entries) e in
    append_all_stale a entries s₁ s' m (IsStale-append_one a b s s₁ h first) rest

Elem-insert_sorted :
    (a b : ChainAppend) (bs : List ChainAppend) → Elem a (b ∷ bs) → Elem a (insert_sorted b bs)
unfolding insert_sorted
Elem-insert_sorted a b [] m = m
Elem-insert_sorted a b (c ∷ bs) m = elim (Bool-cases (goes_after (order_of b c))) [
  | inr here ↦ rw here m
  | inl later ↦ rw later (elim m [
    | inl e ↦ inr (Elem-insert_sorted a b bs (inl e))
    | inr (inl e) ↦ inl e
    | inr (inr n) ↦ inr (Elem-insert_sorted a b bs (inr n))
  ])
]

Elem-sort : (a : ChainAppend) (entries : List ChainAppend) → Elem a entries → Elem a (sort entries)
unfolding sort
Elem-sort a [] m = m
Elem-sort a (b ∷ entries) (inl e) = Elem-insert_sorted a b (sort entries) (inl e)
Elem-sort a (b ∷ entries) (inr m) =
    Elem-insert_sorted a b (sort entries) (inr (Elem-sort a entries m))

-- First committer wins: if some row of a batch has a snapshot older than the newest version of its
-- key, the batch fails, wherever the row stands in the batch and whatever the other rows are. So
-- of two transactions at one snapshot that write one key, the second to append never commits.
pub bulk-ne-ok :
    (a : ChainAppend) (entries : List ChainAppend) (s s' : LocalStore)
    → Elem a entries
    → IsStale a s
    → append_chain_entries_bulk entries s ≢ ok s'
unfolding append_chain_entries_bulk
bulk-ne-ok a entries s s' m h = append_all_stale a (sort entries) s s' (Elem-sort a entries m) h
