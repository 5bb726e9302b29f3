-- ===== src/Store/Chains.antt =====
-- The version chains of the store, and the appends that publish a commit.
pub mod Append
pub mod Bulk
pub mod Conflict
use xtable.Prelude.{
  ℕ, String, Bool, true, false, not, ◌&&◌, Option, none, some, List, [], ◌∷◌, lookup, insert,
  string_key, nat_key, if◌then◌else◌, ◌==◌, leb, ltb, length, last, Ordering, then_with,
}
use mathlib.Core.Option
use xtable.Errors.{Result, ok, err, XtableError, internal, ◌>>=◌}
use xtable.Chain.{VersionEntry, VersionChain, new_chain, latest_commit_version, append}
use xtable.Chain
use xtable.Store.Defs.{LocalStore}

unfoldable pub read_chain : String → LocalStore → VersionChain
read_chain key s = Option.get_or (lookup key s.version_chains) (new_chain key)

unfoldable pub read_at_snapshot : String → ℕ → LocalStore → Option VersionEntry
read_at_snapshot key snapshot s = Chain.read_at_snapshot (read_chain key s) snapshot

unfoldable pub read_latest : String → LocalStore → Option VersionEntry
read_latest key s = last (read_chain key s).entries

abbrev pub is_empty : VersionChain → Bool
is_empty c = length c.entries == 0

abbrev pub put_chain : String → VersionChain → LocalStore → LocalStore
put_chain key c s = record s { version_chains = insert key c s.version_chains }

unfoldable pub append_chain_entry : String → VersionEntry → LocalStore → Result LocalStore
append_chain_entry key entry s =
    let chain = read_chain key s in
    if leb entry.commit_version (latest_commit_version chain) && not (is_empty chain)
    then err internal
    else ok (put_chain key (append entry chain) s)

-- a row of the batch: the key, the entry, and the snapshot of the transaction that appends it
pub record ChainAppend : Type 0 where
  pub key : String
  pub entry : VersionEntry
  pub snapshot_version : ℕ

abbrev pub same_bool : Bool → Bool → Bool
same_bool true b = b
same_bool false b = not b

-- the test that takes an entry for one that the batch has already published
abbrev pub is_duplicate : VersionEntry → VersionEntry → Bool
is_duplicate current e =
    current.txn_id == e.txn_id
    && current.backend_key == e.backend_key
    && same_bool current.deleted e.deleted

-- `last().is_some_and(…)` of that test
abbrev pub ends_in_duplicate : Option VersionEntry → VersionEntry → Bool
ends_in_duplicate none e = false
ends_in_duplicate (some current) e = is_duplicate current e

-- the body of the loop
unfoldable pub append_one : ChainAppend → LocalStore → Result LocalStore
append_one a s =
    let chain = read_chain a.key s in
    let latest = latest_commit_version chain in
    if not (is_empty chain) && ltb a.snapshot_version latest
    then err XtableError.conflict
    else if a.entry.commit_version == latest && ends_in_duplicate (last chain.entries) a.entry
    then ok s
    else if leb a.entry.commit_version latest && not (is_empty chain)
    then err internal
    else ok (put_chain a.key (append a.entry chain) s)

unfoldable pub append_all : List ChainAppend → LocalStore → Result LocalStore
append_all [] s = ok s
append_all (a ∷ entries) s = do s' ← append_one a s; append_all entries s'

-- the order of the batch: by key, then by commit version
abbrev pub order_of : ChainAppend → ChainAppend → Ordering
order_of a b =
    then_with (string_key.cmp a.key b.key)
      (nat_key.cmp a.entry.commit_version b.entry.commit_version)

abbrev pub goes_after : Ordering → Bool
goes_after Ordering.gt = true
goes_after _ = false

-- stable insertion sort for the stable `sort_by`
unfoldable pub insert_sorted : ChainAppend → List ChainAppend → List ChainAppend
insert_sorted a [] = a ∷ []
insert_sorted a (b ∷ bs) =
    let rest = insert_sorted a bs in if goes_after (order_of a b) then b ∷ rest else a ∷ b ∷ bs

unfoldable pub sort : List ChainAppend → List ChainAppend
sort [] = []
sort (a ∷ as') = insert_sorted a (sort as')

unfoldable pub append_chain_entries_bulk : List ChainAppend → LocalStore → Result LocalStore
append_chain_entries_bulk entries s = append_all (sort entries) s
