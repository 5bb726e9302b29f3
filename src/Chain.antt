-- ===== src/Chain.antt =====
-- xtable-storage/src/version_chain.rs: the versions of one key, in ascending commit order.
pub mod Order
mod Find
pub mod Read
pub mod Prune
mod Tests
use xtable.Prelude.{
  ℕ, ◌+◌, ◌-◌, ◌≡◌, String, Bool, true, false, Option, none, some, List, [], ◌∷◌, ◌++◌, reverse,
  leb, length, last, find, drop, rposition, ◌==◌, nat_key, if◌then◌else◌,
}
use xtable.Prelude.Words.{u64_max}
use mathlib.Core.Option

pub record VersionEntry : Type 0 where
  pub commit_version : ℕ
  pub etag : String
  pub backend_key : String
  pub txn_id : String
  pub size : ℕ
  pub content_type : Option String
  pub user_meta : List (String × String)
  pub deleted : Bool
  pub created_ms : ℕ

-- the clock's reading is an argument
unfoldable pub new_entry : ℕ → String → String → String → ℕ → ℕ → VersionEntry
new_entry commit_version etag backend_key txn_id size now = record {
  commit_version = commit_version;
  etag = etag;
  backend_key = backend_key;
  txn_id = txn_id;
  size = size;
  content_type = none;
  user_meta = [];
  deleted = false;
  created_ms = now;
}

unfoldable pub tombstone : ℕ → String → String → ℕ → VersionEntry
tombstone commit_version backend_key txn_id now = record {
  commit_version = commit_version;
  etag = "";
  backend_key = backend_key;
  txn_id = txn_id;
  size = 0;
  content_type = none;
  user_meta = [];
  deleted = true;
  created_ms = now;
}

pub record VersionChain : Type 0 where
  pub key : String
  pub entries : List VersionEntry

abbrev pub new_chain : String → VersionChain
new_chain key = record { key = key; entries = [] }

-- the test of `read_at_snapshot` and of the `rposition` in `prune_below`
abbrev pub visible : ℕ → VersionEntry → Bool
visible snapshot e = leb e.commit_version snapshot

unfoldable pub read_at_snapshot : VersionChain → ℕ → Option VersionEntry
read_at_snapshot c snapshot = find (visible snapshot) (reverse c.entries)

unfoldable pub latest_commit_version : VersionChain → ℕ
latest_commit_version c = Option.get_or (Option.map (λ e. e.commit_version) (last c.entries)) 0

-- the `debug_assert!` leaves no trace in a release build
unfoldable pub append : VersionEntry → VersionChain → VersionChain
append e c = record c { entries = c.entries ++ e ∷ [] }

-- `u64::MAX` stands for "no active reader"
unfoldable pub keep_from : ℕ → VersionChain → ℕ
keep_from min_snapshot c =
    if min_snapshot == u64_max
    then length c.entries - 1
    else Option.get_or (rposition (visible min_snapshot) c.entries) 0

-- the number of entries removed, and the chain that is left
unfoldable pub prune_below : ℕ → VersionChain → ℕ × VersionChain
unfolding keep_from
prune_below min_snapshot c = if leb (length c.entries) 1 then (0, c) else (
  keep_from min_snapshot c,
  record c { entries = drop (keep_from min_snapshot c) c.entries },
)
