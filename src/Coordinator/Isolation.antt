-- ===== src/Coordinator/Isolation.antt =====
-- A method called for one transaction leaves the rows of the others alone, and only `commit` changes
-- a chain; both hold for every schedule of failures.
use xtable.Prelude.{
  ℕ, ◌≡◌, ◌≢◌, refl, ◌∙◌, ap, String, List, [], ◌∷◌, lookup, lookup-insert, lookup-remove, ne→==,
  string_key, arith, Option-cases, inl, inr,
}
use xtable.Errors.{ok, >>=-ok}
use xtable.Records.{TxnStatus, TxnStateRecord}
use xtable.Store.{LocalStore}
use xtable.Store.Meta.{append_wal, next_wal_seq, next_global_version, put_versions_bulk}
use xtable.Store.Txns.{
  put_txn_state, get_txn_state, delete_txn_state, compare_and_set_txn_status, put_write_entry,
  delete_write_entry, put_blob, delete_blob,
}
use xtable.Store.Chains.{ChainAppend, append_one, append_all, append_chain_entries_bulk, sort}
use xtable.Store.Pins.{capture_and_register_snapshot, unregister_snapshot}
use xtable.World.Frame.{
  Order, Keeps, Keeps-bind, Keeps-return, Keeps-on_error, Keeps-redb_read, Keeps-redb_do,
  Keeps-redb_try,
}
use xtable.Coordinator.Commit.Enter.{Entry, done, owned}
use xtable.Coordinator.Commit.{commit, run_entry, commit_owned, publish}
use xtable.Coordinator.Frame.{Quiet, Footprint}
use xtable.Coordinator.Frame.Commit.{
  Keeps-enter, Keeps-materialize, Keeps-check_cycle, Keeps-allocate, Keeps-prepare, Keeps-found,
  Keeps-finish, Keeps-reconcile,
}

abbrev pub SameChains : LocalStore → LocalStore → Type 0
SameChains a b = a.version_chains ≡ b.version_chains

pub chains_order : Order SameChains
chains_order = record { same = λ a. refl; after = λ a b c p q. p ∙ q }

unregister-chains : (n : ℕ) (s : LocalStore) → SameChains s (unregister_snapshot n s)
unfolding unregister_snapshot
unregister-chains n s = ground arith

step-chains :
    (t : String) (from to : TxnStatus) (s : LocalStore)
    → SameChains s (compare_and_set_txn_status t from to s).1
unfolding compare_and_set_txn_status
step-chains t from to s = ground arith

pub chains_footprint : (t : String) → Footprint t SameChains
unfolding append_wal next_wal_seq next_global_version put_versions_bulk put_txn_state
    delete_txn_state put_write_entry delete_write_entry put_blob delete_blob
    capture_and_register_snapshot
chains_footprint t = record {
  quiet = record {
    order = chains_order;
    wal = λ r s. refl;
    version = λ s. refl;
    versions = λ us s. refl;
    entry = λ key e s. refl;
    no_entry = λ key s. refl;
    blob = λ handle b s. refl;
    no_blob = λ handle s. refl;
    pin = λ s. refl;
    release = unregister-chains;
  };
  row = λ rec s. refl;
  no_row = λ s. refl;
  step = step-chains t;
}

abbrev pub SameRow : String → LocalStore → LocalStore → Type 0
SameRow u a b = get_txn_state u a ≡ get_txn_state u b

pub row_order : (u : String) → Order (SameRow u)
row_order u = record { same = λ a. refl; after = λ a b c p q. p ∙ q }

module _ (t u : String) (apart : t ≢ u) where
  put-row : (rec : TxnStateRecord) (s : LocalStore) → SameRow u s (put_txn_state t rec s)
  unfolding put_txn_state get_txn_state
  put-row rec s = ground (arith, lookup-insert t rec s.txn_state u, ne→== t u)

  delete-row : (s : LocalStore) → SameRow u s (delete_txn_state t s)
  unfolding delete_txn_state get_txn_state
  delete-row s = ground (arith, lookup-remove t s.txn_state u, ne→== t u)

  step-row :
      (from to : TxnStatus) (s : LocalStore)
      → SameRow u s (compare_and_set_txn_status t from to s).1
  unfolding compare_and_set_txn_status get_txn_state
  step-row from to s = elim (Option-cases (lookup t s.txn_state)) [
    | inl absent ↦ ground arith
    | inr (rec, there) ↦
        ground (arith, lookup-insert t (record rec { status = to }) s.txn_state u, ne→== t u)
  ]

release-row : (u : String) (n : ℕ) (s : LocalStore) → SameRow u s (unregister_snapshot n s)
unfolding unregister_snapshot get_txn_state
release-row u n s = ground arith

-- the operations that are not on rows of transactions, for any row
pub row_quiet : (t u : String) → Quiet t (SameRow u)
unfolding append_wal next_wal_seq next_global_version put_versions_bulk put_write_entry
    delete_write_entry put_blob delete_blob capture_and_register_snapshot get_txn_state
row_quiet t u = record {
  order = row_order u;
  wal = λ r s. refl;
  version = λ s. refl;
  versions = λ us s. refl;
  entry = λ key e s. refl;
  no_entry = λ key s. refl;
  blob = λ handle b s. refl;
  no_blob = λ handle s. refl;
  pin = λ s. refl;
  release = release-row u;
}

pub row_footprint : (t u : String) → t ≢ u → Footprint t (SameRow u)
row_footprint t u apart = record {
  quiet = row_quiet t u;
  row = put-row t u apart;
  no_row = delete-row t u apart;
  step = step-row t u apart;
}

append_one-rows :
    (a : ChainAppend) (s s' : LocalStore) → append_one a s ≡ ok s' → s.txn_state ≡ s'.txn_state
unfolding append_one
append_one-rows a s s' h = ground arith

append_all-rows :
    (rows : List ChainAppend) (s s' : LocalStore)
    → append_all rows s ≡ ok s'
    → s.txn_state ≡ s'.txn_state
unfolding append_all
append_all-rows [] s s' h = ground arith
append_all-rows (a ∷ rows) s s' h =
    let (mid, first, rest) = >>=-ok (append_one a s) (append_all rows) h in
    append_one-rows a s mid first ∙ append_all-rows rows mid s' rest

pub bulk-rows :
    (rows : List ChainAppend) (s s' : LocalStore)
    → append_chain_entries_bulk rows s ≡ ok s'
    → s.txn_state ≡ s'.txn_state
unfolding append_chain_entries_bulk
bulk-rows rows s s' h = append_all-rows (sort rows) s s' h

bulk-row :
    (u : String) (rows : List ChainAppend) (s s' : LocalStore)
    → append_chain_entries_bulk rows s ≡ ok s'
    → SameRow u s s'
unfolding get_txn_state
bulk-row u rows s s' h = ap (lookup u) (bulk-rows rows s s' h)

module _ (t u : String) (apart : t ≢ u) where
  f : Footprint t (SameRow u)
  f = row_footprint t u apart

  Keeps-commit_owned : (now : ℕ) → Keeps (SameRow u) (commit_owned t now)
  unfolding commit_owned publish f
  Keeps-commit_owned now =
      Keeps-bind (row_order u)
        (Keeps-bind (row_order u) (Keeps-redb_read (row_order u) (get_txn_state t)) (Keeps-found f))
        (λ txn. Keeps-bind (row_order u) (Keeps-redb_read (row_order u) _) (λ entries.
          Keeps-bind (row_order u) (Keeps-materialize f entries) (λ bodies.
            Keeps-bind (row_order u) (Keeps-check_cycle f txn) (λ _.
              Keeps-bind (row_order u) (Keeps-allocate f txn _) (λ version.
                Keeps-bind (row_order u) (Keeps-prepare f txn _ version) (λ ready.
                  Keeps-bind (row_order u)
                    (Keeps-redb_try (row_order u) (append_chain_entries_bulk _) (bulk-row u _))
                    (λ _.
                      Keeps-bind (row_order u)
                        (Keeps-redb_do (row_order u) (put_versions_bulk _) (f.versions _))
                        (λ _. Keeps-finish f ready version entries bodies _ now))))))))

  -- A commit of one transaction leaves the row of every other transaction as it was, whatever fails.
  pub Keeps-commit : (now : ℕ) → Keeps (SameRow u) (commit t now)
  unfolding commit
  Keeps-commit now = Keeps-bind (row_order u) (Keeps-enter f) run
    where
      run : (e : Entry) → Keeps (SameRow u) (run_entry t now e)
      run (done outcome) = Keeps-return (row_order u) outcome
      run owned = Keeps-on_error (row_order u) (Keeps-commit_owned now) (Keeps-reconcile f now)
