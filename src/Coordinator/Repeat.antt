-- ===== src/Coordinator/Repeat.antt =====
-- A commit that succeeds leaves a committed row, and a second commit of the transaction is a replay.
use xtable.Prelude.{ℕ, ◌≡◌, refl, ◌∙◌, ap, subst, String, false, List, [], ◌∷◌, map, arith}
use xtable.Errors.{ok}
use xtable.Records.{Bytes, committed, TxnStateRecord, WriteSetEntry}
use xtable.World.{World, next_fails, advance, return, redb_read, ◌>>=◌}
use xtable.World.Inversion.{Returns, bind-Returns, return-Returns, on_error-Returns}
use xtable.Coordinator.Keys.{sort_keys}
use xtable.Coordinator.Commit.Enter.{
  CommitOutcome, Entry, done, owned, max_version, known_version, enter,
}
use xtable.Coordinator.Commit.{commit, run_entry, commit_owned, publish, allocate}
use xtable.Coordinator.WriteSet.{prepare-Returns}
use xtable.Coordinator.Outcome.{IsCommitted, enter-done, finish-Returns}

max_version-same :
    (k : String) (ks : List String) (v fallback : ℕ)
    → max_version (map (λ j. (j, v)) (k ∷ ks)) fallback ≡ v
max_version-same k [] v fallback = refl
max_version-same k (j ∷ ks) v fallback =
    let rest = max_version-same j ks v fallback in ground (arith, rest)

known-ready :
    (txn : TxnStateRecord) (ks : List String) (v : ℕ) (w w' : World)
    → Returns (allocate txn ks) w v w'
    → max_version (map (λ k. (k, v)) ks) txn.snapshot_version ≡ v
known-ready txn [] v w w' h = (return-Returns txn.snapshot_version v w w' h).0
known-ready txn (k ∷ ks) v w w' h = max_version-same k ks v txn.snapshot_version

publish-Returns :
    (t : String) (txn : TxnStateRecord) (v : ℕ) (entries : List (String × WriteSetEntry))
    (bodies : List (String × Bytes)) (now : ℕ) (w w' : World) (out : CommitOutcome)
    → known_version txn ≡ v
    → Returns (publish t txn v entries bodies now) w out w'
    → IsCommitted t out w'.store
unfolding publish
publish-Returns t txn v entries bodies now w w' out known h =
    let (_, w₁, _, h₁) = bind-Returns _ _ w w' out h in
    let (_, w₂, _, h₂) = bind-Returns _ _ w₁ w' out h₁ in
    let (there, version) = finish-Returns t txn v entries bodies _ now w₂ w' out h₂ in
    (record txn { status = committed }, there, refl, known ∙ version)

owned-Returns :
    (t : String) (now : ℕ) (w w' : World) (out : CommitOutcome)
    → Returns (commit_owned t now) w out w'
    → IsCommitted t out w'.store
unfolding commit_owned
owned-Returns t now w w' out h =
    let (txn, w₁, _, h₁) = bind-Returns _ _ w w' out h in
    let (entries, w₂, _, h₂) = bind-Returns _ _ w₁ w' out h₁ in
    let (bodies, w₃, _, h₃) = bind-Returns _ _ w₂ w' out h₂ in
    let (_, w₄, _, h₄) = bind-Returns _ _ w₃ w' out h₃ in
    let (v, w₅, version, h₅) = bind-Returns _ _ w₄ w' out h₄ in
    let (ready, w₆, prepared, h₆) = bind-Returns _ _ w₅ w' out h₅ in
    let ks = sort_keys txn.write_keys in
    let shape = prepare-Returns t txn ks v w₅ w₆ ready prepared in
    publish-Returns t ready v entries bodies now w₆ w' out
      (ap known_version shape ∙ known-ready txn ks v w₄ w₅ version) h₆

-- If a commit succeeds, whatever failed on the way, the row of its transaction is committed and the
-- version that it knows is the version of the answer.
pub commit-IsCommitted :
    (t : String) (now : ℕ) (w w' : World) (out : CommitOutcome)
    → Returns (commit t now) w out w'
    → IsCommitted t out w'.store
unfolding commit
commit-IsCommitted t now w w' out h =
    let (e, mid, entered, rest) = bind-Returns (enter t) (run_entry t now) w w' out h in
    go e mid entered rest
  where
    go :
        (e : Entry) (mid : World)
        → Returns (enter t) w e mid
        → Returns (run_entry t now e) mid out w'
        → IsCommitted t out w'.store
    go owned mid entered r = owned-Returns t now mid w' out (on_error-Returns _ _ mid w' out r)
    go (done x) mid entered r =
        let (same, world) = return-Returns x out mid w' r in
        subst (λ (y : World). IsCommitted t out y.store) world
          (enter-done t w mid out (entered ∙ ap (λ (y : CommitOutcome). (ok (done y), mid)) same))

-- Committing a transaction again after a commit that succeeded gives the same answer and changes
-- nothing, provided that the one read that it makes does not fail.
pub commit-commit :
    (t : String) (now later : ℕ) (w w' : World) (out : CommitOutcome)
    → Returns (commit t now) w out w'
    → next_fails w'.schedule ≡ false
    → commit t later w' ≡ (ok out, advance w')
unfolding commit enter redb_read ◌>>=◌ return
commit-commit t now later w w' out h reads =
    let (row, there, st, version) = commit-IsCommitted t now w w' out h in
    rw (reads, there, st) (ap (λ v. (ok (record { commit_version = v }), advance w')) version)
