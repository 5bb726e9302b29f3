-- ===== src/Store/Truncate.antt =====
-- The truncation of the log.
use xtable.Prelude.{
  ℕ, ◌≡◌, ◌<◌, ◌≤◌, refl, ◌∙◌, Bool, true, false, none, List, [], ◌∷◌, Map, lookup, remove,
  lookup-remove, leb, ◌==◌, nat_key, if◌then◌else◌, inl, inr, Bool-cases, arith,
}
use xtable.Records.{WalRecord}
use xtable.Store.Defs.{LocalStore}
use xtable.Store.Chunks.{to_remove, remove_rows, truncate_wal}

-- the rows of a log come after a sequence number, in ascending order
abbrev pub IsAfter : ℕ → Map ℕ WalRecord → Type 0
IsAfter n [] = Unit
IsAfter n ((k, _) ∷ rows) = (n < k) × IsAfter k rows

abbrev removes : ℕ → List ℕ → Bool
removes q [] = false
removes q (x ∷ qs) = let later = removes q qs in if x == q then true else later

lookup-remove_rows :
    (qs : List ℕ) (m : Map ℕ WalRecord) (q : ℕ)
    → lookup q (remove_rows qs m) ≡ (if removes q qs then none else lookup q m)
unfolding remove_rows
lookup-remove_rows [] m q = refl
lookup-remove_rows (x ∷ qs) m q =
    lookup-remove_rows qs (remove x m) q ∙ ground (arith, lookup-remove x m q)

to_remove-below :
    (n : ℕ) (m : Map ℕ WalRecord) (q : ℕ) → removes q (to_remove n m) ≡ true → leb q n ≡ true
unfolding to_remove
to_remove-below n [] q h = absurd (cc)
to_remove-below n ((k, r) ∷ rows) q h = ground (arith, to_remove-below n rows q)

lookup-IsAfter : (n : ℕ) (m : Map ℕ WalRecord) (q : ℕ) → IsAfter n m → q ≤ n → lookup q m ≡ none
unfolding lookup
lookup-IsAfter n [] q h le = refl
lookup-IsAfter n ((k, r) ∷ rows) q h le =
    let (lt, after) = h in let ih = lookup-IsAfter k rows q after (omega arith) in ground arith

kept-none :
    (n p : ℕ) (m : Map ℕ WalRecord) (q : ℕ)
    → IsAfter p m
    → leb q n ≡ true
    → removes q (to_remove n m) ≡ false
    → lookup q m ≡ none
unfolding to_remove lookup
kept-none n p [] q h le no_row = refl
kept-none n p ((k, r) ∷ rows) q h le no_row =
    let (lt, after) = h in
    ground (arith, kept-none n k rows q after le, lookup-IsAfter k rows q after)

-- A truncation of the log removes exactly the rows up to its limit: no row up to it is left, and every row
-- above it is as it was. The rows of the log are numbered from 1 in ascending order.
pub truncate_wal_lem :
    (up_to : ℕ) (s : LocalStore) (seq : ℕ)
    → IsAfter 0 s.wal
    → lookup seq (truncate_wal up_to s).1.wal ≡ (if leb seq up_to then none else lookup seq s.wal)
unfolding truncate_wal
truncate_wal_lem up_to s seq h =
    lookup-remove_rows (to_remove up_to s.wal) s.wal seq
    ∙ elim (Bool-cases (removes seq (to_remove up_to s.wal))) [
      | inl gone ↦ let below = to_remove-below up_to s.wal seq gone in rw (gone, below) refl
      | inr stays ↦ elim (Bool-cases (leb seq up_to)) [
        | inl below ↦ rw (stays, below) (kept-none up_to 0 s.wal seq h below stays)
        | inr above ↦ rw (stays, above) refl
      ]
    ]
