-- ===== src/Store/Index/Laws.antt =====
-- The record index follows the versions of a record: it keeps the newest, and a flush moves the pointers of
-- the version that it wrote and of no other.
use xtable.Prelude.{
  ℕ, ◌≡◌, ◌≢◌, refl, sym, ◌∙◌, ap, String, Bool, false, ◌&&◌, Option, none, some, Map, lookup,
  insert, lookup-insert, leb, ◌==◌, ==_self, ==→eq, ne→==, Key, nat_key, string_key, pair_key,
  triple_key, if◌then◌else◌, inl, inr, Bool-cases, arith,
}
use mathlib.Core.Option
use xtable.Records.{RecordIndexEntry, StoredRecordVersion}
use xtable.Store.Defs.{LocalStore, RecordKey, RecordRow, with_body}
use xtable.Store.Index.{entry_of, set_chunk, replaces_latest, put_record_index_with_body}

-- what becomes of the row of a key, if the rows of another one change where a test holds
abbrev pub change : {V : Type 0} → Bool → (V → Bool) → (V → V) → V → V
change here test g r = if here && test r then g r else r

module _ {K V : Type 0} ⦃k : Key K⦄ where
  -- two rows of different keys are inserted in either order
  pub lookup-insert_comm :
      (a b p : K) (x y : V) (m : Map K V)
      → (a == b) ≡ false
      → lookup p (insert a x (insert b y m)) ≡ lookup p (insert b y (insert a x m))
  lookup-insert_comm a b p x y m apart =
      lookup-insert a x (insert b y m) p
      ∙ (ground
          (arith, lookup-insert b y m p, lookup-insert a x m p, ==→eq a p, ==→eq b p, ==_self a))
      ∙ sym (lookup-insert b y (insert a x m) p)

abbrev pub set_stored_chunk : String → StoredRecordVersion → StoredRecordVersion
set_stored_chunk c r = record r { entry = set_chunk c r.entry }

-- the newer of two rows, the first one if they are of one version
abbrev newest : RecordRow → Option RecordRow → RecordRow
newest row none = row
newest row (some old) =
    if leb (entry_of old).commit_version (entry_of row).commit_version then row else old

lookup-put :
    (key q : RecordKey) (e : RecordIndexEntry) (b : String) (s : LocalStore)
    → lookup q (put_record_index_with_body key e b s).record_index ≡ (
        if key == q
        then some
            (newest (with_body (record { entry = e; body_json = b })) (lookup key s.record_index))
        else lookup q s.record_index)
unfolding put_record_index_with_body
lookup-put key q e b s = go (lookup key s.record_index) refl
  where
    go :
        (o : Option RecordRow)
        → lookup key s.record_index ≡ o
        → lookup q (
            if replaces_latest e.commit_version o
            then insert key (with_body (record { entry = e; body_json = b })) s.record_index
            else s.record_index)
          ≡ (if key == q
              then some (newest (with_body (record { entry = e; body_json = b })) o)
              else lookup q s.record_index)
    go none row = lookup-insert key _ s.record_index q
    go (some old) row = elim (Bool-cases (leb (entry_of old).commit_version e.commit_version)) [
      | inl newer ↦ rw newer (lookup-insert key _ s.record_index q)
      | inr older ↦ rw older (elim (Bool-cases (key == q)) [
        | inr other ↦ rw other refl
        | inl same ↦ rw same (ap (λ x. lookup x s.record_index) (sym (==→eq key q same)) ∙ row)
      ])
    ]

newest_comm :
    (x y : RecordRow) (o : Option RecordRow)
    → (entry_of x).commit_version ≢ (entry_of y).commit_version
    → newest y (some (newest x o)) ≡ newest x (some (newest y o))
newest_comm x y none apart = ground arith
newest_comm x y (some old) apart = ground arith

abbrev with_json : RecordIndexEntry → String → RecordRow
with_json e b = with_body (record { entry = e; body_json = b })

lookup-put_twice :
    (key q : RecordKey) (d e : RecordIndexEntry) (a b : String) (s : LocalStore)
    → lookup q
        (put_record_index_with_body key e b (put_record_index_with_body key d a s)).record_index
      ≡ (if key == q
          then some
              (newest (with_json e b) (some (newest (with_json d a) (lookup key s.record_index))))
          else lookup q s.record_index)
lookup-put_twice key q d e a b s =
    rw
      (
        lookup-put key q e b (put_record_index_with_body key d a s),
        lookup-put key key d a s,
        lookup-put key q d a s,
        ==_self key,
      )
      (ground arith)

-- Two versions of one record give the same index and the same history in whichever order they are
-- written, if their commit versions differ.
pub put_comm :
    (key q : RecordKey) (p : RecordKey × ℕ) (d e : RecordIndexEntry) (a b : String) (s : LocalStore)
    → d.commit_version ≢ e.commit_version
    → let first = put_record_index_with_body key e b (put_record_index_with_body key d a s) in
      let second = put_record_index_with_body key d a (put_record_index_with_body key e b s) in
      (lookup q first.record_index ≡ lookup q second.record_index)
      × (lookup p first.record_versions ≡ lookup p second.record_versions)
unfolding put_record_index_with_body
put_comm key q p d e a b s apart = (
  lookup-put_twice key q d e a b s
      ∙ rw (newest_comm (with_json d a) (with_json e b) (lookup key s.record_index) apart) refl
      ∙ sym (lookup-put_twice key q e d b a s),
  lookup-insert_comm (key, e.commit_version) (key, d.commit_version) p _ _ s.record_versions
      (ne→== {K = RecordKey × ℕ} (key, e.commit_version) (key, d.commit_version)
        (λ same. apart (sym (ap (λ x. x.1) same)))),
)
