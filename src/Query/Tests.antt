-- ===== src/Query/Tests.antt =====
-- Runs of queries; numbers are natural.
use Prim.Native.Nat.{Ordering, compare}
use Prim.Native.Nat.Ordering.{lt, eq}
use xtable.Prelude.{ℕ, ◌+◌, ◌≡◌, refl, String, false, none, some, List, [], ◌∷◌, map, ◌==◌, nat_key}
use mathlib.Core.Option
use xtable.Text.{strip_prefix}
use xtable.Query.{
  Numbers, Json, number, string, object, array, nil, cons, end, entry, Record, ge_than, contains,
  OrderBy, desc, Query, get, get_at, len_items, walk, lookup, split_dots, parse_index, index_digits,
  has_text, same, cmp, matches, insert_record, sort_records, run,
}
use xtable.Query.Pages.{joined, page, run-page}

instance abbrev naturals : Numbers ℕ
naturals = record { same_number = λ a b. a == b; cmp_f64 = λ a b. some (compare a b) }

abbrev rec : String → ℕ → Record ℕ
rec id n = record {
  space = "s";
  table = "t";
  record_id = id;
  body = object (entry "n" (number n) (entry "tags" (array (cons (string "red") nil)) end));
  schema_version = 1;
  commit_version = 0;
  deleted = false;
}

abbrev three : List (Record ℕ)
three = rec "a" 30 ∷ rec "b" 10 ∷ rec "c" 20 ∷ []

abbrev by_n : OrderBy
by_n = record { field = "n"; dir = desc }

abbrev query : Query ℕ
query = record {
  filters = ge_than "n" (number 15) ∷ contains "tags.0" "ed" ∷ [];
  order_by = some by_n;
  limit = none;
  offset = 0;
  include_deleted = false;
}

runs : Unit {0}
unfolding get get_at len_items walk lookup split_dots parse_index index_digits has_text strip_prefix
    same cmp matches insert_record sort_records run
runs = tt

finds_two :
    Option.map (map (λ (r : Record ℕ). r.record_id)) (run query three) ≡ some ("a" ∷ "c" ∷ [])
unfolding runs
finds_two = refl

second_page :
    Option.map (map (λ (r : Record ℕ). r.record_id)) (run (page query 1 5) three) ≡ some ("c" ∷ [])
unfolding runs
second_page = refl

run-page_example :
    joined (run (page query 0 1) three) (run (page query (0 + 1) 1) three)
    ≡ run (page query 0 (1 + 1)) three
run-page_example = run-page query three 0 1 1

-- a text among numbers, and the query has no result
abbrev mixed : List (Record ℕ)
mixed =
    rec "a" 30 ∷ rec "c" 20 ∷ record (rec "b" 0) { body = object (entry "n" (string "x") end) } ∷ []

no_result : run (record query { filters = [] }) mixed ≡ none
unfolding runs
no_result = refl

-- three values that the order of values does not order: a text stands level with any number
abbrev f64_order : Json ℕ → Json ℕ → Ordering
f64_order a b = cmp a b

no_total_order :
    (f64_order (number 1) (string "a") ≡ eq)
    × (f64_order (string "a") (number 2) ≡ eq)
    × (f64_order (number 1) (number 2) ≡ lt)
unfolding runs
no_total_order = (refl, refl, refl)
