-- ===== src/Query.antt =====
-- xtable-schema/src/query.rs: filters on JSON bodies, and a query over records: filter, order, page. The
-- numbers of serde_json are a parameter. An object is its fields.
pub mod Sorted
pub mod Pages
mod Tests
use Prim.Native.Nat.{Ordering}
use Prim.Native.Nat.Ordering.{lt, eq, gt}
use Prim.Native.Nat.{compare}
use Prim.Native.Char.{Char, code}
use Prim.Native.String
use mathlib.Core.Option
use xtable.Prelude.{
  ℕ, zero, suc, ◌+◌, String, Bool, true, false, not, ◌&&◌, ◌||◌, Option, none, some, List, [], ◌∷◌,
  all, retain, take, drop, length, min, ltb, ◌==◌, nat_key, string_key, if◌then◌else◌,
}
use xtable.Text.{strip_prefix, is_digit, next_value, cons_head}

-- a type of numbers, with `==` and the partial order of the `f64` of two, `none` where one is NaN
pub record Numbers (N : Type 0) : Type 0 where
  pub same_number : N → N → Bool
  pub cmp_f64 : N → N → Option Ordering

mutual
  pub data Json (N : Type 0) : Type 0 where
    null : Json N
    bool : Bool → Json N
    number : N → Json N
    string : String → Json N
    array : Items N → Json N
    object : Fields N → Json N

  pub data Items (N : Type 0) : Type 0 where
    nil : Items N
    cons : Json N → Items N → Items N

  pub data Fields (N : Type 0) : Type 0 where
    end : Fields N
    entry : String → Json N → Fields N → Fields N

-- `split('.')`
unfoldable pub split_dots : String → List String
split_dots String.[] = "" ∷ []
split_dots (String.◌∷◌ c s) =
    let rest = split_dots s in if code c == b'.' then "" ∷ rest else cons_head c rest

abbrev pub usize_end : ℕ
usize_end = 18_446_744_073_709_551_616

unfoldable pub index_digits : ℕ → String → Option ℕ
index_digits n String.[] = some n
index_digits n (String.◌∷◌ c s) =
    let rest = index_digits (next_value n c) s in
    if is_digit c && ltb (next_value n c) usize_end then rest else none

-- `parse::<usize>()`
unfoldable pub parse_index : String → Option ℕ
parse_index String.[] = none
parse_index (String.◌∷◌ c s) =
    if code c == b'+'
    then (if s == "" then none else index_digits 0 s)
    else index_digits 0 (String.◌∷◌ c s)

abbrev pub is_some : {A : Type 0} → Option A → Bool
is_some none = false
is_some (some a) = true

-- `contains` of `str`
unfoldable pub has_text : String → String → Bool
has_text needle String.[] = needle == ""
has_text needle (String.◌∷◌ c s) =
    let rest = has_text needle s in
    if is_some (strip_prefix needle (String.◌∷◌ c s)) then true else rest

abbrev pub cmp_bool : Bool → Bool → Ordering
cmp_bool false true = lt
cmp_bool true false = gt
cmp_bool _ _ = eq

abbrev pub is_lt : Ordering → Bool
is_lt lt = true
is_lt _ = false

abbrev pub is_gt : Ordering → Bool
is_gt gt = true
is_gt _ = false

abbrev pub same_order : Ordering → Ordering → Bool
same_order lt lt = true
same_order eq eq = true
same_order gt gt = true
same_order _ _ = false

abbrev pub reverse_order : Ordering → Ordering
reverse_order lt = gt
reverse_order eq = eq
reverse_order gt = lt

module _ {N : Type 0} where
  unfoldable pub get : String → Fields N → Option (Json N)
  get key end = none
  get key (entry k v fs) = let rest = get key fs in if k == key then some v else rest

  unfoldable pub get_at : ℕ → Items N → Option (Json N)
  get_at n nil = none
  get_at zero (cons x xs) = some x
  get_at (suc n) (cons x xs) = get_at n xs

  unfoldable pub len_items : Items N → ℕ
  len_items nil = 0
  len_items (cons x xs) = suc (len_items xs)

  abbrev pub index_in : Items N → Option ℕ → Option (Json N)
  index_in xs none = none
  index_in xs (some n) = get_at n xs

  -- one segment of the path of a field
  abbrev pub enter : String → Json N → Option (Json N)
  enter seg (object fs) = get seg fs
  enter seg (array xs) = index_in xs (parse_index seg)
  enter seg _ = none

  unfoldable pub walk : List String → Json N → Option (Json N)
  walk [] cur = some cur
  walk (seg ∷ segs) cur = elim (enter seg cur) [ none ↦ none | some next ↦ walk segs next ]

  unfoldable pub lookup : Json N → String → Option (Json N)
  lookup body path = walk (split_dots path) body

pub record Record (N : Type 0) : Type 0 where
  pub space : String
  pub table : String
  pub record_id : String
  pub body : Json N
  pub schema_version : ℕ
  pub commit_version : ℕ
  pub deleted : Bool

pub data Filter (N : Type 0) : Type 0 where
  eq_to ne_to gt_than ge_than lt_than le_than : String → Json N → Filter N
  contains : String → String → Filter N
  exists : String → Filter N

pub data OrderDir : Type 0 where
  asc desc : OrderDir

pub record OrderBy : Type 0 where
  pub field : String
  pub dir : OrderDir

pub record Query (N : Type 0) : Type 0 where
  pub filters : List (Filter N)
  pub order_by : Option OrderBy
  pub limit : Option ℕ
  pub offset : ℕ
  pub include_deleted : Bool

abbrev pub directed : OrderDir → Ordering → Ordering
directed asc o = o
directed desc o = reverse_order o

module _ {N : Type 0} ⦃n : Numbers N⦄ where
  -- `==` on values
  unfoldable mutual
    pub same : Json N → Json N → Bool
    same null null = true
    same (bool true) (bool b) = b
    same (bool false) (bool b) = not b
    same (number x) (number y) = n.same_number x y
    same (string s) (string t) = s == t
    same (array xs) (array ys) = same_items xs ys
    same (object fs) (object gs) = same_fields fs gs
    same _ _ = false

    pub same_items : Items N → Items N → Bool
    same_items nil nil = true
    same_items (cons x xs) (cons y ys) = same x y && same_items xs ys
    same_items _ _ = false

    pub same_fields : Fields N → Fields N → Bool
    same_fields end end = true
    same_fields (entry k v fs) (entry j w gs) = k == j && (same v w && same_fields fs gs)
    same_fields _ _ = false

  -- `==` with `Some(value)`
  abbrev pub is_value : Json N → Option (Json N) → Bool
  is_value value none = false
  is_value value (some v) = same v value

  unfoldable pub cmp : Json N → Json N → Ordering
  cmp null null = eq
  cmp null _ = lt
  cmp _ null = gt
  cmp (bool x) (bool y) = cmp_bool x y
  cmp (number x) (number y) = Option.get_or (n.cmp_f64 x y) eq
  cmp (string x) (string y) = Prim.Native.String.compare x y
  cmp (array xs) (array ys) = compare (len_items xs) (len_items ys)
  cmp _ _ = eq

  abbrev pub compares : (Ordering → Bool) → Json N → Option (Json N) → Bool
  compares test value none = false
  compares test value (some v) = test (cmp v value)

  abbrev pub text_has : String → Option (Json N) → Bool
  text_has needle (some (string s)) = has_text needle s
  text_has needle _ = false

  unfoldable pub matches : Filter N → Json N → Bool
  matches (eq_to path value) body = is_value value (lookup body path)
  matches (ne_to path value) body = not (is_value value (lookup body path))
  matches (gt_than path value) body = compares is_gt value (lookup body path)
  matches (ge_than path value) body = compares (λ o. not (is_lt o)) value (lookup body path)
  matches (lt_than path value) body = compares is_lt value (lookup body path)
  matches (le_than path value) body = compares (λ o. not (is_gt o)) value (lookup body path)
  matches (contains path needle) body = text_has needle (lookup body path)
  matches (exists path) body = is_some (lookup body path)

  -- the two filters of `run`
  abbrev pub passes : Query N → Record N → Bool
  passes q r = (q.include_deleted || not r.deleted) && all (λ f. matches f r.body) q.filters

  abbrev pub cmp_found : Option (Json N) → Option (Json N) → Ordering
  cmp_found none none = eq
  cmp_found none (some y) = lt
  cmp_found (some x) none = gt
  cmp_found (some x) (some y) = cmp x y

  -- the comparison that `run` sorts by
  abbrev pub record_order : OrderBy → Record N → Record N → Ordering
  record_order ob a b =
      directed ob.dir (cmp_found (lookup a.body ob.field) (lookup b.body ob.field))

  -- the stable sort by a total order
  unfoldable pub insert_record : OrderBy → Record N → List (Record N) → List (Record N)
  insert_record ob r [] = r ∷ []
  insert_record ob r (x ∷ xs) =
      let rest = insert_record ob r xs in
      if is_gt (record_order ob r x) then x ∷ rest else r ∷ x ∷ xs

  unfoldable pub sort_records : OrderBy → List (Record N) → List (Record N)
  sort_records ob [] = []
  sort_records ob (r ∷ rs) = insert_record ob r (sort_records ob rs)

  -- whether `b` against `a` is `a` against `b` turned around
  abbrev pub is_reversed : OrderBy → Record N → Record N → Bool
  is_reversed ob a b = same_order (record_order ob b a) (reverse_order (record_order ob a b))

  abbrev pub not_after : OrderBy → Record N → Record N → Bool
  not_after ob a b = not (is_gt (record_order ob a b))

  -- whether `a`, `b` and `c` are in no cycle
  abbrev pub is_transitive : OrderBy → Record N → Record N → Record N → Bool
  is_transitive ob a b c = not (not_after ob a b && not_after ob b c) || not_after ob a c

  -- the comparison is a total order on the records, which `sort_by` asks for
  abbrev pub is_total : OrderBy → List (Record N) → Bool
  is_total ob rs =
      all (λ a. all (λ b. is_reversed ob a b && all (λ c. is_transitive ob a b c) rs) rs) rs

  -- `sort_by`; `none` where the comparison is no total order, since it then leaves the records in an order
  -- that is not specified, or panics
  abbrev pub ordered : Option OrderBy → List (Record N) → Option (List (Record N))
  ordered none rs = some rs
  ordered (some ob) rs = if is_total ob rs then some (sort_records ob rs) else none

  abbrev pub limited : Option ℕ → List (Record N) → List (Record N)
  limited none rs = rs
  limited (some count) rs = take count rs

  -- `split_off` of the offset, which is cut to the length, and `truncate`
  abbrev pub cut : Query N → List (Record N) → List (Record N)
  cut q out =
      let skip = min q.offset (length out) in
      limited q.limit (if ltb 0 skip then drop skip out else out)

  unfoldable pub run : Query N → List (Record N) → Option (List (Record N))
  run q records = Option.map (cut q) (ordered q.order_by (retain (passes q) records))
