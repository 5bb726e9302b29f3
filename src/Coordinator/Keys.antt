-- ===== src/Coordinator/Keys.antt =====
-- xtable-tx/src/coordinator.rs: the parse of a storage key, and the sort of the keys of a commit.
use xtable.Prelude.{String, Option, some, List, [], ◌∷◌, ◌==◌, nat_key, string_key, if◌then◌else◌}
use xtable.Store.{RecordKey}
use xtable.Store.Chains.{goes_after}
use mathlib.Core.Option
use xtable.Text.{strip_prefix, strip_suffix, split_slash, ◌>>=◌}

abbrev pub with_second : String → String → String → Option RecordKey
with_second space second rest =
    if second == "_schema"
    then some (space, "_schema", rest)
    else Option.map (λ record_id. (space, second, record_id)) (strip_suffix ".json" rest)

-- `splitn(3, '/')` gives all three parts, or the key has not this shape
unfoldable pub parse_record_key : String → Option RecordKey
parse_record_key backend_key = do
  stripped ← strip_prefix "_xtable/" backend_key
  (space, tail) ← split_slash stripped
  (second, rest) ← split_slash tail
  with_second space second rest

abbrev pub insert_key : String → List String → List String
insert_key k [] = k ∷ []
insert_key k (j ∷ js) =
    let rest = insert_key k js in if goes_after (string_key.cmp k j) then j ∷ rest else k ∷ j ∷ js

-- `sort()` on the keys
abbrev pub sort_keys : List String → List String
sort_keys [] = []
sort_keys (k ∷ ks) = insert_key k (sort_keys ks)
