-- ===== src/Text/Tests.antt =====
-- Runs of the methods on texts.
use xtable.Prelude.{◌≡◌, refl, none, some, [], ◌∷◌}
use xtable.Text.{strip_prefix, strip_suffix, split, show_before, show_u32, parse_digits, parse_u32}

methods : Unit {0}
unfolding strip_prefix strip_suffix split show_before parse_digits parse_u32
methods = tt

splits : split "a//b/" ≡ "a" ∷ "" ∷ "b" ∷ "" ∷ []
unfolding methods
splits = refl

shows : show_u32 4294967295 ≡ "4294967295"
unfolding methods
shows = refl

shows_zero : show_u32 0 ≡ "0"
unfolding methods
shows_zero = refl

parses : parse_u32 "+0042" ≡ some 42
unfolding methods
parses = refl

too_large : parse_u32 "4294967296" ≡ none
unfolding methods
too_large = refl

no_sign_alone : parse_u32 "+" ≡ none
unfolding methods
no_sign_alone = refl

strips : strip_suffix ".json" "a.json.json" ≡ some "a.json"
unfolding methods
strips = refl
