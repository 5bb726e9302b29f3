-- ===== src/Wire/Tests.antt =====
-- Runs of the cursor and of UTF-8.
use xtable.Prelude.{◌≡◌, refl, none, some, [], ◌∷◌}
use xtable.Errors.{XtableError}
use xtable.Wire.{le, from_le, failed, panicked, split_at, read_le, slice, text}
use xtable.Wire.Utf8.{as_bytes, decode, from_utf8, to_char}

wire : Unit {0}
unfolding le from_le split_at read_le slice text as_bytes decode to_char
wire = tt

little_endian : le 4 0x12345678 ≡ 0x78 ∷ 0x56 ∷ 0x34 ∷ 0x12 ∷ []
unfolding wire
little_endian = refl

too_short : read_le 4 (1 ∷ 2 ∷ []) ≡ failed XtableError.storage
unfolding wire
too_short = refl

out_of_range : slice 4 (1 ∷ 2 ∷ []) ≡ panicked
unfolding wire
out_of_range = refl

euro : as_bytes "€" ≡ 0xe2 ∷ 0x82 ∷ 0xac ∷ []
unfolding wire
euro = refl

four_bytes : from_utf8 (0xf0 ∷ 0x9f ∷ 0x98 ∷ 0x80 ∷ []) ≡ some "😀"
unfolding wire
four_bytes = refl

overlong : from_utf8 (0xe0 ∷ 0x80 ∷ 0xaf ∷ []) ≡ none
unfolding wire
overlong = refl

surrogate : from_utf8 (0xed ∷ 0xa0 ∷ 0x80 ∷ []) ≡ none
unfolding wire
surrogate = refl
