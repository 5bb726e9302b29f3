-- ===== src/Chunk/Index.antt =====
-- The key index of a footer points at the entries, and the header bounds their keys.
use xtable.Prelude.{
  ℕ, ◌≡◌, refl, sym, ◌∙◌, subst, true, false, List, [], ◌∷◌, ◌++◌, All, Elem, drop, map, String,
  nat_key, inl, inr, Bool-cases, arith,
}
use mathlib.Core.List.{append_assoc, append-nil}
use xtable.Records.{Bytes}
use xtable.Wire.{done}
use xtable.Chunk.{ChunkEntry, KeyIndexEntry, Codecs}
use xtable.Chunk.Entry.{decode_entry}
use xtable.Chunk.Writer.{
  entry_key, bytes_lt, min_from, max_from, min_key, max_key, ChunkWriter, new_writer, append,
  header_of,
}
use xtable.Chunk.FileTrip.{append_all}

-- at the offset of the sample the bytes are those of an entry that has its key and its version
abbrev pub PointsAt : List ChunkEntry → Bytes → KeyIndexEntry → Type 0
PointsAt es body k =
    (e : ChunkEntry) × (rest : Bytes) × Elem e es
    × (decode_entry (drop k.body_offset body) ≡ done e rest)
    × (entry_key e ≡ k.key_bytes)
    × (e.commit_version ≡ k.commit_version)

-- the order of keys, as "not above"
abbrev pub AtMost : Bytes → Bytes → Type 0
AtMost a b = bytes_lt b a ≡ false

AtMost-refl : (a : Bytes) → AtMost a a
AtMost-refl [] = refl
AtMost-refl (x ∷ xs) = let ih = AtMost-refl xs in ground arith

AtMost-trans : (a b c : Bytes) → AtMost a b → AtMost b c → AtMost a c
AtMost-trans [] [] [] h k = refl
AtMost-trans [] [] (z ∷ c) h k = refl
AtMost-trans [] (y ∷ b) [] h k = refl
AtMost-trans [] (y ∷ b) (z ∷ c) h k = refl
AtMost-trans (x ∷ a) [] c h k = absurd (cc)
AtMost-trans (x ∷ a) (y ∷ b) [] h k = absurd (cc)
AtMost-trans (x ∷ a) (y ∷ b) (z ∷ c) h k = ground (arith, AtMost-trans a b c)

lt-AtMost : (a b : Bytes) → bytes_lt a b ≡ true → AtMost a b
lt-AtMost [] [] h = absurd (cc)
lt-AtMost [] (y ∷ b) h = refl
lt-AtMost (x ∷ a) [] h = absurd (cc)
lt-AtMost (x ∷ a) (y ∷ b) h = ground (arith, lt-AtMost a b)

abbrev Below : Bytes → Bytes → List Bytes → Type 0
Below low best ks = AtMost low best × All (λ k. AtMost low k) ks

min_from-Below : (best : Bytes) (ks : List Bytes) → Below (min_from best ks) best ks
unfolding min_from
min_from-Below best [] = (AtMost-refl best, tt)
min_from-Below best (k ∷ ks) = elim (Bool-cases (bytes_lt k best)) [
  | inl less ↦
      let (a, b) = min_from-Below k ks in
      subst (λ low. Below low best (k ∷ ks)) (rw less refl)
        ((AtMost-trans (min_from k ks) k best a (lt-AtMost k best less), (a, b)))
  | inr more ↦
      let (a, b) = min_from-Below best ks in
      subst (λ low. Below low best (k ∷ ks)) (rw more refl)
        ((a, (AtMost-trans (min_from best ks) best k a more, b)))
]

abbrev Above : Bytes → Bytes → List Bytes → Type 0
Above high best ks = AtMost best high × All (λ k. AtMost k high) ks

max_from-Above : (best : Bytes) (ks : List Bytes) → Above (max_from best ks) best ks
unfolding max_from
max_from-Above best [] = (AtMost-refl best, tt)
max_from-Above best (k ∷ ks) = elim (Bool-cases (bytes_lt k best)) [
  | inl less ↦
      let (a, b) = max_from-Above best ks in
      subst (λ high. Above high best (k ∷ ks)) (rw less refl)
        ((a, (AtMost-trans k best (max_from best ks) (lt-AtMost k best less) a, b)))
  | inr more ↦
      let (a, b) = max_from-Above k ks in
      subst (λ high. Above high best (k ∷ ks)) (rw more refl)
        ((AtMost-trans best k (max_from k ks) more a, (a, b)))
]

both :
    (es : List ChunkEntry) (low high : Bytes)
    → All (λ k. AtMost low k) (map entry_key es)
    → All (λ k. AtMost k high) (map entry_key es)
    → All (λ e. AtMost low (entry_key e) × AtMost (entry_key e) high) es
both [] low high a b = tt
both (e ∷ es) low high a b = ((a.0, b.0), both es low high a.1 b.1)

spans :
    (es : List ChunkEntry)
    → All
        (λ e.
          AtMost (min_key (map entry_key es)) (entry_key e)
          × AtMost (entry_key e) (max_key (map entry_key es)))
        es
spans [] = tt
spans (e ∷ es) =
    both (e ∷ es) (min_from (entry_key e) (map entry_key es))
      (max_from (entry_key e) (map entry_key es)) (min_from-Below (entry_key e) (map entry_key es))
      (max_from-Above (entry_key e) (map entry_key es))

module _ (codecs : Codecs) where
  pub append_all-keys :
      (es : List ChunkEntry) (w : ChunkWriter)
      → (append_all codecs es w).keys ≡ w.keys ++ map entry_key es
  unfolding append
  append_all-keys [] w = sym (append-nil w.keys)
  append_all-keys (e ∷ es) w =
      append_all-keys es (append codecs e w)
      ∙ append_assoc w.keys (entry_key e ∷ []) (map entry_key es)

  -- In the order of byte strings the key of every entry of a chunk lies between the least and the greatest
  -- key of its header.
  pub header_of-AtMost :
      (chunk_id space table : String) (es : List ChunkEntry) (now : ℕ) (compressed : Bytes)
      → let h = header_of (append_all codecs es (new_writer chunk_id space table)) now compressed in
        All (λ e. AtMost h.key_min (entry_key e) × AtMost (entry_key e) h.key_max) es
  header_of-AtMost chunk_id space table es now compressed =
      subst
        (λ keys.
          All (λ e. AtMost (min_key keys) (entry_key e) × AtMost (entry_key e) (max_key keys)) es)
        (sym (append_all-keys es (new_writer chunk_id space table))) (spans es)
