-- ===== src/Flush/Search.antt =====
-- xtable-storage/src/read.rs: what the search of a chunk by a reader finds.
use xtable.Prelude.{
  ℕ, ◌≡◌, refl, sym, ◌∙◌, ap, true, false, Bool, if◌then◌else◌, not, Option, none, some, List, [],
  ◌∷◌, map, Elem, lookup, string_key, triple_key, nat_key, ◌==◌, ==→eq, Bool-cases, Option-cases,
  inl, inr, arith,
}
use mathlib.Core.Option
use xtable.Errors.{Result}
use xtable.Records.{Bytes, ChunkIndexEntry}
use xtable.Store.{LocalStore}
use xtable.Store.{RecordKey}
use xtable.Memtable.{MemEntry}
use xtable.Wire.{done}
use xtable.Chunk.{ChunkEntry, Codecs, compose_key_bytes, bloom_bits_per_key}
use xtable.Chunk.Entry.{decode_body_entries}
use xtable.Chunk.Bloom.{build_bloom, bloom_may_contain}
use xtable.Chunk.NoFalseNegatives.{bloom_may_contain-build_bloom}
use xtable.Chunk.Writer.{entry_key, decompress_body}
use xtable.World.{World, Exec, redb_read, get_object}
use xtable.World.Inversion.{Returns, bind-Returns, return-Returns, redb_read-Returns}
use xtable.World.Objects.{objects-IsApart, Stays-redb_read, get_object-Returns}
use xtable.Read.{
  Reply, answer, chunk_result, entry_matches, newest_match, search_body, version_span, search_chunk,
  denies,
}
use xtable.Read.Newest.{newest_match-Elem}
use xtable.Flush.{chunk_entry}
use xtable.Flush.Finds.{entry_matches_lem}

-- the branch that a decided test leaves
pub then-Returns :
    (b : Bool) (m n : Exec Reply) (w w' : World) (r : Reply)
    → b ≡ true
    → Returns (if b then m else n) w r w'
    → Returns m w r w'
then-Returns true m n w w' r e run = run
then-Returns false m n w w' r e run = absurd cc

pub else-Returns :
    (b : Bool) (m n : Exec Reply) (w w' : World) (r : Reply)
    → b ≡ false
    → Returns (if b then m else n) w r w'
    → Returns n w r w'
else-Returns false m n w w' r e run = run
else-Returns true m n w w' r e run = absurd cc

pub map_twice :
    (o : Option MemEntry)
    → Option.map chunk_result (Option.map chunk_entry o)
      ≡ Option.map (λ x. chunk_result (chunk_entry x)) o
map_twice none = refl
map_twice (some x) = refl

-- a read of the chunk index, with the parts of the world that it keeps
pub index-Returns :
    {A : Type 0} (f : LocalStore → A) (w w' : World) (a : A)
    → Returns (redb_read f) w a w'
    → (f w.store ≡ a) × (w.store ≡ w'.store) × (w'.objects ≡ w.objects)
index-Returns {A} f w w' a run =
    let (got, kept) = redb_read-Returns f w w' a run in
    (
      got,
      kept,
      ap (λ (p : Result A × World). p.1.objects) (sym run)
          ∙ (Stays-redb_read (λ (w : World). w.objects) objects-IsApart f).at w,
    )

module _ (codecs : Codecs) where
  key_of-matching :
      (key : RecordKey) (s : ℕ) (x : ChunkEntry)
      → entry_matches key s x ≡ true
      → entry_key x ≡ compose_key_bytes key.0 key.1 key.2
  key_of-matching key s x h =
      let same : ◌==◌ {K = RecordKey} (x.space, x.table, x.record_id) key ≡ true =
        ground (arith, entry_matches_lem key s x) in
      ap (λ (k : RecordKey). compose_key_bytes k.0 k.1 k.2)
        (==→eq {K = RecordKey} (x.space, x.table, x.record_id) key same)

  Elem-map :
      (x : ChunkEntry) (es : List ChunkEntry) → Elem x es → Elem (entry_key x) (map entry_key es)
  Elem-map x [] m = elim m [ ]
  Elem-map x (y ∷ es) (inl e) = inl (ap entry_key e)
  Elem-map x (y ∷ es) (inr m) = inr (Elem-map x es m)

  -- a key that the filter denies is no entry's
  denied-none :
      (key : RecordKey) (s : ℕ) (es : List ChunkEntry)
      → denies codecs (some (build_bloom codecs (map entry_key es) bloom_bits_per_key)) key ≡ true
      → newest_match key s none es ≡ none
  denied-none key s es h = elim (Option-cases (newest_match key s none es)) [
    | inl nothing ↦ nothing
    | inr (x, found) ↦ elim (newest_match-Elem key s none es x found) [
      | inl impossible ↦ absurd cc
      | inr (m, matches) ↦
          let seen =
            bloom_may_contain-build_bloom codecs (map entry_key es) bloom_bits_per_key (entry_key x)
              (Elem-map x es m) in
          let same = key_of-matching key s x matches in
          absurd (
            cc (
              ap
                  (λ k. not (
                    bloom_may_contain codecs
                      (build_bloom codecs (map entry_key es) bloom_bits_per_key) k))
                  same,
              ap not seen,
              h,
            ))
    ]
  ]

  -- a chunk that is found and a file that is read back are searched for the entries they hold
  pub search-Returns :
      (key : RecordKey) (s : ℕ) (entry : ChunkIndexEntry) (file body : Bytes) (es : List ChunkEntry)
      (w w' : World) (r : Reply)
      → entry.bloom ≡ some (build_bloom codecs (map entry_key es) bloom_bits_per_key)
      → lookup entry.s3_key w.objects ≡ some file
      → decompress_body codecs file ≡ done body []
      → decode_body_entries codecs
          (version_span entry.commit_version_min entry.commit_version_max)
          body
        ≡ some (done es [])
      → Returns (search_chunk codecs key s (some entry)) w r w'
      → r ≡ answer (Option.map chunk_result (newest_match key s none es))
  search-Returns key s entry file body es w w' r bloom there packed entries run =
      elim (Bool-cases (denies codecs entry.bloom key)) [
        | inl denied ↦
            let none_here =
              denied-none key s es (ap (λ o. denies codecs o key) (sym bloom) ∙ denied) in
            sym (return-Returns (answer none) r w w' (rw denied at run)).0
            ∙ ap (λ o. answer (Option.map chunk_result o)) (sym none_here)
        | inr passed ↦
            let (got, mid, first, rest) =
              bind-Returns (get_object entry.s3_key)
                (λ file.
                  search_body codecs key s
                    (version_span entry.commit_version_min entry.commit_version_max)
                    (decompress_body codecs file))
                w w' r (rw passed at run) in
            let same : got ≡ file = cc (get_object-Returns entry.s3_key w mid got first, there) in
            sym (return-Returns _ r mid w' (rw (same, packed, entries) at rest)).0
      ]
