-- ===== src/Flush/Uploads.antt =====
-- What a flush that returns has stored.
use xtable.Prelude.{
  ℕ, ◌≡◌, ◌+◌, ◌%◌, ◌≤◌, ◌++◌, length, length-append, subst, arith, refl, sym, ◌∙◌, ap, String,
  false, none, some, List, [], ◌∷◌, map, lookup, lookup-insert_self, string_key, nat_key, ◌==◌,
  ◌||◌,
}
use xtable.Prelude.Words.{u64_max}
use xtable.Errors.{Result, ok, err, >>=-ok}
use xtable.Records.{Bytes, ChunkIndexEntry}
use xtable.Store.{LocalStore}
use xtable.Store.Chunks.{put_chunk_index}
use xtable.Memtable.{MemEntry, MemTable}
use xtable.Chunk.{ChunkHeader, ChunkFooter, Codecs, encode_header, encode_footer}
use xtable.Chunk.Writer.{ChunkWriter, new_writer, append, finalize, footer_of, header_of, file_of}
use xtable.Chunk.FileTrip.{append_all}
use xtable.World.{World, Done, return, put_object, redb_do}
use xtable.World.Inversion.{Returns, bind-Returns, return-Returns, raise-Returns, redb_do-Returns}
use xtable.World.Objects.{objects-IsApart, Stays-redb_do, put_object-Returns}
use xtable.Flush.Names.{s3_key}
use xtable.Wire.{le}
use xtable.Flush.{
  header_bytes_len, chunk_entry, visible_rows, write_entries, index_entry, upload_chunk,
  record_flush, record_progress, upload_and_record, flush_one,
}
use xtable.Flush.Frame.{Keeps-record_progress, Stays-record_progress}
use xtable.Flush.Durable.{HasChunk-Tail}

module _ (codecs : Codecs) where
  write_more :
      (c : String) (es : List MemEntry) (w : ChunkWriter)
      → write_entries codecs c es (some w) ≡ some (append_all codecs (map chunk_entry es) w)
  unfolding write_entries
  write_more c [] w = refl
  write_more c (e ∷ es) w = write_more c es (append codecs (chunk_entry e) w)

  write_all :
      (c : String) (e : MemEntry) (es : List MemEntry)
      → write_entries codecs c (e ∷ es) none
        ≡ some (append_all codecs (map chunk_entry (e ∷ es)) (new_writer c e.key.0 e.key.1))
  unfolding write_entries
  write_all c e es = write_more c es (append codecs (chunk_entry e) (new_writer c e.key.0 e.key.1))

  -- the footer that the writer returns
  pub finalize-footer :
      (w : ChunkWriter) (now : ℕ) (file : Bytes) (h : ChunkHeader) (f : ChunkFooter)
      → finalize codecs w now ≡ ok (file, h, f)
      → f ≡ footer_of codecs w
  unfolding finalize
  finalize-footer w now file h f run =
      let (z, compressed, rest) = >>=-ok (codecs.compress w.body) _ run in
      let (footer, encoded, last) = >>=-ok (encode_footer codecs (footer_of codecs w)) _ rest in
      unpack (file_of (header_of w now z) z footer, header_of w now z, footer_of codecs w) last
    where
      unpack : (p : Bytes × ChunkHeader × ChunkFooter) → ok p ≡ ok (file, h, f) → f ≡ p.2
      unpack p e = cc

  -- The slice of the compressed body that the flush takes, and does not use, lies inside the file.
  header_bytes_len-finalize :
      (w : ChunkWriter) (now : ℕ) (file : Bytes) (h : ChunkHeader) (f : ChunkFooter)
      → finalize codecs w now ≡ ok (file, h, f)
      → header_bytes_len h + h.compressed_body_len ≤ length file
  unfolding finalize header_bytes_len encode_header
  header_bytes_len-finalize w now file h f run =
      let (z, compressed, rest) = >>=-ok (codecs.compress w.body) _ run in
      let (footer, encoded, last) = >>=-ok (encode_footer codecs (footer_of codecs w)) _ rest in
      let head = encode_header (header_of w now z) in
      let tail = footer ++ le 4 (length footer % 4294967296) in
      let whole : length (file_of (header_of w now z) z footer)
          ≡ length head + (length z + length tail) =
        length-append head (z ++ tail) ∙ ap (λ n. length head + n) (length-append z tail) in
      let fits : length head + length z ≤ length (file_of (header_of w now z) z footer) =
        omega (arith, whole) in
      let same : (file_of (header_of w now z) z footer, header_of w now z, footer_of codecs w)
          ≡ (file, h, f) =
        ok-value last in
      subst
        (λ (r : Bytes × ChunkHeader × ChunkFooter).
          header_bytes_len r.1 + r.1.compressed_body_len ≤ length r.0)
        same fits
    where
      ok-value : {p q : Bytes × ChunkHeader × ChunkFooter} → ok p ≡ ok q → p ≡ q
      ok-value e = cc

  -- the chunk of a writer is stored: its file under the key that the row of the chunk index names
  abbrev pub IsStored : MemTable → String → ℕ → ChunkWriter → World → Type 0
  IsStored mt c now writer w =
      (file : Bytes) × (h : ChunkHeader) × (f : ChunkFooter) × (finalize codecs writer now
        ≡ ok (file, h, f))
      × (lookup c w.store.chunk_index ≡ some (index_entry codecs mt c h f file "" now))
      × (lookup (s3_key codecs h c) w.objects ≡ some file)

  records_chunk :
      (mt : MemTable) (c : String) (entry : ChunkIndexEntry) (key : String) (file : Bytes)
      (w w' : World) (u : Done)
      → lookup key w.objects ≡ some file
      → Returns (record_flush mt c entry) w u w'
      → (lookup c w'.store.chunk_index ≡ some entry) × (lookup key w'.objects ≡ some file)
  unfolding record_flush put_chunk_index
  records_chunk mt c entry key file w w' u there run =
      let (a, mid, first, rest) =
        bind-Returns (redb_do (put_chunk_index c entry)) (λ _. record_progress mt c) w w' u run in
      let row : lookup c mid.store.chunk_index ≡ some entry =
        ap (λ (s : LocalStore). lookup c s.chunk_index)
          (sym (redb_do-Returns (put_chunk_index c entry) w mid a first))
        ∙ lookup-insert_self c entry w.store.chunk_index in
      let moved : mid.objects ≡ w.objects =
        ap (λ (p : Result Done × World). p.1.objects) (sym first)
        ∙ (Stays-redb_do (λ (w : World). w.objects) objects-IsApart (put_chunk_index c entry)).at
            w in
      let last : w'.objects ≡ mid.objects =
        ap (λ (p : Result Done × World). p.1.objects) (sym rest)
        ∙ (Stays-record_progress (λ (w : World). w.objects) objects-IsApart mt c).at mid in
      (
        ap (λ (p : Result Done × World). lookup c p.1.store.chunk_index) (sym rest)
            ∙ (Keeps-record_progress (HasChunk-Tail c entry) mt c).at mid row,
        ap (lookup key) (last ∙ moved) ∙ there,
      )

  uploads_file :
      (mt : MemTable) (c : String) (now : ℕ) (writer : ChunkWriter) (w w' : World) (u : Done)
      (r : Result (Bytes × ChunkHeader × ChunkFooter))
      → finalize codecs writer now ≡ r
      → Returns (upload_and_record codecs mt c now r) w u w'
      → IsStored mt c now writer w'
  unfolding upload_chunk
  uploads_file mt c now writer w w' u (err e) q run = absurd (raise-Returns e u w w' run)
  uploads_file mt c now writer w w' u (ok (file, h, f)) q run =
      let key = s3_key codecs h c in
      let (etag, mid, first, rest) =
        bind-Returns (upload_chunk key file)
          (λ etag. record_flush mt c (index_entry codecs mt c h f file etag now)) w w' u run in
      let (a, up, put, tag) =
        bind-Returns (put_object key file) (λ _. return "") w mid etag first in
      let (named, same) = return-Returns "" etag up mid tag in
      let there : lookup key mid.objects ≡ some file =
        ap (λ (x : World). lookup key x.objects) (sym same)
        ∙ (ap (lookup key) (sym (put_object-Returns key file w up a put).1)
            ∙ lookup-insert_self key file w.objects) in
      let (row, object) =
        records_chunk mt c (index_entry codecs mt c h f file etag now) key file mid w' u there
          rest in
      (
        file,
        h,
        f,
        q,
        row ∙ ap (λ t. some (index_entry codecs mt c h f file t now)) (sym named),
        object,
      )

  -- A flush that returns has stored the chunk of the visible entries of the memtable: the file of the
  -- writer stands in the bucket under the key that the row of the chunk index names.
  pub flush_one-IsStored :
      (mt : MemTable) (c : String) (now : ℕ) (e : MemEntry) (es : List MemEntry) (w w' : World)
      (u : Done)
      → (mt.earliest_seq == u64_max || mt.latest_seq == 0) ≡ false
      → visible_rows mt.rows ≡ e ∷ es
      → Returns (flush_one codecs mt c now) w u w'
      → IsStored mt c now
          (append_all codecs (map chunk_entry (e ∷ es)) (new_writer c e.key.0 e.key.1))
          w'
  unfolding flush_one
  flush_one-IsStored mt c now e es w w' u full rows run =
      let writer = ap (λ xs. write_entries codecs c xs none) rows ∙ write_all c e es in
      uploads_file mt c now
        (append_all codecs (map chunk_entry (e ∷ es)) (new_writer c e.key.0 e.key.1)) w w' u _ refl
        (rw (full, writer) at run)
