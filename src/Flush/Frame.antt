-- ===== src/Flush/Frame.antt =====
-- What a flush leaves alone, whatever fails, for any relation between stores that its writes keep.
use xtable.Prelude.{ℕ, refl, String, Option, none, some, nat_key, ◌==◌, ◌||◌, inl, inr, Bool-cases}
use xtable.Prelude.Words.{u64_max}
use xtable.Errors.{Result, ok, err}
use xtable.Records.{Bytes, WalRecord, ChunkIndexEntry}
use xtable.Store.{LocalStore, RecordKey}
use xtable.Store.Meta.{append_wal}
use xtable.Store.Index.{update_record_index_chunk_id_for_version}
use xtable.Store.Chunks.{put_chunk_index, set_flushed_seq, truncate_wal}
use xtable.Memtable.{MemEntry, MemTable}
use xtable.Chunk.{ChunkHeader, ChunkFooter, Codecs}
use xtable.Chunk.Writer.{ChunkWriter, finalize}
use xtable.World.{World, next_fails, raise, put_object}
use xtable.World.Frame.{
  Order, Keeps, Keeps-return, Keeps-raise, Keeps-if, Keeps-redb, Keeps-redb_do, Keeps-put_object,
  Keeps-bind, Keeps-ignore, Keeps-each,
}
use xtable.World.Objects.{
  IsApart, Stays, Stays-if, Stays-return, Stays-redb, Stays-redb_do, Stays-ignore, Stays-bind,
  Stays-each,
}
use xtable.Flush.Names.{s3_key}
use xtable.Flush.{
  visible_rows, index_entry, upload_chunk, update_record_index_after_flush, record_progress,
  record_flush, upload_and_record, flush_writer, flush_one,
}

-- the relation holds across the writes that come after the row of the chunk
pub record Tail (S : LocalStore → LocalStore → Type 0) : Type 0 where
  pub order : Order S
  pub row :
      (key : RecordKey) (v : ℕ) (c : String) (s : LocalStore)
      → S s (update_record_index_chunk_id_for_version key v c s).1
  pub wal : (r : WalRecord) (s : LocalStore) → S s (append_wal r s).1
  pub seq : (n : ℕ) (s : LocalStore) → S s (set_flushed_seq n s)
  pub truncate : (n : ℕ) (s : LocalStore) → S s (truncate_wal n s).1

module _ {S : LocalStore → LocalStore → Type 0} (t : Tail S) where
  pub Keeps-update_rows :
      (mt : MemTable) (c : String) → Keeps S (update_record_index_after_flush mt c)
  unfolding update_record_index_after_flush
  Keeps-update_rows mt c =
      Keeps-each t.order
        (λ (e : MemEntry).
          Keeps-bind t.order (Keeps-redb t.order _ (t.row e.key e.commit_version c))
            (λ _. Keeps-return t.order tt))
        (visible_rows mt.rows)

  -- the writes after the row of the chunk
  pub Keeps-record_progress : (mt : MemTable) (c : String) → Keeps S (record_progress mt c)
  unfolding record_progress
  Keeps-record_progress mt c =
      Keeps-bind t.order (Keeps-ignore t.order (Keeps-update_rows mt c)) (λ _.
        Keeps-bind t.order (Keeps-redb t.order _ (t.wal _)) (λ _.
          Keeps-bind t.order (Keeps-redb_do t.order _ (t.seq mt.latest_seq))
            (λ _. Keeps-ignore t.order (Keeps-redb t.order _ (t.truncate mt.latest_seq)))))

  pub Keeps-record_flush :
      (mt : MemTable) (c : String) (entry : ChunkIndexEntry)
      → ((s : LocalStore) → S s (put_chunk_index c entry s))
      → Keeps S (record_flush mt c entry)
  unfolding record_flush
  Keeps-record_flush mt c entry put =
      Keeps-bind t.order (Keeps-redb_do t.order (put_chunk_index c entry) put)
        (λ _. Keeps-record_progress mt c)

  module _ (codecs : Codecs)
      (put : (c : String) (entry : ChunkIndexEntry) (s : LocalStore)
        → S s (put_chunk_index c entry s)) where
    Keeps-upload :
        (mt : MemTable) (c : String) (now : ℕ) (r : Result (Bytes × ChunkHeader × ChunkFooter))
        → Keeps S (upload_and_record codecs mt c now r)
    unfolding upload_chunk
    Keeps-upload mt c now (err e) = Keeps-raise t.order e
    Keeps-upload mt c now (ok (file, header, footer)) =
        Keeps-bind t.order
          (Keeps-bind t.order (Keeps-put_object t.order (s3_key codecs header c) file)
            (λ _. Keeps-return t.order ""))
          (λ etag.
            Keeps-record_flush mt c (index_entry codecs mt c header footer file etag now)
              (put c (index_entry codecs mt c header footer file etag now)))

    Keeps-writer :
        (mt : MemTable) (c : String) (now : ℕ) (o : Option ChunkWriter)
        → Keeps S (flush_writer codecs mt c now o)
    Keeps-writer mt c now none = Keeps-return t.order tt
    Keeps-writer mt c now (some writer) = Keeps-upload mt c now (finalize codecs writer now)

    pub Keeps-flush_one :
        (mt : MemTable) (c : String) (now : ℕ) → Keeps S (flush_one codecs mt c now)
    unfolding flush_one
    Keeps-flush_one mt c now =
        Keeps-if t.order (mt.earliest_seq == u64_max || mt.latest_seq == 0)
          (Keeps-return t.order tt) (Keeps-writer mt c now _)

-- the writes to the store leave the rest of the world alone
module _ {X : Type 0} (part : World → X) (apart : IsApart part) where
  pub Stays-record_progress : (mt : MemTable) (c : String) → Stays part (record_progress mt c)
  unfolding record_progress update_record_index_after_flush
  Stays-record_progress mt c =
      Stays-bind
        (Stays-ignore (
          Stays-each apart _ (visible_rows mt.rows) (λ (e : MemEntry).
            Stays-bind
              (Stays-redb part apart
                (update_record_index_chunk_id_for_version e.key e.commit_version c))
              (λ _. Stays-return part apart tt))))
        (λ _. Stays-bind (Stays-redb part apart _) (λ _.
          Stays-bind (Stays-redb_do part apart _) (λ _. Stays-ignore (Stays-redb part apart _))))

mems-IsApart : IsApart (λ (w : World). w.mems)
mems-IsApart w store schedule = refl

module _ (codecs : Codecs) where
  Stays-upload :
      (mt : MemTable) (c : String) (now : ℕ) (r : Result (Bytes × ChunkHeader × ChunkFooter))
      → Stays (λ (w : World). w.mems) (upload_and_record codecs mt c now r)
  unfolding raise upload_chunk put_object record_flush
  Stays-upload mt c now (err e) = record { at = λ w. refl }
  Stays-upload mt c now (ok (file, header, footer)) =
      let part = λ (w : World). w.mems in
      Stays-bind
        (Stays-bind
          (record {
            at = λ w. elim (Bool-cases (next_fails w.schedule)) [
              | inl fails ↦ rw fails refl
              | inr works ↦ rw works refl
            ];
          })
          (λ _. Stays-return part mems-IsApart ""))
        (λ etag.
          Stays-bind (Stays-redb_do part mems-IsApart _)
            (λ _. Stays-record_progress part mems-IsApart mt c))

  Stays-writer :
      (mt : MemTable) (c : String) (now : ℕ) (o : Option ChunkWriter)
      → Stays (λ (w : World). w.mems) (flush_writer codecs mt c now o)
  Stays-writer mt c now none = Stays-return _ mems-IsApart tt
  Stays-writer mt c now (some x) = Stays-upload mt c now (finalize codecs x now)

  -- a flush leaves the memtables alone
  pub Stays-flush_one :
      (mt : MemTable) (c : String) (now : ℕ)
      → Stays (λ (w : World). w.mems) (flush_one codecs mt c now)
  unfolding flush_one
  Stays-flush_one mt c now =
      Stays-if (mt.earliest_seq == u64_max || mt.latest_seq == 0) (Stays-return _ mems-IsApart tt)
        (Stays-writer mt c now _)
