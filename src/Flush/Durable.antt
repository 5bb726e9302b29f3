-- ===== src/Flush/Durable.antt =====
-- A flush cuts the log only after the chunk is stored, and touches nothing that commits decide.
use xtable.Prelude.{
  ℕ, ◌≡◌, ◌⊎◌, inl, inr, refl, ◌∙◌, ap, String, Option, none, some, lookup, lookup-insert_self,
  string_key, nat_key, pair_key, triple_key, ◌==◌, ◌||◌, Bool-cases,
}
use xtable.Prelude.Words.{u64_max}
use xtable.Errors.{Result, ok, err}
use xtable.Records.{Bytes, ChunkIndexEntry}
use xtable.Store.{LocalStore}
use xtable.Store.Meta.{append_wal}
use xtable.Store.Index.{update_record_index_chunk_id_for_version}
use xtable.Store.Chunks.{put_chunk_index, set_flushed_seq, truncate_wal}
use xtable.Memtable.{MemTable}
use xtable.Chunk.{ChunkHeader, ChunkFooter, Codecs}
use xtable.Chunk.Writer.{ChunkWriter, finalize}
use xtable.World.{World, next_fails, advance, return, raise, redb_do, put_object, ◌>>=◌}
use xtable.World.Objects.{objects-IsApart}
use xtable.World.Frame.{Order}
use xtable.Flush.{
  visible_rows, write_entries, index_entry, upload_chunk, record_flush, upload_and_record,
  flush_writer, flush_one,
}
use xtable.Flush.Frame.{Tail, Keeps-record_progress, Keeps-flush_one, Stays-record_progress}

-- the tables that a commit decides: the chains, the transactions and the pins of their snapshots
abbrev pub Commits : LocalStore → LocalStore → Type 0
Commits a b =
    (a.version_chains ≡ b.version_chains)
    × (a.txn_state ≡ b.txn_state)
    × (a.active_snapshots ≡ b.active_snapshots)

Commits-Order : Order Commits
Commits-Order = record {
  same = λ a. (refl, refl, refl);
  after = λ a b c h k. (h.0 ∙ k.0, h.1 ∙ k.1, h.2 ∙ k.2);
}

Commits-Tail : Tail Commits
unfolding update_record_index_chunk_id_for_version append_wal set_flushed_seq truncate_wal
Commits-Tail = record {
  order = Commits-Order;
  row = λ key v c s. (refl, refl, refl);
  wal = λ r s. (refl, refl, refl);
  seq = λ n s. (refl, refl, refl);
  truncate = λ n s. (refl, refl, refl);
}

-- A flush leaves the chains, the transactions and the registered snapshots alone, whatever fails.
pub flush_one-Commits :
    (codecs : Codecs) (mt : MemTable) (c : String) (now : ℕ) (w : World)
    → Commits w.store (flush_one codecs mt c now w).1.store
unfolding put_chunk_index
flush_one-Commits codecs mt c now w =
    (Keeps-flush_one Commits-Tail codecs (λ c entry s. (refl, refl, refl)) mt c now).at w

-- the row of a chunk, once it is written, stays
abbrev pub HasChunk : String → ChunkIndexEntry → LocalStore → LocalStore → Type 0
HasChunk c entry a b = lookup c a.chunk_index ≡ some entry → lookup c b.chunk_index ≡ some entry

pub HasChunk-Tail : (c : String) (entry : ChunkIndexEntry) → Tail (HasChunk c entry)
unfolding update_record_index_chunk_id_for_version append_wal set_flushed_seq truncate_wal
HasChunk-Tail c entry = record {
  order = record { same = λ a h. h; after = λ a b d h k x. k (h x) };
  row = λ key v d s h. h;
  wal = λ r s h. h;
  seq = λ n s h. h;
  truncate = λ n s h. h;
}

-- the log and its counters are untouched, or the row of the chunk and its object are there
abbrev pub IsDurable : String → World → World → Type 0
IsDurable c w w' =
    ((w'.store.wal ≡ w.store.wal) × (w'.store.meta ≡ w.store.meta))
    ⊎ ((entry : ChunkIndexEntry) × (file : Bytes) × (lookup c w'.store.chunk_index ≡ some entry)
        × (lookup entry.s3_key w'.objects ≡ some file))

-- the writes to the store, from a world that has the object
record_flush-IsDurable :
    (mt : MemTable) (c : String) (entry : ChunkIndexEntry) (file : Bytes) (w₀ w : World)
    → w.store ≡ w₀.store
    → lookup entry.s3_key w.objects ≡ some file
    → IsDurable c w₀ (record_flush mt c entry w).1
unfolding record_flush redb_do put_chunk_index ◌>>=◌
record_flush-IsDurable mt c entry file w₀ w same there = elim (Bool-cases (next_fails w.schedule)) [
  | inl fails ↦
      rw fails (inl (ap (λ (s : LocalStore). s.wal) same, ap (λ (s : LocalStore). s.meta) same))
  | inr works ↦
      let w₁ = record (advance w) { store = put_chunk_index c entry w.store } in
      rw works (
        inr (
          entry,
          file,
          (Keeps-record_progress (HasChunk-Tail c entry) mt c).at w₁
              (lookup-insert_self c entry w.store.chunk_index),
          ap (lookup entry.s3_key)
                ((Stays-record_progress (λ (w : World). w.objects) objects-IsApart mt c).at w₁)
              ∙ there,
        ))
]

-- Whatever fails, a flush leaves the log and its counters as they were, or the chunk index has the row of
-- the chunk, and the bucket the object that the row names: no row of the log is cut, and no sequence number
-- is marked as flushed, before the chunk is stored.
pub flush_one-IsDurable :
    (codecs : Codecs) (mt : MemTable) (c : String) (now : ℕ) (w : World)
    → IsDurable c w (flush_one codecs mt c now w).1
unfolding flush_one return raise upload_chunk put_object ◌>>=◌
flush_one-IsDurable codecs mt c now w =
    elim (Bool-cases (mt.earliest_seq == u64_max || mt.latest_seq == 0)) [
      | inl empty ↦ rw empty (inl (refl, refl))
      | inr full ↦ rw full (writer (write_entries codecs c (visible_rows mt.rows) none))
    ]
  where
    file_of :
        (r : Result (Bytes × ChunkHeader × ChunkFooter))
        → IsDurable c w (upload_and_record codecs mt c now r w).1
    file_of (err e) = inl (refl, refl)
    file_of (ok (file, header, footer)) = elim (Bool-cases (next_fails w.schedule)) [
      | inl fails ↦ rw fails (inl (refl, refl))
      | inr works ↦ rw works (
          record_flush-IsDurable mt c (index_entry codecs mt c header footer file "" now) file w _
            refl (lookup-insert_self _ file w.objects))
    ]

    writer : (o : Option ChunkWriter) → IsDurable c w (flush_writer codecs mt c now o w).1
    writer none = inl (refl, refl)
    writer (some x) = file_of (finalize codecs x now)
