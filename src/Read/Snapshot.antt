-- ===== src/Read/Snapshot.antt =====
-- A reader sees no version above its snapshot.
use xtable.Prelude.{
  ℕ, ◌≡◌, ◌≤◌, inl, inr, refl, sym, ◌∙◌, ap, subst, Bool, true, false, Option, none, some, List, [],
  ◌∷◌, Elem, reverse, ltb, nat_key, string_key, if◌then◌else◌, Bool-cases, arith, lookup,
  triple_key,
}
use mathlib.Core.Option
use xtable.Errors.{XtableError}
use xtable.Records.{Bytes, RecordIndexEntry, StoredRecordVersion, ChunkIndexEntry}
use xtable.Store.{RecordKey}
use xtable.Store.Gc.{get_record_version_at_snapshot}
use xtable.Store.Gc.Best.{best_version-Elem}
use xtable.Store.Gc.History.{History, IsHistory}
use xtable.Store.Index.{get_record_index}
use xtable.Store.Chunks.{get_chunk_index}
use xtable.Memtable.{MemEntry, MemTable, visible_at, when_visible, get_visible}
use xtable.Memtable.Set.{MemTableSet, first_visible}
use xtable.Wire.{Parsed, done, failed, panicked}
use xtable.Chunk.{ChunkEntry, Codecs}
use xtable.Chunk.Entry.{decode_body_entries}
use xtable.Chunk.Writer.{decompress_body}
use xtable.World.{World, Exec, return, raise, update, redb_read, get_object, ◌>>=◌}
use xtable.World.Inversion.{
  Returns, bind-Returns, return-Returns, raise-Returns, redb_read-Returns, update-Returns,
}
use xtable.Read.{
  ReadSource, ReadResult, Reply, answer, panic, entry_to_result, chunk_result, newest_match,
  search_entries, search_body, read_memory, search_chunk, read_from_chunk, with_pointer,
  from_history, from_latest, from_version, from_memory, read_at_snapshot, denies, is_empty,
}
use xtable.Read.Newest.{newest_match-Elem}

-- a reply whose version, if it has a result, is in sight of a snapshot
abbrev pub IsInSight : ℕ → Reply → Type 0
IsInSight s (answer none) = Unit
IsInSight s (answer (some r)) = r.commit_version ≤ s
IsInSight s panic = Unit

-- every reply that an action returns is in sight
record Sees (s : ℕ) (m : Exec Reply) : Type 0 where
  pub at : (w w' : World) (r : Reply) → Returns m w r w' → IsInSight s r

Sees-return : (s : ℕ) (r : Reply) → IsInSight s r → Sees s (return r)
Sees-return s r h = record {
  at = λ w w' x run. subst (IsInSight s) (return-Returns r x w w' run).0 h;
}

Sees-raise : (s : ℕ) (e : XtableError) → Sees s (raise e)
Sees-raise s e = record { at = λ w w' x run. absurd (raise-Returns e x w w' run) }

Sees-bind :
    {A : Type 0} (s : ℕ) (m : Exec A) (f : A → Exec Reply)
    → ((a : A) → Sees s (f a))
    → Sees s (m >>= f)
Sees-bind s m f h = record {
  at = λ w w' r run.
      let (a, mid, first, second) = bind-Returns m f w w' r run in (h a).at mid w' r second;
}

Sees-if : (s : ℕ) (b : Bool) (m n : Exec Reply) → Sees s m → Sees s n → Sees s (if b then m else n)
Sees-if s true m n h k = h
Sees-if s false m n h k = k

Sees-entries :
    (key : RecordKey) (s : ℕ) (o : Option (Parsed (List ChunkEntry)))
    → Sees s (search_entries key s o)
Sees-entries key s none = Sees-return s panic tt
Sees-entries key s (some (failed e)) = Sees-raise s e
Sees-entries key s (some panicked) = Sees-return s panic tt
Sees-entries key s (some (done es rest)) = Sees-return s _ (go (newest_match key s none es) refl)
  where
    go :
        (o : Option ChunkEntry)
        → newest_match key s none es ≡ o
        → IsInSight s (answer (Option.map chunk_result o))
    go none e = tt
    go (some x) e = elim (newest_match-Elem key s none es x e) [
      | inl impossible ↦ absurd cc
      | inr (m, h) ↦ ground arith
    ]

Sees-body :
    (codecs : Codecs) (key : RecordKey) (s expected : ℕ) (p : Parsed Bytes)
    → Sees s (search_body codecs key s expected p)
Sees-body codecs key s expected (done body rest) =
    Sees-entries key s (decode_body_entries codecs expected body)
Sees-body codecs key s expected (failed e) = Sees-raise s e
Sees-body codecs key s expected panicked = Sees-return s panic tt

-- what `get_visible` finds is in sight
visible-AtMost :
    (key : RecordKey) (s : ℕ) (m : MemTable) (e : MemEntry)
    → get_visible key s m ≡ some e
    → e.commit_version ≤ s
unfolding get_visible visible_at
visible-AtMost key s m e h = go (lookup key m.rows) h
  where
    go : (o : Option MemEntry) → when_visible s o ≡ some e → e.commit_version ≤ s
    go none h = absurd cc
    go (some x) h = elim (Bool-cases (visible_at x s)) [
      | inr hidden ↦ absurd (cc (rw hidden at h))
      | inl seen ↦
          let same : x ≡ e = cc (rw seen at h) in
          subst (λ (y : MemEntry). y.commit_version ≤ s) same (ground arith)
    ]

first_visible-AtMost :
    (key : RecordKey) (s : ℕ) (ms : List MemTable) (e : MemEntry)
    → first_visible key s ms ≡ some e
    → e.commit_version ≤ s
unfolding first_visible
first_visible-AtMost key s [] e h = absurd cc
first_visible-AtMost key s (m ∷ ms) e h =
    go (get_visible key s m) refl (first_visible-AtMost key s ms e)
  where
    go :
        (o : Option MemEntry)
        → get_visible key s m ≡ o
        → (first_visible key s ms ≡ some e → e.commit_version ≤ s)
        → e.commit_version ≤ s
    go (some x) q ih = visible-AtMost key s m e (cc (q, (rw (q, first_visible) at h)))
    go none q ih = ih (rw (q, first_visible) at h)

memory-IsInSight :
    (key : RecordKey) (s : ℕ) (mems : MemTableSet) → IsInSight s (answer (read_memory key s mems))
unfolding read_memory
memory-IsInSight key s mems = go (get_visible key s mems.active) refl
  where
    queued :
        (o : Option MemEntry)
        → first_visible key s (reverse mems.flushing) ≡ o
        → IsInSight s (answer (Option.map (λ e. entry_to_result e ReadSource.immutable) o))
    queued none q = tt
    queued (some e) q = first_visible-AtMost key s (reverse mems.flushing) e q

    go :
        (o : Option MemEntry)
        → get_visible key s mems.active ≡ o
        → IsInSight s (answer (read_memory key s mems))
    go (some e) q = rw (q, read_memory) (visible-AtMost key s mems.active e q)
    go none q = rw (q, read_memory) (queued (first_visible key s (reverse mems.flushing)) refl)

module _ (codecs : Codecs) where
  Sees-chunk :
      (key : RecordKey) (s : ℕ) (o : Option ChunkIndexEntry) → Sees s (search_chunk codecs key s o)
  Sees-chunk key s none = Sees-return s (answer none) tt
  Sees-chunk key s (some c) =
      Sees-if s (denies codecs c.bloom key) _ _ (Sees-return s (answer none) tt) (
        Sees-bind s (get_object c.s3_key) _
          (λ file. Sees-body codecs key s _ (decompress_body codecs file)))

  Sees-read_from_chunk :
      (key : RecordKey) (s : ℕ) (idx : RecordIndexEntry) → Sees s (read_from_chunk codecs key s idx)
  unfolding read_from_chunk
  Sees-read_from_chunk key s idx =
      Sees-bind s (redb_read (get_chunk_index idx.chunk_id)) _ (Sees-chunk key s)

  Sees-pointer :
      (key : RecordKey) (s : ℕ) (stored : StoredRecordVersion) (o : Option ChunkIndexEntry)
      → stored.entry.commit_version ≤ s
      → Sees s (with_pointer codecs key s stored o)
  Sees-pointer key s stored none le = Sees-return s _ le
  Sees-pointer key s stored (some c) le = Sees-read_from_chunk key s stored.entry

  Sees-history :
      (key : RecordKey) (s : ℕ) (stored : StoredRecordVersion)
      → stored.entry.commit_version ≤ s
      → Sees s (from_history codecs key s stored)
  Sees-history key s stored le = Sees-if s stored.entry.deleted _ _ (Sees-return s _ le) (
      Sees-if s (is_empty codecs stored.body) _ _ (Sees-read_from_chunk key s stored.entry) (
        Sees-bind s (redb_read (get_chunk_index stored.entry.chunk_id)) _
          (λ o. Sees-pointer key s stored o le)))

  Sees-latest :
      (key : RecordKey) (s : ℕ) (o : Option RecordIndexEntry) → Sees s (from_latest codecs key s o)
  Sees-latest key s none = Sees-return s (answer none) tt
  Sees-latest key s (some idx) = elim (Bool-cases (ltb s idx.commit_version)) [
    | inl above ↦ rw above (Sees-return s (answer none) tt)
    | inr below ↦ rw below (
        Sees-if s idx.deleted _ _ (Sees-return s _ (ground arith)) (Sees-read_from_chunk key s idx))
  ]

  history_named :
      (key : RecordKey) (rows : History) (stored : StoredRecordVersion) (v : ℕ)
      → IsHistory rows
      → Elem ((key, v), stored) rows
      → stored.entry.commit_version ≡ v
  history_named key [] stored v h m = elim m [ ]
  history_named key (((q, u), st) ∷ rows) stored v (named, _, _, later) (inr m) =
      history_named key rows stored v later m
  history_named key (((q, u), st) ∷ rows) stored v (named, _, _, later) (inl e) =
      ap (λ (x : (RecordKey × ℕ) × StoredRecordVersion). x.1.entry.commit_version) e
      ∙ named
      ∙ sym (ap (λ (x : (RecordKey × ℕ) × StoredRecordVersion). x.0.1) e)

  -- Snapshot isolation of a read: what a read at a snapshot returns, from whichever layer and whatever fails
  -- on the way, is of a version not above the snapshot. The record history stands in order.
  pub read_at_snapshot-IsInSight :
      (key : RecordKey) (s : ℕ) (w w' : World) (r : Reply)
      → IsHistory w.store.record_versions
      → Returns (read_at_snapshot codecs key s) w r w'
      → IsInSight s r
  unfolding read_at_snapshot get_record_version_at_snapshot
  read_at_snapshot-IsInSight key s w w' r ordered run =
      let (m, mid, first, rest) =
        bind-Returns (update (λ w. (read_memory key s w.mems, w))) (from_memory codecs key s) w w' r
          run in
      let (found, kept) = update-Returns _ w mid m first in go m mid found kept rest
    where
      older :
          (o : Option StoredRecordVersion) (mid : World)
          → w ≡ mid
          → get_record_version_at_snapshot key s mid.store ≡ o
          → Sees s (from_version codecs key s o)
      older none mid e h = Sees-bind s (redb_read (get_record_index key)) _ (Sees-latest key s)
      older (some stored) mid e h =
          Sees-history key s stored
            (elim (best_version-Elem key s none w.store.record_versions stored
              (ap (λ (x : World). get_record_version_at_snapshot key s x.store) e ∙ h)) [
                | inl impossible ↦ absurd cc
                | inr (v, m, le) ↦
                    omega (arith, history_named key w.store.record_versions stored v ordered m)
              ])

      go :
          (m : Option ReadResult) (mid : World)
          → read_memory key s w.mems ≡ m
          → w ≡ mid
          → Returns (from_memory codecs key s m) mid r w'
          → IsInSight s r
      go (some x) mid found e rest =
          subst (IsInSight s) (return-Returns (answer (some x)) r mid w' rest).0
            (subst (λ o. IsInSight s (answer o)) found (memory-IsInSight key s w.mems))
      go none mid found e rest =
          let (o, next, read, last) =
            bind-Returns (redb_read (get_record_version_at_snapshot key s))
              (from_version codecs key s) mid w' r rest in
          (older o mid e (redb_read-Returns _ mid next o read).0).at next w' r last
