-- ===== src/Flush/Loop.antt =====
-- xtable-storage/src/flush.rs: what a turn of `flush_loop` does with each memtable that was waiting.
use xtable.Prelude.{ℕ, ◌≡◌, ◌⊎◌, String, List, Elem}
use xtable.Errors.{XtableError, ok, err}
use xtable.Memtable.{MemTable}
use xtable.Chunk.{Codecs}
use xtable.World.{World, Done, each}
use xtable.Flush.{flush_one, flush_or_requeue}

module _ (codecs : Codecs) (ulid : MemTable → String) (now : ℕ) where
  -- the world in which the turn comes to the flush of a table, after the tables before it
  abbrev pub reached : List MemTable → World → World
  reached ms w = (each (flush_or_requeue codecs ulid now) ms w).1

  -- what the step for a table, in the world it starts in, has come to in a later world: its flush returned,
  -- or it failed and the table waits
  abbrev pub IsDealtWith : MemTable → World → World → Type 0
  IsDealtWith m w v =
      ((u : Done) × (w' : World) × (flush_one codecs m (ulid m) now w ≡ (ok u, w')))
      ⊎ ((e : XtableError) × (w' : World) × (flush_one codecs m (ulid m) now w ≡ (err e, w'))
          × Elem m v.mems.flushing)

  abbrev IsKept : World → World → Type 0
  IsKept w v = (x : MemTable) → Elem x w.mems.flushing → Elem x v.mems.flushing
