-- ===== src/Shard/Step.antt =====
-- Histories of a shard: the helpers of lib/shard/shard.go in any order, as the owner goroutine runs
-- them for the tasks that it receives, and the clock.
use ultima.Base.{ℕ, ◌≡◌, suc, Bytes, some}
use ultima.Base.Int.{ℤ}
use ultima.Platform.{ExpItem, Platform}
use ultima.Shard.{Shard, Ent, lookup, store, delete, touch, flush_db, push_expire, sweep_one}

module _ ⦃P : Platform⦄ where
  open P use {search}

  -- Any helper that the shard's goroutine runs.
  pub data Step (s : Shard) : Shard → Type 0 where
    looks : (db : ℕ) (k : Bytes) → Step s (lookup s db k).1
    stores : (db : ℕ) (k : Bytes) (e : Ent) → Step s (store s db k e)
    deletes : (db : ℕ) (k : Bytes) → Step s (delete s db k).1
    touches :
        (db : ℕ) (k : Bytes) (e old : Ent)
        → search (s.tab db) k ≡ some old
        → e.mem_bytes ≡ old.mem_bytes
        → e.version ≡ old.version
        → Step s (touch s db k e)
    flushes : (db : ℕ) → Step s (flush_db s db)
    schedules : (db : ℕ) (k : Bytes) → Step s (push_expire s db k)
    sweeps : (top : ExpItem) → Step s (sweep_one s top).1
    ticks : (t : ℤ) → Step s (record s { now = t })

  pub data Reach (s : Shard) : Shard → Type 0 where
    here : Reach s s
    next : {t u : Shard} → Reach s t → Step t u → Reach s u

  unfoldable pub steps : {s t : Shard} → Reach s t → ℕ
  steps here = 0
  steps (next r st) = suc (steps r)
