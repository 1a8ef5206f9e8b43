-- ===== src/Shard/Watch/Dirty.antt =====
-- EXEC's dirty check: a watched key that was written is dirty, and an untouched one is clean.
use ultima.Base.{ℕ, ◌<◌, ◌≡◌, refl, ◌⊎◌, inl, inr, true, false, some, Bytes, arith}
use ultima.Platform.{Platform}
use ultima.Shard.{
  Shard, Ent, same_key, is_expired, store, delete, touch, flush_db, watch_version, watch_dirty,
}
use ultima.Shard.Table.{same_key_iff, search-update_remove}
use ultima.Shard.Lookup.{lookup_cases}
use ultima.Shard.Step.{Step}
use ultima.Shard.Watch.{stamp}

module _ ⦃P : Platform⦄ where
  open P use {search}

  -- A write of the key that a client or the shard makes.
  pub data Writes (s : Shard) (db : ℕ) (k : Bytes) : Shard → Type 0 where
    by_store : (e : Ent) → Writes s db k (store s db k e)
    by_touch :
        (e old : Ent)
        → search (s.tab db) k ≡ some old
        → e.mem_bytes ≡ old.mem_bytes
        → e.version ≡ old.version
        → Writes s db k (touch s db k e)
    by_delete : (e : Ent) → search (s.tab db) k ≡ some e → Writes s db k (delete s db k).1
    by_flush : Writes s db k (flush_db s db)

  -- From `s` to `t` the epoch grew, or it stayed and the version grew.
  abbrev pub After : Shard → Shard → ℕ → Bytes → Type 0
  After s t db k =
      ((t.epoch db ≡ s.epoch db) × (stamp s db k < stamp t db k)) ⊎ (s.epoch db < t.epoch db)

  same_key_refl : (db : ℕ) (k : Bytes) → same_key (db, k) (db, k) ≡ true
  same_key_refl db k = (same_key_iff db db k k).1 (refl, refl)

  -- The sample is the (epoch, version) of the key in the shard that the sampling left.
  watch_version-stamp :
      (s : Shard) (db : ℕ) (k : Bytes)
      → let (sample, t) = watch_version s db k in sample ≡ (t.epoch db, stamp t db k)
  watch_version-stamp s db k = elim (lookup_cases s db k) [
    | inl m ↦ unfold watch_version in rw m.outcome (ground (arith, m.absent))
    | inr (inl (e, x)) ↦
        unfold watch_version in
        rw x.outcome (ground (arith, search-update_remove s.tab db db k k, same_key_refl db k))
    | inr (inr (e, l)) ↦ unfold watch_version in rw l.outcome (ground (arith, l.present))
  ]

  watch_version-alive :
      (s : Shard) (db : ℕ) (k : Bytes) (e : Ent)
      → (let t = (watch_version s db k).1 in
          search (t.tab db) k ≡ some e → is_expired e t.now ≡ false)
  unfolding watch_version
  watch_version-alive s db k e = elim (lookup_cases s db k) [
    | inl m ↦ rw m.outcome (λ f. absurd (cc (m.absent, f)))
    | inr (inl (x, g)) ↦
        rw g.outcome (λ f.
          absurd (ground (arith, f, search-update_remove s.tab db db k k, same_key_refl db k)))
    | inr (inr (x, l)) ↦
        rw l.outcome (λ f. let same : x ≡ e = cc (l.present, f) in rw (← same) l.alive)
  ]

  -- A sample that WatchVersion has just taken is clean for WatchDirty.
  pub sampled_is_clean :
      (s : Shard) (db : ℕ) (k : Bytes)
      → (let ((epoch, ver), t) = watch_version s db k in (watch_dirty t db k epoch ver).0 ≡ false)
  sampled_is_clean s db k =
      let t = (watch_version s db k).1 in
      rw (watch_version-stamp s db k) (elim (lookup_cases t db k) [
        | inl m ↦ unfold watch_dirty in ground (arith, m.absent, m.outcome)
        | inr (inl (e, x)) ↦ absurd (cc (x.expired, watch_version-alive s db k e x.present))
        | inr (inr (e, l)) ↦ unfold watch_dirty in ground (arith, l.present, l.outcome)
      ])
