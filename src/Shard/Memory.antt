-- ===== src/Shard/Memory.antt =====
-- Memory accounting (addMem, memBytes): the counter of a DB is the sum over its entries, modulo the
-- int64 wrap-around, whatever helpers run on the shard.
use ultima.Base.{
  ℕ, ◌+◌, ◌%◌, ◌^◌, ◌≡◌, ◌&&◌, some, Bytes, ◌==◌, ==_iff, arith, Bool-cases, Option-cases, inl, inr,
}
use ultima.Base.Int.{eqb_ℤ, add64, sub64}
use ultima.Platform.{ExpItem, Platform, sum, or_zero}
use ultima.Shard.Lookup.{lookup_cases}
use ultima.Shard.Step.{Step}
use ultima.Shard.{
  Shard, Ent, update, entry_mem, expire_entry, lookup, store, delete, touch, flush_db, push_expire,
  sweep_one,
}

-- A counter that moves by `new - old` follows a sum that does.
add64-sub64 :
    (u before after old new : ℕ)
    → u ≡ before % 2 ^ 64
    → after + old ≡ before + new
    → add64 u (sub64 new old) ≡ after % 2 ^ 64
add64-sub64 u before after old new h e = omega arith

module _ ⦃P : Platform⦄ where
  open P use {Obj, Tab, search, insert, remove, walk, sum-walk-insert, sum-walk-remove}
  open P use {Heap, peek, pop, walk-empty, search-insert}

  -- The bytes that a DB's entries are charged with.
  abbrev pub charged : Tab → ℕ
  charged t = sum (λ x. x.1.mem_bytes) (walk t)

  abbrev pub IsAccounted : Shard → Type 0
  IsAccounted s = (db : ℕ) → s.used_bytes db ≡ charged (s.tab db) % 2 ^ 64

  charged-remove :
      (t : Tab) (k : Bytes) (e : Ent)
      → search t k ≡ some e
      → charged (remove t k) + e.mem_bytes ≡ charged t
  charged-remove t k e h = rw h at (sum-walk-remove (λ x. x.1.mem_bytes) t k)

  charged-insert :
      (t : Tab) (k : Bytes) (e old : Ent)
      → search t k ≡ some old
      → charged (insert t k e) + old.mem_bytes ≡ charged t + e.mem_bytes
  charged-insert t k e old h = rw h at (sum-walk-insert (λ x. x.1.mem_bytes) t k e)

  -- Every change of the table of one DB that comes with the matching change of the counter.
  accounted_at :
      (s : Shard) (db : ℕ) (t : Tab) (old new : ℕ)
      → IsAccounted s
      → charged t + old ≡ charged (s.tab db) + new
      → (j : ℕ)
      → update s.used_bytes db (add64 (s.used_bytes db) (sub64 new old)) j
        ≡ charged (update s.tab db t j) % 2 ^ 64
  accounted_at s db t old new h e j = elim (Bool-cases (db == j)) [
    | inl same ↦ rw same (add64-sub64 _ _ _ old new (h db) e)
    | inr other ↦ rw other (h j)
  ]

  expire_entry-IsAccounted :
      (s : Shard) (db : ℕ) (k : Bytes) (e : Ent)
      → search (s.tab db) k ≡ some e
      → IsAccounted s
      → IsAccounted (expire_entry s db k e)
  unfolding expire_entry
  expire_entry-IsAccounted s db k e f h =
      accounted_at s db (remove (s.tab db) k) e.mem_bytes 0 h
        (omega (arith, charged-remove (s.tab db) k e f))

  -- Passive expiry keeps the accounts.
  pub lookup-IsAccounted :
      (s : Shard) (db : ℕ) (k : Bytes) → IsAccounted s → IsAccounted (lookup s db k).1
  lookup-IsAccounted s db k h = elim (lookup_cases s db k) [
    | inl m ↦ rw m.outcome h
    | inr (inl (e, x)) ↦ rw x.outcome (expire_entry-IsAccounted s db k e x.present h)
    | inr (inr (e, l)) ↦ rw l.outcome h
  ]

  -- Store charges the new entry and takes back the replaced one.
  pub store-IsAccounted :
      (s : Shard) (db : ℕ) (k : Bytes) (e : Ent) → IsAccounted s → IsAccounted (store s db k e)
  unfolding store
  store-IsAccounted s db k e h =
      accounted_at s db _ (or_zero (λ o. o.mem_bytes) (search (s.tab db) k)) (entry_mem k e) h
        (sum-walk-insert (λ x. x.1.mem_bytes) (s.tab db) k _)

  -- Touch, for an entry that is in the table, with its charge.
  pub touch-IsAccounted :
      (s : Shard) (db : ℕ) (k : Bytes) (e old : Ent)
      → search (s.tab db) k ≡ some old
      → e.mem_bytes ≡ old.mem_bytes
      → IsAccounted s
      → IsAccounted (touch s db k e)
  unfolding touch
  touch-IsAccounted s db k e old f m h =
      accounted_at s db _ e.mem_bytes (entry_mem k e) h (rw m (charged-insert (s.tab db) k _ old f))

  -- Delete takes back the charge, whether the key was live or had expired.
  pub delete-IsAccounted :
      (s : Shard) (db : ℕ) (k : Bytes) → IsAccounted s → IsAccounted (delete s db k).1
  delete-IsAccounted s db k h = elim (lookup_cases s db k) [
    | inl m ↦ unfold delete in rw m.outcome h
    | inr (inl (e, x)) ↦
        unfold delete in rw x.outcome (expire_entry-IsAccounted s db k e x.present h)
    | inr (inr (e, l)) ↦
        unfold delete in
        rw l.outcome (
          accounted_at s db (remove (s.tab db) k) e.mem_bytes 0 h
            (omega (arith, charged-remove (s.tab db) k e l.present)))
  ]

  -- FLUSHDB gives the DB's whole share back.
  pub flush_db-IsAccounted : (s : Shard) (db : ℕ) → IsAccounted s → IsAccounted (flush_db s db)
  unfolding flush_db
  flush_db-IsAccounted s db h j = elim (Bool-cases (db == j)) [
    | inl same ↦ rw (same, walk-empty) (omega (arith, h db))
    | inr other ↦ rw other (h j)
  ]

  pub push_expire-IsAccounted :
      (s : Shard) (db : ℕ) (k : Bytes) → IsAccounted s → IsAccounted (push_expire s db k)
  unfolding push_expire
  push_expire-IsAccounted s db k h = elim (Option-cases (search (s.tab db) k)) [
    | inl e ↦ rw (e, push_expire) h
    | inr (x, e) ↦ λ j. elim (Bool-cases (db == j)) [
      | inl same ↦
          rw (e, push_expire, same)
            (rw (← (==_iff db j).0 same) (
              omega (
                arith,
                h db,
                charged-insert (s.tab db) k (record x { exp_gen = (x.exp_gen + 1) % 2 ^ 64 }) x e,
              )))
      | inr other ↦ rw (e, push_expire, other) (h j)
    ]
  ]

  pub sweep_one-IsAccounted :
      (s : Shard) (top : ExpItem) → IsAccounted s → IsAccounted (sweep_one s top).1
  sweep_one-IsAccounted s top h = elim (Option-cases (search (s.tab top.db) top.key)) [
    | inl e ↦ unfold sweep_one in rw (e, sweep_one) h
    | inr (x, e) ↦ elim (Bool-cases (eqb_ℤ x.expire_at_ms top.at && x.exp_gen == top.gen)) [
      | inl hit ↦
          unfold sweep_one in
          rw (e, sweep_one, hit)
            (accounted_at s top.db (remove (s.tab top.db) top.key) x.mem_bytes 0 h
              (omega (arith, charged-remove (s.tab top.db) top.key x e)))
      | inr miss ↦ unfold sweep_one in rw (e, sweep_one, miss) h
    ]
  ]
