-- ===== src/Shard/Watch.antt =====
-- WATCH (WatchVersion, WatchDirty, Store, Touch, Delete, tombstone, flushDB): what a sample says of
-- the key later.
pub mod History
pub mod Dirty
use ultima.Base.{
  ℕ, zero, suc, ◌+◌, ◌-◌, ◌*◌, ◌%◌, ◌^◌, ◌<◌, ◌≤◌, ◌≡◌, ◌≢◌, refl, sym, ap, ◌∙◌, ◌⊎◌, inl, inr,
  Bool, true, false, not, ◌&&◌, Option, none, some, List, [], Bytes, length, ltb, leb, ◌==◌,
  if◌then◌else◌, arith, Bool-cases, Option-cases, max, ==_iff, bytes_eq,
}
use ultima.Base.Int.{ℤ, eqb_ℤ}
use ultima.Platform.{ExpItem, Platform, or_zero}
use ultima.Shard.{
  Shard, Ent, TombKey, same_key, tomb_get, tomb_set, tombstone, expire_entry, is_expired, lookup,
  store, delete, touch, flush_db, push_expire, sweep_one, watch_version, watch_dirty, update,
}
use ultima.Shard.Table.{
  same_key_iff, tomb_get-delete, tomb_get-set, tomb_get-drop_db, search-update_insert,
  search-update_remove,
}
use ultima.Shard.Lookup.{lookup_cases}
use ultima.Shard.Step.{
  Step, looks, stores, deletes, touches, flushes, schedules, sweeps, ticks, Reach, here, next,
  steps,
}

module _ ⦃P : Platform⦄ where
  open P use {search, search-empty}

  -- The version that a watcher of the key would see.
  abbrev pub stamp : Shard → ℕ → Bytes → ℕ
  stamp s db k = elim (search (s.tab db) k) [ none ↦ tomb_get s.tomb (db, k) | some e ↦ e.version ]

  -- The uint64 counters of a key are at most `b`.
  pub record Below (b : ℕ) (s : Shard) (db : ℕ) (k : Bytes) : Type 0 where
    pub live : or_zero (λ e. e.version) (search (s.tab db) k) ≤ b
    pub dead : tomb_get s.tomb (db, k) ≤ b
    pub era : s.epoch db ≤ b

  -- From `s` to `t` the epoch grew, or it stayed and the version did not fall.
  abbrev pub Later : Shard → Shard → ℕ → Bytes → Type 0
  Later s t db k =
      ((t.epoch db ≡ s.epoch db) × (stamp s db k ≤ stamp t db k)) ⊎ (s.epoch db < t.epoch db)

  record Advance (b : ℕ) (s t : Shard) (db : ℕ) (k : Bytes) : Type 0 where
    below : Below (b + 1) t db k
    later : Later s t db k

  -- A key's entry leaves the table and its tombstone is set: passive expiry, sweep, Delete.
  entomb_Advance :
      (b : ℕ) (s t : Shard) (db d : ℕ) (k j : Bytes) (e : Ent)
      → t.tab ≡ update s.tab db (P.remove (s.tab db) k)
      → t.tomb ≡ (tombstone s db k e.version).tomb
      → t.epoch ≡ (tombstone s db k e.version).epoch
      → b + 1 < 2 ^ 64
      → search (s.tab db) k ≡ some e
      → Below b s db k
      → Below b s d j
      → Advance b s t d j
  unfolding tombstone tomb_get
  entomb_Advance b s t db d k j e et em ee w f h g =
      let cap = leb s.tomb_cap (length s.tomb) in
      let found = ap (λ m. search (m d) j) et ∙ search-update_remove s.tab db d k j in
      let dead =
        ap (λ m. tomb_get m (d, j)) em
        ∙ tomb_get-set (if cap then [] else s.tomb) db d ((e.version + 1) % 2 ^ 64) k j in
      let era = ap (λ f. f d) ee in
      let version : e.version ≤ b = rw f at h.live in
      elim (Bool-cases (same_key (db, k) (d, j))) [
        | inl p ↦
            let (pd, pk) = (same_key_iff db d k j).0 p in
            let was : search (s.tab d) j ≡ some e = rw (← pd, ← pk) f in
            record {
              below = record {
                live = rw (found, p) (omega arith);
                dead = rw (dead, p) (omega arith);
                era = rw era (ground arith);
              };
              later = ground (arith, found, dead, era, was);
            }
        | inr p ↦ record {
          below = record {
            live = rw (found, p) (omega arith);
            dead = rw (dead, p) (ground arith);
            era = rw era (ground arith);
          };
          later = ground (arith, found, dead, era);
        }
      ]

  expire_entry-Advance :
      (b : ℕ) (s : Shard) (db d : ℕ) (k j : Bytes) (e : Ent)
      → b + 1 < 2 ^ 64
      → search (s.tab db) k ≡ some e
      → Below b s db k
      → Below b s d j
      → Advance b s (expire_entry s db k e) d j
  expire_entry-Advance b s db d k j e w f h g =
      unfold expire_entry in entomb_Advance b s _ db d k j e refl refl refl w f h g

  Advance-same : (b : ℕ) (s : Shard) (d : ℕ) (j : Bytes) → Below b s d j → Advance b s s d j
  Advance-same b s d j g = record {
    below = record { live = omega arith; dead = omega arith; era = omega arith };
    later = inl (refl, omega arith);
  }

  lookup-Advance :
      (b : ℕ) (s : Shard) (db d : ℕ) (k j : Bytes)
      → b + 1 < 2 ^ 64
      → Below b s db k
      → Below b s d j
      → Advance b s (lookup s db k).1 d j
  lookup-Advance b s db d k j w h g = elim (lookup_cases s db k) [
    | inl m ↦ rw m.outcome (Advance-same b s d j g)
    | inr (inl (e, x)) ↦ rw x.outcome (expire_entry-Advance b s db d k j e w x.present h g)
    | inr (inr (e, l)) ↦ rw l.outcome (Advance-same b s d j g)
  ]

  delete-Advance :
      (b : ℕ) (s : Shard) (db d : ℕ) (k j : Bytes)
      → b + 1 < 2 ^ 64
      → Below b s db k
      → Below b s d j
      → Advance b s (delete s db k).1 d j
  delete-Advance b s db d k j w h g = elim (lookup_cases s db k) [
    | inl m ↦ unfold delete in rw m.outcome (Advance-same b s d j g)
    | inr (inl (e, x)) ↦
        unfold delete in rw x.outcome (expire_entry-Advance b s db d k j e w x.present h g)
    | inr (inr (e, l)) ↦
        unfold delete in
        rw l.outcome (entomb_Advance b s _ db d k j e refl refl refl w l.present h g)
  ]

  -- A write of the key's entry at a version above both counters.
  rewrite_Advance :
      (b : ℕ) (s t : Shard) (db d : ℕ) (k j : Bytes) (e : Ent)
      → t.tab ≡ update s.tab db (P.insert (s.tab db) k e)
      → (tomb_get t.tomb (d, j) ≡ (if same_key (db, k) (d, j) then 0 else tomb_get s.tomb (d, j)))
        ⊎ (tomb_get t.tomb (d, j) ≡ tomb_get s.tomb (d, j))
      → t.epoch ≡ s.epoch
      → e.version ≤ b + 1
      → (stamp s db k ≤ e.version)
      → Below b s db k
      → Below b s d j
      → Advance b s t d j
  rewrite_Advance b s t db d k j e et em ee w st h g =
      let found = ap (λ m. search (m d) j) et ∙ search-update_insert s.tab db d k j e in
      let era = ap (λ f. f d) ee in
      elim (Bool-cases (same_key (db, k) (d, j))) [
        | inl p ↦
            let (pd, pk) = (same_key_iff db d k j).0 p in
            let was : stamp s d j ≤ e.version = rw (← pd, ← pk) st in
            record {
              below = record {
                live = rw (found, p) w;
                dead = ground arith;
                era = rw era (omega arith);
              };
              later = inl (era, ground (arith, found, was));
            }
        | inr p ↦ record {
          below = record {
            live = rw (found, p) (omega arith);
            dead = ground arith;
            era = rw era (omega arith);
          };
          later = inl (era, ground (arith, found));
        }
      ]

  store-Advance :
      (b : ℕ) (s : Shard) (db d : ℕ) (k j : Bytes) (e : Ent)
      → b + 1 < 2 ^ 64
      → Below b s db k
      → Below b s d j
      → Advance b s (store s db k e) d j
  store-Advance b s db d k j e w h g =
      unfold store in
      rewrite_Advance b s _ db d k j _ refl (inl (tomb_get-delete s.tomb db d k j)) refl
        (omega arith) (ground arith) h g

  touch-Advance :
      (b : ℕ) (s : Shard) (db d : ℕ) (k j : Bytes) (e old : Ent)
      → b + 1 < 2 ^ 64
      → search (s.tab db) k ≡ some old
      → e.version ≡ old.version
      → Below b s db k
      → Below b s d j
      → Advance b s (touch s db k e) d j
  touch-Advance b s db d k j e old w f v h g =
      unfold touch in
      let version : e.version ≤ b = rw v (rw f at h.live) in
      rewrite_Advance b s _ db d k j _ refl (inr refl) refl (omega arith) (ground (arith, f, v)) h g

  push_expire-Advance :
      (b : ℕ) (s : Shard) (db d : ℕ) (k j : Bytes)
      → Below b s db k
      → Below b s d j
      → Advance b s (push_expire s db k) d j
  push_expire-Advance b s db d k j h g = elim (Option-cases (search (s.tab db) k)) [
    | inl e ↦ unfold push_expire in rw (e, push_expire) (Advance-same b s d j g)
    | inr (x, e) ↦
        unfold push_expire in
        let version : x.version ≤ b = rw e at h.live in
        rw (e, push_expire)
          (rewrite_Advance b s _ db d k j _ refl (inr refl) refl (omega arith) (ground (arith, e)) h
            g)
  ]

  flush_db-Advance :
      (b : ℕ) (s : Shard) (db d : ℕ) (j : Bytes)
      → b + 1 < 2 ^ 64
      → Below b s db j
      → Below b s d j
      → Advance b s (flush_db s db) d j
  flush_db-Advance b s db d j w h g =
      let dead = tomb_get-drop_db s.tomb db d j in
      elim (Bool-cases (db == d)) [
        | inl p ↦
            unfold flush_db in
            record {
              below = record {
                live = rw (p, search-empty) (omega arith);
                dead = rw (dead, p) (omega arith);
                era = rw p (omega arith);
              };
              later = ground (arith, (==_iff db d).0 p);
            }
        | inr p ↦
            unfold flush_db in
            record {
              below = record {
                live = rw p (omega arith);
                dead = rw (dead, p) (omega arith);
                era = rw p (omega arith);
              };
              later = ground (arith, dead);
            }
      ]

  sweep_one-Advance :
      (b : ℕ) (s : Shard) (top : ExpItem) (d : ℕ) (j : Bytes)
      → b + 1 < 2 ^ 64
      → Below b s top.db top.key
      → Below b s d j
      → Advance b s (sweep_one s top).1 d j
  sweep_one-Advance b s top d j w h g = elim (Option-cases (search (s.tab top.db) top.key)) [
    | inl e ↦ unfold sweep_one in rw (e, sweep_one) (same g)
    | inr (x, e) ↦ elim (Bool-cases (eqb_ℤ x.expire_at_ms top.at && x.exp_gen == top.gen)) [
      | inl hit ↦
          unfold sweep_one in
          rw (e, sweep_one, hit) (entomb_Advance b s _ top.db d top.key j x refl refl refl w e h g)
      | inr miss ↦ unfold sweep_one in rw (e, sweep_one, miss) (same g)
    ]
  ]
    where
      same : Below b s d j → Advance b s (record s { exp = P.pop s.exp }) d j
      same g = record {
        below = record { live = omega arith; dead = omega arith; era = omega arith };
        later = inl (refl, omega arith);
      }
