-- ===== src/Shard/Watch/History.antt =====
-- WATCH counters along a history of a shard.
use ultima.Base.{ℕ, ◌+◌, ◌^◌, ◌<◌, refl, inl, Bytes, arith}
use ultima.Platform.{Platform}
use ultima.Shard.{Shard}
use ultima.Shard.Step.{
  Step, looks, stores, deletes, touches, flushes, schedules, sweeps, ticks, Reach, here, next,
  steps,
}
use ultima.Shard.Watch.{
  Below, Later, Advance, lookup-Advance, delete-Advance, store-Advance, touch-Advance,
  push_expire-Advance, flush_db-Advance, sweep_one-Advance,
}

module _ ⦃P : Platform⦄ where
  open P use {search}

  abbrev pub AllBelow : ℕ → Shard → Type 0
  AllBelow b s = (d : ℕ) (j : Bytes) → Below b s d j

  -- No helper lets the (epoch, version) of any key fall, and each counter grows by one at most.
  Step-Advance :
      (b : ℕ) {s t : Shard} (d : ℕ) (j : Bytes)
      → b + 1 < 2 ^ 64
      → AllBelow b s
      → Step s t
      → Advance b s t d j
  Step-Advance b {s} d j w h (looks db k) = lookup-Advance b s db d k j w (h db k) (h d j)
  Step-Advance b {s} d j w h (stores db k e) = store-Advance b s db d k j e w (h db k) (h d j)
  Step-Advance b {s} d j w h (deletes db k) = delete-Advance b s db d k j w (h db k) (h d j)
  Step-Advance b {s} d j w h (touches db k e old f m v) =
      touch-Advance b s db d k j e old w f v (h db k) (h d j)
  Step-Advance b {s} d j w h (flushes db) = flush_db-Advance b s db d j w (h db j) (h d j)
  Step-Advance b {s} d j w h (schedules db k) = push_expire-Advance b s db d k j (h db k) (h d j)
  Step-Advance b {s} d j w h (sweeps top) =
      sweep_one-Advance b s top d j w (h top.db top.key) (h d j)
  Step-Advance b {s} d j w h (ticks t) = record {
    below = record {
      live = omega (arith, (h d j).live);
      dead = omega (arith, (h d j).dead);
      era = omega (arith, (h d j).era);
    };
    later = inl (refl, omega arith);
  }

  Later-trans :
      (s t u : Shard) (db : ℕ) (k : Bytes) → Later s t db k → Later t u db k → Later s u db k
  Later-trans s t u db k h g = ground arith

  pub Reach-AllBelow :
      (b : ℕ) {s t : Shard} (r : Reach s t)
      → b + steps r < 2 ^ 64
      → AllBelow b s
      → AllBelow (b + steps r) t
  unfolding steps
  Reach-AllBelow b here w h d j =
      let x = h d j in
      record {
        live = omega (arith, x.live);
        dead = omega (arith, x.dead);
        era = omega (arith, x.era);
      }
  Reach-AllBelow b (next r st) w h d j =
      let u = Reach-AllBelow b r (omega arith) h in
      let x = (Step-Advance (b + steps r) d j (omega arith) u st).below in
      record {
        live = omega (arith, x.live);
        dead = omega (arith, x.dead);
        era = omega (arith, x.era);
      }

  -- Along any history the (epoch, version) of a key never falls, while no counter wraps.
  pub Reach-Later :
      (b : ℕ) {s t : Shard} (db : ℕ) (k : Bytes) (r : Reach s t)
      → b + steps r < 2 ^ 64
      → AllBelow b s
      → Later s t db k
  unfolding steps
  Reach-Later b db k here w h = inl (refl, omega arith)
  Reach-Later b {s} {t} db k (next {t = u} r st) w h =
      Later-trans s u t db k (Reach-Later b db k r (omega arith) h)
        (Step-Advance (b + steps r) db k (omega arith) (Reach-AllBelow b r (omega arith) h)
          st).later
