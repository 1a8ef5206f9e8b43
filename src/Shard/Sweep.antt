-- ===== src/Shard/Sweep.antt =====
-- What sweep leaves behind.
use ultima.Base.{
  subst, ℕ, zero, suc, ◌+◌, ◌≤◌, ◌≡◌, refl, inl, inr, Bool, true, false, ◌&&◌, Option, none, some,
  length, ltb, ◌==◌, if◌then◌else◌, Bool-cases, Option-cases, arith,
}
use ultima.Base.Int.{ℤ, ltb_ℤ, leb_ℤ, eqb_ℤ, ◌<ℤ◌}
use ultima.Platform.{Platform, ExpItem, Elem}
use ultima.Shard.{Shard, Ent, expire_entry, sweep_found, sweep_one, sweep_loop, sweep, more_due}

module _ ⦃P : Platform⦄ where
  open P use {search, peek, pop, items, length-pop, peek_none, peek_least}

  exp-sweep_found :
      (o : Option Ent) (s : Shard) (top : ExpItem) → (sweep_found o s top).1.exp ≡ s.exp
  exp-sweep_found none s top = unfold sweep_found in refl
  exp-sweep_found (some e) s top =
      elim (Bool-cases (eqb_ℤ e.expire_at_ms top.at && e.exp_gen == top.gen)) [
        | inl b ↦ unfold sweep_found expire_entry in rw b
        | inr b ↦ unfold sweep_found in rw b
      ]

  -- A round pops one item, whether it was stale or not.
  exp-sweep_one : (s : Shard) (top : ExpItem) → (sweep_one s top).1.exp ≡ pop s.exp
  unfolding sweep_one
  exp-sweep_one s top =
      exp-sweep_found (search (s.tab top.db) top.key) (record s { exp = pop s.exp }) top

  -- Nothing of the heap is due: the loop reports no more work.
  record IsDrained (now : ℤ) (r : (ℕ × Bool) × Shard) : Type 0 where
    pub idle : r.0.1 ≡ false
    pub not_due : more_due (peek r.1.exp) now ≡ false

  never_late : (b : Bool) → (b && false) ≡ false
  never_late true = refl
  never_late false = refl

  popped_length :
      (s : Shard) (rounds : ℕ) (top : ExpItem)
      → peek s.exp ≡ some top
      → length (items s.exp) ≤ suc rounds
      → length (items (pop s.exp)) ≤ rounds
  popped_length s rounds top e l = omega (arith, length-pop s.exp top e, l)

  loop_drains :
      (rounds : ℕ) (now : ℤ) (popped expired : ℕ) (s : Shard)
      → length (items s.exp) ≤ rounds
      → IsDrained now (sweep_loop rounds (λ n. false) now popped expired s)
  unfolding sweep_loop
  loop_drains zero now popped expired s l = elim (Option-cases (peek s.exp)) [
    | inl e ↦ record { idle = rw e; not_due = rw e }
    | inr (top, e) ↦ absurd (omega (arith, length-pop s.exp top e, l))
  ]
  loop_drains (suc rounds) now popped expired s l = elim (Option-cases (peek s.exp)) [
    | inl e ↦ rw (e, sweep_loop) (record { idle = refl; not_due = rw e })
    | inr (top, e) ↦ elim (Bool-cases (ltb_ℤ now top.at)) [
      | inl b ↦ rw (e, sweep_loop, b) (record { idle = refl; not_due = rw e (ground (arith, b)) })
      | inr b ↦
          rw (e, sweep_loop, b, never_late (ltb 0 popped))
            (loop_drains rounds now (popped + 1)
              (if (sweep_one s top).0 then expired + 1 else expired) (sweep_one s top).1
              (rw (exp-sweep_one s top) (popped_length s rounds top e l)))
    ]
  ]

  -- sweep without a limit and without a deadline reports no more work and leaves no heap item that
  -- is due: as many rounds as the heap has items are enough.
  pub sweep-IsDrained :
      (s : Shard) (now : ℤ)
      → ((sweep s now none (λ n. false)).0.1 ≡ false)
        × ((y : ExpItem) → Elem y (items (sweep s now none (λ n. false)).1.exp) → now <ℤ y.at)
  unfolding sweep
  sweep-IsDrained s now =
      let r = sweep_loop (length (items s.exp)) (λ n. false) now 0 0 s in
      let d = loop_drains (length (items s.exp)) now 0 0 s (omega arith) in
      (
        d.idle,
        λ y m. elim (Option-cases (peek r.1.exp)) [
          | inl e ↦ absurd (subst (Elem y) (peek_none r.1.exp e) m)
          | inr (top, e) ↦
              let late : leb_ℤ top.at now ≡ false = rw e at d.not_due in
              ground (arith, late, peek_least r.1.exp top y e m)
        ],
      )
