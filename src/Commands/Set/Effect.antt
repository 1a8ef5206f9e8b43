-- ===== src/Commands/Set/Effect.antt =====
-- What SET does to the keyspace, against a specification that sees only the old content of the key.
use ultima.Base.{
  ℕ, ◌≡◌, inl, inr, Bool, true, false, ◌&&◌, ◌||◌, not, Option, none, some, Bytes, if◌then◌else◌,
  arith, Bool-cases,
}
use ultima.Base.Int.{ℤ, pos, leb_ℤ, ltb_ℤ}
use ultima.Platform.{Platform, text}
use ultima.Commands.{Reply, quiet, err_wrong_type, is_string, str_of}
use ultima.Shard.{Shard, Ent, is_expired}
use ultima.Shard.View.{Content, content, view}
use ultima.Commands.Outcome.{Outcome, branch, kept, written, deleted, after_lookup}
use ultima.Commands.Set.{
  SetOptions, set_events, set_reply, set_write, set_found, set_task, found, has_unit,
}

module _ ⦃P : Platform⦄ where
  abbrev kept_expiry : SetOptions → Option Content → ℤ
  kept_expiry o none = if has_unit o.exp_unit then o.expire_at_ms else pos 0
  kept_expiry o (some c) =
      if o.keepttl then c.expire_at_ms else if has_unit o.exp_unit then o.expire_at_ms else pos 0

  -- The content that SET leaves when it writes.
  abbrev pub set_content : SetOptions → Bytes → ℤ → Option Content → Option Content
  set_content o val now c =
      if has_unit o.exp_unit && leb_ℤ o.expire_at_ms now
      then none
      else some (record { payload = text val; expire_at_ms = kept_expiry o c })

  abbrev not_string : Option Content → Bool
  not_string none = false
  not_string (some c) = not (is_string c.payload)

  abbrev visible_string : Option Content → Option Bytes
  visible_string none = none
  visible_string (some c) = some (str_of c.payload)

  -- SET on the key's visible content: reply and events, and the new content.
  abbrev pub set_spec : SetOptions → Bytes → ℤ → Option Content → Reply × Option Content
  set_spec o val now c =
      if o.get && not_string c
      then (quiet err_wrong_type, c)
      else if o.nx && found c || o.xx && not (found c)
      then (quiet (set_reply o (visible_string c) true), c)
      else ((set_reply o (visible_string c) false, set_events o), set_content o val now c)

  module _ (o : SetOptions) (val : Bytes) (s : Shard) (db : ℕ) (key : Bytes) where
    write_missing :
        (a : Reply)
        → view s db key ≡ none
        → Outcome s db key (a, set_content o val s.now none) (a, set_write o val none s db key)
    write_missing a h = elim (Bool-cases (has_unit o.exp_unit && leb_ℤ o.expire_at_ms s.now)) [
      | inl past ↦ unfold set_write in rw past (kept s db key a none h)
      | inr past ↦
          unfold set_write in
          rw past (written s db key a (has_unit o.exp_unit) _ _ (ground (arith, past)))
    ]

    write_live :
        (a : Reply) (old : Ent)
        → is_expired old s.now ≡ false
        → Outcome s db key
            (a, set_content o val s.now (some (content old)))
            (a, set_write o val (some old) s db key)
    write_live a old live = elim (Bool-cases (has_unit o.exp_unit && leb_ℤ o.expire_at_ms s.now)) [
      | inl past ↦ unfold set_write in rw past (deleted s db key a)
      | inr past ↦
          let alive : (ltb_ℤ (pos 0) old.expire_at_ms && leb_ℤ old.expire_at_ms s.now) ≡ false =
            unfold is_expired in live in
          unfold set_write in
          rw past (written s db key a (has_unit o.exp_unit) _ _ (ground (arith, past, alive)))
    ]

    found_missing :
        view s db key ≡ none
        → Outcome s db key (set_spec o val s.now none) (set_found o val db key none s)
    unfolding set_found
    found_missing h =
        branch s db key (o.get && false) (λ _. kept s db key _ none h)
          (λ _.
            branch s db key (o.nx && false || o.xx && true) (λ _. kept s db key _ none h)
              (λ _. write_missing _ h))

    found_live :
        (e : Ent)
        → is_expired e s.now ≡ false
        → view s db key ≡ some (content e)
        → Outcome s db key
            (set_spec o val s.now (some (content e)))
            (set_found o val db key (some e) s)
    unfolding set_found
    found_live e live h =
        branch s db key (o.get && not (is_string e.payload)) (λ _. kept s db key _ _ h)
          (λ _.
            branch s db key (o.nx && true || o.xx && false) (λ _. kept s db key _ _ h)
              (λ _. write_live _ e live))

  -- SET behaves as its specification on the visible content of the key.
  pub set_task-Outcome :
      (o : SetOptions) (val : Bytes) (s : Shard) (db : ℕ) (key : Bytes)
      → Outcome s db key (set_spec o val s.now (view s db key)) (set_task o val db key s)
  unfolding set_task
  set_task-Outcome o val s db key =
      after_lookup s db key (set_found o val db key) (set_spec o val s.now)
        (λ t h n. rw (← n) (found_missing o val t db key h))
        (λ e live h. found_live o val s db key e live h)
