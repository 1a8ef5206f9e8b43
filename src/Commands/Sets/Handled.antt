-- ===== src/Commands/Sets/Handled.antt =====
-- SADD, SREM and the reading commands on the keyspace of the whole engine.
use ultima.Base.{
  ℕ, ◌+◌, ◌≡◌, refl, ap, ◌∙◌, inl, inr, Bool, true, false, Option, none, some, List, [], ◌∷◌, Bytes,
  codes, length, All, map, ◌==◌, ltb, if◌then◌else◌, ◌>>=◌, Bool-cases, arith,
}
use ultima.Base.Int.{ℤ, pos}
use ultima.Platform.{Platform}
use ultima.Resp.{Value, int, arr}
use ultima.Types.Set.{MemberMap, IntSet, new_set, set_len, in_map}
use ultima.Types.Set.Encoding.{IsShort}
use ultima.Types.Set.Forms.{Stands}
use ultima.Types.Set.Refines.{sadd, srem, texts, answers}
use ultima.Shard.View.{Content}
use ultima.Commands.{quiet, Server, shard_of}
use ultima.Commands.Multi.{count}
use ultima.Commands.Lift.{keyspace, Handled}
use ultima.Commands.Collections.{Sets}
use ultima.Commands.Collections.Outcomes.{refuse_or, spec_command}
use ultima.Commands.Hash.{bool_int}
use ultima.Commands.Sets.{
  SetRead, read_members, read_card, read_is_member, read_mis_member, set_read_reply,
  set_read_missing, sread_task, sadd_each, sadd_events, sadd_task, srem_each, srem_task, set_in,
  cmd_sread, cmd_sadd, cmd_srem,
}
use ultima.Commands.Sets.Total.{
  sadd_each_lem, srem_each_lem, IsReadShort, RepliesFor, set_read_reply_lem,
}
use ultima.Commands.Sets.Effect.{
  set_content, sread_spec, sadd_spec, sadd_done, srem_spec, srem_left, sread_task-Outcome,
  sadd_task-Outcome, srem_task-Outcome,
}

module _ ⦃P : Platform⦄ ⦃O : Sets⦄ where
  -- The set that a set command works on; a missing key counts as an empty one.
  abbrev pub set_at : Option Content → Option IntSet
  set_at none = some new_set
  set_at (some c) = set_in c.payload

  abbrev pub set_expiry : Option Content → ℤ
  set_expiry none = pos 0
  set_expiry (some c) = c.expire_at_ms

  sadd_spec_lem :
      (ms : List Bytes) (c : Option Content) (x : IntSet) (r : IntSet × ℕ)
      → set_at c ≡ some x
      → sadd_each ms x 0 ≡ some r
      → sadd_spec ms c
        ≡ (some (int (pos r.1), sadd_events r.1), some (set_content r.0 (set_expiry c)))
  sadd_spec_lem ms none x r here run =
      let e : new_set ≡ x = ground arith in rw (ap (λ x. sadd_each ms x 0) e ∙ run) refl
  sadd_spec_lem ms (some c) x r here run =
      ap (refuse_or c (λ x. sadd_done c (sadd_each ms x 0))) here ∙ ap (sadd_done c) run

  -- SADD of members with at most 19 digits, on a missing key or one whose set stands for a finite
  -- set of texts, replies the number of members that were new when their turn came, notifies sadd
  -- only if there was one, keeps the expiry, and leaves in the key a well-formed set that stands
  -- for the finite set with the members added; no other key changes.
  pub cmd_sadd-Handled :
      (e : Server) (db : ℕ) (key : Bytes) (ms : List Bytes) (x : IntSet) (l : MemberMap)
      → All IsShort ms
      → set_at (keyspace e db key) ≡ some x
      → Stands x l
      → (r : Value × Server) × (x' : IntSet) × (n : ℕ) × (cmd_sadd e db key ms ≡ some r)
        × (n ≡ count (answers (map sadd ms) l))
        × Handled e db key
            (
              (int (pos n), if ltb 0 n then codes "sadd" ∷ [] else []),
              some (set_content x' (set_expiry (keyspace e db key))),
            )
            r
        × Stands x' (texts (map sadd ms) l)
  unfolding cmd_sadd
  cmd_sadd-Handled e db key ms x l short here st =
      let ((x', n), run, looped) = sadd_each_lem ms x l 0 short st in
      let counts : n ≡ count (answers (map sadd ms) l) = omega (arith, looped.counts) in
      let done = sadd_spec_lem ms (keyspace e db key) x (x', n) here run in
      let (r, ran, handled) =
        spec_command e db key (sadd_spec ms) (sadd_task ms db key) _ _
          (sadd_task-Outcome (shard_of e key) db key ms) done in
      (r, x', n, ran, counts, handled, looped.stands)

  -- The content that SREM leaves: nothing if the set became empty.
  abbrev pub kept_by : IntSet → Content → Option Content
  kept_by x c = if set_len x == 0 then none else some (set_content x c.expire_at_ms)

  -- SREM of members with at most 19 digits, on a key whose set stands for a finite set of texts,
  -- replies the number of members that were there when their turn came, keeps the expiry, leaves a
  -- set that stands for the finite set without them, deletes the key when the set is empty, and
  -- notifies srem, and del after it for a deleted key, only if a member was removed; no other key
  -- changes.
  pub cmd_srem-Handled :
      (e : Server) (db : ℕ) (key : Bytes) (ms : List Bytes) (c : Content) (x : IntSet)
      (l : MemberMap)
      → All IsShort ms
      → keyspace e db key ≡ some c
      → set_in c.payload ≡ some x
      → Stands x l
      → (r : Value × Server) × (x' : IntSet) × (n : ℕ) × (cmd_srem e db key ms ≡ some r)
        × (n ≡ count (answers (map srem ms) l))
        × Handled e db key
            (
              (
                int (pos n),
                if ltb 0 n
                    then (if set_len x' == 0
                        then codes "srem" ∷ codes "del" ∷ []
                        else codes "srem" ∷ [])
                    else [],
              ),
              kept_by x' c,
            )
            r
        × Stands x' (texts (map srem ms) l)
  unfolding cmd_srem
  cmd_srem-Handled e db key ms c x l short at_key here st =
      let ((x', n), run, looped) = srem_each_lem ms x l 0 short st in
      let counts : n ≡ count (answers (map srem ms) l) = omega (arith, looped.counts) in
      let (r, ran, handled) =
        spec_command e db key (srem_spec ms) (srem_task ms db key) _ _
          (srem_task-Outcome (shard_of e key) db key ms)
          (rw at_key (
            ap (refuse_or c (λ x. srem_left c (srem_each ms x 0))) here
            ∙ ap (srem_left c) run
            ∙ srem_left_eq c x' n)) in
      (r, x', n, ran, counts, handled, looped.stands)
    where
      srem_left_eq :
          (c : Content) (x' : IntSet) (n : ℕ)
          → srem_left c (some (x', n)) ≡ (
            some (
              int (pos n),
              if ltb 0 n
                  then (if set_len x' == 0
                      then codes "srem" ∷ codes "del" ∷ []
                      else codes "srem" ∷ [])
                  else [],
            ),
            kept_by x' c,
          )
      srem_left_eq c x' n = elim (Bool-cases (set_len x' == 0)) [
        | inl b ↦ rw b refl
        | inr b ↦ rw b refl
      ]

  zero_each :
      (ms : List Bytes) → map (λ m. int (pos 0)) ms ≡ map (λ m. int (bool_int (in_map [] m))) ms
  unfolding in_map ultima.Base.Maps.lookup_key
  zero_each [] = refl
  zero_each (m ∷ ms) = ap (λ vs. int (pos 0) ∷ vs) (zero_each ms)

  missing_lem : (rd : SetRead) → RepliesFor rd [] (set_read_missing rd)
  unfolding set_read_missing
  missing_lem read_members = (
    [],
    refl,
    record {
      size = refl;
      once = tt;
      view = λ j short. unfold in_map ultima.Base.Maps.lookup_key in refl;
    },
  )
  missing_lem read_card = refl
  missing_lem (read_is_member m) = unfold in_map ultima.Base.Maps.lookup_key in refl
  missing_lem (read_mis_member ms) = ap arr (zero_each ms)

  -- What a key holds, as a finite set of texts.
  abbrev pub StandsAt : Option Content → MemberMap → Type 0
  StandsAt none l = l ≡ []
  StandsAt (some c) l = (x : IntSet) × (set_in c.payload ≡ some x) × Stands x l

  read_lem :
      (rd : SetRead) (c : Option Content) (l : MemberMap)
      → IsReadShort rd
      → StandsAt c l
      → (v : Value) × (sread_spec rd c ≡ (some (quiet v), c)) × RepliesFor rd l v
  read_lem rd none l short e = (set_read_missing rd, refl, rw e (missing_lem rd))
  read_lem rd (some c) l short (x, here, st) =
      let (v, run, replies) = set_read_reply_lem rd x l short st in
      (
        v,
        ap (refuse_or c (λ x. ((set_read_reply rd x) >>= (λ v. some (quiet v)), some c))) here
            ∙ rw run refl,
        replies,
      )

  pub cmd_sread-Handled :
      (e : Server) (db : ℕ) (key : Bytes) (rd : SetRead) (l : MemberMap)
      → IsReadShort rd
      → StandsAt (keyspace e db key) l
      → (r : Value × Server) × (v : Value) × (cmd_sread e db key rd ≡ some r)
        × Handled e db key (quiet v, keyspace e db key) r
        × RepliesFor rd l v
  unfolding cmd_sread
  cmd_sread-Handled e db key rd l short at_key =
      let (v, done, replies) = read_lem rd (keyspace e db key) l short at_key in
      let (r, ran, handled) =
        spec_command e db key (sread_spec rd) (sread_task rd db key) _ _
          (sread_task-Outcome (shard_of e key) db key rd) done in
      (r, v, ran, handled, replies)
