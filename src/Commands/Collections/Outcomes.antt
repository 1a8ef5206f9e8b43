-- ===== src/Commands/Collections/Outcomes.antt =====
-- What a command on a collection does to the keyspace, from what its closure does to its shard.
use ultima.Base.{
  inl, inr, Option-cases, Bool-cases, ℕ, ◌≡◌, refl, ap, ◌∙◌, Bool, true, false, Option, none, some,
  Bytes, if◌then◌else◌, arith,
}
use ultima.Base.Int.{ℤ}
use ultima.Platform.{Platform, Payload, coll}
use ultima.Resp.{Value}
use ultima.Shard.{Shard, Ent, is_expired, touch, delete, same_key}
use ultima.Shard.View.{Content, content, live_content, has_passed, view}
use ultima.Commands.{Reply, quiet, Server, shard_of, err_wrong_type, do_task}
use ultima.Commands.Outcome.{Outcome, kept, touched, deleted}
use ultima.Commands.Lift.{do_task-Effect, keyspace, Handled}
use ultima.Commands.Strings.Effect.{live_now}
use ultima.Commands.Collections.{notify_all, coll_command, poke, poke_found}

module _ ⦃P : Platform⦄ where
  open P use {search}

  -- A closure that replies makes a command that replies.
  pub coll_command-Handled :
      (e : Server) (db : ℕ) (key : Bytes) (r : Reply) (c : Option Content)
      (fn : Shard → Option Reply × Shard)
      → Outcome (shard_of e key) db key (some r, c) (fn (shard_of e key))
      → (x : Value × Server) × (coll_command e db key fn ≡ some x) × Handled e db key (r, c) x
  unfolding coll_command notify_all keyspace do_task
  coll_command-Handled e db key r c fn h =
      let t = do_task-Effect e db key (some r, c) fn h in
      let e' = notify_all (do_task e key fn).1 db key r.1 in
      (
        (r.0, e'),
        rw (coll_command, t.replies) refl,
        record { answer = refl; contents = t.contents; notified = refl; clock = t.clock },
      )

  -- A change of the key followed by its deletion.
  pub then_deleted :
      {A : Type 0} (s : Shard) (db : ℕ) (key : Bytes) (a : A) (c : Option Content) (t : Shard)
      → Outcome s db key (a, c) (a, t)
      → (b : A) → Outcome s db key (b, none) (b, (delete t db key).1)
  then_deleted s db key a c t o b =
      let gone = deleted t db key b in
      record {
        replies = refl;
        views = λ d j. gone.views d j ∙ rw (o.views d j) (either (same_key (db, key) (d, j)) _ _ _);
        clock = gone.clock ∙ o.clock;
      }
    where
      either :
          (b : Bool) (x y z : Option Content)
          → (if b then x else (if b then y else z)) ≡ (if b then x else z)
      either true x y z = refl
      either false x y z = refl

  abbrev pub Spec : Type 0
  Spec = Option Content → Option Reply × Option Content

  pub spec_command :
      (e : Server) (db : ℕ) (key : Bytes) (spec : Spec) (fn : Shard → Option Reply × Shard)
      (r : Reply) (c : Option Content)
      → Outcome (shard_of e key) db key (spec (view (shard_of e key) db key)) (fn (shard_of e key))
      → spec (keyspace e db key) ≡ (some r, c)
      → (x : Value × Server) × (coll_command e db key fn ≡ some x) × Handled e db key (r, c) x
  unfolding keyspace
  spec_command e db key spec fn r c o h = coll_command-Handled e db key r c fn (rw h at o)

  module _ {V : Type 0} where
    -- A key that holds no such collection is refused; otherwise `f` says what happens to it.
    abbrev pub refuse_or :
        Content → (V → Option Reply × Option Content) → Option V → Option Reply × Option Content
    refuse_or c f none = (some (quiet err_wrong_type), some c)
    refuse_or c f (some h) = f h

    pub held-Outcome :
        (s : Shard) (db : ℕ) (key : Bytes) (e : Ent) (get : Payload P.Obj → Option V)
        (f : V → Option Reply × Option Content) (g : V → Option Reply × Shard)
        → view s db key ≡ some (content e)
        → ((h : V) → Outcome s db key (f h) (g h))
        → Outcome s db key
            (refuse_or (content e) f (get e.payload))
            (elim (get e.payload) [ none ↦ (some (quiet err_wrong_type), s) | some h ↦ g h ])
    held-Outcome s db key e get f g here each = at_payload (get e.payload)
      where
        at_payload :
            (o : Option V)
            → Outcome {A = Option Reply} s db key
                (refuse_or (content e) f o)
                (elim o [ none ↦ (some (quiet err_wrong_type), s) | some h ↦ g h ])
        at_payload none = kept s db key _ _ here
        at_payload (some h) = each h

  pub touched_as :
      (s : Shard) (db : ℕ) (key : Bytes) (e : Ent) (o : P.Obj)
      → is_expired e s.now ≡ false
      → (a : Reply)
      → Outcome {A = Option Reply} s db key
          (some a, some (record { payload = coll o; expire_at_ms = e.expire_at_ms }))
          (some a, touch s db key (record e { payload = coll o }))
  touched_as s db key e o live a =
      touched s db key _ (record e { payload = coll o }) _ (ground (arith, live_now e s.now live))

  some_elim : (c c' : Content) → some c' ≡ some c → c' ≡ c
  some_elim c c' h = cc h

  live_expiry :
      (now : ℤ) (c c' : Content) → live_content now c' ≡ some c → c'.expire_at_ms ≡ c.expire_at_ms
  live_expiry now c c' h = elim (Bool-cases (has_passed c'.expire_at_ms now)) [
    | inl b ↦ cc (rw b at h)
    | inr b ↦ let same : c' ≡ c = some_elim c c' (rw b at h) in ap (λ c. c.expire_at_ms) same
  ]

  same_expiry :
      (s : Shard) (db : ℕ) (key : Bytes) (e e' : Ent)
      → view s db key ≡ some (content e)
      → search (s.tab db) key ≡ some e'
      → e'.expire_at_ms ≡ e.expire_at_ms
  unfolding view
  same_expiry s db key e e' here found =
      live_expiry s.now (content e) (content e') (rw found at here)

  -- An object changed behind a live entry.
  pub poked_live :
      {A : Type 0} (s : Shard) (db : ℕ) (key : Bytes) (a : A) (e : Ent) (o : P.Obj)
      → is_expired e s.now ≡ false
      → view s db key ≡ some (content e)
      → Outcome s db key
          (a, some (record { payload = coll o; expire_at_ms = e.expire_at_ms }))
          (a, poke s db key o)
  unfolding view
  poked_live s db key a e o live here = elim (Option-cases (search (s.tab db) key)) [
    | inl none_there ↦ cc (rw (view, none_there) at here)
    | inr (e', found) ↦
        let same = same_expiry s db key e e' here found in
        record {
          replies = refl;
          views =
              λ d j. (poke_found s db d key j o e' found).0 ∙ rw (same, live_now e s.now live) refl;
          clock = (poke_found s db db key key o e' found).1;
        }
  ]
