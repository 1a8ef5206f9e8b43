-- ===== src/Commands/Lift.antt =====
-- From one shard to the engine: what a command does to the shard that owns its key is what it does to
-- the whole keyspace.
use ultima.Base.{
  Bool-cases, ℕ, ◌==◌, ==_iff, ◌≡◌, refl, ap, ◌∙◌, inl, inr, true, false, Option, Bytes, map, ◌++◌,
  if◌then◌else◌, arith,
}
use ultima.Platform.{Platform}
use ultima.Resp.{Value}
use ultima.Shard.{Shard, same_key}
use ultima.Shard.Table.{same_key_iff}
use ultima.Shard.View.{Content, view}
use ultima.Commands.{Reply, Server, shard_index, shard_of, do_task, command}
use ultima.Commands.Outcome.{Outcome}

module _ ⦃P : Platform⦄ where
  -- What a client can see of a key: the shard that owns it decides.
  unfoldable pub keyspace : Server → ℕ → Bytes → Option Content
  unfolding shard_of view
  keyspace e db key = view (shard_of e key) db key

  -- A result of a command, described by the key's old content.
  pub record Effect {A : Type 0} (e : Server) (db : ℕ) (key : Bytes) (spec : A × Option Content)
      (r : A × Server) : Type 0 where
    pub replies : r.0 ≡ spec.0
    pub contents :
        (d : ℕ) (j : Bytes)
        → keyspace r.1 d j ≡ (if same_key (db, key) (d, j) then spec.1 else keyspace e d j)
    pub clock : r.1.now ≡ e.now

  -- A key of the shard that ran the task, and a key of another shard.
  keyspace-same :
      {A : Type 0} (e : Server) (key : Bytes) (fn : Shard → A × Shard) (d : ℕ) (j : Bytes)
      → (fn (shard_of e key)).1.now ≡ e.now
      → (shard_index e key == shard_index e j) ≡ true
      → keyspace (do_task e key fn).1 d j ≡ view (fn (shard_of e key)).1 d j
  unfolding keyspace shard_of do_task view shard_index
  keyspace-same e key fn d j n h = rw (h, n)

  keyspace-other :
      {A : Type 0} (e : Server) (key : Bytes) (fn : Shard → A × Shard) (d : ℕ) (j : Bytes)
      → (shard_index e key == shard_index e j) ≡ false
      → keyspace (do_task e key fn).1 d j ≡ keyspace e d j
  unfolding keyspace shard_of do_task view shard_index
  keyspace-other e key fn d j h = rw h

  view-shard_of :
      (e : Server) (key j : Bytes) (d : ℕ)
      → (shard_index e key == shard_index e j) ≡ true
      → view (shard_of e key) d j ≡ keyspace e d j
  unfolding keyspace shard_of
  view-shard_of e key j d h = rw ((==_iff _ _).0 h)

  other_key :
      (e : Server) (db d : ℕ) (key j : Bytes)
      → (shard_index e key == shard_index e j) ≡ false
      → same_key (db, key) (d, j) ≡ false
  other_key e db d key j i = elim (Bool-cases (same_key (db, key) (d, j))) [
    | inl p ↦
        let (pd, pk) = (same_key_iff db d key j).0 p in
        let same : (shard_index e key == shard_index e key) ≡ false = rw (← pk) at i in
        ground (arith, same)
    | inr p ↦ p
  ]

  pub do_task-Effect :
      {A : Type 0} (e : Server) (db : ℕ) (key : Bytes) (spec : A × Option Content)
      (fn : Shard → A × Shard)
      → Outcome (shard_of e key) db key spec (fn (shard_of e key))
      → Effect e db key spec (do_task e key fn)
  do_task-Effect e db key spec fn h = record {
    replies = unfold do_task in h.replies;
    contents = λ d j. elim (Bool-cases (shard_index e key == shard_index e j)) [
      | inl i ↦
          keyspace-same e key fn d j (unfold shard_of in h.clock) i
          ∙ h.views d j
          ∙ ap (λ v. if same_key (db, key) (d, j) then spec.1 else v) (view-shard_of e key j d i)
      | inr i ↦ rw (keyspace-other e key fn d j i, other_key e db d key j i)
    ];
    clock = unfold do_task in refl;
  }

  -- A task that no client sees.
  pub keyspace-unseen :
      {A : Type 0} (e : Server) (key : Bytes) (fn : Shard → A × Shard)
      → ((d : ℕ) (j : Bytes) → view (fn (shard_of e key)).1 d j ≡ view (shard_of e key) d j)
      → (fn (shard_of e key)).1.now ≡ (shard_of e key).now
      → (d : ℕ) (j : Bytes) → keyspace (do_task e key fn).1 d j ≡ keyspace e d j
  keyspace-unseen e key fn h n d j = elim (Bool-cases (shard_index e key == shard_index e j)) [
    | inl i ↦
        keyspace-same e key fn d j (unfold shard_of in n) i ∙ h d j ∙ view-shard_of e key j d i
    | inr i ↦ keyspace-other e key fn d j i
  ]

  -- A whole command: its reply, its notifications in order, and the keyspace it leaves.
  pub record Handled (e : Server) (db : ℕ) (key : Bytes) (spec : Reply × Option Content)
      (r : Value × Server) : Type 0 where
    pub answer : r.0 ≡ spec.0.0
    pub contents :
        (d : ℕ) (j : Bytes)
        → keyspace r.1 d j ≡ (if same_key (db, key) (d, j) then spec.1 else keyspace e d j)
    pub notified :
        r.1.events ≡ e.events ++ map (λ n. record { db = db; key = key; event = n }) spec.0.1
    pub clock : r.1.now ≡ e.now

  keyspace-command :
      (e : Server) (db d : ℕ) (key j : Bytes) (fn : Shard → Reply × Shard)
      → keyspace (command e db key fn).1 d j ≡ keyspace (do_task e key fn).1 d j
  unfolding command keyspace shard_of shard_index
  keyspace-command e db d key j fn = refl

  -- Every single-key command acts on the keyspace as its closure acts on one shard.
  pub command-Handled :
      (e : Server) (db : ℕ) (key : Bytes) (spec : Option Content → Reply × Option Content)
      (fn : Shard → Reply × Shard)
      → Outcome (shard_of e key) db key (spec (view (shard_of e key) db key)) (fn (shard_of e key))
      → Handled e db key (spec (keyspace e db key)) (command e db key fn)
  unfolding keyspace
  command-Handled e db key spec fn h =
      let t = do_task-Effect e db key (spec (view (shard_of e key) db key)) fn h in
      record {
        answer = unfold command in ap (λ r. r.0) t.replies;
        contents = λ d j. keyspace-command e db d key j fn ∙ t.contents d j;
        notified =
            unfold command do_task in
            ap (λ (r : Reply). e.events ++ map (λ n. record { db = db; key = key; event = n }) r.1)
              t.replies;
        clock = unfold command in t.clock;
      }
