-- ===== src/Commands/Multi/Effect.antt =====
-- The multi-key commands on the keyspace of the whole engine, against the same commands on a function
-- from keys to contents.
use ultima.Base.{
  Bool-cases, inl, inr, subst, ℕ, ◌≡◌, refl, ap, ◌∙◌, Bool, true, false, Option, none, some, List,
  [], ◌∷◌, map, Bytes, ◌==◌, if◌then◌else◌,
}
use ultima.Base.Int.{pos}
use ultima.Platform.{Platform}
use ultima.Resp.{Value, null, blob_string, int, arr}
use ultima.Shard.{Shard, Ent, same_key}
use ultima.Shard.Table.{same_key_iff}
use ultima.Shard.View.{Content, content, view, view-delete, now-delete, is_some, delete-is_some}
use ultima.Commands.{
  Event, Server, shard_index, shard_of, do_task, do_multi, is_string, str_of, new_string, reply_ok,
}
use ultima.Commands.Outcome.{Outcome, kept, stored, after_lookup}
use ultima.Commands.Lift.{keyspace, Effect, do_task-Effect}
use ultima.Commands.Strings.Effect.{new_content}
use ultima.Commands.Multi.{
  count, pairs, first, itself, unbalanced, del_task, exists_found, exists_task, mget_found,
  mget_task, mset_task, set_pairs, cmd_del, cmd_exists, cmd_mget, cmd_mset, cmd_msetnx,
}

module _ ⦃P : Platform⦄ where
  -- The contents of every key.
  abbrev pub Contents : Type 0
  Contents = ℕ → Bytes → Option Content

  abbrev pub put : Contents → ℕ → Bytes → Option Content → Contents
  put m db key c d j = if same_key (db, key) (d, j) then c else m d j

  -- One specification after another.
  unfoldable pub apply_all :
      {A B : Type 0}
      → ℕ
      → (B → Bytes)
      → (B → Option Content → A × Option Content)
      → Contents
      → List B
      → List A × Contents
  apply_all db key spec m [] = ([], m)
  apply_all db key spec m (b ∷ bs) =
      let (a, c) = spec b (m db (key b)) in
      let (rs, m') = apply_all db key spec (put m db (key b) c) bs in (a ∷ rs, m')

  pub record Applied {A : Type 0} (spec : List A × Contents) (r : List A × Server) : Type 0 where
    pub results : r.0 ≡ spec.0
    pub contents : (d : ℕ) (j : Bytes) → keyspace r.1 d j ≡ spec.1 d j

  module _ {A B : Type 0} (db : ℕ) (key : B → Bytes)
      (spec : B → Option Content → A × Option Content) (fn : B → Shard → A × Shard)
      (each : (b : B) (s : Shard)
        → Outcome s db (key b) (spec b (view s db (key b))) (fn b s)) where
    step :
        (e : Server) (m : Contents) (b : B)
        → ((d : ℕ) (j : Bytes) → keyspace e d j ≡ m d j)
        → Effect e db (key b) (spec b (m db (key b))) (do_task e (key b) (fn b))
    unfolding keyspace
    step e m b h =
        subst (λ c. Effect e db (key b) (spec b c) (do_task e (key b) (fn b))) (h db (key b))
          (do_task-Effect e db (key b) _ (fn b) (each b (shard_of e (key b))))

    -- Closures that follow their specifications do so one after another.
    pub do_multi-Applied :
        (e : Server) (m : Contents) (bs : List B)
        → ((d : ℕ) (j : Bytes) → keyspace e d j ≡ m d j)
        → Applied (apply_all db key spec m bs) (do_multi e key bs fn)
    unfolding do_multi apply_all
    do_multi-Applied e m [] h = record { results = refl; contents = h }
    do_multi-Applied e m (b ∷ bs) h =
        let o = spec b (m db (key b)) in
        let one = step e m b h in
        let rest = do_multi-Applied (do_task e (key b) (fn b)).1 (put m db (key b) o.1) bs (λ d j.
          one.contents d j ∙ ap (λ v. if same_key (db, key b) (d, j) then o.1 else v) (h d j)) in
        record { results = rw (one.replies, rest.results); contents = rest.contents }

  -- The single steps.
  abbrev pub del_spec : Bytes → Option Content → Bool × Option Content
  del_spec k c = (is_some c, none)

  abbrev pub exists_spec : Bytes → Option Content → Bool × Option Content
  exists_spec k c = (is_some c, c)

  abbrev pub mget_value : Option Content → Value
  mget_value none = null
  mget_value (some c) = if is_string c.payload then blob_string (str_of c.payload) else null

  abbrev pub mget_spec : Bytes → Option Content → Value × Option Content
  mget_spec k c = (mget_value c, c)

  abbrev pub mset_spec : Bytes × Bytes → Option Content → Bool × Option Content
  mset_spec (k, v) c = (true, some (new_content v))

  module _ (db : ℕ) where
    del_each : (k : Bytes) (s : Shard) → Outcome s db k (del_spec k (view s db k)) (del_task db k s)
    unfolding del_task
    del_each k s = record {
      replies = delete-is_some s db k;
      views = λ d j. view-delete s db d k j;
      clock = now-delete s db k;
    }

    exists_each :
        (k : Bytes) (s : Shard) → Outcome s db k (exists_spec k (view s db k)) (exists_task db k s)
    unfolding exists_task
    exists_each k s =
        after_lookup s db k exists_found (exists_spec k)
          (λ t h n. unfold exists_found in kept t db k false none h)
          (λ e live h. unfold exists_found in kept s db k true (some (content e)) h)

    mget_live :
        (k : Bytes) (s : Shard) (e : Ent)
        → view s db k ≡ some (content e)
        → Outcome s db k (mget_spec k (some (content e))) (mget_found (some e) s)
    mget_live k s e h = elim (Bool-cases (is_string e.payload)) [
      | inl b ↦
          unfold mget_found in
          rw b (kept s db k (blob_string (str_of e.payload)) (some (content e)) h)
      | inr b ↦ unfold mget_found in rw b (kept s db k null (some (content e)) h)
    ]

    mget_each :
        (k : Bytes) (s : Shard) → Outcome s db k (mget_spec k (view s db k)) (mget_task db k s)
    unfolding mget_task
    mget_each k s =
        after_lookup s db k mget_found (mget_spec k)
          (λ t h n. unfold mget_found in kept t db k null none h) (λ e live h. mget_live k s e h)

    mset_each :
        (kv : Bytes × Bytes) (s : Shard)
        → Outcome s db (first kv) (mset_spec kv (view s db (first kv))) (mset_task db kv s)
    unfolding mset_task
    mset_each (k, v) s = stored s db k true (new_string v) (some (new_content v)) refl

  -- Reads in sequence see the first contents.
  pub apply_all-read :
      {A B : Type 0} (db : ℕ) (key : B → Bytes) (f : Option Content → A) (m n : Contents)
      (bs : List B)
      → ((d : ℕ) (j : Bytes) → m d j ≡ n d j)
      → ((apply_all db key (λ b c. (f c, c)) m bs).0 ≡ map (λ b. f (n db (key b))) bs)
        × ((d : ℕ) (j : Bytes) → (apply_all db key (λ b c. (f c, c)) m bs).1 d j ≡ n d j)
  unfolding apply_all
  apply_all-read db key f m n [] h = (refl, h)
  apply_all-read db key f m n (b ∷ bs) h =
      let rest =
        apply_all-read db key f (put m db (key b) (m db (key b))) n bs
          (λ d j. put-same m db (key b) d j ∙ h d j) in
      (rw (rest.0, h db (key b)), rest.1)
    where
      put-same :
          (m : Contents) (db : ℕ) (k : Bytes) (d : ℕ) (j : Bytes) → put m db k (m db k) d j ≡ m d j
      put-same m db k d j = elim (Bool-cases (same_key (db, k) (d, j))) [
        | inl p ↦ let (pd, pk) = (same_key_iff db d k j).0 p in rw p (rw (← pd, ← pk))
        | inr p ↦ rw p
      ]

  keyspace-events :
      (e : Server) (events : List Event) (d : ℕ) (j : Bytes)
      → keyspace (record e { events = events }) d j ≡ keyspace e d j
  unfolding keyspace shard_of shard_index
  keyspace-events e events d j = refl

  set_pairs-Applied :
      (e : Server) (db : ℕ) (m : Contents) (kvs : List (Bytes × Bytes))
      → ((d : ℕ) (j : Bytes) → keyspace e d j ≡ m d j)
      → (d : ℕ) (j : Bytes)
      → keyspace (set_pairs e db kvs) d j ≡ (apply_all db first mset_spec m kvs).1 d j
  unfolding set_pairs
  set_pairs-Applied e db m kvs h d j =
      let o = do_multi-Applied db first mset_spec (mset_task db) (mset_each db) e m kvs h in
      keyspace-events _ _ d j ∙ o.contents d j

  module _ (e : Server) (db : ℕ) where
    do_exists :
        (keys : List Bytes)
        → Applied
            (apply_all db itself exists_spec (keyspace e) keys)
            (do_multi e itself keys (exists_task db))
    do_exists keys =
        do_multi-Applied db itself exists_spec (exists_task db) (exists_each db) e (keyspace e) keys
          (λ d j. refl)

    -- EXISTS counts the visible keys among its arguments, a repeated key as often as it is named,
    -- and changes no visible key.
    pub cmd_exists-count :
        (keys : List Bytes)
        → ((cmd_exists e db keys).0 ≡ int (pos (count (map (λ k. is_some (keyspace e db k)) keys))))
          × ((d : ℕ) (j : Bytes) → keyspace (cmd_exists e db keys).1 d j ≡ keyspace e d j)
    unfolding cmd_exists
    cmd_exists-count keys =
        let o = do_exists keys in
        let p = apply_all-read db itself is_some (keyspace e) (keyspace e) keys (λ d j. refl) in
        (ap (λ bs. int (pos (count bs))) (o.results ∙ p.0), λ d j. o.contents d j ∙ p.1 d j)

    -- MGET replies with the value that each key had before the command, null for a key that is
    -- missing, expired or no string, and changes no visible key.
    pub cmd_mget-values :
        (keys : List Bytes)
        → ((cmd_mget e db keys).0 ≡ arr (map (λ k. mget_value (keyspace e db k)) keys))
          × ((d : ℕ) (j : Bytes) → keyspace (cmd_mget e db keys).1 d j ≡ keyspace e d j)
    unfolding cmd_mget
    cmd_mget-values keys =
        let o =
          do_multi-Applied db itself mget_spec (mget_task db) (mget_each db) e (keyspace e) keys
            (λ d j. refl) in
        let p = apply_all-read db itself mget_value (keyspace e) (keyspace e) keys (λ d j. refl) in
        (ap arr (o.results ∙ p.0), λ d j. o.contents d j ∙ p.1 d j)

    -- DEL removes its keys one after another, replies with how many were visible when their turn
    -- came, and changes no other key.
    pub cmd_del-Applied :
        (keys : List Bytes)
        → ((cmd_del e db keys).0
            ≡ int (pos (count (apply_all db itself del_spec (keyspace e) keys).0)))
          × ((d : ℕ) (j : Bytes)
              → keyspace (cmd_del e db keys).1 d j
                ≡ (apply_all db itself del_spec (keyspace e) keys).1 d j)
    unfolding cmd_del
    cmd_del-Applied keys =
        let o =
          do_multi-Applied db itself del_spec (del_task db) (del_each db) e (keyspace e) keys
            (λ d j. refl) in
        (ap (λ bs. int (pos (count bs))) o.results, λ d j. keyspace-events _ _ d j ∙ o.contents d j)

    -- MSET with balanced arguments replies OK and sets its pairs from left to right: each key then
    -- holds the last value given for it, without an expiry, and no other key changes.
    pub cmd_mset-Applied :
        (args : List Bytes)
        → unbalanced args ≡ false
        → ((cmd_mset e db args).0 ≡ reply_ok)
          × ((d : ℕ) (j : Bytes)
              → keyspace (cmd_mset e db args).1 d j
                ≡ (apply_all db first mset_spec (keyspace e) (pairs args)).1 d j)
    unfolding cmd_mset
    cmd_mset-Applied args h =
        rw h (refl, λ d j. set_pairs-Applied e db (keyspace e) (pairs args) (λ d j. refl) d j)

  module _ (e : Server) (db : ℕ) (args : List Bytes) (balanced : unbalanced args ≡ false) where
    abbrev pub keys_of : List Bytes
    keys_of = map first (pairs args)

    abbrev pub visible_keys : ℕ
    visible_keys = count (map (λ k. is_some (keyspace e db k)) keys_of)

    live_count : count (do_multi e itself keys_of (exists_task db)).0 ≡ visible_keys
    live_count = ap count (
        (do_exists e db keys_of).results
        ∙ (apply_all-read db itself is_some (keyspace e) (keyspace e) keys_of (λ d j. refl)).0)

    checked :
        (d : ℕ) (j : Bytes)
        → keyspace (do_multi e itself keys_of (exists_task db)).1 d j ≡ keyspace e d j
    checked d j =
        (do_exists e db keys_of).contents d j
        ∙ (apply_all-read db itself is_some (keyspace e) (keyspace e) keys_of (λ d j. refl)).1 d j

    -- MSETNX with balanced arguments replies 0 and changes no key if one of its keys is visible,
    -- and otherwise replies 1 and sets its pairs from left to right.
    pub cmd_msetnx-Applied :
        ((cmd_msetnx e db args).0 ≡ int (pos (if visible_keys == 0 then 1 else 0)))
        × ((d : ℕ) (j : Bytes)
            → keyspace (cmd_msetnx e db args).1 d j ≡ (
                if visible_keys == 0
                then (apply_all db first mset_spec (keyspace e) (pairs args)).1 d j
                else keyspace e d j))
    cmd_msetnx-Applied = elim (Bool-cases (visible_keys == 0)) [
      | inl h ↦
          unfold cmd_msetnx in
          rw (balanced, live_count, h)
            (refl, λ d j. set_pairs-Applied _ db (keyspace e) (pairs args) checked d j)
      | inr h ↦ unfold cmd_msetnx in rw (balanced, live_count, h) (refl, checked)
    ]
