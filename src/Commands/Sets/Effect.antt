-- ===== src/Commands/Sets/Effect.antt =====
-- What the set commands do to the keyspace, each against a specification that sees only the visible
-- content of its key.
use ultima.Base.{
  ℕ, ◌≡◌, refl, inl, inr, true, false, Option, none, some, List, [], ◌∷◌, Bytes, codes, length,
  ◌==◌, ltb, if◌then◌else◌, ◌>>=◌, Bool-cases,
}
use ultima.Base.Int.{ℤ, pos}
use ultima.Platform.{Platform, coll}
use ultima.Resp.{int}
use ultima.Types.Set.{IntSet, new_set, set_len, members}
use ultima.Shard.{Shard, Ent, is_expired, store}
use ultima.Shard.View.{Content, content, view, is_some, delete-is_some}
use ultima.Commands.{Reply, quiet}
use ultima.Commands.Outcome.{Outcome, kept, stored, deleted, branch, after_lookup}
use ultima.Commands.Collections.{Sets, poked, new_coll}
use ultima.Commands.Collections.Outcomes.{
  Spec, refuse_or, held-Outcome, then_deleted, touched_as, poked_live,
}
use ultima.Commands.SetAlgebra.{Snapshot, add_where, anything}
use ultima.Commands.Sets.{
  SetRead, set_read_reply, set_read_missing, sread_found, sread_task, sadd_each, sadd_new, sadd_old,
  sadd_found, sadd_task, sadd_events, changed, srem_each, srem_done, srem_found, srem_task,
  snapshot_found, snapshot_task, store_result, set_in,
}

module _ ⦃P : Platform⦄ ⦃O : Sets⦄ where
  open O use {of_set}

  abbrev pub set_content : IntSet → ℤ → Content
  set_content x at = record { payload = coll (of_set x); expire_at_ms = at }

  abbrev pub sread_spec : SetRead → Spec
  sread_spec rd none = (some (quiet (set_read_missing rd)), none)
  sread_spec rd (some c) =
      refuse_or c (λ x. ((set_read_reply rd x) >>= (λ v. some (quiet v)), some c))
        (set_in c.payload)

  abbrev pub sadd_done : Content → Option (IntSet × ℕ) → Option Reply × Option Content
  sadd_done c none = (none, some c)
  sadd_done c (some (x, n)) =
      (some (int (pos n), sadd_events n), some (set_content x c.expire_at_ms))

  abbrev pub sadd_spec : List Bytes → Spec
  sadd_spec ms none = sadd_done (set_content new_set (pos 0)) (sadd_each ms new_set 0)
  sadd_spec ms (some c) = refuse_or c (λ x. sadd_done c (sadd_each ms x 0)) (set_in c.payload)

  abbrev pub srem_left : Content → Option (IntSet × ℕ) → Option Reply × Option Content
  srem_left c none = (none, some c)
  srem_left c (some (x, n)) =
      if set_len x == 0
      then (some (int (pos n), if ltb 0 n then codes "srem" ∷ codes "del" ∷ [] else []), none)
      else (
        some (int (pos n), if ltb 0 n then codes "srem" ∷ [] else []),
        some (set_content x c.expire_at_ms),
      )

  abbrev pub srem_spec : List Bytes → Spec
  srem_spec ms none = (some (quiet (int (pos 0))), none)
  srem_spec ms (some c) = refuse_or c (λ x. srem_left c (srem_each ms x 0)) (set_in c.payload)

  abbrev pub store_spec : List Bytes → Bytes → Spec
  store_spec ms event c =
      if length ms == 0
      then (some (int (pos 0), if is_some c then codes "del" ∷ [] else []), none)
      else elim (add_where anything ms new_set) [
        | none ↦ (none, c)
        | some x ↦ (some (int (pos (length ms)), event ∷ []), some (set_content x (pos 0)))
      ]

  abbrev pub snapshot_of : Option IntSet → Option (Option Snapshot)
  snapshot_of none = some none
  snapshot_of (some x) =
      (members x) >>= (λ ms. some (some (record { members = ms; present = true })))

  abbrev pub snapshot_value : Option Content → Option (Option Snapshot)
  snapshot_value none = some (some (record { members = []; present = false }))
  snapshot_value (some c) = snapshot_of (set_in c.payload)

  module _ (s : Shard) (db : ℕ) (key : Bytes) where
    changed-Outcome :
        (e : Ent) (x : IntSet) (n : ℕ) (r : Reply)
        → is_expired e s.now ≡ false
        → view s db key ≡ some (content e)
        → Outcome {A = Option Reply} s db key
            (some r, some (set_content x e.expire_at_ms))
            (some r, changed db key e x n s)
    unfolding changed
    changed-Outcome e x n r live here = elim (Bool-cases (ltb 0 n)) [
      | inl b ↦ rw b (touched_as s db key e (of_set x) live r)
      | inr b ↦ rw b (poked_live s db key _ e (of_set x) live here)
    ]

    sadd_old-Outcome :
        (e : Ent) (r : Option (IntSet × ℕ))
        → is_expired e s.now ≡ false
        → view s db key ≡ some (content e)
        → Outcome s db key (sadd_done (content e) r) (sadd_old db key e r s)
    unfolding sadd_old
    sadd_old-Outcome e none live here = kept s db key _ _ here
    sadd_old-Outcome e (some (x, n)) live here = changed-Outcome e x n _ live here

    sadd_new-Outcome :
        (r : Option (IntSet × ℕ))
        → Outcome s db key
            (sadd_done (set_content new_set (pos 0)) r)
            (sadd_new db key r (store s db key (new_coll (of_set new_set))))
    unfolding sadd_new
    sadd_new-Outcome none = stored s db key _ (new_coll (of_set new_set)) _ refl
    sadd_new-Outcome (some (x, n)) = poked s db key _ (of_set new_set) (of_set x)

    srem_done-Outcome :
        (e : Ent) (r : Option (IntSet × ℕ))
        → is_expired e s.now ≡ false
        → view s db key ≡ some (content e)
        → Outcome s db key (srem_left (content e) r) (srem_done db key e r s)
    unfolding srem_done
    srem_done-Outcome e none live here = kept s db key _ _ here
    srem_done-Outcome e (some (x, n)) live here =
        branch s db key (set_len x == 0)
          (λ _.
            then_deleted s db key _ _ _ (changed-Outcome e x n (quiet (int (pos n))) live here) _)
          (λ _. changed-Outcome e x n _ live here)

    pub sread_task-Outcome :
        (rd : SetRead) → Outcome s db key (sread_spec rd (view s db key)) (sread_task rd db key s)
    unfolding sread_task sread_found
    sread_task-Outcome rd =
        after_lookup s db key (sread_found rd) (sread_spec rd) (λ t h n. kept t db key _ _ h)
          (λ e live h. held-Outcome s db key e set_in _ _ h (λ x. kept s db key _ _ h))

    pub snapshot_task-Outcome :
        Outcome s db key (snapshot_value (view s db key), view s db key) (snapshot_task db key s)
    unfolding snapshot_task snapshot_found
    snapshot_task-Outcome =
        after_lookup s db key snapshot_found (λ c. (snapshot_value c, c))
          (λ t h n. kept t db key _ _ h) (λ e live h. at_payload e (set_in e.payload) h)
      where
        at_payload :
            (e : Ent) (o : Option IntSet)
            → view s db key ≡ some (content e)
            → Outcome {A = Option (Option Snapshot)} s db key
                (snapshot_of o, some (content e))
                (elim o [
                  | none ↦ (some none, s)
                  | some x ↦ (
                    (members x) >>= (λ ms. some (some (record { members = ms; present = true }))),
                    s,
                  )
                ])
        at_payload e none h = kept s db key _ _ h
        at_payload e (some x) h = kept s db key _ _ h

    pub store_result-Outcome :
        (ms : List Bytes) (event : Bytes)
        → Outcome s db key (store_spec ms event (view s db key)) (store_result ms event db key s)
    unfolding store_result
    store_result-Outcome ms event =
        branch s db key (length ms == 0) (λ _. rw (delete-is_some s db key) (deleted s db key _))
          (λ _. at_set (add_where anything ms new_set))
      where
        at_set :
            (o : Option IntSet)
            → Outcome {A = Option Reply} s db key
                (elim o [
                  | none ↦ (none, view s db key)
                  | some x ↦
                      (some (int (pos (length ms)), event ∷ []), some (set_content x (pos 0)))
                ])
                (elim o [
                  | none ↦ (none, s)
                  | some x ↦ (
                    some (int (pos (length ms)), event ∷ []),
                    store s db key (new_coll (of_set x)),
                  )
                ])
        at_set none = kept s db key _ _ refl
        at_set (some x) = stored s db key _ (new_coll (of_set x)) _ refl

  module _ (s : Shard) (db : ℕ) (key : Bytes) where
    pub sadd_task-Outcome :
        (ms : List Bytes) → Outcome s db key (sadd_spec ms (view s db key)) (sadd_task ms db key s)
    unfolding sadd_task sadd_found
    sadd_task-Outcome ms =
        after_lookup s db key (sadd_found ms db key) (sadd_spec ms)
          (λ t h n. sadd_new-Outcome t db key (sadd_each ms new_set 0))
          (λ e live h.
            held-Outcome s db key e set_in _ _ h
              (λ x. sadd_old-Outcome s db key e (sadd_each ms x 0) live h))

    pub srem_task-Outcome :
        (ms : List Bytes) → Outcome s db key (srem_spec ms (view s db key)) (srem_task ms db key s)
    unfolding srem_task srem_found
    srem_task-Outcome ms =
        after_lookup s db key (srem_found ms db key) (srem_spec ms) (λ t h n. kept t db key _ _ h)
          (λ e live h.
            held-Outcome s db key e set_in _ _ h
              (λ x. srem_done-Outcome s db key e (srem_each ms x 0) live h))
