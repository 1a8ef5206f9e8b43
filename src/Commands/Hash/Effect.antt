-- ===== src/Commands/Hash/Effect.antt =====
-- What the hash commands do to the keyspace, each against a specification that sees only the visible
-- content of its key.
use ultima.Base.{
  ℕ, ◌≡◌, refl, inl, inr, false, Option, none, some, List, [], ◌∷◌, Bytes, codes, ◌==◌, ltb,
  if◌then◌else◌, ◌>>=◌, Bool-cases,
}
use ultima.Base.Int.{ℤ, pos}
use ultima.Platform.{Platform, coll}
use ultima.Resp.{int}
use ultima.Types.Hash.{Hash, new_hash, hash_len}
use ultima.Shard.{Shard, Ent, is_expired, store}
use ultima.Shard.View.{Content, content, view}
use ultima.Commands.{Reply, quiet}
use ultima.Commands.Outcome.{Outcome, kept, stored, deleted, branch, after_lookup}
use ultima.Commands.Collections.{Hashes, poked, new_coll}
use ultima.Commands.Collections.Outcomes.{Spec, refuse_or, held-Outcome, then_deleted, touched_as}
use ultima.Commands.Hash.{
  HashRead, read_reply, read_missing, read_found, read_task, hset_fields, hset_found, hset_task,
  hset_new, hset_old, hdel_fields, hdel_found, hdel_done, hdel_task, Update, update_new, update_old,
  update_found, update_task, hash_in,
}

module _ ⦃P : Platform⦄ ⦃O : Hashes⦄ where
  open O use {of_hash}

  abbrev pub hash_content : Hash → ℤ → Content
  hash_content h at = record { payload = coll (of_hash h); expire_at_ms = at }

  abbrev pub on_hash :
      Content → (Hash → Option Reply × Option Content) → Option Reply × Option Content
  on_hash c f = refuse_or c f (hash_in c.payload)

  abbrev pub read_spec : HashRead → Spec
  read_spec rd none = (some (quiet (read_missing rd)), none)
  read_spec rd (some c) = on_hash c (λ h. ((read_reply rd h) >>= (λ v. some (quiet v)), some c))

  abbrev pub hset_done : Content → Option (Hash × ℕ) → Option Reply × Option Content
  hset_done c none = (none, some c)
  hset_done c (some (h, n)) =
      (some (int (pos n), codes "hset" ∷ []), some (hash_content h c.expire_at_ms))

  abbrev pub hset_spec : List Bytes → Spec
  hset_spec rest none = hset_done (hash_content new_hash (pos 0)) (hset_fields rest new_hash 0)
  hset_spec rest (some c) = on_hash c (λ h. hset_done c (hset_fields rest h 0))

  abbrev pub hdel_left : Content → Option (Hash × ℕ) → Option Reply × Option Content
  hdel_left c none = (none, some c)
  hdel_left c (some (h, n)) =
      if hash_len h == 0
      then (some (int (pos n), if ltb 0 n then codes "hdel" ∷ codes "del" ∷ [] else []), none)
      else (
        some (int (pos n), if ltb 0 n then codes "hdel" ∷ [] else []),
        some (if ltb 0 n then hash_content h c.expire_at_ms else c),
      )

  abbrev pub hdel_spec : List Bytes → Spec
  hdel_spec fs none = (some (quiet (int (pos 0))), none)
  hdel_spec fs (some c) = on_hash c (λ h. hdel_left c (hdel_fields fs h 0))

  abbrev pub updated : Option Content → ℤ → Option Update → Option Reply × Option Content
  updated c at none = (none, c)
  updated c at (some (inl r)) = (some r, c)
  updated c at (some (inr (r, h))) = (some r, some (hash_content h at))

  abbrev pub update_spec : (Hash → Option Update) → Spec
  update_spec f none = updated none (pos 0) (f new_hash)
  update_spec f (some c) = on_hash c (λ h. updated (some c) c.expire_at_ms (f h))

  module _ (s : Shard) (db : ℕ) (key : Bytes) where
    pub read_task-Outcome :
        (rd : HashRead) → Outcome s db key (read_spec rd (view s db key)) (read_task rd db key s)
    unfolding read_task read_found
    read_task-Outcome rd =
        after_lookup s db key (read_found rd) (read_spec rd) (λ t h n. kept t db key _ _ h)
          (λ e live h. held-Outcome s db key e hash_in _ _ h (λ x. kept s db key _ _ h))

    hset_old-Outcome :
        (e : Ent) (r : Option (Hash × ℕ))
        → is_expired e s.now ≡ false
        → view s db key ≡ some (content e)
        → Outcome s db key (hset_done (content e) r) (hset_old db key e r s)
    unfolding hset_old
    hset_old-Outcome e none live here = kept s db key _ _ here
    hset_old-Outcome e (some (h, n)) live here = touched_as s db key e (of_hash h) live _

    hset_new-Outcome :
        (r : Option (Hash × ℕ))
        → Outcome s db key
            (hset_done (hash_content new_hash (pos 0)) r)
            (hset_new db key r (store s db key (new_coll (of_hash new_hash))))
    unfolding hset_new
    hset_new-Outcome none = stored s db key _ (new_coll (of_hash new_hash)) _ refl
    hset_new-Outcome (some (h, n)) = poked s db key _ (of_hash new_hash) (of_hash h)

    update_old-Outcome :
        (e : Ent) (u : Option Update)
        → is_expired e s.now ≡ false
        → view s db key ≡ some (content e)
        → Outcome s db key (updated (some (content e)) e.expire_at_ms u) (update_old db key e u s)
    unfolding update_old
    update_old-Outcome e none live here = kept s db key _ _ here
    update_old-Outcome e (some (inl r)) live here = kept s db key _ _ here
    update_old-Outcome e (some (inr (r, h))) live here = touched_as s db key e (of_hash h) live r

    update_new-Outcome :
        (u : Option Update)
        → view s db key ≡ none
        → Outcome s db key (updated none (pos 0) u) (update_new db key u s)
    unfolding update_new
    update_new-Outcome none here = kept s db key _ _ here
    update_new-Outcome (some (inl r)) here = kept s db key _ _ here
    update_new-Outcome (some (inr (r, h))) here = stored s db key _ (new_coll (of_hash h)) _ refl

    hdel_done-Outcome :
        (e : Ent) (r : Option (Hash × ℕ))
        → is_expired e s.now ≡ false
        → view s db key ≡ some (content e)
        → Outcome s db key (hdel_left (content e) r) (hdel_done db key e r s)
    unfolding hdel_done
    hdel_done-Outcome e none live here = kept s db key _ _ here
    hdel_done-Outcome e (some (h, n)) live here =
        branch s db key (hash_len h == 0)
          (λ _. elim (Bool-cases (ltb 0 n)) [
            | inl b ↦ rw b (
                then_deleted s db key _ _ _
                  (touched_as s db key e (of_hash h) live (quiet (int (pos n)))) _)
            | inr b ↦ rw b (deleted s db key _)
          ])
          (λ _. elim (Bool-cases (ltb 0 n)) [
            | inl b ↦ rw b (touched_as s db key e (of_hash h) live _)
            | inr b ↦ rw b (kept s db key _ _ here)
          ])

  module _ (s : Shard) (db : ℕ) (key : Bytes) where
    pub hset_task-Outcome :
        (rest : List Bytes)
        → Outcome s db key (hset_spec rest (view s db key)) (hset_task rest db key s)
    unfolding hset_task hset_found
    hset_task-Outcome rest =
        after_lookup s db key (hset_found rest db key) (hset_spec rest)
          (λ t h n. hset_new-Outcome t db key (hset_fields rest new_hash 0))
          (λ e live h.
            held-Outcome s db key e hash_in _ _ h
              (λ x. hset_old-Outcome s db key e (hset_fields rest x 0) live h))

    pub hdel_task-Outcome :
        (fs : List Bytes) → Outcome s db key (hdel_spec fs (view s db key)) (hdel_task fs db key s)
    unfolding hdel_task hdel_found
    hdel_task-Outcome fs =
        after_lookup s db key (hdel_found fs db key) (hdel_spec fs) (λ t h n. kept t db key _ _ h)
          (λ e live h.
            held-Outcome s db key e hash_in _ _ h
              (λ x. hdel_done-Outcome s db key e (hdel_fields fs x 0) live h))

    pub update_task-Outcome :
        (f : Hash → Option Update)
        → Outcome s db key (update_spec f (view s db key)) (update_task f db key s)
    unfolding update_task update_found
    update_task-Outcome f =
        after_lookup s db key (update_found f db key) (update_spec f)
          (λ t h n. update_new-Outcome t db key (f new_hash) h)
          (λ e live h.
            held-Outcome s db key e hash_in _ _ h (λ x. update_old-Outcome s db key e (f x) live h))
