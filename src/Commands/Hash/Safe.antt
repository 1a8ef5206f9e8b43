-- ===== src/Commands/Hash/Safe.antt =====
-- A keyspace whose hashes are well-formed stays one under every hash command, and none of them panics.
use ultima.Base.{
  ℕ, ◌≡◌, refl, ap, inl, inr, Bool, true, false, Option, none, some, List, Bytes, codes, ◌==◌, ltb,
  if◌then◌else◌, ◌>>=◌, Option-cases, Bool-cases,
}
use ultima.Base.Int.{ℤ, pos}
use ultima.Numbers.{parse_int_strict}
use ultima.Platform.{Platform}
use ultima.Resp.{Value}
use ultima.Types.Hash.{Hash, new_hash, hash_len}
use ultima.Types.Hash.Encoding.{IsHash}
use ultima.Types.Hash.Refines.{new_hash-IsHash}
use ultima.Shard.{Shard, same_key}
use ultima.Shard.View.{Content, view}
use ultima.Commands.{
  Reply, quiet, Server, shard_of, err_wrong_type, err_not_int, err_arity, reply_ok,
}
use ultima.Commands.Outcome.{Outcome}
use ultima.Commands.Lift.{keyspace}
use ultima.Commands.Collections.{Hashes, coll_command}
use ultima.Commands.Collections.Outcomes.{Spec, refuse_or, spec_command}
use ultima.Commands.Hash.{
  HashRead, Update, read_task, hset_task, hdel_task, update_task, hsetnx_update, hincrby_update,
  is_odd, is_error, hash_in, cmd_hread, cmd_hset, cmd_hmset, cmd_hdel, cmd_hsetnx, cmd_hincrby,
  read_reply, hset_fields, hdel_fields,
}
use ultima.Commands.Hash.Effect.{
  hash_content, read_spec, hset_spec, hset_done, hdel_spec, hdel_left, update_spec, updated,
  read_task-Outcome, hset_task-Outcome, hdel_task-Outcome, update_task-Outcome,
}
use ultima.Commands.Hash.Total.{
  hset_fields_lem, hdel_fields_lem, read_reply-view, read_view, IsTotal, UpdateOk,
  hsetnx_update-IsTotal, hincrby_update-IsTotal,
}

module _ ⦃P : Platform⦄ ⦃O : Hashes⦄ where
  open O use {of_hash, as_hash, as_hash-of_hash}

  abbrev OkHash : Option Hash → Type 0
  OkHash none = Unit
  OkHash (some h) = IsHash h

  -- A visible hash is well-formed.
  abbrev pub OkContent : Option Content → Type 0
  OkContent none = Unit
  OkContent (some c) = OkHash (hash_in c.payload)

  pub record IsSound (e : Server) : Type 0 where
    pub hashes : (db : ℕ) (key : Bytes) → OkContent (keyspace e db key)

  -- A specification that always replies.
  abbrev Replies : Option Reply × Option Content → Type 0
  Replies p = (r : Reply) × (p.0 ≡ some r) × OkContent p.1

  hash_content-OkContent : (h : Hash) (at : ℤ) → IsHash h → OkContent (some (hash_content h at))
  hash_content-OkContent h at w = rw (as_hash-of_hash h) w

  on_hash-Replies :
      (c : Content) (f : Hash → Option Reply × Option Content)
      → OkContent (some c)
      → ((h : Hash) → IsHash h → Replies (f h))
      → Replies (refuse_or c f (hash_in c.payload))
  on_hash-Replies c f ok each = at_payload (hash_in c.payload) ok
    where
      at_payload : (o : Option Hash) → OkHash o → Replies (refuse_or c f o)
      at_payload none good = (quiet err_wrong_type, refl, ok)
      at_payload (some h) good = each h good

  hset_done-Replies :
      (c : Content) (rest : List Bytes) (h : Hash)
      → IsHash h
      → Replies (hset_done c (hset_fields rest h 0))
  hset_done-Replies c rest h w =
      let ((h', n), run, l) = hset_fields_lem rest h 0 w in
      rw run (_, refl, hash_content-OkContent h' c.expire_at_ms l.valid)

  hdel_left-Replies :
      (c : Content) (fs : List Bytes) (h : Hash)
      → OkContent (some c)
      → IsHash h
      → Replies (hdel_left c (hdel_fields fs h 0))
  hdel_left-Replies c fs h ok w =
      let ((h', n), run, l) = hdel_fields_lem fs h 0 w in
      elim (Bool-cases (hash_len h' == 0)) [
        | inl b ↦ rw (run, b) (_, refl, tt)
        | inr b ↦ rw (run, b) (_, refl, either (ltb 0 n) h' l.valid)
      ]
    where
      either :
          (b : Bool) (h : Hash)
          → IsHash h
          → OkContent (some (if b then hash_content h c.expire_at_ms else c))
      either true h w = hash_content-OkContent h c.expire_at_ms w
      either false h w = ok

  updated-Replies :
      (c : Option Content) (at : ℤ) (f : Hash → Option Update) (h : Hash)
      → IsTotal f
      → OkContent c
      → IsHash h
      → Replies (updated c at (f h))
  updated-Replies c at f h total ok w = let (u, run, good) = total h w in rw run (of_update u good)
    where
      of_update : (u : Update) → UpdateOk u → Replies (updated c at (some u))
      of_update (inl r) good = (r, refl, ok)
      of_update (inr (r, h')) good = (r, refl, hash_content-OkContent h' at good)

  read_spec-Replies : (rd : HashRead) (c : Option Content) → OkContent c → Replies (read_spec rd c)
  read_spec-Replies rd none ok = (_, refl, tt)
  read_spec-Replies rd (some c) ok =
      on_hash-Replies c (λ h. ((read_reply rd h) >>= (λ v. some (quiet v)), some c)) ok
        (λ h w. (quiet (read_view rd h), rw (read_reply-view rd h w) refl, ok))

  hset_spec-Replies :
      (rest : List Bytes) (c : Option Content) → OkContent c → Replies (hset_spec rest c)
  hset_spec-Replies rest none ok =
      hset_done-Replies (hash_content new_hash (pos 0)) rest new_hash new_hash-IsHash
  hset_spec-Replies rest (some c) ok = on_hash-Replies c _ ok (λ h w. hset_done-Replies c rest h w)

  hdel_spec-Replies :
      (fs : List Bytes) (c : Option Content) → OkContent c → Replies (hdel_spec fs c)
  hdel_spec-Replies fs none ok = (_, refl, tt)
  hdel_spec-Replies fs (some c) ok = on_hash-Replies c _ ok (λ h w. hdel_left-Replies c fs h ok w)

  update_spec-Replies :
      (f : Hash → Option Update) (c : Option Content)
      → IsTotal f
      → OkContent c
      → Replies (update_spec f c)
  update_spec-Replies f none total ok =
      updated-Replies none (pos 0) f new_hash total tt new_hash-IsHash
  update_spec-Replies f (some c) total ok =
      on_hash-Replies c _ ok (λ h w. updated-Replies (some c) c.expire_at_ms f h total ok w)

  -- The commands, with their arguments behind the key.
  pub data HashCommand : Type 0 where
    hread : HashRead → HashCommand
    hset hmset hdel : List Bytes → HashCommand
    hsetnx hincrby : Bytes → Bytes → HashCommand

  unfoldable pub run_hash : HashCommand → Server → ℕ → Bytes → Option (Value × Server)
  unfolding cmd_hread cmd_hset cmd_hmset cmd_hdel cmd_hsetnx cmd_hincrby
  run_hash (hread rd) e db key = cmd_hread e db key rd
  run_hash (hset rest) e db key = cmd_hset e db key rest
  run_hash (hmset rest) e db key = cmd_hmset e db key rest
  run_hash (hdel fs) e db key = cmd_hdel e db key fs
  run_hash (hsetnx f v) e db key = cmd_hsetnx e db key f v
  run_hash (hincrby f raw) e db key = cmd_hincrby e db key f raw

  abbrev Safely : Option (Value × Server) → Type 0
  Safely o = (x : Value × Server) × (o ≡ some x) × IsSound x.1

  module _ (e : Server) (db : ℕ) (key : Bytes) (sound : IsSound e) where
    command-Safely :
        (spec : Spec) (fn : Shard → Option Reply × Shard)
        → Outcome
            (shard_of e key)
            db
            key
            (spec (view (shard_of e key) db key))
            (fn (shard_of e key))
        → Replies (spec (keyspace e db key))
        → Safely (coll_command e db key fn)
    command-Safely spec fn o (r, replied, good) =
        let (x, ran, handled) =
          spec_command e db key spec fn r (spec (keyspace e db key)).1 o
            (pair_eq (spec (keyspace e db key)) replied) in
        (
          x,
          ran,
          record {
            hashes = λ d j. rw (handled.contents d j) (either (same_key (db, key) (d, j)) d j);
          },
        )
      where
        pair_eq : (p : Option Reply × Option Content) → p.0 ≡ some r → p ≡ (some r, p.1)
        pair_eq (a, b) h = ap (λ a. (a, b)) h

        either :
            (b : Bool) (d : ℕ) (j : Bytes)
            → OkContent (if b then (spec (keyspace e db key)).1 else keyspace e d j)
        either true d j = good
        either false d j = sound.hashes d j

    update-Safely :
        (f : Hash → Option Update)
        → IsTotal f
        → Safely (coll_command e db key (update_task f db key))
    update-Safely f total =
        command-Safely (update_spec f) (update_task f db key)
          (update_task-Outcome (shard_of e key) db key f)
          (update_spec-Replies f (keyspace e db key) total (sound.hashes db key))

    hset_task-Safely : (rest : List Bytes) → Safely (coll_command e db key (hset_task rest db key))
    hset_task-Safely rest =
        command-Safely (hset_spec rest) (hset_task rest db key)
          (hset_task-Outcome (shard_of e key) db key rest)
          (hset_spec-Replies rest (keyspace e db key) (sound.hashes db key))

    hset-Safely : (rest : List Bytes) → Safely (cmd_hset e db key rest)
    unfolding cmd_hset
    hset-Safely rest = elim (Bool-cases (is_odd rest)) [
      | inl b ↦ ((err_arity (codes "hset"), e), rw (cmd_hset, b) refl, sound)
      | inr b ↦ rw (cmd_hset, b) (hset_task-Safely rest)
    ]

    -- On an engine whose visible hashes are all well-formed every modelled hash command, with any
    -- arguments and on any key, replies without a panic, and the visible hashes afterwards are
    -- well-formed again.
    pub run_hash-IsSound :
        (c : HashCommand) → (x : Value × Server) × (run_hash c e db key ≡ some x) × IsSound x.1
    unfolding run_hash cmd_hread cmd_hmset cmd_hdel cmd_hsetnx cmd_hincrby
    run_hash-IsSound (hread rd) =
        command-Safely (read_spec rd) (read_task rd db key)
          (read_task-Outcome (shard_of e key) db key rd)
          (read_spec-Replies rd (keyspace e db key) (sound.hashes db key))
    run_hash-IsSound (hset rest) = hset-Safely rest
    run_hash-IsSound (hmset rest) = elim (Bool-cases (is_odd rest)) [
      | inl b ↦ ((err_arity (codes "hmset"), e), rw (cmd_hmset, b) refl, sound)
      | inr b ↦
          let (x, ran, good) = hset_task-Safely rest in
          elim (Bool-cases (is_error x.0)) [
            | inl c ↦ (x, rw (cmd_hmset, b, ran, c) refl, good)
            | inr c ↦ ((reply_ok, x.1), rw (cmd_hmset, b, ran, c) refl, good)
          ]
    ]
    run_hash-IsSound (hdel fs) =
        command-Safely (hdel_spec fs) (hdel_task fs db key)
          (hdel_task-Outcome (shard_of e key) db key fs)
          (hdel_spec-Replies fs (keyspace e db key) (sound.hashes db key))
    run_hash-IsSound (hsetnx f v) = update-Safely (hsetnx_update f v) (hsetnx_update-IsTotal f v)
    run_hash-IsSound (hincrby f raw) = elim (Option-cases (parse_int_strict raw)) [
      | inl h ↦ ((err_not_int, e), rw (cmd_hincrby, h) refl, sound)
      | inr (delta, h) ↦
          rw (cmd_hincrby, h)
            (update-Safely (hincrby_update f delta) (hincrby_update-IsTotal f delta))
    ]
