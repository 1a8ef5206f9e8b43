-- ===== src/Commands/Hash/Refused.antt =====
-- The error paths of the hash commands: a key of another type, and arguments that do not parse.
use ultima.Base.{ℕ, ◌≡◌, refl, ap, false, Option, none, some, List, Bytes}
use ultima.Base.Int.{ℤ}
use ultima.Numbers.{parse_int_strict}
use ultima.Platform.{Platform}
use ultima.Resp.{Value}
use ultima.Types.Hash.{Hash}
use ultima.Shard.{Shard}
use ultima.Shard.View.{Content, view}
use ultima.Commands.{Reply, quiet, Server, shard_of, err_wrong_type}
use ultima.Commands.Outcome.{Outcome}
use ultima.Commands.Lift.{keyspace, Handled}
use ultima.Commands.Collections.{Hashes, coll_command}
use ultima.Commands.Collections.Outcomes.{Spec, refuse_or, spec_command}
use ultima.Commands.Hash.{
  Update, read_task, hset_task, hdel_task, update_task, hsetnx_update, hincrby_update, is_odd,
  hash_in, cmd_hread, cmd_hset, cmd_hmset, cmd_hdel, cmd_hsetnx, cmd_hincrby,
}
use ultima.Commands.Hash.Effect.{
  read_spec, hset_spec, hdel_spec, update_spec, read_task-Outcome, hset_task-Outcome,
  hdel_task-Outcome, update_task-Outcome,
}
use ultima.Commands.Hash.Safe.{HashCommand, hread, hset, hmset, hdel, hsetnx, hincrby, run_hash}

module _ ⦃P : Platform⦄ ⦃O : Hashes⦄ where
  -- Fields come with values, and an increment is a number.
  abbrev pub IsGiven : HashCommand → Type 0
  IsGiven (hset rest) = is_odd rest ≡ false
  IsGiven (hmset rest) = is_odd rest ≡ false
  IsGiven (hincrby f raw) = (delta : ℤ) × (parse_int_strict raw ≡ some delta)
  IsGiven (hread rd) = Unit
  IsGiven (hdel fs) = Unit
  IsGiven (hsetnx f v) = Unit

  module _ (e : Server) (db : ℕ) (key : Bytes) (c : Content) (here : keyspace e db key ≡ some c)
      (other : hash_in c.payload ≡ none) where
    abbrev Refusal : Option (Value × Server) → Type 0
    Refusal o =
        (x : Value × Server) × (o ≡ some x)
        × (x.0 ≡ err_wrong_type)
        × Handled e db key (quiet err_wrong_type, keyspace e db key) x

    refusing :
        (spec : Spec) (fn : Shard → Option Reply × Shard)
        → Outcome
            (shard_of e key)
            db
            key
            (spec (view (shard_of e key) db key))
            (fn (shard_of e key))
        → spec (some c) ≡ (some (quiet err_wrong_type), some c)
        → Refusal (coll_command e db key fn)
    refusing spec fn o h =
        let (x, ran, handled) =
          spec_command e db key spec fn (quiet err_wrong_type) (keyspace e db key) o (rw here h) in
        (x, ran, handled.answer, handled)

    updating : (f : Hash → Option Update) → Refusal (coll_command e db key (update_task f db key))
    updating f =
        refusing (update_spec f) (update_task f db key)
          (update_task-Outcome (shard_of e key) db key f) (ap (refuse_or c _) other)

    setting : (rest : List Bytes) → Refusal (coll_command e db key (hset_task rest db key))
    setting rest =
        refusing (hset_spec rest) (hset_task rest db key)
          (hset_task-Outcome (shard_of e key) db key rest) (ap (refuse_or c _) other)

    -- On a key that holds something other than a hash every modelled hash command whose arguments
    -- parse replies WRONGTYPE, notifies nothing and changes no visible key.
    pub run_hash-refused :
        (cmd : HashCommand)
        → IsGiven cmd
        → (x : Value × Server) × (run_hash cmd e db key ≡ some x)
          × (x.0 ≡ err_wrong_type)
          × Handled e db key (quiet err_wrong_type, keyspace e db key) x
    unfolding run_hash cmd_hread cmd_hset cmd_hmset cmd_hdel cmd_hsetnx cmd_hincrby
    run_hash-refused (hread rd) g =
        refusing (read_spec rd) (read_task rd db key) (read_task-Outcome (shard_of e key) db key rd)
          (ap (refuse_or c _) other)
    run_hash-refused (hset rest) g = rw (cmd_hset, g) (setting rest)
    run_hash-refused (hmset rest) g =
        let (x, ran, wrong, handled) = setting rest in
        (x, rw (cmd_hmset, g, ran) (rw wrong refl), wrong, handled)
    run_hash-refused (hdel fs) g =
        refusing (hdel_spec fs) (hdel_task fs db key) (hdel_task-Outcome (shard_of e key) db key fs)
          (ap (refuse_or c _) other)
    run_hash-refused (hsetnx f v) g = updating (hsetnx_update f v)
    run_hash-refused (hincrby f raw) (delta, g) =
        rw (cmd_hincrby, g) (updating (hincrby_update f delta))
