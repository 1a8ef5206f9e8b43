-- ===== src/Samples/HashKeys.antt =====
-- The hash commands at concrete inputs: a hash at `h`, a list at `l`.
use ultima.Base.{
  ℕ, ◌≡◌, refl, none, some, List, [], ◌∷◌, Bytes, codes, bytes_eq, if◌then◌else◌, arith, ◌==◌, ltb,
}
use ultima.Base.Int.{pos}
use ultima.Base.Maps.{lookup_key}
use ultima.Platform.{coll}
use ultima.Resp.{Value, int}
use ultima.Types.Hash.{Hash, new_hash, hash_len}
use ultima.Types.Hash.Pairs.{value_of}
use ultima.Types.Hash.Encoding.{IsHash, content}
use ultima.Types.Hash.Refines.{changes, new_hash-IsHash}
use ultima.Shard.{lookup, store}
use ultima.Commands.{Server, quiet, err_wrong_type}
use ultima.Commands.Lift.{keyspace, Handled}
use ultima.Commands.Collections.{new_coll}
use ultima.Commands.Hash.{hset_task, read_get, cmd_hset, cmd_hdel, cmd_hread, is_odd}
use ultima.Commands.Hash.Total.{hset_ops, hdel_ops, count_ops, read_view}
use ultima.Commands.Hash.Effect.{hash_content}
use ultima.Commands.Hash.Handled.{cmd_hset-Handled, cmd_hread-Handled, cmd_hdel-Handled, left_by}
use ultima.Commands.Hash.Safe.{hincrby, hset, run_hash, IsSound, run_hash-IsSound}
use ultima.Commands.Hash.Charge.{hset_task-same_charge}
use ultima.Commands.Hash.Refused.{run_hash-refused}
use ultima.Samples.Model.{sample, sample_hashes, Held, a_hash, a_list}
use ultima.Numbers.{parse_int_strict}
use ultima.Samples.Data.{empty_shard, engine}

abbrev pairs_given : List Bytes
pairs_given = codes "f" ∷ codes "1" ∷ codes "g" ∷ codes "2" ∷ []

cmd_hset-Handled_example :
    (x : Value × Server) × (h' : Hash) × (cmd_hset engine 0 (codes "new") pairs_given ≡ some x)
    × Handled engine 0
        (codes "new")
        ((int (pos 2), codes "hset" ∷ []), some (hash_content h' (pos 0)))
        x
    × IsHash h'
    × ((f : Bytes)
        → value_of h'.pairs f ≡ changes (hset_ops pairs_given) (value_of new_hash.pairs) f)
unfolding is_odd value_of keyspace bytes_eq lookup_key store ultima.Samples.Containers.insert_key
cmd_hset-Handled_example =
    cmd_hset-Handled engine 0 (codes "new") pairs_given new_hash refl refl new_hash-IsHash

-- Four shards that hold the object `o` at `h`.
abbrev with_object : Held → Server
with_object o = record engine { shards = λ i. store empty_shard 0 (codes "h") (new_coll o) }

abbrev one_field : Hash
one_field = record {
  pairs = record { field = codes "f"; value = codes "1" } ∷ [];
  idx = none;
  bytes = 2;
}

one_field-IsHash : IsHash one_field
unfolding ultima.Types.Hash.Encoding.content ultima.Types.Hash.index_of
one_field-IsHash = record {
  distinct = (refl, tt);
  encoded = (omega arith, (omega arith, tt));
  charged = refl;
}

cmd_hread-Handled_example :
    (x : Value × Server) × (cmd_hread
        (with_object (a_hash one_field))
        0
        (codes "h")
        (read_get (codes "f"))
      ≡ some x)
    × Handled
        (with_object (a_hash one_field))
        0
        (codes "h")
        (
          quiet (read_view (read_get (codes "f")) one_field),
          keyspace (with_object (a_hash one_field)) 0 (codes "h"),
        )
        x
unfolding keyspace bytes_eq lookup_key store ultima.Samples.Containers.insert_key
cmd_hread-Handled_example =
    cmd_hread-Handled (with_object (a_hash one_field)) 0 (codes "h") (read_get (codes "f"))
      one_field refl one_field-IsHash

cmd_hdel-Handled_example :
    (x : Value × Server) × (h' : Hash) × (n : ℕ) × (cmd_hdel
        (with_object (a_hash one_field))
        0
        (codes "h")
        (codes "f" ∷ [])
      ≡ some x)
    × (n ≡ count_ops (hdel_ops (codes "f" ∷ [])) (value_of one_field.pairs))
    × Handled
        (with_object (a_hash one_field))
        0
        (codes "h")
        (
          (
            int (pos n),
            if ltb 0 n
                then (if hash_len h' == 0
                    then codes "hdel" ∷ codes "del" ∷ []
                    else codes "hdel" ∷ [])
                else [],
          ),
          left_by h' n (hash_content one_field (pos 0)),
        )
        x
    × IsHash h'
    × ((f : Bytes)
        → value_of h'.pairs f ≡ changes (hdel_ops (codes "f" ∷ [])) (value_of one_field.pairs) f)
unfolding keyspace bytes_eq lookup_key store ultima.Samples.Containers.insert_key
cmd_hdel-Handled_example =
    cmd_hdel-Handled (with_object (a_hash one_field)) 0 (codes "h") (codes "f" ∷ [])
      (hash_content one_field (pos 0)) one_field refl refl one_field-IsHash

run_hash-refused_example :
    (x : Value × Server) × (run_hash
        (hincrby (codes "f") (codes "5"))
        (with_object a_list)
        0
        (codes "h")
      ≡ some x)
    × (x.0 ≡ err_wrong_type)
    × Handled
        (with_object a_list)
        0
        (codes "h")
        (quiet err_wrong_type, keyspace (with_object a_list) 0 (codes "h"))
        x
unfolding keyspace bytes_eq lookup_key store ultima.Samples.Containers.insert_key parse_int_strict
run_hash-refused_example =
    run_hash-refused (with_object a_list) 0 (codes "h")
      (record { payload = coll a_list; expire_at_ms = pos 0 }) refl refl
      (hincrby (codes "f") (codes "5")) (pos 5, refl)

-- An engine without keys.
abbrev no_keys : Server
no_keys = record engine { shards = λ i. empty_shard }

no_keys-IsSound : IsSound no_keys
unfolding keyspace lookup_key
no_keys-IsSound = record { hashes = λ db key. tt }

run_hash-IsSound_example :
    (x : Value × Server) × (run_hash (hset pairs_given) no_keys 0 (codes "h") ≡ some x)
    × IsSound x.1
run_hash-IsSound_example = run_hash-IsSound no_keys 0 (codes "h") no_keys-IsSound (hset pairs_given)

hset_task-same_charge_example :
    (hset_task pairs_given 0 (codes "new") empty_shard).1.used_bytes 0
    ≡ (hset_task (codes "f" ∷ codes "1" ∷ []) 0 (codes "new") empty_shard).1.used_bytes 0
unfolding lookup lookup_key
hset_task-same_charge_example =
    hset_task-same_charge empty_shard 0 0 (codes "new") (codes "f" ∷ codes "1" ∷ []) pairs_given
      refl
