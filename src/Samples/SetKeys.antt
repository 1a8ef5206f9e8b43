-- ===== src/Samples/SetKeys.antt =====
-- The set commands at concrete inputs.
use ultima.Base.{
  ℕ, ◌≡◌, refl, false, some, List, [], ◌∷◌, Bytes, codes, bytes_eq, map, if◌then◌else◌, arith, ◌==◌,
  ltb,
}
use ultima.Base.Int.{pos}
use ultima.Base.Maps.{lookup_key}
use ultima.Resp.{Value, int}
use ultima.Types.Set.{MemberMap, IntSet, new_set, set_len, in_map}
use ultima.Types.Set.Forms.{Stands}
use ultima.Types.Set.Refines.{sadd, srem, texts, answers}
use ultima.Shard.{store}
use ultima.Commands.{Server}
use ultima.Commands.Multi.{count}
use ultima.Commands.Lift.{keyspace, Handled}
use ultima.Commands.Collections.{new_coll}
use ultima.Commands.SetAlgebra.Texts.{Collects}
use ultima.Commands.Sets.{inter, cmd_sadd, cmd_srem, cmd_algebra, set_reply}
use ultima.Commands.Sets.Effect.{set_content}
use ultima.Commands.Sets.Handled.{cmd_sadd-Handled, cmd_srem-Handled, kept_by}
use ultima.Commands.Sets.Combined.{cmd_algebra-Collects, wanted, held_by}
use ultima.Samples.Model.{sample, sample_sets, a_set}
use ultima.Samples.Data.{empty_shard, engine}

-- Four shards that hold at `s` a set of one text.
abbrev one_member : MemberMap
one_member = (codes "a", tt) ∷ []

abbrev small_set : IntSet
small_set = record { ints = []; is_int = false; member = one_member; bytes = 1 }

small_set-Stands : Stands small_set one_member
unfolding ultima.Types.Set.Encoding.total in_map lookup_key set_len
small_set-Stands = record {
  valid = ((refl, tt), refl);
  unique = (refl, tt);
  size = refl;
  view = λ j short. refl;
}

abbrev with_set : Server
with_set = record engine {
  shards = λ i. store empty_shard 0 (codes "s") (new_coll (a_set small_set));
}

abbrev added : List Bytes
added = codes "a" ∷ codes "b" ∷ codes "b" ∷ []

cmd_sadd-Handled_example :
    (r : Value × Server) × (x' : IntSet) × (n : ℕ) × (cmd_sadd with_set 0 (codes "s") added
      ≡ some r)
    × (n ≡ count (answers (map sadd added) one_member))
    × Handled with_set 0
        (codes "s")
        ((int (pos n), if ltb 0 n then codes "sadd" ∷ [] else []), some (set_content x' (pos 0)))
        r
    × Stands x' (texts (map sadd added) one_member)
unfolding keyspace bytes_eq lookup_key store ultima.Samples.Containers.insert_key
cmd_sadd-Handled_example =
    cmd_sadd-Handled with_set 0 (codes "s") added small_set one_member
      (omega arith, (omega arith, (omega arith, tt))) refl small_set-Stands

cmd_srem-Handled_example :
    (r : Value × Server) × (x' : IntSet) × (n : ℕ) × (cmd_srem with_set 0 (codes "s") added
      ≡ some r)
    × (n ≡ count (answers (map srem added) one_member))
    × Handled with_set 0
        (codes "s")
        (
          (
            int (pos n),
            if ltb 0 n
                then (if set_len x' == 0
                    then codes "srem" ∷ codes "del" ∷ []
                    else codes "srem" ∷ [])
                else [],
          ),
          kept_by x' (set_content small_set (pos 0)),
        )
        r
    × Stands x' (texts (map srem added) one_member)
unfolding keyspace bytes_eq lookup_key store ultima.Samples.Containers.insert_key
cmd_srem-Handled_example =
    cmd_srem-Handled with_set 0 (codes "s") added (set_content small_set (pos 0)) small_set
      one_member (omega arith, (omega arith, (omega arith, tt))) refl refl small_set-Stands

abbrev both_keys : List Bytes
both_keys = codes "s" ∷ codes "missing" ∷ []

cmd_algebra-Collects_example :
    (r : Value × Server) × (ms : List Bytes) × (cmd_algebra inter with_set 0 both_keys ≡ some r)
    × (r.0 ≡ set_reply ms)
    × Collects (wanted inter (map (λ k. held_by (keyspace with_set 0 k)) both_keys)) ms
    × ((d : ℕ) (j : Bytes) → keyspace r.1 d j ≡ keyspace with_set d j)
unfolding keyspace bytes_eq lookup_key store ultima.Samples.Containers.insert_key
    ultima.Types.Set.members
cmd_algebra-Collects_example = cmd_algebra-Collects with_set 0 both_keys inter (
  (small_set, one_member, codes "a" ∷ [], refl, small_set-Stands, refl, (omega arith, tt)),
  (tt, tt),
)
