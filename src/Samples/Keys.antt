-- ===== src/Samples/Keys.antt =====
-- The expiry commands, the multi-key commands and the glob matcher on samples.
use ultima.Base.{◌==◌, ◌≡◌, refl, List, [], ◌∷◌, Bytes, codes, false, true, ℕ, if◌then◌else◌}
use ultima.Base.Int.{pos}
use ultima.Resp.{int}
use ultima.Commands.{reply_ok}
use ultima.Commands.Lift.{keyspace}
use ultima.Commands.Expire.{ExpireFlags}
use ultima.Commands.Multi.{count, itself, first, pairs, cmd_del, cmd_mset, cmd_msetnx}
use ultima.Commands.Multi.Effect.{
  apply_all, del_spec, mset_spec, visible_keys, cmd_del-Applied, cmd_mset-Applied,
  cmd_msetnx-Applied,
}
use ultima.Samples.Model.{sample}
use ultima.Samples.Data.{engine, counter}

-- EXPIRE counter 10 XX GT
abbrev flags_given : List Bytes
flags_given = codes "XX" ∷ codes "GT" ∷ []

abbrev xx_gt : ExpireFlags
xx_gt = record { nx = false; xx = true; gt = true; lt = false }

abbrev two_keys : List Bytes
two_keys = counter ∷ codes "missing" ∷ []

cmd_del-Applied_example :
    ((cmd_del engine 0 two_keys).0
      ≡ int (pos (count (apply_all 0 itself del_spec (keyspace engine) two_keys).0)))
    × ((d : ℕ) (j : Bytes)
        → keyspace (cmd_del engine 0 two_keys).1 d j
          ≡ (apply_all 0 itself del_spec (keyspace engine) two_keys).1 d j)
cmd_del-Applied_example = cmd_del-Applied engine 0 two_keys

abbrev two_pairs : List Bytes
two_pairs = counter ∷ codes "1" ∷ codes "other" ∷ codes "2" ∷ []

cmd_mset-Applied_example :
    ((cmd_mset engine 0 two_pairs).0 ≡ reply_ok)
    × ((d : ℕ) (j : Bytes)
        → keyspace (cmd_mset engine 0 two_pairs).1 d j
          ≡ (apply_all 0 first mset_spec (keyspace engine) (pairs two_pairs)).1 d j)
cmd_mset-Applied_example = cmd_mset-Applied engine 0 two_pairs refl

cmd_msetnx-Applied_example :
    ((cmd_msetnx engine 0 two_pairs).0
      ≡ int (pos (if visible_keys engine 0 two_pairs refl == 0 then 1 else 0)))
    × ((d : ℕ) (j : Bytes)
        → keyspace (cmd_msetnx engine 0 two_pairs).1 d j ≡ (
            if visible_keys engine 0 two_pairs refl == 0
            then (apply_all 0 first mset_spec (keyspace engine) (pairs two_pairs)).1 d j
            else keyspace engine d j))
cmd_msetnx-Applied_example = cmd_msetnx-Applied engine 0 two_pairs refl
