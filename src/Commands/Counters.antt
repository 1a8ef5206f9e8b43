-- ===== src/Commands/Counters.antt =====
-- The counters of lib/commands/strings.go: INCR, DECR, INCRBY, DECRBY and incrBy.
pub mod Effect
use ultima.Base.{
  ℕ, ◌^◌, Bool, true, false, ◌&&◌, ◌||◌, not, Option, none, some, List, [], ◌∷◌, Bytes, codes,
  if◌then◌else◌,
}
use ultima.Base.Int.{ℤ, pos, negsuc, ◌+ℤ◌, ◌-ℤ◌, ltb_ℤ, eqb_ℤ, max_int64, min_int64, wrap64}
use ultima.Numbers.{parse_int_strict, format_int}
use ultima.Platform.{Platform, text}
use ultima.Resp.{Value, int}
use ultima.Shard.{Shard, Ent, lookup, store, touch}
use ultima.Commands.{
  Reply, quiet, Server, command, err_not_int, err_wrong_type, err_incr_ovf, err_decr_ovf, is_string,
  str_of, new_string,
}

-- fmt's %d.
unfoldable pub decimal : ℤ → Bytes
unfolding format_int
decimal n = elim (format_int n) [ none ↦ [] | some s ↦ s ]

-- The test before the addition, in int64.
unfoldable pub would_overflow : ℤ → ℤ → Bool
would_overflow cur delta =
    ltb_ℤ (pos 0) delta && ltb_ℤ (wrap64 (max_int64 -ℤ delta)) cur
    || ltb_ℤ delta (pos 0) && ltb_ℤ cur (wrap64 (min_int64 -ℤ delta))

module _ ⦃P : Platform⦄ where
  -- The closure of incrBy behind its lookup.
  unfoldable pub incr_missing : ℤ → ℕ → Bytes → Shard → Reply × Shard
  unfolding would_overflow decimal store
  incr_missing delta db key s =
      let cur = wrap64 (pos 0 +ℤ delta) in
      if would_overflow (pos 0) delta
      then (quiet err_incr_ovf, s)
      else ((int cur, codes "incrby" ∷ []), store s db key (new_string (decimal cur)))

  unfoldable pub incr_value : ℤ → ℕ → Bytes → Ent → Option ℤ → Shard → Reply × Shard
  unfolding would_overflow decimal touch
  incr_value delta db key e none s = (quiet err_not_int, s)
  incr_value delta db key e (some v) s =
      let cur = wrap64 (v +ℤ delta) in
      if would_overflow v delta then (quiet err_incr_ovf, s) else (
        (int cur, codes "incrby" ∷ []),
        touch s db key (record e { payload = text (decimal cur) }),
      )

  unfoldable pub incr_found : ℤ → ℕ → Bytes → Option Ent → Shard → Reply × Shard
  unfolding incr_missing incr_value parse_int_strict
  incr_found delta db key none s = incr_missing delta db key s
  incr_found delta db key (some e) s =
      if not (is_string e.payload)
      then (quiet err_wrong_type, s)
      else incr_value delta db key e (parse_int_strict (str_of e.payload)) s

  unfoldable pub incr_task : ℤ → ℕ → Bytes → Shard → Reply × Shard
  unfolding incr_found lookup
  incr_task delta db key s = incr_found delta db key (lookup s db key).0 (lookup s db key).1

  -- incrBy and its four handlers.
  unfoldable pub incr_by : Server → ℕ → Bytes → ℤ → Value × Server
  unfolding incr_task command
  incr_by e db key delta = command e db key (incr_task delta db key)

  unfoldable pub cmd_incr : Server → ℕ → Bytes → Value × Server
  unfolding incr_by
  cmd_incr e db key = incr_by e db key (pos 1)

  unfoldable pub cmd_decr : Server → ℕ → Bytes → Value × Server
  unfolding incr_by
  cmd_decr e db key = incr_by e db key (negsuc 0)

  unfoldable pub cmd_incrby : Server → ℕ → Bytes → Bytes → Value × Server
  unfolding incr_by parse_int_strict
  cmd_incrby e db key arg = elim (parse_int_strict arg) [
    | none ↦ (err_not_int, e)
    | some v ↦ incr_by e db key v
  ]

  unfoldable pub cmd_decrby : Server → ℕ → Bytes → Bytes → Value × Server
  unfolding incr_by parse_int_strict
  cmd_decrby e db key arg = elim (parse_int_strict arg) [
    | none ↦ (err_not_int, e)
    | some v ↦
        if eqb_ℤ v min_int64 then (err_decr_ovf, e) else incr_by e db key (wrap64 (pos 0 -ℤ v))
  ]
