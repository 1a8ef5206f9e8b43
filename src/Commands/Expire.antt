-- ===== src/Commands/Expire.antt =====
-- The expiry commands of lib/commands/keys.go: EXPIRE, PEXPIRE, EXPIREAT, PEXPIREAT, TTL, PTTL and
-- PERSIST.
pub mod Flags
pub mod Times
pub mod Effect
use ultima.Base.{
  ℕ, ◌^◌, Bool, true, false, ◌&&◌, ◌||◌, not, Option, none, some, ◌⊎◌, inl, inr, List, [], ◌∷◌,
  ◌++◌, Bytes, bytes_eq, codes, if◌then◌else◌,
}
use ultima.Base.Int.{
  ℤ, pos, negsuc, ◌+ℤ◌, ◌-ℤ◌, ◌*ℤ◌, leb_ℤ, ltb_ℤ, eqb_ℤ, max_int64, wrap64, div_ℤ,
}
use ultima.Numbers.{parse_int_strict, lower_ascii}
use ultima.Platform.{Platform}
use ultima.Resp.{Value, error, err, int}
use ultima.Shard.{Shard, Ent, lookup, delete, touch, push_expire}
use ultima.Commands.{Reply, quiet, Server, command, err_not_int}

-- expireFlags
pub record ExpireFlags : Type 0 where
  pub nx : Bool
  pub xx : Bool
  pub gt : Bool
  pub lt : Bool

abbrev pub no_flags : ExpireFlags
no_flags = record { nx = false; xx = false; gt = false; lt = false }

pub data FlagWord : Type 0 where
  flag_nx flag_xx flag_gt flag_lt flag_other : FlagWord

unfoldable pub flag_word : Bytes → FlagWord
unfolding bytes_eq lower_ascii
flag_word arg =
    let opt = lower_ascii arg in
    if bytes_eq opt (codes "nx")
    then flag_nx
    else if bytes_eq opt (codes "xx")
    then flag_xx
    else if bytes_eq opt (codes "gt")
    then flag_gt
    else if bytes_eq opt (codes "lt")
    then flag_lt
    else flag_other

abbrev pub err_nx : Value
err_nx = err "ERR NX and XX, GT or LT options at the same time are not compatible"

abbrev pub err_gt_lt : Value
err_gt_lt = err "ERR GT and LT options at the same time are not compatible"

-- One round of the loop of parseExpireFlags.
unfoldable pub add_flag : ExpireFlags → Bytes → FlagWord → Value ⊎ ExpireFlags
add_flag f arg flag_nx = if f.xx || f.gt || f.lt then inl err_nx else inr (record f { nx = true })
add_flag f arg flag_xx = if f.nx then inl err_nx else inr (record f { xx = true })
add_flag f arg flag_gt =
    if f.nx then inl err_nx else if f.lt then inl err_gt_lt else inr (record f { gt = true })
add_flag f arg flag_lt =
    if f.nx then inl err_nx else if f.gt then inl err_gt_lt else inr (record f { lt = true })
add_flag f arg flag_other = inl (error (codes "ERR Unsupported option " ++ arg))

-- parseExpireFlags, from args[3] on.
unfoldable pub parse_expire_flags : ExpireFlags → List Bytes → Value ⊎ ExpireFlags
unfolding add_flag flag_word
parse_expire_flags f [] = inr f
parse_expire_flags f (arg ∷ args) = elim (add_flag f arg (flag_word arg)) [
  | inl e ↦ inl e
  | inr f' ↦ parse_expire_flags f' args
]

-- The absolute time of the four commands: seconds saturate upward, int64 sums and products wrap.
unfoldable pub expire_time : Bool → Bool → ℤ → ℤ → ℤ
expire_time true true now v = v
expire_time true false now v =
    if ltb_ℤ (div_ℤ max_int64 1000) v then max_int64 else wrap64 (v *ℤ pos 1000)
expire_time false true now v = wrap64 (now +ℤ v)
expire_time false false now v =
    if ltb_ℤ (div_ℤ (wrap64 (max_int64 -ℤ now)) 1000) v
    then max_int64
    else wrap64 (now +ℤ wrap64 (v *ℤ pos 1000))

-- Whether the flags forbid the new expiry `at`; `cur` is 0 without an expiry.
unfoldable pub expire_blocked : ExpireFlags → ℤ → ℤ → Bool
expire_blocked f at cur =
    let none_set = eqb_ℤ cur (pos 0) in
    if f.nx && not none_set
    then true
    else if f.xx && none_set
    then true
    else if f.gt && (none_set || leb_ℤ at cur)
    then true
    else f.lt && not none_set && leb_ℤ cur at

-- The remaining time: in milliseconds, or rounded to the nearest second.
unfoldable pub ttl_value : Bool → ℤ → ℤ → ℤ
ttl_value ms now at =
    if eqb_ℤ at (pos 0)
    then negsuc 0
    else (let rem = wrap64 (at -ℤ now) in
        let rem' = if ltb_ℤ rem (pos 0) then pos 0 else rem in
        if ms then rem' else div_ℤ (wrap64 (rem' +ℤ pos 500)) 1000)

module _ ⦃P : Platform⦄ where
  -- The closure of expireCommon behind its lookup.
  unfoldable pub expire_found : ExpireFlags → ℤ → ℕ → Bytes → Option Ent → Shard → Reply × Shard
  unfolding expire_blocked delete touch push_expire
  expire_found f at db key none s = (quiet (int (pos 0)), s)
  expire_found f at db key (some e) s =
      if expire_blocked f at e.expire_at_ms
      then (quiet (int (pos 0)), s)
      else if leb_ℤ at s.now
      then ((int (pos 1), codes "del" ∷ []), (delete s db key).1)
      else (
        (int (pos 1), codes "expire" ∷ []),
        push_expire (touch s db key (record e { expire_at_ms = at })) db key,
      )

  unfoldable pub expire_task : ExpireFlags → ℤ → ℕ → Bytes → Shard → Reply × Shard
  unfolding expire_found lookup
  expire_task f at db key s = expire_found f at db key (lookup s db key).0 (lookup s db key).1

  -- expireCommon; `arg` is args[2].
  unfoldable pub expire_common :
      Bool → Bool → Server → ℕ → Bytes → Bytes → List Bytes → Value × Server
  unfolding expire_task expire_time parse_expire_flags parse_int_strict command
  expire_common ms abs e db key arg args = elim (parse_int_strict arg) [
    | none ↦ (err_not_int, e)
    | some v ↦ elim (parse_expire_flags no_flags args) [
      | inl r ↦ (r, e)
      | inr f ↦ command e db key (expire_task f (expire_time abs ms e.now v) db key)
    ]
  ]

  unfoldable pub cmd_expire : Server → ℕ → Bytes → Bytes → List Bytes → Value × Server
  unfolding expire_common
  cmd_expire = expire_common false false

  unfoldable pub cmd_pexpire : Server → ℕ → Bytes → Bytes → List Bytes → Value × Server
  unfolding expire_common
  cmd_pexpire = expire_common true false

  unfoldable pub cmd_expire_at : Server → ℕ → Bytes → Bytes → List Bytes → Value × Server
  unfolding expire_common
  cmd_expire_at = expire_common false true

  unfoldable pub cmd_pexpire_at : Server → ℕ → Bytes → Bytes → List Bytes → Value × Server
  unfolding expire_common
  cmd_pexpire_at = expire_common true true

  unfoldable pub ttl_found : Bool → Option Ent → Shard → Reply × Shard
  unfolding ttl_value
  ttl_found ms none s = (quiet (int (negsuc 1)), s)
  ttl_found ms (some e) s = (quiet (int (ttl_value ms s.now e.expire_at_ms)), s)

  unfoldable pub ttl_task : Bool → ℕ → Bytes → Shard → Reply × Shard
  unfolding ttl_found lookup
  ttl_task ms db key s = ttl_found ms (lookup s db key).0 (lookup s db key).1

  -- ttlCommon, for TTL and PTTL.
  unfoldable pub ttl_common : Bool → Server → ℕ → Bytes → Value × Server
  unfolding ttl_task command
  ttl_common ms e db key = command e db key (ttl_task ms db key)

  -- PERSIST
  unfoldable pub persist_found : ℕ → Bytes → Option Ent → Shard → Reply × Shard
  unfolding touch
  persist_found db key none s = (quiet (int (pos 0)), s)
  persist_found db key (some e) s =
      if eqb_ℤ e.expire_at_ms (pos 0)
      then (quiet (int (pos 0)), s)
      else ((int (pos 1), codes "persist" ∷ []), touch s db key (record e { expire_at_ms = pos 0 }))

  unfoldable pub persist_task : ℕ → Bytes → Shard → Reply × Shard
  unfolding persist_found lookup
  persist_task db key s = persist_found db key (lookup s db key).0 (lookup s db key).1

  unfoldable pub cmd_persist : Server → ℕ → Bytes → Value × Server
  unfolding persist_task command
  cmd_persist e db key = command e db key (persist_task db key)
