-- ===== src/Commands/Strings.antt =====
-- The single-key string commands of lib/commands/strings.go: GET, GETSET, GETDEL, GETEX, APPEND and
-- STRLEN. `cs.DB` is `db`, and the closure of each handler stands beside the handler.
pub mod Effect
use ultima.Base.{
  bytes_eq, ℕ, ◌^◌, Bool, true, false, ◌&&◌, ◌||◌, not, Option, none, some, ◌⊎◌, inl, inr, List, [],
  ◌∷◌, ◌++◌, Bytes, length, codes, ◌==◌, if◌then◌else◌,
}
use ultima.Base.Int.{ℤ, pos, ◌+ℤ◌, ◌-ℤ◌, ◌*ℤ◌, leb_ℤ, ltb_ℤ, eqb_ℤ, max_int64, wrap64, div_ℤ}
use ultima.Numbers.{parse_int_strict, lower_ascii}
use ultima.Platform.{Platform, text}
use ultima.Resp.{Value, null, blob_string, int}
use ultima.Shard.{Shard, Ent, lookup, store, delete, touch, push_expire}
use ultima.Commands.{
  Reply, quiet, Server, command, err_syntax, err_not_int, err_wrong_type, is_string, str_of,
  new_string,
}
use ultima.Commands.Set.{
  ExpireUnit, ex, px, exat, pxat, SetWord, word_unit, set_word, err_invalid_expire,
}

-- The option words of GETEX.
pub data GetexWord : Type 0 where
  word_persist word_unknown : GetexWord
  word_expire : ExpireUnit → GetexWord

unfoldable pub getex_word : Bytes → GetexWord
unfolding bytes_eq lower_ascii
getex_word arg =
    let opt = lower_ascii arg in
    if bytes_eq opt (codes "persist")
    then word_persist
    else if bytes_eq opt (codes "ex")
    then word_expire ex
    else if bytes_eq opt (codes "px")
    then word_expire px
    else if bytes_eq opt (codes "exat")
    then word_expire exat
    else if bytes_eq opt (codes "pxat")
    then word_expire pxat
    else word_unknown

-- Phase 1 of cmdGetEx: `persist`, and `expKind` with `expRaw`.
pub data GetexOption : Type 0 where
  getex_plain getex_persist : GetexOption
  getex_expire : ExpireUnit → Bytes → GetexOption

abbrev has_kind : GetexOption → Bool
has_kind (getex_expire u raw) = true
has_kind _ = false

abbrev is_plain : GetexOption → Bool
is_plain getex_plain = true
is_plain _ = false

-- An expire option under way has its unit in the first argument.
unfoldable pub parse_getex : Option ExpireUnit → GetexOption → List Bytes → Value ⊎ GetexOption
unfolding getex_word
parse_getex none g [] = inr g
parse_getex (some u) g [] = inl err_syntax
parse_getex (some u) g (raw ∷ args) = parse_getex none (getex_expire u raw) args
parse_getex none g (arg ∷ args) = elim (getex_word arg) [
  | word_persist ↦
      let rest = parse_getex none getex_persist args in if has_kind g then inl err_syntax else rest
  | word_expire u ↦
      let rest = parse_getex (some u) g args in if not (is_plain g) then inl err_syntax else rest
  | word_unknown ↦ inl err_syntax
]

-- The absolute time of GETEX's expiry, or its error.
unfoldable pub getex_at : ExpireUnit → ℤ → ℤ → Option ℤ
getex_at ex now v =
    if ltb_ℤ (div_ℤ (wrap64 (max_int64 -ℤ now)) 1000) v
    then none
    else some (wrap64 (now +ℤ wrap64 (v *ℤ pos 1000)))
getex_at px now v = some (wrap64 (now +ℤ v))
getex_at exat now v = if ltb_ℤ (div_ℤ max_int64 1000) v then none else some (wrap64 (v *ℤ pos 1000))
getex_at pxat now v = some v

unfoldable pub getex_time : ExpireUnit → ℤ → Bytes → Value ⊎ ℤ
unfolding getex_at parse_int_strict err_invalid_expire
getex_time u now raw = elim (parse_int_strict raw) [
  | none ↦ inl err_not_int
  | some v ↦
      if leb_ℤ v (pos 0)
      then inl (err_invalid_expire "getex")
      else elim (getex_at u now v) [ none ↦ inl (err_invalid_expire "getex") | some at ↦ inr at ]
]

module _ ⦃P : Platform⦄ where
  -- GET
  unfoldable pub get_found : Option Ent → Shard → Reply × Shard
  get_found none s = (quiet null, s)
  get_found (some e) s =
      if not (is_string e.payload)
      then (quiet err_wrong_type, s)
      else (quiet (blob_string (str_of e.payload)), s)

  unfoldable pub get_task : ℕ → Bytes → Shard → Reply × Shard
  unfolding get_found lookup
  get_task db key s = get_found (lookup s db key).0 (lookup s db key).1

  unfoldable pub cmd_get : Server → ℕ → Bytes → Value × Server
  unfolding get_task command
  cmd_get e db key = command e db key (get_task db key)

  -- GETSET
  unfoldable pub getset_found : Bytes → ℕ → Bytes → Option Ent → Shard → Reply × Shard
  unfolding store
  getset_found val db key none s = ((null, codes "set" ∷ []), store s db key (new_string val))
  getset_found val db key (some old) s =
      if not (is_string old.payload)
      then (quiet err_wrong_type, s)
      else ((blob_string (str_of old.payload), codes "set" ∷ []), store s db key (new_string val))

  unfoldable pub getset_task : Bytes → ℕ → Bytes → Shard → Reply × Shard
  unfolding getset_found lookup
  getset_task val db key s = getset_found val db key (lookup s db key).0 (lookup s db key).1

  unfoldable pub cmd_getset : Server → ℕ → Bytes → Bytes → Value × Server
  unfolding getset_task command
  cmd_getset e db key val = command e db key (getset_task val db key)

  -- GETDEL
  unfoldable pub getdel_found : ℕ → Bytes → Option Ent → Shard → Reply × Shard
  unfolding delete
  getdel_found db key none s = (quiet null, s)
  getdel_found db key (some e) s =
      if not (is_string e.payload)
      then (quiet err_wrong_type, s)
      else ((blob_string (str_of e.payload), codes "del" ∷ []), (delete s db key).1)

  unfoldable pub getdel_task : ℕ → Bytes → Shard → Reply × Shard
  unfolding getdel_found lookup
  getdel_task db key s = getdel_found db key (lookup s db key).0 (lookup s db key).1

  unfoldable pub cmd_getdel : Server → ℕ → Bytes → Value × Server
  unfolding getdel_task command
  cmd_getdel e db key = command e db key (getdel_task db key)

  -- GETEX on a live string: with its expiry computed, and for each option.
  unfoldable pub getex_apply : ℕ → Bytes → Ent → Shard → Value ⊎ ℤ → Reply × Shard
  unfolding delete touch push_expire
  getex_apply db key e s (inl v) = (quiet v, s)
  getex_apply db key e s (inr at) =
      if leb_ℤ at s.now
      then ((blob_string (str_of e.payload), codes "del" ∷ []), (delete s db key).1)
      else (
        (blob_string (str_of e.payload), codes "expire" ∷ []),
        push_expire (touch s db key (record e { expire_at_ms = at })) db key,
      )

  unfoldable pub getex_live : GetexOption → ℕ → Bytes → Ent → Shard → Reply × Shard
  unfolding getex_time getex_apply touch
  getex_live getex_plain db key e s = (quiet (blob_string (str_of e.payload)), s)
  getex_live getex_persist db key e s = (
    (
      blob_string (str_of e.payload),
      if eqb_ℤ e.expire_at_ms (pos 0) then [] else codes "persist" ∷ [],
    ),
    touch s db key (record e { expire_at_ms = pos 0 }),
  )
  getex_live (getex_expire u raw) db key e s = getex_apply db key e s (getex_time u s.now raw)

  unfoldable pub getex_found : GetexOption → ℕ → Bytes → Option Ent → Shard → Reply × Shard
  unfolding getex_live
  getex_found g db key none s = (quiet null, s)
  getex_found g db key (some e) s =
      if not (is_string e.payload) then (quiet err_wrong_type, s) else getex_live g db key e s

  unfoldable pub getex_task : GetexOption → ℕ → Bytes → Shard → Reply × Shard
  unfolding getex_found lookup
  getex_task g db key s = getex_found g db key (lookup s db key).0 (lookup s db key).1

  -- cmdGetEx: args[2:] are its options.
  unfoldable pub cmd_getex : Server → ℕ → Bytes → List Bytes → Value × Server
  unfolding parse_getex getex_task command
  cmd_getex e db key args = elim (parse_getex none getex_plain args) [
    | inl v ↦ (v, e)
    | inr g ↦ command e db key (getex_task g db key)
  ]

  -- APPEND
  unfoldable pub append_found : Bytes → ℕ → Bytes → Option Ent → Shard → Reply × Shard
  unfolding store touch
  append_found val db key none s =
      ((int (pos (length val)), codes "append" ∷ []), store s db key (new_string val))
  append_found val db key (some e) s =
      let str = str_of e.payload ++ val in
      if not (is_string e.payload) then (quiet err_wrong_type, s) else (
        (int (pos (length str)), codes "append" ∷ []),
        touch s db key (record e { payload = text str }),
      )

  unfoldable pub append_task : Bytes → ℕ → Bytes → Shard → Reply × Shard
  unfolding append_found lookup
  append_task val db key s = append_found val db key (lookup s db key).0 (lookup s db key).1

  unfoldable pub cmd_append : Server → ℕ → Bytes → Bytes → Value × Server
  unfolding append_task command
  cmd_append e db key val = command e db key (append_task val db key)

  -- STRLEN
  unfoldable pub strlen_found : Option Ent → Shard → Reply × Shard
  strlen_found none s = (quiet (int (pos 0)), s)
  strlen_found (some e) s =
      if not (is_string e.payload)
      then (quiet err_wrong_type, s)
      else (quiet (int (pos (length (str_of e.payload)))), s)

  unfoldable pub strlen_task : ℕ → Bytes → Shard → Reply × Shard
  unfolding strlen_found lookup
  strlen_task db key s = strlen_found (lookup s db key).0 (lookup s db key).1

  unfoldable pub cmd_strlen : Server → ℕ → Bytes → Value × Server
  unfolding strlen_task command
  cmd_strlen e db key = command e db key (strlen_task db key)
