-- ===== src/Commands/Set.antt =====
-- SET (lib/commands/strings.go: setOptions, parseSetOptions, resolveExpire, cmdSet). The handler takes
-- args[1], args[2] and args[3:]; the command table's arity gives the first two.
pub mod Options
pub mod Effect
pub mod Watched
use ultima.Base.{
  ℕ, ◌^◌, Bool, true, false, ◌&&◌, ◌||◌, not, Option, none, some, ◌⊎◌, inl, inr, List, [], ◌∷◌,
  ◌++◌, map, Bytes, codes, bytes_eq, String, if◌then◌else◌,
}
use ultima.Base.Int.{ℤ, pos, ◌+ℤ◌, ◌-ℤ◌, ◌*ℤ◌, leb_ℤ, ltb_ℤ, max_int64, wrap64, div_ℤ}
use ultima.Numbers.{lower_ascii, parse_int_strict}
use ultima.Platform.{Platform, text}
use ultima.Resp.{Value, null, blob_string, error, err}
use ultima.Shard.{Shard, Ent, lookup, store, delete, push_expire}
use ultima.Commands.{
  Reply, quiet, Server, command, err_syntax, err_not_int, err_wrong_type, reply_ok, is_string,
  str_of, new_string,
}

-- The four expire options, `ex`, `px`, `exat` and `pxat`.
pub data ExpireUnit : Type 0 where
  ex px exat pxat : ExpireUnit

-- What a lowercased option word is.
pub data SetWord : Type 0 where
  word_nx word_xx word_get word_keepttl word_other : SetWord
  word_unit : ExpireUnit → SetWord

unfoldable pub set_word : Bytes → SetWord
unfolding bytes_eq lower_ascii
set_word arg =
    let opt = lower_ascii arg in
    if bytes_eq opt (codes "nx")
    then word_nx
    else if bytes_eq opt (codes "xx")
    then word_xx
    else if bytes_eq opt (codes "get")
    then word_get
    else if bytes_eq opt (codes "keepttl")
    then word_keepttl
    else if bytes_eq opt (codes "ex")
    then word_unit ex
    else if bytes_eq opt (codes "px")
    then word_unit px
    else if bytes_eq opt (codes "exat")
    then word_unit exat
    else if bytes_eq opt (codes "pxat")
    then word_unit pxat
    else word_other

-- setOptions; `hasExpire` holds when `exp_unit` is present.
pub record SetOptions : Type 0 where
  pub nx : Bool
  pub xx : Bool
  pub get : Bool
  pub keepttl : Bool
  pub exp_unit : Option ExpireUnit
  pub expire_at_ms : ℤ

abbrev pub no_options : SetOptions
no_options = record {
  nx = false;
  xx = false;
  get = false;
  keepttl = false;
  exp_unit = none;
  expire_at_ms = pos 0;
}

abbrev pub same_unit : ExpireUnit → ExpireUnit → Bool
same_unit ex ex = true
same_unit px px = true
same_unit exat exat = true
same_unit pxat pxat = true
same_unit _ _ = false

abbrev pub has_unit : Option ExpireUnit → Bool
has_unit none = false
has_unit (some u) = true

abbrev pub other_unit : Option ExpireUnit → ExpireUnit → Bool
other_unit none u = false
other_unit (some v) u = not (same_unit v u)

unfoldable pub err_invalid_expire : String → Value
err_invalid_expire cmd =
    error (codes "ERR invalid expire time in '" ++ codes cmd ++ codes "' command")

-- One round of the loop of parseSetOptions. The mode is the expire option whose value is read next,
-- if any.
abbrev pub Mode : Type 0
Mode = Option ExpireUnit × SetOptions

abbrev pub refuse_if : {A : Type 0} → Bool → A → Value ⊎ A
refuse_if b a = if b then inl err_syntax else inr a

unfoldable pub option_word : SetOptions → SetWord → Value ⊎ Mode
option_word o word_nx = refuse_if o.xx (none, record o { nx = true })
option_word o word_xx = refuse_if o.nx (none, record o { xx = true })
option_word o word_get = inr (none, record o { get = true })
option_word o word_keepttl = refuse_if (has_unit o.exp_unit) (none, record o { keepttl = true })
option_word o (word_unit u) = refuse_if (o.keepttl || other_unit o.exp_unit u) (some u, o)
option_word o word_other = inl err_syntax

unfoldable pub option_value : SetOptions → ExpireUnit → Option ℤ → Value ⊎ Mode
unfolding err_invalid_expire
option_value o u none = inl err_not_int
option_value o u (some v) =
    if leb_ℤ v (pos 0)
    then inl (err_invalid_expire "set")
    else inr (none, record o { exp_unit = some u; expire_at_ms = v })

unfoldable pub option_arg : Mode → Bytes → Value ⊎ Mode
unfolding option_word option_value set_word parse_int_strict
option_arg (none, o) arg = option_word o (set_word arg)
option_arg (some u, o) arg = option_value o u (parse_int_strict arg)

-- parseSetOptions, from args[3] on; the error reply is on the left.
unfoldable pub parse_options : Mode → List Bytes → Value ⊎ SetOptions
unfolding option_arg
parse_options (none, o) [] = inr o
parse_options (some u, o) [] = inl err_syntax
parse_options m (arg ∷ args) = elim (option_arg m arg) [
  | inl e ↦ inl e
  | inr m' ↦ parse_options m' args
]

unfoldable pub parse_set_options : List Bytes → Value ⊎ SetOptions
unfolding parse_options
parse_set_options args = parse_options (none, no_options) args

-- resolveExpire: the raw value as an absolute time in milliseconds; int64 sums and products wrap.
unfoldable pub resolve_unit : ExpireUnit → ℤ → SetOptions → Value ⊎ SetOptions
unfolding err_invalid_expire
resolve_unit ex now o =
    if ltb_ℤ (div_ℤ (wrap64 (max_int64 -ℤ now)) 1000) o.expire_at_ms
    then inl (err_invalid_expire "set")
    else inr (record o { expire_at_ms = wrap64 (now +ℤ wrap64 (o.expire_at_ms *ℤ pos 1000)) })
resolve_unit px now o = inr (record o { expire_at_ms = wrap64 (now +ℤ o.expire_at_ms) })
resolve_unit exat now o =
    if ltb_ℤ (div_ℤ max_int64 1000) o.expire_at_ms
    then inl (err_invalid_expire "set")
    else inr (record o { expire_at_ms = wrap64 (o.expire_at_ms *ℤ pos 1000) })
resolve_unit pxat now o = inr o

unfoldable pub resolve_expire : ℤ → SetOptions → Value ⊎ SetOptions
unfolding resolve_unit
resolve_expire now o = elim o.exp_unit [ none ↦ inr o | some u ↦ resolve_unit u now o ]

module _ ⦃P : Platform⦄ where
  -- The entry that SET stores: KEEPTTL takes the old expiry and its generation.
  abbrev pub set_entry : SetOptions → Bytes → Option Ent → Ent
  set_entry o val none = record (new_string val) {
    expire_at_ms = if has_unit o.exp_unit then o.expire_at_ms else pos 0;
  }
  set_entry o val (some old) =
      if o.keepttl
      then record (new_string val) { expire_at_ms = old.expire_at_ms; exp_gen = old.exp_gen }
      else record (new_string val) {
        expire_at_ms = if has_unit o.exp_unit then o.expire_at_ms else pos 0;
      }

  abbrev pub found : {A : Type 0} → Option A → Bool
  found none = false
  found (some a) = true

  -- The write: an expiry in the past deletes a live key.
  unfoldable pub set_write : SetOptions → Bytes → Option Ent → Shard → ℕ → Bytes → Shard
  set_write o val old s db key =
      if has_unit o.exp_unit && leb_ℤ o.expire_at_ms s.now
      then (if found old then (delete s db key).1 else s)
      else (let s₁ = store s db key (set_entry o val old) in
          if has_unit o.exp_unit then push_expire s₁ db key else s₁)

  abbrev pub set_reply : SetOptions → Option Bytes → Bool → Value
  set_reply o (some str) blocked =
      if o.get then blob_string str else if blocked then null else reply_ok
  set_reply o none blocked = if o.get then null else if blocked then null else reply_ok

  abbrev pub set_events : SetOptions → List Bytes
  set_events o = codes "set" ∷ (if has_unit o.exp_unit then codes "expire" ∷ [] else [])

  abbrev wrong_type : Option Ent → Bool
  wrong_type none = false
  wrong_type (some e) = not (is_string e.payload)

  abbrev old_string : Option Ent → Option Bytes
  old_string none = none
  old_string (some e) = some (str_of e.payload)

  -- The closure of cmdSet behind its lookup.
  unfoldable pub set_found : SetOptions → Bytes → ℕ → Bytes → Option Ent → Shard → Reply × Shard
  unfolding set_write
  set_found o val db key old s =
      let blocked = o.nx && found old || o.xx && not (found old) in
      if o.get && wrong_type old
      then (quiet err_wrong_type, s)
      else if blocked
      then (quiet (set_reply o (old_string old) true), s)
      else ((set_reply o (old_string old) false, set_events o), set_write o val old s db key)

  unfoldable pub set_task : SetOptions → Bytes → ℕ → Bytes → Shard → Reply × Shard
  unfolding set_found lookup
  set_task o val db key s = set_found o val db key (lookup s db key).0 (lookup s db key).1

  -- cmdSet
  unfoldable pub cmd_set : Server → ℕ → Bytes → Bytes → List Bytes → Value × Server
  unfolding parse_set_options resolve_expire set_task command
  cmd_set e db key val args = elim (parse_set_options args) [
    | inl v ↦ (v, e)
    | inr o ↦ elim (resolve_expire e.now o) [
      | inl v ↦ (v, e)
      | inr o' ↦ command e db key (set_task o' val db key)
    ]
  ]
