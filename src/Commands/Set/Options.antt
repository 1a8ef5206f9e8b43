-- ===== src/Commands/Set/Options.antt =====
-- What parseSetOptions accepts.
use ultima.Base.{
  Bool-cases, subst, ◌≡◌, refl, inl, inr, ◌⊎◌, Bool, true, false, ◌&&◌, ◌||◌, Option, none, some,
  List, [], ◌∷◌, Bytes, arith,
}
use ultima.Base.Int.{ℤ, pos, ◌<ℤ◌, leb_ℤ}
use ultima.Resp.{Value}
use ultima.Commands.Set.{
  ExpireUnit, SetWord, word_nx, word_xx, word_get, word_keepttl, word_other, word_unit, SetOptions,
  Mode, has_unit, option_word, option_value, option_arg, parse_options, parse_set_options, set_word,
  refuse_if, other_unit, no_options,
}
use ultima.Numbers.{parse_int_strict}

-- NX excludes XX, KEEPTTL excludes an expiry, and an expiry has a positive value.
pub record IsConsistent (o : SetOptions) : Type 0 where
  pub nx_or_xx : (o.nx && o.xx) ≡ false
  pub keep_or_set : (o.keepttl && has_unit o.exp_unit) ≡ false
  pub positive : has_unit o.exp_unit ≡ true → pos 0 <ℤ o.expire_at_ms

-- A value may follow only where KEEPTTL was not given.
abbrev IsOpen : Mode → Type 0
IsOpen (none, o) = Unit
IsOpen (some u, o) = o.keepttl ≡ false

abbrev IsGood : Value ⊎ Mode → Type 0
IsGood (inl e) = Unit
IsGood (inr (m, o)) = IsConsistent o × IsOpen (m, o)

refuse_if-IsGood : (b : Bool) (m : Mode) → (b ≡ false → IsGood (inr m)) → IsGood (refuse_if b m)
refuse_if-IsGood true m f = tt
refuse_if-IsGood false m f = f refl

option_word-IsGood : (o : SetOptions) (w : SetWord) → IsConsistent o → IsGood (option_word o w)
unfolding option_word
option_word-IsGood o word_nx h =
    refuse_if-IsGood o.xx _
      (λ b. (record { nx_or_xx = b; keep_or_set = h.keep_or_set; positive = h.positive }, tt))
option_word-IsGood o word_xx h = refuse_if-IsGood o.nx _ (λ b. (
  record { nx_or_xx = ground (arith, b); keep_or_set = h.keep_or_set; positive = h.positive },
  tt,
))
option_word-IsGood o word_get h =
    (record { nx_or_xx = h.nx_or_xx; keep_or_set = h.keep_or_set; positive = h.positive }, tt)
option_word-IsGood o word_keepttl h =
    refuse_if-IsGood (has_unit o.exp_unit) _
      (λ b. (record { nx_or_xx = h.nx_or_xx; keep_or_set = b; positive = h.positive }, tt))
option_word-IsGood o (word_unit u) h =
    refuse_if-IsGood (o.keepttl || other_unit o.exp_unit u) _ (λ b. (h, ground (arith, b)))
option_word-IsGood o word_other h = tt

option_value-IsGood :
    (o : SetOptions) (u : ExpireUnit) (v : Option ℤ)
    → IsConsistent o
    → o.keepttl ≡ false
    → IsGood (option_value o u v)
unfolding option_value
option_value-IsGood o u none h k = tt
option_value-IsGood o u (some v) h k = elim (Bool-cases (leb_ℤ v (pos 0))) [
  | inl b ↦ rw b tt
  | inr b ↦ rw b (
    record {
      nx_or_xx = h.nx_or_xx;
      keep_or_set = ground (arith, k);
      positive = λ _. ground (arith, b);
    },
    tt,
  )
]

option_arg-IsGood :
    (m : Mode) (arg : Bytes) → IsConsistent m.1 → IsOpen m → IsGood (option_arg m arg)
unfolding option_arg
option_arg-IsGood (none, o) arg h k = option_word-IsGood o (set_word arg) h
option_arg-IsGood (some u, o) arg h k = option_value-IsGood o u (parse_int_strict arg) h k

abbrev IsGoodResult : Value ⊎ SetOptions → Type 0
IsGoodResult (inl e) = Unit
IsGoodResult (inr o) = IsConsistent o

good_result :
    (args : List Bytes) (r : Value ⊎ Mode)
    → ((m : Mode) → IsConsistent m.1 → IsOpen m → IsGoodResult (parse_options m args))
    → IsGood r
    → IsGoodResult (elim r [ inl e ↦ inl e | inr m ↦ parse_options m args ])
good_result args (inl e) next g = tt
good_result args (inr m) next g = next m g.0 g.1

parse_options-IsGood :
    (m : Mode) (args : List Bytes)
    → IsConsistent m.1
    → IsOpen m
    → IsGoodResult (parse_options m args)
unfolding parse_options
parse_options-IsGood (none, o) [] h k = h
parse_options-IsGood (some u, o) [] h k = tt
parse_options-IsGood m (arg ∷ args) h k =
    good_result args (option_arg m arg) (λ m'. parse_options-IsGood m' args)
      (option_arg-IsGood m arg h k)

-- The options that parseSetOptions accepts are consistent, in whatever order and however often
-- they are given: NX excludes XX, KEEPTTL excludes an expiry, and the value of an expiry is
-- positive.
pub parse_set_options-IsConsistent :
    (args : List Bytes) (o : SetOptions) → parse_set_options args ≡ inr o → IsConsistent o
unfolding parse_set_options
parse_set_options-IsConsistent args o h = subst IsGoodResult h (
    parse_options-IsGood (none, no_options) args
      (record { nx_or_xx = refl; keep_or_set = refl; positive = λ e. ground (arith, e) }) tt)
