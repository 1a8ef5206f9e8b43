-- ===== src/Samples/Times.antt =====
-- Numbers and times at concrete values.
use ultima.Base.{
  arith, ◌+◌, ◌-◌, ◌^◌, ◌≡◌, refl, inl, inr, some, ◌++◌, Bytes, codes, ltb, if◌then◌else◌,
}
use ultima.Base.Int.{pos, negsuc, IsInt64}
use ultima.Numbers.{parse_int_strict, format_int}
use ultima.Numbers.RoundTrip.{parse-format_int, format-parse_int}
use ultima.Numbers.Overflow.{two_pow_63, parse_int-two_pow_63}
use ultima.Commands.Set.{ex, px, no_options, resolve_unit, err_invalid_expire}
use ultima.Commands.Expire.Times.{exact_time, resolve_unit-exact, resolve_px-wraps}

parse-format_int_example :
    (s : Bytes) × (format_int (negsuc 41) ≡ some s) × (parse_int_strict s ≡ some (negsuc 41))
parse-format_int_example = parse-format_int (negsuc 41) (ground arith)

minus_42 : parse_int_strict (codes "-42") ≡ some (negsuc 41)
unfolding parse_int_strict
minus_42 = refl

format-parse_int_example : (format_int (negsuc 41) ≡ some (codes "-42")) × IsInt64 (negsuc 41)
format-parse_int_example = format-parse_int (codes "-42") (negsuc 41) (ground arith) minus_42

parse_int-two_pow_63_example :
    parse_int_strict (two_pow_63 ++ codes "7") ≡ parse_int_strict (codes "7")
parse_int-two_pow_63_example = parse_int-two_pow_63 (codes "7") refl

resolve_unit-exact_example :
    resolve_unit ex (pos 1000) (record no_options { expire_at_ms = pos 10 }) ≡ (
      if ltb (exact_time ex 1000 10) (2 ^ 63)
      then inr (record no_options { expire_at_ms = pos (exact_time ex 1000 10) })
      else inl (err_invalid_expire "set"))
resolve_unit-exact_example =
    resolve_unit-exact ex 1000 10 no_options (omega arith) (omega arith) (λ e. omega arith)

resolve_px-wraps_example :
    resolve_unit px (pos 1000) (record no_options { expire_at_ms = pos 9223372036854775807 })
    ≡ inr (record no_options { expire_at_ms = negsuc (2 ^ 64 - 1 - (1000 + 9223372036854775807)) })
resolve_px-wraps_example =
    resolve_px-wraps 1000 9223372036854775807 no_options (omega arith) (omega arith) (omega arith)
