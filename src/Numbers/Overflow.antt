-- ===== src/Numbers/Overflow.antt =====
-- The range check of parseIntStrict runs after the uint64 accumulator has wrapped.
use ultima.Base.{
  ℕ, ◌+◌, ◌-◌, ◌%◌, ◌^◌, ◌≡◌, refl, ◌∙◌, sym, ap, true, false, [], ◌∷◌, ◌++◌, Bytes, codes, arith,
}
use ultima.Numbers.{scan, with_sign, parse_int_strict}
use ultima.Numbers.RoundTrip.{starts_nonzero, parse-nonzero}

-- After 2^63 the next digit is added to 2^63 * 10, which is 0 modulo 2^64.
scan-two_pow_63 : (c : ℕ) (t : Bytes) → scan (2 ^ 63) (c ∷ t) ≡ scan 0 (c ∷ t)
unfolding scan
scan-two_pow_63 c t = rw wraps
  where
    wraps : (92233720368547758080 + (c - 48)) % 2 ^ 64 ≡ (0 + (c - 48)) % 2 ^ 64
    wraps = omega arith

-- 2^63 in decimal.
abbrev pub two_pow_63 : Bytes
two_pow_63 = codes "9223372036854775808"

scan-prefix : (t : Bytes) → scan 0 (two_pow_63 ++ t) ≡ scan (2 ^ 63) t
unfolding scan
scan-prefix t = refl

-- Prefixing the decimal form of 2^63 to a numeral without a leading zero does not change what
-- parseIntStrict reads, so it accepts numerals beyond int64.
pub parse_int-two_pow_63 :
    (t : Bytes) → starts_nonzero t ≡ true → parse_int_strict (two_pow_63 ++ t) ≡ parse_int_strict t
parse_int-two_pow_63 [] h = ground arith
parse_int-two_pow_63 (c ∷ t) h =
    parse-nonzero (two_pow_63 ++ c ∷ t) refl
    ∙ ap (with_sign false) (scan-prefix (c ∷ t) ∙ scan-two_pow_63 c t)
    ∙ sym (parse-nonzero (c ∷ t) h)
