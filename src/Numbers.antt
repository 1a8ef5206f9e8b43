-- ===== src/Numbers.antt =====
-- Integers on the wire: lib/commands/engine.go (parseIntStrict, parseCursor,
-- lowerASCII), lib/commands/keys.go (uintToStr) and lib/types/types.go (ParseInt64).
-- The loops run over the bytes of the text; the uint64 accumulator wraps as in Go.
pub mod RoundTrip
pub mod Range
pub mod Overflow
use ultima.Base.{
  ℕ, zero, suc, ◌+◌, ◌-◌, ◌*◌, ◌/◌, ◌%◌, ◌^◌, ◌<◌, Bool, true, false, ◌&&◌, ◌||◌, not, Option, none,
  some, List, [], ◌∷◌, ◌++◌, Bytes, length, codes, bytes_eq, ltb, leb, ◌==◌, if◌then◌else◌, ◌>>=◌,
  map, ◌≡◌, refl,
}
use ultima.Base.Int.{ℤ, pos, negsuc, pos_part}

-- The digit loop: `v = v*10 + uint64(c-'0')` in uint64, refused above 2^63.
unfoldable pub scan : ℕ → Bytes → Option ℕ
scan v [] = some v
scan v (c ∷ s) =
    let v' = (v * 10 + (c - b'0')) % 2 ^ 64 in
    let rest = scan v' s in
    if ltb c b'0' || ltb b'9' c then none else if ltb (2 ^ 63) v' then none else rest

-- The range check behind the loop: `-int64(v)`, and -2^63 on its own.
abbrev pub with_sign : Bool → Option ℕ → Option ℤ
with_sign neg none = none
with_sign true (some zero) = some (pos 0)
with_sign true (some (suc n)) = some (negsuc n)
with_sign false (some v) = if leb (2 ^ 63) v then none else some (pos v)

-- What follows the optional sign.
unfoldable pub magnitude : Bool → Bytes → Option ℤ
unfolding scan
magnitude neg [] = none
magnitude neg (c ∷ s) =
    if c == b'0'
    then (if not (length s == 0) then none else if neg then none else some (pos 0))
    else with_sign neg (scan 0 (c ∷ s))

-- parseIntStrict
unfoldable pub parse_int_strict : Bytes → Option ℤ
unfolding magnitude
parse_int_strict [] = none
parse_int_strict (c ∷ s) = if c == b'-' then magnitude true s else magnitude false (c ∷ s)

-- types.ParseInt64: the two zero tests are one, the rest is the same text.
unfoldable pub magnitude_string : Bool → Bytes → Option ℤ
unfolding scan
magnitude_string neg [] = none
magnitude_string neg (c ∷ s) =
    if c == b'0'
    then (if not (length s == 0) || neg then none else some (pos 0))
    else with_sign neg (scan 0 (c ∷ s))

unfoldable pub parse_int64 : Bytes → Option ℤ
unfolding magnitude_string
parse_int64 [] = none
parse_int64 (c ∷ s) = if c == b'-' then magnitude_string true s else magnitude_string false (c ∷ s)

-- The loop of uintToStr; `room` is the part of the 20-byte buffer left, and `none` the panic
-- of an index below 0.
unfoldable pub fill : ℕ → ℕ → Bytes → Option Bytes
fill zero v out = if v == 0 then some out else none
fill (suc room) v out =
    let rest = fill room (v / 10) ((b'0' + v % 10) ∷ out) in if v == 0 then some out else rest

unfoldable pub uint_to_str : ℕ → Option Bytes
unfolding fill
uint_to_str v = if v == 0 then some (b'0' ∷ []) else fill 20 v []

-- strconv.FormatInt(v, 10) and fmt's %d.
unfoldable pub format_int : ℤ → Option Bytes
unfolding uint_to_str
format_int (pos n) = uint_to_str n
format_int (negsuc n) = (uint_to_str (suc n)) >>= (λ s. some (b'-' ∷ s))

-- parseCursor: a negative number wraps into uint64.
unfoldable pub parse_cursor : Bytes → Option ℕ
unfolding parse_int_strict
parse_cursor b = (parse_int_strict b) >>= (λ v. some (to_uint64 v))
  where
    to_uint64 : ℤ → ℕ
    to_uint64 (pos n) = n
    to_uint64 (negsuc n) = 2 ^ 64 - 1 - n

unfoldable pub lower_byte : ℕ → ℕ
lower_byte c = if leb b'A' c && leb c b'Z' then c + (b'a' - b'A') else c

-- lowerASCII; a text with no capital is returned as it is, which is the same text.
unfoldable pub lower_ascii : Bytes → Bytes
unfolding lower_byte
lower_ascii = map lower_byte

max_uint64_str : uint_to_str (2 ^ 64 - 1) ≡ some (codes "18446744073709551615")
unfolding uint_to_str
max_uint64_str = refl
