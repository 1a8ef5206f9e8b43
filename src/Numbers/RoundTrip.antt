-- ===== src/Numbers/RoundTrip.antt =====
-- Printing an int64 and reading it back (strconv.FormatInt, uintToStr, parseIntStrict, ParseInt64).
use native.Mathlib.Nat.{
  pow-suc, one-le-pow, pow-le-pow_right, le-mul_of_pos_right, mul-le-mul_right,
}
use ultima.Base.{
  ℕ, zero, suc, ◌+◌, ◌-◌, ◌*◌, ◌/◌, ◌%◌, ◌^◌, ◌<◌, ◌≤◌, ◌≡◌, refl, ap, ◌∙◌, Bool, true, false, some,
  [], ◌∷◌, ◌++◌, Bytes, length, leb, ◌==◌, if◌then◌else◌, arith, Bool-cases, ==_iff, Option-cases,
  append-nil, ◌⊎◌, inl, inr, ◌&&◌,
}
use ultima.Base.Int.{ℤ, pos, negsuc, IsInt64}
use ultima.Numbers.{
  scan, with_sign, magnitude, parse_int_strict, parse_int64, fill, uint_to_str, format_int,
}

-- The buffer holds the digits of every number below ten to its room.
fill_total : (room v : ℕ) (out : Bytes) → v < 10 ^ room → (r : Bytes) × (fill room v out ≡ some r)
unfolding fill
fill_total zero v out h = (out, ground arith)
fill_total (suc room) v out h = elim (Bool-cases (v == 0)) [
  | inl done ↦ (out, rw done)
  | inr more ↦
      let (r, e) =
        fill_total room (v / 10) ((b'0' + v % 10) ∷ out) (omega (arith, pow-suc 10 room)) in
      (r, rw more e)
]

-- Reading the filled buffer reaches the state of having read `v`.
scan-fill :
    (room v : ℕ) (out r : Bytes) → v ≤ 2 ^ 63 → fill room v out ≡ some r → scan 0 r ≡ scan v out
unfolding fill scan
scan-fill zero v out r h e = ground arith
scan-fill (suc room) v out r h e = ground (arith, scan-fill room (v / 10) ((b'0' + v % 10) ∷ out) r)

-- The buffer of a positive number starts with a digit other than 0.
abbrev pub starts_nonzero : Bytes → Bool
starts_nonzero [] = false
starts_nonzero (c ∷ s) = leb b'1' c && leb c b'9'

fill-starts_nonzero :
    (room v : ℕ) (out r : Bytes)
    → fill room v out ≡ some r
    → (0 < v) ⊎ (starts_nonzero out ≡ true)
    → starts_nonzero r ≡ true
unfolding fill
fill-starts_nonzero zero v out r e h = ground arith
fill-starts_nonzero (suc room) v out r e h =
    ground (arith, fill-starts_nonzero room (v / 10) ((b'0' + v % 10) ∷ out) r)

magnitude-nonzero :
    (neg : Bool) (s : Bytes) → starts_nonzero s ≡ true → magnitude neg s ≡ with_sign neg (scan 0 s)
unfolding magnitude
magnitude-nonzero neg [] h = ground arith
magnitude-nonzero neg (c ∷ s) h = ground arith

pub parse-nonzero :
    (s : Bytes) → starts_nonzero s ≡ true → parse_int_strict s ≡ with_sign false (scan 0 s)
unfolding parse_int_strict
parse-nonzero [] h = ground arith
parse-nonzero (c ∷ s) h = ground (arith, magnitude-nonzero false (c ∷ s))

parse-minus :
    (s : Bytes) → starts_nonzero s ≡ true → parse_int_strict (b'-' ∷ s) ≡ with_sign true (scan 0 s)
unfolding parse_int_strict
parse-minus s h = magnitude-nonzero true s h

-- What is printed of a positive number reads back as that number.
str_of_pos :
    (n : ℕ)
    → 0 < n
    → n ≤ 2 ^ 63
    → (r : Bytes) × (uint_to_str n ≡ some r) × (starts_nonzero r ≡ true) × (scan 0 r ≡ some n)
unfolding uint_to_str scan
str_of_pos n p h =
    let (r, e) = fill_total 20 n [] (omega arith) in
    (r, ground arith, fill-starts_nonzero 20 n [] r e (inl p), scan-fill 20 n [] r h e)

-- types.ParseInt64 and commands.parseIntStrict accept the same texts and read the same numbers.
pub parse_int64-eq-parse_int_strict : (s : Bytes) → parse_int64 s ≡ parse_int_strict s
unfolding parse_int64 parse_int_strict
parse_int64-eq-parse_int_strict [] = refl
parse_int64-eq-parse_int_strict (c ∷ []) = ground arith
parse_int64-eq-parse_int_strict (c ∷ d ∷ s) = ground arith

parse-str_of_pos :
    (n : ℕ)
    → n < 2 ^ 63
    → (s : Bytes) × (uint_to_str n ≡ some s) × (parse_int_strict s ≡ some (pos n))
parse-str_of_pos zero h = (b'0' ∷ [], unfold uint_to_str in refl, unfold parse_int_strict in refl)
parse-str_of_pos (suc n) h =
    let (r, e, first, back) = str_of_pos (suc n) (omega arith) (omega arith) in
    (r, e, parse-nonzero r first ∙ rw back (ground arith))

-- Every int64 prints within the 20-byte buffer, and parseIntStrict reads the number back.
pub parse-format_int :
    (n : ℤ) → IsInt64 n → (s : Bytes) × (format_int n ≡ some s) × (parse_int_strict s ≡ some n)
unfolding format_int
parse-format_int (pos n) h = parse-str_of_pos n h
parse-format_int (negsuc n) h =
    let (r, e, first, back) = str_of_pos (suc n) (omega arith) (omega arith) in
    (b'-' ∷ r, rw e, parse-minus r first ∙ rw back)

-- One step of the digit loop that did not wrap.
scan-cons :
    (v c w : ℕ) (s : Bytes)
    → v + 1 ≤ 10 ^ 18
    → scan v (c ∷ s) ≡ some w
    → (b'0' ≤ c) × (c ≤ b'9') × (scan (v * 10 + (c - b'0')) s ≡ some w)
unfolding scan
scan-cons v c w s h e = (ground arith, ground arith, rw (← no_wrap) (ground arith))
  where
    digit : c ≤ b'9'
    digit = ground arith

    no_wrap : (v * 10 + (c - b'0')) % 2 ^ 64 ≡ v * 10 + (c - b'0')
    no_wrap = omega (arith, digit)

room_for_digit : (v k : ℕ) → (v + 1) * 10 ^ suc k ≤ 10 ^ 19 → v + 1 ≤ 10 ^ 18
room_for_digit v k h = omega (
  arith,
  pow-suc 10 k,
  rw (pow-suc 10 k) at h,
  le-mul_of_pos_right {m = 10 ^ k} (v + 1) (one-le-pow k 10 (omega arith)),
)

digit_keeps_room :
    (v d k : ℕ) → d ≤ 9 → (v + 1) * 10 ^ suc k ≤ 10 ^ 19 → (v * 10 + d + 1) * 10 ^ k ≤ 10 ^ 19
digit_keeps_room v d k hd h = omega (arith, rw (pow-suc 10 k) at h, mul-le-mul_right (10 ^ k) hd)

fill-digit :
    (room v c : ℕ) (out : Bytes)
    → b'0' ≤ c
    → c ≤ b'9'
    → 0 < v
    → fill (suc room) (v * 10 + (c - b'0')) out ≡ fill room v (c ∷ out)
unfolding fill
fill-digit room v c out lo hi p = rw (quot, last) (ground arith)
  where
    quot : (v * 10 + (c - b'0')) / 10 ≡ v
    quot = omega arith

    last : b'0' + (v * 10 + (c - b'0')) % 10 ≡ c
    last = omega arith

-- Reading more digits and then filling the buffer is filling the buffer with those digits,
-- while no step passes 2^64.
fill-scan :
    (s : Bytes) (room v w : ℕ) (out : Bytes)
    → (v + 1) * 10 ^ length s ≤ 10 ^ 19
    → 0 < v
    → scan v s ≡ some w
    → fill (length s + room) w out ≡ fill room v (s ++ out)
fill-scan [] room v w out b p e = unfold scan in ground arith
fill-scan (c ∷ s) room v w out b p e =
    let (lo, hi, e') = scan-cons v c w s (room_for_digit v (length s) b) e in
    let ih =
      fill-scan s (suc room) (v * 10 + (c - b'0')) w out
        (digit_keeps_room v (c - b'0') (length s) (omega arith) b) (omega arith) e' in
    ap (λ k. fill k w out) (omega arith) ∙ ih ∙ fill-digit room v c (s ++ out) lo hi p

fill-zero : (room : ℕ) (out : Bytes) → fill room 0 out ≡ some out
unfolding fill
fill-zero zero out = refl
fill-zero (suc room) out = refl

fill-first :
    (room c : ℕ) (out : Bytes)
    → b'1' ≤ c
    → c ≤ b'9'
    → fill (suc room) (0 * 10 + (c - b'0')) out ≡ some (c ∷ out)
fill-first room c out lo hi =
    let quot : (0 * 10 + (c - b'0')) / 10 ≡ 0 = omega arith in
    let last : b'0' + (0 * 10 + (c - b'0')) % 10 ≡ c = omega arith in
    unfold fill in rw (quot, last, fill-zero room (c ∷ out)) (ground arith)

uint_to_str-fill :
    (w c : ℕ) (s : Bytes) → fill 20 w [] ≡ some (c ∷ s) → (uint_to_str w ≡ some (c ∷ s)) × (0 < w)
unfolding uint_to_str
uint_to_str-fill zero c s f = absurd (cc (fill-zero 20 []))
uint_to_str-fill (suc w) c s f =
    let more : (suc w == 0) ≡ false = ground arith in (rw more (rw more at f), omega arith)

-- A digit string without a leading zero that scans within 19 digits is what its number prints.
uint_to_str-scan :
    (s : Bytes) (w : ℕ)
    → starts_nonzero s ≡ true
    → length s ≤ 19
    → scan 0 s ≡ some w
    → (uint_to_str w ≡ some s) × (0 < w)
uint_to_str-scan [] w p b e = ground arith
uint_to_str-scan (c ∷ s) w p b e =
    let (lo, hi, e') = scan-cons 0 c w s (omega arith) e in
    let low : b'1' ≤ c = ground arith in
    let bound = pow-le-pow_right {n = 10} (omega arith) {i = suc (length s)} {j = 19} b in
    let room = 19 - length s in
    let step =
      fill-scan s (suc room) (0 * 10 + (c - b'0')) w []
        (digit_keeps_room 0 (c - b'0') (length s) (omega arith) (omega (arith, bound)))
        (omega arith) e' in
    let filled : fill 20 w [] ≡ some (c ∷ s) =
      ap (λ k. fill k w []) (omega arith)
      ∙ step
      ∙ fill-first room c (s ++ []) low hi
      ∙ rw append-nil in
    uint_to_str-fill w c s filled

-- What `magnitude` accepts: a lone 0 with no sign, or digits without a leading zero.
magnitude-inv :
    (neg : Bool) (s : Bytes) (n : ℤ)
    → magnitude neg s ≡ some n
    → ((neg ≡ false) × (s ≡ b'0' ∷ []) × (n ≡ pos 0))
      ⊎ ((starts_nonzero s ≡ true)
          × ((w : ℕ) × (scan 0 s ≡ some w) × (with_sign neg (some w) ≡ some n)))
unfolding magnitude
magnitude-inv neg [] n h = cc
magnitude-inv neg (c ∷ s) n h = elim (Bool-cases (c == b'0')) [
  | inl z ↦ inl (lone_zero neg c s n z h)
  | inr nz ↦ inr (elim (Option-cases (scan 0 (c ∷ s))) [
    | inl e ↦ absurd (ground arith)
    | inr (w, e) ↦
        let (lo, hi, _) = scan-cons 0 c w s (omega arith) e in (ground arith, (w, e, ground arith))
  ])
]
  where
    lone_zero :
        (neg : Bool) (c : ℕ) (s : Bytes) (n : ℤ)
        → (c == b'0') ≡ true
        → magnitude neg (c ∷ s) ≡ some n
        → (neg ≡ false) × (c ∷ s ≡ b'0' ∷ []) × (n ≡ pos 0)
    lone_zero neg c [] n z h = ground arith
    lone_zero neg c (d ∷ s) n z h = ground arith

-- The digits of a numeral, without its sign.
abbrev pub digits_of : Bytes → Bytes
digits_of [] = []
digits_of (c ∷ s) = if c == b'-' then s else c ∷ s

-- The sign test behind the loop accepts what fits, and the number prints as it was read.
with_sign-format :
    (neg : Bool) (w : ℕ) (s : Bytes) (n : ℤ)
    → w ≤ 2 ^ 63
    → (uint_to_str w ≡ some s) × (0 < w)
    → with_sign neg (some w) ≡ some n
    → (format_int n ≡ some (if neg then b'-' ∷ s else s)) × IsInt64 n
unfolding format_int
with_sign-format neg zero s n b (e, p) h = absurd (omega arith)
with_sign-format true (suc w) s (pos n) b (e, p) h = cc
with_sign-format true (suc w) s (negsuc n) b (e, p) h =
    let same : w ≡ n = ground arith in (rw (← same) (rw e), omega arith)
with_sign-format false (suc w) s (pos n) b (e, p) h =
    let same : suc w ≡ n = ground arith in (rw (← same) e, ground arith)
with_sign-format false (suc w) s (negsuc n) b (e, p) h = absurd (ground arith)

pub scan-le : (s : Bytes) (v w : ℕ) → v ≤ 2 ^ 63 → scan v s ≡ some w → w ≤ 2 ^ 63
unfolding scan
scan-le [] v w h e = ground arith
scan-le (c ∷ s) v w h e = ground (arith, scan-le s ((v * 10 + (c - b'0')) % 2 ^ 64) w)

magnitude-format :
    (neg : Bool) (s : Bytes) (n : ℤ)
    → length s ≤ 19
    → magnitude neg s ≡ some n
    → (format_int n ≡ some (if neg then b'-' ∷ s else s)) × IsInt64 n
magnitude-format neg s n b h = elim (magnitude-inv neg s n h) [
  | inl (e, z, f) ↦ rw (e, z, f) (unfold format_int in refl, omega arith)
  | inr (p, (w, e, f)) ↦
      with_sign-format neg w s n (scan-le s 0 w (omega arith) e) (uint_to_str-scan s w p b e) f
]

-- A text of at most 19 digits that parseIntStrict accepts is the decimal form of the number it
-- returns, which is an int64.
pub format-parse_int :
    (s : Bytes) (n : ℤ)
    → length (digits_of s) ≤ 19
    → parse_int_strict s ≡ some n
    → (format_int n ≡ some s) × IsInt64 n
unfolding parse_int_strict
format-parse_int [] n b h = cc
format-parse_int (c ∷ s) n b h = elim (Bool-cases (c == b'-')) [
  | inl m ↦
      rw ((==_iff c b'-').0 m)
        (magnitude-format true s n (rw m at b) (rw (m, parse_int_strict) at h))
  | inr d ↦ magnitude-format false (c ∷ s) n (rw d at b) (rw (d, parse_int_strict) at h)
]
