-- ===== src/Numbers/Range.antt =====
-- The range of what parseIntStrict returns.
use ultima.Base.{
  ℕ, zero, suc, ◌^◌, ◌≤◌, ◌≡◌, refl, inl, inr, Bool, true, false, Option, none, some, [], ◌∷◌,
  Bytes, arith, Bool-cases, ◌==◌, length, not, if◌then◌else◌,
}
use ultima.Base.Int.{ℤ, pos, negsuc, IsInt64}
use ultima.Numbers.{scan, with_sign, magnitude, parse_int_strict}
use ultima.Numbers.RoundTrip.{scan-le}

with_sign-IsInt64 :
    (b : Bool) (o : Option ℕ) (n : ℤ)
    → ((w : ℕ) → o ≡ some w → w ≤ 2 ^ 63)
    → with_sign b o ≡ some n
    → IsInt64 n
with_sign-IsInt64 b none n h e = ground (arith, e)
with_sign-IsInt64 true (some zero) (pos n) h e = ground (arith, e)
with_sign-IsInt64 true (some zero) (negsuc n) h e = ground (arith, e)
with_sign-IsInt64 true (some (suc m)) (pos n) h e = ground (arith, e)
with_sign-IsInt64 true (some (suc m)) (negsuc n) h e = ground (arith, e, h (suc m) refl)
with_sign-IsInt64 false (some w) (pos n) h e = ground (arith, e, h w refl)
with_sign-IsInt64 false (some w) (negsuc n) h e = ground (arith, e)

magnitude-IsInt64 : (b : Bool) (s : Bytes) (n : ℤ) → magnitude b s ≡ some n → IsInt64 n
unfolding magnitude
magnitude-IsInt64 b [] n e = ground (arith, e)
magnitude-IsInt64 b (c ∷ s) n e = elim (Bool-cases (c == b'0')) [
  | inl z ↦ zero_only n (rw z at e)
  | inr z ↦
      with_sign-IsInt64 b (scan 0 (c ∷ s)) n (λ w f. scan-le (c ∷ s) 0 w (ground arith) f)
        (rw z at e)
]
  where
    zero_only :
        (n : ℤ)
        → (if not (length s == 0) then none else if b then none else some (pos 0)) ≡ some n
        → IsInt64 n
    zero_only (pos n) f = ground (arith, f)
    zero_only (negsuc n) f = ground (arith, f)

-- parseIntStrict returns nothing outside int64.
pub parse_int_strict-IsInt64 : (s : Bytes) (n : ℤ) → parse_int_strict s ≡ some n → IsInt64 n
unfolding parse_int_strict
parse_int_strict-IsInt64 [] n e = ground (arith, e)
parse_int_strict-IsInt64 (c ∷ s) n e = elim (Bool-cases (c == b'-')) [
  | inl m ↦ magnitude-IsInt64 true s n (rw m at e)
  | inr m ↦ magnitude-IsInt64 false (c ∷ s) n (rw m at e)
]
