-- ===== src/Commands/Notify/Canonical.antt =====
-- The canonical form of the notification flags, read back.
use Prim.Native.Nat.{bit_and, bit_or, bit_or-bitwise, digits}
use native.Mathlib.Nat.{pow-suc}
use ultima.Base.{
  ltb, ℕ, zero, suc, ◌+◌, ◌/◌, ◌^◌, ◌≤◌, ◌<◌, max, ◌≡◌, refl, ap, ◌∙◌, Bool, true, false, ◌&&◌,
  none, some, [], ◌∷◌, Bytes, Bool-cases, Option-cases, inl, inr, arith, ◌==◌, ==_iff,
  if◌then◌else◌,
}
use ultima.Commands.Notify.{
  class_of, parse_from, parse_notify_flags, notify_flags_to_string, class_letters, nf_all,
}

-- Every number of n bits from `base` on passes the test.
on_bits : ℕ → ℕ → (ℕ → Bool) → Bool
on_bits zero base test = test base
on_bits (suc n) base test = on_bits n base test && on_bits n (base + 2 ^ n) test

on_bits_sound :
    (n base x : ℕ) (test : ℕ → Bool)
    → on_bits n base test ≡ true
    → base ≤ x
    → x < base + 2 ^ n
    → test x ≡ true
unfolding on_bits
on_bits_sound zero base x test h lo hi = let e : base ≡ x = omega arith in rw (← e) h
on_bits_sound (suc n) base x test h lo hi = elim (Bool-cases (ltb x (base + 2 ^ n))) [
  | inl low ↦ on_bits_sound n base x test (ground arith) lo (ground arith)
  | inr high ↦
      on_bits_sound n (base + 2 ^ n) x test (ground arith) (ground arith)
        (omega (arith, pow-suc 2 n))
]

-- The flags that CONFIG GET shows, read back: all of them, but with the class A the class n is lost.
shown : ℕ → ℕ
shown f = if bit_and f nf_all == nf_all then bit_and f 8191 else f

reads_back : ℕ → Bool
reads_back f = elim (parse_notify_flags (notify_flags_to_string f)) [
  | none ↦ false
  | some g ↦ g == shown f
]

all_read_back : on_bits 14 0 reads_back ≡ true
unfolding on_bits reads_back parse_notify_flags parse_from class_of notify_flags_to_string
    class_letters shown
all_read_back = refl

digits_or-lt : (fuel n a b : ℕ) → a < 2 ^ n → b < 2 ^ n → digits (λ b. b) max fuel a b < 2 ^ n
digits_or-lt zero n a b p q = q
digits_or-lt (suc fuel) n zero b p q = q
digits_or-lt (suc fuel) zero (suc a) b p q = absurd (omega arith)
digits_or-lt (suc fuel) (suc n) (suc a) b p q =
    let rest =
      digits_or-lt fuel n (suc a / 2) (b / 2) (omega (arith, pow-suc 2 n))
        (omega (arith, pow-suc 2 n)) in
    omega (arith, rest, pow-suc 2 n)

bit_or-lt : (n a b : ℕ) → a < 2 ^ n → b < 2 ^ n → bit_or a b < 2 ^ n
bit_or-lt n a b p q = omega (arith, bit_or-bitwise a b, digits_or-lt a n a b p q)

class_of-lt : (c bit : ℕ) → class_of c ≡ some bit → bit < 2 ^ 14
unfolding class_of
class_of-lt c bit h = ground arith

parse_from-lt :
    (s : Bytes) (flags f : ℕ) → flags < 2 ^ 14 → parse_from flags s ≡ some f → f < 2 ^ 14
unfolding parse_from
parse_from-lt [] flags f small h = ground arith
parse_from-lt (c ∷ s) flags f small h = elim (Option-cases (class_of c)) [
  | inl e ↦ absurd (ground arith)
  | inr (bit, e) ↦
      parse_from-lt s (bit_or flags bit) f (bit_or-lt 14 flags bit small (class_of-lt c bit e))
        (ground arith)
]

pub parse_notify_flags-lt : (s : Bytes) (f : ℕ) → parse_notify_flags s ≡ some f → f < 2 ^ 14
unfolding parse_notify_flags
parse_notify_flags-lt s f h = parse_from-lt s 0 f (omega arith) h

-- The canonical text of the flags that parseNotifyFlags reads from any text is read back as the
-- same flags, except that the class n is lost beside the whole class A.
pub parse-notify_flags_to_string :
    (s : Bytes) (f : ℕ)
    → parse_notify_flags s ≡ some f
    → parse_notify_flags (notify_flags_to_string f)
      ≡ some (if bit_and f nf_all == nf_all then bit_and f 8191 else f)
unfolding reads_back shown
parse-notify_flags_to_string s f h =
    let small = parse_notify_flags-lt s f h in
    let read = on_bits_sound 14 0 f reads_back all_read_back (omega arith) (omega arith) in
    elim (Option-cases (parse_notify_flags (notify_flags_to_string f))) [
      | inl e ↦ absurd (ground arith)
      | inr (g, e) ↦ e ∙ ap some ((==_iff g (shown f)).0 (rw (reads_back, e) at read))
    ]
