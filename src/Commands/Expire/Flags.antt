-- ===== src/Commands/Expire/Flags.antt =====
-- The flags that parseExpireFlags accepts.
use ultima.Base.{
  subst, not, if◌then◌else◌, ◌≡◌, refl, inl, inr, ◌⊎◌, Bool, true, false, ◌&&◌, ◌||◌, List, [], ◌∷◌,
  Bytes, arith,
}
use ultima.Resp.{Value}
use ultima.Commands.Expire.{
  ExpireFlags, no_flags, FlagWord, flag_nx, flag_xx, flag_gt, flag_lt, flag_other, flag_word,
  add_flag, parse_expire_flags,
}

-- NX excludes the other three, and GT excludes LT.
abbrev pub are_compatible : ExpireFlags → Bool
are_compatible f = not (f.nx && (f.xx || f.gt || f.lt)) && not (f.gt && f.lt)

abbrev pub IsCompatible : Value ⊎ ExpireFlags → Type 0
IsCompatible (inl e) = Unit
IsCompatible (inr f) = are_compatible f ≡ true

refused :
    (b : Bool) (e : Value) (r : Value ⊎ ExpireFlags)
    → (b ≡ false → IsCompatible r)
    → IsCompatible (if b then inl e else r)
refused true e r k = tt
refused false e r k = k refl

add_flag-IsCompatible :
    (f : ExpireFlags) (arg : Bytes) (w : FlagWord)
    → are_compatible f ≡ true
    → IsCompatible (add_flag f arg w)
unfolding add_flag
add_flag-IsCompatible f arg flag_nx h =
    refused (f.xx || f.gt || f.lt) _ _ (λ b. ground (arith, h, b))
add_flag-IsCompatible f arg flag_xx h = refused f.nx _ _ (λ b. ground (arith, h, b))
add_flag-IsCompatible f arg flag_gt h =
    refused f.nx _ _ (λ b. refused f.lt _ _ (λ c. ground (arith, h, b, c)))
add_flag-IsCompatible f arg flag_lt h =
    refused f.nx _ _ (λ b. refused f.gt _ _ (λ c. ground (arith, h, b, c)))
add_flag-IsCompatible f arg flag_other h = tt

after_flag :
    (args : List Bytes) (r : Value ⊎ ExpireFlags)
    → ((f : ExpireFlags) → are_compatible f ≡ true → IsCompatible (parse_expire_flags f args))
    → IsCompatible r
    → IsCompatible (elim r [ inl e ↦ inl e | inr f ↦ parse_expire_flags f args ])
after_flag args (inl e) next h = tt
after_flag args (inr f) next h = next f h

all_flags-IsCompatible :
    (f : ExpireFlags) (args : List Bytes)
    → are_compatible f ≡ true
    → IsCompatible (parse_expire_flags f args)
unfolding parse_expire_flags
all_flags-IsCompatible f [] h = h
all_flags-IsCompatible f (arg ∷ args) h =
    after_flag args (add_flag f arg (flag_word arg)) (λ g. all_flags-IsCompatible g args)
      (add_flag-IsCompatible f arg (flag_word arg) h)

-- The flags that parseExpireFlags accepts are compatible, in whatever order they are given: NX
-- stands alone, and GT and LT exclude each other.
pub parse_expire_flags-IsCompatible :
    (args : List Bytes) (f : ExpireFlags)
    → parse_expire_flags no_flags args ≡ inr f
    → are_compatible f ≡ true
parse_expire_flags-IsCompatible args f h =
    subst IsCompatible h (all_flags-IsCompatible no_flags args refl)
