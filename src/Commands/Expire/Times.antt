-- ===== src/Commands/Expire/Times.antt =====
-- The times of SET's options, the EXPIRE family and TTL: where they are exact, and where int64 wraps.
use ultima.Base.{
  ℕ, ◌+◌, ◌-◌, ◌*◌, ◌^◌, ◌≤◌, ◌<◌, ◌≡◌, refl, inl, inr, Bool, true, false, arith, ltb,
  if◌then◌else◌,
}
use ultima.Base.Int.{pos, negsuc, ◌+ℤ◌, ◌-ℤ◌, ◌*ℤ◌, leb_ℤ, wrap64, div_ℤ, max_int64}
use ultima.Commands.Set.{
  err_invalid_expire, ExpireUnit, SetOptions, ex, px, exat, pxat, resolve_unit,
}
use ultima.Commands.Expire.{expire_time}

-- The time that an option of SET means, in exact arithmetic.
abbrev pub exact_time : ExpireUnit → ℕ → ℕ → ℕ
exact_time ex now v = now + v * 1000
exact_time px now v = now + v
exact_time exat now v = v * 1000
exact_time pxat now v = v

-- For a clock and a value below 2^63, resolveExpire of EX, EXAT and PXAT, and of PX where clock
-- plus value stay below 2^63, gives the exact time if int64 holds it and the invalid-expire error
-- otherwise.
pub resolve_unit-exact :
    (u : ExpireUnit) (now v : ℕ) (o : SetOptions)
    → now < 2 ^ 63
    → v < 2 ^ 63
    → (u ≡ px → now + v < 2 ^ 63)
    → resolve_unit u (pos now) (record o { expire_at_ms = pos v }) ≡ (
        if ltb (exact_time u now v) (2 ^ 63)
        then inr (record o { expire_at_ms = pos (exact_time u now v) })
        else inl (err_invalid_expire "set"))
unfolding resolve_unit wrap64 div_ℤ ◌+ℤ◌ ◌-ℤ◌ ◌*ℤ◌
resolve_unit-exact ex now v o h k p = ground arith
resolve_unit-exact px now v o h k p = ground (arith, p refl)
resolve_unit-exact exat now v o h k p = ground arith
resolve_unit-exact pxat now v o h k p = ground arith

-- For a clock and a value below 2^63 whose sum is not, resolveExpire of PX gives a negative time
-- instead of the error.
pub resolve_px-wraps :
    (now v : ℕ) (o : SetOptions)
    → now < 2 ^ 63
    → v < 2 ^ 63
    → 2 ^ 63 ≤ now + v
    → resolve_unit px (pos now) (record o { expire_at_ms = pos v })
      ≡ inr (record o { expire_at_ms = negsuc (2 ^ 64 - 1 - (now + v)) })
unfolding resolve_unit wrap64 ◌+ℤ◌
resolve_px-wraps now v o h k l = ground arith

-- EXPIRE and EXPIREAT with seconds that do not fit into int64 as milliseconds, for a clock below
-- 2^63, mean the last moment of int64.
pub expire_time-saturates :
    (abs : Bool) (now v : ℕ)
    → now < 2 ^ 63
    → v < 2 ^ 63
    → 2 ^ 63 ≤ v * 1000
    → expire_time abs false (pos now) (pos v) ≡ max_int64
unfolding expire_time wrap64 div_ℤ ◌+ℤ◌ ◌-ℤ◌ ◌*ℤ◌
expire_time-saturates true now v h k l = ground arith
expire_time-saturates false now v h k l = ground arith

-- For a clock and a value below 2^63 whose sum is not, the time of PEXPIRE has passed already.
pub pexpire_time-wraps :
    (now v : ℕ)
    → now < 2 ^ 63
    → v < 2 ^ 63
    → 2 ^ 63 ≤ now + v
    → leb_ℤ (expire_time false true (pos now) (pos v)) (pos now) ≡ true
unfolding expire_time wrap64 ◌+ℤ◌
pexpire_time-wraps now v h k l = ground arith
