-- ===== src/Commands/Counters/Effect.antt =====
-- INCR and its relatives as exact integer arithmetic on the visible content of the key: the test before
-- the addition is exact, and nothing wraps.
use ultima.Base.{
  Bool-cases, ℕ, ◌≡◌, refl, inl, inr, Bool, true, false, ◌&&◌, not, Option, none, some, [], ◌∷◌,
  Bytes, codes, if◌then◌else◌, arith,
}
use ultima.Base.Int.{
  ℤ, pos, negsuc, ◌+ℤ◌, ◌-ℤ◌, leb_ℤ, max_int64, min_int64, wrap64, IsInt64, wrap64-eq_self,
}
use ultima.Numbers.{parse_int_strict}
use ultima.Numbers.Range.{parse_int_strict-IsInt64}
use ultima.Platform.{Platform, text}
use ultima.Resp.{int}
use ultima.Commands.{Reply, quiet, err_not_int, err_incr_ovf, is_string, str_of, new_string}
use ultima.Commands.Strings.Effect.{on_string, new_content, live_now}
use ultima.Shard.{Shard, Ent, is_expired}
use ultima.Shard.View.{Content, content, view}
use ultima.Commands.Outcome.{Outcome, branch, kept, stored, touched, after_lookup}
use ultima.Commands.Counters.{
  decimal, would_overflow, incr_missing, incr_value, incr_found, incr_task,
}

-- Whether an exact integer is an int64.
abbrev pub fits : ℤ → Bool
fits n = leb_ℤ min_int64 n && leb_ℤ n max_int64

module _ ⦃P : Platform⦄ where
  -- Adding to a number: the exact sum, unless it leaves int64.
  abbrev pub incr_number : ℤ → ℤ → Content → Option Content → Reply × Option Content
  incr_number delta v c old =
      if fits (v +ℤ delta)
      then (
        (int (v +ℤ delta), codes "incrby" ∷ []),
        some (record c { payload = text (decimal (v +ℤ delta)) }),
      )
      else (quiet err_incr_ovf, old)

  abbrev pub incr_parsed : ℤ → Content → Option ℤ → Reply × Option Content
  incr_parsed delta c none = (quiet err_not_int, some c)
  incr_parsed delta c (some v) = incr_number delta v c (some c)

  abbrev pub incr_spec : ℤ → Option Content → Reply × Option Content
  incr_spec delta none = incr_number delta (pos 0) (new_content []) none
  incr_spec delta (some c) =
      on_string (λ c. incr_parsed delta c (parse_int_strict (str_of c.payload))) c

-- The test before the addition finds exactly the sums outside int64.
overflow_exact :
    (v delta : ℤ) → IsInt64 v → IsInt64 delta → would_overflow v delta ≡ not (fits (v +ℤ delta))
unfolding would_overflow wrap64 ◌+ℤ◌ ◌-ℤ◌
overflow_exact (pos v) (pos d) h k = ground arith
overflow_exact (pos v) (negsuc d) h k = ground arith
overflow_exact (negsuc v) (pos d) h k = ground arith
overflow_exact (negsuc v) (negsuc d) h k = ground arith

fits_iff : (n : ℤ) → fits n ≡ true → IsInt64 n
fits_iff (pos n) h = ground arith
fits_iff (negsuc n) h = ground arith

module _ ⦃P : Platform⦄ where
  module _ (delta : ℤ) (in_range : IsInt64 delta) (s : Shard) (db : ℕ) (key : Bytes) where
    missing_number :
        view s db key ≡ none
        → Outcome s db key
            (incr_number delta (pos 0) (new_content []) none)
            (incr_missing delta db key s)
    unfolding incr_missing
    missing_number h = elim (Bool-cases (fits (pos 0 +ℤ delta))) [
      | inl f ↦
          rw
            (
              overflow_exact (pos 0) delta (ground arith) in_range,
              f,
              wrap64-eq_self _ (fits_iff _ f),
            )
            (stored s db key _ (new_string (decimal (pos 0 +ℤ delta))) _ refl)
      | inr f ↦
          rw (overflow_exact (pos 0) delta (ground arith) in_range, f)
            (kept s db key (quiet err_incr_ovf) none h)
    ]

    live_number :
        (e : Ent) (v : ℤ)
        → IsInt64 v
        → is_expired e s.now ≡ false
        → view s db key ≡ some (content e)
        → Outcome s db key
            (incr_number delta v (content e) (some (content e)))
            (incr_value delta db key e (some v) s)
    unfolding incr_value
    live_number e v k live h = elim (Bool-cases (fits (v +ℤ delta))) [
      | inl f ↦
          rw (overflow_exact v delta k in_range, f, wrap64-eq_self _ (fits_iff _ f))
            (touched s db key _ (record e { payload = text (decimal (v +ℤ delta)) }) _
              (ground (arith, live_now e s.now live)))
      | inr f ↦
          rw (overflow_exact v delta k in_range, f)
            (kept s db key (quiet err_incr_ovf) (some (content e)) h)
    ]

    live_parsed :
        (e : Ent) (r : Option ℤ)
        → ((v : ℤ) → r ≡ some v → IsInt64 v)
        → is_expired e s.now ≡ false
        → view s db key ≡ some (content e)
        → Outcome s db key (incr_parsed delta (content e) r) (incr_value delta db key e r s)
    live_parsed e none k live h =
        unfold incr_value in kept s db key (quiet err_not_int) (some (content e)) h
    live_parsed e (some v) k live h = live_number e v (k v refl) live h

  -- INCR, DECR, INCRBY and DECRBY add exactly: the visible number (0 for a missing key) plus the
  -- increment is stored and returned, the expiry is kept, and a sum outside int64, a text that is not
  -- a number and a key of another type change nothing.
  pub incr_task-Outcome :
      (delta : ℤ) (s : Shard) (db : ℕ) (key : Bytes)
      → IsInt64 delta
      → Outcome s db key (incr_spec delta (view s db key)) (incr_task delta db key s)
  unfolding incr_task incr_found
  incr_task-Outcome delta s db key in_range =
      after_lookup s db key (incr_found delta db key) (incr_spec delta)
        (λ t h n. missing_number delta in_range t db key h)
        (λ e live h.
          branch s db key (not (is_string e.payload)) (λ _. kept s db key _ _ h)
            (λ _.
              live_parsed delta in_range s db key e (parse_int_strict (str_of e.payload))
                (parse_int_strict-IsInt64 (str_of e.payload)) live h))
