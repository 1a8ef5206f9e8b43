-- ===== src/Types/Set/Encoding.antt =====
-- The well-formedness of a set in its two encodings, what it holds, and the change of the encoding.
use ultima.Base.{
  ℕ, ◌+◌, ◌%◌, ◌^◌, ◌≤◌, ◌≡◌, refl, ap, sym, ◌∙◌, inl, inr, Bool, true, false, ◌||◌, Option, none,
  some, List, [], ◌∷◌, Bytes, bytes_eq, bytes_eq_iff, length, All, Bool-cases, Option-cases, arith,
}
use ultima.Base.Int.{ℤ, eqb_ℤ, eq_of_parts, IsInt64}
use ultima.Base.Maps.{Unique}
use ultima.Numbers.{parse_int64, format_int}
use ultima.Numbers.RoundTrip.{
  digits_of, format-parse_int, parse-format_int, parse_int64-eq-parse_int_strict,
}
use ultima.Types.Set.{MemberMap, IntSet, in_map, contains}
use ultima.Types.Set.Find.{Ascending, find-Located}
use ultima.Types.Set.Ints.{in_ints, found-eq-in_ints}

-- The bytes of the members of a map.
unfoldable pub total : MemberMap → ℕ
total [] = 0
total ((m, u) ∷ l) = length m + total l

abbrev pub Encoded : Bool → List ℤ → MemberMap → ℕ → Type 0
Encoded true ints member bytes =
    Ascending ints × All IsInt64 ints × (length ints ≤ 512) × (bytes ≡ 0)
Encoded false ints member bytes = Unique member × (bytes ≡ total member % 2 ^ 64)

abbrev pub IsSetValue : IntSet → Type 0
IsSetValue s = Encoded s.is_int s.ints s.member s.bytes

-- A text of at most 19 digits.
abbrev pub IsShort : Bytes → Type 0
IsShort m = length (digits_of m) ≤ 19

-- The integer that a text stands for is in the slice.
abbrev pub has_int : List ℤ → Option ℤ → Bool
has_int ints none = false
has_int ints (some v) = in_ints ints v

abbrev pub holds : Bool → List ℤ → MemberMap → Bytes → Bool
holds true ints member m = has_int ints (parse_int64 m)
holds false ints member m = in_map member m

abbrev pub has : IntSet → Bytes → Bool
has s = holds s.is_int s.ints s.member

pub contains-has : (s : IntSet) (m : Bytes) → IsSetValue s → contains s m ≡ some (has s m)
unfolding contains
contains-has s m w = elim (Bool-cases s.is_int) [
  | inr b ↦ rw b refl
  | inl b ↦ elim (Option-cases (parse_int64 m)) [
    | inl e ↦ rw (b, e) refl
    | inr (v, e) ↦
        let w' : Encoded true s.ints s.member s.bytes = (rw b at w) in
        let (r, found, loc) = find-Located s.ints v w'.0 in
        rw (b, e, found) (ap some (found-eq-in_ints s.ints v r loc))
  ]
]

-- A short text is the decimal form of its integer.
pub format-short :
    (m : Bytes) (v : ℤ) → IsShort m → parse_int64 m ≡ some v → (format_int v ≡ some m) × IsInt64 v
format-short m v short e = format-parse_int m v short (sym (parse_int64-eq-parse_int_strict m) ∙ e)

pub text_of : (v : ℤ) → IsInt64 v → (m : Bytes) × (format_int v ≡ some m) × (parse_int64 m ≡ some v)
text_of v h =
    let (m, e, back) = parse-format_int v h in (m, e, parse_int64-eq-parse_int_strict m ∙ back)

-- Where `m` is the decimal form of `v`, a short text is `m` exactly if it stands for `v`.
pub text_eq :
    (m j : Bytes) (v w : ℤ)
    → format_int v ≡ some m
    → parse_int64 m ≡ some v
    → IsShort j
    → parse_int64 j ≡ some w
    → eqb_ℤ v w ≡ bytes_eq m j
text_eq m j v w fm em sj ej =
    let fj = (format-short j w sj ej).0 in
    elim (Bool-cases (bytes_eq m j)) [
      | inl p ↦
          let e : m ≡ j = (bytes_eq_iff m j).0 p in
          let same : v ≡ w = cc (e, em, ej) in rw (p, same) (ground arith)
      | inr p ↦ elim (Bool-cases (eqb_ℤ v w)) [
        | inr q ↦ rw (p, q) refl
        | inl q ↦
            let same : v ≡ w = eq_of_parts v w (ground arith) in
            let e : m ≡ j = cc (same, fm, fj) in absurd (ground (arith, bytes_eq_iff m j))
      ]
    ]

pub has_int-cons :
    (m j : Bytes) (v : ℤ) (ints : List ℤ)
    → format_int v ≡ some m
    → parse_int64 m ≡ some v
    → IsShort j
    → has_int (v ∷ ints) (parse_int64 j) ≡ (bytes_eq m j || has_int ints (parse_int64 j))
has_int-cons m j v ints fm em sj = elim (Option-cases (parse_int64 j)) [
  | inr (w, ej) ↦ rw ej (unfold in_ints in rw (text_eq m j v w fm em sj ej) refl)
  | inl ej ↦ elim (Bool-cases (bytes_eq m j)) [
    | inr p ↦ rw (ej, p) refl
    | inl p ↦ let e : m ≡ j = (bytes_eq_iff m j).0 p in absurd (cc (e, em, ej))
  ]
]
