-- ===== src/Types/Set/Members.antt =====
-- Members: each text of the set once, in both encodings.
use ultima.Base.{
  ◌≡◌, refl, ◌∙◌, inl, inr, false, Option, none, some, List, [], ◌∷◌, Bytes, bytes_eq, bytes_eq_iff,
  length, All, Bool-cases, arith,
}
use ultima.Base.Int.{ℤ, IsInt64, eqb_ℤ, eq_of_parts}
use ultima.Base.Maps.{lookup_key, Unique, is_one_of, bytes_eq_comm}
use ultima.Numbers.{parse_int64, format_int}
use ultima.Types.Set.{MemberMap, IntSet, in_map, members, format_all, keys_of}
use ultima.Types.Set.Find.{Ascending}
use ultima.Types.Set.Ints.{in_ints, above_absent}
use ultima.Types.Set.Encoding.{has_int, has_int-cons, IsShort, text_of}
use ultima.Types.Set.Forms.{Stands, int_form, map_form}

keys_of-in_map : (l : MemberMap) (j : Bytes) → is_one_of j (keys_of l) ≡ in_map l j
unfolding in_map lookup_key
keys_of-in_map [] j = refl
keys_of-in_map ((m, u) ∷ l) j = ground (arith, keys_of-in_map l j, bytes_eq_comm j m)

length-keys_of : (l : MemberMap) → length (keys_of l) ≡ length l
length-keys_of [] = refl
length-keys_of ((m, u) ∷ l) = omega (arith, length-keys_of l)

no_text : (o : Option ℤ) → false ≡ has_int [] o
unfolding in_ints
no_text none = refl
no_text (some v) = refl

format_all_lem :
    (ints : List ℤ)
    → All IsInt64 ints
    → (ms : List Bytes) × (format_all ints ≡ some ms)
      × (length ms ≡ length ints)
      × ((j : Bytes) → IsShort j → is_one_of j ms ≡ has_int ints (parse_int64 j))
unfolding format_all
format_all_lem [] ok = ([], refl, refl, λ j short. no_text (parse_int64 j))
format_all_lem (v ∷ ints) ok =
    let (m, fm, em) = text_of v ok.0 in
    let (ms, e, n, view) = format_all_lem ints ok.1 in
    (
      m ∷ ms,
      rw (fm, e) refl,
      omega (arith, n),
      λ j short. rw (has_int-cons m j v ints fm em short, view j short, bytes_eq_comm j m) refl,
    )

-- No text twice.
abbrev pub Once : List Bytes → Type 0
Once [] = Unit
Once (m ∷ ms) = (is_one_of m ms ≡ false) × Once ms

keys_of-Once : (l : MemberMap) → Unique l → Once (keys_of l)
unfolding in_map
keys_of-Once [] w = tt
keys_of-Once ((m, u) ∷ l) w = (keys_of-in_map l m ∙ rw (in_map, w.0) refl, keys_of-Once l w.1)

-- A printed integer is among the printed ones exactly if it is in the slice.
format_all-in_ints :
    (ints : List ℤ) (ms : List Bytes) (w : ℤ) (j : Bytes)
    → All IsInt64 ints
    → format_all ints ≡ some ms
    → format_int w ≡ some j
    → parse_int64 j ≡ some w
    → is_one_of j ms ≡ in_ints ints w
unfolding format_all in_ints
format_all-in_ints [] ms w j ok e fj ej = ground arith
format_all-in_ints (v ∷ ints) ms w j ok e fj ej =
    let (m, fm, em) = text_of v ok.0 in
    let (ms', e', _, _) = format_all_lem ints ok.1 in
    let both : m ∷ ms' ≡ ms = ground (arith, (rw (fm, e') at e)) in
    let rest = format_all-in_ints ints ms' w j ok.1 e' fj ej in
    let head : bytes_eq j m ≡ eqb_ℤ v w = elim (Bool-cases (bytes_eq j m)) [
      | inl p ↦
          let s : j ≡ m = (bytes_eq_iff j m).0 p in
          let same : v ≡ w = cc (s, em, ej) in rw (p, same) (ground arith)
      | inr p ↦ elim (Bool-cases (eqb_ℤ v w)) [
        | inr q ↦ rw (p, q) refl
        | inl q ↦
            let same : v ≡ w = eq_of_parts v w (ground arith) in
            let s : j ≡ m = cc (same, fm, fj) in absurd (ground (arith, (bytes_eq_iff j m).1 s))
      ]
    ] in
    rw (← both) (rw (head, rest) refl)

format_all-Once :
    (ints : List ℤ) (ms : List Bytes)
    → All IsInt64 ints
    → Ascending ints
    → format_all ints ≡ some ms
    → Once ms
unfolding format_all
format_all-Once [] ms ok asc e = let s : [] ≡ ms = ground arith in rw (← s) tt
format_all-Once (v ∷ ints) ms ok asc e =
    let (m, fm, em) = text_of v ok.0 in
    let (ms', e', _, _) = format_all_lem ints ok.1 in
    let both : m ∷ ms' ≡ ms = ground (arith, (rw (fm, e') at e)) in
    let alone = format_all-in_ints ints ms' v m ok.1 e' fm em ∙ above_absent ints v asc.0 in
    rw (← both) (alone, format_all-Once ints ms' ok.1 asc.1 e')

-- The list that Members returns for a set that stands for `l`.
pub record Listed (ms : List Bytes) (l : MemberMap) : Type 0 where
  pub size : length ms ≡ length l
  pub once : Once ms
  pub view : (j : Bytes) → IsShort j → is_one_of j ms ≡ in_map l j

pub members-Listed :
    (s : IntSet) (l : MemberMap)
    → Stands s l
    → (ms : List Bytes) × (members s ≡ some ms) × Listed ms l
unfolding members
members-Listed s l st = elim (Bool-cases s.is_int) [
  | inl b ↦
      let f = int_form s l b st in
      let (ms, e, n, view) = format_all_lem s.ints f.encoded.1 in
      (
        ms,
        rw b e,
        record {
          size = n ∙ f.size;
          once = format_all-Once s.ints ms f.encoded.1 f.encoded.0 e;
          view = λ j short. view j short ∙ f.view j short;
        },
      )
  | inr b ↦
      let f = map_form s l b st in
      (
        keys_of s.member,
        rw b refl,
        record {
          once = keys_of-Once s.member f.encoded.0;
          size = length-keys_of s.member ∙ f.size;
          view = λ j short. keys_of-in_map s.member j ∙ f.view j short;
        },
      )
]
