-- ===== src/Types/Set/Promote.antt =====
-- promote: the texts of the integers, each once, with their bytes.
use ultima.Base.{
  ℕ, ◌+◌, ◌%◌, ◌^◌, ◌≡◌, refl, sym, ◌∙◌, inl, inr, Bool, true, false, ◌||◌, Option, none, some,
  List, [], ◌∷◌, Bytes, bytes_eq, bytes_eq_iff, length, All, Bool-cases, arith, true_ne_false,
}
use ultima.Base.Int.{ℤ, ◌<ℤ◌, eqb_ℤ, eq_of_parts, IsInt64, add64}
use ultima.Base.Maps.{
  lookup_key, put_key, Unique, lookup-put, Unique-put, length-put, present, remove_absent,
}
use ultima.Numbers.{parse_int64, format_int}
use ultima.Types.Set.{MemberMap, IntSet, in_map, promote, promote_ints, set_len}
use ultima.Types.Set.Find.{Ascending}
use ultima.Types.Set.Ints.{in_ints, above_absent}
use ultima.Types.Set.Encoding.{
  total, has_int, has, IsShort, IsSetValue, Encoded, text_of, has_int-cons,
}

pub in_map-put :
    (l : MemberMap) (m j : Bytes) → in_map (put_key l m tt) j ≡ (bytes_eq m j || in_map l j)
unfolding in_map
in_map-put l m j = ground (arith, lookup-put l m j tt)

pub total-put :
    (l : MemberMap) (m : Bytes)
    → lookup_key l m ≡ none
    → total (put_key l m tt) ≡ length m + total l
unfolding put_key total
total-put l m h = rw (remove_absent l m h) refl

in_ints-IsInt64 : (ints : List ℤ) (w : ℤ) → All IsInt64 ints → in_ints ints w ≡ true → IsInt64 w
unfolding in_ints
in_ints-IsInt64 [] w a h = absurd (ground arith)
in_ints-IsInt64 (x ∷ xs) w a h = elim (Bool-cases (eqb_ℤ x w)) [
  | inl p ↦ let e : x ≡ w = eq_of_parts x w (ground arith) in rw (← e) a.0
  | inr p ↦ in_ints-IsInt64 xs w a.1 (ground arith)
]

-- No text of an integer of the slice is in the map yet.
abbrev Fresh : List ℤ → MemberMap → Type 0
Fresh ints l =
    (w : ℤ) (t : Bytes) → in_ints ints w ≡ true → format_int w ≡ some t → lookup_key l t ≡ none

Fresh-put :
    (v : ℤ) (ints : List ℤ) (l : MemberMap) (m : Bytes)
    → All IsInt64 ints
    → All (λ y. v <ℤ y) ints
    → parse_int64 m ≡ some v
    → Fresh (v ∷ ints) l
    → Fresh ints (put_key l m tt)
unfolding in_ints
Fresh-put v ints l m ok above em fresh w t here ft =
    let (t', ft', et) = text_of w (in_ints-IsInt64 ints w ok here) in
    let old = fresh w t (ground arith) ft in
    let away = above_absent ints v above in
    elim (Bool-cases (bytes_eq m t)) [
      | inr p ↦ lookup-put l m t tt ∙ rw (p, old) refl
      | inl p ↦
          let e : m ≡ t = (bytes_eq_iff m t).0 p in
          let same : t ≡ t' = cc (ft, ft') in
          let vw : v ≡ w = cc (e, same, em, et) in
          absurd (true_ne_false (sym here ∙ rw (← vw) away))
    ]

-- The map and the charge that the loop of promote ends with.
record Promoted (ints : List ℤ) (l l' : MemberMap) (bytes : ℕ) : Type 0 where
  unique : Unique l'
  charged : bytes ≡ total l' % 2 ^ 64
  all : length l' ≡ length ints + length l
  view : (j : Bytes) → IsShort j → in_map l' j ≡ (has_int ints (parse_int64 j) || in_map l j)

no_ints : (l : MemberMap) (j : Bytes) (o : Option ℤ) → in_map l j ≡ (has_int [] o || in_map l j)
unfolding in_ints
no_ints l j none = refl
no_ints l j (some v) = refl

or_swap : (a b c : Bool) → (a || (b || c)) ≡ ((b || a) || c)
or_swap a b c = ground arith

pub length-put_new :
    (l : MemberMap) (m : Bytes)
    → lookup_key l m ≡ none
    → Unique l
    → length (put_key l m tt) ≡ length l + 1
unfolding present
length-put_new l m new u = let n = length-put l m tt u in omega (arith, (rw new at n))

promote_ints_lem :
    (ints : List ℤ) (l : MemberMap) (bytes : ℕ)
    → All IsInt64 ints
    → Ascending ints
    → Unique l
    → bytes ≡ total l % 2 ^ 64
    → Fresh ints l
    → (l' : MemberMap) × (b : ℕ) × (promote_ints ints l bytes ≡ some (l', b)) × Promoted ints l l' b
unfolding promote_ints
promote_ints_lem [] l bytes ok asc u ch fresh = (
  l,
  bytes,
  refl,
  record {
    unique = u;
    charged = ch;
    all = omega arith;
    view = λ j short. no_ints l j (parse_int64 j);
  },
)
promote_ints_lem (v ∷ ints) l bytes ok asc u ch fresh =
    let (m, fm, em) = text_of v ok.0 in
    let new : lookup_key l m ≡ none = fresh v m (unfold in_ints in ground arith) fm in
    let fresh' = Fresh-put v ints l m ok.1 asc.0 em fresh in
    let (l', b, e, done) =
      promote_ints_lem ints (put_key l m tt) (add64 bytes (length m)) ok.1 asc.1
        (Unique-put l m tt u) (omega (arith, total-put l m new)) fresh' in
    (
      l',
      b,
      rw fm e,
      record {
        unique = done.unique;
        charged = done.charged;
        all = omega (arith, done.all, length-put_new l m new u);
        view = λ j short.
            rw (done.view j short, in_map-put l m j, has_int-cons m j v ints fm em short)
              (or_swap (has_int ints (parse_int64 j)) (bytes_eq m j) (in_map l j));
      },
    )

nothing_yet :
    (ints : List ℤ) (j : Bytes)
    → (has_int ints (parse_int64 j) || in_map [] j) ≡ has_int ints (parse_int64 j)
unfolding in_map lookup_key
nothing_yet ints j = or_false (has_int ints (parse_int64 j))
  where
    or_false : (b : Bool) → (b || false) ≡ b
    or_false true = refl
    or_false false = refl

-- promote keeps the members, and the set is in the map encoding afterwards.
pub promote_lem :
    (s : IntSet)
    → s.is_int ≡ true
    → IsSetValue s
    → (s' : IntSet) × (promote s ≡ some s')
      × (s'.is_int ≡ false)
      × IsSetValue s'
      × (set_len s' ≡ set_len s)
      × ((j : Bytes) → IsShort j → has s' j ≡ has s j)
unfolding promote set_len
promote_lem s b w =
    let w' : Encoded true s.ints s.member s.bytes = (rw b at w) in
    let (l', b', e, done) =
      promote_ints_lem s.ints [] s.bytes w'.1 w'.0 tt (unfold total in omega (arith, w'.3))
        (λ v t here ft. unfold lookup_key in refl) in
    let s' : IntSet = record { ints = []; is_int = false; member = l'; bytes = b' } in
    (
      s',
      rw e refl,
      refl,
      (done.unique, done.charged),
      rw b (omega (arith, done.all)),
      λ j short. done.view j short ∙ nothing_yet s.ints j ∙ rw b refl,
    )
