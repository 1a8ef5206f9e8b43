-- ===== src/Types/Set/Adding.antt =====
-- Add, in both encodings and through promote.
use ultima.Base.{
  ℕ, ◌≤◌, ◌≡◌, refl, ap, sym, ◌∙◌, inl, inr, Bool, true, false, ◌||◌, not, Option, none, some, List,
  ◌∷◌, Bytes, bytes_eq, length, Bool-cases, Option-cases, arith, if◌then◌else◌, ◌>>=◌, ltb,
}
use ultima.Base.Int.{ℤ, IsInt64, add64}
use ultima.Base.Maps.{put_key, Unique-put}
use ultima.Numbers.{parse_int64}
use ultima.Types.{insert_at}
use ultima.Types.Slices.{length-insert_at}
use ultima.Types.Set.{
  MemberMap, IntSet, in_map, find, promote, set_add, add_member, add_promoted, add_int,
}
use ultima.Types.Set.Find.{find-Located, Located}
use ultima.Types.Set.Ints.{in_ints, found-eq-in_ints, in_ints-insert, Ascending-insert, All-insert}
use ultima.Types.Set.Encoding.{has_int, has_int-cons, IsShort, format-short}
use ultima.Types.Set.Promote.{promote_lem, in_map-put, total-put, length-put_new}
use ultima.Types.Set.Forms.{
  Stands, MapForm, IntForm, map_form, of_map, int_form, of_ints, not_in_map, if-true, if-false,
}

abbrev pub with_member : MemberMap → Bytes → MemberMap
with_member l m = if in_map l m then l else put_key l m tt

-- Adding a text that is there already.
keeps :
    (s : IntSet) (l : MemberMap) (m : Bytes)
    → in_map l m ≡ true
    → Stands s l
    → Stands s (with_member l m)
keeps s l m p st = rw p st

add_member_lem :
    (s : IntSet) (l : MemberMap) (m : Bytes)
    → s.is_int ≡ false
    → IsShort m
    → Stands s l
    → (s' : IntSet) × (add_member s m ≡ (s', not (in_map l m))) × Stands s' (with_member l m)
unfolding add_member
add_member_lem s l m b short st =
    let f = map_form s l b st in
    let same = f.view m short in
    elim (Bool-cases (in_map l m)) [
      | inl p ↦ (s, rw (same, p) refl, keeps s l m p st)
      | inr p ↦
          let absent = not_in_map s.member m (same ∙ p) in
          let s' : IntSet = record s {
            member = put_key s.member m tt;
            bytes = add64 s.bytes (length m);
          } in
          let g : MapForm s' (put_key l m tt) = record {
            encoded = (
              Unique-put s.member m tt f.encoded.0,
              omega (arith, total-put s.member m absent, f.encoded.1),
            );
            unique = Unique-put l m tt f.unique;
            size = omega (
              arith,
              length-put_new s.member m absent f.encoded.0,
              f.size,
              length-put_new l m (not_in_map l m p) f.unique,
            );
            view = λ j sj. rw (in_map-put s.member m j, in_map-put l m j, f.view j sj) refl;
          } in
          (s', rw (same, p) refl, rw p (of_map s' (put_key l m tt) b g))
    ]

module _ (s : IntSet) (m : Bytes) where
  add_promoted-map : s.is_int ≡ false → add_promoted s m ≡ some (add_member s m)
  unfolding add_promoted
  add_promoted-map b =
      ap (λ o. o >>= (λ s'. some (add_member s' m))) (if-false s.is_int (promote s) (some s) b)

  add_promoted-int :
      (s₁ : IntSet)
      → s.is_int ≡ true
      → promote s ≡ some s₁
      → add_promoted s m ≡ some (add_member s₁ m)
  unfolding add_promoted
  add_promoted-int s₁ b e =
      ap (λ o. o >>= (λ s'. some (add_member s' m))) (if-true s.is_int (promote s) (some s) b ∙ e)

add_promoted_lem :
    (s : IntSet) (l : MemberMap) (m : Bytes)
    → IsShort m
    → Stands s l
    → (s' : IntSet) × (add_promoted s m ≡ some (s', not (in_map l m))) × Stands s' (with_member l m)
add_promoted_lem s l m short st = elim (Bool-cases s.is_int) [
  | inr b ↦
      let (s', e, st') = add_member_lem s l m b short st in
      (s', add_promoted-map s m b ∙ ap some e, st')
  | inl b ↦
      let (s₁, e₁, b₁, valid₁, size₁, view₁) = promote_lem s b st.valid in
      let st₁ : Stands s₁ l = record {
        valid = valid₁;
        unique = st.unique;
        size = size₁ ∙ st.size;
        view = λ j sj. view₁ j sj ∙ st.view j sj;
      } in
      let (s', e, st') = add_member_lem s₁ l m b₁ short st₁ in
      (s', add_promoted-int s m s₁ b e₁ ∙ ap some e, st')
]

has_int-insert :
    (m j : Bytes) (v : ℤ) (ints : List ℤ) (i : ℕ)
    → i ≤ length ints
    → IsShort m
    → parse_int64 m ≡ some v
    → IsShort j
    → has_int (insert_at i v ints) (parse_int64 j) ≡ (bytes_eq m j || has_int ints (parse_int64 j))
unfolding in_ints
has_int-insert m j v ints i inside short em sj =
    same_view (parse_int64 j) ∙ has_int-cons m j v ints (format-short m v short em).0 em sj
  where
    same_view : (o : Option ℤ) → has_int (insert_at i v ints) o ≡ has_int (v ∷ ints) o
    same_view none = refl
    same_view (some w) = in_ints-insert ints v w i inside

add_int_lem :
    (s : IntSet) (l : MemberMap) (m : Bytes) (v : ℤ)
    → s.is_int ≡ true
    → IsShort m
    → parse_int64 m ≡ some v
    → Stands s l
    → (s' : IntSet) × (add_int s m v ≡ some (s', not (in_map l m))) × Stands s' (with_member l m)
unfolding add_int
add_int_lem s l m v b short em st =
    let f = int_form s l b st in
    let (r, found, loc) = find-Located s.ints v f.encoded.0 in
    let viewed = f.view m short in
    let held : in_ints s.ints v ≡ in_map l m = (rw em at viewed) in
    go r found loc (found-eq-in_ints s.ints v r loc ∙ held)
  where
    go :
        (r : ℕ × Bool)
        → find s.ints v ≡ some r
        → Located s.ints v r
        → r.1 ≡ in_map l m
        → (s' : IntSet) × (add_int s m v ≡ some (s', not (in_map l m)))
          × Stands s' (with_member l m)
    go (i, true) found loc held = (s, rw (add_int, found, ← held) refl, keeps s l m (sym held) st)
    go (i, false) found gap held = elim (Bool-cases (ltb (length s.ints) 512)) [
      | inr full ↦
          let (s', e, st') = add_promoted_lem s l m short st in
          (s', rw (add_int, found, full) e, st')
      | inl room ↦
          let f = int_form s l b st in
          let s' : IntSet = record s { ints = insert_at i v s.ints } in
          let n = length-insert_at s.ints i v gap.inside in
          let g : IntForm s' (put_key l m tt) = record {
            encoded = (
              Ascending-insert s.ints v i gap f.encoded.0,
              All-insert IsInt64 s.ints v i (format-short m v short em).1 f.encoded.1,
              ground arith,
              f.encoded.3,
            );
            unique = Unique-put l m tt f.unique;
            size =
                omega (arith, n, f.size, length-put_new l m (not_in_map l m (sym held)) f.unique);
            view = λ j sj.
                has_int-insert m j v s.ints i gap.inside short em sj
                ∙ rw (f.view j sj) (sym (in_map-put l m j));
          } in
          (
            s',
            rw (add_int, found, room, ← held) refl,
            rw (sym held) (of_ints s' (put_key l m tt) b g),
          )
    ]

pub set_add_lem :
    (s : IntSet) (l : MemberMap) (m : Bytes)
    → IsShort m
    → Stands s l
    → (s' : IntSet) × (set_add s m ≡ some (s', not (in_map l m))) × Stands s' (with_member l m)
unfolding set_add
set_add_lem s l m short st = elim (Option-cases (parse_int64 m)) [
  | inl e ↦ let (s', run, st') = add_promoted_lem s l m short st in (s', rw (set_add, e) run, st')
  | inr (v, e) ↦ elim (Bool-cases s.is_int) [
    | inl b ↦
        let (s', run, st') = add_int_lem s l m v b short e st in
        (s', rw (set_add, e) (if-true s.is_int _ _ b ∙ run), st')
    | inr b ↦
        let (s', run, st') = add_promoted_lem s l m short st in
        (s', rw (set_add, e) (if-false s.is_int _ _ b ∙ run), st')
  ]
]
