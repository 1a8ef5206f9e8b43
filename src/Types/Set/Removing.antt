-- ===== src/Types/Set/Removing.antt =====
-- Remove, in both encodings.
use ultima.Base.{
  ℕ, ◌+◌, ◌≡◌, refl, sym, ◌∙◌, inl, inr, Bool, true, false, ◌&&◌, not, some, List, [], ◌∷◌, Bytes,
  bytes_eq, bytes_eq_iff, length, Bool-cases, Option-cases, arith, if◌then◌else◌, get_elem?,
}
use ultima.Base.Int.{ℤ, IsInt64, sub64}
use ultima.Base.Maps.{
  lookup_key, remove_key, Unique, lookup-remove, Unique-remove, length-remove, present,
  remove_absent,
}
use ultima.Numbers.{parse_int64}
use ultima.Types.{remove_at}
use ultima.Types.Slices.{All-remove_at, length-remove_at_inside}
use ultima.Types.Set.{MemberMap, IntSet, in_map, find, set_remove, remove_int}
use ultima.Types.Set.Find.{Ascending, find-Located, Located}
use ultima.Types.Set.Ints.{in_ints, found-eq-in_ints, in_ints-remove, Ascending-remove}
use ultima.Types.Set.Encoding.{total, has_int, IsShort, text_eq, format-short}
use ultima.Types.Set.Forms.{
  Stands, MapForm, IntForm, map_form, of_map, int_form, of_ints, not_in_map, if-true, if-false,
}

in_map-remove :
    (l : MemberMap) (m j : Bytes) → in_map (remove_key l m) j ≡ (not (bytes_eq m j) && in_map l j)
unfolding in_map
in_map-remove l m j = ground (arith, lookup-remove l m j)

-- Removing a text that is not there.
keeps_without :
    (s : IntSet) (l : MemberMap) (m : Bytes)
    → in_map l m ≡ false
    → Stands s l
    → Stands s (remove_key l m)
keeps_without s l m p st = rw (remove_absent l m (not_in_map l m p)) st

length-remove_present :
    (l : MemberMap) (m : Bytes)
    → in_map l m ≡ true
    → Unique l
    → length (remove_key l m) + 1 ≡ length l
unfolding present in_map
length-remove_present l m p u = elim (Option-cases (lookup_key l m)) [
  | inl e ↦ absurd (ground arith)
  | inr (v, e) ↦ let n = length-remove l m u in omega (arith, (rw e at n))
]

total-remove :
    (l : MemberMap) (m : Bytes)
    → in_map l m ≡ true
    → Unique l
    → total (remove_key l m) + length m ≡ total l
unfolding total in_map lookup_key remove_key
total-remove [] m p u = absurd (ground arith)
total-remove ((k, v) ∷ l) m p u =
    ground (arith, total-remove l m, remove_absent l k u.0, bytes_eq_iff m k, bytes_eq_iff k m)

set_remove-map :
    (s : IntSet) (m : Bytes)
    → s.is_int ≡ false
    → set_remove s m
      ≡ some (
          if in_map s.member m
          then (record s { member = remove_key s.member m; bytes = sub64 s.bytes (length m) }, true)
          else (s, false))
unfolding set_remove
set_remove-map s m b = if-false s.is_int _ _ b

remove_map_lem :
    (s : IntSet) (l : MemberMap) (m : Bytes)
    → s.is_int ≡ false
    → IsShort m
    → Stands s l
    → (s' : IntSet) × (set_remove s m ≡ some (s', in_map l m)) × Stands s' (remove_key l m)
remove_map_lem s l m b short st =
    let f = map_form s l b st in
    let same = f.view m short in
    elim (Bool-cases (in_map l m)) [
      | inr p ↦ (s, set_remove-map s m b ∙ rw (same, p) refl, keeps_without s l m p st)
      | inl p ↦
          let s' : IntSet = record s {
            member = remove_key s.member m;
            bytes = sub64 s.bytes (length m);
          } in
          let here : in_map s.member m ≡ true = same ∙ p in
          let g : MapForm s' (remove_key l m) = record {
            encoded = (
              Unique-remove s.member m f.encoded.0,
              omega (arith, total-remove s.member m here f.encoded.0, f.encoded.1),
            );
            unique = Unique-remove l m f.unique;
            size = omega (
              arith,
              length-remove_present s.member m here f.encoded.0,
              f.size,
              length-remove_present l m p f.unique,
            );
            view = λ j sj. rw (in_map-remove s.member m j, in_map-remove l m j, f.view j sj) refl;
          } in
          (s', set_remove-map s m b ∙ rw (same, p) refl, of_map s' (remove_key l m) b g)
    ]

has_int-remove :
    (m j : Bytes) (v : ℤ) (ints : List ℤ) (i : ℕ)
    → Ascending ints
    → get_elem? ints i ≡ some v
    → IsShort m
    → parse_int64 m ≡ some v
    → IsShort j
    → has_int (remove_at i ints) (parse_int64 j)
      ≡ (not (bytes_eq m j) && has_int ints (parse_int64 j))
has_int-remove m j v ints i asc there short em sj = elim (Option-cases (parse_int64 j)) [
  | inr (w, ej) ↦ rw ej (
      in_ints-remove ints v w i asc there
      ∙ rw (text_eq m j v w (format-short m v short em).0 em sj ej) refl)
  | inl ej ↦ rw ej (sym (and_false (not (bytes_eq m j))))
]
  where
    and_false : (b : Bool) → (b && false) ≡ false
    and_false true = refl
    and_false false = refl

remove_int_lem :
    (s : IntSet) (l : MemberMap) (m : Bytes) (v : ℤ)
    → s.is_int ≡ true
    → IsShort m
    → parse_int64 m ≡ some v
    → Stands s l
    → (s' : IntSet) × (remove_int s v ≡ some (s', in_map l m)) × Stands s' (remove_key l m)
unfolding remove_int
remove_int_lem s l m v b short em st =
    let f = int_form s l b st in
    let (r, found, loc) = find-Located s.ints v f.encoded.0 in
    let viewed = f.view m short in
    let held : in_ints s.ints v ≡ in_map l m = (rw em at viewed) in
    go f r found loc (found-eq-in_ints s.ints v r loc ∙ held)
  where
    go :
        IntForm s l
        → (r : ℕ × Bool) → find s.ints v ≡ some r
        → Located s.ints v r
        → r.1 ≡ in_map l m
        → (s' : IntSet) × (remove_int s v ≡ some (s', in_map l m)) × Stands s' (remove_key l m)
    go f (i, false) found gap held =
        (s, rw (remove_int, found, ← held) refl, keeps_without s l m (sym held) st)
    go f (i, true) found there held =
        let s' : IntSet = record s { ints = remove_at i s.ints } in
        let n = length-remove_at_inside s.ints i v there in
        let g : IntForm s' (remove_key l m) = record {
          encoded = (
            Ascending-remove s.ints i f.encoded.0,
            All-remove_at IsInt64 s.ints i f.encoded.1,
            omega (arith, n, f.encoded.2),
            f.encoded.3,
          );
          unique = Unique-remove l m f.unique;
          size = omega (arith, n, f.size, length-remove_present l m (sym held) f.unique);
          view = λ j sj.
              has_int-remove m j v s.ints i f.encoded.0 there short em sj
              ∙ rw (f.view j sj) (sym (in_map-remove l m j));
        } in
        (s', rw (remove_int, found, ← held) refl, of_ints s' (remove_key l m) b g)

pub set_remove_lem :
    (s : IntSet) (l : MemberMap) (m : Bytes)
    → IsShort m
    → Stands s l
    → (s' : IntSet) × (set_remove s m ≡ some (s', in_map l m)) × Stands s' (remove_key l m)
unfolding set_remove
set_remove_lem s l m short st = elim (Bool-cases s.is_int) [
  | inr b ↦ remove_map_lem s l m b short st
  | inl b ↦ elim (Option-cases (parse_int64 m)) [
    | inr (v, e) ↦
        let (s', run, st') = remove_int_lem s l m v b short e st in
        (s', if-true s.is_int _ _ b ∙ rw e run, st')
    | inl e ↦
        let f = int_form s l b st in
        let viewed = f.view m short in
        let absent : false ≡ in_map l m = (rw e at viewed) in
        (s, if-true s.is_int _ _ b ∙ rw (e, ← absent) refl, keeps_without s l m (sym absent) st)
  ]
]
