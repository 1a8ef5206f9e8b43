-- ===== src/Types/Set/Ints.antt =====
-- The sorted slice as a set of integers: which numbers it holds after an insertion at a gap and after a cut.
use ultima.Base.{
  ℕ, zero, suc, ◌≤◌, ◌≡◌, refl, sym, inl, inr, Bool, true, false, ◌||◌, ◌&&◌, not, some, List, [],
  ◌∷◌, length, All, get_elem?, Bool-cases, arith,
}
use ultima.Base.Int.{ℤ, ◌<ℤ◌, eqb_ℤ, eq_of_parts}
use ultima.Types.{insert_at, remove_at}
use ultima.Types.Slices.{All-remove_at}
use ultima.Types.Set.Find.{Ascending, IsGap, Located}

unfoldable pub in_ints : List ℤ → ℤ → Bool
in_ints [] v = false
in_ints (x ∷ xs) v = eqb_ℤ x v || in_ints xs v

tail-IsGap : (x : ℤ) (xs : List ℤ) (v : ℤ) (i : ℕ) → IsGap (x ∷ xs) v (suc i) → IsGap xs v i
tail-IsGap x xs v i g = record {
  inside = omega (arith, g.inside);
  smaller = λ j y p q. g.smaller (suc j) y p (omega arith);
  larger = λ j y p q. g.larger (suc j) y p (omega arith);
}

tail_front : (x : ℤ) (xs : List ℤ) (v : ℤ) → IsGap (x ∷ xs) v 0 → IsGap xs v 0
tail_front x xs v g = record {
  inside = omega arith;
  smaller = λ j y p q. absurd (omega arith);
  larger = λ j y p q. g.larger (suc j) y p (omega arith);
}

pub located_true :
    (ints : List ℤ) (v : ℤ) (i : ℕ) → get_elem? ints i ≡ some v → in_ints ints v ≡ true
unfolding in_ints
located_true [] v i h = cc h
located_true (x ∷ xs) v zero h = let e : x ≡ v = ground arith in rw e (ground arith)
located_true (x ∷ xs) v (suc i) h = let rest = located_true xs v i h in ground arith

pub located_false : (ints : List ℤ) (v : ℤ) (i : ℕ) → IsGap ints v i → in_ints ints v ≡ false
unfolding in_ints
located_false [] v i g = refl
located_false (x ∷ xs) v zero g =
    let rest = located_false xs v zero (tail_front x xs v g) in
    let more = g.larger 0 x refl (omega arith) in ground arith
located_false (x ∷ xs) v (suc i) g =
    let rest = located_false xs v i (tail-IsGap x xs v i g) in
    let less = g.smaller 0 x refl (omega arith) in ground arith

pub found-eq-in_ints :
    (ints : List ℤ) (v : ℤ) (r : ℕ × Bool) → Located ints v r → r.1 ≡ in_ints ints v
found-eq-in_ints ints v (i, true) h = sym (located_true ints v i h)
found-eq-in_ints ints v (i, false) h = sym (located_false ints v i h)

pub in_ints-insert :
    (ints : List ℤ) (v w : ℤ) (i : ℕ)
    → i ≤ length ints
    → in_ints (insert_at i v ints) w ≡ (eqb_ℤ v w || in_ints ints w)
unfolding in_ints insert_at
in_ints-insert ints v w zero h = refl
in_ints-insert [] v w (suc i) h = refl
in_ints-insert (x ∷ xs) v w (suc i) h =
    let rest = in_ints-insert xs v w i (omega arith) in ground arith

pub All-insert :
    (P : ℤ → Type 0) (ints : List ℤ) (v : ℤ) (i : ℕ) → P v → All P ints → All P (insert_at i v ints)
unfolding insert_at
All-insert P ints v zero p a = (p, a)
All-insert P [] v (suc i) p a = (p, a)
All-insert P (x ∷ xs) v (suc i) p a = (a.0, All-insert P xs v i p a.1)

front_All : (ints : List ℤ) (v : ℤ) → IsGap ints v 0 → All (λ y. v <ℤ y) ints
front_All [] v g = tt
front_All (x ∷ xs) v g = (g.larger 0 x refl (omega arith), front_All xs v (tail_front x xs v g))

pub Ascending-insert :
    (ints : List ℤ) (v : ℤ) (i : ℕ)
    → IsGap ints v i
    → Ascending ints
    → Ascending (insert_at i v ints)
unfolding insert_at
Ascending-insert ints v zero g a = (front_All ints v g, a)
Ascending-insert [] v (suc i) g a = (tt, tt)
Ascending-insert (x ∷ xs) v (suc i) g a = (
  All-insert (λ y. x <ℤ y) xs v i (g.smaller 0 x refl (omega arith)) a.0,
  Ascending-insert xs v i (tail-IsGap x xs v i g) a.1,
)

pub above_absent : (xs : List ℤ) (v : ℤ) → All (λ y. v <ℤ y) xs → in_ints xs v ≡ false
unfolding in_ints
above_absent [] v a = refl
above_absent (x ∷ xs) v a = let rest = above_absent xs v a.1 in let lt = a.0 in ground arith

below_differs :
    (x : ℤ) (xs : List ℤ) (v : ℤ) (i : ℕ)
    → All (λ y. x <ℤ y) xs
    → get_elem? xs i ≡ some v
    → eqb_ℤ x v ≡ false
below_differs x [] v i a h = cc h
below_differs x (y ∷ xs) v zero a h =
    let e : y ≡ v = ground arith in let lt = a.0 in rw (← e) (ground arith)
below_differs x (y ∷ xs) v (suc i) a h = below_differs x xs v i a.1 h

pub in_ints-remove :
    (ints : List ℤ) (v w : ℤ) (i : ℕ)
    → Ascending ints
    → get_elem? ints i ≡ some v
    → in_ints (remove_at i ints) w ≡ (not (eqb_ℤ v w) && in_ints ints w)
unfolding in_ints remove_at
in_ints-remove [] v w i a h = cc h
in_ints-remove (x ∷ xs) v w zero a h =
    let e : x ≡ v = ground arith in
    elim (Bool-cases (eqb_ℤ x w)) [
      | inl p ↦
          let same : x ≡ w = eq_of_parts x w (ground arith) in
          rw (← e, p) (rw (← same) (above_absent xs x a.0))
      | inr p ↦ rw (← e, p) refl
    ]
in_ints-remove (x ∷ xs) v w (suc i) a h =
    let rest = in_ints-remove xs v w i a.1 h in
    let other = below_differs x xs v i a.0 h in ground arith

pub Ascending-remove : (ints : List ℤ) (i : ℕ) → Ascending ints → Ascending (remove_at i ints)
unfolding remove_at
Ascending-remove [] i a = tt
Ascending-remove (x ∷ xs) zero a = a.1
Ascending-remove (x ∷ xs) (suc i) a =
    (All-remove_at (λ y. x <ℤ y) xs i a.0, Ascending-remove xs i a.1)
