-- ===== src/Types/Set/Find.antt =====
-- The binary search of the integer set: it ends, stays inside the slice, and answers where the number
-- stands or belongs.
use ultima.Base.{
  ℕ, zero, suc, ◌+◌, ◌-◌, ◌/◌, ◌≤◌, ◌<◌, ◌≡◌, refl, ◌∙◌, inl, inr, Bool, true, false, some, List,
  [], ◌∷◌, length, All, get_elem?, ltb, Bool-cases, arith, ltb→lt,
}
use ultima.Base.Int.{ℤ, ◌<ℤ◌, ◌≤ℤ◌, ltb_ℤ, eq_of_parts}
use ultima.Types.Set.{find_from, find}

-- Strictly ascending.
abbrev pub Ascending : List ℤ → Type 0
Ascending [] = Unit
Ascending (x ∷ xs) = All (λ y. x <ℤ y) xs × Ascending xs

-- The elements before i are smaller, those from i on larger.
pub record IsGap (ints : List ℤ) (v : ℤ) (i : ℕ) : Type 0 where
  pub inside : i ≤ length ints
  pub smaller : (j : ℕ) (x : ℤ) → get_elem? ints j ≡ some x → j < i → x <ℤ v
  pub larger : (j : ℕ) (x : ℤ) → get_elem? ints j ≡ some x → i ≤ j → v <ℤ x

-- What find answers.
abbrev pub Located : List ℤ → ℤ → ℕ × Bool → Type 0
Located ints v (i, true) = get_elem? ints i ≡ some v
Located ints v (i, false) = IsGap ints v i

get_inside {ℓ} :
    {A : Type ℓ} (xs : List A) (i : ℕ) → i < length xs → (x : A) × (get_elem? xs i ≡ some x)
get_inside [] i h = absurd (omega arith)
get_inside (x ∷ xs) zero h = (x, refl)
get_inside (x ∷ xs) (suc i) h = get_inside xs i (omega arith)

All_at : (P : ℤ → Type 0) (xs : List ℤ) (i : ℕ) (x : ℤ) → All P xs → get_elem? xs i ≡ some x → P x
All_at P [] i x a h = cc h
All_at P (y ∷ xs) zero x a h = let e : y ≡ x = ground arith in rw (← e) a.0
All_at P (y ∷ xs) (suc i) x a h = All_at P xs i x a.1 h

pub ascending_at :
    (xs : List ℤ) (i j : ℕ) (x y : ℤ)
    → Ascending xs
    → get_elem? xs i ≡ some x
    → get_elem? xs j ≡ some y
    → i < j
    → x <ℤ y
ascending_at [] i j x y a p q h = cc p
ascending_at (z ∷ xs) i zero x y a p q h = absurd (omega arith)
ascending_at (z ∷ xs) zero (suc j) x y a p q h =
    let e : z ≡ x = ground arith in rw (← e) (All_at (λ w. z <ℤ w) xs j y a.0 q)
ascending_at (z ∷ xs) (suc i) (suc j) x y a p q h = ascending_at xs i j x y a.1 p q (omega arith)

ascending_le :
    (xs : List ℤ) (i j : ℕ) (x y : ℤ)
    → Ascending xs
    → get_elem? xs i ≡ some x
    → get_elem? xs j ≡ some y
    → i ≤ j
    → x ≤ℤ y
ascending_le xs i j x y a p q h = elim (Bool-cases (ltb i j)) [
  | inl lt ↦ let less = ascending_at xs i j x y a p q (ground arith) in omega (arith, less)
  | inr ge ↦
      let e : i ≡ j = ground arith in let same : x ≡ y = cc (p, q, e) in rw same (omega arith)
]

past_end {ℓ} : {A : Type ℓ} (xs : List A) (i : ℕ) (x : A) → get_elem? xs i ≡ some x → i < length xs
past_end [] i x h = cc h
past_end (y ∷ xs) zero x h = omega arith
past_end (y ∷ xs) (suc i) x h = omega (arith, past_end xs i x h)

-- A round of the loop.
module _ (fuel : ℕ) (ints : List ℤ) (v : ℤ) (lo hi : ℕ) (x : ℤ) where
  module _ (go : ltb lo hi ≡ true) (here : get_elem? ints ((lo + hi) / 2) ≡ some x) where
    find_from-right :
        ltb_ℤ x v ≡ true
        → find_from (suc fuel) ints v lo hi ≡ find_from fuel ints v ((lo + hi) / 2 + 1) hi
    unfolding find_from
    find_from-right below = rw (find_from, go, here) (rw below refl)

    find_from-left :
        ltb_ℤ x v ≡ false
        → ltb_ℤ v x ≡ true
        → find_from (suc fuel) ints v lo hi ≡ find_from fuel ints v lo ((lo + hi) / 2)
    unfolding find_from
    find_from-left notbelow above = rw (find_from, go, here) (rw (notbelow, above) refl)

    find_from-here :
        ltb_ℤ x v ≡ false
        → ltb_ℤ v x ≡ false
        → find_from (suc fuel) ints v lo hi ≡ some ((lo + hi) / 2, true)
    unfolding find_from
    find_from-here notbelow notabove = rw (find_from, go, here) (rw (notbelow, notabove) refl)

find_from_lem :
    (fuel : ℕ) (ints : List ℤ) (v : ℤ) (lo hi : ℕ)
    → Ascending ints
    → lo ≤ hi
    → hi ≤ length ints
    → hi - lo < fuel
    → ((j : ℕ) (x : ℤ) → get_elem? ints j ≡ some x → j < lo → x <ℤ v)
    → ((j : ℕ) (x : ℤ) → get_elem? ints j ≡ some x → hi ≤ j → v <ℤ x)
    → (r : ℕ × Bool) × (find_from fuel ints v lo hi ≡ some r) × Located ints v r
find_from_lem zero ints v lo hi asc ord top enough less more = absurd (omega arith)
find_from_lem (suc fuel) ints v lo hi asc ord top enough less more = elim (Bool-cases (ltb lo hi)) [
  | inr stop ↦
      let same : hi ≡ lo = ground arith in
      (
        (lo, false),
        unfold find_from in rw (find_from, stop) refl,
        record {
          inside = omega arith;
          smaller = less;
          larger = λ j x p q. more j x p (omega arith);
        },
      )
  | inl go ↦
      let lt : lo < hi = ground arith in
      let (x, here) = get_inside ints ((lo + hi) / 2) (omega arith) in
      elim (Bool-cases (ltb_ℤ x v)) [
        | inl below ↦
            let (r, e, loc) =
              find_from_lem fuel ints v ((lo + hi) / 2 + 1) hi asc (omega arith) top (omega arith)
                (λ j y p q.
                  let le = ascending_le ints j ((lo + hi) / 2) y x asc p here (omega arith) in
                  omega (arith, le, ltb→lt _ _ below))
                more in
            (r, find_from-right fuel ints v lo hi x go here below ∙ e, loc)
        | inr notbelow ↦ elim (Bool-cases (ltb_ℤ v x)) [
          | inl above ↦
              let (r, e, loc) =
                find_from_lem fuel ints v lo ((lo + hi) / 2) asc (omega arith) (omega arith)
                  (omega arith) less
                  (λ j y p q.
                    let le = ascending_le ints ((lo + hi) / 2) j x y asc here p (omega arith) in
                    omega (arith, le, ltb→lt _ _ above)) in
              (r, find_from-left fuel ints v lo hi x go here notbelow above ∙ e, loc)
          | inr notabove ↦
              let e : x ≡ v = eq_of_parts x v (ground arith) in
              (
                ((lo + hi) / 2, true),
                find_from-here fuel ints v lo hi x go here notbelow notabove,
                here ∙ rw e refl,
              )
        ]
      ]
]

-- On a strictly ascending slice the binary search of the integer set ends within the fuel given,
-- without an index out of range; it answers the position of the number if it is there, and
-- otherwise the position that separates the smaller from the larger elements.
pub find-Located :
    (ints : List ℤ) (v : ℤ)
    → Ascending ints
    → (r : ℕ × Bool) × (find ints v ≡ some r) × Located ints v r
unfolding find
find-Located ints v asc =
    find_from_lem (suc (length ints)) ints v 0 (length ints) asc (omega arith) (omega arith)
      (omega arith) (λ j x p q. absurd (omega arith))
      (λ j x p q. absurd (omega (arith, past_end ints j x p)))
