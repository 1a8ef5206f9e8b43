-- ===== src/Samples/Heaps.antt =====
-- A heap of expiry items as a list from which the first least item is taken.
use ultima.Base.{
  suc, ◌≡◌, refl, sym, ap, ◌⊎◌, inl, inr, true, false, Option, none, some, List, [], ◌∷◌, length,
  if◌then◌else◌, Bool-cases, arith,
}
use ultima.Base.Int.{leb_ℤ, ◌≤ℤ◌}
use ultima.Platform.{ExpItem, Elem}

unfoldable pub take_least : ExpItem → List ExpItem → ExpItem × List ExpItem
take_least x [] = (x, [])
take_least x (y ∷ ys) =
    let (m, rest) = take_least y ys in if leb_ℤ x.at m.at then (x, y ∷ ys) else (m, x ∷ rest)

unfoldable pub least : List ExpItem → Option ExpItem
unfolding take_least
least [] = none
least (x ∷ xs) = some (take_least x xs).0

unfoldable pub without_least : List ExpItem → List ExpItem
unfolding take_least
without_least [] = []
without_least (x ∷ xs) = (take_least x xs).1

take_least-le :
    (x y : ExpItem) (xs : List ExpItem) → Elem y (x ∷ xs) → (take_least x xs).0.at ≤ℤ y.at
unfolding take_least
take_least-le x y [] (inl e) = rw e (omega arith)
take_least-le x y [] (inr e) = absurd e
take_least-le x y (z ∷ zs) h =
    let below = take_least-le z y zs in
    elim (Bool-cases (leb_ℤ x.at (take_least z zs).0.at)) [
      | inl b ↦ rw b (head_least below b h)
      | inr b ↦ rw b (tail_least below b h)
    ]
  where
    head_least :
        (Elem y (z ∷ zs) → (take_least z zs).0.at ≤ℤ y.at)
        → leb_ℤ x.at (take_least z zs).0.at ≡ true
        → Elem y (x ∷ z ∷ zs)
        → x.at ≤ℤ y.at
    head_least below b (inl e) = rw e (omega arith)
    head_least below b (inr e) = ground (arith, b, below e)

    tail_least :
        (Elem y (z ∷ zs) → (take_least z zs).0.at ≤ℤ y.at)
        → leb_ℤ x.at (take_least z zs).0.at ≡ false
        → Elem y (x ∷ z ∷ zs)
        → (take_least z zs).0.at ≤ℤ y.at
    tail_least below b (inl e) = rw e (ground (arith, b))
    tail_least below b (inr e) = below e

take_least-Elem :
    (x y : ExpItem) (xs : List ExpItem)
    → Elem y (x ∷ xs)
    → (y ≡ (take_least x xs).0) ⊎ Elem y (take_least x xs).1
unfolding take_least
take_least-Elem x y [] (inl e) = inl e
take_least-Elem x y [] (inr e) = absurd e
take_least-Elem x y (z ∷ zs) h =
    let taken = take_least-Elem z y zs in
    elim (Bool-cases (leb_ℤ x.at (take_least z zs).0.at)) [
      | inl b ↦ rw b h
      | inr b ↦ rw b (split taken h)
    ]
  where
    tail :
        (y ≡ (take_least z zs).0) ⊎ Elem y (take_least z zs).1
        → (y ≡ (take_least z zs).0) ⊎ Elem y (x ∷ (take_least z zs).1)
    tail (inl e) = inl e
    tail (inr e) = inr (inr e)

    split :
        (Elem y (z ∷ zs) → (y ≡ (take_least z zs).0) ⊎ Elem y (take_least z zs).1)
        → Elem y (x ∷ z ∷ zs)
        → (y ≡ (take_least z zs).0) ⊎ Elem y (x ∷ (take_least z zs).1)
    split taken (inl e) = inr (inl e)
    split taken (inr e) = tail (taken e)

some_injective : {a b : ExpItem} → some a ≡ some b → a ≡ b
some_injective {a} {b} e = ap (or_else a) e
  where
    or_else : ExpItem → Option ExpItem → ExpItem
    or_else d none = d
    or_else d (some x) = x

take_least-length :
    (x : ExpItem) (xs : List ExpItem) → suc (length (take_least x xs).1) ≡ suc (length xs)
unfolding take_least
take_least-length x [] = refl
take_least-length x (z ∷ zs) = elim (Bool-cases (leb_ℤ x.at (take_least z zs).0.at)) [
  | inl b ↦ rw b
  | inr b ↦ rw b (ap suc (take_least-length z zs))
]

pub least-none : (h : List ExpItem) → least h ≡ none → h ≡ []
unfolding least
least-none [] e = refl
least-none (x ∷ xs) e = ground (arith, e)

pub least-le : (h : List ExpItem) (x y : ExpItem) → least h ≡ some x → Elem y h → x.at ≤ℤ y.at
unfolding least
least-le [] x y e m = absurd m
least-le (z ∷ zs) x y e m = rw (← some_injective e) (take_least-le z y zs m)

pub least-Elem :
    (h : List ExpItem) (x y : ExpItem)
    → least h ≡ some x
    → Elem y h
    → (y ≡ x) ⊎ Elem y (without_least h)
unfolding least without_least
least-Elem [] x y e m = absurd m
least-Elem (z ∷ zs) x y e m = rw (← some_injective e) (take_least-Elem z y zs m)

pub length-without_least :
    (h : List ExpItem) (x : ExpItem) → least h ≡ some x → length h ≡ suc (length (without_least h))
unfolding least without_least
length-without_least [] x e = ground (arith, e)
length-without_least (z ∷ zs) x e = sym (take_least-length z zs)
