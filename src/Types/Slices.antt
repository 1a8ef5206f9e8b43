-- ===== src/Types/Slices.antt =====
-- What slices keep when an element is replaced, cut out or appended.
use ultima.Base.{
  ℕ, zero, suc, ◌+◌, ◌≤◌, ◌≡◌, refl, ap, some, List, [], ◌∷◌, ◌++◌, length, All, get_elem?, set,
  arith,
}
use ultima.Types.{remove_at, insert_at}

pub length-set {ℓ} : {A : Type ℓ} (xs : List A) (i : ℕ) (v : A) → length (set xs i v) ≡ length xs
length-set [] i v = refl
length-set (x ∷ xs) zero v = refl
length-set (x ∷ xs) (suc i) v = ap suc (length-set xs i v)

pub length-remove_at {ℓ} : {A : Type ℓ} (xs : List A) (i : ℕ) → length (remove_at i xs) ≤ length xs
unfolding remove_at
length-remove_at [] i = omega arith
length-remove_at (x ∷ xs) zero = omega arith
length-remove_at (x ∷ xs) (suc i) = omega (arith, length-remove_at xs i)

module _ {A : Type 0} (P : A → Type 0) where
  pub All-set :
      (xs : List A) (i : ℕ) (x v : A)
      → get_elem? xs i ≡ some x
      → (P x → P v)
      → All P xs
      → All P (set xs i v)
  All-set [] i x v h f a = tt
  All-set (y ∷ xs) zero x v h f a = let e : y ≡ x = ground arith in (f (rw (← e) a.0), a.1)
  All-set (y ∷ xs) (suc i) x v h f a = (a.0, All-set xs i x v h f a.1)

  pub All-remove_at : (xs : List A) (i : ℕ) → All P xs → All P (remove_at i xs)
  unfolding remove_at
  All-remove_at [] i a = tt
  All-remove_at (y ∷ xs) zero a = a.1
  All-remove_at (y ∷ xs) (suc i) a = (a.0, All-remove_at xs i a.1)

  pub All-append : (xs ys : List A) → All P xs → All P ys → All P (xs ++ ys)
  All-append [] ys a b = b
  All-append (x ∷ xs) ys a b = (a.0, All-append xs ys a.1 b)

pub length-insert_at {ℓ} :
    {A : Type ℓ} (xs : List A) (i : ℕ) (v : A)
    → i ≤ length xs
    → length (insert_at i v xs) ≡ length xs + 1
unfolding insert_at
length-insert_at xs zero v h = omega arith
length-insert_at [] (suc i) v h = absurd (omega arith)
length-insert_at (x ∷ xs) (suc i) v h = omega (arith, length-insert_at xs i v)

pub length-remove_at_inside {ℓ} :
    {A : Type ℓ} (xs : List A) (i : ℕ) (x : A)
    → get_elem? xs i ≡ some x
    → length (remove_at i xs) + 1 ≡ length xs
unfolding remove_at
length-remove_at_inside [] i x h = cc h
length-remove_at_inside (y ∷ xs) zero x h = omega arith
length-remove_at_inside (y ∷ xs) (suc i) x h = omega (arith, length-remove_at_inside xs i x h)
