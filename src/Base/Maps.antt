-- ===== src/Base/Maps.antt =====
-- Go maps keyed by strings: association lists without a repeated key.
use Prim.Native.Nat.{ℕ, ◌+◌}
use mathlib.Core.Path.{◌≡◌, refl, sym, ap, ◌∙◌}
use mathlib.Core.Logic.{inl, inr}
use mathlib.Core.Bool.{Bool, false, ◌||◌}
use mathlib.Core.List.{List, [], ◌∷◌}
use mathlib.Core.Option.{Option, none, some}
use native.Mathlib.Omega.{arith}
use ultima.Base.Tests.{if◌then◌else◌, Bool-cases, true_ne_false}
use ultima.Base.Lists.{Bytes, bytes_eq, bytes_eq_sound, bytes_eq_refl, bytes_eq_iff, length}

pub bytes_eq_flip : (a b : Bytes) → bytes_eq a b ≡ false → bytes_eq b a ≡ false
bytes_eq_flip a b h = elim (Bool-cases (bytes_eq b a)) [
  | inl p ↦
      absurd
        (true_ne_false (sym (bytes_eq_refl a) ∙ sym (ap (bytes_eq a) (bytes_eq_sound b a p)) ∙ h))
  | inr p ↦ p
]

pub bytes_eq_comm : (a b : Bytes) → bytes_eq a b ≡ bytes_eq b a
bytes_eq_comm a b = elim (Bool-cases (bytes_eq a b)) [
  | inl p ↦ rw (p, bytes_eq_sound a b p) (sym (bytes_eq_refl b))
  | inr p ↦ rw p (sym (bytes_eq_flip a b p))
]

abbrev pub is_one_of : Bytes → List Bytes → Bool
is_one_of b [] = false
is_one_of b (s ∷ ss) = bytes_eq b s || is_one_of b ss

module _ {V : Type 0} where
  unfoldable pub lookup_key : List (Bytes × V) → Bytes → Option V
  lookup_key [] k = none
  lookup_key ((j, v) ∷ l) k = if bytes_eq j k then some v else lookup_key l k

  unfoldable pub remove_key : List (Bytes × V) → Bytes → List (Bytes × V)
  remove_key [] k = []
  remove_key ((j, v) ∷ l) k =
      let rest = remove_key l k in if bytes_eq k j then rest else (j, v) ∷ rest

  abbrev pub Unique : List (Bytes × V) → Type 0
  Unique [] = Unit
  Unique ((k, v) ∷ l) = (lookup_key l k ≡ none) × Unique l

  pub lookup-empty : (j : Bytes) → lookup_key [] j ≡ none
  unfolding lookup_key
  lookup-empty j = refl

  pub lookup-remove :
      (l : List (Bytes × V)) (k j : Bytes)
      → lookup_key (remove_key l k) j ≡ (if bytes_eq k j then none else lookup_key l j)
  unfolding lookup_key remove_key
  lookup-remove [] k j = elim (Bool-cases (bytes_eq k j)) [ inl p ↦ rw p | inr p ↦ rw p ]
  lookup-remove ((i, v) ∷ l) k j = elim (Bool-cases (bytes_eq k i)) [
    | inl p ↦ rw p (lookup-remove l k j ∙ drop_head (bytes_eq_sound k i p))
    | inr p ↦ elim (Bool-cases (bytes_eq i j)) [
      | inl q ↦ rw (p, q) (rw (← bytes_eq_sound i j q, p))
      | inr q ↦ rw (p, q) (lookup-remove l k j)
    ]
  ]
    where
      drop_head :
          k ≡ i
          → (if bytes_eq k j then none else lookup_key l j)
            ≡ (if bytes_eq k j then none else (if bytes_eq i j then some v else lookup_key l j))
      drop_head e = elim (Bool-cases (bytes_eq k j)) [ inl q ↦ rw q | inr q ↦ rw (← e) (rw q) ]

  pub Unique-remove : (l : List (Bytes × V)) (k : Bytes) → Unique l → Unique (remove_key l k)
  unfolding remove_key
  Unique-remove [] k u = tt
  Unique-remove ((j, v) ∷ l) k u = elim (Bool-cases (bytes_eq k j)) [
    | inl p ↦ rw p (Unique-remove l k u.1)
    | inr p ↦ rw p ((lookup-remove l k j ∙ rw p u.0), Unique-remove l k u.1)
  ]

  -- m[k] = v
  unfoldable pub put_key : List (Bytes × V) → Bytes → V → List (Bytes × V)
  unfolding remove_key
  put_key l k v = (k, v) ∷ remove_key l k

  pub lookup-put :
      (l : List (Bytes × V)) (k j : Bytes) (v : V)
      → lookup_key (put_key l k v) j ≡ (if bytes_eq k j then some v else lookup_key l j)
  unfolding put_key lookup_key
  lookup-put l k j v = ground (arith, lookup-remove l k j)

  pub Unique-put : (l : List (Bytes × V)) (k : Bytes) (v : V) → Unique l → Unique (put_key l k v)
  unfolding put_key
  Unique-put l k v u = (lookup-remove l k k ∙ rw (bytes_eq_refl k), Unique-remove l k u)

  unfoldable pub present : Option V → ℕ
  present none = 0
  present (some v) = 1

  pub length-remove :
      (l : List (Bytes × V)) (k : Bytes)
      → Unique l
      → length (remove_key l k) + present (lookup_key l k) ≡ length l
  unfolding remove_key lookup_key present
  length-remove [] k u = refl
  length-remove ((j, v) ∷ l) k u =
      ground (arith, length-remove l k u.1, bytes_eq_iff k j, bytes_eq_iff j k)

  pub length-put :
      (l : List (Bytes × V)) (k : Bytes) (v : V)
      → Unique l
      → length (put_key l k v) + present (lookup_key l k) ≡ length l + 1
  unfolding put_key
  length-put l k v u = omega (arith, length-remove l k u)

  pub remove_absent :
      (l : List (Bytes × V)) (k : Bytes) → lookup_key l k ≡ none → remove_key l k ≡ l
  unfolding remove_key lookup_key
  remove_absent [] k h = refl
  remove_absent ((j, v) ∷ l) k h =
      ground (arith, remove_absent l k, bytes_eq_iff k j, bytes_eq_iff j k)
