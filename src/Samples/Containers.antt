-- ===== src/Samples/Containers.antt =====
-- A table as an association list without repeated keys and a heap as a list searched for its least
-- item: containers that keep what Platform asks of the ones the program uses.
use ultima.Base.{
  ℕ, ◌+◌, ◌≡◌, refl, ◌∙◌, inl, inr, none, some, List, [], ◌∷◌, Bytes, bytes_eq, bytes_eq_sound,
  bytes_eq_refl, if◌then◌else◌, Bool-cases, arith,
}
use ultima.Base.Maps.{bytes_eq_flip, lookup_key, remove_key, Unique, lookup-remove, Unique-remove}
use ultima.Platform.{sum, or_zero}

module _ {V : Type 0} where
  pub sum-remove :
      (f : Bytes × V → ℕ) (l : List (Bytes × V)) (k : Bytes)
      → Unique l
      → sum f (remove_key l k) + or_zero (λ v. f (k, v)) (lookup_key l k) ≡ sum f l
  unfolding remove_key lookup_key
  sum-remove f [] k u = refl
  sum-remove f ((j, v) ∷ l) k u = elim (Bool-cases (bytes_eq k j)) [
    | inl p ↦
        let e = bytes_eq_sound k j p in
        let rest = sum-remove f l k u.1 in
        let same : lookup_key l k ≡ none = rw e u.0 in
        rw p (rw (← e, bytes_eq_refl k) (omega (arith, (rw same at rest))))
    | inr p ↦ let rest = sum-remove f l k u.1 in rw (p, bytes_eq_flip k j p) (omega (arith, rest))
  ]

  unfoldable pub insert_key :
      (l : List (Bytes × V)) × Unique l → Bytes → V → (l : List (Bytes × V)) × Unique l
  unfolding remove_key
  insert_key (l, u) k v =
      ((k, v) ∷ remove_key l k, (lookup-remove l k k ∙ rw (bytes_eq_refl k), Unique-remove l k u))

  unfoldable pub drop_key :
      (l : List (Bytes × V)) × Unique l → Bytes → (l : List (Bytes × V)) × Unique l
  unfolding remove_key
  drop_key (l, u) k = (remove_key l k, Unique-remove l k u)

  pub search-insert_key :
      (t : (l : List (Bytes × V)) × Unique l) (k j : Bytes) (v : V)
      → lookup_key (insert_key t k v).0 j ≡ (if bytes_eq k j then some v else lookup_key t.0 j)
  unfolding insert_key lookup_key
  search-insert_key (l, u) k j v = elim (Bool-cases (bytes_eq k j)) [
    | inl p ↦ rw p
    | inr p ↦ rw p (lookup-remove l k j ∙ rw p)
  ]

  pub sum-insert_key :
      (f : Bytes × V → ℕ) (t : (l : List (Bytes × V)) × Unique l) (k : Bytes) (v : V)
      → sum f (insert_key t k v).0 + or_zero (λ x. f (k, x)) (lookup_key t.0 k)
        ≡ sum f t.0 + f (k, v)
  unfolding insert_key
  sum-insert_key f (l, u) k v = omega (arith, sum-remove f l k u)

  pub lookup-drop_key :
      (t : (l : List (Bytes × V)) × Unique l) (k j : Bytes)
      → lookup_key (drop_key t k).0 j ≡ (if bytes_eq k j then none else lookup_key t.0 j)
  unfolding drop_key
  lookup-drop_key (l, u) k j = lookup-remove l k j

  pub sum-drop_key :
      (f : Bytes × V → ℕ) (t : (l : List (Bytes × V)) × Unique l) (k : Bytes)
      → sum f (drop_key t k).0 + or_zero (λ x. f (k, x)) (lookup_key t.0 k) ≡ sum f t.0
  unfolding drop_key
  sum-drop_key f (l, u) k = sum-remove f l k u
