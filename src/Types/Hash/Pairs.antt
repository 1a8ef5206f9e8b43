-- ===== src/Types/Hash/Pairs.antt =====
-- The slice of pairs as a map: reading a field through its index, and what the writes of a pair,
-- the append and the cut do to the index and to the value of each field.
use ultima.Base.{
  ℕ, zero, suc, ◌+◌, ◌≡◌, refl, ◌∙◌, inl, inr, true, false, Option, none, some, List, [], ◌∷◌, ◌++◌,
  Bytes, length, get_elem?, set, bytes_eq, bytes_eq_iff, if◌then◌else◌, Bool-cases, Option-cases,
  arith,
}
use ultima.Base.Maps.{bytes_eq_flip}
use ultima.Types.{remove_at}
use ultima.Types.Hash.{HashPair, plus, index_of}

-- The value of a field: that of its first pair.
unfoldable pub value_of : List HashPair → Bytes → Option Bytes
value_of [] k = none
value_of (p ∷ ps) k = if bytes_eq p.field k then some p.value else value_of ps k

-- No field twice.
abbrev pub Distinct : List HashPair → Type 0
Distinct [] = Unit
Distinct (p ∷ ps) = (index_of ps p.field ≡ none) × Distinct ps

pub plus-some : (n i : ℕ) (o : Option ℕ) → plus n o ≡ some i → (j : ℕ) × (o ≡ some j) × (i ≡ n + j)
plus-some n i none h = cc
plus-some n i (some j) h = (j, refl, ground arith)

pub plus-plus : (m n : ℕ) (o : Option ℕ) → plus m (plus n o) ≡ plus (m + n) o
plus-plus m n none = refl
plus-plus m n (some i) = ground arith

pub index_none : (ps : List HashPair) (k : Bytes) → index_of ps k ≡ none → value_of ps k ≡ none
unfolding index_of value_of
index_none [] k h = refl
index_none (p ∷ ps) k h = elim (Option-cases (index_of ps k)) [
  | inl e ↦ ground (arith, index_none ps k)
  | inr (i, e) ↦ ground arith
]

pub index_some :
    (ps : List HashPair) (k : Bytes) (i : ℕ)
    → index_of ps k ≡ some i
    → (p : HashPair) × (get_elem? ps i ≡ some p) × (p.field ≡ k) × (value_of ps k ≡ some p.value)
unfolding index_of value_of
index_some [] k i h = cc
index_some (p ∷ ps) k i h = elim (Bool-cases (bytes_eq p.field k)) [
  | inl e ↦ let z : i ≡ 0 = ground arith in (p, rw z refl, (bytes_eq_iff p.field k).0 e, rw e refl)
  | inr e ↦
      let (j, f, z) = plus-some 1 i (index_of ps k) (ground arith) in
      let (q, got, same, val) = index_some ps k j f in
      let z' : i ≡ suc j = omega arith in (q, rw z' got, same, rw e val)
]

module _ (q : HashPair) (ps : List HashPair) (k : Bytes) where
  pub at_none : index_of (q ∷ ps) k ≡ none → (bytes_eq q.field k ≡ false) × (index_of ps k ≡ none)
  unfolding index_of
  at_none h = elim (Option-cases (index_of ps k)) [
    | inl e ↦ (ground arith, e)
    | inr (i, e) ↦ absurd (ground arith)
  ]

  pub at_zero : index_of (q ∷ ps) k ≡ some 0 → bytes_eq q.field k ≡ true
  unfolding index_of
  at_zero h = elim (Option-cases (index_of ps k)) [
    | inl e ↦ ground arith
    | inr (i, e) ↦ ground arith
  ]

  pub at_suc :
      (i : ℕ)
      → index_of (q ∷ ps) k ≡ some (suc i)
      → (bytes_eq q.field k ≡ false) × (index_of ps k ≡ some i)
  unfolding index_of
  at_suc i h = elim (Option-cases (index_of ps k)) [
    | inl e ↦ absurd (ground arith)
    | inr (j, e) ↦ (ground arith, ground arith)
  ]

pub index_of-set :
    (ps : List HashPair) (j v : Bytes) (i : ℕ) (p : HashPair)
    → get_elem? ps i ≡ some p
    → index_of (set ps i (record p { value = v })) j ≡ index_of ps j
unfolding index_of
index_of-set [] j v i p h = refl
index_of-set (q ∷ ps) j v zero p h = ground arith
index_of-set (q ∷ ps) j v (suc i) p h = rw (index_of-set ps j v i p h) refl

module _ (k : Bytes) where
  pub value_of-set :
      (ps : List HashPair) (j v : Bytes) (i : ℕ) (p : HashPair)
      → index_of ps k ≡ some i
      → get_elem? ps i ≡ some p
      → value_of (set ps i (record p { value = v })) j
        ≡ (if bytes_eq k j then some v else value_of ps j)
  unfolding index_of value_of
  value_of-set [] j v i p h g = cc
  value_of-set (q ∷ ps) j v zero p h g =
      ground
        (arith, at_zero q ps k h, bytes_eq_iff q.field k, bytes_eq_iff q.field j, bytes_eq_iff k j)
  value_of-set (q ∷ ps) j v (suc i) p h g =
      let (other, there) = at_suc q ps k i h in
      let rest = value_of-set ps j v i p there g in
      ground (arith, bytes_eq_iff q.field k, bytes_eq_iff q.field j, bytes_eq_iff k j)

pub index_of-append :
    (ps : List HashPair) (p : HashPair) (j : Bytes)
    → index_of ps p.field ≡ none
    → index_of (ps ++ p ∷ []) j ≡ (if bytes_eq p.field j then some (length ps) else index_of ps j)
unfolding index_of
index_of-append [] p j h = refl
index_of-append (q ∷ ps) p j h =
    let (other, there) = at_none q ps p.field h in
    let rest = index_of-append ps p j there in
    elim (Bool-cases (bytes_eq p.field j)) [
      | inl e ↦
          ground
            (arith, bytes_eq_iff q.field p.field, bytes_eq_iff q.field j, bytes_eq_iff p.field j)
      | inr e ↦ ground arith
    ]

pub value_of-append :
    (ps : List HashPair) (p : HashPair) (j : Bytes)
    → index_of ps p.field ≡ none
    → value_of (ps ++ p ∷ []) j ≡ (if bytes_eq p.field j then some p.value else value_of ps j)
unfolding index_of value_of
value_of-append [] p j h = refl
value_of-append (q ∷ ps) p j h =
    let (other, there) = at_none q ps p.field h in
    let rest = value_of-append ps p j there in
    ground (arith, bytes_eq_iff q.field p.field, bytes_eq_iff q.field j, bytes_eq_iff p.field j)

pub Distinct-append :
    (ps : List HashPair) (p : HashPair)
    → index_of ps p.field ≡ none
    → Distinct ps
    → Distinct (ps ++ p ∷ [])
Distinct-append [] p h d = (unfold index_of in refl, tt)
Distinct-append (q ∷ ps) p h d =
    let (other, there) = at_none q ps p.field h in
    (
      index_of-append ps p q.field there ∙ rw (bytes_eq_flip q.field p.field other) d.0,
      Distinct-append ps p there d.1,
    )

pub Distinct-set :
    (ps : List HashPair) (i : ℕ) (p : HashPair) (v : Bytes)
    → get_elem? ps i ≡ some p
    → Distinct ps
    → Distinct (set ps i (record p { value = v }))
Distinct-set [] i p v h d = d
Distinct-set (q ∷ ps) zero p v h d = let e : q ≡ p = ground arith in (rw (← e) d.0, d.1)
Distinct-set (q ∷ ps) (suc i) p v h d =
    (index_of-set ps q.field v i p h ∙ d.0, Distinct-set ps i p v h d.1)

module _ (k : Bytes) where
  pub value_of-remove :
      (ps : List HashPair) (j : Bytes) (i : ℕ)
      → index_of ps k ≡ some i
      → Distinct ps
      → value_of (remove_at i ps) j ≡ (if bytes_eq k j then none else value_of ps j)
  unfolding value_of remove_at
  value_of-remove [] j i h d = ground arith
  value_of-remove (q ∷ ps) j zero h d =
      let gone = index_none ps q.field d.0 in
      ground (
        arith,
        at_zero q ps k h,
        gone,
        bytes_eq_iff q.field k,
        bytes_eq_iff q.field j,
        bytes_eq_iff k j,
      )
  value_of-remove (q ∷ ps) j (suc i) h d =
      let (other, there) = at_suc q ps k i h in
      let rest = value_of-remove ps j i there d.1 in
      ground (arith, bytes_eq_iff q.field k, bytes_eq_iff q.field j, bytes_eq_iff k j)

index_none-remove :
    (ps : List HashPair) (j : Bytes) (i : ℕ)
    → index_of ps j ≡ none
    → index_of (remove_at i ps) j ≡ none
unfolding index_of remove_at
index_none-remove [] j i h = refl
index_none-remove (q ∷ ps) j zero h = (at_none q ps j h).1
index_none-remove (q ∷ ps) j (suc i) h =
    let (other, there) = at_none q ps j h in rw (other, index_none-remove ps j i there) refl

pub Distinct-remove : (ps : List HashPair) (i : ℕ) → Distinct ps → Distinct (remove_at i ps)
unfolding remove_at
Distinct-remove [] i d = tt
Distinct-remove (q ∷ ps) zero d = d.1
Distinct-remove (q ∷ ps) (suc i) d = (index_none-remove ps q.field i d.0, Distinct-remove ps i d.1)
