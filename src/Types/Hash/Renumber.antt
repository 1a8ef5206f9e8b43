-- ===== src/Types/Hash/Renumber.antt =====
-- The index after a renumbering: promote builds the position of every field, and a cut moves the
-- positions behind it down by one.
use ultima.Base.{
  ℕ, zero, suc, ◌+◌, ◌≡◌, refl, ap, ◌∙◌, inl, inr, none, some, List, [], ◌∷◌, Bytes, drop, bytes_eq,
  bytes_eq_iff, if◌then◌else◌, Option-cases, arith,
}
use ultima.Base.Maps.{lookup_key, put_key, remove_key, lookup-put, lookup-remove}
use ultima.Types.{remove_at}
use ultima.Types.Hash.{HashPair, index_of, reindex}
use ultima.Types.Hash.Pairs.{Distinct, at_none, at_zero, at_suc, Distinct-remove}

-- A field outside the renumbered pairs keeps its number.
reindex_other :
    (ps : List HashPair) (n : ℕ) (m : List (Bytes × ℕ)) (j : Bytes)
    → index_of ps j ≡ none
    → lookup_key (reindex n ps m) j ≡ lookup_key m j
unfolding reindex
reindex_other [] n m j h = refl
reindex_other (p ∷ ps) n m j h =
    let (other, there) = at_none p ps j h in
    reindex_other ps (n + 1) (put_key m p.field n) j there
    ∙ lookup-put m p.field j n
    ∙ rw other refl

reindex_hit :
    (ps : List HashPair) (n : ℕ) (m : List (Bytes × ℕ)) (j : Bytes) (t : ℕ)
    → Distinct ps
    → index_of ps j ≡ some t
    → lookup_key (reindex n ps m) j ≡ some (n + t)
unfolding reindex
reindex_hit [] n m j t d h = absurd (unfold index_of in cc h)
reindex_hit (p ∷ ps) n m j zero d h =
    let same = (bytes_eq_iff p.field j).0 (at_zero p ps j h) in
    reindex_other ps (n + 1) (put_key m p.field n) j (rw (← same) d.0)
    ∙ lookup-put m p.field j n
    ∙ rw (at_zero p ps j h) (ap some (omega arith))
reindex_hit (p ∷ ps) n m j (suc t) d h =
    reindex_hit ps (n + 1) (put_key m p.field n) j t d.1 (at_suc p ps j t h).1
    ∙ ap some (omega arith)

pub lookup-promote :
    (ps : List HashPair) (j : Bytes) → Distinct ps → lookup_key (reindex 0 ps []) j ≡ index_of ps j
lookup-promote ps j d = elim (Option-cases (index_of ps j)) [
  | inl e ↦ reindex_other ps 0 [] j e ∙ rw e (unfold lookup_key in refl)
  | inr (t, e) ↦ reindex_hit ps 0 [] j t d e ∙ rw e (ap some (omega arith))
]

Distinct-drop : (i : ℕ) (ps : List HashPair) → Distinct ps → Distinct (drop i ps)
Distinct-drop zero ps d = d
Distinct-drop (suc i) [] d = tt
Distinct-drop (suc i) (p ∷ ps) d = Distinct-drop i ps d.1

index_of-drop :
    (i : ℕ) (ps : List HashPair) (j : Bytes) (t : ℕ)
    → Distinct ps
    → index_of (drop i ps) j ≡ some t
    → index_of ps j ≡ some (i + t)
unfolding index_of
index_of-drop zero ps j t d h = h ∙ ap some (omega arith)
index_of-drop (suc i) [] j t d h = absurd (cc h)
index_of-drop (suc i) (p ∷ ps) j t d h =
    let rest = index_of-drop i ps j t d.1 h in ground (arith, bytes_eq_iff p.field j)

module _ (k : Bytes) where
  index_before :
      (ps : List HashPair) (j : Bytes) (i : ℕ)
      → index_of ps k ≡ some i
      → index_of (drop i (remove_at i ps)) j ≡ none
      → (if bytes_eq k j then none else index_of ps j) ≡ index_of (remove_at i ps) j
  unfolding index_of remove_at
  index_before [] j i h g = absurd (cc h)
  index_before (q ∷ ps) j zero h g =
      let same = at_zero q ps k h in
      ground (arith, bytes_eq_iff q.field k, bytes_eq_iff q.field j, bytes_eq_iff k j)
  index_before (q ∷ ps) j (suc i) h g =
      let (other, there) = at_suc q ps k i h in
      let rest = index_before ps j i there g in
      ground (arith, bytes_eq_iff q.field k, bytes_eq_iff q.field j, bytes_eq_iff k j)

  pub lookup-cut :
      (ps : List HashPair) (m : List (Bytes × ℕ)) (j : Bytes) (i : ℕ)
      → Distinct ps
      → index_of ps k ≡ some i
      → lookup_key m j ≡ index_of ps j
      → lookup_key (reindex i (drop i (remove_at i ps)) (remove_key m k)) j
        ≡ index_of (remove_at i ps) j
  lookup-cut ps m j i d h g =
      let d' = Distinct-remove ps i d in
      elim (Option-cases (index_of (drop i (remove_at i ps)) j)) [
        | inl e ↦
            reindex_other _ i (remove_key m k) j e
            ∙ lookup-remove m k j
            ∙ rw g (index_before ps j i h e)
        | inr (t, e) ↦
            reindex_hit _ i (remove_key m k) j t (Distinct-drop i _ d') e
            ∙ rw (index_of-drop i _ j t d' e) refl
      ]
