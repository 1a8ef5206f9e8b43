-- ===== src/Types/Hash/Encoding.antt =====
-- The well-formedness of a hash in its two encodings, and that each write keeps it.
use ultima.Base.{
  ℕ, zero, suc, ◌+◌, ◌%◌, ◌^◌, ◌≤◌, ◌≡◌, refl, sym, ◌∙◌, inl, inr, Option, none, some, List, [],
  ◌∷◌, ◌++◌, Bytes, length, All, get_elem?, set, drop, bytes_eq, if◌then◌else◌, Bool-cases,
  Option-cases, arith, ltb, ◌||◌,
}
use ultima.Base.Maps.{lookup_key, remove_key, lookup-put}
use ultima.Types.{remove_at}
use ultima.Types.Slices.{length-set, length-remove_at, All-set, All-remove_at, All-append}
use ultima.Types.Hash.{
  HashPair, Hash, index_of, reindex, slot, promote, assign, append_pair, grown, cut,
}
use ultima.Types.Hash.Pairs.{
  value_of, Distinct, index_of-set, value_of-set, index_of-append, value_of-append, Distinct-append,
  Distinct-set, Distinct-remove, value_of-remove,
}
use ultima.Types.Hash.Renumber.{lookup-promote, lookup-cut}

-- The bytes of the fields and values.
unfoldable pub content : List HashPair → ℕ
content [] = 0
content (p ∷ ps) = length p.field + length p.value + content ps

-- A small hash keeps the limits on its fields; a large one has an index of all positions.
abbrev pub Encoded : Option (List (Bytes × ℕ)) → List HashPair → Type 0
Encoded none ps = (length ps ≤ 128) × All (λ p. length p.field ≤ 64) ps
Encoded (some m) ps = (j : Bytes) → lookup_key m j ≡ index_of ps j

pub record IsHash (h : Hash) : Type 0 where
  pub distinct : Distinct h.pairs
  pub encoded : Encoded h.idx h.pairs
  pub charged : h.bytes ≡ content h.pairs % 2 ^ 64

pub slot_lem : (h : Hash) (k : Bytes) → IsHash h → slot h k ≡ index_of h.pairs k
unfolding slot
slot_lem h k w = at_idx h.idx h.pairs w.encoded
  where
    at_idx :
        (o : Option (List (Bytes × ℕ))) (ps : List HashPair)
        → Encoded o ps
        → elim o [ none ↦ index_of ps k | some m ↦ lookup_key m k ] ≡ index_of ps k
    at_idx none ps w = refl
    at_idx (some m) ps w = w k

-- What the writes do to the slice and to the charge.
content-append :
    (ps : List HashPair) (p : HashPair)
    → content (ps ++ p ∷ []) ≡ content ps + (length p.field + length p.value)
unfolding content
content-append [] p = omega arith
content-append (q ∷ ps) p = omega (arith, content-append ps p)

content-set :
    (ps : List HashPair) (i : ℕ) (p : HashPair) (v : Bytes)
    → get_elem? ps i ≡ some p
    → content (set ps i (record p { value = v })) + length p.value ≡ content ps + length v
unfolding content
content-set [] i p v h = cc h
content-set (q ∷ ps) zero p v h = let e : q ≡ p = ground arith in rw e (omega arith)
content-set (q ∷ ps) (suc i) p v h = omega (arith, content-set ps i p v h)

content-remove :
    (ps : List HashPair) (i : ℕ) (p : HashPair)
    → get_elem? ps i ≡ some p
    → content (remove_at i ps) + (length p.field + length p.value) ≡ content ps
unfolding content remove_at
content-remove [] i p h = cc h
content-remove (q ∷ ps) zero p h = let e : q ≡ p = ground arith in rw e (omega arith)
content-remove (q ∷ ps) (suc i) p h = omega (arith, content-remove ps i p h)

-- The hash that a write leaves, and the map that it now stands for.
abbrev pub Became : Hash → (Bytes → Option Bytes) → Type 0
Became h view = IsHash h × ((j : Bytes) → value_of h.pairs j ≡ view j)

Encoded-set :
    (o : Option (List (Bytes × ℕ))) (ps : List HashPair) (i : ℕ) (p : HashPair) (v : Bytes)
    → get_elem? ps i ≡ some p
    → Encoded o ps
    → Encoded o (set ps i (record p { value = v }))
Encoded-set none ps i p v h (few, short) =
    (rw (length-set ps i (record p { value = v })) few, All-set _ ps i p _ h (λ x. x) short)
Encoded-set (some m) ps i p v h w = λ j. w j ∙ sym (index_of-set ps j v i p h)

Encoded-cut :
    (o : Option (List (Bytes × ℕ))) (ps : List HashPair) (i : ℕ) (k : Bytes)
    → Distinct ps
    → index_of ps k ≡ some i
    → Encoded o ps
    → Encoded
        (elim o [
          | none ↦ none
          | some m ↦ some (reindex i (drop i (remove_at i ps)) (remove_key m k))
        ])
        (remove_at i ps)
Encoded-cut none ps i k d e (few, short) =
    (omega (arith, length-remove_at ps i), All-remove_at _ ps i short)
Encoded-cut (some m) ps i k d e w = λ j. lookup-cut k ps m j i d e (w j)

pub assign_lem :
    (h : Hash) (i : ℕ) (k v : Bytes) (p : HashPair)
    → IsHash h
    → index_of h.pairs k ≡ some i
    → get_elem? h.pairs i ≡ some p
    → Became (assign h i v p) (λ j. if bytes_eq k j then some v else value_of h.pairs j)
unfolding assign
assign_lem h i k v p w e got = (
  record {
    distinct = Distinct-set h.pairs i p v got w.distinct;
    encoded = Encoded-set h.idx h.pairs i p v got w.encoded;
    charged = omega (arith, content-set h.pairs i p v got, w.charged);
  },
  λ j. value_of-set k h.pairs j v i p e got,
)

pub cut_lem :
    (h : Hash) (i : ℕ) (k : Bytes) (p : HashPair)
    → IsHash h
    → index_of h.pairs k ≡ some i
    → get_elem? h.pairs i ≡ some p
    → p.field ≡ k
    → Became (cut h i k p) (λ j. if bytes_eq k j then none else value_of h.pairs j)
unfolding cut
cut_lem h i k p w e got same = (
  record {
    distinct = Distinct-remove h.pairs i w.distinct;
    encoded = Encoded-cut h.idx h.pairs i k w.distinct e w.encoded;
    charged = rw (← same) (omega (arith, content-remove h.pairs i p got, w.charged));
  },
  λ j. value_of-remove k h.pairs j i e w.distinct,
)

module _ (h : Hash) (k v : Bytes) (w : IsHash h) (e : index_of h.pairs k ≡ none) where
  abbrev added : HashPair
  added = record { field = k; value = v }

  grown_view :
      (j : Bytes)
      → value_of (grown h k v).pairs j ≡ (if bytes_eq k j then some v else value_of h.pairs j)
  unfolding grown
  grown_view j = value_of-append h.pairs added j e

  grown-Distinct : Distinct (grown h k v).pairs
  unfolding grown
  grown-Distinct = Distinct-append h.pairs added e w.distinct

  grown_charged : (grown h k v).bytes ≡ content (grown h k v).pairs % 2 ^ 64
  unfolding grown
  grown_charged = omega (arith, content-append h.pairs added, w.charged)

  append_large :
      (m : List (Bytes × ℕ))
      → h.idx ≡ some m
      → Became (append_pair h k v) (λ j. if bytes_eq k j then some v else value_of h.pairs j)
  unfolding append_pair grown
  append_large m z = rw z (
    record {
      distinct = grown-Distinct;
      encoded = λ j.
          lookup-put m k j (length h.pairs)
          ∙ rw (index_of-append h.pairs added j e, ((rw z at w.encoded)) j) refl;
      charged = grown_charged;
    },
    grown_view,
  )

  append_small :
      h.idx ≡ none
      → Became (append_pair h k v) (λ j. if bytes_eq k j then some v else value_of h.pairs j)
  unfolding append_pair grown promote
  append_small z =
      let (few, short) : Encoded none h.pairs = (rw z at w.encoded) in
      elim (Bool-cases
        (ltb 128 (length (h.pairs ++ added ∷ [])) || ltb 64 (length k) || ltb 64 (length v))) [
          | inl over ↦
              rw (z, over)
                (
                  record {
                    distinct = grown-Distinct;
                    encoded = λ j. lookup-promote (h.pairs ++ added ∷ []) j grown-Distinct;
                    charged = grown_charged;
                  },
                  grown_view,
                )
          | inr under ↦
              rw (z, under)
                (
                  record {
                    distinct = grown-Distinct;
                    encoded =
                        (ground arith, All-append _ h.pairs (added ∷ []) short (ground arith, tt));
                    charged = grown_charged;
                  },
                  grown_view,
                )
        ]

  pub append_lem :
      Became (append_pair h k v) (λ j. if bytes_eq k j then some v else value_of h.pairs j)
  append_lem = elim (Option-cases h.idx) [ inl z ↦ append_small z | inr (m, z) ↦ append_large m z ]
