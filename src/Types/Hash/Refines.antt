-- ===== src/Types/Hash/Refines.antt =====
-- A hash as a finite map from fields to values: what Get, Set and Del do on it in both encodings, the
-- order of the fields, and the memory estimate over any sequence of writes.
use ultima.Base.{
  ◌≡◌, refl, ap, ◌∙◌, inl, inr, Bool, true, false, Option, none, some, List, [], ◌∷◌, Bytes,
  bytes_eq, bytes_eq_iff, if◌then◌else◌, not, Option-cases, arith, ◌>>=◌,
}
use ultima.Types.Hash.{
  Hash, new_hash, index_of, hash_get, hash_set, hash_del, assign, append_pair, cut,
}
use ultima.Types.Hash.Pairs.{value_of, index_none, index_some}
use ultima.Types.Hash.Encoding.{IsHash, Became, content, slot_lem, assign_lem, append_lem, cut_lem}

pub hash_get-value : (h : Hash) (k : Bytes) → IsHash h → hash_get h k ≡ some (value_of h.pairs k)
unfolding hash_get
hash_get-value h k w =
    rw (hash_get, slot_lem h k w)
      (elim (Option-cases (index_of h.pairs k)) [
        | inl e ↦ rw (e, index_none h.pairs k e) refl
        | inr (i, e) ↦ let (p, got, same, val) = index_some h.pairs k i e in rw (e, got, val) refl
      ])

abbrev pub is_none : Option Bytes → Bool
is_none none = true
is_none (some v) = false

pub hash_set-IsHash :
    (h : Hash) (k v : Bytes)
    → IsHash h
    → (h' : Hash) × (hash_set h k v ≡ some (h', is_none (value_of h.pairs k)))
      × Became h' (λ j. if bytes_eq k j then some v else value_of h.pairs j)
unfolding hash_set
hash_set-IsHash h k v w = elim (Option-cases (index_of h.pairs k)) [
  | inl e ↦ (
    append_pair h k v,
    rw (hash_set, slot_lem h k w, e, index_none h.pairs k e) refl,
    append_lem h k v w e,
  )
  | inr (i, e) ↦
      let (p, got, same, val) = index_some h.pairs k i e in
      (
        assign h i v p,
        rw (hash_set, slot_lem h k w, e, got, val) refl,
        assign_lem h i k v p w e got,
      )
]

pub hash_del-IsHash :
    (h : Hash) (k : Bytes)
    → IsHash h
    → (h' : Hash) × (hash_del h k ≡ some (h', not (is_none (value_of h.pairs k))))
      × Became h' (λ j. if bytes_eq k j then none else value_of h.pairs j)
unfolding hash_del
hash_del-IsHash h k w = elim (Option-cases (index_of h.pairs k)) [
  | inl e ↦ (h, rw (hash_del, slot_lem h k w, e, index_none h.pairs k e) refl, (w, stays_away e))
  | inr (i, e) ↦
      let (p, got, same, val) = index_some h.pairs k i e in
      (cut h i k p, rw (hash_del, slot_lem h k w, e, got, val) refl, cut_lem h i k p w e got same)
]
  where
    stays_away :
        index_of h.pairs k ≡ none
        → (j : Bytes) → value_of h.pairs j ≡ (if bytes_eq k j then none else value_of h.pairs j)
    stays_away e j = ground (arith, index_none h.pairs k e, bytes_eq_iff k j)

-- Calls on one hash, and what they do to a map from fields to values.
pub data HashOp : Type 0 where
  hset : Bytes → Bytes → HashOp
  hdel : Bytes → HashOp

abbrev pub call : HashOp → Hash → Option (Hash × Bool)
call (hset k v) h = hash_set h k v
call (hdel k) h = hash_del h k

unfoldable pub calls : List HashOp → Hash → Option Hash
calls [] h = some h
calls (op ∷ ops) h = (call op h) >>= (λ r. calls ops r.0)

abbrev pub change : HashOp → (Bytes → Option Bytes) → Bytes → Option Bytes
change (hset k v) view j = if bytes_eq k j then some v else view j
change (hdel k) view j = if bytes_eq k j then none else view j

abbrev pub changes : List HashOp → (Bytes → Option Bytes) → Bytes → Option Bytes
changes [] view = view
changes (op ∷ ops) view = changes ops (change op view)

call_lem :
    (op : HashOp) (h : Hash)
    → IsHash h
    → (h' : Hash) × ((b : Bool) × (call op h ≡ some (h', b)))
      × Became h' (change op (value_of h.pairs))
call_lem (hset k v) h w = let (h', e, became) = hash_set-IsHash h k v w in (h', (_, e), became)
call_lem (hdel k) h w = let (h', e, became) = hash_del-IsHash h k w in (h', (_, e), became)

pub change_congr :
    (op : HashOp) (v w : Bytes → Option Bytes) (j : Bytes)
    → v j ≡ w j
    → change op v j ≡ change op w j
change_congr (hset k x) v w j e = rw e refl
change_congr (hdel k) v w j e = rw e refl

pub changes_congr :
    (ops : List HashOp) (v w : Bytes → Option Bytes) (j : Bytes)
    → v j ≡ w j
    → changes ops v j ≡ changes ops w j
changes_congr [] v w j e = e
changes_congr (op ∷ ops) v w j e =
    changes_congr ops (change op v) (change op w) j (change_congr op v w j e)

calls_lem :
    (ops : List HashOp) (h : Hash) (view : Bytes → Option Bytes)
    → IsHash h
    → ((j : Bytes) → value_of h.pairs j ≡ view j)
    → (h' : Hash) × (calls ops h ≡ some h') × Became h' (changes ops view)
unfolding calls
calls_lem [] h view w same = (h, refl, (w, same))
calls_lem (op ∷ ops) h view w same =
    let (h', (b, e), (w', view')) = call_lem op h w in
    let (h'', e', became) =
      calls_lem ops h' (change op view) w' (λ j. view' j ∙ change_congr op _ _ j (same j)) in
    (h'', rw e e', became)

pub new_hash-IsHash : IsHash new_hash
unfolding content
new_hash-IsHash = record { distinct = tt; encoded = (omega arith, tt); charged = refl }

-- Any sequence of Set and Del on a new Hash runs without an index out of range, leaves a well-
-- formed hash, and Get then reads every field as a finite map changed by the same calls would, in
-- both encodings.
pub hash_history_refines :
    (ops : List HashOp)
    → (h : Hash) × (calls ops new_hash ≡ some h)
      × IsHash h
      × ((k : Bytes) → hash_get h k ≡ some (changes ops (λ j. none) k))
hash_history_refines ops =
    let (h, e, (w, view)) =
      calls_lem ops new_hash (λ j. none) new_hash-IsHash (unfold value_of in λ j. refl) in
    (h, e, w, λ k. hash_get-value h k w ∙ ap some (view k))
