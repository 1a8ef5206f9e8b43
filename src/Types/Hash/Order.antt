-- ===== src/Types/Hash/Order.antt =====
-- What shows of a hash on the wire and to eviction: the order of the fields, the encoding, and MemUsage.
use ultima.Base.{
  ℕ, zero, suc, ◌+◌, ◌*◌, ◌%◌, ◌^◌, ◌≡◌, refl, sym, ap, inl, inr, Bool, true, false, none, some,
  List, [], ◌∷◌, ◌++◌, Bytes, length, map, get_elem?, set, bytes_eq, bytes_eq_iff, if◌then◌else◌,
  Bool-cases, ltb, ◌||◌, Option-cases, arith, ◌&&◌, length-append,
}
use ultima.Types.{remove_at}
use ultima.Types.Hash.{
  HashPair, Hash, index_of, is_big, hash_set, hash_del, assign, append_pair, cut, fields, hash_mem,
  grown, promote,
}
use ultima.Types.Hash.Pairs.{index_some, at_none, at_zero, at_suc, Distinct}
use ultima.Types.Hash.Encoding.{IsHash, content, slot_lem}

-- A list of fields without one of them.
unfoldable pub except : Bytes → List Bytes → List Bytes
except k [] = []
except k (f ∷ fs) = let rest = except k fs in if bytes_eq f k then rest else f ∷ rest

names : List HashPair → List Bytes
names = map (λ p. p.field)

names-append : (ps : List HashPair) (p : HashPair) → names (ps ++ p ∷ []) ≡ names ps ++ p.field ∷ []
unfolding names
names-append [] p = refl
names-append (q ∷ ps) p = ap (λ fs. q.field ∷ fs) (names-append ps p)

names-set :
    (ps : List HashPair) (i : ℕ) (p : HashPair) (v : Bytes)
    → get_elem? ps i ≡ some p
    → names (set ps i (record p { value = v })) ≡ names ps
unfolding names
names-set [] i p v h = refl
names-set (q ∷ ps) zero p v h = let e : q ≡ p = ground arith in rw e refl
names-set (q ∷ ps) (suc i) p v h = ap (λ fs. q.field ∷ fs) (names-set ps i p v h)

except-absent :
    (ps : List HashPair) (k : Bytes) → index_of ps k ≡ none → except k (names ps) ≡ names ps
unfolding except names
except-absent [] k h = refl
except-absent (q ∷ ps) k h =
    let (other, there) = at_none q ps k h in
    rw other (ap (λ fs. q.field ∷ fs) (except-absent ps k there))

names-remove :
    (ps : List HashPair) (k : Bytes) (i : ℕ)
    → Distinct ps
    → index_of ps k ≡ some i
    → names (remove_at i ps) ≡ except k (names ps)
unfolding names except remove_at
names-remove [] k i d h = absurd (unfold index_of in cc h)
names-remove (q ∷ ps) k zero d h =
    let e = at_zero q ps k h in
    let e' = (bytes_eq_iff q.field k).0 e in rw e (sym (except-absent ps k (rw (← e') d.0)))
names-remove (q ∷ ps) k (suc i) d h =
    let (other, there) = at_suc q ps k i h in
    rw other (ap (λ fs. q.field ∷ fs) (names-remove ps k i d.1 there))

pub hash_mem-content :
    (h : Hash)
    → IsHash h
    → hash_mem h
      ≡ (64 + 32 * length h.pairs + content h.pairs + (if is_big h then 16 * length h.pairs else 0))
        % 2 ^ 64
unfolding hash_mem
hash_mem-content h w = elim (Option-cases h.idx) [
  | inl z ↦ rw (z, w.charged) (omega arith)
  | inr (m, z) ↦ rw (z, w.charged) (omega arith)
]

-- The thresholds past which a small hash that gains a field becomes large.
abbrev pub over : Hash → Bytes → Bytes → Bool
over h k v = ltb 128 (length h.pairs + 1) || ltb 64 (length k) || ltb 64 (length v)

module _ (h : Hash) (k v : Bytes) where
  append_fields : fields (append_pair h k v) ≡ fields h ++ k ∷ []
  unfolding append_pair fields grown promote names
  append_fields = elim (Option-cases h.idx) [
    | inr (m, z) ↦ rw z (names-append h.pairs _)
    | inl z ↦
        elim (Bool-cases
          (ltb 128 (length (grown h k v).pairs) || ltb 64 (length k) || ltb 64 (length v))) [
            | inl e ↦ rw (z, e) (names-append h.pairs _)
            | inr e ↦ rw (z, e) (names-append h.pairs _)
          ]
  ]

  append_big : is_big (append_pair h k v) ≡ (is_big h || over h k v)
  unfolding append_pair grown promote
  append_big =
      let added : HashPair = record { field = k; value = v } in
      let n = length-append h.pairs (added ∷ []) in
      elim (Option-cases h.idx) [
        | inr (m, z) ↦ rw z refl
        | inl z ↦ elim (Bool-cases (over h k v)) [
          | inl e ↦ rw (z, n, e) refl
          | inr e ↦ rw (z, n, e) refl
        ]
      ]

-- Set on a well-formed Hash puts a new field behind the others and leaves the order alone
-- otherwise; the hash is large afterwards exactly if it was, or if a new field passes one of the
-- thresholds, so an update never makes it large.
pub hash_set-order :
    (h h' : Hash) (k v : Bytes) (new : Bool)
    → IsHash h
    → hash_set h k v ≡ some (h', new)
    → (fields h' ≡ (if new then fields h ++ k ∷ [] else fields h))
      × (is_big h' ≡ (is_big h || (new && over h k v)))
unfolding hash_set fields assign names
hash_set-order h h' k v new w run = elim (Option-cases (index_of h.pairs k)) [
  | inl e ↦
      let got : hash_set h k v ≡ some (append_pair h k v, true) =
        rw (hash_set, slot_lem h k w, e) refl in
      let same : append_pair h k v ≡ h' = cc (got, run) in
      let fresh : true ≡ new = cc (got, run) in
      rw (← same, ← fresh) (append_fields h k v, append_big h k v)
  | inr (i, e) ↦
      let (p, there, _, _) = index_some h.pairs k i e in
      let got : hash_set h k v ≡ some (assign h i v p, false) =
        rw (hash_set, slot_lem h k w, e, there) refl in
      let same : assign h i v p ≡ h' = cc (got, run) in
      let fresh : false ≡ new = cc (got, run) in
      rw (← same, ← fresh) (names-set h.pairs i p v there, sym (or_false (is_big h)))
]
  where
    or_false : (b : Bool) → (b || false) ≡ b
    or_false true = refl
    or_false false = refl

cut_big : (h : Hash) (i : ℕ) (k : Bytes) (p : HashPair) → is_big (cut h i k p) ≡ is_big h
unfolding cut
cut_big h i k p = elim (Option-cases h.idx) [ inl z ↦ rw z refl | inr (m, z) ↦ rw z refl ]

-- HDEL of a field
pub hash_del-order :
    (h h' : Hash) (k : Bytes) (found : Bool)
    → IsHash h
    → hash_del h k ≡ some (h', found)
    → (fields h' ≡ except k (fields h)) × (is_big h' ≡ is_big h)
unfolding hash_del fields cut names
hash_del-order h h' k found w run = elim (Option-cases (index_of h.pairs k)) [
  | inl e ↦
      let got : hash_del h k ≡ some (h, false) = rw (hash_del, slot_lem h k w, e) refl in
      let same : h ≡ h' = cc (got, run) in rw (← same) (sym (except-absent h.pairs k e), refl)
  | inr (i, e) ↦
      let (p, there, _, _) = index_some h.pairs k i e in
      let got : hash_del h k ≡ some (cut h i k p, true) =
        rw (hash_del, slot_lem h k w, e, there) refl in
      let same : cut h i k p ≡ h' = cc (got, run) in
      rw (← same) (names-remove h.pairs k i w.distinct e, cut_big h i k p)
]
