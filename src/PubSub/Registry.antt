-- ===== src/PubSub/Registry.antt =====
-- One registry: who is subscribed to what after each change, and its well-formedness.
use ultima.Base.{
  ℕ, ◌≡◌, refl, ap, ◌∙◌, inl, inr, Bool, true, false, not, ◌&&◌, ◌||◌, none, some, [], ◌∷◌, Bytes,
  bytes_eq, bytes_eq_iff, ◌==◌, ==_iff, if◌then◌else◌, All, Bool-cases, Option-cases, arith,
}
use ultima.Base.Maps.{lookup_key, put_key, remove_key, Unique, lookup-put, lookup-remove}
use ultima.PubSub.{
  Sub, Subs, Registry, or_empty, has_id, without_sub, with_sub, subs_at, put_or_drop, add_sub,
  drop_sub, keep_rest, drop_all,
}

abbrev pub DistinctIds : Subs → Type 0
DistinctIds [] = Unit
DistinctIds (s ∷ l) = (has_id l s.id ≡ false) × DistinctIds l

abbrev pub NonEmpty : Subs → Type 0
NonEmpty [] = ⊥
NonEmpty (s ∷ l) = Unit

-- A client at most once, and at least one client.
abbrev pub IsSubs : Subs → Type 0
IsSubs l = NonEmpty l × DistinctIds l

-- No name twice, and no name without a subscriber.
abbrev pub IsRegistry : Registry → Type 0
IsRegistry m = Unique m × All (λ e. IsSubs e.1) m

abbrev pub subscribed : Registry → Bytes → ℕ → Bool
subscribed m name i = has_id (subs_at m name) i

pub has_id-without :
    (l : Subs) (k i : ℕ) → has_id (without_sub l k) i ≡ (not (k == i) && has_id l i)
unfolding has_id without_sub
has_id-without [] k i = ground arith
has_id-without (s ∷ l) k i = ground (arith, has_id-without l k i)

pub DistinctIds-without : (l : Subs) (k : ℕ) → DistinctIds l → DistinctIds (without_sub l k)
unfolding without_sub
DistinctIds-without [] k d = tt
DistinctIds-without (s ∷ l) k d = elim (Bool-cases (s.id == k)) [
  | inl e ↦ rw e (DistinctIds-without l k d.1)
  | inr e ↦ rw e (ground (arith, has_id-without l k s.id), DistinctIds-without l k d.1)
]

module _ (P : Bytes × Subs → Type 0) where
  pub All-remove : (m : Registry) (k : Bytes) → All P m → All P (remove_key m k)
  unfolding remove_key
  All-remove [] k a = tt
  All-remove ((j, l) ∷ m) k a = elim (Bool-cases (bytes_eq k j)) [
    | inl e ↦ rw e (All-remove m k a.1)
    | inr e ↦ rw e (a.0, All-remove m k a.1)
  ]

  pub All_lookup :
      (m : Registry) (k : Bytes) (l : Subs)
      → All P m
      → lookup_key m k ≡ some l
      → (j : Bytes) × P (j, l)
  unfolding lookup_key
  All_lookup [] k l a h = cc h
  All_lookup ((j, l') ∷ m) k l a h = elim (Bool-cases (bytes_eq j k)) [
    | inl e ↦ let same : l' ≡ l = ground arith in (j, rw (← same) a.0)
    | inr e ↦ All_lookup m k l a.1 (ground arith)
  ]

subs_at-put :
    (m : Registry) (name c : Bytes) (l : Subs)
    → subs_at (put_key m name l) c ≡ (if bytes_eq name c then l else subs_at m c)
subs_at-put m name c l = ap or_empty (lookup-put m name c l) ∙ either (bytes_eq name c)
  where
    either :
        (b : Bool)
        → or_empty (if b then some l else lookup_key m c) ≡ (if b then l else subs_at m c)
    either true = refl
    either false = refl

subs_at-put_or_drop :
    (m : Registry) (name c : Bytes) (l : Subs)
    → subs_at (put_or_drop m name l) c ≡ (if bytes_eq name c then l else subs_at m c)
subs_at-put_or_drop m name c (s ∷ l) = subs_at-put m name c (s ∷ l)
subs_at-put_or_drop m name c [] = ap or_empty (lookup-remove m name c) ∙ either (bytes_eq name c)
  where
    either :
        (b : Bool) → or_empty (if b then none else lookup_key m c) ≡ (if b then [] else subs_at m c)
    either true = refl
    either false = refl

pub subscribed-add :
    (m : Registry) (name c : Bytes) (s : Sub) (i : ℕ)
    → subscribed (add_sub m name s) c i ≡ (bytes_eq name c && s.id == i || subscribed m c i)
unfolding add_sub with_sub has_id
subscribed-add m name c s i = elim (Bool-cases (bytes_eq name c)) [
  | inr e ↦ rw (subs_at-put m name c _, e) refl
  | inl e ↦
      rw (subs_at-put m name c _, e)
        (ground
          (arith, has_id-without (subs_at m name) s.id i, same_subs m ((bytes_eq_iff name c).0 e)))
]
  where
    same_subs : (m : Registry) → name ≡ c → subs_at m name ≡ subs_at m c
    same_subs m e = ap (subs_at m) e

pub subscribed-drop :
    (m : Registry) (name c : Bytes) (k i : ℕ)
    → subscribed (drop_sub m name k) c i ≡ (not (bytes_eq name c && k == i) && subscribed m c i)
unfolding drop_sub
subscribed-drop m name c k i = elim (Option-cases (lookup_key m name)) [
  | inl h ↦ rw (drop_sub, h) (ground (arith, absent h))
  | inr (l, h) ↦
      rw (drop_sub, h)
        (ap (λ l. has_id l i) (subs_at-put_or_drop m name c (without_sub l k))
          ∙ ground (arith, has_id-without l k i, present h))
]
  where
    absent : lookup_key m name ≡ none → bytes_eq name c ≡ true → subscribed m c i ≡ false
    absent h e = let same = (bytes_eq_iff name c).0 e in rw (← same, h) (unfold has_id in refl)

    present :
        {l : Subs}
        → lookup_key m name ≡ some l
        → bytes_eq name c ≡ true
        → subscribed m c i ≡ has_id l i
    present h e = let same = (bytes_eq_iff name c).0 e in rw (← same, h) refl

pub subs_at-cons :
    (name c : Bytes) (l : Subs) (m : Registry)
    → subs_at ((name, l) ∷ m) c ≡ (if bytes_eq name c then l else subs_at m c)
unfolding lookup_key
subs_at-cons name c l m = either (bytes_eq name c)
  where
    either :
        (b : Bool)
        → or_empty (if b then some l else lookup_key m c) ≡ (if b then l else subs_at m c)
    either true = refl
    either false = refl

-- The name at the head after UnsubscribeAll has dealt with it.
subs_at-keep_rest :
    (name c : Bytes) (l : Subs) (m : Registry)
    → lookup_key m name ≡ none
    → subs_at (keep_rest name l m) c ≡ (if bytes_eq name c then l else subs_at m c)
subs_at-keep_rest name c (s ∷ l) m h = subs_at-cons name c (s ∷ l) m
subs_at-keep_rest name c [] m h = elim (Bool-cases (bytes_eq name c)) [
  | inr e ↦ rw e refl
  | inl e ↦ let same = (bytes_eq_iff name c).0 e in rw (e, ← same, h) refl
]

pub lookup-drop_all :
    (m : Registry) (i : ℕ) (c : Bytes) → lookup_key m c ≡ none → lookup_key (drop_all m i) c ≡ none
unfolding drop_all lookup_key
lookup-drop_all [] i c h = refl
lookup-drop_all ((name, l) ∷ m) i c h = elim (Bool-cases (bytes_eq name c)) [
  | inl e ↦ absurd (ground arith)
  | inr e ↦
      let rest = lookup-drop_all m i c (ground arith) in
      elim (Bool-cases (has_id l i)) [
        | inr f ↦ rw (f, e) rest
        | inl f ↦ rw f (kept (without_sub l i) e rest)
      ]
]
  where
    kept :
        (l : Subs)
        → bytes_eq name c ≡ false
        → lookup_key (drop_all m i) c ≡ none
        → lookup_key (keep_rest name l (drop_all m i)) c ≡ none
    kept [] e rest = rest
    kept (s ∷ l) e rest = rw e rest

pub subscribed-drop_all :
    (m : Registry) (k : ℕ) (c : Bytes) (i : ℕ)
    → Unique m
    → subscribed (drop_all m k) c i ≡ (not (k == i) && subscribed m c i)
unfolding drop_all
subscribed-drop_all [] k c i u = unfold lookup_key has_id in ground arith
subscribed-drop_all ((name, l) ∷ m) k c i u =
    let rest = subscribed-drop_all m k c i u.1 in
    let whole = ap (λ l. has_id l i) (subs_at-cons name c l m) in
    let gone = lookup-drop_all m k name u.0 in
    elim (Bool-cases (has_id l k)) [
      | inl f ↦ rw f (
          ap (λ l. has_id l i) (subs_at-keep_rest name c (without_sub l k) (drop_all m k) gone)
          ∙ ground (arith, has_id-without l k i))
      | inr f ↦ rw f (
          ap (λ l. has_id l i) (subs_at-cons name c l (drop_all m k))
          ∙ ground (arith, other_id l k i f))
    ]
  where
    other_id : (l : Subs) (k i : ℕ) → has_id l k ≡ false → k == i ≡ true → has_id l i ≡ false
    other_id l k i f e = let same = (==_iff k i).0 e in rw (← same) f
