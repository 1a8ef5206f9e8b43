-- ===== src/PubSub/Messages.antt =====
-- Whom Publish addresses, and how often.
use ultima.Base.{
  ℕ, ◌+◌, ◌≡◌, refl, ap, sym, ◌∙◌, inl, inr, Bool, true, false, ◌&&◌, none, List, [], ◌∷◌, ◌++◌,
  Bytes, bytes_eq, bytes_lt, bytes_eq_iff, bytes_eq_refl, ◌==◌, ==_iff, All, Bool-cases, arith,
}
use ultima.Base.Maps.{lookup_key, Unique}
use ultima.Resp.{Value}
use ultima.PubSub.{
  Subs, Registry, Broker, Target, has_id, subs_at, insert_by, sort_by, addressed, pattern_hits,
  pmessages, targets,
}
use ultima.PubSub.WellFormed.{DistinctIds-subs_at}
use ultima.PubSub.Registry.{DistinctIds, IsSubs, IsRegistry, subscribed, subs_at-cons}

abbrev pub to_nat : Bool → ℕ
to_nat true = 1
to_nat false = 0

-- How many messages go to one client.
unfoldable pub messages_to : List Target → ℕ → ℕ
messages_to [] i = 0
messages_to (t ∷ ts) i = to_nat (t.sub.id == i) + messages_to ts i

-- The patterns that match and have the client.
unfoldable pub matching : (Bytes → Bytes → Bool) → Registry → Bytes → ℕ → ℕ
matching matches [] channel i = 0
matching matches ((p, l) ∷ m) channel i =
    to_nat (matches p channel && has_id l i) + matching matches m channel i

messages_to-append :
    (ts us : List Target) (i : ℕ) → messages_to (ts ++ us) i ≡ messages_to ts i + messages_to us i
unfolding messages_to
messages_to-append [] us i = omega arith
messages_to-append (t ∷ ts) us i = omega (arith, messages_to-append ts us i)

messages_to-addressed :
    (l : Subs) (v : Value) (i : ℕ)
    → DistinctIds l
    → messages_to (addressed l v) i ≡ to_nat (has_id l i)
unfolding messages_to has_id
messages_to-addressed [] v i d = refl
messages_to-addressed (s ∷ l) v i d = ground (arith, messages_to-addressed l v i d.1, ==_iff s.id i)

-- What a list of matching patterns sends to one client, in any order.
hits_to : Registry → ℕ → ℕ
hits_to [] i = 0
hits_to ((p, l) ∷ m) i = to_nat (has_id l i) + hits_to m i

hits_to-insert :
    (e : Bytes × Subs) (m : Registry) (i : ℕ)
    → hits_to (insert_by (λ e. e.0) e m) i ≡ to_nat (has_id e.1 i) + hits_to m i
unfolding hits_to insert_by
hits_to-insert e [] i = refl
hits_to-insert e ((p, l) ∷ m) i = ground (arith, hits_to-insert e m i)

hits_to-sort : (m : Registry) (i : ℕ) → hits_to (sort_by (λ e. e.0) m) i ≡ hits_to m i
unfolding hits_to sort_by
hits_to-sort [] i = refl
hits_to-sort ((p, l) ∷ m) i =
    omega (arith, hits_to-insert (p, l) (sort_by (λ e. e.0) m) i, hits_to-sort m i)

Entries-insert :
    (e : Bytes × Subs) (m : Registry)
    → DistinctIds e.1
    → All (λ e. DistinctIds e.1) m
    → All (λ e. DistinctIds e.1) (insert_by (λ e. e.0) e m)
unfolding insert_by
Entries-insert e [] d a = (d, tt)
Entries-insert e (x ∷ m) d a = elim (Bool-cases (bytes_lt x.0 e.0)) [
  | inl p ↦ rw p (a.0, Entries-insert e m d a.1)
  | inr p ↦ rw p (d, a)
]

Entries-sort :
    (m : Registry)
    → All (λ e. DistinctIds e.1) m
    → All (λ e. DistinctIds e.1) (sort_by (λ e. e.0) m)
unfolding sort_by
Entries-sort [] a = tt
Entries-sort (e ∷ m) a = Entries-insert e (sort_by (λ e. e.0) m) a.0 (Entries-sort m a.1)

messages_to-pmessages :
    (m : Registry) (channel payload : Bytes) (i : ℕ)
    → All (λ e. DistinctIds e.1) m
    → messages_to (pmessages m channel payload) i ≡ hits_to m i
unfolding hits_to
messages_to-pmessages [] channel payload i a = unfold messages_to in refl
messages_to-pmessages ((p, l) ∷ m) channel payload i a =
    messages_to-append (addressed l _) (pmessages m channel payload) i
    ∙ omega (arith, messages_to-addressed l _ i a.0, messages_to-pmessages m channel payload i a.1)

module _ (matches : Bytes → Bytes → Bool) where
  Entries-hits :
      (m : Registry) (channel : Bytes)
      → All (λ e. IsSubs e.1) m
      → All (λ e. DistinctIds e.1) (pattern_hits matches m channel)
  unfolding pattern_hits
  Entries-hits [] channel a = tt
  Entries-hits ((p, l) ∷ m) channel a = elim (Bool-cases (matches p channel)) [
    | inl e ↦ rw e (a.0.1, Entries-hits m channel a.1)
    | inr e ↦ rw e (Entries-hits m channel a.1)
  ]

  hits_to-pattern_hits :
      (m : Registry) (channel : Bytes) (i : ℕ)
      → hits_to (pattern_hits matches m channel) i ≡ matching matches m channel i
  unfolding hits_to pattern_hits matching
  hits_to-pattern_hits [] channel i = refl
  hits_to-pattern_hits ((p, l) ∷ m) channel i = ground (arith, hits_to-pattern_hits m channel i)

  pub messages_to-targets :
      (b : Broker) (channel payload : Bytes) (i : ℕ)
      → IsRegistry b.channels
      → IsRegistry b.patterns
      → messages_to (targets matches b channel payload) i
        ≡ to_nat (subscribed b.channels channel i) + matching matches b.patterns channel i
  unfolding targets
  messages_to-targets b channel payload i c p =
      let hits = pattern_hits matches b.patterns channel in
      messages_to-append (addressed (subs_at b.channels channel) _)
        (pmessages (sort_by (λ e. e.0) hits) channel payload) i
      ∙ omega (
        arith,
        messages_to-addressed (subs_at b.channels channel) _ i
            (DistinctIds-subs_at b.channels channel c.1),
        messages_to-pmessages (sort_by (λ e. e.0) hits) channel payload i
            (Entries-sort hits (Entries-hits b.patterns channel p.1)),
        hits_to-sort hits i,
        hits_to-pattern_hits b.patterns channel i,
      )

  -- A client that no pattern has gets nothing by pattern.
  pub matching_none :
      (m : Registry) (channel : Bytes) (i : ℕ)
      → Unique m
      → ((p : Bytes) → subscribed m p i ≡ false)
      → matching matches m channel i ≡ 0
  unfolding matching
  matching_none [] channel i u h = refl
  matching_none ((p, l) ∷ m) channel i u h =
      let here : has_id l i ≡ false =
        sym (ap (λ l. has_id l i) (subs_at-cons p p l m) ∙ rw (bytes_eq_refl p) refl) ∙ h p in
      rw here (ground (arith, matching_none m channel i u.1 (elsewhere p l m u.0 i h)))
    where
      elsewhere :
          (p : Bytes) (l : Subs) (m : Registry)
          → lookup_key m p ≡ none
          → (i : ℕ) → ((q : Bytes) → subscribed ((p, l) ∷ m) q i ≡ false)
          → (q : Bytes) → subscribed m q i ≡ false
      elsewhere p l m gone i h q = elim (Bool-cases (bytes_eq p q)) [
        | inl e ↦ let same = (bytes_eq_iff p q).0 e in rw (← same, gone) (unfold has_id in refl)
        | inr e ↦ sym (ap (λ l. has_id l i) (subs_at-cons p q l m) ∙ rw e refl) ∙ h q
      ]
