-- ===== src/PubSub/WellFormed.antt =====
-- Every change of a registry keeps it well-formed.
use ultima.Base.{ℕ, ◌≡◌, inl, inr, none, [], ◌∷◌, Bytes, All, Bool-cases, Option-cases, arith}
use ultima.Base.Maps.{lookup_key, put_key, Unique-put, Unique-remove}
use ultima.PubSub.{
  Sub, Subs, Registry, has_id, without_sub, with_sub, subs_at, put_or_drop, add_sub, drop_sub,
  keep_rest, drop_all,
}
use ultima.PubSub.Registry.{
  DistinctIds, IsSubs, IsRegistry, has_id-without, DistinctIds-without, All-remove, All_lookup,
  lookup-drop_all,
}

abbrev pub Entries : Registry → Type 0
Entries = All (λ e. IsSubs e.1)

pub DistinctIds-subs_at : (m : Registry) (name : Bytes) → Entries m → DistinctIds (subs_at m name)
DistinctIds-subs_at m name a = elim (Option-cases (lookup_key m name)) [
  | inl h ↦ rw h tt
  | inr (l, h) ↦ rw h (All_lookup (λ e. IsSubs e.1) m name l a h).1.1
]

pub add_sub-IsRegistry :
    (m : Registry) (name : Bytes) (s : Sub) → IsRegistry m → IsRegistry (add_sub m name s)
unfolding add_sub put_key with_sub
add_sub-IsRegistry m name s (u, a) =
    let l = subs_at m name in
    let d = DistinctIds-without l s.id (DistinctIds-subs_at m name a) in
    (
      Unique-put m name (with_sub l s) u,
      (
        (tt, (ground (arith, has_id-without l s.id s.id), d)),
        All-remove (λ e. IsSubs e.1) m name a,
      ),
    )

put_or_drop-IsRegistry :
    (m : Registry) (name : Bytes) (l : Subs)
    → IsRegistry m
    → DistinctIds l
    → IsRegistry (put_or_drop m name l)
unfolding put_key
put_or_drop-IsRegistry m name [] (u, a) d = (Unique-remove m name u, All-remove _ m name a)
put_or_drop-IsRegistry m name (s ∷ l) (u, a) d =
    (Unique-put m name (s ∷ l) u, ((tt, d), All-remove _ m name a))

pub drop_sub-IsRegistry :
    (m : Registry) (name : Bytes) (k : ℕ) → IsRegistry m → IsRegistry (drop_sub m name k)
unfolding drop_sub
drop_sub-IsRegistry m name k w = elim (Option-cases (lookup_key m name)) [
  | inl h ↦ rw (drop_sub, h) w
  | inr (l, h) ↦
      let d = (All_lookup (λ e. IsSubs e.1) m name l w.1 h).1.1 in
      rw (drop_sub, h)
        (put_or_drop-IsRegistry m name (without_sub l k) w (DistinctIds-without l k d))
]

keep_rest-IsRegistry :
    (name : Bytes) (l : Subs) (m : Registry)
    → lookup_key m name ≡ none
    → DistinctIds l
    → IsRegistry m
    → IsRegistry (keep_rest name l m)
keep_rest-IsRegistry name [] m h d w = w
keep_rest-IsRegistry name (s ∷ l) m h d (u, a) = ((h, u), ((tt, d), a))

pub drop_all-IsRegistry : (m : Registry) (k : ℕ) → IsRegistry m → IsRegistry (drop_all m k)
unfolding drop_all
drop_all-IsRegistry [] k w = w
drop_all-IsRegistry ((name, l) ∷ m) k (u, a) =
    let rest = drop_all-IsRegistry m k (u.1, a.1) in
    let gone = lookup-drop_all m k name u.0 in
    elim (Bool-cases (has_id l k)) [
      | inl f ↦ rw f (
          keep_rest-IsRegistry name (without_sub l k) (drop_all m k) gone
            (DistinctIds-without l k a.0.1) rest)
      | inr f ↦ rw f ((gone, rest.0), (a.0, rest.1))
    ]
