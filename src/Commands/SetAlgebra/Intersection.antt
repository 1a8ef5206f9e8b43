-- ===== src/Commands/SetAlgebra/Intersection.antt =====
-- intersect walks a shortest input and asks the others: the result is the same as for any input.
use ultima.Base.{
  ℕ, zero, suc, ◌+◌, ◌<◌, ◌≡◌, refl, ap, sym, ◌∙◌, inl, inr, Bool, true, false, not, ◌&&◌, some,
  List, [], ◌∷◌, Bytes, length, All, get_elem?, ltb, if◌then◌else◌, map, Bool-cases, arith,
}
use ultima.Base.Maps.{is_one_of}
use ultima.Types.{remove_at}
use ultima.Commands.SetAlgebra.{
  Snapshot, marked, intersect, intersect_at, in_all, any_absent, smallest_from,
}
use ultima.Commands.SetAlgebra.Built.{marked-in_map}
use ultima.Commands.SetAlgebra.Texts.{
  IsSnapshot, in_every, Collects, filtered, Collects-congr, nothing,
}

-- In every input, of which there is one.
abbrev pub in_common : List Snapshot → Bytes → Bool
in_common [] j = false
in_common (sn ∷ snaps) j = in_every (sn ∷ snaps) j

-- The index that the search for a shortest input returns is one of the inputs.
smallest_from-inside :
    (snaps : List Snapshot) (i base best n : ℕ)
    → i + length snaps ≡ n
    → base < n
    → smallest_from snaps i base best < n
unfolding smallest_from
smallest_from-inside [] i base best n e h = h
smallest_from-inside (sn ∷ snaps) i base best n e h =
    elim (Bool-cases (ltb (length sn.members) best)) [
      | inl p ↦ rw p (
          smallest_from-inside snaps (i + 1) i (length sn.members) n (omega (arith, e))
            (omega (arith, e)))
      | inr p ↦ rw p (smallest_from-inside snaps (i + 1) base best n (omega (arith, e)) h)
    ]

get_inside :
    {A : Type 0} (xs : List A) (i : ℕ) → i < length xs → (x : A) × (get_elem? xs i ≡ some x)
get_inside [] i h = absurd (omega arith)
get_inside (x ∷ xs) zero h = (x, refl)
get_inside (x ∷ xs) (suc i) h = get_inside xs i (omega (arith, h))

get-IsSnapshot :
    (snaps : List Snapshot) (i : ℕ) (sn : Snapshot)
    → All IsSnapshot snaps
    → get_elem? snaps i ≡ some sn
    → IsSnapshot sn
get-IsSnapshot [] i sn ok e = cc e
get-IsSnapshot (s ∷ snaps) zero sn ok e = let same : s ≡ sn = ground arith in rw (← same) ok.0
get-IsSnapshot (s ∷ snaps) (suc i) sn ok e = get-IsSnapshot snaps i sn ok.1 e

in_every-split :
    (snaps : List Snapshot) (i : ℕ) (sn : Snapshot) (j : Bytes)
    → get_elem? snaps i ≡ some sn
    → (is_one_of j sn.members && in_every (remove_at i snaps) j) ≡ in_every snaps j
unfolding remove_at
in_every-split [] i sn j e = cc e
in_every-split (s ∷ snaps) zero sn j e = let same : s ≡ sn = ground arith in rw same refl
in_every-split (s ∷ snaps) (suc i) sn j e =
    let rest = in_every-split snaps i sn j e in
    swap (is_one_of j sn.members) (is_one_of j s.members) (in_every (remove_at i snaps) j)
    ∙ ap (λ b. is_one_of j s.members && b) rest
  where
    swap : (a b c : Bool) → (a && (b && c)) ≡ (b && (a && c))
    swap a b c = ground arith

in_all-in_every :
    (snaps : List Snapshot) (j : Bytes)
    → in_all (map (λ sn. marked sn.members []) snaps) j ≡ in_every snaps j
unfolding in_all
in_all-in_every [] j = refl
in_all-in_every (sn ∷ snaps) j =
    let here = marked-in_map sn.members [] j ∙ nothing (is_one_of j sn.members) j in
    rw (here, in_all-in_every snaps j) (test (is_one_of j sn.members) (in_every snaps j))
  where
    test : (a b : Bool) → (if not a then false else b) ≡ (a && b)
    test true b = refl
    test false b = refl

absent_in_every :
    (snaps : List Snapshot) (j : Bytes)
    → All IsSnapshot snaps
    → any_absent snaps ≡ true
    → in_every snaps j ≡ false
unfolding any_absent
absent_in_every [] j ok h = ground arith
absent_in_every (sn ∷ snaps) j ok h = elim (Bool-cases sn.present) [
  | inr p ↦ rw (ok.0.absent p) refl
  | inl p ↦ rw (absent_in_every snaps j ok.1 (rw p at h)) (last (is_one_of j sn.members))
]
  where
    last : (b : Bool) → (b && false) ≡ false
    last true = refl
    last false = refl

intersect_at-Collects :
    (snaps : List Snapshot) (base : ℕ)
    → All IsSnapshot snaps
    → base < length snaps
    → (ms : List Bytes) × (intersect_at snaps base ≡ some ms) × Collects (in_every snaps) ms
unfolding intersect_at
intersect_at-Collects snaps base ok inside =
    let (least, e) = get_inside snaps base inside in
    let others = remove_at base snaps in
    let (ms, run, c) =
      filtered (in_all (map (λ sn. marked sn.members []) others)) least
        (get-IsSnapshot snaps base least ok e) in
    (
      ms,
      rw e run,
      Collects-congr _ (in_every snaps) ms
          (λ j short. rw (in_all-in_every others j) (in_every-split snaps base least j e)) c,
    )

pub intersect-Collects :
    (snaps : List Snapshot)
    → All IsSnapshot snaps
    → (ms : List Bytes) × (intersect snaps ≡ some ms) × Collects (in_common snaps) ms
unfolding intersect
intersect-Collects [] ok = ([], refl, record { once = tt; view = λ j short. refl })
intersect-Collects (sn ∷ snaps) ok = elim (Bool-cases (any_absent (sn ∷ snaps))) [
  | inl p ↦ (
    [],
    rw p refl,
    record { once = tt; view = λ j short. sym (absent_in_every (sn ∷ snaps) j ok p) },
  )
  | inr p ↦
      let base = smallest_from (sn ∷ snaps) 0 0 (length sn.members) in
      let inside =
        smallest_from-inside (sn ∷ snaps) 0 0 (length sn.members) (length (sn ∷ snaps))
          (omega arith) (omega arith) in
      let (ms, e, c) = intersect_at-Collects (sn ∷ snaps) base ok inside in (ms, rw p e, c)
]
