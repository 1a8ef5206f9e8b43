-- ===== src/Commands/SetAlgebra/Built.antt =====
-- What the loops of the set algebra put into the result.
use ultima.Base.{
  ◌≡◌, refl, ◌∙◌, inl, inr, Bool, true, false, ◌&&◌, ◌||◌, some, List, [], ◌∷◌, Bytes, bytes_eq,
  bytes_eq_iff, All, Bool-cases, arith,
}
use ultima.Base.Maps.{put_key, is_one_of, bytes_eq_comm}
use ultima.Types.Set.{MemberMap, IntSet, in_map}
use ultima.Types.Set.Encoding.{IsShort}
use ultima.Types.Set.Forms.{Stands}
use ultima.Types.Set.Promote.{in_map-put}
use ultima.Types.Set.Adding.{with_member, set_add_lem}
use ultima.Commands.SetAlgebra.{marked, add_if, add_where}

pub marked-in_map :
    (xs : List Bytes) (m : MemberMap) (j : Bytes)
    → in_map (marked xs m) j ≡ (is_one_of j xs || in_map m j)
unfolding marked
marked-in_map [] m j = refl
marked-in_map (x ∷ xs) m j =
    marked-in_map xs (put_key m x tt) j
    ∙ rw (in_map-put m x j, bytes_eq_comm j x) (swap (is_one_of j xs) (bytes_eq x j) (in_map m j))
  where
    swap : (a b c : Bool) → (a || (b || c)) ≡ ((b || a) || c)
    swap a b c = ground arith

in_map-with_member :
    (l : MemberMap) (m j : Bytes) → in_map (with_member l m) j ≡ (bytes_eq m j || in_map l j)
in_map-with_member l m j = elim (Bool-cases (in_map l m)) [
  | inl p ↦ elim (Bool-cases (bytes_eq m j)) [
    | inl q ↦ rw (p, q) (let e : m ≡ j = (bytes_eq_iff m j).0 q in rw (← e) p)
    | inr q ↦ rw (p, q) refl
  ]
  | inr p ↦ rw p (in_map-put l m j)
]

-- The texts after the loop: those before it, and the members that pass the test.
pub record Grown (f : Bytes → Bool) (ms : List Bytes) (l l' : MemberMap) : Type 0 where
  pub view : (j : Bytes) → in_map l' j ≡ ((is_one_of j ms && f j) || in_map l j)

one_more :
    (f : Bytes → Bool) (m j : Bytes) (a b : Bool)
    → f m ≡ true
    → ((a && f j) || (bytes_eq m j || b)) ≡ (((bytes_eq j m || a) && f j) || b)
one_more f m j a b p = elim (Bool-cases (bytes_eq m j)) [
  | inl q ↦
      let e : m ≡ j = (bytes_eq_iff m j).0 q in
      let pj : f j ≡ true = (rw e at p) in rw (bytes_eq_comm j m, q, pj) (ground arith)
  | inr q ↦ rw (bytes_eq_comm j m, q) refl
]

one_less :
    (f : Bytes → Bool) (m j : Bytes) (a b : Bool)
    → f m ≡ false
    → ((a && f j) || b) ≡ (((bytes_eq j m || a) && f j) || b)
one_less f m j a b p = elim (Bool-cases (bytes_eq m j)) [
  | inl q ↦
      let e : m ≡ j = (bytes_eq_iff m j).0 q in
      let pj : f j ≡ false = (rw e at p) in rw (bytes_eq_comm j m, q, pj) (ground arith)
  | inr q ↦ rw (bytes_eq_comm j m, q) refl
]

pub add_where-Grown :
    (f : Bytes → Bool) (ms : List Bytes) (s : IntSet) (l : MemberMap)
    → All IsShort ms
    → Stands s l
    → (s' : IntSet) × (l' : MemberMap) × (add_where f ms s ≡ some s')
      × Stands s' l'
      × Grown f ms l l'
unfolding add_where add_if
add_where-Grown f [] s l short st = (s, l, refl, st, record { view = λ j. refl })
add_where-Grown f (m ∷ ms) s l short st = elim (Bool-cases (f m)) [
  | inl p ↦
      let (s₁, e, st₁) = set_add_lem s l m short.0 st in
      let (s', l', e', st', g) = add_where-Grown f ms s₁ (with_member l m) short.1 st₁ in
      (
        s',
        l',
        rw (p, e) e',
        st',
        record {
          view = λ j.
              g.view j
              ∙ rw (in_map-with_member l m j) (one_more f m j (is_one_of j ms) (in_map l j) p);
        },
      )
  | inr p ↦
      let (s', l', e', st', g) = add_where-Grown f ms s l short.1 st in
      (
        s',
        l',
        rw p e',
        st',
        record { view = λ j. g.view j ∙ one_less f m j (is_one_of j ms) (in_map l j) p },
      )
]
