-- ===== src/Commands/SetAlgebra/Texts.antt =====
-- Which texts the set algebra returns, in terms of which inputs hold them.
use ultima.Base.{
  ◌≡◌, refl, ◌∙◌, inl, inr, Bool, true, false, not, ◌&&◌, ◌||◌, some, List, [], ◌∷◌, Bytes, All,
  ◌>>=◌, Bool-cases, arith,
}
use ultima.Base.Maps.{lookup_key, is_one_of}
use ultima.Types.Set.{MemberMap, IntSet, new_set, in_map, members}
use ultima.Types.Set.Encoding.{IsShort}
use ultima.Types.Set.Forms.{Stands}
use ultima.Types.Set.Refines.{new_set-Stands}
use ultima.Types.Set.Members.{Once, members-Listed}
use ultima.Commands.SetAlgebra.{
  Snapshot, marked, marked_all, add_where, anything, add_snapshots, union_all, diff_all,
}
use ultima.Commands.SetAlgebra.Built.{marked-in_map, add_where-Grown}

-- A snapshot of a missing key has no members; the members have at most 19 digits.
pub record IsSnapshot (sn : Snapshot) : Type 0 where
  pub short : All IsShort sn.members
  pub absent : sn.present ≡ false → sn.members ≡ []

-- The text is in some input, in every input.
abbrev pub in_some : List Snapshot → Bytes → Bool
in_some [] j = false
in_some (sn ∷ snaps) j = is_one_of j sn.members || in_some snaps j

abbrev pub in_every : List Snapshot → Bytes → Bool
in_every [] j = true
in_every (sn ∷ snaps) j = is_one_of j sn.members && in_every snaps j

-- A list of distinct texts that holds a text exactly if `f` does.
pub record Collects (f : Bytes → Bool) (ms : List Bytes) : Type 0 where
  pub once : Once ms
  pub view : (j : Bytes) → IsShort j → is_one_of j ms ≡ f j

result_lem :
    (f : Bytes → Bool) (s : IntSet) (l : MemberMap)
    → Stands s l
    → ((j : Bytes) → IsShort j → in_map l j ≡ f j)
    → (ms : List Bytes) × (members s ≡ some ms) × Collects f ms
result_lem f s l st view =
    let (ms, e, listed) = members-Listed s l st in
    (ms, e, record { once = listed.once; view = λ j short. listed.view j short ∙ view j short })

pub nothing : (b : Bool) (j : Bytes) → (b || in_map [] j) ≡ b
unfolding in_map lookup_key
nothing true j = refl
nothing false j = refl

add_snapshots_lem :
    (snaps : List Snapshot) (s : IntSet) (l : MemberMap)
    → All IsSnapshot snaps
    → Stands s l
    → (s' : IntSet) × (l' : MemberMap) × (add_snapshots snaps s ≡ some s')
      × Stands s' l'
      × ((j : Bytes) → in_map l' j ≡ (in_some snaps j || in_map l j))
unfolding add_snapshots
add_snapshots_lem [] s l ok st = (s, l, refl, st, λ j. refl)
add_snapshots_lem (sn ∷ snaps) s l ok st =
    let (s₁, l₁, e₁, st₁, g) = add_where-Grown anything sn.members s l ok.0.short st in
    let (s₂, l₂, e₂, st₂, view) = add_snapshots_lem snaps s₁ l₁ ok.1 st₁ in
    (
      s₂,
      l₂,
      rw e₁ e₂,
      st₂,
      λ j. view j ∙ rw (g.view j) (shift (in_some snaps j) (is_one_of j sn.members) (in_map l j)),
    )
  where
    shift : (a b c : Bool) → (a || ((b && true) || c)) ≡ ((b || a) || c)
    shift a b c = ground arith

pub union_all-Collects :
    (snaps : List Snapshot)
    → All IsSnapshot snaps
    → (ms : List Bytes) × (union_all snaps ≡ some ms) × Collects (in_some snaps) ms
unfolding union_all
union_all-Collects snaps ok =
    let (s, l, e, st, view) = add_snapshots_lem snaps new_set [] ok new_set-Stands in
    let (ms, e', c) =
      result_lem (in_some snaps) s l st (λ j short. view j ∙ nothing (in_some snaps j) j) in
    (ms, rw e e', c)

marked_all-in_map :
    (snaps : List Snapshot) (m : MemberMap) (j : Bytes)
    → in_map (marked_all snaps m) j ≡ (in_some snaps j || in_map m j)
unfolding marked_all
marked_all-in_map [] m j = refl
marked_all-in_map (sn ∷ snaps) m j =
    marked_all-in_map snaps (marked sn.members m) j
    ∙ rw (marked-in_map sn.members m j)
        (shift (in_some snaps j) (is_one_of j sn.members) (in_map m j))
  where
    shift : (a b c : Bool) → (a || (b || c)) ≡ ((b || a) || c)
    shift a b c = ground arith

-- The members of one input that pass a test.
pub filtered :
    (f : Bytes → Bool) (sn : Snapshot)
    → IsSnapshot sn
    → (ms : List Bytes) × (((add_where f sn.members new_set) >>= (λ result. members result))
        ≡ some ms)
      × Collects (λ j. is_one_of j sn.members && f j) ms
filtered f sn ok =
    let (s, l, e, st, g) = add_where-Grown f sn.members new_set [] ok.short new_set-Stands in
    let (ms, e', c) =
      result_lem (λ j. is_one_of j sn.members && f j) s l st
        (λ j short. g.view j ∙ nothing (is_one_of j sn.members && f j) j) in
    (ms, rw e e', c)

abbrev pub in_first : List Snapshot → Bytes → Bool
in_first [] j = false
in_first (sn ∷ snaps) j = is_one_of j sn.members && not (in_some snaps j)

pub Collects-congr :
    (f g : Bytes → Bool) (ms : List Bytes)
    → ((j : Bytes) → IsShort j → f j ≡ g j)
    → Collects f ms
    → Collects g ms
Collects-congr f g ms e c = record { once = c.once; view = λ j short. c.view j short ∙ e j short }

pub diff_all-Collects :
    (snaps : List Snapshot)
    → All IsSnapshot snaps
    → (ms : List Bytes) × (diff_all snaps ≡ some ms) × Collects (in_first snaps) ms
unfolding diff_all
diff_all-Collects [] ok = ([], refl, record { once = tt; view = λ j short. refl })
diff_all-Collects (sn ∷ snaps) ok = elim (Bool-cases sn.present) [
  | inr p ↦ ([], rw p refl, record { once = tt; view = λ j short. rw (ok.0.absent p) refl })
  | inl p ↦
      let (ms, e, c) = filtered (λ m. not (in_map (marked_all snaps []) m)) sn ok.0 in
      (
        ms,
        rw p e,
        Collects-congr _ (in_first (sn ∷ snaps)) ms
            (λ j short. rw (marked_all-in_map snaps [] j ∙ nothing (in_some snaps j) j) refl) c,
      )
]
