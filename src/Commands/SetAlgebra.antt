-- ===== src/Commands/SetAlgebra.antt =====
-- The set algebra of lib/commands/set.go: the snapshots of some sets and their intersection, union and
-- difference, built as a new set. `none` is a panic.
pub mod Built
pub mod Texts
pub mod Intersection
use ultima.Base.{
  ℕ, ◌+◌, Bool, true, false, not, ◌&&◌, Option, none, some, List, [], ◌∷◌, Bytes, length, get_elem?,
  ltb, if◌then◌else◌, ◌>>=◌, map,
}
use ultima.Base.Maps.{lookup_key, put_key}
use ultima.Types.{remove_at}
use ultima.Types.Set.{MemberMap, IntSet, new_set, in_map, set_add, members}

-- setSnapshot
pub record Snapshot : Type 0 where
  pub members : List Bytes
  pub present : Bool

-- m[mem] = true, for each of the members.
unfoldable pub marked : List Bytes → MemberMap → MemberMap
unfolding put_key
marked [] m = m
marked (x ∷ xs) m = marked xs (put_key m x tt)

unfoldable pub add_if : Bool → IntSet → Bytes → Option IntSet
unfolding set_add
add_if true s m = (set_add s m) >>= (λ r. some r.0)
add_if false s m = some s

-- The loops that add to the result the members that pass a test.
unfoldable pub add_where : (Bytes → Bool) → List Bytes → IntSet → Option IntSet
unfolding add_if
add_where f [] s = some s
add_where f (m ∷ ms) s = (add_if (f m) s m) >>= (λ s₁. add_where f ms s₁)

abbrev pub anything : Bytes → Bool
anything m = true

-- The first index of a shortest input; `best` is the length of the input at `base`.
unfoldable pub smallest_from : List Snapshot → ℕ → ℕ → ℕ → ℕ
smallest_from [] i base best = base
smallest_from (sn ∷ snaps) i base best =
    if ltb (length sn.members) best
    then smallest_from snaps (i + 1) i (length sn.members)
    else smallest_from snaps (i + 1) base best

unfoldable pub any_absent : List Snapshot → Bool
any_absent [] = false
any_absent (sn ∷ snaps) = if not sn.present then true else any_absent snaps

-- inAll
unfoldable pub in_all : List MemberMap → Bytes → Bool
unfolding in_map
in_all [] m = true
in_all (o ∷ os) m = if not (in_map o m) then false else in_all os m

unfoldable pub intersect_at : List Snapshot → ℕ → Option (List Bytes)
unfolding add_where in_all marked members
intersect_at snaps base = (get_elem? snaps base) >>= (λ least.
    (add_where (in_all (map (λ sn. marked sn.members []) (remove_at base snaps))) least.members
      new_set)
    >>= (λ result. members result))

unfoldable pub intersect : List Snapshot → Option (List Bytes)
unfolding any_absent intersect_at smallest_from
intersect [] = some []
intersect (sn ∷ snaps) =
    if any_absent (sn ∷ snaps)
    then some []
    else intersect_at (sn ∷ snaps) (smallest_from (sn ∷ snaps) 0 0 (length sn.members))

unfoldable pub add_snapshots : List Snapshot → IntSet → Option IntSet
unfolding add_where
add_snapshots [] s = some s
add_snapshots (sn ∷ snaps) s = (add_where anything sn.members s) >>= (λ s₁. add_snapshots snaps s₁)

unfoldable pub union_all : List Snapshot → Option (List Bytes)
unfolding add_snapshots members
union_all snaps = (add_snapshots snaps new_set) >>= (λ result. members result)

-- rest[mem] = true, for the members of some inputs.
unfoldable pub marked_all : List Snapshot → MemberMap → MemberMap
unfolding marked
marked_all [] m = m
marked_all (sn ∷ snaps) m = marked_all snaps (marked sn.members m)

unfoldable pub diff_all : List Snapshot → Option (List Bytes)
unfolding add_where marked_all in_map members
diff_all [] = some []
diff_all (sn ∷ snaps) =
    if not sn.present
    then some []
    else (add_where (λ m. not (in_map (marked_all snaps []) m)) sn.members new_set)
      >>= (λ result. members result)
