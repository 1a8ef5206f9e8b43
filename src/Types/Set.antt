-- ===== src/Types/Set.antt =====
-- lib/types/set.go: the set value, a sorted slice of integers while it is small and all members are
-- integers, and a Go map otherwise; its memory estimate (lib/types/memusage.go). The order in which
-- Go walks a map is not specified: here it is the list's. An index out of range is `none`.
pub mod Find
pub mod Ints
pub mod Encoding
pub mod Promote
pub mod Forms
pub mod Adding
pub mod Removing
pub mod Refines
pub mod Members
use ultima.Base.{
  ℕ, zero, suc, ◌+◌, ◌*◌, ◌/◌, Bool, true, false, Option, none, some, List, [], ◌∷◌, Bytes, length,
  get_elem?, ltb, if◌then◌else◌, ◌>>=◌,
}
use ultima.Base.Int.{ℤ, ltb_ℤ, add64, sub64}
use ultima.Base.Maps.{lookup_key, put_key, remove_key}
use ultima.Numbers.{parse_int64, format_int}
use ultima.Types.{remove_at, insert_at, set_max_intset_entries}

-- map[string]struct{}
abbrev pub MemberMap : Type 0
MemberMap = List (Bytes × Unit)

-- Set, with `bytes` the bit pattern of an int64.
pub record IntSet : Type 0 where
  pub ints : List ℤ
  pub is_int : Bool
  pub member : MemberMap
  pub bytes : ℕ

abbrev pub new_set : IntSet
new_set = record { ints = []; is_int = true; member = []; bytes = 0 }

unfoldable pub set_len : IntSet → ℕ
set_len s = if s.is_int then length s.ints else length s.member

-- The loop of find: `none` on a panic, and when the fuel is not enough.
unfoldable pub find_from : ℕ → List ℤ → ℤ → ℕ → ℕ → Option (ℕ × Bool)
find_from zero ints v lo hi = none
find_from (suc fuel) ints v lo hi = elim (ltb lo hi) [
  | false ↦ some (lo, false)
  | true ↦ elim (get_elem? ints ((lo + hi) / 2)) [
    | none ↦ none
    | some x ↦ elim (ltb_ℤ x v) [
      | true ↦ find_from fuel ints v ((lo + hi) / 2 + 1) hi
      | false ↦ elim (ltb_ℤ v x) [
        | true ↦ find_from fuel ints v lo ((lo + hi) / 2)
        | false ↦ some ((lo + hi) / 2, true)
      ]
    ]
  ]
]

unfoldable pub find : List ℤ → ℤ → Option (ℕ × Bool)
unfolding find_from
find ints v = find_from (suc (length ints)) ints v 0 (length ints)

unfoldable pub in_map : MemberMap → Bytes → Bool
unfolding lookup_key
in_map m k = elim (lookup_key m k) [ none ↦ false | some u ↦ true ]

unfoldable pub contains : IntSet → Bytes → Option Bool
unfolding find in_map
contains s m =
    if s.is_int
    then elim (parse_int64 m) [ none ↦ some false | some v ↦ (find s.ints v) >>= (λ r. some r.1) ]
    else some (in_map s.member m)

-- The loop of promote over the integers.
unfoldable pub promote_ints : List ℤ → MemberMap → ℕ → Option (MemberMap × ℕ)
unfolding put_key
promote_ints [] member bytes = some (member, bytes)
promote_ints (v ∷ ints) member bytes =
    (format_int v) >>= (λ m. promote_ints ints (put_key member m tt) (add64 bytes (length m)))

unfoldable pub promote : IntSet → Option IntSet
unfolding promote_ints
promote s =
    (promote_ints s.ints [] s.bytes)
    >>= (λ r. some (record { ints = []; is_int = false; member = r.0; bytes = r.1 }))

-- The map branch of Add.
unfoldable pub add_member : IntSet → Bytes → IntSet × Bool
unfolding in_map put_key
add_member s m =
    if in_map s.member m
    then (s, false)
    else (record s { member = put_key s.member m tt; bytes = add64 s.bytes (length m) }, true)

-- What Add does once the integer branch has not returned: promote, and the map branch.
unfoldable pub add_promoted : IntSet → Bytes → Option (IntSet × Bool)
unfolding promote add_member
add_promoted s m = (if s.is_int then promote s else some s) >>= (λ s'. some (add_member s' m))

-- The integer branch of Add.
unfoldable pub add_int : IntSet → Bytes → ℤ → Option (IntSet × Bool)
unfolding find insert_at add_promoted
add_int s m v = (find s.ints v) >>= (λ (i, found).
    if found
    then some (s, false)
    else if ltb (length s.ints) set_max_intset_entries
    then some (record s { ints = insert_at i v s.ints }, true)
    else add_promoted s m)

-- Add, with whether the member is new.
unfoldable pub set_add : IntSet → Bytes → Option (IntSet × Bool)
unfolding add_int add_promoted
set_add s m = elim (parse_int64 m) [
  | none ↦ add_promoted s m
  | some v ↦ if s.is_int then add_int s m v else add_promoted s m
]

-- The integer branch of Remove.
unfoldable pub remove_int : IntSet → ℤ → Option (IntSet × Bool)
unfolding find remove_at
remove_int s v = (find s.ints v) >>= (λ (i, found).
    some (if found then (record s { ints = remove_at i s.ints }, true) else (s, false)))

-- Remove, with whether the member was present.
unfoldable pub set_remove : IntSet → Bytes → Option (IntSet × Bool)
unfolding remove_int remove_key in_map
set_remove s m =
    if s.is_int
    then elim (parse_int64 m) [ none ↦ some (s, false) | some v ↦ remove_int s v ]
    else some (
        if in_map s.member m
        then (record s { member = remove_key s.member m; bytes = sub64 s.bytes (length m) }, true)
        else (s, false))

-- Members, a text for each integer.
unfoldable pub format_all : List ℤ → Option (List Bytes)
format_all [] = some []
format_all (v ∷ ints) = (format_int v) >>= (λ m. (format_all ints) >>= (λ ms. some (m ∷ ms)))

abbrev pub keys_of : MemberMap → List Bytes
keys_of [] = []
keys_of ((m, _) ∷ l) = m ∷ keys_of l

unfoldable pub members : IntSet → Option (List Bytes)
unfolding format_all
members s = if s.is_int then format_all s.ints else some (keys_of s.member)

-- Set.MemUsage, with setBase, setIntsetElem and setMapSlot written out.
unfoldable pub set_mem : IntSet → ℕ
set_mem s =
    if s.is_int then add64 64 (length s.ints * 8) else add64 (64 + length s.member * 16) s.bytes
