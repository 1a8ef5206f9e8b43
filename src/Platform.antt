-- ===== src/Platform.antt =====
-- What lib/shard keeps per key (Type, Entry, expItem, tombKey), and the containers of other packages
-- that it is built on: pluto's sharded_hash_ts (one table per logical DB) and heap_ts (expiry
-- heap). They are parameters; a field's law states what their documentation promises.
use ultima.Base.{
  ℕ, ◌+◌, ◌≡◌, ◌⊎◌, ◌≢◌, Option, none, some, List, [], ◌∷◌, Bytes, length, bytes_eq, suc,
  if◌then◌else◌,
}
use ultima.Base.Int.{ℤ, ◌≤ℤ◌}

-- The type tags of an entry.
pub data EntryType : Type 0 where
  type_string type_hash type_list type_set type_zset : EntryType

-- Strings live in `Str`, collections in `Obj`.
pub data Payload (Obj : Type 0) : Type 0 where
  text : Bytes → Payload Obj
  coll : Obj → Payload Obj

-- shard.Entry. `mem_bytes` is the bit pattern of an int64, `exp_gen` and `version` are uint64.
pub record Entry (Obj : Type 0) : Type 0 where
  pub payload : Payload Obj
  pub expire_at_ms : ℤ
  pub exp_gen : ℕ
  pub version : ℕ
  pub mem_bytes : ℕ

-- One element of the expiry heap.
pub record ExpItem : Type 0 where
  pub at : ℤ
  pub db : ℕ
  pub key : Bytes
  pub gen : ℕ

-- Membership in a list of data at level 0.
abbrev pub Elem : {A : Type 0} → A → List A → Type 0
Elem x [] = ⊥
Elem x (y ∷ ys) = (x ≡ y) ⊎ Elem x ys

abbrev pub sum : {A : Type 0} → (A → ℕ) → List A → ℕ
sum f [] = 0
sum f (x ∷ xs) = f x + sum f xs

abbrev pub or_zero : {A : Type 0} → (A → ℕ) → Option A → ℕ
or_zero f none = 0
or_zero f (some a) = f a

-- A logical DB's table, seen by the shard that owns the keys, and the shard's heap.
pub record Platform : Type 1 where
  -- `any` in Entry.Obj: a collection, its type tag, and its MemUsage as an int64 bit pattern
  pub Obj : Type 0
  pub obj_type : Obj → EntryType
  pub obj_mem : Obj → ℕ
  pub obj_type-ne-string : (o : Obj) → obj_type o ≢ type_string
  -- crc.Checksum64 with the engine's table
  pub checksum64 : Bytes → ℕ
  -- sharded_hash_ts
  pub Tab : Type 0
  pub empty_tab : Tab
  pub search : Tab → Bytes → Option (Entry Obj)
  pub insert : Tab → Bytes → Entry Obj → Tab
  pub remove : Tab → Bytes → Tab
  pub walk : Tab → List (Bytes × Entry Obj)
  pub search-empty : (j : Bytes) → search empty_tab j ≡ none
  pub search-insert :
      (t : Tab) (k j : Bytes) (e : Entry Obj)
      → search (insert t k e) j ≡ (if bytes_eq k j then some e else search t j)
  pub search-remove :
      (t : Tab) (k j : Bytes) → search (remove t k) j ≡ (if bytes_eq k j then none else search t j)
  -- Walk visits each element once.
  pub walk-empty : walk empty_tab ≡ []
  pub sum-walk-insert :
      (f : Bytes × Entry Obj → ℕ) (t : Tab) (k : Bytes) (e : Entry Obj)
      → sum f (walk (insert t k e)) + or_zero (λ x. f (k, x)) (search t k)
        ≡ sum f (walk t) + f (k, e)
  pub sum-walk-remove :
      (f : Bytes × Entry Obj → ℕ) (t : Tab) (k : Bytes)
      → sum f (walk (remove t k)) + or_zero (λ x. f (k, x)) (search t k) ≡ sum f (walk t)
  -- heap_ts with cmpExpItem, which orders by `At` first
  pub Heap : Type 0
  pub empty_heap : Heap
  pub push : Heap → ExpItem → Heap
  pub peek : Heap → Option ExpItem
  pub pop : Heap → Heap
  pub items : Heap → List ExpItem
  pub items-empty : items empty_heap ≡ []
  pub elem-push_self : (h : Heap) (x : ExpItem) → Elem x (items (push h x))
  pub elem-push : (h : Heap) (x y : ExpItem) → Elem y (items h) → Elem y (items (push h x))
  pub peek_none : (h : Heap) → peek h ≡ none → items h ≡ []
  pub peek_least : (h : Heap) (x y : ExpItem) → peek h ≡ some x → Elem y (items h) → x.at ≤ℤ y.at
  pub elem-pop :
      (h : Heap) (x y : ExpItem)
      → peek h ≡ some x
      → Elem y (items h)
      → (y ≡ x) ⊎ Elem y (items (pop h))
  pub length-pop :
      (h : Heap) (x : ExpItem) → peek h ≡ some x → length (items h) ≡ suc (length (items (pop h)))
