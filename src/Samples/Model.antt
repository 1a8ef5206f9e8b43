-- ===== src/Samples/Model.antt =====
-- The containers as a Platform with hashes and an empty list as collections.
use ultima.Base.{
  ◌≡◌, ap, true, false, true_ne_false, refl, sym, ◌≢◌, inl, inr, List, [], ◌∷◌, Bytes, length, Bool,
  ℕ, Option, none, some,
}
use ultima.Types.Hash.{Hash, hash_mem}
use ultima.Types.Set.{IntSet, set_mem}
use ultima.Commands.Collections.{Hashes, Sets}
use ultima.Platform.{
  Platform, Entry, EntryType, type_hash, type_set, type_list, type_string, ExpItem,
}
use ultima.Base.Maps.{lookup_key, lookup-empty, Unique}
use ultima.Samples.Containers.{
  insert_key, drop_key, lookup-drop_key, sum-drop_key, search-insert_key, sum-insert_key,
}
use ultima.Samples.Heaps.{
  least, without_least, least-none, least-le, least-Elem, length-without_least,
}

-- A collection is a hash, a set or a list without elements.
pub data Held : Type 0 where
  a_hash : Hash → Held
  a_set : IntSet → Held
  a_list : Held

is_string_type : EntryType → Bool
is_string_type type_string = true
is_string_type _ = false

is_hash_type : EntryType → Bool
is_hash_type type_hash = true
is_hash_type _ = false

is_set_type : EntryType → Bool
is_set_type type_set = true
is_set_type _ = false

abbrev pub held_type : Held → EntryType
held_type (a_hash h) = type_hash
held_type (a_set s) = type_set
held_type a_list = type_list

abbrev pub held_mem : Held → ℕ
held_mem (a_hash h) = hash_mem h
held_mem (a_set s) = set_mem s
held_mem a_list = 96

pub held_ne_string : (o : Held) → held_type o ≢ type_string
unfolding is_string_type
held_ne_string (a_hash h) e = true_ne_false (sym (ap is_string_type e))
held_ne_string (a_set s) e = true_ne_false (sym (ap is_string_type e))
held_ne_string a_list e = true_ne_false (sym (ap is_string_type e))

abbrev pub held_hash : Held → Option Hash
held_hash (a_hash h) = some h
held_hash (a_set s) = none
held_hash a_list = none

abbrev pub held_set : Held → Option IntSet
held_set (a_set s) = some s
held_set (a_hash h) = none
held_set a_list = none

instance abbrev pub sample : Platform
sample = record {
  Obj = Held;
  obj_type = held_type;
  obj_mem = held_mem;
  obj_type-ne-string = held_ne_string;
  checksum64 = length;
  Tab = (l : List (Bytes × Entry Held)) × Unique l;
  empty_tab = ([], tt);
  search = λ t k. lookup_key t.0 k;
  insert = insert_key;
  remove = drop_key;
  walk = λ t. t.0;
  search-empty = λ j. lookup-empty j;
  search-insert = λ t k j e. search-insert_key t k j e;
  search-remove = λ t k j. lookup-drop_key t k j;
  walk-empty = refl;
  sum-walk-insert = λ f t k e. sum-insert_key f t k e;
  sum-walk-remove = λ f t k. sum-drop_key f t k;
  Heap = List ExpItem;
  empty_heap = [];
  push = λ h x. x ∷ h;
  peek = least;
  pop = without_least;
  items = λ h. h;
  items-empty = refl;
  elem-push_self = λ h x. inl refl;
  elem-push = λ h x y m. inr m;
  peek_none = least-none;
  peek_least = least-le;
  elem-pop = least-Elem;
  length-pop = length-without_least;
}

pub held_hash-typed : (o : Held) → held_type o ≡ type_hash → (h : Hash) × (held_hash o ≡ some h)
unfolding is_hash_type
held_hash-typed (a_hash h) e = (h, refl)
held_hash-typed (a_set s) e = absurd (true_ne_false (sym (ap is_hash_type e)))
held_hash-typed a_list e = absurd (true_ne_false (sym (ap is_hash_type e)))

pub held_set-typed : (o : Held) → held_type o ≡ type_set → (s : IntSet) × (held_set o ≡ some s)
unfolding is_set_type
held_set-typed (a_set s) e = (s, refl)
held_set-typed (a_hash h) e = absurd (true_ne_false (sym (ap is_set_type e)))
held_set-typed a_list e = absurd (true_ne_false (sym (ap is_set_type e)))

instance abbrev pub sample_hashes : Hashes
sample_hashes = record {
  of_hash = a_hash;
  as_hash = held_hash;
  as_hash-of_hash = λ h. refl;
  obj_type-of_hash = λ h. refl;
  as_hash-typed = held_hash-typed;
  obj_mem-of_hash = λ h. refl;
}

instance abbrev pub sample_sets : Sets
sample_sets = record {
  of_set = a_set;
  as_set = held_set;
  as_set-of_set = λ s. refl;
  obj_type-of_set = λ s. refl;
  as_set-typed = held_set-typed;
  obj_mem-of_set = λ s. refl;
}
