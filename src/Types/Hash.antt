-- ===== src/Types/Hash.antt =====
-- lib/types/hash.go: the hash value, an insertion-ordered slice with a field index once it is large,
-- and its memory estimate (lib/types/memusage.go). An index out of range, where Go panics, is `none`.
pub mod Pairs
mod Renumber
pub mod Encoding
pub mod Refines
pub mod Order
use ultima.Base.{
  ℕ, zero, suc, ◌+◌, ◌*◌, Bool, true, false, ◌||◌, Option, none, some, List, [], ◌∷◌, ◌++◌, Bytes,
  length, get_elem?, set, drop, bytes_eq, ltb, if◌then◌else◌, ◌>>=◌, map,
}
use ultima.Base.Int.{add64, sub64}
use ultima.Base.Maps.{lookup_key, put_key, remove_key}
use ultima.Types.{remove_at, hash_max_listpack_entries, hash_max_listpack_value}

-- hashPair
pub record HashPair : Type 0 where
  pub field : Bytes
  pub value : Bytes

-- `bytes` is the bit pattern of an int64; `idx` is `none` for nil.
pub record Hash : Type 0 where
  pub pairs : List HashPair
  pub idx : Option (List (Bytes × ℕ))
  pub bytes : ℕ

abbrev pub new_hash : Hash
new_hash = record { pairs = []; idx = none; bytes = 0 }

abbrev pub plus : ℕ → Option ℕ → Option ℕ
plus n none = none
plus n (some i) = some (n + i)

-- for i := range h.pairs { if h.pairs[i].field == field { … } }: the first index of the field.
unfoldable pub index_of : List HashPair → Bytes → Option ℕ
index_of [] k = none
index_of (p ∷ ps) k = if bytes_eq p.field k then some 0 else plus 1 (index_of ps k)

-- for j := i; j < len(h.pairs); j++ { h.idx[h.pairs[j].field] = j }, over the pairs from j on.
unfoldable pub reindex : ℕ → List HashPair → List (Bytes × ℕ) → List (Bytes × ℕ)
unfolding put_key
reindex j [] m = m
reindex j (p ∷ ps) m = reindex (j + 1) ps (put_key m p.field j)

-- Where a field stands: the index, or else the loop over the pairs.
unfoldable pub slot : Hash → Bytes → Option ℕ
unfolding index_of lookup_key
slot h k = elim h.idx [ none ↦ index_of h.pairs k | some m ↦ lookup_key m k ]

abbrev pub hash_len : Hash → ℕ
hash_len h = length h.pairs

abbrev pub is_big : Hash → Bool
is_big h = elim h.idx [ none ↦ false | some m ↦ true ]

unfoldable pub hash_get : Hash → Bytes → Option (Option Bytes)
unfolding slot
hash_get h k = elim (slot h k) [
  | none ↦ some none
  | some i ↦ (get_elem? h.pairs i) >>= (λ p. some (some p.value))
]

unfoldable pub promote : Hash → Hash
unfolding reindex
promote h = record h { idx = some (reindex 0 h.pairs []) }

-- h.pairs[i].value = value
unfoldable pub assign : Hash → ℕ → Bytes → HashPair → Hash
assign h i v p = record h {
  bytes = add64 h.bytes (sub64 (length v) (length p.value));
  pairs = set h.pairs i (record p { value = v });
}

-- append(h.pairs, hashPair{field, value}), and its bytes.
unfoldable pub grown : Hash → Bytes → Bytes → Hash
grown h k v = record h {
  pairs = h.pairs ++ (record { field = k; value = v }) ∷ [];
  bytes = add64 h.bytes (length k + length v);
}

-- A new field, behind the others; past a threshold it makes a small hash large.
unfoldable pub append_pair : Hash → Bytes → Bytes → Hash
unfolding put_key promote grown
append_pair h k v = elim h.idx [
  | some m ↦ record (grown h k v) { idx = some (put_key m k (length h.pairs)) }
  | none ↦
      if ltb hash_max_listpack_entries (length (grown h k v).pairs)
        || ltb hash_max_listpack_value (length k)
        || ltb hash_max_listpack_value (length v)
      then promote (grown h k v)
      else grown h k v
]

-- Set, with whether the field is new.
unfoldable pub hash_set : Hash → Bytes → Bytes → Option (Hash × Bool)
unfolding slot assign append_pair
hash_set h k v = elim (slot h k) [
  | some i ↦ (get_elem? h.pairs i) >>= (λ p. some (assign h i v p, false))
  | none ↦ some (append_pair h k v, true)
]

-- The pair at i taken out, and the index renumbered from there.
unfoldable pub cut : Hash → ℕ → Bytes → HashPair → Hash
unfolding remove_at remove_key reindex
cut h i k p = record h {
  bytes = sub64 h.bytes (length k + length p.value);
  pairs = remove_at i h.pairs;
  idx = elim h.idx [
    | none ↦ none
    | some m ↦ some (reindex i (drop i (remove_at i h.pairs)) (remove_key m k))
  ];
}

-- Del, with whether the field existed.
unfoldable pub hash_del : Hash → Bytes → Option (Hash × Bool)
unfolding slot cut
hash_del h k = elim (slot h k) [
  | none ↦ some (h, false)
  | some i ↦ (get_elem? h.pairs i) >>= (λ p. some (cut h i k p, true))
]

unfoldable pub fields : Hash → List Bytes
fields h = map (λ p. p.field) h.pairs

-- Hash.MemUsage, with hashBase, hashPairCost and hashMapSlot written out.
unfoldable pub hash_mem : Hash → ℕ
hash_mem h =
    let total = add64 (64 + length h.pairs * 32) h.bytes in
    elim h.idx [ none ↦ total | some m ↦ add64 total (length h.pairs * 16) ]
