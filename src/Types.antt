-- ===== src/Types.antt =====
-- The collection values of lib/types: the encoding thresholds, and a module per type.
pub mod Slices
pub mod Hash
pub mod Set
use ultima.Base.{ℕ, zero, suc, List, [], ◌∷◌}

abbrev pub hash_max_listpack_entries : ℕ
hash_max_listpack_entries = 128

abbrev pub hash_max_listpack_value : ℕ
hash_max_listpack_value = 64

abbrev pub set_max_intset_entries : ℕ
set_max_intset_entries = 512

-- append(s[:i], s[i+1:]...)
unfoldable pub remove_at {ℓ} : {A : Type ℓ} → ℕ → List A → List A
remove_at i [] = []
remove_at zero (x ∷ xs) = xs
remove_at (suc i) (x ∷ xs) = x ∷ remove_at i xs

-- append(s, 0); copy(s[i+1:], s[i:]); s[i] = v
unfoldable pub insert_at {ℓ} : {A : Type ℓ} → ℕ → A → List A → List A
insert_at zero v xs = v ∷ xs
insert_at (suc i) v [] = v ∷ []
insert_at (suc i) v (x ∷ xs) = x ∷ insert_at i v xs
