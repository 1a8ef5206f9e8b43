-- ===== src/Shard/Table.antt =====
-- What the table of a DB and the tombstones hold after a change of one key.
use ultima.Base.{
  ℕ, ◌≡◌, refl, true, none, some, [], ◌∷◌, Bytes, bytes_eq_iff, ◌==◌, ==_iff, if◌then◌else◌, arith,
  Bool-cases, inl, inr, ◌↔◌,
}
use ultima.Platform.{Platform}
use ultima.Shard.{Ent, Tombs, same_key, tomb_get, tomb_set, tomb_delete, tomb_drop_db, update}

pub same_key_iff : (d e : ℕ) (k j : Bytes) → (same_key (d, k) (e, j) ≡ true) ↔ ((d ≡ e) × (k ≡ j))
same_key_iff d e k j = (
  λ h. (ground arith, (bytes_eq_iff k j).0 (ground arith)),
  λ (p, q). ground (arith, bytes_eq_iff k j),
)

pub tomb_get-delete :
    (m : Tombs) (d e : ℕ) (k j : Bytes)
    → tomb_get (tomb_delete m (d, k)) (e, j)
      ≡ (if same_key (d, k) (e, j) then 0 else tomb_get m (e, j))
unfolding tomb_get tomb_delete
tomb_get-delete [] d e k j = ground arith
tomb_get-delete (((b, i), v) ∷ m) d e k j =
    ground (arith, tomb_get-delete m d e k j, bytes_eq_iff i k, bytes_eq_iff i j, bytes_eq_iff k j)

pub tomb_get-set :
    (m : Tombs) (d e v : ℕ) (k j : Bytes)
    → tomb_get (tomb_set m (d, k) v) (e, j)
      ≡ (if same_key (d, k) (e, j) then v else tomb_get m (e, j))
unfolding tomb_get tomb_set
tomb_get-set m d e v k j = ground (arith, tomb_get-delete m d e k j)

pub tomb_get-drop_db :
    (m : Tombs) (d e : ℕ) (j : Bytes)
    → tomb_get (tomb_drop_db m d) (e, j) ≡ (if d == e then 0 else tomb_get m (e, j))
unfolding tomb_get tomb_drop_db
tomb_get-drop_db [] d e j = ground arith
tomb_get-drop_db (((b, i), v) ∷ m) d e j = ground (arith, tomb_get-drop_db m d e j)

module _ ⦃P : Platform⦄ where
  open P use {Tab, search, insert, remove, search-insert, search-remove}

  pub search-update_insert :
      (tab : ℕ → Tab) (db d : ℕ) (k j : Bytes) (e : Ent)
      → search (update tab db (insert (tab db) k e) d) j
        ≡ (if same_key (db, k) (d, j) then some e else search (tab d) j)
  search-update_insert tab db d k j e = elim (Bool-cases (db == d)) [
    | inl p ↦ rw (p, search-insert) (rw ((==_iff db d).0 p) refl)
    | inr p ↦ rw p
  ]

  pub search-update_remove :
      (tab : ℕ → Tab) (db d : ℕ) (k j : Bytes)
      → search (update tab db (remove (tab db) k) d) j
        ≡ (if same_key (db, k) (d, j) then none else search (tab d) j)
  search-update_remove tab db d k j = elim (Bool-cases (db == d)) [
    | inl p ↦ rw (p, search-remove) (rw ((==_iff db d).0 p) refl)
    | inr p ↦ rw p
  ]
