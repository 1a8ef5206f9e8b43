-- ===== src/Shard/Lookup.antt =====
-- The three outcomes of Lookup: missing, expired, live.
use ultima.Base.{ℕ, ◌≡◌, ◌⊎◌, inl, inr, true, false, none, some, Bytes, Bool-cases, Option-cases}
use ultima.Platform.{Platform}
use ultima.Shard.{Shard, Ent, expire_entry, is_expired, lookup}

module _ ⦃P : Platform⦄ where
  open P use {search}

  pub record IsMissing (s : Shard) (db : ℕ) (k : Bytes) : Type 0 where
    pub absent : search (s.tab db) k ≡ none
    pub outcome : lookup s db k ≡ (none, s)

  pub record IsStale (s : Shard) (db : ℕ) (k : Bytes) (e : Ent) : Type 0 where
    pub present : search (s.tab db) k ≡ some e
    pub expired : is_expired e s.now ≡ true
    pub outcome : lookup s db k ≡ (none, expire_entry s db k e)

  pub record IsLive (s : Shard) (db : ℕ) (k : Bytes) (e : Ent) : Type 0 where
    pub present : search (s.tab db) k ≡ some e
    pub alive : is_expired e s.now ≡ false
    pub outcome : lookup s db k ≡ (some e, s)

  pub lookup_cases :
      (s : Shard) (db : ℕ) (k : Bytes)
      → IsMissing s db k ⊎ (((e : Ent) × IsStale s db k e) ⊎ ((e : Ent) × IsLive s db k e))
  lookup_cases s db k = elim (Option-cases (search (s.tab db) k)) [
    | inl e ↦ inl (record { absent = e; outcome = unfold lookup in rw (e, lookup) })
    | inr (x, e) ↦ elim (Bool-cases (is_expired x s.now)) [
      | inl b ↦ inr (
          inl
            (x, record { present = e; expired = b; outcome = unfold lookup in rw (e, lookup, b) }))
      | inr b ↦
          inr (
            inr
              (x, record { present = e; alive = b; outcome = unfold lookup in rw (e, lookup, b) }))
    ]
  ]
