-- ===== src/Commands/Hash/Charge.antt =====
-- What HSET charges to the memory counter of its DB for a key that it creates.
use ultima.Base.{
  ℕ, ◌≡◌, refl, ap, sym, ◌∙◌, inl, inr, Option, none, some, List, Bytes, Option-cases,
}
use ultima.Platform.{Platform}
use ultima.Types.Hash.{Hash, new_hash}
use ultima.Shard.{Shard, lookup, store}
use ultima.Commands.Collections.{Hashes, new_coll, poke}
use ultima.Commands.Hash.{hset_fields, hset_found, hset_new, hset_task}

module _ ⦃P : Platform⦄ ⦃O : Hashes⦄ where
  open P use {search}
  open O use {of_hash}

  module _ (s : Shard) (db d : ℕ) (key : Bytes) where
    poke-charge : (o : P.Obj) → (poke s db key o).used_bytes d ≡ s.used_bytes d
    unfolding poke
    poke-charge o = elim (Option-cases (search (s.tab db) key)) [
      | inl h ↦ rw (poke, h) refl
      | inr (e, h) ↦ rw (poke, h) refl
    ]

    hset_new-charge :
        (r : Option (Hash × ℕ)) → (hset_new db key r s).1.used_bytes d ≡ s.used_bytes d
    unfolding hset_new
    hset_new-charge none = refl
    hset_new-charge (some (h, n)) = poke-charge (of_hash h)

  hset_task-charge :
      (s : Shard) (db d : ℕ) (key : Bytes) (rest : List Bytes)
      → (lookup s db key).0 ≡ none
      → (hset_task rest db key s).1.used_bytes d
        ≡ (store (lookup s db key).1 db key (new_coll (of_hash new_hash))).used_bytes d
  unfolding hset_task hset_found
  hset_task-charge s db d key rest h =
      ap (λ o. (hset_found rest db key o (lookup s db key).1).1.used_bytes d) h
      ∙ hset_new-charge (store (lookup s db key).1 db key (new_coll (of_hash new_hash))) db d key
          (hset_fields rest new_hash 0)

  -- HSET on a key that lookup does not find leaves the same memory counter in every DB whatever
  -- fields and values it is given, so a new hash is charged as an empty one.
  pub hset_task-same_charge :
      (s : Shard) (db d : ℕ) (key : Bytes) (few many : List Bytes)
      → (lookup s db key).0 ≡ none
      → (hset_task many db key s).1.used_bytes d ≡ (hset_task few db key s).1.used_bytes d
  hset_task-same_charge s db d key few many h =
      hset_task-charge s db d key many h ∙ sym (hset_task-charge s db d key few h)
