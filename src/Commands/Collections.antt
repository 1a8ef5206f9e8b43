-- ===== src/Commands/Collections.antt =====
-- lib/commands/coll.go: what the commands of the collections share. An `any` that holds a *types.Hash or a
-- *types.Set is an object with one in it, and a command changes it in place.
pub mod Outcomes
use ultima.Base.{
  Bool, ℕ, ◌+◌, ◌%◌, ◌^◌, max, ◌≡◌, refl, ◌∙◌, true, false, Option, none, some, List, ◌++◌, map,
  Bytes, if◌then◌else◌,
}
use ultima.Base.Int.{pos}
use ultima.Platform.{Platform, type_hash, type_set, coll, or_zero}
use ultima.Resp.{Value}
use ultima.Types.Hash.{Hash, hash_mem}
use ultima.Types.Set.{IntSet, set_mem}
use ultima.Shard.{Shard, Ent, update, store, same_key, tomb_get, entry_mem}
use ultima.Shard.Table.{search-update_insert, same_key_iff}
use ultima.Shard.View.{Content, content, live_content, view, view-insert, view-store, now-store}
use ultima.Commands.{Server, Reply, do_task}
use ultima.Commands.Outcome.{Outcome}

-- The hashes among the objects, with the tag and the estimate that the shard asks for.
pub record Hashes ⦃P : Platform⦄ : Type 0 where
  pub of_hash : Hash → P.Obj
  pub as_hash : P.Obj → Option Hash
  pub as_hash-of_hash : (h : Hash) → as_hash (of_hash h) ≡ some h
  pub obj_type-of_hash : (h : Hash) → P.obj_type (of_hash h) ≡ type_hash
  pub as_hash-typed : (o : P.Obj) → P.obj_type o ≡ type_hash → (h : Hash) × (as_hash o ≡ some h)
  pub obj_mem-of_hash : (h : Hash) → P.obj_mem (of_hash h) ≡ hash_mem h

-- The sets among the objects.
pub record Sets ⦃P : Platform⦄ : Type 0 where
  pub of_set : IntSet → P.Obj
  pub as_set : P.Obj → Option IntSet
  pub as_set-of_set : (s : IntSet) → as_set (of_set s) ≡ some s
  pub obj_type-of_set : (s : IntSet) → P.obj_type (of_set s) ≡ type_set
  pub as_set-typed : (o : P.Obj) → P.obj_type o ≡ type_set → (s : IntSet) × (as_set o ≡ some s)
  pub obj_mem-of_set : (s : IntSet) → P.obj_mem (of_set s) ≡ set_mem s

module _ ⦃P : Platform⦄ where
  open P use {Obj, search, insert}

  -- storeColl's entry.
  abbrev pub new_coll : Obj → Ent
  new_coll o = record {
    payload = coll o;
    expire_at_ms = pos 0;
    exp_gen = 0;
    version = 0;
    mem_bytes = 0;
  }

  -- A change of the object behind the entry that the table holds, which no helper of the shard sees.
  unfoldable pub poke : Shard → ℕ → Bytes → Obj → Shard
  poke s db key o = elim (search (s.tab db) key) [
    | none ↦ s
    | some e ↦ record s {
      tab = update s.tab db (insert (s.tab db) key (record e { payload = coll o }));
    }
  ]

  -- The calls of notifyKeyspace behind a closure.
  unfoldable pub notify_all : Server → ℕ → Bytes → List Bytes → Server
  notify_all e db key names = record e {
    events = e.events ++ map (λ n. record { db = db; key = key; event = n }) names;
  }

  -- A handler whose closure may panic.
  unfoldable pub coll_command :
      Server → ℕ → Bytes → (Shard → Option Reply × Shard) → Option (Value × Server)
  unfolding do_task notify_all
  coll_command e db key fn = elim (do_task e key fn).0 [
    | none ↦ none
    | some r ↦ some (r.0, notify_all (do_task e key fn).1 db key r.1)
  ]

  pub poke_found :
      (s : Shard) (db d : ℕ) (key j : Bytes) (o : Obj) (e : Ent)
      → search (s.tab db) key ≡ some e
      → (view (poke s db key o) d j ≡ (
          if same_key (db, key) (d, j)
          then live_content s.now (content (record e { payload = coll o }))
          else view s d j))
        × ((poke s db key o).now ≡ s.now)
  unfolding poke
  poke_found s db d key j o e h = rw (poke, h) (view-insert s _ db d key j _ refl refl, refl)

  -- The entry that the table holds after a store.
  abbrev pub stored_entry : Shard → ℕ → Bytes → Ent → Ent
  stored_entry s db key e = record e {
    version =
        (max (tomb_get s.tomb (db, key)) (or_zero (λ o. o.version) (search (s.tab db) key)) + 1)
        % 2 ^ 64;
    mem_bytes = entry_mem key e;
  }

  pub search-store :
      (s : Shard) (db : ℕ) (key : Bytes) (e : Ent)
      → search ((store s db key e).tab db) key ≡ some (stored_entry s db key e)
  unfolding store
  search-store s db key e =
      search-update_insert s.tab db db key key (stored_entry s db key e)
      ∙ rw ((same_key_iff db db key key).1 (refl, refl)) refl

  -- An entry stored, and its object changed afterwards.
  pub poked :
      {A : Type 0} (s : Shard) (db : ℕ) (key : Bytes) (a : A) (o o' : Obj)
      → Outcome s db key
          (a, some (record { payload = coll o'; expire_at_ms = pos 0 }))
          (a, poke (store s db key (new_coll o)) db key o')
  poked s db key a o o' =
      let found = search-store s db key (new_coll o) in
      record {
        replies = refl;
        views = λ d j.
            (poke_found (store s db key (new_coll o)) db d key j o' _ found).0
            ∙ rw (view-store s db d key j (new_coll o)) (either (same_key (db, key) (d, j)) _ _ _);
        clock =
            (poke_found (store s db key (new_coll o)) db db key key o' _ found).1
            ∙ now-store s db key (new_coll o);
      }
    where
      either :
          (b : Bool) (x y z : Option Content)
          → (if b then x else (if b then y else z)) ≡ (if b then x else z)
      either true x y z = refl
      either false x y z = refl
