-- ===== src/Commands/Multi.antt =====
-- The multi-key commands: MGET, MSET and MSETNX of lib/commands/strings.go, DEL, EXISTS and TYPE of
-- lib/commands/keys.go. MSET's closures store without a lookup.
pub mod Effect
use ultima.Base.{
  ℕ, ◌+◌, ◌%◌, Bool, true, false, not, Option, none, some, List, [], ◌∷◌, ◌++◌, map, Bytes, codes,
  length, ◌==◌, if◌then◌else◌, String,
}
use ultima.Base.Int.{ℤ, pos}
use ultima.Platform.{Platform, EntryType, type_hash, type_list, type_set, type_zset, type_string}
use ultima.Resp.{Value, null, blob_string, simple_string, simple, int, arr, error}
use ultima.Shard.{Shard, Ent, lookup, store, delete, type_of}
use ultima.Commands.{
  Event, Reply, quiet, Server, command, do_multi, reply_ok, is_string, str_of, new_string,
}

-- n.Add(1) for each true.
abbrev pub count : List Bool → ℕ
count [] = 0
count (b ∷ bs) = if b then count bs + 1 else count bs

-- The events of the keys whose slot is set.
abbrev pub events_where : ℕ → Bytes → List Bytes → List Bool → List Event
events_where db name (k ∷ ks) (b ∷ bs) =
    let rest = events_where db name ks bs in
    if b then record { db = db; key = k; event = name } ∷ rest else rest
events_where db name _ _ = []

-- pairKeys with the values behind the keys; an odd last argument is passed over.
unfoldable pub pairs : List Bytes → List (Bytes × Bytes)
pairs (k ∷ v ∷ args) = (k, v) ∷ pairs args
pairs _ = []

abbrev pub first : Bytes × Bytes → Bytes
first (k, v) = k

abbrev pub itself : Bytes → Bytes
itself k = k

-- A command line with a name and an odd number of arguments behind it has an even length.
abbrev pub unbalanced : List Bytes → Bool
unbalanced args = not (length args % 2 == 0)

-- The reply of errArity.
abbrev pub err_pairs : String → Value
err_pairs name =
    error (codes "ERR wrong number of arguments for '" ++ codes name ++ codes "' command")

-- typeName
unfoldable pub type_name : EntryType → Bytes
type_name type_hash = codes "hash"
type_name type_list = codes "list"
type_name type_set = codes "set"
type_name type_zset = codes "zset"
type_name type_string = codes "string"

module _ ⦃P : Platform⦄ where
  abbrev notify : Server → List Event → Server
  notify e events = record e { events = e.events ++ events }

  -- DEL
  unfoldable pub del_task : ℕ → Bytes → Shard → Bool × Shard
  unfolding delete
  del_task db key s = delete s db key

  unfoldable pub cmd_del : Server → ℕ → List Bytes → Value × Server
  unfolding del_task do_multi
  cmd_del e db keys =
      let (deleted, e₁) = do_multi e itself keys (del_task db) in
      (int (pos (count deleted)), notify e₁ (events_where db (codes "del") keys deleted))

  -- EXISTS
  unfoldable pub exists_found : Option Ent → Shard → Bool × Shard
  exists_found none s = (false, s)
  exists_found (some e) s = (true, s)

  unfoldable pub exists_task : ℕ → Bytes → Shard → Bool × Shard
  unfolding exists_found lookup
  exists_task db key s = exists_found (lookup s db key).0 (lookup s db key).1

  unfoldable pub cmd_exists : Server → ℕ → List Bytes → Value × Server
  unfolding exists_task do_multi
  cmd_exists e db keys =
      let (live, e₁) = do_multi e itself keys (exists_task db) in (int (pos (count live)), e₁)

  -- MGET
  unfoldable pub mget_found : Option Ent → Shard → Value × Shard
  mget_found none s = (null, s)
  mget_found (some e) s =
      if is_string e.payload then (blob_string (str_of e.payload), s) else (null, s)

  unfoldable pub mget_task : ℕ → Bytes → Shard → Value × Shard
  unfolding mget_found lookup
  mget_task db key s = mget_found (lookup s db key).0 (lookup s db key).1

  unfoldable pub cmd_mget : Server → ℕ → List Bytes → Value × Server
  unfolding mget_task do_multi
  cmd_mget e db keys = let (vals, e₁) = do_multi e itself keys (mget_task db) in (arr vals, e₁)

  -- MSET
  unfoldable pub mset_task : ℕ → Bytes × Bytes → Shard → Bool × Shard
  unfolding store
  mset_task db (key, val) s = (true, store s db key (new_string val))

  unfoldable pub set_pairs : Server → ℕ → List (Bytes × Bytes) → Server
  unfolding mset_task do_multi
  set_pairs e db kvs =
      let (done, e₁) = do_multi e first kvs (mset_task db) in
      notify e₁ (events_where db (codes "set") (map first kvs) done)

  unfoldable pub cmd_mset : Server → ℕ → List Bytes → Value × Server
  unfolding set_pairs pairs
  cmd_mset e db args =
      if unbalanced args then (err_pairs "mset", e) else (reply_ok, set_pairs e db (pairs args))

  -- MSETNX: the check phase over every key, then the write phase.
  unfoldable pub cmd_msetnx : Server → ℕ → List Bytes → Value × Server
  unfolding exists_task do_multi set_pairs pairs
  cmd_msetnx e db args =
      let (live, e₁) = do_multi e itself (map first (pairs args)) (exists_task db) in
      if unbalanced args
      then (err_pairs "msetnx", e)
      else if not (count live == 0)
      then (int (pos 0), e₁)
      else (int (pos 1), set_pairs e₁ db (pairs args))

  -- TYPE
  unfoldable pub type_found : Option Ent → Shard → Reply × Shard
  type_found none s = (quiet (simple "none"), s)
  type_found (some e) s = (quiet (simple_string (type_name (type_of e.payload))), s)

  unfoldable pub type_task : ℕ → Bytes → Shard → Reply × Shard
  unfolding type_found type_name lookup
  type_task db key s = type_found (lookup s db key).0 (lookup s db key).1

  unfoldable pub cmd_type : Server → ℕ → Bytes → Value × Server
  unfolding type_task command
  cmd_type e db key = command e db key (type_task db key)
