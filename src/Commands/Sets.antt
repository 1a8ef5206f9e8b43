-- ===== src/Commands/Sets.antt =====
-- lib/commands/set.go: SADD, SREM, SMEMBERS, SISMEMBER, SMISMEMBER, SCARD, and SINTER, SUNION and SDIFF with
-- their store forms. A closure's reply is `none` where the goroutine would panic.
pub mod Total
pub mod Effect
pub mod Handled
pub mod Combined
use ultima.Base.{
  ℕ, ◌+◌, Bool, true, false, Option, none, some, List, [], ◌∷◌, Bytes, codes, length, ◌==◌, ltb,
  if◌then◌else◌, ◌>>=◌, map,
}
use ultima.Base.Int.{ℤ, pos}
use ultima.Platform.{Platform, Payload, text, coll}
use ultima.Resp.{Value, blob_string, int, arr, unique, values}
use ultima.Types.Set.{IntSet, new_set, set_len, contains, set_add, set_remove, members}
use ultima.Shard.{Shard, Ent, lookup, store, delete, touch}
use ultima.Commands.{Reply, quiet, Server, err_wrong_type, do_multi}
use ultima.Commands.Multi.{itself}
use ultima.Commands.Hash.{bool_int}
use ultima.Commands.SetAlgebra.{Snapshot, intersect, union_all, diff_all, add_where, anything}
use ultima.Commands.Collections.{Sets, new_coll, poke, coll_command}

-- The loops of SADD and SREM.
unfoldable pub sadd_each : List Bytes → IntSet → ℕ → Option (IntSet × ℕ)
unfolding set_add
sadd_each [] s n = some (s, n)
sadd_each (m ∷ ms) s n = (set_add s m) >>= (λ r. sadd_each ms r.0 (if r.1 then n + 1 else n))

unfoldable pub srem_each : List Bytes → IntSet → ℕ → Option (IntSet × ℕ)
unfolding set_remove
srem_each [] s n = some (s, n)
srem_each (m ∷ ms) s n = (set_remove s m) >>= (λ r. srem_each ms r.0 (if r.1 then n + 1 else n))

-- resp.Set of texts, also setReply.
abbrev pub set_reply : List Bytes → Value
set_reply ms = unique (values (map blob_string ms))

unfoldable pub flags : List Bytes → IntSet → Option (List Value)
unfolding contains
flags [] s = some []
flags (m ∷ ms) s = (contains s m) >>= (λ b. (flags ms s) >>= (λ vs. some (int (bool_int b) ∷ vs)))

-- What each reading command replies from a set; on a missing key it replies as from an empty one.
pub data SetRead : Type 0 where
  read_members read_card : SetRead
  read_is_member : Bytes → SetRead
  read_mis_member : List Bytes → SetRead

unfoldable pub set_read_reply : SetRead → IntSet → Option Value
unfolding contains flags members
set_read_reply read_members s = (members s) >>= (λ ms. some (set_reply ms))
set_read_reply read_card s = some (int (pos (set_len s)))
set_read_reply (read_is_member m) s = (contains s m) >>= (λ b. some (int (bool_int b)))
set_read_reply (read_mis_member ms) s = (flags ms s) >>= (λ vs. some (arr vs))

unfoldable pub set_read_missing : SetRead → Value
set_read_missing read_members = set_reply []
set_read_missing read_card = int (pos 0)
set_read_missing (read_is_member m) = int (pos 0)
set_read_missing (read_mis_member ms) = arr (map (λ m. int (pos 0)) ms)

-- The operations of the set algebra.
pub data Algebra : Type 0 where
  inter union diff : Algebra

unfoldable pub algebra : Algebra → List Snapshot → Option (List Bytes)
unfolding intersect union_all diff_all
algebra inter snaps = intersect snaps
algebra union snaps = union_all snaps
algebra diff snaps = diff_all snaps

abbrev pub store_event : Algebra → Bytes
store_event inter = codes "sinterstore"
store_event union = codes "sunionstore"
store_event diff = codes "sdiffstore"

-- The results of the fan-out: `none` is a panic, `some none` a key of another type.
unfoldable pub gathered : List (Option (Option Snapshot)) → Option (Option (List Snapshot))
gathered [] = some (some [])
gathered (r ∷ rs) =
    r >>= (λ sn. (gathered rs) >>= (λ sns. some (sn >>= (λ x. sns >>= (λ xs. some (x ∷ xs))))))

module _ ⦃P : Platform⦄ ⦃O : Sets⦄ where
  open O use {of_set, as_set}

  -- getColl's type test, and the type assertion behind it.
  abbrev pub set_in : Payload P.Obj → Option IntSet
  set_in (text b) = none
  set_in (coll o) = as_set o

  unfoldable pub sread_found : SetRead → Option Ent → Shard → Option Reply × Shard
  unfolding set_read_reply set_read_missing
  sread_found rd none s = (some (quiet (set_read_missing rd)), s)
  sread_found rd (some e) s = elim (set_in e.payload) [
    | none ↦ (some (quiet err_wrong_type), s)
    | some x ↦ ((set_read_reply rd x) >>= (λ v. some (quiet v)), s)
  ]

  unfoldable pub sread_task : SetRead → ℕ → Bytes → Shard → Option Reply × Shard
  unfolding sread_found lookup
  sread_task rd db key s = sread_found rd (lookup s db key).0 (lookup s db key).1

  -- The events of SADD.
  abbrev pub sadd_events : ℕ → List Bytes
  sadd_events n = if ltb 0 n then codes "sadd" ∷ [] else []

  -- The closure of SADD. On a missing key the empty set is stored first and filled behind its entry.
  sadd_new : ℕ → Bytes → Option (IntSet × ℕ) → Shard → Option Reply × Shard
  sadd_new db key none s = (none, s)
  sadd_new db key (some (x, n)) s = (some (int (pos n), sadd_events n), poke s db key (of_set x))

  -- The set has changed in place, also where the entry is not touched.
  changed : ℕ → Bytes → Ent → IntSet → ℕ → Shard → Shard
  changed db key e x n s =
      if ltb 0 n
      then touch s db key (record e { payload = coll (of_set x) })
      else poke s db key (of_set x)

  sadd_old : ℕ → Bytes → Ent → Option (IntSet × ℕ) → Shard → Option Reply × Shard
  sadd_old db key e none s = (none, s)
  sadd_old db key e (some (x, n)) s = (some (int (pos n), sadd_events n), changed db key e x n s)

  unfoldable pub sadd_found : List Bytes → ℕ → Bytes → Option Ent → Shard → Option Reply × Shard
  unfolding sadd_each sadd_new sadd_old changed store touch poke
  sadd_found ms db key none s =
      sadd_new db key (sadd_each ms new_set 0) (store s db key (new_coll (of_set new_set)))
  sadd_found ms db key (some e) s = elim (set_in e.payload) [
    | none ↦ (some (quiet err_wrong_type), s)
    | some x ↦ sadd_old db key e (sadd_each ms x 0) s
  ]

  unfoldable pub sadd_task : List Bytes → ℕ → Bytes → Shard → Option Reply × Shard
  unfolding sadd_found lookup
  sadd_task ms db key s = sadd_found ms db key (lookup s db key).0 (lookup s db key).1

  -- The closure of SREM.
  srem_done : ℕ → Bytes → Ent → Option (IntSet × ℕ) → Shard → Option Reply × Shard
  srem_done db key e none s = (none, s)
  srem_done db key e (some (x, n)) s =
      if set_len x == 0
      then (
        some (int (pos n), if ltb 0 n then codes "srem" ∷ codes "del" ∷ [] else []),
        (delete (changed db key e x n s) db key).1,
      )
      else (some (int (pos n), if ltb 0 n then codes "srem" ∷ [] else []), changed db key e x n s)

  unfoldable pub srem_found : List Bytes → ℕ → Bytes → Option Ent → Shard → Option Reply × Shard
  unfolding srem_each srem_done changed touch poke delete set_len
  srem_found ms db key none s = (some (quiet (int (pos 0))), s)
  srem_found ms db key (some e) s = elim (set_in e.payload) [
    | none ↦ (some (quiet err_wrong_type), s)
    | some x ↦ srem_done db key e (srem_each ms x 0) s
  ]

  unfoldable pub srem_task : List Bytes → ℕ → Bytes → Shard → Option Reply × Shard
  unfolding srem_found lookup
  srem_task ms db key s = srem_found ms db key (lookup s db key).0 (lookup s db key).1

  -- The closure of snapshotSets for one key.
  unfoldable pub snapshot_found : Option Ent → Shard → Option (Option Snapshot) × Shard
  unfolding members
  snapshot_found none s = (some (some (record { members = []; present = false })), s)
  snapshot_found (some e) s = elim (set_in e.payload) [
    | none ↦ (some none, s)
    | some x ↦ ((members x) >>= (λ ms. some (some (record { members = ms; present = true }))), s)
  ]

  unfoldable pub snapshot_task : ℕ → Bytes → Shard → Option (Option Snapshot) × Shard
  unfolding snapshot_found lookup
  snapshot_task db key s = snapshot_found (lookup s db key).0 (lookup s db key).1

  -- storeSetResult, with its events.
  unfoldable pub store_result : List Bytes → Bytes → ℕ → Bytes → Shard → Option Reply × Shard
  unfolding add_where store delete
  store_result ms event db dest s =
      if length ms == 0
      then (
        some (int (pos 0), if (delete s db dest).0 then codes "del" ∷ [] else []),
        (delete s db dest).1,
      )
      else elim (add_where anything ms new_set) [
        | none ↦ (none, s)
        | some x ↦ (some (int (pos (length ms)), event ∷ []), store s db dest (new_coll (of_set x)))
      ]

  -- The handlers.
  unfoldable pub cmd_sread : Server → ℕ → Bytes → SetRead → Option (Value × Server)
  unfolding coll_command sread_task
  cmd_sread e db key rd = coll_command e db key (sread_task rd db key)

  unfoldable pub cmd_sadd : Server → ℕ → Bytes → List Bytes → Option (Value × Server)
  unfolding coll_command sadd_task
  cmd_sadd e db key ms = coll_command e db key (sadd_task ms db key)

  unfoldable pub cmd_srem : Server → ℕ → Bytes → List Bytes → Option (Value × Server)
  unfolding coll_command srem_task
  cmd_srem e db key ms = coll_command e db key (srem_task ms db key)

  unfoldable pub snapshot_sets : Server → ℕ → List Bytes → Option (Option (List Snapshot)) × Server
  unfolding do_multi snapshot_task gathered
  snapshot_sets e db keys =
      let (rs, e₁) = do_multi e itself keys (snapshot_task db) in (gathered rs, e₁)

  -- What follows the snapshots: an error, or the algebra on them.
  with_snapshots :
      Algebra
      → Server
      → (List Bytes → Option (Value × Server))
      → Option (Option (List Snapshot))
      → Option (Value × Server)
  with_snapshots op e f none = none
  with_snapshots op e f (some none) = some (err_wrong_type, e)
  with_snapshots op e f (some (some snaps)) = (algebra op snaps) >>= f

  unfoldable pub cmd_algebra : Algebra → Server → ℕ → List Bytes → Option (Value × Server)
  unfolding with_snapshots snapshot_sets algebra
  cmd_algebra op e db keys =
      let (r, e₁) = snapshot_sets e db keys in
      with_snapshots op e₁ (λ ms. some (set_reply ms, e₁)) r

  unfoldable pub cmd_algebra_store :
      Algebra → Server → ℕ → Bytes → List Bytes → Option (Value × Server)
  unfolding with_snapshots snapshot_sets algebra store_result coll_command
  cmd_algebra_store op e db dest keys =
      let (r, e₁) = snapshot_sets e db keys in
      with_snapshots op e₁
        (λ ms. coll_command e₁ db dest (store_result ms (store_event op) db dest)) r
