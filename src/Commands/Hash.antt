-- ===== src/Commands/Hash.antt =====
-- lib/commands/hash.go: HSET, HMSET, HGET, HMGET, HGETALL, HDEL, HEXISTS, HLEN, HKEYS, HVALS, HSTRLEN, HSETNX
-- and HINCRBY. A closure's reply is `none` where the goroutine would panic.
pub mod Effect
pub mod Total
pub mod Handled
pub mod Safe
pub mod Refused
pub mod Charge
use ultima.Base.{
  String, ℕ, zero, suc, ◌+◌, ◌%◌, Bool, true, false, not, Option, none, some, ◌⊎◌, inl, inr, List,
  [], ◌∷◌, ◌++◌, Bytes, codes, length, ◌==◌, ltb, if◌then◌else◌, ◌>>=◌, map,
}
use ultima.Base.Int.{ℤ, pos, ◌+ℤ◌, wrap64}
use ultima.Numbers.{parse_int_strict, format_int}
use ultima.Platform.{Platform, Payload, text, coll}
use ultima.Resp.{Value, null, blob_string, int, err, arr, dictionary, values}
use ultima.Types.Hash.{Hash, HashPair, new_hash, hash_len, hash_get, hash_set, hash_del}
use ultima.Shard.{Shard, Ent, lookup, store, delete, touch}
use ultima.Commands.{
  Reply, quiet, Server, err_not_int, err_arity, err_wrong_type, err_incr_ovf, reply_ok,
}
use ultima.Commands.Counters.{would_overflow}
use ultima.Commands.Collections.{Hashes, new_coll, poke, coll_command}

unfoldable pub is_error : Value → Bool
is_error (Value.error b) = true
is_error _ = false

-- len(args)%2 != 0, for the arguments behind the key.
unfoldable pub is_odd : List Bytes → Bool
is_odd args = length args % 2 == 1

-- The loop of HSET over fields and values, with the count of the new ones.
unfoldable pub hset_fields : List Bytes → Hash → ℕ → Option (Hash × ℕ)
unfolding hash_set
hset_fields (f ∷ v ∷ rest) h n =
    (hash_set h f v) >>= (λ r. hset_fields rest r.0 (if r.1 then n + 1 else n))
hset_fields [] h n = some (h, n)
hset_fields (f ∷ []) h n = some (h, n)

-- The loop of HDEL.
unfoldable pub hdel_fields : List Bytes → Hash → ℕ → Option (Hash × ℕ)
unfolding hash_del
hdel_fields [] h n = some (h, n)
hdel_fields (f ∷ rest) h n =
    (hash_del h f) >>= (λ r. hdel_fields rest r.0 (if r.1 then n + 1 else n))

abbrev blob_or : Value → Option Bytes → Value
blob_or v none = v
blob_or v (some b) = blob_string b

-- The loop of HMGET.
unfoldable pub hmget_values : List Bytes → Hash → Option (List Value)
unfolding hash_get
hmget_values [] h = some []
hmget_values (f ∷ rest) h =
    (hash_get h f) >>= (λ v. (hmget_values rest h) >>= (λ vs. some (blob_or null v ∷ vs)))

-- The pairs of HGETALL.
unfoldable pub flatten : List HashPair → List Value
flatten [] = []
flatten (p ∷ ps) = blob_string p.field ∷ blob_string p.value ∷ flatten ps

-- boolInt
abbrev pub bool_int : Bool → ℤ
bool_int true = pos 1
bool_int false = pos 0

abbrev is_present : Option Bytes → Bool
is_present none = false
is_present (some v) = true

abbrev size_of : Option Bytes → ℕ
size_of none = 0
size_of (some v) = length v

-- What each reading command replies from a hash; on a missing key it replies as from an empty one.
pub data HashRead : Type 0 where
  read_get read_exists read_strlen : Bytes → HashRead
  read_mget : List Bytes → HashRead
  read_getall read_len read_keys read_vals : HashRead

unfoldable pub read_reply : HashRead → Hash → Option Value
unfolding hash_get hmget_values flatten
read_reply (read_get f) h = (hash_get h f) >>= (λ v. some (blob_or null v))
read_reply (read_exists f) h = (hash_get h f) >>= (λ v. some (int (bool_int (is_present v))))
read_reply (read_strlen f) h = (hash_get h f) >>= (λ v. some (int (pos (size_of v))))
read_reply (read_mget fs) h = (hmget_values fs h) >>= (λ vs. some (arr vs))
read_reply read_getall h = some (dictionary (values (flatten h.pairs)))
read_reply read_len h = some (int (pos (hash_len h)))
read_reply read_keys h = some (arr (map (λ p. blob_string p.field) h.pairs))
read_reply read_vals h = some (arr (map (λ p. blob_string p.value) h.pairs))

-- The reply of each on a missing key.
abbrev nulls : List Bytes → List Value
nulls [] = []
nulls (f ∷ fs) = null ∷ nulls fs

unfoldable pub read_missing : HashRead → Value
read_missing (read_get f) = null
read_missing (read_exists f) = int (pos 0)
read_missing (read_strlen f) = int (pos 0)
read_missing (read_mget fs) = arr (nulls fs)
read_missing read_getall = dictionary (values [])
read_missing read_len = int (pos 0)
read_missing read_keys = arr []
read_missing read_vals = arr []

-- HSETNX and HINCRBY on a hash: a reply alone, or with the changed hash.
abbrev pub Update : Type 0
Update = Reply ⊎ (Reply × Hash)

unfoldable pub hsetnx_update : Bytes → Bytes → Hash → Option Update
unfolding hash_get hash_set
hsetnx_update f v h = (hash_get h f) >>= (λ old.
    if is_present old
    then some (inl (quiet (int (pos 0))))
    else (hash_set h f v) >>= (λ r. some (inr ((int (pos 1), codes "hset" ∷ []), r.0))))

-- The old value of HINCRBY: 0 for a missing field, `none` for no integer.
abbrev old_int : Option Bytes → Option ℤ
old_int none = some (pos 0)
old_int (some vs) = parse_int_strict vs

unfoldable pub hincrby_to : Bytes → ℤ → Hash → Option ℤ → Option Update
unfolding hash_set would_overflow format_int
hincrby_to f delta h none = some (inl (quiet (err "ERR hash value is not an integer")))
hincrby_to f delta h (some cur) =
    if would_overflow cur delta
    then some (inl (quiet err_incr_ovf))
    else (format_int (wrap64 (cur +ℤ delta))) >>= (λ text.
        (hash_set h f text)
        >>= (λ r. some (inr ((int (wrap64 (cur +ℤ delta)), codes "hincrby" ∷ []), r.0))))

unfoldable pub hincrby_update : Bytes → ℤ → Hash → Option Update
unfolding hash_get hincrby_to parse_int_strict
hincrby_update f delta h = (hash_get h f) >>= (λ vs. hincrby_to f delta h (old_int vs))

module _ ⦃P : Platform⦄ ⦃O : Hashes⦄ where
  open O use {of_hash, as_hash}

  -- getColl's type test, and the type assertion behind it.
  abbrev pub hash_in : Payload P.Obj → Option Hash
  hash_in (text b) = none
  hash_in (coll o) = as_hash o

  abbrev holding : Ent → Hash → Ent
  holding e h = record e { payload = coll (of_hash h) }

  unfoldable pub read_found : HashRead → Option Ent → Shard → Option Reply × Shard
  unfolding read_reply read_missing
  read_found rd none s = (some (quiet (read_missing rd)), s)
  read_found rd (some e) s = elim (hash_in e.payload) [
    | none ↦ (some (quiet err_wrong_type), s)
    | some h ↦ ((read_reply rd h) >>= (λ v. some (quiet v)), s)
  ]

  unfoldable pub read_task : HashRead → ℕ → Bytes → Shard → Option Reply × Shard
  unfolding read_found lookup
  read_task rd db key s = read_found rd (lookup s db key).0 (lookup s db key).1

  -- The closure of HSET. On a missing key the empty hash is stored first and filled behind its entry.
  hset_new : ℕ → Bytes → Option (Hash × ℕ) → Shard → Option Reply × Shard
  hset_new db key none s = (none, s)
  hset_new db key (some (h, n)) s =
      (some (int (pos n), codes "hset" ∷ []), poke s db key (of_hash h))

  hset_old : ℕ → Bytes → Ent → Option (Hash × ℕ) → Shard → Option Reply × Shard
  hset_old db key e none s = (none, s)
  hset_old db key e (some (h, n)) s =
      (some (int (pos n), codes "hset" ∷ []), touch s db key (holding e h))

  unfoldable pub hset_found : List Bytes → ℕ → Bytes → Option Ent → Shard → Option Reply × Shard
  unfolding hset_fields hset_new hset_old store touch poke
  hset_found rest db key none s =
      hset_new db key (hset_fields rest new_hash 0) (store s db key (new_coll (of_hash new_hash)))
  hset_found rest db key (some e) s = elim (hash_in e.payload) [
    | none ↦ (some (quiet err_wrong_type), s)
    | some h ↦ hset_old db key e (hset_fields rest h 0) s
  ]

  unfoldable pub hset_task : List Bytes → ℕ → Bytes → Shard → Option Reply × Shard
  unfolding hset_found lookup
  hset_task rest db key s = hset_found rest db key (lookup s db key).0 (lookup s db key).1

  -- The closure of HDEL.
  hdel_done : ℕ → Bytes → Ent → Option (Hash × ℕ) → Shard → Option Reply × Shard
  hdel_done db key e none s = (none, s)
  hdel_done db key e (some (h, n)) s =
      let s₁ = if ltb 0 n then touch s db key (holding e h) else s in
      if hash_len h == 0
      then (
        some (int (pos n), if ltb 0 n then codes "hdel" ∷ codes "del" ∷ [] else []),
        (delete s₁ db key).1,
      )
      else (some (int (pos n), if ltb 0 n then codes "hdel" ∷ [] else []), s₁)

  unfoldable pub hdel_found : List Bytes → ℕ → Bytes → Option Ent → Shard → Option Reply × Shard
  unfolding hdel_fields hdel_done touch delete
  hdel_found fs db key none s = (some (quiet (int (pos 0))), s)
  hdel_found fs db key (some e) s = elim (hash_in e.payload) [
    | none ↦ (some (quiet err_wrong_type), s)
    | some h ↦ hdel_done db key e (hdel_fields fs h 0) s
  ]

  unfoldable pub hdel_task : List Bytes → ℕ → Bytes → Shard → Option Reply × Shard
  unfolding hdel_found lookup
  hdel_task fs db key s = hdel_found fs db key (lookup s db key).0 (lookup s db key).1

  -- The closures of HSETNX and HINCRBY.
  update_new : ℕ → Bytes → Option Update → Shard → Option Reply × Shard
  update_new db key none s = (none, s)
  update_new db key (some (inl r)) s = (some r, s)
  update_new db key (some (inr (r, h))) s = (some r, store s db key (new_coll (of_hash h)))

  update_old : ℕ → Bytes → Ent → Option Update → Shard → Option Reply × Shard
  update_old db key e none s = (none, s)
  update_old db key e (some (inl r)) s = (some r, s)
  update_old db key e (some (inr (r, h))) s = (some r, touch s db key (holding e h))

  unfoldable pub update_found :
      (Hash → Option Update) → ℕ → Bytes → Option Ent → Shard → Option Reply × Shard
  unfolding update_new update_old store touch
  update_found f db key none s = update_new db key (f new_hash) s
  update_found f db key (some e) s = elim (hash_in e.payload) [
    | none ↦ (some (quiet err_wrong_type), s)
    | some h ↦ update_old db key e (f h) s
  ]

  unfoldable pub update_task : (Hash → Option Update) → ℕ → Bytes → Shard → Option Reply × Shard
  unfolding update_found lookup
  update_task f db key s = update_found f db key (lookup s db key).0 (lookup s db key).1

  -- The handlers.
  unfoldable pub cmd_hread : Server → ℕ → Bytes → HashRead → Option (Value × Server)
  unfolding coll_command read_task
  cmd_hread e db key rd = coll_command e db key (read_task rd db key)

  unfoldable pub cmd_hset : Server → ℕ → Bytes → List Bytes → Option (Value × Server)
  unfolding coll_command hset_task is_odd
  cmd_hset e db key rest =
      if is_odd rest
      then some (err_arity (codes "hset"), e)
      else coll_command e db key (hset_task rest db key)

  unfoldable pub cmd_hmset : Server → ℕ → Bytes → List Bytes → Option (Value × Server)
  unfolding cmd_hset is_odd is_error
  cmd_hmset e db key rest =
      if is_odd rest
      then some (err_arity (codes "hmset"), e)
      else (cmd_hset e db key rest) >>= (λ r. some (if is_error r.0 then r else (reply_ok, r.1)))

  unfoldable pub cmd_hdel : Server → ℕ → Bytes → List Bytes → Option (Value × Server)
  unfolding coll_command hdel_task
  cmd_hdel e db key fs = coll_command e db key (hdel_task fs db key)

  unfoldable pub cmd_hsetnx : Server → ℕ → Bytes → Bytes → Bytes → Option (Value × Server)
  unfolding coll_command update_task hsetnx_update
  cmd_hsetnx e db key f v = coll_command e db key (update_task (hsetnx_update f v) db key)

  unfoldable pub cmd_hincrby : Server → ℕ → Bytes → Bytes → Bytes → Option (Value × Server)
  unfolding coll_command update_task hincrby_update parse_int_strict
  cmd_hincrby e db key f raw = elim (parse_int_strict raw) [
    | none ↦ some (err_not_int, e)
    | some delta ↦ coll_command e db key (update_task (hincrby_update f delta) db key)
  ]
