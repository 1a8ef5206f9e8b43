-- ===== src/Commands.antt =====
-- lib/commands/engine.go: what the handlers share. A handler runs its closure on the shard that owns
-- the key (`do`, `doMulti`); a closure returns its reply and the events that the handler then
-- passes to notifyKeyspace, in order. The clock does not advance within a command.
pub mod Outcome
pub mod Set
pub mod Strings
pub mod Counters
pub mod Lift
pub mod Multi
pub mod Handlers
pub mod Expire
pub mod Notify
pub mod Collections
pub mod Hash
pub mod SetAlgebra
pub mod Sets
pub mod Tx
use ultima.Base.{
  ℕ, ◌-◌, ◌*◌, ◌/◌, ◌%◌, ◌^◌, Bool, true, false, Option, none, some, List, [], ◌∷◌, ◌++◌, map,
  Bytes, codes,
}
use ultima.Base.Int.{ℤ}
use ultima.Platform.{Platform, EntryType, type_string, Payload, text, coll}
use ultima.Resp.{Value, error, err, simple}
use ultima.Shard.{Shard, Ent, update}

-- A call of notifyKeyspace.
pub record Event : Type 0 where
  pub db : ℕ
  pub key : Bytes
  pub event : Bytes

-- The reply of a closure and the names of the events to notify.
abbrev pub Reply : Type 0
Reply = Value × List Bytes

abbrev pub quiet : Value → Reply
quiet v = (v, [])

-- The shared error replies.
abbrev pub err_syntax : Value
err_syntax = err "ERR syntax error"

unfoldable pub err_arity : Bytes → Value
err_arity name = error (codes "ERR wrong number of arguments for '" ++ name ++ codes "' command")

abbrev pub err_not_int : Value
err_not_int = err "ERR value is not an integer or out of range"

abbrev pub err_incr_ovf : Value
err_incr_ovf = err "ERR increment or decrement would overflow"

abbrev pub err_decr_ovf : Value
err_decr_ovf = err "ERR decrement would overflow"

abbrev pub err_wrong_type : Value
err_wrong_type = err "WRONGTYPE Operation against a key holding the wrong kind of value"

abbrev pub reply_ok : Value
reply_ok = simple "OK"

module _ ⦃P : Platform⦄ where
  open P use {Obj, checksum64}

  -- commands.Engine over shard.Engine: `k` is the log of the shard count.
  pub record Server : Type 0 where
    pub shards : ℕ → Shard
    pub k : ℕ
    pub now : ℤ
    pub events : List Event

  -- ShardIndex, with fibMult = 0x9E3779B97F4A7C15.
  unfoldable pub shard_index : Server → Bytes → ℕ
  shard_index e key = (checksum64 key * 11400714819323198485 % 2 ^ 64) / 2 ^ (64 - e.k)

  -- The shard as its goroutine sees it at the time of the command.
  unfoldable pub shard_of : Server → Bytes → Shard
  unfolding shard_index
  shard_of e key = record (e.shards (shard_index e key)) { now = e.now }

  -- do
  unfoldable pub do_task : {A : Type 0} → Server → Bytes → (Shard → A × Shard) → A × Server
  unfolding shard_of shard_index
  do_task e key fn =
      let (r, s) = fn (shard_of e key) in
      (r, record e { shards = update e.shards (shard_index e key) s })

  -- doMulti over the keys in order, whose tasks of different shards do not interact.
  unfoldable pub do_multi :
      {A B : Type 0} → Server → (B → Bytes) → List B → (B → Shard → A × Shard) → List A × Server
  unfolding do_task
  do_multi e key [] fn = ([], e)
  do_multi e key (b ∷ bs) fn =
      let (r, e₁) = do_task e (key b) (fn b) in let (rs, e₂) = do_multi e₁ key bs fn in (r ∷ rs, e₂)

  -- A single-key handler: the task, then its notifications.
  unfoldable pub command : Server → ℕ → Bytes → (Shard → Reply × Shard) → Value × Server
  unfolding do_task
  command e db key fn =
      let ((v, names), e₁) = do_task e key fn in
      (
        v,
        record e₁ {
          events = e₁.events ++ map (λ n. record { db = db; key = key; event = n }) names;
        },
      )

  -- `ent.Str`, empty in a collection, and `ent.Type == TypeString`.
  abbrev pub str_of : Payload Obj → Bytes
  str_of (text b) = b
  str_of (coll o) = []

  abbrev pub is_string : Payload Obj → Bool
  is_string (text b) = true
  is_string (coll o) = false

  -- A new string entry.
  abbrev pub new_string : Bytes → Ent
  new_string b = record {
    payload = text b;
    expire_at_ms = ℤ.pos 0;
    exp_gen = 0;
    version = 0;
    mem_bytes = 0;
  }
