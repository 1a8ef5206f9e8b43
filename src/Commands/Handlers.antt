-- ===== src/Commands/Handlers.antt =====
-- The single-key handlers of lib/commands/strings.go and lib/commands/keys.go, as clients see them: on the
-- keyspace of the whole engine.
use ultima.Base.{ℕ, ◌≡◌, Bool, some, Bytes}
use ultima.Base.Int.{ℤ, IsInt64}
use ultima.Numbers.{parse_int_strict}
use ultima.Numbers.Range.{parse_int_strict-IsInt64}
use ultima.Platform.{Platform}
use ultima.Commands.{Server, shard_of}
use ultima.Commands.Lift.{keyspace, Handled, command-Handled}
use ultima.Commands.Strings.{
  get_task, cmd_get, getset_task, cmd_getset, getdel_task, cmd_getdel, append_task, cmd_append,
  strlen_task, cmd_strlen,
}
use ultima.Commands.Strings.Effect.{
  get_spec, get_task-Outcome, getset_spec, getset_task-Outcome, getdel_spec, getdel_task-Outcome,
  append_spec, append_task-Outcome, strlen_spec, strlen_task-Outcome,
}
use ultima.Commands.Counters.{incr_task, incr_by, cmd_incrby}
use ultima.Commands.Counters.Effect.{incr_spec, incr_task-Outcome}
use ultima.Commands.Expire.{ttl_task, ttl_common, persist_task, cmd_persist}
use ultima.Commands.Expire.Effect.{ttl_spec, ttl_task-Outcome, persist_spec, persist_task-Outcome}

module _ ⦃P : Platform⦄ where
  -- GET replies with the visible string, null for a missing or expired key and WRONGTYPE for a
  -- collection, notifies nothing, and changes no visible key.
  pub cmd_get-Handled :
      (e : Server) (db : ℕ) (key : Bytes)
      → Handled e db key (get_spec (keyspace e db key)) (cmd_get e db key)
  unfolding cmd_get
  cmd_get-Handled e db key =
      command-Handled e db key get_spec (get_task db key) (get_task-Outcome (shard_of e key) db key)

  -- GETSET returns the visible string or null and stores the new one without an expiry; it changes
  -- nothing for a collection, and no other key changes.
  pub cmd_getset-Handled :
      (e : Server) (db : ℕ) (key val : Bytes)
      → Handled e db key (getset_spec val (keyspace e db key)) (cmd_getset e db key val)
  unfolding cmd_getset
  cmd_getset-Handled e db key val =
      command-Handled e db key (getset_spec val) (getset_task val db key)
        (getset_task-Outcome val (shard_of e key) db key)

  -- GETDEL returns the visible string and deletes the key; it replies null for a missing key and
  -- WRONGTYPE for a collection, and no other key changes.
  pub cmd_getdel-Handled :
      (e : Server) (db : ℕ) (key : Bytes)
      → Handled e db key (getdel_spec (keyspace e db key)) (cmd_getdel e db key)
  unfolding cmd_getdel
  cmd_getdel-Handled e db key =
      command-Handled e db key getdel_spec (getdel_task db key)
        (getdel_task-Outcome (shard_of e key) db key)

  -- APPEND extends the visible string, or creates it, keeps the expiry and replies the new length;
  -- it changes nothing for a collection, and no other key changes.
  pub cmd_append-Handled :
      (e : Server) (db : ℕ) (key val : Bytes)
      → Handled e db key (append_spec val (keyspace e db key)) (cmd_append e db key val)
  unfolding cmd_append
  cmd_append-Handled e db key val =
      command-Handled e db key (append_spec val) (append_task val db key)
        (append_task-Outcome val (shard_of e key) db key)

  pub cmd_strlen-Handled :
      (e : Server) (db : ℕ) (key : Bytes)
      → Handled e db key (strlen_spec (keyspace e db key)) (cmd_strlen e db key)
  unfolding cmd_strlen
  cmd_strlen-Handled e db key =
      command-Handled e db key strlen_spec (strlen_task db key)
        (strlen_task-Outcome (shard_of e key) db key)

  -- INCR, DECR, INCRBY and DECRBY, for an int64 increment, act as exact integer addition on the
  -- visible content: the sum is stored and returned and the expiry kept if the sum is an int64; a
  -- sum outside int64, a text that parseIntStrict refuses and a key of another type give their
  -- errors and change nothing; no other key changes.
  pub incr_by-Handled :
      (e : Server) (db : ℕ) (key : Bytes) (delta : ℤ)
      → IsInt64 delta
      → Handled e db key (incr_spec delta (keyspace e db key)) (incr_by e db key delta)
  unfolding incr_by
  incr_by-Handled e db key delta h =
      command-Handled e db key (incr_spec delta) (incr_task delta db key)
        (incr_task-Outcome delta (shard_of e key) db key h)

  -- INCRBY with an increment that parseIntStrict accepts acts as the exact addition of that
  -- number.
  pub cmd_incrby-Handled :
      (e : Server) (db : ℕ) (key arg : Bytes) (v : ℤ)
      → parse_int_strict arg ≡ some v
      → Handled e db key (incr_spec v (keyspace e db key)) (cmd_incrby e db key arg)
  unfolding cmd_incrby keyspace
  cmd_incrby-Handled e db key arg v h =
      rw (h, cmd_incrby) (incr_by-Handled e db key v (parse_int_strict-IsInt64 arg v h))

  -- TTL and PTTL reply -2 for a missing or expired key, -1 for a key without an expiry and the
  -- remaining time otherwise, and change no visible key.
  pub ttl_common-Handled :
      (ms : Bool) (e : Server) (db : ℕ) (key : Bytes)
      → Handled e db key (ttl_spec ms e.now (keyspace e db key)) (ttl_common ms e db key)
  unfolding ttl_common shard_of
  ttl_common-Handled ms e db key =
      command-Handled e db key (ttl_spec ms e.now) (ttl_task ms db key)
        (ttl_task-Outcome (shard_of e key) db key ms)

  -- PERSIST removes the expiry of a visible key that has one and replies 1; otherwise it replies 0
  -- and changes nothing; no other key changes.
  pub cmd_persist-Handled :
      (e : Server) (db : ℕ) (key : Bytes)
      → Handled e db key (persist_spec (keyspace e db key)) (cmd_persist e db key)
  unfolding cmd_persist
  cmd_persist-Handled e db key =
      command-Handled e db key persist_spec (persist_task db key)
        (persist_task-Outcome (shard_of e key) db key)
