-- ===== src/Commands/Tx/Execute.antt =====
-- Execute (lib/commands/engine.go): the gates in front of a handler, and the queue of MULTI. What the
-- gates read besides the connection is in `Gates`: the password, whether a script runs past its limit,
-- and whether memory stays over the limit after eviction. Statistics, the slow log, persistence and
-- MONITOR, which follow the handler, are left out.
pub mod Queue
use ultima.Base.{
  ℕ, ◌+◌, ◌-◌, Bool, true, false, ◌&&◌, ◌||◌, not, Option, none, some, List, [], ◌∷◌, ◌++◌, map,
  Bytes, codes, bytes_eq, length, take, ltb, leb, ◌==◌, if◌then◌else◌, String,
}
use ultima.Base.Int.{ℤ, pos, negsuc}
use ultima.Base.Maps.{is_one_of}
use ultima.Numbers.{lower_ascii}
use ultima.Platform.{Platform}
use ultima.Resp.{Value, error, err}
use ultima.Commands.{Server, err_arity}
use ultima.Commands.Tx.{ConnState, CmdDef, Table, Handler, Result, answer, clear_tx, reply_queued}

-- slices.Contains(def.Flags, flag)
abbrev pub has_flag : List Bytes → String → Bool
has_flag flags flag = is_one_of (codes flag) flags

-- The commands that MULTI does not queue.
abbrev pub never_queued : List Bytes
never_queued =
    codes "exec"
    ∷ codes "discard"
    ∷ codes "multi"
    ∷ codes "watch"
    ∷ codes "quit"
    ∷ codes "reset"
    ∷ []

abbrev pub before_auth : List Bytes
before_auth = codes "auth" ∷ codes "hello" ∷ codes "quit" ∷ codes "reset" ∷ []

abbrev pub while_subscribed : List Bytes
while_subscribed =
    codes "subscribe"
    ∷ codes "unsubscribe"
    ∷ codes "psubscribe"
    ∷ codes "punsubscribe"
    ∷ codes "ping"
    ∷ codes "quit"
    ∷ codes "reset"
    ∷ []

abbrev pub while_busy : List Bytes
while_busy =
    codes "multi"
    ∷ codes "discard"
    ∷ codes "watch"
    ∷ codes "unwatch"
    ∷ codes "auth"
    ∷ codes "hello"
    ∷ codes "quit"
    ∷ codes "reset"
    ∷ []

-- containerSubs
unfoldable pub container_subs : Bytes → Option (List Bytes)
unfolding bytes_eq
container_subs name =
    if bytes_eq name (codes "config")
    then some (codes "get" ∷ codes "set" ∷ [])
    else if bytes_eq name (codes "client")
    then some (codes "setname" ∷ codes "getname" ∷ codes "id" ∷ codes "setinfo" ∷ [])
    else if bytes_eq name (codes "command")
    then some (codes "count" ∷ codes "info" ∷ [])
    else if bytes_eq name (codes "pubsub")
    then some (codes "channels" ∷ codes "numsub" ∷ codes "numpat" ∷ [])
    else if bytes_eq name (codes "script")
    then some (
        codes "load"
        ∷ codes "exists"
        ∷ codes "flush"
        ∷ codes "kill"
        ∷ codes "debug"
        ∷ codes "help"
        ∷ [])
    else none

gated_sub : Bytes → Bytes → Option (List Bytes) → Bytes
gated_sub name sub none = name
gated_sub name sub (some subs) = if is_one_of sub subs then name ++ codes "|" ++ sub else []

-- gatedFullname; the empty text for a subcommand that does not resolve.
unfoldable pub gated_fullname : Bytes → List Bytes → Bytes
unfolding container_subs gated_sub lower_ascii
gated_fullname name (arg ∷ sub ∷ args) = gated_sub name (lower_ascii sub) (container_subs name)
gated_fullname name args = name

quoted : List Bytes → Bytes
quoted [] = []
quoted (a ∷ args) = codes "'" ++ take 128 a ++ codes "' " ++ quoted args

-- errUnknownCommand
unfoldable pub err_unknown_command : Bytes → List Bytes → Value
unfolding quoted
err_unknown_command name args = error (
    codes "ERR unknown command '"
    ++ take 128 name
    ++ codes "', with args beginning with: "
    ++ quoted (take 19 args))

-- The arity test: positive is exact, negative is a minimum.
unfoldable pub bad_arity : ℤ → ℕ → Bool
bad_arity (pos n) len = ltb 0 n && not (len == n)
bad_arity (negsuc n) len = ltb len (n + 1)

abbrev pub oom_text : Bytes
oom_text = codes "OOM command not allowed when used memory > 'maxmemory'."

abbrev pub exec_abort_prefix : Bytes
exec_abort_prefix = codes "EXECABORT Transaction discarded because of: "

unfoldable pub gate_message : Bytes → Bytes
gate_message fn =
    codes "Can't execute '"
    ++ fn
    ++ codes
        "': only (P|S)SUBSCRIBE / (P|S)UNSUBSCRIBE / PING / QUIT / RESET are allowed in this context"

pub record Gates : Type 0 where
  pub require_pass : Bytes
  pub busy : Bool
  pub out_of_memory : Bool

-- The BUSY gate: SCRIPT KILL and the commands of `while_busy` pass.
unfoldable pub passes_busy : Bytes → List Bytes → Bool
unfolding lower_ascii bytes_eq
passes_busy name (arg ∷ sub ∷ args) =
    if bytes_eq name (codes "script")
    then bytes_eq (lower_ascii sub) (codes "kill")
    else is_one_of name while_busy
passes_busy name args = is_one_of name while_busy

module _ ⦃P : Platform⦄ where
  is_denyoom : Option CmdDef → Bool
  is_denyoom none = false
  is_denyoom (some d) = has_flag d.flags "denyoom"

  -- queueHasDenyOOM
  unfoldable pub queue_has_deny_oom : Table → List (List Bytes) → Bool
  unfolding is_denyoom lower_ascii
  queue_has_deny_oom table [] = false
  queue_has_deny_oom table ([] ∷ qs) = queue_has_deny_oom table qs
  queue_has_deny_oom table ((name ∷ args) ∷ qs) =
      is_denyoom (table (lower_ascii name)) || queue_has_deny_oom table qs

  -- What a gate decides: to refuse, with what the refusal does to the connection, or to let pass.
  abbrev pub Refusal : Type 0
  Refusal = Option (Value × ConnState)

  infixl 20 ◌or_else◌
  unfoldable pub ◌or_else◌ : Refusal → Refusal → Refusal
  none or_else r = r
  some x or_else r = some x

  unfoldable pub refuse : Bool → Value → ConnState → Refusal
  refuse b v cs = if b then some (v, cs) else none

  unfoldable pub auth_gate : Gates → ConnState → Bytes → Refusal
  unfolding refuse
  auth_gate g cs name =
      refuse (not (length g.require_pass == 0) && not cs.authed && not (is_one_of name before_auth))
        (err "NOAUTH Authentication required.") cs

  unfoldable pub arity_gate : ConnState → Bool → CmdDef → ℕ → Refusal
  unfolding refuse err_arity bad_arity
  arity_gate cs queueable d len =
      refuse (bad_arity d.arity len) (err_arity d.name)
        (if queueable then record cs { queue_err = true } else cs)

  unfoldable pub subscribe_gate : ConnState → Bytes → List Bytes → Refusal
  unfolding refuse gated_fullname gate_message
  subscribe_gate cs name args =
      let fn = gated_fullname name args in
      refuse
        (cs.proto == 2
          && ltb 0 cs.subscriptions
          && not (is_one_of name while_subscribed)
          && not (length fn == 0))
        (error (
          (if bytes_eq name (codes "exec") then exec_abort_prefix else codes "ERR ")
          ++ gate_message fn))
        cs

  unfoldable pub busy_gate : Gates → ConnState → Bytes → List Bytes → Refusal
  unfolding refuse passes_busy
  busy_gate g cs name args =
      refuse (g.busy && not (passes_busy name args))
        (err
          "BUSY Redis is busy running a script. You can only call SCRIPT KILL or SHUTDOWN NOSAVE.")
        cs

  unfoldable pub memory_gate : Table → Gates → ConnState → Bool → Bytes → CmdDef → Refusal
  unfolding refuse queue_has_deny_oom
  memory_gate table g cs queueable name d =
      if not g.out_of_memory
      then none
      else if bytes_eq name (codes "exec") && queue_has_deny_oom table cs.queue
      then some (error (exec_abort_prefix ++ oom_text), clear_tx cs)
      else if queueable
      then some (error oom_text, record cs { queue_err = true })
      else refuse (has_flag d.flags "denyoom") (error oom_text) cs

  -- The gates in their order.
  unfoldable pub gates : Table → Gates → ConnState → Bool → Bytes → List Bytes → CmdDef → Refusal
  unfolding ◌or_else◌ auth_gate arity_gate subscribe_gate busy_gate memory_gate
  gates table g cs queueable name args d =
      auth_gate g cs name
      or_else arity_gate cs queueable d (length args)
      or_else subscribe_gate cs name args
      or_else busy_gate g cs name args
      or_else memory_gate table g cs queueable name d

  -- Behind the gates: queue the command, or run it.
  unfoldable pub dispatch : Bool → Server → ConnState → List Bytes → CmdDef → Refusal → Result
  dispatch queueable e cs args d (some (v, cs')) = answer e cs' v
  dispatch queueable e cs args d none =
      if queueable
      then answer e (record cs { queue = cs.queue ++ args ∷ [] }) reply_queued
      else d.handler e cs args

  unfoldable pub execute_def :
      Table → Gates → Server → ConnState → Bool → Bytes → List Bytes → Option CmdDef → Result
  unfolding gates dispatch err_unknown_command
  execute_def table g e cs queueable arg args none =
      answer e (if queueable then record cs { queue_err = true } else cs)
        (err_unknown_command arg args)
  execute_def table g e cs queueable arg args (some d) =
      dispatch queueable e cs (arg ∷ args) d
        (gates table g cs queueable (lower_ascii arg) (arg ∷ args) d)

  -- Execute
  unfoldable pub execute : Table → Gates → Server → ConnState → List Bytes → Result
  unfolding execute_def err_unknown_command
  execute table g e cs [] = answer e cs (err_unknown_command [] [])
  execute table g e cs (arg ∷ args) =
      let name = lower_ascii arg in
      execute_def table g e cs (cs.multi && not (is_one_of name never_queued)) arg args (table name)
