-- ===== src/Commands/Tx.antt =====
-- Transactions: lib/commands/tx.go, and ConnState, WatchRef and clearTx of lib/commands/engine.go. The
-- command table is a parameter: a handler maps the engine, the connection and the arguments to a reply.
-- `tok` is the pause that keeps other connections out while EXEC runs, so EXEC is one step here.
pub mod Exec
pub mod Execute
use ultima.Base.{
  ℕ, Bool, true, false, not, Option, none, some, List, [], ◌∷◌, ◌++◌, Bytes, length, ◌==◌,
  if◌then◌else◌,
}
use ultima.Base.Int.{ℤ}
use ultima.Numbers.{lower_ascii}
use ultima.Platform.{Platform}
use ultima.Resp.{Value, null, err, simple, arr}
use ultima.Shard.{watch_version, watch_dirty}
use ultima.Commands.{Server, do_task, reply_ok}

-- WatchRef
pub record WatchRef : Type 0 where
  pub db : ℕ
  pub key : Bytes
  pub epoch : ℕ
  pub ver : ℕ

-- The part of ConnState that Execute and the transaction commands use; `subscriptions` is
-- len(cs.subs) + len(cs.psubs).
pub record ConnState : Type 0 where
  pub proto : ℕ
  pub authed : Bool
  pub db : ℕ
  pub multi : Bool
  pub queue : List (List Bytes)
  pub queue_err : Bool
  pub watch : List WatchRef
  pub in_exec : Bool
  pub subscriptions : ℕ

abbrev pub clear_tx : ConnState → ConnState
clear_tx cs = record cs { multi = false; queue = []; queue_err = false; watch = [] }

abbrev pub err_exec_abort : Value
err_exec_abort = err "EXECABORT Transaction discarded because of previous errors."

abbrev pub err_exec_arity : Value
err_exec_arity =
    err "EXECABORT Transaction discarded because of: wrong number of arguments for 'exec' command"

abbrev pub reply_queued : Value
reply_queued = simple "QUEUED"

module _ ⦃P : Platform⦄ where
  pub record Result : Type 0 where
    pub reply : Value
    pub server : Server
    pub conn : ConnState

  abbrev pub Handler : Type 0
  Handler = Server → ConnState → List Bytes → Result

  -- CmdDef, as far as Execute reads it.
  pub record CmdDef : Type 0 where
    pub name : Bytes
    pub arity : ℤ
    pub flags : List Bytes
    pub handler : Handler

  abbrev pub Table : Type 0
  Table = Bytes → Option CmdDef

  abbrev pub answer : Server → ConnState → Value → Result
  answer e cs v = record { reply = v; server = e; conn = cs }

  unfoldable pub cmd_multi : Handler
  cmd_multi e cs args =
      if cs.multi
      then answer e cs (err "ERR MULTI calls can not be nested")
      else answer e (record cs { multi = true }) reply_ok

  unfoldable pub cmd_discard : Handler
  cmd_discard e cs args =
      if not cs.multi
      then answer e cs (err "ERR DISCARD without MULTI")
      else answer e (clear_tx cs) reply_ok

  -- The loop of cmdWatch over the keys, each sampled on its own shard.
  unfoldable pub watch_keys : Server → ConnState → List Bytes → Server × ConnState
  unfolding do_task watch_version
  watch_keys e cs [] = (e, cs)
  watch_keys e cs (key ∷ keys) =
      let ((epoch, ver), e₁) = do_task e key (λ s. watch_version s cs.db key) in
      let w : WatchRef = record { db = cs.db; key = key; epoch = epoch; ver = ver } in
      watch_keys e₁ (record cs { watch = cs.watch ++ w ∷ [] }) keys

  -- args[1:] are the keys.
  unfoldable pub cmd_watch : Server → ConnState → List Bytes → Result
  unfolding watch_keys
  cmd_watch e cs keys =
      let (e', cs') = watch_keys e cs keys in
      if cs.multi
      then answer e cs (err "ERR WATCH inside MULTI is not allowed")
      else answer e' cs' reply_ok

  unfoldable pub cmd_unwatch : Handler
  cmd_unwatch e cs args = answer e (record cs { watch = [] }) reply_ok

  -- The dirty check of cmdExec stops at the first dirty key.
  unfoldable pub any_dirty : Server → List WatchRef → Bool × Server
  unfolding do_task watch_dirty
  any_dirty e [] = (false, e)
  any_dirty e (w ∷ ws) =
      let (dirty, e₁) = do_task e w.key (λ s. watch_dirty s w.db w.key w.epoch w.ver) in
      let rest = any_dirty e₁ ws in if dirty then (true, e₁) else rest

  module _ (table : Table) where
    -- One queued command; a name that the table does not have is passed over.
    run_def : Option CmdDef → Server → ConnState → List Bytes → List Value × (Server × ConnState)
    run_def none e cs args = ([], (e, cs))
    run_def (some d) e cs args = let r = d.handler e cs args in (r.reply ∷ [], (r.server, r.conn))

    unfoldable pub run_one : Server → ConnState → List Bytes → List Value × (Server × ConnState)
    unfolding run_def lower_ascii
    run_one e cs [] = ([], (e, cs))
    run_one e cs (name ∷ args) = run_def (table (lower_ascii name)) e cs (name ∷ args)

    -- The commit loop of cmdExec.
    unfoldable pub run_queue :
        Server → ConnState → List (List Bytes) → List Value × (Server × ConnState)
    unfolding run_one
    run_queue e cs [] = ([], (e, cs))
    run_queue e cs (q ∷ qs) =
        let (v, (e₁, cs₁)) = run_one e cs q in let (vs, r) = run_queue e₁ cs₁ qs in (v ++ vs, r)

    -- The commit under the dirty check's outcome; the deferred calls reset the connection.
    unfoldable pub exec_checked : ConnState → Bool × Server → Result
    unfolding run_queue
    exec_checked cs (true, e) = answer e (clear_tx (record cs { in_exec = false })) null
    exec_checked cs (false, e) =
        let (vs, (e', cs')) = run_queue e (record cs { in_exec = true }) cs.queue in
        answer e' (clear_tx (record cs' { in_exec = false })) (arr vs)

    unfoldable pub cmd_exec : Handler
    unfolding exec_checked any_dirty
    cmd_exec e cs args =
        if not (length args == 1)
        then answer e (clear_tx cs) err_exec_arity
        else if not cs.multi
        then answer e cs (err "ERR EXEC without MULTI")
        else if cs.queue_err
        then answer e (clear_tx cs) err_exec_abort
        else exec_checked cs (any_dirty e cs.watch)
