-- ===== src/Commands/Tx/Execute/Queue.antt =====
-- The queueing phase of a transaction: between MULTI and EXEC no command touches the engine.
use ultima.Base.{
  ◌≡◌, refl, ◌∙◌, inl, inr, Bool, true, false, not, ◌&&◌, Option, none, some, List, [], ◌∷◌, ◌++◌,
  Bytes, codes, bytes_eq, Bool-cases, arith, All,
}
use ultima.Numbers.{lower_ascii}
use ultima.Platform.{Platform}
use ultima.Resp.{Value}
use ultima.Base.Maps.{is_one_of}
use ultima.Commands.{Server}
use ultima.Commands.Tx.{
  ConnState, CmdDef, Table, Result, answer, clear_tx, reply_queued, cmd_exec, err_exec_abort,
}
use ultima.Commands.Tx.Execute.{
  Gates, Refusal, never_queued, refuse, ◌or_else◌, auth_gate, arity_gate, subscribe_gate, busy_gate,
  memory_gate, gates, dispatch, execute_def, execute,
}

-- A refused command may only mark the transaction.
pub data IsHeld (cs : ConnState) : ConnState → Type 0 where
  same : IsHeld cs cs
  marked : IsHeld cs (record cs { queue_err = true })

module _ ⦃P : Platform⦄ where
  HoldsIf : ConnState → Refusal → Type 0
  HoldsIf cs none = Unit
  HoldsIf cs (some (v, cs')) = IsHeld cs cs'

  HoldsIf-or_else :
      (cs : ConnState) (r t : Refusal) → HoldsIf cs r → HoldsIf cs t → HoldsIf cs (r or_else t)
  unfolding ◌or_else◌ HoldsIf
  HoldsIf-or_else cs none t h k = k
  HoldsIf-or_else cs (some x) t h k = h

  HoldsIf-refuse :
      (cs : ConnState) (b : Bool) (v : Value) (cs' : ConnState)
      → IsHeld cs cs'
      → HoldsIf cs (refuse b v cs')
  unfolding refuse HoldsIf
  HoldsIf-refuse cs true v cs' h = h
  HoldsIf-refuse cs false v cs' h = tt

  -- The memory gate clears a transaction only for EXEC, which is never queued.
  HoldsIf-memory_gate :
      (table : Table) (g : Gates) (cs : ConnState) (name : Bytes) (d : CmdDef)
      → bytes_eq name (codes "exec") ≡ false
      → HoldsIf cs (memory_gate table g cs true name d)
  HoldsIf-memory_gate table g cs name d h = elim (Bool-cases g.out_of_memory) [
    | inl o ↦ unfold memory_gate HoldsIf in rw (o, h) marked
    | inr o ↦ unfold memory_gate HoldsIf in rw o tt
  ]

  HoldsIf-gates :
      (table : Table) (g : Gates) (cs : ConnState) (name : Bytes) (args : List Bytes) (d : CmdDef)
      → bytes_eq name (codes "exec") ≡ false
      → HoldsIf cs (gates table g cs true name args d)
  unfolding gates auth_gate arity_gate subscribe_gate busy_gate
  HoldsIf-gates table g cs name args d h =
      HoldsIf-or_else cs _ _
        (HoldsIf-or_else cs _ _
          (HoldsIf-or_else cs _ _
            (HoldsIf-or_else cs _ _ (HoldsIf-refuse cs _ _ _ same) (HoldsIf-refuse cs _ _ _ marked))
            (HoldsIf-refuse cs _ _ _ same))
          (HoldsIf-refuse cs _ _ _ same))
        (HoldsIf-memory_gate table g cs name d h)

  -- A command of the queueing phase: queued behind the others, or refused.
  pub data IsQueueStep (e : Server) (cs : ConnState) (args : List Bytes) : Result → Type 0 where
    queued :
        IsQueueStep e cs args (answer e (record cs { queue = cs.queue ++ args ∷ [] }) reply_queued)
    refused : (cs' : ConnState) (v : Value) → IsHeld cs cs' → IsQueueStep e cs args (answer e cs' v)

  IsQueueStep-dispatch :
      (e : Server) (cs : ConnState) (args : List Bytes) (d : CmdDef) (r : Refusal)
      → HoldsIf cs r
      → IsQueueStep e cs args (dispatch true e cs args d r)
  unfolding dispatch HoldsIf
  IsQueueStep-dispatch e cs args d none h = queued
  IsQueueStep-dispatch e cs args d (some (v, cs')) h = refused cs' v h

  IsQueueStep-execute_def :
      (table : Table) (g : Gates) (e : Server) (cs : ConnState) (arg : Bytes) (args : List Bytes)
      (o : Option CmdDef)
      → bytes_eq (lower_ascii arg) (codes "exec") ≡ false
      → IsQueueStep e cs (arg ∷ args) (execute_def table g e cs true arg args o)
  unfolding execute_def
  IsQueueStep-execute_def table g e cs arg args none h = refused _ _ marked
  IsQueueStep-execute_def table g e cs arg args (some d) h =
      IsQueueStep-dispatch e cs (arg ∷ args) d _
        (HoldsIf-gates table g cs (lower_ascii arg) (arg ∷ args) d h)

  -- Inside MULTI a command other than exec, discard, multi, watch, quit and reset never reaches
  -- the engine: it is appended to the queue and answered QUEUED, or it is refused, which changes
  -- nothing of the connection but the queue-error mark.
  pub execute-IsQueueStep :
      (table : Table) (g : Gates) (e : Server) (cs : ConnState) (arg : Bytes) (args : List Bytes)
      → cs.multi ≡ true
      → is_one_of (lower_ascii arg) never_queued ≡ false
      → IsQueueStep e cs (arg ∷ args) (execute table g e cs (arg ∷ args))
  execute-IsQueueStep table g e cs arg args m n =
      let open_name : (cs.multi && not (is_one_of (lower_ascii arg) never_queued)) ≡ true =
        ground (arith, m, n) in
      unfold execute in
      rw open_name (
        IsQueueStep-execute_def table g e cs arg args (table (lower_ascii arg)) (ground (arith, n)))

  -- The queueing phase as a whole.
  unfoldable pub submit :
      Table → Gates → Server → ConnState → List (Bytes × List Bytes) → Server × ConnState
  unfolding execute
  submit table g e cs [] = (e, cs)
  submit table g e cs ((arg, args) ∷ rest) =
      let r = execute table g e cs (arg ∷ args) in submit table g r.server r.conn rest

  abbrev pub IsQueueable : Bytes × List Bytes → Type 0
  IsQueueable c = is_one_of (lower_ascii c.0) never_queued ≡ false

  -- A held transaction: the engine untouched, MULTI on, and an error remembered.
  record IsOpen (e : Server) (cs : ConnState) (r : Server × ConnState) : Type 0 where
    pub untouched : r.0 ≡ e
    pub multi : r.1.multi ≡ true
    pub remembers : cs.queue_err ≡ true → r.1.queue_err ≡ true

  step-IsOpen :
      (e : Server) (cs : ConnState) (args : List Bytes) (r : Result)
      → cs.multi ≡ true
      → IsQueueStep e cs args r
      → IsOpen e cs (r.server, r.conn)
  step-IsOpen e cs args _ m queued = record { untouched = refl; multi = m; remembers = λ q. q }
  step-IsOpen e cs args _ m (refused _ v same) = record {
    untouched = refl;
    multi = m;
    remembers = λ q. q;
  }
  step-IsOpen e cs args _ m (refused _ v marked) = record {
    untouched = refl;
    multi = m;
    remembers = λ q. refl;
  }

  submit-IsOpen :
      (table : Table) (g : Gates) (e : Server) (cs : ConnState) (cmds : List (Bytes × List Bytes))
      → cs.multi ≡ true
      → All IsQueueable cmds
      → IsOpen e cs (submit table g e cs cmds)
  unfolding submit
  submit-IsOpen table g e cs [] m a = record { untouched = refl; multi = m; remembers = λ q. q }
  submit-IsOpen table g e cs ((arg, args) ∷ cmds) m a =
      let r = execute table g e cs (arg ∷ args) in
      let o = step-IsOpen e cs (arg ∷ args) r m (execute-IsQueueStep table g e cs arg args m a.0) in
      let p = submit-IsOpen table g r.server r.conn cmds o.multi a.1 in
      record {
        untouched = p.untouched ∙ o.untouched;
        multi = p.multi;
        remembers = λ q. p.remembers (o.remembers q);
      }

  exec_abort :
      (table : Table) (e : Server) (cs : ConnState) (name : Bytes)
      → cs.multi ≡ true
      → cs.queue_err ≡ true
      → cmd_exec table e cs (name ∷ []) ≡ answer e (clear_tx cs) err_exec_abort
  unfolding cmd_exec
  exec_abort table e cs name m q = simp (m, q)

  unknown_marks :
      (table : Table) (g : Gates) (e : Server) (cs : ConnState) (arg : Bytes) (args : List Bytes)
      → cs.multi ≡ true
      → is_one_of (lower_ascii arg) never_queued ≡ false
      → table (lower_ascii arg) ≡ none
      → (execute table g e cs (arg ∷ args)).conn.queue_err ≡ true
  unknown_marks table g e cs arg args m n u =
      let open_name : (cs.multi && not (is_one_of (lower_ascii arg) never_queued)) ≡ true =
        ground (arith, m, n) in
      unfold execute execute_def in rw (open_name, u)

  submit_marks :
      (table : Table) (g : Gates) (e : Server) (cs : ConnState) (arg : Bytes) (args : List Bytes)
      (cmds : List (Bytes × List Bytes))
      → cs.multi ≡ true
      → All IsQueueable ((arg, args) ∷ cmds)
      → table (lower_ascii arg) ≡ none
      → (submit table g e cs ((arg, args) ∷ cmds)).1.queue_err ≡ true
  unfolding submit
  submit_marks table g e cs arg args cmds m a u =
      let r = execute table g e cs (arg ∷ args) in
      let o = step-IsOpen e cs (arg ∷ args) r m (execute-IsQueueStep table g e cs arg args m a.0) in
      let p = submit-IsOpen table g r.server r.conn cmds o.multi a.1 in
      p.remembers (unknown_marks table g e cs arg args m a.0 u)

  -- If an unknown command is submitted inside MULTI, then after any further commands other than
  -- the transaction's control commands EXEC replies EXECABORT and leaves the engine as it was when
  -- the unknown command arrived.
  pub unknown_command_aborts :
      (table : Table) (g : Gates) (e : Server) (cs : ConnState) (arg : Bytes) (args : List Bytes)
      (cmds : List (Bytes × List Bytes)) (name : Bytes)
      → cs.multi ≡ true
      → All IsQueueable ((arg, args) ∷ cmds)
      → table (lower_ascii arg) ≡ none
      → ((cmd_exec table
            (submit table g e cs ((arg, args) ∷ cmds)).0
            (submit table g e cs ((arg, args) ∷ cmds)).1
            (name ∷ [])).reply
          ≡ err_exec_abort)
        × ((cmd_exec table
              (submit table g e cs ((arg, args) ∷ cmds)).0
              (submit table g e cs ((arg, args) ∷ cmds)).1
              (name ∷ [])).server
            ≡ e)
  unknown_command_aborts table g e cs arg args cmds name m a u =
      let s = submit table g e cs ((arg, args) ∷ cmds) in
      let q = submit-IsOpen table g e cs ((arg, args) ∷ cmds) m a in
      rw (exec_abort table s.0 s.1 name q.multi (submit_marks table g e cs arg args cmds m a u))
        (refl, q.untouched)
