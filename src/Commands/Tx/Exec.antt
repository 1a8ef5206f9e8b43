-- ===== src/Commands/Tx/Exec.antt =====
-- What EXEC leaves behind, and what it does when a watched key is dirty.
use ultima.Base.{
  true_ne_false, ap, ◌≡◌, refl, sym, ◌∙◌, Bool, true, false, not, List, [], Bytes, length, ◌==◌,
  if◌then◌else◌,
}
use ultima.Platform.{Platform}
use ultima.Shard.{Shard}
use ultima.Commands.{Server}
use ultima.Commands.Tx.{ConnState, Table, Result, clear_tx, any_dirty, exec_checked, cmd_exec}

-- No transaction and no watched key.
pub record IsIdle (cs : ConnState) : Type 0 where
  pub no_multi : cs.multi ≡ false
  pub no_queue : cs.queue ≡ []
  pub no_error : cs.queue_err ≡ false
  pub no_watch : cs.watch ≡ []

clear_tx-IsIdle : (cs : ConnState) → IsIdle (clear_tx cs)
clear_tx-IsIdle cs = record { no_multi = refl; no_queue = refl; no_error = refl; no_watch = refl }

module _ ⦃P : Platform⦄ where
  if-IsIdle :
      (b : Bool) (r t : Result)
      → (b ≡ true → IsIdle r.conn)
      → (b ≡ false → IsIdle t.conn)
      → IsIdle (if b then r else t).conn
  if-IsIdle true r t f g = f refl
  if-IsIdle false r t f g = g refl

  module _ (table : Table) where
    exec_checked-IsIdle :
        (cs : ConnState) (r : Bool × Server) → IsIdle (exec_checked table cs r).conn
    unfolding exec_checked
    exec_checked-IsIdle cs (true, e) = record {
      no_multi = refl;
      no_queue = refl;
      no_error = refl;
      no_watch = refl;
    }
    exec_checked-IsIdle cs (false, e) = record {
      no_multi = refl;
      no_queue = refl;
      no_error = refl;
      no_watch = refl;
    }

    -- EXEC of a connection in MULTI leaves it with no transaction, no queue, no queue error and no
    -- watched key, whatever its outcome and whatever the queued handlers did to the connection.
    pub cmd_exec-IsIdle :
        (e : Server) (cs : ConnState) (args : List Bytes)
        → cs.multi ≡ true
        → IsIdle (cmd_exec table e cs args).conn
    unfolding cmd_exec
    cmd_exec-IsIdle e cs args h =
        if-IsIdle (not (length args == 1)) _ _ (λ _. clear_tx-IsIdle cs)
          (λ _.
            if-IsIdle (not cs.multi) _ _ (λ b. absurd (true_ne_false (sym b ∙ ap not h)))
              (λ _.
                if-IsIdle cs.queue_err _ _ (λ _. clear_tx-IsIdle cs)
                  (λ _. exec_checked-IsIdle cs (any_dirty e cs.watch))))
