-- ===== src/Samples/Transactions.antt =====
-- Transactions, memory accounts and watched keys on the samples.
use ultima.Base.{bytes_eq, ◌≡◌, refl, none, [], ◌∷◌, Bytes, codes, false}
use ultima.Numbers.{lower_ascii}
use ultima.Shard.{Shard, lookup, store, watch_version}
use ultima.Shard.{sweep}
use ultima.Shard.Sweep.{sweep-IsDrained}
use ultima.Platform.{ExpItem, Elem}
use ultima.Base.Int.{pos, ◌<ℤ◌}
use ultima.Base.{none}
use ultima.Commands.Set.{no_options, set_task}
use ultima.Shard.Step.{Reach, here, next, looks}
use ultima.Commands.{new_string}
use ultima.Commands.Tx.{cmd_exec, err_exec_abort}
use ultima.Commands.Tx.Exec.{IsIdle, cmd_exec-IsIdle}
use ultima.Commands.Tx.Execute.{execute}
use ultima.Commands.Tx.Execute.Queue.{
  IsQueueStep, IsQueueable, submit, execute-IsQueueStep, unknown_command_aborts,
}
use ultima.Samples.Model.{sample}
use ultima.Samples.Data.{empty_shard, one_key, engine, counter, in_multi, only_ping, open_gates}

abbrev exec : Bytes
exec = codes "EXEC"

cmd_exec-IsIdle_example : IsIdle (cmd_exec only_ping engine in_multi (exec ∷ [])).conn
cmd_exec-IsIdle_example = cmd_exec-IsIdle only_ping engine in_multi (exec ∷ []) refl

ping_is_queued : IsQueueable (codes "PING", [])
unfolding lower_ascii bytes_eq
ping_is_queued = refl

execute-IsQueueStep_example :
    IsQueueStep engine in_multi
      (codes "PING" ∷ [])
      (execute only_ping open_gates engine in_multi (codes "PING" ∷ []))
execute-IsQueueStep_example =
    execute-IsQueueStep only_ping open_gates engine in_multi (codes "PING") [] refl ping_is_queued

no_such_is_queued : IsQueueable (codes "NOSUCH", [])
unfolding lower_ascii bytes_eq
no_such_is_queued = refl

no_such_command : only_ping (lower_ascii (codes "NOSUCH")) ≡ none
unfolding only_ping lower_ascii
no_such_command = refl

unknown_command_aborts_example :
    ((cmd_exec only_ping
        (submit only_ping open_gates engine in_multi
          ((codes "NOSUCH", []) ∷ (codes "PING", []) ∷ [])).0
        (submit only_ping open_gates engine in_multi
          ((codes "NOSUCH", []) ∷ (codes "PING", []) ∷ [])).1
        (exec ∷ [])).reply
      ≡ err_exec_abort)
    × ((cmd_exec only_ping
          (submit only_ping open_gates engine in_multi
            ((codes "NOSUCH", []) ∷ (codes "PING", []) ∷ [])).0
          (submit only_ping open_gates engine in_multi
            ((codes "NOSUCH", []) ∷ (codes "PING", []) ∷ [])).1
          (exec ∷ [])).server
        ≡ engine)
unknown_command_aborts_example =
    unknown_command_aborts only_ping open_gates engine in_multi (codes "NOSUCH") []
      ((codes "PING", []) ∷ []) exec refl (no_such_is_queued, (ping_is_queued, tt)) no_such_command

-- A store between WATCH and EXEC, with a lookup on either side of it.
abbrev sampled : Shard
sampled = (watch_version empty_shard 0 counter).1

abbrev before : Reach sampled (lookup sampled 0 counter).1
before = next here (looks 0 counter)

abbrev written : Shard
written = store (lookup sampled 0 counter).1 0 counter (new_string (codes "1"))

abbrev after : Reach written (lookup written 0 counter).1
after = next here (looks 0 counter)

-- A shard with a due heap item.
abbrev due : Shard
due = record one_key { exp = record { at = pos 500; db = 0; key = counter; gen = 1 } ∷ [] }

sweep-IsDrained_example :
    ((sweep due (pos 1000) none (λ n. false)).0.1 ≡ false)
    × ((y : ExpItem) → Elem y (sweep due (pos 1000) none (λ n. false)).1.exp → pos 1000 <ℤ y.at)
sweep-IsDrained_example = sweep-IsDrained due (pos 1000)

abbrev set_shard : Shard
set_shard = (set_task no_options (codes "1") 0 counter (lookup sampled 0 counter).1).1

abbrev after_set : Reach set_shard (lookup set_shard 0 counter).1
after_set = next here (looks 0 counter)
