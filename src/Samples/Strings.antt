-- ===== src/Samples/Strings.antt =====
-- The string commands on the sample engine.
use ultima.Base.{arith, ◌≡◌, refl, some, codes}
use ultima.Base.Int.{pos, negsuc}
use ultima.Numbers.{parse_int_strict}
use ultima.Commands.Lift.{keyspace, Handled}
use ultima.Commands.Set.Options.{IsConsistent, parse_set_options-IsConsistent}
use ultima.Commands.Strings.{cmd_strlen}
use ultima.Commands.Strings.Effect.{strlen_spec}
use ultima.Commands.Counters.{incr_by}
use ultima.Commands.Counters.Effect.{incr_spec}
use ultima.Commands.Handlers.{cmd_strlen-Handled, incr_by-Handled}
use ultima.Samples.Model.{sample}
use ultima.Samples.Data.{engine, counter, ex_options, ex_parsed, ex_options_parse}

parse_set_options-IsConsistent_example : IsConsistent ex_parsed
parse_set_options-IsConsistent_example =
    parse_set_options-IsConsistent ex_options ex_parsed ex_options_parse

cmd_strlen-Handled_example :
    Handled engine 0 counter (strlen_spec (keyspace engine 0 counter)) (cmd_strlen engine 0 counter)
cmd_strlen-Handled_example = cmd_strlen-Handled engine 0 counter

incr_by-Handled_example :
    Handled engine 0 counter
      (incr_spec (negsuc 0) (keyspace engine 0 counter))
      (incr_by engine 0 counter (negsuc 0))
incr_by-Handled_example = incr_by-Handled engine 0 counter (negsuc 0) (ground arith)

five : parse_int_strict (codes "5") ≡ some (pos 5)
unfolding parse_int_strict
five = refl
