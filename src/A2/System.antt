-- ===== src/A2/System.antt =====
-- The parts of the second shell put together: a line that a process executes is parsed and
-- interpreted like one that is typed, and may start processes itself.
use comp.Prelude.{ℕ, zero, suc, ◌+◌, length}
use comp.Prelude.Int.{ℤ}
use comp.Prelude.Text.{Text}
use comp.Prelude.Run.{out_of_fuel}
use comp.A2.State.{Host, Cmd}
use comp.A2.Parse.{parse_input}
use comp.A2.Interpreter.{interpreter}
use comp.A2.Schedule.{schedule_by_policy}

module _ (h : Host) where
  open h use {World}

  -- The fuel bounds the depth of scripts that start scripts, the rounds of each scheduler and
  -- those of each parse.
  unfoldable pub schedule : ℕ → Text → Cmd World ℤ
  schedule zero policy s = out_of_fuel
  schedule (suc fuel) policy s =
      schedule_by_policy (parse_input (interpreter h (schedule fuel)) (suc fuel)) (suc fuel) policy
        s

  -- `parseInput` of a line that is typed.
  unfoldable pub shell_line : ℕ → Text → Cmd World ℤ
  unfolding schedule
  shell_line fuel ui = parse_input (interpreter h (schedule fuel)) (length ui + 2) ui
