-- ===== src/A1/Interpreter/Scripts.antt =====
-- `run` of a1/interpreter.c: the lines of a script.
pub mod Newline
use comp.Prelude.{
  ℕ, zero, suc, ◌+◌, Bool, true, false, Option, none, some, List, [], ◌∷◌, ◌++◌, ◌==◌,
  if◌then◌else◌, length,
}
use comp.Prelude.Int.{ℤ, is_minus_one}
use comp.Prelude.Text.{Text, codes}
use comp.Prelude.Run.{Run, done, exited, fault, out_of_fuel, and_then}
use comp.A1.Interpreter.{Host, Shell, Cmd, bad_command_file_does_not_exist, parse_input}

-- `fgets(line, 999, p)` with the end-of-file flag behind it: `n` is the room that is left. At the
-- end of the file the cleared buffer stays as it is, empty.
pub record Line : Type 0 where
  pub text : Text
  pub rest : Text
  pub eof : Bool

unfoldable pub read_line : ℕ → Text → Line
read_line zero r = record { text = []; rest = r; eof = false }
read_line (suc n) [] = record { text = []; rest = []; eof = true }
read_line (suc n) (c ∷ r) =
    let l = read_line n r in
    if c == 10
    then record { text = c ∷ []; rest = r; eof = false }
    else record { text = c ∷ l.text; rest = l.rest; eof = l.eof }

module _ {W : Type 0} (parse : Text → Cmd W) where
  -- The loop of `run` at the line that was read.
  unfoldable pub run_lines : ℕ → Line → Cmd W
  unfolding read_line
  run_lines zero l s = out_of_fuel
  run_lines (suc fuel) l s = and_then (parse l.text s) (λ code s'.
      let more = run_lines fuel (read_line 998 l.rest) s' in if l.eof then done code s' else more)

  -- `run` behind `fopen`: an empty file leaves the first buffer uninitialised. A line takes a byte
  -- at least, but for the last.
  unfoldable pub run_text : Text → Cmd W
  unfolding run_lines
  run_text [] s = fault
  run_text (c ∷ r) s = run_lines (length (c ∷ r) + 1) (read_line 998 (c ∷ r)) s

module _ (h : Host) (no_return : ℤ) where
  open h use {World, fopen}

  -- `run` with scripts in scripts down to the depth `fuel`.
  unfoldable pub run_script : ℕ → Text → Cmd World
  unfolding run_text parse_input bad_command_file_does_not_exist
  run_script zero script s = out_of_fuel
  run_script (suc fuel) script s = elim (fopen script s.world) as (λ _. Run (Shell World) ℤ) [
    | none ↦ bad_command_file_does_not_exist s
    | some text ↦ run_text (parse_input h no_return (run_script fuel)) text s
  ]

  -- One round of the loop of `main`, with scripts in scripts down to the depth `fuel`.
  unfoldable pub shell_line : ℕ → Text → Cmd World
  unfolding run_script parse_input
  shell_line fuel user_input s =
      and_then (parse_input h no_return (run_script fuel) user_input s)
        (λ code s'. if is_minus_one code then exited s' else done code s')
