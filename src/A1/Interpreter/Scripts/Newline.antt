-- ===== src/A1/Interpreter/Scripts/Newline.antt =====
-- The loop over the lines of a script of a1/interpreter.c: its end.
use comp.Prelude.{ℕ, suc, ◌≡◌, refl, false, [], ◌∷◌, ◌++◌}
use comp.Prelude.Int.{ℤ, pos}
use comp.Prelude.Text.{Text, codes}
use comp.Prelude.Run.{done}
use comp.A2.Parse.{skip_spaces}
use comp.A1.Parse.{words, split_words}
use comp.A1.Interpreter.{Host, Shell, Cmd, say, badcommand, interpreter, parse_input}
use comp.A1.Interpreter.Scripts.{Line, read_line, run_lines}

module _ (h : Host) (no_return : ℤ) (run : Text → Cmd h.World) where
  parse_input-nil : (s : Shell h.World) → parse_input h no_return run [] s ≡ badcommand s
  unfolding parse_input interpreter words split_words skip_spaces
  parse_input-nil s = refl

  -- A script whose last line ends with a newline has one more, empty line: it prints "Unknown
  -- Command" at its end and its status is 1, whatever its commands return.
  pub run_lines-newline :
      (fuel : ℕ) (l : Line) (s s' : Shell h.World) {code : ℤ}
      → l.rest ≡ []
      → l.eof ≡ false
      → parse_input h no_return run l.text s ≡ done code s'
      → run_lines (parse_input h no_return run) (suc (suc fuel)) l s
        ≡ done
            (pos 1)
            (record s' { printed = s'.printed ++ (codes "Unknown Command" ++ (10 ∷ [])) })
  unfolding run_lines read_line badcommand say
  run_lines-newline fuel l s s' last more e =
      rw (e, run_lines) (rw (more, last) (rw (parse_input-nil s') refl))
