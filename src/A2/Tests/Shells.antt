-- ===== src/A2/Tests/Shells.antt =====
-- The scheduler, the interpreter and the parser of a2 at a system that knows no file.
use comp.Prelude.{◌≡◌, refl, false, none, some, [], ◌∷◌, replicate}
use comp.Prelude.Int.{pos}
use comp.Prelude.Text.{codes, text_eq}
use comp.Prelude.Run.{done, out_of_fuel}
use comp.A2.Stream.{read_next_command, fopen_at_start}
use comp.A2.Vars.{mem_set_value, mem_get_value}
use comp.A2.State.{Host, Shell, puts}
use comp.A2.Process.{process_initialize}
use comp.A2.Interpreter.{interpreter}
use comp.A2.Parse.{parse_loop, parse_input}
use comp.A2.Parse.Progress.{parse_loop-semicolon}
use comp.A2.System.{shell_line}

-- No file can be opened, every command fails with status 256, and nothing is a directory.
abbrev bare : Host
bare = record {
  World = Unit {0};
  fopen = λ name w. none;
  system = λ command w. (pos 256, w);
  is_dir = λ name w. false;
  chdir = λ name w. (pos 0, w);
}

abbrev shell : Shell (Unit {0})
shell = record {
  vars = record { var = none; value = none } ∷ [];
  store = record { frames = []; num_lru = 0; stale = λ now i t. t };
  queue = [];
  pid_counter = 1;
  active = false;
  in_background = false;
  printed = [];
  world = tt;
}

-- A file of one empty line can be opened, and cannot be copied.
abbrev uncopied : Host
uncopied = record bare { fopen = λ name w. some (10 ∷ []) }

set_and_print :
    shell_line bare 3 (codes "set x 12;print x") shell
    ≡ done (pos 0) (record shell {
      vars = record { var = some (codes "x"); value = some (codes "12") } ∷ [];
      printed = puts (codes "12") ∷ [];
    })
unfolding shell_line parse_loop interpreter text_eq mem_set_value mem_get_value parse_input
set_and_print = refl

uncopied_status : process_initialize uncopied (codes "a") 1 shell ≡ done (pos 256) shell
unfolding process_initialize read_next_command fopen_at_start
uncopied_status = refl

parse_loop-semicolon_example :
    parse_loop
      (interpreter bare (λ policy. done (pos 0)))
      50
      (replicate 100 none)
      0
      1000
      (codes ";print x")
      shell
    ≡ out_of_fuel
parse_loop-semicolon_example =
    parse_loop-semicolon (interpreter bare (λ policy. done (pos 0))) 50 (replicate 100 none) 0 999
      (codes "print x") shell
