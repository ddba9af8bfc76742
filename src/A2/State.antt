-- ===== src/A2/State.antt =====
-- The state of the second shell, and the operating system that it calls.
use comp.Prelude.{ℕ, Bool, Option, List, [], ◌∷◌, ◌++◌}
use comp.Prelude.Int.{ℤ}
use comp.Prelude.Text.{Text}
use comp.Prelude.Run.{Run, done}
use comp.A2.Vars.{Vars}
use comp.A2.Frames.{FrameStore}
use comp.A2.Queue.{Queue}

-- What the shell asks of the C library and the system: the bytes of a file that `fopen` opens
-- for reading, the status of a command, `stat` with `S_ISDIR`, and `chdir`.
pub record Host : Type 1 where
  pub World : Type 0
  pub fopen : Text → World → Option Text
  pub system : Text → World → ℤ × World
  pub is_dir : Text → World → Bool
  pub chdir : Text → World → ℤ × World

-- A line that is printed, or the text of `help`.
pub data Event : Type 0 where
  puts : Text → Event
  help_text : Event

-- The static variables of shellmemory.c, ready_queue.c, pcb.c and kernel.c. (`debug` of kernel.c
-- is not used.)
pub record Shell (W : Type 0) : Type 0 where
  pub vars : Vars
  pub store : FrameStore
  pub queue : Queue
  pub pid_counter : ℕ
  pub active : Bool
  pub in_background : Bool
  pub printed : List Event
  pub world : W

abbrev pub Cmd : Type 0 → Type 0 → Type 0
Cmd W A = Shell W → Run (Shell W) A

abbrev pub print_all : List Text → List Event
print_all [] = []
print_all (t ∷ r) = puts t ∷ print_all r

module _ {W : Type 0} where
  -- `printf("%s\n", t)`
  unfoldable pub print_line : Text → Cmd W (Unit {0})
  print_line t s = done tt (record s { printed = s.printed ++ (puts t ∷ []) })

  unfoldable pub set_background : Bool → Cmd W (Unit {0})
  set_background b s = done tt (record s { in_background = b })
