-- ===== src/A2/Pcb.antt =====
-- Process control blocks: a2/pcb.h and a2/pcb.c.
use comp.Prelude.{ℕ, ◌+◌, Bool, false, Option, none, some, List, if◌then◌else◌, ltb, set, replicate}
use comp.A2.Stream.{Stream}

-- `PCB`. A page without a frame, -1 in the source, is `none`. The fields `start` and `end`
-- are never read or written.
pub record Pcb : Type 0 where
  pub page_table : List (Option ℕ)
  pub priority : Bool
  pub pid : ℕ
  pub pc : ℕ
  pub current_command : ℕ
  pub number_of_commands : ℕ
  pub job_length_score : ℕ
  pub fp : Stream

abbrev pub max_pages : ℕ
max_pages = 100

-- `makePCB` with `pid` from `generatePID`, where `malloc` succeeds.
unfoldable pub make_pcb : Stream → ℕ → ℕ → Pcb
make_pcb fp num_commands pid = record {
  page_table = replicate max_pages none;
  priority = false;
  pid = pid;
  pc = 0;
  current_command = 0;
  number_of_commands = num_commands;
  job_length_score = num_commands;
  fp = fp;
}

-- `generatePID`: the counter's value, and the counter after it.
unfoldable pub generate_pid : ℕ → ℕ × ℕ
generate_pid counter = (counter, counter + 1)

unfoldable pub set_frame : Pcb → ℕ → ℕ → Pcb
set_frame pcb frame_index frame =
    if ltb frame_index max_pages
    then record pcb { page_table = set pcb.page_table frame_index (some frame) }
    else pcb
