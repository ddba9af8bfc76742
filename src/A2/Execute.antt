-- ===== src/A2/Execute.antt =====
-- One turn of a process: `execute_process` of a2/kernel.c. What executes a line, `parseInput` of
-- a2/shell.c, is an argument here; A2/System passes it in.
pub mod Fault
pub mod Quantum
use comp.Prelude.{
  ℕ, zero, suc, ◌+◌, ◌/◌, ◌%◌, Bool, true, false, Option, none, some, ◌==◌, if◌then◌else◌,
  get_elem?,
}
use comp.Prelude.Int.{ℤ}
use comp.Prelude.Text.{Text}
use comp.Prelude.Run.{Run, done, fault, ◌>>=◌, ◌>>◌, and_then}
use comp.A2.Stream.{Stream, read_next_command, rewind}
use comp.A2.Pcb.{Pcb}
use comp.A2.Frames.{FrameStore, lines_per_frame, get_line}
use comp.A2.State.{Shell, Cmd, set_background}
use comp.A2.Process.{load_page}

-- `while (i != current_command) { i++; readNextCommand(fp, throwaway); }` for the rounds left.
unfoldable pub skip_commands : ℕ → Stream → Stream
skip_commands zero fp = fp
skip_commands (suc n) fp = skip_commands n (read_next_command fp).2

-- What the lookup of the line at the program counter gives.
pub data Fetch : Type 0 where
  -- `frameIndex == -1`, or the frame no longer belongs to the process
  page_fault : FrameStore → Fetch
  line : Text → FrameStore → Fetch
  -- a read outside the page table or the frame store
  bad_index : Fetch

-- The two calls of `getLineFromFrameStore`, in the test and in the assignment.
unfoldable pub fetch : Pcb → FrameStore → Fetch
fetch pcb s = elim (get_elem? pcb.page_table (pcb.pc / lines_per_frame)) as (λ _. Fetch) [
  | none ↦ bad_index
  | some none ↦ page_fault s
  | some (some i) ↦ elim (get_line pcb.pid i (pcb.pc % lines_per_frame) s) as (λ _. Fetch) [
    | none ↦ bad_index
    | some (none, s') ↦ page_fault s'
    | some (some t, s') ↦ elim (get_line pcb.pid i (pcb.pc % lines_per_frame) s') as (λ _. Fetch) [
      | none ↦ bad_index
      | some (none, s'') ↦ bad_index
      | some (some t', s'') ↦ line t' s''
    ]
  ]
]

-- The PCB after `PC++`, `current_command++` and the reset of its priority.
unfoldable pub advance : Pcb → Pcb
advance pcb = record pcb {
  pc = pcb.pc + 1;
  current_command = pcb.current_command + 1;
  priority = false;
}

-- Whether a turn ends with the process terminated or with its node for the queue.
pub data Turn : Type 0 where
  terminated : Turn
  yielded : Pcb → Turn

module _ {W : Type 0} where
  -- The service of a page fault.
  unfoldable pub serve_fault : Pcb → Cmd W Pcb
  serve_fault pcb =
      load_page (record pcb { fp = skip_commands pcb.current_command (rewind pcb.fp) }) pcb.pid
        (pcb.pc / lines_per_frame)

  -- `terminate_process` frees the node, which no queue holds.
  unfoldable pub finish : Cmd W Turn
  unfolding set_background
  finish = set_background false >> done terminated

  module _ (parse_input : Text → Cmd W ℤ) where
    -- The execution of one line that is in a frame.
    unfoldable pub run_line : Text → Cmd W (Unit {0})
    unfolding set_background
    run_line t = do set_background true; parse_input t; set_background false

    -- One round of the loop over the quanta, with the rounds that follow as `next`.
    unfoldable pub exec_round : (Pcb → Cmd W Turn) → Pcb → Fetch → Cmd W Turn
    exec_round next pcb bad_index s = fault
    exec_round next pcb (page_fault st) s =
        and_then (serve_fault pcb (record s { store = st })) (λ pcb'. done (yielded pcb'))
    exec_round next pcb (line t st) s = and_then (run_line t (record s { store = st })) (λ _.
        if (advance pcb).pc == (advance pcb).number_of_commands then finish else next (advance pcb))

    -- The loop over the quanta that are left.
    unfoldable pub exec_loop : ℕ → Pcb → Cmd W Turn
    unfolding exec_round run_line finish serve_fault fetch advance
    exec_loop zero pcb s = done (yielded pcb) s
    exec_loop (suc quanta) pcb s = exec_round (exec_loop quanta) pcb (fetch pcb s.store) s

    unfoldable pub execute_process : Pcb → ℕ → Cmd W Turn
    unfolding exec_loop finish
    execute_process pcb quanta s =
        if pcb.pc == pcb.number_of_commands then finish s else exec_loop quanta pcb s
