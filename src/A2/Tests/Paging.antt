-- ===== src/A2/Tests/Paging.antt =====
-- The paging of a2/kernel.c and a2/shellmemory.c at a program of four lines and one frame.
use comp.Prelude.{
  ℕ, ◌+◌, ◌≡◌, ◌≤◌, ◌⊎◌, refl, true, false, none, some, List, [], ◌∷◌, arith, length, get_elem?,
  replicate,
}
use comp.Prelude.Int.{ℤ, pos}
use comp.Prelude.Text.{Text}
use comp.Prelude.Run.{done, Ensures}
use comp.A2.Stream.{Stream, rewind, read_next_command}
use comp.A2.Pcb.{Pcb, set_frame}
use comp.A2.Frames.{
  Stale, Frame, FrameStore, Loaded, init_frames, choose_frame, load_frame, fill_frame, load_lines,
  get_line, remove_whitespace, victim_report,
}
use comp.A2.Frames.Lru.{IsStore, choose_frame-Oldest, Oldest, AllFull}
use comp.A2.Frames.Load.{nth_command}
use comp.A2.Frames.Service.{init_frames-IsStore, load_frame-IsStore, get_line-load_frame}
use comp.A2.State.{Shell, Cmd}
use comp.A2.Process.{count_commands, load_page, after_load}
use comp.A2.Schedule.{scheduler_fcfs, scheduler_sjf}
use comp.A2.Schedule.Loops.{served, load_for, scheduler_sjf-drops}
use comp.A2.Process.Count.{count_commands_exact}
use comp.A2.Queue.{max_int}
use comp.A2.Execute.{yielded, line, fetch, serve_fault, skip_commands, execute_process}
use comp.A2.Execute.Fault.{fetch-serve_fault}
use comp.A2.Execute.Quantum.{TurnOk, execute_process-Progress}

-- The lines "a", "b", "c" and "d".
abbrev script : Text
script = 97 ∷ 10 ∷ 98 ∷ 10 ∷ 99 ∷ 10 ∷ 100 ∷ []

abbrev program : Stream
program = record { content = script; rest = script }

-- A platform on which the dead array still holds its text.
abbrev kept : Stale
kept now i t = t

abbrev one_frame : FrameStore
one_frame = init_frames kept 1

one_frame-IsStore : IsStore one_frame
one_frame-IsStore = init_frames-IsStore kept 1

-- After two lines of the script, on a page whose frame is gone.
abbrev in_mid_page : Pcb
in_mid_page = record {
  page_table = replicate 100 none;
  priority = false;
  pid = 1;
  pc = 2;
  current_command = 2;
  number_of_commands = 4;
  job_length_score = 4;
  fp = program;
}

abbrev shell : Shell (Unit {0})
shell = record {
  vars = [];
  store = one_frame;
  queue = [];
  pid_counter = 2;
  active = false;
  in_background = false;
  printed = [];
  world = tt;
}

abbrev at_start : Pcb
at_start = record in_mid_page { pc = 0; current_command = 0 }

abbrev ignore_line : Text → Cmd (Unit {0}) ℤ
ignore_line t s = done (pos 0) s

-- A process at the start of its first page runs "a" after the fault.
fetch-serve_fault_example :
    (p : Pcb) × (s : Shell (Unit {0})) × (st : FrameStore) × (serve_fault at_start shell ≡ done p s)
    × (p.pc ≡ 0)
    × (fetch p s.store ≡ line (remove_whitespace (97 ∷ [])) st)
unfolding init_frames nth_command read_next_command rewind
fetch-serve_fault_example =
    fetch-serve_fault shell at_start one_frame-IsStore (omega arith) (omega arith) refl
      (omega arith) refl

choose_frame-Oldest_example :
    (i : ℕ) × (printed : List Text) × (f : Frame) × (choose_frame one_frame ≡ some (i, printed))
    × (get_elem? one_frame.frames i ≡ some f)
    × (((f.empty ≡ true) × (printed ≡ []))
        ⊎ ((l : ℕ) × (f.lru ≡ some l)
            × Oldest l one_frame.frames
            × AllFull one_frame.frames
            × (printed ≡ victim_report f)))
unfolding init_frames
choose_frame-Oldest_example = choose_frame-Oldest one_frame-IsStore (omega arith) (omega arith)

load_frame-IsStore_example :
    (l : Loaded) × (f : Frame) × (load_frame program 1 one_frame ≡ some l)
    × IsStore l.store
    × (l.store.num_lru ≡ one_frame.num_lru + 1)
    × (length l.store.frames ≡ length one_frame.frames)
    × (get_elem? l.store.frames l.frame ≡ some f)
    × (f.pid ≡ some 1)
    × (f.lru ≡ some one_frame.num_lru)
unfolding init_frames
load_frame-IsStore_example =
    load_frame-IsStore program 1 one_frame-IsStore (omega arith) (omega arith)

get_line-load_frame_example :
    (l : Loaded) × (st : FrameStore) × (load_frame program 1 one_frame ≡ some l)
    × (st.num_lru ≡ 2)
    × (get_line 1 l.frame 1 l.store ≡ some (some (remove_whitespace (98 ∷ [])), st))
unfolding init_frames nth_command read_next_command
get_line-load_frame_example =
    get_line-load_frame program 1 1 one_frame-IsStore (omega arith) (omega arith) (omega arith) refl

count_commands_exact_example :
    (m : ℕ) × (count_commands (length script + 1) program 0 ≡ some m)
    × (nth_command m program ≡ none)
    × ((m ≤ 3) ⊎ ((t : Text) × (nth_command 3 program ≡ some t)))
count_commands_exact_example = count_commands_exact program 3

execute_process-Progress_example :
    Ensures (λ turn _. TurnOk 2 at_start turn) (execute_process ignore_line at_start 2 shell)
execute_process-Progress_example =
    execute_process-Progress ignore_line 2 at_start shell (omega arith)

scheduler_sjf-drops_example :
    (l : Loaded) × (load_for at_start shell ≡ some l)
    × ((served at_start l).pc ≡ 0)
    × (scheduler_fcfs ignore_line 1 (record shell { queue = at_start ∷ []; active = false })
        ≡ scheduler_fcfs ignore_line 0
            (record (after_load shell l) { queue = served at_start l ∷ []; active = false }))
    × (scheduler_sjf ignore_line 2 (record shell { queue = at_start ∷ []; active = false })
        ≡ done tt (record (after_load shell l) { queue = []; active = false }))
unfolding init_frames
scheduler_sjf-drops_example =
    scheduler_sjf-drops ignore_line 0 at_start shell (omega arith) refl one_frame-IsStore
      (omega arith) (omega arith)

abbrev alone : Pcb
alone = record at_start { page_table = none ∷ none ∷ [] }

abbrev alone_loaded : Pcb
alone_loaded = record alone {
  page_table = some 0 ∷ none ∷ [];
  fp = record program { rest = 100 ∷ [] };
}

abbrev shell_loaded : Shell (Unit {0})
shell_loaded = record shell {
  store = record {
    frames =
        record {
          lines = some (97 ∷ []) ∷ some (98 ∷ []) ∷ some (99 ∷ []) ∷ [];
          pid = some 1;
          empty = false;
          lru = some 0;
        }
        ∷ [];
    num_lru = 1;
    stale = kept;
  };
}

alone_faults :
    execute_process ignore_line alone max_int (record shell { queue = [] })
    ≡ done (yielded alone_loaded) (record shell_loaded { queue = []; active = false })
unfolding execute_process load_page load_frame choose_frame init_frames set_frame fill_frame
    load_lines skip_commands rewind
alone_faults = refl
