-- ===== src/A2/Schedule/Loops.antt =====
-- What becomes of a process with a page fault under two policies of a2/kernel.c.
use comp.Prelude.{
  ℕ, suc, ◌/◌, ◌<◌, ◌≡◌, refl, false, none, some, Option, [], ◌∷◌, arith, length, get_elem?, ◌==◌,
}
use comp.Prelude.Int.{ℤ}
use comp.Prelude.Text.{Text}
use comp.Prelude.Run.{done}
use comp.A2.Stream.{Stream, rewind}
use comp.A2.Pcb.{Pcb, set_frame}
use comp.A2.Queue.{max_int, add_to_tail, pop_shortest_job, sort_ready_queue}
use comp.A2.Frames.{FrameStore, Loaded, load_frame, int_max, lines_per_frame}
use comp.A2.Frames.Lru.{IsStore}
use comp.A2.Frames.Service.{load_frame-IsStore}
use comp.A2.State.{Shell, Cmd}
use comp.A2.Process.{load_page, after_load}
use comp.A2.Execute.{
  page_fault, fetch, skip_commands, serve_fault, yielded, exec_round, execute_process,
}
use comp.A2.Schedule.{scheduler_fcfs, scheduler_sjf}

load_frame-returns :
    {s : FrameStore} (fp : Stream) (pid : ℕ)
    → IsStore s
    → 0 < length s.frames
    → s.num_lru < int_max
    → (l : Loaded) × (load_frame fp pid s ≡ some l)
load_frame-returns fp pid v pos small = let r = load_frame-IsStore fp pid v pos small in (r.0, r.2)

fetch-absent :
    (p : Pcb) (s : FrameStore)
    → get_elem? p.page_table (p.pc / lines_per_frame) ≡ some none
    → fetch p s ≡ page_fault s
unfolding fetch
fetch-absent p s e = rw (e, fetch) refl

-- The process after the fault: the page has its frame.
abbrev pub served : Pcb → Loaded → Pcb
served p l = set_frame (record p { fp = l.fp }) (p.pc / lines_per_frame) l.frame

served-pc : (p : Pcb) (l : Loaded) → (served p l).pc ≡ p.pc
unfolding set_frame
served-pc p l = ground arith

module _ {W : Type 0} where
  -- The load that serves the page fault of a process.
  abbrev pub load_for : Pcb → Shell W → Option Loaded
  load_for p s = load_frame (skip_commands p.current_command (rewind p.fp)) p.pid s.store

  serve_fault-served :
      (p : Pcb) (s : Shell W) {l : Loaded}
      → load_for p s ≡ some l
      → serve_fault p s ≡ done (served p l) (after_load s l)
  unfolding serve_fault load_page set_frame
  serve_fault-served p s e = rw (e, load_page) refl

  module _ (parse_input : Text → Cmd W ℤ) where
    execute_process-faults :
        (quanta : ℕ) (p : Pcb) (s : Shell W) {l : Loaded}
        → p.pc < p.number_of_commands
        → get_elem? p.page_table (p.pc / lines_per_frame) ≡ some none
        → load_for p s ≡ some l
        → execute_process parse_input p (suc quanta) s
          ≡ done (yielded (served p l)) (after_load s l)
    unfolding execute_process exec_round
    execute_process-faults quanta p s lt absent loaded =
        let more : (p.pc == p.number_of_commands) ≡ false = ground arith in
        rw more (rw (fetch-absent p s.store absent) (rw (serve_fault-served p s loaded) refl))

    -- A turn that yields, for a process that is alone.
    turn_of_alone :
        (fuel : ℕ) (p q : Pcb) (s u : Shell W)
        → execute_process parse_input p max_int (record s { queue = []; active = false })
          ≡ done (yielded q) (record u { queue = []; active = false })
        → (scheduler_fcfs parse_input (suc fuel) (record s { queue = p ∷ []; active = false })
            ≡ scheduler_fcfs parse_input fuel (record u { queue = q ∷ []; active = false }))
          × (scheduler_sjf parse_input
                (suc (suc fuel))
                (record s { queue = p ∷ []; active = false })
              ≡ done tt (record u { queue = []; active = false }))
    unfolding scheduler_fcfs scheduler_sjf pop_shortest_job sort_ready_queue add_to_tail
    turn_of_alone fuel p q s u turn = (rw turn, rw turn)

    -- A process alone in the queue, not at its end and whose page has no frame: FCFS loads the page
    -- and goes on with the process in the queue, at the same program counter; SJF loads the page and
    -- returns with an empty queue, whatever the lines of the process would do.
    pub scheduler_sjf-drops :
        (fuel : ℕ) (p : Pcb) (s : Shell W)
        → p.pc < p.number_of_commands
        → get_elem? p.page_table (p.pc / lines_per_frame) ≡ some none
        → IsStore s.store
        → 0 < length s.store.frames
        → s.store.num_lru < int_max
        → (l : Loaded) × (load_for p s ≡ some l)
          × ((served p l).pc ≡ p.pc)
          × (scheduler_fcfs parse_input (suc fuel) (record s { queue = p ∷ []; active = false })
              ≡ scheduler_fcfs parse_input fuel
                  (record (after_load s l) { queue = served p l ∷ []; active = false }))
          × (scheduler_sjf parse_input
                (suc (suc fuel))
                (record s { queue = p ∷ []; active = false })
              ≡ done tt (record (after_load s l) { queue = []; active = false }))
    scheduler_sjf-drops fuel p s lt absent v pos small =
        let (l, loaded) =
          load_frame-returns (skip_commands p.current_command (rewind p.fp)) p.pid v pos small in
        let (fcfs, sjf) = turn_of_alone fuel p (served p l) s (after_load s l) (
          execute_process-faults 2147483645 p (record s { queue = []; active = false }) lt absent
            loaded) in
        (l, loaded, served-pc p l, fcfs, sjf)
