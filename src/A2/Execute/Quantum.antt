-- ===== src/A2/Execute/Quantum.antt =====
-- How far a turn of `execute_process` of a2/kernel.c takes a process.
use comp.Prelude.{
  ℕ, zero, suc, ◌+◌, ◌/◌, ◌<◌, ◌≤◌, ◌≡◌, refl, arith, ◌==◌, Bool-cases, Option-cases, inl, inr,
}
use comp.Prelude.Int.{ℤ}
use comp.Prelude.Text.{Text}
use comp.Prelude.Run.{done, Ensures, Ensures-bind, Ensures-mono, Ensures-any}
use comp.A2.Pcb.{Pcb, set_frame}
use comp.A2.Frames.{load_frame, lines_per_frame}
use comp.A2.State.{Shell, Cmd}
use comp.A2.Process.{load_page}
use comp.A2.Stream.{Stream, rewind}
use comp.A2.Execute.{
  Fetch, bad_index, page_fault, line, fetch, skip_commands, advance, Turn, terminated, yielded,
  serve_fault, finish, run_line, exec_round, exec_loop, execute_process,
}

-- The fields of a process that loading a page leaves alone.
pub record SameProgress (p q : Pcb) : Type 0 where
  pub pc : q.pc ≡ p.pc
  pub current : q.current_command ≡ p.current_command
  pub number : q.number_of_commands ≡ p.number_of_commands
  pub pid : q.pid ≡ p.pid

set_frame-SameProgress : (p : Pcb) (page frame : ℕ) → SameProgress p (set_frame p page frame)
unfolding set_frame
set_frame-SameProgress p page frame = ground arith

refile :
    (p : Pcb) (fp : Stream) {q : Pcb} → SameProgress (record p { fp = fp }) q → SameProgress p q
refile p fp h = record { pc = h.pc; current = h.current; number = h.number; pid = h.pid }

load_page-SameProgress :
    {W : Type 0} (p : Pcb) (pid page : ℕ) (s : Shell W)
    → Ensures (λ q _. SameProgress p q) (load_page p pid page s)
unfolding load_page
load_page-SameProgress p pid page s = elim (Option-cases (load_frame p.fp pid s.store)) [
  | inl e ↦ rw (e, load_page) tt
  | inr (l, e) ↦
      rw (e, load_page)
        (refile p l.fp (set_frame-SameProgress (record p { fp = l.fp }) page l.frame))
]

serve_fault-SameProgress :
    {W : Type 0} (p : Pcb) (s : Shell W) → Ensures (λ q _. SameProgress p q) (serve_fault p s)
unfolding serve_fault
serve_fault-SameProgress p s =
    let fp = skip_commands p.current_command (rewind p.fp) in
    Ensures-mono (λ q _. SameProgress (record p { fp = fp }) q) (λ q _. SameProgress p q)
      (serve_fault p s)
      (load_page-SameProgress (record p { fp = fp }) p.pid (p.pc / lines_per_frame) s)
      (λ q t. refile p fp)

-- A turn of at most `quanta` lines: the program counter moves on by no more than that, together
-- with `current_command`, and stays in the program.
pub record Progress (quanta : ℕ) (p q : Pcb) : Type 0 where
  pub at_most : q.pc ≤ p.pc + quanta
  pub forward : p.pc ≤ q.pc
  pub together : q.current_command + p.pc ≡ p.current_command + q.pc
  pub inside : q.pc < q.number_of_commands
  pub number : q.number_of_commands ≡ p.number_of_commands
  pub pid : q.pid ≡ p.pid

abbrev pub TurnOk : ℕ → Pcb → Turn → Type 0
TurnOk quanta p terminated = Unit
TurnOk quanta p (yielded q) = Progress quanta p q

stays :
    {quanta : ℕ} (p q : Pcb) → SameProgress p q → p.pc < p.number_of_commands → Progress quanta p q
stays p q h lt = record {
  at_most = omega (arith, h.pc);
  forward = omega (arith, h.pc);
  together = omega (arith, h.pc, h.current);
  inside = omega (arith, h.pc, h.number);
  number = h.number;
  pid = h.pid;
}

after_line :
    (quanta : ℕ) (p : Pcb) (turn : Turn)
    → TurnOk quanta (advance p) turn
    → TurnOk (suc quanta) p turn
unfolding advance
after_line quanta p terminated h = tt
after_line quanta p (yielded q) h = record {
  at_most = omega (arith, h.at_most);
  forward = omega (arith, h.forward);
  together = omega (arith, h.together);
  inside = h.inside;
  number = h.number;
  pid = h.pid;
}

module _ {W : Type 0} (parse_input : Text → Cmd W ℤ) where
  exec_round-Progress :
      (quanta : ℕ) (next : Pcb → Cmd W Turn) (p : Pcb) (f : Fetch) (s : Shell W)
      → p.pc < p.number_of_commands
      → ((q : Pcb) (t : Shell W)
          → q.pc < q.number_of_commands
          → Ensures (λ turn _. TurnOk quanta q turn) (next q t))
      → Ensures (λ turn _. TurnOk (suc quanta) p turn) (exec_round parse_input next p f s)
  unfolding exec_round advance finish
  exec_round-Progress quanta next p bad_index s lt ih = tt
  exec_round-Progress quanta next p (page_fault st) s lt ih =
      Ensures-bind (λ q _. SameProgress p q) (λ turn _. TurnOk (suc quanta) p turn)
        (serve_fault p (record s { store = st })) (λ q. done (yielded q))
        (serve_fault-SameProgress p (record s { store = st })) (λ q t same. stays p q same lt)
  exec_round-Progress quanta next p (line t st) s lt ih =
      Ensures-bind (λ _ _. Unit {0}) (λ turn _. TurnOk (suc quanta) p turn)
        (run_line parse_input t (record s { store = st })) _
        (Ensures-any (run_line parse_input t (record s { store = st })))
        (λ _ u _. elim (Bool-cases (p.pc + 1 == p.number_of_commands)) [
          | inl e ↦ rw e tt
          | inr e ↦ rw e (
              Ensures-mono (λ turn _. TurnOk quanta (advance p) turn)
                (λ turn _. TurnOk (suc quanta) p turn) (next (advance p) u)
                (ih (advance p) u (ground arith)) (λ turn v. after_line quanta p turn))
        ])

  exec_loop-Progress :
      (quanta : ℕ) (p : Pcb) (s : Shell W)
      → p.pc < p.number_of_commands
      → Ensures (λ turn _. TurnOk quanta p turn) (exec_loop parse_input quanta p s)
  unfolding exec_loop
  exec_loop-Progress zero p s lt =
      stays p p (record { pc = refl; current = refl; number = refl; pid = refl }) lt
  exec_loop-Progress (suc quanta) p s lt =
      exec_round-Progress quanta (exec_loop parse_input quanta) p (fetch p s.store) s lt
        (exec_loop-Progress quanta)

  -- Whatever its lines do, a process that comes back from a turn has moved on by at most
  -- `quanta` lines, its `PC` and `current_command` by the same number, and is not at its end; and
  -- its number of commands and its pid are as before.
  pub execute_process-Progress :
      (quanta : ℕ) (p : Pcb) (s : Shell W)
      → p.pc ≤ p.number_of_commands
      → Ensures (λ turn _. TurnOk quanta p turn) (execute_process parse_input p quanta s)
  unfolding execute_process
  execute_process-Progress quanta p s le = elim (Bool-cases (p.pc == p.number_of_commands)) [
    | inl e ↦ rw (e, execute_process) tt
    | inr e ↦ rw (e, execute_process) (exec_loop-Progress quanta p s (ground arith))
  ]
