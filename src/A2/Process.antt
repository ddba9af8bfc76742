-- ===== src/A2/Process.antt =====
-- A script becomes a process: `process_initialize` of a2/kernel.c.
pub mod Count
use comp.Prelude.{
  ℕ, zero, suc, ◌+◌, ◌*◌, ◌<◌, ◌≡◌, refl, Bool, true, false, Option, none, some, List, [], ◌∷◌,
  ◌++◌, arith, ltb, if◌then◌else◌, length,
}
use comp.Prelude.Int.{ℤ, pos, is_zero}
use comp.Prelude.Text.{Text, codes}
use comp.Prelude.Run.{Run, done, fault, out_of_fuel, ◌>>=◌, ◌>>◌, pure}
use comp.A2.Stream.{Stream, read_next_command, fopen_at_start}
use comp.A2.Pcb.{Pcb, make_pcb, generate_pid, set_frame}
use comp.A2.Queue.{add_to_tail}
use comp.A2.Frames.{Loaded, load_frame, lines_per_frame}
use comp.A2.State.{Host, Shell, Cmd, print_all}

-- `while (readNextCommand(fp, line)) num_commands++;`, on fuel.
unfoldable pub count_commands : ℕ → Stream → ℕ → Option ℕ
count_commands zero fp num_commands = none
count_commands (suc fuel) fp num_commands =
    let (more, line, fp') = read_next_command fp in
    let rest = count_commands fuel fp' (num_commands + 1) in
    if more then rest else some num_commands

-- `filename.id`; every call passes an `id` of one digit.
abbrev pub backing_name : Text → ℕ → Text
backing_name filename id =
    codes "backing_store" ++ (codes "/" ++ (filename ++ (codes "." ++ ((b'0' + id) ∷ []))))

abbrev pub copy_command : Text → ℕ → Text
copy_command filename id = codes "cp " ++ (filename ++ (codes " " ++ backing_name filename id))

module _ {W : Type 0} where
  abbrev pub after_load : Shell W → Loaded → Shell W
  after_load s l = record s { store = l.store; printed = s.printed ++ print_all l.printed }

  -- `loadFrame` for the process, which reads from the PCB's file.
  unfoldable pub load_page : Pcb → ℕ → ℕ → Cmd W Pcb
  load_page pcb pid page s = elim (load_frame pcb.fp pid s.store) as (λ _. Run (Shell W) Pcb) [
    | none ↦ fault
    | some l ↦ done (set_frame (record pcb { fp = l.fp }) page l.frame) (after_load s l)
  ]

  -- The loop over the first two pages, `n` rounds from page `i` on.
  unfoldable pub load_pages : ℕ → ℕ → ℕ → ℕ → Pcb → Cmd W Pcb
  unfolding load_page
  load_pages zero i id num_commands pcb = pure pcb
  load_pages (suc n) i id num_commands pcb =
      if ltb (i * lines_per_frame) num_commands
      then (load_page (record pcb { current_command = 0 }) id i >>= λ pcb'.
          load_pages n (i + 1) id num_commands pcb')
      else pure pcb

module _ (h : Host) where
  open h use {World, fopen, system}

  -- The part of `process_initialize` from `makePCB` on.
  unfoldable pub admit : Text → ℕ → ℕ → Cmd World ℤ
  unfolding load_pages
  admit text id num_commands s =
      let (pid, counter) = generate_pid s.pid_counter in
      let start = record s { pid_counter = counter } in
      (load_pages 2 0 id num_commands (make_pcb (fopen_at_start text) num_commands pid) >>= λ pcb t.
      done (pos 0) (record t { queue = add_to_tail t.queue pcb }))
        start

  -- `copy_script_to_backing_store` and the second `fopen`.
  unfoldable pub copy_and_admit : Text → ℕ → ℕ → Cmd World ℤ
  unfolding admit
  copy_and_admit filename id num_commands s =
      let (error_code, w) = system (copy_command filename id) s.world in
      let copied = record s { world = w } in
      if is_zero error_code
      then elim (fopen (backing_name filename id) w) as (λ _. Run (Shell World) ℤ) [
        | none ↦ done (pos 11) copied
        | some text ↦ admit text id num_commands copied
      ]
      else done error_code copied

  -- `process_initialize`. The count of commands gets one round more than the file has bytes.
  unfoldable pub process_initialize : Text → ℕ → Cmd World ℤ
  unfolding copy_and_admit count_commands
  process_initialize filename id s = elim (fopen filename s.world) as (λ _. Run (Shell World) ℤ) [
    | none ↦ done (pos 11) s
    | some text ↦
        elim (count_commands (length text + 1) (fopen_at_start text) 0)
          as (λ _. Run (Shell World) ℤ) [
            | none ↦ out_of_fuel
            | some num_commands ↦ copy_and_admit filename id num_commands s
          ]
  ]
