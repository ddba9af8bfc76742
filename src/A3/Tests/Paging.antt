-- ===== src/A3/Tests/Paging.antt =====
-- The paging of the third shell: a memory of six slots for frames and two variables.
use comp.Prelude.{
  ℕ, ◌+◌, ◌<◌, ◌≤◌, ◌≡◌, ◌⊎◌, refl, true, false, none, some, [], ◌∷◌, arith, get_elem?,
}
use comp.Prelude.Int.{ℤ, pos}
use comp.Prelude.Text.{Text, codes, text_eq}
use comp.Prelude.Run.{done, Ensures}
use comp.A3.Memory.{
  Memory, none_text, mem_init, is_free_at, frame_alloc, mem_set_value, mem_get_value, missing_value,
  variables, mem_get_value_at,
}
use comp.A3.Memory.Frames.{IsFrame, frame_alloc-first}
use comp.A3.Memory.Variables.{has_room, mem_get_value-mem_set_value}
use comp.A3.Pcb.{Page, Pcb, Loading, page_init, no_space, loaded, load_page, free_page}
use comp.A3.Pcb.Pages.{nth_line, load_page-lines}
use comp.A3.Pcb.Freeing.{Cleared, free_page-five_slots}
use comp.A3.Kernel.{Kernel, Cmd}
use comp.A3.Schedule.{run_proc_rr}
use comp.A3.Schedule.Lists.{IsReset, run_proc_rr-IsReset}

abbrev memory : Memory
memory = mem_init 8

frame_alloc-first_example :
    ((frame_alloc 6 (codes "1") memory ≡ none) × (IsFrame 6 3 memory → ⊥))
    ⊎ ((i : ℕ) × (m : Memory) × (frame_alloc 6 (codes "1") memory ≡ some (i, m))
        × IsFrame 6 i memory
        × ((i ≤ 3) ⊎ (IsFrame 6 3 memory → ⊥))
        × (is_free_at i m ≡ false)
        × (is_free_at (i + 1) m ≡ false)
        × (is_free_at (i + 2) m ≡ false)
        × (((i ≤ 3) × (3 < i + 3)) ⊎ (get_elem? m 3 ≡ get_elem? memory 3)))
unfolding text_eq
frame_alloc-first_example = frame_alloc-first 6 (codes "1") memory 3 refl

mem_get_value-mem_set_value_example :
    (((mem_get_value 6 (codes "x") true (mem_set_value 6 (codes "x") (codes "5") memory)
          ≡ codes "5")
        × ((text_eq (codes "x") (codes "y") ≡ true)
            ⊎ ((text_eq none_text (codes "y") ≡ true)
                ⊎ (mem_get_value 6 (codes "y") true (mem_set_value 6 (codes "x") (codes "5") memory)
                    ≡ mem_get_value 6 (codes "y") true memory))))
      ⊎ ((has_room (codes "x") (variables 6 memory) ≡ false)
          × (variables 6 (mem_set_value 6 (codes "x") (codes "5") memory) ≡ variables 6 memory)
          × (mem_get_value 6 (codes "x") true memory ≡ missing_value true)))
    × (get_elem? (mem_set_value 6 (codes "x") (codes "5") memory) 2 ≡ get_elem? memory 2)
mem_get_value-mem_set_value_example =
    mem_get_value-mem_set_value 6 (codes "x") (codes "5") (codes "y") true memory 2 (omega arith)

abbrev page : Page
page = page_init 1 0

-- The lines "a" and "b".
abbrev file : Text
file = 97 ∷ 10 ∷ 98 ∷ []

load_page-lines_example :
    (load_page 6 1 page file memory ≡ no_space)
    ⊎ ((l : Loading) × (load_page 6 1 page file memory ≡ loaded l)
        × (((nth_line 1 file ≡ none) × (get_elem? l.page.valid_bit 1 ≡ some false))
            ⊎ ((t : Text) × (at : ℕ) × (nth_line 1 file ≡ some t)
                × (get_elem? l.page.valid_bit 1 ≡ some true)
                × (get_elem? l.page.index 1 ≡ some at)
                × (mem_get_value_at at l.memory ≡ some t))))
unfolding mem_init
load_page-lines_example = load_page-lines 6 1 page file memory 1 (omega arith) (omega arith)

free_page-five_slots_example :
    (m : Memory) × (free_page (0 ∷ (0 + 1) ∷ (0 + 2) ∷ []) memory ≡ some m) × Cleared 5 0 4 memory m
unfolding mem_init
free_page-five_slots_example = free_page-five_slots 0 4 memory (omega arith)

-- A process of one line, which is in memory.
abbrev process : Pcb
process = record {
  pid = 1;
  size = 1;
  program_counter = 0 ∷ [];
  page_table =
      record {
        index = 0 ∷ 1 ∷ 2 ∷ [];
        valid_bit = true ∷ false ∷ false ∷ [];
        page_index = 0;
        page_pid = 1;
      }
      ∷ [];
  source_file = [];
}

abbrev kernel : Kernel (Unit {0})
kernel = record {
  memory = record { var = codes "1"; value = codes "x" } ∷ memory;
  pcbs = some process ∷ [];
  queue = 0 ∷ [];
  lru_cache = (0, 0) ∷ [];
  all_pcb = 0 ∷ [];
  pid_counter = 2;
  printed = [];
  world = tt;
}

-- Every command has status 1.
abbrev refuse : Text → Cmd (Unit {0}) ℤ
refuse line k = done (pos 1) k

run_proc_rr-IsReset_example :
    Ensures (λ ret k. (ret ≡ 0) × IsReset k) (run_proc_rr 6 refuse 5 kernel)
run_proc_rr-IsReset_example = run_proc_rr-IsReset 6 refuse 5 kernel
