-- ===== src/A3/Schedule.antt =====
-- The processes and policies of a3/kernel.c, on fuel: a round of a loop takes one unit.
pub mod Lists
use comp.Prelude.{
  ℕ, zero, suc, ◌+◌, Bool, true, false, not, Option, none, some, List, [], ◌∷◌, ◌++◌, ltb, ◌==◌,
  if◌then◌else◌, get_elem?, set, length,
}
use comp.Prelude.Int.{ℤ}
use comp.Prelude.Text.{Text, codes}
use comp.Prelude.Run.{Run, done, exited, fault, out_of_fuel, and_then}
use comp.A3.LinkedList.{list_init, add_tail, add_head, pop_head}
use comp.A3.Pcb.{
  Page, Pcb, no_space, bad_access, loaded, LoadResult, load_page, pcb_start, free_pcb, pcb_done,
}
use comp.A3.Kernel.{Kernel, Cmd, pcb_at, get_pcb, put_pcb, load_pcb_page, run_proc}

-- The first slot in the table with its valid bit set, from page `i` on, as `run_proc_FIFO`
-- looks for it; `none` where it runs out of the table.
unfoldable pub first_valid : ℕ → List Page → Option (ℕ × ℕ)
first_valid i [] = none
first_valid i (p ∷ r) =
    let rest = first_valid (i + 1) r in
    elim p.valid_bit as (λ _. Option (ℕ × ℕ)) [
      | true ∷ _ ↦ some (i, 0)
      | false ∷ true ∷ _ ↦ some (i, 1)
      | false ∷ false ∷ true ∷ _ ↦ some (i, 2)
      | _ ↦ rest
    ]

-- The first page whose program counter is not 3, as `run_proc_RR` looks for it.
unfoldable pub first_open : ℕ → List ℕ → Option (ℕ × ℕ)
first_open i [] = none
first_open i (c ∷ r) = let rest = first_open (i + 1) r in if c == 3 then rest else some (i, c)

-- The loop of `queue_done`; `none` at a PCB that was freed.
unfoldable pub all_done : List (Option Pcb) → List ℕ → Option Bool
unfolding pcb_at pcb_done
all_done pcbs [] = some true
all_done pcbs (a ∷ r) =
    let rest = all_done pcbs r in
    elim (pcb_at pcbs a) as (λ _. Option Bool) [
      | none ↦ none
      | some p ↦ if pcb_done p.program_counter then rest else some false
    ]

abbrev pub not_found : Text → Text
not_found script = codes "File not found: " ++ (script ++ (10 ∷ []))

-- The loop of `new_proc` that adds `n` pages from page `i` on to the LRU list.
unfoldable pub add_pages : ℕ → ℕ → ℕ → List (ℕ × ℕ) → List (ℕ × ℕ)
unfolding add_head
add_pages zero i a lru = lru
add_pages (suc n) i a lru = add_pages n (i + 1) a (add_head (a, i) lru)

-- `2 > page_table_size ? page_table_size : 2`
abbrev pub page_limit : ℕ → ℕ
page_limit n = if ltb n 2 then n else 2

module _ {W : Type 0} (border : ℕ) where
  -- The loop of `PCB_init` over `n` pages from page `i` on, which exits where there is no space.
  unfoldable pub load_first : ℕ → ℕ → ℕ → Cmd W (Unit {0})
  unfolding load_pcb_page
  load_first zero i a k = done tt k
  load_first (suc n) i a k =
      and_then (load_pcb_page border a i k)
        (λ failed k'. let more = load_first n (i + 1) a k' in if failed then exited k' else more)

  -- `PCB_init` and `new_proc` of a script that can be opened.
  unfoldable pub admit : Text → Cmd W ℕ
  unfolding load_first add_pages pcb_start add_tail
  admit text k =
      let p = pcb_start k.pid_counter text in
      let a = length k.pcbs in
      let n = page_limit (length p.page_table) in
      let k1 = record k { pcbs = k.pcbs ++ (some p ∷ []); pid_counter = k.pid_counter + 1 } in
      and_then (load_first n 0 a k1) (λ _ k2. done 0 (record k2 {
        all_pcb = add_tail a k2.all_pcb;
        queue = add_tail a k2.queue;
        lru_cache = add_pages n 0 a k2.lru_cache;
      }))

  unfoldable pub new_proc : (Text → W → Option Text) → Text → Cmd W ℕ
  unfolding admit
  new_proc fopen script k = elim (fopen script k.world) as (λ _. Run (Kernel W) ℕ) [
    | none ↦ exited (record k {
      pid_counter = k.pid_counter + 1;
      printed = k.printed ++ (not_found script ∷ []);
    })
    | some text ↦ admit text k
  ]

  -- `free_PCB`
  unfoldable pub free_at : ℕ → Cmd W (Unit {0})
  unfolding get_pcb free_pcb
  free_at a k = and_then (get_pcb a k) (λ p k'.
      elim (free_pcb p.page_table k'.memory) as (λ _. Run (Kernel W) (Unit {0})) [
        | none ↦ fault
        | some m ↦ done tt (record k' { memory = m; pcbs = set k'.pcbs a none })
      ])

  unfoldable pub free_list : List ℕ → Cmd W (Unit {0})
  unfolding free_at
  free_list [] k = done tt k
  free_list (a ∷ r) k = and_then (free_at a k) (λ _ k'. free_list r k')

  module _ (parse_input : Text → Cmd W ℤ) where
    -- The inner loop of `run_proc_FIFO`.
    unfoldable pub fifo_proc : ℕ → ℕ → Cmd W (Unit {0})
    unfolding first_valid run_proc get_pcb
    fifo_proc zero a k = out_of_fuel
    fifo_proc (suc fuel) a k = and_then (get_pcb a k) (λ p k1.
        if p.size == 0
        then done tt k1
        else elim (first_valid 0 p.page_table) as (λ _. Run (Kernel W) (Unit {0})) [
          | none ↦ fault
          | some (i, j) ↦
              and_then (run_proc border parse_input a i j k1) (λ _ k2. fifo_proc fuel a k2)
        ])

    unfoldable pub run_proc_fifo : ℕ → Cmd W ℕ
    unfolding fifo_proc free_at pop_head
    run_proc_fifo zero k = out_of_fuel
    run_proc_fifo (suc fuel) k = elim (pop_head k.queue) as (λ _. Run (Kernel W) ℕ) [
      | none ↦ done 0 k
      | some (a, q) ↦
          and_then (fifo_proc fuel a (record k { queue = q }))
            (λ _ k1. and_then (free_at a k1) (λ _ k2. run_proc_fifo fuel k2))
    ]

    -- One of the calls of `run_proc` in `run_proc_RR`.
    unfoldable pub run_next : ℕ → Cmd W ℕ
    unfolding first_open run_proc get_pcb
    run_next a k = and_then (get_pcb a k) (λ p k1.
        elim (first_open 0 p.program_counter) as (λ _. Run (Kernel W) ℕ) [
          | none ↦ fault
          | some (i, j) ↦ run_proc border parse_input a i j k1
        ])

    -- The body of the loop of `run_proc_RR` for the PCB that was popped.
    unfoldable pub rr_turn : ℕ → Cmd W (Unit {0})
    unfolding run_next get_pcb add_tail
    rr_turn a k = and_then (get_pcb a k) (λ p k1.
        if ltb 1 p.size
        then and_then (run_next a k1) (λ ret k2.
          if ret == 1
          then done tt k2
          else and_then (run_next a k2) (λ ret' k3.
            if ret' == 1 then done tt k3 else done tt (record k3 { queue = add_tail a k3.queue })))
        else if p.size == 1
        then and_then (run_next a k1) (λ _ k2. done tt k2)
        else done tt k1)

    -- What `run_proc_RR` does behind its loop.
    unfoldable pub rr_end : Cmd W ℕ
    unfolding free_list list_init
    rr_end k = and_then (free_list k.all_pcb k) (λ _ k1.
        done 0 (record k1 { queue = list_init; lru_cache = list_init; all_pcb = list_init }))

    -- The process exits where the queue is empty when it is popped.
    unfoldable pub run_proc_rr : ℕ → Cmd W ℕ
    unfolding rr_turn rr_end all_done pop_head
    run_proc_rr zero k = out_of_fuel
    run_proc_rr (suc fuel) k = elim (all_done k.pcbs k.queue) as (λ _. Run (Kernel W) ℕ) [
      | none ↦ fault
      | some true ↦ rr_end k
      | some false ↦ elim (pop_head k.queue) as (λ _. Run (Kernel W) ℕ) [
        | none ↦ exited k
        | some (a, q) ↦ and_then (rr_turn a (record k { queue = q })) (λ _ k1. run_proc_rr fuel k1)
      ]
    ]
