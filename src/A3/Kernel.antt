-- ===== src/A3/Kernel.antt =====
-- The scheduler and pager of a3/kernel.c and a3/cpu.c. A PCB is named by its address in `pcbs`,
-- where `none` is one that was freed; a page by the address of its PCB and its index there.
-- `parseInput` of a3/shell.c and `fopen` are parameters.
use comp.Prelude.{
  ℕ, ◌+◌, ◌-◌, Bool, true, false, Option, none, some, List, [], ◌∷◌, ◌++◌, ◌==◌, if◌then◌else◌,
  get_elem?, set,
}
use comp.Prelude.Int.{ℤ, pos, negsuc}
use comp.Prelude.Text.{Text, codes}
use comp.Prelude.Run.{Run, done, exited, fault, and_then}
use comp.A3.Memory.{Memory, mem_get_value_at}
use comp.A3.LinkedList.{list_init, add_tail, add_head, pop_tail, remove_elem}
use comp.A3.Pcb.{Page, Pcb, no_space, bad_access, loaded, load_page, page_evict}

-- The memory, the lists QUEUE, LRU_CACHE and ALL_PCB, `PID_counter`, and what is printed.
pub record Kernel (W : Type 0) : Type 0 where
  pub memory : Memory
  pub pcbs : List (Option Pcb)
  pub queue : List ℕ
  pub lru_cache : List (ℕ × ℕ)
  pub all_pcb : List ℕ
  pub pid_counter : ℕ
  pub printed : List Text
  pub world : W

abbrev pub Cmd : Type 0 → Type 0 → Type 0
Cmd W A = Kernel W → Run (Kernel W) A

-- The PCB at an address, if it is not freed.
unfoldable pub pcb_at : List (Option Pcb) → ℕ → Option Pcb
pcb_at pcbs a = elim (get_elem? pcbs a) as (λ _. Option Pcb) [ none ↦ none | some p ↦ p ]

unfoldable pub page_at : List (Option Pcb) → ℕ × ℕ → Option Page
unfolding pcb_at
page_at pcbs (a, i) = elim (pcb_at pcbs a) as (λ _. Option Page) [
  | none ↦ none
  | some p ↦ get_elem? p.page_table i
]

-- `PAGE_equal` with a page whose first index is `start`.
unfoldable pub page_equal : List (Option Pcb) → Option ℕ → ℕ × ℕ → Option Bool
unfolding page_at
page_equal pcbs none ref = none
page_equal pcbs (some start) ref = elim (page_at pcbs ref) as (λ _. Option Bool) [
  | none ↦ none
  | some q ↦ elim (get_elem? q.index 0) as (λ _. Option Bool) [
    | none ↦ none
    | some other ↦ some (start == other)
  ]
]

-- The search of `run_proc` for the owner of the victim. Its test on `QUEUE->dummy_tail` never
-- ends it, so where no PCB has the pid, and at a freed one, it reads what is not there.
unfoldable pub find_owner : ℕ → List (Option Pcb) → List ℕ → Option ℕ
unfolding pcb_at
find_owner pid pcbs [] = none
find_owner pid pcbs (a ∷ r) =
    let rest = find_owner pid pcbs r in
    elim (pcb_at pcbs a) as (λ _. Option ℕ) [
      | none ↦ none
      | some p ↦ if p.pid == pid then some a else rest
    ]

-- `ret == 1`
abbrev pub is_one : ℤ → Bool
is_one (pos n) = n == 1
is_one (negsuc n) = false

abbrev pub victim_start : Text
victim_start = codes "Page fault! Victim page contents:\n"

abbrev pub victim_end : Text
victim_end = codes "End of victim page contents.\n"

module _ {W : Type 0} where
  unfoldable pub kernel_setup : Kernel W → Kernel W
  unfolding list_init
  kernel_setup k = record k { queue = list_init; lru_cache = list_init; all_pcb = list_init }

  unfoldable pub get_pcb : ℕ → Cmd W Pcb
  unfolding pcb_at
  get_pcb a k = elim (pcb_at k.pcbs a) as (λ _. Run (Kernel W) Pcb) [
    | none ↦ fault
    | some p ↦ done p k
  ]

  unfoldable pub get_page : ℕ → ℕ → Cmd W Page
  unfolding page_at
  get_page a i k = elim (page_at k.pcbs (a, i)) as (λ _. Run (Kernel W) Page) [
    | none ↦ fault
    | some p ↦ done p k
  ]

  unfoldable pub put_pcb : ℕ → Pcb → Kernel W → Kernel W
  put_pcb a p k = record k { pcbs = set k.pcbs a (some p) }

  -- `(*program_counter)++, (*size)--`
  unfoldable pub step_counters : ℕ → ℕ → Cmd W (Unit {0})
  unfolding get_pcb put_pcb
  step_counters a i k = and_then (get_pcb a k) (λ p k'.
      elim (get_elem? p.program_counter i) as (λ _. Run (Kernel W) (Unit {0})) [
        | none ↦ fault
        | some c ↦ done tt (
            put_pcb a
              (record p { program_counter = set p.program_counter i (c + 1); size = p.size - 1 })
              k')
      ])

  -- `cpu_run` behind its test of the valid bit.
  unfoldable pub run_slot : (Text → Cmd W ℤ) → ℕ → ℕ → Page → ℕ → Cmd W ℤ
  unfolding step_counters
  run_slot parse_input a i page j k = elim (get_elem? page.index j) as (λ _. Run (Kernel W) ℤ) [
    | none ↦ fault
    | some at ↦ elim (mem_get_value_at at k.memory) as (λ _. Run (Kernel W) ℤ) [
      | none ↦ fault
      | some line ↦
          and_then (parse_input line k)
            (λ ret k'. and_then (step_counters a i k') (λ _ k''. done ret k''))
    ]
  ]

  -- `cpu_run` on slot `j` of page `i`.
  unfoldable pub cpu_run : (Text → Cmd W ℤ) → ℕ → ℕ → ℕ → Cmd W ℤ
  unfolding run_slot get_page
  cpu_run parse_input a i j k = and_then (get_page a i k) (λ page k'.
      elim (get_elem? page.valid_bit j) as (λ _. Run (Kernel W) ℤ) [
        | none ↦ fault
        | some false ↦ done (pos 1) k'
        | some true ↦ run_slot parse_input a i page j k'
      ])

  -- `load_PAGE` of page `i`: whether there is no space.
  unfoldable pub load_pcb_page : ℕ → ℕ → ℕ → Cmd W Bool
  unfolding load_page get_pcb get_page put_pcb
  load_pcb_page border a i k = and_then (get_pcb a k) (λ p k1.
      and_then (get_page a i k1) (λ page k2.
        elim (load_page border p.pid page p.source_file k2.memory) as (λ _. Run (Kernel W) Bool) [
          | no_space ↦ done true k2
          | bad_access ↦ fault
          | loaded l ↦ done false (
              put_pcb a (record p { page_table = set p.page_table i l.page; source_file = l.file })
                (record k2 { memory = l.memory }))
        ]))

  -- `PAGE_evict` of page `i` of the PCB at `a`.
  unfoldable pub evict_page : ℕ → ℕ → Cmd W (Unit {0})
  unfolding get_pcb get_page put_pcb page_evict
  evict_page a i k = and_then (get_pcb a k) (λ p k1. and_then (get_page a i k1) (λ page k2.
      elim (page_evict page k2.memory) as (λ _. Run (Kernel W) (Unit {0})) [
        | none ↦ fault
        | some (lines, page', m) ↦ done tt (
            put_pcb a (record p { page_table = set p.page_table i page' })
              (record k2 {
                memory = m;
                printed = k2.printed ++ (victim_start ∷ (lines ++ (victim_end ∷ [])));
              }))
      ]))

  -- The eviction of the page at the tail of the LRU list.
  unfoldable pub evict_oldest : Cmd W (Unit {0})
  unfolding evict_page find_owner get_page pop_tail
  evict_oldest k = elim (pop_tail k.lru_cache) as (λ _. Run (Kernel W) (Unit {0})) [
    | none ↦ exited k
    | some ((b, q), lru) ↦ and_then (get_page b q (record k { lru_cache = lru })) (λ victim k1.
        elim (find_owner victim.page_pid k1.pcbs k1.all_pcb) as (λ _. Run (Kernel W) (Unit {0})) [
          | none ↦ fault
          | some owner ↦ evict_page owner victim.page_index k1
        ])
  ]

  -- The page fault in `run_proc`.
  unfoldable pub page_fault : ℕ → ℕ → ℕ → Cmd W ℕ
  unfolding load_pcb_page evict_oldest add_head add_tail
  page_fault border a i k = and_then (load_pcb_page border a i k) (λ failed k1.
      and_then
        (if failed
          then and_then (evict_oldest k1) (λ _ k2. load_pcb_page border a i k2)
          else done failed k1)
        (λ _ k3.
          done 1
            (record k3 { lru_cache = add_head (a, i) k3.lru_cache; queue = add_tail a k3.queue })))

  -- The page that ran moves to the head of the LRU list.
  unfoldable pub touch_page : ℕ → ℕ → Cmd W ℕ
  unfolding page_equal get_page remove_elem add_head
  touch_page a i k = and_then (get_page a i k) (λ page k'.
      elim (remove_elem (page_equal k'.pcbs (get_elem? page.index 0)) k'.lru_cache)
        as (λ _. Run (Kernel W) ℕ) [
          | none ↦ fault
          | some (ref, lru) ↦ done 0 (record k' { lru_cache = add_head ref lru })
        ])

  -- `run_proc` on slot `j` of page `i` of the PCB at `a`.
  unfoldable pub run_proc : ℕ → (Text → Cmd W ℤ) → ℕ → ℕ → ℕ → Cmd W ℕ
  unfolding cpu_run page_fault touch_page
  run_proc border parse_input a i j k =
      and_then (cpu_run parse_input a i j k)
        (λ ret k'. if is_one ret then page_fault border a i k' else touch_page a i k')
