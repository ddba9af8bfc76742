-- ===== src/A3/Pcb.antt =====
-- The processes and pages of a3/pcb.c.
pub mod Pages
pub mod Freeing
use comp.Prelude.{
  ℕ, zero, suc, ◌+◌, ◌/◌, ◌%◌, Bool, true, false, not, ◌&&◌, Option, none, some, List, [], ◌∷◌,
  ◌++◌, ltb, ◌==◌, if◌then◌else◌, get_elem?, set, length, replicate,
}
use comp.Prelude.Text.{Text}
use comp.A3.Memory.{
  Memory, frame_alloc, mem_set_value_at, mem_get_value_at, mem_free_at, clear_frame,
}

-- `PAGE`; a valid bit is 0 or 1.
pub record Page : Type 0 where
  pub index : List ℕ
  pub valid_bit : List Bool
  pub page_index : ℕ
  pub page_pid : ℕ

-- `PCB`; `page_table_size` is the length of the table. `source_file` is the text behind the file
-- position. `size` is a count of lines, which is lowered only while it is not 0.
pub record Pcb : Type 0 where
  pub pid : ℕ
  pub size : ℕ
  pub program_counter : List ℕ
  pub page_table : List Page
  pub source_file : Text

-- `fgets` with room for `n` bytes.
unfoldable pub take_line : ℕ → Text → Text × Text
take_line zero r = ([], r)
take_line (suc n) [] = ([], [])
take_line (suc n) (c ∷ r) =
    let (line, rest) = take_line n r in if c == 10 then (c ∷ [], r) else (c ∷ line, rest)

-- `fgets(line, 999, file)`: `none` at the end of the file.
unfoldable pub fgets : Text → Option (Text × Text)
unfolding take_line
fgets [] = none
fgets (c ∷ r) = some (take_line 998 (c ∷ r))

-- `sprintf("%d")` of a number with at most `fuel` digits.
unfoldable pub decimal : ℕ → ℕ → Text
decimal zero n = []
decimal (suc fuel) n =
    let front = decimal fuel (n / 10) in
    if ltb n 10 then (48 + n) ∷ [] else front ++ ((48 + n % 10) ∷ [])

-- A pid is an `int`: at most ten digits.
abbrev pub pid_str : ℕ → Text
pid_str pid = decimal 10 pid

-- The loop of `count_lines`.
unfoldable pub count_newlines : ℕ → Text → ℕ
count_newlines last [] = 0
count_newlines last (c ∷ r) =
    let rest = count_newlines c r in if (c == 10) && not (last == 10) then suc rest else rest

-- `count_lines` of a file that can be opened.
unfoldable pub count_lines : Text → ℕ
unfolding count_newlines
count_lines text = count_newlines 10 text + 1

unfoldable pub page_table_size : ℕ → ℕ
page_table_size lines = if lines % 3 == 0 then lines / 3 else lines / 3 + 1

unfoldable pub page_init : ℕ → ℕ → Page
page_init page_pid page_table_index = record {
  index = 1000 ∷ 1000 ∷ 1000 ∷ [];
  valid_bit = false ∷ false ∷ false ∷ [];
  page_index = page_table_index;
  page_pid = page_pid;
}

-- The loop over the table in `PCB_init`, `n` pages from page `i` on.
unfoldable pub init_table : ℕ → ℕ → ℕ → List Page
unfolding page_init
init_table pid zero i = []
init_table pid (suc n) i = page_init pid i ∷ init_table pid n (i + 1)

-- The fields that `PCB_init` sets before it loads pages.
unfoldable pub pcb_start : ℕ → Text → Pcb
unfolding count_lines page_table_size init_table
pcb_start pid text =
    let pages = page_table_size (count_lines text) in
    record {
      pid = pid;
      size = count_lines text;
      program_counter = replicate pages 0;
      page_table = init_table pid pages 0;
      source_file = text;
    }

-- A page, the file and the memory while lines are read.
pub record Loading : Type 0 where
  pub page : Page
  pub file : Text
  pub memory : Memory

-- The loop that reads `n` more lines into the slots of the page from `j` on; `none` for an access
-- outside an array.
unfoldable pub load_lines : ℕ → ℕ → Text → Loading → Option Loading
unfolding fgets
load_lines zero j pid l = some l
load_lines (suc n) j pid l = elim (fgets l.file) as (λ _. Option Loading) [
  | none ↦ some l
  | some (line, file) ↦ elim (get_elem? l.page.index j) as (λ _. Option Loading) [
    | none ↦ none
    | some pos ↦ elim (mem_set_value_at pos pid line l.memory) as (λ _. Option Loading) [
      | none ↦ none
      | some m ↦ load_lines n (j + 1) pid (record {
        page = record l.page { valid_bit = set l.page.valid_bit j true };
        file = file;
        memory = m;
      })
    ]
  ]
]

-- The `index` and `valid_bit` that `frame_alloc` fills in.
unfoldable pub with_frame : ℕ → Page → Page
with_frame i page = record page {
  index = i ∷ (i + 1) ∷ (i + 2) ∷ [];
  valid_bit = false ∷ false ∷ false ∷ [];
}

-- What the load of a page gives.
pub data LoadResult : Type 0 where
  no_space : LoadResult
  bad_access : LoadResult
  loaded : Loading → LoadResult

abbrev pub load_result : Option Loading → LoadResult
load_result none = bad_access
load_result (some l) = loaded l

-- `load_PAGE` of a page of the process `pid`; in `PCB_init` the same steps stand in the loop.
unfoldable pub load_page : ℕ → ℕ → Page → Text → Memory → LoadResult
unfolding load_lines with_frame
load_page border pid page file m = elim (frame_alloc border (pid_str pid) m) as (λ _. LoadResult) [
  | none ↦ no_space
  | some (i, m') ↦
      load_result (
        load_lines 3 0 (pid_str pid)
          (record { page = with_frame i page; file = file; memory = m' }))
]

-- The loop of `PAGE_evict` over the slots from `i` on, `n` to go: what it prints, the page and
-- the memory.
unfoldable pub evict_slots : ℕ → ℕ → Page → Memory → Option (List Text × Page × Memory)
evict_slots zero i page m = some ([], page, m)
evict_slots (suc n) i page m =
    elim (get_elem? page.index i) as (λ _. Option (List Text × Page × Memory)) [
      | none ↦ none
      | some pos ↦ elim (mem_get_value_at pos m) as (λ _. Option (List Text × Page × Memory)) [
        | none ↦ none
        | some line ↦ elim (mem_free_at pos m) as (λ _. Option (List Text × Page × Memory)) [
          | none ↦ none
          | some m' ↦
              elim (evict_slots n (i + 1)
                  (record page {
                    index = set page.index i 0;
                    valid_bit = set page.valid_bit i false;
                  })
                  m')
                as (λ _. Option (List Text × Page × Memory)) [
                  | none ↦ none
                  | some (lines, page', m'') ↦ some (line ∷ lines, page', m'')
                ]
        ]
      ]
    ]

unfoldable pub page_evict : Page → Memory → Option (List Text × Page × Memory)
unfolding evict_slots
page_evict page m = evict_slots 3 0 page m

-- The inner loop of `free_PCB` over the indices of a page.
unfoldable pub free_page : List ℕ → Memory → Option Memory
free_page [] m = some m
free_page (pos ∷ r) m = elim (clear_frame pos m) as (λ _. Option Memory) [
  | none ↦ none
  | some m' ↦ free_page r m'
]

-- The memory part of `free_PCB`.
unfoldable pub free_pcb : List Page → Memory → Option Memory
unfolding free_page
free_pcb [] m = some m
free_pcb (p ∷ r) m = elim (free_page p.index m) as (λ _. Option Memory) [
  | none ↦ none
  | some m' ↦ free_pcb r m'
]

-- `PCB_done` on the program counters.
unfoldable pub pcb_done : List ℕ → Bool
pcb_done [] = true
pcb_done (c ∷ r) = let rest = pcb_done r in if c == 3 then rest else false
