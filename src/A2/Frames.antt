-- ===== src/A2/Frames.antt =====
-- The frame store of a2/shellmemory.c: `shellframes`, `loadFrame` and `getLineFromFrameStore`.
pub mod Lru
pub mod Load
pub mod Service
use comp.Prelude.{
  ℕ, zero, suc, ◌+◌, Bool, true, false, not, ◌&&◌, ◌||◌, Option, none, some, List, [], ◌∷◌, ◌++◌,
  ltb, leb, ◌==◌, if◌then◌else◌, set, get_elem?, replicate,
}
use comp.Prelude.Text.{Text, codes}
use comp.A2.Stream.{Stream, read_next_command}

-- `struct frame_struct`; the value -1 of `pid` and `lru` is `none`.
pub record Frame : Type 0 where
  pub lines : List (Option Text)
  pub pid : Option ℕ
  pub empty : Bool
  pub lru : Option ℕ

-- What a read of the array `buffer` gives after `removeWhitespace`, which returns its address, has
-- returned: C leaves that open. It is some text, which may differ from one call to another: it
-- depends on `num_lru`, the line's index in the frame and the text that `buffer` held.
abbrev pub Stale : Type 0
Stale = ℕ → ℕ → Text → Text

-- `shellframes` and `num_lru`, and the reads of dead arrays.
pub record FrameStore : Type 0 where
  pub frames : List Frame
  pub num_lru : ℕ
  pub stale : Stale

abbrev pub lines_per_frame : ℕ
lines_per_frame = 3

abbrev pub int_max : ℕ
int_max = 2147483647

-- The loop over the frames in `mem_init`, with `n` for `SHELL_FRAMES`.
unfoldable pub init_frames : Stale → ℕ → FrameStore
init_frames stale n = record {
  frames =
      replicate n
        (record { lines = replicate lines_per_frame none; pid = none; empty = true; lru = none });
  num_lru = 0;
  stale = stale;
}

-- `findEmptyFrame` from index `i` on.
unfoldable pub find_empty : ℕ → List Frame → Option ℕ
find_empty i [] = none
find_empty i (f ∷ r) = let rest = find_empty (i + 1) r in if f.empty then some i else rest

abbrev pub is_lower : Option ℕ → ℕ → Bool
is_lower none lowest = false
is_lower (some l) lowest = ltb l lowest

abbrev pub lower : Option ℕ → ℕ → ℕ
lower none lowest = lowest
lower (some l) lowest = if ltb l lowest then l else lowest

-- The search for `victimFrame`, which is not initialised: `none` before a frame is chosen.
unfoldable pub find_victim : ℕ → Option ℕ → ℕ → List Frame → Option ℕ
find_victim lowest victim i [] = victim
find_victim lowest victim i (f ∷ r) =
    find_victim (lower f.lru lowest) (if is_lower f.lru lowest then some i else victim) (i + 1) r

-- The text in `buffer` when `removeWhitespace` returns its address.
unfoldable pub remove_whitespace : Text → Text
remove_whitespace [] = []
remove_whitespace (c ∷ r) =
    let rest = remove_whitespace r in if c == b' ' || (c == 9 || c == 10) then rest else c ∷ r

-- The loop of `loadFrame` that reads `n` more lines into `lines[i..]`; `strdup` copies what it reads
-- at the address that `removeWhitespace` returns.
unfoldable pub load_lines :
    (ℕ → Text → Text) → ℕ → ℕ → List (Option Text) → Stream → List (Option Text) × Stream
unfolding remove_whitespace read_next_command
load_lines stale zero i lines fp = (lines, fp)
load_lines stale (suc n) i lines fp =
    let (more, command, fp') = read_next_command fp in
    load_lines stale n (i + 1)
      (if more then set lines i (some (stale i (remove_whitespace command))) else lines) fp'

-- What is printed of a victim: its lines that are not `NULL`.
unfoldable pub victim_lines : List (Option Text) → List Text
victim_lines [] = []
victim_lines (none ∷ r) = victim_lines r
victim_lines (some t ∷ r) = t ∷ victim_lines r

abbrev pub fault_start : Text
fault_start = codes "Page fault! Victim page contents:"

abbrev pub fault_end : Text
fault_end = codes "End of victim page contents."

abbrev pub victim_report : Frame → List Text
victim_report f = fault_start ∷ (victim_lines f.lines ++ (fault_end ∷ []))

-- The frame to fill, and what is printed; `none` where an uninitialised `victimFrame` is used
-- as an index, or one outside the store.
unfoldable pub choose_frame : FrameStore → Option (ℕ × List Text)
unfolding find_empty find_victim victim_lines
choose_frame s = elim (find_empty 0 s.frames) as (λ _. Option (ℕ × List Text)) [
  | some i ↦ some (i, [])
  | none ↦ elim (find_victim int_max none 0 s.frames) as (λ _. Option (ℕ × List Text)) [
    | none ↦ none
    | some v ↦ elim (get_elem? s.frames v) as (λ _. Option (ℕ × List Text)) [
      | none ↦ none
      | some f ↦ some (v, victim_report f)
    ]
  ]
]

-- What `loadFrame` returns and changes.
pub record Loaded : Type 0 where
  pub frame : ℕ
  pub printed : List Text
  pub store : FrameStore
  pub fp : Stream

abbrev pub filled : ℕ → FrameStore → List (Option Text) → Frame
filled pid s lines = record { lines = lines; pid = some pid; empty = false; lru = some s.num_lru }

-- The frame `i` after the lines are read into it.
unfoldable pub fill_frame : Stream → ℕ → FrameStore → ℕ → List Text → Frame → Loaded
fill_frame fp pid s i printed f =
    let (lines, fp') = load_lines (s.stale s.num_lru) lines_per_frame 0 f.lines fp in
    record {
      frame = i;
      printed = printed;
      store = record s { frames = set s.frames i (filled pid s lines); num_lru = s.num_lru + 1 };
      fp = fp';
    }

-- `none` where `victimFrame` is read uninitialised and where `num_lru++` overflows an `int`.
unfoldable pub load_frame : Stream → ℕ → FrameStore → Option Loaded
load_frame fp pid s = elim (choose_frame s) as (λ _. Option Loaded) [
  | none ↦ none
  | some (i, printed) ↦ elim (get_elem? s.frames i) as (λ _. Option Loaded) [
    | none ↦ none
    | some f ↦ if ltb s.num_lru int_max then some (fill_frame fp pid s i printed f) else none
  ]
]

abbrev pub is_pid : Option ℕ → ℕ → Bool
is_pid none pid = false
is_pid (some p) pid = p == pid

abbrev pub line_at : List (Option Text) → ℕ → Option Text
line_at [] i = none
line_at (l ∷ r) zero = l
line_at (l ∷ r) (suc i) = line_at r i

-- `shellframes[i].lru = num_lru++`
abbrev pub touch : ℕ → Frame → FrameStore → FrameStore
touch i f s = record s {
  frames = set s.frames i (record f { lru = some s.num_lru });
  num_lru = s.num_lru + 1;
}

-- `getLineFromFrameStore`: `none` for a read outside `shellframes` and where `num_lru++` overflows,
-- else the line or `NULL`.
unfoldable pub get_line : ℕ → ℕ → ℕ → FrameStore → Option (Option Text × FrameStore)
get_line pid i j s = elim (get_elem? s.frames i) as (λ _. Option (Option Text × FrameStore)) [
  | none ↦ none
  | some f ↦
      if not (is_pid f.pid pid) || leb lines_per_frame j
      then some (none, s)
      else if ltb s.num_lru int_max
      then some (line_at f.lines j, touch i f s)
      else none
]
