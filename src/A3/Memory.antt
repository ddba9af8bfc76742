-- ===== src/A3/Memory.antt =====
-- The shell memory of a3/shellmemory.c: `shellmemory`, whose first `border` slots
-- (`FRAME_STORE_SIZE`) hold frames of three lines, and whose other slots hold variables.
-- An access outside the array is `none`.
pub mod Frames
pub mod Variables
use comp.Prelude.{
  ℕ, zero, suc, ◌+◌, Bool, true, false, ◌&&◌, Option, none, some, List, [], ◌∷◌, ltb, ◌==◌,
  if◌then◌else◌, get_elem?, set, replicate, prepend,
}
use comp.Prelude.Text.{Text, codes, text_eq}

-- `struct memory_struct`
pub record Slot : Type 0 where
  pub var : Text
  pub value : Text

abbrev pub Memory : Type 0
Memory = List Slot

abbrev pub none_text : Text
none_text = codes "none"

abbrev pub free_slot : Slot
free_slot = record { var = none_text; value = none_text }

abbrev pub is_free : Slot → Bool
is_free s = text_eq s.var none_text

-- `n` is FRAME_STORE_SIZE + VAR_STORE_SIZE.
unfoldable pub mem_init : ℕ → Memory
mem_init n = replicate n free_slot

-- A write to one slot of the array.
unfoldable pub store_at : ℕ → Slot → Memory → Option Memory
store_at pos s [] = none
store_at zero s (x ∷ m) = some (s ∷ m)
store_at (suc pos) s (x ∷ m) = prepend x (store_at pos s m)

unfoldable pub mem_free_at : ℕ → Memory → Option Memory
unfolding store_at
mem_free_at pos m = store_at pos free_slot m

unfoldable pub is_free_at : ℕ → Memory → Bool
is_free_at j [] = false
is_free_at zero (s ∷ m) = is_free s
is_free_at (suc j) (s ∷ m) = is_free_at j m

-- The inner loop of `frame_alloc` with `n` slots to go: the `j` at which it stops.
unfoldable pub scan_free : ℕ → ℕ → ℕ → Memory → ℕ
unfolding is_free_at
scan_free border zero j m = j
scan_free border (suc n) j m =
    let rest = scan_free border n (j + 1) m in if ltb j border && is_free_at j m then rest else j

-- The outer loop from `i` on, with `n` rounds to go: the start of the frame.
unfoldable pub find_frame : ℕ → ℕ → ℕ → Memory → Option ℕ
unfolding scan_free
find_frame border zero i m = none
find_frame border (suc n) i m =
    let rest = find_frame border n (i + 1) m in
    if scan_free border 3 i m == i + 3 then some i else rest

-- `shellmemory[k].var = strdup(pid)`
unfoldable pub mark : Text → ℕ → Memory → Memory
mark pid k [] = []
mark pid zero (s ∷ m) = record s { var = pid } ∷ m
mark pid (suc k) (s ∷ m) = s ∷ mark pid k m

-- `frame_alloc`: `none` for the result 1, else the start of the frame. The array `index` of the
-- page is the start and the two numbers behind it, `valid_bit` is all zero.
unfoldable pub frame_alloc : ℕ → Text → Memory → Option (ℕ × Memory)
unfolding find_frame mark
frame_alloc border pid m = elim (find_frame border border 0 m) as (λ _. Option (ℕ × Memory)) [
  | none ↦ none
  | some i ↦ some (i, mark pid (i + 2) (mark pid (i + 1) (mark pid i m)))
]

-- The memory part of `mem_set_value_at`; the caller sets the valid bit.
unfoldable pub mem_set_value_at : ℕ → Text → Text → Memory → Option Memory
unfolding store_at
mem_set_value_at pos pid value_in m = store_at pos (record { var = pid; value = value_in }) m

abbrev pub value_of : Option Slot → Option Text
value_of none = none
value_of (some s) = some s.value

unfoldable pub mem_get_value_at : ℕ → Memory → Option Text
mem_get_value_at pos m = value_of (get_elem? m pos)

-- The loop of `clear_frame` over `n` slots.
unfoldable pub clear_slots : ℕ → ℕ → Memory → Option Memory
unfolding mem_free_at
clear_slots zero i m = some m
clear_slots (suc n) i m = elim (mem_free_at i m) as (λ _. Option Memory) [
  | none ↦ none
  | some m' ↦ clear_slots n (i + 1) m'
]

unfoldable pub clear_frame : ℕ → Memory → Option Memory
unfolding clear_slots
clear_frame start_pos m = clear_slots 3 start_pos m

-- The part of the array that `mem_set_value`, `mem_get_value` and `reset_var_zone` go over is
-- the list of variables; the first loop of `mem_set_value`.
unfoldable pub set_existing : Text → Text → Memory → Option Memory
set_existing k v [] = none
set_existing k v (s ∷ r) =
    let rest = prepend s (set_existing k v r) in
    if text_eq s.var k then some (record s { value = v } ∷ r) else rest

-- The second loop.
unfoldable pub set_free : Text → Text → Memory → Option Memory
set_free k v [] = none
set_free k v (s ∷ r) =
    let rest = prepend s (set_free k v r) in
    if is_free s then some (record { var = k; value = v } ∷ r) else rest

unfoldable pub set_variable : Text → Text → Memory → Memory
unfolding set_existing set_free
set_variable k v m = elim (set_existing k v m) [
  | some m' ↦ m'
  | none ↦ elim (set_free k v m) [ some m' ↦ m' | none ↦ m ]
]

unfoldable pub get_variable : Text → Memory → Option Text
get_variable k [] = none
get_variable k (s ∷ r) =
    let rest = get_variable k r in if text_eq s.var k then some s.value else rest

-- A loop that starts at the slot `border`: it leaves the frames as they are.
abbrev pub from_border : ℕ → (Memory → Memory) → Memory → Memory
from_border zero f m = f m
from_border (suc border) f [] = []
from_border (suc border) f (s ∷ m) = s ∷ from_border border f m

abbrev pub variables : ℕ → Memory → Memory
variables zero m = m
variables (suc border) [] = []
variables (suc border) (s ∷ m) = variables border m

unfoldable pub mem_set_value : ℕ → Text → Text → Memory → Memory
unfolding set_variable
mem_set_value border var_in value_in m = from_border border (set_variable var_in value_in) m

abbrev pub missing_value : Bool → Text
missing_value true = codes "Variable does not exist"
missing_value false = []

-- `caller` is whether the caller is 'p', the command `print`.
unfoldable pub mem_get_value : ℕ → Text → Bool → Memory → Text
unfolding get_variable
mem_get_value border var_in caller m = elim (get_variable var_in (variables border m)) [
  | some v ↦ v
  | none ↦ missing_value caller
]

unfoldable pub free_all : Memory → Memory
free_all [] = []
free_all (s ∷ m) = free_slot ∷ free_all m

unfoldable pub reset_var_zone : ℕ → Memory → Memory
unfolding free_all
reset_var_zone border m = from_border border free_all m
