-- ===== src/A2/Vars.antt =====
-- The variable store of a2/shellmemory.c: `shellvars`, `SHELL_VARS` slots of two strings each,
-- `none` for `NULL`. A variable that is not set is looked for by `strcmp`, which faults at `NULL`.
pub mod Laws
use comp.Prelude.{
  ℕ, ◌≡◌, Bool, true, false, ◌&&◌, Option, none, some, List, [], ◌∷◌, if◌then◌else◌, replicate,
  prepend,
}
use comp.Prelude.Text.{Text, codes, text_eq}

-- `struct memory_struct`
pub record Slot : Type 0 where
  pub var : Option Text
  pub value : Option Text

abbrev pub Vars : Type 0
Vars = List Slot

abbrev pub is_some : Option Text → Bool
is_some none = false
is_some (some t) = true

-- `shellvars[i].var && strcmp(var_in, shellvars[i].var) == 0`
unfoldable pub is_named : Text → Option Text → Bool
is_named k none = false
is_named k (some n) = text_eq k n

-- The loop over the variables in `mem_init`, with `n` for `SHELL_VARS`.
unfoldable pub mem_init : ℕ → Vars
mem_init n = replicate n (record { var = none; value = none })

-- The first loop of `mem_set_value`: `none` if it falls through.
unfoldable pub set_existing : Text → Text → Vars → Option Vars
set_existing k v [] = none
set_existing k v (s ∷ r) =
    let rest = prepend s (set_existing k v r) in
    if is_named k s.var then some (record s { value = some v } ∷ r) else rest

-- The second loop.
unfoldable pub set_free : Text → Text → Vars → Option Vars
set_free k v [] = none
set_free k v (s ∷ r) =
    let rest = prepend s (set_free k v r) in
    if is_some s.var then rest else some (record { var = some k; value = some v } ∷ r)

unfoldable pub mem_set_value : Text → Text → Vars → Vars
unfolding set_existing set_free is_named
mem_set_value k v m = elim (set_existing k v m) [
  | some m' ↦ m'
  | none ↦ elim (set_free k v m) [ some m' ↦ m' | none ↦ m ]
]

pub data Lookup : Type 0 where
  found : Text → Lookup
  -- the function returns `NULL`
  missing : Lookup
  -- `strcmp` or `strdup` reads through `NULL`
  bad_read : Lookup

abbrev pub read_value : Option Text → Lookup
read_value none = bad_read
read_value (some v) = found v

unfoldable pub mem_get_value : Text → Vars → Lookup
mem_get_value k [] = missing
mem_get_value k (s ∷ r) =
    let rest = mem_get_value k r in
    elim s.var [ none ↦ bad_read | some n ↦ if text_eq n k then read_value s.value else rest ]

-- `resetmem` of one string: `NULL` stays, any other becomes "none".
abbrev pub reset_text : Option Text → Option Text
reset_text none = none
reset_text (some t) = some (codes "none")

unfoldable pub resetmem : Vars → Vars
resetmem [] = []
resetmem (s ∷ r) = record { var = reset_text s.var; value = reset_text s.value } ∷ resetmem r
