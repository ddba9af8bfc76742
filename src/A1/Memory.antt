-- ===== src/A1/Memory.antt =====
-- The variables of a1/shellmemory.c. The loops over its 1000 slots are those over the variables
-- of a3/shellmemory.c, so they are shared with A3/Memory.
pub mod Stored
use comp.Prelude.{none, some}
use comp.Prelude.Text.{Text, codes}
use comp.A3.Memory.{Memory, set_variable, get_variable}

-- `mem_init`
unfoldable pub shell_memory : Memory
shell_memory = comp.A3.Memory.mem_init 1000

unfoldable pub store_variable : Text → Text → Memory → Memory
store_variable var_in value_in m = set_variable var_in value_in m

abbrev pub not_set : Text
not_set = codes "Variable does not exist"

-- `mem_get_value`
unfoldable pub load_variable : Text → Memory → Text
load_variable var_in m = elim (get_variable var_in m) [ some v ↦ v | none ↦ not_set ]
