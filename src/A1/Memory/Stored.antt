-- ===== src/A1/Memory/Stored.antt =====
-- What a1/shellmemory.c stores is read back.
use comp.Prelude.{◌≡◌, ◌⊎◌, refl, inl, inr, true, false, none, some}
use comp.Prelude.Text.{Text, text_eq}
use comp.A3.Memory.{Memory, none_text, get_variable}
use comp.A3.Memory.Variables.{has_room, set_variable_lem}
use comp.A1.Memory.{store_variable, not_set, load_variable}

load-some : (k v : Text) (m : Memory) → get_variable k m ≡ some v → load_variable k m ≡ v
unfolding load_variable
load-some k v m e = rw (e, load_variable) refl

load-none : (k : Text) (m : Memory) → get_variable k m ≡ none → load_variable k m ≡ not_set
unfolding load_variable
load-none k m e = rw (e, load_variable) refl

load-same :
    (k : Text) (m m' : Memory)
    → get_variable k m' ≡ get_variable k m
    → load_variable k m' ≡ load_variable k m
unfolding load_variable
load-same k m m' e = rw (e, load_variable) refl

-- `mem_get_value` returns what `mem_set_value` has stored under the name, and for every other name
-- but "none" what it returned before; only where the name was not set and no slot is free does
-- `mem_set_value` change nothing, and the name is reported as one that does not exist.
pub load_variable-store_variable :
    (k v k' : Text) (m : Memory)
    → ((load_variable k (store_variable k v m) ≡ v)
        × ((text_eq k k' ≡ true)
            ⊎ ((text_eq none_text k' ≡ true)
                ⊎ (load_variable k' (store_variable k v m) ≡ load_variable k' m))))
      ⊎ ((has_room k m ≡ false) × (store_variable k v m ≡ m) × (load_variable k m ≡ not_set))
unfolding store_variable
load_variable-store_variable k v k' m = elim (set_variable_lem k v k' m) [
  | inr (packed, same, missing) ↦ inr (packed, same, load-none k m missing)
  | inl (now, inl e) ↦ inl (load-some k v _ now, inl e)
  | inl (now, inr (inl e)) ↦ inl (load-some k v _ now, inr (inl e))
  | inl (now, inr (inr e)) ↦ inl (load-some k v _ now, inr (inr (load-same k' m _ e)))
]
