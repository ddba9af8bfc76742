-- ===== src/A2/Tests/Variables.antt =====
-- The variable store of a2/shellmemory.c at a store of two slots.
use comp.Prelude.{◌≡◌, refl, false, none, some, [], ◌∷◌}
use comp.Prelude.Text.{Text, codes, text_eq}
use comp.A2.Vars.{Slot, Vars, is_named, mem_set_value, found, bad_read, mem_get_value, resetmem}
use comp.A2.Vars.Laws.{
  IsPacked, free, used, assoc, has_free, is_set, assoc-set, get-assoc, mem_set_value-IsPacked,
  set-resetmem,
}

abbrev x : Text
x = codes "x"

abbrev y : Text
y = codes "y"

abbrev one : Text
one = codes "1"

abbrev two : Text
two = codes "2"

abbrev empty_slot : Slot
empty_slot = record { var = none; value = none }

abbrev half : Vars
half = record { var = some x; value = some one } ∷ empty_slot ∷ []

abbrev full : Vars
full = record { var = some x; value = some one } ∷ record { var = some y; value = some two } ∷ []

half-IsPacked : IsPacked half
half-IsPacked = used (refl, refl) (free ((refl, refl), tt))

set_then_get : mem_get_value y (mem_set_value y two half) ≡ found two
unfolding mem_get_value mem_set_value text_eq
set_then_get = refl

assoc-set_example : assoc y (mem_set_value y two half) ≡ some two
unfolding is_set has_free assoc text_eq is_named
assoc-set_example = assoc-set y two y half

get-assoc_example : mem_get_value y half ≡ bad_read
unfolding assoc has_free text_eq is_named
get-assoc_example = get-assoc y half-IsPacked

mem_set_value-IsPacked_example : IsPacked (mem_set_value y two half)
mem_set_value-IsPacked_example = mem_set_value-IsPacked y two half-IsPacked

set-resetmem_example :
    (is_set y (resetmem full) ≡ false)
    × (assoc y (mem_set_value y two (resetmem full)) ≡ assoc y (resetmem full))
unfolding text_eq has_free
set-resetmem_example = set-resetmem y two y full refl refl
