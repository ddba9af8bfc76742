-- ===== src/A1/Tests.antt =====
-- The theorems on the first shell at concrete lines and scripts.
use comp.Prelude.{◌≢◌, ◌≡◌, ◌⊎◌, refl, true, false, [], ◌∷◌, arith}
use comp.Prelude.Text.{codes, text_eq}
use comp.A2.Parse.{is_word_char}
use comp.A1.Memory.{store_variable, load_variable, not_set}
use comp.A1.Memory.Stored.{load_variable-store_variable}
use comp.A3.Memory.{Memory, mem_init, none_text}
use comp.A3.Memory.Variables.{has_room}
use comp.A1.Parse.Enough.{words-enough}
use comp.A1.Parse.{no_fuel, split, words}
use comp.A1.Parse.RoundTrip.{print_words, words-print_words, all_word_chars}

words-print_words_example :
    words (print_words (codes "print" ∷ codes "x" ∷ [])) ≡ split (codes "print" ∷ codes "x" ∷ [])
unfolding all_word_chars is_word_char print_words
words-print_words_example =
    words-print_words (codes "print" ∷ codes "x" ∷ [])
      ((refl, omega arith, refl), ((refl, omega arith, refl), tt)) (omega arith) (omega arith)

-- A store with one slot.
abbrev one_slot : Memory
one_slot = mem_init 1

load_variable-store_variable_example :
    ((load_variable (codes "x") (store_variable (codes "x") (codes "1") one_slot) ≡ codes "1")
      × ((text_eq (codes "x") (codes "y") ≡ true)
          ⊎ ((text_eq none_text (codes "y") ≡ true)
              ⊎ (load_variable (codes "y") (store_variable (codes "x") (codes "1") one_slot)
                  ≡ load_variable (codes "y") one_slot))))
    ⊎ ((has_room (codes "x") one_slot ≡ false)
        × (store_variable (codes "x") (codes "1") one_slot ≡ one_slot)
        × (load_variable (codes "x") one_slot ≡ not_set))
load_variable-store_variable_example =
    load_variable-store_variable (codes "x") (codes "1") (codes "y") one_slot

words-enough_example : words (codes "print x;echo y") ≢ no_fuel
words-enough_example = words-enough (codes "print x;echo y")
