-- ===== src/A3/LinkedList.antt =====
-- The lists of a3/linked_list.c: the data of the nodes between the two dummies, in their order.
-- A read of the data of a dummy, which is never set, is `none`.
use comp.Prelude.{Bool, true, false, Option, none, some, List, [], ◌∷◌, ◌++◌}

module _ {A : Type 0} where
  -- `list_init` and `list_clear`
  unfoldable pub list_init : List A
  list_init = []

  unfoldable pub add_tail : A → List A → List A
  add_tail x l = l ++ (x ∷ [])

  unfoldable pub add_head : A → List A → List A
  add_head x l = x ∷ l

  -- `pop_head`: `none` where the list is empty and the process exits.
  unfoldable pub pop_head : List A → Option (A × List A)
  pop_head [] = none
  pop_head (x ∷ l) = some (x, l)

  abbrev behind : A → Option (A × List A) → Option (A × List A)
  behind x none = none
  behind x (some (y, l)) = some (y, x ∷ l)

  unfoldable pub pop_tail : List A → Option (A × List A)
  pop_tail [] = none
  pop_tail (x ∷ []) = some (x, [])
  pop_tail (x ∷ y ∷ l) = behind x (pop_tail (y ∷ l))

  -- `get_node_by_value` and `remove_elem` with the test `equal`, which is `none` where the data
  -- cannot be read; where no node is equal it is applied to the data of `dummy_tail`.
  unfoldable pub remove_elem : (A → Option Bool) → List A → Option (A × List A)
  remove_elem equal [] = none
  remove_elem equal (x ∷ l) =
      let rest = behind x (remove_elem equal l) in
      elim (equal x) as (λ _. Option (A × List A)) [
        | none ↦ none
        | some true ↦ some (x, l)
        | some false ↦ rest
      ]
