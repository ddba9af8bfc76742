-- ===== src/Prelude/Cells.antt =====
-- Heap cells, by their addresses.
use Prim.Native.Nat.{ℕ}
use mathlib.Core.Path.{◌≡◌, refl}
use mathlib.Core.Option.{Option, none, some}
use mathlib.Core.List.{List, [], ◌∷◌}
use native.Mathlib.Omega.{arith}
use comp.Prelude.Tests.{◌==◌, if◌then◌else◌}

module _ {A : Type 0} where
  -- The cell at an address, `none` where there is none or it was freed.
  unfoldable pub deref : ℕ → List (ℕ × A) → Option A
  deref address [] = none
  deref address ((a, x) ∷ r) = let rest = deref address r in if a == address then some x else rest

  unfoldable pub assign : ℕ → A → List (ℕ × A) → List (ℕ × A)
  assign address v [] = []
  assign address v ((a, x) ∷ r) =
      let rest = assign address v r in if a == address then (a, v) ∷ r else (a, x) ∷ rest

  unfoldable pub free_cell : ℕ → List (ℕ × A) → List (ℕ × A)
  free_cell address [] = []
  free_cell address ((a, x) ∷ r) =
      let rest = free_cell address r in if a == address then r else (a, x) ∷ rest

  -- No two cells have one address.
  unfoldable pub IsApart : List (ℕ × A) → Type 0
  unfolding deref
  IsApart [] = Unit
  IsApart ((a, x) ∷ r) = (deref a r ≡ none) × IsApart r

module _ {A : Type 0} where
  deref-free_cell-none :
      (address b : ℕ) (h : List (ℕ × A)) → deref b h ≡ none → deref b (free_cell address h) ≡ none
  unfolding deref free_cell
  deref-free_cell-none address b [] e = refl
  deref-free_cell-none address b ((a, x) ∷ r) e =
      let ih = deref-free_cell-none address b r in ground arith

  -- What was freed is gone.
  pub deref-free_cell :
      (address : ℕ) (h : List (ℕ × A)) → IsApart h → deref address (free_cell address h) ≡ none
  unfolding deref free_cell IsApart
  deref-free_cell address [] w = refl
  deref-free_cell address ((a, x) ∷ r) w =
      let ih = deref-free_cell address r w.1 in let here = w.0 in ground arith
