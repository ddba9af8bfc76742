-- ===== src/A2/Parse/Progress.antt =====
-- Lines on which `parseInput` of a2/shell.c does not end, and what it hands to the interpreter for
-- a line of one command.
use comp.Prelude.{ℕ, zero, suc, ◌≡◌, ◌==◌, refl, ◌∷◌, false, arith}
use comp.Prelude.Int.{ℤ}
use comp.Prelude.Text.{Text}
use comp.Prelude.Run.{Run, out_of_fuel}
use comp.A2.Interpreter.{Words}
use comp.A2.Parse.{parse_loop, left_after}

left_after-same : (left : ℕ) (t : Text) → left_after left t t ≡ left
unfolding left_after
left_after-same left t = omega arith

module _ {S : Type 0} (interpreter : Words → ℕ → S → Run S ℤ) where
  -- Where a command begins with `;`, as between the two of `a;;b` or behind the space of `a ; b`,
  -- the loop makes no step, so that no number of rounds ends it, where the `;` is before byte 1000.
  pub parse_loop-semicolon :
      (fuel : ℕ) (words : Words) (w left : ℕ) (r : Text) (s : S)
      → parse_loop interpreter fuel words w (suc left) (b';' ∷ r) s ≡ out_of_fuel
  unfolding parse_loop
  parse_loop-semicolon zero words w left r s = refl
  parse_loop-semicolon (suc fuel) words w left r s =
      let room : (suc left == 0) ≡ false = ground arith in
      let stays = left_after-same (suc left) (b';' ∷ r) in
      rw room (rw stays (rw stays (parse_loop-semicolon fuel words w left r s)))
