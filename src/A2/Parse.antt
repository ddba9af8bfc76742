-- ===== src/A2/Parse.antt =====
-- `parseInput` of a2/shell.c. `interpreter` executes one command of the line.
pub mod Progress
use comp.Prelude.{
  ℕ, zero, suc, ◌+◌, ◌-◌, ◌<◌, Bool, true, false, not, ◌&&◌, ◌||◌, Option, none, some, List, [],
  ◌∷◌, ltb, ◌==◌, if◌then◌else◌, set, drop, length, replicate,
}
use comp.Prelude.Int.{ℤ, is_minus_one}
use comp.Prelude.Text.{Text}
use comp.Prelude.Run.{Run, done, fault, out_of_fuel, and_then}
use comp.A2.Interpreter.{Words, strip_words}

-- `for (...; ui[a] == ' '; a++);`
unfoldable pub skip_spaces : Text → Text
skip_spaces [] = []
skip_spaces (c ∷ r) = let rest = skip_spaces r in if c == b' ' then rest else c ∷ r

-- `for (; ui[a] == ' ' && a < 1000; a++);`, with `left` for `1000 - a`.
unfoldable pub skip_upto : ℕ → Text → Text
skip_upto zero t = t
skip_upto (suc left) [] = []
skip_upto (suc left) (c ∷ r) = let rest = skip_upto left r in if c == b' ' then rest else c ∷ r

-- The test of the inner loop: no `;`, `'\n'` or space.
unfoldable pub is_word_char : ℕ → Bool
is_word_char c = not (c == b';') && (not (c == 10) && not (c == b' '))

-- The inner loop without its bound: the word in `tmp`, and the text from `ui[a]` on.
unfoldable pub read_word : Text → Text × Text
unfolding is_word_char
read_word [] = ([], [])
read_word (c ∷ r) =
    let (tmp, rest) = read_word r in if is_word_char c then (c ∷ tmp, rest) else ([], c ∷ r)

-- The inner loop, with `left` for `1000 - a`.
unfoldable pub read_word_upto : ℕ → Text → Text × Text
unfolding is_word_char
read_word_upto zero t = ([], t)
read_word_upto (suc left) [] = ([], [])
read_word_upto (suc left) (c ∷ r) =
    let (tmp, rest) = read_word_upto left r in
    if is_word_char c then (c ∷ tmp, rest) else ([], c ∷ r)

-- `1000 - a` after the step from the first text to the second.
unfoldable pub left_after : ℕ → Text → Text → ℕ
left_after left before_step after_step = left - (length before_step - length after_step)

abbrev pub starts_with : ℕ → Text → Bool
starts_with c [] = false
starts_with c (d ∷ r) = d == c

abbrev pub is_nil : Text → Bool
is_nil [] = true
is_nil (c ∷ r) = false

-- `char tmp[200]` and `char *words[100]`
abbrev pub tmp_size : ℕ
tmp_size = 200

abbrev pub words_size : ℕ
words_size = 100

module _ {S : Type 0} (interpreter : Words → ℕ → S → Run S ℤ) where
  -- The `while` loop and the call behind it, on the text from `ui[a]` on. A word or an index that
  -- does not fit its array is a fault. Where the word is empty the code goes on without a step.
  -- `left` is `1000 - a`, or 0 where `a` is past 1000: the loop over the blanks has no bound.
  unfoldable pub parse_loop : ℕ → Words → ℕ → ℕ → Text → S → Run S ℤ
  unfolding skip_spaces skip_upto read_word_upto left_after
  parse_loop zero words w left ui s = out_of_fuel
  parse_loop (suc fuel) words w left ui s =
      let at = skip_spaces ui in
      let left1 = left_after left ui at in
      let (tmp, rest) = read_word_upto left1 at in
      let left2 = left_after left1 at rest in
      let words' = set words w (some tmp) in
      let again = parse_loop fuel words w left2 rest s in
      let next = parse_loop fuel words' (w + 1) (left2 - 1) (drop 1 rest) s in
      let following = skip_upto (left2 - 1) (drop 1 rest) in
      let left3 = left_after (left2 - 1) (drop 1 rest) following in
      let after = λ (code : ℤ) (t : S). elim (is_minus_one code) as (λ _. Run S ℤ) [
        | true ↦ done code t
        | false ↦ parse_loop fuel (strip_words (w + 1) words') 0 left3 following t
      ] in
      if (left == 0) || (is_nil ui || (starts_with 10 ui || is_nil at))
      then interpreter words w s
      else if not (ltb (length tmp) tmp_size)
      then fault
      else if is_nil tmp
      then again
      else if not (ltb w words_size)
      then fault
      else if starts_with b';' rest
      then and_then (interpreter words' (w + 1) s) after
      else next

  unfoldable pub parse_input : ℕ → Text → S → Run S ℤ
  unfolding parse_loop skip_upto left_after
  parse_input fuel ui s =
      let start = skip_upto 1000 ui in
      parse_loop fuel (replicate words_size none) 0 (left_after 1000 ui start) start s
