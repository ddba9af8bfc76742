-- ===== src/A1/Parse.antt =====
-- `parseInput` of a1/shell.c: the words of a line. The characters of a word and the blanks are
-- those of A2/Parse.
pub mod RoundTrip
pub mod Enough
use comp.Prelude.{
  ℕ, zero, suc, ◌+◌, Bool, true, false, not, ◌||◌, List, [], ◌∷◌, ltb, ◌==◌, if◌then◌else◌, drop,
  take, length,
}
use comp.Prelude.Text.{Text}
use comp.A2.Parse.{skip_spaces, read_word, starts_with, is_nil, tmp_size, words_size}

-- The words, a word or a number of words that does not fit its array, or no fuel left.
pub data Split : Type 0 where
  split : List Text → Split
  overflow : Split
  no_fuel : Split

abbrev pub before : Text → Split → Split
before w (split ws) = split (w ∷ ws)
before w overflow = overflow
before w no_fuel = no_fuel

-- The `while` loop from the word number `w` on; a round takes one unit of fuel.
unfoldable pub split_words : ℕ → ℕ → Text → Split
unfolding read_word
split_words zero w ui = no_fuel
split_words (suc fuel) w ui =
    let (tmp, rest) = read_word ui in
    let more = split_words fuel (w + 1) (drop 1 rest) in
    if is_nil ui || starts_with 10 ui
    then split []
    else if not (ltb (length tmp) tmp_size) || not (ltb w words_size)
    then overflow
    else if is_nil rest
    then split (tmp ∷ [])
    else before tmp more

-- Each loop stops at `ui[1000]` as it does at the end of the line, with `a < 1000`.
abbrev pub line_limit : ℕ
line_limit = 1000

-- The words of a line: each round but the last takes a byte at least.
unfoldable pub words : Text → Split
unfolding split_words skip_spaces
words ui = let line = take line_limit ui in split_words (length line + 1) 0 (skip_spaces line)
