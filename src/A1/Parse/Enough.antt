-- ===== src/A1/Parse/Enough.antt =====
-- The loop of `parseInput` of a1/shell.c ends.
use comp.Prelude.{
  ℕ, zero, suc, ◌+◌, ◌<◌, ◌≤◌, ◌≡◌, refl, false, ◌||◌, [], ◌∷◌, ◌==◌, length, drop, take, not, ltb,
  ◌≢◌, inl, inr, Bool-cases, arith,
}
use comp.Prelude.Text.{Text}
use comp.A2.Parse.{skip_spaces, is_word_char, read_word, starts_with, is_nil, tmp_size, words_size}
use comp.A1.Parse.{Split, split, overflow, no_fuel, before, split_words, words, line_limit}

read_word-length : (t : Text) → length (read_word t).1 ≤ length t
unfolding read_word
read_word-length [] = omega arith
read_word-length (c ∷ r) = elim (Bool-cases (is_word_char c)) [
  | inl e ↦ rw e (omega (arith, read_word-length r))
  | inr e ↦ rw e (omega arith)
]

length-drop_one : (t : Text) → is_nil t ≡ false → length (drop 1 t) + 1 ≤ length t
length-drop_one [] h = cc
length-drop_one (c ∷ r) h = omega arith

before-has_fuel : (w : Text) (s : Split) → s ≢ no_fuel → before w s ≢ no_fuel
before-has_fuel w (split ws) h = λ e. ground arith
before-has_fuel w overflow h = λ e. ground arith
before-has_fuel w no_fuel h = absurd (h refl)

split_words-enough : (fuel n : ℕ) (ui : Text) → length ui < fuel → split_words fuel n ui ≢ no_fuel
unfolding split_words
split_words-enough zero n ui lt = absurd (omega arith)
split_words-enough (suc fuel) n ui lt = elim (Bool-cases (is_nil ui || starts_with 10 ui)) [
  | inl e ↦ rw e (λ x. ground arith)
  | inr e ↦
      let (tmp, rest) = read_word ui in
      elim (Bool-cases (not (ltb (length tmp) tmp_size) || not (ltb n words_size))) [
        | inl f ↦ rw (e, f) (λ x. ground arith)
        | inr f ↦ elim (Bool-cases (is_nil rest)) [
          | inl g ↦ rw (e, f) (rw g (λ x. ground arith))
          | inr g ↦
              rw (e, f)
                (rw g (
                  before-has_fuel tmp _ (
                    split_words-enough fuel (n + 1) (drop 1 rest)
                      (omega (arith, lt, read_word-length ui, length-drop_one rest g)))))
        ]
      ]
]

skip_spaces-length : (t : Text) → length (skip_spaces t) ≤ length t
unfolding skip_spaces
skip_spaces-length [] = omega arith
skip_spaces-length (c ∷ r) = elim (Bool-cases (c == b' ')) [
  | inl e ↦ rw e (omega (arith, skip_spaces-length r))
  | inr e ↦ rw e (omega arith)
]

-- The loop of `parseInput` ends on every line, within one round more than the line has bytes: with a
-- list of words, or where a word or their number does not fit its array.
pub words-enough : (ui : Text) → words ui ≢ no_fuel
unfolding words
words-enough ui =
    let line = take line_limit ui in
    split_words-enough (length line + 1) 0 (skip_spaces line)
      (omega (arith, skip_spaces-length line))
