-- ===== src/A1/Parse/RoundTrip.antt =====
-- `parseInput` of a1/shell.c on a line that is printed from words.
use comp.Prelude.{
  ℕ, zero, suc, ◌+◌, ◌<◌, ◌≤◌, ◌≡◌, ◌∙◌, refl, ap, Bool, true, false, ◌&&◌, ◌||◌, List, [], ◌∷◌,
  ◌++◌, ◌==◌, length, All, arith, take, length-append, lt→ltb,
}
use comp.Prelude.Text.{Text}
use comp.A2.Parse.{skip_spaces, is_word_char, read_word, starts_with, is_nil, tmp_size, words_size}
use comp.A1.Parse.{split, before, split_words, words, line_limit}

unfoldable pub all_word_chars : Text → Bool
all_word_chars [] = true
all_word_chars (c ∷ r) = is_word_char c && all_word_chars r

-- A word has a character, fits `tmp`, and has no blank, newline or semicolon.
abbrev pub IsWord : Text → Type 0
IsWord w = (is_nil w ≡ false) × (length w < tmp_size) × (all_word_chars w ≡ true)

-- Each word but the last followed by one blank.
unfoldable pub print_words : List Text → Text
print_words [] = []
print_words (w ∷ []) = w
print_words (w ∷ v ∷ r) = w ++ (b' ' ∷ print_words (v ∷ r))

read_word-end : (w : Text) → all_word_chars w ≡ true → read_word w ≡ (w, [])
unfolding read_word all_word_chars
read_word-end [] h = refl
read_word-end (c ∷ w) h =
    let rest = read_word-end w (ground arith) in
    let head : is_word_char c ≡ true = ground arith in rw (rest, head) refl

read_word-now : (r : Text) → read_word (b' ' ∷ r) ≡ ([], b' ' ∷ r)
unfolding read_word is_word_char
read_word-now r = refl

read_word-blank :
    (w r : Text) → all_word_chars w ≡ true → read_word (w ++ (b' ' ∷ r)) ≡ (w, b' ' ∷ r)
unfolding read_word all_word_chars
read_word-blank [] r h = read_word-now r
read_word-blank (c ∷ w) r h =
    let rest = read_word-blank w r (ground arith) in
    let head : is_word_char c ≡ true = ground arith in rw (rest, head) refl

not_newline : (c : ℕ) → is_word_char c ≡ true → (c == 10) ≡ false
unfolding is_word_char
not_newline c h = ground arith

IsWord-starts : (w r : Text) → IsWord w → (is_nil (w ++ r) || starts_with 10 (w ++ r)) ≡ false
unfolding all_word_chars
IsWord-starts [] r h = absurd (ground arith)
IsWord-starts (c ∷ w) r h = let h2 = h.2 in not_newline c (ground arith)

IsWord-first : (w : Text) → IsWord w → (is_nil w || starts_with 10 w) ≡ false
unfolding all_word_chars
IsWord-first [] h = absurd (ground arith)
IsWord-first (c ∷ w) h = let h2 = h.2 in not_newline c (ground arith)

split_words-last :
    (fuel n : ℕ) (w : Text)
    → IsWord w
    → n < words_size
    → split_words (suc fuel) n w ≡ split (w ∷ [])
unfolding split_words
split_words-last fuel n w (some_char, fits, chars) lt = rw (read_word-end w chars) (
    rw (IsWord-first w (some_char, fits, chars))
      (rw (lt→ltb (length w) tmp_size fits, lt→ltb n words_size lt) refl))

split_words-more :
    (fuel n : ℕ) (w r : Text)
    → IsWord w
    → n < words_size
    → split_words (suc fuel) n (w ++ (b' ' ∷ r)) ≡ before w (split_words fuel (n + 1) r)
unfolding split_words
split_words-more fuel n w r (some_char, fits, chars) lt = rw (read_word-blank w r chars) (
    rw (IsWord-starts w (b' ' ∷ r) (some_char, fits, chars))
      (rw (lt→ltb (length w) tmp_size fits, lt→ltb n words_size lt) refl))

split_words-nil : (fuel n : ℕ) → split_words (suc fuel) n [] ≡ split []
unfolding split_words
split_words-nil fuel n = refl

IsWord-length : (w : Text) → IsWord w → 1 ≤ length w
IsWord-length [] h = absurd (ground arith)
IsWord-length (c ∷ w) h = omega arith

append_nil : (w : Text) → w ++ [] ≡ w
append_nil [] = refl
append_nil (c ∷ w) = ap (λ t. c ∷ t) (append_nil w)

skip_spaces-nil : skip_spaces [] ≡ []
unfolding skip_spaces
skip_spaces-nil = refl

not_blank : (c : ℕ) → is_word_char c ≡ true → (c == b' ') ≡ false
unfolding is_word_char
not_blank c h = ground arith

skip_spaces-IsWord : (w r : Text) → IsWord w → skip_spaces (w ++ r) ≡ w ++ r
unfolding skip_spaces all_word_chars
skip_spaces-IsWord [] r h = absurd (ground arith)
skip_spaces-IsWord (c ∷ w) r h = let h2 = h.2 in rw (not_blank c (ground arith)) refl

skip_spaces-print_words :
    (ws : List Text) → All IsWord ws → skip_spaces (print_words ws) ≡ print_words ws
unfolding print_words
skip_spaces-print_words [] h = skip_spaces-nil
skip_spaces-print_words (w ∷ []) (h, rest) = rw (append_nil w) at (skip_spaces-IsWord w [] h)
skip_spaces-print_words (w ∷ v ∷ r) (h, rest) = skip_spaces-IsWord w (b' ' ∷ print_words (v ∷ r)) h

-- The text is longer than the number of its words.
length-print_words : (ws : List Text) → All IsWord ws → length ws ≤ length (print_words ws)
unfolding print_words
length-print_words [] h = omega arith
length-print_words (w ∷ []) (h, rest) = IsWord-length w h
length-print_words (w ∷ v ∷ r) (h, rest) =
    omega (arith, length-print_words (v ∷ r) rest, length-append w (b' ' ∷ print_words (v ∷ r)))

split_words-print_words :
    (fuel n : ℕ) (ws : List Text)
    → All IsWord ws
    → length ws < fuel
    → n + length ws ≤ words_size
    → split_words fuel n (print_words ws) ≡ split ws
unfolding print_words
split_words-print_words zero n ws h enough room = absurd (omega arith)
split_words-print_words (suc fuel) n [] h enough room = split_words-nil fuel n
split_words-print_words (suc fuel) n (w ∷ []) (h, rest) enough room =
    split_words-last fuel n w h (omega arith)
split_words-print_words (suc fuel) n (w ∷ v ∷ r) (h, rest) enough room =
    split_words-more fuel n w (print_words (v ∷ r)) h (omega arith)
    ∙ ap (before w) (split_words-print_words fuel (n + 1) (v ∷ r) rest (omega arith) (omega arith))

take-all : (n : ℕ) (t : Text) → length t ≤ n → take n t ≡ t
take-all zero [] h = refl
take-all zero (c ∷ r) h = absurd (omega arith)
take-all (suc n) [] h = refl
take-all (suc n) (c ∷ r) h = ap (λ s. c ∷ s) (take-all n r (omega arith))

-- `parseInput` reads from a line of at most a hundred words and a thousand bytes, with one blank
-- between the words, exactly these words, in their order, within as many rounds as the line has
-- bytes and one.
pub words-print_words :
    (ws : List Text)
    → All IsWord ws
    → length ws ≤ words_size
    → length (print_words ws) ≤ line_limit
    → words (print_words ws) ≡ split ws
unfolding words
words-print_words ws h room fits = rw (take-all line_limit (print_words ws) fits) (
    rw (skip_spaces-print_words ws h) (
      split_words-print_words (length (print_words ws) + 1) 0 ws h
        (omega (arith, length-print_words ws h)) (omega arith)))
