-- ===== src/A3/Parse.antt =====
-- `parseInput` of a3/shell.c. `strtok` keeps the rest of its string in a static variable, here a
-- part of the state that `interpreter` shares: a script that it runs calls `parseInput` again.
use comp.Prelude.{
  ℕ, zero, suc, Option, none, some, List, [], ◌∷◌, ◌==◌, if◌then◌else◌, length, drop, ltb,
}
use comp.Prelude.Int.{ℤ, pos, is_minus_one}
use comp.Prelude.Text.{Text}
use comp.Prelude.Run.{Run, done, fault, out_of_fuel, and_then}
use comp.A2.Parse.{skip_spaces}

-- `strtok` skips the delimiters in front of a token.
unfoldable pub skip_delimiters : Text → Text
skip_delimiters [] = []
skip_delimiters (c ∷ r) = let rest = skip_delimiters r in if c == b';' then rest else c ∷ r

-- The text before the first byte `d`, and the text from there on.
unfoldable pub before_byte : ℕ → Text → Text × Text
before_byte d [] = ([], [])
before_byte d (c ∷ r) =
    let (front, rest) = before_byte d r in if c == d then ([], c ∷ r) else (c ∷ front, rest)

abbrev pub token_of : Text → Option (Text × Text)
token_of [] = none
token_of (c ∷ r) = some ((before_byte b';' (c ∷ r)).0, drop 1 (before_byte b';' (c ∷ r)).1)

-- `strtok` with the delimiter ";": the token and what is kept, or `none` for `NULL`.
unfoldable pub strtok : Text → Option (Text × Text)
unfolding skip_delimiters before_byte
strtok s = token_of (skip_delimiters s)

-- The words of one token; a round takes a byte at least.
unfoldable pub token_words : ℕ → Text → List Text
unfolding before_byte
token_words zero token = []
token_words (suc n) [] = []
token_words (suc n) (c ∷ r) =
    let (word, rest) = before_byte b' ' (c ∷ r) in
    let more = token_words n (drop 1 rest) in word ∷ more

unfoldable pub words_of : Text → List Text
unfolding token_words skip_spaces
words_of token = token_words (length token) (skip_spaces token)

-- The static variable of `strtok`, and the rest of the state.
pub record Saved (S : Type 0) : Type 0 where
  pub kept : Text
  pub state : S

-- `strtok(NULL, ";")` where its result is not used.
unfoldable pub next_token : {S : Type 0} → Saved S → Saved S
unfolding strtok
next_token s = record s { kept = elim (strtok s.kept) [ none ↦ [] | some (token, rest) ↦ rest ] }

module _ {S : Type 0} (interpreter : List Text → Saved S → Run (Saved S) ℤ) where
  -- The call of `interpreter`, with room for a hundred words in `words`.
  unfoldable pub run_words : List Text → Saved S → Run (Saved S) ℤ
  run_words ws s = if ltb 100 (length ws) then fault else interpreter ws s

  -- The loop from the result of `strtok` on: `ret` is what was returned last.
  unfoldable pub token_loop : ℕ → ℤ → Text → Saved S → Run (Saved S) ℤ
  unfolding strtok words_of run_words next_token
  token_loop zero ret text s = out_of_fuel
  token_loop (suc fuel) ret text s = elim (strtok text) as (λ _. Run (Saved S) ℤ) [
    | none ↦ done ret (record s { kept = [] })
    | some (token, rest) ↦
        and_then (run_words (words_of token) (record s { kept = rest })) (λ ret' s'.
          let more = token_loop fuel ret' s'.kept s' in
          if is_minus_one ret' then done ret' (next_token s') else more)
  ]

  unfoldable pub parse_input : ℕ → Text → Saved S → Run (Saved S) ℤ
  unfolding token_loop
  parse_input fuel ui s = token_loop fuel (pos 0) ui s
