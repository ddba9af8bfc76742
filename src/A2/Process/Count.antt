-- ===== src/A2/Process/Count.antt =====
-- The count of a script's commands in `process_initialize` of a2/kernel.c.
use comp.Prelude.{
  ℕ, zero, suc, ◌+◌, ◌<◌, ◌≤◌, ◌≡◌, refl, true, ◌||◌, none, some, [], ◌∷◌, arith, length, ◌==◌,
  Bool-cases, inl, inr, ap, ◌∙◌,
}
use native.Mathlib.Decide.{dec_lt}
use mathlib.Core.Logic.{◌⊎◌}
use comp.Prelude.Text.{Text}
use comp.A2.Stream.{Stream, read_line, read_next_command, is_nonempty, newline, eof_byte}
use comp.A2.Frames.Load.{nth_command}
use comp.A2.Process.{count_commands}

-- A line that is read leaves fewer bytes.
read_line-rest :
    (t : Text)
    → (length (read_line t).rest ≤ length t)
      × ((is_nonempty (read_line t).line || (read_line t).more) ≡ true
          → length (read_line t).rest < length t)
unfolding read_line
read_line-rest [] = (omega arith, λ h. cc)
read_line-rest (c ∷ r) =
    let (le, lt) = read_line-rest r in
    elim (Bool-cases (c == newline)) [
      | inl e ↦ rw e (omega arith, λ h. omega arith)
      | inr e ↦ rw e (elim (Bool-cases (c == eof_byte)) [
        | inl f ↦ rw f (omega arith, λ h. omega arith)
        | inr f ↦ rw f (omega arith, λ h. omega arith)
      ])
    ]

counted : (m n : ℕ) → m ≡ n → some m ≡ some n
counted m n e = ap some e

extend_reads :
    (fp : Stream) (m : ℕ)
    → (is_nonempty (read_line fp.rest).line || (read_line fp.rest).more) ≡ true
    → ((k : ℕ) → k < m → (t : Text) × (nth_command k (read_next_command fp).2 ≡ some t))
    → (k : ℕ) → k < suc m
    → (t : Text) × (nth_command k fp ≡ some t)
unfolding nth_command read_next_command
extend_reads fp m e reads zero lt = ((read_line fp.rest).line, rw e refl)
extend_reads fp m e reads (suc k) lt = reads k (omega arith)

-- The fuel of one round more than the file has bytes is enough, and the count `m` is that of the
-- commands that can be read: the reads before the `m`-th succeed and that one fails.
count_commands_lem :
    (fuel : ℕ) (fp : Stream) (n : ℕ)
    → length fp.rest < fuel
    → (m : ℕ) × (count_commands fuel fp n ≡ some (n + m))
      × (nth_command m fp ≡ none)
      × ((k : ℕ) → k < m → (t : Text) × (nth_command k fp ≡ some t))
unfolding count_commands read_next_command nth_command
count_commands_lem zero fp n lt = absurd (omega arith)
count_commands_lem (suc fuel) fp n lt =
    let c = read_line fp.rest in
    elim (Bool-cases (is_nonempty c.line || c.more)) [
      | inr e ↦ (0, rw e (counted n (n + 0) (omega arith)), rw e refl, λ k h. absurd (omega arith))
      | inl e ↦
          let (m, eq, last, reads) =
            count_commands_lem fuel (read_next_command fp).2 (n + 1)
              (omega (arith, (read_line-rest fp.rest).1 e)) in
          (
            suc m,
            rw e (eq ∙ counted (n + 1 + m) (n + suc m) (omega arith)),
            last,
            extend_reads fp m e reads,
          )
    ]

-- The number of commands that `process_initialize` counts is found with one round more than the
-- file has bytes. It is the number of calls of `readNextCommand` that succeed: the call
-- behind it fails, and each call `k` either succeeds or lies at or behind it.
pub count_commands_exact :
    (fp : Stream) (k : ℕ)
    → (m : ℕ) × (count_commands (length fp.rest + 1) fp 0 ≡ some m)
      × (nth_command m fp ≡ none)
      × ((m ≤ k) ⊎ ((t : Text) × (nth_command k fp ≡ some t)))
count_commands_exact fp k =
    let (m, eq, last, reads) = count_commands_lem (length fp.rest + 1) fp 0 (omega arith) in
    (
      m,
      eq ∙ counted (0 + m) m (omega arith),
      last,
      elim (dec_lt k m) [ yes lt ↦ inr (reads k lt) | no ge ↦ inl (omega arith) ],
    )
