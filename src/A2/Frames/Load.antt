-- ===== src/A2/Frames/Load.antt =====
-- What a frame holds after `loadFrame` of a2/shellmemory.c: the next commands of the file.
use comp.Prelude.{
  ℕ, zero, suc, ◌+◌, ◌<◌, ◌≡◌, refl, ◌∙◌, Option, none, some, List, [], ◌∷◌, arith, length, set,
  Bool-cases, inl, inr, length-set, if◌then◌else◌, ap,
}
use comp.Prelude.Text.{Text}
use comp.A2.Stream.{Stream, read_next_command}
use comp.A2.Frames.{load_lines, line_at, remove_whitespace}

-- The command that the `n`-th call of `readNextCommand` from here on reads, if it succeeds.
unfoldable pub nth_command : ℕ → Stream → Option Text
nth_command zero fp =
    let (more, command, fp') = read_next_command fp in if more then some command else none
nth_command (suc n) fp = nth_command n (read_next_command fp).2

line_at-set_self :
    (lines : List (Option Text)) (i : ℕ) (v : Option Text)
    → i < length lines
    → line_at (set lines i v) i ≡ v
line_at-set_self [] i v h = absurd (omega arith)
line_at-set_self (x ∷ r) zero v h = refl
line_at-set_self (x ∷ r) (suc i) v h = line_at-set_self r i v (omega arith)

line_at-set_ne :
    (lines : List (Option Text)) (i j : ℕ) (v : Option Text)
    → j < i
    → line_at (set lines i v) j ≡ line_at lines j
line_at-set_ne [] i j v h = refl
line_at-set_ne (x ∷ r) zero j v h = absurd (omega arith)
line_at-set_ne (x ∷ r) (suc i) zero v h = refl
line_at-set_ne (x ∷ r) (suc i) (suc j) v h = line_at-set_ne r i j v (omega arith)

-- The lines before the first one that is read into stay.
load_lines-before :
    (stale : ℕ → Text → Text) (n i j : ℕ) (lines : List (Option Text)) (fp : Stream)
    → j < i
    → line_at (load_lines stale n i lines fp).0 j ≡ line_at lines j
unfolding load_lines
load_lines-before stale zero i j lines fp h = refl
load_lines-before stale (suc n) i j lines fp h =
    let (more, command, fp') = read_next_command fp in
    let v = some (stale i (remove_whitespace command)) in
    elim (Bool-cases more) [
      | inl e ↦
          rw (e, load_lines)
            (load_lines-before stale n (i + 1) j (set lines i v) fp' (omega arith)
              ∙ line_at-set_ne lines i j v h)
      | inr e ↦ rw (e, load_lines) (load_lines-before stale n (i + 1) j lines fp' (omega arith))
    ]

-- Slot `i + k` gets what is read of the `k`-th command of the file position, stripped of leading
-- blanks.
pub load_lines-nth :
    (stale : ℕ → Text → Text) (n i k : ℕ) (lines : List (Option Text)) (fp : Stream) {t : Text}
    → k < n
    → i + k < length lines
    → nth_command k fp ≡ some t
    → line_at (load_lines stale n i lines fp).0 (i + k) ≡ some (stale (i + k) (remove_whitespace t))
unfolding load_lines nth_command
load_lines-nth stale zero i k lines fp lt room e = absurd (omega arith)
load_lines-nth stale (suc n) i zero lines fp {t} lt room e =
    let (more, command, fp') = read_next_command fp in
    let v = some (stale i (remove_whitespace command)) in
    elim (Bool-cases more) [
      | inl m ↦
          let same : command ≡ t = ground arith in
          let slot : i + 0 ≡ i = omega arith in
          rw (slot, m, load_lines)
            (load_lines-before stale n (i + 1) i (set lines i v) fp' (omega arith)
              ∙ line_at-set_self lines i v (omega arith)
              ∙ ap (λ c. some (stale i (remove_whitespace c))) same)
      | inr m ↦ absurd (ground arith)
    ]
load_lines-nth stale (suc n) i (suc k) lines fp {t} lt room e =
    let (more, command, fp') = read_next_command fp in
    let slot : i + suc k ≡ (i + 1) + k = omega arith in
    rw slot (
      load_lines-nth stale n (i + 1) k
        (if more then set lines i (some (stale i (remove_whitespace command))) else lines) fp'
        (omega arith)
        (ground (arith, length-set lines i (some (stale i (remove_whitespace command))))) e)
