-- ===== src/A2/Stream.antt =====
-- Files that the second shell reads by lines: `readNextCommand` of a2/shell.c and `rewind`.
use comp.Prelude.{ℕ, Bool, true, false, ◌||◌, [], ◌∷◌, if◌then◌else◌, ◌==◌}
use comp.Prelude.Text.{Text}

-- A `FILE*`: the bytes of the file, and those from the file position on.
pub record Stream : Type 0 where
  pub content : Text
  pub rest : Text

pub record Command : Type 0 where
  pub more : Bool
  pub line : Text
  pub rest : Text

abbrev pub newline : ℕ
newline = 10

-- `char c = fgetc(fp)`: the byte 255 compares equal to `EOF`.
abbrev pub eof_byte : ℕ
eof_byte = 255

-- What the loop `while ((c = fgetc(fp)) != '\n' && c != EOF)` reads; `more` says that it ended
-- at a newline.
unfoldable pub read_line : Text → Command
read_line [] = record { more = false; line = []; rest = [] }
read_line (c ∷ r) =
    let next = read_line r in
    if c == newline
    then record { more = true; line = []; rest = r }
    else if c == eof_byte
    then record { more = false; line = []; rest = r }
    else record { more = next.more; line = c ∷ next.line; rest = next.rest }

abbrev pub is_nonempty : Text → Bool
is_nonempty [] = false
is_nonempty (c ∷ r) = true

-- `readNextCommand`: the result `i > 0 || c != EOF`, the line in `command`, and the file left.
unfoldable pub read_next_command : Stream → Bool × Text × Stream
unfolding read_line
read_next_command fp =
    let c = read_line fp.rest in (is_nonempty c.line || c.more, c.line, record fp { rest = c.rest })

unfoldable pub rewind : Stream → Stream
rewind fp = record fp { rest = fp.content }

-- `fopen` at the start of a file.
unfoldable pub fopen_at_start : Text → Stream
fopen_at_start text = record { content = text; rest = text }
