-- ===== src/A3/Directory/Names.antt =====
-- The names in the entries of a3/fs/directory.c: what `strncpy` stores in one and `strcmp` finds.
use comp.Prelude.{Bool, true, not, ◌&&◌, [], ◌∷◌, ◌==◌}
use comp.Prelude.Text.{Text}

-- A C string has no null byte before its end.
unfoldable pub no_nul : Text → Bool
no_nul [] = true
no_nul (c ∷ r) = not (c == 0) && no_nul r
