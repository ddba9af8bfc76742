-- ===== src/A3/Interpreter/Arity.antt =====
-- The counts of words that `interpreter` of a3/interpreter.c asks for.
use comp.Prelude.{ℕ, suc, ◌≡◌, ◌≢◌, ◌∙◌, refl, sym, ap, List, [], ◌∷◌, length}
use comp.Prelude.Int.{ℤ, pos}
use comp.Prelude.Text.{Text, codes, text_eq}
use comp.Prelude.Run.{done}
use comp.A3.Interpreter.{
  Commands, Session, Cmd, too_many_tokens, change, handle_error, fail, strip, strip_words,
}
use comp.A3.Interpreter.Dispatch.{no_args, one_arg, two_args, command, file_command, interpreter}

-- The commands whose only test of the count of words is `!=`, which answers TOO_MANY_TOKENS.
pub data Exact : Type 0 where
  help_command : Exact
  quit_command : Exact
  exit_command : Exact
  ls_command : Exact
  cat_command : Exact
  rm_command : Exact
  create_command : Exact
  read_command : Exact
  copy_in_command : Exact
  copy_out_command : Exact
  size_command : Exact
  seek_command : Exact
  freespace_command : Exact
  fragmentation_degree_command : Exact
  defragment_command : Exact
  recover_command : Exact

unfoldable pub word_of : Exact → Text
word_of help_command = codes "help"
word_of quit_command = codes "quit"
word_of exit_command = codes "exit"
word_of ls_command = codes "ls"
word_of cat_command = codes "cat"
word_of rm_command = codes "rm"
word_of create_command = codes "create"
word_of read_command = codes "read"
word_of copy_in_command = codes "copy_in"
word_of copy_out_command = codes "copy_out"
word_of size_command = codes "size"
word_of seek_command = codes "seek"
word_of freespace_command = codes "freespace"
word_of fragmentation_degree_command = codes "fragmentation_degree"
word_of defragment_command = codes "defragment"
word_of recover_command = codes "recover"

unfoldable pub count_of : Exact → ℕ
count_of help_command = 0
count_of quit_command = 0
count_of exit_command = 0
count_of ls_command = 0
count_of cat_command = 1
count_of rm_command = 1
count_of create_command = 2
count_of read_command = 2
count_of copy_in_command = 1
count_of copy_out_command = 1
count_of size_command = 1
count_of seek_command = 2
count_of freespace_command = 0
count_of fragmentation_degree_command = 0
count_of defragment_command = 0
count_of recover_command = 1

strip-word_of : (c : Exact) → strip (word_of c) ≡ word_of c
unfolding strip word_of
strip-word_of help_command = refl
strip-word_of quit_command = refl
strip-word_of exit_command = refl
strip-word_of ls_command = refl
strip-word_of cat_command = refl
strip-word_of rm_command = refl
strip-word_of create_command = refl
strip-word_of read_command = refl
strip-word_of copy_in_command = refl
strip-word_of copy_out_command = refl
strip-word_of size_command = refl
strip-word_of seek_command = refl
strip-word_of freespace_command = refl
strip-word_of fragmentation_degree_command = refl
strip-word_of defragment_command = refl
strip-word_of recover_command = refl

length-strip_words : (ws : List Text) → length (strip_words ws) ≡ length ws
unfolding strip_words
length-strip_words [] = refl
length-strip_words (w ∷ r) = ap suc (length-strip_words r)

module _ {S : Type 0} (cs : Commands S) where
  -- What a command with too many tokens does: it prints the message.
  unfoldable pub refused : Cmd S ℤ
  refused s =
      done (pos too_many_tokens)
        (record s { under = cs.print_line (codes "Bad command: too many tokens") s.under })

  fail-refused : (s : Session S) → fail cs too_many_tokens s ≡ refused s
  unfolding fail handle_error change refused
  fail-refused s = refl

  no_args-refused :
      (run : Cmd S ℤ) (args : List Text) (s : Session S)
      → length args ≢ 0
      → no_args cs run args s ≡ refused s
  unfolding no_args
  no_args-refused run [] s h = absurd (h refl)
  no_args-refused run (a ∷ r) s h = fail-refused s

  one_arg-refused :
      (run : Text → Cmd S ℤ) (args : List Text) (s : Session S)
      → length args ≢ 1
      → one_arg cs run args s ≡ refused s
  unfolding one_arg
  one_arg-refused run [] s h = fail-refused s
  one_arg-refused run (a ∷ []) s h = absurd (h refl)
  one_arg-refused run (a ∷ b ∷ r) s h = fail-refused s

  two_args-refused :
      (run : Text → Text → Cmd S ℤ) (args : List Text) (s : Session S)
      → length args ≢ 2
      → two_args cs run args s ≡ refused s
  unfolding two_args
  two_args-refused run [] s h = fail-refused s
  two_args-refused run (a ∷ []) s h = fail-refused s
  two_args-refused run (a ∷ b ∷ []) s h = absurd (h refl)
  two_args-refused run (a ∷ b ∷ c ∷ r) s h = fail-refused s

  command-refused :
      (c : Exact) (args : List Text) (s : Session S)
      → length args ≢ count_of c
      → command cs (word_of c) args s ≡ refused s
  unfolding command file_command text_eq word_of count_of
  command-refused help_command args s h = no_args-refused _ args s h
  command-refused quit_command args s h = no_args-refused _ args s h
  command-refused exit_command args s h = no_args-refused _ args s h
  command-refused ls_command args s h = no_args-refused _ args s h
  command-refused cat_command args s h = one_arg-refused _ args s h
  command-refused rm_command args s h = one_arg-refused _ args s h
  command-refused create_command args s h = two_args-refused _ args s h
  command-refused read_command args s h = two_args-refused _ args s h
  command-refused copy_in_command args s h = one_arg-refused _ args s h
  command-refused copy_out_command args s h = one_arg-refused _ args s h
  command-refused size_command args s h = one_arg-refused _ args s h
  command-refused seek_command args s h = two_args-refused _ args s h
  command-refused freespace_command args s h = no_args-refused _ args s h
  command-refused fragmentation_degree_command args s h = no_args-refused _ args s h
  command-refused defragment_command args s h = no_args-refused _ args s h
  command-refused recover_command args s h = one_arg-refused _ args s h

  -- Of help, quit, exit, ls, cat, rm, create, read, copy_in, copy_out, size, seek, freespace,
  -- fragmentation_degree, defragment and recover, with another count of words than the one they take,
  -- fewer or more: `interpreter` returns TOO_MANY_TOKENS, prints its message and changes nothing else.
  pub interpreter-refused :
      (c : Exact) (args : List Text) (s : Session S)
      → length args ≢ count_of c
      → interpreter cs (word_of c ∷ args) s ≡ refused s
  unfolding interpreter
  interpreter-refused c args s h =
      let n = length-strip_words args in
      ap (λ w. command cs w (strip_words args) s) (strip-word_of c)
      ∙ command-refused c (strip_words args) s (λ e. h (sym n ∙ e))
