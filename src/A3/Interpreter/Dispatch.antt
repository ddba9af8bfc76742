-- ===== src/A3/Interpreter/Dispatch.antt =====
-- `interpreter` of a3/interpreter.c: the choice of the command and the count of its words.
use comp.Prelude.{◌||◌, List, [], ◌∷◌, if◌then◌else◌, length, ltb}
use comp.Prelude.Int.{ℤ, pos, is_minus_one, same_int}
use comp.Prelude.Text.{Text, codes, text_eq}
use comp.Prelude.Run.{Run, fault, done, ◌>>=◌, ◌>>◌}
use comp.A3.Interpreter.{
  Commands, Cmd, file_does_not_exist, too_many_tokens, too_few_tokens, bad_command, error_rm,
  file_creation_error, filesystem_error, strip, strip_words, join_words, call, change, fail,
  status_of, set, print, echo, run_scripts, quit, write, read,
}

module _ {S : Type 0} (cs : Commands S) where
  -- The words behind a command that takes none, one or two: other counts are too many tokens.
  unfoldable pub no_args : Cmd S ℤ → List Text → Cmd S ℤ
  unfolding fail
  no_args run [] = run
  no_args run (a ∷ r) = fail cs too_many_tokens

  unfoldable pub one_arg : (Text → Cmd S ℤ) → List Text → Cmd S ℤ
  unfolding fail
  one_arg run [] = fail cs too_many_tokens
  one_arg run (a ∷ []) = run a
  one_arg run (a ∷ b ∷ r) = fail cs too_many_tokens

  unfoldable pub two_args : (Text → Text → Cmd S ℤ) → List Text → Cmd S ℤ
  unfolding fail
  two_args run [] = fail cs too_many_tokens
  two_args run (a ∷ []) = fail cs too_many_tokens
  two_args run (a ∷ b ∷ []) = run a b
  two_args run (a ∷ b ∷ c ∷ r) = fail cs too_many_tokens

  -- `print` and `run` tell too few words from too many.
  unfoldable pub one_word : (Text → Cmd S ℤ) → List Text → Cmd S ℤ
  unfolding one_arg fail
  one_word run [] = fail cs too_few_tokens
  one_word run (a ∷ r) = one_arg run (a ∷ r)

  unfoldable pub set_args : List Text → Cmd S ℤ
  unfolding set fail
  set_args (var ∷ v ∷ r) = set cs var (v ∷ r)
  set_args _ = fail cs too_few_tokens

  -- The word that `echo` alone does not have is read.
  unfoldable pub echo_args : List Text → Cmd S ℤ
  unfolding echo fail
  echo_args [] = λ s. fault
  echo_args (a ∷ []) = echo cs a
  echo_args (a ∷ b ∷ r) = fail cs too_many_tokens

  unfoldable pub exec_args : List Text → Cmd S ℤ
  unfolding run_scripts fail
  exec_args [] = fail cs too_few_tokens
  exec_args (w ∷ r) =
      if ltb 4 (length (w ∷ r)) then fail cs too_many_tokens else run_scripts cs (w ∷ r)

  unfoldable pub write_args : List Text → Cmd S ℤ
  unfolding write fail
  write_args (fname ∷ w ∷ r) = write cs fname (w ∷ r)
  write_args _ = fail cs too_few_tokens

  unfoldable pub find_args : List Text → Cmd S ℤ
  unfolding fail call join_words
  find_args [] = fail cs too_few_tokens
  find_args (w ∷ r) = call cs (cs.find_file (join_words (w ∷ r))) >> done (pos 0)

  -- `ls`, whose only failure is 1.
  unfoldable pub ls : Cmd S ℤ
  unfolding call fail
  ls = call cs cs.fsutil_ls >>= λ status.
      if same_int status (pos 1) then fail cs filesystem_error else done (pos 0)

  -- `cat` looks for the status 1, and `fsutil_cat` returns -1 or 0.
  unfoldable pub cat : Text → Cmd S ℤ
  unfolding call fail
  cat fname = call cs (cs.fsutil_cat fname) >>= λ status.
      if same_int status (pos 1) then fail cs file_does_not_exist else done (pos 0)

  -- The status of `fsutil_rm` is 1 for success.
  unfoldable pub rm : Text → Cmd S ℤ
  unfolding call fail
  rm fname = call cs (cs.fsutil_rm fname) >>= λ ok. if ok then done (pos 1) else fail cs error_rm

  unfoldable pub create : Text → Text → Cmd S ℤ
  unfolding call fail
  create fname size = call cs (cs.fsutil_create fname (cs.atoi size)) >>= λ ok.
      if ok then done (pos 0) else fail cs file_creation_error

  -- A status of -1 is that there is no such file.
  unfoldable pub found_or : (S → Run S ℤ) → (ℤ → Cmd S ℤ) → Cmd S ℤ
  unfolding call fail
  found_or run next =
      call cs run >>= λ n. if is_minus_one n then fail cs file_does_not_exist else next n

  -- `size` and `seek`.
  unfoldable pub size : Text → Cmd S ℤ
  unfolding found_or change
  size fname =
      found_or (cs.fsutil_size fname) (λ n. change cs (cs.print_file_length n) >> done (pos 0))

  unfoldable pub seek : Text → Text → Cmd S ℤ
  unfolding found_or
  seek fname offset = found_or (cs.fsutil_seek fname (cs.atoi offset)) (λ n. done (pos 0))

  unfoldable pub copy_in : Text → Cmd S ℤ
  unfolding found_or status_of
  copy_in fname = found_or (cs.copy_in fname) (status_of cs)

  unfoldable pub copy_out : Text → Cmd S ℤ
  unfolding call status_of
  copy_out fname = call cs (cs.copy_out fname) >>= status_of cs

  -- A command that reports nothing.
  unfoldable pub silent : (S → Run S (Unit {0})) → Cmd S ℤ
  unfolding call
  silent run = call cs run >> done (pos 0)

  -- The commands on the file system.
  unfoldable pub file_command : Text → List Text → Cmd S ℤ
  unfolding no_args one_arg two_args write_args find_args ls cat rm create read size seek copy_in
      copy_out silent call status_of fail
  file_command w args =
      if text_eq w (codes "ls")
      then no_args ls args
      else if text_eq w (codes "cat")
      then one_arg cat args
      else if text_eq w (codes "rm")
      then one_arg rm args
      else if text_eq w (codes "create")
      then two_args create args
      else if text_eq w (codes "write")
      then write_args args
      else if text_eq w (codes "find_file")
      then find_args args
      else if text_eq w (codes "read")
      then two_args (λ fname n. read cs fname (cs.atoi n)) args
      else if text_eq w (codes "copy_in")
      then one_arg copy_in args
      else if text_eq w (codes "copy_out")
      then one_arg copy_out args
      else if text_eq w (codes "size")
      then one_arg size args
      else if text_eq w (codes "seek")
      then two_args seek args
      else if text_eq w (codes "freespace")
      then no_args (silent cs.fsutil_freespace) args
      else if text_eq w (codes "fragmentation_degree")
      then no_args (silent cs.fragmentation_degree) args
      else if text_eq w (codes "defragment")
      then no_args (call cs cs.defragment >>= status_of cs) args
      else if text_eq w (codes "recover")
      then one_arg (λ flag. silent (cs.recover (cs.atoi flag))) args
      else fail cs bad_command

  unfoldable pub command : Text → List Text → Cmd S ℤ
  unfolding no_args one_word set_args echo_args exec_args print run_scripts quit change file_command
  command w args =
      if text_eq w (codes "help")
      then no_args (change cs cs.print_help >> done (pos 0)) args
      else if text_eq w (codes "quit") || text_eq w (codes "exit")
      then no_args (quit cs) args
      else if text_eq w (codes "set")
      then set_args args
      else if text_eq w (codes "print")
      then one_word (print cs) args
      else if text_eq w (codes "run")
      then one_word (λ script. run_scripts cs (script ∷ [])) args
      else if text_eq w (codes "echo")
      then echo_args args
      else if text_eq w (codes "exec")
      then exec_args args
      else if text_eq w (codes "resetmem")
      then (change cs cs.reset_var_zone >> done (pos 0))
      else file_command w args

  -- `interpreter(command_args, args_size, cwd)`
  unfoldable pub interpreter : List Text → Cmd S ℤ
  unfolding fail strip strip_words command
  interpreter [] = fail cs too_few_tokens
  interpreter (w ∷ r) = command (strip w) (strip_words r)
