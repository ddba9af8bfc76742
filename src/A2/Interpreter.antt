-- ===== src/A2/Interpreter.antt =====
-- The commands of a2/interpreter.c. `schedule` is `schedule_by_policy`, which A2/System passes in.
pub mod Errors
use comp.Prelude.{
  ℕ, zero, suc, ◌<◌, Bool, true, false, not, ◌&&◌, ◌||◌, Option, none, some, List, [], ◌∷◌, ◌++◌,
  ltb, ◌==◌, if◌then◌else◌, get_elem?, prepend, length,
}
use comp.Prelude.Int.{ℤ, pos, negsuc, is_zero}
use comp.Prelude.Text.{Text, codes, text_eq}
use comp.Prelude.Run.{Run, done, exited, fault, and_then, ◌>>=◌, ◌>>◌, pure}
use comp.A2.Vars.{Lookup, found, missing, bad_read, mem_get_value, mem_set_value, resetmem}
use comp.A2.State.{Host, Shell, Cmd, Event, puts, help_text, print_line}
use comp.A2.Process.{process_initialize}

-- `char *words[100]`, and the strings that it points to.
abbrev pub Words : Type 0
Words = List (Option Text)

-- `enum Error`, the values that are used.
abbrev pub too_many_tokens : ℕ
too_many_tokens = 6

abbrev pub too_few_tokens : ℕ
too_few_tokens = 7

abbrev pub bad_command : ℕ
bad_command = 9

abbrev pub error_cd : ℕ
error_cd = 10

abbrev pub error_mkdir : ℕ
error_mkdir = 11

abbrev pub max_args_size : ℕ
max_args_size = 7

abbrev pub error_msgs : List Text
error_msgs =
    codes "no error"
    ∷ codes "file does not exist"
    ∷ codes "file could not be loaded"
    ∷ codes "no space left in shell memory"
    ∷ codes "ready queue is full"
    ∷ codes "scheduling policy error"
    ∷ codes "too many tokens"
    ∷ codes "too few tokens"
    ∷ codes "non-alphanumeric token"
    ∷ codes "unknown name"
    ∷ codes "cd"
    ∷ codes "mkdir"
    ∷ codes "load frame error"
    ∷ []

-- The string up to the first carriage return or newline.
unfoldable pub strip : Text → Text
strip [] = []
strip (c ∷ r) = let rest = c ∷ strip r in if c == 13 || c == 10 then [] else rest

-- The loop that strips the first `n` words in place.
unfoldable pub strip_words : ℕ → Words → Words
unfolding strip
strip_words zero ws = ws
strip_words (suc n) [] = []
strip_words (suc n) (none ∷ r) = none ∷ strip_words n r
strip_words (suc n) (some t ∷ r) = some (strip t) ∷ strip_words n r

-- The first `n` words; `none` if one of them is `NULL` or not there.
unfoldable pub take_args : ℕ → Words → Option (List Text)
take_args zero ws = some []
take_args (suc n) [] = none
take_args (suc n) (none ∷ r) = none
take_args (suc n) (some t ∷ r) = prepend t (take_args n r)

-- The value of `set`: words joined by a space.
unfoldable pub join_words : List Text → Text
join_words [] = []
join_words (w ∷ []) = w
join_words (w ∷ v ∷ r) = w ++ (b' ' ∷ join_words (v ∷ r))

unfoldable pub has_space : Text → Bool
has_space [] = false
has_space (c ∷ r) = c == b' ' || has_space r

module _ {W : Type 0} where
  -- `handle_error`: `error_msgs` is read at the code, which faults outside the table.
  unfoldable pub handle_error : ℤ → Cmd W ℤ
  unfolding print_line
  handle_error (negsuc n) s = fault
  handle_error (pos code) s = elim (get_elem? error_msgs code) as (λ _. Run (Shell W) ℤ) [
    | none ↦ fault
    | some msg ↦ (print_line (codes "Bad command: " ++ msg) >> done (pos code)) s
  ]

  unfoldable pub help : Cmd W ℤ
  help s = done (pos 0) (record s { printed = s.printed ++ (help_text ∷ []) })

  unfoldable pub set_var : Text → Text → Cmd W ℤ
  set_var var value s = done (pos 0) (record s { vars = mem_set_value var value s.vars })

  unfoldable pub print : Text → Cmd W ℤ
  unfolding print_line
  print var s = elim (mem_get_value var s.vars) as (λ _. Run (Shell W) ℤ) [
    | bad_read ↦ fault
    | missing ↦ (print_line (10 ∷ []) >> done (pos 0)) s
    | found value ↦ (print_line value >> done (pos 0)) s
  ]

  unfoldable pub echo : Option Text → Cmd W ℤ
  unfolding print print_line
  echo none = λ s. fault
  echo (some []) = print_line [] >> done (pos 0)
  echo (some (c ∷ r)) =
      if c == b'$' then (print r >> done (pos 0)) else (print_line (c ∷ r) >> done (pos 0))

  unfoldable pub reset : Cmd W ℤ
  reset s = done (pos 0) (record s { vars = resetmem s.vars })

-- `errCode == 11`
abbrev pub is_missing : ℤ → Bool
is_missing (pos code) = code == 11
is_missing (negsuc n) = false

module _ (h : Host) where
  open h use {World, system, is_dir, chdir}

  unfoldable pub run_system : Text → Cmd World ℤ
  run_system command s =
      let (code, w) = system command s.world in done code (record s { world = w })

  unfoldable pub quit : Cmd World ℤ
  unfolding run_system print_line
  quit s =
      and_then ((print_line (codes "Bye!") >> run_system (codes "rm -rf backing_store")) s)
        (λ code t. exited t)

  unfoldable pub my_ls : Cmd World ℤ
  unfolding run_system
  my_ls = run_system (codes "ls | sort")

  -- The directory that is named, or the value of the variable behind `$`.
  unfoldable pub my_mkdir : Option Text → Cmd World ℤ
  unfolding run_system handle_error
  my_mkdir none s = fault
  my_mkdir (some []) s = run_system (codes "mkdir ") s
  my_mkdir (some (c ∷ r)) s =
      if c == b'$'
      then elim (mem_get_value r s.vars) as (λ _. Run (Shell World) ℤ) [
        | bad_read ↦ fault
        | missing ↦ handle_error (pos error_mkdir) s
        | found value ↦
            if has_space value
            then handle_error (pos error_mkdir) s
            else run_system (codes "mkdir " ++ value) s
      ]
      else run_system (codes "mkdir " ++ (c ∷ r)) s

  unfoldable pub my_touch : Option Text → Cmd World ℤ
  unfolding run_system
  my_touch none s = fault
  my_touch (some filename) s = run_system (codes "touch " ++ filename) s

  -- `stat` of a `NULL` path fails.
  unfoldable pub my_cd : Option Text → Cmd World ℤ
  unfolding handle_error
  my_cd none s = handle_error (pos error_cd) s
  my_cd (some dirname) s =
      let (code, w) = chdir dirname s.world in
      if is_dir dirname s.world
      then done code (record s { world = w })
      else handle_error (pos error_cd) s

  module _ (schedule : Text → Cmd World ℤ) where
    unfoldable pub run : Text → Cmd World ℤ
    unfolding handle_error
    run script = do
      code ← process_initialize h script 1
      if is_missing code then handle_error code else (schedule (codes "FCFS") >> done code)

    -- One of the three scripts of `exec`, then the rest of it.
    unfoldable pub exec_script : Option Text → ℕ → Cmd World ℤ → Cmd World ℤ
    unfolding handle_error
    exec_script none id next = next
    exec_script (some fname) id next = do
      code ← process_initialize h fname id
      if is_zero code then next else handle_error code

    -- `exec` has no `return` for success: the value here is that of `error_code`.
    unfoldable pub exec : Option Text → Option Text → Option Text → Cmd World ℤ
    unfolding exec_script handle_error
    exec fname1 fname2 fname3 = exec_script fname1 1 (
        exec_script fname2 2 (
          exec_script fname3 3 (
            schedule (codes "RR") >>= λ code.
            if is_zero code then done code else handle_error code)))

    -- `exec` with the words behind it: with five words in all no branch is taken.
    unfoldable pub exec_args : List Text → Cmd World ℤ
    unfolding exec handle_error
    exec_args [] = handle_error (pos too_few_tokens)
    exec_args (f1 ∷ []) = exec (some f1) none none
    exec_args (f1 ∷ f2 ∷ []) = exec (some f1) (some f2) none
    exec_args (f1 ∷ f2 ∷ f3 ∷ []) = exec (some f1) (some f2) (some f3)
    exec_args (f1 ∷ f2 ∷ f3 ∷ f4 ∷ []) = handle_error (pos bad_command)
    exec_args (f1 ∷ f2 ∷ f3 ∷ f4 ∷ f5 ∷ r) = handle_error (pos too_many_tokens)

    -- `set` with the words behind it.
    unfoldable pub set_args : List Text → Cmd World ℤ
    unfolding set_var handle_error join_words
    set_args (var ∷ v ∷ r) = set_var var (join_words (v ∷ r))
    set_args _ = handle_error (pos too_few_tokens)

    -- `print` or `run` with the words behind it.
    unfoldable pub one_arg : (Text → Cmd World ℤ) → List Text → Cmd World ℤ
    unfolding handle_error
    one_arg run (a ∷ []) = run a
    one_arg run [] = handle_error (pos too_few_tokens)
    one_arg run (a ∷ b ∷ r) = handle_error (pos too_many_tokens)

    -- A command that refuses more than `n` words behind it.
    unfoldable pub at_most : ℕ → List Text → Cmd World ℤ → Cmd World ℤ
    unfolding handle_error
    at_most n rest run = if ltb n (length rest) then handle_error (pos too_many_tokens) else run

    -- The chain of `strcmp` tests on `command_args[0]`. `arg1` is `command_args[1]`, which some
    -- commands read also where it is no word of this command.
    unfoldable pub dispatch : Text → List Text → Option Text → Cmd World ℤ
    unfolding help quit set_args one_arg at_most print run echo my_ls my_mkdir my_touch my_cd reset
        exec_args handle_error
    dispatch command rest arg1 =
        if text_eq command (codes "help")
        then at_most 0 rest help
        else if text_eq command (codes "quit") || text_eq command (codes "exit")
        then at_most 0 rest quit
        else if text_eq command (codes "set")
        then set_args rest
        else if text_eq command (codes "print")
        then one_arg print rest
        else if text_eq command (codes "run")
        then one_arg run rest
        else if text_eq command (codes "echo")
        then at_most 1 rest (echo arg1)
        else if text_eq command (codes "my_ls")
        then at_most 0 rest my_ls
        else if text_eq command (codes "my_mkdir")
        then at_most 1 rest (my_mkdir arg1)
        else if text_eq command (codes "my_touch")
        then at_most 1 rest (my_touch arg1)
        else if text_eq command (codes "my_cd")
        then at_most 1 rest (my_cd arg1)
        else if text_eq command (codes "resetmem")
        then at_most 0 rest reset
        else if text_eq command (codes "exec")
        then exec_args rest
        else handle_error (pos bad_command)

    -- `words[1]` after the words of the command are stripped.
    abbrev pub second_word : Words → Option Text
    second_word [] = none
    second_word (w ∷ []) = none
    second_word (w ∷ v ∷ r) = v

    unfoldable pub interpreter : Words → ℕ → Cmd World ℤ
    unfolding dispatch strip_words take_args handle_error
    interpreter words args_size s =
        if ltb args_size 1
        then handle_error (pos too_few_tokens) s
        else if ltb max_args_size args_size
        then handle_error (pos too_many_tokens) s
        else (let stripped = strip_words args_size words in
            elim (take_args args_size stripped) as (λ _. Run (Shell World) ℤ) [
              | none ↦ fault
              | some [] ↦ fault
              | some (command ∷ rest) ↦ dispatch command rest (second_word stripped) s
            ])
