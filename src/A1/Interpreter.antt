-- ===== src/A1/Interpreter.antt =====
-- The commands of a1/interpreter.c and the scripts of `run`. The C library and the system are a
-- parameter; a script calls `parseInput` again, so the depth of scripts that run scripts is fuel.
pub mod Scripts
use comp.Prelude.{
  ℕ, zero, suc, ◌+◌, Bool, true, false, not, ◌&&◌, ◌||◌, Option, none, some, List, [], ◌∷◌, ◌++◌,
  ltb, ◌==◌, if◌then◌else◌, length,
}
use comp.Prelude.Int.{ℤ, pos, negsuc, is_zero}
use comp.Prelude.Text.{Text, codes, text_eq}
use comp.Prelude.Run.{Run, done, exited, fault, out_of_fuel, and_then}
use comp.A2.Interpreter.{strip, has_space, join_words}
use comp.A3.Memory.{Memory}
use comp.A1.Memory.{store_variable, load_variable, not_set}
use comp.A1.Parse.{Split, split, overflow, no_fuel, words}

-- `fopen` of a file to read with its bytes, the status of a command, `stat` with `S_ISDIR`,
-- `chdir` and `remove`.
pub record Host : Type 1 where
  pub World : Type 0
  pub fopen : Text → World → Option Text
  pub system : Text → World → ℤ × World
  pub is_dir : Text → World → Bool
  pub chdir : Text → World → ℤ × World
  pub remove : Text → World → ℤ × World

-- `shellmemory`, the bytes printed, and the rest of the world.
pub record Shell (W : Type 0) : Type 0 where
  pub memory : Memory
  pub printed : Text
  pub world : W

abbrev pub Cmd : Type 0 → Type 0
Cmd W = Shell W → Run (Shell W) ℤ

abbrev pub max_args_size : ℕ
max_args_size = 8

-- The lines of `help_string`; each of its typographic quotes is one code here.
abbrev pub help_string : Text
help_string =
    codes "COMMAND\t\t\tDESCRIPTION\n "
    ++ (codes "help\t\t\tDisplays all the commands\n "
        ++ (codes "quit\t\t\tExits / terminates the shell with “Bye!”\n "
            ++ (codes "set VAR STRING\t\tAssigns a value to shell memory\n "
                ++ (codes "print VAR\t\tDisplays the STRING assigned to VAR\n "
                    ++ codes "run SCRIPT.TXT\t\tExecutes the file SCRIPT.TXT\n "))))

unfoldable pub strip_all : List Text → List Text
unfolding strip
strip_all [] = []
strip_all (w ∷ r) = strip w ∷ strip_all r

-- The bytes that `my_cat` prints: `char pointer` takes the byte 255 for EOF.
unfoldable pub until_eof : Text → Text
until_eof [] = []
until_eof (c ∷ r) = let rest = c ∷ until_eof r in if c == 255 then [] else rest

-- The value that `echo` prints of a variable.
abbrev pub shown : Text → Text
shown value = if text_eq value not_set then [] else value

module _ {W : Type 0} where
  -- `printf("%s\n", t)`, then a return.
  unfoldable pub say : Text → ℤ → Cmd W
  say t code s = done code (record s { printed = s.printed ++ (t ++ (10 ∷ [])) })

  unfoldable pub badcommand : Cmd W
  unfolding say
  badcommand = say (codes "Unknown Command") (pos 1)

  unfoldable pub bad_command_file_does_not_exist : Cmd W
  unfolding say
  bad_command_file_does_not_exist = say (codes "Bad command: File not found") (pos 3)

  unfoldable pub help : Cmd W
  unfolding say
  help = say help_string (pos 0)

  unfoldable pub quit : Cmd W
  unfolding say
  quit s = and_then (say (codes "Bye!") (pos 0) s) (λ code s'. exited s')

  unfoldable pub set_command : Text → Text → Cmd W
  set_command var value s = done (pos 0) (record s { memory = store_variable var value s.memory })

  unfoldable pub print : Text → Cmd W
  unfolding say
  print var s = say (load_variable var s.memory) (pos 0) s

  unfoldable pub echo : Text → Cmd W
  unfolding say
  echo [] s = say [] (pos 0) s
  echo (c ∷ var) s =
      if c == b'$'
      then say (shown (load_variable var s.memory)) (pos 0) s
      else say (c ∷ var) (pos 0) s

  -- The name that is given, or the value of the variable behind `$` if it has no blank; if it
  -- has, the message of the command and -1.
  unfoldable pub with_name : Text → Text → (Text → Cmd W) → Cmd W
  unfolding say has_space
  with_name command [] use_name s = use_name [] s
  with_name command (c ∷ var) use_name s =
      if c == b'$'
      then (if has_space (load_variable var s.memory)
          then say (codes "Bad command: " ++ command) (negsuc 0) s
          else use_name (load_variable var s.memory) s)
      else use_name (c ∷ var) s

module _ (h : Host) where
  open h use {World, fopen, system, is_dir, chdir, remove}

  unfoldable pub run_system : Text → Cmd World
  run_system command s =
      let (code, w) = system command s.world in done code (record s { world = w })

  unfoldable pub my_mkdir : Text → Cmd World
  unfolding run_system with_name
  my_mkdir dirname = with_name (codes "my_mkdir") dirname (λ d. run_system (codes "mkdir " ++ d))

  unfoldable pub my_ls : Cmd World
  unfolding run_system
  my_ls = run_system (codes "ls | sort")

  -- `perror` prints to the standard error stream.
  unfoldable pub my_cd : Text → Cmd World
  unfolding say
  my_cd dirname s =
      let (code, w) = chdir dirname s.world in
      if is_dir dirname s.world
      then (if is_zero code
          then done (pos 0) (record s { world = w })
          else done (negsuc 0) (record s { world = w }))
      else say (codes "Bad command: my_cd") (pos 2) s

  -- `char command[106]` has room for a name of 99 bytes.
  unfoldable pub my_touch : Text → Cmd World
  unfolding run_system with_name
  my_touch filename =
      with_name (codes "my_touch") filename
        (λ f s. if ltb 99 (length f) then fault else run_system (codes "touch " ++ f) s)

  unfoldable pub my_cat : Text → Cmd World
  unfolding say until_eof
  my_cat filename s = elim (fopen filename s.world) as (λ _. Run (Shell World) ℤ) [
    | none ↦ say (codes "Bad command: my_cat") (pos 0) s
    | some text ↦ done (pos 1) (record s { printed = s.printed ++ until_eof text })
  ]

  unfoldable pub my_delete : Text → Cmd World
  unfolding say with_name
  my_delete filename = with_name (codes "my_delete") filename (λ f s.
      let (code, w) = remove f s.world in
      let after = record s { world = w } in
      if is_zero code
      then done (pos 1) after
      else say (codes "Bad command: my_delete") (pos 0) after)

  module _ (no_return : ℤ) (run : Text → Cmd World) where
    -- `set` with the words behind it. Where it refuses them the function ends without a return.
    unfoldable pub set_args : List Text → Cmd World
    unfolding set_command say join_words
    set_args (var ∷ v ∷ r) =
        if ltb 4 (length r)
        then say (codes "Bad command: set") no_return
        else set_command var (join_words (v ∷ r))
    set_args _ = say (codes "Bad command: set") no_return

    -- A command without words behind it.
    unfoldable pub no_arg : List Text → Cmd World → Cmd World
    unfolding badcommand
    no_arg [] c = c
    no_arg (a ∷ r) c = badcommand

    unfoldable pub one_arg : List Text → (Text → Cmd World) → Cmd World
    unfolding badcommand
    one_arg (a ∷ []) c = c a
    one_arg _ c = badcommand

    -- `args_size > 2` only is refused: without a word `command_args[1]` is not initialised.
    unfoldable pub arg_unchecked : List Text → (Text → Cmd World) → Cmd World
    unfolding badcommand
    arg_unchecked [] c = λ s. fault
    arg_unchecked (a ∷ []) c = c a
    arg_unchecked (a ∷ b ∷ r) c = badcommand

    -- The chain of `strcmp` tests.
    unfoldable pub dispatch : Text → List Text → Cmd World
    unfolding set_args no_arg one_arg arg_unchecked help quit print echo my_mkdir my_ls my_cd
        my_touch my_cat my_delete badcommand
    dispatch command rest =
        if text_eq command (codes "help")
        then no_arg rest help
        else if text_eq command (codes "quit")
        then no_arg rest quit
        else if text_eq command (codes "set")
        then set_args rest
        else if text_eq command (codes "print")
        then one_arg rest print
        else if text_eq command (codes "echo")
        then one_arg rest echo
        else if text_eq command (codes "my_mkdir")
        then arg_unchecked rest my_mkdir
        else if text_eq command (codes "my_ls")
        then no_arg rest my_ls
        else if text_eq command (codes "my_cd")
        then arg_unchecked rest my_cd
        else if text_eq command (codes "my_touch")
        then one_arg rest my_touch
        else if text_eq command (codes "my_cat")
        then one_arg rest my_cat
        else if text_eq command (codes "my_delete")
        then one_arg rest my_delete
        else if text_eq command (codes "run")
        then one_arg rest run
        else badcommand

    unfoldable pub interpreter : List Text → Cmd World
    unfolding dispatch badcommand strip_all
    interpreter [] = badcommand
    interpreter (command ∷ rest) =
        if ltb max_args_size (length (command ∷ rest))
        then badcommand
        else dispatch (strip command) (strip_all rest)

    -- The call at the end of `parseInput`; a line has at most 999 bytes.
    unfoldable pub parse_input : Text → Cmd World
    unfolding interpreter words
    parse_input ui s = elim (words ui) as (λ _. Run (Shell World) ℤ) [
      | split ws ↦ interpreter ws s
      | overflow ↦ fault
      | no_fuel ↦ out_of_fuel
    ]
