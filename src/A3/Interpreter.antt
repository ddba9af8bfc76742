-- ===== src/A3/Interpreter.antt =====
-- The commands of a3/interpreter.c. What they call in the kernel, the shell memory and the file
-- system, and the host's `system`, `atoi` and `printf`, is the interface `Commands`.
pub mod Dispatch
pub mod Arity
use comp.Prelude.{
  ℕ, zero, suc, ◌+◌, ◌-◌, Bool, true, false, not, ◌&&◌, ◌||◌, Option, none, some, List, [], ◌∷◌,
  ◌++◌, ◌==◌, ltb, leb, if◌then◌else◌, length, get_elem?, replicate,
}
use comp.Prelude.Int.{ℤ, pos, negsuc, is_zero, is_minus_one, same_int}
use comp.Prelude.Text.{Text, codes, text_eq}
use comp.Prelude.Run.{Run, done, exited, fault, out_of_fuel, and_then, ◌>>=◌, ◌>>◌, pure}
use comp.A3.Bytes.{Bytes}

-- What the commands call.
pub record Commands (S : Type 0) : Type 1 where
  pub print_line : Text → S → S
  -- The text of `help`.
  pub print_help : S → S
  pub mem_set_value : Text → Text → S → S
  -- `true` for 'p', `false` for 'e'
  pub mem_get_value : Text → Bool → S → Text
  pub reset_var_zone : S → S
  -- `cp` into the backing store, and its removal without and with a new one.
  pub copy_script : Text → S → S
  pub remove_store : S → S
  pub renew_store : S → S
  pub atoi : Text → ℤ
  pub new_proc : Text → S → Run S ℤ
  pub run_proc_rr : S → Run S ℤ
  pub filesys_done : S → Run S (Unit {0})
  pub fsutil_ls : S → Run S ℤ
  pub fsutil_cat : Text → S → Run S ℤ
  pub fsutil_rm : Text → S → Run S Bool
  pub fsutil_create : Text → ℤ → S → Run S Bool
  pub fsutil_write : Text → Bytes → S → Run S ℤ
  -- The warning of `write`: the bytes that were written, of how many.
  pub print_short_write : ℤ → ℕ → S → S
  -- `printf` of "File length: %d"
  pub print_file_length : ℤ → S → S
  pub fsutil_read : Text → ℤ → S → Run S (ℤ × Text)
  pub fsutil_size : Text → S → Run S ℤ
  pub fsutil_seek : Text → ℤ → S → Run S ℤ
  pub fsutil_freespace : S → Run S (Unit {0})
  pub copy_in : Text → S → Run S ℤ
  pub copy_out : Text → S → Run S ℤ
  pub find_file : Text → S → Run S (Unit {0})
  pub fragmentation_degree : S → Run S (Unit {0})
  pub defragment : S → Run S ℤ
  pub recover : ℤ → S → Run S (Unit {0})

-- `new_name_count`, and the state of the rest.
pub record Session (S : Type 0) : Type 0 where
  pub new_name_count : ℕ
  pub under : S

abbrev pub Cmd : Type 0 → Type 0 → Type 0
Cmd S A = Session S → Run (Session S) A

-- `enum Error`, the values that are used.
abbrev pub file_does_not_exist : ℕ
file_does_not_exist = 0

abbrev pub too_many_tokens : ℕ
too_many_tokens = 4

abbrev pub too_few_tokens : ℕ
too_few_tokens = 5

abbrev pub non_alphanumeric_token : ℕ
non_alphanumeric_token = 6

abbrev pub bad_command : ℕ
bad_command = 7

abbrev pub error_rm : ℕ
error_rm = 8

abbrev pub file_creation_error : ℕ
file_creation_error = 9

abbrev pub filesystem_error : ℕ
filesystem_error = 10

abbrev pub file_write_error : ℕ
file_write_error = 11

abbrev pub file_read_error : ℕ
file_read_error = 12

abbrev pub error_msgs : List Text
error_msgs =
    codes "file does not exist"
    ∷ codes "no space left in shell memory"
    ∷ codes "ready queue is full"
    ∷ codes "scheduling policy error"
    ∷ codes "too many tokens"
    ∷ codes "too few tokens"
    ∷ codes "non-alphanumeric token"
    ∷ codes "unknown name"
    ∷ codes "rm"
    ∷ codes "file could not be created"
    ∷ codes "bad filesystem"
    ∷ codes "file could not be written (maybe no space?)"
    ∷ codes "file could not be read"
    ∷ []

-- The word up to the first carriage return or newline.
unfoldable pub strip : Text → Text
strip [] = []
strip (c ∷ r) = let rest = c ∷ strip r in if c == 13 || c == 10 then [] else rest

unfoldable pub strip_words : List Text → List Text
unfolding strip
strip_words [] = []
strip_words (w ∷ r) = strip w ∷ strip_words r

unfoldable pub join_words : List Text → Text
join_words [] = []
join_words (w ∷ []) = w
join_words (w ∷ v ∷ r) = w ++ (b' ' ∷ join_words (v ∷ r))

-- `isalnum` in the C locale
unfoldable pub is_alnum : ℕ → Bool
is_alnum c = (leb 48 c && leb c 57) || (leb 65 c && leb c 90) || (leb 97 c && leb c 122)

unfoldable pub all_alnum : Text → Bool
unfolding is_alnum
all_alnum [] = true
all_alnum (c ∷ r) = is_alnum c && all_alnum r

-- `isAlphaNumStr`
unfoldable pub is_alpha_num_str : Text → Bool
unfolding all_alnum
is_alpha_num_str [] = false
is_alpha_num_str (c ∷ r) = all_alnum (c ∷ r)

-- What the loop of `set` makes of the words: a word is not alphanumeric, or the buffer of 505 bytes
-- overflows, or its text.
pub data Appended : Type 0 where
  not_alphanumeric : Appended
  overflow : Appended
  appended : Text → Appended

abbrev pub with_space : List Text → Text
with_space [] = []
with_space (w ∷ r) = b' ' ∷ []

unfoldable pub append_words : Text → List Text → Appended
unfolding is_alpha_num_str
append_words buffer [] = appended buffer
append_words buffer (w ∷ r) =
    let longer = buffer ++ (w ++ with_space r) in
    let rest = append_words longer r in
    if not (is_alpha_num_str w)
    then not_alphanumeric
    else if ltb (length longer) 505
    then rest
    else overflow

module _ {S : Type 0} (cs : Commands S) where
  open cs use {print_line, copy_script, renew_store}

  -- A call below the session.
  unfoldable pub call : {A : Type 0} → (S → Run S A) → Cmd S A
  call {A} run s = elim (run s.under) as (λ _. Run (Session S) A) [
    | done a st ↦ done a (record s { under = st })
    | exited st ↦ exited (record s { under = st })
    | fault ↦ fault
    | out_of_fuel ↦ out_of_fuel
  ]

  unfoldable pub change : (S → S) → Cmd S (Unit {0})
  change f s = done tt (record s { under = f s.under })

  -- `handle_error`: `error_msgs` is read at the code, which faults outside the table.
  unfoldable pub handle_error : ℤ → Cmd S ℤ
  unfolding change
  handle_error (negsuc n) = λ s. fault
  handle_error (pos code) = elim (get_elem? error_msgs code) as (λ _. Cmd S ℤ) [
    | none ↦ λ s. fault
    | some msg ↦ change (print_line (codes "Bad command: " ++ msg)) >> done (pos code)
  ]

  unfoldable pub fail : ℕ → Cmd S ℤ
  unfolding handle_error
  fail code = handle_error (pos code)

  -- A status that is 0, or an error.
  unfoldable pub status_of : ℤ → Cmd S ℤ
  unfolding handle_error
  status_of status = if is_zero status then done (pos 0) else handle_error status

  unfoldable pub set : Text → List Text → Cmd S ℤ
  unfolding fail change is_alpha_num_str append_words
  set var values =
      let store = elim (append_words [] values) as (λ _. Cmd S ℤ) [
        | not_alphanumeric ↦ fail non_alphanumeric_token
        | overflow ↦ λ s. fault
        | appended buffer ↦ change (cs.mem_set_value var buffer) >> done (pos 0)
      ] in
      if not (is_alpha_num_str var) then fail non_alphanumeric_token else store

  unfoldable pub print : Text → Cmd S ℤ
  unfolding change
  print var = λ s. (change (print_line (cs.mem_get_value var true s.under)) >> done (pos 0)) s

  unfoldable pub echo : Text → Cmd S ℤ
  unfolding fail change all_alnum is_alpha_num_str
  echo [] = fail non_alphanumeric_token
  echo (c ∷ r) =
      if not (c == b'$')
      then (if not (all_alnum (c ∷ r))
          then fail non_alphanumeric_token
          else (change (print_line (c ∷ r)) >> done (pos 0)))
      else if not (all_alnum r)
      then fail non_alphanumeric_token
      else (λ s. (change (print_line (cs.mem_get_value r false s.under)) >> done (pos 0)) s)

  -- The copy of a script in the backing store; `cmd` has room for 99 bytes.
  unfoldable pub store_script : Text → Cmd S Text
  unfolding change
  store_script script s =
      let new_name = codes "./backing_store/" ++ script ++ replicate s.new_name_count b'a' in
      let cmd = codes "cp ./" ++ script ++ (b' ' ∷ new_name) in
      if ltb 99 (length cmd)
      then fault
      else (change (copy_script cmd) >>= λ u t.
            done new_name (record t { new_name_count = t.new_name_count + 1 }))
          s

  unfoldable pub store_scripts : List Text → Cmd S (List Text)
  unfolding store_script
  store_scripts [] = done []
  store_scripts (w ∷ r) =
      store_script w >>= λ name. store_scripts r >>= λ names. done (name ∷ names)

  -- `new_proc` of each script, until one fails.
  unfoldable pub new_procs : List Text → Cmd S Bool
  unfolding call
  new_procs [] = done true
  new_procs (w ∷ r) = call (cs.new_proc w) >>= λ code.
      let rest = new_procs r in if is_zero code then rest else done false

  -- `run` and `exec`, with the policy "RR", on the scripts of the store.
  unfoldable pub exec : List Text → Cmd S ℤ
  unfolding new_procs change call
  exec scripts =
      if ltb 3 (length scripts)
      then (change (print_line (codes "exec can only take between 1 to 3 scripts")) >> done (pos 1))
      else (new_procs scripts >>= λ ok. if ok then call cs.run_proc_rr else done (pos 1))

  -- The commands `run` and `exec`.
  unfoldable pub run_scripts : List Text → Cmd S ℤ
  unfolding store_scripts exec change
  run_scripts words = store_scripts words >>= λ scripts.
      exec scripts >>= λ ret. change renew_store >>= λ u. done ret

  unfoldable pub quit : Cmd S ℤ
  unfolding change call
  quit = change cs.remove_store >>= λ u.
      call cs.filesys_done >>= λ v. change (print_line (codes "Bye!")) >>= λ w. done (negsuc 0)

  -- The buffer of `write`: two bytes more than the words and the spaces between them.
  unfoldable pub write : Text → List Text → Cmd S ℤ
  unfolding call fail join_words change
  write fname words =
      let buf = join_words words ++ (0 ∷ 0 ∷ []) in
      call (cs.fsutil_write fname buf) >>= λ n.
      if is_minus_one n
      then fail file_write_error
      else if same_int n (pos (length buf))
      then done (pos 0)
      else (change (cs.print_short_write n (length buf)) >> done (pos 0))

  -- The result tells a whole read, 1, from a short one; it is no error code.
  unfoldable pub read : Text → ℤ → Cmd S ℤ
  unfolding call fail change
  read fname size = call (cs.fsutil_read fname size) >>= λ r.
      if is_minus_one r.0
      then fail file_read_error
      else (change (print_line r.1) >> done (if same_int r.0 size then pos 1 else pos 0))
