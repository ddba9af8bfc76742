-- ===== src/A2/Interpreter/Errors.antt =====
-- The error codes of a2/interpreter.c and a2/kernel.c.
use comp.Prelude.{
  ℕ, zero, suc, ◌≤◌, ◌≡◌, refl, none, some, List, [], ◌∷◌, ◌++◌, arith, get_elem?, length,
}
use comp.Prelude.Int.{ℤ, pos}
use comp.Prelude.Text.{Text, codes}
use comp.Prelude.Run.{done, fault, ◌>>=◌}
use comp.A2.State.{Host, Shell, Cmd, puts}
use comp.A2.Process.{process_initialize}
use comp.A2.Interpreter.{handle_error, error_msgs, run, exec_script}

get_elem?-none {ℓ} : {A : Type ℓ} (xs : List A) (i : ℕ) → length xs ≤ i → get_elem? xs i ≡ none
get_elem?-none [] i h = refl
get_elem?-none (x ∷ xs) zero h = absurd (omega arith)
get_elem?-none (x ∷ xs) (suc i) h = get_elem?-none xs i (omega arith)

handle_error-outside :
    {W : Type 0} (code : ℕ) (s : Shell W) → 13 ≤ code → handle_error (pos code) s ≡ fault
unfolding handle_error
handle_error-outside code s h = rw (get_elem?-none error_msgs code h, handle_error)

module _ (h : Host) (schedule : Text → Cmd h.World ℤ) where
  open h use {World, fopen}

  process-missing :
      (script : Text) (id : ℕ) (s : Shell World)
      → fopen script s.world ≡ none
      → process_initialize h script id s ≡ done (pos 11) s
  unfolding process_initialize
  process-missing script id s e = rw (e, process_initialize)

  -- `run` of a script that cannot be opened prints the message that belongs to `my_mkdir`,
  -- returns 11 and changes nothing else: `process_initialize` returns 11 where `enum Error` has 1
  -- for a missing file.
  pub run-missing :
      (script : Text) (s : Shell World)
      → fopen script s.world ≡ none
      → run h schedule script s
        ≡ done
            (pos 11)
            (record s { printed = s.printed ++ (puts (codes "Bad command: mkdir") ∷ []) })
  unfolding run
  run-missing script s e = rw (process-missing script 1 s e, run)

  -- `exec` reads its table of messages out of bounds when a script cannot be copied and `cp`
  -- ends with a status above 12, as the status 256 of an exit with 1 is.
  pub exec_script-status :
      (script : Text) (id code : ℕ) (next : Cmd World ℤ) (s t : Shell World)
      → process_initialize h script id s ≡ done (pos code) t
      → 13 ≤ code
      → exec_script h schedule (some script) id next s ≡ fault
  unfolding exec_script
  exec_script-status script id code next s t e big =
      rw (e, ◌>>=◌) (ground (arith, handle_error-outside code t))
