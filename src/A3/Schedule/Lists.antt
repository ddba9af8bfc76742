-- ===== src/A3/Schedule/Lists.antt =====
-- The lists of a3/kernel.c at the end of the policies.
use comp.Prelude.{ℕ, zero, suc, ◌≡◌, inl, inr, refl, true, false, [], Option-cases}
use comp.Prelude.Int.{ℤ}
use comp.Prelude.Text.{Text}
use comp.Prelude.Run.{Ensures, Ensures-bind, Ensures-any}
use comp.A3.LinkedList.{list_init, pop_head}
use comp.A3.Kernel.{Kernel, Cmd}
use comp.A3.Schedule.{all_done, free_list, rr_turn, rr_end, run_proc_rr}

-- QUEUE, LRU_CACHE and ALL_PCB are as `kernel_setup` makes them.
abbrev pub IsReset : {W : Type 0} → Kernel W → Type 0
IsReset k = (k.queue ≡ []) × (k.lru_cache ≡ []) × (k.all_pcb ≡ [])

module _ {W : Type 0} (border : ℕ) (parse_input : Text → Cmd W ℤ) where
  rr_end-IsReset :
      (k : Kernel W) → Ensures (λ ret k'. (ret ≡ 0) × IsReset k') (rr_end border parse_input k)
  unfolding rr_end list_init
  rr_end-IsReset k =
      Ensures-bind (λ _ _. Unit {0}) (λ ret k'. (ret ≡ 0) × IsReset k')
        (free_list border k.all_pcb k) _ (Ensures-any (free_list border k.all_pcb k))
        (λ a s q. (refl, (refl, refl, refl)))

  -- `run_proc_RR` returns 0 only, and only with its three lists as after `kernel_setup`.
  pub run_proc_rr-IsReset :
      (fuel : ℕ) (k : Kernel W)
      → Ensures (λ ret k'. (ret ≡ 0) × IsReset k') (run_proc_rr border parse_input fuel k)
  unfolding run_proc_rr pop_head
  run_proc_rr-IsReset zero k = tt
  run_proc_rr-IsReset (suc fuel) k = elim (Option-cases (all_done k.pcbs k.queue)) [
    | inl e ↦ rw (e, run_proc_rr) tt
    | inr (true, e) ↦ rw (e, run_proc_rr) (rr_end-IsReset k)
    | inr (false, e) ↦ elim (Option-cases (pop_head k.queue)) [
      | inl e' ↦ rw (e, run_proc_rr) (rw e' tt)
      | inr ((a, q), e') ↦
          let popped = record k { queue = q } in
          rw (e, run_proc_rr)
            (rw e' (
              Ensures-bind (λ _ _. Unit {0}) (λ ret k'. (ret ≡ 0) × IsReset k')
                (rr_turn border parse_input a popped) _
                (Ensures-any (rr_turn border parse_input a popped))
                (λ u k1 q'. run_proc_rr-IsReset fuel k1)))
    ]
  ]
