-- ===== src/A2/Schedule.antt =====
-- The policies of a2/kernel.c. Each `while (true)` has a round for a fuel; `parse_input` is what
-- executes a line, as in A2/Execute.
pub mod Loops
use comp.Prelude.{
  ℕ, zero, suc, ◌<◌, Bool, true, false, not, ◌&&◌, ◌||◌, Option, none, some, List, [], ◌∷◌, ltb,
  ◌==◌, if◌then◌else◌,
}
use comp.Prelude.Int.{ℤ, pos}
use comp.Prelude.Text.{Text, codes, text_eq}
use comp.Prelude.Run.{Run, done, fault, out_of_fuel, and_then, ◌>>=◌, ◌>>◌}
use comp.A2.Pcb.{Pcb}
use comp.A2.Queue.{
  Queue, max_int, add_to_tail, add_to_head, is_ready_empty, pop_head, decrement_job_length_score,
  sort_ready_queue, pop_shortest_job, get_shortest_job_score, promote,
}
use comp.A2.State.{Shell, Cmd}
use comp.A2.Execute.{Turn, terminated, yielded, execute_process}

abbrev pub scheduling_error : ℕ
scheduling_error = 5

-- `sort_ready_queue` ends after two rounds of its outer loop (A2/Queue/Sort).
abbrev pub sort_rounds : ℕ
sort_rounds = 2

-- The choice of the process in `scheduler_AGING`: the head `cur`, or a promoted one with the
-- head sent to the tail.
unfoldable pub choose_aging : Pcb → Queue → Option (Pcb × Queue)
unfolding pop_head
choose_aging cur rest =
    if ltb (get_shortest_job_score rest) cur.job_length_score
    then elim (promote (get_shortest_job_score rest) rest) as (λ _. Option (Pcb × Queue)) [
      | none ↦ none
      | some promoted ↦
          let (next, q) = pop_head (add_to_tail promoted cur) in
          elim next as (λ _. Option (Pcb × Queue)) [ none ↦ none | some chosen ↦ some (chosen, q) ]
    ]
    else some (cur, rest)

unfoldable pub is_policy : Text → Bool
is_policy policy =
    text_eq policy (codes "FCFS")
    || (text_eq policy (codes "SJF")
        || (text_eq policy (codes "RR")
            || (text_eq policy (codes "AGING") || text_eq policy (codes "RR30"))))

module _ {W : Type 0} where
  -- `if (!execute_process(cur, q)) ready_queue_add_to_tail(cur);`
  abbrev pub to_tail : Turn → Shell W → Shell W
  to_tail terminated s = s
  to_tail (yielded pcb) s = record s { queue = add_to_tail s.queue pcb }

  abbrev pub to_head : Turn → Shell W → Shell W
  to_head terminated s = s
  to_head (yielded pcb) s = record s { queue = add_to_head s.queue pcb }

  -- `if (active) continue; else break;`
  abbrev pub when_empty : Bool → Cmd W (Unit {0}) → Cmd W (Unit {0})
  when_empty true again s = again s
  when_empty false again s = done tt s

  -- The head of a round: the test of `is_ready_empty` and `ready_queue_pop_head`, for the queue `q`.
  unfoldable pub loop_round : Queue → Cmd W (Unit {0}) → (Pcb → Cmd W (Unit {0})) → Cmd W (Unit {0})
  loop_round [] again run s = when_empty s.active again s
  loop_round (cur ∷ rest) again run s = run cur (record s { queue = rest })

  module _ (parse_input : Text → Cmd W ℤ) where
    unfoldable pub scheduler_fcfs : ℕ → Cmd W (Unit {0})
    unfolding loop_round
    scheduler_fcfs zero s = out_of_fuel
    scheduler_fcfs (suc fuel) s =
        loop_round s.queue (scheduler_fcfs fuel)
          (λ cur t.
            and_then (execute_process parse_input cur max_int t)
              (λ turn u. scheduler_fcfs fuel (to_tail turn u)))
          s

    -- The result of `execute_process` is dropped, and the node with it.
    unfoldable pub scheduler_sjf : ℕ → Cmd W (Unit {0})
    unfolding is_ready_empty
    scheduler_sjf zero s = out_of_fuel
    scheduler_sjf (suc fuel) s =
        if is_ready_empty s.queue
        then when_empty s.active (scheduler_sjf fuel) s
        else elim (pop_shortest_job sort_rounds s.queue) as (λ _. Run (Shell W) (Unit {0})) [
          | none ↦ out_of_fuel
          | some (none, rest) ↦ fault
          | some (some cur, rest) ↦
              and_then (execute_process parse_input cur max_int (record s { queue = rest }))
                (λ turn u. scheduler_sjf fuel u)
        ]

    unfoldable pub scheduler_aging_alternative : ℕ → Cmd W (Unit {0})
    unfolding is_ready_empty
    scheduler_aging_alternative zero s = out_of_fuel
    scheduler_aging_alternative (suc fuel) s =
        if is_ready_empty s.queue
        then when_empty s.active (scheduler_aging_alternative fuel) s
        else elim (pop_shortest_job sort_rounds s.queue) as (λ _. Run (Shell W) (Unit {0})) [
          | none ↦ out_of_fuel
          | some (none, rest) ↦ fault
          | some (some cur, rest) ↦
              and_then
                (execute_process parse_input cur 1
                  (record s { queue = decrement_job_length_score rest }))
                (λ turn u. scheduler_aging_alternative fuel (to_head turn u))
        ]

    unfoldable pub aging_loop : ℕ → Cmd W (Unit {0})
    unfolding loop_round
    aging_loop zero s = out_of_fuel
    aging_loop (suc fuel) s =
        loop_round s.queue (aging_loop fuel)
          (λ head t. elim (choose_aging head t.queue) as (λ _. Run (Shell W) (Unit {0})) [
            | none ↦ fault
            | some (cur, rest) ↦
                and_then
                  (execute_process parse_input cur 1
                    (record t { queue = decrement_job_length_score rest }))
                  (λ turn u. aging_loop fuel (to_head turn u))
          ])
          s

    unfoldable pub scheduler_aging : ℕ → Cmd W (Unit {0})
    unfolding aging_loop
    scheduler_aging fuel s =
        elim (sort_ready_queue sort_rounds s.queue) as (λ _. Run (Shell W) (Unit {0})) [
          | none ↦ out_of_fuel
          | some q ↦ aging_loop fuel (record s { queue = q })
        ]

    unfoldable pub scheduler_rr : ℕ → ℕ → Cmd W (Unit {0})
    unfolding loop_round
    scheduler_rr quanta zero s = out_of_fuel
    scheduler_rr quanta (suc fuel) s =
        loop_round s.queue (scheduler_rr quanta fuel)
          (λ cur t.
            and_then (execute_process parse_input cur quanta t)
              (λ turn u. scheduler_rr quanta fuel (to_tail turn u)))
          s

    -- The chain of tests at the end of `schedule_by_policy`.
    unfoldable pub run_policy : ℕ → Text → Cmd W (Unit {0})
    unfolding scheduler_fcfs scheduler_sjf scheduler_aging scheduler_rr
    run_policy fuel policy =
        if text_eq (codes "FCFS") policy
        then scheduler_fcfs fuel
        else if text_eq (codes "SJF") policy
        then scheduler_sjf fuel
        else if text_eq (codes "RR") policy
        then scheduler_rr 2 fuel
        else if text_eq (codes "AGING") policy
        then scheduler_aging fuel
        else if text_eq (codes "RR30") policy
        then scheduler_rr 30 fuel
        else done tt

    unfoldable pub schedule_by_policy : ℕ → Text → Cmd W ℤ
    unfolding is_policy run_policy
    schedule_by_policy fuel policy s =
        if not (is_policy policy)
        then done (pos scheduling_error) s
        else if s.active || s.in_background
        then done (pos 0) s
        else and_then (run_policy fuel policy s) (λ _. done (pos 0))
