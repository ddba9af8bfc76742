-- ===== src/A2/Tests/Queueing.antt =====
-- The ready queue of a2/ready_queue.c at three processes.
use comp.Prelude.{ℕ, ◌≡◌, refl, false, some, [], ◌∷◌, arith}
use mathlib.Core.List.{Perm}
use comp.A2.Pcb.{Pcb}
use comp.A2.Queue.{
  Queue, swap_needed, pop_shortest_job, sort_ready_queue, get_shortest_job_score, promote,
}
use comp.A2.Queue.Sort.{EndsAtLargest, sort_perm, bubble, pop_shortest_of_two}
use comp.A2.Queue.Promote.{promote_shortest, AtLeast}

abbrev job : ℕ → ℕ → Pcb
job pid n = record {
  page_table = [];
  priority = false;
  pid = pid;
  pc = 0;
  current_command = 0;
  number_of_commands = n;
  job_length_score = n;
  fp = record { content = []; rest = [] };
}

abbrev three : Queue
three = job 2 4 ∷ job 3 2 ∷ []

sort_runs : sort_ready_queue 2 (job 1 6 ∷ three) ≡ some (job 2 4 ∷ job 3 2 ∷ job 1 6 ∷ [])
unfolding sort_ready_queue swap_needed
sort_runs = refl

sort_perm_example :
    (q : Queue) × (sort_ready_queue 2 (job 1 6 ∷ three) ≡ some q)
    × Perm q (job 1 6 ∷ three)
    × EndsAtLargest q
sort_perm_example = sort_perm 2 (job 1 6) three (omega arith)

-- The shortest of the three is the last, and the second is removed.
pop_shortest_of_two_example :
    pop_shortest_job 2 (job 1 6 ∷ three) ≡ some (some (job 2 4), job 3 2 ∷ job 1 6 ∷ [])
unfolding swap_needed bubble
pop_shortest_of_two_example = pop_shortest_of_two 2 (job 1 6) (job 2 4) (job 3 2 ∷ []) (omega arith)

promote_shortest_example :
    (p : Pcb) × (r : Queue) × (promote (get_shortest_job_score (job 1 6 ∷ three)) (job 1 6 ∷ three)
      ≡ some (p ∷ r))
    × (p.job_length_score ≡ get_shortest_job_score (job 1 6 ∷ three))
    × AtLeast p.job_length_score r
    × Perm (p ∷ r) (job 1 6 ∷ three)
unfolding get_shortest_job_score
promote_shortest_example = promote_shortest (job 1 6 ∷ three) (omega arith)
