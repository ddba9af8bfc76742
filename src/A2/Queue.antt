-- ===== src/A2/Queue.antt =====
-- The ready queue of a2/ready_queue.c. The nodes that hang on `head` by `next` are a list of
-- their PCBs, in order; a node outside the queue is its PCB.
pub mod Sort
pub mod Promote
use comp.Prelude.{
  ℕ, zero, suc, ◌-◌, Bool, true, false, not, Option, none, some, List, [], ◌∷◌, ltb, ◌==◌,
  if◌then◌else◌,
}
use comp.A2.Pcb.{Pcb}

abbrev pub Queue : Type 0
Queue = List Pcb

abbrev pub max_int : ℕ
max_int = 2147483646

unfoldable pub add_to_tail : Queue → Pcb → Queue
add_to_tail [] node = node ∷ []
add_to_tail (cur ∷ next) node = cur ∷ add_to_tail next node

unfoldable pub add_to_head : Queue → Pcb → Queue
add_to_head q node = node ∷ q

unfoldable pub is_ready_empty : Queue → Bool
is_ready_empty [] = true
is_ready_empty (h ∷ r) = false

unfoldable pub pop_head : Queue → Option Pcb × Queue
pop_head [] = (none, [])
pop_head (h ∷ r) = (some h, r)

unfoldable pub decrement_score : Pcb → Pcb
decrement_score p =
    if ltb 0 p.job_length_score then record p { job_length_score = p.job_length_score - 1 } else p

unfoldable pub decrement_job_length_score : Queue → Queue
decrement_job_length_score [] = []
decrement_job_length_score (cur ∷ next) = decrement_score cur ∷ decrement_job_length_score next

-- `swap_needed(cur)` where `cur->next` is `next`.
unfoldable pub swap_needed : Pcb → Pcb → Bool
swap_needed cur next =
    if cur.priority
    then (if next.priority then ltb next.job_length_score cur.job_length_score else false)
    else (if next.priority then true else ltb next.job_length_score cur.job_length_score)

-- `ready_queue_swap_with_next(cur)`, in a queue of the nodes `before`, nearest first, then
-- `cur` and `next`: the nodes before `cur` afterwards.
unfoldable pub swap_with_next : List Pcb → Pcb → List Pcb
swap_with_next before next = next ∷ before

-- The inner loop of `sort_ready_queue`, `while (cur->next != NULL)`, with the nodes behind `cur`
-- as last argument. It ends with `cur` at the last node.
unfoldable pub sort_inner : Bool → List Pcb → Pcb → List Pcb → Bool × List Pcb × Pcb
unfolding swap_with_next
sort_inner sorted before cur [] = (sorted, before, cur)
sort_inner sorted before cur (next ∷ after) =
    let swap = swap_needed cur next in
    sort_inner (if swap then false else sorted)
      (if swap then swap_with_next before next else cur ∷ before) (if swap then cur else next) after

-- The whole list from its last node and those before it.
unfoldable pub unwind : List Pcb → Queue → Queue
unwind [] q = q
unwind (p ∷ before) q = unwind before (p ∷ q)

-- The outer loop, `while (!sorted)`: `cur` is not set back to `head` between two rounds.
unfoldable pub sort_outer : ℕ → List Pcb → Pcb → List Pcb → Option Queue
unfolding sort_inner unwind
sort_outer zero before cur after = none
sort_outer (suc fuel) before cur after =
    let (sorted, before', cur') = sort_inner true before cur after in
    let again = sort_outer fuel before' cur' [] in
    if sorted then some (unwind before' (cur' ∷ [])) else again

-- `none` if the fuel, given in rounds of the outer loop, runs out.
unfoldable pub sort_ready_queue : ℕ → Queue → Option Queue
unfolding sort_outer
sort_ready_queue fuel [] = some []
sort_ready_queue fuel (h ∷ r) = sort_outer fuel [] h r

unfoldable pub pop_shortest_job : ℕ → Queue → Option (Option Pcb × Queue)
unfolding pop_head
pop_shortest_job fuel q = elim (sort_ready_queue fuel q) [
  | none ↦ none
  | some q' ↦ some (pop_head q')
]

unfoldable pub shortest_from : ℕ → Queue → ℕ
shortest_from shortest [] = shortest
shortest_from shortest (cur ∷ next) =
    shortest_from (if ltb cur.job_length_score shortest then cur.job_length_score else shortest)
      next

unfoldable pub get_shortest_job_score : Queue → ℕ
unfolding shortest_from
get_shortest_job_score q = shortest_from max_int q

-- The search of `ready_queue_promote` behind the head: the first node with the score, and the
-- others.
unfoldable pub unlink_score : ℕ → Queue → Option (Pcb × Queue)
unlink_score score [] = none
unlink_score score (n ∷ r) =
    let rest = unlink_score score r in
    if n.job_length_score == score
    then some (n, r)
    else elim rest as (λ _. Option (Pcb × Queue)) [ none ↦ none | some (x, r') ↦ some (x, n ∷ r') ]

-- `none` for the read through `head` of an empty queue.
unfoldable pub promote : ℕ → Queue → Option Queue
unfolding unlink_score
promote score [] = none
promote score (h ∷ r) =
    if h.job_length_score == score
    then some (h ∷ r)
    else elim (unlink_score score r) as (λ _. Option Queue) [
      | none ↦ some (h ∷ r)
      | some (x, r') ↦ some (x ∷ h ∷ r')
    ]
