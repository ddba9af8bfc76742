-- ===== src/A2/Queue/Sort.antt =====
-- What `sort_ready_queue` of a2/ready_queue.c does: one round of bubble sort, whatever the queue.
use comp.Prelude.{
  ℕ, zero, suc, ◌<◌, ◌≡◌, refl, Bool, true, false, some, List, [], ◌∷◌, ◌++◌, arith, ap,
  if◌then◌else◌, All, Bool-cases, inl, inr,
}
use mathlib.Core.List.{Perm}
use mathlib.Core.List.Perm
use comp.A2.Pcb.{Pcb}
use comp.A2.Queue.{
  Queue, swap_needed, sort_inner, unwind, sort_outer, sort_ready_queue, pop_shortest_job,
}

-- One round of bubble sort, carrying `cur`: the nodes passed, and the last.
unfoldable pub bubble : Pcb → Queue → Queue
bubble cur [] = cur ∷ []
bubble cur (next ∷ r) = if swap_needed cur next then next ∷ bubble cur r else cur ∷ bubble next r

sort_inner-bubble :
    (sorted : Bool) (before : List Pcb) (cur : Pcb) (after : List Pcb)
    → let (s, b, c) = sort_inner sorted before cur after in
      unwind b (c ∷ []) ≡ unwind before (bubble cur after)
unfolding sort_inner bubble unwind
sort_inner-bubble sorted before cur [] = refl
sort_inner-bubble sorted before cur (n ∷ r) = elim (Bool-cases (swap_needed cur n)) [
  | inl e ↦ rw (e, sort_inner) (sort_inner-bubble false (n ∷ before) cur r)
  | inr e ↦ rw (e, sort_inner) (sort_inner-bubble sorted (cur ∷ before) n r)
]

-- Two rounds of the outer loop are always enough, and what they leave is one round of bubble
-- sort of the queue.
pub sort-bubble :
    (fuel : ℕ) (h : Pcb) (r : Queue) → 1 < fuel → sort_ready_queue fuel (h ∷ r) ≡ some (bubble h r)
unfolding sort_ready_queue sort_outer sort_inner
sort-bubble zero h r lt = absurd (omega arith)
sort-bubble (suc zero) h r lt = absurd (omega arith)
sort-bubble (suc (suc fuel)) h r lt =
    let step = sort_inner-bubble true [] h r in
    elim (Bool-cases (sort_inner true [] h r).0) [
      | inl e ↦ rw e (ap some step)
      | inr e ↦ rw e (ap some step)
    ]

swap_needed_irrefl : (p : Pcb) → swap_needed p p ≡ false
unfolding swap_needed
swap_needed_irrefl p = ground arith

-- `swap_needed x y` is false where `x` may stand before `y`.
le_trans' :
    (x y z : Pcb) → swap_needed x y ≡ false → swap_needed y z ≡ false → swap_needed x z ≡ false
unfolding swap_needed
le_trans' x y z p q = ground arith

le_of_swap : (x y : Pcb) → swap_needed x y ≡ true → swap_needed y x ≡ false
unfolding swap_needed
le_of_swap x y p = ground arith

bubble-perm : (cur : Pcb) (r : Queue) → Perm (bubble cur r) (cur ∷ r)
unfolding bubble
bubble-perm cur [] = Perm.refl _
bubble-perm cur (n ∷ r) = elim (Bool-cases (swap_needed cur n)) [
  | inl e ↦ rw e (Perm.trans (Perm.cons n (bubble-perm cur r)) (Perm.swap _ _ _))
  | inr e ↦ rw e (Perm.cons cur (bubble-perm n r))
]

abbrev pub EndsAtLargest : Queue → Type 0
EndsAtLargest q =
    (init : Queue) × (last : Pcb) × (q ≡ init ++ last ∷ [])
    × All (λ p. swap_needed p last ≡ false) init

bubble-largest :
    (cur : Pcb) (r : Queue)
    → (init : Queue) × (last : Pcb) × (bubble cur r ≡ init ++ last ∷ [])
      × All (λ p. swap_needed p last ≡ false) init
      × (swap_needed cur last ≡ false)
unfolding bubble
bubble-largest cur [] = ([], cur, refl, tt, swap_needed_irrefl cur)
bubble-largest cur (n ∷ r) = elim (Bool-cases (swap_needed cur n)) [
  | inl e ↦
      let (init, last, eq, le, below) = bubble-largest cur r in
      (n ∷ init, last, rw (e, eq), (le_trans' n cur last (le_of_swap cur n e) below, le), below)
  | inr e ↦
      let (init, last, eq, le, below) = bubble-largest n r in
      let below' = le_trans' cur n last e below in
      (cur ∷ init, last, rw (e, eq), (below', le), below')
]

-- `sort_ready_queue` returns the same processes, and puts one last that no other has to
-- stand behind.
pub sort_perm :
    (fuel : ℕ) (h : Pcb) (r : Queue)
    → 1 < fuel
    → (q : Queue) × (sort_ready_queue fuel (h ∷ r) ≡ some q) × Perm q (h ∷ r) × EndsAtLargest q
sort_perm fuel h r lt =
    let (init, last, eq, le, below) = bubble-largest h r in
    (bubble h r, sort-bubble fuel h r lt, bubble-perm h r, (init, last, eq, le))

-- `ready_queue_pop_shortest_job` removes the one of the first two nodes that goes first,
-- whatever stands behind them: a shorter job further back is not found.
pub pop_shortest_of_two :
    (fuel : ℕ) (h n : Pcb) (r : Queue)
    → 1 < fuel
    → pop_shortest_job fuel (h ∷ n ∷ r)
      ≡ (if swap_needed h n then some (some n, bubble h r) else some (some h, bubble n r))
unfolding pop_shortest_job bubble
pop_shortest_of_two fuel h n r lt = ground (arith, sort-bubble fuel h (n ∷ r))
