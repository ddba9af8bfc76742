-- ===== src/A2/Queue/Promote.antt =====
-- How the AGING policy of a2/kernel.c brings a shortest job to the front: the search of
-- `ready_queue_get_shortest_job_score` and `ready_queue_promote` of a2/ready_queue.c.
use comp.Prelude.{
  ℕ, ◌≤◌, ◌<◌, ◌≡◌, ◌⊎◌, refl, Bool, true, false, some, [], ◌∷◌, arith, if◌then◌else◌, All,
  Bool-cases, inl, inr, ltb, ◌==◌,
}
use mathlib.Core.List.{Perm}
use mathlib.Core.List.Perm
use comp.A2.Pcb.{Pcb}
use comp.A2.Queue.{Queue, max_int, shortest_from, get_shortest_job_score, unlink_score, promote}

abbrev pub AtLeast : ℕ → Queue → Type 0
AtLeast s = All (λ p. s ≤ p.job_length_score)

-- Whether some process of the queue has the score.
pub has_score : ℕ → Queue → Bool
has_score s [] = false
has_score s (p ∷ r) = if p.job_length_score == s then true else has_score s r

AtLeast-mono : (s t : ℕ) (q : Queue) → s ≤ t → AtLeast t q → AtLeast s q
AtLeast-mono s t [] le h = tt
AtLeast-mono s t (p ∷ r) le h = (omega arith, AtLeast-mono s t r le h.1)

abbrev smaller : ℕ → ℕ → ℕ
smaller a s = if ltb a s then a else s

smaller_lem :
    (a s : ℕ) → (smaller a s ≤ s) × (smaller a s ≤ a) × ((smaller a s ≡ s) ⊎ (smaller a s ≡ a))
smaller_lem a s = (ground arith, ground arith, ground arith)

has_score-step :
    {s t m : ℕ} (p : Pcb) (r : Queue)
    → (t ≡ s) ⊎ (t ≡ p.job_length_score)
    → (m ≡ t) ⊎ (has_score m r ≡ true)
    → (m ≡ s) ⊎ (has_score m (p ∷ r) ≡ true)
unfolding has_score
has_score-step p r is from = ground arith

shortest_from_lem :
    (s : ℕ) (q : Queue)
    → (shortest_from s q ≤ s)
      × AtLeast (shortest_from s q) q
      × ((shortest_from s q ≡ s) ⊎ (has_score (shortest_from s q) q ≡ true))
unfolding shortest_from has_score
shortest_from_lem s [] = (omega arith, tt, inl refl)
shortest_from_lem s (p ∷ r) =
    let t = smaller p.job_length_score s in
    let (le, least, from) = shortest_from_lem t r in
    let (le_s, le_p, is) = smaller_lem p.job_length_score s in
    (omega arith, (omega arith, least), has_score-step p r is from)

unlink_score_lem :
    (s : ℕ) (q : Queue)
    → has_score s q ≡ true
    → (x : Pcb) × (r : Queue) × (unlink_score s q ≡ some (x, r))
      × (x.job_length_score ≡ s)
      × Perm (x ∷ r) q
      × ((t : ℕ) → AtLeast t q → AtLeast t r)
unfolding has_score unlink_score
unlink_score_lem s [] h = cc
unlink_score_lem s (n ∷ q) h = elim (Bool-cases (n.job_length_score == s)) [
  | inl e ↦ (n, q, rw e, ground arith, Perm.refl _, λ t a. a.1)
  | inr e ↦
      let (x, r, eq, score, perm, least) = unlink_score_lem s q (rw e at h) in
      (
        x,
        n ∷ r,
        rw (e, eq),
        score,
        Perm.trans (Perm.swap _ _ _) (Perm.cons n perm),
        λ t a. (a.0, least t a.1),
      )
]

-- `ready_queue_promote` of the score that `ready_queue_get_shortest_job_score` finds brings a
-- process to the front that no other has a smaller score than, and keeps the others, if
-- some score is below `MAX_INT`.
pub promote_shortest :
    (q : Queue)
    → get_shortest_job_score q < max_int
    → (x : Pcb) × (r : Queue) × (promote (get_shortest_job_score q) q ≡ some (x ∷ r))
      × (x.job_length_score ≡ get_shortest_job_score q)
      × AtLeast x.job_length_score r
      × Perm (x ∷ r) q
unfolding promote get_shortest_job_score has_score
promote_shortest [] lt = absurd (omega arith)
promote_shortest (h ∷ q) lt =
    let m = get_shortest_job_score (h ∷ q) in
    let (le, least, from) = shortest_from_lem max_int (h ∷ q) in
    elim (Bool-cases (h.job_length_score == m)) [
      | inl e ↦ (
        h,
        q,
        rw e,
        ground arith,
        AtLeast-mono h.job_length_score m q (ground arith) least.1,
        Perm.refl _,
      )
      | inr e ↦
          let there : has_score m q ≡ true = ground arith in
          let (x, r, eq, score, perm, keep) = unlink_score_lem m q there in
          (
            x,
            h ∷ r,
            rw (e, eq),
            score,
            (ground arith, AtLeast-mono x.job_length_score m r (omega arith) (keep m least.1)),
            Perm.trans (Perm.swap _ _ _) (Perm.cons h perm),
          )
    ]
