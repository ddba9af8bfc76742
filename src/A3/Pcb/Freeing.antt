-- ===== src/A3/Pcb/Freeing.antt =====
-- What `free_PCB` of a3/pcb.c frees.
use comp.Prelude.{
  ℕ, zero, suc, ◌+◌, ◌<◌, ◌≤◌, ◌≡◌, ◌⊎◌, ◌∙◌, inl, inr, refl, some, [], ◌∷◌, arith, length,
  get_elem?, set, ◌==◌, Bool-cases, get_elem?-set_self, get_elem?-set_ne, length-set,
}
use comp.A3.Memory.{Slot, Memory, free_slot, store_at, mem_free_at, clear_frame, clear_slots}
use comp.A3.Pcb.{free_page}

store_at-set :
    (pos : ℕ) (s : Slot) (m : Memory) → pos < length m → store_at pos s m ≡ some (set m pos s)
unfolding store_at
store_at-set pos s [] lt = elim lt [ ]
store_at-set zero s (x ∷ m) lt = refl
store_at-set (suc pos) s (x ∷ m) lt = rw (store_at-set pos s m (omega arith)) refl

-- What a slot is after `n` slots from `i` on are cleared.
abbrev pub Cleared : ℕ → ℕ → ℕ → Memory → Memory → Type 0
Cleared n i j m m' =
    ((i ≤ j) × (j < i + n) × (get_elem? m' j ≡ some free_slot))
    ⊎ (((j < i) ⊎ (i + n ≤ j)) × (get_elem? m' j ≡ get_elem? m j))

clear_slots-step :
    (n i : ℕ) (m : Memory)
    → i < length m
    → clear_slots (suc n) i m ≡ clear_slots n (i + 1) (set m i free_slot)
unfolding clear_slots mem_free_at
clear_slots-step n i m lt = rw (store_at-set i free_slot m lt, clear_slots) refl

clear_slots_lem :
    (n i j : ℕ) (m : Memory)
    → i + n ≤ length m
    → (m' : Memory) × (clear_slots n i m ≡ some m') × (length m' ≡ length m) × Cleared n i j m m'
unfolding clear_slots
clear_slots_lem zero i j m room = (m, refl, refl, inr (ground arith, refl))
clear_slots_lem (suc n) i j m room =
    let m1 = set m i free_slot in
    let len : length m1 ≡ length m = length-set m i free_slot in
    let (m', eq, size, out) = clear_slots_lem n (i + 1) j m1 (omega (arith, len)) in
    (
      m',
      clear_slots-step n i m (omega arith) ∙ eq,
      size ∙ len,
      elim out [
        | inl (a, b, free) ↦ inl (omega arith, omega arith, free)
        | inr (far, same) ↦ elim (Bool-cases (j == i)) [
          | inl e ↦
              let ji : j ≡ i = ground arith in
              inl (
                omega arith,
                omega arith,
                same ∙ rw ji (get_elem?-set_self m i free_slot (omega arith)),
              )
          | inr e ↦ inr (ground arith, same ∙ get_elem?-set_ne m i j free_slot (ground arith))
        ]
      ],
    )

clear_frame_lem :
    (i j : ℕ) (m : Memory)
    → i + 3 ≤ length m
    → (m' : Memory) × (clear_frame i m ≡ some m') × (length m' ≡ length m) × Cleared 3 i j m m'
unfolding clear_frame
clear_frame_lem i j m room = clear_slots_lem 3 i j m room

Cleared-three :
    (s j : ℕ) (m m1 m2 m3 : Memory)
    → Cleared 3 s j m m1
    → Cleared 3 (s + 1) j m1 m2
    → Cleared 3 (s + 2) j m2 m3
    → Cleared 5 s j m m3
Cleared-three s j m m1 m2 m3 a b (inl (x, y, free)) = inl (omega arith, omega arith, free)
Cleared-three s j m m1 m2 m3 a (inl (x, y, free)) (inr (far, same)) =
    inl (omega arith, omega arith, same ∙ free)
Cleared-three s j m m1 m2 m3 (inl (x, y, free)) (inr (far, same)) (inr (far', same')) =
    inl (omega arith, omega arith, same' ∙ (same ∙ free))
Cleared-three s j m m1 m2 m3 (inr (far, same)) (inr (far', same')) (inr (far'', same'')) =
    inr (ground arith, same'' ∙ (same' ∙ same))

free_page-three :
    (s : ℕ) (m : Memory) {m1 m2 m3 : Memory}
    → clear_frame s m ≡ some m1
    → clear_frame (s + 1) m1 ≡ some m2
    → clear_frame (s + 2) m2 ≡ some m3
    → free_page (s ∷ (s + 1) ∷ (s + 2) ∷ []) m ≡ some m3
unfolding free_page
free_page-three s m a b c = rw (a, free_page) (rw b (rw c refl))

-- Where they are in the array, `free_PCB` frees five slots for a page with the frame at `s`: the three
-- of the frame and the two behind it, which may belong to another process; and no other slot.
pub free_page-five_slots :
    (s j : ℕ) (m : Memory)
    → s + 5 ≤ length m
    → (m' : Memory) × (free_page (s ∷ (s + 1) ∷ (s + 2) ∷ []) m ≡ some m') × Cleared 5 s j m m'
free_page-five_slots s j m room =
    let (m1, eq1, len1, out1) = clear_frame_lem s j m (omega arith) in
    let (m2, eq2, len2, out2) = clear_frame_lem (s + 1) j m1 (omega arith) in
    let (m3, eq3, len3, out3) = clear_frame_lem (s + 2) j m2 (omega arith) in
    (m3, free_page-three s m eq1 eq2 eq3, Cleared-three s j m m1 m2 m3 out1 out2 out3)
