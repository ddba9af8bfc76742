-- ===== src/A3/Memory/Frames.antt =====
-- Which slots `frame_alloc` of a3/shellmemory.c takes, and which `clear_frame` frees.
use comp.Prelude.{
  ℕ, zero, suc, ◌+◌, ◌<◌, ◌≤◌, ◌≡◌, ◌≢◌, ◌⊎◌, ◌∙◌, inl, inr, refl, sym, ap, true, false, ◌&&◌, none,
  some, [], ◌∷◌, arith, length, get_elem?, ltb, ◌==◌, Bool-cases,
}
use comp.Prelude.Text.{Text, text_eq}
use comp.A3.Memory.{Slot, Memory, none_text, is_free_at, scan_free, find_frame, mark, frame_alloc}

-- Three free slots in a row before the border.
abbrev pub IsFrame : ℕ → ℕ → Memory → Type 0
IsFrame border i m =
    (i + 3 ≤ border)
    × (is_free_at i m ≡ true)
    × (is_free_at (i + 1) m ≡ true)
    × (is_free_at (i + 2) m ≡ true)

scan_free_iff :
    (border i : ℕ) (m : Memory)
    → ((scan_free border 3 i m ≡ i + 3) × IsFrame border i m)
      ⊎ ((scan_free border 3 i m ≢ i + 3) × (IsFrame border i m → ⊥))
unfolding scan_free
scan_free_iff border i m =
    let one : i + 1 + 1 ≡ i + 2 = omega arith in
    elim (Bool-cases (ltb i border && is_free_at i m)) [
      | inr a ↦ inr (ground arith, λ (s, x, y, z). ground arith)
      | inl a ↦ elim (Bool-cases (ltb (i + 1) border && is_free_at (i + 1) m)) [
        | inr b ↦ inr (ground arith, λ (s, x, y, z). ground arith)
        | inl b ↦ elim (Bool-cases (ltb (i + 2) border && is_free_at (i + 2) m)) [
          | inr d ↦ inr (ground arith, λ (s, x, y, z). ground arith)
          | inl d ↦ inl (ground arith, (ground arith, ground arith, ground arith, ground arith))
        ]
      ]
    ]

-- Marked slots are not free, unless the process is called "none".
mark-taken :
    (pid : Text) (k : ℕ) (m : Memory)
    → text_eq pid none_text ≡ false
    → is_free_at k (mark pid k m) ≡ false
unfolding is_free_at mark
mark-taken pid k [] named = refl
mark-taken pid zero (s ∷ m) named = named
mark-taken pid (suc k) (s ∷ m) named = mark-taken pid k m named

mark-other :
    (pid : Text) (k j : ℕ) (m : Memory) → k ≢ j → get_elem? (mark pid k m) j ≡ get_elem? m j
unfolding mark
mark-other pid k j [] ne = refl
mark-other pid zero zero (s ∷ m) ne = absurd (ne refl)
mark-other pid zero (suc j) (s ∷ m) ne = refl
mark-other pid (suc k) zero (s ∷ m) ne = refl
mark-other pid (suc k) (suc j) (s ∷ m) ne = mark-other pid k j m (λ e. ne (ap suc e))

get-nil : (j : ℕ) → get_elem? {A = Slot} [] j ≡ none
get-nil zero = refl
get-nil (suc j) = refl

is_free_at-get :
    (j : ℕ) (m m' : Memory) → get_elem? m j ≡ get_elem? m' j → is_free_at j m ≡ is_free_at j m'
unfolding is_free_at
is_free_at-get j [] [] e = refl
is_free_at-get zero [] (s ∷ m') e = cc
is_free_at-get (suc j) [] (s ∷ m') e = is_free_at-get j [] m' (get-nil j ∙ e)
is_free_at-get zero (s ∷ m) [] e = cc
is_free_at-get (suc j) (s ∷ m) [] e = is_free_at-get j m [] (e ∙ sym (get-nil j))
is_free_at-get zero (s ∷ m) (t ∷ m') e = ground arith
is_free_at-get (suc j) (s ∷ m) (t ∷ m') e = is_free_at-get j m m' e

-- The frame that the outer loop finds from `i` on, or that there is none.
data FindFrame (border n i : ℕ) (m : Memory) : Type 0 where
  no_frame :
      find_frame border n i m ≡ none
      → ((j : ℕ) → i ≤ j → j < i + n → IsFrame border j m → ⊥)
      → FindFrame border n i m
  frame_at :
      (k : ℕ)
      → find_frame border n i m ≡ some k
      → IsFrame border k m
      → i ≤ k
      → ((j : ℕ) → i ≤ j → j < k → IsFrame border j m → ⊥)
      → FindFrame border n i m

find_frame-here :
    (border n i : ℕ) (m : Memory)
    → scan_free border 3 i m ≡ i + 3
    → find_frame border (suc n) i m ≡ some i
unfolding find_frame
find_frame-here border n i m e = ground arith

find_frame-next :
    (border n i : ℕ) (m : Memory)
    → scan_free border 3 i m ≢ i + 3
    → find_frame border (suc n) i m ≡ find_frame border n (i + 1) m
unfolding find_frame
find_frame-next border n i m ne = ground arith

not_from :
    (border i : ℕ) (m : Memory)
    → (IsFrame border i m → ⊥)
    → (k : ℕ) → ((j : ℕ) → i + 1 ≤ j → j < k → IsFrame border j m → ⊥)
    → (j : ℕ) → i ≤ j
    → j < k
    → IsFrame border j m
    → ⊥
not_from border i m bad k later j le lt fr = elim (Bool-cases (i == j)) [
  | inl same ↦ let ij : j ≡ i = ground arith in bad (rw ij at fr)
  | inr ne ↦ later j (ground arith) lt fr
]

find_frame_lem : (border n i : ℕ) (m : Memory) → FindFrame border n i m
unfolding find_frame
find_frame_lem border zero i m = no_frame refl (λ j le lt fr. omega arith)
find_frame_lem border (suc n) i m = elim (scan_free_iff border i m) [
  | inl (stop, fr) ↦
      frame_at i (find_frame-here border n i m stop) fr (omega arith) (λ j le lt fr. omega arith)
  | inr (stop, bad) ↦ elim (find_frame_lem border n (i + 1) m) [
    | no_frame eq none_later ↦
        no_frame (find_frame-next border n i m stop ∙ eq)
          (not_from border i m bad (i + suc n) (λ j le lt. none_later j le (omega arith)))
    | frame_at k eq fr le none_later ↦
        frame_at k (find_frame-next border n i m stop ∙ eq) fr (omega arith)
          (not_from border i m bad k none_later)
  ]
]

-- A slot after the three writes of `frame_alloc`.
mark3-taken :
    (pid : Text) (i k : ℕ) (m : Memory)
    → text_eq pid none_text ≡ false
    → (k ≡ i) ⊎ ((k ≡ i + 1) ⊎ (k ≡ i + 2))
    → is_free_at k (mark pid (i + 2) (mark pid (i + 1) (mark pid i m))) ≡ false
mark3-taken pid i k m named (inr (inr e)) = rw e (mark-taken pid (i + 2) _ named)
mark3-taken pid i k m named (inr (inl e)) = rw e (
    is_free_at-get (i + 1) _ _ (mark-other pid (i + 2) (i + 1) _ (omega arith))
    ∙ mark-taken pid (i + 1) _ named)
mark3-taken pid i k m named (inl e) = rw e (
    is_free_at-get i _ _
      (mark-other pid (i + 2) i _ (omega arith) ∙ mark-other pid (i + 1) i _ (omega arith))
    ∙ mark-taken pid i _ named)

mark3-other :
    (pid : Text) (i j : ℕ) (m : Memory)
    → (j < i) ⊎ (i + 3 ≤ j)
    → get_elem? (mark pid (i + 2) (mark pid (i + 1) (mark pid i m))) j ≡ get_elem? m j
mark3-other pid i j m out =
    let a : i + 2 ≢ j = ground arith in
    let b : i + 1 ≢ j = ground arith in
    let c : i ≢ j = ground arith in
    mark-other pid (i + 2) j _ a ∙ (mark-other pid (i + 1) j _ b ∙ mark-other pid i j _ c)

inside_or_out : (i j : ℕ) → ((i ≤ j) × (j < i + 3)) ⊎ ((j < i) ⊎ (i + 3 ≤ j))
inside_or_out i j = elim (Bool-cases (ltb j i)) [
  | inl a ↦ inr (inl (ground arith))
  | inr a ↦ elim (Bool-cases (ltb j (i + 3))) [
    | inl b ↦ inl (ground arith, ground arith)
    | inr b ↦ inr (inr (ground arith))
  ]
]

-- `frame_alloc` fails if and only if no three slots in a row are free before the border. Else it takes
-- the first such three, none of which is free after it, and changes no other slot; in particular
-- no slot of a variable. The name of the process must not be "none".
pub frame_alloc-first :
    (border : ℕ) (pid : Text) (m : Memory) (j : ℕ)
    → text_eq pid none_text ≡ false
    → ((frame_alloc border pid m ≡ none) × (IsFrame border j m → ⊥))
      ⊎ ((i : ℕ) × (m' : Memory) × (frame_alloc border pid m ≡ some (i, m'))
          × IsFrame border i m
          × ((i ≤ j) ⊎ (IsFrame border j m → ⊥))
          × (is_free_at i m' ≡ false)
          × (is_free_at (i + 1) m' ≡ false)
          × (is_free_at (i + 2) m' ≡ false)
          × (((i ≤ j) × (j < i + 3)) ⊎ (get_elem? m' j ≡ get_elem? m j)))
unfolding frame_alloc
frame_alloc-first border pid m j named = elim (find_frame_lem border border 0 m) [
  | no_frame eq nowhere ↦
      inl (rw (eq, frame_alloc) refl, λ fr. nowhere j (omega arith) (omega arith) fr)
  | frame_at i eq fr le earlier ↦ inr (
    i,
    mark pid (i + 2) (mark pid (i + 1) (mark pid i m)),
    rw (eq, frame_alloc) refl,
    fr,
    elim (Bool-cases (ltb j i)) [
      | inl lt ↦ inr (earlier j (omega arith) (ground arith))
      | inr ge ↦ inl (ground arith)
    ],
    mark3-taken pid i i m named (inl refl),
    mark3-taken pid i (i + 1) m named (inr (inl refl)),
    mark3-taken pid i (i + 2) m named (inr (inr refl)),
    elim (inside_or_out i j) [
      | inl inside ↦ inl inside
      | inr out ↦ inr (mark3-other pid i j m out)
    ],
  )
]

length-mark : (pid : Text) (k : ℕ) (m : Memory) → length (mark pid k m) ≡ length m
unfolding mark
length-mark pid k [] = refl
length-mark pid zero (s ∷ m) = refl
length-mark pid (suc k) (s ∷ m) = ap suc (length-mark pid k m)

-- The frame lies before the border, and the memory keeps its length.
pub frame_alloc-room :
    (border : ℕ) (pid : Text) (m : Memory)
    → (frame_alloc border pid m ≡ none)
      ⊎ ((i : ℕ) × (m' : Memory) × (frame_alloc border pid m ≡ some (i, m'))
          × (i + 3 ≤ border)
          × (length m' ≡ length m))
unfolding frame_alloc
frame_alloc-room border pid m = elim (find_frame_lem border border 0 m) [
  | no_frame eq nowhere ↦ inl (rw (eq, frame_alloc) refl)
  | frame_at i eq fr le earlier ↦ inr (
    i,
    mark pid (i + 2) (mark pid (i + 1) (mark pid i m)),
    rw (eq, frame_alloc) refl,
    fr.0,
    length-mark pid (i + 2) _ ∙ (length-mark pid (i + 1) _ ∙ length-mark pid i m),
  )
]
