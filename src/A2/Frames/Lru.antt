-- ===== src/A2/Frames/Lru.antt =====
-- Which frame `loadFrame` of a2/shellmemory.c fills: an empty one, else the one used longest ago.
use comp.Prelude.{
  ℕ, suc, ◌+◌, ◌<◌, ◌≤◌, ◌≡◌, ◌⊎◌, inl, inr, refl, Bool, true, false, Option, none, some, List, [],
  ◌∷◌, arith, All, length, get_elem?, if◌then◌else◌, Bool-cases, Option-cases,
}
use comp.Prelude.Text.{Text}
use comp.A2.Frames.{
  Frame, FrameStore, int_max, find_empty, is_lower, lower, find_victim, choose_frame, victim_report,
  lines_per_frame,
}

-- An empty frame belongs to no process and was never used; any other was used at a time before `now`.
abbrev pub UsedBefore : ℕ → Bool → Option ℕ → Option ℕ → Type 0
UsedBefore now empty pid none = (empty ≡ true) × (pid ≡ none)
UsedBefore now empty pid (some l) = (empty ≡ false) × (l < now)

abbrev pub FrameOk : ℕ → Frame → Type 0
FrameOk now f = UsedBefore now f.empty f.pid f.lru

abbrev pub HasLines : Frame → Type 0
HasLines f = length f.lines ≡ lines_per_frame

pub record IsStore (s : FrameStore) : Type 0 where
  pub used : All (FrameOk s.num_lru) s.frames
  pub shaped : All HasLines s.frames

-- `l` is no later than the last use of the frame.
abbrev pub NotAfter : ℕ → Option ℕ → Type 0
NotAfter l none = Unit {0}
NotAfter l (some m) = l ≤ m

abbrev pub Oldest : ℕ → List Frame → Type 0
Oldest l = All (λ f. NotAfter l f.lru)

abbrev pub AllFull : List Frame → Type 0
AllFull = All (λ f. f.empty ≡ false)

data FindEmpty (i : ℕ) (fs : List Frame) : Type 0 where
  all_full : find_empty i fs ≡ none → AllFull fs → FindEmpty i fs
  at :
      (k : ℕ) (f : Frame)
      → get_elem? fs k ≡ some f
      → f.empty ≡ true
      → find_empty i fs ≡ some (i + k)
      → FindEmpty i fs

find_empty_lem : (i : ℕ) (fs : List Frame) → FindEmpty i fs
unfolding find_empty
find_empty_lem i [] = all_full refl tt
find_empty_lem i (f ∷ r) = elim (Bool-cases f.empty) [
  | inl e ↦ at 0 f refl e (rw e (ground arith))
  | inr e ↦ elim (find_empty_lem (i + 1) r) [
    | all_full none_found full ↦ all_full (rw e none_found) (e, full)
    | at k g here free found ↦ at (suc k) g here free (rw (e, found) (ground arith))
  ]
]

data FindVictim (lowest : ℕ) (victim : Option ℕ) (i : ℕ) (fs : List Frame) : Type 0 where
  kept : find_victim lowest victim i fs ≡ victim → Oldest lowest fs → FindVictim lowest victim i fs
  at :
      (k l : ℕ) (f : Frame)
      → get_elem? fs k ≡ some f
      → f.lru ≡ some l
      → l < lowest
      → Oldest l fs
      → find_victim lowest victim i fs ≡ some (i + k)
      → FindVictim lowest victim i fs

NotAfter-mono : (l m : ℕ) (o : Option ℕ) → l ≤ m → NotAfter m o → NotAfter l o
NotAfter-mono l m none le h = tt
NotAfter-mono l m (some k) le h = omega arith

Oldest-mono : (l m : ℕ) (fs : List Frame) → l ≤ m → Oldest m fs → Oldest l fs
Oldest-mono l m [] le h = tt
Oldest-mono l m (f ∷ r) le h = (NotAfter-mono l m f.lru le h.0, Oldest-mono l m r le h.1)

NotAfter-lower :
    (o : Option ℕ) (lowest : ℕ)
    → is_lower o lowest ≡ false
    → NotAfter lowest o × (lower o lowest ≡ lowest)
NotAfter-lower none lowest h = (tt, refl)
NotAfter-lower (some l) lowest h = (ground arith, ground arith)

lower-some :
    (o : Option ℕ) (lowest : ℕ)
    → is_lower o lowest ≡ true
    → (o ≡ some (lower o lowest)) × (lower o lowest < lowest) × NotAfter (lower o lowest) o
lower-some none lowest h = cc
lower-some (some l) lowest h = rw h (refl, ground arith, omega arith)

find_victim_lem :
    (lowest : ℕ) (victim : Option ℕ) (i : ℕ) (fs : List Frame) → FindVictim lowest victim i fs
unfolding find_victim
find_victim_lem lowest victim i [] = kept refl tt
find_victim_lem lowest victim i (f ∷ r) =
    let rest =
      find_victim_lem (lower f.lru lowest) (if is_lower f.lru lowest then some i else victim)
        (i + 1) r in
    elim (Bool-cases (is_lower f.lru lowest)) [
      | inr e ↦
          let (after, same) = NotAfter-lower f.lru lowest e in
          elim rest [
            | kept eq old ↦ kept (ground arith) (after, rw same at old)
            | at k l g here used lt old eq ↦
                at (suc k) l g here used (omega arith)
                  (NotAfter-mono l lowest f.lru (omega arith) after, old) (ground arith)
          ]
      | inl e ↦
          let (is, lt, after) = lower-some f.lru lowest e in
          elim rest [
            | kept eq old ↦ at 0 (lower f.lru lowest) f refl is lt (after, old) (ground arith)
            | at k l g here used lt' old eq ↦
                at (suc k) l g here used (omega arith)
                  (NotAfter-mono l (lower f.lru lowest) f.lru (omega arith) after, old)
                  (ground arith)
          ]
    ]

AllUsed-lt :
    (now : ℕ) (fs : List Frame)
    → All (FrameOk now) fs
    → AllFull fs
    → Oldest now fs
    → 0 < length fs
    → ⊥
AllUsed-lt now [] used full old pos = omega arith
AllUsed-lt now (f ∷ r) used full old pos = elim (Option-cases f.lru) [
  | inl e ↦ ground arith
  | inr (l, e) ↦ ground arith
]

-- `loadFrame` always has a frame to fill: the first empty one if there is any, and otherwise
-- the one whose last use is longest ago, whose lines are printed. So `victimFrame` is never read uninitialised, as long as
-- there is a frame and `num_lru` has not passed `INT_MAX`.
pub choose_frame-Oldest :
    {s : FrameStore}
    → IsStore s
    → 0 < length s.frames
    → s.num_lru ≤ int_max
    → (i : ℕ) × (printed : List Text) × (f : Frame) × (choose_frame s ≡ some (i, printed))
      × (get_elem? s.frames i ≡ some f)
      × (((f.empty ≡ true) × (printed ≡ []))
          ⊎ ((l : ℕ) × (f.lru ≡ some l)
              × Oldest l s.frames
              × AllFull s.frames
              × (printed ≡ victim_report f)))
unfolding choose_frame
choose_frame-Oldest {s} v pos small = elim (find_empty_lem 0 s.frames) [
  | at k f here free eq ↦ (k, [], f, ground arith, here, inl (free, refl))
  | all_full eq full ↦ elim (find_victim_lem int_max none 0 s.frames) [
    | kept eq' old ↦ absurd (
        AllUsed-lt s.num_lru s.frames v.used full (Oldest-mono s.num_lru int_max s.frames small old)
          pos)
    | at k l f here used lt old eq' ↦
        (k, victim_report f, f, ground arith, here, inr (l, used, old, full, refl))
  ]
]
