-- ===== src/A2/Frames/Service.antt =====
-- `loadFrame` and `getLineFromFrameStore` of a2/shellmemory.c keep the frame store in order, and the
-- one returns the lines that the other has read.
use comp.Prelude.{
  ℕ, zero, suc, ◌+◌, ◌<◌, ◌≤◌, ◌≡◌, ◌⊎◌, inl, inr, refl, ◌∙◌, Bool, true, false, Option, none, some,
  List, [], ◌∷◌, arith, All, length, get_elem?, set, Bool-cases, Option-cases, length-set,
  get_elem?-set_self, not, ◌||◌, leb, ltb, lt→ltb, ltb→lt,
}
use mathlib.Core.Path.{subst}
use comp.Prelude.Text.{Text}
use comp.A2.Stream.{Stream, read_next_command}
use comp.A2.Frames.Lru.{FrameOk, UsedBefore, HasLines, IsStore, choose_frame-Oldest}
use comp.A2.Frames.Load.{nth_command, load_lines-nth}
use comp.A2.Frames.{
  Stale, Frame, FrameStore, int_max, init_frames, choose_frame, fill_frame, load_frame, Loaded,
  get_line, is_pid, filled, touch, line_at, load_lines, lines_per_frame, remove_whitespace,
}

pub All-set {ℓ κ} :
    {A : Type ℓ} (P : A → Type κ) (xs : List A) (i : ℕ) (v : A)
    → All P xs
    → P v
    → All P (set xs i v)
All-set P [] i v h p = tt
All-set P (x ∷ xs) zero v h p = (p, h.1)
All-set P (x ∷ xs) (suc i) v h p = (h.0, All-set P xs i v h.1 p)

some_inj {ℓ} : {A : Type ℓ} {x y : A} → some x ≡ some y → x ≡ y
some_inj e = cc

pub All-get {ℓ κ} :
    {A : Type ℓ} (P : A → Type κ) (xs : List A) (i : ℕ) {x : A}
    → All P xs
    → get_elem? xs i ≡ some x
    → P x
All-get P [] i h e = cc
All-get P (y ∷ xs) zero h e = subst P (some_inj e) h.0
All-get P (y ∷ xs) (suc i) h e = All-get P xs i h.1 e

UsedBefore-suc :
    (now : ℕ) (e : Bool) (p o : Option ℕ) → UsedBefore now e p o → UsedBefore (now + 1) e p o
UsedBefore-suc now e p none h = h
UsedBefore-suc now e p (some l) h = (h.0, omega arith)

All-later : (now : ℕ) (fs : List Frame) → All (FrameOk now) fs → All (FrameOk (now + 1)) fs
All-later now [] h = tt
All-later now (f ∷ r) h = (UsedBefore-suc now f.empty f.pid f.lru h.0, All-later now r h.1)

init-used : (stale : Stale) (n : ℕ) → All (FrameOk 0) (init_frames stale n).frames
unfolding init_frames
init-used stale zero = tt
init-used stale (suc n) = ((refl, refl), init-used stale n)

init-shaped : (stale : Stale) (n : ℕ) → All HasLines (init_frames stale n).frames
unfolding init_frames
init-shaped stale zero = tt
init-shaped stale (suc n) = (refl, init-shaped stale n)

length-load_lines :
    (stale : ℕ → Text → Text) (n i : ℕ) (lines : List (Option Text)) (fp : Stream)
    → length (load_lines stale n i lines fp).0 ≡ length lines
unfolding load_lines
length-load_lines stale zero i lines fp = refl
length-load_lines stale (suc n) i lines fp =
    let (more, command, fp') = read_next_command fp in
    elim (Bool-cases more) [
      | inl e ↦
          rw (e, load_lines)
            (length-load_lines stale n (i + 1)
                (set lines i (some (stale i (remove_whitespace command)))) fp'
              ∙ length-set lines i (some (stale i (remove_whitespace command))))
      | inr e ↦ rw (e, load_lines) (length-load_lines stale n (i + 1) lines fp')
    ]

-- `mem_init` leaves a store in which every frame is empty and was never used.
pub init_frames-IsStore : (stale : Stale) (n : ℕ) → IsStore (init_frames stale n)
unfolding init_frames
init_frames-IsStore stale n = record { used = init-used stale n; shaped = init-shaped stale n }

pub lt_of_get {ℓ} :
    {A : Type ℓ} (xs : List A) (i : ℕ) {x : A} → get_elem? xs i ≡ some x → i < length xs
lt_of_get [] i e = cc
lt_of_get (y ∷ xs) zero e = omega arith
lt_of_get (y ∷ xs) (suc i) e = omega (arith, lt_of_get xs i e)

pub load_frame-chosen :
    (fp : Stream) (pid : ℕ) (s : FrameStore) (i : ℕ) {printed : List Text} {f : Frame}
    → choose_frame s ≡ some (i, printed)
    → get_elem? s.frames i ≡ some f
    → s.num_lru < int_max
    → load_frame fp pid s ≡ some (fill_frame fp pid s i printed f)
unfolding load_frame
load_frame-chosen fp pid s i chosen here small =
    rw (chosen, load_frame) (rw (here, load_frame) (rw (lt→ltb s.num_lru int_max small) refl))

-- With a frame in the store and `num_lru` below `INT_MAX`, `loadFrame` returns. It fills the frame that it returns for the
-- process, keeps that every full frame has a last use before `num_lru` and the empty ones have
-- none, and moves `num_lru` on by one; the number of frames stays.
pub load_frame-IsStore :
    {s : FrameStore} (fp : Stream) (pid : ℕ)
    → IsStore s
    → 0 < length s.frames
    → s.num_lru < int_max
    → (l : Loaded) × (f : Frame) × (load_frame fp pid s ≡ some l)
      × IsStore l.store
      × (l.store.num_lru ≡ s.num_lru + 1)
      × (length l.store.frames ≡ length s.frames)
      × (get_elem? l.store.frames l.frame ≡ some f)
      × (f.pid ≡ some pid)
      × (f.lru ≡ some s.num_lru)
unfolding load_frame fill_frame
load_frame-IsStore {s} fp pid v pos small =
    let (i, printed, f, chosen, here, why) = choose_frame-Oldest v pos (omega arith) in
    let lines = (load_lines (s.stale s.num_lru) lines_per_frame 0 f.lines fp).0 in
    let new = filled pid s lines in
    (
      fill_frame fp pid s i printed f,
      new,
      load_frame-chosen fp pid s i chosen here small,
      record {
        used =
            All-set (FrameOk (s.num_lru + 1)) s.frames i new (All-later s.num_lru s.frames v.used)
              (refl, omega arith);
        shaped = All-set HasLines s.frames i new v.shaped (
            length-load_lines (s.stale s.num_lru) lines_per_frame 0 f.lines fp
            ∙ All-get HasLines s.frames i v.shaped here);
      },
      refl,
      length-set s.frames i new,
      get_elem?-set_self s.frames i new (lt_of_get s.frames i here),
      refl,
      refl,
    )

not_empty : (now pid : ℕ) (f : Frame) → FrameOk now f → is_pid f.pid pid ≡ true → f.empty ≡ false
not_empty now pid f ok own = elim (Option-cases f.lru) [
  | inl e ↦ ground arith
  | inr (l, e) ↦ ground arith
]

get_line-own :
    (pid i j : ℕ) (s : FrameStore) (f : Frame)
    → get_elem? s.frames i ≡ some f
    → (not (is_pid f.pid pid) || leb lines_per_frame j) ≡ false
    → s.num_lru < int_max
    → get_line pid i j s ≡ some (line_at f.lines j, touch i f s)
unfolding get_line
get_line-own pid i j s f here own small =
    rw (here, get_line) (rw own (rw (lt→ltb s.num_lru int_max small) refl))

get_line-inv :
    {s t : FrameStore} {o : Option Text} (pid i j : ℕ)
    → get_line pid i j s ≡ some (o, t)
    → ((t ≡ s) × (o ≡ none))
      ⊎ ((f : Frame) × (get_elem? s.frames i ≡ some f)
          × ((not (is_pid f.pid pid) || leb lines_per_frame j) ≡ false)
          × (s.num_lru < int_max)
          × (t ≡ touch i f s)
          × (o ≡ line_at f.lines j))
unfolding get_line
get_line-inv {s} pid i j e = elim (Option-cases (get_elem? s.frames i)) [
  | inl missing ↦ absurd (ground arith)
  | inr (f, here) ↦ elim (Bool-cases (not (is_pid f.pid pid) || leb lines_per_frame j)) [
    | inl other ↦ inl (ground arith, ground arith)
    | inr own ↦ elim (Bool-cases (ltb s.num_lru int_max)) [
      | inl small ↦ inr (f, here, own, ltb→lt _ _ small, ground arith, ground arith)
      | inr large ↦ absurd (ground arith)
    ]
  ]
]

-- `getLineFromFrameStore` keeps the same facts, with `num_lru` moved on by one at most and the
-- number of frames unchanged.
pub get_line-IsStore :
    {s t : FrameStore} {o : Option Text} (pid i j : ℕ)
    → IsStore s
    → get_line pid i j s ≡ some (o, t)
    → IsStore t × (t.num_lru ≤ s.num_lru + 1) × (length t.frames ≡ length s.frames)
get_line-IsStore {s} {t} pid i j v e = elim (get_line-inv pid i j e) [
  | inl (same, nothing) ↦ rw same (v, omega arith, refl)
  | inr (f, here, own, small, eq, line) ↦
      let ok : FrameOk s.num_lru f = All-get (FrameOk s.num_lru) s.frames i v.used here in
      let later = All-later s.num_lru s.frames v.used in
      rw eq (
        record {
          used =
              All-set (FrameOk (s.num_lru + 1)) s.frames i _ later
                (not_empty s.num_lru pid f ok (ground arith), omega arith);
          shaped =
              All-set HasLines s.frames i _ v.shaped (All-get HasLines s.frames i v.shaped here);
        },
        omega arith,
        length-set s.frames i _,
      )
]

-- What `loadFrame` has stored for a process, `getLineFromFrameStore` returns to it, while `num_lru`
-- does not reach `INT_MAX`: line `k` of the frame is what `strdup` read at the address of the dead
-- array that held the `k`-th command from the file position on, stripped of leading blanks.
pub get_line-load_frame :
    {s : FrameStore} {t : Text} (fp : Stream) (pid k : ℕ)
    → IsStore s
    → 0 < length s.frames
    → s.num_lru + 1 < int_max
    → k < lines_per_frame
    → nth_command k fp ≡ some t
    → (l : Loaded) × (st : FrameStore) × (load_frame fp pid s ≡ some l)
      × (st.num_lru ≡ s.num_lru + 2)
      × (get_line pid l.frame k l.store
          ≡ some (some (s.stale s.num_lru k (remove_whitespace t)), st))
unfolding fill_frame get_line
get_line-load_frame {s} {t} fp pid k v pos small lt e =
    let (i, printed, f, chosen, here, why) = choose_frame-Oldest v pos (omega arith) in
    let lines = (load_lines (s.stale s.num_lru) lines_per_frame 0 f.lines fp).0 in
    let new = filled pid s lines in
    let l = fill_frame fp pid s i printed f in
    let back : get_elem? l.store.frames i ≡ some new =
      get_elem?-set_self s.frames i new (lt_of_get s.frames i here) in
    let shape : length f.lines ≡ lines_per_frame = All-get HasLines s.frames i v.shaped here in
    let got : line_at lines k ≡ some (s.stale s.num_lru k (remove_whitespace t)) =
      let z : 0 + k ≡ k = omega arith in
      rw z at (
        load_lines-nth (s.stale s.num_lru) lines_per_frame 0 k f.lines fp lt (omega (arith, shape))
          e) in
    let own = get_line-own pid i k l.store new back (ground arith) small in
    (
      l,
      touch i new l.store,
      load_frame-chosen fp pid s i chosen here (omega arith),
      omega arith,
      own ∙ rw got refl,
    )

-- A line that was found is found again, if `num_lru` does not overflow.
pub get_line_again :
    (s : FrameStore) {st : FrameStore} {t : Text} (pid i j : ℕ)
    → get_line pid i j s ≡ some (some t, st)
    → st.num_lru < int_max
    → (st' : FrameStore) × (get_line pid i j st ≡ some (some t, st'))
get_line_again s {st} {t} pid i j e room = elim (get_line-inv pid i j e) [
  | inl (same, nothing) ↦ absurd (ground arith)
  | inr (f, here, own, small, eq, is) ↦
      let g = record f { lru = some s.num_lru } in
      let back : get_elem? st.frames i ≡ some g =
        rw eq (get_elem?-set_self s.frames i g (lt_of_get s.frames i here)) in
      (touch i g st, get_line-own pid i j st g back own room ∙ rw (← is))
]
