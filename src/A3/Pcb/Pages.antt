-- ===== src/A3/Pcb/Pages.antt =====
-- What is in memory and in the page after a page of a3/pcb.c is loaded.
use comp.Prelude.{
  ℕ, zero, suc, ◌+◌, ◌*◌, ◌<◌, ◌≤◌, ◌≡◌, ◌⊎◌, ◌∙◌, inl, inr, refl, ap, true, false, Option, none,
  some, [], ◌∷◌, arith, length, get_elem?, set, Option-cases, get_elem?-set_self, get_elem?-set_ne,
  length-set,
}
use comp.Prelude.Text.{Text}
use comp.A3.Memory.{Slot, Memory, store_at, mem_set_value_at, mem_get_value_at, frame_alloc}
use comp.A3.Memory.Frames.{frame_alloc-room}
use comp.A3.Pcb.{
  Page, fgets, Loading, load_lines, with_frame, load_page, loaded, no_space, pid_str,
  page_table_size,
}

-- The table has the fewest pages of three lines that hold all lines.
pub page_table_size-bounds :
    (lines : ℕ) → (lines ≤ 3 * page_table_size lines) × (3 * page_table_size lines < lines + 3)
unfolding page_table_size
page_table_size-bounds lines = ground arith

store_at_lem :
    (pos : ℕ) (s : Slot) (m : Memory)
    → pos < length m
    → (m' : Memory) × (store_at pos s m ≡ some m') × (m' ≡ set m pos s)
unfolding store_at
store_at_lem pos s [] lt = elim lt [ ]
store_at_lem zero s (x ∷ m) lt = (s ∷ m, refl, refl)
store_at_lem (suc pos) s (x ∷ m) lt =
    let (m', eq, is) = store_at_lem pos s m (omega arith) in
    (x ∷ m', rw eq refl, ap (λ t. x ∷ t) is)

-- The line that the call number `k` of `fgets` returns from here on.
abbrev first_line : Option (Text × Text) → Option Text
first_line none = none
first_line (some (line, rest)) = some line

unfoldable pub nth_line : ℕ → Text → Option Text
unfolding fgets
nth_line zero file = first_line (fgets file)
nth_line (suc k) file = elim (fgets file) as (λ _. Option Text) [
  | none ↦ none
  | some (line, rest) ↦ nth_line k rest
]

nth_line-end : (k : ℕ) (file : Text) → fgets file ≡ none → nth_line k file ≡ none
unfolding nth_line
nth_line-end zero file e = rw e refl
nth_line-end (suc k) file e = rw (e, nth_line) refl

nth_line-suc :
    (k : ℕ) (file : Text) {line rest : Text}
    → fgets file ≡ some (line, rest)
    → nth_line (suc k) file ≡ nth_line k rest
unfolding nth_line
nth_line-suc k file e = rw (e, nth_line) refl

nth_line-zero :
    (file : Text) {line rest : Text} → fgets file ≡ some (line, rest) → nth_line 0 file ≡ some line
unfolding nth_line
nth_line-zero file e = rw e refl

index_at : (s j : ℕ) → j < 3 → get_elem? (s ∷ (s + 1) ∷ (s + 2) ∷ []) j ≡ some (s + j)
index_at s zero lt = ground arith
index_at s (suc zero) lt = refl
index_at s (suc (suc zero)) lt = refl
index_at s (suc (suc (suc j))) lt = absurd (omega arith)

-- A page with the frame at `s` in a memory that has room for it.
record InFrame (s : ℕ) (l : Loading) : Type 0 where
  frame : l.page.index ≡ s ∷ (s + 1) ∷ (s + 2) ∷ []
  bits : length l.page.valid_bit ≡ 3
  room : s + 3 ≤ length l.memory

abbrev Loads : ℕ → ℕ → ℕ → Loading → Loading → Type 0
Loads s j k l l' =
    ((nth_line k l.file ≡ none)
      × (get_elem? l'.page.valid_bit (j + k) ≡ get_elem? l.page.valid_bit (j + k)))
    ⊎ ((t : Text) × (nth_line k l.file ≡ some t)
        × (get_elem? l'.page.valid_bit (j + k) ≡ some true)
        × (mem_get_value_at (s + (j + k)) l'.memory ≡ some t))

record After (s n j : ℕ) (l l' : Loading) : Type 0 where
  in_frame : InFrame s l'
  bits_below : (q : ℕ) → q < j → get_elem? l'.page.valid_bit q ≡ get_elem? l.page.valid_bit q
  slots_below : (p : ℕ) → p < s + j → get_elem? l'.memory p ≡ get_elem? l.memory p
  loads : (k : ℕ) → k < n → Loads s j k l l'

zero_or_suc : (k : ℕ) → (k ≡ 0) ⊎ ((i : ℕ) × (k ≡ suc i))
zero_or_suc zero = inl refl
zero_or_suc (suc i) = inr (i, refl)

mem_get_value_at_lem :
    (p : ℕ) (m : Memory) {s : Slot} → get_elem? m p ≡ some s → mem_get_value_at p m ≡ some s.value
unfolding mem_get_value_at
mem_get_value_at_lem p m e = rw e refl

load_lines-end :
    (n j : ℕ) (pid : Text) (l : Loading) → fgets l.file ≡ none → load_lines (suc n) j pid l ≡ some l
unfolding load_lines
load_lines-end n j pid l e = rw (e, load_lines) refl

load_lines-step :
    (n j : ℕ) (pid : Text) (l : Loading) {line rest : Text} {pos : ℕ} {m : Memory}
    → fgets l.file ≡ some (line, rest)
    → get_elem? l.page.index j ≡ some pos
    → mem_set_value_at pos pid line l.memory ≡ some m
    → load_lines (suc n) j pid l
      ≡ load_lines n (j + 1) pid (record {
        page = record l.page { valid_bit = set l.page.valid_bit j true };
        file = rest;
        memory = m;
      })
unfolding load_lines
load_lines-step n j pid l e here wrote = rw (e, load_lines) (rw here (rw wrote refl))

Loads-zero :
    (s j : ℕ) (l l' : Loading) {line rest : Text}
    → fgets l.file ≡ some (line, rest)
    → get_elem? l'.page.valid_bit j ≡ some true
    → mem_get_value_at (s + j) l'.memory ≡ some line
    → Loads s j 0 l l'
Loads-zero s j l l' {line} e bit value =
    let z : j + 0 ≡ j = omega arith in inr (line, nth_line-zero l.file e, rw z bit, rw z value)

Loads-suc :
    (s j k : ℕ) (l l' l1 : Loading) {line : Text}
    → fgets l.file ≡ some (line, l1.file)
    → get_elem? l1.page.valid_bit (j + suc k) ≡ get_elem? l.page.valid_bit (j + suc k)
    → Loads s (j + 1) k l1 l'
    → Loads s j (suc k) l l'
Loads-suc s j k l l' l1 e other (inl (end, same)) =
    let z : j + 1 + k ≡ j + suc k = omega arith in
    inl (nth_line-suc k l.file e ∙ end, (rw z at same) ∙ other)
Loads-suc s j k l l' l1 e other (inr (t, line, bit, value)) =
    let z : j + 1 + k ≡ j + suc k = omega arith in
    inr (t, nth_line-suc k l.file e ∙ line, rw z at bit, rw z at value)

load_lines_lem :
    (s n j : ℕ) (pid : Text) (l : Loading)
    → j + n ≡ 3
    → InFrame s l
    → (l' : Loading) × (load_lines n j pid l ≡ some l') × After s n j l l'
unfolding load_lines mem_set_value_at
load_lines_lem s zero j pid l all v = (
  l,
  refl,
  record {
    in_frame = v;
    bits_below = λ q lt. refl;
    slots_below = λ p lt. refl;
    loads = λ k lt. elim lt [ ];
  },
)
load_lines_lem s (suc n) j pid l all v = elim (Option-cases (fgets l.file)) [
  | inl e ↦ (
    l,
    load_lines-end n j pid l e,
    record {
      in_frame = v;
      bits_below = λ q lt. refl;
      slots_below = λ p lt. refl;
      loads = λ k lt. inl (nth_line-end k l.file e, refl);
    },
  )
  | inr ((line, rest), e) ↦
      let here : get_elem? l.page.index j ≡ some (s + j) =
        rw v.frame (index_at s j (omega arith)) in
      let new : Slot = record { var = pid; value = line } in
      let (m, wrote, is) = store_at_lem (s + j) new l.memory (omega (arith, v.room)) in
      let len : length m ≡ length l.memory = ap length is ∙ length-set l.memory (s + j) new in
      let l1 : Loading = record {
        page = record l.page { valid_bit = set l.page.valid_bit j true };
        file = rest;
        memory = m;
      } in
      let (l', eq, out) = load_lines_lem s n (j + 1) pid l1 (omega arith) (record {
        frame = v.frame;
        bits = length-set l.page.valid_bit j true ∙ v.bits;
        room = omega (arith, v.room, len);
      }) in
      (
        l',
        load_lines-step n j pid l e here wrote ∙ eq,
        record {
          in_frame = out.in_frame;
          bits_below = λ q lt.
              out.bits_below q (omega arith)
              ∙ get_elem?-set_ne l.page.valid_bit j q true (omega arith);
          slots_below = λ p lt.
              out.slots_below p (omega arith)
              ∙ (ap (λ x. get_elem? x p) is
                  ∙ get_elem?-set_ne l.memory (s + j) p new (omega arith));
          loads = λ k lt. elim (zero_or_suc k) [
            | inl z ↦ rw z (
                Loads-zero s j l l' e
                  (out.bits_below j (omega arith)
                    ∙ get_elem?-set_self l.page.valid_bit j true (omega (arith, v.bits)))
                  (mem_get_value_at_lem (s + j) l'.memory (
                    out.slots_below (s + j) (omega arith)
                    ∙ (ap (λ x. get_elem? x (s + j)) is
                        ∙ get_elem?-set_self l.memory (s + j) new (omega (arith, v.room))))))
            | inr (i, z) ↦ rw z (
                Loads-suc s j i l l' l1 e
                  (get_elem?-set_ne l.page.valid_bit j (j + suc i) true (omega arith))
                  (out.loads i (omega arith)))
          ];
        },
      )
]

load_page-full :
    (border pid : ℕ) (page : Page) (file : Text) (m : Memory)
    → frame_alloc border (pid_str pid) m ≡ none
    → load_page border pid page file m ≡ no_space
unfolding load_page
load_page-full border pid page file m e = rw (e, load_page) refl

load_page-frame :
    (border pid : ℕ) (page : Page) (file : Text) (m : Memory) {s : ℕ} {m' : Memory} {l : Loading}
    → frame_alloc border (pid_str pid) m ≡ some (s, m')
    → load_lines 3 0 (pid_str pid) (record { page = with_frame s page; file = file; memory = m' })
      ≡ some l
    → load_page border pid page file m ≡ loaded l
unfolding load_page
load_page-frame border pid page file m e got = rw (e, load_page) (rw got refl)

bits_false :
    (s : ℕ) (page : Page) (k : ℕ) → k < 3 → get_elem? (with_frame s page).valid_bit k ≡ some false
unfolding with_frame
bits_false s page zero lt = refl
bits_false s page (suc zero) lt = refl
bits_false s page (suc (suc zero)) lt = refl
bits_false s page (suc (suc (suc k))) lt = absurd (omega arith)

abbrev SlotOf : Text → ℕ → Loading → Type 0
SlotOf file k l =
    ((nth_line k file ≡ none) × (get_elem? l.page.valid_bit k ≡ some false))
    ⊎ ((t : Text) × (pos : ℕ) × (nth_line k file ≡ some t)
        × (get_elem? l.page.valid_bit k ≡ some true)
        × (get_elem? l.page.index k ≡ some pos)
        × (mem_get_value_at pos l.memory ≡ some t))

load_page-slot :
    (s k : ℕ) (start l : Loading)
    → k < 3
    → get_elem? start.page.valid_bit k ≡ some false
    → l.page.index ≡ s ∷ (s + 1) ∷ (s + 2) ∷ []
    → Loads s 0 k start l
    → SlotOf start.file k l
load_page-slot s k start l lt unset frame (inl (end, same)) =
    let z : 0 + k ≡ k = omega arith in inl (end, (rw z at same) ∙ unset)
load_page-slot s k start l lt unset frame (inr (t, line, bit, value)) =
    let z : 0 + k ≡ k = omega arith in
    inr (t, s + k, line, rw z at bit, rw frame (index_at s k lt), rw z at value)

-- Slot `k` of a page that is loaded has its valid bit and its line in memory if and only if the
-- file has such a line from its position on, and it is that line. The frames are part of the
-- memory.
pub load_page-lines :
    (border pid : ℕ) (page : Page) (file : Text) (m : Memory) (k : ℕ)
    → border ≤ length m
    → k < 3
    → (load_page border pid page file m ≡ no_space)
      ⊎ ((l : Loading) × (load_page border pid page file m ≡ loaded l)
          × (((nth_line k file ≡ none) × (get_elem? l.page.valid_bit k ≡ some false))
              ⊎ ((t : Text) × (pos : ℕ) × (nth_line k file ≡ some t)
                  × (get_elem? l.page.valid_bit k ≡ some true)
                  × (get_elem? l.page.index k ≡ some pos)
                  × (mem_get_value_at pos l.memory ≡ some t))))
unfolding load_page with_frame
load_page-lines border pid page file m k room lt = elim (frame_alloc-room border (pid_str pid) m) [
  | inl full ↦ inl (load_page-full border pid page file m full)
  | inr (s, m', eq, fits, same) ↦
      let start : Loading = record { page = with_frame s page; file = file; memory = m' } in
      let (l, got, out) =
        load_lines_lem s 3 0 (pid_str pid) start (omega arith)
          (record { frame = refl; bits = refl; room = omega (arith, same) }) in
      inr (
        l,
        load_page-frame border pid page file m eq got,
        load_page-slot s k start l lt (bits_false s page k lt) out.in_frame.frame (out.loads k lt),
      )
]
