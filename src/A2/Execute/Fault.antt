-- ===== src/A2/Execute/Fault.antt =====
-- What the service of a page fault in `execute_process` of a2/kernel.c brings into the frame.
use comp.Prelude.{
  ℕ, zero, suc, ◌+◌, ◌/◌, ◌%◌, ◌<◌, ◌≡◌, refl, ◌∙◌, some, arith, length, set, get_elem?,
  get_elem?-set_self, lt→ltb, ap,
}
use comp.Prelude.Text.{Text}
use comp.Prelude.Run.{done}
use comp.A2.Stream.{Stream, read_next_command, rewind}
use comp.A2.Pcb.{Pcb, set_frame, max_pages}
use comp.A2.Frames.{
  FrameStore, Loaded, load_frame, int_max, lines_per_frame, remove_whitespace, get_line,
}
use comp.A2.Frames.Lru.{IsStore}
use comp.A2.Frames.Service.{get_line-load_frame, get_line_again}
use comp.A2.Frames.Load.{nth_command}
use comp.A2.State.{Shell}
use comp.A2.Process.{load_page, after_load}
use comp.A2.Execute.{skip_commands, line, fetch, serve_fault}

nth_command-skip :
    (n j : ℕ) (fp : Stream) → nth_command j (skip_commands n fp) ≡ nth_command (n + j) fp
unfolding skip_commands nth_command
nth_command-skip zero j fp = ap (λ m. nth_command m fp) same
  where
    same : j ≡ 0 + j
    same = omega arith
nth_command-skip (suc n) j fp =
    nth_command-skip n j (read_next_command fp).2 ∙ ap (λ m. nth_command m fp) next
  where
    next : suc (n + j) ≡ suc n + j
    next = omega arith

nth_of_skip :
    (n : ℕ) (fp : Stream) (j : ℕ) {t : Text}
    → nth_command (n + j) fp ≡ some t
    → nth_command j (skip_commands n fp) ≡ some t
nth_of_skip n fp j e = nth_command-skip n j fp ∙ e

-- A line whose page has a frame of the process is fetched.
pub fetch-resident :
    (pcb : Pcb) (s : FrameStore) (i : ℕ) {t : Text} {st : FrameStore}
    → get_elem? pcb.page_table (pcb.pc / lines_per_frame) ≡ some (some i)
    → get_line pcb.pid i (pcb.pc % lines_per_frame) s ≡ some (some t, st)
    → st.num_lru < int_max
    → (st' : FrameStore) × (fetch pcb s ≡ line t st')
unfolding fetch
fetch-resident pcb s i mapped got room =
    let (st', again) = get_line_again s pcb.pid i (pcb.pc % lines_per_frame) got room in
    (st', rw (mapped, fetch) (rw (got, fetch) (rw again)))

set_frame-lt :
    (pcb : Pcb) (page frame : ℕ)
    → page < max_pages
    → set_frame pcb page frame ≡ record pcb { page_table = set pcb.page_table page (some frame) }
unfolding set_frame
set_frame-lt pcb page frame h = rw (lt→ltb _ _ h)

load_page-loaded :
    {W : Type 0} (s : Shell W) (pcb : Pcb) (pid page : ℕ) {l : Loaded}
    → load_frame pcb.fp pid s.store ≡ some l
    → load_page pcb pid page s
      ≡ done (set_frame (record pcb { fp = l.fp }) page l.frame) (after_load s l)
unfolding load_page
load_page-loaded s pcb pid page loaded = rw (loaded, load_page)

serve_fault-loaded :
    {W : Type 0} (s : Shell W) (pcb : Pcb) {l : Loaded}
    → load_frame (skip_commands pcb.current_command (rewind pcb.fp)) pcb.pid s.store ≡ some l
    → pcb.pc / lines_per_frame < max_pages
    → serve_fault pcb s
      ≡ done
          (record pcb {
            fp = l.fp;
            page_table = set pcb.page_table (pcb.pc / lines_per_frame) (some l.frame);
          })
          (after_load s l)
unfolding serve_fault
serve_fault-loaded s pcb {l} loaded page =
    let fp = skip_commands pcb.current_command (rewind pcb.fp) in
    let page_no = pcb.pc / lines_per_frame in
    load_page-loaded s (record pcb { fp = fp }) pcb.pid page_no loaded
    ∙ ap (λ p. done p (after_load s l))
        (set_frame-lt (record pcb { fp = l.fp }) page_no l.frame page)

-- After the service of a page fault the process finds in the frame, at its program counter, the
-- command of its file whose index is `current_command` plus the place of the program counter in
-- its page. So a fault at the start of a page, where that place is 0, is followed by the
-- command at `current_command`. The text found is what `strdup` read of the dead array that held
-- this command without its leading blanks; `num_lru` has room below `INT_MAX` for the three steps.
pub fetch-serve_fault :
    {W : Type 0} (s : Shell W) {t : Text} (pcb : Pcb)
    → IsStore s.store
    → 0 < length s.store.frames
    → s.store.num_lru + 2 < int_max
    → length pcb.page_table ≡ max_pages
    → pcb.pc / lines_per_frame < max_pages
    → nth_command (pcb.current_command + pcb.pc % lines_per_frame) (rewind pcb.fp) ≡ some t
    → (pcb' : Pcb) × (s' : Shell W) × (st : FrameStore) × (serve_fault pcb s ≡ done pcb' s')
      × (pcb'.pc ≡ pcb.pc)
      × (fetch pcb' s'.store
          ≡ line
              (s.store.stale s.store.num_lru (pcb.pc % lines_per_frame) (remove_whitespace t))
              st)
fetch-serve_fault s {t} pcb v pos small table page e =
    let fp = skip_commands pcb.current_command (rewind pcb.fp) in
    let k = pcb.pc % lines_per_frame in
    let (l, st, loaded, steps, got) =
      get_line-load_frame fp pcb.pid k v pos (omega arith) (omega arith)
        (nth_of_skip pcb.current_command (rewind pcb.fp) k e) in
    let page_no = pcb.pc / lines_per_frame in
    let pcb' = record pcb { fp = l.fp; page_table = set pcb.page_table page_no (some l.frame) } in
    let mapped : get_elem? pcb'.page_table page_no ≡ some (some l.frame) =
      get_elem?-set_self pcb.page_table page_no (some l.frame) (omega (arith, table)) in
    let (st', fetched) = fetch-resident pcb' l.store l.frame mapped got (omega arith) in
    (pcb', after_load s l, st', serve_fault-loaded s pcb loaded page, refl, fetched)
