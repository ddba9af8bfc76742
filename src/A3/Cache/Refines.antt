-- ===== src/A3/Cache/Refines.antt =====
-- a3/fs/cache.c refines a disk that is written at once: reads, writes and the close.
use comp.Prelude.{
  ℕ, zero, suc, ◌+◌, ◌≡◌, ◌≢◌, ◌⊎◌, ◌∙◌, inl, inr, refl, sym, true, false, ◌&&◌, Option, none, some,
  List, [], ◌∷◌, arith, get_elem?, Bool-cases, get_elem?-set_self, ◌==◌,
}
use comp.Prelude.Run.{done}
use comp.A3.Cache.{
  Device, Entry, Cache, lookup, put, buffer_cache_evict, fill, fetch_slot, read_slot, write_slot,
  buffer_cache_read, buffer_cache_write,
}
use comp.A3.Cache.Slots.{lt_of_get?, IsDevice, Holds, Shows}
use comp.A3.Cache.Steps.{update, Shows-access, Shows-fill, Shows-write}
use comp.A3.Cache.Clock.{buffer_cache_evict-Evicted}

data Found {S : Type 0} (s i : ℕ) (es : List (Entry S)) : Type 0 where
  cached :
      (k : ℕ) (e : Entry S)
      → Holds es k e
      → e.disk_sector ≡ s
      → lookup s i es ≡ some (i + k)
      → Found s i es
  absent :
      ((j : ℕ) (f : Entry S) → Holds es j f → s ≢ f.disk_sector)
      → lookup s i es ≡ none
      → Found s i es

lookup-step :
    {S : Type 0} (s i : ℕ) (e : Entry S) (r : List (Entry S))
    → ((e.occupied ≡ true) × (e.disk_sector ≡ s) × (lookup s i (e ∷ r) ≡ some i))
      ⊎ ((e.occupied ≡ true → s ≢ e.disk_sector) × (lookup s i (e ∷ r) ≡ lookup s (i + 1) r))
unfolding lookup
lookup-step s i e r = elim (Bool-cases (e.occupied && (e.disk_sector == s))) [
  | inl b ↦ inl (ground arith, ground arith, ground arith)
  | inr b ↦ inr (λ occ same. ground arith, ground arith)
]

absent_suc :
    {S : Type 0} (s : ℕ) (e : Entry S) (r : List (Entry S))
    → (e.occupied ≡ true → s ≢ e.disk_sector)
    → ((j : ℕ) (f : Entry S) → Holds r j f → s ≢ f.disk_sector)
    → (j : ℕ) (f : Entry S) → Holds (e ∷ r) j f
    → s ≢ f.disk_sector
absent_suc s e r other rest zero f (at, occ) same = ground arith
absent_suc s e r other rest (suc j) f at same = rest j f at same

lookup_lem : {S : Type 0} (s i : ℕ) (es : List (Entry S)) → Found s i es
unfolding lookup
lookup_lem s i [] = absent (λ j f at. absurd (ground arith)) refl
lookup_lem s i (e ∷ r) = elim (lookup-step s i e r) [
  | inl (occ, sec, eq) ↦ cached 0 e (refl, occ) sec (ground arith)
  | inr (other, eq) ↦ elim (lookup_lem s (i + 1) r) [
    | cached k f here sec found ↦ cached (suc k) f here sec (ground arith)
    | absent none_here missing ↦
        absent (λ j f at. absent_suc s e r other none_here j f at) (eq ∙ missing)
  ]
]

-- The slot that is fetched holds the sector as the view has it.
record Fetched {D S : Type 0} (dev : Device D S) (view : ℕ → Option S) (s : ℕ) (i : ℕ)
    (c : Cache D S) : Type 0 where
  shows : Shows dev view c
  entry : Entry S
  holds : Holds c.entries i entry
  sector : entry.disk_sector ≡ s

module _ {D S : Type 0} (dev : Device D S) (ok : IsDevice dev) where
  -- A sector that the view has is on the device.
  Backed-read :
      {view : ℕ → Option S} {c : Cache D S} (s : ℕ) {b : S}
      → Shows dev view c
      → view s ≡ some b
      → (b' : S) × (dev.block_read s c.disk ≡ some b')
  Backed-read s {b} v has = elim (v.backed s) [
    | inl r ↦ (b, r ∙ has)
    | inr (j, f, at, dirty, sec) ↦ rw sec at (v.stored j f at)
  ]

  fill_lem :
      (s i : ℕ) (c : Cache D S) {e : Entry S} {b : S}
      → get_elem? c.entries i ≡ some e
      → e.occupied ≡ false
      → dev.block_read s c.disk ≡ some b
      → fill dev s i c
        ≡ done i
            (put i (record e { occupied = true; disk_sector = s; dirty = false; buffer = b }) c)
  unfolding fill
  fill_lem s i c here free has = ground arith

  fetch_slot-hit :
      (s i : ℕ) (c : Cache D S) → lookup s 0 c.entries ≡ some i → fetch_slot dev s c ≡ done i c
  unfolding fetch_slot
  fetch_slot-hit s i c found = rw (found, fetch_slot) refl

  fetch_slot-miss :
      (s i : ℕ) (c c' : Cache D S)
      → lookup s 0 c.entries ≡ none
      → buffer_cache_evict dev c ≡ done i c'
      → fetch_slot dev s c ≡ fill dev s i c'
  unfolding fetch_slot
  fetch_slot-miss s i c c' missing gone = rw (missing, fetch_slot) (rw gone refl)

  fetch_slot_lem :
      {view : ℕ → Option S} (s : ℕ) (c : Cache D S) {b : S}
      → Shows dev view c
      → view s ≡ some b
      → (i : ℕ) × (c' : Cache D S) × (fetch_slot dev s c ≡ done i c') × Fetched dev view s i c'
  unfolding put
  fetch_slot_lem {view} s c v has = elim (lookup_lem s 0 c.entries) [
    | cached k e holds sec found ↦ (
      k,
      c,
      fetch_slot-hit s k c (ground arith),
      record { shows = v; entry = e; holds = holds; sector = sec },
    )
    | absent nowhere missing ↦
        let (i, c', gone, out) = buffer_cache_evict-Evicted dev ok c v in
        let (b', stored) = Backed-read s out.shows has in
        let e = out.entry in
        let e' : Entry S = record e {
          occupied = true;
          disk_sector = s;
          dirty = false;
          buffer = b';
        } in
        (
          i,
          put i e' c',
          fetch_slot-miss s i c c' missing gone ∙ fill_lem s i c' out.here out.free stored,
          record {
            shows =
                Shows-fill dev ok i e out.shows out.here s b' out.free
                  (λ j f at same.
                    let (g, at', sec) = out.within j f at in nowhere j g at' (same ∙ sym sec))
                  stored;
            entry = e';
            holds = (get_elem?-set_self c'.entries i e' (lt_of_get? c'.entries i out.here), refl);
            sector = refl;
          },
        )
  ]

  read_slot_lem :
      (i : ℕ) (c : Cache D S) {e : Entry S} {b : S}
      → get_elem? c.entries i ≡ some e
      → e.buffer ≡ b
      → read_slot dev i c ≡ done b (put i (record e { access = true }) c)
  unfolding read_slot
  read_slot_lem i c here same = ground arith

  write_slot_lem :
      (source : S) (i : ℕ) (c : Cache D S) {e : Entry S}
      → get_elem? c.entries i ≡ some e
      → write_slot dev source i c
        ≡ done tt (put i (record e { access = true; dirty = true; buffer = source }) c)
  unfolding write_slot
  write_slot_lem source i c here = ground arith

  Fetched-buffer :
      {view : ℕ → Option S} {s i : ℕ} {c : Cache D S} {b : S} (out : Fetched dev view s i c)
      → view s ≡ some b
      → out.entry.buffer ≡ b
  Fetched-buffer {i = i} out has =
      let now = out.shows.current i out.entry out.holds in let is = out.sector in ground arith

  -- On a device that keeps what is written: where the cache shows `view`, a read of a sector that
  -- `view` has returns it as `view` has it, and the cache shows `view` again.
  pub buffer_cache_read-Shows :
      {view : ℕ → Option S} (s : ℕ) {b : S} {c : Cache D S}
      → Shows dev view c
      → view s ≡ some b
      → (c' : Cache D S) × (buffer_cache_read dev s c ≡ done b c') × Shows dev view c'
  unfolding buffer_cache_read put
  buffer_cache_read-Shows s {b} {c} v has =
      let (i, c', eq, out) = fetch_slot_lem s c v has in
      let e = out.entry in
      (
        put i (record e { access = true }) c',
        rw eq (read_slot_lem i c' out.holds.0 (Fetched-buffer out has)),
        Shows-access dev ok i e out.shows out.holds.0 true,
      )

  -- On a device that keeps what is written: where the cache shows `view`, a write to a sector that
  -- `view` has returns, and the cache shows `view` with that sector changed and no other.
  pub buffer_cache_write-Shows :
      {view : ℕ → Option S} (s : ℕ) (source : S) {b : S} {c : Cache D S}
      → Shows dev view c
      → view s ≡ some b
      → (c' : Cache D S) × (buffer_cache_write dev s source c ≡ done tt c')
        × Shows dev (update view s source) c'
  unfolding buffer_cache_write put
  buffer_cache_write-Shows s source {b} {c} v has =
      let (i, c', eq, out) = fetch_slot_lem s c v has in
      let e = out.entry in
      (
        put i (record e { access = true; dirty = true; buffer = source }) c',
        rw eq (write_slot_lem source i c' out.holds.0),
        Shows-write dev ok i e out.shows out.holds.0 s source out.sector out.holds.1,
      )
