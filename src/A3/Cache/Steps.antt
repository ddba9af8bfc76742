-- ===== src/A3/Cache/Steps.antt =====
-- The steps of a3/fs/cache.c on one entry keep what cache and disk show.
use comp.Prelude.{
  ℕ, ◌≡◌, ◌≢◌, ◌⊎◌, ◌∙◌, inl, inr, refl, sym, Bool, true, false, Option, some, List, arith,
  get_elem?, set, if◌then◌else◌, Bool-cases, get_elem?-set_self, get_elem?-set_ne, ◌==◌,
}
use comp.A3.Cache.{Device, Entry, Cache, put}
use comp.A3.Cache.Slots.{lt_of_get?, IsDevice, Holds, Backed, Shows, Shows-put}

pub eq_or_ne : (i j : ℕ) → (i ≡ j) ⊎ (i ≢ j)
eq_or_ne i j = elim (Bool-cases (i == j)) [
  | inl e ↦ inl (ground arith)
  | inr e ↦ inr (ground arith)
]

-- A sector is written in the view.
abbrev pub update : {S : Type 0} → (ℕ → Option S) → ℕ → S → ℕ → Option S
update view s b t = if s == t then some b else view t

pub update_eq :
    {S : Type 0} (view : ℕ → Option S) (s t : ℕ) (b : S) → s ≡ t → update view s b t ≡ some b
update_eq view s t b same = ground arith

pub update_ne :
    {S : Type 0} (view : ℕ → Option S) (s t : ℕ) (b : S) → s ≢ t → update view s b t ≡ view t
update_ne view s t b ne = ground arith

module _ {D S : Type 0} (dev : Device D S) (ok : IsDevice dev) where
  open dev use {block_read, block_write}

  -- The entry that backs a sector is another one than `i`, or does so after its replacement.
  Backed-set :
      (view : ℕ → Option S) (es : List (Entry S)) (d : D) (i : ℕ) (e e' : Entry S) (s : ℕ)
      → get_elem? es i ≡ some e
      → (e.occupied ≡ true
          → e.dirty ≡ true
          → e.disk_sector ≡ s
          → (e'.occupied ≡ true) × (e'.dirty ≡ true) × (e'.disk_sector ≡ s))
      → Backed dev view es d s
      → Backed dev view (set es i e') d s
  Backed-set view es d i e e' s here keep (inl r) = inl r
  Backed-set view es d i e e' s here keep (inr (j, f, (at, occ), dirty, sec)) =
      elim (eq_or_ne i j) [
        | inl same ↦
            let is : e ≡ f = ground arith in
            let (occ', dirty', sec') = keep (ground arith) (ground arith) (ground arith) in
            inr (i, e', (get_elem?-set_self es i e' (lt_of_get? es i here), occ'), dirty', sec')
        | inr ne ↦ inr (j, f, (get_elem?-set_ne es i j e' ne ∙ at, occ), dirty, sec)
      ]

  Backed-disk :
      (view : ℕ → Option S) (es : List (Entry S)) (d d' : D) (s : ℕ)
      → block_read s d' ≡ block_read s d
      → Backed dev view es d s
      → Backed dev view es d' s
  Backed-disk view es d d' s same (inl r) = inl (same ∙ r)
  Backed-disk view es d d' s same (inr entry) = inr entry

  Backed-view :
      (view view' : ℕ → Option S) (es : List (Entry S)) (d : D) (s : ℕ)
      → view' s ≡ view s
      → Backed dev view es d s
      → Backed dev view' es d s
  Backed-view view view' es d s same (inl r) = inl (r ∙ sym same)
  Backed-view view view' es d s same (inr entry) = inr entry

  module _ {view : ℕ → Option S} {c : Cache D S} (i : ℕ) (e : Entry S) (v : Shows dev view c)
      (here : get_elem? c.entries i ≡ some e) where
    pub Shows-access : (b : Bool) → Shows dev view (put i (record e { access = b }) c)
    Shows-access b =
        Shows-put dev i (record e { access = b }) c.disk v (λ occ. v.current i e (here, occ))
          (λ j f ne at. refl) (λ occ. v.stored i e (here, occ)) (λ s x has. (x, has))
          (λ occ j f ne at same. ne (v.once i j e f (here, occ) at same))
          (λ s.
            Backed-set view c.entries c.disk i e _ s here (λ occ dirty sec. (occ, dirty, sec))
              (v.backed s))

    pub Shows-flush :
        e.occupied ≡ true
        → (d : D) × (block_write e.disk_sector e.buffer c.disk ≡ some d)
          × Shows dev view (put i (record e { dirty = false }) (record c { disk = d }))
    Shows-flush occ =
        let (b, has) = v.stored i e (here, occ) in
        let (d, wrote, now, rest) = ok.written e.disk_sector e.buffer b c.disk has in
        (
          d,
          wrote,
          Shows-put dev i (record e { dirty = false }) d v (λ o. v.current i e (here, occ))
              (λ j f ne at. refl) (λ o. (e.buffer, now))
              (λ s x had. elim (eq_or_ne e.disk_sector s) [
                | inl same ↦ (e.buffer, rw same at now)
                | inr ne ↦ (x, rest s ne ∙ had)
              ])
              (λ o j f ne at same. ne (v.once i j e f (here, occ) at same))
              (λ s. elim (eq_or_ne e.disk_sector s) [
                | inl same ↦ inl (rw same at (now ∙ sym (v.current i e (here, occ))))
                | inr ne ↦
                    Backed-set view c.entries d i e _ s here (λ o dirty sec. absurd (ne sec))
                      (Backed-disk view c.entries c.disk d s (rest s ne) (v.backed s))
              ]),
        )

    -- A clean entry, or a free one, is given up.
    pub Shows-vacate :
        (e.occupied ≡ true → e.dirty ≡ false)
        → Shows dev view (put i (record e { occupied = false }) c)
    Shows-vacate clean =
        Shows-put dev i (record e { occupied = false }) c.disk v (λ o. cc) (λ j f ne at. refl)
          (λ o. cc) (λ s x had. (x, had)) (λ o. cc)
          (λ s.
            Backed-set view c.entries c.disk i e _ s here (λ o dirty sec. absurd (ground arith))
              (v.backed s))

    -- A sector that no entry holds is on the disk.
    pub Shows-fill :
        (s : ℕ) (b : S)
        → e.occupied ≡ false
        → ((j : ℕ) (f : Entry S) → Holds c.entries j f → s ≢ f.disk_sector)
        → block_read s c.disk ≡ some b
        → Shows dev view
            (put i (record e { occupied = true; disk_sector = s; dirty = false; buffer = b }) c)
    Shows-fill s b free absent has =
        Shows-put dev i (record e { occupied = true; disk_sector = s; dirty = false; buffer = b })
          c.disk v
          (λ o. elim (v.backed s) [
            | inl r ↦ sym r ∙ has
            | inr (j, f, at, dirty, sec) ↦ absurd (absent j f at (sym sec))
          ])
          (λ j f ne at. refl) (λ o. (b, has)) (λ t x had. (x, had)) (λ o j f ne at. absent j f at)
          (λ t. Backed-set view c.entries c.disk i e _ t here (λ o dirty sec. cc) (v.backed t))

    pub Shows-write :
        (s : ℕ) (b : S)
        → e.disk_sector ≡ s
        → e.occupied ≡ true
        → Shows dev
            (update view s b)
            (put i (record e { access = true; dirty = true; buffer = b }) c)
    Shows-write s b sec occ =
        Shows-put dev i (record e { access = true; dirty = true; buffer = b }) c.disk v
          (λ o. update_eq view s e.disk_sector b (sym sec))
          (λ j f ne at.
            update_ne view s f.disk_sector b
              (λ same. ne (v.once i j e f (here, occ) at (sec ∙ same))))
          (λ o. v.stored i e (here, occ)) (λ t x had. (x, had))
          (λ o j f ne at same. ne (v.once i j e f (here, occ) at same))
          (λ t. elim (eq_or_ne s t) [
            | inl same ↦ inr (
              i,
              _,
              (get_elem?-set_self c.entries i _ (lt_of_get? c.entries i here), occ),
              refl,
              sec ∙ same,
            )
            | inr ne ↦ Backed-view view (update view s b) _ c.disk t (update_ne view s t b ne) (
                Backed-set view c.entries c.disk i e _ t here (λ o dirty is. (o, refl, is))
                  (v.backed t))
          ])
