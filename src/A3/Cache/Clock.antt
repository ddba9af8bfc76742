-- ===== src/A3/Cache/Clock.antt =====
-- `buffer_cache_evict` of a3/fs/cache.c ends, and frees an entry.
use comp.Prelude.{
  ℕ, zero, suc, ◌+◌, ◌<◌, ◌≤◌, ◌≡◌, ◌∙◌, inl, inr, refl, Bool, true, false, Option, some, List, [],
  ◌∷◌, arith, length, get_elem?, set, Bool-cases, get_elem?-set_self,
}
use comp.Prelude.Run.{done}
use comp.A3.Cache.{
  Device, Entry, Cache, buffer_cache_size, put, second_chance, flush, vacate, evict_loop,
  buffer_cache_evict,
}
use comp.A3.Cache.Slots.{lt_of_get?, get?_of_lt, get?-set_cases, IsDevice, Holds, Shows}
use comp.A3.Cache.Steps.{Shows-access, Shows-flush, Shows-vacate}

abbrev one_if : Bool → ℕ
one_if true = 1
one_if false = 0

module _ {S : Type 0} where
  -- The number of entries with the reference bit set.
  referenced : List (Entry S) → ℕ
  referenced [] = 0
  referenced (e ∷ r) = one_if e.access + referenced r

  referenced-bound : (es : List (Entry S)) → referenced es ≤ length es
  unfolding referenced
  referenced-bound [] = omega arith
  referenced-bound (e ∷ r) = elim (Bool-cases e.access) [
    | inl a ↦ rw a (omega (arith, referenced-bound r))
    | inr a ↦ rw a (omega (arith, referenced-bound r))
  ]

  referenced-set :
      (es : List (Entry S)) (i : ℕ) (e : Entry S)
      → get_elem? es i ≡ some e
      → e.access ≡ true
      → referenced es ≡ 1 + referenced (set es i (record e { access = false }))
  unfolding referenced
  referenced-set [] i e here acc = cc
  referenced-set (x ∷ es) zero e here acc = ground arith
  referenced-set (x ∷ es) (suc i) e here acc = omega (arith, referenced-set es i e here acc)

  -- Every entry of `es'` in use was there in `es`, with the same sector.
  abbrev pub Within : List (Entry S) → List (Entry S) → Type 0
  Within es es' =
      (j : ℕ) (f : Entry S)
      → Holds es' j f
      → (g : Entry S) × Holds es j g × (g.disk_sector ≡ f.disk_sector)

  Within-set :
      (es : List (Entry S)) (i : ℕ) (e e' : Entry S)
      → get_elem? es i ≡ some e
      → (e'.occupied ≡ true → (e.occupied ≡ true) × (e.disk_sector ≡ e'.disk_sector))
      → Within es (set es i e')
  Within-set es i e e' here keep j f (at, occ) = elim (get?-set_cases es i e' j at) [
    | inl (same, eq) ↦ let (occ', sec) = keep (rw eq at occ) in (e, (rw same here, occ'), rw eq sec)
    | inr (ne, at') ↦ (f, (at', occ), refl)
  ]

  Within-trans : (es es' es'' : List (Entry S)) → Within es es' → Within es' es'' → Within es es''
  Within-trans es es' es'' first second j f at =
      let (g, at', same) = second j f at in
      let (h, at'', same') = first j g at' in (h, at'', same' ∙ same)

-- What an eviction gives: entry `i` is free, and nothing else has come into use.
pub record Evicted {D S : Type 0} (dev : Device D S) (view : ℕ → Option S) (c : Cache D S) (i : ℕ)
    (c' : Cache D S) : Type 0 where
  pub shows : Shows dev view c'
  pub entry : Entry S
  pub here : get_elem? c'.entries i ≡ some entry
  pub free : entry.occupied ≡ false
  pub within : Within c.entries c'.entries

module _ {D S : Type 0} (dev : Device D S) (ok : IsDevice dev) where
  vacate-dirty :
      (i : ℕ) (e : Entry S) (c : Cache D S) (d : D)
      → e.occupied ≡ true
      → e.dirty ≡ true
      → dev.block_write e.disk_sector e.buffer c.disk ≡ some d
      → vacate dev i e c
        ≡ done i (
            put i
              (record e { dirty = false; occupied = false })
              (put i (record e { dirty = false }) (record c { disk = d })))
  unfolding vacate flush
  vacate-dirty i e c d occ dirty wrote = ground arith

  vacate-Evicted :
      {view : ℕ → Option S} {c : Cache D S} (i : ℕ) (e : Entry S)
      → Shows dev view c
      → get_elem? c.entries i ≡ some e
      → e.occupied ≡ true
      → (c' : Cache D S) × (vacate dev i e c ≡ done i c') × Evicted dev view c i c'
  unfolding vacate flush put
  vacate-Evicted {view} {c} i e v here occ = elim (Bool-cases e.dirty) [
    | inl dirty ↦
        let (d, wrote, shown) = Shows-flush dev ok i e v here occ in
        let e' : Entry S = record e { dirty = false } in
        let es' = set c.entries i e' in
        let there : get_elem? es' i ≡ some e' =
          get_elem?-set_self c.entries i e' (lt_of_get? c.entries i here) in
        (
          put i (record e' { occupied = false }) (put i e' (record c { disk = d })),
          vacate-dirty i e c d occ dirty wrote,
          record {
            shows = Shows-vacate dev ok i e' shown there (λ o. refl);
            entry = record e' { occupied = false };
            here =
                get_elem?-set_self es' i (record e' { occupied = false }) (lt_of_get? es' i there);
            free = refl;
            within =
                Within-trans c.entries es' _ (Within-set c.entries i e e' here (λ o. (o, refl)))
                  (Within-set es' i e' (record e' { occupied = false }) there (λ o. cc));
          },
        )
    | inr clean ↦ (
      put i (record e { occupied = false }) c,
      rw clean refl,
      record {
        shows = Shows-vacate dev ok i e v here (λ o. clean);
        entry = record e { occupied = false };
        here =
            get_elem?-set_self c.entries i (record e { occupied = false })
              (lt_of_get? c.entries i here);
        free = refl;
        within =
            Within-set c.entries i e (record e { occupied = false }) here
              (λ o. absurd (ground arith));
      },
    )
  ]

  Shows-second_chance :
      {view : ℕ → Option S} {c : Cache D S} (e : Entry S)
      → Shows dev view c
      → get_elem? c.entries c.clock ≡ some e
      → Shows dev view (second_chance e c)
  unfolding second_chance put
  Shows-second_chance {view} {c} e v here =
      let w = Shows-access dev ok c.clock e v here false in
      record {
        sized = w.sized;
        hand = omega arith;
        current = w.current;
        stored = w.stored;
        backed = w.backed;
        once = w.once;
      }

  evict_loop-free :
      (fuel : ℕ) (c : Cache D S) (e : Entry S)
      → get_elem? c.entries c.clock ≡ some e
      → e.occupied ≡ false
      → evict_loop dev (suc fuel) c ≡ done c.clock c
  unfolding evict_loop
  evict_loop-free fuel c e here free = ground arith

  evict_loop-unused :
      (fuel : ℕ) (c : Cache D S) (e : Entry S)
      → get_elem? c.entries c.clock ≡ some e
      → e.occupied ≡ true
      → e.access ≡ false
      → evict_loop dev (suc fuel) c ≡ vacate dev c.clock e c
  unfolding evict_loop
  evict_loop-unused fuel c e here occ unused = ground arith

  evict_loop-referenced :
      (fuel : ℕ) (c : Cache D S) (e : Entry S)
      → get_elem? c.entries c.clock ≡ some e
      → e.occupied ≡ true
      → e.access ≡ true
      → evict_loop dev (suc fuel) c ≡ evict_loop dev fuel (second_chance e c)
  unfolding evict_loop
  evict_loop-referenced fuel c e here occ used = ground arith

  evict_loop-Evicted :
      {view : ℕ → Option S} (fuel : ℕ) (c : Cache D S)
      → Shows dev view c
      → referenced c.entries < fuel
      → (i : ℕ) × (c' : Cache D S) × (evict_loop dev fuel c ≡ done i c') × Evicted dev view c i c'
  unfolding second_chance
  evict_loop-Evicted zero c v lt = elim lt [ ]
  evict_loop-Evicted {view} (suc fuel) c v lt =
      let (e, here) = get?_of_lt c.entries c.clock (omega (arith, v.sized, v.hand)) in
      elim (Bool-cases e.occupied) [
        | inr free ↦ (
          c.clock,
          c,
          evict_loop-free fuel c e here free,
          record {
            shows = v;
            entry = e;
            here = here;
            free = free;
            within = λ j f at. (f, at, refl);
          },
        )
        | inl occ ↦ elim (Bool-cases e.access) [
          | inr unused ↦
              let (c', eq, out) = vacate-Evicted c.clock e v here occ in
              (c.clock, c', evict_loop-unused fuel c e here occ unused ∙ eq, out)
          | inl used ↦
              let (i, c', eq, out) =
                evict_loop-Evicted {view = view} fuel (second_chance e c)
                  (Shows-second_chance e v here)
                  (omega (arith, lt, referenced-set c.entries c.clock e here used)) in
              (
                i,
                c',
                evict_loop-referenced fuel c e here occ used ∙ eq,
                record {
                  shows = out.shows;
                  entry = out.entry;
                  here = out.here;
                  free = out.free;
                  within =
                      Within-trans c.entries _ c'.entries
                        (Within-set c.entries c.clock e (record e { access = false }) here
                          (λ o. (o, refl)))
                        out.within;
                },
              )
        ]
      ]

  -- On a device that keeps what is written: where the cache shows `view`, `buffer_cache_evict`
  -- returns within one round more than there are entries, with the index of a free entry; the
  -- cache still shows `view`, and no entry has come into use.
  pub buffer_cache_evict-Evicted :
      {view : ℕ → Option S} (c : Cache D S)
      → Shows dev view c
      → (i : ℕ) × (c' : Cache D S) × (buffer_cache_evict dev c ≡ done i c')
        × Evicted dev view c i c'
  unfolding buffer_cache_evict
  buffer_cache_evict-Evicted c v =
      evict_loop-Evicted (suc buffer_cache_size) c v
        (omega (arith, v.sized, referenced-bound c.entries))
