-- ===== src/A3/Cache/Close.antt =====
-- The start and the end of a3/fs/cache.c: `buffer_cache_init` and `buffer_cache_close`.
use comp.Prelude.{
  ℕ, zero, suc, ◌+◌, ◌<◌, ◌≡◌, ◌∙◌, inl, inr, refl, ap, true, false, Option, some, List, [], ◌∷◌,
  arith, length, get_elem?, set, Bool-cases, ◌==◌,
}
use comp.Prelude.Run.{done}
use comp.A3.Cache.{
  Device, Entry, Cache, buffer_cache_size, put, init_entries, buffer_cache_init, flush, close_from,
  buffer_cache_close,
}
use comp.A3.Cache.Slots.{lt_of_get?, get?_of_lt, get?-set_cases, IsDevice, Holds, Shows}
use comp.A3.Cache.Steps.{Shows-flush}

-- No entry below `i` waits to be written.
abbrev CleanBelow : {S : Type 0} → ℕ → List (Entry S) → Type 0
CleanBelow {S} i es = (j : ℕ) (e : Entry S) → j < i → Holds es j e → e.dirty ≡ false

CleanBelow-suc :
    {S : Type 0} (i : ℕ) (es : List (Entry S)) (e : Entry S)
    → CleanBelow i es
    → get_elem? es i ≡ some e
    → (e.occupied ≡ true → e.dirty ≡ false)
    → CleanBelow (i + 1) es
CleanBelow-suc i es e below here clean j f lt (at, occ) = elim (Bool-cases (j == i)) [
  | inl same ↦ let ji : j ≡ i = ground arith in let eq : e ≡ f = ground arith in ground arith
  | inr ne ↦ below j f (ground arith) (at, occ)
]

CleanBelow-set :
    {S : Type 0} (i : ℕ) (es : List (Entry S)) (e : Entry S)
    → CleanBelow i es
    → e.dirty ≡ false
    → CleanBelow (i + 1) (set es i e)
CleanBelow-set i es e below clean j f lt (at, occ) = elim (get?-set_cases es i e j at) [
  | inl (same, eq) ↦ rw eq clean
  | inr (ne, at') ↦ below j f (omega arith) (at', occ)
]

module _ {D S : Type 0} (dev : Device D S) (ok : IsDevice dev) where
  flush-dirty :
      (i : ℕ) (e : Entry S) (c : Cache D S) (d : D)
      → e.occupied ≡ true
      → e.dirty ≡ true
      → dev.block_write e.disk_sector e.buffer c.disk ≡ some d
      → flush dev i e c
        ≡ done
            (record e { dirty = false })
            (put i (record e { dirty = false }) (record c { disk = d }))
  unfolding flush
  flush-dirty i e c d occ dirty wrote = ground arith

  flush-clean :
      (i : ℕ) (e : Entry S) (c : Cache D S)
      → e.occupied ≡ true
      → e.dirty ≡ false
      → flush dev i e c ≡ done e c
  unfolding flush
  flush-clean i e c occ clean = ground arith

  close_from-free :
      (n i : ℕ) (c : Cache D S) (e : Entry S)
      → get_elem? c.entries i ≡ some e
      → e.occupied ≡ false
      → close_from dev (suc n) i c ≡ close_from dev n (i + 1) c
  unfolding close_from
  close_from-free n i c e here free = ground arith

  close_from-used :
      (n i : ℕ) (c c' : Cache D S) (e e' : Entry S)
      → get_elem? c.entries i ≡ some e
      → e.occupied ≡ true
      → flush dev i e c ≡ done e' c'
      → close_from dev (suc n) i c ≡ close_from dev n (i + 1) c'
  unfolding close_from
  close_from-used n i c c' e e' here occ flushed = ground arith

  close_from_lem :
      {view : ℕ → Option S} (n i : ℕ) (c : Cache D S)
      → i + n ≡ buffer_cache_size
      → Shows dev view c
      → CleanBelow i c.entries
      → (c' : Cache D S) × (close_from dev n i c ≡ done tt c')
        × Shows dev view c'
        × CleanBelow buffer_cache_size c'.entries
  unfolding put close_from
  close_from_lem zero i c all v below = (c, refl, v, λ j e lt. below j e (omega arith))
  close_from_lem {view} (suc n) i c all v below =
      let (e, here) = get?_of_lt c.entries i (omega (arith, v.sized)) in
      elim (Bool-cases e.occupied) [
        | inr free ↦
            let (c', eq, out, swept) =
              close_from_lem {view = view} n (i + 1) c (omega arith) v
                (CleanBelow-suc i c.entries e below here (λ occ. absurd (ground arith))) in
            (c', close_from-free n i c e here free ∙ eq, out, swept)
        | inl occ ↦ elim (Bool-cases e.dirty) [
          | inr clean ↦
              let (c', eq, out, swept) =
                close_from_lem {view = view} n (i + 1) c (omega arith) v
                  (CleanBelow-suc i c.entries e below here (λ o. clean)) in
              (
                c',
                close_from-used n i c c e e here occ (flush-clean i e c occ clean) ∙ eq,
                out,
                swept,
              )
          | inl dirty ↦
              let (d, wrote, shown) = Shows-flush dev ok i e v here occ in
              let (c', eq, out, swept) =
                close_from_lem {view = view} n (i + 1)
                  (put i (record e { dirty = false }) (record c { disk = d })) (omega arith) shown
                  (CleanBelow-set i c.entries (record e { dirty = false }) below refl) in
              (
                c',
                close_from-used n i c _ e _ here occ (flush-dirty i e c d occ dirty wrote) ∙ eq,
                out,
                swept,
              )
        ]
      ]

  -- On a device that keeps what is written: where the cache shows `view`, the close returns, and
  -- after it each sector of the disk is as `view` has it.
  pub buffer_cache_close-Shows :
      {view : ℕ → Option S} {c : Cache D S}
      → Shows dev view c
      → (c' : Cache D S) × (buffer_cache_close dev c ≡ done tt c')
        × Shows dev view c'
        × ((s : ℕ) → dev.block_read s c'.disk ≡ view s)
  unfolding buffer_cache_close
  buffer_cache_close-Shows {view} {c} v =
      let (c', eq, shown, clean) =
        close_from_lem {view = view} buffer_cache_size 0 c (omega arith) v
          (λ j e lt. elim lt [ ]) in
      (
        c',
        eq,
        shown,
        λ s. elim (shown.backed s) [
          | inl r ↦ r
          | inr (j, e, held, dirty, sec) ↦
              let small = lt_of_get? c'.entries j held.0 in
              let no = clean j e (omega (arith, shown.sized)) held in absurd (ground arith)
        ],
      )

module _ {S : Type 0} where
  length-init_entries : (es : List (Entry S)) → length (init_entries es) ≡ length es
  unfolding init_entries
  length-init_entries [] = refl
  length-init_entries (e ∷ r) = ap suc (length-init_entries r)

  init_entries-free : (es : List (Entry S)) (i : ℕ) (e : Entry S) → Holds (init_entries es) i e → ⊥
  unfolding init_entries
  init_entries-free [] i e (here, occ) = ground arith
  init_entries-free (f ∷ r) zero e (here, occ) = ground arith
  init_entries-free (f ∷ r) (suc i) e held = init_entries-free r i e held

-- After `buffer_cache_init` of an array of 64 entries, with the clock on one of them, the cache
-- shows what is on the disk.
pub buffer_cache_init-Shows :
    {D S : Type 0} (dev : Device D S) (c : Cache D S)
    → length c.entries ≡ buffer_cache_size
    → c.clock < buffer_cache_size
    → Shows dev (λ s. dev.block_read s c.disk) (buffer_cache_init c)
unfolding buffer_cache_init
buffer_cache_init-Shows dev c sized hand = record {
  sized = length-init_entries c.entries ∙ sized;
  hand = hand;
  current = λ i e held. absurd (init_entries-free c.entries i e held);
  stored = λ i e held. absurd (init_entries-free c.entries i e held);
  backed = λ s. inl refl;
  once = λ i j e f held. absurd (init_entries-free c.entries i e held);
}
