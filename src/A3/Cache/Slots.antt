-- ===== src/A3/Cache/Slots.antt =====
-- What the entries of a3/fs/cache.c show of the disk, and how one entry is replaced.
use comp.Prelude.{
  ℕ, zero, suc, ◌<◌, ◌≡◌, ◌≢◌, ◌⊎◌, ◌∙◌, inl, inr, refl, sym, ap, true, Option, some, List, [], ◌∷◌,
  arith, length, get_elem?, set, length-set,
}
use comp.A3.Cache.{Device, Entry, Cache, buffer_cache_size, put}

module _ {ℓ} {A : Type ℓ} where
  pub lt_of_get? : (xs : List A) (i : ℕ) {a : A} → get_elem? xs i ≡ some a → i < length xs
  lt_of_get? [] i e = cc
  lt_of_get? (x ∷ xs) zero e = omega arith
  lt_of_get? (x ∷ xs) (suc i) e = omega (arith, lt_of_get? xs i e)

  pub get?_of_lt : (xs : List A) (i : ℕ) → i < length xs → (a : A) × (get_elem? xs i ≡ some a)
  get?_of_lt [] i h = elim h [ ]
  get?_of_lt (x ∷ xs) zero h = (x, refl)
  get?_of_lt (x ∷ xs) (suc i) h = get?_of_lt xs i (omega arith)

  pub get?-set_cases :
      (xs : List A) (i : ℕ) (v : A) (j : ℕ) {w : A}
      → get_elem? (set xs i v) j ≡ some w
      → ((j ≡ i) × (w ≡ v)) ⊎ ((i ≢ j) × (get_elem? xs j ≡ some w))
  get?-set_cases [] i v j e = cc
  get?-set_cases (x ∷ xs) zero v zero e = inl (refl, ground arith)
  get?-set_cases (x ∷ xs) zero v (suc j) e = inr (omega arith, e)
  get?-set_cases (x ∷ xs) (suc i) v zero e = inr (omega arith, e)
  get?-set_cases (x ∷ xs) (suc i) v (suc j) e = elim (get?-set_cases xs i v j e) [
    | inl (same, eq) ↦ inl (ap suc same, eq)
    | inr (ne, eq) ↦ inr (omega arith, eq)
  ]

-- A write of a sector that can be read succeeds and changes that sector only.
pub record IsDevice {D S : Type 0} (dev : Device D S) : Type 0 where
  pub written :
      (i : ℕ) (b c : S) (d : D)
      → dev.block_read i d ≡ some c
      → (d' : D) × (dev.block_write i b d ≡ some d')
        × (dev.block_read i d' ≡ some b)
        × ((j : ℕ) → i ≢ j → dev.block_read j d' ≡ dev.block_read j d)

-- Entry `i` is `e`, which is in use.
abbrev pub Holds : {S : Type 0} → List (Entry S) → ℕ → Entry S → Type 0
Holds es i e = (get_elem? es i ≡ some e) × (e.occupied ≡ true)

module _ {D S : Type 0} (dev : Device D S) where
  -- Where a sector is: on the disk, or in a dirty entry.
  abbrev pub Backed : (ℕ → Option S) → List (Entry S) → D → ℕ → Type 0
  Backed view es d s =
      (dev.block_read s d ≡ view s)
      ⊎ ((i : ℕ) × (e : Entry S) × Holds es i e × (e.dirty ≡ true) × (e.disk_sector ≡ s))

  -- The cache and its disk together show `view`: the sector contents that a file system that
  -- writes through would find.
  pub record Shows (view : ℕ → Option S) (c : Cache D S) : Type 0 where
    pub sized : length c.entries ≡ buffer_cache_size
    pub hand : c.clock < buffer_cache_size
    pub current : (i : ℕ) (e : Entry S) → Holds c.entries i e → view e.disk_sector ≡ some e.buffer
    pub stored :
        (i : ℕ) (e : Entry S)
        → Holds c.entries i e
        → (b : S) × (dev.block_read e.disk_sector c.disk ≡ some b)
    pub backed : (s : ℕ) → Backed view c.entries c.disk s
    pub once :
        (i j : ℕ) (e f : Entry S)
        → Holds c.entries i e
        → Holds c.entries j f
        → e.disk_sector ≡ f.disk_sector
        → i ≡ j

  -- The replacement of entry `i` by `e'`, of the disk by `d` and of the view by `view'`.
  pub Shows-put :
      {view view' : ℕ → Option S} {c : Cache D S} (i : ℕ) (e' : Entry S) (d : D)
      → Shows view c
      → (e'.occupied ≡ true → view' e'.disk_sector ≡ some e'.buffer)
      → ((j : ℕ) (f : Entry S)
          → i ≢ j
          → Holds c.entries j f
          → view' f.disk_sector ≡ view f.disk_sector)
      → (e'.occupied ≡ true → (b : S) × (dev.block_read e'.disk_sector d ≡ some b))
      → ((s : ℕ) (b : S)
          → dev.block_read s c.disk ≡ some b
          → (b' : S) × (dev.block_read s d ≡ some b'))
      → (e'.occupied ≡ true
          → (j : ℕ) (f : Entry S) → i ≢ j
          → Holds c.entries j f
          → e'.disk_sector ≢ f.disk_sector)
      → ((s : ℕ) → Backed view' (set c.entries i e') d s)
      → Shows view' (put i e' (record c { disk = d }))
  unfolding put
  Shows-put {view} {view'} {c} i e' d v own others own_stored keeps alone back = record {
    sized = length-set c.entries i e' ∙ v.sized;
    hand = v.hand;
    current = λ j f (at, occ). elim (get?-set_cases c.entries i e' j at) [
      | inl (same, eq) ↦ rw eq (own (rw eq at occ))
      | inr (ne, at') ↦ others j f ne (at', occ) ∙ v.current j f (at', occ)
    ];
    stored = λ j f (at, occ). elim (get?-set_cases c.entries i e' j at) [
      | inl (same, eq) ↦ rw eq (own_stored (rw eq at occ))
      | inr (ne, at') ↦ let (b, has) = v.stored j f (at', occ) in keeps f.disk_sector b has
    ];
    backed = back;
    once = λ j k e f (at, occ) (at', occ') same. elim (get?-set_cases c.entries i e' j at) [
      | inl (ji, ee) ↦ elim (get?-set_cases c.entries i e' k at') [
        | inl (ki, ff) ↦ ji ∙ sym ki
        | inr (ne, there) ↦ absurd (alone (rw ee at occ) k f ne (there, occ') (rw ee at same))
      ]
      | inr (ne, there) ↦ elim (get?-set_cases c.entries i e' k at') [
        | inl (ki, ff) ↦ absurd (alone (rw ff at occ') j e ne (there, occ) (sym (rw ff at same)))
        | inr (ne', there') ↦ v.once j k e f (there, occ) (there', occ') same
      ]
    ];
  }
