-- ===== src/A2/Vars/Laws.antt =====
-- What the variable store of a2/shellmemory.c holds after each operation.
use comp.Prelude.{
  ℕ, zero, suc, ◌≡◌, refl, Bool, true, false, ◌&&◌, ◌||◌, Option, none, some, [], ◌∷◌, arith,
  if◌then◌else◌, All, Bool-cases, Option-cases, inl, inr,
}
use comp.Prelude.Text.{Text, codes, text_eq, text_eq_iff, text_eq_refl, text_eq_comm}
use comp.A2.Vars.{
  Slot, Vars, is_some, is_named, mem_init, set_existing, set_free, mem_set_value, Lookup, found,
  missing, bad_read, mem_get_value, resetmem,
}

-- A slot holds both strings or neither, and behind the first free slot all are free.
abbrev pub IsFree : Slot → Type 0
IsFree s = (s.var ≡ none) × (s.value ≡ none)

abbrev pub IsUsed : Slot → Type 0
IsUsed s = (is_some s.var ≡ true) × (is_some s.value ≡ true)

pub data IsPacked : Vars → Type 0 where
  free : {m : Vars} → All IsFree m → IsPacked m
  used : {s : Slot} {m : Vars} → IsUsed s → IsPacked m → IsPacked (s ∷ m)

-- The variables as an association, apart from the slots that hold them.
unfoldable pub assoc : Text → Vars → Option Text
assoc k [] = none
assoc k (s ∷ r) = let rest = assoc k r in if is_named k s.var then s.value else rest

unfoldable pub has_free : Vars → Bool
has_free [] = false
has_free (s ∷ r) = if is_some s.var then has_free r else true

mem_init-IsFree : (n : ℕ) → All IsFree (mem_init n)
unfolding mem_init
mem_init-IsFree zero = tt
mem_init-IsFree (suc n) = ((refl, refl), mem_init-IsFree n)

-- The store starts packed.
pub mem_init-IsPacked : (n : ℕ) → IsPacked (mem_init n)
mem_init-IsPacked n = free (mem_init-IsFree n)

set_existing-free : (k v : Text) (m : Vars) → All IsFree m → set_existing k v m ≡ none
unfolding set_existing is_named
set_existing-free k v [] h = refl
set_existing-free k v (s ∷ r) h = ground (arith, set_existing-free k v r)

assoc-free : (k : Text) (m : Vars) → All IsFree m → assoc k m ≡ none
unfolding assoc is_named
assoc-free k [] h = refl
assoc-free k (s ∷ r) h = ground (arith, assoc-free k r)

-- A name is set if a slot holds it.
unfoldable pub is_set : Text → Vars → Bool
is_set k [] = false
is_set k (s ∷ r) = is_named k s.var || is_set k r

abbrev Answer : Text → Vars → Lookup
Answer k m = elim (assoc k m) [ some v ↦ found v | none ↦ if has_free m then bad_read else missing ]

get-free : (k : Text) (m : Vars) → All IsFree m → mem_get_value k m ≡ Answer k m
unfolding mem_get_value assoc has_free is_named
get-free k [] h = refl
get-free k (s ∷ r) h = ground (arith, assoc-free k r)

-- A look-up finds the value that is associated with the name. For a name that is not set it
-- reads through `NULL` while a slot is free, and returns `NULL` only when the store is full.
pub get-assoc :
    {m : Vars} (k : Text)
    → IsPacked m
    → mem_get_value k m
      ≡ elim (assoc k m) [ some v ↦ found v | none ↦ if has_free m then bad_read else missing ]
unfolding mem_get_value assoc has_free is_named
get-assoc k (free {m} h) = get-free k m h
get-assoc k (used {s} {m} h p) = elim (Option-cases s.var) [
  | inl e ↦ ground arith
  | inr (n, e) ↦ rw (e, text_eq_comm n k) (ground (arith, get-assoc k p))
]

abbrev or_else : Option Vars → Vars → Vars
or_else none m = m
or_else (some m') m = m'

assoc-set_existing :
    (k v j : Text) (m : Vars)
    → assoc j (or_else (set_existing k v m) m)
      ≡ (if is_set k m && text_eq k j then some v else assoc j m)
unfolding assoc set_existing is_named is_set
assoc-set_existing k v j [] = refl
assoc-set_existing k v j (s ∷ r) =
    let ih = assoc-set_existing k v j r in
    elim (Option-cases s.var) [
      | inl e ↦ rw e (elim (Option-cases (set_existing k v r)) [
        | inl f ↦ rw f (rw f at ih)
        | inr (r', f) ↦ rw f (rw f at ih)
      ])
      | inr (n, e) ↦ rw e (elim (Bool-cases (text_eq k n)) [
        | inl f ↦ rw f (ground (arith, text_eq_iff k n, text_eq_iff j n, text_eq_iff k j))
        | inr f ↦ rw f (elim (Option-cases (set_existing k v r)) [
          | inl g ↦ rw g (ground (arith, ih, text_eq_iff k n, text_eq_iff j n, text_eq_iff k j))
          | inr (r', g) ↦
              rw g (ground (arith, ih, text_eq_iff k n, text_eq_iff j n, text_eq_iff k j))
        ])
      ])
    ]

set_existing-is_set : (k v : Text) (m : Vars) → is_set k m ≡ false → set_existing k v m ≡ none
unfolding set_existing is_set
set_existing-is_set k v [] h = refl
set_existing-is_set k v (s ∷ r) h = ground (arith, set_existing-is_set k v r)

set_existing-some :
    (k v : Text) (m : Vars) → is_set k m ≡ true → (m' : Vars) × (set_existing k v m ≡ some m')
unfolding set_existing is_set
set_existing-some k v [] h = cc
set_existing-some k v (s ∷ r) h = elim (Bool-cases (is_named k s.var)) [
  | inl f ↦ (record s { value = some v } ∷ r, rw f)
  | inr f ↦ let (r', g) = set_existing-some k v r (rw f at h) in (s ∷ r', rw (f, g))
]

assoc-set_free :
    (k v j : Text) (m : Vars)
    → is_set k m ≡ false
    → assoc j (or_else (set_free k v m) m)
      ≡ (if has_free m && text_eq k j then some v else assoc j m)
unfolding assoc set_free is_named is_set has_free
assoc-set_free k v j [] h = refl
assoc-set_free k v j (s ∷ r) h = elim (Option-cases s.var) [
  | inl e ↦ rw e (ground (arith, text_eq_comm k j))
  | inr (n, e) ↦
      let h' : (text_eq k n || is_set k r) ≡ false = rw (e, is_named) at h in
      let facts : (text_eq k n ≡ false) × (is_set k r ≡ false) = ground arith in
      let ih = assoc-set_free k v j r facts.1 in
      rw e (elim (Option-cases (set_free k v r)) [
        | inl g ↦ rw g (ground (arith, ih, text_eq_iff k n, text_eq_iff j n, text_eq_iff k j))
        | inr (r', g) ↦ rw g (ground (arith, ih, text_eq_iff k n, text_eq_iff j n, text_eq_iff k j))
      ])
]

mem_set_value_lem :
    (k v : Text) (m : Vars)
    → mem_set_value k v m ≡ or_else (set_existing k v m) (or_else (set_free k v m) m)
unfolding mem_set_value
mem_set_value_lem k v m = ground arith

-- `mem_set_value` binds the name to the value if the name is set or a slot is free, and drops
-- the write otherwise; every other name keeps its value.
pub assoc-set :
    (k v j : Text) (m : Vars)
    → assoc j (mem_set_value k v m)
      ≡ (if (is_set k m || has_free m) && text_eq k j then some v else assoc j m)
assoc-set k v j m = elim (Bool-cases (is_set k m)) [
  | inl h ↦
      let (m', e) = set_existing-some k v m h in
      rw (mem_set_value_lem, h, e) (rw (e, h) at (assoc-set_existing k v j m))
  | inr h ↦
      let e = set_existing-is_set k v m h in rw (mem_set_value_lem, h, e) (assoc-set_free k v j m h)
]

set_existing-IsPacked :
    (k v : Text) {m : Vars} → IsPacked m → IsPacked (or_else (set_existing k v m) m)
unfolding set_existing is_named
set_existing-IsPacked k v (free {m} h) = rw (set_existing-free k v m h) (free h)
set_existing-IsPacked k v (used {s} {m} h p) = elim (Bool-cases (is_named k s.var)) [
  | inl f ↦ rw f (used (h.0, refl) p)
  | inr f ↦ rw f (elim (Option-cases (set_existing k v m)) [
    | inl g ↦ rw g (used h p)
    | inr (m', g) ↦ rw g (used h (rw g at (set_existing-IsPacked k v p)))
  ])
]

set_free-IsPacked : (k v : Text) {m : Vars} → IsPacked m → IsPacked (or_else (set_free k v m) m)
unfolding set_free
set_free-IsPacked k v (free {m = []} h) = free h
set_free-IsPacked k v (free {m = s ∷ r} h) = rw (h.0.0) (used (refl, refl) (free h.1))
set_free-IsPacked k v (used {s} {m} h p) = rw (h.0) (elim (Option-cases (set_free k v m)) [
  | inl g ↦ rw g (used h p)
  | inr (m', g) ↦ rw g (used h (rw g at (set_free-IsPacked k v p)))
])

-- `mem_set_value` keeps the slots packed: those in use, which hold a name and a value, come
-- before the free ones, which hold neither.
pub mem_set_value-IsPacked : (k v : Text) {m : Vars} → IsPacked m → IsPacked (mem_set_value k v m)
mem_set_value-IsPacked k v {m} p = rw mem_set_value_lem (elim (Option-cases (set_existing k v m)) [
  | inr (m', e) ↦ rw e (rw e at (set_existing-IsPacked k v p))
  | inl e ↦ rw e (set_free-IsPacked k v p)
])

-- What is stored is read back: with the name set or a slot free, the name reads as the new
-- value afterwards, and any other name that was set reads as before.
pub get-set :
    {m : Vars} (k v j w : Text)
    → IsPacked m
    → (is_set k m || has_free m) ≡ true
    → text_eq k j ≡ false
    → assoc j m ≡ some w
    → (mem_get_value k (mem_set_value k v m) ≡ found v)
      × (mem_get_value j (mem_set_value k v m) ≡ found w)
get-set {m} k v j w p room ne set =
    let q = mem_set_value-IsPacked k v p in
    (
      rw (get-assoc k q, assoc-set k v k m, room, text_eq_refl k),
      rw (get-assoc j q, assoc-set k v j m, room, ne, set),
    )

has_free-resetmem : (m : Vars) → has_free (resetmem m) ≡ has_free m
unfolding has_free resetmem
has_free-resetmem [] = refl
has_free-resetmem (s ∷ r) = elim (Option-cases s.var) [
  | inl e ↦ rw e
  | inr (n, e) ↦ rw e (has_free-resetmem r)
]

is_set-resetmem :
    (k : Text) (m : Vars) → text_eq k (codes "none") ≡ false → is_set k (resetmem m) ≡ false
unfolding is_set resetmem is_named
is_set-resetmem k [] h = refl
is_set-resetmem k (s ∷ r) h = elim (Option-cases s.var) [
  | inl e ↦ rw e (is_set-resetmem k r h)
  | inr (n, e) ↦ rw e (rw h (is_set-resetmem k r h))
]

-- After `resetmem` no name but "none" is set, and no slot has become free: where the store
-- was full, a later `mem_set_value` of any other name is dropped.
pub set-resetmem :
    (k v j : Text) (m : Vars)
    → text_eq k (codes "none") ≡ false
    → has_free m ≡ false
    → (is_set k (resetmem m) ≡ false)
      × (assoc j (mem_set_value k v (resetmem m)) ≡ assoc j (resetmem m))
set-resetmem k v j m h full =
    let none_set = is_set-resetmem k m h in
    (none_set, rw (assoc-set, none_set, has_free-resetmem, full))
