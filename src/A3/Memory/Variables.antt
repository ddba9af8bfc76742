-- ===== src/A3/Memory/Variables.antt =====
-- The variables of a3/shellmemory.c, in the slots behind the frames.
use comp.Prelude.{
  ℕ, zero, suc, ◌<◌, ◌≡◌, ◌⊎◌, ◌∙◌, inl, inr, refl, sym, ap, Bool, true, false, ◌||◌, none, some,
  [], ◌∷◌, arith, get_elem?, Bool-cases,
}
use comp.Prelude.Text.{Text, text_eq, text_eq_refl, text_eq-true}
use comp.A3.Memory.{
  Slot, Memory, none_text, is_free, set_existing, set_free, set_variable, get_variable, from_border,
  variables, mem_set_value, mem_get_value, missing_value,
}

-- A name that can be stored: it is set, or a slot is free.
unfoldable pub has_room : Text → Memory → Bool
has_room k [] = false
has_room k (s ∷ m) = let rest = has_room k m in text_eq s.var k || (is_free s || rest)

-- The part of `StoredAs` on the other names.
abbrev pub Others : Text → Text → Memory → Memory → Type 0
Others k k' m m' =
    (text_eq k k' ≡ true)
    ⊎ ((text_eq none_text k' ≡ true) ⊎ (get_variable k' m' ≡ get_variable k' m))

abbrev pub StoredAs : Text → Text → Text → Memory → Memory → Type 0
StoredAs k v k' m m' = (get_variable k m' ≡ some v) × Others k k' m m'

behind_other :
    (k k' : Text) (s : Slot) (m m' : Memory) → Others k k' m m' → Others k k' (s ∷ m) (s ∷ m')
unfolding get_variable
behind_other k k' s m m' (inl e) = inl e
behind_other k k' s m m' (inr (inl e)) = inr (inl e)
behind_other k k' s m m' (inr (inr e)) = inr (inr (rw e refl))

replaced_other :
    (k v k' : Text) (s : Slot) (m : Memory)
    → s.var ≡ k
    → Others k k' (s ∷ m) (record s { value = v } ∷ m)
unfolding get_variable
replaced_other k v k' s m is = elim (Bool-cases (text_eq s.var k')) [
  | inl e ↦ inl (rw is at e)
  | inr e ↦ inr (inr (rw e refl))
]

free_other :
    (k v k' : Text) (s : Slot) (m : Memory)
    → s.var ≡ none_text
    → Others k k' (s ∷ m) (record { var = k; value = v } ∷ m)
unfolding get_variable
free_other k v k' s m is = elim (Bool-cases (text_eq k k')) [
  | inl e ↦ inl e
  | inr e ↦ elim (Bool-cases (text_eq s.var k')) [
    | inl x ↦ inr (inl (rw is at x))
    | inr x ↦ inr (inr (rw (e, x) refl))
  ]
]

data Existing (k v k' : Text) (m : Memory) : Type 0 where
  replaced : (m' : Memory) → set_existing k v m ≡ some m' → StoredAs k v k' m m' → Existing k v k' m
  not_set : set_existing k v m ≡ none → get_variable k m ≡ none → Existing k v k' m

existing_lem : (k v k' : Text) (m : Memory) → Existing k v k' m
unfolding set_existing get_variable
existing_lem k v k' [] = not_set refl refl
existing_lem k v k' (s ∷ m) = elim (Bool-cases (text_eq s.var k)) [
  | inl e ↦
      replaced (record s { value = v } ∷ m) (rw e refl)
        (rw e refl, replaced_other k v k' s m (text_eq-true s.var k e))
  | inr e ↦ elim (existing_lem k v k' m) [
    | replaced m' eq (now, rest) ↦
        replaced (s ∷ m') (rw (e, eq) refl) (rw e now, behind_other k k' s m m' rest)
    | not_set eq missing ↦ not_set (rw (e, eq) refl) (rw e missing)
  ]
]

data Free (k v k' : Text) (m : Memory) : Type 0 where
  added : (m' : Memory) → set_free k v m ≡ some m' → StoredAs k v k' m m' → Free k v k' m
  full : set_free k v m ≡ none → has_room k m ≡ false → Free k v k' m

set-not-none :
    (k : Text) (s : Slot) (m : Memory) → text_eq s.var k ≡ true → get_variable k (s ∷ m) ≡ none → ⊥
unfolding get_variable
set-not-none k s m e unset = ground arith

free_lem : (k v k' : Text) (m : Memory) → get_variable k m ≡ none → Free k v k' m
unfolding set_free get_variable has_room
free_lem k v k' [] unset = full refl refl
free_lem k v k' (s ∷ m) unset = elim (Bool-cases (text_eq s.var k)) [
  | inl e ↦ absurd (set-not-none k s m e unset)
  | inr e ↦ elim (Bool-cases (is_free s)) [
    | inl fr ↦
        added (record { var = k; value = v } ∷ m) (rw fr refl)
          (rw (text_eq_refl k) refl, free_other k v k' s m (text_eq-true s.var none_text fr))
    | inr used ↦ elim (free_lem k v k' m (rw e at unset)) [
      | added m' eq (now, rest) ↦
          added (s ∷ m') (rw (used, eq) refl) (rw e now, behind_other k k' s m m' rest)
      | full eq packed ↦ full (rw (used, eq) refl) (rw (e, used) packed)
    ]
  ]
]

-- What is stored is read back.
pub set_variable_lem :
    (k v k' : Text) (m : Memory)
    → StoredAs k v k' m (set_variable k v m)
      ⊎ ((has_room k m ≡ false) × (set_variable k v m ≡ m) × (get_variable k m ≡ none))
unfolding set_variable
set_variable_lem k v k' m = elim (existing_lem k v k' m) [
  | replaced m' eq stored ↦ inl (rw (eq, set_variable) stored)
  | not_set eq missing ↦ elim (free_lem k v k' m missing) [
    | added m' eq' stored ↦ inl (rw (eq, set_variable) (rw eq' stored))
    | full eq' packed ↦ inr (packed, rw (eq, set_variable) (rw eq' refl), missing)
  ]
]

variables-from_border :
    (border : ℕ) (f : Memory → Memory) (m : Memory)
    → f [] ≡ []
    → variables border (from_border border f m) ≡ f (variables border m)
variables-from_border zero f m e = refl
variables-from_border (suc border) f [] e = sym e
variables-from_border (suc border) f (s ∷ m) e = variables-from_border border f m e

frames-from_border :
    (border : ℕ) (f : Memory → Memory) (m : Memory) (j : ℕ)
    → j < border
    → get_elem? (from_border border f m) j ≡ get_elem? m j
frames-from_border zero f m j lt = elim lt [ ]
frames-from_border (suc border) f [] j lt = refl
frames-from_border (suc border) f (s ∷ m) zero lt = refl
frames-from_border (suc border) f (s ∷ m) (suc j) lt = frames-from_border border f m j (omega arith)

mem_get_value-get :
    (border : ℕ) (k : Text) (caller : Bool) (m m' : Memory)
    → get_variable k (variables border m') ≡ get_variable k (variables border m)
    → mem_get_value border k caller m' ≡ mem_get_value border k caller m
unfolding mem_get_value
mem_get_value-get border k caller m m' e = rw (e, mem_get_value) refl

value_of_get :
    (border : ℕ) (k v : Text) (caller : Bool) (m : Memory)
    → get_variable k (variables border m) ≡ some v
    → mem_get_value border k caller m ≡ v
unfolding mem_get_value
value_of_get border k v caller m e = rw (e, mem_get_value) refl

value_of_missing :
    (border : ℕ) (k : Text) (caller : Bool) (m : Memory)
    → get_variable k (variables border m) ≡ none
    → mem_get_value border k caller m ≡ missing_value caller
unfolding mem_get_value
value_of_missing border k caller m e = rw (e, mem_get_value) refl

-- A variable that is set is read back as it was set, and every other variable but "none" is read
-- as before; only if it was not set and no slot is free, nothing changes. The slots of the frames
-- stay as they are.
pub mem_get_value-mem_set_value :
    (border : ℕ) (k v k' : Text) (caller : Bool) (m : Memory) (j : ℕ)
    → j < border
    → (((mem_get_value border k caller (mem_set_value border k v m) ≡ v)
          × ((text_eq k k' ≡ true)
              ⊎ ((text_eq none_text k' ≡ true)
                  ⊎ (mem_get_value border k' caller (mem_set_value border k v m)
                      ≡ mem_get_value border k' caller m))))
        ⊎ ((has_room k (variables border m) ≡ false)
            × (variables border (mem_set_value border k v m) ≡ variables border m)
            × (mem_get_value border k caller m ≡ missing_value caller)))
      × (get_elem? (mem_set_value border k v m) j ≡ get_elem? m j)
unfolding mem_set_value
mem_get_value-mem_set_value border k v k' caller m j lt =
    let there = variables-from_border border (set_variable k v) m refl in
    (
      elim (set_variable_lem k v k' (variables border m)) [
        | inr (packed, same, missing) ↦
            inr (packed, there ∙ same, value_of_missing border k caller m missing)
        | inl (now, inl e) ↦
            inl ((value_of_get border k v caller _ (ap (get_variable k) there ∙ now)), inl e)
        | inl (now, inr (inl e)) ↦
            inl ((value_of_get border k v caller _ (ap (get_variable k) there ∙ now)), inr (inl e))
        | inl (now, inr (inr e)) ↦ inl (
          (value_of_get border k v caller _ (ap (get_variable k) there ∙ now)),
          inr (inr (mem_get_value-get border k' caller m _ (ap (get_variable k') there ∙ e))),
        )
      ],
      frames-from_border border (set_variable k v) m j lt,
    )
