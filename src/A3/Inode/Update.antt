-- ===== src/A3/Inode/Update.antt =====
-- A data sector of an inode is written: the inode's map stays, and of its bytes those in the
-- sector are replaced.
use comp.Prelude.{
  ℕ, ◌-◌, ◌/◌, ◌%◌, ◌<◌, ◌≤◌, ◌≡◌, ◌≢◌, ◌∙◌, inl, inr, refl, sym, ap, Option, some, arith, length,
  get_or, ltb, Bool-cases, ltb→lt, ltb→le,
}
use comp.A3.Bytes.{Bytes, block_sector_size, word_at}
use comp.A3.Cache.Steps.{update, update_eq, update_ne, eq_or_ne}
use comp.A3.Inode.{InodeDisk}
use comp.A3.Inode.Layout.{
  contents, Readable, entry, second_level, sector_of, byte_at, IsLayout, sector_count,
  sector_of-direct, sector_of-single, sector_of-double, sector_of-beyond,
}

Readable-update :
    (view : ℕ → Option Bytes) (s t : ℕ) (b : Bytes) → Readable view t → Readable (update view s b) t
Readable-update view s t b r = elim (eq_or_ne s t) [
  | inl e ↦ let u = update_eq view s t b e in rw u refl
  | inr ne ↦ let u = update_ne view s t b ne in u ∙ r ∙ ap (λ o. some (contents o)) (sym u)
]

contents-update_ne :
    (view : ℕ → Option Bytes) (s t : ℕ) (b : Bytes)
    → s ≢ t
    → contents (update view s b t) ≡ contents (view t)
contents-update_ne view s t b ne = ap contents (update_ne view s t b ne)

contents-update_eq :
    (view : ℕ → Option Bytes) (s t : ℕ) (b : Bytes) → s ≡ t → contents (update view s b t) ≡ b
contents-update_eq view s t b e = ap contents (update_eq view s t b e)

module _ (view : ℕ → Option Bytes) (d : InodeDisk) (lay : IsLayout view d) (i : ℕ)
    (lt : i < sector_count d) (b : Bytes) where
  -- The sectors with data sector `i` replaced by `b`.
  abbrev pub replaced : ℕ → Option Bytes
  replaced = update view (sector_of view d i) b

  entry-update : (t k : ℕ) → sector_of view d i ≢ t → entry replaced t k ≡ entry view t k
  unfolding entry
  entry-update t k ne = ap (λ c. word_at c k) (contents-update_ne view _ t b ne)

  second_level-update :
      (j : ℕ) → 251 ≤ j → j < sector_count d → second_level replaced d j ≡ second_level view d j
  unfolding second_level
  second_level-update j ge h =
      entry-update d.doubly_indirect_block ((j - 251) / 128) (lay.off_double i lt (omega arith))

  pub sector_of-update : (j : ℕ) → j < sector_count d → sector_of replaced d j ≡ sector_of view d j
  sector_of-update j h = elim (Bool-cases (ltb j 123)) [
    | inl a ↦
        let below = ltb→lt j 123 a in
        sector_of-direct replaced d j below ∙ sym (sector_of-direct view d j below)
    | inr a ↦
        let ge = ltb→le j 123 a in
        elim (Bool-cases (ltb j 251)) [
          | inl e ↦
              let below = ltb→lt j 251 e in
              sector_of-single replaced d j ge below
              ∙ entry-update d.indirect_block (j - 123) (lay.off_single i lt (omega arith))
              ∙ sym (sector_of-single view d j ge below)
          | inr e ↦
              let above = ltb→le j 251 e in
              elim (Bool-cases (ltb j 16635)) [
                | inl f ↦
                    let below = ltb→lt j 16635 f in
                    sector_of-double replaced d j above below
                    ∙ ap (λ t. entry replaced t ((j - 251) % 128)) (second_level-update j above h)
                    ∙ entry-update (second_level view d j) ((j - 251) % 128)
                        (lay.off_second i j lt above h below)
                    ∙ sym (sector_of-double view d j above below)
                | inr f ↦
                    let past = ltb→le j 16635 f in
                    sector_of-beyond replaced d j past ∙ sym (sector_of-beyond view d j past)
              ]
        ]
  ]

  Readable-sector_of : (j : ℕ) → j < sector_count d → Readable replaced (sector_of replaced d j)
  Readable-sector_of j h =
      rw (sector_of-update j h)
        (Readable-update view (sector_of view d i) (sector_of view d j) b (lay.readable j h))

  sized-update :
      length b ≡ block_sector_size
      → (j : ℕ) → j < sector_count d
      → length (contents (replaced (sector_of replaced d j))) ≡ block_sector_size
  sized-update n j h =
      rw (sector_of-update j h) (elim (eq_or_ne (sector_of view d i) (sector_of view d j)) [
        | inl e ↦ ap length (contents-update_eq view _ _ b e) ∙ n
        | inr ne ↦ ap length (contents-update_ne view _ _ b ne) ∙ lay.sized j h
      ])

  -- A whole sector keeps the layout.
  pub IsLayout-update : length b ≡ block_sector_size → IsLayout replaced d
  IsLayout-update n = record {
    map = record {
      single = λ h. Readable-update view _ _ b (lay.map.single h);
      double = λ h. Readable-update view _ _ b (lay.map.double h);
      second = λ j ge h top.
          rw (second_level-update j ge h) (Readable-update view _ _ b (lay.map.second j ge h top));
    };
    readable = Readable-sector_of;
    sized = sized-update n;
    apart = λ j k h g ne. rw (sector_of-update j h, sector_of-update k g) (lay.apart j k h g ne);
    off_single = λ j h top. rw (sector_of-update j h) (lay.off_single j h top);
    off_double = λ j h top. rw (sector_of-update j h) (lay.off_double j h top);
    off_second = λ j k h ge g top.
        rw (sector_of-update j h, second_level-update k ge g) (lay.off_second j k h ge g top);
  }

  pub byte_at-update_in : (p : ℕ) → p / 512 ≡ i → byte_at replaced d p ≡ get_or b (p % 512) 0
  unfolding byte_at
  byte_at-update_in p e =
      rw (e, sector_of-update i lt)
        (ap (λ c. get_or c (p % 512) 0) (contents-update_eq view _ _ b refl))

  pub byte_at-update_out :
      (p : ℕ) → p / 512 < sector_count d → p / 512 ≢ i → byte_at replaced d p ≡ byte_at view d p
  unfolding byte_at
  byte_at-update_out p h ne = rw (sector_of-update (p / 512) h) (
      ap (λ c. get_or c (p % 512) 0)
        (contents-update_ne view _ _ b (lay.apart i (p / 512) lt h (λ e. ne (sym e)))))
