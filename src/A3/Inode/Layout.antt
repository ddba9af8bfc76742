-- ===== src/A3/Inode/Layout.antt =====
-- Where the contents of an inode are, on the sectors that the cache shows; `index_to_sector` and
-- `get_inode_data_sectors` of a3/fs/inode.c find them there.
use comp.Prelude.{
  ℕ, ◌-◌, ◌/◌, ◌%◌, ◌<◌, ◌≤◌, ◌≡◌, ◌≢◌, inl, inr, refl, Option, none, some, [], arith, length,
  get_or, ltb, if◌then◌else◌, Bool-cases, ltb→lt, ltb→le, lt→ltb, le→ltb,
}
use comp.Prelude.Run.{done, Returns, Returns-bind}
use comp.A3.Bytes.{Bytes, word_at, block_sector_size}
use comp.A3.Sectors.{Sectors, IsSectors}
use comp.A3.Inode.{
  InodeDisk, no_sector, bytes_to_sectors, read_entry, index_to_sector, byte_to_sector,
}

-- The contents of a sector, nothing where there is no such sector.
abbrev pub contents : Option Bytes → Bytes
contents none = []
contents (some b) = b

abbrev pub Readable : (ℕ → Option Bytes) → ℕ → Type 0
Readable view s = view s ≡ some (contents (view s))

-- Entry `k` of the sector `s`, read as an indirect block.
unfoldable pub entry : (ℕ → Option Bytes) → ℕ → ℕ → ℕ
entry view s k = word_at (contents (view s)) k

-- The second-level block for index `i`.
unfoldable pub second_level : (ℕ → Option Bytes) → InodeDisk → ℕ → ℕ
unfolding entry
second_level view d i = entry view d.doubly_indirect_block ((i - 251) / 128)

-- The data sector with index `i`.
unfoldable pub sector_of : (ℕ → Option Bytes) → InodeDisk → ℕ → ℕ
unfolding entry second_level
sector_of view d i =
    if ltb i 123
    then get_or d.direct_blocks i 0
    else if ltb i 251
    then entry view d.indirect_block (i - 123)
    else if ltb i 16635
    then entry view (second_level view d i) ((i - 251) % 128)
    else no_sector

module _ (view : ℕ → Option Bytes) (d : InodeDisk) (i : ℕ) where
  pub sector_of-direct : i < 123 → sector_of view d i ≡ get_or d.direct_blocks i 0
  unfolding sector_of
  sector_of-direct h = rw (lt→ltb i 123 h) refl

  pub sector_of-single :
      123 ≤ i → i < 251 → sector_of view d i ≡ entry view d.indirect_block (i - 123)
  unfolding sector_of
  sector_of-single g h = rw (le→ltb i 123 g, lt→ltb i 251 h) refl

  pub sector_of-double :
      251 ≤ i
      → i < 16635
      → sector_of view d i ≡ entry view (second_level view d i) ((i - 251) % 128)
  unfolding sector_of
  sector_of-double g h = rw (le→ltb i 123 (omega arith), le→ltb i 251 g, lt→ltb i 16635 h) refl

  pub sector_of-beyond : 16635 ≤ i → sector_of view d i ≡ no_sector
  unfolding sector_of
  sector_of-beyond h =
      rw (le→ltb i 123 (omega arith), le→ltb i 251 (omega arith), le→ltb i 16635 h) refl

-- The byte at position `p`.
unfoldable pub byte_at : (ℕ → Option Bytes) → InodeDisk → ℕ → ℕ
unfolding sector_of
byte_at view d p = get_or (contents (view (sector_of view d (p / 512)))) (p % 512) 0

-- The index blocks of the first `n` sectors can be read.
pub record HasMap (view : ℕ → Option Bytes) (d : InodeDisk) (n : ℕ) : Type 0 where
  pub single : 123 < n → Readable view d.indirect_block
  pub double : 251 < n → Readable view d.doubly_indirect_block
  pub second : (i : ℕ) → 251 ≤ i → i < n → i < 16635 → Readable view (second_level view d i)

module _ {St : Type 0} (io : Sectors St) {Shows : (ℕ → Option Bytes) → St → Type 0}
    (ok : IsSectors io Shows) where
  read_entry-entry :
      (view : ℕ → Option Bytes) (s k : ℕ) (st : St)
      → Shows view st
      → Readable view s
      → Returns (read_entry io s k st) (entry view s k) (Shows view)
  unfolding read_entry entry
  read_entry-entry view s k st v r =
      let (st', e, v') = ok.read_ok view s (contents (view s)) st v r in (st', rw e refl, v')

  -- Where the index blocks can be read, `index_to_sector` returns the sector that they have for
  -- the index, and -1 beyond the last index that they can have; the sectors stay as they are.
  pub index_to_sector-sector_of :
      (view : ℕ → Option Bytes) (d : InodeDisk) (n i : ℕ) (st : St)
      → Shows view st
      → HasMap view d n
      → i < n
      → Returns (index_to_sector io d i st) (sector_of view d i) (Shows view)
  unfolding index_to_sector sector_of second_level
  index_to_sector-sector_of view d n i st v m lt = elim (Bool-cases (ltb i 123)) [
    | inl a ↦ rw a (st, refl, v)
    | inr a ↦ elim (Bool-cases (ltb i 251)) [
      | inl b ↦
          let ge = ltb→le i 123 a in
          rw (a, b)
            (read_entry-entry view d.indirect_block (i - 123) st v (m.single (omega (arith, ge))))
      | inr b ↦
          let ge = ltb→le i 251 b in
          elim (Bool-cases (ltb i 16635)) [
            | inl c ↦
                rw (a, b, c)
                  (Returns-bind _ _ _ _ (Shows view) (Shows view)
                    (read_entry-entry view d.doubly_indirect_block ((i - 251) / 128) st v
                      (m.double (omega (arith, ge))))
                    (λ st' v'.
                      read_entry-entry view (entry view d.doubly_indirect_block ((i - 251) / 128))
                        ((i - 251) % 128) st' v' (m.second i ge lt (ltb→lt i 16635 c))))
            | inr c ↦ rw (a, b, c) (st, refl, v)
          ]
    ]
  ]

abbrev pub sector_count : InodeDisk → ℕ
sector_count d = bytes_to_sectors d.length_bytes

-- The sectors of an inode: whole, all different, and none of them an index block.
pub record IsLayout (view : ℕ → Option Bytes) (d : InodeDisk) : Type 0 where
  pub map : HasMap view d (sector_count d)
  pub readable : (i : ℕ) → i < sector_count d → Readable view (sector_of view d i)
  pub sized :
      (i : ℕ)
      → i < sector_count d
      → length (contents (view (sector_of view d i))) ≡ block_sector_size
  pub apart :
      (i j : ℕ)
      → i < sector_count d
      → j < sector_count d
      → i ≢ j
      → sector_of view d i ≢ sector_of view d j
  pub off_single :
      (i : ℕ) → i < sector_count d → 123 < sector_count d → sector_of view d i ≢ d.indirect_block
  pub off_double :
      (i : ℕ)
      → i < sector_count d
      → 251 < sector_count d
      → sector_of view d i ≢ d.doubly_indirect_block
  pub off_second :
      (i j : ℕ)
      → i < sector_count d
      → 251 ≤ j
      → j < sector_count d
      → j < 16635
      → sector_of view d i ≢ second_level view d j

pub sector_count-lt : (d : InodeDisk) (p : ℕ) → p < d.length_bytes → p / 512 < sector_count d
unfolding bytes_to_sectors
sector_count-lt d p h = omega arith

module _ {St : Type 0} (io : Sectors St) {Shows : (ℕ → Option Bytes) → St → Type 0}
    (ok : IsSectors io Shows) where
  pub byte_to_sector-sector_of :
      (view : ℕ → Option Bytes) (d : InodeDisk) (p : ℕ) (st : St)
      → Shows view st
      → IsLayout view d
      → p < d.length_bytes
      → Returns (byte_to_sector io d p st) (sector_of view d (p / 512)) (Shows view)
  unfolding byte_to_sector
  byte_to_sector-sector_of view d p st v lay lt = rw (lt→ltb p d.length_bytes lt) (
      index_to_sector-sector_of io ok view d (sector_count d) (p / 512) st v lay.map
        (sector_count-lt d p lt))

pub byte_to_sector-beyond :
    {St : Type 0} (io : Sectors St) (d : InodeDisk) (p : ℕ) (st : St)
    → d.length_bytes ≤ p
    → byte_to_sector io d p st ≡ done no_sector st
unfolding byte_to_sector
byte_to_sector-beyond io d p st h = rw (le→ltb p d.length_bytes h) refl

pub byte_at-sector :
    (view : ℕ → Option Bytes) (d : InodeDisk) (p i : ℕ)
    → p / 512 ≡ i
    → byte_at view d p ≡ get_or (contents (view (sector_of view d i))) (p % 512) 0
unfolding byte_at
byte_at-sector view d p i e = rw e refl
