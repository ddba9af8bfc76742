-- ===== src/A3/Inode.antt =====
-- The inodes of a3/fs/inode.c: their format on the disk, the map from positions to sectors, reads
-- and writes. Offsets and sizes are at least 0, and `bounce` is always allocated.
pub mod Encoding
pub mod Layout
pub mod Read
pub mod Update
pub mod Written
pub mod Write
pub mod Reserve
pub mod Release
pub mod Rows
pub mod Listing
pub mod Within
pub mod Growth
use comp.Prelude.{
  ℕ, zero, suc, ◌+◌, ◌-◌, ◌*◌, ◌/◌, ◌%◌, Bool, true, false, not, ◌&&◌, ◌||◌, List, [], ◌∷◌, ◌++◌,
  ◌==◌, ltb, if◌then◌else◌, length, get_or, take, drop, overwrite, replicate,
}
use comp.Prelude.Windows.{window}
use comp.Prelude.Run.{Run, done, out_of_fuel, and_then}
use comp.A3.Bytes.{Bytes, block_sector_size, words_bytes, word_at}
use comp.A3.Sectors.{Sectors}

abbrev pub direct_blocks_count : ℕ
direct_blocks_count = 123

abbrev pub indirect_blocks_per_sector : ℕ
indirect_blocks_per_sector = 128

abbrev pub inode_magic : ℕ
inode_magic = 1229868868

-- `-1` as a `block_sector_t`
abbrev pub no_sector : ℕ
no_sector = 4294967295

-- `struct inode_disk`
pub record InodeDisk : Type 0 where
  pub direct_blocks : List ℕ
  pub indirect_block : ℕ
  pub doubly_indirect_block : ℕ
  pub is_dir : Bool
  pub length_bytes : ℕ
  pub magic : ℕ

-- `struct inode`, less its links in the list of open inodes
pub record Inode : Type 0 where
  pub sector : ℕ
  pub open_cnt : ℕ
  pub removed : Bool
  pub deny_write_cnt : ℕ
  pub body : InodeDisk

-- The byte of a `bool` with the three bytes of padding behind it.
abbrev pub bool_word : Bool → ℕ
bool_word b = if b then 1 else 0

-- The source copies a `struct inode_disk` to and from its sector as it is in memory. These are the
-- bytes that C gives the struct: its fields in their order, words of four bytes with the lowest
-- first, and a `bool` of one byte whose padding is zero.
unfoldable pub encode_inode : InodeDisk → Bytes
encode_inode d = words_bytes (
    d.direct_blocks
    ++ (d.indirect_block
        ∷ d.doubly_indirect_block
        ∷ bool_word d.is_dir
        ∷ d.length_bytes
        ∷ d.magic
        ∷ []))

unfoldable pub decode_inode : Bytes → InodeDisk
decode_inode b = record {
  direct_blocks = window (word_at b) 0 direct_blocks_count;
  indirect_block = word_at b 123;
  doubly_indirect_block = word_at b 124;
  is_dir = not (get_or b 500 0 == 0);
  length_bytes = word_at b 126;
  magic = word_at b 127;
}

unfoldable pub bytes_to_sectors : ℕ → ℕ
bytes_to_sectors size = (size + 511) / block_sector_size

unfoldable pub min : ℕ → ℕ → ℕ
min a b = if ltb a b then a else b

-- The `chunk_size` of a round, 0 also where the source's is negative.
unfoldable pub chunk_size : ℕ → ℕ → ℕ → ℕ
unfolding min
chunk_size inode_length size offset =
    min size (min (inode_length - offset) (block_sector_size - offset % block_sector_size))

-- A round moves a whole sector, without the bounce buffer.
abbrev pub is_whole : ℕ → ℕ → Bool
is_whole offset chunk = (offset % block_sector_size == 0) && (chunk == block_sector_size)

module _ {St : Type 0} (io : Sectors St) where
  open io use {buffer_cache_read, buffer_cache_write}

  -- Entry `k` of the indirect block in the sector `s`.
  unfoldable pub read_entry : ℕ → ℕ → St → Run St ℕ
  read_entry s k st = and_then (buffer_cache_read s st) (λ b st'. done (word_at b k) st')

  unfoldable pub index_to_sector : InodeDisk → ℕ → St → Run St ℕ
  unfolding read_entry
  index_to_sector d index st =
      if ltb index 123
      then done (get_or d.direct_blocks index 0) st
      else if ltb index 251
      then read_entry d.indirect_block (index - 123) st
      else if ltb index 16635
      then and_then (read_entry d.doubly_indirect_block ((index - 251) / 128) st)
          (λ s st'. read_entry s ((index - 251) % 128) st')
      else done no_sector st

  unfoldable pub byte_to_sector : InodeDisk → ℕ → St → Run St ℕ
  unfolding index_to_sector
  byte_to_sector d offset st =
      if ltb offset d.length_bytes
      then index_to_sector d (offset / block_sector_size) st
      else done no_sector st

  -- The bytes that a round of `inode_read_at` puts into the caller's buffer.
  unfoldable pub read_piece : ℕ → ℕ → ℕ → St → Run St Bytes
  read_piece s offset chunk st =
      and_then (buffer_cache_read s st) (λ b st'.
        done (if is_whole offset chunk then b else take chunk (drop (offset % 512) b)) st')

  -- The loop of `inode_read_at`: `bytes_read` and the bytes. The test `sector_idx < 0` is false of
  -- every `block_sector_t`.
  unfoldable pub read_loop : ℕ → InodeDisk → ℕ → ℕ → St → Run St (ℕ × Bytes)
  unfolding byte_to_sector read_piece
  read_loop zero d size offset st = if size == 0 then done (0, []) st else out_of_fuel
  read_loop (suc fuel) d size offset st =
      let chunk = chunk_size d.length_bytes size offset in
      let round = and_then (byte_to_sector d offset st) (λ s st1.
        if chunk == 0
        then done (0, []) st1
        else and_then (read_piece s offset chunk st1) (λ piece st2.
          and_then (read_loop fuel d (size - chunk) (offset + chunk) st2)
            (λ rest st3. done (chunk + rest.0, piece ++ rest.1) st3))) in
      if size == 0 then done (0, []) st else round

  -- A round moves at least one byte.
  unfoldable pub inode_read_at : InodeDisk → ℕ → ℕ → St → Run St (ℕ × Bytes)
  unfolding read_loop
  inode_read_at d size offset st = read_loop size d size offset st

  -- What a round of `inode_write_at` writes into the sector, from the first bytes of `source`.
  unfoldable pub write_piece : ℕ → ℕ → ℕ → Bytes → St → Run St (Unit {0})
  write_piece s offset chunk source st =
      if is_whole offset chunk
      then buffer_cache_write s (take chunk source) st
      else and_then
          (if not (offset % 512 == 0) || ltb chunk (block_sector_size - offset % 512)
            then buffer_cache_read s st
            else done (replicate block_sector_size 0) st)
          (λ b st'. buffer_cache_write s (overwrite (offset % 512) (take chunk source) b) st')

  -- The loop of `inode_write_at`: `bytes_written`.
  unfoldable pub write_loop : ℕ → InodeDisk → Bytes → ℕ → St → Run St ℕ
  unfolding byte_to_sector write_piece
  write_loop zero d source offset st = if length source == 0 then done 0 st else out_of_fuel
  write_loop (suc fuel) d source offset st =
      let chunk = chunk_size d.length_bytes (length source) offset in
      let round = and_then (byte_to_sector d offset st) (λ s st1.
        if chunk == 0
        then done 0 st1
        else and_then (write_piece s offset chunk source st1) (λ u st2.
          and_then (write_loop fuel d (drop chunk source) (offset + chunk) st2)
            (λ n st3. done (chunk + n) st3))) in
      if length source == 0 then done 0 st else round
