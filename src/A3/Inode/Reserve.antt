-- ===== src/A3/Inode/Reserve.antt =====
-- The sectors of an inode are taken, a3/fs/inode.c, by `inode_create` and `inode_write_at`.
-- `free_map_allocate(1, &sector)` is a parameter, `none` for `false`; a failed ASSERT is a fault.
use comp.Prelude.{
  ℕ, zero, suc, ◌+◌, ◌-◌, ◌*◌, ◌/◌, Bool, true, false, not, Option, none, some, List, [], ◌∷◌, ◌==◌,
  if◌then◌else◌, length, overwrite, replicate,
}
use comp.Prelude.Run.{Run, done, fault, and_then}
use comp.A3.Bytes.{Bytes, block_sector_size, word_bytes, word_at}
use comp.A3.Sectors.{Sectors}
use comp.A3.Inode.{
  InodeDisk, Inode, no_sector, direct_blocks_count, inode_magic, min, bytes_to_sectors,
  encode_inode, byte_to_sector, write_loop,
}

abbrev pub zeros : Bytes
zeros = replicate block_sector_size 0

-- `blocks[k] = w` in an indirect block.
unfoldable pub set_word : Bytes → ℕ → ℕ → Bytes
set_word b k w = overwrite (4 * k) (word_bytes w) b

-- `DIV_ROUND_UP` of a3/fs/round.h
unfoldable pub div_round_up : ℕ → ℕ → ℕ
div_round_up x step = (x + step - 1) / step

-- `unit` at a level above 0: the data sectors below one entry.
abbrev pub unit_of : ℕ → ℕ
unit_of level = if level == 1 then 1 else 128

module _ {St : Type 0} (io : Sectors St) (free_map_allocate : St → Run St (Option ℕ)) where
  open io use {buffer_cache_read, buffer_cache_write}

  -- An entry that is 0 gets a zeroed sector: whether there was one, and the entry as it is left.
  unfoldable pub reserve_sector : ℕ → St → Run St (Bool × ℕ)
  reserve_sector p st =
      if p == 0
      then and_then (free_map_allocate st) (λ r st1. elim r as (λ _. Run St (Bool × ℕ)) [
        | none ↦ done (false, p) st1
        | some s ↦ and_then (buffer_cache_write s zeros st1) (λ u st2. done (true, s) st2)
      ])
      else done (true, p) st

  -- The index block of `inode_reserve_indirect`: a failed `free_map_allocate` leaves the entry at
  -- 0, and sector 0 is written and read.
  unfoldable pub reserve_index : ℕ → St → Run St ℕ
  reserve_index p st =
      if p == 0
      then and_then (free_map_allocate st) (λ r st1.
        let s = elim r as (λ _. ℕ) [ none ↦ p | some s ↦ s ] in
        and_then (buffer_cache_write s zeros st1) (λ u st2. done s st2))
      else done p st

  -- The loop of `inode_reserve_indirect`, over `rounds` entries from `i` on, with the call for an
  -- entry as `reserve`.
  unfoldable pub reserve_entries :
      (ℕ → ℕ → St → Run St (Bool × ℕ)) → ℕ → ℕ → ℕ → ℕ → Bytes → St → Run St (Bool × Bytes)
  unfolding min
  reserve_entries reserve unit zero i num b st = done (true, b) st
  reserve_entries reserve unit (suc rounds) i num b st =
      let sub = min num unit in
      and_then (reserve (word_at b i) sub st) (λ r st1.
        let b' = set_word b i r.1 in
        let rest = reserve_entries reserve unit rounds (i + 1) (num - sub) b' st1 in
        if r.0 then rest else done (false, b') st1)

  unfoldable pub inode_reserve_indirect : ℕ → ℕ → ℕ → St → Run St (Bool × ℕ)
  unfolding reserve_sector reserve_index reserve_entries div_round_up
  inode_reserve_indirect zero p num st = reserve_sector p st
  inode_reserve_indirect (suc level) p num st =
      let below = inode_reserve_indirect level in
      let unit = unit_of (suc level) in
      and_then (reserve_index p st) (λ s st1. and_then (buffer_cache_read s st1) (λ b st2.
        and_then (reserve_entries below unit (div_round_up num unit) 0 num b st2) (λ r st3.
          if r.0
          then and_then (buffer_cache_write s r.1 st3) (λ u st4. done (true, s) st4)
          else done (false, s) st3)))

  -- The loop over the direct blocks.
  unfoldable pub reserve_direct : ℕ → List ℕ → St → Run St (Bool × List ℕ)
  unfolding reserve_sector
  reserve_direct zero ps st = done (true, ps) st
  reserve_direct (suc n) [] st = fault
  reserve_direct (suc n) (p ∷ ps) st = and_then (reserve_sector p st) (λ r st1.
      let rest = and_then (reserve_direct n ps st1) (λ q st2. done (q.0, r.1 ∷ q.1) st2) in
      if r.0 then rest else done (false, r.1 ∷ ps) st1)

  -- The parts (2) and (3) of `inode_reserve`, for what is left of the sectors.
  unfoldable pub reserve_double : InodeDisk → ℕ → St → Run St (Bool × InodeDisk)
  unfolding min inode_reserve_indirect
  reserve_double d num st =
      let l = min num 16384 in
      and_then (inode_reserve_indirect 2 d.doubly_indirect_block l st) (λ r st1.
        let d' = record d { doubly_indirect_block = r.1 } in
        if not r.0
        then done (false, d') st1
        else if num - l == 0
        then done (true, d') st1
        else fault)

  unfoldable pub reserve_single : InodeDisk → ℕ → St → Run St (Bool × InodeDisk)
  unfolding min inode_reserve_indirect reserve_double
  reserve_single d num st =
      let l = min num 128 in
      and_then (inode_reserve_indirect 1 d.indirect_block l st) (λ r st1.
        let d' = record d { indirect_block = r.1 } in
        if not r.0
        then done (false, d') st1
        else if num - l == 0
        then done (true, d') st1
        else reserve_double d' (num - l) st1)

  -- Whether the sectors for `length` bytes are there, and the inode as it is left.
  unfoldable pub inode_reserve : InodeDisk → ℕ → St → Run St (Bool × InodeDisk)
  unfolding min bytes_to_sectors reserve_direct reserve_single
  inode_reserve d length st =
      let num = bytes_to_sectors length in
      let l = min num direct_blocks_count in
      and_then (reserve_direct l d.direct_blocks st) (λ r st1.
        let d' = record d { direct_blocks = r.1 } in
        if not r.0
        then done (false, d') st1
        else if num - l == 0
        then done (true, d') st1
        else reserve_single d' (num - l) st1)

  -- `inode_allocate` is `inode_reserve` of the inode's own length.
  unfoldable pub inode_create : ℕ → ℕ → Bool → St → Run St Bool
  unfolding inode_reserve encode_inode
  inode_create sector length is_dir st =
      let fresh : InodeDisk = record {
        direct_blocks = replicate direct_blocks_count 0;
        indirect_block = 0;
        doubly_indirect_block = 0;
        is_dir = is_dir;
        length_bytes = length;
        magic = inode_magic;
      } in
      and_then (inode_reserve fresh length st) (λ r st1.
        if r.0
        then and_then (buffer_cache_write sector (encode_inode r.1) st1) (λ u st2. done true st2)
        else done false st1)

  -- The sector of the last byte to write; there is none at -1, where no byte is written at 0.
  unfoldable pub last_sector : InodeDisk → ℕ → ℕ → St → Run St ℕ
  unfolding byte_to_sector
  last_sector d size offset st =
      if offset + size == 0 then done no_sector st else byte_to_sector io d (offset + size - 1) st

  -- The part of `inode_write_at` before its loop: `false` where it returns 0.
  unfoldable pub extend : Inode → ℕ → ℕ → St → Run St (Bool × Inode)
  unfolding last_sector inode_reserve encode_inode
  extend inode size offset st = and_then (last_sector inode.body size offset st) (λ s st1.
      if s == no_sector
      then and_then (inode_reserve inode.body (offset + size) st1) (λ r st2.
        if r.0
        then (let d = record r.1 { length_bytes = offset + size } in
            and_then (buffer_cache_write inode.sector (encode_inode d) st2)
              (λ u st3. done (true, record inode { body = d }) st3))
        else done (false, record inode { body = r.1 }) st2)
      else done (true, inode) st1)

  -- `bytes_written`, and the inode as it is left.
  unfoldable pub inode_write_at : Inode → Bytes → ℕ → St → Run St (ℕ × Inode)
  unfolding extend write_loop
  inode_write_at inode source offset st =
      if not (inode.deny_write_cnt == 0)
      then done (0, inode) st
      else and_then (extend inode (length source) offset st) (λ r st1.
        if r.0
        then and_then (write_loop io (length source) r.1.body source offset st1)
            (λ n st2. done (n, r.1) st2)
        else done (0, r.1) st1)
