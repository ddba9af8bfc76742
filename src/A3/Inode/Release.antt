-- ===== src/A3/Inode/Release.antt =====
-- The sectors of an inode are given back, or listed, a3/fs/inode.c. A failed ASSERT is a fault.
use comp.Prelude.{ℕ, zero, suc, ◌+◌, ◌-◌, List, [], ◌∷◌, ◌++◌, ◌==◌, if◌then◌else◌, take}
use comp.Prelude.Windows.{window}
use comp.Prelude.Run.{Run, done, fault, and_then}
use comp.A3.Bytes.{Bytes, word_at}
use comp.A3.Sectors.{Sectors}
use comp.A3.Inode.{InodeDisk, direct_blocks_count, min, bytes_to_sectors}
use comp.A3.Inode.Reserve.{div_round_up, unit_of}

module _ {St : Type 0} (io : Sectors St) where
  open io use {buffer_cache_read}

  -- The loop over the second-level blocks.
  unfoldable pub list_second : ℕ → ℕ → ℕ → Bytes → St → Run St (List ℕ)
  unfolding min
  list_second zero i num b st = done [] st
  list_second (suc rounds) i num b st =
      let sub = min num 128 in
      and_then (buffer_cache_read (word_at b i) st) (λ b2 st1.
        and_then (list_second rounds (i + 1) (num - sub) b st1)
          (λ rest st2. done (window (word_at b2) 0 sub ++ rest) st2))

  unfoldable pub list_single : InodeDisk → ℕ → St → Run St (List ℕ)
  list_single d l st =
      if l == 0
      then done [] st
      else and_then (buffer_cache_read d.indirect_block st)
          (λ b st1. done (window (word_at b) 0 l) st1)

  unfoldable pub list_double : InodeDisk → ℕ → St → Run St (List ℕ)
  unfolding list_second div_round_up
  list_double d l st =
      if l == 0
      then done [] st
      else and_then (buffer_cache_read d.doubly_indirect_block st)
          (λ b st1. list_second (div_round_up l 128) 0 l b st1)

  unfoldable pub get_inode_data_sectors : InodeDisk → St → Run St (List ℕ)
  unfolding min bytes_to_sectors list_single list_double
  get_inode_data_sectors d st =
      let n1 = bytes_to_sectors d.length_bytes in
      let l1 = min n1 direct_blocks_count in
      let n2 = n1 - l1 in
      let l2 = min n2 128 in
      let n3 = n2 - l2 in
      let l3 = min n3 16384 in
      and_then (list_single d l2 st) (λ single st1. and_then (list_double d l3 st1) (λ double st2.
        if n3 - l3 == 0 then done (take l1 d.direct_blocks ++ (single ++ double)) st2 else fault))

  -- `free_map_release(sector, 1)` is a parameter.
  module _ (free_map_release : ℕ → St → Run St (Unit {0})) where
    unfoldable pub release_all : List ℕ → St → Run St (Unit {0})
    release_all [] st = done tt st
    release_all (s ∷ r) st = and_then (free_map_release s st) (λ u st1. release_all r st1)

    -- The loop of `inode_deallocate_indirect`, with the call for an entry as `deallocate`.
    unfoldable pub deallocate_entries :
        (ℕ → ℕ → St → Run St (Unit {0})) → ℕ → ℕ → ℕ → ℕ → Bytes → St → Run St (Unit {0})
    unfolding min
    deallocate_entries deallocate unit zero i num b st = done tt st
    deallocate_entries deallocate unit (suc rounds) i num b st =
        let sub = min num unit in
        and_then (deallocate (word_at b i) sub st)
          (λ u st1. deallocate_entries deallocate unit rounds (i + 1) (num - sub) b st1)

    unfoldable pub inode_deallocate_indirect : ℕ → ℕ → ℕ → St → Run St (Unit {0})
    unfolding deallocate_entries div_round_up
    inode_deallocate_indirect zero s num st = free_map_release s st
    inode_deallocate_indirect (suc level) s num st =
        let below = inode_deallocate_indirect level in
        let unit = unit_of (suc level) in
        and_then (buffer_cache_read s st) (λ b st1.
          and_then (deallocate_entries below unit (div_round_up num unit) 0 num b st1)
            (λ u st2. free_map_release s st2))

    -- `if (l > 0)` around a call.
    abbrev deallocate_some : ℕ → ℕ → ℕ → St → Run St (Unit {0})
    unfolding inode_deallocate_indirect
    deallocate_some level s l st =
        if l == 0 then done tt st else inode_deallocate_indirect level s l st

    unfoldable pub inode_deallocate : InodeDisk → St → Run St (Unit {0})
    unfolding min bytes_to_sectors release_all inode_deallocate_indirect
    inode_deallocate d st =
        let n1 = bytes_to_sectors d.length_bytes in
        let l1 = min n1 direct_blocks_count in
        let n2 = n1 - l1 in
        let l2 = min n2 128 in
        let n3 = n2 - l2 in
        let l3 = min n3 16384 in
        and_then (release_all (take l1 d.direct_blocks) st) (λ u st1.
          and_then (deallocate_some 1 d.indirect_block l2 st1) (λ v st2.
            and_then (deallocate_some 2 d.doubly_indirect_block l3 st2)
              (λ w st3. if n3 - l3 == 0 then done tt st3 else fault)))
