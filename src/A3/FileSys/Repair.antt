-- ===== src/A3/FileSys/Repair.antt =====
-- `fragmentation_degree`, `defragment` and `recover` of a3/fs/fsutil2.c, but for what they print.
use comp.Prelude.{
  ℕ, zero, suc, ◌+◌, ◌-◌, ◌/◌, ◌%◌, true, not, Option, none, some, List, [], ◌∷◌, ◌++◌, ◌==◌, ltb,
  if◌then◌else◌, length, take, drop,
}
use comp.Prelude.Int.{ℤ, pos, negsuc}
use comp.Prelude.Text.{Text, codes}
use comp.Prelude.Run.{Run, done, fault, out_of_fuel, and_then, ◌>>=◌, ◌>>◌}
use comp.A3.Bytes.{Bytes, block_sector_size, word_at}
use comp.A3.Inode.{inode_magic, bytes_to_sectors}
use comp.A3.OpenInodes.{InodeOps}
use comp.A3.Files.{Fs, Cmd, on_inodes, get_file, file_close}
use comp.A3.Directory.{name_max, c_string, dir_open_root, dir_close, dir_lookup, dir_add}
use comp.A3.Directory.Walk.{dir_readdir}
use comp.A3.FileSys.{filesys_open, fsutil_create, fsutil_write, fsutil_rm}
use comp.A3.FileSys.Tools.{Outside, is_fragmented, all_zero, hidden_range, host_write}

-- What is counted of a file: whether it can be fragmented, and whether it is.
abbrev pub Count : Type 0
Count = ℕ × ℕ

-- A `FileData` of `defragment`.
abbrev pub FileData : Type 0
FileData = Text × Bytes

module _ {St : Type 0} (ops : InodeOps St) (allocate : St → Run St (Option ℕ))
    (release : ℕ → St → Run St (Unit {0})) (out : Outside St) where
  open out use {
    decimal, bitmap_size, bitmap_test, bitmap_set, buffer_cache_read, get_inode_data_sectors,
  }

  -- The body of the loop of `fragmentation_degree`, for a file that opens.
  unfoldable pub count_file : ℕ → Count → Cmd St Count
  unfolding get_file file_close is_fragmented
  count_file f count = get_file f >>= λ file. on_inodes (ops.peek file.inode) >>= λ inode.
      let total = inode.body.length_bytes / block_sector_size in
      (if not (ltb 1 total)
        then done count
        else (on_inodes (get_inode_data_sectors inode.body) >>= λ sectors.
            elim (take total sectors) as (λ _. Cmd St Count) [
              | [] ↦ λ s. fault
              | first ∷ r ↦
                  done (count.0 + 1, if is_fragmented first r then count.1 + 1 else count.1)
            ]))
      >>= λ count'. file_close ops f >>= λ u. done count'

  -- The loop from the name in `fileName` on.
  unfoldable pub degree_loop : ℕ → ℕ → Text → Count → Cmd St Count
  unfolding filesys_open count_file dir_readdir
  degree_loop zero dir name count s = out_of_fuel
  degree_loop (suc fuel) dir name count s =
      and_then (filesys_open ops allocate release name s) (λ r s1.
        and_then
          (elim r as (λ _. Run (Fs St) Count) [
            | none ↦ done count s1
            | some f ↦ count_file f count s1
          ])
          (λ count' s2. and_then (dir_readdir ops dir s2) (λ next s3.
            elim next as (λ _. Run (Fs St) Count) [
              | none ↦ done count' s3
              | some name' ↦ degree_loop fuel dir name' count' s3
            ])))

  -- `fileName` is not set before the first round: `junk` is what is there.
  unfoldable pub fragmentation_degree : ℕ → Text → Cmd St Count
  unfolding dir_open_root degree_loop dir_close
  fragmentation_degree fuel junk = dir_open_root ops >>= λ dir.
      degree_loop fuel dir junk (0, 0) >>= λ count. dir_close ops dir >>= λ u. done count

  -- A round of the first loop of `defragment`: the file is read and removed; a directory stays. A
  -- short read leaves bytes in the buffer that are not set.
  unfoldable pub save_file : ℕ → Text → Cmd St (List FileData)
  unfolding dir_lookup fsutil_rm
  save_file dir name = dir_lookup ops dir name >>= λ r. elim r as (λ _. Cmd St (List FileData)) [
    | none ↦ done []
    | some inode ↦ on_inodes (ops.peek inode) >>= λ i.
        if i.body.is_dir
        then (on_inodes (ops.close inode) >>= λ u. done [])
        else (on_inodes (ops.read_at inode i.body.length_bytes (pos 0)) >>= λ got.
            on_inodes (ops.close inode) >>= λ u. fsutil_rm ops allocate release name >>= λ v.
            if got.0 == i.body.length_bytes then done ((name, got.1) ∷ []) else (λ s. fault))
  ]

  unfoldable pub save_files : ℕ → ℕ → Cmd St (List FileData)
  unfolding dir_readdir save_file
  save_files zero dir s = out_of_fuel
  save_files (suc fuel) dir s = and_then (dir_readdir ops dir s) (λ r s1.
      elim r as (λ _. Run (Fs St) (List FileData)) [
        | none ↦ done [] s1
        | some name ↦
            and_then (save_file dir name s1)
              (λ saved s2. and_then (save_files fuel dir s2) (λ rest s3. done (saved ++ rest) s3))
      ])

  -- The second loop: the status.
  unfoldable pub restore_files : List FileData → Cmd St ℤ
  unfolding fsutil_create fsutil_write
  restore_files [] s = done (pos 0) s
  restore_files ((name, body) ∷ r) s =
      and_then (fsutil_create ops allocate release name (length body) s) (λ made s1.
        if not made
        then done (pos 9) s1
        else and_then (fsutil_write ops allocate release name body s1) (λ n s2.
          elim n as (λ _. Run (Fs St) ℤ) [
            | negsuc k ↦ done (pos 11) s2
            | pos k ↦ restore_files r s2
          ]))

  unfoldable pub defragment : ℕ → Cmd St ℤ
  unfolding dir_open_root save_files dir_close restore_files
  defragment fuel = dir_open_root ops >>= λ dir.
      save_files fuel dir >>= λ files. dir_close ops dir >>= λ u. restore_files files

  -- A round of `recover(0)`, for the sector `i`.
  unfoldable pub recover_inode : ℕ → ℕ → Cmd St (Unit {0})
  unfolding dir_add
  recover_inode dir i s =
      if bitmap_test i s.under
      then done tt s
      else (on_inodes (buffer_cache_read i) >>= λ b.
            if not (word_at b 127 == inode_magic)
            then done tt
            else (dir_add ops dir (take name_max (codes "recovered0-" ++ decimal i)) i
                >>= λ added s'.
                    done tt
                      (if added then record s' { under = bitmap_set i true s'.under } else s')))
          s

  -- The rounds of a loop over the sectors from `i` on.
  unfoldable pub each_sector : ℕ → ℕ → (ℕ → Cmd St (Unit {0})) → Cmd St (Unit {0})
  each_sector zero i round = done tt
  each_sector (suc n) i round = round i >>= λ u. each_sector n (i + 1) round

  -- A round of `recover(1)`.
  unfoldable pub recover_block : ℕ → Cmd St (Unit {0})
  unfolding all_zero c_string host_write
  recover_block x = on_inodes (buffer_cache_read x) >>= λ b.
      if all_zero b
      then done tt
      else (host_write ops allocate release out
            (take name_max (codes "recovered1-" ++ decimal x ++ codes ".txt")) (c_string b)
          >>= λ ok. done tt)

  -- The rounds of `recover_past_end`, for `n` sectors of a file of `size` bytes.
  unfoldable pub past_end_loop : ℕ → Text → List ℕ → Cmd St (Unit {0})
  unfolding hidden_range host_write
  past_end_loop size name [] = done tt
  past_end_loop size name (sector ∷ r) = on_inodes (buffer_cache_read sector) >>= λ b.
      let start = elim r as (λ _. ℕ) [
        | [] ↦ size % block_sector_size
        | t ∷ ts ↦ block_sector_size
      ] in
      let range = hidden_range start b in
      (if range.0 == range.1
        then done tt
        else (host_write ops allocate release out
              (take name_max (codes "recovered2-" ++ name ++ codes ".txt"))
              (take (range.1 - range.0) (drop range.0 b))
            >>= λ ok. done tt))
      >>= λ u. past_end_loop size name r

  unfoldable pub recover_past_end : ℕ → Text → Cmd St (Unit {0})
  unfolding get_file bytes_to_sectors past_end_loop
  recover_past_end f name = get_file f >>= λ file. on_inodes (ops.peek file.inode) >>= λ inode.
      on_inodes (get_inode_data_sectors inode.body) >>= λ sectors.
      past_end_loop inode.body.length_bytes name
        (take (bytes_to_sectors inode.body.length_bytes) sectors)

  unfoldable pub recover_ends : ℕ → ℕ → Cmd St (Unit {0})
  unfolding dir_readdir filesys_open recover_past_end file_close
  recover_ends zero dir s = out_of_fuel
  recover_ends (suc fuel) dir s = and_then (dir_readdir ops dir s) (λ r s1.
      elim r as (λ _. Run (Fs St) (Unit {0})) [
        | none ↦ done tt s1
        | some name ↦ and_then (filesys_open ops allocate release name s1) (λ found s2.
            and_then
              (elim found as (λ _. Run (Fs St) (Unit {0})) [
                | none ↦ done tt s2
                | some f ↦ (recover_past_end f name >> file_close ops f) s2
              ])
              (λ u s3. recover_ends fuel dir s3))
      ])

  unfoldable pub recover : ℕ → ℕ → Cmd St (Unit {0})
  unfolding dir_open_root each_sector recover_inode recover_block recover_ends dir_close
  recover fuel flag s =
      let size = bitmap_size s.under in
      if flag == 0
      then (dir_open_root ops >>= λ dir.
            each_sector size 0 (recover_inode dir) >>= λ u. dir_close ops dir)
          s
      else if flag == 1
      then each_sector (size - 4) 4 recover_block s
      else if flag == 2
      then (dir_open_root ops >>= λ dir. recover_ends fuel dir >>= λ u. dir_close ops dir) s
      else done tt s
