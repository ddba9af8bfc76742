-- ===== src/A3/FileSys/Tools.antt =====
-- `fsutil_cat` of a3/fs/fsutil.c, and a3/fs/fsutil2.c, but for what they print. The host's files,
-- the decimal digits of `snprintf`, and the bitmap of a3/fs/bitmap.c are parameters.
use comp.Prelude.{
  ℕ, zero, suc, ◌+◌, ◌-◌, ◌*◌, Bool, true, false, not, ◌&&◌, ◌||◌, Option, none, some, List, [],
  ◌∷◌, ◌++◌, ◌==◌, ltb, if◌then◌else◌, length, drop,
}
use comp.Prelude.Int.{ℤ, pos, negsuc}
use comp.Prelude.Text.{Text}
use comp.Prelude.Run.{Run, done, fault, out_of_fuel, and_then, ◌>>=◌}
use comp.A3.Bytes.{Bytes, block_sector_size}
use comp.A3.Inode.{InodeDisk}
use comp.A3.OpenInodes.{InodeOps}
use comp.A3.Files.{
  Fs, Cmd, file_seek, file_tell, file_read, file_length, get_file_by_fname, add_to_file_table,
  remove_from_file_table,
}
use comp.A3.Directory.{c_string, dir_open_root, dir_close}
use comp.A3.Directory.Walk.{dir_readdir}
use comp.A3.FileSys.{file_of, filesys_open, fsutil_create, fsutil_write, fsutil_read, fsutil_size}

-- What these utilities use besides.
pub record Outside (St : Type 0) : Type 1 where
  -- A file of the host, `none` where `fopen` or `fseek` fails.
  pub read_host : Text → St → Option Bytes
  -- `fopen` to write, and the write; `none` where `fopen` fails.
  pub write_host : Text → Bytes → St → Option St
  pub decimal : ℕ → Text
  pub num_free_sectors : St → ℕ
  pub bitmap_size : St → ℕ
  pub bitmap_test : ℕ → St → Bool
  pub bitmap_set : ℕ → Bool → St → St
  pub buffer_cache_read : ℕ → St → Run St Bytes
  pub get_inode_data_sectors : InodeDisk → St → Run St (List ℕ)

unfoldable pub starts_with : Text → Text → Bool
starts_with [] t = true
starts_with (c ∷ r) [] = false
starts_with (c ∷ r) (d ∷ t) = (c == d) && starts_with r t

-- `strstr(text, pattern) != NULL`
unfoldable pub has_part : Text → Text → Bool
unfolding starts_with
has_part [] pattern = starts_with pattern []
has_part (c ∷ r) pattern = starts_with pattern (c ∷ r) || has_part r pattern

-- The loop of `fragmentation_degree` over the sectors of a file.
unfoldable pub is_fragmented : ℕ → List ℕ → Bool
is_fragmented previous [] = false
is_fragmented previous (current ∷ r) = ltb 3 (current - previous) || is_fragmented current r

-- The bytes of `recover(1)`: up to the first that is 0.
unfoldable pub all_zero : Bytes → Bool
all_zero [] = true
all_zero (b ∷ r) = (b == 0) && all_zero r

-- The first loop of `recover_past_end`: the position of the first byte that is not 0, from `y` on.
unfoldable pub first_byte : ℕ → Bytes → Option ℕ
first_byte y [] = none
first_byte y (b ∷ r) = let rest = first_byte (y + 1) r in if b == 0 then rest else some y

-- The second loop: behind the last byte that is not 0, or `end`.
unfoldable pub last_byte : ℕ → ℕ → Bytes → ℕ
last_byte end z [] = end
last_byte end z (b ∷ r) = last_byte (if b == 0 then end else z + 1) (z + 1) r

-- `start` and `end` after the second loop, from what the first one found.
unfoldable pub range_of : ℕ → Bytes → Option ℕ → ℕ × ℕ
unfolding last_byte
range_of start b none = (start, last_byte start (start + 1) (drop (start + 1) b))
range_of start b (some y) = (y, last_byte (y + 1) (y + 1) (drop (y + 1) b))

-- `start` and `end` after both loops, for a sector whose data end at `start`.
unfoldable pub hidden_range : ℕ → Bytes → ℕ × ℕ
unfolding first_byte range_of
hidden_range start b = range_of start b (first_byte start (drop start b))

module _ {St : Type 0} (ops : InodeOps St) (allocate : St → Run St (Option ℕ))
    (release : ℕ → St → Run St (Unit {0})) (out : Outside St) where
  open out use {
    read_host, write_host, decimal, num_free_sectors, bitmap_size, bitmap_test, bitmap_set,
    buffer_cache_read, get_inode_data_sectors,
  }

  unfoldable pub host_write : Text → Bytes → Cmd St Bool
  host_write name b s = elim (write_host name b s.under) as (λ _. Run (Fs St) Bool) [
    | none ↦ done false s
    | some st ↦ done true (record s { under = st })
  ]

  -- The loop of `fsutil_cat`: the bytes that are dumped.
  unfoldable pub cat_loop : ℕ → ℕ → ℕ → Cmd St Bytes
  unfolding file_read
  cat_loop zero f size s = out_of_fuel
  cat_loop (suc fuel) f size s = and_then (file_read ops f size s) (λ r s1.
      if r.0 == 0
      then done [] s1
      else and_then (cat_loop fuel f size s1) (λ rest s2. done (r.1 ++ rest) s2))

  -- The loop ends once there is nothing to read: two rounds for a file that is not empty.
  unfoldable pub fsutil_cat : Text → Cmd St (Option Bytes)
  unfolding cat_loop file_of get_file_by_fname remove_from_file_table
  fsutil_cat name s =
      let opened = elim (get_file_by_fname name s.file_table) as (λ _. Bool) [
        | none ↦ true
        | some f ↦ false
      ] in
      and_then (file_of ops allocate release name s) (λ r. elim r as (λ _. Cmd St (Option Bytes)) [
        | none ↦ done none
        | some f ↦ file_tell f >>= λ cur. file_seek f (pos 0) >>= λ u. file_length ops f >>= λ size.
            cat_loop 2 f size >>= λ b. file_seek f cur >>= λ v.
            (if opened then remove_from_file_table ops name else done true) >>= λ w. done (some b)
      ])

  -- The status of `copy_in`.
  unfoldable pub copy_in : Text → Cmd St ℤ
  unfolding fsutil_create fsutil_write
  copy_in fname s = elim (read_host fname s.under) as (λ _. Run (Fs St) ℤ) [
    | none ↦ done (negsuc 0) s
    | some b ↦
        let size = length b + 1 in
        let freespace = num_free_sectors s.under * block_sector_size in
        and_then
          (fsutil_create ops allocate release fname (if ltb freespace size then freespace else size)
            s)
          (λ made.
            if not made
            then done (pos 9)
            else (fsutil_write ops allocate release fname (b ++ (0 ∷ [])) >>= λ n.
                elim n as (λ _. Cmd St ℤ) [ pos k ↦ done (pos 0) | negsuc k ↦ done (pos 11) ]))
  ]

  -- A size that is -1 is one of a file that does not open here either.
  unfoldable pub copy_out : Text → Cmd St ℤ
  unfolding fsutil_size file_of fsutil_read host_write c_string
  copy_out fname = fsutil_size ops allocate release fname >>= λ n.
      let size : ℕ = elim n as (λ _. ℕ) [ pos k ↦ k | negsuc k ↦ 0 ] in
      file_of ops allocate release fname >>= λ r. elim r as (λ _. Cmd St ℤ) [
        | none ↦ done (negsuc 0)
        | some f ↦ file_tell f >>= λ cur. file_seek f (pos 0) >>= λ u.
            fsutil_read ops allocate release fname size >>= λ got. file_seek f cur >>= λ v.
            host_write fname (c_string got.1) >>= λ ok. done (if ok then pos 0 else pos 11)
      ]

  -- A round of `find_file`: whether the file has the pattern.
  unfoldable pub file_matches : Text → Text → Cmd St Bool
  unfolding filesys_open add_to_file_table fsutil_size file_read remove_from_file_table has_part
      c_string
  file_matches pattern name = filesys_open ops allocate release name >>= λ r.
      elim r as (λ _. Cmd St Bool) [
        | none ↦ λ s. fault
        | some f ↦ add_to_file_table f name >>= λ u. fsutil_size ops allocate release name >>= λ n.
            let size : ℕ = elim n as (λ _. ℕ) [ pos k ↦ k | negsuc k ↦ 0 ] in
            file_tell f >>= λ cur. file_seek f (pos 0) >>= λ v. file_read ops f size >>= λ got.
            file_seek f cur >>= λ w.
            remove_from_file_table ops name >>= λ x. done (has_part (c_string got.1) pattern)
      ]

  -- The names that `find_file` prints.
  unfoldable pub find_loop : ℕ → Text → ℕ → Cmd St (List Text)
  unfolding dir_readdir file_matches
  find_loop zero pattern dir s = out_of_fuel
  find_loop (suc fuel) pattern dir s = and_then (dir_readdir ops dir s) (λ r s1.
      elim r as (λ _. Run (Fs St) (List Text)) [
        | none ↦ done [] s1
        | some name ↦ and_then (file_matches pattern name s1) (λ matched s2.
            and_then (find_loop fuel pattern dir s2)
              (λ names s3. done (if matched then name ∷ names else names) s3))
      ])

  unfoldable pub find_file : ℕ → Text → Cmd St (List Text)
  unfolding dir_open_root find_loop dir_close
  find_file fuel pattern = dir_open_root ops >>= λ dir.
      find_loop fuel pattern dir >>= λ names. dir_close ops dir >>= λ u. done names
