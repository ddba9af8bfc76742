-- ===== src/A3/FileSys.antt =====
-- a3/fs/filesys.c, and the utilities of a3/fs/fsutil.c but for what they print. The free map is
-- called by `allocate` and `release`.
pub mod Tools
pub mod Hidden
pub mod Repair
use comp.Prelude.{
  ℕ, zero, suc, ◌+◌, Bool, true, false, not, ◌&&◌, ◌||◌, Option, none, some, List, [], ◌∷◌, ◌++◌,
  ◌==◌, leb, if◌then◌else◌, length,
}
use comp.Prelude.Int.{ℤ, pos, negsuc}
use comp.Prelude.Text.{Text}
use comp.Prelude.Run.{Run, done, fault, out_of_fuel, and_then, ◌>>=◌, ◌>>◌, pure}
use comp.A3.Bytes.{Bytes}
use comp.A3.Inode.{Inode}
use comp.A3.OpenInodes.{InodeOps}
use comp.A3.Files.{
  File, Fs, Cmd, lift_fs, on_inodes, get_file, file_open, file_seek, file_tell, file_read,
  file_write, file_length, get_file_by_fname, add_to_file_table, remove_from_file_table,
  free_file_table,
}
use comp.A3.Directory.{
  split_path_filename, dir_open_root, dir_close, dir_lookup, dir_get_inode, dir_add,
}
use comp.A3.Directory.Walk.{dir_open_path, dir_remove, dir_readdir}

-- `none` for a file that is `NULL`.
module _ {St : Type 0} (ops : InodeOps St) (allocate : St → Run St (Option ℕ))
    (release : ℕ → St → Run St (Unit {0})) where
  -- The attempt of `filesys_create`, and the sector that was allocated, 0 where there is none.
  unfoldable pub create_entry : ℕ → Text → ℕ → Cmd St (Bool × ℕ)
  unfolding dir_add
  create_entry dir file_name size = on_inodes allocate >>= λ r. elim r as (λ _. Cmd St (Bool × ℕ)) [
    | none ↦ done (false, 0)
    | some sector ↦ on_inodes (ops.create sector size false) >>= λ made.
        if not made
        then done (false, sector)
        else (dir_add ops dir file_name sector >>= λ added. done (added, sector))
  ]

  -- `filesys_create` of a file; the directory that the path names is not looked at.
  unfoldable pub filesys_create : Text → ℕ → Cmd St Bool
  unfolding split_path_filename dir_open_root create_entry dir_close
  filesys_create path size = dir_open_root ops >>= λ dir.
      create_entry dir (split_path_filename path).1 size >>= λ r.
      (if not r.0 && not (r.1 == 0) then on_inodes (release r.1) else done tt) >>= λ u.
      dir_close ops dir >>= λ v. done r.0

  -- The inode of `filesys_open`; the directory stays open where the path names no file.
  unfoldable pub open_named : ℕ → Text → Cmd St (Option ℕ)
  unfolding dir_lookup dir_close dir_get_inode
  open_named dir [] = dir_get_inode dir >>= λ i. done (some i)
  open_named dir (c ∷ r) =
      dir_lookup ops dir (c ∷ r) >>= λ found. dir_close ops dir >>= λ u. done found

  unfoldable pub filesys_open : Text → Cmd St (Option ℕ)
  unfolding split_path_filename dir_open_root open_named file_open
  filesys_open [] = done none
  filesys_open (c ∷ r) = dir_open_root ops >>= λ dir.
      open_named dir (split_path_filename (c ∷ r)).1 >>= λ found.
      elim found as (λ _. Cmd St (Option ℕ)) [
        | none ↦ done none
        | some inode ↦ on_inodes (ops.peek inode) >>= λ i.
            if i.removed then done none else (file_open inode >>= λ f. done (some f))
      ]

  unfoldable pub filesys_remove : Text → Cmd St Bool
  unfolding split_path_filename dir_open_path dir_remove dir_close
  filesys_remove name = dir_open_path ops (split_path_filename name).0 >>= λ found.
      elim found as (λ _. Cmd St Bool) [
        | none ↦ done false
        | some dir ↦ dir_remove ops dir (split_path_filename name).1 >>= λ success.
            dir_close ops dir >>= λ u. done success
      ]

  unfoldable pub filesys_chdir : Text → Cmd St Bool
  unfolding dir_open_path dir_close
  filesys_chdir name = dir_open_path ops name >>= λ found. elim found as (λ _. Cmd St Bool) [
    | none ↦ done false
    | some dir ↦ λ s.
        and_then
          (elim s.cwd as (λ _. Run (Fs St) (Unit {0})) [
            | none ↦ done tt s
            | some d ↦ dir_close ops d s
          ])
          (λ u s'. done true (record s' { cwd = some dir }))
  ]

  -- The first lines of the utilities: the file of the name, opened where it is not in the table.
  unfoldable pub file_of : Text → Cmd St (Option ℕ)
  unfolding get_file_by_fname filesys_open add_to_file_table
  file_of fname s = elim (get_file_by_fname fname s.file_table) as (λ _. Run (Fs St) (Option ℕ)) [
    | some f ↦ done (some f) s
    | none ↦ and_then (filesys_open fname s) (λ r s1. elim r as (λ _. Run (Fs St) (Option ℕ)) [
      | none ↦ done none s1
      | some f ↦ and_then (add_to_file_table f fname s1) (λ u s2. done (some f) s2)
    ])
  ]

  -- A utility on the file of the name, -1 where there is none.
  unfoldable pub on_file : Text → (ℕ → Cmd St ℤ) → Cmd St ℤ
  unfolding file_of
  on_file fname use_file = file_of fname >>= λ r. elim r as (λ _. Cmd St ℤ) [
    | none ↦ done (negsuc 0)
    | some f ↦ use_file f
  ]

  unfoldable pub fsutil_rm : Text → Cmd St Bool
  unfolding remove_from_file_table filesys_remove
  fsutil_rm fname = remove_from_file_table ops fname >>= λ u. filesys_remove fname

  -- `false` for 0
  unfoldable pub fsutil_create : Text → ℕ → Cmd St Bool
  unfolding filesys_create
  fsutil_create fname size =
      if (length fname == 0) || leb 255 (length fname)
      then done false
      else filesys_create fname size

  unfoldable pub fsutil_write : Text → Bytes → Cmd St ℤ
  unfolding on_file file_write
  fsutil_write fname buffer = on_file fname (λ f. file_write ops f buffer >>= λ n. done (pos n))

  -- -1, or the number of the bytes read; and the bytes.
  unfoldable pub fsutil_read : Text → ℕ → Cmd St (ℤ × Bytes)
  unfolding file_of file_read
  fsutil_read fname size = file_of fname >>= λ r. elim r as (λ _. Cmd St (ℤ × Bytes)) [
    | none ↦ done (negsuc 0, [])
    | some f ↦ file_read ops f size >>= λ got. done (pos got.0, got.1)
  ]

  unfoldable pub fsutil_size : Text → Cmd St ℤ
  unfolding on_file get_file file_length file_seek
  fsutil_size fname = on_file fname (λ f. get_file f >>= λ file.
      file_length ops f >>= λ n. file_seek f file.position >>= λ u. done (pos n))

  unfoldable pub fsutil_seek : Text → ℤ → Cmd St ℤ
  unfolding on_file file_seek
  fsutil_seek fname offset = on_file fname (λ f. file_seek f offset >>= λ u. done (pos 0))

  unfoldable pub fsutil_close : Text → Cmd St (Unit {0})
  unfolding remove_from_file_table
  fsutil_close fname = remove_from_file_table ops fname >>= λ u. done tt

  -- The loop of `fsutil_ls`: the names.
  unfoldable pub list_names : ℕ → ℕ → Cmd St (List Text)
  unfolding dir_readdir
  list_names zero dir s = out_of_fuel
  list_names (suc fuel) dir s = and_then (dir_readdir ops dir s) (λ r s1.
      elim r as (λ _. Run (Fs St) (List Text)) [
        | none ↦ done [] s1
        | some name ↦ and_then (list_names fuel dir s1) (λ names s2. done (name ∷ names) s2)
      ])

  -- The names that are printed.
  unfoldable pub fsutil_ls : ℕ → Cmd St (List Text)
  unfolding dir_open_root list_names dir_close
  fsutil_ls fuel = dir_open_root ops >>= λ dir.
      list_names fuel dir >>= λ names. dir_close ops dir >>= λ u. done names
