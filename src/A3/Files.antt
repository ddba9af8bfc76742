-- ===== src/A3/Files.antt =====
-- Open files and the table of them by name, a3/fs/file.c, over the operations on inodes.
-- A `struct file *` is an address; the use of one that was freed is a fault.
use comp.Prelude.{
  ℕ, ◌+◌, Bool, true, false, not, Option, none, some, List, [], ◌∷◌, ◌++◌, if◌then◌else◌,
}
use comp.Prelude.Cells.{deref, assign, free_cell}
use comp.Prelude.Int.{ℤ, pos, negsuc, plus, minus}
use comp.Prelude.Text.{Text, text_eq}
use comp.Prelude.Run.{Run, done, exited, fault, out_of_fuel, and_then, ◌>>=◌, ◌>>◌}
use comp.A3.Bytes.{Bytes}
use comp.A3.OpenInodes.{InodeOps}

-- `struct file`
pub record File : Type 0 where
  pub inode : ℕ
  pub position : ℤ
  pub deny_write : Bool

-- `struct dir` of a3/fs/directory.h
pub record Dir : Type 0 where
  pub inode : ℕ
  pub position : ℕ
  pub open_cnt : ℕ

-- The heap of files and directories, `file_table`, `cwd`, and the state of the inodes.
pub record Fs (St : Type 0) : Type 0 where
  pub files : List (ℕ × File)
  pub dirs : List (ℕ × Dir)
  pub fresh : ℕ
  pub file_table : List (Text × ℕ)
  pub cwd : Option ℕ
  pub under : St

abbrev pub Cmd : Type 0 → Type 0 → Type 0
Cmd St A = Fs St → Run (Fs St) A

-- `file_table` from an element on: the first entry with the name.
unfoldable pub get_file_by_fname : Text → List (Text × ℕ) → Option ℕ
get_file_by_fname fname [] = none
get_file_by_fname fname ((n, f) ∷ r) =
    let rest = get_file_by_fname fname r in if text_eq n fname then some f else rest

unfoldable pub remove_entry : Text → List (Text × ℕ) → List (Text × ℕ)
remove_entry fname [] = []
remove_entry fname ((n, f) ∷ r) =
    let rest = remove_entry fname r in if text_eq n fname then r else (n, f) ∷ rest

-- `buffer[size - 1] = '\0'`
unfoldable pub zero_last : Bytes → Bytes
zero_last [] = []
zero_last (b ∷ []) = 0 ∷ []
zero_last (b ∷ c ∷ r) = b ∷ zero_last (c ∷ r)

module _ {St : Type 0} where
  abbrev pub lift_fs : {A : Type 0} → Fs St → Run St A → Run (Fs St) A
  lift_fs s (done a st) = done a (record s { under = st })
  lift_fs s (exited st) = exited (record s { under = st })
  lift_fs s fault = fault
  lift_fs s out_of_fuel = out_of_fuel

  -- An operation on inodes.
  abbrev pub on_inodes : {A : Type 0} → (St → Run St A) → Cmd St A
  on_inodes run s = lift_fs s (run s.under)

  unfoldable pub get_file : ℕ → Cmd St File
  get_file f s = elim (deref f s.files) as (λ _. Run (Fs St) File) [
    | none ↦ fault
    | some file ↦ done file s
  ]

  unfoldable pub put_file : ℕ → File → Cmd St (Unit {0})
  put_file f file s = done tt (record s { files = assign f file s.files })

  -- `file_open` of an inode that is not `NULL`.
  unfoldable pub file_open : ℕ → Cmd St ℕ
  file_open inode s = done s.fresh (record s {
    files = (s.fresh, record { inode = inode; position = pos 0; deny_write = false }) ∷ s.files;
    fresh = s.fresh + 1;
  })

  -- `inode_reopen` counts no opener.
  unfoldable pub file_reopen : ℕ → Cmd St ℕ
  unfolding get_file file_open
  file_reopen f = get_file f >>= λ file. file_open file.inode

  unfoldable pub file_seek : ℕ → ℤ → Cmd St (Unit {0})
  unfolding get_file put_file
  file_seek f (pos n) = get_file f >>= λ file. put_file f (record file { position = pos n })
  file_seek f (negsuc n) = λ s. fault

  unfoldable pub file_tell : ℕ → Cmd St ℤ
  unfolding get_file
  file_tell f = get_file f >>= λ file. done file.position

  -- `init_file_table`
  unfoldable pub init_file_table : Fs St → Fs St
  init_file_table s = record s { file_table = [] }

  unfoldable pub add_to_file_table : ℕ → Text → Cmd St (Unit {0})
  unfolding get_file_by_fname
  add_to_file_table f fname s =
      elim (get_file_by_fname fname s.file_table) as (λ _. Run (Fs St) (Unit {0})) [
        | some g ↦ done tt s
        | none ↦ done tt (record s { file_table = s.file_table ++ ((fname, f) ∷ []) })
      ]

module _ {St : Type 0} (ops : InodeOps St) where
  unfoldable pub file_deny_write : ℕ → Cmd St (Unit {0})
  unfolding get_file put_file
  file_deny_write f = do
    file ← get_file f
    if file.deny_write
        then done tt
        else (put_file f (record file { deny_write = true })
            >> on_inodes (ops.deny_write file.inode))

  unfoldable pub file_allow_write : ℕ → Cmd St (Unit {0})
  unfolding get_file put_file
  file_allow_write f = do
    file ← get_file f
    if not file.deny_write
        then done tt
        else (put_file f (record file { deny_write = false })
            >> on_inodes (ops.allow_write file.inode))

  -- `file_close` of a file that is not `NULL`.
  unfoldable pub file_close : ℕ → Cmd St (Unit {0})
  unfolding get_file file_allow_write
  file_close f = do
    file ← get_file f
    _ ← file_allow_write f
    _ ← on_inodes (ops.close file.inode)
    λ s. done tt (record s { files = free_cell f s.files })

  -- `bytes_read` and the bytes.
  unfoldable pub file_read : ℕ → ℕ → Cmd St (ℕ × Bytes)
  unfolding get_file put_file
  file_read f size = do
    file ← get_file f
    r ← on_inodes (ops.read_at file.inode size file.position)
    _ ← put_file f (record file { position = plus file.position r.0 })
    done r

  unfoldable pub file_read_at : ℕ → ℕ → ℤ → Cmd St (ℕ × Bytes)
  unfolding get_file
  file_read_at f size file_ofs =
      get_file f >>= λ file. on_inodes (ops.read_at file.inode size file_ofs)

  -- A buffer of no bytes is written before its start.
  unfoldable pub file_write : ℕ → Bytes → Cmd St ℕ
  unfolding get_file put_file zero_last plus minus
  file_write f [] = λ s. fault
  file_write f (b ∷ r) = do
    file ← get_file f
    n ← on_inodes (ops.write_at file.inode (zero_last (b ∷ r)) file.position)
    _ ← put_file f (record file { position = minus (plus file.position n) 2 })
    done n

  unfoldable pub file_write_at : ℕ → Bytes → ℤ → Cmd St ℕ
  unfolding get_file
  file_write_at f source file_ofs =
      get_file f >>= λ file. on_inodes (ops.write_at file.inode source file_ofs)

  unfoldable pub file_length : ℕ → Cmd St ℕ
  unfolding get_file
  file_length f = do
    file ← get_file f
    inode ← on_inodes (ops.peek file.inode)
    done inode.body.length_bytes

  -- The first entry with the name, and its file, are given up; `false` where there is none.
  unfoldable pub remove_from_file_table : Text → Cmd St Bool
  unfolding get_file_by_fname file_close remove_entry
  remove_from_file_table fname s =
      elim (get_file_by_fname fname s.file_table) as (λ _. Run (Fs St) Bool) [
        | none ↦ done false s
        | some f ↦
            and_then (file_close f s)
              (λ u s'. done true (record s' { file_table = remove_entry fname s'.file_table }))
      ]

  -- `free_file_table`: a round for each entry.
  unfoldable pub free_entries : List (Text × ℕ) → Cmd St (Unit {0})
  unfolding file_close
  free_entries [] s = done tt (record s { file_table = [] })
  free_entries ((n, f) ∷ r) s =
      and_then (file_close f (record s { file_table = r })) (λ u s'. free_entries r s')

  unfoldable pub free_file_table : Cmd St (Unit {0})
  unfolding free_entries
  free_file_table s = free_entries s.file_table s
