-- ===== src/A3/Directory.antt =====
-- Directories, a3/fs/directory.c: a directory is a file of 36-byte entries. A `struct dir *` is an
-- address. No inode is removed under its readers, so a loop takes at most a round for each byte.
pub mod Entries
pub mod Walk
pub mod OnDisk
pub mod Names
pub mod Slots
use comp.Prelude.{
  ℕ, zero, suc, ◌+◌, ◌-◌, ◌*◌, Bool, true, false, not, ◌&&◌, ◌||◌, Option, none, some, List, [],
  ◌∷◌, ◌++◌, ◌==◌, ltb, if◌then◌else◌, length, take, drop, get_or, replicate,
}
use comp.Prelude.Cells.{deref, assign, free_cell}
use comp.Prelude.Int.{ℤ, pos, negsuc}
use comp.Prelude.Text.{Text, codes, text_eq}
use comp.Prelude.Run.{Run, done, fault, out_of_fuel, and_then, ◌>>=◌, ◌>>◌, pure}
use comp.A3.Bytes.{Bytes, word_bytes, word_at}
use comp.A3.Inode.{Inode, no_sector}
use comp.A3.OpenInodes.{InodeOps}
use comp.A3.Files.{Dir, Fs, Cmd, lift_fs, on_inodes}

abbrev pub name_max : ℕ
name_max = 30

-- `sizeof(struct dir_entry)`
abbrev pub entry_size : ℕ
entry_size = 36

abbrev pub root_dir_sector : ℕ
root_dir_sector = 1

-- `struct dir_entry`; the name is the array of 31 bytes.
pub record DirEntry : Type 0 where
  pub inode_sector : ℕ
  pub name : Bytes
  pub in_use : Bool

unfoldable pub encode_entry : DirEntry → Bytes
encode_entry e = word_bytes e.inode_sector ++ e.name ++ ((if e.in_use then 1 else 0) ∷ [])

unfoldable pub decode_entry : Bytes → DirEntry
decode_entry b = record {
  inode_sector = word_at b 0;
  name = take (name_max + 1) (drop 4 b);
  in_use = not (get_or b 35 0 == 0);
}

-- A byte array as a string.
unfoldable pub c_string : Bytes → Text
c_string [] = []
c_string (c ∷ r) = let rest = c ∷ c_string r in if c == 0 then [] else rest

-- What `strcmp` finds of a string and the name of an entry.
pub data Compared : Type 0 where
  same : Compared
  differs : Compared
  -- It reads on behind the entry.
  past_end : Compared

-- `strcmp(name, e.name)` of an entry in use: behind a name that fills its array stands `in_use`,
-- whose byte is 1, and behind that the entry ends.
unfoldable pub compare_name : Text → Bytes → Compared
compare_name [] [] = differs
compare_name (c ∷ r) [] = if c == 1 then past_end else differs
compare_name [] (d ∷ s) = if d == 0 then same else differs
compare_name (c ∷ r) (d ∷ s) =
    let rest = compare_name r s in if (d == 0) || not (c == d) then differs else rest

abbrev pub is_same : Compared → Bool
is_same same = true
is_same differs = false
is_same past_end = false

abbrev pub is_past : Compared → Bool
is_past same = false
is_past differs = false
is_past past_end = true

-- `strncpy(field, name, n)`
unfoldable pub strncpy : ℕ → Text → Bytes
strncpy zero t = []
strncpy (suc n) [] = 0 ∷ strncpy n []
strncpy (suc n) (c ∷ r) = c ∷ strncpy n r

-- The tokens of `strtok_r` with the delimiter "/", with the bytes of the current one.
unfoldable pub path_tokens : Text → Text → List Text
path_tokens [] [] = []
path_tokens [] (c ∷ r) = (c ∷ r) ∷ []
path_tokens (c ∷ rest) token =
    let longer = path_tokens rest (token ++ (c ∷ [])) in
    let next = path_tokens rest [] in
    let cut = elim token as (λ _. List Text) [ [] ↦ next | t ∷ ts ↦ token ∷ next ] in
    if c == b'/' then cut else longer

-- The tokens but the last, each with "/" behind it, and the last.
unfoldable pub join_tokens : List Text → Text × Text
join_tokens [] = ([], [])
join_tokens (t ∷ []) = ([], t)
join_tokens (t ∷ u ∷ r) = let rest = join_tokens (u ∷ r) in (t ++ (b'/' ∷ []) ++ rest.0, rest.1)

unfoldable pub is_absolute : Text → Bool
is_absolute [] = false
is_absolute (c ∷ r) = c == b'/'

-- `split_path_filename`: the directory and the file name.
unfoldable pub split_path_filename : Text → Text × Text
unfolding path_tokens join_tokens is_absolute
split_path_filename path =
    let parts = join_tokens (path_tokens path []) in
    (if is_absolute path then b'/' ∷ parts.0 else parts.0, parts.1)

module _ {St : Type 0} where
  unfoldable pub get_dir : ℕ → Cmd St Dir
  get_dir d s = elim (deref d s.dirs) as (λ _. Run (Fs St) Dir) [
    | none ↦ fault
    | some dir ↦ done dir s
  ]

  unfoldable pub put_dir : ℕ → Dir → Cmd St (Unit {0})
  put_dir d dir s = done tt (record s { dirs = assign d dir s.dirs })

  -- `dir_open` of an inode that is not `NULL`.
  unfoldable pub dir_open : ℕ → Cmd St ℕ
  dir_open inode s = done s.fresh (record s {
    dirs = (s.fresh, record { inode = inode; position = entry_size; open_cnt = 1 }) ∷ s.dirs;
    fresh = s.fresh + 1;
  })

  -- `inode_reopen` counts no opener.
  unfoldable pub dir_reopen : ℕ → Cmd St ℕ
  unfolding get_dir dir_open
  dir_reopen d = get_dir d >>= λ dir. dir_open dir.inode

  unfoldable pub dir_get_inode : ℕ → Cmd St ℕ
  unfolding get_dir
  dir_get_inode d = get_dir d >>= λ dir. done dir.inode

module _ {St : Type 0} (ops : InodeOps St) where
  unfoldable pub dir_open_root : Cmd St ℕ
  unfolding get_dir put_dir dir_open
  dir_open_root s = elim s.cwd as (λ _. Run (Fs St) ℕ) [
    | none ↦
        and_then ((on_inodes (ops.open_inode root_dir_sector) >>= dir_open) s)
          (λ d s'. done d (record s' { cwd = some d }))
    | some d ↦ and_then (get_dir d s) (λ dir s'.
        and_then (put_dir d (record dir { open_cnt = dir.open_cnt + 1 }) s') (λ u. done d))
  ]

  -- Its last opener frees a directory; whichever directory it is, `cwd` is `NULL` then.
  unfoldable pub dir_close : ℕ → Cmd St (Unit {0})
  unfolding get_dir put_dir
  dir_close d = get_dir d >>= λ dir.
      if not (dir.open_cnt == 1)
      then put_dir d (record dir { open_cnt = dir.open_cnt - 1 })
      else (on_inodes (ops.close dir.inode) >>= λ u s.
          done tt (record s { dirs = free_cell d s.dirs; cwd = none }))

  -- The entry at an offset, `none` at a short read.
  unfoldable pub read_entry_at : ℕ → ℕ → Cmd St (Option DirEntry)
  unfolding decode_entry
  read_entry_at inode ofs = on_inodes (ops.read_at inode entry_size (pos ofs)) >>= λ r.
      done (if r.0 == entry_size then some (decode_entry r.1) else none)

  -- The loop of `lookup`: the entry with the name that is in use, and its offset.
  unfoldable pub lookup_loop : ℕ → ℕ → Text → ℕ → Cmd St (Option (DirEntry × ℕ))
  unfolding read_entry_at compare_name
  lookup_loop zero inode name ofs s = out_of_fuel
  lookup_loop (suc fuel) inode name ofs s = and_then (read_entry_at inode ofs s) (λ r s'.
      let rest = lookup_loop fuel inode name (ofs + entry_size) s' in
      elim r as (λ _. Run (Fs St) (Option (DirEntry × ℕ))) [
        | none ↦ done none s'
        | some e ↦
            if e.in_use && is_past (compare_name name e.name)
            then fault
            else if e.in_use && is_same (compare_name name e.name)
            then done (some (e, ofs)) s'
            else rest
      ])

  -- A round for each entry, and one for the end.
  unfoldable pub lookup : ℕ → Text → Cmd St (Option (DirEntry × ℕ))
  unfolding lookup_loop
  lookup inode name = do
    i ← on_inodes (ops.peek inode)
    lookup_loop (i.body.length_bytes + 1) inode name entry_size

  unfoldable pub empty_loop : ℕ → ℕ → ℕ → Cmd St Bool
  unfolding read_entry_at
  empty_loop zero inode ofs s = out_of_fuel
  empty_loop (suc fuel) inode ofs s = and_then (read_entry_at inode ofs s) (λ r s'.
      let rest = empty_loop fuel inode (ofs + entry_size) s' in
      elim r as (λ _. Run (Fs St) Bool) [
        | none ↦ done true s'
        | some e ↦ if e.in_use then done false s' else rest
      ])

  unfoldable pub dir_is_empty : ℕ → Cmd St Bool
  unfolding empty_loop get_dir
  dir_is_empty d = do
    dir ← get_dir d
    i ← on_inodes (ops.peek dir.inode)
    empty_loop (i.body.length_bytes + 1) dir.inode entry_size

  -- The inode that is opened for the name, `none` for `NULL`. For `..` a short read leaves `e` not set.
  unfoldable pub dir_lookup : ℕ → Text → Cmd St (Option ℕ)
  unfolding get_dir lookup decode_entry
  dir_lookup d name = get_dir d >>= λ dir.
      if text_eq name (codes ".")
      then done (some dir.inode)
      else if text_eq name (codes "..")
      then (on_inodes (ops.read_at dir.inode entry_size (pos 0)) >>= λ r.
          if not (r.0 == entry_size)
          then (λ s. fault)
          else (on_inodes (ops.open_inode (decode_entry r.1).inode_sector) >>= λ i. done (some i)))
      else (lookup dir.inode name >>= λ r. elim r as (λ _. Cmd St (Option ℕ)) [
        | none ↦ done none
        | some (e, ofs) ↦ on_inodes (ops.open_inode e.inode_sector) >>= λ i. done (some i)
      ])

  -- The loop of `dir_add`: the offset of the first entry that is not in use, the parent's included.
  unfoldable pub free_slot : ℕ → ℕ → ℕ → Cmd St ℕ
  unfolding read_entry_at
  free_slot zero inode ofs s = out_of_fuel
  free_slot (suc fuel) inode ofs s = and_then (read_entry_at inode ofs s) (λ r s'.
      let rest = free_slot fuel inode (ofs + entry_size) s' in
      elim r as (λ _. Run (Fs St) ℕ) [
        | none ↦ done ofs s'
        | some e ↦ if e.in_use then rest else done ofs s'
      ])

  -- The part of `dir_add` after its tests.
  unfoldable pub write_entry : ℕ → Text → ℕ → Cmd St Bool
  unfolding free_slot encode_entry strncpy
  write_entry inode name sector = do
    i ← on_inodes (ops.peek inode)
    ofs ← free_slot (i.body.length_bytes + 1) inode 0
    n ← on_inodes (
        ops.write_at inode
          (encode_entry
            (record { inode_sector = sector; name = strncpy (name_max + 1) name; in_use = true }))
          (pos ofs))
    done (n == entry_size)

  -- `dir_add` of a file: no caller passes `is_dir`.
  unfoldable pub dir_add : ℕ → Text → ℕ → Cmd St Bool
  unfolding get_dir lookup write_entry
  dir_add d name sector = get_dir d >>= λ dir.
      if (length name == 0) || ltb name_max (length name)
      then done false
      else (lookup dir.inode name >>= λ r. elim r as (λ _. Cmd St Bool) [
        | some e ↦ done false
        | none ↦ write_entry dir.inode name sector
      ])
