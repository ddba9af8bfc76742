-- ===== src/A3/Directory/Walk.antt =====
-- The operations of a3/fs/directory.c that list, remove and create directory entries.
use comp.Prelude.{
  ℕ, zero, suc, ◌+◌, ◌*◌, Bool, true, false, not, Option, none, some, List, [], ◌∷◌, ◌==◌,
  if◌then◌else◌, replicate,
}
use comp.Prelude.Int.{pos}
use comp.Prelude.Text.{Text}
use comp.Prelude.Run.{Run, done, out_of_fuel, and_then, ◌>>=◌, ◌>>◌}
use comp.A3.Inode.{no_sector}
use comp.A3.OpenInodes.{InodeOps}
use comp.A3.Files.{Fs, Cmd, on_inodes}
use comp.A3.Directory.{
  DirEntry, encode_entry, c_string, entry_size, name_max, path_tokens, is_absolute, get_dir,
  put_dir, dir_open, dir_reopen, dir_get_inode, dir_open_root, dir_close, read_entry_at, lookup,
  dir_is_empty, dir_lookup,
}

module _ {St : Type 0} (ops : InodeOps St) where
  -- Whether the directory of an inode has no entry in use.
  unfoldable pub target_is_empty : ℕ → Cmd St Bool
  unfolding dir_open dir_is_empty dir_close
  target_is_empty inode = do
    target ← dir_open inode
    is_empty ← dir_is_empty ops target
    _ ← dir_close ops target
    done is_empty

  -- `dir_remove` from its entry on; `inode` is closed in each case.
  unfoldable pub erase_entry : ℕ → ℕ → DirEntry → ℕ → Cmd St Bool
  unfolding encode_entry
  erase_entry base inode e ofs = do
    n ← on_inodes (ops.write_at base (encode_entry (record e { in_use = false })) (pos ofs))
    if not (n == entry_size) then done false else (on_inodes (ops.remove inode) >> done true)

  unfoldable pub dir_remove : ℕ → Text → Cmd St Bool
  unfolding get_dir lookup target_is_empty erase_entry
  dir_remove d name = get_dir d >>= λ dir. lookup ops dir.inode name >>= λ r.
      elim r as (λ _. Cmd St Bool) [
        | none ↦ done false
        | some (e, ofs) ↦ on_inodes (ops.open_inode e.inode_sector) >>= λ inode.
            on_inodes (ops.peek inode) >>= λ i.
            (if i.body.is_dir then target_is_empty inode else done true) >>= λ may_go.
            (if may_go then erase_entry dir.inode inode e ofs else done false) >>= λ success.
            on_inodes (ops.close inode) >> done success
      ]

  -- The loop of `dir_readdir`: the next entry in use.
  unfoldable pub readdir_loop : ℕ → ℕ → Cmd St (Option DirEntry)
  unfolding get_dir put_dir read_entry_at
  readdir_loop zero d s = out_of_fuel
  readdir_loop (suc fuel) d s = and_then (get_dir d s) (λ dir s1.
      and_then (read_entry_at ops dir.inode dir.position s1) (λ r s2.
        elim r as (λ _. Run (Fs St) (Option DirEntry)) [
          | none ↦ done none s2
          | some e ↦
              and_then (put_dir d (record dir { position = dir.position + entry_size }) s2) (λ u s3.
                let rest = readdir_loop fuel d s3 in if e.in_use then done (some e) s3 else rest)
        ]))

  unfoldable pub next_entry : ℕ → Cmd St (Option DirEntry)
  unfolding readdir_loop get_dir
  next_entry d = do
    dir ← get_dir d
    i ← on_inodes (ops.peek dir.inode)
    readdir_loop (i.body.length_bytes + 1) d

  -- `dir_readdir`: the name, `none` where there are no more entries.
  unfoldable pub dir_readdir : ℕ → Cmd St (Option Text)
  unfolding next_entry c_string
  dir_readdir d = next_entry d >>= λ r. elim r as (λ _. Cmd St (Option Text)) [
    | none ↦ done none
    | some e ↦ done (some (c_string e.name))
  ]

  unfoldable pub dir_readdir_inode : ℕ → Cmd St ℕ
  unfolding next_entry
  dir_readdir_inode d = next_entry d >>= λ r. elim r as (λ _. Cmd St ℕ) [
    | none ↦ done no_sector
    | some e ↦ done e.inode_sector
  ]

  -- The first entry of a directory is for its parent: itself, at first.
  unfoldable pub dir_create : ℕ → ℕ → Cmd St Bool
  unfolding dir_open dir_close get_dir encode_entry
  dir_create sector entry_cnt =
      on_inodes (ops.create sector (entry_cnt * entry_size) true) >>= λ ok.
      if not ok
      then done false
      else (on_inodes (ops.open_inode sector) >>= dir_open >>= λ d. get_dir d >>= λ dir.
          on_inodes (
            ops.write_at dir.inode
              (encode_entry (record {
                inode_sector = sector;
                name = replicate (name_max + 1) 0;
                in_use = true;
              }))
              (pos 0))
          >>= λ n. dir_close ops d >> done (n == entry_size))

  -- The loop of `dir_open_path` over the tokens.
  unfoldable pub walk : List Text → ℕ → Cmd St (Option ℕ)
  unfolding dir_lookup dir_close dir_open
  walk [] curr = done (some curr)
  walk (token ∷ r) curr = dir_lookup ops curr token >>= λ found.
      elim found as (λ _. Cmd St (Option ℕ)) [
        | none ↦ dir_close ops curr >> done none
        | some inode ↦ dir_open inode >>= λ next. dir_close ops curr >>= λ u. walk r next
      ]

  unfoldable pub dir_open_path : Text → Cmd St (Option ℕ)
  unfolding dir_open_root dir_reopen walk path_tokens is_absolute dir_get_inode dir_close
  dir_open_path path s =
      let root = dir_open_root ops s in
      let start : Run (Fs St) ℕ =
        if is_absolute path
        then root
        else elim s.cwd as (λ _. Run (Fs St) ℕ) [ none ↦ root | some d ↦ dir_reopen d s ] in
      and_then start (λ curr. walk (path_tokens path []) curr >>= λ r.
      elim r as (λ _. Cmd St (Option ℕ)) [
        | none ↦ done none
        | some d ↦ dir_get_inode d >>= λ inode. on_inodes (ops.peek inode) >>= λ i.
            if i.removed then (dir_close ops d >> done none) else done (some d)
      ])
