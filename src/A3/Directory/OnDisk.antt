-- ===== src/A3/Directory/OnDisk.antt =====
-- An open inode of a3/fs/inode.c is a file that a3/fs/directory.c can read.
use comp.Prelude.{ℕ, ◌+◌, ◌≤◌, ◌≡◌, ◌∙◌, refl, length, ap, Option, some}
use comp.Prelude.Cells.{deref}
use comp.Prelude.Text.{Text}
use comp.Prelude.Run.{Run}
use comp.A3.Bytes.{Bytes}
use comp.A3.Sectors.{Sectors, IsSectors}
use comp.A3.Inode.{Inode}
use comp.A3.Inode.Layout.{IsLayout, byte_at}
use comp.A3.Inode.Within.{inode_read_at-window}
use comp.A3.OpenInodes.{Table, read_open, peek_inode, inode_ops, lift_table}
use comp.A3.OpenInodes.Sharing.{with_inode-found}
use comp.A3.Files.{Fs}
use comp.A3.Directory.{lookup, name_max}
use comp.A3.Directory.Entries.{IsFile, Finds, lookup-IsFirst}

module _ {St : Type 0} (io : Sectors St) {Shows : (ℕ → Option Bytes) → St → Type 0}
    (ok : IsSectors io Shows) (free_map_allocate : St → Run St (Option ℕ))
    (free_map_release : ℕ → St → Run St (Unit {0})) (view : ℕ → Option Bytes) (address : ℕ)
    (inode : Inode) where
  -- The inode is open at the address, and the sectors are as in `view`.
  abbrev pub IsOpen : Table St → Type 0
  IsOpen t = Shows view t.under × (deref address t.inodes ≡ some inode)

  pub inode_ops-IsFile :
      IsLayout view inode.body
      → IsFile
          (inode_ops io free_map_allocate free_map_release)
          address
          inode.body.length_bytes
          (byte_at view inode.body)
          IsOpen
  unfolding inode_ops read_open peek_inode
  inode_ops-IsFile lay = record {
    reads = λ offset t p.
        (let (st, e, v) = inode_read_at-window io ok view inode.body 36 offset t.under lay p.0 in
          (
            record t { under = st },
            with_inode-found address _ t p.1 ∙ ap (λ r. lift_table t r) e,
            (v, p.1),
          ));
    peeks = λ t p. (inode, refl, (t, with_inode-found address _ t p.1, p));
  }

  -- Where the sectors show the layout of an open inode and the name has at most 31 bytes, as many as
  -- the array in an entry: `lookup` in it as a directory ends, and
  -- returns the first entry behind the parent's, of those that the file's bytes are, that is in use
  -- and has the name, with its offset, and nothing exactly where there is none; the sectors, the
  -- files, the directories and the table of files are as before.
  pub lookup-inode_read_at :
      (name : Text) (s : Fs (Table St)) (lay : IsLayout view inode.body)
      → length name ≤ name_max + 1
      → IsOpen s.under
      → Finds
          (inode_ops io free_map_allocate free_map_release)
          address
          inode.body.length_bytes
          (byte_at view inode.body)
          IsOpen
          (inode_ops-IsFile lay)
          1
          name
          s
          (lookup (inode_ops io free_map_allocate free_map_release) address name s)
  lookup-inode_read_at name s lay fit p =
      lookup-IsFirst (inode_ops io free_map_allocate free_map_release) address
        inode.body.length_bytes (byte_at view inode.body) IsOpen (inode_ops-IsFile lay) name s fit p
