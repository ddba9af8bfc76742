-- ===== src/A3/OpenInodes/Sharing.antt =====
-- Two openers of one inode, a3/fs/inode.c: `inode_reopen` counts no opener.
use comp.Prelude.{ℕ, suc, ◌≡◌, ◌∙◌, refl, true, false, Option, none, some, arith, ◌==◌}
use comp.Prelude.Cells.{deref, free_cell, IsApart, deref-free_cell}
use comp.Prelude.Int.{ℤ, pos, negsuc}
use comp.Prelude.Run.{Run, done, fault}
use comp.A3.Bytes.{Bytes}
use comp.A3.Sectors.{Sectors}
use comp.A3.Inode.{Inode}
use comp.A3.OpenInodes.{
  Table, find_open, with_inode, dispose, inode_open, inode_close, read_open, write_open,
  inode_remove,
}

module _ {St : Type 0} where
  with_inode-freed :
      {A : Type 0} (address : ℕ) (k : Inode → Run (Table St) A) (t : Table St)
      → deref address t.inodes ≡ none
      → with_inode address k t ≡ fault
  unfolding with_inode
  with_inode-freed address k t e = rw (e, with_inode) refl

  pub with_inode-found :
      {A : Type 0} (address : ℕ) (k : Inode → Run (Table St) A) (t : Table St) {inode : Inode}
      → deref address t.inodes ≡ some inode
      → with_inode address k t ≡ k inode
  unfolding with_inode
  with_inode-found address k t e = rw (e, with_inode) refl

module _ {St : Type 0} (io : Sectors St) (free_map_allocate : St → Run St (Option ℕ))
    (free_map_release : ℕ → St → Run St (Unit {0})) where
  inode_open-again :
      (sector address : ℕ) (t : Table St)
      → find_open sector t.inodes ≡ some address
      → inode_open io free_map_allocate free_map_release sector t ≡ done address t
  unfolding inode_open
  inode_open-again sector address t e = rw (e, inode_open) refl

  dispose-kept :
      (inode : Inode) (t : Table St)
      → inode.removed ≡ false
      → dispose io free_map_allocate free_map_release inode t ≡ done tt t
  unfolding dispose
  dispose-kept inode t stays = rw (stays, dispose) refl

  inode_close-last :
      (address : ℕ) (inode : Inode) (t : Table St)
      → deref address t.inodes ≡ some inode
      → inode.open_cnt ≡ 1
      → inode.removed ≡ false
      → inode_close io free_map_allocate free_map_release address t
        ≡ done tt (record t { inodes = free_cell address t.inodes })
  unfolding inode_close
  inode_close-last address inode t e one stays =
      let last : (inode.open_cnt == 1) ≡ true = ground arith in
      with_inode-found address _ t e ∙ rw last (dispose-kept inode _ stays)

  -- Of an inode that is open with a count of one and not removed: `inode_open` of its sector
  -- returns the same inode and changes nothing, the count included; so the first `inode_close`
  -- frees it, and a read of a byte or more, a write, a removal or a close by the other opener is
  -- a fault.
  pub inode_close-inode_open :
      (sector address : ℕ) (inode : Inode) (t : Table St) (size : ℕ) (source : Bytes) (offset : ℤ)
      → find_open sector t.inodes ≡ some address
      → deref address t.inodes ≡ some inode
      → inode.open_cnt ≡ 1
      → inode.removed ≡ false
      → IsApart t.inodes
      → (inode_open io free_map_allocate free_map_release sector t ≡ done address t)
        × (t' : Table St) × (inode_close io free_map_allocate free_map_release address t
            ≡ done tt t')
        × (read_open io free_map_allocate free_map_release address (suc size) offset t' ≡ fault)
        × (write_open io free_map_allocate free_map_release address source offset t' ≡ fault)
        × (inode_remove address t' ≡ fault)
        × (inode_close io free_map_allocate free_map_release address t' ≡ fault)
  unfolding read_open write_open inode_remove inode_close
  inode_close-inode_open sector address inode t size source offset f e one stays apart =
      let t' : Table St = record t { inodes = free_cell address t.inodes } in
      let gone = deref-free_cell address t.inodes apart in
      (
        inode_open-again sector address t f,
        t',
        inode_close-last address inode t e one stays,
        elim offset
            as (λ o.
              read_open io free_map_allocate free_map_release address (suc size) o t' ≡ fault) [
                | pos n ↦ with_inode-freed address _ t' gone
                | negsuc n ↦ with_inode-freed address _ t' gone
              ],
        elim offset
            as (λ o. write_open io free_map_allocate free_map_release address source o t' ≡ fault) [
              | pos n ↦ with_inode-freed address _ t' gone
              | negsuc n ↦ with_inode-freed address _ t' gone
            ],
        with_inode-freed address _ t' gone,
        with_inode-freed address _ t' gone,
      )
