-- ===== src/A3/OpenInodes.antt =====
-- The table of open inodes of a3/fs/inode.c, and the operations on an open inode, by its address.
-- The use of an address that is not in the table, which was freed, is a fault. Allocations succeed.
pub mod Sharing
use comp.Prelude.{
  ℕ, zero, suc, ◌+◌, ◌-◌, ◌/◌, Bool, true, false, not, ◌&&◌, Option, none, some, List, [], ◌∷◌,
  ◌==◌, ltb, leb, if◌then◌else◌, length,
}
use comp.Prelude.Cells.{deref, assign, free_cell}
use comp.Prelude.Int.{ℤ, pos, negsuc}
use comp.Prelude.Run.{Run, done, exited, fault, out_of_fuel, and_then}
use comp.A3.Bytes.{Bytes}
use comp.A3.Sectors.{Sectors}
use comp.A3.Inode.{Inode, no_sector, decode_inode, inode_read_at}
use comp.A3.Inode.Reserve.{last_sector, inode_reserve, inode_create, inode_write_at}
use comp.A3.Inode.Release.{inode_deallocate}

-- What the rest of the file system uses of inodes.
pub record InodeOps (St : Type 0) : Type 1 where
  pub create : ℕ → ℕ → Bool → St → Run St Bool
  pub open_inode : ℕ → St → Run St ℕ
  pub close : ℕ → St → Run St (Unit {0})
  pub read_at : ℕ → ℕ → ℤ → St → Run St (ℕ × Bytes)
  pub write_at : ℕ → Bytes → ℤ → St → Run St ℕ
  pub deny_write : ℕ → St → Run St (Unit {0})
  pub allow_write : ℕ → St → Run St (Unit {0})
  pub remove : ℕ → St → Run St (Unit {0})
  -- The inode as it is.
  pub peek : ℕ → St → Run St Inode

-- `open_inodes`, with the addresses, and the next address that `malloc` gives.
pub record Table (St : Type 0) : Type 0 where
  pub inodes : List (ℕ × Inode)
  pub fresh : ℕ
  pub under : St

-- The loop of `inode_open`.
unfoldable pub find_open : ℕ → List (ℕ × Inode) → Option ℕ
find_open sector [] = none
find_open sector ((a, i) ∷ r) = if i.sector == sector then some a else find_open sector r

module _ {St : Type 0} where
  abbrev pub lift_table : {A : Type 0} → Table St → Run St A → Run (Table St) A
  lift_table t (done a st) = done a (record t { under = st })
  lift_table t (exited st) = exited (record t { under = st })
  lift_table t fault = fault
  lift_table t out_of_fuel = out_of_fuel

  unfoldable pub put_inode : ℕ → Inode → Table St → Table St
  put_inode address inode t = record t { inodes = assign address inode t.inodes }

  unfoldable pub with_inode :
      {A : Type 0} → ℕ → (Inode → Run (Table St) A) → Table St → Run (Table St) A
  with_inode {A} address k t = elim (deref address t.inodes) as (λ _. Run (Table St) A) [
    | none ↦ fault
    | some inode ↦ k inode
  ]

  -- `inode_init`
  unfoldable pub inode_init : Table St → Table St
  inode_init t = record t { inodes = [] }

  unfoldable pub inode_remove : ℕ → Table St → Run (Table St) (Unit {0})
  unfolding with_inode put_inode
  inode_remove address t =
      with_inode address (λ inode. done tt (put_inode address (record inode { removed = true }) t))
        t

  unfoldable pub inode_deny_write : ℕ → Table St → Run (Table St) (Unit {0})
  unfolding with_inode put_inode
  inode_deny_write address t =
      with_inode address
        (λ inode.
          if leb (inode.deny_write_cnt + 1) inode.open_cnt
          then done tt
              (put_inode address (record inode { deny_write_cnt = inode.deny_write_cnt + 1 }) t)
          else fault)
        t

  unfoldable pub inode_allow_write : ℕ → Table St → Run (Table St) (Unit {0})
  unfolding with_inode put_inode
  inode_allow_write address t =
      with_inode address
        (λ inode.
          if ltb 0 inode.deny_write_cnt && leb inode.deny_write_cnt inode.open_cnt
          then done tt
              (put_inode address (record inode { deny_write_cnt = inode.deny_write_cnt - 1 }) t)
          else fault)
        t

  -- `inode_get_inumber`, `inode_length`, `inode_is_directory` and `inode_is_removed` read a field.
  unfoldable pub peek_inode : ℕ → Table St → Run (Table St) Inode
  unfolding with_inode
  peek_inode address t = with_inode address (λ inode. done inode t) t

module _ {St : Type 0} (io : Sectors St) (free_map_allocate : St → Run St (Option ℕ))
    (free_map_release : ℕ → St → Run St (Unit {0})) where
  -- The address of the inode of a sector; one that is open gets no second opener.
  unfoldable pub inode_open : ℕ → Table St → Run (Table St) ℕ
  unfolding find_open
  inode_open sector t = elim (find_open sector t.inodes) as (λ _. Run (Table St) ℕ) [
    | some address ↦ done address t
    | none ↦ and_then (lift_table t (io.buffer_cache_read sector t.under)) (λ b t'.
        done t.fresh (record t' {
          inodes =
              (
                t.fresh,
                record {
                  sector = sector;
                  open_cnt = 1;
                  removed = false;
                  deny_write_cnt = 0;
                  body = decode_inode b;
                },
              )
              ∷ t.inodes;
          fresh = t.fresh + 1;
        }))
  ]

  -- `inode_close` of an inode that was the last opener's, after its removal from the table.
  unfoldable pub dispose : Inode → Table St → Run (Table St) (Unit {0})
  unfolding inode_deallocate
  dispose inode t =
      if inode.removed
      then lift_table t (
          and_then (free_map_release inode.sector t.under)
            (λ u st. inode_deallocate io free_map_release inode.body st))
      else done tt t

  unfoldable pub inode_close : ℕ → Table St → Run (Table St) (Unit {0})
  unfolding with_inode put_inode dispose
  inode_close address t =
      with_inode address
        (λ inode.
          if inode.open_cnt == 1
          then dispose inode (record t { inodes = free_cell address t.inodes })
          else done tt (put_inode address (record inode { open_cnt = inode.open_cnt - 1 }) t))
        t

  -- A read of no bytes does not look at the inode. A read before the file's start finds the sector
  -- -1, which no device has.
  unfoldable pub read_open : ℕ → ℕ → ℤ → Table St → Run (Table St) (ℕ × Bytes)
  unfolding with_inode inode_read_at
  read_open address zero offset t = done (0, []) t
  read_open address (suc n) (pos offset) t =
      with_inode address
        (λ inode. lift_table t (inode_read_at io inode.body (suc n) offset t.under)) t
  read_open address (suc n) (negsuc k) t = with_inode address (λ inode. fault) t

  -- A write at -(n + 1): it returns 0 where it is denied, where it would end before the file's
  -- start, and where the file cannot be made longer; else its loop finds the sector -1.
  unfoldable pub write_before : ℕ → Inode → Bytes → ℕ → Table St → Run (Table St) ℕ
  unfolding put_inode last_sector inode_reserve
  write_before address inode source n t =
      let size = length source in
      let give_up : ℕ × Inode → Table St → Run (Table St) ℕ =
        λ r t'. done r.0 (put_inode address r.1 t') in
      if not (inode.deny_write_cnt == 0)
      then done 0 t
      else if ltb size (n + 1)
      then done 0 t
      else and_then
          (lift_table t (last_sector io free_map_allocate inode.body (size - (n + 1)) 0 t.under))
          (λ s t1.
            if s == no_sector
            then and_then
                (lift_table t1
                  (inode_reserve io free_map_allocate inode.body (size - (n + 1)) t1.under))
                (λ r t2. if r.0 then fault else give_up (0, record inode { body = r.1 }) t2)
            else fault)

  unfoldable pub write_open : ℕ → Bytes → ℤ → Table St → Run (Table St) ℕ
  unfolding with_inode put_inode inode_write_at write_before
  write_open address source (pos offset) t =
      with_inode address
        (λ inode.
          and_then (lift_table t (inode_write_at io free_map_allocate inode source offset t.under))
            (λ r t'. done r.0 (put_inode address r.1 t')))
        t
  write_open address source (negsuc n) t =
      with_inode address (λ inode. write_before address inode source n t) t

  unfoldable pub create_inode : ℕ → ℕ → Bool → Table St → Run (Table St) Bool
  unfolding inode_create
  create_inode sector size is_dir t =
      lift_table t (inode_create io free_map_allocate sector size is_dir t.under)

  unfoldable pub inode_ops : InodeOps (Table St)
  inode_ops = record {
    create = create_inode;
    open_inode = inode_open;
    close = inode_close;
    read_at = read_open;
    write_at = write_open;
    deny_write = inode_deny_write;
    allow_write = inode_allow_write;
    remove = inode_remove;
    peek = peek_inode;
  }
