-- ===== src/A3/FreeMap.antt =====
-- The free map of a3/fs/free-map.c. The bitmap of a3/fs/bitmap.c is a parameter, but for
-- `bitmap_write`, which calls back; the inode of `free_map_file` is kept here.
pub mod Stored
pub mod Reopened
use comp.Prelude.{
  ℕ, zero, suc, Bool, true, false, Option, none, some, ◌==◌, ◌-◌, if◌then◌else◌, length,
}
use comp.Prelude.Run.{Run, done, exited, fault, out_of_fuel, and_then}
use comp.A3.Bytes.{Bytes}
use comp.A3.Sectors.{Sectors}
use comp.A3.Inode.{Inode, decode_inode, inode_read_at}
use comp.A3.Inode.Reserve.{inode_write_at}

-- The operations of a3/fs/bitmap.c on bitmaps `B`; `scan_and_flip` is
-- `bitmap_scan_and_flip(b, 0, 1, false)`, with `none` for BITMAP_ERROR, `all` and `set` are
-- `bitmap_all` and `bitmap_set_multiple` of one bit, `bytes` is `bits` as `bitmap_write` writes it.
pub record Bitmaps (B : Type 0) : Type 0 where
  pub scan_and_flip : B → Option (ℕ × B)
  pub all : ℕ → B → Bool
  pub set : ℕ → Bool → B → B
  pub bytes : B → Bytes
  -- The bitmap of a length with no bit set, and the one that has the bits of `bytes`.
  pub create : ℕ → B
  pub of_bytes : Bytes → B

-- `free_map`, `free_map_file`, and the state of the sectors.
pub record FreeMap (B St : Type 0) : Type 0 where
  pub bits : B
  pub map_file : Option Inode
  pub under : St

module _ {B St A : Type 0} where
  -- A run on the sectors.
  abbrev pub lift : FreeMap B St → Run St A → Run (FreeMap B St) A
  lift m (done a st) = done a (record m { under = st })
  lift m (exited st) = exited (record m { under = st })
  lift m fault = fault
  lift m out_of_fuel = out_of_fuel

module _ {B St : Type 0} (io : Sectors St) where
  unfoldable pub sectors : Sectors (FreeMap B St)
  sectors = record {
    buffer_cache_read = λ s m. lift m (io.buffer_cache_read s m.under);
    buffer_cache_write = λ s b m. lift m (io.buffer_cache_write s b m.under);
  }

module _ {B St : Type 0} (bitmaps : Bitmaps B) (io : Sectors St) where
  open bitmaps use {scan_and_flip, all, set, bytes}

  -- `bitmap_write(free_map, free_map_file)`, with the `free_map_allocate` that the write may call.
  unfoldable pub bitmap_write :
      (FreeMap B St → Run (FreeMap B St) (Option ℕ)) → FreeMap B St → Run (FreeMap B St) Bool
  bitmap_write allocate m = elim m.map_file as (λ _. Run (FreeMap B St) Bool) [
    | none ↦ fault
    | some inode ↦
        let out = bytes m.bits in
        and_then (inode_write_at (sectors io) allocate inode out 0 m)
          (λ r m'. done (r.0 == length out) (record m' { map_file = some r.1 }))
  ]

  -- The body of `free_map_allocate(1, &sector)`, with the calls of it from within.
  unfoldable pub allocate_with :
      (FreeMap B St → Run (FreeMap B St) (Option ℕ)) → FreeMap B St → Run (FreeMap B St) (Option ℕ)
  allocate_with within m = elim (scan_and_flip m.bits) as (λ _. Run (FreeMap B St) (Option ℕ)) [
    | none ↦ done none m
    | some (sector, bits) ↦
        let m1 = record m { bits = bits } in
        elim m.map_file as (λ _. Run (FreeMap B St) (Option ℕ)) [
          | none ↦ done (some sector) m1
          | some inode ↦ and_then (bitmap_write within m1) (λ ok m2.
              if ok
              then done (some sector) m2
              else done none (record m2 { bits = set sector false m2.bits }))
        ]
  ]

  -- The fuel bounds the depth of the calls from within.
  unfoldable pub free_map_allocate : ℕ → FreeMap B St → Run (FreeMap B St) (Option ℕ)
  free_map_allocate zero m = out_of_fuel
  free_map_allocate (suc depth) m = allocate_with (free_map_allocate depth) m

  -- `free_map_release(sector, 1)`
  unfoldable pub free_map_release : ℕ → ℕ → FreeMap B St → Run (FreeMap B St) (Unit {0})
  free_map_release depth sector m =
      if all sector m.bits
      then and_then
          (bitmap_write (free_map_allocate depth) (record m { bits = set sector false m.bits }))
          (λ ok m'. done tt m')
      else fault

  -- `free_map_init` for a device of `size` sectors: the sectors 0 and 1 are in use.
  unfoldable pub free_map_init : ℕ → FreeMap B St → FreeMap B St
  free_map_init size m = record m { bits = set 1 true (set 0 true (bitmaps.create (size - 1))) }

  -- `file_open(inode_open(FREE_MAP_SECTOR))`, where the inode is not open.
  unfoldable pub open_map_file : FreeMap B St → Run (FreeMap B St) Inode
  open_map_file m = and_then ((sectors io).buffer_cache_read 0 m) (λ b m1.
      done
        (record {
          sector = 0;
          open_cnt = 1;
          removed = false;
          deny_write_cnt = 0;
          body = decode_inode b;
        })
        m1)

  -- `free_map_open`: a short read by `bitmap_read` is a PANIC.
  unfoldable pub free_map_open : FreeMap B St → Run (FreeMap B St) (Unit {0})
  free_map_open m = and_then (open_map_file m) (λ inode m1.
      let size = length (bytes m1.bits) in
      and_then (inode_read_at (sectors io) inode.body size 0 m1) (λ r m2.
        if r.0 == size
        then done tt (record m2 { map_file = some inode; bits = bitmaps.of_bytes r.1 })
        else fault))
