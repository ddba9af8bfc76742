-- ===== src/A3/Inode/Within.antt =====
-- `inode_write_at` and `inode_read_at` of a3/fs/inode.c on bytes that the file already has.
use comp.Prelude.{
  ℕ, ◌+◌, ◌-◌, ◌/◌, ◌≤◌, ◌≡◌, ◌≢◌, ◌∙◌, refl, ap, true, false, not, Option, arith, length, ◌==◌,
}
use comp.Prelude.Windows.{window, window_ext}
use comp.Prelude.Run.{Run, done, Returns}
use comp.A3.Bytes.{Bytes}
use comp.A3.Sectors.{Sectors, IsSectors}
use comp.A3.Inode.{InodeDisk, Inode, no_sector, min, inode_read_at, write_loop}
use comp.A3.Inode.Layout.{sector_of, byte_at, IsLayout, byte_to_sector-sector_of}
use comp.A3.Inode.Read.{in_reach, read_loop-window}
use comp.A3.Inode.Written.{IsWritten}
use comp.A3.Inode.Write.{write_loop-IsWritten}
use comp.A3.Inode.Reserve.{last_sector, extend, inode_write_at}

pub in_reach-whole : (l size offset : ℕ) → offset + size ≤ l → in_reach l size offset ≡ size
unfolding in_reach min
in_reach-whole l size offset h = ground arith

IsWritten-count :
    {view view' : ℕ → Option Bytes} {d : InodeDisk} {offset n m : ℕ} {source : Bytes}
    → n ≡ m
    → IsWritten view view' d offset n source
    → IsWritten view view' d offset m source
IsWritten-count e w = rw e at w

module _ {St : Type 0} (io : Sectors St) {Shows : (ℕ → Option Bytes) → St → Type 0}
    (ok : IsSectors io Shows) where
  -- Where the sectors show the layout of an inode: `inode_read_at` returns the bytes of the file
  -- from `offset` on, `size` of them or all that there are, and their number; the sectors stay as
  -- they are.
  pub inode_read_at-window :
      (view : ℕ → Option Bytes) (d : InodeDisk) (size offset : ℕ) (st : St)
      → IsLayout view d
      → Shows view st
      → Returns
          (inode_read_at io d size offset st)
          (
            in_reach d.length_bytes size offset,
            window (byte_at view d) offset (in_reach d.length_bytes size offset),
          )
          (Shows view)
  unfolding inode_read_at
  inode_read_at-window view d size offset st lay v =
      read_loop-window io ok view d lay size size offset st (omega arith) v

  module _ (free_map_allocate : St → Run St (Option ℕ)) where
    extend-within :
        (view : ℕ → Option Bytes) (inode : Inode) (size offset : ℕ) (st : St)
        → IsLayout view inode.body
        → Shows view st
        → size ≢ 0
        → offset + size ≤ inode.body.length_bytes
        → sector_of view inode.body ((offset + size - 1) / 512) ≢ no_sector
        → Returns (extend io free_map_allocate inode size offset st) (true, inode) (Shows view)
    unfolding extend last_sector
    extend-within view inode size offset st lay v ne h real =
        let some_byte : (offset + size == 0) ≡ false = ground arith in
        let s = sector_of view inode.body ((offset + size - 1) / 512) in
        let no_extension : (s == no_sector) ≡ false = ground arith in
        let (st1, e1, v1) =
          byte_to_sector-sector_of io ok view inode.body (offset + size - 1) st v lay
            (omega arith) in
        rw (some_byte, e1, no_extension) (st1, refl, v1)

    inode_write_at-step :
        (inode inode' : Inode) (source : Bytes) (offset n : ℕ) (st st1 st2 : St)
        → inode.deny_write_cnt ≡ 0
        → extend io free_map_allocate inode (length source) offset st ≡ done (true, inode') st1
        → write_loop io (length source) inode'.body source offset st1 ≡ done n st2
        → inode_write_at io free_map_allocate inode source offset st ≡ done (n, inode') st2
    unfolding inode_write_at
    inode_write_at-step inode inode' source offset n st st1 st2 e e1 e2 =
        let allowed : not (inode.deny_write_cnt == 0) ≡ false = ground arith in
        rw (allowed, e1, e2) refl

    -- What a write of `source` inside the file leaves.
    abbrev pub Overwrites : (ℕ → Option Bytes) → Inode → Bytes → ℕ → St → (St → Type 0) → Type 0
    Overwrites view inode source offset st P =
        (view' : ℕ → Option Bytes) × IsWritten view view' inode.body offset (length source) source
        × Returns (inode_write_at io free_map_allocate inode source offset st)
            (length source, inode) (λ st'. Shows view' st' × P st')

    module _ (view : ℕ → Option Bytes) (inode : Inode) (source : Bytes) (offset : ℕ) (st : St)
        (lay : IsLayout view inode.body) (v : Shows view st) (allowed : inode.deny_write_cnt ≡ 0)
        (ne : length source ≢ 0) (h : offset + length source ≤ inode.body.length_bytes)
        (real : sector_of view inode.body ((offset + length source - 1) / 512) ≢ no_sector) where
      pub inode_write_at-IsWritten : Overwrites view inode source offset st (λ st'. Unit {0})
      inode_write_at-IsWritten =
          let d = inode.body in
          let size = length source in
          let n = in_reach-whole d.length_bytes size offset h in
          let (st1, e1, v1) = extend-within view inode size offset st lay v ne h real in
          let (view', w, (st2, e2, v2)) =
            write_loop-IsWritten io ok d size view offset source st1 (omega arith) lay v1 in
          (
            view',
            IsWritten-count n w,
            (
              st2,
              inode_write_at-step inode inode source offset size st st1 st2 allowed e1
                  (e2 ∙ ap (λ m. done m st2) n),
              (v2, tt),
            ),
          )

      -- Where the sectors show the layout of an inode, writes are not denied, and the bytes to
      -- write, one at least, are in reach of the file's length, with its last sector not numbered
      -- -1: `inode_write_at` writes all of them and leaves the inode as it is; the file's other
      -- bytes, its layout and the sectors outside it stay as they were; and `inode_read_at`
      -- returns the bytes that were written.
      pub inode_read_at-inode_write_at : Overwrites view inode source offset st (λ st'.
          (st'' : St) × (inode_read_at io inode.body (length source) offset st'
            ≡ done (length source, source) st''))
      inode_read_at-inode_write_at =
          let d = inode.body in
          let size = length source in
          let n = in_reach-whole d.length_bytes size offset h in
          let (view', w, (st', e, (v', u))) = inode_write_at-IsWritten in
          let written = window_ext (byte_at view' d) 0 offset source (λ k lt. w.inside k lt) in
          let (st3, e3, v3) = inode_read_at-window view' d size offset st' w.layout v' in
          (
            view',
            w,
            (
              st',
              e,
              (
                v',
                (
                  st3,
                  e3
                      ∙ ap (λ (m : ℕ). done (m, window (byte_at view' d) offset m) st3) n
                      ∙ ap (λ (b : Bytes). done (size, b) st3) written,
                ),
              ),
            ),
          )
