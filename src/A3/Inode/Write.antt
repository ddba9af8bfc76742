-- ===== src/A3/Inode/Write.antt =====
-- The loop of `inode_write_at` of a3/fs/inode.c changes the bytes it is given and no others.
use comp.Prelude.{
  ℕ, zero, suc, ◌+◌, ◌-◌, ◌/◌, ◌%◌, ◌<◌, ◌≤◌, ◌≡◌, ◌≢◌, ◌⊎◌, ◌∙◌, inl, inr, refl, sym, ap, true,
  false, not, ◌||◌, Option, arith, length, take, drop, overwrite, ◌==◌, ltb, Bool-cases,
}
use comp.Prelude.Windows.{length-drop}
use comp.Prelude.Run.{Run, done, Returns, Returns-bind}
use comp.A3.Bytes.{Bytes, block_sector_size}
use comp.A3.Sectors.{Sectors, IsSectors}
use comp.A3.Cache.Steps.{update}
use comp.A3.Inode.{InodeDisk, chunk_size, is_whole, byte_to_sector, write_piece, write_loop}
use comp.A3.Inode.Layout.{
  contents, Readable, sector_of, IsLayout, sector_count-lt, byte_to_sector-sector_of,
  byte_to_sector-beyond,
}
use comp.A3.Inode.Read.{
  in_reach, in_reach-zero, in_reach-chunk, chunk_size-bounds, chunk_size-positive, chunk_size-zero,
}
use comp.A3.Inode.Written.{new_sector, IsWritten, IsWritten-none, IsWritten-append, IsWritten-piece}

module _ {St : Type 0} (io : Sectors St) {Shows : (ℕ → Option Bytes) → St → Type 0}
    (ok : IsSectors io Shows) (d : InodeDisk) where
  write_piece-Shows :
      (view : ℕ → Option Bytes) (s offset chunk : ℕ) (source : Bytes) (st : St)
      → Shows view st
      → Readable view s
      → offset % 512 + chunk ≤ 512
      → Returns
          (write_piece io s offset chunk source st)
          tt
          (Shows (update view s (new_sector (contents (view s)) offset chunk source)))
  unfolding write_piece new_sector
  write_piece-Shows view s offset chunk source st v r fits =
      elim (Bool-cases (is_whole offset chunk)) [
        | inl e ↦ rw e (ok.write_ok view s (take chunk source) (contents (view s)) st v r)
        | inr e ↦
            let read : (not (offset % 512 == 0) || ltb chunk (block_sector_size - offset % 512))
                ≡ true =
              ground arith in
            let new = overwrite (offset % 512) (take chunk source) (contents (view s)) in
            rw (e, read)
              (Returns-bind _ _ _ _ (Shows view) (Shows (update view s new))
                (ok.read_ok view s (contents (view s)) st v r)
                (λ st' v'. ok.write_ok view s new (contents (view s)) st' v' r))
      ]

  -- What the loop leaves: the sectors in which `source` is written as far as the file reaches.
  abbrev pub Leaves : (ℕ → Option Bytes) → ℕ → Bytes → Run St ℕ → Type 0
  Leaves view offset source run =
      let n = in_reach d.length_bytes (length source) offset in
      (view' : ℕ → Option Bytes) × IsWritten view view' d offset n source
      × Returns run n (Shows view')

  nothing_written :
      (view : ℕ → Option Bytes) (offset : ℕ) (source : Bytes) (st : St)
      → IsLayout view d
      → (length source ≡ 0) ⊎ (d.length_bytes ≤ offset)
      → Shows view st
      → Leaves view offset source (done 0 st)
  nothing_written view offset source st lay h v =
      rw (in_reach-zero d.length_bytes (length source) offset h)
        (view, IsWritten-none view d offset source lay, (st, refl, v))

  write_round :
      (fuel c s m offset : ℕ) (source : Bytes) (st st1 st2 st3 : St)
      → (length source == 0) ≡ false
      → chunk_size d.length_bytes (length source) offset ≡ c
      → (c == 0) ≡ false
      → byte_to_sector io d offset st ≡ done s st1
      → write_piece io s offset c source st1 ≡ done tt st2
      → write_loop io fuel d (drop c source) (offset + c) st2 ≡ done m st3
      → write_loop io (suc fuel) d source offset st ≡ done (c + m) st3
  unfolding write_loop
  write_round fuel c s m offset source st st1 st2 st3 e is ne e1 e2 e3 =
      rw (e, is, e1, ne, e2, e3) refl

  -- With as much fuel as bytes are given, the loop writes the bytes of `source` from `offset` on, as
  -- far as the file reaches, and returns their number; the other bytes of the file, its layout and
  -- all other sectors stay as they are.
  pub write_loop-IsWritten :
      (fuel : ℕ) (view : ℕ → Option Bytes) (offset : ℕ) (source : Bytes) (st : St)
      → length source ≤ fuel
      → IsLayout view d
      → Shows view st
      → Leaves view offset source (write_loop io fuel d source offset st)
  unfolding write_loop
  write_loop-IsWritten zero view offset source st h lay v =
      let z : length source ≡ 0 = omega arith in
      let b : (length source == 0) ≡ true = ground arith in
      rw b (nothing_written view offset source st lay (inl z) v)
  write_loop-IsWritten (suc fuel) view offset source st h lay v =
      elim (Bool-cases (length source == 0)) [
        | inl e ↦ rw e (nothing_written view offset source st lay (inl (ground arith)) v)
        | inr e ↦ elim (Bool-cases (ltb offset d.length_bytes)) [
          | inl lt ↦
              let c = chunk_size d.length_bytes (length source) offset in
              let before : offset < d.length_bytes = ground arith in
              let ne : length source ≢ 0 = ground arith in
              let (le, left, inside) = chunk_size-bounds d.length_bytes (length source) offset in
              let some_bytes =
                chunk_size-positive d.length_bytes (length source) offset ne before in
              let more : c ≢ 0 = ground arith in
              let l = length-drop c source in
              let s = sector_of view d (offset / 512) in
              let w = IsWritten-piece view d lay offset c source before le inside in
              let (st1, e1, v1) = byte_to_sector-sector_of io ok view d offset st v lay before in
              let (st2, e2, v2) =
                write_piece-Shows view s offset c source st1 v1
                  (lay.readable (offset / 512) (sector_count-lt d offset before)) inside in
              let (view', w', (st3, e3, v3)) =
                write_loop-IsWritten fuel _ (offset + c) (drop c source) st2 (omega (arith, l))
                  w.layout v2 in
              let r =
                in_reach-chunk d.length_bytes (length source) offset c le left
                ∙ ap (λ k. c + in_reach d.length_bytes k (offset + c)) (sym l) in
              rw r (
                view',
                IsWritten-append d offset c _ source left w w',
                (
                  st3,
                  write_round fuel c s _ offset source st st1 st2 st3 e refl some_bytes e1 e2 e3,
                  v3,
                ),
              )
          | inr ge ↦
              let beyond : d.length_bytes ≤ offset = ground arith in
              rw
                (
                  e,
                  byte_to_sector-beyond io d offset st beyond,
                  chunk_size-zero d.length_bytes (length source) offset beyond,
                )
                (nothing_written view offset source st lay (inr beyond) v)
        ]
      ]
