-- ===== src/A3/Inode/Read.antt =====
-- `inode_read_at` of a3/fs/inode.c returns the bytes of the file.
use comp.Prelude.{
  ℕ, zero, suc, ◌+◌, ◌-◌, ◌/◌, ◌%◌, ◌<◌, ◌≤◌, ◌≡◌, ◌≢◌, ◌⊎◌, ◌∙◌, inl, inr, refl, sym, ap, true,
  false, Option, [], ◌++◌, arith, length, get_or, take, drop, ◌==◌, ltb, if◌then◌else◌, Bool-cases,
}
use comp.Prelude.Windows.{
  window, window-append, window_ext, length-take, length-drop, get_or-take, get_or-drop,
}
use comp.Prelude.Run.{done, Returns, Returns-bind}
use comp.A3.Bytes.{Bytes, block_sector_size}
use comp.A3.Sectors.{Sectors, IsSectors}
use comp.A3.Inode.{InodeDisk, min, chunk_size, is_whole, read_piece, read_loop}
use comp.A3.Inode.Layout.{
  contents, sector_of, byte_at, IsLayout, sector_count-lt, byte_to_sector-sector_of,
  byte_to_sector-beyond,
}

-- The bytes of the file from `offset` on, `size` at most.
unfoldable pub in_reach : ℕ → ℕ → ℕ → ℕ
unfolding min
in_reach length_bytes size offset = min size (length_bytes - offset)

-- The part of a sector that a round takes.
abbrev part : Bytes → ℕ → ℕ → Bytes
part b offset chunk = if is_whole offset chunk then b else take chunk (drop (offset % 512) b)

length-part :
    (b : Bytes) (offset chunk : ℕ)
    → length b ≡ block_sector_size
    → offset % 512 + chunk ≤ 512
    → length (part b offset chunk) ≡ chunk
length-part b offset chunk n h = elim (Bool-cases (is_whole offset chunk)) [
  | inl e ↦ rw e (n ∙ (let f = e in ground arith))
  | inr e ↦ rw e (
      length-take chunk (drop (offset % 512) b)
        (let l = length-drop (offset % 512) b in omega (arith, l, n)))
]

get_or-part :
    (b : Bytes) (offset chunk k : ℕ)
    → k < chunk
    → get_or (part b offset chunk) k 0 ≡ get_or b (offset % 512 + k) 0
get_or-part b offset chunk k h = elim (Bool-cases (is_whole offset chunk)) [
  | inl e ↦
      rw e (
        let z : offset % 512 ≡ 0 = ground arith in
        let y : 0 + k ≡ k = omega arith in rw (z, y) refl)
  | inr e ↦
      rw e (get_or-take chunk k (drop (offset % 512) b) 0 h ∙ get_or-drop (offset % 512) k b 0)
]

byte_at-in :
    (view : ℕ → Option Bytes) (d : InodeDisk) (offset k : ℕ)
    → offset % 512 + k < 512
    → byte_at view d (offset + k)
      ≡ get_or (contents (view (sector_of view d (offset / 512)))) (offset % 512 + k) 0
unfolding byte_at
byte_at-in view d offset k h =
    let q : (offset + k) / 512 ≡ offset / 512 = omega arith in
    let r : (offset + k) % 512 ≡ offset % 512 + k = omega arith in rw (q, r) refl

part-window :
    (view : ℕ → Option Bytes) (d : InodeDisk) (offset chunk : ℕ)
    → length (contents (view (sector_of view d (offset / 512)))) ≡ block_sector_size
    → offset % 512 + chunk ≤ 512
    → part (contents (view (sector_of view d (offset / 512)))) offset chunk
      ≡ window (byte_at view d) offset chunk
part-window view d offset chunk n h =
    let b = contents (view (sector_of view d (offset / 512))) in
    let l = length-part b offset chunk n h in
    sym (
      ap (λ m. window (byte_at view d) offset m) (sym l)
      ∙ window_ext (byte_at view d) 0 offset (part b offset chunk) (λ k lt.
        byte_at-in view d offset k (omega (arith, l))
        ∙ sym (get_or-part b offset chunk k (omega (arith, l)))))

pub chunk_size-bounds :
    (l size offset : ℕ)
    → (chunk_size l size offset ≤ size)
      × (chunk_size l size offset ≤ l - offset)
      × (offset % 512 + chunk_size l size offset ≤ 512)
unfolding chunk_size min
chunk_size-bounds l size offset = ground arith

pub chunk_size-positive :
    (l size offset : ℕ) → size ≢ 0 → offset < l → (chunk_size l size offset == 0) ≡ false
unfolding chunk_size min
chunk_size-positive l size offset ne h = ground arith

pub chunk_size-zero : (l size offset : ℕ) → l ≤ offset → chunk_size l size offset ≡ 0
unfolding chunk_size min
chunk_size-zero l size offset h = ground arith

pub in_reach-zero : (l size offset : ℕ) → (size ≡ 0) ⊎ (l ≤ offset) → in_reach l size offset ≡ 0
unfolding in_reach min
in_reach-zero l size offset h = ground arith

pub in_reach-chunk :
    (l size offset chunk : ℕ)
    → chunk ≤ size
    → chunk ≤ l - offset
    → in_reach l size offset ≡ chunk + in_reach l (size - chunk) (offset + chunk)
unfolding in_reach min
in_reach-chunk l size offset chunk h k = ground arith

module _ {St : Type 0} (io : Sectors St) {Shows : (ℕ → Option Bytes) → St → Type 0}
    (ok : IsSectors io Shows) (view : ℕ → Option Bytes) (d : InodeDisk)
    (lay : IsLayout view d) where
  read_piece-window :
      (offset chunk : ℕ) (st : St)
      → Shows view st
      → offset < d.length_bytes
      → offset % 512 + chunk ≤ 512
      → Returns
          (read_piece io (sector_of view d (offset / 512)) offset chunk st)
          (window (byte_at view d) offset chunk)
          (Shows view)
  unfolding read_piece
  read_piece-window offset chunk st v lt h =
      let i = offset / 512 in
      let n = sector_count-lt d offset lt in
      let (st', e, v') =
        ok.read_ok view (sector_of view d i) (contents (view (sector_of view d i))) st v
          (lay.readable i n) in
      (st', rw e (ap (λ b. done b st') (part-window view d offset chunk (lay.sized i n) h)), v')

  -- The file's bytes from a position on, as a result of the loop.
  abbrev bytes_from : ℕ → ℕ → ℕ × Bytes
  bytes_from offset n = (n, window (byte_at view d) offset n)

  nothing_read :
      (size offset : ℕ) (st : St)
      → (size ≡ 0) ⊎ (d.length_bytes ≤ offset)
      → Shows view st
      → Returns {A = ℕ × Bytes}
          (done (0, []) st)
          (bytes_from offset (in_reach d.length_bytes size offset))
          (Shows view)
  nothing_read size offset st h v = rw (in_reach-zero d.length_bytes size offset h) (st, refl, v)

  bytes_from-chunk :
      (chunk size offset : ℕ)
      → chunk ≤ size
      → chunk ≤ d.length_bytes - offset
      → bytes_from offset (in_reach d.length_bytes size offset) ≡ (
        chunk + in_reach d.length_bytes (size - chunk) (offset + chunk),
        window (byte_at view d) offset chunk
            ++ window
                (byte_at view d)
                (offset + chunk)
                (in_reach d.length_bytes (size - chunk) (offset + chunk)),
      )
  bytes_from-chunk chunk size offset h k =
      let r = in_reach d.length_bytes (size - chunk) (offset + chunk) in
      rw (in_reach-chunk d.length_bytes size offset chunk h k)
        (ap (λ (w : Bytes). (chunk + r, w)) (window-append (byte_at view d) offset chunk r))

  -- With as much fuel as bytes are asked for, the loop returns the file's bytes from `offset` on,
  -- `size` of them or all that there are; the sectors stay as they are.
  pub read_loop-window :
      (fuel size offset : ℕ) (st : St)
      → size ≤ fuel
      → Shows view st
      → Returns
          (read_loop io fuel d size offset st)
          (bytes_from offset (in_reach d.length_bytes size offset))
          (Shows view)
  unfolding read_loop
  read_loop-window zero size offset st h v =
      let z : size ≡ 0 = omega arith in
      let b : (size == 0) ≡ true = ground arith in rw b (nothing_read size offset st (inl z) v)
  read_loop-window (suc fuel) size offset st h v = elim (Bool-cases (size == 0)) [
    | inl e ↦ rw e (nothing_read size offset st (inl (ground arith)) v)
    | inr e ↦ elim (Bool-cases (ltb offset d.length_bytes)) [
      | inl lt ↦
          let c = chunk_size d.length_bytes size offset in
          let before : offset < d.length_bytes = ground arith in
          let ne : size ≢ 0 = ground arith in
          let (le, left, inside) = chunk_size-bounds d.length_bytes size offset in
          let some_bytes = chunk_size-positive d.length_bytes size offset ne before in
          let more : c ≢ 0 = ground arith in
          rw (e, bytes_from-chunk c size offset le left)
            (Returns-bind _ _ _ _ (Shows view) (Shows view)
              (byte_to_sector-sector_of io ok view d offset st v lay before)
              (λ st1 v1. rw some_bytes (
                Returns-bind _ _ _ _ (Shows view) (Shows view)
                  (read_piece-window offset c st1 v1 before inside)
                  (λ st2 v2.
                    Returns-bind _ _ _ _ (Shows view) (Shows view)
                      (read_loop-window fuel (size - c) (offset + c) st2 (omega arith) v2)
                      (λ st3 v3. (st3, refl, v3))))))
      | inr ge ↦
          let beyond : d.length_bytes ≤ offset = ground arith in
          rw
            (
              e,
              byte_to_sector-beyond io d offset st beyond,
              chunk_size-zero d.length_bytes size offset beyond,
            )
            (nothing_read size offset st (inr beyond) v)
    ]
  ]
