-- ===== src/A3/FreeMap/Reopened.antt =====
-- `free_map_open` of a3/fs/free-map.c reads the bitmap that was stored.
use comp.Prelude.{ℕ, ◌+◌, ◌≤◌, ◌≡◌, ◌∙◌, refl, ap, true, Option, some, arith, length, ◌==◌, false}
use comp.Prelude.Windows.{window}
use comp.Prelude.Run.{done, Returns}
use comp.A3.Bytes.{Bytes}
use comp.A3.Sectors.{Sectors, IsSectors}
use comp.A3.Inode.{Inode, InodeDisk, encode_inode, decode_inode, inode_read_at}
use comp.A3.Inode.Encoding.{IsPacked, decode_inode-encode_inode}
use comp.A3.Inode.Layout.{byte_at, IsLayout}
use comp.A3.Inode.Within.{in_reach-whole, inode_read_at-window}
use comp.A3.FreeMap.{Bitmaps, FreeMap, sectors, open_map_file, free_map_open}
use comp.A3.FreeMap.Stored.{sectors-IsSectors}

module _ {B St : Type 0} (bitmaps : Bitmaps B) (io : Sectors St)
    {Shows : (ℕ → Option Bytes) → St → Type 0} (ok : IsSectors io Shows) where
  -- The sectors hold the inode of the free map in sector 0, and the bitmap `b` in its file.
  pub record HasMapFile (view : ℕ → Option Bytes) (d : InodeDisk) (b : B) : Type 0 where
    pub inode_sector : view 0 ≡ some (encode_inode d)
    pub packed : IsPacked d
    pub layout : IsLayout view d
    pub room : 0 + length (bitmaps.bytes b) ≤ d.length_bytes
    pub stored : window (byte_at view d) 0 (length (bitmaps.bytes b)) ≡ bitmaps.bytes b

  -- The inode of the free map, just opened.
  abbrev pub fresh_inode : InodeDisk → Inode
  fresh_inode d = record { sector = 0; open_cnt = 1; removed = false; deny_write_cnt = 0; body = d }

  open_map_file-step :
      (d : InodeDisk) (b : Bytes) (m m1 : FreeMap B St)
      → (sectors io).buffer_cache_read 0 m ≡ done b m1
      → decode_inode b ≡ d
      → open_map_file bitmaps io m ≡ done (fresh_inode d) m1
  unfolding open_map_file
  open_map_file-step d b m m1 e same = rw (e, same) refl

  free_map_open-step :
      (d : InodeDisk) (size : ℕ) (out : Bytes) (m m1 m2 : FreeMap B St)
      → open_map_file bitmaps io m ≡ done (fresh_inode d) m1
      → length (bitmaps.bytes m1.bits) ≡ size
      → inode_read_at (sectors io) d size 0 m1 ≡ done (size, out) m2
      → free_map_open bitmaps io m
        ≡ done tt (record m2 { map_file = some (fresh_inode d); bits = bitmaps.of_bytes out })
  unfolding free_map_open
  free_map_open-step d size out m m1 m2 e n r =
      let same : (size == size) ≡ true = ground arith in rw (e, n, r, same) refl

  -- Where the sectors hold the inode of the free map and a bitmap `b` in its file, of the length of
  -- the one in memory, and a bitmap is read from its bytes: `free_map_open` returns with the bitmap
  -- `b`, and with the inode as it is on the disk as its file; the sectors stay as they are.
  pub free_map_open-bits :
      (view : ℕ → Option Bytes) (d : InodeDisk) (b : B) (m : FreeMap B St)
      → HasMapFile view d b
      → Shows view m.under
      → length (bitmaps.bytes m.bits) ≡ length (bitmaps.bytes b)
      → bitmaps.of_bytes (bitmaps.bytes b) ≡ b
      → Returns
          (free_map_open bitmaps io m)
          tt
          (λ m'. (m'.bits ≡ b) × (m'.map_file ≡ some (fresh_inode d)) × Shows view m'.under)
  free_map_open-bits view d b m f v n back =
      let size = length (bitmaps.bytes b) in
      let io_ok = sectors-IsSectors bitmaps io ok m.bits in
      let (m1, e1, v1) = io_ok.read_ok view 0 (encode_inode d) m (v, refl) f.inode_sector in
      let opened =
        open_map_file-step d (encode_inode d) m m1 e1 (decode_inode-encode_inode d f.packed) in
      let (m2, e2, v2) = inode_read_at-window (sectors io) io_ok view d size 0 m1 f.layout v1 in
      let reach = in_reach-whole d.length_bytes size 0 f.room in
      let out =
        e2
        ∙ ap (λ (k : ℕ). done (k, window (byte_at view d) 0 k) m2) reach
        ∙ ap (λ (w : Bytes). done (size, w) m2) f.stored in
      (
        record m2 { map_file = some (fresh_inode d); bits = bitmaps.of_bytes (bitmaps.bytes b) },
        free_map_open-step d size (bitmaps.bytes b) m m1 m2 opened
            (ap (λ c. length (bitmaps.bytes c)) v1.1 ∙ n) out,
        (back, refl, v2.0),
      )
