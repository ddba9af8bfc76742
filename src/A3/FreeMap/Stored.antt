-- ===== src/A3/FreeMap/Stored.antt =====
-- a3/fs/free-map.c keeps its file equal to the bitmap in memory.
use comp.Prelude.{
  ℕ, suc, ◌+◌, ◌-◌, ◌/◌, ◌<◌, ◌≤◌, ◌≡◌, ◌≢◌, ◌⊎◌, inl, inr, ◌∙◌, refl, Bool-cases, true, false,
  Option, some, arith, length, ◌==◌,
}
use comp.Prelude.Windows.{window, window_ext}
use comp.Prelude.Run.{Run, done, fault, Returns}
use comp.A3.Bytes.{Bytes}
use comp.A3.Sectors.{Sectors, IsSectors}
use comp.A3.Inode.{Inode, no_sector}
use comp.A3.Inode.Layout.{sector_of, byte_at, IsLayout, sector_count}
use comp.A3.Inode.Reserve.{inode_write_at}
use comp.A3.Inode.Within.{inode_write_at-IsWritten}
use comp.A3.FreeMap.{
  Bitmaps, FreeMap, sectors, bitmap_write, allocate_with, free_map_allocate, free_map_release,
}

module _ {B St : Type 0} (bitmaps : Bitmaps B) (io : Sectors St)
    {Shows : (ℕ → Option Bytes) → St → Type 0} (ok : IsSectors io Shows) where
  -- The sectors below a free map with the bits `b`.
  abbrev pub ShowsMap : B → (ℕ → Option Bytes) → FreeMap B St → Type 0
  ShowsMap b view m = Shows view m.under × (m.bits ≡ b)

  pub sectors-IsSectors : (b : B) → IsSectors (sectors {B = B} io) (ShowsMap b)
  unfolding sectors
  sectors-IsSectors b = record {
    read_ok = λ view s c m v has.
        (let (st, e, v') = ok.read_ok view s c m.under v.0 has in
          (record m { under = st }, rw e refl, (v', v.1)));
    write_ok = λ view s source c m v has.
        (let (st, e, v') = ok.write_ok view s source c m.under v.0 has in
          (record m { under = st }, rw e refl, (v', v.1)));
  }

  -- The file of the free map: it is open, writes to it are not denied, and it has room for the
  -- bitmap, in sectors that are all there.
  pub record IsMapFile (view : ℕ → Option Bytes) (m : FreeMap B St) (inode : Inode) (size : ℕ)
      : Type 0 where
    pub file : m.map_file ≡ some inode
    pub layout : IsLayout view inode.body
    pub shows : Shows view m.under
    pub allowed : inode.deny_write_cnt ≡ 0
    pub some_bits : size ≢ 0
    pub room : size ≤ inode.body.length_bytes
    pub real : sector_of view inode.body ((0 + size - 1) / 512) ≢ no_sector

  -- The file has the bits of the map; the sectors outside it are as in `view`.
  pub record IsStored (view view' : ℕ → Option Bytes) (m : FreeMap B St) (inode : Inode)
      : Type 0 where
    pub file : m.map_file ≡ some inode
    pub shows : Shows view' m.under
    pub layout : IsLayout view' inode.body
    pub bits :
        window (byte_at view' inode.body) 0 (length (bitmaps.bytes m.bits)) ≡ bitmaps.bytes m.bits
    pub elsewhere :
        (t : ℕ)
        → ((j : ℕ) → j < sector_count inode.body → sector_of view inode.body j ≢ t)
        → view' t ≡ view t

  bitmap_write-step :
      (allocate : FreeMap B St → Run (FreeMap B St) (Option ℕ)) (m m' : FreeMap B St)
      (inode inode' : Inode)
      → m.map_file ≡ some inode
      → inode_write_at (sectors io) allocate inode (bitmaps.bytes m.bits) 0 m
        ≡ done (length (bitmaps.bytes m.bits), inode') m'
      → bitmap_write bitmaps io allocate m ≡ done true (record m' { map_file = some inode' })
  unfolding bitmap_write
  bitmap_write-step allocate m m' inode inode' f e =
      let same : (length (bitmaps.bytes m.bits) == length (bitmaps.bytes m.bits)) ≡ true =
        ground arith in
      rw (f, (rw f at e), same) refl

  module _ (view : ℕ → Option Bytes) (m : FreeMap B St) (inode : Inode)
      (f : IsMapFile view m inode (length (bitmaps.bytes m.bits))) where
    bitmap_write-IsStored :
        (allocate : FreeMap B St → Run (FreeMap B St) (Option ℕ))
        → (view' : ℕ → Option Bytes) × Returns
            (bitmap_write bitmaps io allocate m)
            true
            (λ m'. (m'.bits ≡ m.bits) × IsStored view view' m' inode)
    bitmap_write-IsStored allocate =
        let out = bitmaps.bytes m.bits in
        let room : 0 + length out ≤ inode.body.length_bytes =
          (let r = f.room in omega (arith, r)) in
        let (view', w, (m', e, ((v', b), u))) =
          inode_write_at-IsWritten (sectors io) (sectors-IsSectors m.bits) allocate view inode out 0
            m f.layout (f.shows, refl) f.allowed f.some_bits room f.real in
        (
          view',
          (
            record m' { map_file = some inode },
            bitmap_write-step allocate m m' inode inode f.file e,
            (
              b,
              record {
                file = refl;
                shows = v';
                layout = w.layout;
                bits = rw b (window_ext (byte_at view' inode.body) 0 0 out (λ k lt. w.inside k lt));
                elsewhere = w.elsewhere;
              },
            ),
          ),
        )

  IsMapFile-bits :
      (view : ℕ → Option Bytes) (m : FreeMap B St) (inode : Inode) (size size' : ℕ) (b : B)
      → size ≡ size'
      → IsMapFile view m inode size
      → IsMapFile view (record m { bits = b }) inode size'
  IsMapFile-bits view m inode size size' b e f = record {
    file = f.file;
    layout = f.layout;
    shows = f.shows;
    allowed = f.allowed;
    some_bits = rw e at f.some_bits;
    room = rw e at f.room;
    real = rw e at f.real;
  }

  allocate_with-step :
      (within : FreeMap B St → Run (FreeMap B St) (Option ℕ)) (sector : ℕ) (bits : B)
      (m m' : FreeMap B St) (inode : Inode)
      → bitmaps.scan_and_flip m.bits ≡ some (sector, bits)
      → m.map_file ≡ some inode
      → bitmap_write bitmaps io within (record m { bits = bits }) ≡ done true m'
      → allocate_with bitmaps io within m ≡ done (some sector) m'
  unfolding allocate_with
  allocate_with-step within sector bits m m' inode e f w = rw (e, f, w, allocate_with) refl

  free_map_allocate-suc :
      (depth : ℕ) (m : FreeMap B St)
      → free_map_allocate bitmaps io (suc depth) m
        ≡ allocate_with bitmaps io (free_map_allocate bitmaps io depth) m
  unfolding free_map_allocate
  free_map_allocate-suc depth m = refl

  -- The file of the free map holds the bitmap after `m` became one with the bits `bits`.
  abbrev pub KeepsFile : (ℕ → Option Bytes) → B → Inode → FreeMap B St → Type 0
  KeepsFile view bits inode m =
      (view' : ℕ → Option Bytes) × (m.bits ≡ bits) × IsStored view view' m inode

  -- Where the free map file is open, with room for a bitmap whose length stays, and
  -- `bitmap_scan_and_flip` finds a free sector: `free_map_allocate` returns it at any depth of
  -- calls, the bitmap is the flipped one, the file holds it, and no sector outside the file has
  -- changed.
  pub free_map_allocate-IsStored :
      (depth sector : ℕ) (bits : B) (view : ℕ → Option Bytes) (m : FreeMap B St) (inode : Inode)
      → IsMapFile view m inode (length (bitmaps.bytes m.bits))
      → length (bitmaps.bytes m.bits) ≡ length (bitmaps.bytes bits)
      → bitmaps.scan_and_flip m.bits ≡ some (sector, bits)
      → Returns
          (free_map_allocate bitmaps io (suc depth) m)
          (some sector)
          (KeepsFile view bits inode)
  free_map_allocate-IsStored depth sector bits view m inode f n scan =
      let (view', (m', e, (b, w))) =
        bitmap_write-IsStored view (record m { bits = bits }) inode
          (IsMapFile-bits view m inode _ _ bits n f) (free_map_allocate bitmaps io depth) in
      (
        m',
        free_map_allocate-suc depth m
            ∙ allocate_with-step (free_map_allocate bitmaps io depth) sector bits m m' inode scan
                f.file e,
        (view', b, w),
      )

  free_map_release-step :
      (depth sector : ℕ) (m m' : FreeMap B St)
      → bitmaps.all sector m.bits ≡ true
      → bitmap_write bitmaps io
          (free_map_allocate bitmaps io depth)
          (record m { bits = bitmaps.set sector false m.bits })
        ≡ done true m'
      → free_map_release bitmaps io depth sector m ≡ done tt m'
  unfolding free_map_release
  free_map_release-step depth sector m m' e w = rw (e, w) refl

  -- Where the free map file is open, with room for a bitmap whose length stays:
  -- `free_map_release` of a sector in use clears its bit, and the file holds the new bitmap;
  -- of a sector that is free it faults, at the ASSERT.
  pub free_map_release-IsStored :
      (depth sector : ℕ) (view : ℕ → Option Bytes) (m : FreeMap B St) (inode : Inode)
      → IsMapFile view m inode (length (bitmaps.bytes m.bits))
      → length (bitmaps.bytes m.bits) ≡ length (bitmaps.bytes (bitmaps.set sector false m.bits))
      → (bitmaps.all sector m.bits ≡ true)
          × Returns
              (free_map_release bitmaps io depth sector m)
              tt
              (KeepsFile view (bitmaps.set sector false m.bits) inode)
        ⊎ (bitmaps.all sector m.bits ≡ false) × (free_map_release bitmaps io depth sector m ≡ fault)
  free_map_release-IsStored depth sector view m inode f n =
      elim (Bool-cases (bitmaps.all sector m.bits)) [
        | inr e ↦ inr (e, (unfold free_map_release in rw e refl))
        | inl e ↦
            let bits = bitmaps.set sector false m.bits in
            let (view', (m', w, (b, s))) =
              bitmap_write-IsStored view (record m { bits = bits }) inode
                (IsMapFile-bits view m inode _ _ bits n f) (free_map_allocate bitmaps io depth) in
            inl (e, (m', free_map_release-step depth sector m m' e w, (view', b, s)))
      ]
