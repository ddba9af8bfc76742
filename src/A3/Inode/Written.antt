-- ===== src/A3/Inode/Written.antt =====
-- A round of `inode_write_at` of a3/fs/inode.c changes the bytes it is given and no others.
use comp.Prelude.{
  ℕ, ◌+◌, ◌-◌, ◌/◌, ◌%◌, ◌<◌, ◌≤◌, ◌≡◌, ◌≢◌, ◌⊎◌, ◌∙◌, inl, inr, refl, sym, ap, Option, arith,
  length, get_or, take, drop, overwrite, ltb, if◌then◌else◌, Bool-cases,
}
use comp.Prelude.Windows.{
  length-take, length-overwrite, get_or-take, get_or-drop, get_or-overwrite_in,
  get_or-overwrite_out,
}
use comp.A3.Bytes.{Bytes, block_sector_size}
use comp.A3.Cache.Steps.{update, update_ne, eq_or_ne}
use comp.A3.Inode.{InodeDisk, is_whole}
use comp.A3.Inode.Layout.{
  contents, sector_of, byte_at, IsLayout, sector_count, sector_count-lt, byte_at-sector,
}
use comp.A3.Inode.Update.{sector_of-update, IsLayout-update, byte_at-update_in, byte_at-update_out}

-- The sector `b` after a round that puts the first `chunk` bytes of `source` into it.
unfoldable pub new_sector : Bytes → ℕ → ℕ → Bytes → Bytes
new_sector b offset chunk source =
    if is_whole offset chunk
    then take chunk source
    else overwrite (offset % 512) (take chunk source) b

module _ (b : Bytes) (offset chunk : ℕ) (source : Bytes) (n : length b ≡ block_sector_size)
    (le : chunk ≤ length source) (inside : offset % 512 + chunk ≤ 512) where
  length-new_sector : length (new_sector b offset chunk source) ≡ block_sector_size
  unfolding new_sector
  length-new_sector = elim (Bool-cases (is_whole offset chunk)) [
    | inl e ↦ rw e (length-take chunk source le ∙ (let f = e in ground arith))
    | inr e ↦ rw e (length-overwrite (offset % 512) (take chunk source) b ∙ n)
  ]

  get_or-new_sector_in :
      (k : ℕ)
      → k < chunk
      → get_or (new_sector b offset chunk source) (offset % 512 + k) 0 ≡ get_or source k 0
  unfolding new_sector
  get_or-new_sector_in k h = elim (Bool-cases (is_whole offset chunk)) [
    | inl e ↦
        let z : offset % 512 + k ≡ k = ground arith in rw (e, z) (get_or-take chunk k source 0 h)
    | inr e ↦
        let l = length-take chunk source le in
        rw e (
          get_or-overwrite_in (offset % 512) (take chunk source) b k 0 (omega (arith, l))
            (omega (arith, l, n))
          ∙ get_or-take chunk k source 0 h)
  ]

  get_or-new_sector_out :
      (q : ℕ)
      → q < 512
      → (q < offset % 512) ⊎ (offset % 512 + chunk ≤ q)
      → get_or (new_sector b offset chunk source) q 0 ≡ get_or b q 0
  unfolding new_sector
  get_or-new_sector_out q h out = elim (Bool-cases (is_whole offset chunk)) [
    | inl e ↦ absurd (ground arith)
    | inr e ↦
        let l = length-take chunk source le in
        rw e (
          get_or-overwrite_out (offset % 512) (take chunk source) b q 0
            (elim out [ inl o ↦ inl o | inr o ↦ inr (omega (arith, l)) ]))
  ]

-- `n` bytes of `source` are at `offset` in the file; its other bytes, its layout and the other
-- sectors are as before.
pub record IsWritten (view view' : ℕ → Option Bytes) (d : InodeDisk) (offset n : ℕ) (source : Bytes)
    : Type 0 where
  pub layout : IsLayout view' d
  pub same : (j : ℕ) → j < sector_count d → sector_of view' d j ≡ sector_of view d j
  pub inside : (k : ℕ) → k < n → byte_at view' d (offset + k) ≡ get_or source k 0
  pub outside :
      (p : ℕ)
      → p / 512 < sector_count d
      → (p < offset) ⊎ (offset + n ≤ p)
      → byte_at view' d p ≡ byte_at view d p
  pub elsewhere :
      (t : ℕ) → ((j : ℕ) → j < sector_count d → sector_of view d j ≢ t) → view' t ≡ view t

pub IsWritten-none :
    (view : ℕ → Option Bytes) (d : InodeDisk) (offset : ℕ) (source : Bytes)
    → IsLayout view d
    → IsWritten view view d offset 0 source
IsWritten-none view d offset source lay = record {
  layout = lay;
  same = λ j h. refl;
  inside = λ k h. elim h [ ];
  outside = λ p h out. refl;
  elsewhere = λ t away. refl;
}

-- A round and the rounds behind it.
pub IsWritten-append :
    {v v1 v2 : ℕ → Option Bytes} (d : InodeDisk) (offset c m : ℕ) (source : Bytes)
    → c ≤ d.length_bytes - offset
    → IsWritten v v1 d offset c source
    → IsWritten v1 v2 d (offset + c) m (drop c source)
    → IsWritten v v2 d offset (c + m) source
IsWritten-append {v} {v1} {v2} d offset c m source le w u = record {
  layout = u.layout;
  same = λ j h. u.same j h ∙ w.same j h;
  inside = λ k h. elim (Bool-cases (ltb k c)) [
    | inl e ↦
        let lt : k < c = ground arith in
        u.outside (offset + k) (sector_count-lt d (offset + k) (omega arith)) (inl (omega arith))
        ∙ w.inside k lt
    | inr e ↦
        let ge : c ≤ k = ground arith in
        let z : offset + k ≡ offset + c + (k - c) = omega arith in
        let y : c + (k - c) ≡ k = omega arith in
        ap (λ p. byte_at v2 d p) z
        ∙ u.inside (k - c) (omega arith)
        ∙ get_or-drop c (k - c) source 0
        ∙ ap (λ q. get_or source q 0) y
  ];
  outside = λ p h out.
      u.outside p h (elim out [ inl o ↦ inl (omega arith) | inr o ↦ inr (omega arith) ])
      ∙ w.outside p h (elim out [ inl o ↦ inl o | inr o ↦ inr (omega arith) ]);
  elsewhere =
      λ t away. u.elsewhere t (λ j h. (let s = w.same j h in rw s (away j h))) ∙ w.elsewhere t away;
}

module _ (view : ℕ → Option Bytes) (d : InodeDisk) (lay : IsLayout view d) (offset chunk : ℕ)
    (source : Bytes) (before : offset < d.length_bytes) (le : chunk ≤ length source)
    (fits : offset % 512 + chunk ≤ 512) where
  -- The sector of `offset`, and what a round writes there.
  abbrev pub target : ℕ
  target = sector_of view d (offset / 512)

  abbrev pub next : Bytes
  next = new_sector (contents (view target)) offset chunk source

  old_sized : length (contents (view target)) ≡ block_sector_size
  old_sized = lay.sized (offset / 512) (sector_count-lt d offset before)

  pub IsWritten-piece : IsWritten view (update view target next) d offset chunk source
  IsWritten-piece =
      let i = offset / 512 in
      let lt = sector_count-lt d offset before in
      let b = contents (view target) in
      record {
        layout =
            IsLayout-update view d lay i lt next
              (length-new_sector b offset chunk source old_sized le fits);
        same = sector_of-update view d lay i lt next;
        inside = λ k h.
            (let q : (offset + k) / 512 ≡ i = omega arith in
              let r : (offset + k) % 512 ≡ offset % 512 + k = omega arith in
              byte_at-update_in view d lay i lt next (offset + k) q
              ∙ ap (λ m. get_or next m 0) r
              ∙ get_or-new_sector_in b offset chunk source old_sized le fits k h);
        outside = λ p h out. elim (eq_or_ne (p / 512) i) [
          | inl e ↦
              byte_at-update_in view d lay i lt next p e
              ∙ get_or-new_sector_out b offset chunk source old_sized le fits (p % 512)
                  (omega arith) (elim out [ inl o ↦ inl (omega arith) | inr o ↦ inr (omega arith) ])
              ∙ sym (byte_at-sector view d p i e)
          | inr ne ↦ byte_at-update_out view d lay i lt next p h ne
        ];
        elsewhere = λ t away. update_ne view target t next (away i lt);
      }
