-- ===== src/A3/Directory/Slots.antt =====
-- The place that `dir_add` of a3/fs/directory.c takes for a new entry.
use comp.Prelude.{
  ℕ, zero, suc, ◌+◌, ◌*◌, ◌<◌, ◌≤◌, ◌≡◌, ◌≢◌, ◌∙◌, ◌⊎◌, inl, inr, refl, sym, ap, true, false, some,
  none, Option, arith, leb, ◌==◌, Bool-cases,
}
use comp.Prelude.Run.{Run, done, Returns}
use comp.A3.Bytes.{Bytes}
use comp.A3.Sectors.{Sectors, IsSectors}
use comp.A3.Inode.{Inode}
use comp.A3.Inode.Layout.{IsLayout, byte_at}
use comp.A3.OpenInodes.{InodeOps, Table, inode_ops}
use comp.A3.Files.{Fs}
use comp.A3.Directory.{DirEntry, entry_size, read_entry_at, free_slot}
use comp.A3.Directory.Entries.{
  IsFile, entry_of, After, After-trans, read_entry_at-full, read_entry_at-short,
}
use comp.A3.Directory.OnDisk.{IsOpen, inode_ops-IsFile}

-- From entry `k` on, the entries before `ofs` are whole and in use, and at `ofs` there is one that is
-- not in use, or no whole entry is left.
abbrev pub IsFreeSlot : (ℕ → ℕ) → ℕ → ℕ → ℕ → Type 0
IsFreeSlot f size k ofs =
    (j : ℕ) × (k ≤ j)
    × (ofs ≡ entry_size * j)
    × ((i : ℕ)
        → k ≤ i
        → i < j
        → (entry_size * i + entry_size ≤ size) × ((entry_of f i).in_use ≡ true))
    × (((entry_size * j + entry_size ≤ size) × ((entry_of f j).in_use ≡ false))
        ⊎ (size < entry_size * j + entry_size))

IsFreeSlot-later :
    (f : ℕ → ℕ) (size k ofs : ℕ)
    → entry_size * k + entry_size ≤ size
    → (entry_of f k).in_use ≡ true
    → IsFreeSlot f size (suc k) ofs
    → IsFreeSlot f size k ofs
IsFreeSlot-later f size k ofs fits used (j, le, o, before, at) = (
  j,
  omega arith,
  o,
  λ i ki ij. elim (Bool-cases (i == k)) [
    | inl e ↦ let z : i ≡ k = ground arith in rw z (fits, used)
    | inr e ↦ before i (ground arith) ij
  ],
  at,
)

module _ {St : Type 0} (ops : InodeOps St) (inode size : ℕ) (f : ℕ → ℕ) (P : St → Type 0)
    (file : IsFile ops inode size f P) where
  free_slot-end :
      (fuel ofs : ℕ) (s s1 : Fs St)
      → read_entry_at ops inode ofs s ≡ done none s1
      → free_slot ops (suc fuel) inode ofs s ≡ done ofs s1
  unfolding free_slot
  free_slot-end fuel ofs s s1 e = rw e refl

  free_slot-free :
      (fuel ofs : ℕ) (s s1 : Fs St) (entry : DirEntry)
      → read_entry_at ops inode ofs s ≡ done (some entry) s1
      → entry.in_use ≡ false
      → free_slot ops (suc fuel) inode ofs s ≡ done ofs s1
  unfolding free_slot
  free_slot-free fuel ofs s s1 entry e m = rw e (rw m refl)

  free_slot-next :
      (fuel ofs : ℕ) (s s1 : Fs St) (entry : DirEntry)
      → read_entry_at ops inode ofs s ≡ done (some entry) s1
      → entry.in_use ≡ true
      → free_slot ops (suc fuel) inode ofs s ≡ free_slot ops fuel inode (ofs + entry_size) s1
  unfolding free_slot
  free_slot-next fuel ofs s s1 entry e m = rw e (rw m refl)

  -- What the search from entry `k` on returns.
  abbrev pub Places : ℕ → Fs St → Run (Fs St) ℕ → Type 0
  Places k s run =
      (ofs : ℕ) × IsFreeSlot f size k ofs × Returns run ofs (After ops inode size f P file s)

  pub free_slot-IsFreeSlot :
      (fuel k : ℕ) (s : Fs St)
      → fuel ≢ 0
      → size < entry_size * (k + fuel)
      → P s.under
      → Places k s (free_slot ops fuel inode (entry_size * k) s)
  free_slot-IsFreeSlot zero k s ne h p = absurd (ne refl)
  free_slot-IsFreeSlot (suc fuel) k s ne h p =
      elim (Bool-cases (leb (entry_size * k + entry_size) size)) [
        | inr e ↦
            let short : size < entry_size * k + entry_size = ground arith in
            let (s1, r, a) = read_entry_at-short ops inode size f P file k s p short in
            (
              entry_size * k,
              (k, omega arith, refl, (λ i ki ik. absurd (omega arith)), inr short),
              (s1, free_slot-end fuel (entry_size * k) s s1 r, a),
            )
        | inl e ↦
            let fits : entry_size * k + entry_size ≤ size = ground arith in
            let (s1, r, a) = read_entry_at-full ops inode size f P file k s p fits in
            elim (Bool-cases (entry_of f k).in_use) [
              | inr m ↦ (
                entry_size * k,
                (k, omega arith, refl, (λ i ki ik. absurd (omega arith)), inl (fits, m)),
                (s1, free_slot-free fuel (entry_size * k) s s1 (entry_of f k) r m, a),
              )
              | inl m ↦
                  let z : entry_size * suc k ≡ entry_size * k + entry_size = omega arith in
                  let (ofs, free, (s2, e2, a2)) =
                    free_slot-IsFreeSlot fuel (suc k) s1 (omega arith) (omega arith) a.0 in
                  (
                    ofs,
                    IsFreeSlot-later f size k ofs fits m free,
                    (
                      s2,
                      free_slot-next fuel (entry_size * k) s s1 (entry_of f k) r m
                          ∙ ap (λ o. free_slot ops fuel inode o s1) (sym z)
                          ∙ e2,
                      After-trans ops inode size f P file s s1 s2 a a2,
                    ),
                  )
            ]
      ]

module _ {St : Type 0} (io : Sectors St) {Shows : (ℕ → Option Bytes) → St → Type 0}
    (ok : IsSectors io Shows) (free_map_allocate : St → Run St (Option ℕ))
    (free_map_release : ℕ → St → Run St (Unit {0})) (view : ℕ → Option Bytes) (address : ℕ)
    (inode : Inode) where
  -- Where the sectors show the layout of an open inode: the search of `dir_add` ends, with the rounds
  -- that it gets, at the offset of an entry that is not in use, the first one, or behind the last whole
  -- entry if all are in use; the sectors, the files, the directories and the table of files are
  -- as before.
  pub free_slot-inode_read_at :
      (s : Fs (Table St)) (lay : IsLayout view inode.body)
      → IsOpen io ok free_map_allocate free_map_release view address inode s.under
      → Places
          (inode_ops io free_map_allocate free_map_release)
          address
          inode.body.length_bytes
          (byte_at view inode.body)
          (IsOpen io ok free_map_allocate free_map_release view address inode)
          (inode_ops-IsFile io ok free_map_allocate free_map_release view address inode lay)
          0
          s
          (free_slot
            (inode_ops io free_map_allocate free_map_release)
            (inode.body.length_bytes + 1)
            address
            0
            s)
  free_slot-inode_read_at s lay p =
      free_slot-IsFreeSlot (inode_ops io free_map_allocate free_map_release) address
        inode.body.length_bytes (byte_at view inode.body)
        (IsOpen io ok free_map_allocate free_map_release view address inode)
        (inode_ops-IsFile io ok free_map_allocate free_map_release view address inode lay)
        (inode.body.length_bytes + 1) 0 s (omega arith) (omega arith) p
