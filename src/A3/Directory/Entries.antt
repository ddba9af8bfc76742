-- ===== src/A3/Directory/Entries.antt =====
-- `lookup` of a3/fs/directory.c finds the first entry of a name, over a file whose bytes are `f`.
use comp.Prelude.{
  ℕ, zero, suc, ◌+◌, ◌*◌, ◌<◌, ◌≤◌, ◌≡◌, ◌≢◌, ◌∙◌, inl, inr, refl, sym, ap, Bool, true, false, ◌&&◌,
  Option, none, some, arith, ◌==◌, leb, Bool-cases, [], ◌∷◌, length,
}
use comp.Prelude.Windows.{window}
use comp.Prelude.Int.{pos}
use comp.Prelude.Text.{Text}
use comp.Prelude.Run.{Run, done, Returns}
use comp.A3.Bytes.{Bytes}
use comp.A3.Inode.{Inode, min}
use comp.A3.Inode.Read.{in_reach}
use comp.A3.OpenInodes.{InodeOps}
use comp.A3.Files.{Fs}
use comp.A3.Directory.{
  DirEntry, decode_entry, compare_name, is_same, is_past, name_max, entry_size, read_entry_at,
  lookup_loop, lookup,
}

module _ {St : Type 0} (ops : InodeOps St) (inode size : ℕ) (f : ℕ → ℕ) (P : St → Type 0) where
  -- `inode_read_at` reads the bytes `f` of a file of `size` bytes.
  pub record IsFile : Type 0 where
    pub reads :
        (offset : ℕ) (st : St)
        → P st
        → Returns
            (ops.read_at inode entry_size (pos offset) st)
            (in_reach size entry_size offset, window f offset (in_reach size entry_size offset))
            P
    pub peeks :
        (st : St)
        → P st
        → (i : Inode) × (i.body.length_bytes ≡ size) × Returns (ops.peek inode st) i P

-- Entry `k` of the bytes, and whether it is in use for the name.
unfoldable pub entry_of : (ℕ → ℕ) → ℕ → DirEntry
unfolding decode_entry
entry_of f k = decode_entry (window f (entry_size * k) entry_size)

unfoldable pub matches : (ℕ → ℕ) → Text → ℕ → Bool
matches f name k = (entry_of f k).in_use && is_same (compare_name name (entry_of f k).name)

-- A name that fits the array is not compared behind the entry.
compare_name-inside :
    (name : Text) (b : Bytes) → length name ≤ length b → is_past (compare_name name b) ≡ false
unfolding compare_name
compare_name-inside [] [] h = refl
compare_name-inside (c ∷ r) [] h = absurd (omega arith)
compare_name-inside [] (d ∷ s) h = ground arith
compare_name-inside (c ∷ r) (d ∷ s) h =
    let rest = compare_name-inside r s (omega arith) in ground arith

length-name : (f : ℕ → ℕ) (k : ℕ) → length (entry_of f k).name ≡ name_max + 1
unfolding entry_of
length-name f k = refl

entry_of-inside :
    (f : ℕ → ℕ) (k : ℕ) (name : Text)
    → length name ≤ name_max + 1
    → ((entry_of f k).in_use && is_past (compare_name name (entry_of f k).name)) ≡ false
entry_of-inside f k name h =
    let inside = compare_name-inside name (entry_of f k).name (omega (arith, length-name f k)) in
    ground arith

-- The first entry from `k` on that matches, with its offset.
abbrev pub IsFirst : (ℕ → ℕ) → ℕ → Text → ℕ → Option (DirEntry × ℕ) → Type 0
IsFirst f size name k none =
    (j : ℕ) → k ≤ j → entry_size * j + entry_size ≤ size → matches f name j ≡ false
IsFirst f size name k (some (e, ofs)) =
    (j : ℕ) × (k ≤ j)
    × (ofs ≡ entry_size * j)
    × (entry_size * j + entry_size ≤ size)
    × (e ≡ entry_of f j)
    × (matches f name j ≡ true)
    × ((i : ℕ) → k ≤ i → i < j → matches f name i ≡ false)

reach-full :
    (size k : ℕ)
    → entry_size * k + entry_size ≤ size
    → in_reach size entry_size (entry_size * k) ≡ entry_size
unfolding in_reach min
reach-full size k h = ground arith

reach-short :
    (size k : ℕ)
    → size < entry_size * k + entry_size
    → (in_reach size entry_size (entry_size * k) == entry_size) ≡ false
unfolding in_reach min
reach-short size k h = ground arith

IsFirst-later :
    (f : ℕ → ℕ) (size : ℕ) (name : Text) (k : ℕ) (r : Option (DirEntry × ℕ))
    → matches f name k ≡ false
    → IsFirst f size name (suc k) r
    → IsFirst f size name k r
IsFirst-later f size name k none m h = λ j le fits. elim (Bool-cases (j == k)) [
  | inl e ↦ let z : j ≡ k = ground arith in rw z m
  | inr e ↦ h j (ground arith) fits
]
IsFirst-later f size name k (some (e, ofs)) m (j, le, o, fits, is, yes', before) = (
  j,
  omega arith,
  o,
  fits,
  is,
  yes',
  λ i ki ij. elim (Bool-cases (i == k)) [
    | inl eq ↦ let z : i ≡ k = ground arith in rw z m
    | inr ne ↦ before i (ground arith) ij
  ],
)

module _ {St : Type 0} (ops : InodeOps St) (inode size : ℕ) (f : ℕ → ℕ) (P : St → Type 0)
    (file : IsFile ops inode size f P) where
  -- Of the state, only what is below the files has changed.
  abbrev pub After : Fs St → Fs St → Type 0
  After s s' = P s'.under × (s' ≡ record s { under = s'.under })

  pub read_entry_at-full :
      (k : ℕ) (s : Fs St)
      → P s.under
      → entry_size * k + entry_size ≤ size
      → Returns (read_entry_at ops inode (entry_size * k) s) (some (entry_of f k)) (After s)
  unfolding read_entry_at entry_of
  read_entry_at-full k s p h =
      let (st, e, p') = file.reads (entry_size * k) s.under p in
      let full = reach-full size k h in
      let same : (entry_size == entry_size) ≡ true = refl in
      (record s { under = st }, rw (e, full) refl, (p', refl))

  pub read_entry_at-short :
      (k : ℕ) (s : Fs St)
      → P s.under
      → size < entry_size * k + entry_size
      → Returns (read_entry_at ops inode (entry_size * k) s) none (After s)
  unfolding read_entry_at
  read_entry_at-short k s p h =
      let (st, e, p') = file.reads (entry_size * k) s.under p in
      let short = reach-short size k h in (record s { under = st }, rw (e, short) refl, (p', refl))

  lookup-end :
      (fuel ofs : ℕ) (name : Text) (s s1 : Fs St)
      → read_entry_at ops inode ofs s ≡ done none s1
      → lookup_loop ops (suc fuel) inode name ofs s ≡ done none s1
  unfolding lookup_loop
  lookup-end fuel ofs name s s1 e = rw e refl

  lookup-hit :
      (fuel ofs : ℕ) (name : Text) (s s1 : Fs St) (entry : DirEntry)
      → read_entry_at ops inode ofs s ≡ done (some entry) s1
      → (entry.in_use && is_past (compare_name name entry.name)) ≡ false
      → (entry.in_use && is_same (compare_name name entry.name)) ≡ true
      → lookup_loop ops (suc fuel) inode name ofs s ≡ done (some (entry, ofs)) s1
  unfolding lookup_loop
  lookup-hit fuel ofs name s s1 entry e q m = rw e (rw (q, m) refl)

  lookup-next :
      (fuel ofs : ℕ) (name : Text) (s s1 : Fs St) (entry : DirEntry)
      → read_entry_at ops inode ofs s ≡ done (some entry) s1
      → (entry.in_use && is_past (compare_name name entry.name)) ≡ false
      → (entry.in_use && is_same (compare_name name entry.name)) ≡ false
      → lookup_loop ops (suc fuel) inode name ofs s
        ≡ lookup_loop ops fuel inode name (ofs + entry_size) s1
  unfolding lookup_loop
  lookup-next fuel ofs name s s1 entry e q m = rw e (rw (q, m) refl)

  pub After-trans : (s s1 s2 : Fs St) → After s s1 → After s1 s2 → After s s2
  After-trans s s1 s2 a b = (b.0, b.1 ∙ ap (λ (t : Fs St). record t { under = s2.under }) a.1)

  -- What a lookup returns.
  abbrev pub Finds : ℕ → Text → Fs St → Run (Fs St) (Option (DirEntry × ℕ)) → Type 0
  Finds k name s run =
      (r : Option (DirEntry × ℕ)) × IsFirst f size name k r × Returns run r (After s)

  -- With fuel for a round for each entry from `k` on and one.
  lookup_loop-IsFirst :
      (fuel k : ℕ) (name : Text) (s : Fs St)
      → fuel ≢ 0
      → size < entry_size * (k + fuel)
      → length name ≤ name_max + 1
      → P s.under
      → Finds k name s (lookup_loop ops fuel inode name (entry_size * k) s)
  lookup_loop-IsFirst zero k name s ne h fit p = absurd (ne refl)
  lookup_loop-IsFirst (suc fuel) k name s ne h fit p =
      elim (Bool-cases (leb (entry_size * k + entry_size) size)) [
        | inr e ↦
            let short : size < entry_size * k + entry_size = ground arith in
            let (s1, r, a) = read_entry_at-short k s p short in
            (
              none,
              (λ j le fits. absurd (omega arith)),
              (s1, lookup-end fuel (entry_size * k) name s s1 r, a),
            )
        | inl e ↦
            let fits : entry_size * k + entry_size ≤ size = ground arith in
            let (s1, r, a) = read_entry_at-full k s p fits in
            elim (Bool-cases (matches f name k)) [
              | inl m ↦ (
                some (entry_of f k, entry_size * k),
                (k, omega arith, refl, fits, refl, m, λ i ki ik. absurd (omega arith)),
                (
                  s1,
                  lookup-hit fuel (entry_size * k) name s s1 (entry_of f k) r
                      (entry_of-inside f k name fit) (unfold matches in m),
                  a,
                ),
              )
              | inr m ↦
                  let z : entry_size * suc k ≡ entry_size * k + entry_size = omega arith in
                  let (found, first, (s2, e2, a2)) =
                    lookup_loop-IsFirst fuel (suc k) name s1 (omega arith) (omega arith) fit a.0 in
                  (
                    found,
                    IsFirst-later f size name k found m first,
                    (
                      s2,
                      lookup-next fuel (entry_size * k) name s s1 (entry_of f k) r
                            (entry_of-inside f k name fit) (unfold matches in m)
                          ∙ ap (λ o. lookup_loop ops fuel inode name o s1) (sym z)
                          ∙ e2,
                      After-trans s s1 s2 a a2,
                    ),
                  )
            ]
      ]

  lookup-step :
      (name : Text) (s s1 : Fs St) (i : Inode) (st : St)
      → ops.peek inode s.under ≡ done i st
      → s1 ≡ record s { under = st }
      → lookup ops inode name s ≡ lookup_loop ops (i.body.length_bytes + 1) inode name entry_size s1
  unfolding lookup
  lookup-step name s s1 i st e same = rw (e, same) refl

  -- Where `inode_read_at` reads the bytes of a directory and the name has at most 31 bytes: `lookup`
  -- ends, and returns the first
  -- entry behind the parent's that is in use and has the name, with its offset, and nothing exactly
  -- where there is none; the files, the directories and the table are as before.
  pub lookup-IsFirst :
      (name : Text) (s : Fs St)
      → length name ≤ name_max + 1
      → P s.under
      → Finds 1 name s (lookup ops inode name s)
  lookup-IsFirst name s fit p =
      let (i, n, (st, e, p')) = file.peeks s.under p in
      let s1 = record s { under = st } in
      let (r, first, (s2, e2, a2)) =
        lookup_loop-IsFirst (i.body.length_bytes + 1) 1 name s1 (omega arith) (omega (arith, n)) fit
          p' in
      (r, first, (s2, lookup-step name s s1 i st e refl ∙ e2, After-trans s s1 s2 (p', refl) a2))
