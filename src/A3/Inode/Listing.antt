-- ===== src/A3/Inode/Listing.antt =====
-- `get_inode_data_sectors` of a3/fs/inode.c lists what `index_to_sector` finds.
use comp.Prelude.{
  ℕ, zero, suc, ◌+◌, ◌-◌, ◌*◌, ◌<◌, ◌≤◌, ◌≡◌, ◌⊎◌, ◌∙◌, inl, inr, refl, sym, ap, Option, List, ◌++◌,
  arith, length, get_or, take, ◌==◌, Bool-cases,
}
use comp.Prelude.Windows.{window, length-window, get_or-window}
use comp.Prelude.Run.{done, Returns}
use comp.A3.Bytes.{Bytes, word_at}
use comp.A3.Sectors.{Sectors, IsSectors}
use comp.A3.Inode.{InodeDisk, index_to_sector, direct_blocks_count, min}
use comp.A3.Inode.Layout.{
  contents, HasMap, second_level, sector_of, sector_count, index_to_sector-sector_of,
}
use comp.A3.Inode.Reserve.{div_round_up}
use comp.A3.Inode.Release.{list_second, list_single, list_double, get_inode_data_sectors}
use comp.A3.Inode.Rows.{window-join, word_at-row, direct-window, single-window, second-window}

module _ {St : Type 0} (io : Sectors St) {Shows : (ℕ → Option Bytes) → St → Type 0}
    (ok : IsSectors io Shows) (view : ℕ → Option Bytes) (d : InodeDisk) (n : ℕ)
    (m : HasMap view d n) where
  list_second-step :
      (rounds i num s : ℕ) (b b2 : Bytes) (st st1 st2 : St) (rest : List ℕ)
      → word_at b i ≡ s
      → io.buffer_cache_read s st ≡ done b2 st1
      → list_second io rounds (i + 1) (num - min num 128) b st1 ≡ done rest st2
      → list_second io (suc rounds) i num b st
        ≡ done (window (word_at b2) 0 (min num 128) ++ rest) st2
  unfolding list_second
  list_second-step rounds i num s b b2 st st1 st2 rest e e1 e2 = rw (e, e1, e2) refl

  min-row :
      (rounds num : ℕ)
      → div_round_up num 128 ≡ suc rounds
      → (div_round_up (num - min num 128) 128 ≡ rounds)
        × (min num 128 ≤ 128)
        × (min num 128 ≤ num)
        × (0 < num)
        × ((num - min num 128 ≡ 0) ⊎ (min num 128 ≡ 128))
  unfolding div_round_up min
  min-row rounds num h = ground arith

  none-left : (num : ℕ) → div_round_up num 128 ≡ 0 → num ≡ 0
  unfolding div_round_up
  none-left num h = omega arith

  list_second-window :
      (rounds i num : ℕ) (st : St)
      → div_round_up num 128 ≡ rounds
      → (num ≡ 0) ⊎ (251 + 128 * i + num ≤ n)
      → n ≤ 16635
      → Shows view st
      → Returns
          (list_second io rounds i num (contents (view d.doubly_indirect_block)) st)
          (window (sector_of view d) (251 + 128 * i) num)
          (Shows view)
  list_second-window zero i num st r h top v =
      rw (none-left num r) (st, (unfold list_second in refl), v)
  list_second-window (suc rounds) i num st r h top v =
      let (less, small, le, more, full) = min-row rounds num r in
      let reach : 251 + 128 * i + num ≤ n = elim h [ inl z ↦ absurd (omega arith) | inr g ↦ g ] in
      let sub = min num 128 in
      let s = second_level view d (251 + 128 * i) in
      let b = contents (view d.doubly_indirect_block) in
      let (st1, e1, v1) =
        ok.read_ok view s (contents (view s)) st v
          (m.second (251 + 128 * i) (omega arith) (omega arith) (omega arith)) in
      let (st2, e2, v2) =
        list_second-window rounds (i + 1) (num - sub) st1 less
          (elim full [ inl z ↦ inl z | inr g ↦ inr (omega arith) ]) top v1 in
      (
        st2,
        list_second-step rounds i num s b (contents (view s)) st st1 st2 _ (word_at-row view d i) e1
              e2
            ∙ ap (λ w. done w st2)
                (ap (λ w. w ++ window (sector_of view d) (251 + 128 * (i + 1)) (num - sub))
                    (second-window view d i sub small (omega arith))
                  ∙ window-join (sector_of view d) (251 + 128 * i) sub num (251 + 128 * (i + 1)) le
                      (elim full [ inl z ↦ inl z | inr g ↦ inr (omega arith) ])),
        v2,
      )

  list_single-window :
      (l : ℕ) (st : St)
      → l ≤ 128
      → (l ≡ 0) ⊎ (123 < n)
      → Shows view st
      → Returns (list_single io d l st) (window (sector_of view d) 123 l) (Shows view)
  unfolding list_single
  list_single-window l st small h v = elim (Bool-cases (l == 0)) [
    | inl e ↦ let z : l ≡ 0 = ground arith in rw (e, z) (st, refl, v)
    | inr e ↦
        let above : 123 < n = elim h [ inl z ↦ absurd (ground arith) | inr g ↦ g ] in
        let (st1, e1, v1) =
          ok.read_ok view d.indirect_block (contents (view d.indirect_block)) st v
            (m.single above) in
        rw (e, e1) (st1, ap (λ w. done w st1) (single-window view d l small), v1)
  ]

  list_double-window :
      (l : ℕ) (st : St)
      → (l ≡ 0) ⊎ (251 + l ≤ n)
      → n ≤ 16635
      → Shows view st
      → Returns (list_double io d l st) (window (sector_of view d) 251 l) (Shows view)
  unfolding list_double
  list_double-window l st h top v = elim (Bool-cases (l == 0)) [
    | inl e ↦ let z : l ≡ 0 = ground arith in rw (e, z) (st, refl, v)
    | inr e ↦
        let above : 251 + l ≤ n = elim h [ inl z ↦ absurd (ground arith) | inr g ↦ g ] in
        let (st1, e1, v1) =
          ok.read_ok view d.doubly_indirect_block (contents (view d.doubly_indirect_block)) st v
            (m.double (ground arith)) in
        let z : 251 + 128 * 0 ≡ 251 = omega arith in
        rw (e, e1)
          (rw z at
            (list_second-window (div_round_up l 128) 0 l st1 refl (inr (omega arith)) top v1))
  ]

module _ {St : Type 0} (io : Sectors St) {Shows : (ℕ → Option Bytes) → St → Type 0}
    (ok : IsSectors io Shows) where
  three_parts :
      (n : ℕ)
      → n ≤ 16635
      → let a = min n 123 in
        let b = min (n - a) 128 in
        let c = min (n - a - b) 16384 in
        (a ≤ 123)
        × (b ≤ 128)
        × ((b ≡ 0) ⊎ (123 < n))
        × ((c ≡ 0) ⊎ (251 + c ≤ n))
        × (a ≤ n)
        × ((n - a ≡ 0) ⊎ (0 + a ≡ 123))
        × (b ≤ n - a)
        × ((n - a - b ≡ 0) ⊎ (123 + b ≡ 251))
        × (n - a - b - c ≡ 0)
        × (n - a - b ≡ c)
  unfolding min
  three_parts n h = ground arith

  sectors-step :
      (d : InodeDisk) (st st1 st2 : St) (single double : List ℕ)
      → let n1 = sector_count d in
        let n2 = n1 - min n1 123 in
        let n3 = n2 - min n2 128 in
        list_single io d (min n2 128) st ≡ done single st1
        → list_double io d (min n3 16384) st1 ≡ done double st2
        → n3 - min n3 16384 ≡ 0
        → get_inode_data_sectors io d st
          ≡ done (take (min n1 123) d.direct_blocks ++ (single ++ double)) st2
  unfolding get_inode_data_sectors
  sectors-step d st st1 st2 single double e1 e2 z = rw (e1, e2, z) refl

  sectors-join :
      (view : ℕ → Option Bytes) (d : InodeDisk) (n a b c : ℕ)
      → length d.direct_blocks ≡ direct_blocks_count
      → a ≤ 123
      → a ≤ n
      → (n - a ≡ 0) ⊎ (0 + a ≡ 123)
      → b ≤ n - a
      → (n - a - b ≡ 0) ⊎ (123 + b ≡ 251)
      → n - a - b ≡ c
      → take a d.direct_blocks
          ++ (window (sector_of view d) 123 b ++ window (sector_of view d) 251 c)
        ≡ window (sector_of view d) 0 n
  sectors-join view d n a b c l small le j le2 j2 same =
      let f = sector_of view d in
      ap (λ w. w ++ (window f 123 b ++ window f 251 c)) (direct-window view d a l small)
      ∙ ap (λ m. window f 0 a ++ (window f 123 b ++ window f 251 m)) (sym same)
      ∙ ap (λ w. window f 0 a ++ w) (window-join f 123 b (n - a) 251 le2 j2)
      ∙ window-join f 0 a n 123 le j

  get_inode_data_sectors-window :
      (view : ℕ → Option Bytes) (d : InodeDisk) (st : St)
      → length d.direct_blocks ≡ direct_blocks_count
      → HasMap view d (sector_count d)
      → sector_count d ≤ 16635
      → Shows view st
      → Returns
          (get_inode_data_sectors io d st)
          (window (sector_of view d) 0 (sector_count d))
          (Shows view)
  get_inode_data_sectors-window view d st n m top v =
      let n1 = sector_count d in
      let n2 = n1 - min n1 123 in
      let n3 = n2 - min n2 128 in
      let (small, s2, h2, h3, le, j1, le2, j2, zero_left, same) = three_parts n1 top in
      let (st1, e1, v1) = list_single-window io ok view d n1 m (min n2 128) st s2 h2 v in
      let (st2, e2, v2) = list_double-window io ok view d n1 m (min n3 16384) st1 h3 top v1 in
      (
        st2,
        sectors-step d st st1 st2 _ _ e1 e2 zero_left
            ∙ ap (λ w. done w st2)
                (sectors-join view d n1 (min n1 123) (min n2 128) (min n3 16384) n small le j1 le2
                  j2 same),
        v2,
      )

  -- Where the index blocks of an inode can be read and it has at most 16635 sectors:
  -- `get_inode_data_sectors` returns the sectors with the indices from 0 on, in order, which are
  -- those that `index_to_sector` returns for the indices; the sectors stay as they are.
  pub get_inode_data_sectors-index_to_sector :
      (view : ℕ → Option Bytes) (d : InodeDisk) (st : St)
      → length d.direct_blocks ≡ direct_blocks_count
      → HasMap view d (sector_count d)
      → sector_count d ≤ 16635
      → Shows view st
      → (sectors : List ℕ) × (length sectors ≡ sector_count d)
        × Returns (get_inode_data_sectors io d st) sectors (Shows view)
        × ((i : ℕ) (st' : St)
            → i < sector_count d
            → Shows view st'
            → Returns (index_to_sector io d i st') (get_or sectors i 0) (Shows view))
  get_inode_data_sectors-index_to_sector view d st n m top v =
      let count = sector_count d in
      (
        window (sector_of view d) 0 count,
        length-window (sector_of view d) 0 count,
        get_inode_data_sectors-window view d st n m top v,
        λ i st' h v'.
            (let z : 0 + i ≡ i = omega arith in
              rw (get_or-window (sector_of view d) 0 count i 0 h, z)
                (index_to_sector-sector_of io ok view d count i st' v' m h)),
      )
