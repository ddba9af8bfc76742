-- ===== src/A3/Inode/Rows.antt =====
-- The entries of the index blocks of an inode, a3/fs/inode.c, as windows of its data sectors.
use comp.Prelude.{
  ℕ, ◌+◌, ◌-◌, ◌*◌, ◌/◌, ◌%◌, ◌<◌, ◌≤◌, ◌≡◌, ◌⊎◌, ◌∙◌, inl, inr, refl, sym, ap, Option, ◌++◌, arith,
  length, take,
}
use comp.Prelude.Windows.{window, window-append, window_ext, window_agree, length-take, get_or-take}
use comp.A3.Bytes.{Bytes, word_at}
use comp.A3.Inode.{InodeDisk, direct_blocks_count}
use comp.A3.Inode.Layout.{
  contents, entry, second_level, sector_of, sector_of-direct, sector_of-single, sector_of-double,
}

pub window-join :
    (f : ℕ → ℕ) (o sub num p : ℕ)
    → sub ≤ num
    → (num - sub ≡ 0) ⊎ (o + sub ≡ p)
    → window f o sub ++ window f p (num - sub) ≡ window f o num
window-join f o sub num p le h =
    let z : sub + (num - sub) ≡ num = omega arith in
    let rest : window f p (num - sub) ≡ window f (o + sub) (num - sub) = elim h [
      | inl e ↦ rw e refl
      | inr e ↦ rw e refl
    ] in
    rw rest (sym (window-append f o sub (num - sub))) ∙ ap (λ n. window f o n) z

module _ (view : ℕ → Option Bytes) (d : InodeDisk) where
  pub word_at-row :
      (i : ℕ)
      → word_at (contents (view d.doubly_indirect_block)) i ≡ second_level view d (251 + 128 * i)
  unfolding second_level entry
  word_at-row i =
      let z : i ≡ (251 + 128 * i - 251) / 128 = omega arith in
      ap (λ k. word_at (contents (view d.doubly_indirect_block)) k) z

  pub direct-window :
      (l : ℕ)
      → length d.direct_blocks ≡ direct_blocks_count
      → l ≤ 123
      → take l d.direct_blocks ≡ window (sector_of view d) 0 l
  direct-window l n h =
      let t = length-take l d.direct_blocks (omega (arith, n)) in
      sym (
        ap (λ m. window (sector_of view d) 0 m) (sym t)
        ∙ window_ext (sector_of view d) 0 0 (take l d.direct_blocks) (λ k lt.
          (let z : 0 + k ≡ k = omega arith in
            ap (sector_of view d) z
            ∙ sector_of-direct view d k (omega (arith, t))
            ∙ sym (get_or-take l k d.direct_blocks 0 (omega (arith, t))))))

  pub single-window :
      (l : ℕ)
      → l ≤ 128
      → window (word_at (contents (view d.indirect_block))) 0 l ≡ window (sector_of view d) 123 l
  unfolding entry
  single-window l h =
      window_agree (word_at (contents (view d.indirect_block))) (sector_of view d) 0 123 l (λ k lt.
        (let z : 0 + k ≡ 123 + k - 123 = omega arith in
          ap (word_at (contents (view d.indirect_block))) z
          ∙ sym (sector_of-single view d (123 + k) (omega arith) (omega arith))))

  second_level-row :
      (i k : ℕ)
      → k < 128
      → second_level view d (251 + 128 * i + k) ≡ second_level view d (251 + 128 * i)
  unfolding second_level
  second_level-row i k h =
      let z : (251 + 128 * i + k - 251) / 128 ≡ (251 + 128 * i - 251) / 128 = omega arith in
      ap (λ q. entry view d.doubly_indirect_block q) z

  pub second-window :
      (i l : ℕ)
      → l ≤ 128
      → 251 + 128 * i + l ≤ 16635
      → window (word_at (contents (view (second_level view d (251 + 128 * i))))) 0 l
        ≡ window (sector_of view d) (251 + 128 * i) l
  unfolding entry
  second-window i l h top =
      let t = second_level view d (251 + 128 * i) in
      window_agree (word_at (contents (view t))) (sector_of view d) 0 (251 + 128 * i) l (λ k lt.
        (let z : 0 + k ≡ (251 + 128 * i + k - 251) % 128 = omega arith in
          ap (λ q. word_at (contents (view t)) q) z
          ∙ ap (λ s. entry view s ((251 + 128 * i + k - 251) % 128))
              (sym (second_level-row i k (omega arith)))
          ∙ sym (sector_of-double view d (251 + 128 * i + k) (omega arith) (omega arith))))
