-- ===== src/A3/Inode/Encoding.antt =====
-- The format of a `struct inode_disk` in its sector, a3/fs/inode.h.
use comp.Prelude.{
  ℕ, ◌+◌, ◌%◌, ◌<◌, ◌≡◌, ◌∙◌, refl, sym, ap, Bool, true, false, not, List, [], ◌∷◌, ◌++◌, arith,
  length, get_or, All, ◌==◌, length-append,
}
use comp.Prelude.Windows.{window, window_ext, get_or-append_left, get_or-append_right}
use comp.A3.Bytes.{
  IsWord, word_at, length-words_bytes, word_at-words_bytes, get_or-words_bytes, block_sector_size,
}
use comp.A3.Inode.{InodeDisk, encode_inode, decode_inode, bool_word, direct_blocks_count}

-- Every field is a word, and there are as many direct blocks as the struct has.
pub record IsPacked (d : InodeDisk) : Type 0 where
  pub direct : All IsWord d.direct_blocks
  pub count : length d.direct_blocks ≡ direct_blocks_count
  pub indirect : IsWord d.indirect_block
  pub doubly : IsWord d.doubly_indirect_block
  pub size : IsWord d.length_bytes
  pub number : IsWord d.magic

All-append : (P : ℕ → Type 0) (xs ys : List ℕ) → All P xs → All P ys → All P (xs ++ ys)
All-append P [] ys all h = h
All-append P (x ∷ xs) ys all h = (all.0, All-append P xs ys all.1 h)

abbrev tail_words : InodeDisk → List ℕ
tail_words d =
    d.indirect_block ∷ d.doubly_indirect_block ∷ bool_word d.is_dir ∷ d.length_bytes ∷ d.magic ∷ []

bool_word-IsWord : (b : Bool) → IsWord (bool_word b)
bool_word-IsWord true = omega arith
bool_word-IsWord false = omega arith

bool_word-back : (b : Bool) → not (bool_word b % 256 == 0) ≡ b
bool_word-back true = refl
bool_word-back false = refl

module _ (d : InodeDisk) (ok : IsPacked d) where
  words-IsWord : All IsWord (d.direct_blocks ++ tail_words d)
  words-IsWord =
      All-append IsWord d.direct_blocks (tail_words d) ok.direct
        (ok.indirect, (ok.doubly, (bool_word-IsWord d.is_dir, (ok.size, (ok.number, tt)))))

  length-words : length (d.direct_blocks ++ tail_words d) ≡ 128
  length-words =
      let n = ok.count in
      let e = length-append d.direct_blocks (tail_words d) in omega (arith, n, e)

  -- The words behind the direct blocks.
  word_at-tail :
      (k i : ℕ) → k ≡ 123 + i → k < 128 → word_at (encode_inode d) k ≡ get_or (tail_words d) i 0
  unfolding encode_inode
  word_at-tail k i e h =
      let n = ok.count in
      word_at-words_bytes (d.direct_blocks ++ tail_words d) k words-IsWord
        (let l = length-words in omega (arith, l))
      ∙ get_or-append_right d.direct_blocks (tail_words d) k i 0 (omega (arith, n))

  is_dir_byte : get_or (encode_inode d) 500 0 ≡ bool_word d.is_dir % 256
  unfolding encode_inode
  is_dir_byte =
      let n = ok.count in
      let l = length-words in
      get_or-words_bytes (d.direct_blocks ++ tail_words d) 125 (omega (arith, l))
      ∙ ap (λ w. w % 256)
          (get_or-append_right d.direct_blocks (tail_words d) 125 2 0 (omega (arith, n)))

  window-direct : window (word_at (encode_inode d)) 0 direct_blocks_count ≡ d.direct_blocks
  unfolding encode_inode
  window-direct =
      ap (λ n. window (word_at (encode_inode d)) 0 n) (sym ok.count)
      ∙ window_ext (word_at (encode_inode d)) 0 0 d.direct_blocks (λ k h.
        let l = length-words in
        let n = ok.count in
        let z : 0 + k ≡ k = omega arith in
        rw z (
          word_at-words_bytes (d.direct_blocks ++ tail_words d) k words-IsWord (omega (arith, l, n))
          ∙ get_or-append_left d.direct_blocks (tail_words d) k 0 h))

  -- An inode is one sector long.
  pub length-encode_inode : length (encode_inode d) ≡ block_sector_size
  unfolding encode_inode
  length-encode_inode =
      let l = length-words in
      length-words_bytes (d.direct_blocks ++ tail_words d) ∙ omega (arith, l)

  -- An inode whose fields are 32-bit words and that has 123 direct blocks is read back from its
  -- sector as it was written.
  pub decode_inode-encode_inode : decode_inode (encode_inode d) ≡ d
  unfolding decode_inode
  decode_inode-encode_inode =
      rw
        (
          window-direct,
          word_at-tail 123 0 refl (omega arith),
          word_at-tail 124 1 refl (omega arith),
          is_dir_byte,
          word_at-tail 126 3 refl (omega arith),
          word_at-tail 127 4 refl (omega arith),
          bool_word-back d.is_dir,
        )
        refl
