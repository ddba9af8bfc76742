-- ===== src/A3/Bytes.antt =====
-- Sectors of the file system as the C code sees them: 512 bytes, or 128 little-endian words.
use comp.Prelude.{
  ℕ, zero, suc, ◌+◌, ◌*◌, ◌/◌, ◌%◌, ◌<◌, ◌≡◌, ◌∙◌, refl, List, [], ◌∷◌, ◌++◌, arith, length, get_or,
  All,
}
use comp.Prelude.Windows.{get_or-append_right}

abbrev pub Bytes : Type 0
Bytes = List ℕ

-- `BLOCK_SECTOR_SIZE` of a3/fs/block.h
abbrev pub block_sector_size : ℕ
block_sector_size = 512

-- The bytes of a `uint32_t`.
abbrev pub word_bytes : ℕ → Bytes
word_bytes w = (w % 256) ∷ (w / 256 % 256) ∷ (w / 65536 % 256) ∷ (w / 16777216 % 256) ∷ []

unfoldable pub words_bytes : List ℕ → Bytes
words_bytes [] = []
words_bytes (w ∷ ws) = word_bytes w ++ words_bytes ws

-- Word `k` of an array of `uint32_t`.
unfoldable pub word_at : Bytes → ℕ → ℕ
word_at b k =
    get_or b (4 * k) 0
    + 256 * get_or b (4 * k + 1) 0
    + 65536 * get_or b (4 * k + 2) 0
    + 16777216 * get_or b (4 * k + 3) 0

abbrev pub IsWord : ℕ → Type 0
IsWord w = w < 4294967296

pub length-words_bytes : (ws : List ℕ) → length (words_bytes ws) ≡ 4 * length ws
unfolding words_bytes
length-words_bytes [] = refl
length-words_bytes (w ∷ ws) = omega (arith, length-words_bytes ws)

word_at-head : (w : ℕ) (r : Bytes) → IsWord w → word_at (word_bytes w ++ r) zero ≡ w
unfolding word_at
word_at-head w r lt = omega arith

word_at-skip : (w : ℕ) (r : Bytes) (k : ℕ) → word_at (word_bytes w ++ r) (suc k) ≡ word_at r k
unfolding word_at
word_at-skip w r k =
    let b0 = get_or-append_right (word_bytes w) r (4 * suc k) (4 * k) 0 (omega arith) in
    let b1 = get_or-append_right (word_bytes w) r (4 * suc k + 1) (4 * k + 1) 0 (omega arith) in
    let b2 = get_or-append_right (word_bytes w) r (4 * suc k + 2) (4 * k + 2) 0 (omega arith) in
    let b3 = get_or-append_right (word_bytes w) r (4 * suc k + 3) (4 * k + 3) 0 (omega arith) in
    omega (arith, b0, b1, b2, b3)

-- The first byte of the `k`-th word of an array.
pub get_or-words_bytes :
    (ws : List ℕ) (k : ℕ) → k < length ws → get_or (words_bytes ws) (4 * k) 0 ≡ get_or ws k 0 % 256
unfolding words_bytes
get_or-words_bytes [] k h = elim h [ ]
get_or-words_bytes (w ∷ ws) zero h = refl
get_or-words_bytes (w ∷ ws) (suc k) h =
    get_or-append_right (word_bytes w) (words_bytes ws) (4 * suc k) (4 * k) 0 (omega arith)
    ∙ get_or-words_bytes ws k (omega arith)

-- The `k`-th word of an array of words.
pub word_at-words_bytes :
    (ws : List ℕ) (k : ℕ)
    → All IsWord ws
    → k < length ws
    → word_at (words_bytes ws) k ≡ get_or ws k 0
unfolding words_bytes
word_at-words_bytes [] k all h = elim h [ ]
word_at-words_bytes (w ∷ ws) zero all h = word_at-head w (words_bytes ws) all.0
word_at-words_bytes (w ∷ ws) (suc k) all h =
    word_at-skip w (words_bytes ws) k ∙ word_at-words_bytes ws k all.1 (omega arith)
