-- ===== src/A3/FileSys/Hidden.antt =====
-- The range that `recover_past_end` of a3/fs/fsutil2.c takes from a sector.
use comp.Prelude.{
  ℕ, zero, suc, ◌+◌, ◌-◌, ◌<◌, ◌≤◌, ◌≡◌, ◌≢◌, ◌⊎◌, ◌∙◌, inl, inr, refl, sym, ap, true, Option, none,
  some, [], ◌∷◌, arith, length, get_or, drop, ◌==◌, ltb, if◌then◌else◌, Bool-cases,
}
use comp.Prelude.Windows.{get_or-drop, length-drop}
use comp.A3.Bytes.{Bytes}
use comp.A3.FileSys.Tools.{first_byte, last_byte, range_of, hidden_range}

-- What the first loop finds from position `y` on.
abbrev IsFirstByte : ℕ → Bytes → Option ℕ → Type 0
IsFirstByte y b none = (k : ℕ) → get_or b k 0 ≡ 0
IsFirstByte y b (some p) =
    (k : ℕ) × (p ≡ y + k)
    × (k < length b)
    × (get_or b k 0 ≢ 0)
    × ((i : ℕ) → i < k → get_or b i 0 ≡ 0)

all_zero_cons :
    (b : ℕ) (r : Bytes) → b ≡ 0 → ((k : ℕ) → get_or r k 0 ≡ 0) → (k : ℕ) → get_or (b ∷ r) k 0 ≡ 0
all_zero_cons b r z h zero = z
all_zero_cons b r z h (suc k) = h k

below_cons :
    (b : ℕ) (r : Bytes) (k : ℕ)
    → b ≡ 0
    → ((i : ℕ) → i < k → get_or r i 0 ≡ 0)
    → (i : ℕ) → i < suc k
    → get_or (b ∷ r) i 0 ≡ 0
below_cons b r k z h zero lt = z
below_cons b r k z h (suc i) lt = h i (omega arith)

IsFirstByte-later :
    (y b : ℕ) (r : Bytes) (o : Option ℕ) → b ≡ 0 → IsFirstByte (y + 1) r o → IsFirstByte y (b ∷ r) o
IsFirstByte-later y b r none z h = λ k. all_zero_cons b r z h k
IsFirstByte-later y b r (some p) z (k, e, lt, ne, before) =
    (suc k, omega arith, omega arith, ne, λ i h. below_cons b r k z before i h)

last_byte-head :
    (z end' b : ℕ) (r : Bytes) (e : ℕ)
    → end' ≤ e
    → ((k : ℕ) → get_or r k 0 ≢ 0 → z + 1 + k < e)
    → (b ≢ 0 → end' ≡ z + 1)
    → (k : ℕ) → get_or (b ∷ r) k 0 ≢ 0
    → z + k < e
last_byte-head z end' b r e lo cover here zero ne = let x = here ne in omega arith
last_byte-head z end' b r e lo cover here (suc k) ne = let x = cover k ne in omega arith

first_byte-IsFirstByte : (y : ℕ) (b : Bytes) → IsFirstByte y b (first_byte y b)
unfolding first_byte
first_byte-IsFirstByte y [] = λ k. refl
first_byte-IsFirstByte y (b ∷ r) = elim (Bool-cases (b == 0)) [
  | inr e ↦ rw e (0, omega arith, omega arith, (ground arith), λ i h. absurd (omega arith))
  | inl e ↦ rw e (
      IsFirstByte-later y b r (first_byte (y + 1) r) (ground arith)
        (first_byte-IsFirstByte (y + 1) r))
]

-- Once the end is not past the position, it covers all bytes from there on that are not 0.
last_byte-covers :
    (end z : ℕ) (b : Bytes)
    → end ≤ z
    → (end ≤ last_byte end z b)
      × (last_byte end z b ≤ z + length b)
      × ((k : ℕ) → get_or b k 0 ≢ 0 → z + k < last_byte end z b)
unfolding last_byte
last_byte-covers end z [] h = (omega arith, omega arith, λ k ne. absurd (ne refl))
last_byte-covers end z (b ∷ r) h =
    let end' : ℕ = if b == 0 then end else z + 1 in
    let small : end' ≤ z + 1 = ground arith in
    let more : end ≤ end' = ground arith in
    let (lo, hi, cover) = last_byte-covers end' (z + 1) r small in
    (
      omega arith,
      omega arith,
      λ k ne. last_byte-head z end' b r _ lo cover (λ nz. (ground arith)) k ne,
    )

last_byte-zeros : (end z : ℕ) (b : Bytes) → ((k : ℕ) → get_or b k 0 ≡ 0) → last_byte end z b ≡ end
unfolding last_byte
last_byte-zeros end z [] h = refl
last_byte-zeros end z (b ∷ r) h =
    let here : (b == 0) ≡ true = (let x = h 0 in ground arith) in
    rw here (last_byte-zeros end (z + 1) r (λ k. h (suc k)))

-- The bytes of a sector from `start` on that are not 0 are all in the range, which lies behind
-- `start` and inside the sector, or is empty.
abbrev pub IsRange : ℕ → Bytes → ℕ × ℕ → Type 0
IsRange start b range =
    (start ≤ range.0)
    × ((range.1 ≤ length b) ⊎ (range.0 ≡ range.1))
    × ((p : ℕ) → start ≤ p → get_or b p 0 ≢ 0 → (range.0 ≤ p) × (p < range.1))

range_of-IsRange :
    (start : ℕ) (b : Bytes) (o : Option ℕ)
    → IsFirstByte start (drop start b) o
    → IsRange start b (range_of start b o)
unfolding range_of
range_of-IsRange start b none h =
    let flat = last_byte-zeros start (start + 1) (drop (start + 1) b) (λ k.
      (let e : start + 1 + k ≡ start + (1 + k) = omega arith in
        get_or-drop (start + 1) k b 0
        ∙ ap (λ q. get_or b q 0) e
        ∙ sym (get_or-drop start (1 + k) b 0)
        ∙ h (1 + k))) in
    (
      omega arith,
      inr (sym flat),
      λ p le ne. absurd (
          ne (
            let e : p ≡ start + (p - start) = omega arith in
            ap (λ q. get_or b q 0) e ∙ sym (get_or-drop start (p - start) b 0) ∙ h (p - start))),
    )
range_of-IsRange start b (some y) (k, at_y, lt, ne_y, before) =
    let (lo, hi, cover) = last_byte-covers (y + 1) (y + 1) (drop (y + 1) b) (omega arith) in
    let l = length-drop start b in
    let l' = length-drop (y + 1) b in
    (
      omega arith,
      inl (omega (arith, l, l')),
      λ p le ne. elim (Bool-cases (ltb p (y + 1))) [
        | inl e ↦ elim (Bool-cases (ltb p y)) [
          | inl f ↦
              let z : p ≡ start + (p - start) = omega arith in
              absurd (
                ne (
                  ap (λ q. get_or b q 0) z
                  ∙ sym (get_or-drop start (p - start) b 0)
                  ∙ before (p - start) (ground arith)))
          | inr f ↦ (ground arith, ground arith)
        ]
        | inr e ↦
            let past : y + 1 ≤ p = ground arith in
            let z : p ≡ y + 1 + (p - (y + 1)) = omega arith in
            let x = cover (p - (y + 1)) (λ q.
              ne (ap (λ i. get_or b i 0) z ∙ sym (get_or-drop (y + 1) (p - (y + 1)) b 0) ∙ q)) in
            (omega arith, omega arith)
      ],
    )

-- Of a sector: the bytes from `start` on that are not 0 all lie in the range that
-- `recover_past_end` writes out; the range is behind `start` and inside the sector, or empty.
pub hidden_range-IsRange : (start : ℕ) (b : Bytes) → IsRange start b (hidden_range start b)
unfolding hidden_range
hidden_range-IsRange start b =
    range_of-IsRange start b (first_byte start (drop start b))
      (first_byte-IsFirstByte start (drop start b))
