-- ===== src/Prelude/Windows.antt =====
-- Parts of lists, and functions on positions read from a position on.
use Prim.Native.Nat.{ℕ, zero, suc, ◌+◌, ◌-◌, ◌≤◌, ◌<◌}
use mathlib.Core.Path.{◌≡◌, refl, ap, ◌∙◌}
use mathlib.Core.Logic.{◌⊎◌}
use mathlib.Core.List.{List, [], ◌∷◌, ◌++◌}
use native.Mathlib.Omega.{arith}
use comp.Prelude.Lists.{length, get_or, take, drop, overwrite}

module _ {ℓ} {A : Type ℓ} where
  pub length-take : (n : ℕ) (xs : List A) → n ≤ length xs → length (take n xs) ≡ n
  length-take zero xs h = refl
  length-take (suc n) [] h = absurd (omega arith)
  length-take (suc n) (x ∷ xs) h = ap suc (length-take n xs (omega arith))

  pub length-drop : (n : ℕ) (xs : List A) → length (drop n xs) ≡ length xs - n
  length-drop zero xs = omega arith
  length-drop (suc n) [] = omega arith
  length-drop (suc n) (x ∷ xs) = omega (arith, length-drop n xs)

  pub length-overwrite : (o : ℕ) (src b : List A) → length (overwrite o src b) ≡ length b
  length-overwrite o src [] = refl
  length-overwrite zero [] (y ∷ b) = refl
  length-overwrite zero (x ∷ src) (y ∷ b) = ap suc (length-overwrite zero src b)
  length-overwrite (suc o) src (y ∷ b) = ap suc (length-overwrite o src b)

  pub get_or-take : (n k : ℕ) (xs : List A) (d : A) → k < n → get_or (take n xs) k d ≡ get_or xs k d
  get_or-take zero k xs d h = elim h [ ]
  get_or-take (suc n) k [] d h = refl
  get_or-take (suc n) zero (x ∷ xs) d h = refl
  get_or-take (suc n) (suc k) (x ∷ xs) d h = get_or-take n k xs d (omega arith)

  pub get_or-drop : (n k : ℕ) (xs : List A) (d : A) → get_or (drop n xs) k d ≡ get_or xs (n + k) d
  get_or-drop zero k xs d = let z : 0 + k ≡ k = omega arith in rw z refl
  get_or-drop (suc n) k [] d = refl
  get_or-drop (suc n) k (x ∷ xs) d =
      let z : suc n + k ≡ suc (n + k) = omega arith in rw z (get_or-drop n k xs d)

  -- Inside the part that is copied.
  pub get_or-overwrite_in :
      (o : ℕ) (src b : List A) (k : ℕ) (d : A)
      → k < length src
      → o + length src ≤ length b
      → get_or (overwrite o src b) (o + k) d ≡ get_or src k d
  get_or-overwrite_in o [] b k d h r = elim h [ ]
  get_or-overwrite_in o (x ∷ src) [] k d h r = absurd (omega arith)
  get_or-overwrite_in zero (x ∷ src) (y ∷ b) zero d h r = refl
  get_or-overwrite_in zero (x ∷ src) (y ∷ b) (suc k) d h r =
      let z : 0 + suc k ≡ suc (0 + k) = omega arith in
      rw z (get_or-overwrite_in zero src b k d (omega arith) (omega arith))
  get_or-overwrite_in (suc o) (x ∷ src) (y ∷ b) k d h r =
      let z : suc o + k ≡ suc (o + k) = omega arith in
      rw z (get_or-overwrite_in o (x ∷ src) b k d h (omega arith))

  pub get_or-overwrite_out :
      (o : ℕ) (src b : List A) (p : ℕ) (d : A)
      → (p < o) ⊎ (o + length src ≤ p)
      → get_or (overwrite o src b) p d ≡ get_or b p d
  get_or-overwrite_out o src [] p d h = refl
  get_or-overwrite_out zero [] (y ∷ b) p d h = refl
  get_or-overwrite_out zero (x ∷ src) (y ∷ b) zero d h = absurd (ground arith)
  get_or-overwrite_out zero (x ∷ src) (y ∷ b) (suc p) d h =
      get_or-overwrite_out zero src b p d (ground arith)
  get_or-overwrite_out (suc o) src (y ∷ b) zero d h = refl
  get_or-overwrite_out (suc o) src (y ∷ b) (suc p) d h =
      get_or-overwrite_out o src b p d (ground arith)

  -- The values of `f` at `n` positions from `o` on.
  abbrev pub window : (ℕ → A) → ℕ → ℕ → List A
  window f o zero = []
  window f o (suc n) = f o ∷ window f (o + 1) n

  pub length-window : (f : ℕ → A) (o n : ℕ) → length (window f o n) ≡ n
  length-window f o zero = refl
  length-window f o (suc n) = ap suc (length-window f (o + 1) n)

  pub window-append :
      (f : ℕ → A) (o a b : ℕ) → window f o (a + b) ≡ window f o a ++ window f (o + a) b
  window-append f o zero b =
      let z : 0 + b ≡ b = omega arith in let y : o + 0 ≡ o = omega arith in rw (z, y) refl
  window-append f o (suc a) b =
      let z : suc a + b ≡ suc (a + b) = omega arith in
      let y : o + suc a ≡ o + 1 + a = omega arith in
      rw (z, y) (ap (λ t. f o ∷ t) (window-append f (o + 1) a b))

  -- A list that has the values of `f` is the window of its length.
  pub window_ext :
      (f : ℕ → A) (d : A) (o : ℕ) (xs : List A)
      → ((k : ℕ) → k < length xs → f (o + k) ≡ get_or xs k d)
      → window f o (length xs) ≡ xs
  window_ext f d o [] h = refl
  window_ext f d o (x ∷ xs) h =
      let head : f (o + 0) ≡ x = h 0 (omega arith) in
      let z : o + 0 ≡ o = omega arith in
      let tail =
        window_ext f d (o + 1) xs (λ k lt.
          (let y : o + 1 + k ≡ o + suc k = omega arith in rw y (h (suc k) (omega arith)))) in
      rw ((rw z at head), tail) refl

  pub get_or-append_left :
      (xs ys : List A) (k : ℕ) (d : A) → k < length xs → get_or (xs ++ ys) k d ≡ get_or xs k d
  get_or-append_left [] ys k d h = elim h [ ]
  get_or-append_left (x ∷ xs) ys zero d h = refl
  get_or-append_left (x ∷ xs) ys (suc k) d h = get_or-append_left xs ys k d (omega arith)

  pub get_or-append_right :
      (xs ys : List A) (n k : ℕ) (d : A) → n ≡ length xs + k → get_or (xs ++ ys) n d ≡ get_or ys k d
  get_or-append_right [] ys n k d e = let z : n ≡ k = omega arith in rw z refl
  get_or-append_right (x ∷ xs) ys zero k d e = absurd (omega arith)
  get_or-append_right (x ∷ xs) ys (suc n) k d e = get_or-append_right xs ys n k d (omega arith)

  -- Windows of two functions that agree there.
  pub window_agree :
      (f g : ℕ → A) (o p n : ℕ)
      → ((k : ℕ) → k < n → f (o + k) ≡ g (p + k))
      → window f o n ≡ window g p n
  window_agree f g o p zero h = refl
  window_agree f g o p (suc n) h =
      let head : f (o + 0) ≡ g (p + 0) = h 0 (omega arith) in
      let z : o + 0 ≡ o = omega arith in
      let y : p + 0 ≡ p = omega arith in
      let tail = window_agree f g (o + 1) (p + 1) n (λ k lt.
        (let a : o + 1 + k ≡ o + suc k = omega arith in
          let b : p + 1 + k ≡ p + suc k = omega arith in rw (a, b) (h (suc k) (omega arith)))) in
      rw ((rw (z, y) at head), tail) refl

  pub get_or-window :
      (f : ℕ → A) (o n i : ℕ) (d : A) → i < n → get_or (window f o n) i d ≡ f (o + i)
  get_or-window f o zero i d h = elim h [ ]
  get_or-window f o (suc n) zero d h = let z : o ≡ o + 0 = omega arith in ap f z
  get_or-window f o (suc n) (suc i) d h =
      let z : o + 1 + i ≡ o + suc i = omega arith in
      get_or-window f (o + 1) n i d (omega arith) ∙ ap f z
