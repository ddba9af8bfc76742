-- ===== src/Prelude/Run.antt =====
-- A run of C code on a state: it returns, leaves the process by `exit`, goes wrong (a read through
-- `NULL` or outside an array), or uses up the fuel of the model's loops.
use mathlib.Core.Path.{◌≡◌}

pub data Run (S A : Type 0) : Type 0 where
  done : A → S → Run S A
  exited : S → Run S A
  fault : Run S A
  out_of_fuel : Run S A

module _ {S A B : Type 0} where
  abbrev pub and_then : Run S A → (A → S → Run S B) → Run S B
  and_then (done a s) k = k a s
  and_then (exited s) k = exited s
  and_then fault k = fault
  and_then out_of_fuel k = out_of_fuel

  infixl 5 ◌>>=◌ ◌>>◌
  abbrev pub ◌>>=◌ : (S → Run S A) → (A → S → Run S B) → S → Run S B
  ◌>>=◌ m k s = and_then (m s) k

  abbrev pub ◌>>◌ : (S → Run S A) → (S → Run S B) → S → Run S B
  ◌>>◌ m n s = and_then (m s) (λ _ t. n t)

abbrev pub pure : {S A : Type 0} → A → S → Run S A
pure a s = done a s

-- What holds of every return.
abbrev pub Ensures {ℓ} : {S A : Type 0} → (A → S → Type ℓ) → Run S A → Type ℓ
Ensures P (done a s) = P a s
Ensures P (exited s) = Unit
Ensures P fault = Unit
Ensures P out_of_fuel = Unit

pub Ensures-bind {ℓ κ} :
    {S A B : Type 0} (Q : A → S → Type κ) (P : B → S → Type ℓ) (r : Run S A) (k : A → S → Run S B)
    → Ensures Q r
    → ((a : A) (s : S) → Q a s → Ensures P (k a s))
    → Ensures P (and_then r k)
Ensures-bind Q P (done a s) k q h = h a s q
Ensures-bind Q P (exited s) k q h = tt
Ensures-bind Q P fault k q h = tt
Ensures-bind Q P out_of_fuel k q h = tt

pub Ensures-any : {S A : Type 0} (r : Run S A) → Ensures (λ a s. Unit {0}) r
Ensures-any (done a s) = tt
Ensures-any (exited s) = tt
Ensures-any fault = tt
Ensures-any out_of_fuel = tt

pub Ensures-mono {ℓ κ} :
    {S A : Type 0} (P : A → S → Type ℓ) (Q : A → S → Type κ) (r : Run S A)
    → Ensures P r
    → ((a : A) (s : S) → P a s → Q a s)
    → Ensures Q r
Ensures-mono P Q (done a s) p h = h a s p
Ensures-mono P Q (exited s) p h = tt
Ensures-mono P Q fault p h = tt
Ensures-mono P Q out_of_fuel p h = tt

-- A run returns `a`, in a state of which `P` holds.
abbrev pub Returns {ℓ} : {S A : Type 0} → Run S A → A → (S → Type ℓ) → Type ℓ
Returns {S = S} r a P = (s : S) × (r ≡ done a s) × P s

pub Returns-bind {ℓ κ} :
    {S A B : Type 0} (r : Run S A) (k : A → S → Run S B) (a : A) (b : B) (P : S → Type ℓ)
    (Q : S → Type κ)
    → Returns r a P
    → ((s : S) → P s → Returns (k a s) b Q)
    → Returns (and_then r k) b Q
Returns-bind r k a b P Q (s, e, p) h = rw e (h s p)
