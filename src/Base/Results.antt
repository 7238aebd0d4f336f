-- ===== src/Base/Results.antt =====
-- A Go result `(value, error)`: a value, or an error that is not nil.
use mathlib.Core.Path.{◌≡◌, refl}

pub data Result {ℓ κ} (E : Type ℓ) (A : Type κ) : Type (ℓ ⊔ κ) where
  err : E → Result E A
  ok : A → Result E A

infixl 5 ◌>>=◌
abbrev pub ◌>>=◌ {ℓ κ μ} :
    {E : Type ℓ} {A : Type κ} {B : Type μ} → Result E A → (A → Result E B) → Result E B
err stopped >>= next = err stopped
ok value >>= next = next value

module _ {ℓ κ μ} {E : Type ℓ} {A : Type κ} {B : Type μ} where
  -- What is known of the first part when both parts succeed.
  pub >>=-eq-ok :
      (first : Result E A) (next : A → Result E B) {b : B}
      → (first >>= next) ≡ ok b
      → (value : A) × (first ≡ ok value) × (next value ≡ ok b)
  >>=-eq-ok (err stopped) next both = cc
  >>=-eq-ok (ok value) next both = (value, refl, both)

pub ok-injective {ℓ κ} :
    {E : Type ℓ} {A : Type κ} {a b : A} → ◌≡◌ {A = Result E A} (ok a) (ok b) → a ≡ b
ok-injective h = cc
