-- ===== src/Prelude/Effects.antt =====
-- What a Go function hands back: a value, an error, or a panic.
use mathlib.Core.Path.{◌≡◌, refl}
use native.Mathlib.Omega.{arith}

pub data Outcome {ℓ} (E : Type 0) (A : Type ℓ) : Type ℓ where
  panic : Outcome E A
  err : E → Outcome E A
  ok : A → Outcome E A

infixl 4 ◌>>=◌
abbrev pub ◌>>=◌ {ℓ κ} :
    {E : Type 0} {A : Type ℓ} {B : Type κ} → Outcome E A → (A → Outcome E B) → Outcome E B
panic >>= k = panic
err e >>= k = err e
ok a >>= k = k a

pub ok-injective {ℓ} :
    {E : Type 0} {A : Type ℓ} {a b : A} → ◌≡◌ {A = Outcome E A} (ok a) (ok b) → a ≡ b
ok-injective h = cc

-- A returned pair has its parts.
pub ok-pair :
    {E : Type 0} {A B : Type 0} {a a' : A} {b b' : B}
    → ◌≡◌ {A = Outcome E (A × B)} (ok (a, b)) (ok (a', b'))
    → (a' ≡ a) × (b' ≡ b)
ok-pair h = ground arith

-- A chain that returned a value: its first part did, and then the rest did.
pub >>=-eq-ok {ℓ κ} :
    {E : Type 0} {B : Type κ} {A : Type ℓ} (first : Outcome E A) (rest : A → Outcome E B) {r : B}
    → (first >>= rest) ≡ ok r
    → (v : A) × (first ≡ ok v) × (rest v ≡ ok r)
>>=-eq-ok panic rest h = cc
>>=-eq-ok (err e) rest h = cc
>>=-eq-ok (ok v) rest h = (v, refl, h)
