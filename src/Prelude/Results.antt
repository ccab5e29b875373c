-- ===== src/Prelude/Results.antt =====
-- A call that may raise: its value, or the exception.
use mathlib.Core.Path.{◌≡◌, refl}

pub data Result {ℓ κ} (E : Type ℓ) (A : Type κ) : Type (ℓ ⊔ κ) where
  err : E → Result E A
  ok : A → Result E A

infixl 5 ◌>>=◌ ◌>>◌
-- The next part of the body runs on the value; an exception ends the body.
abbrev pub ◌>>=◌ {ℓ κ ν} :
    {E : Type ℓ} {A : Type κ} {B : Type ν} (call : Result E A) (next : A → Result E B) → Result E B
err raised >>= next = err raised
ok value >>= next = next value

-- A call that is made for its exceptions only.
abbrev pub ◌>>◌ {ℓ κ ν} :
    {E : Type ℓ} {A : Type κ} {B : Type ν} (call : Result E A) (rest : Result E B) → Result E B
err raised >> rest = err raised
ok value >> rest = rest

-- A body that returns has made a call that returned.
pub >>=-eq-ok {ℓ κ ν} :
    {E : Type ℓ} {A : Type κ} {B : Type ν} (call : Result E A) (next : A → Result E B) {answer : B}
    → (call >>= next) ≡ ok answer
    → (value : A) × (call ≡ ok value) × (next value ≡ ok answer)
>>=-eq-ok (err raised) next returned = cc
>>=-eq-ok (ok value) next returned = (value, refl, returned)
