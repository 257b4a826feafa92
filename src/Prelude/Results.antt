-- ===== src/Prelude/Results.antt =====
-- Fallible code: a value, or the error that the code throws (TypeScript) or reverts with (Solidity).
use mathlib.Core.Path.{◌≡◌, refl}
use mathlib.Core.Logic.{◌⊎◌, inl, inr}
use mathlib.Core.Bool.{Bool, true, false}

pub data Result {ℓ κ} (E : Type ℓ) (A : Type κ) : Type (ℓ ⊔ κ) where
  err : E → Result E A
  ok : A → Result E A

-- Solidity's `require(test, "...")`, and `if (!test) throw new Error(...)`
abbrev pub require {ℓ} : {E : Type ℓ} → Bool → E → Result E (Unit {0})
require false error = err error
require true error = ok tt

infixl 5 ◌>>=◌
abbrev pub ◌>>=◌ {ε ℓ κ} :
    {Thrown : Type ε} {A : Type ℓ} {B : Type κ}
    → Result Thrown A
    → (A → Result Thrown B)
    → Result Thrown B
err thrown >>= next = err thrown
ok value >>= next = next value

-- One computation after another, whose value is not used.
infixl 5 ◌>>◌
abbrev pub ◌>>◌ {ε ℓ κ} :
    {E : Type ε} {A : Type ℓ} {B : Type κ} → Result E A → Result E B → Result E B
first >> next = first >>= λ _. next

-- Inversion of a successful bind.
pub >>=-eq-ok {ε ℓ κ} :
    {Thrown : Type ε} {A : Type ℓ} {B : Type κ} (first : Result Thrown A)
    (next : A → Result Thrown B) {result : B}
    → (first >>= next) ≡ ok result
    → (value : A) × (first ≡ ok value) × (next value ≡ ok result)
>>=-eq-ok (err thrown) next e = cc
>>=-eq-ok (ok value) next e = (value, refl, e)

-- The same for a goal: the value is a variable there, so that long chains of binds stay small.
pub >>=-elim {ε ℓ κ μ} :
    {Thrown : Type ε} {A : Type ℓ} {B : Type κ} {P : Type μ} (first : Result Thrown A)
    (next : A → Result Thrown B) {result : B}
    → (first >>= next) ≡ ok result
    → ((value : A) → first ≡ ok value → next value ≡ ok result → P)
    → P
>>=-elim (err thrown) next e then_ = absurd (cc)
>>=-elim (ok value) next e then_ = then_ value refl e

pub Result-cases {ℓ κ} :
    {E : Type ℓ} {A : Type κ} (r : Result E A) → ((a : A) × (r ≡ ok a)) ⊎ ((e : E) × (r ≡ err e))
Result-cases (ok a) = inl (a, refl)
Result-cases (err e) = inr (e, refl)
