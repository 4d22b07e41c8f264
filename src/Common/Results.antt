-- ===== src/Common/Results.antt =====
-- What a fallible function of the source gives: a value, an error (`Err(())`), or a panic, which
-- an index out of range raises.
use mathlib.Core.Bool.{Bool, true, false}
use mathlib.Core.Path.{◌≡◌, refl}
use mathlib.Core.Logic.{◌⊎◌, inl, inr}
use mathlib.Core.Option.{Option, none, some}

pub data Result {ℓ} (Value : Type ℓ) : Type ℓ where
  ok : Value → Result Value
  err : Result Value
  panic : Result Value

-- `?`: the first error or panic ends the function.
infixl 5 ◌>>=◌
abbrev pub ◌>>=◌ {ℓ κ} :
    {Value : Type ℓ} {Next : Type κ} → Result Value → (Value → Result Next) → Result Next
panic >>= next = panic
err >>= next = err
ok value >>= next = next value

-- A test for its error alone.
infixl 5 ◌>>◌
abbrev pub ◌>>◌ {ℓ} : {Next : Type ℓ} → Result (Unit {0}) → Result Next → Result Next
test >> next = test >>= λ _. next

-- `if !test { return Err(()) }`
abbrev pub ensure : Bool → Result (Unit {0})
ensure true = ok tt
ensure false = err

-- an assertion, or an index that has to be in range
abbrev pub assert : Bool → Result (Unit {0})
assert true = ok tt
assert false = panic

-- `option.ok_or(())`
abbrev pub ok_or {ℓ} : {A : Type ℓ} → Option A → Result A
ok_or none = err
ok_or (some a) = ok a

-- To split on a computed result and keep the equation; a failure is an error or a panic.
pub Result-cases {ℓ} :
    {A : Type ℓ} (r : Result A) → ((a : A) × (r ≡ ok a)) ⊎ ((r ≡ err) ⊎ (r ≡ panic))
Result-cases (ok a) = inl (a, refl)
Result-cases err = inr (inl refl)
Result-cases panic = inr (inr refl)

-- If there is a value, `P` holds of it.
abbrev pub Ensures {ℓ κ} : {A : Type ℓ} → (A → Type κ) → Result A → Type κ
Ensures P (ok a) = P a
Ensures P err = Unit
Ensures P panic = Unit
