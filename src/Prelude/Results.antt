-- ===== src/Prelude/Results.antt =====
-- Results with an error type, for chains of fallible steps.
use mathlib.Core.Path.{◌≡◌, refl}
use mathlib.Core.Bool.{Bool, true, false}
use mathlib.Core.Option.{Option, none, some}

pub data Result {ℓ κ} (Failure : Type ℓ) (Value : Type κ) : Type (ℓ ⊔ κ) where
  err : Failure → Result Failure Value
  ok : Value → Result Failure Value

-- `option.ok_or(error)`
abbrev pub ok_or {ℓ κ} :
    {Failure : Type ℓ} {Value : Type κ} → Option Value → Failure → Result Failure Value
ok_or (some value) failure = ok value
ok_or none failure = err failure

-- `ensure!(test, error)`
abbrev pub guard {ℓ} : {Failure : Type ℓ} → Bool → Failure → Result Failure (Unit {0})
guard false failure = err failure
guard true failure = ok tt

infixl 5 ◌>>=◌
abbrev pub ◌>>=◌ {ℓ κ ι} :
    {Failure : Type ℓ} {Value : Type κ} {Next : Type ι}
    → Result Failure Value
    → (Value → Result Failure Next)
    → Result Failure Next
err failure >>= next = err failure
ok value >>= next = next value

infixl 5 ◌>>◌
abbrev pub ◌>>◌ {ℓ κ} :
    {Failure : Type ℓ} {Next : Type κ}
    → Result Failure (Unit {0})
    → Result Failure Next
    → Result Failure Next
first >> second = first >>= λ u. second

-- A step that succeeds in a chain that succeeds.
pub >>=-eq-ok {ℓ κ ι} :
    {Failure : Type ℓ} {Value : Type κ} {Next : Type ι} (step : Result Failure Value)
    (next : Value → Result Failure Next) {last : Next}
    → (step >>= next) ≡ ok last
    → (value : Value) × (step ≡ ok value) × (next value ≡ ok last)
>>=-eq-ok (err failure) next h = cc
>>=-eq-ok (ok value) next h = (value, refl, h)

-- A test that a chain which succeeds has passed.
pub guard-eq-ok {ℓ κ} :
    {E : Type ℓ} {B : Type κ} (test : Bool) (e : E) (k : Result E B) {b : B}
    → (guard test e >> k) ≡ ok b
    → (test ≡ true) × (k ≡ ok b)
guard-eq-ok true e k h = (refl, h)
guard-eq-ok false e k h = cc

pub ok_or-eq-ok {ℓ κ ι} :
    {E : Type ℓ} {A : Type κ} {B : Type ι} (o : Option A) (e : E) (f : A → Result E B) {b : B}
    → (ok_or o e >>= f) ≡ ok b
    → (a : A) × (o ≡ some a) × (f a ≡ ok b)
ok_or-eq-ok none e f h = cc
ok_or-eq-ok (some a) e f h = (a, refl, h)

pub ok_injective {ℓ κ} :
    {E : Type ℓ} {A : Type κ} {a b : A} → ◌≡◌ {A = Result E A} (ok a) (ok b) → a ≡ b
ok_injective h = cc

pub guard-ok {ℓ} : {E : Type ℓ} (test : Bool) (e : E) → guard test e ≡ ok tt → test ≡ true
guard-ok true e h = refl
guard-ok false e h = cc
