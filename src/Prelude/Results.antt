-- ===== src/Prelude/Results.antt =====
-- The outcome of a call: the value that it returns, or the exception that it raises.
use mathlib.Core.Bool.{Bool, true, false}
use mathlib.Core.Path.{◌≡◌, refl}

pub data Outcome {ε v} (Error : Type ε) (Value : Type v) : Type (ε ⊔ v) where
  err : Error → Outcome Error Value
  ok : Value → Outcome Error Value

infixl 5 ◌>>=◌
abbrev pub ◌>>=◌ {ε v w} :
    {Error : Type ε} {Value : Type v} {Next : Type w}
    → Outcome Error Value
    → (Value → Outcome Error Next)
    → Outcome Error Next
err raised >>= next = err raised
ok value >>= next = next value

infixl 5 ◌>>◌
abbrev pub ◌>>◌ {ε w} :
    {Error : Type ε} {Next : Type w}
    → Outcome Error (Unit {0})
    → Outcome Error Next
    → Outcome Error Next
first >> next = first >>= λ _. next

abbrev pub raise_if {ε} : {Error : Type ε} → Bool → Error → Outcome Error (Unit {0})
raise_if true e = err e
raise_if false e = ok tt

pub ok-injective {ε ℓ} :
    {Error : Type ε} {A : Type ℓ} {a b : A} → ◌≡◌ {A = Outcome Error A} (ok a) (ok b) → a ≡ b
ok-injective h = cc

-- Inversion of a successful bind and of a passed guard, each with what follows from it.
pub ok_elim {ε ℓ κ ν} :
    {Error : Type ε} {A : Type ℓ} {B : Type κ} {C : Type ν} (m : Outcome Error A)
    (f : A → Outcome Error B) {b : B}
    → (m >>= f) ≡ ok b
    → ((a : A) → m ≡ ok a → f a ≡ ok b → C)
    → C
ok_elim (ok a) f h k = k a refl h
ok_elim (err e) f h k = absurd (cc)

pub >>-eq-ok {ε ℓ} :
    {Error : Type ε} {B : Type ℓ} (b : Bool) (raised : Error) (m : Outcome Error B) {x : B}
    → (raise_if b raised >> m) ≡ ok x
    → (b ≡ false) × (m ≡ ok x)
>>-eq-ok true raised m h = cc
>>-eq-ok false raised m h = (refl, h)
