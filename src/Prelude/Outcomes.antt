-- ===== src/Prelude/Outcomes.antt =====
-- A call that may throw: a value, or the error that leaves the function.
use mathlib.Core.Path.{◌≡◌, refl}

pub data Outcome {ε α} (Thrown : Type ε) (Value : Type α) : Type (ε ⊔ α) where
  ok : Value → Outcome Thrown Value
  throw : Thrown → Outcome Thrown Value

-- What follows a call is not reached when the call throws.
infixl 5 ◌>>=◌
abbrev pub ◌>>=◌ {ε α β} :
    {Thrown : Type ε} {Value : Type α} {Next : Type β}
    → Outcome Thrown Value
    → (Value → Outcome Thrown Next)
    → Outcome Thrown Next
throw thrown >>= follow = throw thrown
ok value >>= follow = follow value

-- A successful bind has a successful first part.
pub >>=-eq-ok {ε α β} :
    {Thrown : Type ε} {Value : Type α} {Next : Type β} (call : Outcome Thrown Value)
    (follow : Value → Outcome Thrown Next) {result : Next}
    → (call >>= follow) ≡ ok result
    → (value : Value) × (call ≡ ok value) × (follow value ≡ ok result)
>>=-eq-ok (throw thrown) follow h = cc
>>=-eq-ok (ok value) follow h = (value, refl, h)

infixl 5 ◌>>◌
abbrev pub ◌>>◌ {ε α β} :
    {Thrown : Type ε} {Value : Type α} {Next : Type β}
    → Outcome Thrown Value
    → Outcome Thrown Next
    → Outcome Thrown Next
call >> next = call >>= λ ignored. next
