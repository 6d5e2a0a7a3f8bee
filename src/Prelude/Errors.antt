-- ===== src/Prelude/Errors.antt =====
-- `anyhow::Result`: a value, or the message of the error that ended the call.
use Prim.Native.String.{String}
use mathlib.Core.Path.{◌≡◌, refl}
use mathlib.Core.Logic.{◌⊎◌, inl, inr}
use mathlib.Core.Bool.{Bool, true, false}
use mathlib.Core.Option.{Option, none, some}
use native.Mathlib.Omega.{arith}

pub data Outcome {ℓ} (A : Type ℓ) : Type ℓ where
  ok : A → Outcome A
  err : String → Outcome A

infixl 5 ◌>>=◌ ◌>>◌
abbrev pub ◌>>=◌ {ℓ κ} : {A : Type ℓ} {B : Type κ} → Outcome A → (A → Outcome B) → Outcome B
ok a >>= f = f a
err e >>= f = err e

abbrev pub ◌>>◌ {ℓ} : {B : Type ℓ} → Outcome (Unit {0}) → Outcome B → Outcome B
m >> k = m >>= λ _. k

-- `anyhow::ensure!`
abbrev pub ensure : Bool → String → Outcome (Unit {0})
ensure true message = ok tt
ensure false message = err message

-- `Option::context`
abbrev pub context {ℓ} : {A : Type ℓ} → Option A → String → Outcome A
context none message = err message
context (some a) message = ok a

pub ensure-ok : (b : Bool) (message : String) → ensure b message ≡ ok tt → b ≡ true
ensure-ok true message h = refl
ensure-ok false message h = ground arith

-- Inversion of a sequence that ended well.
pub >>-eq-ok {ℓ} :
    {B : Type ℓ} (m : Outcome (Unit {0})) (k : Outcome B) {b : B}
    → (m >> k) ≡ ok b
    → (m ≡ ok tt) × (k ≡ ok b)
>>-eq-ok (ok u) k h = (refl, h)
>>-eq-ok (err e) k h = ground arith

pub >>=-eq-ok {ℓ κ} :
    {A : Type ℓ} {B : Type κ} (m : Outcome A) (f : A → Outcome B) {b : B}
    → (m >>= f) ≡ ok b
    → (a : A) × (m ≡ ok a) × (f a ≡ ok b)
>>=-eq-ok (ok value) next step = (value, refl, step)
>>=-eq-ok (err message) next step = absurd (cc)

pub context-eq-ok {ℓ} :
    {A : Type ℓ} (o : Option A) (message : String) {a : A} → context o message ≡ ok a → o ≡ some a
context-eq-ok none message h = absurd (cc)
context-eq-ok (some a) message h = ground arith

pub Outcome-cases {ℓ} :
    {A : Type ℓ} (o : Outcome A) → ((a : A) × (o ≡ ok a)) ⊎ ((message : String) × (o ≡ err message))
Outcome-cases (ok a) = inl (a, refl)
Outcome-cases (err message) = inr (message, refl)

pub some_inj {ℓ} : {A : Type ℓ} {a b : A} → some a ≡ some b → a ≡ b
some_inj h = cc

pub ok_inj {ℓ} : {A : Type ℓ} {a b : A} → ok a ≡ ok b → a ≡ b
ok_inj h = cc

-- `let Some(a) = ... else { ... }` where the other branch has no value, and `Option::and_then`
unfoldable pub and_then {ℓ κ} : {A : Type ℓ} {B : Type κ} → Option A → (A → Option B) → Option B
and_then none f = none
and_then (some a) f = f a

pub and_then-eq-some {ℓ κ} :
    {A : Type ℓ} {B : Type κ} (x : Option A) (f : A → Option B) {b : B}
    → and_then x f ≡ some b
    → (a : A) × (x ≡ some a) × (f a ≡ some b)
unfolding and_then
and_then-eq-some none f h = absurd (cc)
and_then-eq-some (some a) f h = (a, refl, h)
