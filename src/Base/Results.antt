-- ===== src/Base/Results.antt =====
-- `st2110::Error`, `std::expected<A, Error>`, and code that may throw or have no defined behaviour.
use mathlib.Core.Path.{◌≡◌, refl}
use mathlib.Core.Bool.{Bool, true, false}
use native.Mathlib.Omega.{arith}

-- foundation/error.hpp; `Error::Ok` is `no_error`, since `ok` is the constructor of `Expected`.
pub data Error : Type 0 where
  no_error : Error
  buffer_too_small : Error
  invalid_value : Error
  unsupported : Error
  short_packet : Error
  bad_rtp_version : Error
  invalid_backend_state : Error
  system_failure : Error
  operation_interrupted : Error
  operation_aborted : Error

-- `std::expected<A, Error>`
pub data Expected {ℓ} (A : Type ℓ) : Type ℓ where
  ok : A → Expected A
  unexpected : Error → Expected A

-- A failed step ends the function with its error.
infixl 5 ◌>>=◌
abbrev pub ◌>>=◌ {ι κ} :
    {Step : Type ι} {B : Type κ} → Expected Step → (Step → Expected B) → Expected B
unexpected error >>= next = unexpected error
ok value >>= next = next value

infixl 5 ◌>>◌
abbrev pub ◌>>◌ {κ} : {B : Type κ} → Expected (Unit {0}) → Expected B → Expected B
check >> next = check >>= (λ checked. next)

-- `if (!test) return std::unexpected(e);`
abbrev pub require : Bool → Error → Expected (Unit {0})
require true e = ok tt
require false e = unexpected e

-- `if (test) return std::unexpected(e);`
abbrev pub reject : Bool → Error → Expected (Unit {0})
reject true e = unexpected e
reject false e = ok tt

-- The exception classes that the source throws.
pub data Exception : Type 0 where
  invalid_argument : Exception
  out_of_range : Exception
  runtime_error : Exception
  overflow_error : Exception

-- What a call that may throw does. `undefined` is an access outside the object it is made in.
pub data Outcome {ℓ} (A : Type ℓ) : Type ℓ where
  returns : A → Outcome A
  throws : Exception → Outcome A
  undefined : Outcome A

abbrev pub and_then {ℓ κ} : {A : Type ℓ} {B : Type κ} → Outcome A → (A → Outcome B) → Outcome B
and_then (returns a) f = f a
and_then (throws e) f = throws e
and_then undefined f = undefined

-- `err == Error::Ok`
abbrev pub is_ok : Error → Bool
is_ok Error.no_error = true
is_ok _ = false

-- A chain that returns has a first part that returns.
pub and_then-returns {ℓ κ} :
    {A : Type ℓ} {B : Type κ} (first : Outcome A) (next : A → Outcome B) {result : B}
    → and_then first next ≡ returns result
    → (a : A) × (first ≡ returns a) × (next a ≡ returns result)
and_then-returns (throws e) next h = absurd (ground arith)
and_then-returns undefined next h = absurd (ground arith)
and_then-returns (returns a) next h = (a, refl, h)

-- A chain that succeeds has a first part that does.
pub chain_ok {ℓ κ} :
    {A : Type ℓ} {B : Type κ} (first : Expected A) (next : A → Expected B) {b : B}
    → (first >>= next) ≡ ok b
    → (a : A) × (first ≡ ok a) × (next a ≡ ok b)
chain_ok (unexpected error) next h = absurd (ground arith)
chain_ok (ok a) next h = (a, refl, h)

-- A test that lets a chain go on.
pub require-ok : (b : Bool) (e : Error) {t : Unit {0}} → require b e ≡ ok t → b ≡ true
require-ok true e h = refl
require-ok false e h = absurd (ground arith)

pub reject-ok : (b : Bool) (e : Error) {t : Unit {0}} → reject b e ≡ ok t → b ≡ false
reject-ok true e h = absurd (ground arith)
reject-ok false e h = refl

pub ok_injective {ℓ} : {A : Type ℓ} {a b : A} → ok a ≡ ok b → a ≡ b
ok_injective e = ground arith
