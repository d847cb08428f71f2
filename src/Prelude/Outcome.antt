-- ===== src/Prelude/Outcome.antt =====
-- The exceptions of the modelled code, as values.
use Prim.Native.String.{String}

-- The exception classes that the modelled code raises, each with the text that tells its cause.
pub data Error : Type 0 where
  value_error lookup_error key_error integrity_error : String → Error
  not_implemented overflow_error : Error
  gateway_error circuit_open schema_validation : String → Error
  corpus_missing rls_bypass : String → Error

pub data Result {ℓ} (A : Type ℓ) : Type ℓ where
  ok : A → Result A
  err : Error → Result A

infixl 5 ◌>>=◌
abbrev pub ◌>>=◌ {ℓ κ} : {A : Type ℓ} {B : Type κ} → Result A → (A → Result B) → Result B
ok a >>= f = f a
err e >>= f = err e
