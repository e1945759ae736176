-- ===== src/Prelude/Exceptions.antt =====
-- Exceptions of the program as values of a result type.
use mathlib.Core.Path.{◌≡◌, refl}
use mathlib.Core.Logic.{◌⊎◌, inl, inr}

-- The exception classes that the modelled code raises.
pub data Error : Type 0 where
  value_error overflow_error type_error runtime_error not_implemented_error : Error
  decode_error invalid_mid_length : Error
  index_error key_error assertion_error zero_division_error : Error
  duplicated_packet dad_error decap_error : Error
  packet_too_long sending_error : Error

pub data Result {ℓ} (A : Type ℓ) : Type ℓ where
  ok : A → Result A
  err : Error → Result A

pub Result-cases {ℓ} :
    {A : Type ℓ} (r : Result A) → ((a : A) × (r ≡ ok a)) ⊎ ((e : Error) × (r ≡ err e))
Result-cases (ok a) = inl (a, refl)
Result-cases (err e) = inr (e, refl)

-- What follows a call that may raise.
infixl 5 ◌>>=◌
abbrev pub ◌>>=◌ {ℓ κ} : {A : Type ℓ} {B : Type κ} → Result A → (A → Result B) → Result B
err e >>= next = err e
ok value >>= next = next value
