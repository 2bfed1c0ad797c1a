-- ===== src/Base/Errors.antt =====
-- Errors of the program as data, and results that may be an error.
use Prim.Native.Nat.{ℕ}
use mathlib.Core.Path.{◌≡◌, refl}
use mathlib.Core.Logic.{◌⊎◌, inl, inr}
use llmwatch.Base.Strings.{Bytes}

-- One constructor for each text that the program builds with fmt.Errorf; `wrapped` is `%w` behind a
-- context text, and `external` is an error value that code outside the repository returns.
pub data Error : Type 0 where
  provider_required model_required latency_negative input_negative output_negative : Error
  invalid_provider : Bytes → Error
  invalid_status : Bytes → Error
  brokers_required topic_required group_required database_url_required : Error
  unexpected_status : ℕ → Error
  external : Bytes → Error
  wrapped : Bytes → Error → Error

pub data Result {ℓ} (A : Type ℓ) : Type ℓ where
  ok : A → Result A
  err : Error → Result A

pub Result-cases {ℓ} :
    {A : Type ℓ} (r : Result A) → ((a : A) × (r ≡ ok a)) ⊎ ((e : Error) × (r ≡ err e))
Result-cases (ok a) = inl (a, refl)
Result-cases (err e) = inr (e, refl)

pub ok_injective {ℓ} : {A : Type ℓ} {a b : A} → ok a ≡ ok b → a ≡ b
ok_injective h = cc
