-- ===== src/Base/Failure.antt =====
-- include/carta-zarr/error.h and result.h: an error is a code, a message and the node it is about.
-- A message is kept as the pieces that the source concatenates, numbers before std::to_string.
use Prim.Native.Nat.{ℕ}
use Prim.Native.String.{String}
use mathlib.Core.Path.{◌≡◌, refl}
use mathlib.Core.List.{List}
use mathlib.Core.Logic.{◌⊎◌, inl, inr}

pub data ErrorCode : Type 0 where
  not_found not_zarr unsupported_transport unsupported_zarr_version : ErrorCode
  unsupported_schema unsupported_schema_version ambiguous_schema : ErrorCode
  invalid_argument invalid_metadata unsupported_data_type unsupported_codec : ErrorCode
  invalid_slice buffer_too_small io_error decode_error cancelled not_implemented : ErrorCode

pub data Part : Type 0 where
  text : String → Part
  number : ℕ → Part

pub record Error : Type 0 where
  pub code : ErrorCode
  pub message : List Part
  pub node_path : String

-- A value, or what went wrong.
pub data Result {ℓ} (A : Type ℓ) : Type ℓ where
  err : Error → Result A
  ok : A → Result A

abbrev pub fail {ℓ} : {A : Type ℓ} → ErrorCode → List Part → String → Result A
fail code message node = err (record { code = code; message = message; node_path = node })

infixl 5 ◌>>=◌
-- `if (!x) return x.error();`, the value handed on.
abbrev pub ◌>>=◌ {ℓ κ} : {A : Type ℓ} {B : Type κ} → Result A → (A → Result B) → Result B
m >>= rest = elim m [ err e ↦ err e | ok a ↦ rest a ]

pub Result-cases {ℓ} :
    {A : Type ℓ} (r : Result A) → ((a : A) × (r ≡ ok a)) ⊎ ((e : Error) × (r ≡ err e))
Result-cases (ok a) = inl (a, refl)
Result-cases (err e) = inr (e, refl)
