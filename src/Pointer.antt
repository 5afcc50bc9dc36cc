-- ===== src/Pointer.antt =====
-- RFC 6901 pointers: pjsonlib/src/pjson_pointer.cpp. A failed operation hands back the PointerError
-- that the source fills (ok is false there); a successful one leaves the error reset.
pub mod Index
pub mod Tokens
pub mod Resolve
use pjson.Common.{ℕ, String, ◌≡◌, refl}
use pjson.Common.Bytes.{Bytes}

-- pjson::PointerError::Code of a failure
pub data PointerCode : Type 0 where
  invalid_syntax invalid_escape missing_target invalid_array_index : PointerCode
  array_index_out_of_range append_token_not_allowed expected_container : PointerCode

pub record PointerError : Type 0 where
  pub code : PointerCode
  pub pointer : Bytes
  pub token_index : ℕ
  pub token : Bytes
  pub message : String

pub data PointerResult {ℓ} (A : Type ℓ) : Type ℓ where
  found : A → PointerResult A
  pointer_failed : PointerError → PointerResult A

abbrev pub fail_pointer {ℓ} :
    {A : Type ℓ} → PointerCode → Bytes → ℕ → Bytes → String → PointerResult A
fail_pointer code pointer token_index token message = pointer_failed (record {
  code = code;
  pointer = pointer;
  token_index = token_index;
  token = token;
  message = message;
})

infixl 5 ◌>>=◌
abbrev pub ◌>>=◌ {ℓ κ} :
    {A : Type ℓ} {B : Type κ} → PointerResult A → (A → PointerResult B) → PointerResult B
found a >>= f = f a
pointer_failed e >>= f = pointer_failed e

pub >>=-found {ℓ κ} :
    {A : Type ℓ} {B : Type κ} (r : PointerResult A) (f : A → PointerResult B) {b : B}
    → (r >>= f) ≡ found b
    → (a : A) × (r ≡ found a) × (f a ≡ found b)
>>=-found (found a) f h = (a, refl, h)
>>=-found (pointer_failed e) f h = cc
