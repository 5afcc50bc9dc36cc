-- ===== src/Pointer/Tokens.antt =====
-- decodePointer and escapePointerToken: the text of a pointer and its reference tokens.
pub mod RoundTrip
use mathlib.Core.Option
use pjson.Common.{
  ℕ, suc, ◌+◌, ◌≡◌, refl, sym, ap, ◌∙◌, Bool, true, false, ◌||◌, Option, none, some, List, [], ◌∷◌,
  ◌++◌, append_assoc, append-nil, arith, ◌==◌, if◌then◌else◌, Bool-cases, inl, inr, ◌↔◌, ◌⊎◌, ◌≢◌,
  Option-cases, All, subst,
}
use pjson.Common.Bytes.{Bytes}
use pjson.Pointer.{
  PointerError, PointerResult, found, pointer_failed, fail_pointer, invalid_syntax, invalid_escape,
}

abbrev slash : ℕ
slash = b'/'

abbrev tilde : ℕ
tilde = b'~'

-- What escapePointerToken appends for one byte.
abbrev escaped_byte : ℕ → Bytes
escaped_byte c =
    if c == tilde then tilde ∷ b'0' ∷ [] else if c == slash then tilde ∷ b'1' ∷ [] else c ∷ []

unfoldable pub escape_pointer_token : Bytes → Bytes
escape_pointer_token [] = []
escape_pointer_token (c ∷ token) = escaped_byte c ++ escape_pointer_token token

-- The inner loop over the bytes of one token; none is an invalid `~` escape.
unfoldable pub decode_token : Bytes → Option Bytes
decode_token [] = some []
decode_token (c ∷ []) = if c == tilde then none else some (c ∷ [])
decode_token (c ∷ d ∷ token) =
    let escaped = Option.map (λ t. (if d == b'0' then tilde else slash) ∷ t) (decode_token token) in
    let plain = Option.map (λ t. c ∷ t) (decode_token (d ∷ token)) in
    if c == tilde then (if d == b'0' || d == b'1' then escaped else none) else plain

-- The pieces between slashes, as the outer loop cuts them by find('/', tokenStart).
abbrev prepend : ℕ → List Bytes → List Bytes
prepend c [] = (c ∷ []) ∷ []
prepend c (piece ∷ pieces) = (c ∷ piece) ∷ pieces

unfoldable pub split_slash : Bytes → List Bytes
split_slash [] = [] ∷ []
split_slash (c ∷ text) = if c == slash then [] ∷ split_slash text else prepend c (split_slash text)

abbrev decode_next : PointerResult (List Bytes) → Bytes → PointerResult (List Bytes)
decode_next (found tokens) decoded = found (decoded ∷ tokens)
decode_next (pointer_failed e) decoded = pointer_failed e

abbrev decode_or :
    Option Bytes → Bytes → ℕ → Bytes → PointerResult (List Bytes) → PointerResult (List Bytes)
decode_or none pointer token_index raw later =
    fail_pointer invalid_escape pointer token_index raw
      "JSON Pointer token contains an invalid '~' escape"
decode_or (some decoded) pointer token_index raw later = decode_next later decoded

unfoldable pub decode_tokens : Bytes → ℕ → List Bytes → PointerResult (List Bytes)
decode_tokens pointer token_index [] = found []
decode_tokens pointer token_index (raw ∷ pieces) =
    let later = decode_tokens pointer (token_index + 1) pieces in
    decode_or (decode_token raw) pointer token_index raw later

unfoldable pub decode_pointer : Bytes → PointerResult (List Bytes)
unfolding decode_tokens decode_token split_slash
decode_pointer [] = found []
decode_pointer (c ∷ text) =
    if c == slash
    then decode_tokens (c ∷ text) 0 (split_slash text)
    else fail_pointer invalid_syntax (c ∷ text) 0 [] "JSON Pointer must be empty or begin with '/'"

-- The pointer that names a list of tokens.
unfoldable pub build_pointer : List Bytes → Bytes
build_pointer [] = []
build_pointer (token ∷ tokens) = slash ∷ (escape_pointer_token token ++ build_pointer tokens)
