-- ===== src/Pointer/Resolve.antt =====
-- resolvePointerTokens and findPointer: non-vivifying traversal of a document.
pub mod Located
use pjson.Common.{ℕ, ◌+◌, Bool, true, false, Option, none, some, List, [], ◌∷◌, leb, if◌then◌else◌}
use pjson.Common.Bytes.{Bytes, codes, bytes_eq}
use pjson.Value.{Value, Items, array, object}
use pjson.Value.Access.{find, find_index, size}
use pjson.Pointer.{
  PointerResult, found, pointer_failed, ◌>>=◌, fail_pointer, missing_target, invalid_array_index,
  array_index_out_of_range, append_token_not_allowed, expected_container,
}
use pjson.Pointer.Index.{
  PointerIndexResult, index_ok, index_invalid, index_overflow, parse_pointer_index,
}
use pjson.Pointer.Tokens.{decode_pointer}

abbrev pub dash : Bytes
dash = codes "-"

abbrev found_member : Option Value → Bytes → ℕ → Bytes → PointerResult Value
found_member none pointer i token =
    fail_pointer missing_target pointer i token "JSON Pointer object member does not exist"
found_member (some child) pointer i token = found child

abbrev out_of_range : Bytes → ℕ → Bytes → PointerResult Value
out_of_range pointer i token =
    fail_pointer array_index_out_of_range pointer i token "JSON Pointer array index is out of range"

-- The null pointer of findIndex does not occur: the test above it is that of findIndex.
abbrev found_element : Option Value → Bytes → ℕ → Bytes → PointerResult Value
found_element none pointer i token = out_of_range pointer i token
found_element (some child) pointer i token = found child

abbrev element_step : PointerIndexResult → Value → Bytes → ℕ → Bytes → PointerResult Value
element_step index_invalid current pointer i token =
    fail_pointer invalid_array_index pointer i token
      "JSON Pointer array index is not canonical decimal"
element_step index_overflow current pointer i token = out_of_range pointer i token
element_step (index_ok index) current pointer i token =
    if leb (size current) index
    then out_of_range pointer i token
    else found_element (find_index current index) pointer i token

-- One round of the loop: from a node to the child that a token names.
unfoldable pub pointer_step : Value → Bytes → ℕ → Bytes → PointerResult Value
unfolding find find_index size parse_pointer_index
pointer_step (object ms) pointer i token = found_member (find (object ms) token) pointer i token
pointer_step (array xs) pointer i token =
    if bytes_eq token dash
    then fail_pointer append_token_not_allowed pointer i token
        "the '-' token is only valid for JSON Patch add"
    else element_step (parse_pointer_index token) (array xs) pointer i token
pointer_step _ pointer i token =
    fail_pointer expected_container pointer i token
      "JSON Pointer traversal reached a non-container value"

-- The tokens are those before `count`; i is the index of the first of them.
unfoldable pub resolve_pointer_tokens : Value → List Bytes → ℕ → Bytes → PointerResult Value
resolve_pointer_tokens current [] i pointer = found current
resolve_pointer_tokens current (token ∷ tokens) i pointer = do
  child ← pointer_step current pointer i token
  resolve_pointer_tokens child tokens (i + 1) pointer

unfoldable pub find_pointer : Value → Bytes → PointerResult Value
find_pointer root pointer = do
  tokens ← decode_pointer pointer
  resolve_pointer_tokens root tokens 0 pointer
