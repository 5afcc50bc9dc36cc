-- ===== src/Parser.antt =====
-- The parser of pjsonlib/src/pjson_parser.cpp: its diagnostics, and the result of a routine that
-- reads from the cursor. The cursor is the list of bytes from c.pos to c.end, so a position is the
-- size of the input less the length of that list.
pub mod StringBody
pub mod Number
pub mod Position
pub mod Tokens
pub mod Document
use pjson.Common.{String}
use pjson.Common.Bytes.{Bytes}

-- One constructor for each message that the DOM parser can put into errMsg.
pub data Message : Type 0 where
  dangling_escape invalid_u_escape unpaired_high_surrogate unpaired_low_surrogate : Message
  invalid_escape_sequence unescaped_control invalid_utf8_sequence unterminated_string : Message
  expected_digit fraction_needs_digit exponent_needs_digit number_out_of_range : Message
  integer_out_of_range number_underflows : Message
  unexpected_end invalid_json_value expected_quote expected_quote_for_key expected_colon : Message
  nesting_depth_exceeded node_budget_exceeded duplicate_object_key : Message
  trailing_comma_in_array unexpected_comma_in_array missing_comma_in_array : Message
  unterminated_array trailing_comma_in_object unexpected_comma_in_object : Message
  missing_comma_in_object unterminated_object : Message
  null_input input_exceeds_max_input_bytes trailing_characters : Message

unfoldable pub message_text : Message → String
message_text dangling_escape = "dangling escape at end of input"
message_text invalid_u_escape = "invalid \\u escape"
message_text unpaired_high_surrogate = "unpaired high surrogate"
message_text unpaired_low_surrogate = "unpaired low surrogate"
message_text invalid_escape_sequence = "invalid escape sequence"
message_text unescaped_control = "unescaped control character in string"
message_text invalid_utf8_sequence = "invalid UTF-8 sequence"
message_text unterminated_string = "unterminated string"
message_text expected_digit = "invalid number: expected digit"
message_text fraction_needs_digit = "invalid number: '.' must be followed by a digit"
message_text exponent_needs_digit = "invalid number: exponent must have a digit"
message_text number_out_of_range = "number out of range"
message_text integer_out_of_range =
    "integer out of range; enable AllowLossyNumbers to store as double"
message_text number_underflows =
    "number underflows to zero; enable AllowLossyNumbers to permit rounding"
message_text unexpected_end = "unexpected end of input; expected a value"
message_text invalid_json_value = "invalid JSON value"
message_text expected_quote = "expected '\"' to start a string"
message_text expected_quote_for_key = "expected '\"' to start an object key"
message_text expected_colon = "expected ':' after object key"
message_text nesting_depth_exceeded = "maximum nesting depth exceeded"
message_text node_budget_exceeded = "document too large (node budget exceeded)"
message_text duplicate_object_key = "duplicate object key"
message_text trailing_comma_in_array = "trailing comma in array"
message_text unexpected_comma_in_array = "unexpected ',' in array"
message_text missing_comma_in_array = "missing ',' between array elements"
message_text unterminated_array = "unterminated array"
message_text trailing_comma_in_object = "trailing comma in object"
message_text unexpected_comma_in_object = "unexpected ',' in object"
message_text missing_comma_in_object = "missing ',' between object members"
message_text unterminated_object = "unterminated object"
message_text null_input = "null input"
message_text input_exceeds_max_input_bytes = "input exceeds maxInputBytes"
message_text trailing_characters = "trailing characters after JSON value"

-- `parsed a rest` leaves the cursor at rest; `rejected m at` records the first failure (fail keeps
-- the earlier one) and where it is; `stalled` is a model loop whose rounds ran out.
pub data Parsed {ℓ} (A : Type ℓ) : Type ℓ where
  parsed : A → Bytes → Parsed A
  rejected : Message → Bytes → Parsed A
  stalled : Parsed A
