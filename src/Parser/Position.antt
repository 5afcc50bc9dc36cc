-- ===== src/Parser/Position.antt =====
-- Diagnostics of pjsonlib/src/pjson_parser.cpp: lineAndColumn, classifyParseMessage and
-- setParseError.
use pjson.Common.{
  ℕ, suc, String, Bool, true, false, ◌||◌, [], ◌∷◌, ◌==◌, if◌then◌else◌, length, take,
}
use pjson.Common.Bytes.{Bytes, codes, bytes_eq}
use pjson.Parser.{Message, message_text}

-- pJsonParser::Error::Code
pub data ParseCode : Type 0 where
  no_error syntax invalid_encoding duplicate_key number_range depth_limit : ParseCode
  input_limit node_limit allocation_failure stream_error invalid_argument : ParseCode

pub record ParseError : Type 0 where
  pub ok : Bool
  pub code : ParseCode
  pub offset : ℕ
  pub line : ℕ
  pub column : ℕ
  pub message : String

abbrev pub reset_parse_error : ParseError
reset_parse_error = record {
  ok = true;
  code = no_error;
  offset = 0;
  line = 1;
  column = 1;
  message = "";
}

-- The loop of lineAndColumn over the bytes before the offset.
unfoldable pub line_and_column : ℕ → ℕ → Bytes → ℕ × ℕ
line_and_column line column [] = (line, column)
line_and_column line column (ch ∷ []) =
    if ch == 13 || ch == 10 then (suc line, 1) else (line, suc column)
line_and_column line column (ch ∷ d ∷ s) = elim (ch == 13) [
  | true ↦ elim (d == 10) [
    | true ↦ line_and_column (suc line) 1 s
    | false ↦ line_and_column (suc line) 1 (d ∷ s)
  ]
  | false ↦ elim (ch == 10) [
    | true ↦ line_and_column (suc line) 1 (d ∷ s)
    | false ↦ line_and_column line (suc column) (d ∷ s)
  ]
]

-- message.find(word) != npos
unfoldable pub contains : Bytes → Bytes → Bool
contains word [] = bytes_eq word []
contains word (c ∷ s) = bytes_eq word (take (length word) (c ∷ s)) || contains word s

unfoldable pub classify_parse_message : Bytes → ParseCode
classify_parse_message message =
    if contains (codes "UTF-8") message
      || contains (codes "surrogate") message
      || contains (codes "escape") message
      || contains (codes "\\u") message
    then invalid_encoding
    else if contains (codes "duplicate object key") message
    then duplicate_key
    else if contains (codes "out of range") message || contains (codes "number") message
    then number_range
    else if contains (codes "nesting depth") message
    then depth_limit
    else if contains (codes "maxInputBytes") message
    then input_limit
    else if contains (codes "maxNodes") message || contains (codes "node budget") message
    then node_limit
    else if contains (codes "out of memory") message
    then allocation_failure
    else if contains (codes "stream read") message
    then stream_error
    else syntax

abbrev given_or_classified : ParseCode → Message → ParseCode
given_or_classified no_error message = classify_parse_message (codes (message_text message))
given_or_classified code message = code

abbrev pub set_parse_error : Bytes → ℕ → Message → ParseCode → ParseError
set_parse_error src offset message code =
    let place = line_and_column 1 1 (take offset src) in
    record {
      ok = false;
      code = given_or_classified code message;
      offset = offset;
      line = place.0;
      column = place.1;
      message = message_text message;
    }
