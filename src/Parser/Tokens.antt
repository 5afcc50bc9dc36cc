-- ===== src/Parser/Tokens.antt =====
-- The tokens of the recursive-descent parser of pjsonlib/src/pjson_parser.cpp: whitespace, colons,
-- keywords, strings and numbers as values, and the budgets. A failed allocation is not modelled.
use pjson.Common.{
  ℕ, zero, suc, Bool, true, false, ◌&&◌, ◌||◌, not, Option, none, some, [], ◌∷◌, ltb, leb, ◌==◌,
  if◌then◌else◌, drop, take,
}
use pjson.Common.Bytes.{Bytes, codes, bytes_eq}
use pjson.Common.Int.{ℤ, pos, negsuc}
use pjson.Value.{Value, null, string, boolean}
use pjson.Parser.{
  Parsed, parsed, rejected, stalled, invalid_json_value, expected_quote, expected_colon,
  node_budget_exceeded,
}
use pjson.Parser.StringBody.{decode_string_body}
use pjson.Parser.Number.{
  Extraction, NumberPolicy, NumberToken, Converted, converted, not_converted, scan_json_number,
  convert_number_token,
}

-- Options::DuplicateKeyPolicy
pub data DuplicateKeyPolicy : Type 0 where
  reject_duplicate_keys keep_first_duplicate keep_last_duplicate : DuplicateKeyPolicy

pub record ParseOptions : Type 0 where
  pub max_depth : ℤ
  pub max_nodes : ℕ
  pub max_input_bytes : ℕ
  pub duplicate_keys : DuplicateKeyPolicy
  pub number_policy : NumberPolicy

-- The part of ParseCtx that a parse does not change, with the stream's extraction of a double.
pub record ParseContext : Type 0 where
  pub duplicate_keys : DuplicateKeyPolicy
  pub number_policy : NumberPolicy
  pub max_depth : ℕ
  pub max_nodes : ℕ
  pub extract : Bytes → Extraction

abbrev depth_hard_limit : ℕ
depth_hard_limit = 1024

unfoldable pub clamp_parse_depth : ℤ → ℕ
clamp_parse_depth (negsuc n) = 1
clamp_parse_depth (pos zero) = 1
clamp_parse_depth (pos (suc n)) = if ltb (suc n) depth_hard_limit then suc n else depth_hard_limit

abbrev pub is_whitespace : ℕ → Bool
is_whitespace c = c == b' ' || c == 9 || c == 10 || c == 13

-- peek: the cursor after the whitespace.
unfoldable pub skip_whitespace : Bytes → Bytes
skip_whitespace [] = []
skip_whitespace (c ∷ s) = let rest = skip_whitespace s in if is_whitespace c then rest else c ∷ s

unfoldable pub skip_colon : Bytes → Parsed (Unit {0})
skip_colon [] = rejected expected_colon []
skip_colon (ch ∷ s) =
    let rest = skip_colon s in
    if ch == b':'
    then parsed tt s
    else if is_whitespace ch
    then rest
    else rejected expected_colon (ch ∷ s)

-- newNode with the cursor at s: the count after it.
unfoldable pub new_node : ParseContext → ℕ → Bytes → Parsed ℕ
new_node c node_count s =
    if not (c.max_nodes == 0) && leb (c.max_nodes) node_count
    then rejected node_budget_exceeded s
    else parsed (suc node_count) s

-- A value that newNode makes room for, with the cursor moved to rest.
abbrev pub with_node : Value → Bytes → Parsed ℕ → Parsed (Value × ℕ)
with_node v rest (parsed node_count s) = parsed (v, node_count) rest
with_node v rest (rejected message at) = rejected message at
with_node v rest stalled = stalled

-- The value of a keyword that stands at s, and its length.
unfoldable pub match_keyword : Bytes → Option (Value × ℕ)
match_keyword s =
    if bytes_eq (take 4 s) (codes "null")
    then some (null, 4)
    else if bytes_eq (take 4 s) (codes "true")
    then some (boolean true, 4)
    else if bytes_eq (take 5 s) (codes "false")
    then some (boolean false, 5)
    else none

abbrev pub keyword_value : ParseContext → ℕ → Bytes → Option (Value × ℕ) → Parsed (Value × ℕ)
keyword_value c node_count s none = rejected invalid_json_value s
keyword_value c node_count s (some (v, len)) =
    with_node v (drop len s) (new_node c node_count (drop len s))

unfoldable pub parse_keyword : ParseContext → ℕ → Bytes → Parsed (Value × ℕ)
parse_keyword c node_count s = keyword_value c node_count s (match_keyword s)

unfoldable pub extract_string : Bytes → Parsed Bytes
extract_string [] = rejected expected_quote []
extract_string (ch ∷ s) =
    if ch == b'"' then decode_string_body true s else rejected expected_quote (ch ∷ s)

abbrev pub string_value : ParseContext → ℕ → Parsed Bytes → Parsed (Value × ℕ)
string_value c node_count (parsed s rest) = with_node (string s) rest (new_node c node_count rest)
string_value c node_count (rejected message at) = rejected message at
string_value c node_count stalled = stalled

unfoldable pub parse_string : ParseContext → ℕ → Bytes → Parsed (Value × ℕ)
parse_string c node_count s = string_value c node_count (extract_string s)

abbrev pub number_value : ParseContext → ℕ → Bytes → Bytes → Converted → Parsed (Value × ℕ)
number_value c node_count s rest (converted v) = with_node v rest (new_node c node_count s)
number_value c node_count s rest (not_converted message) = rejected message s

abbrev pub scanned_value : ParseContext → ℕ → Bytes → Parsed NumberToken → Parsed (Value × ℕ)
scanned_value c node_count s (parsed token rest) =
    number_value c node_count s rest (convert_number_token (c.extract) (c.number_policy) token)
scanned_value c node_count s (rejected message at) = rejected message at
scanned_value c node_count s stalled = stalled

unfoldable pub parse_number : ParseContext → ℕ → Bytes → Parsed (Value × ℕ)
parse_number c node_count s = scanned_value c node_count s (scan_json_number s)
