-- ===== src/Parser/Document.antt =====
-- The recursive-descent parser of pjsonlib/src/pjson_parser.cpp: parseValue, parseArray,
-- parseObject and the driver parseTop. c.depth is balanced on every path, so it is an argument;
-- c.nodeCount is passed along.
pub mod Advance
pub mod Total
pub mod Depth
use pjson.Common.{
  ℕ, zero, suc, ◌-◌, ◌*◌, Bool, true, false, ◌&&◌, ◌||◌, not, Option, none, some, [], ◌∷◌, ltb,
  ◌==◌, if◌then◌else◌, length,
}
use pjson.Common.Bytes.{Bytes}
use pjson.Value.{Value, Items, Members, null, array, object, no_items, no_members}
use pjson.Value.ArrayStorage.{push_item}
use pjson.Value.ObjectStorage.{find_member, put_member}
use pjson.Text.Decimal.{is_digit}
use pjson.Parser.{
  Parsed, parsed, rejected, stalled, unexpected_end, expected_quote_for_key, nesting_depth_exceeded,
  duplicate_object_key, trailing_comma_in_array, unexpected_comma_in_array, missing_comma_in_array,
  unterminated_array, trailing_comma_in_object, unexpected_comma_in_object, missing_comma_in_object,
  unterminated_object, null_input, input_exceeds_max_input_bytes, trailing_characters,
}
use pjson.Parser.Number.{Extraction}
use pjson.Parser.Position.{
  ParseError, reset_parse_error, set_parse_error, no_error, syntax, input_limit, invalid_argument,
}
use pjson.Parser.Tokens.{
  DuplicateKeyPolicy, reject_duplicate_keys, keep_last_duplicate, ParseOptions, ParseContext,
  clamp_parse_depth, skip_whitespace, skip_colon, new_node, parse_keyword, extract_string,
  parse_string, parse_number,
}

-- How parseValue dispatches on the next character.
pub data Lead : Type 0 where
  quote brace bracket numeric other : Lead

abbrev pub lead : ℕ → Lead
lead ch =
    if ch == b'"'
    then quote
    else if ch == b'{'
    then brace
    else if ch == b'['
    then bracket
    else if ch == b'-' || is_digit ch
    then numeric
    else other

-- What a round of parseArray or parseObject meets.
pub data Mark : Type 0 where
  closes separates starts strays : Mark

abbrev pub array_mark : ℕ → Mark
array_mark ch = if ch == b']' then closes else if ch == b',' then separates else starts

abbrev pub object_mark : ℕ → Mark
object_mark ch =
    if ch == b'}'
    then closes
    else if ch == b','
    then separates
    else if ch == b'"'
    then starts
    else strays

-- The head of parseArray and parseObject: the depth test, then the container's own node.
unfoldable pub open_container : ParseContext → ℕ → ℕ → Bytes → Parsed ℕ
open_container c depth node_count s =
    if ltb (c.max_depth) (suc depth)
    then rejected nesting_depth_exceeded s
    else new_node c node_count s

abbrev pub is_rejecting : DuplicateKeyPolicy → Bool
is_rejecting reject_duplicate_keys = true
is_rejecting _ = false

-- The member's value under the policy for duplicates.
abbrev pub store_duplicate : DuplicateKeyPolicy → Bytes → Value → Members → Members
store_duplicate keep_last_duplicate key v ms = put_member key v ms
store_duplicate _ key v ms = ms

abbrev pub store_member : DuplicateKeyPolicy → Bytes → Value → Members → Option Value → Members
store_member policy key v ms (some old) = store_duplicate policy key v ms
store_member policy key v ms none = put_member key v ms

abbrev pub is_duplicate : Option Value → Bool
is_duplicate none = false
is_duplicate (some v) = true

-- A name, its duplicate test and the colon behind it; s starts at the name's quote.
abbrev pub colon_after : Bytes → Parsed (Unit {0}) → Parsed Bytes
colon_after key (parsed u rest) = parsed key rest
colon_after key (rejected message at) = rejected message at
colon_after key stalled = stalled

abbrev pub checked_key : ParseContext → Members → Bytes → Parsed Bytes → Parsed Bytes
checked_key c ms s (parsed key rest) =
    if is_duplicate (find_member key ms) && is_rejecting (c.duplicate_keys)
    then rejected duplicate_object_key s
    else colon_after key (skip_colon rest)
checked_key c ms s (rejected message at) = rejected message at
checked_key c ms s stalled = stalled

unfoldable pub parse_key : ParseContext → Members → Bytes → Parsed Bytes
parse_key c ms s = checked_key c ms s (extract_string s)

unfoldable mutual
  pub parse_value : ℕ → ParseContext → ℕ → ℕ → Bytes → Parsed (Value × ℕ)
  parse_value zero c depth node_count s = stalled
  parse_value (suc f) c depth node_count s = elim (skip_whitespace s) [
    | [] ↦ rejected unexpected_end []
    | ch ∷ t ↦ elim (lead ch) [
      | quote ↦ parse_string c node_count (ch ∷ t)
      | brace ↦ elim (open_container c depth node_count (ch ∷ t)) [
        | parsed n at ↦ parse_members f c (suc depth) n false false no_members t
        | rejected message at ↦ rejected message at
        | stalled ↦ stalled
      ]
      | bracket ↦ elim (open_container c depth node_count (ch ∷ t)) [
        | parsed n at ↦ parse_items f c (suc depth) n false false no_items t
        | rejected message at ↦ rejected message at
        | stalled ↦ stalled
      ]
      | numeric ↦ parse_number c node_count (ch ∷ t)
      | other ↦ parse_keyword c node_count (ch ∷ t)
    ]
  ]

  -- The loop of parseArray, under bExpectValue and bAny.
  pub parse_items : ℕ → ParseContext → ℕ → ℕ → Bool → Bool → Items → Bytes → Parsed (Value × ℕ)
  parse_items zero c depth node_count expect_value any xs s = stalled
  parse_items (suc f) c depth node_count expect_value any xs s = elim (skip_whitespace s) [
    | [] ↦ rejected unterminated_array []
    | ch ∷ t ↦ elim (array_mark ch) [
      | closes ↦
          if expect_value
          then rejected trailing_comma_in_array (ch ∷ t)
          else parsed (array xs, node_count) t
      | separates ↦ elim (not any || expect_value) [
        | true ↦ rejected unexpected_comma_in_array (ch ∷ t)
        | false ↦ parse_items f c depth node_count true any xs t
      ]
      | _ ↦ elim (any && not expect_value) [
        | true ↦ rejected missing_comma_in_array (ch ∷ t)
        | false ↦ elim (parse_value f c depth node_count (ch ∷ t)) [
          | parsed p rest ↦ parse_items f c depth (p.1) false true (push_item xs (p.0)) rest
          | rejected message at ↦ rejected message at
          | stalled ↦ stalled
        ]
      ]
    ]
  ]

  -- The loop of parseObject, under bExpectMember and bAny.
  pub parse_members : ℕ → ParseContext → ℕ → ℕ → Bool → Bool → Members → Bytes → Parsed (Value × ℕ)
  parse_members zero c depth node_count expect_member any ms s = stalled
  parse_members (suc f) c depth node_count expect_member any ms s = elim (skip_whitespace s) [
    | [] ↦ rejected unterminated_object []
    | ch ∷ t ↦ elim (object_mark ch) [
      | closes ↦
          if expect_member
          then rejected trailing_comma_in_object (ch ∷ t)
          else parsed (object ms, node_count) t
      | separates ↦ elim (not any || expect_member) [
        | true ↦ rejected unexpected_comma_in_object (ch ∷ t)
        | false ↦ parse_members f c depth node_count true any ms t
      ]
      | starts ↦ elim (any && not expect_member) [
        | true ↦ rejected missing_comma_in_object (ch ∷ t)
        | false ↦ elim (parse_key c ms (ch ∷ t)) [
          | parsed key after ↦ elim (parse_value f c depth node_count after) [
            | parsed p rest ↦
                parse_members f c depth (p.1) false true
                  (store_member (c.duplicate_keys) key (p.0) ms (find_member key ms)) rest
            | rejected message at ↦ rejected message at
            | stalled ↦ stalled
          ]
          | rejected message at ↦ rejected message at
          | stalled ↦ stalled
        ]
      ]
      | strays ↦ rejected expected_quote_for_key (ch ∷ t)
    ]
  ]

-- A round of either loop reads a character, and a value is read in two rounds at most for each.
abbrev pub enough_rounds : Bytes → ℕ
enough_rounds s = suc (2 * length s)

abbrev pub context_of : ParseOptions → (Bytes → Extraction) → ParseContext
context_of opts extract = record {
  duplicate_keys = opts.duplicate_keys;
  number_policy = opts.number_policy;
  max_depth = clamp_parse_depth (opts.max_depth);
  max_nodes = opts.max_nodes;
  extract = extract;
}

-- The document and the error object that parseTop leaves; none for a model loop out of rounds.
abbrev pub after_value : Bytes → Value → Bytes → Option (Value × ParseError)
after_value src v [] = some (v, reset_parse_error)
after_value src v (ch ∷ rest) =
    some (null, set_parse_error src (length src - length (ch ∷ rest)) trailing_characters syntax)

abbrev pub top_result : Bytes → Parsed (Value × ℕ) → Option (Value × ParseError)
top_result src (parsed p rest) = after_value src (p.0) (skip_whitespace rest)
top_result src (rejected message at) =
    some (null, set_parse_error src (length src - length at) message no_error)
top_result src stalled = none

-- `none` for the source is the null pointer.
unfoldable pub parse_top :
    ParseOptions → (Bytes → Extraction) → Option Bytes → Option (Value × ParseError)
parse_top opts extract none = some (null, set_parse_error [] 0 null_input invalid_argument)
parse_top opts extract (some src) =
    if not (opts.max_input_bytes == 0) && ltb (opts.max_input_bytes) (length src)
    then some
        (null, set_parse_error src (opts.max_input_bytes) input_exceeds_max_input_bytes input_limit)
    else top_result src (parse_value (enough_rounds src) (context_of opts extract) 0 0 src)
