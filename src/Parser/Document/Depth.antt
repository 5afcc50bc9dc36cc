-- ===== src/Parser/Document/Depth.antt =====
-- The nesting of a parsed document against the depth limit of parseArray and parseObject.
pub mod Cases
pub mod Limit
use pjson.Common.{
  ℕ, zero, suc, ◌+◌, ◌≤◌, ◌<◌, ◌≡◌, ◌⊎◌, refl, sym, ap, ◌∙◌, subst, Bool, true, false, ◌&&◌, ◌||◌,
  not, Option, none, some, [], ◌∷◌, arith, max, drop, take, Bool-cases, Option-cases, inl, inr,
  if◌then◌else◌, ltb, leb, ◌==◌, length,
}
use pjson.Common.Bytes.{Bytes, bytes_eq}
use pjson.Common.Int.{ℤ, pos, negsuc}
use pjson.Value.{
  Value, Items, Members, null, string, int, uint, double, boolean, array, object, no_items, item,
  no_members, member, Double,
}
use pjson.Value.ArrayStorage.{push_item}
use pjson.Value.ObjectStorage.{find_member, put_member}
use pjson.Parser.{Parsed, parsed, rejected, stalled}
use pjson.Parser.Number.{
  NumberPolicy, Extraction, NumberToken, Converted, converted, not_converted, scan_json_number,
  convert_number_token, parse_double, to_int64, to_uint64, converted_double, converted_integer,
  allows_lossy,
}
use pjson.Parser.Position.{ParseError}
use pjson.Parser.Tokens.{
  ParseOptions, ParseContext, DuplicateKeyPolicy, reject_duplicate_keys, keep_first_duplicate,
  keep_last_duplicate, clamp_parse_depth, skip_whitespace, new_node, with_node, extract_string,
  parse_string, string_value, parse_number, scanned_value, number_value, parse_keyword,
  keyword_value, match_keyword,
}
use pjson.Parser.Document.{
  Lead, quote, brace, bracket, numeric, other, lead, Mark, closes, separates, starts, strays,
  array_mark, object_mark, open_container, store_member, parse_key, parse_value, parse_items,
  parse_members, enough_rounds, context_of, top_result, after_value, parse_top,
}

-- The number of containers around the innermost node.
unfoldable mutual
  pub value_depth : Value → ℕ
  value_depth (array xs) = suc (items_depth xs)
  value_depth (object ms) = suc (members_depth ms)
  value_depth _ = 0

  pub items_depth : Items → ℕ
  items_depth no_items = 0
  items_depth (item v xs) = max (value_depth v) (items_depth xs)

  pub members_depth : Members → ℕ
  members_depth no_members = 0
  members_depth (member k v ms) = max (value_depth v) (members_depth ms)

-- The value that is read below d containers is within the limit m.
abbrev pub NestsWithin : ℕ → ℕ → Parsed (Value × ℕ) → Type 0
NestsWithin m d (parsed p rest) = value_depth (p.0) + d ≤ m
NestsWithin m d (rejected message at) = Unit
NestsWithin m d stalled = Unit

pub items_depth-push_item :
    (xs : Items) (v : Value) (b : ℕ)
    → items_depth xs ≤ b
    → value_depth v ≤ b
    → items_depth (push_item xs v) ≤ b
unfolding push_item value_depth
items_depth-push_item no_items v b h k = omega (arith, k)
items_depth-push_item (item w xs) v b h k =
    omega (arith, h, items_depth-push_item xs v b (omega (arith, h)) k)

members_depth-put_member :
    (key : Bytes) (v : Value) (ms : Members) (b : ℕ)
    → members_depth ms ≤ b
    → value_depth v ≤ b
    → members_depth (put_member key v ms) ≤ b
unfolding put_member value_depth
members_depth-put_member key v no_members b h k = omega (arith, k)
members_depth-put_member key v (member j w ms) b h k = elim (Bool-cases (bytes_eq j key)) [
  | inl same ↦ rw same (omega (arith, h, k))
  | inr differs ↦
      rw differs (omega (arith, h, members_depth-put_member key v ms b (omega (arith, h)) k))
]

pub members_depth-store_member :
    (policy : DuplicateKeyPolicy) (key : Bytes) (v : Value) (ms : Members) (o : Option Value)
    (b : ℕ)
    → members_depth ms ≤ b
    → value_depth v ≤ b
    → members_depth (store_member policy key v ms o) ≤ b
members_depth-store_member policy key v ms none b h k = members_depth-put_member key v ms b h k
members_depth-store_member reject_duplicate_keys key v ms (some w) b h k = h
members_depth-store_member keep_first_duplicate key v ms (some w) b h k = h
members_depth-store_member keep_last_duplicate key v ms (some w) b h k =
    members_depth-put_member key v ms b h k

pub with_node-NestsWithin :
    (m d : ℕ) (v : Value) (rest : Bytes) (r : Parsed ℕ)
    → d ≤ m
    → value_depth v ≡ 0
    → NestsWithin m d (with_node v rest r)
with_node-NestsWithin m d v rest (parsed k at) h leaf = omega (arith, h, leaf)
with_node-NestsWithin m d v rest (rejected message at) h leaf = tt
with_node-NestsWithin m d v rest stalled h leaf = tt

abbrev pub IsLeaf : Converted → Type 0
IsLeaf (converted v) = value_depth v ≡ 0
IsLeaf (not_converted message) = Unit

converted_double-IsLeaf :
    (allow_lossy : Bool) (o : Option (Double × Bool)) → IsLeaf (converted_double allow_lossy o)
unfolding value_depth
converted_double-IsLeaf allow_lossy none = tt
converted_double-IsLeaf allow_lossy (some (value, underflow)) = ground arith

converted_integer-IsLeaf :
    (extract : Bytes → Extraction) (allow_lossy : Bool) (s : Bytes) (z : Option ℤ) (u : Option ℕ)
    → IsLeaf (converted_integer extract allow_lossy s z u)
unfolding value_depth
converted_integer-IsLeaf extract allow_lossy s (some z) u = refl
converted_integer-IsLeaf extract allow_lossy s none (some n) = refl
converted_integer-IsLeaf extract true s none none =
    converted_double-IsLeaf true (parse_double extract s)
converted_integer-IsLeaf extract false s none none = tt

convert_number_token-IsLeaf :
    (extract : Bytes → Extraction) (policy : NumberPolicy) (token : NumberToken)
    → IsLeaf (convert_number_token extract policy token)
unfolding convert_number_token
convert_number_token-IsLeaf extract policy token = elim (Bool-cases (token.is_float)) [
  | inl float ↦
      rw float (converted_double-IsLeaf (allows_lossy policy) (parse_double extract (token.text)))
  | inr integer ↦ rw integer (
      converted_integer-IsLeaf extract (allows_lossy policy) (token.text) (to_int64 (token.text))
        (to_uint64 (token.text)))
]

number_value-NestsWithin :
    (c : ParseContext) (m d k : ℕ) (s rest : Bytes) (r : Converted)
    → d ≤ m
    → IsLeaf r
    → NestsWithin m d (number_value c k s rest r)
number_value-NestsWithin c m d k s rest (converted v) h leaf =
    with_node-NestsWithin m d v rest (new_node c k s) h leaf
number_value-NestsWithin c m d k s rest (not_converted message) h leaf = tt

scanned_value-NestsWithin :
    (c : ParseContext) (m d k : ℕ) (s : Bytes) (r : Parsed NumberToken)
    → d ≤ m
    → NestsWithin m d (scanned_value c k s r)
scanned_value-NestsWithin c m d k s (parsed token rest) h =
    number_value-NestsWithin c m d k s rest
      (convert_number_token (c.extract) (c.number_policy) token) h
      (convert_number_token-IsLeaf (c.extract) (c.number_policy) token)
scanned_value-NestsWithin c m d k s (rejected message at) h = tt
scanned_value-NestsWithin c m d k s stalled h = tt

pub parse_number-NestsWithin :
    (c : ParseContext) (m d k : ℕ) (s : Bytes) → d ≤ m → NestsWithin m d (parse_number c k s)
unfolding parse_number
parse_number-NestsWithin c m d k s h = scanned_value-NestsWithin c m d k s (scan_json_number s) h

string_value-NestsWithin :
    (c : ParseContext) (m d k : ℕ) (r : Parsed Bytes) → d ≤ m → NestsWithin m d (string_value c k r)
unfolding value_depth
string_value-NestsWithin c m d k (parsed s rest) h =
    with_node-NestsWithin m d (string s) rest (new_node c k rest) h refl
string_value-NestsWithin c m d k (rejected message at) h = tt
string_value-NestsWithin c m d k stalled h = tt

pub parse_string-NestsWithin :
    (c : ParseContext) (m d k : ℕ) (s : Bytes) → d ≤ m → NestsWithin m d (parse_string c k s)
unfolding parse_string
parse_string-NestsWithin c m d k s h = string_value-NestsWithin c m d k (extract_string s) h

keyword_leaf : (s : Bytes) (p : Value × ℕ) → match_keyword s ≡ some p → value_depth (p.0) ≡ 0
unfolding match_keyword value_depth
keyword_leaf s p h = ground arith

keyword_value-NestsWithin :
    (c : ParseContext) (m d k : ℕ) (s : Bytes) (o : Option (Value × ℕ))
    → match_keyword s ≡ o
    → d ≤ m
    → NestsWithin m d (keyword_value c k s o)
keyword_value-NestsWithin c m d k s none e h = tt
keyword_value-NestsWithin c m d k s (some p) e h =
    with_node-NestsWithin m d (p.0) (drop (p.1) s) (new_node c k (drop (p.1) s)) h
      (keyword_leaf s p e)

pub parse_keyword-NestsWithin :
    (c : ParseContext) (m d k : ℕ) (s : Bytes) → d ≤ m → NestsWithin m d (parse_keyword c k s)
unfolding parse_keyword
parse_keyword-NestsWithin c m d k s h = keyword_value-NestsWithin c m d k s (match_keyword s) refl h
