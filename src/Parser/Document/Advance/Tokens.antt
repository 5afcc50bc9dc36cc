-- ===== src/Parser/Document/Advance/Tokens.antt =====
-- The token routines of the parser advance: keywords, strings, numbers, names and colons.
use pjson.Common.{
  drop-length, ℕ, zero, suc, ◌≤◌, ◌<◌, ◌≡◌, refl, true, ◌&&◌, not, Option, none, some, [], ◌∷◌, leb,
  ◌==◌, arith, length, drop, Bool-cases, inl, inr,
}
use pjson.Common.Bytes.{Bytes, bytes_eq}
use pjson.Value.{Value, Members, string}
use pjson.Value.ObjectStorage.{find_member}
use pjson.Parser.{Parsed, parsed, rejected, stalled}
use pjson.Parser.Number.{
  Converted, converted, not_converted, NumberToken, scan_json_number, convert_number_token,
}
use pjson.Parser.StringBody.{decode_string_body}
use pjson.Parser.Tokens.{
  ParseContext, skip_whitespace, is_whitespace, skip_colon, new_node, parse_keyword, match_keyword,
  extract_string, parse_string, parse_number, with_node, keyword_value, string_value, number_value,
  scanned_value,
}
use pjson.Parser.Document.{checked_key, colon_after, is_duplicate, is_rejecting, parse_key}
use pjson.Parser.Document.Advance.{
  AdvancesWithin, Advances, weaken, either, decode_string_body-Advances, scan_json_number-Advances,
}

pub skip_whitespace-length : (s : Bytes) → length (skip_whitespace s) ≤ length s
unfolding skip_whitespace
skip_whitespace-length [] = omega arith
skip_whitespace-length (c ∷ s) = ground (arith, skip_whitespace-length s)

skip_colon-Advances : (s : Bytes) → Advances s (skip_colon s)
unfolding skip_colon
skip_colon-Advances [] = omega arith
skip_colon-Advances (ch ∷ s) = either (suc (length s)) (ch == b':') _ _ (omega arith) (
    either (suc (length s)) (is_whitespace ch) _ _
      (weaken (length s) (suc (length s)) (skip_colon s) (omega arith) (skip_colon-Advances s))
      (omega arith))

with_node-Advances :
    (c : ParseContext) (k n : ℕ) (at : Bytes) (v : Value) (rest : Bytes)
    → length rest < n
    → length at ≤ n
    → AdvancesWithin n (with_node v rest (new_node c k at))
unfolding new_node
with_node-Advances c k n at v rest h g =
    elim (Bool-cases (not (c.max_nodes == 0) && leb (c.max_nodes) k)) [
      | inl full ↦ rw full g
      | inr room ↦ rw room h
    ]

keyword_positive : (s : Bytes) (p : Value × ℕ) → match_keyword s ≡ some p → 0 < p.1
unfolding match_keyword
keyword_positive s p h = ground arith

keyword_length :
    (s : Bytes) (p : Value × ℕ) → match_keyword s ≡ some p → length (drop (p.1) s) < length s
unfolding match_keyword bytes_eq
keyword_length [] p h = absurd cc
keyword_length (ch ∷ s) p h = drop_shorter (p.1) ch s (keyword_positive (ch ∷ s) p h)
  where
    drop_shorter : (n ch : ℕ) (s : Bytes) → 0 < n → length (drop n (ch ∷ s)) < suc (length s)
    drop_shorter zero ch s h = elim h [ ]
    drop_shorter (suc n) ch s h = omega (arith, drop-length n s)

extract_string-Advances : (s : Bytes) → Advances s (extract_string s)
unfolding extract_string
extract_string-Advances [] = omega arith
extract_string-Advances (ch ∷ s) =
    either (suc (length s)) (ch == b'"') _ _
      (weaken (length s) (suc (length s)) (decode_string_body true s) (omega arith)
        (decode_string_body-Advances s))
      (omega arith)

string_value-Advances :
    (c : ParseContext) (k n : ℕ) (r : Parsed Bytes)
    → AdvancesWithin n r
    → AdvancesWithin n (string_value c k r)
string_value-Advances c k n (parsed s rest) h =
    with_node-Advances c k n rest (string s) rest h (omega (arith, h))
string_value-Advances c k n (rejected message at) h = h
string_value-Advances c k n stalled h = h

number_value-Advances :
    (c : ParseContext) (k : ℕ) (s rest : Bytes) (r : Converted)
    → length rest < length s
    → Advances s (number_value c k s rest r)
number_value-Advances c k s rest (converted v) h =
    with_node-Advances c k (length s) s v rest h (omega arith)
number_value-Advances c k s rest (not_converted message) h = omega arith

scanned_value-Advances :
    (c : ParseContext) (k : ℕ) (s : Bytes) (r : Parsed NumberToken)
    → Advances s r
    → Advances s (scanned_value c k s r)
scanned_value-Advances c k s (parsed token rest) h =
    number_value-Advances c k s rest (convert_number_token (c.extract) (c.number_policy) token) h
scanned_value-Advances c k s (rejected message at) h = h
scanned_value-Advances c k s stalled h = h

keyword_value-Advances :
    (c : ParseContext) (k : ℕ) (s : Bytes) (o : Option (Value × ℕ))
    → match_keyword s ≡ o
    → Advances s (keyword_value c k s o)
keyword_value-Advances c k s none h = omega arith
keyword_value-Advances c k s (some p) h =
    with_node-Advances c k (length s) (drop (p.1) s) (p.0) (drop (p.1) s) (keyword_length s p h)
      (drop-length (p.1) s)

colon_after-Advances :
    (key : Bytes) (n : ℕ) (r : Parsed (Unit {0}))
    → AdvancesWithin n r
    → AdvancesWithin n (colon_after key r)
colon_after-Advances key n (parsed u rest) h = h
colon_after-Advances key n (rejected message at) h = h
colon_after-Advances key n stalled h = h

checked_key-Advances :
    (c : ParseContext) (ms : Members) (s : Bytes) (r : Parsed Bytes)
    → Advances s r
    → Advances s (checked_key c ms s r)
checked_key-Advances c ms s (parsed key rest) h =
    either (length s) (is_duplicate (find_member key ms) && is_rejecting (c.duplicate_keys)) _ _
      (omega arith)
      (colon_after-Advances key (length s) (skip_colon rest) (
        weaken (length rest) (length s) (skip_colon rest) (omega (arith, h))
          (skip_colon-Advances rest)))
checked_key-Advances c ms s (rejected message at) h = h
checked_key-Advances c ms s stalled h = h

pub parse_string-Advances : (c : ParseContext) (k : ℕ) (s : Bytes) → Advances s (parse_string c k s)
unfolding parse_string
parse_string-Advances c k s =
    string_value-Advances c k (length s) (extract_string s) (extract_string-Advances s)

pub parse_number-Advances : (c : ParseContext) (k : ℕ) (s : Bytes) → Advances s (parse_number c k s)
unfolding parse_number
parse_number-Advances c k s =
    scanned_value-Advances c k s (scan_json_number s) (scan_json_number-Advances s)

pub parse_keyword-Advances :
    (c : ParseContext) (k : ℕ) (s : Bytes) → Advances s (parse_keyword c k s)
unfolding parse_keyword
parse_keyword-Advances c k s = keyword_value-Advances c k s (match_keyword s) refl

pub parse_key-Advances :
    (c : ParseContext) (ms : Members) (s : Bytes) → Advances s (parse_key c ms s)
unfolding parse_key
parse_key-Advances c ms s =
    checked_key-Advances c ms s (extract_string s) (extract_string-Advances s)
