-- ===== src/RoundTrip/Leaf.antt =====
-- The text of a value without children is read back as the value: integers, strings and keywords.
use pjson.Common.{
  ℕ, zero, suc, ◌+◌, ◌^◌, ◌≤◌, ◌<◌, ◌≡◌, ◌⊎◌, refl, sym, ap, ◌∙◌, subst, Bool, true, false, ◌||◌,
  Option, none, some, [], ◌∷◌, ◌++◌, drop, arith, ◌==◌, inl, inr,
}
use pjson.Common.Bytes.{Bytes, codes, bytes_eq}
use pjson.Common.Int.{ℤ, pos, negsuc, difference}
use pjson.Value.{Value, null, string, int, uint, double, boolean, Double}
use pjson.Text.Decimal.{
  to_decimal, is_digit, spelled, AllDigits, spelled-to_decimal, to_decimal-AllDigits,
  to_decimal-zero, to_decimal-head,
}
use pjson.Text.Escape.{escaped, write_escaped}
use pjson.Parser.{parsed}
use pjson.Parser.Number.{
  NumberToken, take_digits, scan_fraction, scan_integer, scan_json_number, to_int64, to_uint64,
  convert_number_token, converted, allows_lossy, converted_integer,
}
use pjson.Parser.StringBody.RoundTrip.{decode_string_body-write_escaped}
use pjson.Parser.Tokens.{
  ParseContext, new_node, with_node, parse_keyword, keyword_value, match_keyword, extract_string,
  parse_string, string_value, parse_number, scanned_value, number_value,
}
use pjson.Serializer.Number.{integer_text}

-- A number ends in front of these bytes.
abbrev pub Stops : Bytes → Type 0
Stops [] = Unit
Stops (c ∷ s) = (is_digit c ≡ false) × ((c == b'.') ≡ false) × ((c == b'e' || c == b'E') ≡ false)

-- One more node is within the budget.
abbrev pub HasRoom : ParseContext → ℕ → ℕ → Type 0
HasRoom c k n = (c.max_nodes ≡ 0) ⊎ (k + n ≤ c.max_nodes)

pub new_node-room :
    (c : ParseContext) (k : ℕ) (s : Bytes) → HasRoom c k 1 → new_node c k s ≡ parsed (suc k) s
unfolding new_node
new_node-room c k s (inl h) = ground arith
new_node-room c k s (inr h) = ground arith

take_digits-stop : (rest : Bytes) → Stops rest → take_digits rest ≡ ([], rest)
unfolding take_digits
take_digits-stop [] h = refl
take_digits-stop (c ∷ s) h = rw (h.0) refl

take_digits-append :
    (ds rest : Bytes) → AllDigits ds → Stops rest → take_digits (ds ++ rest) ≡ (ds, rest)
unfolding take_digits
take_digits-append [] rest a h = take_digits-stop rest h
take_digits-append (d ∷ ds) rest a h =
    rw (a.0) (ap (λ (p : Bytes × Bytes). (d ∷ p.0, p.1)) (take_digits-append ds rest (a.1) h))

scan_fraction-stop :
    (text rest : Bytes)
    → Stops rest
    → scan_fraction text rest ≡ parsed (record { text = text; is_float = false }) rest
scan_fraction-stop text [] h = refl
scan_fraction-stop text (c ∷ s) h = rw (h.1) (rw (h.2) refl)

scan_integer-head :
    (sign : Bytes) (c : ℕ) (s rest : Bytes)
    → b'0' < c
    → c ≤ b'9'
    → AllDigits s
    → Stops rest
    → scan_integer sign (c ∷ s ++ rest)
      ≡ parsed (record { text = sign ++ c ∷ s; is_float = false }) rest
scan_integer-head sign c s rest lo hi a h =
    let zero_test : (c == b'0') ≡ false = ground arith in
    let digit : is_digit c ≡ true = ground arith in
    rw (zero_test, digit, take_digits-append s rest a h) (scan_fraction-stop (sign ++ c ∷ s) rest h)

scan_integer-decimal :
    (sign : Bytes) (n : ℕ) (rest : Bytes)
    → Stops rest
    → scan_integer sign (to_decimal n ++ rest)
      ≡ parsed (record { text = sign ++ to_decimal n; is_float = false }) rest
scan_integer-decimal sign zero rest h =
    subst
      (λ t.
        scan_integer sign (t ++ rest) ≡ parsed (record { text = sign ++ t; is_float = false }) rest)
      (sym to_decimal-zero) (scan_fraction-stop (sign ++ b'0' ∷ []) rest h)
scan_integer-decimal sign (suc n) rest h =
    let (c, s, e, lo, hi) = to_decimal-head (suc n) (omega arith) in
    subst
      (λ t.
        scan_integer sign (t ++ rest) ≡ parsed (record { text = sign ++ t; is_float = false }) rest)
      (sym e)
      (scan_integer-head sign c s rest lo hi ((subst AllDigits e (to_decimal-AllDigits (suc n))).1)
        h)

-- A decimal starts with a digit.
pub decimal_digit :
    (n : ℕ) → (c : ℕ) × (s : Bytes) × (to_decimal n ≡ c ∷ s) × (b'0' ≤ c) × (c ≤ b'9')
decimal_digit zero = (b'0', [], to_decimal-zero, omega arith, omega arith)
decimal_digit (suc n) =
    let (c, s, e, lo, hi) = to_decimal-head (suc n) (omega arith) in
    (c, s, e, omega (arith, lo), hi)

scan_json_number-integer :
    (z : ℤ) (rest : Bytes)
    → Stops rest
    → scan_json_number (integer_text z ++ rest)
      ≡ parsed (record { text = integer_text z; is_float = false }) rest
unfolding scan_json_number integer_text
scan_json_number-integer (pos n) rest h =
    let (c, s, e, lo, hi) = decimal_digit n in
    let plain : (c == b'-') ≡ false = ground arith in
    let scanned = scan_integer-decimal [] n rest h in
    subst (λ t. scan_json_number (t ++ rest) ≡ parsed (record { text = t; is_float = false }) rest)
      (sym e)
      (rw plain (
        subst
          (λ t. scan_integer [] (t ++ rest) ≡ parsed (record { text = t; is_float = false }) rest) e
          scanned))
scan_json_number-integer (negsuc n) rest h = scan_integer-decimal (b'-' ∷ []) (suc n) rest h

-- The range of int64_t.
abbrev pub IsInt64 : ℤ → Type 0
IsInt64 (pos n) = n < 2 ^ 63
IsInt64 (negsuc n) = n < 2 ^ 63

difference_neg : (n : ℕ) → difference 0 (suc n) ≡ negsuc n
difference_neg n = ground arith

to_int64-integer_text : (z : ℤ) → IsInt64 z → to_int64 (integer_text z) ≡ some z
unfolding to_int64 integer_text
to_int64-integer_text (pos n) h =
    let (c, s, e, lo, hi) = decimal_digit n in
    let plain : (c == b'-') ≡ false = ground arith in
    let value : spelled 0 (c ∷ s) ≡ n = ap (spelled 0) (sym e) ∙ spelled-to_decimal n in
    subst (λ t. to_int64 t ≡ some (pos n)) (sym e) (rw plain (rw value (ground (arith, h))))
to_int64-integer_text (negsuc n) h =
    rw (spelled-to_decimal (suc n)) (ground (arith, h, difference_neg n))

to_int64-large : (n : ℕ) → 2 ^ 63 ≤ n → to_int64 (to_decimal n) ≡ none
unfolding to_int64
to_int64-large n h =
    let (c, s, e, lo, hi) = decimal_digit n in
    let plain : (c == b'-') ≡ false = ground arith in
    let value : spelled 0 (c ∷ s) ≡ n = ap (spelled 0) (sym e) ∙ spelled-to_decimal n in
    subst (λ t. to_int64 t ≡ none) (sym e) (rw plain (rw value (ground (arith, h))))

to_uint64-decimal : (n : ℕ) → n < 2 ^ 64 → to_uint64 (to_decimal n) ≡ some n
unfolding to_uint64
to_uint64-decimal n h =
    let (c, s, e, lo, hi) = decimal_digit n in
    let plain : (c == b'-') ≡ false = ground arith in
    let value : spelled 0 (c ∷ s) ≡ n = ap (spelled 0) (sym e) ∙ spelled-to_decimal n in
    subst (λ t. to_uint64 t ≡ some n) (sym e) (rw plain (rw value (ground (arith, h))))

-- The routines that turn a token into a node.
parse_number-token :
    (c : ParseContext) (k : ℕ) (s rest : Bytes) (token : NumberToken) (v : Value)
    → HasRoom c k 1
    → scan_json_number s ≡ parsed token rest
    → convert_number_token (c.extract) (c.number_policy) token ≡ converted v
    → parse_number c k s ≡ parsed (v, suc k) rest
unfolding parse_number
parse_number-token c k s rest token v room scan conv =
    ap (scanned_value c k s) scan
    ∙ ap (number_value c k s rest) conv
    ∙ ap (with_node v rest) (new_node-room c k s room)

pub parse_number-int :
    (c : ParseContext) (k : ℕ) (z : ℤ) (rest : Bytes)
    → HasRoom c k 1
    → IsInt64 z
    → Stops rest
    → parse_number c k (integer_text z ++ rest) ≡ parsed (int z, suc k) rest
unfolding convert_number_token
parse_number-int c k z rest room word h =
    parse_number-token c k (integer_text z ++ rest) rest _ (int z) room
      (scan_json_number-integer z rest h)
      (ap
        (λ (o : Option ℤ).
          converted_integer (c.extract) (allows_lossy (c.number_policy)) (integer_text z) o
            (to_uint64 (integer_text z)))
        (to_int64-integer_text z word))

pub parse_number-uint :
    (c : ParseContext) (k n : ℕ) (rest : Bytes)
    → HasRoom c k 1
    → 2 ^ 63 ≤ n
    → n < 2 ^ 64
    → Stops rest
    → parse_number c k (integer_text (pos n) ++ rest) ≡ parsed (uint n, suc k) rest
unfolding convert_number_token integer_text
parse_number-uint c k n rest room lo hi h =
    parse_number-token c k (integer_text (pos n) ++ rest) rest _ (uint n) room
      (scan_json_number-integer (pos n) rest h)
      (ap
          (λ (o : Option ℤ).
            converted_integer (c.extract) (allows_lossy (c.number_policy)) (to_decimal n) o
              (to_uint64 (to_decimal n)))
          (to_int64-large n lo)
        ∙ ap
            (λ (o : Option ℕ).
              converted_integer (c.extract) (allows_lossy (c.number_policy)) (to_decimal n) none o)
            (to_uint64-decimal n hi))

-- The text of a double is a token with a fraction or an exponent, and the stream reads it as the
-- double.
abbrev pub ReadsBack : ParseContext → Bytes → Double → Type 0
ReadsBack c text d =
    ((rest : Bytes)
      → Stops rest
      → scan_json_number (text ++ rest) ≡ parsed (record { text = text; is_float = true }) rest)
    × (convert_number_token (c.extract) (c.number_policy) (record { text = text; is_float = true })
        ≡ converted (double d))

pub parse_number-double :
    (c : ParseContext) (k : ℕ) (text : Bytes) (d : Double) (rest : Bytes)
    → HasRoom c k 1
    → ReadsBack c text d
    → Stops rest
    → parse_number c k (text ++ rest) ≡ parsed (double d, suc k) rest
parse_number-double c k text d rest room back h =
    parse_number-token c k (text ++ rest) rest _ (double d) room (back.0 rest h) (back.1)

keyword-value :
    (c : ParseContext) (k : ℕ) (s rest : Bytes) (v : Value) (len : ℕ)
    → HasRoom c k 1
    → match_keyword s ≡ some (v, len)
    → drop len s ≡ rest
    → parse_keyword c k s ≡ parsed (v, suc k) rest
unfolding parse_keyword
keyword-value c k s rest v len room m e =
    ap (keyword_value c k s) m
    ∙ ap (λ (t : Bytes). with_node v t (new_node c k t)) e
    ∙ ap (with_node v rest) (new_node-room c k rest room)

pub parse_keyword-null :
    (c : ParseContext) (k : ℕ) (rest : Bytes)
    → HasRoom c k 1
    → parse_keyword c k (codes "null" ++ rest) ≡ parsed (null, suc k) rest
unfolding match_keyword bytes_eq
parse_keyword-null c k rest room = keyword-value c k _ rest null 4 room refl refl

pub parse_keyword-true :
    (c : ParseContext) (k : ℕ) (rest : Bytes)
    → HasRoom c k 1
    → parse_keyword c k (codes "true" ++ rest) ≡ parsed (boolean true, suc k) rest
unfolding match_keyword bytes_eq
parse_keyword-true c k rest room = keyword-value c k _ rest (boolean true) 4 room refl refl

pub parse_keyword-false :
    (c : ParseContext) (k : ℕ) (rest : Bytes)
    → HasRoom c k 1
    → parse_keyword c k (codes "false" ++ rest) ≡ parsed (boolean false, suc k) rest
unfolding match_keyword bytes_eq
parse_keyword-false c k rest room = keyword-value c k _ rest (boolean false) 5 room refl refl

pub extract_string-written :
    (escape_non_ascii : Bool) (s e rest : Bytes)
    → write_escaped escape_non_ascii s ≡ escaped e
    → extract_string (b'"' ∷ (e ++ b'"' ∷ rest)) ≡ parsed s rest
unfolding extract_string
extract_string-written escape_non_ascii s e rest h =
    decode_string_body-write_escaped escape_non_ascii s e rest h

pub parse_string-written :
    (c : ParseContext) (k : ℕ) (escape_non_ascii : Bool) (s e rest : Bytes)
    → HasRoom c k 1
    → write_escaped escape_non_ascii s ≡ escaped e
    → parse_string c k (b'"' ∷ (e ++ b'"' ∷ rest)) ≡ parsed (string s, suc k) rest
unfolding parse_string
parse_string-written c k escape_non_ascii s e rest room h =
    ap (string_value c k) (extract_string-written escape_non_ascii s e rest h)
    ∙ ap (with_node (string s) rest) (new_node-room c k rest room)
