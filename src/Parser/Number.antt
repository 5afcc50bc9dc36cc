-- ===== src/Parser/Number.antt =====
-- Numbers: scanJsonNumber, convertNumberToken and parseDouble of pjsonlib/src/pjson_parser.cpp.
-- The extraction of a double from an istringstream is a parameter, since the source itself leaves
-- the value and the state that a range failure yields to the implementation of the stream.
use pjson.Common.{
  ℕ, zero, suc, ◌+◌, ◌-◌, ◌*◌, ◌/◌, ◌^◌, Bool, true, false, ◌&&◌, ◌||◌, not, Option, none, some, [],
  ◌∷◌, ◌++◌, ltb, leb, ◌==◌, if◌then◌else◌,
}
use pjson.Common.Bytes.{Bytes}
use pjson.Common.Int.{ℤ, pos, ltb_ℤ, difference, ◌+ℤ◌, ◌-ℤ◌}
use pjson.Value.{Value, int, uint, double, Double, nan, infinite, finite}
use pjson.Text.Decimal.{is_digit, spelled}
use pjson.Parser.{
  Message, Parsed, parsed, rejected, expected_digit, fraction_needs_digit, exponent_needs_digit,
  number_out_of_range, integer_out_of_range, number_underflows, unexpected_end,
}

-- The text of a token, and whether it has a fraction or an exponent.
pub record NumberToken : Type 0 where
  pub text : Bytes
  pub is_float : Bool

-- A run of digits, and what follows it.
unfoldable pub take_digits : Bytes → Bytes × Bytes
take_digits [] = ([], [])
take_digits (ch ∷ s) =
    let more = take_digits s in if is_digit ch then (ch ∷ more.0, more.1) else ([], ch ∷ s)

abbrev pub starts_with_digit : Bytes → Bool
starts_with_digit [] = false
starts_with_digit (ch ∷ s) = is_digit ch

abbrev pub exponent_digits : Bytes → Bytes → Parsed NumberToken
exponent_digits text s =
    if starts_with_digit s
    then parsed (record { text = text ++ (take_digits s).0; is_float = true }) ((take_digits s).1)
    else rejected exponent_needs_digit s

abbrev pub exponent_sign : Bytes → Bytes → Parsed NumberToken
exponent_sign text [] = exponent_digits text []
exponent_sign text (ch ∷ s) =
    if ch == b'+' || ch == b'-'
    then exponent_digits (text ++ ch ∷ []) s
    else exponent_digits text (ch ∷ s)

abbrev pub scan_exponent : Bytes → Bool → Bytes → Parsed NumberToken
scan_exponent text is_float [] = parsed (record { text = text; is_float = is_float }) []
scan_exponent text is_float (ch ∷ s) =
    if ch == b'e' || ch == b'E'
    then exponent_sign (text ++ ch ∷ []) s
    else parsed (record { text = text; is_float = is_float }) (ch ∷ s)

abbrev pub scan_fraction : Bytes → Bytes → Parsed NumberToken
scan_fraction text [] = scan_exponent text false []
scan_fraction text (ch ∷ s) =
    if ch == b'.'
    then (if starts_with_digit s
        then scan_exponent (text ++ ch ∷ (take_digits s).0) true ((take_digits s).1)
        else rejected fraction_needs_digit s)
    else scan_exponent text false (ch ∷ s)

abbrev pub scan_integer : Bytes → Bytes → Parsed NumberToken
scan_integer sign [] = rejected expected_digit []
scan_integer sign (ch ∷ s) =
    if ch == b'0'
    then scan_fraction (sign ++ ch ∷ []) s
    else if is_digit ch
    then scan_fraction (sign ++ ch ∷ (take_digits s).0) ((take_digits s).1)
    else rejected expected_digit (ch ∷ s)

unfoldable pub scan_json_number : Bytes → Parsed NumberToken
scan_json_number [] = rejected unexpected_end []
scan_json_number (ch ∷ s) =
    if ch == b'-' then scan_integer (ch ∷ []) s else scan_integer [] (ch ∷ s)

-- What `in >> value` leaves behind: the value, in.fail(), in.eof(), and whether in.peek() is eof.
pub record Extraction : Type 0 where
  pub value : Double
  pub failed : Bool
  pub eof : Bool
  pub at_end : Bool

abbrev pub is_finite : Double → Bool
is_finite nan = false
is_finite (infinite negative) = false
is_finite (finite negative scaled) = true

abbrev pub is_zero : Double → Bool
is_zero (finite negative zero) = true
is_zero _ = false

-- aText[i] up to the exponent mark, and what follows the mark.
abbrev pub split_exponent : Bytes → Bytes × Option Bytes
split_exponent [] = ([], none)
split_exponent (ch ∷ s) =
    let more = split_exponent s in
    if ch == b'e' || ch == b'E' then ([], some s) else (ch ∷ more.0, more.1)

abbrev pub drop_sign : Bytes → Bytes
drop_sign [] = []
drop_sign (ch ∷ s) = if ch == b'-' then s else ch ∷ s

abbrev digits_before_point : Bytes → ℕ
digits_before_point [] = 0
digits_before_point (ch ∷ s) =
    let more = digits_before_point s in if ch == b'.' then 0 else suc more

-- The ordinal, among the digits, of the first that is not zero.
abbrev pub first_nonzero : ℕ → Bytes → Option ℕ
first_nonzero ordinal [] = none
first_nonzero ordinal (ch ∷ s) = elim (ch == b'.') [
  | true ↦ first_nonzero ordinal s
  | false ↦ elim (ch == b'0') [ true ↦ first_nonzero (suc ordinal) s | false ↦ some ordinal ]
]

abbrev exponent_cap : ℕ
exponent_cap = 1000000000

abbrev exponent_magnitude : ℕ → Bytes → ℕ
exponent_magnitude explicit [] = explicit
exponent_magnitude explicit (ch ∷ s) =
    let more = exponent_magnitude (explicit * 10 + (ch - b'0')) s in
    if ltb ((exponent_cap - (ch - b'0')) / 10) explicit then exponent_cap else more

abbrev signed_exponent : Bytes → ℤ
signed_exponent [] = pos 0
signed_exponent (ch ∷ s) =
    if ch == b'-'
    then difference 0 (exponent_magnitude 0 s)
    else if ch == b'+'
    then pos (exponent_magnitude 0 s)
    else pos (exponent_magnitude 0 (ch ∷ s))

abbrev explicit_exponent : Option Bytes → ℤ
explicit_exponent none = pos 0
explicit_exponent (some s) = signed_exponent s

abbrev effective_exponent : ℤ → ℤ → ℤ
effective_exponent explicit base =
    if ltb_ℤ (pos exponent_cap -ℤ base) explicit
    then pos exponent_cap
    else if ltb_ℤ explicit (difference 0 exponent_cap -ℤ base)
    then difference 0 exponent_cap
    else explicit +ℤ base

-- The last tests of parseDouble: the value and the underflow flag, none when it returns false.
abbrev range_failure : Double → Bytes → Option Bytes → ℕ → Option (Double × Bool)
range_failure value significand mark first =
    let base = difference (digits_before_point significand) (suc first) in
    if ltb_ℤ (effective_exponent (explicit_exponent mark) base) (pos 0)
    then some (value, is_zero value)
    else none

abbrev pub classify_range :
    Extraction → Bool → Bytes → Option Bytes → Option ℕ → Option (Double × Bool)
classify_range r clean significand mark none = some (r.value, false)
classify_range r clean significand mark (some first) =
    if clean
    then some (r.value, is_zero (r.value))
    else range_failure (r.value) significand mark first

unfoldable pub parse_double : (Bytes → Extraction) → Bytes → Option (Double × Bool)
parse_double extract s =
    let r = extract s in
    let clean = not (r.failed) && r.at_end in
    let parts = split_exponent s in
    let significand = drop_sign (parts.0) in
    if not clean && (not (r.eof) || not (is_finite (r.value)))
    then none
    else classify_range r clean significand (parts.1) (first_nonzero 0 significand)

-- Options::NumberPolicy
pub data NumberPolicy : Type 0 where
  reject_unrepresentable_numbers allow_lossy_numbers : NumberPolicy

abbrev pub allows_lossy : NumberPolicy → Bool
allows_lossy reject_unrepresentable_numbers = false
allows_lossy allow_lossy_numbers = true

pub data Converted : Type 0 where
  converted : Value → Converted
  not_converted : Message → Converted

-- strtoll on [-]digits: none is ERANGE.
unfoldable pub to_int64 : Bytes → Option ℤ
to_int64 [] = some (pos 0)
to_int64 (ch ∷ s) =
    if ch == b'-'
    then (if leb (spelled 0 s) (2 ^ 63) then some (difference 0 (spelled 0 s)) else none)
    else if ltb (spelled 0 (ch ∷ s)) (2 ^ 63)
    then some (pos (spelled 0 (ch ∷ s)))
    else none

-- strtoull, on a token without a sign.
unfoldable pub to_uint64 : Bytes → Option ℕ
to_uint64 [] = some 0
to_uint64 (ch ∷ s) =
    if ch == b'-'
    then none
    else if ltb (spelled 0 (ch ∷ s)) (2 ^ 64)
    then some (spelled 0 (ch ∷ s))
    else none

abbrev pub converted_double : Bool → Option (Double × Bool) → Converted
converted_double allow_lossy none = not_converted number_out_of_range
converted_double allow_lossy (some (value, underflow_to_zero)) =
    if not (is_finite value)
    then not_converted number_out_of_range
    else if underflow_to_zero && not allow_lossy
    then not_converted number_underflows
    else converted (double value)

abbrev pub converted_integer : (Bytes → Extraction) → Bool → Bytes → Option ℤ → Option ℕ → Converted
converted_integer extract allow_lossy s (some z) u = converted (int z)
converted_integer extract allow_lossy s none (some n) = converted (uint n)
converted_integer extract allow_lossy s none none =
    if allow_lossy
    then converted_double allow_lossy (parse_double extract s)
    else not_converted integer_out_of_range

unfoldable pub convert_number_token : (Bytes → Extraction) → NumberPolicy → NumberToken → Converted
convert_number_token extract policy token =
    let allow_lossy = allows_lossy policy in
    if token.is_float
    then converted_double allow_lossy (parse_double extract (token.text))
    else converted_integer extract allow_lossy (token.text) (to_int64 (token.text))
        (to_uint64 (token.text))
