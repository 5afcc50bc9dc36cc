-- ===== src/Serializer/Number.antt =====
-- Numbers as text: std::to_string of the integers and _formatDouble of
-- pjsonlib/src/pjson_serialize.cpp. Ryu's d2s_buffered_n is a parameter.
use pjson.Common.{
  ℕ, zero, suc, ◌+◌, ◌-◌, ◌*◌, Bool, true, false, ◌&&◌, ◌||◌, not, Option, none, some, [], ◌∷◌,
  ◌++◌, leb, ◌==◌, if◌then◌else◌, length, take, drop,
}
use pjson.Common.Bytes.{Bytes, codes}
use pjson.Common.Int.{ℤ, pos, negsuc, difference, ltb_ℤ, ◌+ℤ◌}
use pjson.Text.Decimal.{to_decimal}
use pjson.Value.{Double, finite}

unfoldable pub integer_text : ℤ → Bytes
integer_text (pos n) = to_decimal n
integer_text (negsuc n) = b'-' ∷ to_decimal (suc n)

-- The loop that lowers E.
abbrev pub lower_exponent : Bytes → Bytes
lower_exponent [] = []
lower_exponent (c ∷ s) = (if c == b'E' then b'e' else c) ∷ lower_exponent s

-- result.substr(0, exponent), and what follows the e, when there is one.
abbrev pub split_at : ℕ → Bytes → Option (Bytes × Bytes)
split_at mark [] = none
split_at mark (c ∷ s) = elim (c == mark) [
  | true ↦ some ([], s)
  | false ↦ elim (split_at mark s) [ none ↦ none | some p ↦ some (c ∷ p.0, p.1) ]
]

abbrev pub exponent_digits : ℕ → Bytes → ℕ
exponent_digits value [] = value
exponent_digits value (c ∷ s) = exponent_digits (value * 10 + (c - b'0')) s

abbrev pub exponent_value : Bytes → ℤ
exponent_value [] = pos 0
exponent_value (c ∷ s) =
    if c == b'-'
    then difference 0 (exponent_digits 0 s)
    else if c == b'+'
    then pos (exponent_digits 0 s)
    else pos (exponent_digits 0 (c ∷ s))

abbrev pub without_dot : Bytes → Bytes
without_dot digits = elim (split_at b'.' digits) [ none ↦ digits | some p ↦ p.0 ++ p.1 ]

abbrev pub zeros : ℕ → Bytes
zeros zero = []
zeros (suc n) = b'0' ∷ zeros n

-- The digits with a point before position decimalPosition.
abbrev pub place_point : ℤ → Bytes → Bytes
place_point (pos zero) digits = codes "0." ++ digits
place_point (negsuc n) digits = codes "0." ++ (zeros (suc n) ++ digits)
place_point (pos (suc n)) digits =
    if leb (length digits) (suc n)
    then digits ++ zeros (suc n - length digits)
    else take (suc n) digits ++ (b'.' ∷ drop (suc n) digits)

abbrev pub positional : Bytes → ℤ → Bytes
positional [] exponent = place_point (pos 1 +ℤ exponent) (without_dot [])
positional (c ∷ mantissa) exponent =
    if c == b'-'
    then b'-' ∷ place_point (pos 1 +ℤ exponent) (without_dot mantissa)
    else place_point (pos 1 +ℤ exponent) (without_dot (c ∷ mantissa))

-- std::numeric_limits<double>::digits10 is 15.
abbrev pub expand_exponent : Bytes → Option (Bytes × Bytes) → Bytes
expand_exponent text none = text
expand_exponent text (some (mantissa, exponent)) =
    if not (ltb_ℤ (exponent_value exponent) (difference 0 4))
      && ltb_ℤ (exponent_value exponent) (pos 15)
    then positional mantissa (exponent_value exponent)
    else text

abbrev pub looks_integral : Bytes → Bool
looks_integral [] = true
looks_integral (c ∷ s) = not (c == b'.' || c == b'e' || c == b'E') && looks_integral s

abbrev pub with_fraction : Bytes → Bytes
with_fraction text = if looks_integral text then text ++ codes ".0" else text

-- shortest is d2s_buffered_n.
unfoldable pub format_double : (Double → Bytes) → Double → Bytes
format_double shortest (finite negative scaled) =
    let text = lower_exponent (shortest (finite negative scaled)) in
    with_fraction (expand_exponent text (split_at b'e' text))
format_double shortest d = codes "null"
