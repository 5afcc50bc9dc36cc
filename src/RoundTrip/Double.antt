-- ===== src/RoundTrip/Double.antt =====
-- Doubles: _formatDouble of pjsonlib/src/pjson_serialize.cpp against scanJsonNumber and
-- parseDouble of pjson_parser.cpp, by the decimal numerals between them.
pub mod Format
pub mod Place
pub mod Expand
pub mod Stream
pub mod Scan
use pjson.Common.{
  ℕ, zero, suc, ◌+◌, ◌*◌, ◌^◌, ◌≡◌, Bool, true, false, Option, none, some, [], ◌∷◌, ◌++◌, ◌==◌,
  length,
}
use pjson.Common.Bytes.{Bytes}
use pjson.Common.Int.{ℤ, pos, negsuc}
use pjson.Text.Decimal.{is_digit, spelled, AllDigits}
use pjson.Value.{Double, finite}
use pjson.Parser.Number.{Extraction}
use pjson.Serializer.Number.{integer_text}

-- A JSON number in its parts: the sign, the digits before and behind the point, the exponent.
pub record Numeral : Type 0 where
  pub negative : Bool
  pub whole : Bytes
  pub fraction : Bytes
  pub exponent : Option ℤ

abbrev pub sign : Bool → Bytes
sign true = b'-' ∷ []
sign false = []

abbrev pub point : Bytes → Bytes
point [] = []
point (c ∷ s) = b'.' ∷ c ∷ s

abbrev pub mark : Option ℤ → Bytes
mark none = []
mark (some z) = b'e' ∷ integer_text z

abbrev pub numeral_text : Numeral → Bytes
numeral_text n = sign (n.negative) ++ (n.whole ++ (point (n.fraction) ++ mark (n.exponent)))

abbrev up : Option ℤ → ℕ
up (some (pos n)) = n
up _ = 0

abbrev down : Option ℤ → ℕ
down (some (negsuc n)) = suc n
down _ = 0

-- Two numerals are the same decimal number: the digits with a and with b zeros behind them spell the same
-- number, and the powers of ten that they stand for agree.
abbrev pub SameDecimal : Numeral → Numeral → Type 0
SameDecimal n m =
    (n.negative ≡ m.negative)
    × (a : ℕ) × (b : ℕ) × (spelled 0 (n.whole ++ n.fraction) * 10 ^ a
        ≡ spelled 0 (m.whole ++ m.fraction) * 10 ^ b)
    × (up (n.exponent) + down (m.exponent) + length (m.fraction) + b
        ≡ up (m.exponent) + down (n.exponent) + length (n.fraction) + a)

-- The scientific numeral with one digit before the point.
abbrev pub scientific : Bool → ℕ → Bytes → ℤ → Numeral
scientific negative c digits z = record {
  negative = negative;
  whole = c ∷ [];
  fraction = digits;
  exponent = some z;
}

-- The form of d2s_buffered_n: the scientific numeral, with a capital E.
abbrev pub ryu_text : Bool → ℕ → Bytes → ℤ → Bytes
ryu_text negative c digits z = (sign negative ++ c ∷ point digits) ++ b'E' ∷ integer_text z

-- The first digit is zero for zero alone, which is spelled 0E0.
abbrev pub IsRyuForm : ℕ → Bytes → ℤ → Type 0
IsRyuForm c digits z =
    (is_digit c ≡ true) × AllDigits digits × ((c == b'0') ≡ true → (digits ≡ []) × (z ≡ pos 0))

abbrev pub IsZero : Double → Type 0
IsZero (finite negative zero) = Unit
IsZero _ = ⊥

-- A clean extraction of all of the text.
abbrev pub extracted : Double → Extraction
extracted d = record { value = d; failed = false; eof = true; at_end = true }

-- What Ryu and the stream document of a finite double: Ryu spells it as a scientific numeral, with the
-- digit zero first for zero alone, and the stream reads the double from every numeral that is the same
-- decimal number.
abbrev pub IsSpelled : (Double → Bytes) → (Bytes → Extraction) → Double → Type 0
IsSpelled shortest extract d =
    (negative : Bool) × (c : ℕ) × (digits : Bytes) × (z : ℤ) × (shortest d
      ≡ ryu_text negative c digits z)
    × IsRyuForm c digits z
    × (IsZero d → (c == b'0') ≡ true)
    × ((n : Numeral)
        → SameDecimal n (scientific negative c digits z)
        → extract (numeral_text n) ≡ extracted d)
