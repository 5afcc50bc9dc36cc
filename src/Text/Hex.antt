-- ===== src/Text/Hex.antt =====
-- Four hexadecimal digits: pJsonParserImpl::hex4 of pjsonlib/src/pjson_parser.cpp reads them and
-- writeUnicodeEscape of pjson_serialize.cpp writes them.
use pjson.Common.{
  ℕ, ◌+◌, ◌-◌, ◌*◌, ◌/◌, ◌%◌, ◌<◌, ◌≡◌, Option, none, some, [], ◌∷◌, ◌++◌, ltb, within,
  if◌then◌else◌, arith,
}
use pjson.Common.Bytes.{Bytes}

abbrev hex_value : ℕ → Option ℕ
hex_value h =
    if within b'0' b'9' h
    then some (h - b'0')
    else if within b'a' b'f' h
    then some (h - b'a' + 10)
    else if within b'A' b'F' h
    then some (h - b'A' + 10)
    else none

abbrev shift_in : Option ℕ → Option ℕ → Option ℕ
shift_in (some n) (some d) = some (n * 16 + d)
shift_in _ _ = none

unfoldable pub hex4 : Bytes → Option ℕ
hex4 (a ∷ b ∷ c ∷ d ∷ rest) =
    shift_in (shift_in (shift_in (hex_value a) (hex_value b)) (hex_value c)) (hex_value d)
hex4 _ = none

abbrev hex_digit : ℕ → ℕ
hex_digit d = if ltb d 10 then b'0' + d else b'a' + (d - 10)

-- hex[(value >> 12) & 0x0F] and its three followers
unfoldable pub hex_digits : ℕ → Bytes
hex_digits value =
    hex_digit (value / 4096 % 16)
    ∷ hex_digit (value / 256 % 16)
    ∷ hex_digit (value / 16 % 16)
    ∷ hex_digit (value % 16)
    ∷ []

value-digit : (d : ℕ) → d < 16 → hex_value (hex_digit d) ≡ some d
value-digit d h = ground arith

-- What writeUnicodeEscape writes of a 16-bit unit, hex4 reads.
pub hex4-hex_digits :
    (value : ℕ) (rest : Bytes) → value < 65536 → hex4 (hex_digits value ++ rest) ≡ some value
unfolding hex4 hex_digits
hex4-hex_digits value rest h = rw (value-digit (value / 4096 % 16) (omega arith)) (
    rw (value-digit (value / 256 % 16) (omega arith)) (
      rw (value-digit (value / 16 % 16) (omega arith))
        (rw (value-digit (value % 16) (omega arith)) (ground arith))))
