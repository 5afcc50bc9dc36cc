-- ===== src/Text/Utf8.antt =====
-- UTF-8: _utf8Len of pjsonlib/src/pjson.cpp and appendUtf8 of pjson_parser.cpp. Masks and shifts of
-- a byte are written by `/` and `%`: (c & 0xE0) == 0xC0 is c / 32 == 6, and c & 0x3F is c % 64.
pub mod RoundTrip
use pjson.Common.{
  ℕ, zero, suc, ◌+◌, ◌*◌, ◌/◌, ◌%◌, Bool, true, false, ◌||◌, Option, none, some, List, [], ◌∷◌, ltb,
  leb, ◌==◌, within, if◌then◌else◌,
}
use pjson.Common.Bytes.{Bytes}

-- k continuation bytes behind the bits of a lead byte.
unfoldable pub tail_code : ℕ → ℕ → Bytes → Option ℕ
tail_code zero cp s = some cp
tail_code (suc k) cp [] = none
tail_code (suc k) cp (ck ∷ s) = if ck / 64 == 2 then tail_code k (cp * 64 + ck % 64) s else none

-- Overlong, beyond Unicode, or a surrogate half.
abbrev pub is_bad_code : ℕ → ℕ → Bool
is_bad_code lo cp = ltb cp lo || ltb 0x10FFFF cp || within 0xD800 0xDFFF cp

abbrev checked_length : ℕ → ℕ → Option ℕ → ℕ
checked_length n lo none = 0
checked_length n lo (some cp) = if is_bad_code lo cp then 0 else n

-- The length of the valid sequence at the front of the bytes from pos to end, or 0.
unfoldable pub utf8_len : Bytes → ℕ
unfolding tail_code
utf8_len [] = 0
utf8_len (c0 ∷ s) =
    if ltb c0 0x80
    then 1
    else if c0 / 32 == 6
    then checked_length 2 0x80 (tail_code 1 (c0 % 32) s)
    else if c0 / 16 == 14
    then checked_length 3 0x800 (tail_code 2 (c0 % 16) s)
    else if c0 / 8 == 30
    then checked_length 4 0x10000 (tail_code 3 (c0 % 8) s)
    else 0

abbrev continuation : ℕ → ℕ
continuation bits = 0x80 + bits % 64

unfoldable pub append_utf8 : ℕ → Bytes
append_utf8 cp =
    if leb cp 0x7F
    then cp ∷ []
    else if leb cp 0x7FF
    then (0xC0 + cp / 64) ∷ continuation cp ∷ []
    else if leb cp 0xFFFF
    then (0xE0 + cp / 4096) ∷ continuation (cp / 64) ∷ continuation cp ∷ []
    else (0xF0 + cp / 262144)
      ∷ continuation (cp / 4096)
      ∷ continuation (cp / 64)
      ∷ continuation cp
      ∷ []
