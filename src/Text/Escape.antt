-- ===== src/Text/Escape.antt =====
-- The body of a JSON string as the serializer writes it: _writeEscapedTo and writeUnicodeEscape of
-- pjsonlib/src/pjson_serialize.cpp. The result is the bytes handed to the sink, none at invalidUtf8.
pub mod Accepts
use pjson.Common.{
  ℕ, zero, suc, ◌+◌, ◌-◌, ◌*◌, ◌/◌, ◌%◌, Bool, true, false, Option, none, some, [], ◌∷◌, ◌++◌, ltb,
  leb, ◌==◌, if◌then◌else◌, length, take, drop,
}
use mathlib.Core.Option
use pjson.Common.Bytes.{Bytes}
use pjson.Text.Utf8.{utf8_len}
use pjson.Text.Hex.{hex_digits}

abbrev pub unicode_escape : ℕ → Bytes
unicode_escape value = b'\\' ∷ b'u' ∷ hex_digits value

-- The letter of a two-byte escape.
abbrev pub short_escape : ℕ → Option ℕ
short_escape ch =
    if ch == b'"'
    then some b'"'
    else if ch == b'\\'
    then some b'\\'
    else if ch == 8
    then some b'b'
    else if ch == 12
    then some b'f'
    else if ch == 10
    then some b'n'
    else if ch == 13
    then some b'r'
    else if ch == 9
    then some b't'
    else none

-- codePoint of a sequence of the given length: the lead's bits, then six of each follower.
abbrev tail_bits : ℕ → ℕ → Bytes → ℕ
tail_bits zero code_point s = code_point
tail_bits (suc k) code_point [] = code_point
tail_bits (suc k) code_point (c ∷ s) = tail_bits k (code_point * 64 + c % 64) s

abbrev pub code_point_of : ℕ → ℕ → Bytes → ℕ
code_point_of byte_count ch s =
    tail_bits (byte_count - 1)
      (ch % (if byte_count == 2 then 32 else if byte_count == 3 then 16 else 8)) s

-- One escape, or the two halves of a surrogate pair.
unfoldable pub escape_code_point : ℕ → Bytes
escape_code_point code_point =
    if leb code_point 0xFFFF
    then unicode_escape code_point
    else unicode_escape (0xD800 + (code_point - 0x10000) / 1024)
      ++ unicode_escape (0xDC00 + (code_point - 0x10000) % 1024)

-- What one round writes, and the number of bytes by which it advances.
abbrev pub escape_wide : Bool → ℕ → Bytes → ℕ → Option (Bytes × ℕ)
escape_wide escape_non_ascii ch s zero = none
escape_wide true ch s (suc k) = some (escape_code_point (code_point_of (suc k) ch s), suc k)
escape_wide false ch s (suc k) = some (take (suc k) (ch ∷ s), suc k)

abbrev pub escape_plain : Bool → ℕ → Bytes → Option ℕ → Option (Bytes × ℕ)
escape_plain escape_non_ascii ch s (some letter) = some (b'\\' ∷ letter ∷ [], 1)
escape_plain escape_non_ascii ch s none =
    if ltb ch 0x20
    then some (unicode_escape ch, 1)
    else if ltb ch 0x80
    then some (ch ∷ [], 1)
    else escape_wide escape_non_ascii ch s (utf8_len (ch ∷ s))

unfoldable pub escape_piece : Bool → ℕ → Bytes → Option (Bytes × ℕ)
escape_piece escape_non_ascii ch s = escape_plain escape_non_ascii ch s (short_escape ch)

-- What is written, the return of invalidUtf8, or the end of the rounds, which the source has not.
pub data Escaped : Type 0 where
  escaped : Bytes → Escaped
  not_utf8 unfinished : Escaped

abbrev pub with_piece : Bytes → Escaped → Escaped
with_piece piece (escaped out) = escaped (piece ++ out)
with_piece piece not_utf8 = not_utf8
with_piece piece unfinished = unfinished

-- The loop, by rounds.
unfoldable pub escape_loop : ℕ → Bool → Bytes → Escaped
escape_loop zero escape_non_ascii s = unfinished
escape_loop (suc f) escape_non_ascii [] = escaped []
escape_loop (suc f) escape_non_ascii (ch ∷ s) = elim (escape_piece escape_non_ascii ch s) [
  | none ↦ not_utf8
  | some p ↦ with_piece (p.0) (escape_loop f escape_non_ascii (drop (p.1) (ch ∷ s)))
]

unfoldable pub write_escaped : Bool → Bytes → Escaped
write_escaped escape_non_ascii s = escape_loop (suc (length s)) escape_non_ascii s
