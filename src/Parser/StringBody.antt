-- ===== src/Parser/StringBody.antt =====
-- The body of a string: pJsonParserImpl::decodeStringBody of pjsonlib/src/pjson_parser.cpp.
pub mod Pieces
pub mod RoundTrip
use pjson.Common.{
  ℕ, zero, suc, ◌+◌, ◌-◌, ◌*◌, Bool, true, false, Option, none, some, [], ◌∷◌, ◌++◌, ltb, leb, ◌==◌,
  within, if◌then◌else◌, length, take, drop,
}
use pjson.Common.Bytes.{Bytes}
use pjson.Text.Utf8.{utf8_len, append_utf8}
use pjson.Text.Hex.{hex4}
use pjson.Parser.{
  Message, Parsed, parsed, rejected, stalled, dangling_escape, invalid_u_escape,
  unpaired_high_surrogate, unpaired_low_surrogate, invalid_escape_sequence, unescaped_control,
  invalid_utf8_sequence, unterminated_string,
}

-- What one round of the loop does: the closing quote, bytes to append, or a failure.
pub data Piece : Type 0 where
  closed : Bytes → Piece
  decoded : Bytes → Bytes → Piece
  bad : Message → Bytes → Piece

-- The low surrogate of a second escape, when one stands here.
abbrev pub low_surrogate : Bytes → Option ℕ
low_surrogate (c ∷ d ∷ s) = if c == b'\\' then if d == b'u' then hex4 s else none else none
low_surrogate _ = none

abbrev pub pair_piece : ℕ → Bytes → Option ℕ → Piece
pair_piece cp s none = bad unpaired_high_surrogate s
pair_piece cp s (some low) =
    if within 0xDC00 0xDFFF low
    then decoded (append_utf8 (0x10000 + (cp - 0xD800) * 1024 + (low - 0xDC00))) (drop 6 s)
    else bad unpaired_high_surrogate s

-- s is what follows the four digits.
abbrev pub unit_piece : ℕ → Bytes → Piece
unit_piece cp s =
    if within 0xD800 0xDBFF cp
    then pair_piece cp s (low_surrogate s)
    else if within 0xDC00 0xDFFF cp
    then bad unpaired_low_surrogate s
    else decoded (append_utf8 cp) s

abbrev pub unicode_piece : Bytes → Option ℕ → Piece
unicode_piece s none = bad invalid_u_escape s
unicode_piece s (some cp) = unit_piece cp (drop 4 s)

abbrev pub escaped_piece : Bytes → Piece
escaped_piece [] = bad dangling_escape []
escaped_piece (e ∷ s) =
    if e == b'"'
    then decoded (b'"' ∷ []) s
    else if e == b'\\'
    then decoded (b'\\' ∷ []) s
    else if e == b'/'
    then decoded (b'/' ∷ []) s
    else if e == b'b'
    then decoded (8 ∷ []) s
    else if e == b'f'
    then decoded (12 ∷ []) s
    else if e == b'n'
    then decoded (10 ∷ []) s
    else if e == b'r'
    then decoded (13 ∷ []) s
    else if e == b't'
    then decoded (9 ∷ []) s
    else if e == b'u'
    then unicode_piece s (hex4 s)
    else bad invalid_escape_sequence (e ∷ s)

abbrev pub utf8_piece : Bytes → ℕ → Piece
utf8_piece s zero = bad invalid_utf8_sequence s
utf8_piece s (suc n) = decoded (take (suc n) s) (drop (suc n) s)

abbrev pub plain_piece : ℕ → Bytes → Piece
plain_piece ch s =
    if ch == b'\\'
    then escaped_piece s
    else if ltb ch 0x20
    then bad unescaped_control (ch ∷ s)
    else if leb 0x80 ch
    then utf8_piece (ch ∷ s) (utf8_len (ch ∷ s))
    else decoded (ch ∷ []) s

unfoldable pub next_piece : Bool → ℕ → Bytes → Piece
next_piece true ch s = if ch == b'"' then closed s else plain_piece ch s
next_piece false ch s = plain_piece ch s

unfoldable pub decode_loop : ℕ → Bool → Bytes → Bytes → Parsed Bytes
decode_loop zero stop_at_quote out s = stalled
decode_loop (suc f) true out [] = rejected unterminated_string []
decode_loop (suc f) false out [] = parsed out []
decode_loop (suc f) stop_at_quote out (ch ∷ s) = elim (next_piece stop_at_quote ch s) [
  | closed rest ↦ parsed out rest
  | decoded bytes rest ↦ decode_loop f stop_at_quote (out ++ bytes) rest
  | bad message at ↦ rejected message at
]

-- Every round reads a byte at least, so the length and one round are enough.
unfoldable pub decode_string_body : Bool → Bytes → Parsed Bytes
decode_string_body stop_at_quote s = decode_loop (suc (length s)) stop_at_quote [] s
