-- ===== src/Parser/Document/Advance.antt =====
-- Every routine of the parser that returns a value has read a character at least, and none of
-- them runs out of rounds.
pub mod Tokens
pub mod Cases
use pjson.Common.{
  drop-length, ℕ, zero, suc, ◌+◌, ◌-◌, ◌≤◌, ◌<◌, ◌≡◌, ◌⊎◌, refl, ap, Bool, true, false, Option,
  none, some, [], ◌∷◌, ◌++◌, ltb, leb, ◌==◌, ◌||◌, within, if◌then◌else◌, arith, length, take, drop,
  Bool-cases, inl, inr, Option-cases,
}
use pjson.Common.Bytes.{Bytes}
use pjson.Text.Utf8.{utf8_len, append_utf8}
use pjson.Text.Hex.{hex4}
use pjson.Parser.{Message, Parsed, parsed, rejected, stalled}
use pjson.Text.Decimal.{is_digit}
use pjson.Parser.Number.{
  NumberToken, take_digits, starts_with_digit, exponent_digits, exponent_sign, scan_exponent,
  scan_fraction, scan_integer, scan_json_number,
}
use pjson.Parser.StringBody.{
  Piece, closed, decoded, bad, next_piece, plain_piece, escaped_piece, unicode_piece, unit_piece,
  pair_piece, low_surrogate, utf8_piece, decode_loop, decode_string_body,
}

-- The cursor has moved on from s when a value is returned; a failure is inside the input; and the
-- rounds were enough.
abbrev pub AdvancesWithin {ℓ} : {A : Type ℓ} → ℕ → Parsed A → Type 0
AdvancesWithin n (parsed a rest) = length rest < n
AdvancesWithin n (rejected message at) = length at ≤ n
AdvancesWithin n stalled = ⊥

abbrev pub Advances {ℓ} : {A : Type ℓ} → Bytes → Parsed A → Type 0
Advances s r = AdvancesWithin (length s) r

pub weaken {ℓ} :
    {A : Type ℓ} (m n : ℕ) (r : Parsed A) → m ≤ n → AdvancesWithin m r → AdvancesWithin n r
weaken m n (parsed a rest) h k = omega (arith, h, k)
weaken m n (rejected message at) h k = omega (arith, h, k)
weaken m n stalled h k = elim k [ ]

pub either {ℓ} :
    {A : Type ℓ} (n : ℕ) (b : Bool) (p q : Parsed A)
    → AdvancesWithin n p
    → AdvancesWithin n q
    → AdvancesWithin n (if b then p else q)
either n true p q hp hq = hp
either n false p q hp hq = hq

abbrev PieceAdvances : ℕ → Piece → Type 0
PieceAdvances n (closed rest) = length rest < n
PieceAdvances n (decoded bytes rest) = length rest < n
PieceAdvances n (bad message at) = length at ≤ n

pair-Advances :
    (cp n : ℕ) (s : Bytes) (o : Option ℕ) → length s < n → PieceAdvances n (pair_piece cp s o)
pair-Advances cp n s none h = omega (arith, h)
pair-Advances cp n s (some low) h = ground (arith, h, drop-length 6 s)

unit-Advances : (cp n : ℕ) (s : Bytes) → length s < n → PieceAdvances n (unit_piece cp s)
unit-Advances cp n s h = elim (Bool-cases (within 0xD800 0xDBFF cp)) [
  | inl high ↦ rw high (pair-Advances cp n s (low_surrogate s) h)
  | inr low ↦ rw low (ground (arith, h))
]

unicode-Advances :
    (n : ℕ) (s : Bytes) (o : Option ℕ) → length s < n → PieceAdvances n (unicode_piece s o)
unicode-Advances n s none h = omega (arith, h)
unicode-Advances n s (some cp) h = unit-Advances cp n (drop 4 s) (omega (arith, h, drop-length 4 s))

utf8-Advances :
    (ch : ℕ) (s : Bytes) (n : ℕ) → PieceAdvances (suc (length s)) (utf8_piece (ch ∷ s) n)
utf8-Advances ch s zero = omega arith
utf8-Advances ch s (suc n) = omega (arith, drop-length n s)

choice :
    (n : ℕ) (b : Bool) (p q : Piece)
    → PieceAdvances n p
    → PieceAdvances n q
    → PieceAdvances n (if b then p else q)
choice n true p q hp hq = hp
choice n false p q hp hq = hq

escaped-Advances : (n : ℕ) (s : Bytes) → length s < n → PieceAdvances n (escaped_piece s)
escaped-Advances n [] h = omega arith
escaped-Advances n (e ∷ s) h =
    let short : length s < n = omega (arith, h) in
    choice n (e == b'"') _ _ short (
      choice n (e == b'\\') _ _ short (
        choice n (e == b'/') _ _ short (
          choice n (e == b'b') _ _ short (
            choice n (e == b'f') _ _ short (
              choice n (e == b'n') _ _ short (
                choice n (e == b'r') _ _ short (
                  choice n (e == b't') _ _ short (
                    choice n (e == b'u') (unicode_piece s (hex4 s)) _
                      (unicode-Advances n s (hex4 s) short) (omega (arith, h))))))))))

next_piece-Advances : (ch : ℕ) (s : Bytes) → PieceAdvances (suc (length s)) (next_piece true ch s)
unfolding next_piece
next_piece-Advances ch s =
    let n = suc (length s) in
    choice n (ch == b'"') _ _ (omega arith) (
      choice n (ch == b'\\') (escaped_piece s) _ (escaped-Advances n s (omega arith)) (
        choice n (ltb ch 0x20) _ _ (omega arith) (
          choice n (leb 0x80 ch) (utf8_piece (ch ∷ s) (utf8_len (ch ∷ s))) _
            (utf8-Advances ch s (utf8_len (ch ∷ s))) (omega arith))))

after_piece :
    (f : ℕ) (out : Bytes) (n : ℕ) (p : Piece)
    → ((out rest : Bytes) → length rest < n → AdvancesWithin n (decode_loop f true out rest))
    → PieceAdvances n p
    → AdvancesWithin n (elim p [
      | closed rest ↦ parsed out rest
      | decoded bytes rest ↦ decode_loop f true (out ++ bytes) rest
      | bad message at ↦ rejected message at
    ])
after_piece f out n (closed rest) k h = h
after_piece f out n (decoded bytes rest) k h = k (out ++ bytes) rest h
after_piece f out n (bad message at) k h = h

decode_loop-Advances :
    (f : ℕ) (out s : Bytes) → length s < f → Advances s (decode_loop f true out s)
unfolding decode_loop
decode_loop-Advances zero out s h = elim h [ ]
decode_loop-Advances (suc f) out [] h = omega arith
decode_loop-Advances (suc f) out (ch ∷ s) h =
    after_piece f out (suc (length s)) (next_piece true ch s)
      (λ out rest shorter.
        weaken (length rest) (suc (length s)) (decode_loop f true out rest) (omega (arith, shorter))
          (decode_loop-Advances f out rest (omega (arith, h, shorter))))
      (next_piece-Advances ch s)

pub decode_string_body-Advances : (s : Bytes) → Advances s (decode_string_body true s)
unfolding decode_string_body
decode_string_body-Advances s = decode_loop-Advances (suc (length s)) [] s (omega arith)

take_digits-length : (s : Bytes) → length ((take_digits s).1) ≤ length s
unfolding take_digits
take_digits-length [] = omega arith
take_digits-length (ch ∷ s) = ground (arith, take_digits-length s)

exponent_digits-Advances :
    (text s : Bytes) (n : ℕ) → length s < n → AdvancesWithin n (exponent_digits text s)
exponent_digits-Advances text s n h = ground (arith, h, take_digits-length s)

exponent_sign-Advances :
    (text s : Bytes) (n : ℕ) → length s < n → AdvancesWithin n (exponent_sign text s)
exponent_sign-Advances text [] n h = omega (arith, h)
exponent_sign-Advances text (ch ∷ s) n h = elim (Bool-cases (ch == b'+' || ch == b'-')) [
  | inl sign ↦ rw sign (exponent_digits-Advances (text ++ ch ∷ []) s n (omega (arith, h)))
  | inr digits ↦ rw digits (exponent_digits-Advances text (ch ∷ s) n h)
]

scan_exponent-Advances :
    (text : Bytes) (is_float : Bool) (s : Bytes) (n : ℕ)
    → length s < n
    → AdvancesWithin n (scan_exponent text is_float s)
scan_exponent-Advances text is_float [] n h = omega (arith, h)
scan_exponent-Advances text is_float (ch ∷ s) n h = elim (Bool-cases (ch == b'e' || ch == b'E')) [
  | inl mark ↦ rw mark (exponent_sign-Advances (text ++ ch ∷ []) s n (omega (arith, h)))
  | inr last ↦ rw last h
]

scan_fraction-Advances :
    (text s : Bytes) (n : ℕ) → length s < n → AdvancesWithin n (scan_fraction text s)
scan_fraction-Advances text [] n h = omega (arith, h)
scan_fraction-Advances text (ch ∷ s) n h =
    either n (ch == b'.') _ _
      (either n (starts_with_digit s) _ _
        (scan_exponent-Advances (text ++ ch ∷ (take_digits s).0) true ((take_digits s).1) n
          (omega (arith, h, take_digits-length s)))
        (omega (arith, h)))
      (scan_exponent-Advances text false (ch ∷ s) n h)

scan_integer-Advances :
    (sign s : Bytes) (n : ℕ) → length s ≤ n → AdvancesWithin n (scan_integer sign s)
scan_integer-Advances sign [] n h = omega (arith, h)
scan_integer-Advances sign (ch ∷ s) n h =
    either n (ch == b'0') _ _ (scan_fraction-Advances (sign ++ ch ∷ []) s n (omega (arith, h))) (
      either n (is_digit ch) _ _
        (scan_fraction-Advances (sign ++ ch ∷ (take_digits s).0) ((take_digits s).1) n
          (omega (arith, h, take_digits-length s)))
        h)

pub scan_json_number-Advances : (s : Bytes) → Advances s (scan_json_number s)
unfolding scan_json_number
scan_json_number-Advances [] = omega arith
scan_json_number-Advances (ch ∷ s) =
    either (suc (length s)) (ch == b'-') _ _
      (scan_integer-Advances (ch ∷ []) s (suc (length s)) (omega arith))
      (scan_integer-Advances [] (ch ∷ s) (suc (length s)) (omega arith))
