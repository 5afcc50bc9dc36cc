-- ===== src/Parser/StringBody/Pieces.antt =====
-- One round of _writeEscapedTo against one round of decodeStringBody.
use pjson.Common.{
  ℕ, zero, suc, ◌+◌, ◌-◌, ◌/◌, ◌%◌, ◌≤◌, ◌<◌, ◌≡◌, refl, sym, ap, ◌∙◌, subst, Bool, true, false,
  Option, none, some, [], ◌∷◌, ◌++◌, append_assoc, ltb, leb, within, arith, length, take, drop,
  Bool-cases, inl, inr,
}
use pjson.Common.Bytes.{Bytes}
use pjson.Text.Utf8.{utf8_len, append_utf8}
use pjson.Text.Utf8.RoundTrip.{
  IsScalar, StartsWithScalar, utf8_len-append_utf8, utf8_len-StartsWithScalar,
}
use pjson.Text.Hex.{hex_digits, hex4-hex_digits}
use pjson.Text.Escape.{
  unicode_escape, short_escape, code_point_of, escape_code_point, escape_wide, escape_plain,
  escape_piece,
}
use pjson.Parser.StringBody.{decoded, next_piece, utf8_piece}

-- The written bytes e make one round of the decoder that appends bytes.
abbrev pub Decodes : Bytes → Bytes → Type 0
Decodes e bytes =
    (c : ℕ) × (e' : Bytes) × (e ≡ c ∷ e')
    × ((tail : Bytes) → next_piece true c (e' ++ tail) ≡ decoded bytes tail)

short-Decodes :
    (ch letter : ℕ) → short_escape ch ≡ some letter → Decodes (b'\\' ∷ letter ∷ []) (ch ∷ [])
unfolding next_piece
short-Decodes ch letter h = (b'\\', letter ∷ [], refl, λ tail. ground arith)

drop-hex_digits : (value : ℕ) (tail : Bytes) → drop 4 (hex_digits value ++ tail) ≡ tail
unfolding hex_digits
drop-hex_digits value tail = refl

unit_round :
    (cp : ℕ) (tail : Bytes)
    → IsScalar cp
    → cp ≤ 0xFFFF
    → next_piece true b'\\' (b'u' ∷ hex_digits cp ++ tail) ≡ decoded (append_utf8 cp) tail
unfolding next_piece
unit_round cp tail sc h =
    rw (hex4-hex_digits cp tail (omega arith)) (rw (drop-hex_digits cp tail) (ground arith))

unit-Decodes : (cp : ℕ) → IsScalar cp → cp ≤ 0xFFFF → Decodes (unicode_escape cp) (append_utf8 cp)
unit-Decodes cp sc h = (b'\\', b'u' ∷ hex_digits cp, refl, λ tail. unit_round cp tail sc h)

drop-unicode_escape : (value : ℕ) (tail : Bytes) → drop 6 (unicode_escape value ++ tail) ≡ tail
unfolding hex_digits
drop-unicode_escape value tail = refl

high_within :
    (cp : ℕ)
    → 0x10000 ≤ cp
    → cp ≤ 0x10FFFF
    → within 0xD800 0xDBFF (0xD800 + (cp - 0x10000) / 1024) ≡ true
high_within cp lo hi = ground arith

low_within : (cp : ℕ) → within 0xDC00 0xDFFF (0xDC00 + (cp - 0x10000) % 1024) ≡ true
low_within cp = ground arith

pair_round :
    (cp : ℕ) (tail : Bytes)
    → 0x10000 ≤ cp
    → cp ≤ 0x10FFFF
    → next_piece true b'\\' (
        b'u' ∷ hex_digits (0xD800 + (cp - 0x10000) / 1024)
        ++ (unicode_escape (0xDC00 + (cp - 0x10000) % 1024) ++ tail))
      ≡ decoded (append_utf8 cp) tail
unfolding next_piece
pair_round cp tail lo hi =
    let high = 0xD800 + (cp - 0x10000) / 1024 in
    let low = 0xDC00 + (cp - 0x10000) % 1024 in
    rw (hex4-hex_digits high (unicode_escape low ++ tail) (omega arith)) (
      rw (drop-hex_digits high (unicode_escape low ++ tail)) (
        rw (hex4-hex_digits low tail (omega arith)) (
          rw (drop-hex_digits low tail) (
            rw (high_within cp lo hi)
              (rw (low_within cp) (ap (λ c. decoded (append_utf8 c) tail) (omega arith)))))))

escape_code_point-Decodes :
    (cp : ℕ) → IsScalar cp → 0x80 ≤ cp → Decodes (escape_code_point cp) (append_utf8 cp)
unfolding escape_code_point
escape_code_point-Decodes cp sc lo = elim (Bool-cases (leb cp 0xFFFF)) [
  | inl small ↦ rw small (unit-Decodes cp sc (ground arith))
  | inr big ↦ rw big (
    b'\\',
    b'u' ∷ hex_digits (0xD800 + (cp - 0x10000) / 1024)
        ++ unicode_escape (0xDC00 + (cp - 0x10000) % 1024),
    refl,
    λ tail.
        subst (λ w. next_piece true b'\\' (b'u' ∷ w) ≡ decoded (append_utf8 cp) tail)
          (sym (
            append_assoc (hex_digits (0xD800 + (cp - 0x10000) / 1024))
              (unicode_escape (0xDC00 + (cp - 0x10000) % 1024)) tail))
          (pair_round cp tail (ground arith) (ground arith)),
  )
]

-- The code point that the writer assembles from a sequence, lead byte first.
code_of : ℕ → Bytes → ℕ
code_of n [] = 0
code_of n (ch ∷ s) = code_point_of n ch s

code_of-append :
    (cp : ℕ) (t : Bytes)
    → IsScalar cp
    → 0x80 ≤ cp
    → code_of (length (append_utf8 cp)) (append_utf8 cp ++ t) ≡ cp
unfolding append_utf8 code_of
code_of-append cp t sc lo = ground arith

take-append : (a b : Bytes) → take (length a) (a ++ b) ≡ a
take-append [] b = refl
take-append (x ∷ a) b = ap (λ w. x ∷ w) (take-append a b)

drop-append : (a b : Bytes) → drop (length a) (a ++ b) ≡ b
drop-append [] b = refl
drop-append (x ∷ a) b = drop-append a b

next_piece-wide :
    (c : ℕ) (w : Bytes) → 0x80 ≤ c → next_piece true c w ≡ utf8_piece (c ∷ w) (utf8_len (c ∷ w))
unfolding next_piece
next_piece-wide c w h = ground arith

wide_view :
    (cp : ℕ)
    → 0x80 ≤ cp
    → (c : ℕ) × (e' : Bytes) × (append_utf8 cp ≡ c ∷ e')
      × (0x80 ≤ c)
      × (0 < length (append_utf8 cp))
unfolding append_utf8
wide_view cp lo = elim (Bool-cases (leb cp 0x7FF)) [
  | inl two ↦ (0xC0 + cp / 64, (0x80 + cp % 64) ∷ [], ground arith, omega arith, ground arith)
  | inr big ↦ elim (Bool-cases (leb cp 0xFFFF)) [
    | inl three ↦ (
      0xE0 + cp / 4096,
      (0x80 + cp / 64 % 64) ∷ (0x80 + cp % 64) ∷ [],
      ground arith,
      omega arith,
      ground arith,
    )
    | inr four ↦ (
      0xF0 + cp / 262144,
      (0x80 + cp / 4096 % 64) ∷ (0x80 + cp / 64 % 64) ∷ (0x80 + cp % 64) ∷ [],
      ground arith,
      omega arith,
      ground arith,
    )
  ]
]

utf8_piece-append : (a b : Bytes) → 0 < length a → utf8_piece (a ++ b) (length a) ≡ decoded a b
utf8_piece-append [] b h = elim h [ ]
utf8_piece-append (x ∷ a) b h = cong₂ a b
  where
    cong₂ :
        (a b : Bytes)
        → decoded (take (suc (length a)) (x ∷ a ++ b)) (drop (suc (length a)) (x ∷ a ++ b))
          ≡ decoded (x ∷ a) b
    cong₂ a b = rw (take-append (x ∷ a) b) (rw (drop-append (x ∷ a) b) refl)

raw-Decodes : (cp : ℕ) → IsScalar cp → 0x80 ≤ cp → Decodes (append_utf8 cp) (append_utf8 cp)
raw-Decodes cp sc lo =
    let (c, e', eq, high, positive) = wide_view cp lo in
    (
      c,
      e',
      eq,
      λ tail.
          next_piece-wide c (e' ++ tail) high
          ∙ ap (λ w. utf8_piece (w ++ tail) (utf8_len (w ++ tail))) (sym eq)
          ∙ ap (utf8_piece (append_utf8 cp ++ tail)) (utf8_len-append_utf8 cp tail sc)
          ∙ utf8_piece-append (append_utf8 cp) tail positive,
    )

wide_low : (cp ch : ℕ) (s t : Bytes) → append_utf8 cp ++ t ≡ ch ∷ s → 0x80 ≤ ch → 0x80 ≤ cp
unfolding append_utf8
wide_low cp ch s t eq h = elim (Bool-cases (leb cp 0x7F)) [
  | inl small ↦ ground arith
  | inr big ↦ ground arith
]

take_front : (a t b : Bytes) (n : ℕ) → a ++ t ≡ b → length a ≡ n → take n b ≡ a
take_front a t b n eq len =
    subst (λ m. take m b ≡ a) len (subst (λ w. take (length a) w ≡ a) eq (take-append a t))

code_of_front :
    (cp : ℕ) (t b : Bytes) (n : ℕ)
    → IsScalar cp
    → 0x80 ≤ cp
    → append_utf8 cp ++ t ≡ b
    → length (append_utf8 cp) ≡ n
    → code_of n b ≡ cp
code_of_front cp t b n sc lo eq len =
    subst (λ m. code_of m b ≡ cp) len
      (subst (λ w. code_of (length (append_utf8 cp)) w ≡ cp) eq (code_of-append cp t sc lo))

escape_wide-Decodes :
    (escape_non_ascii : Bool) (ch : ℕ) (s : Bytes) (n : ℕ) (p : Bytes × ℕ)
    → 0x80 ≤ ch
    → (0 < n → StartsWithScalar (ch ∷ s) n)
    → escape_wide escape_non_ascii ch s n ≡ some p
    → Decodes (p.0) (take (p.1) (ch ∷ s))
unfolding code_of
escape_wide-Decodes escape_non_ascii ch s zero p h starts e = absurd cc
escape_wide-Decodes true ch s (suc k) p h starts e =
    let (cp, sc, eq, len) = starts (omega arith) in
    let low = wide_low cp ch s (drop (suc k) (ch ∷ s)) eq h in
    let code = code_of_front cp (drop (suc k) (ch ∷ s)) (ch ∷ s) (suc k) sc low eq len in
    let front = take_front (append_utf8 cp) (drop (suc k) (ch ∷ s)) (ch ∷ s) (suc k) eq len in
    let same : (escape_code_point (code_of (suc k) (ch ∷ s)), suc k) ≡ p = cc in
    subst (λ q. Decodes (q.0) (take (q.1) (ch ∷ s))) same
      (rw (code, front) (escape_code_point-Decodes cp sc low))
escape_wide-Decodes false ch s (suc k) p h starts e =
    let (cp, sc, eq, len) = starts (omega arith) in
    let low = wide_low cp ch s (drop (suc k) (ch ∷ s)) eq h in
    let front = take_front (append_utf8 cp) (drop (suc k) (ch ∷ s)) (ch ∷ s) (suc k) eq len in
    let same : (take (suc k) (ch ∷ s), suc k) ≡ p = cc in
    subst (λ q. Decodes (q.0) (take (q.1) (ch ∷ s))) same (rw front (raw-Decodes cp sc low))

control-Decodes : (ch : ℕ) → ltb ch 0x20 ≡ true → Decodes (unicode_escape ch) (ch ∷ [])
unfolding append_utf8
control-Decodes ch h =
    let byte : append_utf8 ch ≡ ch ∷ [] = ground arith in
    subst (Decodes (unicode_escape ch)) byte (unit-Decodes ch (ground arith) (ground arith))

ascii-Decodes :
    (ch : ℕ)
    → short_escape ch ≡ none
    → ltb ch 0x20 ≡ false
    → ltb ch 0x80 ≡ true
    → Decodes (ch ∷ []) (ch ∷ [])
unfolding next_piece
ascii-Decodes ch none_short big small = (ch, [], refl, λ tail. ground arith)

escape_plain-Decodes :
    (escape_non_ascii : Bool) (ch : ℕ) (s : Bytes) (o : Option ℕ) (p : Bytes × ℕ)
    → short_escape ch ≡ o
    → escape_plain escape_non_ascii ch s o ≡ some p
    → Decodes (p.0) (take (p.1) (ch ∷ s))
escape_plain-Decodes escape_non_ascii ch s (some letter) p o e =
    let same : (b'\\' ∷ letter ∷ [], 1) ≡ p = cc in
    subst (λ q. Decodes (q.0) (take (q.1) (ch ∷ s))) same (short-Decodes ch letter o)
escape_plain-Decodes escape_non_ascii ch s none p o e = elim (Bool-cases (ltb ch 0x20)) [
  | inl control ↦
      let same : (unicode_escape ch, 1) ≡ p = ground arith in
      subst (λ q. Decodes (q.0) (take (q.1) (ch ∷ s))) same (control-Decodes ch control)
  | inr big ↦ elim (Bool-cases (ltb ch 0x80)) [
    | inl ascii ↦
        let same : (ch ∷ [], 1) ≡ p = ground arith in
        subst (λ q. Decodes (q.0) (take (q.1) (ch ∷ s))) same (ascii-Decodes ch o big ascii)
    | inr high ↦
        escape_wide-Decodes escape_non_ascii ch s (utf8_len (ch ∷ s)) p (ground arith)
          (utf8_len-StartsWithScalar (ch ∷ s)) (ground arith)
  ]
]

pub escape_piece-Decodes :
    (escape_non_ascii : Bool) (ch : ℕ) (s : Bytes) (p : Bytes × ℕ)
    → escape_piece escape_non_ascii ch s ≡ some p
    → Decodes (p.0) (take (p.1) (ch ∷ s))
unfolding escape_piece
escape_piece-Decodes escape_non_ascii ch s p e =
    escape_plain-Decodes escape_non_ascii ch s (short_escape ch) p refl e
