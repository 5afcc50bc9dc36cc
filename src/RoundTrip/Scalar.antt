-- ===== src/RoundTrip/Scalar.antt =====
-- The text of a value without children: how it starts, and that parseValue reads it back.
use pjson.Common.{
  ℕ, suc, ◌^◌, ◌≤◌, ◌<◌, ◌≡◌, refl, sym, ap, ◌∙◌, Bool, true, false, some, [], ◌∷◌, ◌++◌,
  append_assoc, arith, ◌==◌, if◌then◌else◌, Bool-cases, inl, inr,
}
use pjson.Common.Bytes.{Bytes, codes}
use pjson.Common.Int.{ℤ, pos}
use pjson.Value.{Value, null, string, int, uint, double, boolean, Double}
use pjson.Text.Escape.{escaped, write_escaped}
use pjson.Parser.{parsed}
use pjson.Text.Decimal.{is_digit}
use pjson.Parser.Number.{NumberToken, scan_integer, scan_json_number}
use pjson.Parser.Tokens.{ParseContext, skip_whitespace, parse_number}
use pjson.Parser.Document.{parse_value}
use pjson.Serializer.{write}
use pjson.Serializer.Number.{integer_text}
use pjson.Serializer.Print.{string_commands}
use pjson.Serializer.Sink.Fit.{printed}
use pjson.RoundTrip.Text.{
  split_printed, split_write, printed-single, printed-string_commands, text_of-inverse,
}
use pjson.RoundTrip.Leaf.{
  Stops, HasRoom, IsInt64, ReadsBack, parse_number-int, parse_number-uint, parse_number-double,
  parse_keyword-null, parse_keyword-true, parse_keyword-false, parse_string-written,
}
use pjson.RoundTrip.Rounds.{value-string, value-number, value-keyword}
use pjson.RoundTrip.Start.{StartsNumber, integer_text-StartsNumber}

-- A quoted string and what is written behind it.
pub quoted_text :
    (escape_non_ascii : Bool) (s x t : Bytes)
    → printed (write (b'"' ∷ []) ∷ (string_commands escape_non_ascii s ++ write x ∷ [])) ≡ some t
    → (e : Bytes) × (write_escaped escape_non_ascii s ≡ escaped e) × (t ≡ b'"' ∷ (e ++ x))
quoted_text escape_non_ascii s x t h =
    let (b, h1, e1) =
      split_write (b'"' ∷ []) (string_commands escape_non_ascii s ++ write x ∷ []) t h in
    let (e, q, h2, h3, e2) =
      split_printed (string_commands escape_non_ascii s) (write x ∷ []) b h1 in
    (
      e,
      text_of-inverse (write_escaped escape_non_ascii s) e
          (sym (printed-string_commands escape_non_ascii s) ∙ h2),
      e1 ∙ ap (λ u. b'"' ∷ u) (e2 ∙ ap (λ u. e ++ u) (printed-single x q h3)),
    )

module _ (c : ParseContext) (f d k : ℕ) (w rest : Bytes) (room : HasRoom c k 1) where
  -- A number at the cursor.
  pub number-Reads :
      (t : Bytes) (v : Value)
      → StartsNumber t
      → skip_whitespace w ≡ t ++ rest
      → parse_number c k (t ++ rest) ≡ parsed (v, suc k) rest
      → parse_value (suc f) c d k w ≡ parsed (v, suc k) rest
  number-Reads t v (ch, u, e, l) h read =
      let at : t ++ rest ≡ ch ∷ (u ++ rest) = ap (λ t. t ++ rest) e in
      value-number c f d k w (u ++ rest) ch (h ∙ at) l ∙ ap (parse_number c k) (sym at) ∙ read

  pub string-Reads :
      (escape_non_ascii : Bool) (s t : Bytes)
      → printed (write (b'"' ∷ []) ∷ (string_commands escape_non_ascii s ++ write (b'"' ∷ []) ∷ []))
        ≡ some t
      → skip_whitespace w ≡ t ++ rest
      → parse_value (suc f) c d k w ≡ parsed (string s, suc k) rest
  string-Reads escape_non_ascii s t p h =
      let (e, written, same) = quoted_text escape_non_ascii s (b'"' ∷ []) t p in
      let at : t ++ rest ≡ b'"' ∷ (e ++ b'"' ∷ rest) =
        ap (λ t. t ++ rest) same ∙ ap (λ u. b'"' ∷ u) (append_assoc e (b'"' ∷ []) rest) in
      value-string c f d k w (e ++ b'"' ∷ rest) (h ∙ at)
      ∙ parse_string-written c k escape_non_ascii s e rest room written

  pub int-Reads :
      (z : ℤ)
      → IsInt64 z
      → Stops rest
      → skip_whitespace w ≡ integer_text z ++ rest
      → parse_value (suc f) c d k w ≡ parsed (int z, suc k) rest
  int-Reads z fits stop h =
      number-Reads (integer_text z) (int z) (integer_text-StartsNumber z) h
        (parse_number-int c k z rest room fits stop)

  pub uint-Reads :
      (n : ℕ)
      → 2 ^ 63 ≤ n
      → n < 2 ^ 64
      → Stops rest
      → skip_whitespace w ≡ integer_text (pos n) ++ rest
      → parse_value (suc f) c d k w ≡ parsed (uint n, suc k) rest
  uint-Reads n lo hi stop h =
      number-Reads (integer_text (pos n)) (uint n) (integer_text-StartsNumber (pos n)) h
        (parse_number-uint c k n rest room lo hi stop)

  pub double-Reads :
      (t : Bytes) (x : Double)
      → ReadsBack c t x
      → StartsNumber t
      → Stops rest
      → skip_whitespace w ≡ t ++ rest
      → parse_value (suc f) c d k w ≡ parsed (double x, suc k) rest
  double-Reads t x back start stop h =
      number-Reads t (double x) start h (parse_number-double c k t x rest room back stop)

  pub null-Reads :
      skip_whitespace w ≡ codes "null" ++ rest
      → parse_value (suc f) c d k w ≡ parsed (null, suc k) rest
  null-Reads h = value-keyword c f d k w _ b'n' h refl ∙ parse_keyword-null c k rest room

  pub true-Reads :
      skip_whitespace w ≡ codes "true" ++ rest
      → parse_value (suc f) c d k w ≡ parsed (boolean true, suc k) rest
  true-Reads h = value-keyword c f d k w _ b't' h refl ∙ parse_keyword-true c k rest room

  pub false-Reads :
      skip_whitespace w ≡ codes "false" ++ rest
      → parse_value (suc f) c d k w ≡ parsed (boolean false, suc k) rest
  false-Reads h = value-keyword c f d k w _ b'f' h refl ∙ parse_keyword-false c k rest room

scan_integer-is_digit :
    (sign : Bytes) (ch : ℕ) (s rest : Bytes) (token : NumberToken)
    → scan_integer sign (ch ∷ s) ≡ parsed token rest
    → is_digit ch ≡ true
scan_integer-is_digit sign ch s rest token = elim (Bool-cases (is_digit ch)) [
  | inl digit ↦ (λ h. digit)
  | inr none_such ↦
      let nonzero : (ch == b'0') ≡ false = ground (arith, none_such) in
      rw (nonzero, none_such) (λ h. absurd cc)
]

-- Text that the scanner takes for a number starts like one.
pub scanned-StartsNumber :
    (c : ParseContext) (t : Bytes) (x : Double) → ReadsBack c t x → StartsNumber t
unfolding scan_json_number
scanned-StartsNumber c [] x (scan, back) = let h = scan [] tt in absurd cc
scanned-StartsNumber c (ch ∷ u) x (scan, back) = elim (Bool-cases (ch == b'-')) [
  | inl minus ↦ (ch, u, refl, ground (arith, minus))
  | inr plain ↦
      let h = scan [] tt in
      let same : (if ch == b'-'
            then scan_integer (ch ∷ []) (u ++ [])
            else scan_integer [] (ch ∷ (u ++ [])))
          ≡ scan_integer [] (ch ∷ (u ++ [])) =
        rw plain refl in
      let digit = scan_integer-is_digit [] ch (u ++ []) [] _ (sym same ∙ h) in
      (ch, u, refl, ground (arith, digit))
]
