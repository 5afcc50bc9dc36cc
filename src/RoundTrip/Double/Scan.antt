-- ===== src/RoundTrip/Double/Scan.antt =====
-- The text of a numeral with a fraction or an exponent, scanned and converted.
use pjson.Common.{
  ℕ, zero, suc, ◌≡◌, refl, sym, ap, ◌∙◌, subst, Bool, true, false, ◌||◌, Option, none, some, [],
  ◌∷◌, ◌++◌, append_assoc, append-nil, arith, ◌==◌, Bool-cases, inl, inr,
}
use pjson.Common.Bytes.{Bytes}
use pjson.Common.Int.{ℤ, pos, negsuc}
use pjson.Text.Decimal.{to_decimal, is_digit, AllDigits, to_decimal-AllDigits}
use pjson.Value.{Double, finite, double}
use pjson.Parser.{Parsed, parsed}
use pjson.Parser.Number.{
  NumberToken, take_digits, exponent_digits, exponent_sign, scan_exponent, scan_fraction,
  scan_integer, scan_json_number, convert_number_token, converted, converted_double, classify_range,
  split_exponent, drop_sign, allows_lossy, starts_with_digit,
}
use pjson.Parser.Tokens.{ParseContext}
use pjson.Serializer.Number.{
  integer_text, format_double, lower_exponent, split_at, expand_exponent, with_fraction,
}
use pjson.RoundTrip.Double.Stream.{leading, parse_double-extracted}
use pjson.Serializer.Print.{is_finite}
use pjson.RoundTrip.Leaf.{Stops, decimal_digit, ReadsBack}
use pjson.RoundTrip.Double.{
  Numeral, sign, point, mark, numeral_text, ryu_text, IsZero, extracted, IsSpelled,
}
use pjson.RoundTrip.Double.Place.{IsFloat, IsJson}
use pjson.RoundTrip.Double.Expand.{format_double-Formats}

abbrev EndsDigits : Bytes → Type 0
EndsDigits [] = Unit
EndsDigits (c ∷ s) = is_digit c ≡ false

take_digits-run :
    (ds rest : Bytes) → AllDigits ds → EndsDigits rest → take_digits (ds ++ rest) ≡ (ds, rest)
unfolding take_digits
take_digits-run [] [] a h = refl
take_digits-run [] (c ∷ s) a h = rw h refl
take_digits-run (d ∷ ds) rest (x, a) h =
    rw x (ap (λ (p : Bytes × Bytes). (d ∷ p.0, p.1)) (take_digits-run ds rest a h))

Stops-EndsDigits : (rest : Bytes) → Stops rest → EndsDigits rest
Stops-EndsDigits [] h = tt
Stops-EndsDigits (c ∷ s) h = h.0

abbrev float_token : Bytes → Bytes → Parsed NumberToken
float_token text rest = parsed (record { text = text; is_float = true }) rest

exponent_digits-decimal :
    (text : Bytes) (n : ℕ) (rest : Bytes)
    → Stops rest
    → exponent_digits text (to_decimal n ++ rest) ≡ float_token (text ++ to_decimal n) rest
exponent_digits-decimal text n rest h =
    let (c, s, e, lo, hi) = decimal_digit n in
    let run =
      take_digits-run (to_decimal n) rest (to_decimal-AllDigits n) (Stops-EndsDigits rest h) in
    let digit : starts_with_digit (to_decimal n ++ rest) ≡ true =
      ap (λ t. starts_with_digit (t ++ rest)) e ∙ ground (arith, lo, hi) in
    rw digit (ap (λ (p : Bytes × Bytes). float_token (text ++ p.0) (p.1)) run)

exponent_sign-integer_text :
    (text : Bytes) (z : ℤ) (rest : Bytes)
    → Stops rest
    → exponent_sign text (integer_text z ++ rest) ≡ float_token (text ++ integer_text z) rest
unfolding integer_text
exponent_sign-integer_text text (pos n) rest h =
    let (c, s, e, lo, hi) = decimal_digit n in
    let plain : (c == b'+' || c == b'-') ≡ false = ground (arith, lo, hi) in
    let same : exponent_sign text ((c ∷ s) ++ rest) ≡ exponent_digits text ((c ∷ s) ++ rest) =
      rw plain refl in
    ap (λ t. exponent_sign text (t ++ rest)) e
    ∙ same
    ∙ ap (λ t. exponent_digits text (t ++ rest)) (sym e)
    ∙ exponent_digits-decimal text n rest h
exponent_sign-integer_text text (negsuc n) rest h =
    exponent_digits-decimal (text ++ b'-' ∷ []) (suc n) rest h
    ∙ ap (λ t. float_token t rest) (append_assoc text (b'-' ∷ []) (to_decimal (suc n)))

scan_exponent-mark :
    (text : Bytes) (x : Option ℤ) (rest : Bytes)
    → Stops rest
    → scan_exponent text true (mark x ++ rest) ≡ float_token (text ++ mark x) rest
scan_exponent-mark text none [] h = ap (λ t. float_token t []) (sym (append-nil text))
scan_exponent-mark text none (c ∷ s) h =
    rw (h.2) (ap (λ t. float_token t (c ∷ s)) (sym (append-nil text)))
scan_exponent-mark text (some z) rest h =
    exponent_sign-integer_text (text ++ b'e' ∷ []) z rest h
    ∙ ap (λ t. float_token t rest) (append_assoc text (b'e' ∷ []) (integer_text z))

mark-EndsDigits : (x : Option ℤ) (rest : Bytes) → Stops rest → EndsDigits (mark x ++ rest)
mark-EndsDigits none rest h = Stops-EndsDigits rest h
mark-EndsDigits (some z) rest h = refl

tail-EndsDigits :
    (f : Bytes) (x : Option ℤ) (rest : Bytes)
    → IsFloat f x
    → EndsDigits ((point f ++ mark x) ++ rest)
tail-EndsDigits [] none rest h = absurd h
tail-EndsDigits [] (some z) rest h = refl
tail-EndsDigits (c ∷ s) x rest h = refl

scan_fraction-tail :
    (text f : Bytes) (x : Option ℤ) (rest : Bytes)
    → AllDigits f
    → IsFloat f x
    → Stops rest
    → scan_fraction text ((point f ++ mark x) ++ rest)
      ≡ float_token (text ++ (point f ++ mark x)) rest
scan_fraction-tail text [] none rest a h stop = absurd h
scan_fraction-tail text [] (some z) rest a h stop =
    exponent_sign-integer_text (text ++ b'e' ∷ []) z rest stop
    ∙ ap (λ t. float_token t rest) (append_assoc text (b'e' ∷ []) (integer_text z))
scan_fraction-tail text (c ∷ s) x rest (d, a) h stop =
    let at : (s ++ mark x) ++ rest ≡ s ++ (mark x ++ rest) = append_assoc s (mark x) rest in
    let run =
      ap take_digits (ap (λ t. c ∷ t) at)
      ∙ take_digits-run (c ∷ s) (mark x ++ rest) (d, a) (mark-EndsDigits x rest stop) in
    rw d (
      ap (λ (p : Bytes × Bytes). scan_exponent (text ++ b'.' ∷ p.0) true (p.1)) run
      ∙ scan_exponent-mark (text ++ b'.' ∷ c ∷ s) x rest stop
      ∙ ap (λ t. float_token t rest) (append_assoc text (b'.' ∷ c ∷ s) (mark x)))

scan_integer-numeral :
    (text : Bytes) (h : ℕ) (hs f : Bytes) (x : Option ℤ) (rest : Bytes)
    → AllDigits (h ∷ hs)
    → ((h == b'0') ≡ true → hs ≡ [])
    → AllDigits f
    → IsFloat f x
    → Stops rest
    → scan_integer text ((h ∷ hs) ++ ((point f ++ mark x) ++ rest))
      ≡ float_token (text ++ ((h ∷ hs) ++ (point f ++ mark x))) rest
scan_integer-numeral text h hs f x rest (d, a) lead b fl stop =
    let tail = (point f ++ mark x) ++ rest in
    let whole =
      scan_fraction-tail (text ++ h ∷ hs) f x rest b fl stop
      ∙ ap (λ t. float_token t rest) (append_assoc text (h ∷ hs) (point f ++ mark x)) in
    elim (Bool-cases (h == b'0')) [
      | inl nought ↦
          let alone = lead nought in
          rw nought (
            ap (λ t. scan_fraction (text ++ h ∷ []) (t ++ tail)) alone
            ∙ ap (λ t. scan_fraction (text ++ h ∷ t) tail) (sym alone)
            ∙ whole)
      | inr other ↦
          rw (other, d)
            (ap (λ (p : Bytes × Bytes). scan_fraction (text ++ h ∷ p.0) (p.1))
                (take_digits-run hs tail a (tail-EndsDigits f x rest fl))
              ∙ whole)
    ]

scan_json_number-sign :
    (negative : Bool) (h : ℕ) (hs f : Bytes) (x : Option ℤ) (rest : Bytes)
    → AllDigits (h ∷ hs)
    → ((h == b'0') ≡ true → hs ≡ [])
    → AllDigits f
    → IsFloat f x
    → Stops rest
    → scan_json_number ((sign negative ++ ((h ∷ hs) ++ (point f ++ mark x))) ++ rest)
      ≡ float_token (sign negative ++ ((h ∷ hs) ++ (point f ++ mark x))) rest
unfolding scan_json_number
scan_json_number-sign true h hs f x rest a lead b fl stop =
    ap (scan_integer (b'-' ∷ [])) (append_assoc (h ∷ hs) (point f ++ mark x) rest)
    ∙ scan_integer-numeral (b'-' ∷ []) h hs f x rest a lead b fl stop
scan_json_number-sign false h hs f x rest a lead b fl stop =
    let plain : (h == b'-') ≡ false = ground (arith, a.0) in
    rw plain (
      ap (scan_integer []) (append_assoc (h ∷ hs) (point f ++ mark x) rest)
      ∙ scan_integer-numeral [] h hs f x rest a lead b fl stop)

scan_json_number-numeral :
    (n : Numeral) (rest : Bytes)
    → IsJson n
    → Stops rest
    → scan_json_number (numeral_text n ++ rest) ≡ float_token (numeral_text n) rest
scan_json_number-numeral n rest (h, hs, w, a, lead, b, fl) stop =
    subst
      (λ v.
        scan_json_number
          ((sign (n.negative) ++ (v ++ (point (n.fraction) ++ mark (n.exponent)))) ++ rest)
        ≡ float_token (sign (n.negative) ++ (v ++ (point (n.fraction) ++ mark (n.exponent)))) rest)
      (sym w)
      (scan_json_number-sign (n.negative) h hs (n.fraction) (n.exponent) rest a lead b fl stop)

classified :
    (lossy : Bool) (d : Double) (significand : Bytes) (m : Option Bytes) (o : Option ℕ)
    → is_finite d ≡ true
    → (IsZero d → o ≡ none)
    → converted_double lossy (classify_range (extracted d) true significand m o)
      ≡ converted (double d)
classified lossy (finite negative scaled) significand m none fin h = refl
classified lossy (finite negative zero) significand m (some first) fin h = let e = h tt in absurd cc
classified lossy (finite negative (suc scaled)) significand m (some first) fin h = refl
classified lossy d significand m (some first) fin h = absurd cc
classified lossy d significand m none fin h = absurd cc

zero_text :
    (shortest : Double → Bytes) (d : Double) (negative : Bool)
    → is_finite d ≡ true
    → shortest d ≡ ryu_text negative b'0' [] (pos 0)
    → leading (format_double shortest d) ≡ none
unfolding format_double integer_text to_decimal
zero_text shortest (finite sg scaled) true fin e =
    ap
      (λ t.
        leading
          (with_fraction (expand_exponent (lower_exponent t) (split_at b'e' (lower_exponent t)))))
      e
zero_text shortest (finite sg scaled) false fin e =
    ap
      (λ t.
        leading
          (with_fraction (expand_exponent (lower_exponent t) (split_at b'e' (lower_exponent t)))))
      e
zero_text shortest d negative fin e = absurd cc

-- What the parser makes of the text of a double that is spelled as Ryu documents.
pub spelled-ReadsBack :
    (c : ParseContext) (shortest : Double → Bytes) (d : Double)
    → is_finite d ≡ true
    → IsSpelled shortest (c.extract) d
    → ReadsBack c (format_double shortest d) d
unfolding convert_number_token
spelled-ReadsBack c shortest d fin (negative, ch, digits, z, spelling, form, nought, reads) =
    let (n, text, same, json) =
      format_double-Formats shortest d negative ch digits z fin spelling form in
    let stream : c.extract (format_double shortest d) ≡ extracted d =
      ap (c.extract) text ∙ reads n same in
    (
      (λ rest stop.
          subst (λ t. scan_json_number (t ++ rest) ≡ float_token t rest) (sym text)
            (scan_json_number-numeral n rest json stop)),
      ap (converted_double (allows_lossy (c.number_policy)))
            (parse_double-extracted (c.extract) (format_double shortest d) d stream)
          ∙ classified (allows_lossy (c.number_policy)) d
              (drop_sign ((split_exponent (format_double shortest d)).0))
              ((split_exponent (format_double shortest d)).1) (leading (format_double shortest d))
              fin
              (λ y.
                let (none_behind, no_power) = form.2 (nought y) in
                let zero_digit : ch ≡ b'0' = ground (arith, nought y) in
                zero_text shortest d negative fin (
                  spelling
                  ∙ ap (λ k. ryu_text negative k digits z) zero_digit
                  ∙ ap (λ s. ryu_text negative b'0' s z) none_behind
                  ∙ ap (ryu_text negative b'0' []) no_power)),
    )
