-- ===== src/RoundTrip/Double/Format.antt =====
-- The numeral that _formatDouble makes of Ryu's.
use pjson.Common.{
  ℕ, zero, suc, ◌+◌, ◌-◌, ◌*◌, ◌^◌, ◌≡◌, refl, sym, ap, ◌∙◌, subst, Bool, true, false, some, [],
  ◌∷◌, ◌++◌, length, take, drop, arith, ◌==◌, All,
}
use native.Mathlib.Nat.{mul_assoc, pow-succ'}
use pjson.Common.Bytes.{Bytes}
use pjson.Common.Int.{ℤ, pos, negsuc, difference, ◌+ℤ◌}
use pjson.Text.Decimal.{
  to_decimal, is_digit, spelled, AllDigits, spelled-to_decimal, to_decimal-AllDigits,
}
use pjson.Serializer.Number.{
  integer_text, lower_exponent, split_at, exponent_digits, exponent_value, without_dot, zeros,
  place_point, positional, looks_integral,
}
use pjson.RoundTrip.Leaf.{decimal_digit}
use pjson.RoundTrip.Double.{sign, point}

-- No exponent mark.
abbrev pub Unmarked : Bytes → Type 0
Unmarked = All (λ c. ((c == b'e') ≡ false) × ((c == b'E') ≡ false))

pub digit-Unmarked : (s : Bytes) → AllDigits s → Unmarked s
digit-Unmarked [] h = tt
digit-Unmarked (c ∷ s) (d, h) = ((ground (arith, d), ground (arith, d)), digit-Unmarked s h)

pub append-Unmarked : (s t : Bytes) → Unmarked s → Unmarked t → Unmarked (s ++ t)
append-Unmarked [] t h k = k
append-Unmarked (c ∷ s) t (d, h) k = (d, append-Unmarked s t h k)

pub sign-Unmarked : (negative : Bool) → Unmarked (sign negative)
sign-Unmarked true = ((refl, refl), tt)
sign-Unmarked false = tt

pub point-Unmarked : (s : Bytes) → AllDigits s → Unmarked (point s)
point-Unmarked [] h = tt
point-Unmarked (c ∷ s) h = ((refl, refl), digit-Unmarked (c ∷ s) h)

pub integer_text-Unmarked : (z : ℤ) → Unmarked (integer_text z)
unfolding integer_text
integer_text-Unmarked (pos n) = digit-Unmarked (to_decimal n) (to_decimal-AllDigits n)
integer_text-Unmarked (negsuc n) =
    ((refl, refl), digit-Unmarked (to_decimal (suc n)) (to_decimal-AllDigits (suc n)))

pub lower-Unmarked : (s : Bytes) → Unmarked s → lower_exponent s ≡ s
lower-Unmarked [] h = refl
lower-Unmarked (c ∷ s) (d, h) = rw (d.1) (ap (λ t. c ∷ t) (lower-Unmarked s h))

pub lower_mark :
    (s t : Bytes) → Unmarked s → Unmarked t → lower_exponent (s ++ b'E' ∷ t) ≡ s ++ b'e' ∷ t
lower_mark [] t h k = ap (λ u. b'e' ∷ u) (lower-Unmarked t k)
lower_mark (c ∷ s) t (d, h) k = rw (d.1) (ap (λ u. c ∷ u) (lower_mark s t h k))

pub split_mark : (s t : Bytes) → Unmarked s → split_at b'e' (s ++ b'e' ∷ t) ≡ some (s, t)
split_mark [] t h = refl
split_mark (c ∷ s) t (d, h) = rw (d.0, split_at) (rw (split_mark s t h, split_at) refl)

pub exponent_digits-spelled : (n : ℕ) (s : Bytes) → exponent_digits n s ≡ spelled n s
exponent_digits-spelled n [] = refl
exponent_digits-spelled n (c ∷ s) = exponent_digits-spelled (n * 10 + (c - b'0')) s

pub difference_below : (n : ℕ) → difference 0 (suc n) ≡ negsuc n
difference_below n = ground arith

pub exponent_value-integer_text : (z : ℤ) → exponent_value (integer_text z) ≡ z
unfolding integer_text
exponent_value-integer_text (pos n) =
    let (c, s, e, lo, hi) = decimal_digit n in
    let minus : (c == b'-') ≡ false = ground arith in
    let plus : (c == b'+') ≡ false = ground arith in
    let value : exponent_digits 0 (c ∷ s) ≡ n =
      exponent_digits-spelled 0 (c ∷ s) ∙ ap (spelled 0) (sym e) ∙ spelled-to_decimal n in
    subst (λ t. exponent_value t ≡ pos n) (sym e) (rw (minus, plus) (ap pos value))
exponent_value-integer_text (negsuc n) =
    ap (difference 0) (exponent_digits-spelled 0 (to_decimal (suc n)) ∙ spelled-to_decimal (suc n))
    ∙ difference_below n

pub without_dot-point : (c : ℕ) (s : Bytes) → is_digit c ≡ true → without_dot (c ∷ point s) ≡ c ∷ s
without_dot-point c [] d =
    let plain : (c == b'.') ≡ false = ground (arith, d) in rw (plain, without_dot, split_at) refl
without_dot-point c (x ∷ s) d =
    let plain : (c == b'.') ≡ false = ground (arith, d) in rw (plain, without_dot, split_at) refl

pub positional_lem :
    (negative : Bool) (c : ℕ) (s : Bytes) (z : ℤ)
    → is_digit c ≡ true
    → positional (sign negative ++ c ∷ point s) z
      ≡ sign negative ++ place_point (pos 1 +ℤ z) (c ∷ s)
positional_lem true c s z d = ap (λ t. b'-' ∷ place_point (pos 1 +ℤ z) t) (without_dot-point c s d)
positional_lem false c s z d =
    let plain : (c == b'-') ≡ false = ground (arith, d) in
    rw plain (ap (place_point (pos 1 +ℤ z)) (without_dot-point c s d))

pub looks_integral-mark : (s t : Bytes) → looks_integral (s ++ b'e' ∷ t) ≡ false
looks_integral-mark [] t = refl
looks_integral-mark (c ∷ s) t = ground (arith, looks_integral-mark s t)

pub looks_integral-point : (s t : Bytes) → looks_integral (s ++ b'.' ∷ t) ≡ false
looks_integral-point [] t = refl
looks_integral-point (c ∷ s) t = ground (arith, looks_integral-point s t)

pub looks_integral-digits : (s : Bytes) → AllDigits s → looks_integral s ≡ true
looks_integral-digits [] h = refl
looks_integral-digits (c ∷ s) (d, h) = ground (arith, d, looks_integral-digits s h)

pub looks_integral-sign :
    (negative : Bool) (s : Bytes) → AllDigits s → looks_integral (sign negative ++ s) ≡ true
looks_integral-sign true s h = looks_integral-digits s h
looks_integral-sign false s h = looks_integral-digits s h

pub zeros-AllDigits : (n : ℕ) → AllDigits (zeros n)
zeros-AllDigits zero = tt
zeros-AllDigits (suc n) = (refl, zeros-AllDigits n)

pub append-AllDigits : (s t : Bytes) → AllDigits s → AllDigits t → AllDigits (s ++ t)
append-AllDigits [] t h k = k
append-AllDigits (c ∷ s) t (d, h) k = (d, append-AllDigits s t h k)

pub take-AllDigits : (n : ℕ) (s : Bytes) → AllDigits s → AllDigits (take n s)
take-AllDigits zero s h = tt
take-AllDigits (suc n) [] h = tt
take-AllDigits (suc n) (c ∷ s) (d, h) = (d, take-AllDigits n s h)

pub drop-AllDigits : (n : ℕ) (s : Bytes) → AllDigits s → AllDigits (drop n s)
drop-AllDigits zero s h = h
drop-AllDigits (suc n) [] h = tt
drop-AllDigits (suc n) (c ∷ s) (d, h) = drop-AllDigits n s h

pub spelled-append : (n : ℕ) (s t : Bytes) → spelled n (s ++ t) ≡ spelled (spelled n s) t
spelled-append n [] t = refl
spelled-append n (c ∷ s) t = spelled-append (n * 10 + (c - b'0')) s t

pub ten : (n k : ℕ) → (n * 10 + 0) * 10 ^ k ≡ n * 10 ^ suc k
ten n k =
    let plain : n * 10 + 0 ≡ n * 10 = omega arith in
    ap (λ m. m * 10 ^ k) plain ∙ mul_assoc n 10 (10 ^ k) ∙ ap (λ p. n * p) (sym (pow-succ' 10 k))

pub spelled-zeros : (n k : ℕ) → spelled n (zeros k) ≡ n * 10 ^ k
spelled-zeros n zero = omega arith
spelled-zeros n (suc k) = spelled-zeros (n * 10 + 0) k ∙ ten n k

pub length-zeros : (n : ℕ) → length (zeros n) ≡ n
length-zeros zero = refl
length-zeros (suc n) = ap suc (length-zeros n)
