-- ===== src/RoundTrip/Double/Expand.antt =====
-- _formatDouble of pjsonlib/src/pjson_serialize.cpp on Ryu's numeral, in scientific or positional form.
use pjson.Common.{
  ℕ, zero, suc, ◌≡◌, sym, ap, ◌∙◌, subst, Bool, true, ◌&&◌, not, some, [], ◌∷◌, ◌++◌, length, arith,
  leb, ◌==◌, if◌then◌else◌, Bool-cases, inl, inr,
}
use pjson.Common.Bytes.{Bytes}
use pjson.Common.Int.{ℤ, pos, negsuc, difference, ltb_ℤ, ◌+ℤ◌}
use pjson.Text.Decimal.{is_digit, AllDigits}
use pjson.Serializer.Number.{
  integer_text, lower_exponent, split_at, place_point, positional, expand_exponent, with_fraction,
}
use pjson.RoundTrip.Double.{sign, point, scientific, ryu_text, IsRyuForm}
use pjson.Value.{Double, finite}
use pjson.Serializer.Number.{format_double}
use pjson.Serializer.Print.{is_finite}
use pjson.RoundTrip.Double.Format.{
  Unmarked, digit-Unmarked, append-Unmarked, sign-Unmarked, point-Unmarked, integer_text-Unmarked,
  lower_mark, split_mark, exponent_value-integer_text, positional_lem,
}
use pjson.RoundTrip.Double.Place.{
  Formats, scientific-Formats, small-Formats, large-Formats, middle-Formats,
}

one_more : (e : ℕ) → pos 1 +ℤ pos e ≡ pos (suc e)
one_more e = ground arith

one_less : (m : ℕ) → pos 1 +ℤ negsuc (suc m) ≡ negsuc m
one_less m = ground arith

module _ (negative : Bool) (c : ℕ) (s : Bytes) (digit : is_digit c ≡ true)
    (digits : AllDigits s) where
  placed-Formats :
      (z : ℤ)
      → ((c == b'0') ≡ true → (s ≡ []) × (z ≡ pos 0))
      → Formats
          (scientific negative c s z)
          (with_fraction (sign negative ++ place_point (pos 1 +ℤ z) (c ∷ s)))
  placed-Formats (negsuc zero) lead = small-Formats negative c s digit digits zero
  placed-Formats (negsuc (suc m)) lead =
      subst
        (λ p.
          Formats (scientific negative c s (negsuc (suc m)))
            (with_fraction (sign negative ++ place_point p (c ∷ s))))
        (sym (one_less m)) (small-Formats negative c s digit digits (suc m))
  placed-Formats (pos e) lead =
      subst
        (λ p.
          Formats (scientific negative c s (pos e))
            (with_fraction (sign negative ++ place_point p (c ∷ s))))
        (sym (one_more e))
        (elim (Bool-cases (leb (length (c ∷ s)) (suc e))) [
          | inl short ↦ rw short (
              large-Formats negative c s digit digits e (ground (arith, short))
                (λ h. let (es, ez) = lead h in (es, unpos e ez)))
          | inr long ↦ rw long (
              middle-Formats negative c s digit digits e (ground (arith, long))
                (λ h. let (es, ez) = lead h in (es, unpos e ez)))
        ])
    where
      unpos : (e : ℕ) → pos e ≡ pos 0 → e ≡ 0
      unpos e h = cc

  expanded-Formats :
      (z : ℤ)
      → ((c == b'0') ≡ true → (s ≡ []) × (z ≡ pos 0))
      → Formats (scientific negative c s z) (
          with_fraction (
            expand_exponent
              ((sign negative ++ c ∷ point s) ++ b'e' ∷ integer_text z)
              (some (sign negative ++ c ∷ point s, integer_text z))))
  expanded-Formats z lead =
      subst
        (λ x. Formats (scientific negative c s z) (
          with_fraction (
            if not (ltb_ℤ x (difference 0 4)) && ltb_ℤ x (pos 15)
            then positional (sign negative ++ c ∷ point s) x
            else (sign negative ++ c ∷ point s) ++ b'e' ∷ integer_text z)))
        (sym (exponent_value-integer_text z))
        (elim (Bool-cases (not (ltb_ℤ z (difference 0 4)) && ltb_ℤ z (pos 15))) [
          | inl near ↦ rw near (
              subst (λ t. Formats (scientific negative c s z) (with_fraction t))
                (sym (positional_lem negative c s z digit)) (placed-Formats z lead))
          | inr far ↦ rw far (scientific-Formats negative c s digit digits z)
        ])

-- Where Ryu spells a finite double as a scientific numeral, with the digit zero first for 0E0 alone, the
-- text of _formatDouble is a JSON number with a fraction or an exponent, of the same sign and decimal
-- value.
pub format_double-Formats :
    (shortest : Double → Bytes) (d : Double) (negative : Bool) (c : ℕ) (s : Bytes) (z : ℤ)
    → is_finite d ≡ true
    → shortest d ≡ ryu_text negative c s z
    → IsRyuForm c s z
    → Formats (scientific negative c s z) (format_double shortest d)
unfolding format_double
format_double-Formats shortest (finite sg scaled) negative c s z fin spelling
      (digit, digits, lead) =
    let pre = sign negative ++ c ∷ point s in
    let unmarked : Unmarked pre =
      append-Unmarked (sign negative) (c ∷ point s) (sign-Unmarked negative)
        ((digit-Unmarked (c ∷ []) (digit, tt)).0, point-Unmarked s digits) in
    let text =
      ap lower_exponent spelling
      ∙ lower_mark pre (integer_text z) unmarked (integer_text-Unmarked z) in
    subst
      (λ t.
        Formats (scientific negative c s z) (with_fraction (expand_exponent t (split_at b'e' t))))
      (sym text)
      (subst
        (λ o.
          Formats (scientific negative c s z)
            (with_fraction (expand_exponent (pre ++ b'e' ∷ integer_text z) o)))
        (sym (split_mark pre (integer_text z) unmarked))
        (expanded-Formats negative c s digit digits z lead))
format_double-Formats shortest d negative c s z fin spelling form = absurd cc
