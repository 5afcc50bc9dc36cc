-- ===== src/RoundTrip/Double/Place.antt =====
-- The forms in which _formatDouble of pjsonlib/src/pjson_serialize.cpp writes Ryu's numeral.
use pjson.Common.{
  ℕ, zero, suc, ◌+◌, ◌-◌, ◌*◌, ◌^◌, ◌≤◌, ◌<◌, ◌≡◌, refl, sym, ap, ◌∙◌, Bool, true, Option, none,
  some, [], ◌∷◌, ◌++◌, append_assoc, append-nil, length, length-append, take, drop, take-drop,
  arith, ◌==◌,
}
use native.Mathlib.Nat.{mul_assoc, pow-suc}
use pjson.Common.Bytes.{Bytes, codes}
use pjson.Common.Int.{ℤ, pos, negsuc}
use pjson.Text.Decimal.{is_digit, spelled, AllDigits}
use pjson.Serializer.Number.{integer_text, zeros, looks_integral, with_fraction}
use pjson.RoundTrip.Double.{Numeral, sign, point, numeral_text, SameDecimal, scientific}
use pjson.RoundTrip.Double.Format.{
  looks_integral-mark, looks_integral-point, looks_integral-sign, zeros-AllDigits, append-AllDigits,
  take-AllDigits, drop-AllDigits, spelled-append, spelled-zeros, length-zeros,
}

abbrev pub IsFloat : Bytes → Option ℤ → Type 0
IsFloat [] none = ⊥
IsFloat s z = Unit

-- The grammar of a JSON number with a fraction or an exponent.
abbrev pub IsJson : Numeral → Type 0
IsJson n =
    (h : ℕ) × (hs : Bytes) × (n.whole ≡ h ∷ hs)
    × AllDigits (h ∷ hs)
    × ((h == b'0') ≡ true → hs ≡ [])
    × AllDigits (n.fraction)
    × IsFloat (n.fraction) (n.exponent)

-- The text is that of a numeral that is the same decimal number as m.
abbrev pub Formats : Numeral → Bytes → Type 0
Formats m text = (n : Numeral) × (text ≡ numeral_text n) × SameDecimal n m × IsJson n

shifted : (m k : ℕ) → (m * 10 ^ k * 10 + (b'0' - b'0')) * 1 ≡ m * 10 ^ suc k
shifted m k =
    let plain : (m * 10 ^ k * 10 + (b'0' - b'0')) * 1 ≡ m * 10 ^ k * 10 = tidy (m * 10 ^ k) in
    plain ∙ mul_assoc m (10 ^ k) 10 ∙ ap (λ p. m * p) (sym (pow-suc 10 k))
  where
    tidy : (x : ℕ) → (x * 10 + (b'0' - b'0')) * 1 ≡ x * 10
    tidy x = omega arith

drop_rest : (n : ℕ) (t : Bytes) → n ≤ length t → length (drop n t) + n ≡ length t
drop_rest zero t h = omega arith
drop_rest (suc n) [] h = elim h [ ]
drop_rest (suc n) (x ∷ t) h = omega (arith, drop_rest n t (omega (arith, h)))

module _ (negative : Bool) (c : ℕ) (s : Bytes) (digit : is_digit c ≡ true)
    (digits : AllDigits s) where
  pub scientific-Formats :
      (z : ℤ)
      → Formats
          (scientific negative c s z)
          (with_fraction ((sign negative ++ c ∷ point s) ++ b'e' ∷ integer_text z))
  scientific-Formats z = rw (looks_integral-mark (sign negative ++ c ∷ point s) (integer_text z)) (
    scientific negative c s z,
    append_assoc (sign negative) (c ∷ point s) (b'e' ∷ integer_text z),
    (refl, 0, 0, refl, refl),
    (c, [], refl, (digit, tt), (λ h. refl), digits, float s),
  )
    where
      float : (s : Bytes) → IsFloat s (some z)
      float [] = tt
      float (x ∷ s) = tt

  pointed :
      (a b : Bytes)
      → with_fraction (sign negative ++ (a ++ b'.' ∷ b)) ≡ sign negative ++ (a ++ b'.' ∷ b)
  pointed a b =
      let at : sign negative ++ (a ++ b'.' ∷ b) ≡ (sign negative ++ a) ++ b'.' ∷ b =
        sym (append_assoc (sign negative) a (b'.' ∷ b)) in
      let found = ap looks_integral at ∙ looks_integral-point (sign negative ++ a) b in
      rw found refl

  point-zeros : (m : ℕ) → point (zeros m ++ c ∷ s) ≡ b'.' ∷ (zeros m ++ c ∷ s)
  point-zeros zero = refl
  point-zeros (suc m) = refl

  IsFloat-zeros : (m : ℕ) → IsFloat (zeros m ++ c ∷ s) none
  IsFloat-zeros zero = tt
  IsFloat-zeros (suc m) = tt

  pub small-Formats :
      (m : ℕ)
      → Formats
          (scientific negative c s (negsuc m))
          (with_fraction (sign negative ++ (codes "0." ++ (zeros m ++ c ∷ s))))
  small-Formats m =
      let fraction = zeros m ++ c ∷ s in
      let spelling : spelled 0 fraction ≡ spelled 0 (c ∷ s) =
        spelled-append 0 (zeros m) (c ∷ s)
        ∙ ap (λ n. spelled n (c ∷ s)) (spelled-zeros 0 m ∙ zero_times m) in
      (
        record { negative = negative; whole = b'0' ∷ []; fraction = fraction; exponent = none },
        pointed (b'0' ∷ []) fraction
            ∙ ap (λ t. sign negative ++ b'0' ∷ t)
                (sym (append-nil (point fraction) ∙ point-zeros m)),
        (
          refl,
          0,
          0,
          ap (λ n. n * 1) spelling,
          omega (arith, length-append (zeros m) (c ∷ s), length-zeros m),
        ),
        (
          b'0',
          [],
          refl,
          (refl, tt),
          (λ h. refl),
          append-AllDigits (zeros m) (c ∷ s) (zeros-AllDigits m) (digit, digits),
          IsFloat-zeros m,
        ),
      )
    where
      zero_times : (m : ℕ) → 0 * 10 ^ m ≡ 0
      zero_times m = omega arith

  pub large-Formats :
      (e : ℕ)
      → length s ≤ e
      → ((c == b'0') ≡ true → (s ≡ []) × (e ≡ 0))
      → Formats
          (scientific negative c s (pos e))
          (with_fraction (sign negative ++ ((c ∷ s) ++ zeros (suc e - length (c ∷ s)))))
  large-Formats e short lead =
      let k = suc e - length (c ∷ s) in
      let whole = (c ∷ s) ++ zeros k in
      let all = append-AllDigits (c ∷ s) (zeros k) (digit, digits) (zeros-AllDigits k) in
      let spelling : spelled 0 (whole ++ b'0' ∷ []) * 1 ≡ spelled 0 (c ∷ s) * 10 ^ suc k =
        ap (λ n. n * 1)
          (spelled-append 0 whole (b'0' ∷ [])
            ∙ ap (λ n. n * 10 + (b'0' - b'0'))
                (spelled-append 0 (c ∷ s) (zeros k) ∙ spelled-zeros (spelled 0 (c ∷ s)) k))
        ∙ shifted (spelled 0 (c ∷ s)) k in
      rw (looks_integral-sign negative whole all) (
        record { negative = negative; whole = whole; fraction = b'0' ∷ []; exponent = none },
        append_assoc (sign negative) whole (codes ".0"),
        (refl, 0, suc k, spelling, omega (arith, short)),
        (
          c,
          s ++ zeros k,
          refl,
          all,
          (λ h.
              let (es, ee) = lead h in
              ap (λ t. t ++ zeros (suc e - suc (length t))) es ∙ ap (λ n. zeros (suc n - 1)) ee),
          (refl, tt),
          tt,
        ),
      )

  point-drop : (n : ℕ) (t : Bytes) → n < length t → point (drop n t) ≡ b'.' ∷ drop n t
  point-drop zero (x ∷ t) h = refl
  point-drop zero [] h = elim h [ ]
  point-drop (suc n) [] h = elim h [ ]
  point-drop (suc n) (x ∷ t) h = point-drop n t (omega (arith, h))

  IsFloat-drop : (n : ℕ) (t : Bytes) → n < length t → IsFloat (drop n t) none
  IsFloat-drop zero (x ∷ t) h = tt
  IsFloat-drop zero [] h = elim h [ ]
  IsFloat-drop (suc n) [] h = elim h [ ]
  IsFloat-drop (suc n) (x ∷ t) h = IsFloat-drop n t (omega (arith, h))

  pub middle-Formats :
      (e : ℕ)
      → e < length s
      → ((c == b'0') ≡ true → (s ≡ []) × (e ≡ 0))
      → Formats
          (scientific negative c s (pos e))
          (with_fraction (sign negative ++ (take (suc e) (c ∷ s) ++ b'.' ∷ drop (suc e) (c ∷ s))))
  middle-Formats e long lead = (
    record { negative = negative; whole = c ∷ take e s; fraction = drop e s; exponent = none },
    pointed (c ∷ take e s) (drop e s)
        ∙ ap (λ t. sign negative ++ c ∷ (take e s ++ t))
            (sym (append-nil (point (drop e s)) ∙ point-drop e s long)),
    (
      refl,
      0,
      0,
      ap (λ t. spelled 0 (c ∷ t) * 1) (take-drop e s),
      omega (arith, drop_rest e s (omega (arith, long))),
    ),
    (
      c,
      take e s,
      refl,
      (digit, take-AllDigits e s digits),
      (λ h. let (es, ee) = lead h in absurd (omega (arith, long, ap length es))),
      drop-AllDigits e s digits,
      IsFloat-drop e s long,
    ),
  )
