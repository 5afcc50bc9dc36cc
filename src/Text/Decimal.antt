-- ===== src/Text/Decimal.antt =====
-- std::to_string of an unsigned integer, and the number that a run of digits spells.
use pjson.Common.{
  ℕ, zero, suc, ◌+◌, ◌-◌, ◌*◌, ◌/◌, ◌%◌, ◌≤◌, ◌<◌, ◌≡◌, refl, ap, ◌∙◌, Bool, true, [], ◌∷◌, ◌++◌,
  append-nil, arith, within, ltb, if◌then◌else◌, All, Bool-cases, inl, inr,
}
use pjson.Common.Bytes.{Bytes}

-- The digits of n in front of `out`; each round divides by ten, so n + 1 rounds are enough.
digits_on : ℕ → ℕ → Bytes → Bytes
digits_on zero n out = out
digits_on (suc f) n out =
    let more = digits_on f (n / 10) ((b'0' + n % 10) ∷ out) in
    if ltb n 10 then (b'0' + n) ∷ out else more

unfoldable pub to_decimal : ℕ → Bytes
unfolding digits_on
to_decimal n = digits_on (suc n) n []

abbrev pub is_digit : ℕ → Bool
is_digit = within b'0' b'9'

-- The number that digits spell behind n.
abbrev pub spelled : ℕ → Bytes → ℕ
spelled n [] = n
spelled n (c ∷ s) = spelled (n * 10 + (c - b'0')) s

abbrev pub AllDigits : Bytes → Type 0
AllDigits = All (λ c. is_digit c ≡ true)

digits_fuel : (f g n : ℕ) (out : Bytes) → n < f → n < g → digits_on f n out ≡ digits_on g n out
unfolding digits_on
digits_fuel zero g n out h k = elim h [ ]
digits_fuel (suc f) zero n out h k = elim k [ ]
digits_fuel (suc f) (suc g) n out h k =
    ground (arith, digits_fuel f g (n / 10) ((b'0' + n % 10) ∷ out))

digits : ℕ → Bytes → Bytes
digits n out = digits_on (suc n) n out

digits_step :
    (n : ℕ) (out : Bytes)
    → digits n out
      ≡ (if ltb n 10 then (b'0' + n) ∷ out else digits (n / 10) ((b'0' + n % 10) ∷ out))
unfolding digits digits_on
digits_step n out = ground (arith, digits_fuel n (suc (n / 10)) (n / 10) ((b'0' + n % 10) ∷ out))

spelled-digits_on : (f n : ℕ) (out : Bytes) → n < f → spelled 0 (digits_on f n out) ≡ spelled n out
unfolding digits_on
spelled-digits_on zero n out h = elim h [ ]
spelled-digits_on (suc f) n out h = elim (Bool-cases (ltb n 10)) [
  | inl small ↦ rw small (ap (λ m. spelled m out) (omega arith))
  | inr big ↦ rw big (
      spelled-digits_on f (n / 10) ((b'0' + n % 10) ∷ out) (ground arith)
      ∙ ap (λ m. spelled m out) (omega arith))
]

digits_on-AllDigits :
    (f n : ℕ) (out : Bytes) → n < f → AllDigits out → AllDigits (digits_on f n out)
unfolding digits_on
digits_on-AllDigits zero n out h a = elim h [ ]
digits_on-AllDigits (suc f) n out h a = elim (Bool-cases (ltb n 10)) [
  | inl small ↦ rw small (ground arith, a)
  | inr big ↦
      rw big
        (digits_on-AllDigits f (n / 10) ((b'0' + n % 10) ∷ out) (ground arith) (ground arith, a))
]

-- A positive number has no leading zero.
digits_on-head :
    (f n : ℕ) (out : Bytes)
    → n < f
    → 0 < n
    → (c : ℕ) × (s : Bytes) × (digits_on f n out ≡ c ∷ s) × (b'0' < c) × (c ≤ b'9')
unfolding digits_on
digits_on-head zero n out h z = elim h [ ]
digits_on-head (suc f) n out h z = elim (Bool-cases (ltb n 10)) [
  | inl small ↦ (b'0' + n, out, rw small refl, omega arith, ground arith)
  | inr big ↦
      rw big (digits_on-head f (n / 10) ((b'0' + n % 10) ∷ out) (ground arith) (ground arith))
]

pub spelled-to_decimal : (n : ℕ) → spelled 0 (to_decimal n) ≡ n
unfolding to_decimal
spelled-to_decimal n = spelled-digits_on (suc n) n [] (omega arith)

pub to_decimal-AllDigits : (n : ℕ) → AllDigits (to_decimal n)
unfolding to_decimal
to_decimal-AllDigits n = digits_on-AllDigits (suc n) n [] (omega arith) tt

pub to_decimal-zero : to_decimal 0 ≡ b'0' ∷ []
unfolding to_decimal
to_decimal-zero = refl

pub to_decimal-head :
    (n : ℕ) → 0 < n → (c : ℕ) × (s : Bytes) × (to_decimal n ≡ c ∷ s) × (b'0' < c) × (c ≤ b'9')
unfolding to_decimal
to_decimal-head n h = digits_on-head (suc n) n [] (omega arith) h

digits-spelled :
    (s : Bytes) (m : ℕ) (out : Bytes)
    → 0 < m
    → AllDigits s
    → digits (spelled m s) out ≡ digits m (s ++ out)
digits-spelled [] m out h a = refl
digits-spelled (c ∷ s) m out h a =
    let d = c - b'0' in
    digits-spelled s (m * 10 + d) out (omega arith) a.1
    ∙ ground (arith, digits_step (m * 10 + d) (s ++ out), a.0)

to_decimal-digits : (n : ℕ) → to_decimal n ≡ digits n []
unfolding to_decimal digits
to_decimal-digits n = refl

-- A run of digits that does not begin with 0 is the decimal text of the number that it spells.
pub to_decimal-spelled :
    (c : ℕ) (s : Bytes) → b'0' < c → AllDigits (c ∷ s) → to_decimal (spelled 0 (c ∷ s)) ≡ c ∷ s
to_decimal-spelled c s h a =
    let m = 0 * 10 + (c - b'0') in
    to_decimal-digits (spelled m s)
    ∙ digits-spelled s m [] (omega arith) a.1
    ∙ ground (arith, digits_step m (s ++ []), a.0, append-nil s)
