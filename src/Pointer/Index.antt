-- ===== src/Pointer/Index.antt =====
-- parsePointerIndex: array indices are canonical decimals that fit size_t.
use pjson.Common.{
  ℕ, zero, suc, ◌+◌, ◌-◌, ◌*◌, ◌/◌, ◌^◌, ◌≤◌, ◌<◌, ◌≡◌, ◌≢◌, refl, sym, ap, ◌∙◌, not, [], ◌∷◌,
  arith, within, ltb, ◌==◌, if◌then◌else◌, Bool-cases, inl, inr, ◌↔◌, subst,
}
use pjson.Common.Bytes.{Bytes}
use pjson.Text.Decimal.{
  to_decimal, spelled, AllDigits, spelled-to_decimal, to_decimal-AllDigits, to_decimal-zero,
  to_decimal-head, to_decimal-spelled,
}

-- std::numeric_limits<size_t>::max()
abbrev pub size_max : ℕ
size_max = 2 ^ 64 - 1

-- PointerIndexResult with the index that PointerIndexOk stores.
pub data PointerIndexResult : Type 0 where
  index_ok : ℕ → PointerIndexResult
  index_invalid index_overflow : PointerIndexResult

scan_index : Bytes → ℕ → PointerIndexResult
scan_index [] value = index_ok value
scan_index (ch ∷ token) value =
    let digit = ch - b'0' in
    if not (within b'0' b'9' ch)
    then index_invalid
    else if ltb ((size_max - digit) / 10) value
    then index_overflow
    else scan_index token (value * 10 + digit)

unfoldable pub parse_pointer_index : Bytes → PointerIndexResult
unfolding scan_index
parse_pointer_index [] = index_invalid
parse_pointer_index (ch ∷ []) = scan_index (ch ∷ []) 0
parse_pointer_index (ch ∷ c ∷ token) =
    if ch == b'0' then index_invalid else scan_index (ch ∷ c ∷ token) 0

scan_sound :
    (token : Bytes) (value n : ℕ)
    → value ≤ size_max
    → scan_index token value ≡ index_ok n
    → AllDigits token × (n ≡ spelled value token) × (n ≤ size_max)
unfolding scan_index
scan_sound [] value n h e = ground arith
scan_sound (ch ∷ token) value n h e = ground (arith, scan_sound token (value * 10 + (ch - b'0')) n)

le-spelled : (token : Bytes) (value : ℕ) → value ≤ spelled value token
le-spelled [] value = omega arith
le-spelled (ch ∷ token) value = omega (arith, le-spelled token (value * 10 + (ch - b'0')))

scan_complete :
    (token : Bytes) (value : ℕ)
    → AllDigits token
    → spelled value token ≤ size_max
    → scan_index token value ≡ index_ok (spelled value token)
unfolding scan_index
scan_complete [] value a h = refl
scan_complete (ch ∷ token) value a h =
    let next = value * 10 + (ch - b'0') in
    ground (arith, a.0, scan_complete token next a.1 h, le-spelled token next)

-- A run of digits without leading zero is the decimal text of what the scan returns.
scan_canonical :
    (ch : ℕ) (token : Bytes) (n : ℕ)
    → ch ≢ b'0'
    → scan_index (ch ∷ token) 0 ≡ index_ok n
    → (ch ∷ token ≡ to_decimal n) × (n ≤ size_max)
scan_canonical ch token n z h =
    let (a, e, fits) = scan_sound (ch ∷ token) 0 n (omega arith) h in
    (sym (to_decimal-spelled ch token (ground (arith, a.0)) a) ∙ ap to_decimal (sym e), fits)

index_sound :
    (token : Bytes) (n : ℕ)
    → parse_pointer_index token ≡ index_ok n
    → (token ≡ to_decimal n) × (n ≤ size_max)
unfolding parse_pointer_index
index_sound [] n h = cc
index_sound (ch ∷ []) n h = elim (Bool-cases (ch == b'0')) [
  | inl e ↦
      let zero_ch : ch ≡ b'0' = ground arith in
      let zero_n : n ≡ 0 = ground arith in (rw (zero_ch, zero_n) (sym to_decimal-zero), omega arith)
  | inr e ↦ scan_canonical ch [] n (ground arith) h
]
index_sound (ch ∷ c ∷ token) n h = elim (Bool-cases (ch == b'0')) [
  | inl e ↦ ground arith
  | inr e ↦ scan_canonical ch (c ∷ token) n (ground arith) (ground arith)
]

parse-nonzero :
    (ch : ℕ) (token : Bytes)
    → b'0' < ch
    → parse_pointer_index (ch ∷ token) ≡ scan_index (ch ∷ token) 0
unfolding parse_pointer_index
parse-nonzero ch [] h = refl
parse-nonzero ch (c ∷ token) h = ground arith

index_complete : (n : ℕ) → n ≤ size_max → parse_pointer_index (to_decimal n) ≡ index_ok n
index_complete zero h = rw to_decimal-zero (unfold parse_pointer_index in refl)
index_complete (suc m) h =
    let n = suc m in
    let (c, s, e, low, high) = to_decimal-head n (omega arith) in
    let value : spelled 0 (c ∷ s) ≡ n = ap (spelled 0) (sym e) ∙ spelled-to_decimal n in
    ap parse_pointer_index e
    ∙ parse-nonzero c s low
    ∙ scan_complete (c ∷ s) 0 (subst AllDigits e (to_decimal-AllDigits n)) (omega (arith, value))
    ∙ ap index_ok value

-- parse_pointer_index yields n for a token exactly when the token is the decimal text of n, without
-- sign or leading zero, and n fits size_t: two tokens never name one array element.
pub parse_pointer_index-to_decimal :
    (token : Bytes) (n : ℕ)
    → (parse_pointer_index token ≡ index_ok n) ↔ ((token ≡ to_decimal n) × (n ≤ size_max))
parse_pointer_index-to_decimal token n =
    (index_sound token n, λ h. ap parse_pointer_index h.0 ∙ index_complete n h.1)
