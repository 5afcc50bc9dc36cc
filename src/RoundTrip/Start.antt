-- ===== src/RoundTrip/Start.antt =====
-- The first byte of a printed value, and the white space between values.
use pjson.Common.{
  ℕ, zero, suc, ◌*◌, ◌/◌, ◌≡◌, refl, sym, ◌∙◌, subst, true, false, ◌&&◌, not, some, [], ◌∷◌, ◌++◌,
  append-nil, arith, ltb, ◌==◌, Bool-cases, inl, inr, within,
}
use pjson.Common.Bytes.{Bytes}
use pjson.Common.Int.{ℤ, pos, negsuc}
use pjson.Pointer.Index.{size_max}
use pjson.Text.Decimal.{to_decimal}
use pjson.Parser.Tokens.{is_whitespace, skip_whitespace}
use pjson.Parser.Document.{numeric, lead, starts, array_mark}
use pjson.Serializer.{SerializeOptions}
use pjson.Serializer.Number.{integer_text}
use pjson.Serializer.Print.{new_line, indent_command, indent_char}
use pjson.Serializer.Sink.{replicate}
use pjson.Serializer.Sink.Fit.{printed}
use pjson.RoundTrip.Leaf.{Stops, decimal_digit}
use pjson.RoundTrip.Text.{split_write}

-- White space alone.
abbrev pub IsGap : Bytes → Type 0
IsGap [] = Unit
IsGap (c ∷ s) = (is_whitespace c ≡ true) × IsGap s

pub skip_whitespace-gap : (a s : Bytes) → IsGap a → skip_whitespace (a ++ s) ≡ skip_whitespace s
unfolding skip_whitespace
skip_whitespace-gap [] s h = refl
skip_whitespace-gap (c ∷ a) s h = rw (h.0) (skip_whitespace-gap a s (h.1))

pub skip_whitespace-start :
    (ch : ℕ) (u : Bytes) → is_whitespace ch ≡ false → skip_whitespace (ch ∷ u) ≡ ch ∷ u
unfolding skip_whitespace
skip_whitespace-start ch u h = rw h refl

pub gap-Stops : (a s : Bytes) → IsGap a → Stops s → Stops (a ++ s)
gap-Stops [] s h stop = stop
gap-Stops (c ∷ a) s h stop = let space : is_whitespace c ≡ true = h.0 in ground (arith, space)

replicate-IsGap : (n ch : ℕ) → is_whitespace ch ≡ true → IsGap (replicate n ch)
replicate-IsGap zero ch h = tt
replicate-IsGap (suc n) ch h = (h, replicate-IsGap n ch h)

indent_char-space : (opts : SerializeOptions) → is_whitespace (indent_char opts) ≡ true
indent_char-space opts = elim (Bool-cases (opts.indent_character == 9)) [
  | inl tab ↦ rw tab refl
  | inr other ↦ rw other refl
]

indent-IsGap :
    (opts : SerializeOptions) (n : ℕ) (t : Bytes)
    → printed (indent_command opts n ∷ []) ≡ some t
    → IsGap t
unfolding printed
indent-IsGap opts n t =
    elim (Bool-cases (not (opts.indent_width == 0) && ltb (size_max / opts.indent_width) n)) [
      | inl over ↦ rw over (λ h. absurd cc)
      | inr within ↦ rw within (λ h.
          let same : replicate (n * opts.indent_width) (indent_char opts) ++ [] ≡ t = cc in
          subst IsGap
            (sym (append-nil (replicate (n * opts.indent_width) (indent_char opts))) ∙ same)
            (replicate-IsGap (n * opts.indent_width) (indent_char opts) (indent_char-space opts)))
    ]

-- The line break before a child or a closing delimiter.
pub new_line-IsGap :
    (opts : SerializeOptions) (n : ℕ) (t : Bytes) → printed (new_line opts n) ≡ some t → IsGap t
unfolding printed
new_line-IsGap opts n t = elim (Bool-cases (opts.pretty)) [
  | inl pretty ↦ rw pretty (λ h.
      let (b, e, same) = split_write (10 ∷ []) (indent_command opts n ∷ []) t h in
      subst IsGap (sym same) (refl, indent-IsGap opts n b e))
  | inr compact ↦ rw compact (λ h. let same : [] ≡ t = cc in subst IsGap same tt)
]

-- The text of a value starts with a byte that is no white space and no delimiter of an array.
abbrev pub Starts : Bytes → Type 0
Starts t =
    (ch : ℕ) × (u : Bytes) × (t ≡ ch ∷ u) × (is_whitespace ch ≡ false) × (array_mark ch ≡ starts)

-- The text of a number starts with a digit or a minus sign.
abbrev pub StartsNumber : Bytes → Type 0
StartsNumber t = (ch : ℕ) × (u : Bytes) × (t ≡ ch ∷ u) × (lead ch ≡ numeric)

pub integer_text-StartsNumber : (z : ℤ) → StartsNumber (integer_text z)
unfolding integer_text
integer_text-StartsNumber (pos n) =
    let (ch, u, e, lo, hi) = decimal_digit n in (ch, u, e, ground arith)
integer_text-StartsNumber (negsuc n) = (b'-', to_decimal (suc n), refl, refl)

numeric-Starts :
    (ch : ℕ) → lead ch ≡ numeric → (is_whitespace ch ≡ false) × (array_mark ch ≡ starts)
numeric-Starts ch h = ground arith

pub StartsNumber-Starts : (t : Bytes) → StartsNumber t → Starts t
StartsNumber-Starts t (ch, u, e, h) = let (w, m) = numeric-Starts ch h in (ch, u, e, w, m)
