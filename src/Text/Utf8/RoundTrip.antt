-- ===== src/Text/Utf8/RoundTrip.antt =====
-- What appendUtf8 writes is what _utf8Len accepts.
use pjson.Common.{
  ℕ, ◌+◌, ◌*◌, ◌/◌, ◌%◌, ◌≤◌, ◌<◌, ◌≡◌, ◌⊎◌, refl, subst, Bool, true, false, Option, none, some, [],
  ◌∷◌, ◌++◌, ltb, ◌==◌, if◌then◌else◌, arith, length, drop,
}
use pjson.Common.Bytes.{Bytes}
use pjson.Text.Utf8.{tail_code, checked_length, utf8_len, append_utf8}

-- A Unicode scalar value: no surrogate, and in range.
abbrev pub IsScalar : ℕ → Type 0
IsScalar cp = (cp < 0xD800) ⊎ ((0xDFFF < cp) × (cp ≤ 0x10FFFF))

-- The sequence that append_utf8 writes for a scalar value is accepted at its whole length,
-- whatever follows it.
pub utf8_len-append_utf8 :
    (cp : ℕ) (rest : Bytes)
    → IsScalar cp
    → utf8_len (append_utf8 cp ++ rest) ≡ length (append_utf8 cp)
unfolding utf8_len append_utf8
utf8_len-append_utf8 cp rest h = ground arith

-- A scalar value's encoding stands at the front, and n bytes are its length.
abbrev pub StartsWithScalar : Bytes → ℕ → Type 0
StartsWithScalar s n =
    (cp : ℕ) × IsScalar cp × (append_utf8 cp ++ drop n s ≡ s) × (length (append_utf8 cp) ≡ n)

two_bytes :
    (c0 : ℕ) (s : Bytes)
    → (c0 / 32 == 6) ≡ true
    → 0 < checked_length 2 0x80 (tail_code 1 (c0 % 32) s)
    → StartsWithScalar (c0 ∷ s) 2
unfolding tail_code append_utf8
two_bytes c0 [] e h = elim h [ ]
two_bytes c0 (c1 ∷ s) e h = (c0 % 32 * 64 + c1 % 64, ground arith, ground arith, ground arith)

three_bytes :
    (c0 : ℕ) (s : Bytes)
    → (c0 / 16 == 14) ≡ true
    → 0 < checked_length 3 0x800 (tail_code 2 (c0 % 16) s)
    → StartsWithScalar (c0 ∷ s) 3
unfolding tail_code append_utf8
three_bytes c0 [] e h = elim h [ ]
three_bytes c0 (c1 ∷ []) e h = absurd (ground arith)
three_bytes c0 (c1 ∷ c2 ∷ s) e h =
    ((c0 % 16 * 64 + c1 % 64) * 64 + c2 % 64, ground arith, ground arith, ground arith)

four_bytes :
    (c0 : ℕ) (s : Bytes)
    → (c0 / 8 == 30) ≡ true
    → 0 < checked_length 4 0x10000 (tail_code 3 (c0 % 8) s)
    → StartsWithScalar (c0 ∷ s) 4
unfolding tail_code append_utf8
four_bytes c0 [] e h = elim h [ ]
four_bytes c0 (c1 ∷ []) e h = absurd (ground arith)
four_bytes c0 (c1 ∷ c2 ∷ []) e h = absurd (ground arith)
four_bytes c0 (c1 ∷ c2 ∷ c3 ∷ s) e h = (
  ((c0 % 8 * 64 + c1 % 64) * 64 + c2 % 64) * 64 + c3 % 64,
  ground arith,
  ground arith,
  ground arith,
)

pub one_byte : (c0 : ℕ) (s : Bytes) → ltb c0 0x80 ≡ true → StartsWithScalar (c0 ∷ s) 1
unfolding append_utf8
one_byte c0 s e = (c0, ground arith, ground arith, ground arith)

checked_pos : (n lo : ℕ) (o : Option ℕ) → 0 < checked_length n lo o → n ≡ checked_length n lo o
checked_pos n lo none h = elim h [ ]
checked_pos n lo (some cp) h = ground arith

-- A branch of utf8_len that yields the length n.
branch :
    (s : Bytes) (n lo : ℕ) (o : Option ℕ)
    → (0 < checked_length n lo o → StartsWithScalar s n)
    → 0 < checked_length n lo o
    → StartsWithScalar s (checked_length n lo o)
branch s n lo o k h = subst (StartsWithScalar s) (checked_pos n lo o h) (k h)

-- The converse: bytes at which utf8_len is positive start with the encoding of a scalar value, of
-- that length.
pub utf8_len-StartsWithScalar : (s : Bytes) → 0 < utf8_len s → StartsWithScalar s (utf8_len s)
unfolding utf8_len
utf8_len-StartsWithScalar [] h = elim h [ ]
utf8_len-StartsWithScalar (c0 ∷ s) h =
    test (ltb c0 0x80) _ _ (λ e _. one_byte c0 s e)
      (test (c0 / 32 == 6) _ _
        (λ e. branch (c0 ∷ s) _ 128 (tail_code 1 (c0 % 32) s) (two_bytes c0 s e))
        (test (c0 / 16 == 14) _ _
          (λ e. branch (c0 ∷ s) _ 2048 (tail_code 2 (c0 % 16) s) (three_bytes c0 s e))
          (test (c0 / 8 == 30) _ _
            (λ e. branch (c0 ∷ s) _ 65536 (tail_code 3 (c0 % 8) s) (four_bytes c0 s e))
            (λ z. elim z [ ]))))
      h
  where
    test :
        (b : Bool) (n m : ℕ)
        → (b ≡ true → 0 < n → StartsWithScalar (c0 ∷ s) n)
        → (0 < m → StartsWithScalar (c0 ∷ s) m)
        → 0 < (if b then n else m)
        → StartsWithScalar (c0 ∷ s) (if b then n else m)
    test true n m f g k = f refl k
    test false n m f g k = g k
