-- ===== src/Text/Escape/Accepts.antt =====
-- Which strings _writeEscapedTo accepts: the rounds of its loop, and well-formed UTF-8.
use pjson.Common.{
  ℕ, zero, suc, ◌<◌, ◌≡◌, refl, sym, ap, ◌∙◌, subst, Bool, true, false, Option, none, some, List,
  [], ◌∷◌, ◌++◌, arith, length, take, drop, inl, inr, Bool-cases, length-append, ltb, All, ◌≢◌, ◌⊎◌,
  drop-length_lt,
}
use pjson.Common.Bytes.{Bytes}
use pjson.Text.Utf8.{utf8_len, append_utf8}
use pjson.Text.Utf8.RoundTrip.{
  IsScalar, StartsWithScalar, utf8_len-append_utf8, utf8_len-StartsWithScalar,
}
use pjson.Text.Escape.{
  short_escape, unicode_escape, escape_code_point, code_point_of, escape_wide, escape_plain,
  escape_piece, Escaped, escaped, not_utf8, unfinished, with_piece, escape_loop, write_escaped,
}

utf8_len-ascii : (ch : ℕ) (s : Bytes) → ltb ch 0x80 ≡ true → utf8_len (ch ∷ s) ≡ 1
unfolding utf8_len
utf8_len-ascii ch s h = rw h refl

-- A round advances by the length of the sequence that it meets.
abbrev pub Measures : ℕ → Bytes × ℕ → Type 0
Measures n p = (p.1 ≡ n) × (0 < p.1)

wide-Measures :
    (escape_non_ascii : Bool) (ch : ℕ) (s : Bytes) (n : ℕ) (p : Bytes × ℕ)
    → escape_wide escape_non_ascii ch s n ≡ some p
    → Measures n p
wide-Measures escape_non_ascii ch s zero p e = absurd cc
wide-Measures true ch s (suc k) p e =
    let same : (escape_code_point (code_point_of (suc k) ch s), suc k) ≡ p = cc in
    subst (Measures (suc k)) same (refl, omega arith)
wide-Measures false ch s (suc k) p e =
    let same : (take (suc k) (ch ∷ s), suc k) ≡ p = cc in
    subst (Measures (suc k)) same (refl, omega arith)

short_ascii : (ch letter : ℕ) → short_escape ch ≡ some letter → ltb ch 0x80 ≡ true
short_ascii ch letter h = ground arith

plain-Measures :
    (escape_non_ascii : Bool) (ch : ℕ) (s : Bytes) (o : Option ℕ) (p : Bytes × ℕ)
    → short_escape ch ≡ o
    → escape_plain escape_non_ascii ch s o ≡ some p
    → Measures (utf8_len (ch ∷ s)) p
plain-Measures escape_non_ascii ch s (some letter) p o e =
    let same : (b'\\' ∷ letter ∷ [], 1) ≡ p = cc in
    subst (Measures (utf8_len (ch ∷ s))) same
      (sym (utf8_len-ascii ch s (short_ascii ch letter o)), omega arith)
plain-Measures escape_non_ascii ch s none p o e = elim (Bool-cases (ltb ch 0x20)) [
  | inl control ↦
      let same : (unicode_escape ch, 1) ≡ p = ground arith in
      subst (Measures (utf8_len (ch ∷ s))) same
        (sym (utf8_len-ascii ch s (ground arith)), omega arith)
  | inr big ↦ elim (Bool-cases (ltb ch 0x80)) [
    | inl ascii ↦
        let same : (ch ∷ [], 1) ≡ p = ground arith in
        subst (Measures (utf8_len (ch ∷ s))) same (sym (utf8_len-ascii ch s ascii), omega arith)
    | inr high ↦ wide-Measures escape_non_ascii ch s (utf8_len (ch ∷ s)) p (ground arith)
  ]
]

pub escape_piece-Measures :
    (escape_non_ascii : Bool) (ch : ℕ) (s : Bytes) (p : Bytes × ℕ)
    → escape_piece escape_non_ascii ch s ≡ some p
    → Measures (utf8_len (ch ∷ s)) p
unfolding escape_piece
escape_piece-Measures escape_non_ascii ch s p e =
    plain-Measures escape_non_ascii ch s (short_escape ch) p refl e

abbrev Succeeds : {A : Type 0} → Option A → Type 0
Succeeds {A} o = (a : A) × (o ≡ some a)

wide-Succeeds :
    (escape_non_ascii : Bool) (ch : ℕ) (s : Bytes) (n : ℕ)
    → 0 < n
    → Succeeds (escape_wide escape_non_ascii ch s n)
wide-Succeeds escape_non_ascii ch s zero h = elim h [ ]
wide-Succeeds true ch s (suc k) h = (_, refl)
wide-Succeeds false ch s (suc k) h = (_, refl)

plain-Succeeds :
    (escape_non_ascii : Bool) (ch : ℕ) (s : Bytes) (o : Option ℕ)
    → 0 < utf8_len (ch ∷ s)
    → Succeeds (escape_plain escape_non_ascii ch s o)
plain-Succeeds escape_non_ascii ch s (some letter) h = (_, refl)
plain-Succeeds escape_non_ascii ch s none h = elim (Bool-cases (ltb ch 0x20)) [
  | inl control ↦ rw control (_, refl)
  | inr big ↦ elim (Bool-cases (ltb ch 0x80)) [
    | inl ascii ↦ rw (big, ascii) (_, refl)
    | inr high ↦ rw (big, high) (wide-Succeeds escape_non_ascii ch s (utf8_len (ch ∷ s)) h)
  ]
]

escape_piece-Succeeds :
    (escape_non_ascii : Bool) (ch : ℕ) (s : Bytes)
    → 0 < utf8_len (ch ∷ s)
    → Succeeds (escape_piece escape_non_ascii ch s)
unfolding escape_piece
escape_piece-Succeeds escape_non_ascii ch s h =
    plain-Succeeds escape_non_ascii ch s (short_escape ch) h

-- The loop ends with a text.
abbrev pub Finishes : Escaped → Type 0
Finishes o = (e : Bytes) × (o ≡ escaped e)

pub escape_loop-empty :
    (f : ℕ) (escape_non_ascii : Bool) (e : Bytes)
    → escape_loop (suc f) escape_non_ascii [] ≡ escaped e
    → [] ≡ e
unfolding escape_loop
escape_loop-empty f escape_non_ascii e h = cc

with_piece-inverse :
    (piece e : Bytes) (o : Escaped)
    → with_piece piece o ≡ escaped e
    → (e' : Bytes) × (o ≡ escaped e') × (piece ++ e' ≡ e)
with_piece-inverse piece e (escaped e') h = (e', refl, (cc))
with_piece-inverse piece e not_utf8 h = absurd cc
with_piece-inverse piece e unfinished h = absurd cc

round_inverse :
    (f : ℕ) (escape_non_ascii : Bool) (s e : Bytes) (o : Option (Bytes × ℕ))
    → (elim o [
      | none ↦ not_utf8
      | some p ↦ with_piece (p.0) (escape_loop f escape_non_ascii (drop (p.1) s))
    ])
      ≡ escaped e
    → (p : Bytes × ℕ) × (e' : Bytes) × (o ≡ some p)
      × (escape_loop f escape_non_ascii (drop (p.1) s) ≡ escaped e')
      × (p.0 ++ e' ≡ e)
round_inverse f escape_non_ascii s e none h = absurd cc
round_inverse f escape_non_ascii s e (some p) h =
    let (e', later, split) =
      with_piece-inverse (p.0) e (escape_loop f escape_non_ascii (drop (p.1) s)) h in
    (p, e', refl, later, split)

-- A round of the writer: its piece, and what the later rounds write.
pub escape_loop-round :
    (f : ℕ) (escape_non_ascii : Bool) (ch : ℕ) (s e : Bytes)
    → escape_loop (suc f) escape_non_ascii (ch ∷ s) ≡ escaped e
    → (p : Bytes × ℕ) × (e' : Bytes) × (escape_piece escape_non_ascii ch s ≡ some p)
      × (escape_loop f escape_non_ascii (drop (p.1) (ch ∷ s)) ≡ escaped e')
      × (p.0 ++ e' ≡ e)
unfolding escape_loop
escape_loop-round f escape_non_ascii ch s e h =
    round_inverse f escape_non_ascii (ch ∷ s) e (escape_piece escape_non_ascii ch s) h

-- The UTF-8 text of a list of code points.
abbrev pub encode : List ℕ → Bytes
encode [] = []
encode (cp ∷ cps) = append_utf8 cp ++ encode cps

-- Well-formed UTF-8: the text of some scalar values.
abbrev pub IsUtf8 : Bytes → Type 0
IsUtf8 s = (cps : List ℕ) × All IsScalar cps × (encode cps ≡ s)

piece-StartsWithScalar :
    (escape_non_ascii : Bool) (ch : ℕ) (s : Bytes) (p : Bytes × ℕ)
    → escape_piece escape_non_ascii ch s ≡ some p
    → StartsWithScalar (ch ∷ s) (p.1)
piece-StartsWithScalar escape_non_ascii ch s p e =
    let (same, positive) = escape_piece-Measures escape_non_ascii ch s p e in
    subst (StartsWithScalar (ch ∷ s)) (sym same)
      (utf8_len-StartsWithScalar (ch ∷ s) (subst (λ n. 0 < n) same positive))

escape_loop-IsUtf8 :
    (f : ℕ) (escape_non_ascii : Bool) (s e : Bytes)
    → escape_loop f escape_non_ascii s ≡ escaped e
    → IsUtf8 s
unfolding escape_loop
escape_loop-IsUtf8 zero escape_non_ascii s e h = absurd cc
escape_loop-IsUtf8 (suc f) escape_non_ascii [] e h = ([], tt, refl)
escape_loop-IsUtf8 (suc f) escape_non_ascii (ch ∷ s) e h =
    let (p, e', piece, later, split) = escape_loop-round f escape_non_ascii ch s e h in
    let (cp, sc, eq, len) = piece-StartsWithScalar escape_non_ascii ch s p piece in
    let (cps, all, rest) = escape_loop-IsUtf8 f escape_non_ascii (drop (p.1) (ch ∷ s)) e' later in
    (cp ∷ cps, (sc, all), ap (λ t. append_utf8 cp ++ t) rest ∙ eq)

drop_front : (a b : Bytes) → drop (length a) (a ++ b) ≡ b
drop_front [] b = refl
drop_front (x ∷ a) b = drop_front a b

append_utf8-length : (cp : ℕ) → 0 < length (append_utf8 cp)
unfolding append_utf8
append_utf8-length cp = ground arith

-- One round on a text that starts with a scalar value.
escape_loop-Finishes_round :
    (f : ℕ) (escape_non_ascii : Bool) (a b s : Bytes)
    → 0 < length a
    → utf8_len s ≡ length a
    → a ++ b ≡ s
    → Finishes (escape_loop f escape_non_ascii b)
    → Finishes (escape_loop (suc f) escape_non_ascii s)
unfolding escape_loop
escape_loop-Finishes_round f escape_non_ascii [] b s h len eq later = elim h [ ]
escape_loop-Finishes_round f escape_non_ascii (x ∷ a) b [] h len eq later = absurd cc
escape_loop-Finishes_round f escape_non_ascii (x ∷ a) b (ch ∷ s) h len eq later =
    let (p, piece) = escape_piece-Succeeds escape_non_ascii ch s (subst (λ n. 0 < n) (sym len) h) in
    let count = escape_piece-Measures escape_non_ascii ch s p piece in
    let rest : drop (p.1) (ch ∷ s) ≡ b =
      ap (λ n. drop n (ch ∷ s)) (count.0 ∙ len)
      ∙ ap (drop (suc (length a))) (sym eq)
      ∙ drop_front (x ∷ a) b in
    rw (piece, escape_loop)
      (rw (rest, escape_loop) (p.0 ++ later.0, ap (with_piece (p.0)) (later.1)))

encode-Finishes :
    (f : ℕ) (escape_non_ascii : Bool) (cps : List ℕ)
    → All IsScalar cps
    → length (encode cps) < f
    → Finishes (escape_loop f escape_non_ascii (encode cps))
unfolding escape_loop
encode-Finishes zero escape_non_ascii cps all h = elim h [ ]
encode-Finishes (suc f) escape_non_ascii [] all h = ([], refl)
encode-Finishes (suc f) escape_non_ascii (cp ∷ cps) (sc, all) h =
    let size = length-append (append_utf8 cp) (encode cps) in
    escape_loop-Finishes_round f escape_non_ascii (append_utf8 cp) (encode cps) _
      (append_utf8-length cp) (utf8_len-append_utf8 cp (encode cps) sc) refl
      (encode-Finishes f escape_non_ascii cps all (omega (arith, size, append_utf8-length cp, h)))

with_piece-unfinished :
    (piece : Bytes) (o : Escaped) → o ≢ unfinished → with_piece piece o ≢ unfinished
with_piece-unfinished piece (escaped e) h k = cc
with_piece-unfinished piece not_utf8 h k = cc
with_piece-unfinished piece unfinished h k = h refl

round-unfinished :
    (f : ℕ) (escape_non_ascii : Bool) (s : Bytes) (o : Option (Bytes × ℕ))
    → ((p : Bytes × ℕ) → o ≡ some p → escape_loop f escape_non_ascii (drop (p.1) s) ≢ unfinished)
    → (elim o [
      | none ↦ not_utf8
      | some p ↦ with_piece (p.0) (escape_loop f escape_non_ascii (drop (p.1) s))
    ])
      ≢ unfinished
round-unfinished f escape_non_ascii s none h k = cc
round-unfinished f escape_non_ascii s (some p) h k =
    with_piece-unfinished (p.0) (escape_loop f escape_non_ascii (drop (p.1) s)) (h p refl) k

-- A round advances by a byte at least, so a round for each byte and one more are enough.
escape_loop-unfinished :
    (f : ℕ) (escape_non_ascii : Bool) (s : Bytes)
    → length s < f
    → escape_loop f escape_non_ascii s ≢ unfinished
unfolding escape_loop
escape_loop-unfinished zero escape_non_ascii s h k = elim h [ ]
escape_loop-unfinished (suc f) escape_non_ascii [] h k = cc
escape_loop-unfinished (suc f) escape_non_ascii (ch ∷ s) h k =
    round-unfinished f escape_non_ascii (ch ∷ s) (escape_piece escape_non_ascii ch s)
      (λ p e.
        let positive = (escape_piece-Measures escape_non_ascii ch s p e).1 in
        escape_loop-unfinished f escape_non_ascii (drop (p.1) (ch ∷ s))
          (omega (arith, h, drop-length_lt (p.1) ch s positive)))
      k

-- The end of the writer's loop on a string: a text for well-formed UTF-8, else a refusal.
abbrev pub Decides : Bytes → Escaped → Type 0
Decides s o = (IsUtf8 s × Finishes o) ⊎ ((¬ IsUtf8 s) × (o ≡ not_utf8))

decide :
    (s : Bytes) (o : Escaped)
    → ((e : Bytes) → o ≡ escaped e → IsUtf8 s)
    → (IsUtf8 s → Finishes o)
    → o ≢ unfinished
    → Decides s o
decide s (escaped e) sound complete ends = inl (sound e refl, (e, refl))
decide s not_utf8 sound complete ends = inr (λ u. let (e, h) = complete u in cc, refl)
decide s unfinished sound complete ends = absurd (ends refl)

-- _writeEscapedTo ends on every string, in either mode: with a text on well-formed UTF-8, with the
-- return of invalidUtf8 on any other string, and never out of rounds.
pub write_escaped-Decides :
    (escape_non_ascii : Bool) (s : Bytes) → Decides s (write_escaped escape_non_ascii s)
unfolding write_escaped
write_escaped-Decides escape_non_ascii s =
    decide s (escape_loop (suc (length s)) escape_non_ascii s)
      (escape_loop-IsUtf8 (suc (length s)) escape_non_ascii s)
      (λ (cps, all, eq).
        subst (λ t. Finishes (escape_loop (suc (length t)) escape_non_ascii t)) eq
          (encode-Finishes (suc (length (encode cps))) escape_non_ascii cps all (omega arith)))
      (escape_loop-unfinished (suc (length s)) escape_non_ascii s (omega arith))
