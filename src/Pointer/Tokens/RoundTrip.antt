-- ===== src/Pointer/Tokens/RoundTrip.antt =====
-- Decoding is the inverse of escaping: pointers against lists of tokens.
use mathlib.Core.Option
use pjson.Common.{
  ℕ, ◌+◌, ◌≡◌, refl, sym, ap, ◌∙◌, false, some, List, [], ◌∷◌, ◌++◌, append-nil, arith, ◌==◌,
  Bool-cases, inl, inr, ◌↔◌, ◌⊎◌, ◌≢◌, Option-cases, All, subst,
}
use pjson.Common.Bytes.{Bytes}
use pjson.Pointer.{PointerResult, found, pointer_failed}
use pjson.Pointer.Tokens.{
  slash, tilde, escaped_byte, escape_pointer_token, decode_token, prepend, split_slash, decode_next,
  decode_tokens, decode_pointer, build_pointer,
}

decode-escaped_byte :
    (c : ℕ) (rest : Bytes)
    → decode_token (escaped_byte c ++ rest) ≡ Option.map (λ t. c ∷ t) (decode_token rest)
unfolding decode_token
decode-escaped_byte c [] = ground arith
decode-escaped_byte c (d ∷ rest) = ground arith

decode-escape : (token : Bytes) → decode_token (escape_pointer_token token) ≡ some token
unfolding escape_pointer_token
decode-escape [] = unfold decode_token in refl
decode-escape (c ∷ token) =
    decode-escaped_byte c (escape_pointer_token token)
    ∙ ap (Option.map (λ t. c ∷ t)) (decode-escape token)

abbrev LacksSlash : Bytes → Type 0
LacksSlash = All (λ c. (c == slash) ≡ false)

-- What a successful read of an escape, or of another byte, has read.
decode-tilde :
    (d : ℕ) (raw token : Bytes)
    → decode_token (tilde ∷ d ∷ raw) ≡ some token
    → (t : Bytes) × (decode_token raw ≡ some t)
      × (((d ≡ b'0') × (token ≡ tilde ∷ t)) ⊎ ((d ≡ b'1') × (token ≡ slash ∷ t)))
unfolding decode_token
decode-tilde d raw token h = elim (Option-cases (decode_token raw)) [
  | inl missing ↦ absurd (ground (arith, missing))
  | inr (t, read) ↦ (t, read, ground (arith, read))
]

decode-plain :
    (c d : ℕ) (raw token : Bytes)
    → (c == tilde) ≡ false
    → decode_token (c ∷ d ∷ raw) ≡ some token
    → (t : Bytes) × (decode_token (d ∷ raw) ≡ some t) × (token ≡ c ∷ t)
unfolding decode_token
decode-plain c d raw token e h = elim (Option-cases (decode_token (d ∷ raw))) [
  | inl missing ↦ absurd (ground (arith, missing))
  | inr (t, read) ↦ (t, read, ground (arith, read))
]

-- A decoded token escapes to the piece that it was read from.
escape-decode :
    (raw token : Bytes)
    → LacksSlash raw
    → decode_token raw ≡ some token
    → escape_pointer_token token ≡ raw
unfolding escape_pointer_token
escape-decode [] token a h = unfold decode_token in ground arith
escape-decode (c ∷ []) token a h = unfold decode_token in ground (arith, a.0)
escape-decode (c ∷ d ∷ raw) token a h = elim (Bool-cases (c == tilde)) [
  | inl e ↦
      let is_tilde : c ≡ tilde = ground arith in
      let (t, read, cases) =
        decode-tilde d raw token
          (subst (λ b. decode_token (b ∷ d ∷ raw) ≡ some token) is_tilde h) in
      let ih = escape-decode raw t a.1.1 read in
      elim cases [
        | inl (low, whole) ↦ rw (is_tilde, low, whole, ih) refl
        | inr (high, whole) ↦ rw (is_tilde, high, whole, ih) refl
      ]
  | inr e ↦
      let (t, read, whole) = decode-plain c d raw token e h in
      rw (whole, e, a.0, escape-decode (d ∷ raw) t a.1 read) refl
]

-- The pieces joined by slashes.
abbrev join_slash : List Bytes → Bytes
join_slash [] = []
join_slash (piece ∷ pieces) = slash ∷ (piece ++ join_slash pieces)

join-prepend :
    (c : ℕ) (pieces : List Bytes) (text : Bytes)
    → join_slash pieces ≡ slash ∷ text
    → join_slash (prepend c pieces) ≡ slash ∷ c ∷ text
join-prepend c [] text h = ground arith
join-prepend c (piece ∷ pieces) text h = ground arith

join-split_slash : (text : Bytes) → join_slash (split_slash text) ≡ slash ∷ text
unfolding split_slash
join-split_slash [] = refl
join-split_slash (c ∷ text) = elim (Bool-cases (c == slash)) [
  | inl e ↦ rw e (ground (arith, join-split_slash text))
  | inr e ↦ rw e (join-prepend c (split_slash text) text (join-split_slash text))
]

prepend-LacksSlash :
    (c : ℕ) (pieces : List Bytes)
    → (c == slash) ≡ false
    → All LacksSlash pieces
    → All LacksSlash (prepend c pieces)
prepend-LacksSlash c [] h a = ((h, tt), tt)
prepend-LacksSlash c (piece ∷ pieces) h a = ((h, a.0), a.1)

split_slash-LacksSlash : (text : Bytes) → All LacksSlash (split_slash text)
unfolding split_slash
split_slash-LacksSlash [] = (tt, tt)
split_slash-LacksSlash (c ∷ text) = elim (Bool-cases (c == slash)) [
  | inl e ↦ rw e (tt, split_slash-LacksSlash text)
  | inr e ↦ rw e (prepend-LacksSlash c (split_slash text) e (split_slash-LacksSlash text))
]

decode_next-found :
    (r : PointerResult (List Bytes)) (t : Bytes) (tokens : List Bytes)
    → decode_next r t ≡ found tokens
    → (ts : List Bytes) × (r ≡ found ts) × (tokens ≡ t ∷ ts)
decode_next-found (found ts) t tokens h = (ts, refl, ground arith)
decode_next-found (pointer_failed e) t tokens h = cc

decode_tokens-found :
    (pointer : Bytes) (i : ℕ) (raw : Bytes) (pieces tokens : List Bytes)
    → decode_tokens pointer i (raw ∷ pieces) ≡ found tokens
    → (t : Bytes) × (ts : List Bytes) × (decode_token raw ≡ some t)
      × (decode_tokens pointer (i + 1) pieces ≡ found ts)
      × (tokens ≡ t ∷ ts)
unfolding decode_tokens
decode_tokens-found pointer i raw pieces tokens h = elim (Option-cases (decode_token raw)) [
  | inl missing ↦ absurd (ground (arith, missing))
  | inr (t, read) ↦
      let opened : decode_next (decode_tokens pointer (i + 1) pieces) t ≡ found tokens =
        ground (arith, read) in
      let (ts, later, whole) =
        decode_next-found (decode_tokens pointer (i + 1) pieces) t tokens opened in
      (t, ts, read, later, whole)
]

build-decode :
    (pointer : Bytes) (i : ℕ) (pieces tokens : List Bytes)
    → All LacksSlash pieces
    → decode_tokens pointer i pieces ≡ found tokens
    → build_pointer tokens ≡ join_slash pieces
unfolding decode_tokens build_pointer
build-decode pointer i [] tokens a h = ground arith
build-decode pointer i (raw ∷ pieces) tokens a h =
    let (t, ts, read, later, whole) = decode_tokens-found pointer i raw pieces tokens h in
    rw (whole, escape-decode raw t a.0 read, build-decode pointer (i + 1) pieces ts a.1 later) refl

escaped_byte-LacksSlash :
    (c : ℕ) (rest : Bytes) → LacksSlash rest → LacksSlash (escaped_byte c ++ rest)
escaped_byte-LacksSlash c rest a = ground (arith, a)

escape-LacksSlash : (token : Bytes) → LacksSlash (escape_pointer_token token)
unfolding escape_pointer_token
escape-LacksSlash [] = tt
escape-LacksSlash (c ∷ token) =
    escaped_byte-LacksSlash c (escape_pointer_token token) (escape-LacksSlash token)

split-last : (piece : Bytes) → LacksSlash piece → split_slash piece ≡ piece ∷ []
unfolding split_slash
split-last [] a = refl
split-last (c ∷ piece) a = rw (a.0, split-last piece a.1) refl

split-piece :
    (piece text : Bytes)
    → LacksSlash piece
    → split_slash (piece ++ slash ∷ text) ≡ piece ∷ split_slash text
unfolding split_slash
split-piece [] text a = refl
split-piece (c ∷ piece) text a = rw (a.0, split-piece piece text a.1) refl

abbrev escaped_pieces : List Bytes → List Bytes
escaped_pieces [] = []
escaped_pieces (token ∷ tokens) = escape_pointer_token token ∷ escaped_pieces tokens

split-build :
    (token : Bytes) (tokens : List Bytes)
    → split_slash (escape_pointer_token token ++ build_pointer tokens)
      ≡ escaped_pieces (token ∷ tokens)
unfolding build_pointer
split-build token [] =
    rw append-nil (split-last (escape_pointer_token token) (escape-LacksSlash token))
split-build token (next ∷ tokens) =
    split-piece (escape_pointer_token token) (escape_pointer_token next ++ build_pointer tokens)
      (escape-LacksSlash token)
    ∙ ap (λ ps. escape_pointer_token token ∷ ps) (split-build next tokens)

decode-escaped_pieces :
    (pointer : Bytes) (i : ℕ) (tokens : List Bytes)
    → decode_tokens pointer i (escaped_pieces tokens) ≡ found tokens
unfolding decode_tokens
decode-escaped_pieces pointer i [] = refl
decode-escaped_pieces pointer i (token ∷ tokens) =
    rw (decode-escape token, decode-escaped_pieces pointer (i + 1) tokens) refl

decode_pointer-slash :
    (text : Bytes)
    → decode_pointer (slash ∷ text) ≡ decode_tokens (slash ∷ text) 0 (split_slash text)
unfolding decode_pointer
decode_pointer-slash text = refl

decode_pointer-other :
    (c : ℕ) (text : Bytes) (tokens : List Bytes)
    → (c == slash) ≡ false
    → decode_pointer (c ∷ text) ≢ found tokens
unfolding decode_pointer
decode_pointer-other c text tokens e h = ground arith

decode-build : (tokens : List Bytes) → decode_pointer (build_pointer tokens) ≡ found tokens
decode-build [] = unfold decode_pointer build_pointer in refl
decode-build (token ∷ tokens) =
    let text = escape_pointer_token token ++ build_pointer tokens in
    unfold build_pointer in
    (decode_pointer-slash text
      ∙ ap (decode_tokens (slash ∷ text) 0) (split-build token tokens)
      ∙ decode-escaped_pieces (slash ∷ text) 0 (token ∷ tokens))

decode_sound :
    (pointer : Bytes) (tokens : List Bytes)
    → decode_pointer pointer ≡ found tokens
    → pointer ≡ build_pointer tokens
decode_sound [] tokens h = unfold decode_pointer build_pointer in ground arith
decode_sound (c ∷ text) tokens h = elim (Bool-cases (c == slash)) [
  | inl e ↦
      let is_slash : c ≡ slash = ground arith in
      let read = subst (λ b. decode_pointer (b ∷ text) ≡ found tokens) is_slash h in
      rw is_slash (
        sym (join-split_slash text)
        ∙ sym (
            build-decode (slash ∷ text) 0 (split_slash text) tokens (split_slash-LacksSlash text)
              (sym (decode_pointer-slash text) ∙ read)))
  | inr e ↦ absurd (decode_pointer-other c text tokens e h)
]

-- Pointers and lists of tokens correspond: decode_pointer yields a list of tokens exactly for the
-- pointer in which each token is escaped and stands behind a slash.
pub decode_pointer-build :
    (pointer : Bytes) (tokens : List Bytes)
    → (decode_pointer pointer ≡ found tokens) ↔ (pointer ≡ build_pointer tokens)
decode_pointer-build pointer tokens =
    (decode_sound pointer tokens, λ h. ap decode_pointer h ∙ decode-build tokens)
