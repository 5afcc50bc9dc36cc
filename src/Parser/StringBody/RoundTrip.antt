-- ===== src/Parser/StringBody/RoundTrip.antt =====
-- The string bodies that _writeEscapedTo writes are read back by decodeStringBody.
use pjson.Common.{
  take-drop, ℕ, zero, suc, ◌<◌, ◌≡◌, refl, sym, ap, ◌∙◌, Bool, true, [], ◌∷◌, ◌++◌, append_assoc,
  append-nil, arith, length, take, drop, length-append,
}
use pjson.Common.Bytes.{Bytes}
use pjson.Text.Escape.{escaped, escape_loop, write_escaped}
use pjson.Text.Escape.Accepts.{escape_loop-empty, escape_loop-round}
use pjson.Parser.{parsed}
use pjson.Parser.StringBody.{next_piece, decode_loop, decode_string_body}
use pjson.Parser.StringBody.Pieces.{Decodes, escape_piece-Decodes}

-- One round, at whatever follows the piece.
decode_round :
    (g : ℕ) (out e bytes tail : Bytes)
    → Decodes e bytes
    → decode_loop (suc g) true out (e ++ tail) ≡ decode_loop g true (out ++ bytes) tail
unfolding decode_loop
decode_round g out e bytes tail d =
    let (c, e', eq, round) = d in rw (eq, decode_loop) (rw (round tail, decode_loop) refl)

decode_close :
    (g : ℕ) (out rest : Bytes) → decode_loop (suc g) true out (b'"' ∷ rest) ≡ parsed out rest
unfolding decode_loop next_piece
decode_close g out rest = refl

Decodes-length : (e bytes : Bytes) → Decodes e bytes → 0 < length e
Decodes-length e bytes d = let (c, e', eq, round) = d in rw eq (omega arith)

escape_loop-decode :
    (f g : ℕ) (escape_non_ascii : Bool) (s e out rest : Bytes)
    → escape_loop f escape_non_ascii s ≡ escaped e
    → length e < g
    → decode_loop g true out (e ++ b'"' ∷ rest) ≡ parsed (out ++ s) rest
unfolding escape_loop
escape_loop-decode zero g escape_non_ascii s e out rest h k = absurd cc
escape_loop-decode (suc f) zero escape_non_ascii s e out rest h k = elim k [ ]
escape_loop-decode (suc f) (suc g) escape_non_ascii [] e out rest h k =
    rw (sym (escape_loop-empty f escape_non_ascii e h))
      (decode_close g out rest ∙ ap (λ t. parsed t rest) (sym (append-nil out)))
escape_loop-decode (suc f) (suc g) escape_non_ascii (ch ∷ s) e out rest h k =
    let (p, e', piece, later, split) = escape_loop-round f escape_non_ascii ch s e h in
    let d = escape_piece-Decodes escape_non_ascii ch s p piece in
    let bytes = take (p.1) (ch ∷ s) in
    let shorter : length e' < g =
      omega
        (arith, sym (length-append (p.0) e') ∙ ap length split, Decodes-length (p.0) bytes d, k) in
    ap (λ w. decode_loop (suc g) true out (w ++ b'"' ∷ rest)) (sym split)
    ∙ ap (decode_loop (suc g) true out) (append_assoc (p.0) e' (b'"' ∷ rest))
    ∙ decode_round g out (p.0) bytes (e' ++ b'"' ∷ rest) d
    ∙ escape_loop-decode f g escape_non_ascii (drop (p.1) (ch ∷ s)) e' (out ++ bytes) rest later
        shorter
    ∙ ap (λ t. parsed t rest)
        (append_assoc out bytes (drop (p.1) (ch ∷ s))
          ∙ ap (λ t. out ++ t) (take-drop (p.1) (ch ∷ s)))

-- Either mode of the serializer's escapes is undone by the parser: when the writer accepts a
-- string, the parser reads the bytes written, up to the closing quote, as that string, and leaves
-- what follows the quote.
pub decode_string_body-write_escaped :
    (escape_non_ascii : Bool) (s e rest : Bytes)
    → write_escaped escape_non_ascii s ≡ escaped e
    → decode_string_body true (e ++ b'"' ∷ rest) ≡ parsed s rest
unfolding write_escaped decode_string_body
decode_string_body-write_escaped escape_non_ascii s e rest h =
    escape_loop-decode (suc (length s)) (suc (length (e ++ b'"' ∷ rest))) escape_non_ascii s e []
      rest h (omega (arith, length-append e (b'"' ∷ rest)))
