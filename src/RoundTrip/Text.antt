-- ===== src/RoundTrip/Text.antt =====
-- The text of calls: how it splits, and the bodies of strings in it.
use pjson.Common.{
  ℕ, zero, suc, ◌<◌, ◌≡◌, refl, sym, ap, ◌∙◌, Bool, Option, none, some, List, [], ◌∷◌, ◌++◌,
  append_assoc, append-nil, length, drop, drop-length_lt, take, take-drop, arith, ltb, Bool-cases,
  inl, inr,
}
use pjson.Common.Bytes.{Bytes}
use pjson.Text.Escape.{
  Escaped, escaped, not_utf8, unfinished, with_piece, escape_piece, escape_loop, write_escaped,
}
use pjson.Text.Escape.Accepts.{escape_piece-Measures}
use pjson.Serializer.{Command, write, repeat, fail, invalid_utf8, invalid_number}
use pjson.Serializer.Print.{unit_writes, escape_commands, string_commands}
use pjson.Serializer.Sink.{replicate}
use pjson.Serializer.Sink.Fit.{prefixed, printed}

prefixed-prefixed :
    (a b : Bytes) (o : Option Bytes) → prefixed a (prefixed b o) ≡ prefixed (a ++ b) o
prefixed-prefixed a b none = refl
prefixed-prefixed a b (some t) = ap some (sym (append_assoc a b t))

-- The text of two lists of calls.
abbrev joined : Option Bytes → Option Bytes → Option Bytes
joined none o = none
joined (some a) o = prefixed a o

prefixed-joined :
    (a : Bytes) (o p : Option Bytes) → prefixed a (joined o p) ≡ joined (prefixed a o) p
prefixed-joined a none p = refl
prefixed-joined a (some b) p = prefixed-prefixed a b p

prefixed-nil : (o : Option Bytes) → o ≡ prefixed [] o
prefixed-nil none = refl
prefixed-nil (some t) = refl

printed-append : (cs ds : List Command) → printed (cs ++ ds) ≡ joined (printed cs) (printed ds)
unfolding printed
printed-append [] ds = prefixed-nil (printed ds)
printed-append (write text ∷ cs) ds =
    ap (prefixed text) (printed-append cs ds) ∙ prefixed-joined text (printed cs) (printed ds)
printed-append (repeat ch n ∷ cs) ds =
    ap (prefixed (replicate n ch)) (printed-append cs ds)
    ∙ prefixed-joined (replicate n ch) (printed cs) (printed ds)
printed-append (fail ∷ cs) ds = refl
printed-append (invalid_utf8 ∷ cs) ds = refl
printed-append (invalid_number ∷ cs) ds = refl

split_joined :
    (o p : Option Bytes) (t : Bytes)
    → joined o p ≡ some t
    → (a : Bytes) × (b : Bytes) × (o ≡ some a) × (p ≡ some b) × (t ≡ a ++ b)
split_joined none p t h = absurd cc
split_joined (some a) none t h = absurd cc
split_joined (some a) (some b) t h = (a, b, refl, refl, (cc))

pub split_printed :
    (cs ds : List Command) (t : Bytes)
    → printed (cs ++ ds) ≡ some t
    → (a : Bytes) × (b : Bytes) × (printed cs ≡ some a) × (printed ds ≡ some b) × (t ≡ a ++ b)
split_printed cs ds t h = split_joined (printed cs) (printed ds) t (sym (printed-append cs ds) ∙ h)

pub split_write :
    (text : Bytes) (ds : List Command) (t : Bytes)
    → printed (write text ∷ ds) ≡ some t
    → (b : Bytes) × (printed ds ≡ some b) × (t ≡ text ++ b)
unfolding printed
split_write text ds t h = go (printed ds) h
  where
    go :
        (o : Option Bytes) → prefixed text o ≡ some t → (b : Bytes) × (o ≡ some b) × (t ≡ text ++ b)
    go none h = absurd cc
    go (some b) h = (b, refl, (cc))

pub printed-single : (text t : Bytes) → printed (write text ∷ []) ≡ some t → t ≡ text
unfolding printed
printed-single text t h = let same : text ++ [] ≡ t = cc in sym same ∙ append-nil text

printed-unit_writes :
    (piece : Bytes) (cs : List Command)
    → printed (unit_writes piece ++ cs) ≡ prefixed piece (printed cs)
unfolding printed
printed-unit_writes piece cs = elim (Bool-cases (ltb 6 (length piece))) [
  | inl long ↦ rw long (
      prefixed-prefixed (take 6 piece) (drop 6 piece) (printed cs)
      ∙ ap (λ t. prefixed t (printed cs)) (take-drop 6 piece))
  | inr short ↦ rw short refl
]

-- The text that the writer of a string leaves, if any.
abbrev pub text_of : Escaped → Option Bytes
text_of (escaped e) = some e
text_of not_utf8 = none
text_of unfinished = none

pub text_of-inverse : (o : Escaped) (e : Bytes) → text_of o ≡ some e → o ≡ escaped e
text_of-inverse (escaped e') e h = let same : e' ≡ e = cc in ap escaped same
text_of-inverse not_utf8 e h = absurd cc
text_of-inverse unfinished e h = absurd cc

text_of-with_piece : (a : Bytes) (o : Escaped) → prefixed a (text_of o) ≡ text_of (with_piece a o)
text_of-with_piece a (escaped t) = refl
text_of-with_piece a not_utf8 = refl
text_of-with_piece a unfinished = refl

escape_step :
    (f : ℕ) (escape_non_ascii : Bool) (s : Bytes) (o : Option (Bytes × ℕ))
    → ((p : Bytes × ℕ)
        → o ≡ some p
        → printed (escape_commands f escape_non_ascii (drop (p.1) s))
          ≡ text_of (escape_loop f escape_non_ascii (drop (p.1) s)))
    → printed (elim o [
      | none ↦ invalid_utf8 ∷ []
      | some p ↦ unit_writes (p.0) ++ escape_commands f escape_non_ascii (drop (p.1) s)
    ])
      ≡ text_of (elim o [
        | none ↦ not_utf8
        | some p ↦ with_piece (p.0) (escape_loop f escape_non_ascii (drop (p.1) s))
      ])
unfolding printed
escape_step f escape_non_ascii s none h = refl
escape_step f escape_non_ascii s (some p) h =
    printed-unit_writes (p.0) (escape_commands f escape_non_ascii (drop (p.1) s))
    ∙ ap (prefixed (p.0)) (h p refl)
    ∙ text_of-with_piece (p.0) (escape_loop f escape_non_ascii (drop (p.1) s))

printed-escape_commands :
    (f : ℕ) (escape_non_ascii : Bool) (s : Bytes)
    → length s < f
    → printed (escape_commands f escape_non_ascii s) ≡ text_of (escape_loop f escape_non_ascii s)
unfolding printed escape_commands escape_loop
printed-escape_commands zero escape_non_ascii s h = elim h [ ]
printed-escape_commands (suc f) escape_non_ascii [] h = refl
printed-escape_commands (suc f) escape_non_ascii (ch ∷ s) h =
    escape_step f escape_non_ascii (ch ∷ s) (escape_piece escape_non_ascii ch s) (λ p e.
      printed-escape_commands f escape_non_ascii (drop (p.1) (ch ∷ s)) (
        omega (
          arith,
          h,
          drop-length_lt (p.1) ch s ((escape_piece-Measures escape_non_ascii ch s p e).1),
        )))

-- The serializer's calls for a string write the body that write_escaped is.
pub printed-string_commands :
    (escape_non_ascii : Bool) (s : Bytes)
    → printed (string_commands escape_non_ascii s) ≡ text_of (write_escaped escape_non_ascii s)
unfolding write_escaped
printed-string_commands escape_non_ascii s =
    printed-escape_commands (suc (length s)) escape_non_ascii s (omega arith)
