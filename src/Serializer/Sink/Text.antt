-- ===== src/Serializer/Sink/Text.antt =====
-- StringSink holds the text of the calls that fit its limit.
use pjson.Common.{
  ℕ, ◌+◌, ◌^◌, ◌%◌, ◌≤◌, ◌≡◌, refl, sym, ap, ◌∙◌, subst, Bool, false, Option, none, some, [], ◌∷◌,
  ◌++◌, ◌-◌, ltb, if◌then◌else◌, length, List, arith, append_assoc, append-nil, length-append,
}
use pjson.Common.Bytes.{Bytes}
use pjson.Serializer.{Command, write, repeat, fail, invalid_utf8, invalid_number}
use pjson.Serializer.Sink.{
  exceeds, Exception, length_error, StringSink, replicate, append_bytes, string_apply, is_calm,
  string_ok, string_apply_well, unless_thrown,
}
use pjson.Serializer.Sink.Fit.{prefixed, printed, capacity}
use pjson.Serializer.Write.Refine.{run, run-well}

-- The sink has taken the text.
abbrev pub Took : StringSink → Bytes → StringSink → Type 0
Took s text t = (t.out ≡ s.out ++ text) × (t.thrown ≡ none)

not-exceeds : (limit written n : ℕ) → written + n ≤ capacity limit → exceeds limit written n ≡ false
unfolding capacity
not-exceeds limit written n h = ground arith

below_word : (limit n : ℕ) → n ≤ capacity limit → n % 2 ^ 64 ≡ n
unfolding capacity
below_word limit n h = ground arith

not-beyond : (most out n : ℕ) → out + n ≤ most → ltb (most - out) n ≡ false
not-beyond most out n h = ground arith

append_bytes_lem :
    (s : StringSink) (text : Bytes)
    → s.written + length text ≤ capacity (s.limit)
    → length (s.out) + length text ≤ s.max_size
    → append_bytes s text ≡ record s { out = s.out ++ text; written = s.written + length text }
unfolding append_bytes
append_bytes_lem s text h room =
    ap
      (λ (b : Bool).
        if b
        then record s { thrown = some length_error }
        else if ltb (s.max_size - length (s.out)) (length text)
        then record s { thrown = some length_error }
        else record s { out = s.out ++ text; written = (s.written + length text) % 2 ^ 64 })
      (not-exceeds (s.limit) (s.written) (length text) h)
    ∙ ap
        (λ (b : Bool).
          if b
          then record s { thrown = some length_error }
          else record s { out = s.out ++ text; written = (s.written + length text) % 2 ^ 64 })
        (not-beyond (s.max_size) (length (s.out)) (length text) room)
    ∙ ap (λ (n : ℕ). record s { out = s.out ++ text; written = n })
        (below_word (s.limit) (s.written + length text) h)

string_apply_calm :
    (c : Command) (s : StringSink) → s.thrown ≡ none → string_apply c s ≡ string_apply_well c s
unfolding string_apply
string_apply_calm c s h = ap (λ (o : Option Exception). unless_thrown o s (string_apply_well c s)) h

take_step :
    (s : StringSink) (piece : Bytes) (cs : List Command) (later : Option Bytes) (text : Bytes)
    → s.thrown ≡ none
    → prefixed piece later ≡ some text
    → s.written + length text ≤ capacity (s.limit)
    → length (s.out) + length text ≤ s.max_size
    → ((more : Bytes) (t : StringSink)
        → later ≡ some more
        → t.thrown ≡ none
        → t.written + length more ≤ capacity (t.limit)
        → length (t.out) + length more ≤ t.max_size
        → Took t more (run string_apply string_ok cs t))
    → Took s text (run string_apply string_ok cs (append_bytes s piece))
take_step s piece cs none text calm e h room next = absurd cc
take_step s piece cs (some more) text calm e h room next =
    let same : piece ++ more ≡ text = cc in
    let size : length piece + length more ≡ length text =
      sym (length-append piece more) ∙ ap length same in
    let t = record s { out = s.out ++ piece; written = s.written + length piece } in
    let took =
      next more t refl calm (omega (arith, size, h))
        (omega (arith, size, room, length-append (s.out) piece)) in
    subst (λ d. Took s text (run string_apply string_ok cs d))
      (sym (append_bytes_lem s piece (omega (arith, size, h)) (omega (arith, size, room))))
      (took.0 ∙ append_assoc (s.out) piece more ∙ ap (λ w. s.out ++ w) same, took.1)

pub run-Took :
    (cs : List Command) (text : Bytes) (s : StringSink)
    → printed cs ≡ some text
    → s.thrown ≡ none
    → s.written + length text ≤ capacity (s.limit)
    → length (s.out) + length text ≤ s.max_size
    → Took s text (run string_apply string_ok cs s)
unfolding printed run
run-Took [] text s e calm h room =
    let same : [] ≡ text = cc in (sym (append-nil (s.out)) ∙ ap (λ w. s.out ++ w) same, calm)
run-Took (write piece ∷ cs) text s e calm h room =
    subst (Took s text)
      (ap (run string_apply string_ok cs) (sym (string_apply_calm (write piece) s calm))
        ∙ sym (run-well string_apply string_ok (write piece) cs s (ap is_calm calm)))
      (take_step s piece cs (printed cs) text calm e h room (λ more t. run-Took cs more t))
run-Took (repeat ch n ∷ cs) text s e calm h room =
    subst (Took s text)
      (ap (run string_apply string_ok cs) (sym (string_apply_calm (repeat ch n) s calm))
        ∙ sym (run-well string_apply string_ok (repeat ch n) cs s (ap is_calm calm)))
      (take_step s (replicate n ch) cs (printed cs) text calm e h room
        (λ more t. run-Took cs more t))
run-Took (fail ∷ cs) text s e calm h room = absurd cc
run-Took (invalid_utf8 ∷ cs) text s e calm h room = absurd cc
run-Took (invalid_number ∷ cs) text s e calm h room = absurd cc
