-- ===== src/Serializer/Output/Answers.antt =====
-- The answers of toString into a caller's string.
use pjson.Common.{
  ltb, ◌<◌, Bool-cases, ℕ, ◌≤◌, ◌≡◌, ◌≢◌, ◌⊎◌, refl, sym, ap, ◌∙◌, subst, Bool, true, false, Option,
  none, some, List, inl, inr, arith, length,
}
use pjson.Common.Bytes.{Bytes}
use pjson.Value.{Value, Double}
use pjson.Serializer.{SerializeOptions, Command}
use pjson.Serializer.Print.{print_value}
use pjson.Serializer.Sink.{
  CountingSink, counting_apply, counting_ok, counting_sink, StringSink, string_apply, string_ok,
  string_sink,
}
use pjson.Serializer.Sink.Laws.{counting-Keeps, counting-Refuses, string-Keeps, string-Refuses}
use pjson.Serializer.Sink.Fit.{printed, capacity, Prints, Counted, run-Counted}
use pjson.Serializer.Sink.Text.{Took, run-Took}
use pjson.Serializer.Write.{write_value_to}
use pjson.Serializer.Write.Refine.{run}
use pjson.Serializer.Write.Loop.{write_value_to-print_value}
use pjson.Serializer.Output.{
  no_error, Serialized, failure_code, emitted, appended, counted, to_string,
}

-- The text of the commands is handed back where it exists and fits; else the string is as before.
abbrev pub Answers : ℕ → ℕ → List Command → Bytes → Serialized → Type 0
Answers max_size limit cs out r =
    ((r.result ≡ true) × (r.code ≡ no_error) × Prints max_size limit cs (r.out))
    ⊎ ((r.result ≡ false)
        × (r.code ≢ no_error)
        × (r.out ≡ out)
        × ((text : Bytes) → ¬ Prints max_size limit cs text))

failure-code : (a b : Bool) → failure_code a b ≢ no_error
failure-code true b e = cc
failure-code false true e = cc
failure-code false false e = cc

module _ (max_size limit : ℕ) (cs : List Command) where
  none-Prints :
      (o : Option Bytes) (t : CountingSink)
      → printed cs ≡ o
      → Counted (counting_sink limit) o t
      → counting_ok t ≡ false
      → (text : Bytes) → ¬ Prints max_size limit cs text
  none-Prints none t e c bad text p = absurd cc
  none-Prints (some u) t e (inl (v, fits, count)) bad text p = absurd cc
  none-Prints (some u) t e (inr (v, over)) bad text p =
      let same : u ≡ text = cc in omega (arith, over, p.1, ap length same)

  -- After a preflight that succeeds, the count is the length of the text.
  some_text :
      (o : Option Bytes) (t : CountingSink)
      → printed cs ≡ o
      → Counted (counting_sink limit) o t
      → counting_ok t ≡ true
      → (text : Bytes) × (printed cs ≡ some text)
        × (length text ≤ capacity limit)
        × (t.written ≡ length text)
  some_text none t e c good = absurd cc
  some_text (some u) t e (inl (v, fits, count)) good =
      (u, e, omega (arith, fits), omega (arith, count))
  some_text (some u) t e (inr (v, over)) good = absurd cc

  Took-Answers :
      (out text : Bytes) (t : StringSink)
      → Prints max_size limit cs text
      → Took (string_sink max_size limit) text t
      → Answers max_size limit cs out (emitted out (t.out) (t.thrown))
  Took-Answers out text t p took =
      subst (λ o. Answers max_size limit cs out (emitted out (t.out) o)) (sym (took.1))
        (inl (refl, refl, subst (Prints max_size limit cs) (sym (took.0)) p))

  long-Prints :
      (text : Bytes)
      → printed cs ≡ some text
      → max_size < length text
      → (other : Bytes) → ¬ Prints max_size limit cs other
  long-Prints text e over other p =
      let same : text ≡ other = cc in omega (arith, over, p.2, ap length same)

module _ (max_size : ℕ) (shortest : Double → Bytes) (opts : SerializeOptions) (v : Value)
    (out : Bytes) where
  -- The emission after a preflight that succeeded.
  appended-Answers :
      (text : Bytes)
      → Prints max_size (opts.max_output_bytes) (print_value shortest opts 0 v) text
      → (r : Serialized) × (appended out (
            write_value_to string_apply string_ok shortest opts v
              (string_sink max_size (opts.max_output_bytes)))
          ≡ some r)
        × Answers max_size (opts.max_output_bytes) (print_value shortest opts 0 v) out r
  appended-Answers text p =
      let limit = opts.max_output_bytes in
      let cs = print_value shortest opts 0 v in
      let sink = string_sink max_size limit in
      let t = run string_apply string_ok cs sink in
      (
        emitted out (t.out) (t.thrown),
        ap (appended out) (
            write_value_to-print_value string_apply string_ok string-Keeps string-Refuses shortest
              opts v sink refl),
        Took-Answers max_size limit cs out text t p
            (run-Took cs text sink (p.0) refl (omega (arith, p.1)) (omega (arith, p.2))),
      )

  counted-Answers :
      (b : Bool) (c : CountingSink)
      → Counted (counting_sink (opts.max_output_bytes)) (printed (print_value shortest opts 0 v)) c
      → counting_ok c ≡ b
      → (r : Serialized) × (counted max_size shortest opts v out (some (b, c)) ≡ some r)
        × Answers max_size (opts.max_output_bytes) (print_value shortest opts 0 v) out r
  counted-Answers true c count good =
      let limit = opts.max_output_bytes in
      let cs = print_value shortest opts 0 v in
      let (text, e, fits, length_is) = some_text max_size limit cs (printed cs) c refl count good in
      elim (Bool-cases (ltb max_size (c.written))) [
        | inl over ↦ rw over (
          _,
          refl,
          inr (
            refl,
            (λ e. cc),
            refl,
            long-Prints max_size limit cs text e (ground (arith, over, length_is)),
          ),
        )
        | inr short ↦ rw short (appended-Answers text (e, fits, ground (arith, short, length_is)))
      ]
  counted-Answers false c count bad =
      let limit = opts.max_output_bytes in
      let cs = print_value shortest opts 0 v in
      (
        _,
        refl,
        inr (
          refl,
          failure-code (c.has_invalid_utf8) (c.has_invalid_number),
          refl,
          none-Prints max_size limit cs (printed cs) c refl count bad,
        ),
      )

-- toString always returns. It hands back, under no error, the text that the recursive printer
-- describes, where the value has one and it fits the limit and a std::string of max_size; otherwise it
-- fails under an error code with the caller's string as it was, and no text of the value fits.
pub to_string-Answers :
    (max_size : ℕ) (shortest : Double → Bytes) (opts : SerializeOptions) (v : Value) (out : Bytes)
    → (r : Serialized) × (to_string max_size shortest opts v out ≡ some r)
      × Answers max_size (opts.max_output_bytes) (print_value shortest opts 0 v) out r
unfolding to_string
to_string-Answers max_size shortest opts v out =
    let limit = opts.max_output_bytes in
    let cs = print_value shortest opts 0 v in
    let t = run counting_apply counting_ok cs (counting_sink limit) in
    let (r, e, a) =
      counted-Answers max_size shortest opts v out (counting_ok t) t
        (run-Counted cs (counting_sink limit) refl (omega arith)) refl in
    (
      r,
      ap (counted max_size shortest opts v out) (
            write_value_to-print_value counting_apply counting_ok counting-Keeps counting-Refuses
              shortest opts v (counting_sink limit) refl)
          ∙ e,
      a,
    )
