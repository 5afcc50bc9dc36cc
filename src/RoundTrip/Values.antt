-- ===== src/RoundTrip/Values.antt =====
-- The text of any value: how it starts, and the values without children read back.
use pjson.Common.{
  ℕ, zero, suc, ◌+◌, ◌≡◌, refl, sym, ap, ◌∙◌, subst, true, false, some, List, [], ◌∷◌, ◌++◌, arith,
}
use pjson.Common.Bytes.{Bytes, codes}
use pjson.Common.Int.{pos}
use pjson.Value.{
  Value, null, string, int, uint, double, boolean, array, object, no_items, item, no_members,
  member, Double,
}
use pjson.Value.Nodes.{node_count}
use pjson.Parser.{Parsed, parsed}
use pjson.Parser.Tokens.{ParseContext, skip_whitespace}
use pjson.Parser.Document.{parse_value}
use pjson.Serializer.{SerializeOptions, Command, write}
use pjson.Serializer.Number.{integer_text, format_double}
use pjson.Serializer.Print.{is_finite, double_command, print_value}
use pjson.Serializer.Sink.Fit.{printed}
use pjson.RoundTrip.Text.{split_write, printed-single}
use pjson.RoundTrip.Leaf.{Stops, HasRoom}
use pjson.RoundTrip.Start.{Starts, StartsNumber-Starts, integer_text-StartsNumber}
use pjson.RoundTrip.Scalar.{scanned-StartsNumber}
use pjson.RoundTrip.Double.Scan.{spelled-ReadsBack}
use pjson.RoundTrip.Readable.{IsReadable, ReadsValue}

single_Starts : (text t : Bytes) → Starts text → printed (write text ∷ []) ≡ some t → Starts t
single_Starts text t start h = subst Starts (sym (printed-single text t h)) start

first_Starts :
    (ch : ℕ) (cs : List Command) (t : Bytes)
    → ((u : Bytes) → Starts (ch ∷ u))
    → printed (write (ch ∷ []) ∷ cs) ≡ some t
    → Starts t
first_Starts ch cs t start h =
    let (b, hb, e) = split_write (ch ∷ []) cs t h in subst Starts (sym e) (start b)

-- The text of a finite double.
pub double_text :
    (shortest : Double → Bytes) (opts : SerializeOptions) (x : Double) (t : Bytes)
    → is_finite x ≡ true
    → printed (double_command shortest (opts.non_finite) x ∷ []) ≡ some t
    → t ≡ format_double shortest x
double_text shortest opts x t finite = rw finite (printed-single (format_double shortest x) t)

module _ (c : ParseContext) (shortest : Double → Bytes) (opts : SerializeOptions) where
  pub print_value-Starts :
      (v : Value)
      → IsReadable c shortest v
      → (n : ℕ) (t : Bytes) → printed (print_value shortest opts n v) ≡ some t
      → Starts t
  unfolding print_value IsReadable
  print_value-Starts null r n t h = single_Starts (codes "null") t (b'n', _, refl, refl, refl) h
  print_value-Starts (string s) r n t h = first_Starts b'"' _ t (λ u. (b'"', u, refl, refl, refl)) h
  print_value-Starts (int z) r n t h =
      single_Starts (integer_text z) t
        (StartsNumber-Starts (integer_text z) (integer_text-StartsNumber z)) h
  print_value-Starts (uint m) r n t h =
      single_Starts (integer_text (pos m)) t
        (StartsNumber-Starts (integer_text (pos m)) (integer_text-StartsNumber (pos m))) h
  print_value-Starts (double x) r n t h =
      subst Starts (sym (double_text shortest opts x t (r.0) h)) (
        StartsNumber-Starts (format_double shortest x) (
          scanned-StartsNumber c (format_double shortest x) x
            (spelled-ReadsBack c shortest x (r.0) (r.1))))
  print_value-Starts (boolean true) r n t h =
      single_Starts (codes "true") t (b't', _, refl, refl, refl) h
  print_value-Starts (boolean false) r n t h =
      single_Starts (codes "false") t (b'f', _, refl, refl, refl) h
  print_value-Starts (array no_items) r n t h =
      single_Starts (codes "[]") t (b'[', _, refl, refl, refl) h
  print_value-Starts (array (item v xs)) r n t h =
      first_Starts b'[' _ t (λ u. (b'[', u, refl, refl, refl)) h
  print_value-Starts (object no_members) r n t h =
      single_Starts (codes "{}") t (b'{', _, refl, refl, refl) h
  print_value-Starts (object (member k v ms)) r n t h =
      first_Starts b'{' _ t (λ u. (b'{', u, refl, refl, refl)) h

  -- One node more.
  counted_one :
      (v : Value) (k : ℕ) (rest : Bytes)
      → node_count v ≡ 1
      → ◌≡◌ {A = Parsed (Value × ℕ)} (parsed (v, suc k) rest) (parsed (v, k + node_count v) rest)
  counted_one v k rest h =
      let more : suc k ≡ k + node_count v = omega (arith, h) in ap (λ n. parsed (v, n) rest) more

  -- A value without children, from any lemma that reads one.
  pub leaf-Reads :
      (v : Value)
      → node_count v ≡ 1
      → ((n f d k : ℕ) (t w rest : Bytes)
          → HasRoom c k 1
          → printed (print_value shortest opts n v) ≡ some t
          → skip_whitespace w ≡ t ++ rest
          → Stops rest
          → parse_value (suc f) c d k w ≡ parsed (v, suc k) rest)
      → ReadsValue c shortest opts v
  leaf-Reads v leaf read n zero d k t w rest p fuel deep room at stop = elim fuel [ ]
  leaf-Reads v leaf read n (suc f) d k t w rest p fuel deep room at stop =
      read n f d k t w rest (subst (HasRoom c k) leaf room) p at stop ∙ counted_one v k rest leaf

  -- The cursor is at a text that is printed by itself.
  pub at_text :
      (text t w rest : Bytes)
      → printed (write text ∷ []) ≡ some t
      → skip_whitespace w ≡ t ++ rest
      → skip_whitespace w ≡ text ++ rest
  at_text text t w rest p at = at ∙ ap (λ t. t ++ rest) (printed-single text t p)
