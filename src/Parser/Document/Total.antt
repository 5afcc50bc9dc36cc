-- ===== src/Parser/Document/Total.antt =====
-- The recursive-descent parser ends: parseValue, parseArray, parseObject and parseTop.
use pjson.Common.{
  ℕ, zero, suc, ◌*◌, ◌≤◌, ◌<◌, ◌≡◌, ◌⊎◌, refl, Bool, true, false, ◌&&◌, ◌||◌, not, Option, none,
  some, [], ◌∷◌, ltb, ◌==◌, if◌then◌else◌, arith, length, inl, inr,
}
use pjson.Common.Bytes.{Bytes}
use pjson.Value.{Value, Items, Members, null, no_items, no_members}
use pjson.Value.ArrayStorage.{push_item}
use pjson.Parser.{
  Parsed, parsed, rejected, stalled, missing_comma_in_array, input_exceeds_max_input_bytes,
}
use pjson.Parser.Number.{Extraction}
use pjson.Parser.Position.{ParseError, reset_parse_error, set_parse_error, input_limit}
use pjson.Parser.Tokens.{
  ParseOptions, ParseContext, skip_whitespace, parse_keyword, parse_string, parse_number,
}
use pjson.Parser.Document.{
  lead, array_mark, object_mark, open_container, parse_key, parse_value, parse_items, parse_members,
  enough_rounds, context_of, top_result, after_value, parse_top,
}
use pjson.Parser.Document.Advance.{AdvancesWithin, Advances, weaken, either}
use pjson.Parser.Document.Advance.Tokens.{
  skip_whitespace-length, parse_string-Advances, parse_number-Advances, parse_keyword-Advances,
  parse_key-Advances,
}
use pjson.Parser.Document.Advance.Cases.{
  after_item, after_member, open_container-opens, after_open, at_mark, by_lead, by_mark, by_test,
  after_key,
}

-- What f rounds are enough for.
abbrev Ends : ℕ → Type 0
Ends f =
    ((c : ParseContext) (depth k : ℕ) (s : Bytes)
      → 2 * length s < f
      → Advances s (parse_value f c depth k s))
    × ((c : ParseContext) (depth k : ℕ) (expect any : Bool) (xs : Items) (s : Bytes)
        → suc (2 * length s) < f
        → AdvancesWithin (length s) (parse_items f c depth k expect any xs s))
    × ((c : ParseContext) (depth k : ℕ) (expect any : Bool) (ms : Members) (s : Bytes)
        → suc (2 * length s) < f
        → AdvancesWithin (length s) (parse_members f c depth k expect any ms s))

value_step :
    (f : ℕ)
    → Ends f
    → (c : ParseContext) (depth k : ℕ) (s : Bytes) → 2 * length s < suc f
    → Advances s (parse_value (suc f) c depth k s)
unfolding parse_value
value_step f ends c depth k s h =
    at_mark (length s) (skip_whitespace s) _ _ (omega arith)
      (λ ch t shorter.
        by_lead (length s) (lead ch) _ _ _ _ _
          (within_s ch t shorter (parse_string c k (ch ∷ t)) (parse_string-Advances c k (ch ∷ t)))
          (after_open (length s) (open_container c depth k (ch ∷ t)) _
            (λ n.
              weaken (length t) (length s)
                (parse_members f c (suc depth) n false false no_members t) (omega (arith, shorter))
                (ends.2 c (suc depth) n false false no_members t (omega (arith, h, shorter))))
            (open_container-opens c depth k (length s) (ch ∷ t) (omega (arith, shorter))))
          (after_open (length s) (open_container c depth k (ch ∷ t)) _
            (λ n.
              weaken (length t) (length s) (parse_items f c (suc depth) n false false no_items t)
                (omega (arith, shorter))
                (ends.1 c (suc depth) n false false no_items t (omega (arith, h, shorter))))
            (open_container-opens c depth k (length s) (ch ∷ t) (omega (arith, shorter))))
          (within_s ch t shorter (parse_number c k (ch ∷ t)) (parse_number-Advances c k (ch ∷ t)))
          (within_s ch t shorter (parse_keyword c k (ch ∷ t))
            (parse_keyword-Advances c k (ch ∷ t))))
      (skip_whitespace-length s)
  where
    within_s :
        (ch : ℕ) (t : Bytes)
        → length t < length s
        → (r : Parsed (Value × ℕ)) → Advances (ch ∷ t) r
        → AdvancesWithin (length s) r
    within_s ch t shorter r a = weaken (suc (length t)) (length s) r (omega (arith, shorter)) a

items_step :
    (f : ℕ)
    → Ends f
    → (c : ParseContext) (depth k : ℕ) (expect any : Bool) (xs : Items) (s : Bytes)
    → suc (2 * length s) < suc f
    → AdvancesWithin (length s) (parse_items (suc f) c depth k expect any xs s)
unfolding parse_items
items_step f ends c depth k expect any xs s h =
    at_mark (length s) (skip_whitespace s) _ _ (omega arith)
      (λ ch t shorter.
        by_mark (length s) (array_mark ch) _ _ _ _
          (either (length s) expect _ _ (omega (arith, shorter)) shorter)
          (by_test (length s) (not any || expect) _ _ (omega (arith, shorter)) (
            weaken (length t) (length s) (parse_items f c depth k true any xs t)
              (omega (arith, shorter))
              (ends.1 c depth k true any xs t (omega (arith, h, shorter)))))
          (next_item ch t shorter) (next_item ch t shorter))
      (skip_whitespace-length s)
  where
    next_item :
        (ch : ℕ) (t : Bytes)
        → length t < length s
        → AdvancesWithin (length s) (elim (any && not expect) [
          | true ↦ rejected missing_comma_in_array (ch ∷ t)
          | false ↦ elim (parse_value f c depth k (ch ∷ t)) [
            | parsed p rest ↦ parse_items f c depth (p.1) false true (push_item xs (p.0)) rest
            | rejected message at ↦ rejected message at
            | stalled ↦ stalled
          ]
        ])
    next_item ch t shorter = by_test (length s) (any && not expect) _ _ (omega (arith, shorter)) (
        after_item c f depth (length s) xs (parse_value f c depth k (ch ∷ t))
          (λ n ys rest less.
            weaken (length rest) (length s) (parse_items f c depth n false true ys rest)
              (omega (arith, less)) (ends.1 c depth n false true ys rest (omega (arith, h, less))))
          (weaken (suc (length t)) (length s) (parse_value f c depth k (ch ∷ t))
            (omega (arith, shorter)) (ends.0 c depth k (ch ∷ t) (omega (arith, h, shorter)))))

members_step :
    (f : ℕ)
    → Ends f
    → (c : ParseContext) (depth k : ℕ) (expect any : Bool) (ms : Members) (s : Bytes)
    → suc (2 * length s) < suc f
    → AdvancesWithin (length s) (parse_members (suc f) c depth k expect any ms s)
unfolding parse_members
members_step f ends c depth k expect any ms s h =
    at_mark (length s) (skip_whitespace s) _ _ (omega arith)
      (λ ch t shorter.
        by_mark (length s) (object_mark ch) _ _ _ _
          (either (length s) expect _ _ (omega (arith, shorter)) shorter)
          (by_test (length s) (not any || expect) _ _ (omega (arith, shorter)) (
            weaken (length t) (length s) (parse_members f c depth k true any ms t)
              (omega (arith, shorter))
              (ends.2 c depth k true any ms t (omega (arith, h, shorter)))))
          (by_test (length s) (any && not expect) _ _ (omega (arith, shorter)) (
            after_key (length s) (parse_key c ms (ch ∷ t)) _
              (λ key after less.
                after_member c f depth (length s) key ms (parse_value f c depth k after)
                  (λ n ys rest later.
                    weaken (length rest) (length s) (parse_members f c depth n false true ys rest)
                      (omega (arith, later))
                      (ends.2 c depth n false true ys rest (omega (arith, h, later))))
                  (weaken (length after) (length s) (parse_value f c depth k after)
                    (omega (arith, less)) (ends.0 c depth k after (omega (arith, h, less)))))
              (weaken (suc (length t)) (length s) (parse_key c ms (ch ∷ t)) (omega (arith, shorter))
                (parse_key-Advances c ms (ch ∷ t)))))
          (omega (arith, shorter)))
      (skip_whitespace-length s)

enough-Ends : (f : ℕ) → Ends f
enough-Ends zero = (
  λ c depth k s h. elim h [ ],
  λ c depth k e a xs s h. elim h [ ],
  λ c depth k e a ms s h. elim h [ ],
)
enough-Ends (suc f) =
    let ends = enough-Ends f in (value_step f ends, items_step f ends, members_step f ends)

-- The cursor of a parse that succeeds has moved on, and no part of it has run out of rounds.
pub parse_value-Advances :
    (c : ParseContext) (depth k : ℕ) (s : Bytes)
    → Advances s (parse_value (enough_rounds s) c depth k s)
parse_value-Advances c depth k s = (enough-Ends (enough_rounds s)).0 c depth k s (omega arith)

abbrev pub input_size : Option Bytes → ℕ
input_size none = 0
input_size (some src) = length src

-- A document under a reset error object, or null under an error inside the input.
abbrev pub Answered : Option Bytes → Value × ParseError → Type 0
Answered source r =
    (r.1 ≡ reset_parse_error) ⊎ ((r.0 ≡ null) × (r.1.ok ≡ false) × (r.1.offset ≤ input_size source))

abbrev Answers : Option Bytes → Option (Value × ParseError) → Type 0
Answers source o = (r : Value × ParseError) × (o ≡ some r) × Answered source r

after_value-Answers :
    (src : Bytes) (v : Value) (rest : Bytes) → Answers (some src) (after_value src v rest)
after_value-Answers src v [] = ((v, reset_parse_error), refl, inl refl)
after_value-Answers src v (ch ∷ rest) = (_, refl, inr (refl, refl, omega arith))

top_result-Answers :
    (src : Bytes) (r : Parsed (Value × ℕ)) → Advances src r → Answers (some src) (top_result src r)
top_result-Answers src (parsed p rest) h = after_value-Answers src (p.0) (skip_whitespace rest)
top_result-Answers src (rejected message at) h = (_, refl, inr (refl, refl, omega arith))
top_result-Answers src stalled h = elim h [ ]

-- parseTop ends on every input, under every set of options and whatever the stream makes of a
-- floating token: it hands back an answer, which is a document with the error object reset, or
-- null with an error whose offset is not beyond the input.
pub parse_top-Answered :
    (opts : ParseOptions) (extract : Bytes → Extraction) (source : Option Bytes)
    → (r : Value × ParseError) × (parse_top opts extract source ≡ some r) × Answered source r
unfolding parse_top
parse_top-Answered opts extract none = (_, refl, inr (refl, refl, omega arith))
parse_top-Answered opts extract (some src) =
    limited (not (opts.max_input_bytes == 0) && ltb (opts.max_input_bytes) (length src))
      (top_result src (parse_value (enough_rounds src) (context_of opts extract) 0 0 src))
      (λ over. ground arith)
      (top_result-Answers src (parse_value (enough_rounds src) (context_of opts extract) 0 0 src)
        (parse_value-Advances (context_of opts extract) 0 0 src))
  where
    limited :
        (b : Bool) (o : Option (Value × ParseError))
        → (b ≡ true → opts.max_input_bytes ≤ length src)
        → Answers (some src) o
        → Answers (some src) (
            if b
            then some (
              null,
              set_parse_error src (opts.max_input_bytes) input_exceeds_max_input_bytes input_limit,
            )
            else o)
    limited true o h a = (_, refl, inr (refl, refl, h refl))
    limited false o h a = a
