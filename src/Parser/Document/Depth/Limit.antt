-- ===== src/Parser/Document/Depth/Limit.antt =====
-- parseTop keeps to the depth limit: parseValue, parseArray, parseObject and the driver.
use pjson.Common.{
  ℕ, zero, suc, ◌+◌, ◌≤◌, ◌≡◌, subst, Bool, true, false, ◌&&◌, ◌||◌, not, Option, none, some, [],
  ◌∷◌, arith, Bool-cases, inl, inr, ltb, ◌==◌, length,
}
use pjson.Common.Bytes.{Bytes}
use pjson.Value.{Value, Items, Members, null, no_items, no_members}
use pjson.Parser.{Parsed, parsed, rejected, stalled}
use pjson.Parser.Number.{Extraction}
use pjson.Parser.Position.{ParseError}
use pjson.Parser.Tokens.{ParseOptions, ParseContext, clamp_parse_depth, skip_whitespace}
use pjson.Parser.Document.{
  lead, array_mark, object_mark, parse_key, parse_value, parse_items, parse_members, enough_rounds,
  context_of, top_result, after_value, parse_top,
}
use pjson.Parser.Document.Depth.{
  value_depth, items_depth, members_depth, NestsWithin, parse_number-NestsWithin,
  parse_string-NestsWithin, parse_keyword-NestsWithin,
}
use pjson.Parser.Document.Depth.Cases.{
  after_item, after_member, after_key, after_open, at_mark, by_lead, by_mark, by_test, either,
}

abbrev Nests : ℕ → Type 0
Nests f =
    ((c : ParseContext) (d k : ℕ) (s : Bytes)
      → d ≤ c.max_depth
      → NestsWithin (c.max_depth) d (parse_value f c d k s))
    × ((c : ParseContext) (d k : ℕ) (expect any : Bool) (xs : Items) (s : Bytes)
        → items_depth xs + d ≤ c.max_depth
        → NestsWithin (suc (c.max_depth)) d (parse_items f c d k expect any xs s))
    × ((c : ParseContext) (d k : ℕ) (expect any : Bool) (ms : Members) (s : Bytes)
        → members_depth ms + d ≤ c.max_depth
        → NestsWithin (suc (c.max_depth)) d (parse_members f c d k expect any ms s))

value_step :
    (f : ℕ)
    → Nests f
    → (c : ParseContext) (d k : ℕ) (s : Bytes) → d ≤ c.max_depth
    → NestsWithin (c.max_depth) d (parse_value (suc f) c d k s)
unfolding parse_value value_depth
value_step f nests c d k s h = at_mark (c.max_depth) d (skip_whitespace s) _ _ tt (λ ch t.
    by_lead (c.max_depth) d (lead ch) _ _ _ _ _
      (parse_string-NestsWithin c (c.max_depth) d k (ch ∷ t) h)
      (after_open c d k (ch ∷ t) _
        (λ n fits. nests.2 c (suc d) n false false no_members t (omega (arith, fits))))
      (after_open c d k (ch ∷ t) _
        (λ n fits. nests.1 c (suc d) n false false no_items t (omega (arith, fits))))
      (parse_number-NestsWithin c (c.max_depth) d k (ch ∷ t) h)
      (parse_keyword-NestsWithin c (c.max_depth) d k (ch ∷ t) h))

items_step :
    (f : ℕ)
    → Nests f
    → (c : ParseContext) (d k : ℕ) (expect any : Bool) (xs : Items) (s : Bytes)
    → items_depth xs + d ≤ c.max_depth
    → NestsWithin (suc (c.max_depth)) d (parse_items (suc f) c d k expect any xs s)
unfolding parse_items value_depth
items_step f nests c d k expect any xs s h =
    let m = suc (c.max_depth) in
    at_mark m d (skip_whitespace s) _ _ tt (λ ch t.
      let next = by_test m d (any && not expect) _ _ tt (
        after_item c f (c.max_depth) d xs (parse_value f c d k (ch ∷ t))
          (λ n ys rest g. nests.1 c d n false true ys rest g) h
          (nests.0 c d k (ch ∷ t) (omega (arith, h)))) in
      by_mark m d (array_mark ch) _ _ _ _ (either m d expect _ _ tt (omega (arith, h)))
        (by_test m d (not any || expect) _ _ tt (nests.1 c d k true any xs t h)) next next)

members_step :
    (f : ℕ)
    → Nests f
    → (c : ParseContext) (d k : ℕ) (expect any : Bool) (ms : Members) (s : Bytes)
    → members_depth ms + d ≤ c.max_depth
    → NestsWithin (suc (c.max_depth)) d (parse_members (suc f) c d k expect any ms s)
unfolding parse_members value_depth
members_step f nests c d k expect any ms s h =
    let m = suc (c.max_depth) in
    at_mark m d (skip_whitespace s) _ _ tt (λ ch t.
      by_mark m d (object_mark ch) _ _ _ _ (either m d expect _ _ tt (omega (arith, h)))
        (by_test m d (not any || expect) _ _ tt (nests.2 c d k true any ms t h))
        (by_test m d (any && not expect) _ _ tt (
          after_key m d (parse_key c ms (ch ∷ t)) _ (λ key after.
            after_member c f (c.max_depth) d key ms (parse_value f c d k after)
              (λ n ys rest g. nests.2 c d n false true ys rest g) h
              (nests.0 c d k after (omega (arith, h))))))
        tt)

every-Nests : (f : ℕ) → Nests f
unfolding parse_value
every-Nests zero = (λ c d k s h. tt, λ c d k e a xs s h. tt, λ c d k e a ms s h. tt)
every-Nests (suc f) =
    let nests = every-Nests f in (value_step f nests, items_step f nests, members_step f nests)

top_depth :
    (m : ℕ) (src : Bytes) (r : Parsed (Value × ℕ)) (v : Value) (e : ParseError)
    → NestsWithin m 0 r
    → top_result src r ≡ some (v, e)
    → value_depth v ≤ m
unfolding value_depth
top_depth m src (parsed p rest) v e h t = ended (skip_whitespace rest) t
  where
    ended : (w : Bytes) → after_value src (p.0) w ≡ some (v, e) → value_depth v ≤ m
    ended [] t = let same : p.0 ≡ v = cc in subst (λ u. value_depth u ≤ m) same (omega (arith, h))
    ended (ch ∷ w) t = let same : null ≡ v = cc in subst (λ u. value_depth u ≤ m) same (omega arith)
top_depth m src (rejected message at) v e h t =
    let same : null ≡ v = cc in subst (λ u. value_depth u ≤ m) same (omega arith)
top_depth m src stalled v e h t = absurd cc

-- The document that parseTop hands back nests no deeper than the clamped maxDepth of the options,
-- whatever the input is and whatever the stream makes of a floating token.
pub parse_top-depth :
    (opts : ParseOptions) (extract : Bytes → Extraction) (source : Option Bytes) (v : Value)
    (e : ParseError)
    → parse_top opts extract source ≡ some (v, e)
    → value_depth v ≤ clamp_parse_depth (opts.max_depth)
unfolding parse_top value_depth
parse_top-depth opts extract none v e h =
    let same : null ≡ v = cc in
    subst (λ u. value_depth u ≤ clamp_parse_depth (opts.max_depth)) same (omega arith)
parse_top-depth opts extract (some src) v e h =
    elim (Bool-cases (not (opts.max_input_bytes == 0) && ltb (opts.max_input_bytes) (length src))) [
      | inl large ↦
          let same : null ≡ v = ground arith in
          subst (λ u. value_depth u ≤ clamp_parse_depth (opts.max_depth)) same (omega arith)
      | inr small ↦
          top_depth (clamp_parse_depth (opts.max_depth)) src
            (parse_value (enough_rounds src) (context_of opts extract) 0 0 src) v e
            ((every-Nests (enough_rounds src)).0 (context_of opts extract) 0 0 src (omega arith))
            (ground arith)
    ]
