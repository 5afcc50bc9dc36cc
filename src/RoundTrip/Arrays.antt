-- ===== src/RoundTrip/Arrays.antt =====
-- Arrays read back where their children are.
use pjson.Common.{ℕ, zero, suc, ◌≡◌, refl, sym, ap, ◌∙◌, true, false, [], ◌∷◌, ◌++◌, length, arith}
use pjson.Common.Bytes.{Bytes, codes}
use pjson.Value.{Value, Items, array, no_items, item, Double}
use pjson.Value.Nodes.{node_count, items_nodes}
use pjson.Parser.{Parsed, parsed}
use pjson.Parser.Tokens.{ParseContext, skip_whitespace}
use pjson.Parser.Document.{parse_items}
use pjson.Parser.Document.Depth.{value_depth}
use pjson.Serializer.{SerializeOptions}
use pjson.Serializer.Print.{print_value}
use pjson.RoundTrip.Text.{split_write, printed-single}
use pjson.RoundTrip.Rounds.{value-array, items-close, items-comma}
use pjson.RoundTrip.Start.{skip_whitespace-gap, skip_whitespace-start}
use pjson.RoundTrip.Readable.{IsReadable, append_items, ReadsValue, ReadsItems}
use pjson.RoundTrip.Gaps.{room_first, closing_text, room_inside, append_items-nil}
use pjson.RoundTrip.Values.{print_value-Starts, at_text}
use pjson.RoundTrip.Children.{items_child}

module _ (c : ParseContext) (shortest : Double → Bytes) (opts : SerializeOptions) where
  pub no_items-Reads : ReadsItems c shortest opts no_items
  unfolding print_value node_count
  no_items-Reads acc n zero d k t rest p fuel deep room = elim fuel [ ]
  no_items-Reads acc n (suc f) d k t rest p fuel deep room =
      let (a, gap, same) = closing_text opts n b']' t p in
      items-close c f d k true acc (t ++ rest) rest (
        ap skip_whitespace (same rest)
        ∙ skip_whitespace-gap a (b']' ∷ rest) gap
        ∙ skip_whitespace-start b']' rest refl)
      ∙ ap {B = Parsed (Value × ℕ)} (λ ys. parsed (array ys, k) rest) (sym (append_items-nil acc))
      ∙ ap {B = Parsed (Value × ℕ)} (λ m. parsed (array (append_items acc no_items), m) rest)
          (omega arith)

  pub item-Reads :
      (v : Value) (xs : Items)
      → ReadsValue c shortest opts v
      → ReadsItems c shortest opts xs
      → IsReadable c shortest v
      → ReadsItems c shortest opts (item v xs)
  unfolding print_value
  item-Reads v xs reads more r acc n zero d k t rest p fuel deep room = elim fuel [ ]
  item-Reads v xs reads more r acc n (suc f) d k t rest p fuel deep room =
      let (b, hb, e) = split_write (b',' ∷ []) _ t p in
      let here : t ++ rest ≡ b',' ∷ (b ++ rest) = ap (λ t. t ++ rest) e in
      ap (parse_items (suc f) c d k false true acc) here
      ∙ items-comma c f d k acc (b ++ rest)
      ∙ items_child c shortest opts v xs reads more (print_value-Starts c shortest opts v r) acc
          true true n f d k b rest refl hb (omega (arith, fuel, ap length here)) deep room

  pub array-Reads :
      (v : Value) (xs : Items)
      → ReadsValue c shortest opts v
      → ReadsItems c shortest opts xs
      → IsReadable c shortest v
      → ReadsValue c shortest opts (array (item v xs))
  unfolding print_value node_count value_depth
  array-Reads v xs reads more r n zero d k t w rest p fuel deep room at stop = elim fuel [ ]
  array-Reads v xs reads more r n (suc f) d k t w rest p fuel deep room at stop =
      let (b, hb, e) = split_write (b'[' ∷ []) _ t p in
      let here : t ++ rest ≡ b'[' ∷ (b ++ rest) = ap (λ t. t ++ rest) e in
      value-array c f d k w (b ++ rest) (at ∙ here) (omega (arith, deep))
        (room_first c k 1 (suc (items_nodes (item v xs))) (omega arith) room)
      ∙ items_child c shortest opts v xs reads more (print_value-Starts c shortest opts v r)
          no_items false false n f (suc d) (suc k) b rest refl hb
          (omega (arith, fuel, ap length here)) (omega (arith, deep))
          (room_inside c k (items_nodes (item v xs)) room)
      ∙ ap {B = Parsed (Value × ℕ)} (λ m. parsed (array (item v xs), m) rest) (omega arith)

  pub empty_array-Reads : ReadsValue c shortest opts (array no_items)
  unfolding print_value node_count value_depth
  empty_array-Reads n zero d k t w rest p fuel deep room at stop = elim fuel [ ]
  empty_array-Reads n (suc zero) d k t w rest p fuel deep room at stop =
      let e : t ++ rest ≡ b'[' ∷ b']' ∷ rest =
        ap (λ t. t ++ rest) (printed-single (codes "[]") t p) in
      absurd (omega (arith, fuel, ap length e))
  empty_array-Reads n (suc (suc f)) d k t w rest p fuel deep room at stop =
      let here = at_text c shortest opts (codes "[]") t w rest p at in
      value-array c (suc f) d k w (b']' ∷ rest) here (omega (arith, deep))
        (room_first c k 1 1 (omega arith) room)
      ∙ items-close c f (suc d) (suc k) false no_items (b']' ∷ rest) rest
          (skip_whitespace-start b']' rest refl)
      ∙ ap {B = Parsed (Value × ℕ)} (λ m. parsed (array no_items, m) rest) (omega arith)
