-- ===== src/RoundTrip/Objects.antt =====
-- Objects read back where their children are.
use pjson.Common.{ℕ, zero, suc, ◌≡◌, refl, sym, ap, ◌∙◌, true, false, [], ◌∷◌, ◌++◌, length, arith}
use pjson.Common.Bytes.{Bytes, codes}
use pjson.Value.{Value, Members, object, no_members, member, Double}
use pjson.Value.ObjectStorage.{HasUniqueKeys}
use pjson.Value.Nodes.{node_count, members_nodes}
use pjson.Parser.{Parsed, parsed}
use pjson.Parser.Tokens.{ParseContext, skip_whitespace}
use pjson.Parser.Document.{parse_members}
use pjson.Parser.Document.Depth.{value_depth}
use pjson.Serializer.{SerializeOptions}
use pjson.Serializer.Print.{print_value}
use pjson.RoundTrip.Text.{split_write, printed-single}
use pjson.RoundTrip.Rounds.{value-object, members-close, members-comma}
use pjson.RoundTrip.Start.{skip_whitespace-gap, skip_whitespace-start}
use pjson.RoundTrip.Readable.{IsReadable, append_members, ReadsValue, ReadsMembers}
use pjson.RoundTrip.Gaps.{room_first, closing_text, room_inside, append_members-nil, empty-AreFresh}
use pjson.RoundTrip.Values.{print_value-Starts, at_text}
use pjson.RoundTrip.Children.{members_child}

module _ (c : ParseContext) (shortest : Double → Bytes) (opts : SerializeOptions) where
  pub no_members-Reads : ReadsMembers c shortest opts no_members
  unfolding print_value node_count
  no_members-Reads acc n zero d k t rest p fresh unique fuel deep room = elim fuel [ ]
  no_members-Reads acc n (suc f) d k t rest p fresh unique fuel deep room =
      let (a, gap, same) = closing_text opts n b'}' t p in
      members-close c f d k true acc (t ++ rest) rest (
        ap skip_whitespace (same rest)
        ∙ skip_whitespace-gap a (b'}' ∷ rest) gap
        ∙ skip_whitespace-start b'}' rest refl)
      ∙ ap {B = Parsed (Value × ℕ)} (λ ns. parsed (object ns, k) rest)
          (sym (append_members-nil acc))
      ∙ ap {B = Parsed (Value × ℕ)} (λ m. parsed (object (append_members acc no_members), m) rest)
          (omega arith)

  pub member-Reads :
      (key : Bytes) (v : Value) (ms : Members)
      → ReadsValue c shortest opts v
      → ReadsMembers c shortest opts ms
      → IsReadable c shortest v
      → ReadsMembers c shortest opts (member key v ms)
  unfolding print_value
  member-Reads key v ms reads more r acc n zero d k t rest p fresh unique fuel deep room =
      elim fuel [ ]
  member-Reads key v ms reads more r acc n (suc f) d k t rest p fresh unique fuel deep room =
      let (b, hb, e) = split_write (b',' ∷ []) _ t p in
      let here : t ++ rest ≡ b',' ∷ (b ++ rest) = ap (λ t. t ++ rest) e in
      ap (parse_members (suc f) c d k false true acc) here
      ∙ members-comma c f d k acc (b ++ rest)
      ∙ members_child c shortest opts key v ms reads more (print_value-Starts c shortest opts v r)
          acc true true n f d k b rest refl fresh unique hb (omega (arith, fuel, ap length here))
          deep room

  pub object-Reads :
      (key : Bytes) (v : Value) (ms : Members)
      → ReadsValue c shortest opts v
      → ReadsMembers c shortest opts ms
      → IsReadable c shortest v
      → HasUniqueKeys (member key v ms)
      → ReadsValue c shortest opts (object (member key v ms))
  unfolding print_value node_count value_depth
  object-Reads key v ms reads more r unique n zero d k t w rest p fuel deep room at stop =
      elim fuel [ ]
  object-Reads key v ms reads more r unique n (suc f) d k t w rest p fuel deep room at stop =
      let (b, hb, e) = split_write (b'{' ∷ []) _ t p in
      let here : t ++ rest ≡ b'{' ∷ (b ++ rest) = ap (λ t. t ++ rest) e in
      value-object c f d k w (b ++ rest) (at ∙ here) (omega (arith, deep))
        (room_first c k 1 (suc (members_nodes (member key v ms))) (omega arith) room)
      ∙ members_child c shortest opts key v ms reads more (print_value-Starts c shortest opts v r)
          no_members false false n f (suc d) (suc k) b rest refl (empty-AreFresh (member key v ms))
          unique hb (omega (arith, fuel, ap length here)) (omega (arith, deep))
          (room_inside c k (members_nodes (member key v ms)) room)
      ∙ ap {B = Parsed (Value × ℕ)} (λ m. parsed (object (member key v ms), m) rest) (omega arith)

  pub empty_object-Reads : ReadsValue c shortest opts (object no_members)
  unfolding print_value node_count value_depth
  empty_object-Reads n zero d k t w rest p fuel deep room at stop = elim fuel [ ]
  empty_object-Reads n (suc zero) d k t w rest p fuel deep room at stop =
      let e : t ++ rest ≡ b'{' ∷ b'}' ∷ rest =
        ap (λ t. t ++ rest) (printed-single (codes "{}") t p) in
      absurd (omega (arith, fuel, ap length e))
  empty_object-Reads n (suc (suc f)) d k t w rest p fuel deep room at stop =
      let here = at_text c shortest opts (codes "{}") t w rest p at in
      value-object c (suc f) d k w (b'}' ∷ rest) here (omega (arith, deep))
        (room_first c k 1 1 (omega arith) room)
      ∙ members-close c f (suc d) (suc k) false no_members (b'}' ∷ rest) rest
          (skip_whitespace-start b'}' rest refl)
      ∙ ap {B = Parsed (Value × ℕ)} (λ m. parsed (object no_members, m) rest) (omega arith)
