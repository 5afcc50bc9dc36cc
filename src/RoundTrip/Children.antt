-- ===== src/RoundTrip/Children.antt =====
-- A child and the children behind it, read back where the child and the children are.
use pjson.Common.{
  ℕ, zero, suc, ◌+◌, ◌*◌, ◌≤◌, ◌<◌, ◌≡◌, refl, sym, ap, ◌∙◌, Bool, false, ◌&&◌, not, some, [], ◌∷◌,
  ◌++◌, append_assoc, length, length-append, arith, Bool-cases, inl, inr,
}
use pjson.Common.Bytes.{Bytes}
use pjson.Value.{Value, Items, Members, array, object, item, member, Double}
use pjson.Value.ArrayStorage.{push_item}
use pjson.Value.ObjectStorage.{put_member, HasUniqueKeys}
use pjson.Value.Nodes.{node_count, items_nodes, members_nodes}
use pjson.Parser.{parsed}
use pjson.Parser.Tokens.{ParseContext, skip_whitespace}
use pjson.Parser.Document.{parse_items, parse_members}
use pjson.Parser.Document.Depth.{value_depth, items_depth, members_depth}
use pjson.Serializer.{SerializeOptions}
use pjson.Serializer.Print.{
  new_line, print_value, print_items, print_members, key_commands, after_key,
}
use pjson.Serializer.Sink.Fit.{printed}
use pjson.RoundTrip.Text.{split_printed}
use pjson.RoundTrip.Leaf.{HasRoom, extract_string-written}
use pjson.RoundTrip.Rounds.{items-value, members-value, key-written}
use pjson.RoundTrip.Start.{
  IsGap, Starts, new_line-IsGap, skip_whitespace-gap, skip_whitespace-start,
}
use pjson.RoundTrip.Scalar.{quoted_text}
use pjson.RoundTrip.Readable.{
  append_items, append_members, AreFresh, ReadsValue, ReadsItems, ReadsMembers,
}
use pjson.RoundTrip.Gaps.{
  room_first, room_rest, append-push_item, append-put_member, put_member-AreFresh, items-Stops,
  members-Stops,
}

-- A gap, a child and what follows, in front of the rest.
split_around : (a v m rest : Bytes) → (a ++ (v ++ m)) ++ rest ≡ a ++ (v ++ (m ++ rest))
split_around a v m rest = append_assoc a (v ++ m) rest ∙ ap (λ u. a ++ u) (append_assoc v m rest)

split_length :
    (a v m rest : Bytes)
    → length (a ++ (v ++ (m ++ rest))) ≡ length a + (length v + length (m ++ rest))
split_length a v m rest =
    length-append a (v ++ (m ++ rest)) ∙ ap (λ n. length a + n) (length-append v (m ++ rest))

module _ (c : ParseContext) (shortest : Double → Bytes) (opts : SerializeOptions) where
  pub items_child :
      (v : Value) (xs : Items)
      → ReadsValue c shortest opts v
      → ReadsItems c shortest opts xs
      → ((n : ℕ) (t : Bytes) → printed (print_value shortest opts n v) ≡ some t → Starts t)
      → (acc : Items) (expect any : Bool) (n f d k : ℕ) (t rest : Bytes) → any && not expect ≡ false
      → printed (
          new_line opts (suc n)
          ++ (print_value shortest opts (suc n) v ++ print_items shortest opts n false xs))
        ≡ some t
      → suc (2 * length (t ++ rest)) < f
      → d + items_depth (item v xs) ≤ c.max_depth
      → HasRoom c k (items_nodes (item v xs))
      → parse_items f c d k expect any acc (t ++ rest)
        ≡ parsed (array (append_items acc (item v xs)), k + items_nodes (item v xs)) rest
  unfolding node_count value_depth
  items_child v xs reads more starts acc expect any n zero d k t rest ready p fuel deep room =
      elim fuel [ ]
  items_child v xs reads more starts acc expect any n (suc f) d k t rest ready p fuel deep room =
      let (a, b, ha, hb, e1) = split_printed (new_line opts (suc n)) _ t p in
      let (tv, tm, hv, hm, e2) = split_printed (print_value shortest opts (suc n) v) _ b hb in
      let (ch, u, ev, black, mark) = starts (suc n) tv hv in
      let at : t ++ rest ≡ a ++ (tv ++ (tm ++ rest)) =
        ap (λ t. t ++ rest) (e1 ∙ ap (λ b. a ++ b) e2) ∙ split_around a tv tm rest in
      let total = ap length at ∙ split_length a tv tm rest in
      let some_head : length tv ≡ suc (length u) = ap length ev in
      let head : tv ++ (tm ++ rest) ≡ ch ∷ (u ++ (tm ++ rest)) = ap (λ v. v ++ (tm ++ rest)) ev in
      let start = skip_whitespace-start ch (u ++ (tm ++ rest)) black in
      let met : skip_whitespace (t ++ rest) ≡ ch ∷ (u ++ (tm ++ rest)) =
        ap skip_whitespace at
        ∙ skip_whitespace-gap a (tv ++ (tm ++ rest)) (new_line-IsGap opts (suc n) a ha)
        ∙ ap skip_whitespace head
        ∙ start in
      let read =
        reads (suc n) f d k tv (ch ∷ (u ++ (tm ++ rest))) (tm ++ rest) hv
          (omega (arith, fuel, total, length-append tv (tm ++ rest))) (omega (arith, deep))
          (room_first c k (node_count v) (node_count v + items_nodes xs) (omega arith) room)
          (start ∙ sym head) (items-Stops shortest opts n xs tm rest hm) in
      items-value c f d k expect any acc (t ++ rest) (u ++ (tm ++ rest)) (tm ++ rest) ch
        (k + node_count v) v met mark ready read
      ∙ more (push_item acc v) n f d (k + node_count v) tm rest hm
          (omega (arith, fuel, total, some_head)) (omega (arith, deep))
          (room_rest c k (node_count v) (items_nodes xs) room)
      ∙ ap (λ ys. parsed (array ys, (k + node_count v) + items_nodes xs) rest)
          (append-push_item acc v xs)
      ∙ ap (λ m. parsed (array (append_items acc (item v xs)), m) rest) (omega arith)

-- What follows a name.
after_key_text :
    (opts : SerializeOptions)
    → (blank : Bytes) × IsGap blank × (after_key opts ≡ b'"' ∷ b':' ∷ blank)
after_key_text opts = elim (Bool-cases (opts.pretty)) [
  | inl pretty ↦ (b' ' ∷ [], (refl, tt), rw pretty refl)
  | inr compact ↦ ([], tt, rw compact refl)
]

-- The same around a name.
key_around :
    (a e blank v m rest : Bytes)
    → (a ++ ((b'"' ∷ (e ++ b'"' ∷ b':' ∷ blank)) ++ (v ++ m))) ++ rest
      ≡ a ++ b'"' ∷ (e ++ b'"' ∷ b':' ∷ (blank ++ (v ++ (m ++ rest))))
key_around a e blank v m rest =
    split_around a (b'"' ∷ (e ++ b'"' ∷ b':' ∷ blank)) (v ++ m) rest
    ∙ ap (λ u. a ++ b'"' ∷ u)
        (append_assoc e (b'"' ∷ b':' ∷ blank) ((v ++ m) ++ rest)
          ∙ ap (λ u. e ++ b'"' ∷ b':' ∷ (blank ++ u)) (append_assoc v m rest))

key_length :
    (a e blank v m rest : Bytes)
    → length (a ++ b'"' ∷ (e ++ b'"' ∷ b':' ∷ (blank ++ (v ++ (m ++ rest)))))
      ≡ length a + (length e + (length blank + (length v + length (m ++ rest)))) + 3
key_length a e blank v m rest =
    let tail = v ++ (m ++ rest) in
    omega (
      arith,
      length-append a (b'"' ∷ (e ++ b'"' ∷ b':' ∷ (blank ++ tail))),
      length-append e (b'"' ∷ b':' ∷ (blank ++ tail)),
      length-append blank tail,
      length-append v (m ++ rest),
    )

module _ (c : ParseContext) (shortest : Double → Bytes) (opts : SerializeOptions) where
  pub members_child :
      (key : Bytes) (v : Value) (ms : Members)
      → ReadsValue c shortest opts v
      → ReadsMembers c shortest opts ms
      → ((n : ℕ) (t : Bytes) → printed (print_value shortest opts n v) ≡ some t → Starts t)
      → (acc : Members) (expect any : Bool) (n f d k : ℕ) (t rest : Bytes)
      → any && not expect ≡ false
      → AreFresh acc (member key v ms)
      → HasUniqueKeys (member key v ms)
      → printed (
          new_line opts (suc n)
          ++ (key_commands opts key
              ++ (print_value shortest opts (suc n) v ++ print_members shortest opts n false ms)))
        ≡ some t
      → suc (2 * length (t ++ rest)) < f
      → d + members_depth (member key v ms) ≤ c.max_depth
      → HasRoom c k (members_nodes (member key v ms))
      → parse_members f c d k expect any acc (t ++ rest)
        ≡ parsed
            (object (append_members acc (member key v ms)), k + members_nodes (member key v ms))
            rest
  unfolding node_count value_depth
  members_child key v ms reads more starts acc expect any n zero d k t rest ready fresh unique p
        fuel deep room =
      elim fuel [ ]
  members_child key v ms reads more starts acc expect any n (suc f) d k t rest ready fresh unique p
        fuel deep room =
      let (a, b1, ha, h1, e1) = split_printed (new_line opts (suc n)) _ t p in
      let (tk, b2, hk, h2, e2) = split_printed (key_commands opts key) _ b1 h1 in
      let (tv, tm, hv, hm, e3) = split_printed (print_value shortest opts (suc n) v) _ b2 h2 in
      let (e, written, named) = quoted_text (opts.escape_non_ascii) key (after_key opts) tk hk in
      let (blank, gap, colon) = after_key_text opts in
      let (ch, u, ev, black, mark) = starts (suc n) tv hv in
      let tail = tv ++ (tm ++ rest) in
      let name_text : tk ≡ b'"' ∷ (e ++ b'"' ∷ b':' ∷ blank) =
        named ∙ ap (λ x. b'"' ∷ (e ++ x)) colon in
      let at : t ++ rest ≡ a ++ b'"' ∷ (e ++ b'"' ∷ b':' ∷ (blank ++ tail)) =
        ap (λ t. t ++ rest)
          (e1 ∙ ap (λ b. a ++ b) (e2 ∙ ap (λ b. tk ++ b) e3 ∙ ap (λ k. k ++ (tv ++ tm)) name_text))
        ∙ key_around a e blank tv tm rest in
      let total = ap length at ∙ key_length a e blank tv tm rest in
      let head : tail ≡ ch ∷ (u ++ (tm ++ rest)) = ap (λ v. v ++ (tm ++ rest)) ev in
      let start = skip_whitespace-start ch (u ++ (tm ++ rest)) black in
      let met : skip_whitespace (t ++ rest) ≡ b'"' ∷ (e ++ b'"' ∷ b':' ∷ (blank ++ tail)) =
        ap skip_whitespace at
        ∙ skip_whitespace-gap a _ (new_line-IsGap opts (suc n) a ha)
        ∙ skip_whitespace-start b'"' (e ++ b'"' ∷ b':' ∷ (blank ++ tail)) refl in
      let name =
        key-written c acc (b'"' ∷ (e ++ b'"' ∷ b':' ∷ (blank ++ tail))) key (blank ++ tail)
          (fresh.0)
          (extract_string-written (opts.escape_non_ascii) key e (b':' ∷ (blank ++ tail)) written) in
      let read =
        reads (suc n) f d k tv (blank ++ tail) (tm ++ rest) hv
          (omega (arith, fuel, total, length-append tv (tm ++ rest))) (omega (arith, deep))
          (room_first c k (node_count v) (node_count v + members_nodes ms) (omega arith) room)
          (skip_whitespace-gap blank tail gap ∙ ap skip_whitespace head ∙ start ∙ sym head)
          (members-Stops shortest opts n ms tm rest hm) in
      members-value c f d k expect any acc (t ++ rest) (e ++ b'"' ∷ b':' ∷ (blank ++ tail))
        (blank ++ tail) (tm ++ rest) key (k + node_count v) v met ready (fresh.0) name read
      ∙ more (put_member key v acc) n f d (k + node_count v) tm rest hm
          (put_member-AreFresh key v acc ms (unique.0) (fresh.1)) (unique.1)
          (omega (arith, fuel, total)) (omega (arith, deep))
          (room_rest c k (node_count v) (members_nodes ms) room)
      ∙ ap (λ ns. parsed (object ns, (k + node_count v) + members_nodes ms) rest)
          (append-put_member key v acc ms (fresh.0))
      ∙ ap (λ m. parsed (object (append_members acc (member key v ms)), m) rest) (omega arith)
