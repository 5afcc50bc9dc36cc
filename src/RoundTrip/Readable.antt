-- ===== src/RoundTrip/Readable.antt =====
-- The documents whose text the parser reads back, and what reading back is for each part of one.
use pjson.Common.{ℕ, suc, ◌+◌, ◌*◌, ◌^◌, ◌≤◌, ◌<◌, ◌≡◌, true, false, none, some, ◌++◌, length}
use pjson.Common.Bytes.{Bytes}
use pjson.Value.{
  Value, Items, Members, int, uint, double, array, object, no_items, item, no_members, member,
  Double,
}
use pjson.Value.Nodes.{node_count, items_nodes, members_nodes}
use pjson.Value.ObjectStorage.{find_member, HasUniqueKeys}
use pjson.Parser.{parsed}
use pjson.Parser.Tokens.{ParseContext, skip_whitespace}
use pjson.Parser.Document.{parse_value, parse_items, parse_members}
use pjson.Parser.Document.Depth.{value_depth, items_depth, members_depth}
use pjson.Serializer.{SerializeOptions}
use pjson.Serializer.Print.{is_finite, print_value, print_items, print_members}
use pjson.Serializer.Sink.Fit.{printed}
use pjson.RoundTrip.Double.{IsSpelled}
use pjson.RoundTrip.Leaf.{Stops, HasRoom, IsInt64}

module _ (c : ParseContext) (shortest : Double → Bytes) where
  -- Integers are in the range of their word, the unsigned ones beyond int64_t as the parser stores
  -- them; a double is finite, and Ryu and the stream do with it what they document; a key occurs once.
  unfoldable mutual
    pub IsReadable : Value → Type 0
    IsReadable (int z) = IsInt64 z
    IsReadable (uint n) = (2 ^ 63 ≤ n) × (n < 2 ^ 64)
    IsReadable (double d) = (is_finite d ≡ true) × IsSpelled shortest (c.extract) d
    IsReadable (array xs) = AreReadable xs
    IsReadable (object ms) = HasUniqueKeys ms × MembersAreReadable ms
    IsReadable _ = Unit

    pub AreReadable : Items → Type 0
    AreReadable no_items = Unit
    AreReadable (item v xs) = IsReadable v × AreReadable xs

    pub MembersAreReadable : Members → Type 0
    MembersAreReadable no_members = Unit
    MembersAreReadable (member k v ms) = IsReadable v × MembersAreReadable ms

abbrev pub append_items : Items → Items → Items
append_items no_items ys = ys
append_items (item v xs) ys = item v (append_items xs ys)

abbrev pub append_members : Members → Members → Members
append_members no_members ns = ns
append_members (member k v ms) ns = member k v (append_members ms ns)

-- No key of ns is a key of ms.
abbrev pub AreFresh : Members → Members → Type 0
AreFresh ms no_members = Unit
AreFresh ms (member k v ns) = (find_member k ms ≡ none) × AreFresh ms ns

-- With rounds, depth and nodes for it, the text of a value is read back as the value.
module _ (c : ParseContext) (shortest : Double → Bytes) (opts : SerializeOptions) where
  abbrev pub ReadsValue : Value → Type 0
  ReadsValue v =
      (n f d k : ℕ) (t w rest : Bytes)
      → printed (print_value shortest opts n v) ≡ some t
      → 2 * length (t ++ rest) < f
      → d + value_depth v ≤ c.max_depth
      → HasRoom c k (node_count v)
      → skip_whitespace w ≡ t ++ rest
      → Stops rest
      → parse_value f c d k w ≡ parsed (v, k + node_count v) rest

  -- The same for the children that are left, from a child's end.
  abbrev pub ReadsItems : Items → Type 0
  ReadsItems xs =
      (acc : Items) (n f d k : ℕ) (t rest : Bytes)
      → printed (print_items shortest opts n false xs) ≡ some t
      → suc (2 * length (t ++ rest)) < f
      → d + items_depth xs ≤ c.max_depth
      → HasRoom c k (items_nodes xs)
      → parse_items f c d k false true acc (t ++ rest)
        ≡ parsed (array (append_items acc xs), k + items_nodes xs) rest

  abbrev pub ReadsMembers : Members → Type 0
  ReadsMembers ms =
      (acc : Members) (n f d k : ℕ) (t rest : Bytes)
      → printed (print_members shortest opts n false ms) ≡ some t
      → AreFresh acc ms
      → HasUniqueKeys ms
      → suc (2 * length (t ++ rest)) < f
      → d + members_depth ms ≤ c.max_depth
      → HasRoom c k (members_nodes ms)
      → parse_members f c d k false true acc (t ++ rest)
        ≡ parsed (object (append_members acc ms), k + members_nodes ms) rest
