-- ===== src/Parser/Document/Depth/Cases.antt =====
-- The branches of a round of parseValue, parseArray and parseObject, each within the depth limit.
use pjson.Common.{
  ℕ, suc, ◌+◌, ◌-◌, ◌≤◌, Bool, true, false, [], ◌∷◌, arith, Bool-cases, inl, inr, if◌then◌else◌,
  ltb,
}
use pjson.Common.Bytes.{Bytes}
use pjson.Value.{Value, Items, Members}
use pjson.Value.ArrayStorage.{push_item}
use pjson.Value.ObjectStorage.{find_member}
use pjson.Parser.{Parsed, parsed, rejected, stalled}
use pjson.Parser.Tokens.{ParseContext, new_node}
use pjson.Parser.Document.{
  Lead, quote, brace, bracket, numeric, other, Mark, closes, separates, starts, strays,
  open_container, store_member, parse_items, parse_members,
}
use pjson.Parser.Document.Depth.{
  items_depth, members_depth, NestsWithin, items_depth-push_item, members_depth-store_member,
}

pub after_item :
    (c : ParseContext) (f m d : ℕ) (xs : Items) (r : Parsed (Value × ℕ))
    → ((k : ℕ) (ys : Items) (rest : Bytes)
        → items_depth ys + d ≤ m
        → NestsWithin (suc m) d (parse_items f c d k false true ys rest))
    → items_depth xs + d ≤ m
    → NestsWithin m d r
    → NestsWithin (suc m) d (elim r [
      | parsed p rest ↦ parse_items f c d (p.1) false true (push_item xs (p.0)) rest
      | rejected message at ↦ rejected message at
      | stalled ↦ stalled
    ])
after_item c f m d xs (parsed p rest) next h k =
    next (p.1) (push_item xs (p.0)) rest (
      omega
        (arith, items_depth-push_item xs (p.0) (m - d) (omega (arith, h)) (omega (arith, k)), h))
after_item c f m d xs (rejected message at) next h k = tt
after_item c f m d xs stalled next h k = tt

pub after_member :
    (c : ParseContext) (f m d : ℕ) (key : Bytes) (ms : Members) (r : Parsed (Value × ℕ))
    → ((k : ℕ) (ys : Members) (rest : Bytes)
        → members_depth ys + d ≤ m
        → NestsWithin (suc m) d (parse_members f c d k false true ys rest))
    → members_depth ms + d ≤ m
    → NestsWithin m d r
    → NestsWithin (suc m) d (elim r [
      | parsed p rest ↦
          parse_members f c d
            (p.1)
            false
            true
            (store_member (c.duplicate_keys) key (p.0) ms (find_member key ms))
            rest
      | rejected message at ↦ rejected message at
      | stalled ↦ stalled
    ])
after_member c f m d key ms (parsed p rest) next h k =
    next (p.1) (store_member (c.duplicate_keys) key (p.0) ms (find_member key ms)) rest (
      omega (
        arith,
        members_depth-store_member (c.duplicate_keys) key (p.0) ms (find_member key ms) (m - d)
            (omega (arith, h)) (omega (arith, k)),
        h,
      ))
after_member c f m d key ms (rejected message at) next h k = tt
after_member c f m d key ms stalled next h k = tt

pub after_key :
    (m d : ℕ) (r : Parsed Bytes) (next : Bytes → Bytes → Parsed (Value × ℕ))
    → ((key after : Bytes) → NestsWithin m d (next key after))
    → NestsWithin m d (elim r [
      | parsed key after ↦ next key after
      | rejected message at ↦ rejected message at
      | stalled ↦ stalled
    ])
after_key m d (parsed key after) next h = h key after
after_key m d (rejected message at) next h = tt
after_key m d stalled next h = tt

-- The loop of a container runs only within the limit.
pub after_open :
    (c : ParseContext) (d k : ℕ) (s : Bytes) (loop : ℕ → Parsed (Value × ℕ))
    → ((n : ℕ) → suc d ≤ c.max_depth → NestsWithin (suc (c.max_depth)) (suc d) (loop n))
    → NestsWithin (c.max_depth) d (elim (open_container c d k s) [
      | parsed n at ↦ loop n
      | rejected message at ↦ rejected message at
      | stalled ↦ stalled
    ])
unfolding open_container
after_open c d k s loop h = elim (Bool-cases (ltb (c.max_depth) (suc d))) [
  | inl deep ↦ rw deep tt
  | inr room ↦ rw room (opened (ground arith) (new_node c k s))
]
  where
    opened :
        suc d ≤ c.max_depth
        → (r : Parsed ℕ)
        → NestsWithin (c.max_depth) d (elim r [
          | parsed n at ↦ loop n
          | rejected message at ↦ rejected message at
          | stalled ↦ stalled
        ])
    opened fits (parsed n at) = lower (loop n) (h n fits)
      where
        lower :
            (r : Parsed (Value × ℕ))
            → NestsWithin (suc (c.max_depth)) (suc d) r
            → NestsWithin (c.max_depth) d r
        lower (parsed p rest) g = omega (arith, g)
        lower (rejected message at) g = tt
        lower stalled g = tt
    opened fits (rejected message at) = tt
    opened fits stalled = tt

pub at_mark :
    (m d : ℕ) (w : Bytes) (none_left : Parsed (Value × ℕ)) (g : ℕ → Bytes → Parsed (Value × ℕ))
    → NestsWithin m d none_left
    → ((ch : ℕ) (t : Bytes) → NestsWithin m d (g ch t))
    → NestsWithin m d (elim w [ [] ↦ none_left | ch ∷ t ↦ g ch t ])
at_mark m d [] none_left g h k = h
at_mark m d (ch ∷ t) none_left g h k = k ch t

pub by_lead :
    (m d : ℕ) (l : Lead) (a b c e o : Parsed (Value × ℕ))
    → NestsWithin m d a
    → NestsWithin m d b
    → NestsWithin m d c
    → NestsWithin m d e
    → NestsWithin m d o
    → NestsWithin m d (elim l [ quote ↦ a | brace ↦ b | bracket ↦ c | numeric ↦ e | other ↦ o ])
by_lead m d quote a b c e o p q r s t = p
by_lead m d brace a b c e o p q r s t = q
by_lead m d bracket a b c e o p q r s t = r
by_lead m d numeric a b c e o p q r s t = s
by_lead m d other a b c e o p q r s t = t

pub by_mark :
    (m d : ℕ) (l : Mark) (a b c e : Parsed (Value × ℕ))
    → NestsWithin m d a
    → NestsWithin m d b
    → NestsWithin m d c
    → NestsWithin m d e
    → NestsWithin m d (elim l [ closes ↦ a | separates ↦ b | starts ↦ c | strays ↦ e ])
by_mark m d closes a b c e p q r s = p
by_mark m d separates a b c e p q r s = q
by_mark m d starts a b c e p q r s = r
by_mark m d strays a b c e p q r s = s

pub by_test :
    (m d : ℕ) (b : Bool) (p q : Parsed (Value × ℕ))
    → NestsWithin m d p
    → NestsWithin m d q
    → NestsWithin m d (elim b [ true ↦ p | false ↦ q ])
by_test m d true p q hp hq = hp
by_test m d false p q hp hq = hq

pub either :
    (m d : ℕ) (b : Bool) (p q : Parsed (Value × ℕ))
    → NestsWithin m d p
    → NestsWithin m d q
    → NestsWithin m d (if b then p else q)
either m d true p q hp hq = hp
either m d false p q hp hq = hq
