-- ===== src/Parser/Document/Advance/Cases.antt =====
-- The branches of a round of parseValue, parseArray and parseObject, each advancing.
use pjson.Common.{
  ℕ, suc, ◌≤◌, ◌<◌, Bool, true, false, ◌&&◌, not, [], ◌∷◌, ltb, leb, ◌==◌, arith, length,
  Bool-cases, inl, inr,
}
use pjson.Common.Bytes.{Bytes}
use pjson.Value.{Value, Items, Members}
use pjson.Value.ArrayStorage.{push_item}
use pjson.Value.ObjectStorage.{find_member}
use pjson.Parser.{Parsed, parsed, rejected, stalled}
use pjson.Parser.Tokens.{ParseContext, new_node}
use pjson.Parser.Document.{
  Lead, quote, brace, bracket, numeric, other, Mark, closes, separates, starts, strays,
  open_container, store_member, parse_items, parse_members,
}
use pjson.Parser.Document.Advance.{AdvancesWithin}

-- The value that stands behind a comma or the opening of an array, and the loop after it.
pub after_item :
    (c : ParseContext) (f depth n : ℕ) (xs : Items) (r : Parsed (Value × ℕ))
    → ((k : ℕ) (ys : Items) (rest : Bytes)
        → length rest < n
        → AdvancesWithin n (parse_items f c depth k false true ys rest))
    → AdvancesWithin n r
    → AdvancesWithin n (elim r [
      | parsed p rest ↦ parse_items f c depth (p.1) false true (push_item xs (p.0)) rest
      | rejected message at ↦ rejected message at
      | stalled ↦ stalled
    ])
after_item c f depth n xs (parsed p rest) next h = next (p.1) (push_item xs (p.0)) rest h
after_item c f depth n xs (rejected message at) next h = h
after_item c f depth n xs stalled next h = h

pub after_member :
    (c : ParseContext) (f depth n : ℕ) (key : Bytes) (ms : Members) (r : Parsed (Value × ℕ))
    → ((k : ℕ) (ys : Members) (rest : Bytes)
        → length rest < n
        → AdvancesWithin n (parse_members f c depth k false true ys rest))
    → AdvancesWithin n r
    → AdvancesWithin n (elim r [
      | parsed p rest ↦
          parse_members f c depth
            (p.1)
            false
            true
            (store_member (c.duplicate_keys) key (p.0) ms (find_member key ms))
            rest
      | rejected message at ↦ rejected message at
      | stalled ↦ stalled
    ])
after_member c f depth n key ms (parsed p rest) next h =
    next (p.1) (store_member (c.duplicate_keys) key (p.0) ms (find_member key ms)) rest h
after_member c f depth n key ms (rejected message at) next h = h
after_member c f depth n key ms stalled next h = h

-- A container's own node is counted before its opening character is read.
abbrev pub OpensWithin : ℕ → Parsed ℕ → Type 0
OpensWithin n (parsed k at) = Unit
OpensWithin n (rejected message at) = length at ≤ n
OpensWithin n stalled = ⊥

pub open_container-opens :
    (c : ParseContext) (depth k n : ℕ) (s : Bytes)
    → length s ≤ n
    → OpensWithin n (open_container c depth k s)
unfolding open_container new_node
open_container-opens c depth k n s h = elim (Bool-cases (ltb (c.max_depth) (suc depth))) [
  | inl deep ↦ rw deep h
  | inr room ↦ elim (Bool-cases (not (c.max_nodes == 0) && leb (c.max_nodes) k)) [
    | inl full ↦ rw (room, full) h
    | inr free ↦ rw (room, free) tt
  ]
]

-- The loop of a container behind its opening character.
pub after_open :
    (n : ℕ) (r : Parsed ℕ) (loop : ℕ → Parsed (Value × ℕ))
    → ((k : ℕ) → AdvancesWithin n (loop k))
    → OpensWithin n r
    → AdvancesWithin n (elim r [
      | parsed k at ↦ loop k
      | rejected message at ↦ rejected message at
      | stalled ↦ stalled
    ])
after_open n (parsed k at) loop body h = body k
after_open n (rejected message at) loop body h = h
after_open n stalled loop body h = h

pub at_mark :
    (n : ℕ) (w : Bytes) (none_left : Parsed (Value × ℕ)) (g : ℕ → Bytes → Parsed (Value × ℕ))
    → AdvancesWithin n none_left
    → ((ch : ℕ) (t : Bytes) → length t < n → AdvancesWithin n (g ch t))
    → length w ≤ n
    → AdvancesWithin n (elim w [ [] ↦ none_left | ch ∷ t ↦ g ch t ])
at_mark n [] none_left g h k le = h
at_mark n (ch ∷ t) none_left g h k le = k ch t (omega (arith, le))

pub by_lead :
    (n : ℕ) (l : Lead) (a b c d e : Parsed (Value × ℕ))
    → AdvancesWithin n a
    → AdvancesWithin n b
    → AdvancesWithin n c
    → AdvancesWithin n d
    → AdvancesWithin n e
    → AdvancesWithin n (elim l [ quote ↦ a | brace ↦ b | bracket ↦ c | numeric ↦ d | other ↦ e ])
by_lead n quote a b c d e p q r s t = p
by_lead n brace a b c d e p q r s t = q
by_lead n bracket a b c d e p q r s t = r
by_lead n numeric a b c d e p q r s t = s
by_lead n other a b c d e p q r s t = t

pub by_mark :
    (n : ℕ) (m : Mark) (a b c d : Parsed (Value × ℕ))
    → AdvancesWithin n a
    → AdvancesWithin n b
    → AdvancesWithin n c
    → AdvancesWithin n d
    → AdvancesWithin n (elim m [ closes ↦ a | separates ↦ b | starts ↦ c | strays ↦ d ])
by_mark n closes a b c d p q r s = p
by_mark n separates a b c d p q r s = q
by_mark n starts a b c d p q r s = r
by_mark n strays a b c d p q r s = s

pub by_test :
    (n : ℕ) (b : Bool) (p q : Parsed (Value × ℕ))
    → AdvancesWithin n p
    → AdvancesWithin n q
    → AdvancesWithin n (elim b [ true ↦ p | false ↦ q ])
by_test n true p q hp hq = hp
by_test n false p q hp hq = hq

-- A member's name, and what follows its colon.
pub after_key :
    (n : ℕ) (r : Parsed Bytes) (next : Bytes → Bytes → Parsed (Value × ℕ))
    → ((key after : Bytes) → length after < n → AdvancesWithin n (next key after))
    → AdvancesWithin n r
    → AdvancesWithin n (elim r [
      | parsed key after ↦ next key after
      | rejected message at ↦ rejected message at
      | stalled ↦ stalled
    ])
after_key n (parsed key after) next h a = h key after a
after_key n (rejected message at) next h a = a
after_key n stalled next h a = a
