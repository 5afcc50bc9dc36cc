-- ===== src/RoundTrip/Rounds.antt =====
-- Single rounds of parseValue, parseArray and parseObject at a known next character.
use pjson.Common.{
  ℕ, suc, ◌≤◌, ◌≡◌, refl, ap, ◌∙◌, Bool, true, false, ◌&&◌, not, Option, none, ◌∷◌, arith, ltb,
  if◌then◌else◌,
}
use pjson.Common.Bytes.{Bytes}
use pjson.Value.{Value, Items, Members, array, object, no_items, no_members}
use pjson.Value.ArrayStorage.{push_item}
use pjson.Value.ObjectStorage.{find_member, put_member}
use pjson.Parser.{parsed, rejected, duplicate_object_key}
use pjson.Parser.Tokens.{
  ParseContext, skip_whitespace, skip_colon, extract_string, parse_string, parse_number,
  parse_keyword,
}
use pjson.Parser.Document.{
  numeric, other, lead, starts, array_mark, open_container, checked_key, is_duplicate, is_rejecting,
  parse_key, parse_value, parse_items, parse_members,
}
use pjson.RoundTrip.Leaf.{HasRoom, new_node-room}

module _ (c : ParseContext) (f d k : ℕ) where
  pub value-string :
      (w t : Bytes)
      → skip_whitespace w ≡ b'"' ∷ t
      → parse_value (suc f) c d k w ≡ parse_string c k (b'"' ∷ t)
  unfolding parse_value
  value-string w t h = rw (h, parse_value) refl

  pub value-number :
      (w t : Bytes) (ch : ℕ)
      → skip_whitespace w ≡ ch ∷ t
      → lead ch ≡ numeric
      → parse_value (suc f) c d k w ≡ parse_number c k (ch ∷ t)
  unfolding parse_value
  value-number w t ch h l = rw (h, parse_value) (rw l refl)

  pub value-keyword :
      (w t : Bytes) (ch : ℕ)
      → skip_whitespace w ≡ ch ∷ t
      → lead ch ≡ other
      → parse_value (suc f) c d k w ≡ parse_keyword c k (ch ∷ t)
  unfolding parse_value
  value-keyword w t ch h l = rw (h, parse_value) (rw l refl)

  open-room :
      (s : Bytes) → suc d ≤ c.max_depth → HasRoom c k 1 → open_container c d k s ≡ parsed (suc k) s
  unfolding open_container
  open-room s deep room =
      let shallow : ltb (c.max_depth) (suc d) ≡ false = ground arith in
      rw shallow (new_node-room c k s room)

  pub value-array :
      (w t : Bytes)
      → skip_whitespace w ≡ b'[' ∷ t
      → suc d ≤ c.max_depth
      → HasRoom c k 1
      → parse_value (suc f) c d k w ≡ parse_items f c (suc d) (suc k) false false no_items t
  unfolding parse_value
  value-array w t h deep room = rw (h, parse_value) (rw (open-room (b'[' ∷ t) deep room) refl)

  pub value-object :
      (w t : Bytes)
      → skip_whitespace w ≡ b'{' ∷ t
      → suc d ≤ c.max_depth
      → HasRoom c k 1
      → parse_value (suc f) c d k w ≡ parse_members f c (suc d) (suc k) false false no_members t
  unfolding parse_value
  value-object w t h deep room = rw (h, parse_value) (rw (open-room (b'{' ∷ t) deep room) refl)

  pub items-close :
      (any : Bool) (xs : Items) (s rest : Bytes)
      → skip_whitespace s ≡ b']' ∷ rest
      → parse_items (suc f) c d k false any xs s ≡ parsed (array xs, k) rest
  unfolding parse_items
  items-close any xs s rest h = rw (h, parse_items) refl

  pub items-comma :
      (xs : Items) (s : Bytes)
      → parse_items (suc f) c d k false true xs (b',' ∷ s) ≡ parse_items f c d k true true xs s
  unfolding parse_items skip_whitespace
  items-comma xs s = refl

  pub items-value :
      (expect any : Bool) (xs : Items) (s u rest : Bytes) (ch k' : ℕ) (v : Value)
      → skip_whitespace s ≡ ch ∷ u
      → array_mark ch ≡ starts
      → any && not expect ≡ false
      → parse_value f c d k (ch ∷ u) ≡ parsed (v, k') rest
      → parse_items (suc f) c d k expect any xs s
        ≡ parse_items f c d k' false true (push_item xs v) rest
  unfolding parse_items
  items-value expect any xs s u rest ch k' v h m ready read =
      rw (h, parse_items) (rw (m, ready) (rw (read, parse_items) refl))

  pub members-close :
      (any : Bool) (ms : Members) (s rest : Bytes)
      → skip_whitespace s ≡ b'}' ∷ rest
      → parse_members (suc f) c d k false any ms s ≡ parsed (object ms, k) rest
  unfolding parse_members
  members-close any ms s rest h = rw (h, parse_members) refl

  pub members-comma :
      (ms : Members) (s : Bytes)
      → parse_members (suc f) c d k false true ms (b',' ∷ s) ≡ parse_members f c d k true true ms s
  unfolding parse_members skip_whitespace
  members-comma ms s = refl

  pub members-value :
      (expect any : Bool) (ms : Members) (s u after rest key : Bytes) (k' : ℕ) (v : Value)
      → skip_whitespace s ≡ b'"' ∷ u
      → any && not expect ≡ false
      → find_member key ms ≡ none
      → parse_key c ms (b'"' ∷ u) ≡ parsed key after
      → parse_value f c d k after ≡ parsed (v, k') rest
      → parse_members (suc f) c d k expect any ms s
        ≡ parse_members f c d k' false true (put_member key v ms) rest
  unfolding parse_members
  members-value expect any ms s u after rest key k' v h ready fresh name read =
      rw (h, parse_members)
        (rw (ready) (rw (name, parse_members) (rw (read, parse_members) (rw fresh refl))))

pub key-written :
    (c : ParseContext) (ms : Members) (s key after : Bytes)
    → find_member key ms ≡ none
    → extract_string s ≡ parsed key (b':' ∷ after)
    → parse_key c ms s ≡ parsed key after
unfolding parse_key skip_colon
key-written c ms s key after fresh h =
    ap (checked_key c ms s) h
    ∙ ap
        (λ (o : Option Value).
          if is_duplicate o && is_rejecting (c.duplicate_keys)
          then rejected duplicate_object_key s
          else parsed key after)
        fresh
