-- ===== src/RoundTrip/Gaps.antt =====
-- What surrounds a child in the text of a container: room and order, delimiters and their white space.
use pjson.Common.{
  ℕ, suc, ◌+◌, ◌≤◌, ◌≡◌, refl, sym, ap, ◌∙◌, subst, Bool, false, none, some, [], ◌∷◌, ◌++◌,
  append_assoc, arith, Bool-cases, if◌then◌else◌, inl, inr,
}
use pjson.Common.Bytes.{Bytes, bytes_eq, bytes_eq_iff}
use pjson.Value.{Value, Items, Members, no_items, item, no_members, member, Double}
use pjson.Value.ArrayStorage.{push_item}
use pjson.Value.ObjectStorage.{find_member, put_member, find_member-put_member}
use pjson.Parser.Tokens.{ParseContext}
use pjson.Serializer.{SerializeOptions, write}
use pjson.Serializer.Print.{new_line, print_value, print_items, print_members}
use pjson.Serializer.Sink.Fit.{printed}
use pjson.RoundTrip.Text.{split_printed, split_write, printed-single}
use pjson.RoundTrip.Leaf.{Stops, HasRoom}
use pjson.RoundTrip.Start.{IsGap, new_line-IsGap, gap-Stops}
use pjson.RoundTrip.Readable.{append_items, append_members, AreFresh}

pub room_first : (c : ParseContext) (k m n : ℕ) → m ≤ n → HasRoom c k n → HasRoom c k m
room_first c k m n h (inl e) = inl e
room_first c k m n h (inr e) = inr (omega (arith, e, h))

pub room_rest : (c : ParseContext) (k m n : ℕ) → HasRoom c k (m + n) → HasRoom c (k + m) n
room_rest c k m n (inl e) = inl e
room_rest c k m n (inr e) = inr (omega (arith, e))

pub room_inside : (c : ParseContext) (k n : ℕ) → HasRoom c k (suc n) → HasRoom c (suc k) n
room_inside c k n (inl e) = inl e
room_inside c k n (inr e) = inr (omega (arith, e))

pub append_items-nil : (xs : Items) → append_items xs no_items ≡ xs
append_items-nil no_items = refl
append_items-nil (item v xs) = ap (item v) (append_items-nil xs)

pub append_members-nil : (ms : Members) → append_members ms no_members ≡ ms
append_members-nil no_members = refl
append_members-nil (member k v ms) = ap (member k v) (append_members-nil ms)

pub append-push_item :
    (acc : Items) (v : Value) (xs : Items)
    → append_items (push_item acc v) xs ≡ append_items acc (item v xs)
unfolding push_item
append-push_item no_items v xs = refl
append-push_item (item u acc) v xs = ap (item u) (append-push_item acc v xs)

find-later :
    (k j : Bytes) (v : Value) (ms : Members)
    → find_member k (member j v ms) ≡ none
    → (bytes_eq j k ≡ false) × (find_member k ms ≡ none)
unfolding find_member
find-later k j v ms = elim (Bool-cases (bytes_eq j k)) [
  | inl same ↦ rw same (λ h. absurd cc)
  | inr differs ↦ rw differs (λ h. (refl, h))
]

pub append-put_member :
    (k : Bytes) (v : Value) (acc ms : Members)
    → find_member k acc ≡ none
    → append_members (put_member k v acc) ms ≡ append_members acc (member k v ms)
unfolding put_member
append-put_member k v no_members ms h = refl
append-put_member k v (member j u acc) ms h =
    let (differs, later) = find-later k j u acc h in
    rw differs (ap (member j u) (append-put_member k v acc ms later))

pub put_member-AreFresh :
    (k : Bytes) (v : Value) (acc ms : Members)
    → find_member k ms ≡ none
    → AreFresh acc ms
    → AreFresh (put_member k v acc) ms
put_member-AreFresh k v acc no_members h fresh = tt
put_member-AreFresh k v acc (member j u ms) h (this, fresh) =
    let (differs, later) = find-later k j u ms h in
    let other : bytes_eq k j ≡ false =
      ground (arith, differs, bytes_eq_iff k j, bytes_eq_iff j k) in
    (
      find_member-put_member k j v acc
          ∙ ap (λ (b : Bool). if b then some v else find_member j acc) other
          ∙ this,
      put_member-AreFresh k v acc ms later fresh,
    )

pub empty-AreFresh : (ms : Members) → AreFresh no_members ms
unfolding find_member
empty-AreFresh no_members = tt
empty-AreFresh (member k v ms) = (refl, empty-AreFresh ms)

-- White space and a closing delimiter.
pub closing_text :
    (opts : SerializeOptions) (n close : ℕ) (t : Bytes)
    → printed (new_line opts n ++ write (close ∷ []) ∷ []) ≡ some t
    → (a : Bytes) × IsGap a × ((rest : Bytes) → t ++ rest ≡ a ++ close ∷ rest)
closing_text opts n close t h =
    let (a, q, ha, hq, e) = split_printed (new_line opts n) (write (close ∷ []) ∷ []) t h in
    let same : t ≡ a ++ close ∷ [] = e ∙ ap (λ u. a ++ u) (printed-single (close ∷ []) q hq) in
    (
      a,
      new_line-IsGap opts n a ha,
      λ rest. ap (λ u. u ++ rest) same ∙ append_assoc a (close ∷ []) rest,
    )

pub items-Stops :
    (shortest : Double → Bytes) (opts : SerializeOptions) (n : ℕ) (xs : Items) (t rest : Bytes)
    → printed (print_items shortest opts n false xs) ≡ some t
    → Stops (t ++ rest)
unfolding print_value
items-Stops shortest opts n no_items t rest h =
    let (a, gap, same) = closing_text opts n b']' t h in
    subst Stops (sym (same rest)) (gap-Stops a (b']' ∷ rest) gap (refl, refl, refl))
items-Stops shortest opts n (item v xs) t rest h =
    let (b, hb, e) = split_write (b',' ∷ []) _ t h in
    subst (λ t. Stops (t ++ rest)) (sym e) (refl, refl, refl)

pub members-Stops :
    (shortest : Double → Bytes) (opts : SerializeOptions) (n : ℕ) (ms : Members) (t rest : Bytes)
    → printed (print_members shortest opts n false ms) ≡ some t
    → Stops (t ++ rest)
unfolding print_value
members-Stops shortest opts n no_members t rest h =
    let (a, gap, same) = closing_text opts n b'}' t h in
    subst Stops (sym (same rest)) (gap-Stops a (b'}' ∷ rest) gap (refl, refl, refl))
members-Stops shortest opts n (member k v ms) t rest h =
    let (b, hb, e) = split_write (b',' ∷ []) _ t h in
    subst (λ t. Stops (t ++ rest)) (sym e) (refl, refl, refl)
