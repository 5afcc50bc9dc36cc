-- ===== src/Value/ObjectStorage.antt =====
-- The operations of std::unordered_map on an object's storage (pjsonImpl::ObjectStorage).
use pjson.Common.{
  ℕ, suc, ◌≡◌, refl, Option, none, some, List, [], ◌∷◌, arith, if◌then◌else◌, Bool-cases, inl, inr,
}
use pjson.Common.Bytes.{Bytes, bytes_eq, bytes_eq_iff, bytes_eq_refl, eq_of_bytes_eq}
use pjson.Value.{Value, Members, no_members, member}

abbrev pub members_size : Members → ℕ
members_size no_members = 0
members_size (member k v ms) = suc (members_size ms)

unfoldable pub find_member : Bytes → Members → Option Value
find_member k no_members = none
find_member k (member j v ms) = if bytes_eq j k then some v else find_member k ms

-- Assign the mapped value of a key, which is inserted if it is not there.
unfoldable pub put_member : Bytes → Value → Members → Members
put_member k w no_members = member k w no_members
put_member k w (member j v ms) =
    if bytes_eq j k then member j w ms else member j v (put_member k w ms)

unfoldable pub erase_member : Bytes → Members → Members
erase_member k no_members = no_members
erase_member k (member j v ms) = if bytes_eq j k then ms else member j v (erase_member k ms)

abbrev pub members_keys : Members → List Bytes
members_keys no_members = []
members_keys (member k v ms) = k ∷ members_keys ms

abbrev pub members_values : Members → List Value
members_values no_members = []
members_values (member k v ms) = v ∷ members_values ms

-- A map holds a key once.
abbrev pub HasUniqueKeys : Members → Type 0
HasUniqueKeys no_members = Unit
HasUniqueKeys (member k v ms) = (find_member k ms ≡ none) × HasUniqueKeys ms

pub find_member-put_member :
    (k j : Bytes) (w : Value) (ms : Members)
    → find_member j (put_member k w ms) ≡ (if bytes_eq k j then some w else find_member j ms)
unfolding find_member put_member
find_member-put_member k j w no_members = refl
find_member-put_member k j w (member i v ms) =
    ground
      (arith, bytes_eq_iff k j, bytes_eq_iff i k, bytes_eq_iff i j, find_member-put_member k j w ms)

pub find_member-put_member_self :
    (k : Bytes) (w : Value) (ms : Members) → find_member k (put_member k w ms) ≡ some w
find_member-put_member_self k w ms = rw (find_member-put_member k k w ms, bytes_eq_refl k) refl

pub find_member-erase_member :
    (k j : Bytes) (ms : Members)
    → HasUniqueKeys ms
    → find_member j (erase_member k ms) ≡ (if bytes_eq k j then none else find_member j ms)
unfolding find_member erase_member
find_member-erase_member k j no_members h = ground arith
find_member-erase_member k j (member i v ms) h = elim (Bool-cases (bytes_eq i k)) [
  | inl e ↦
      let same = eq_of_bytes_eq i k e in
      ground (arith, bytes_eq_iff i k, bytes_eq_iff k j, bytes_eq_iff i j, same)
  | inr e ↦ ground (
    arith,
    bytes_eq_iff k j,
    bytes_eq_iff i k,
    bytes_eq_iff i j,
    find_member-erase_member k j ms h.1,
  )
]

pub put_member-HasUniqueKeys :
    (k : Bytes) (w : Value) (ms : Members) → HasUniqueKeys ms → HasUniqueKeys (put_member k w ms)
unfolding put_member find_member
put_member-HasUniqueKeys k w no_members h = (refl, tt)
put_member-HasUniqueKeys k w (member j v ms) h = elim (Bool-cases (bytes_eq j k)) [
  | inl e ↦ rw e h
  | inr e ↦ rw e (
    ground (arith, find_member-put_member k j w ms, bytes_eq_iff k j, bytes_eq_iff j k),
    put_member-HasUniqueKeys k w ms h.1,
  )
]

pub erase_member-HasUniqueKeys :
    (k : Bytes) (ms : Members) → HasUniqueKeys ms → HasUniqueKeys (erase_member k ms)
unfolding erase_member find_member
erase_member-HasUniqueKeys k no_members h = tt
erase_member-HasUniqueKeys k (member j v ms) h = elim (Bool-cases (bytes_eq j k)) [
  | inl e ↦ rw e h.1
  | inr e ↦
      rw e
        (ground (arith, find_member-erase_member k j ms h.1), erase_member-HasUniqueKeys k ms h.1)
]
