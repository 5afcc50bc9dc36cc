-- ===== src/Value/Mutation/Effects.antt =====
-- What the lookups of pjsonlib/src/pjson.cpp see after its mutating members.
use pjson.Common.{
  ℕ, zero, suc, ◌+◌, ◌-◌, ◌^◌, ◌≤◌, ◌<◌, ◌≡◌, ◌⊎◌, refl, ap, sym, ◌∙◌, Option, none, some, List, [],
  ◌∷◌, ◌++◌, append_assoc, append-nil, length, take, drop, ltb, ◌==◌, if◌then◌else◌, Bool-cases,
  Option-cases, inl, inr, arith,
}
use pjson.Common.Bytes.{Bytes, bytes_eq, bytes_eq_iff}
use pjson.Value.{
  get_type, Value, Items, Members, JsonType, json_null, json_array, json_object, null, array,
  object, no_items, item, no_members,
}
use pjson.Value.ArrayStorage.{items_size, items_list, push_item, erase_item}
use pjson.Value.ObjectStorage.{
  find_member, HasUniqueKeys, find_member-put_member, find_member-erase_member,
}
use pjson.Value.Access.{find, has_key, size}
use pjson.Value.Mutation.{
  reset_to, clear, erase_key, erase_index, push_back, insert_or_assign, index_key, grow,
  index_items, index_element,
}

-- The members of a value, which has none unless it is an object.
abbrev pub members_of : Value → Members
members_of (object ms) = ms
members_of _ = no_members

-- The elements of a value, which has none unless it is an array.
abbrev pub elements : Value → List Value
elements (array xs) = items_list xs
elements _ = []

abbrev pub or_made : Option Value → Value
or_made none = null
or_made (some v) = v

find-insert_or_assign :
    (key j : Bytes) (w v : Value)
    → find (insert_or_assign key w v) j ≡ (if bytes_eq key j then some w else find v j)
unfolding find insert_or_assign find_member
find-insert_or_assign key j w (object ms) = find_member-put_member key j w ms
find-insert_or_assign key j w v = refl

find-index_key :
    (key j : Bytes) (v : Value)
    → find (index_key key v) j ≡ (if bytes_eq key j then some (or_made (find v key)) else find v j)
unfolding find index_key find_member
find-index_key key j (object ms) = elim (Option-cases (find_member key ms)) [
  | inl e ↦ rw (e, index_key) (find_member-put_member key j null ms)
  | inr (w, e) ↦
      rw (e, index_key)
        (elim (Bool-cases (bytes_eq key j)) [
          | inl same ↦
              let k : key ≡ j = (bytes_eq_iff key j).0 same in
              rw same (ap (λ i. find_member i ms) (sym k) ∙ e)
          | inr differs ↦ rw differs refl
        ])
]
find-index_key key j v = refl

find-erase_key :
    (key j : Bytes) (v : Value)
    → HasUniqueKeys (members_of v)
    → ((erase_key key v).0 ≡ has_key v key)
      × (find ((erase_key key v).1) j ≡ (if bytes_eq key j then none else find v j))
unfolding find erase_key has_key find_member
find-erase_key key j (object ms) h = elim (Option-cases (find_member key ms)) [
  | inl e ↦
      rw (e, erase_key)
        (
          refl,
          elim (Bool-cases (bytes_eq key j)) [
            | inl same ↦
                let k : key ≡ j = (bytes_eq_iff key j).0 same in
                rw same (ap (λ i. find_member i ms) (sym k) ∙ e)
            | inr differs ↦ rw differs refl
          ],
        )
  | inr (w, e) ↦ rw (e, erase_key) (refl, find_member-erase_member key j ms h)
]
find-erase_key key j v h = (
  refl,
  elim (Bool-cases (bytes_eq key j)) [ inl same ↦ rw same refl | inr differs ↦ rw differs refl ],
)

elements-push_item :
    (xs : Items) (w : Value) → items_list (push_item xs w) ≡ items_list xs ++ w ∷ []
unfolding push_item
elements-push_item no_items w = refl
elements-push_item (item v xs) w = ap (λ l. v ∷ l) (elements-push_item xs w)

elements-push_back : (w v : Value) → elements (push_back w v) ≡ elements v ++ w ∷ []
unfolding push_back
elements-push_back w (array xs) = elements-push_item xs w
elements-push_back w v = refl

elements-erase_item :
    (xs : Items) (i : ℕ)
    → items_list (erase_item xs i) ≡ take i (items_list xs) ++ drop (suc i) (items_list xs)
unfolding erase_item
elements-erase_item no_items zero = refl
elements-erase_item no_items (suc i) = refl
elements-erase_item (item v xs) zero = refl
elements-erase_item (item v xs) (suc i) = ap (λ l. v ∷ l) (elements-erase_item xs i)

abbrev pub nulls : ℕ → List Value
nulls zero = []
nulls (suc n) = null ∷ nulls n

elements-grow : (n : ℕ) (xs : Items) → items_list (grow n xs) ≡ items_list xs ++ nulls n
unfolding grow
elements-grow zero xs = sym (append-nil (items_list xs))
elements-grow (suc n) xs =
    elements-grow n (push_item xs null)
    ∙ ap (λ l. l ++ nulls n) (elements-push_item xs null)
    ∙ append_assoc (items_list xs) (null ∷ []) (nulls n)

size_length : (xs : Items) → length (items_list xs) ≡ items_size xs
size_length no_items = refl
size_length (item v xs) = ap suc (size_length xs)

take-drop_beyond : (l : List Value) (i : ℕ) → length l ≤ i → l ≡ take i l ++ drop (suc i) l
take-drop_beyond [] zero h = refl
take-drop_beyond [] (suc i) h = refl
take-drop_beyond (v ∷ l) zero h = elim h [ ]
take-drop_beyond (v ∷ l) (suc i) h = ap (λ m. v ∷ m) (take-drop_beyond l i (omega (arith, h)))

elements-erase_index :
    (i : ℕ) (v : Value)
    → ((erase_index i v).0 ≡ ltb i (length (elements v)))
      × (elements ((erase_index i v).1) ≡ take i (elements v) ++ drop (suc i) (elements v))
unfolding erase_index
elements-erase_index i (array xs) = elim (Bool-cases (ltb i (items_size xs))) [
  | inl below ↦ rw below (sym (ap (ltb i) (size_length xs) ∙ below), elements-erase_item xs i)
  | inr beyond ↦ rw beyond (
    sym (ap (ltb i) (size_length xs) ∙ beyond),
    take-drop_beyond (items_list xs) i (ground (arith, beyond, size_length xs)),
  )
]
elements-erase_index i v = (ground arith, take-drop_beyond [] i (omega arith))

-- operator[] at an index: the array is long enough for it and new elements are null, or the call throws,
-- for too much growth or at the last index.
abbrev pub Indexed : ℕ → Value → Option Value → Type 0
Indexed i v (some u) =
    (elements u ≡ elements v ++ nulls (i + 1 - length (elements v)))
    × (i + 1 - length (elements v) ≤ 1000000)
Indexed i v none =
    (length (elements v) ≤ i) × ((1000000 < i + 1 - length (elements v)) ⊎ (i ≡ 2 ^ 64 - 1))

index_items-Indexed : (i : ℕ) (xs : Items) → Indexed i (array xs) (index_items i xs)
index_items-Indexed i xs =
    let size = size_length xs in
    elim (Bool-cases (ltb i (items_size xs))) [
      | inl below ↦
          let none_new : i + 1 - length (items_list xs) ≡ 0 = ground (arith, below, size) in
          rw below (
            sym (append-nil (items_list xs)) ∙ ap (λ n. items_list xs ++ nulls n) (sym none_new),
            omega (arith, none_new),
          )
      | inr beyond ↦ rw beyond (elim (Bool-cases (ltb 1000000 (i - items_size xs + 1))) [
        | inl far ↦ rw far (ground (arith, beyond, size), inl (ground (arith, beyond, far, size)))
        | inr near ↦ rw near (elim (Bool-cases (i == 2 ^ 64 - 1)) [
          | inl top ↦ rw top (ground (arith, beyond, size), inr (ground (arith, top)))
          | inr low ↦ rw low (
            elements-grow (i + 1 - items_size xs) xs
                ∙ ap (λ n. items_list xs ++ nulls (i + 1 - n)) (sym size),
            ground (arith, beyond, near, size),
          )
        ])
      ])
    ]

index_element-Indexed : (i : ℕ) (v : Value) → Indexed i v (index_element i v)
unfolding index_element
index_element-Indexed i (array xs) = index_items-Indexed i xs
index_element-Indexed i v = index_items-Indexed i no_items

-- The type that clear leaves.
abbrev pub emptied : JsonType → JsonType
emptied json_array = json_array
emptied json_object = json_object
emptied _ = json_null

clear-reset_to : (v : Value) → (clear v ≡ reset_to (emptied (get_type v))) × (size (clear v) ≡ 0)
unfolding clear size reset_to
clear-reset_to (array xs) = (refl, refl)
clear-reset_to (object ms) = (refl, refl)
clear-reset_to v = (refl, refl)

reset_to-type : (t : JsonType) → get_type (reset_to t) ≡ t
unfolding reset_to
reset_to-type json_null = refl
reset_to-type t = refl

erase_key-type : (key : Bytes) (v : Value) → get_type ((erase_key key v).1) ≡ get_type v
unfolding erase_key
erase_key-type key (object ms) = elim (Option-cases (find_member key ms)) [
  | inl e ↦ rw (e, erase_key) refl
  | inr (w, e) ↦ rw (e, erase_key) refl
]
erase_key-type key v = refl

erase_index-type : (i : ℕ) (v : Value) → get_type ((erase_index i v).1) ≡ get_type v
unfolding erase_index
erase_index-type i (array xs) = elim (Bool-cases (ltb i (items_size xs))) [
  | inl e ↦ rw e refl
  | inr e ↦ rw e refl
]
erase_index-type i v = refl

-- The members of a value after a mutating call, at every key j: insertOrAssign and operator[] change just
-- the member at their key, to the value given and to null where it was missing, and erase takes away
-- just the member at its key, says whether there was one and keeps the type. For erase the keys of the
-- value's object differ.
pub find-mutators :
    (v w : Value) (key j : Bytes)
    → HasUniqueKeys (members_of v)
    → (find (insert_or_assign key w v) j ≡ (if bytes_eq key j then some w else find v j))
      × (find (index_key key v) j
          ≡ (if bytes_eq key j then some (or_made (find v key)) else find v j))
      × (find ((erase_key key v).1) j ≡ (if bytes_eq key j then none else find v j))
      × ((erase_key key v).0 ≡ has_key v key)
      × (get_type ((erase_key key v).1) ≡ get_type v)
find-mutators v w key j h =
    let (there, after) = find-erase_key key j v h in
    (find-insert_or_assign key j w v, find-index_key key j v, after, there, erase_key-type key v)

-- The elements of a value after a mutating call: pushBack adds its argument at the end, erase takes away
-- just the element at its index, says whether there was one and keeps the type, operator[] adds
-- nulls up to its index or throws for growth beyond its limit or at the last index, clear leaves what
-- resetTo makes of the same container type or of null, and resetTo makes a value of its type.
pub elements-mutators :
    (v w : Value) (i : ℕ) (t : JsonType)
    → (elements (push_back w v) ≡ elements v ++ w ∷ [])
      × (elements ((erase_index i v).1) ≡ take i (elements v) ++ drop (suc i) (elements v))
      × ((erase_index i v).0 ≡ ltb i (length (elements v)))
      × (get_type ((erase_index i v).1) ≡ get_type v)
      × Indexed i v (index_element i v)
      × (clear v ≡ reset_to (emptied (get_type v)))
      × (size (clear v) ≡ 0)
      × (get_type (reset_to t) ≡ t)
elements-mutators v w i t =
    let (there, after) = elements-erase_index i v in
    let (same, none_left) = clear-reset_to v in
    (
      elements-push_back w v,
      after,
      there,
      erase_index-type i v,
      index_element-Indexed i v,
      same,
      none_left,
      reset_to-type t,
    )
