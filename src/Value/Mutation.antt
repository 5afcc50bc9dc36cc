-- ===== src/Value/Mutation.antt =====
-- The mutating members of pjson of pjsonlib/src/pjson.cpp: the value after the call, and none for an
-- exception. A reference that a call returns is to a child of that value.
pub mod Effects
use pjson.Common.{
  ℕ, zero, suc, ◌+◌, ◌-◌, ◌^◌, Bool, true, false, Option, none, some, [], ltb, ◌==◌, if◌then◌else◌,
}
use pjson.Common.Bytes.{Bytes}
use pjson.Common.Int.{pos}
use pjson.Value.{
  Value, Items, Members, JsonType, json_null, json_string, json_number_int, json_number_double,
  json_boolean, json_array, json_object, json_number_uint, null, string, int, uint, double, boolean,
  array, object, no_items, item, no_members, member, finite,
}
use pjson.Value.ArrayStorage.{items_size, push_item, erase_item}
use pjson.Value.ObjectStorage.{find_member, put_member, erase_member}

-- resetTo
unfoldable pub reset_to : JsonType → Value
reset_to json_null = null
reset_to json_string = string []
reset_to json_number_int = int (pos 0)
reset_to json_number_double = double (finite false 0)
reset_to json_boolean = boolean false
reset_to json_array = array no_items
reset_to json_object = object no_members
reset_to json_number_uint = uint 0

unfoldable pub clear : Value → Value
clear (array xs) = array no_items
clear (object ms) = object no_members
clear _ = null

-- erase(key): whether a member was erased, and the value.
unfoldable pub erase_key : Bytes → Value → Bool × Value
erase_key key (object ms) = elim (find_member key ms) [
  | none ↦ (false, object ms)
  | some w ↦ (true, object (erase_member key ms))
]
erase_key key v = (false, v)

-- erase(index)
unfoldable pub erase_index : ℕ → Value → Bool × Value
erase_index i (array xs) =
    if ltb i (items_size xs) then (true, array (erase_item xs i)) else (false, array xs)
erase_index i v = (false, v)

unfoldable pub push_back : Value → Value → Value
push_back w (array xs) = array (push_item xs w)
push_back w _ = array (item w no_items)

unfoldable pub insert_or_assign : Bytes → Value → Value → Value
insert_or_assign key w (object ms) = object (put_member key w ms)
insert_or_assign key w _ = object (member key w no_members)

-- operator[](key): a missing member is made, null.
unfoldable pub index_key : Bytes → Value → Value
index_key key (object ms) = elim (find_member key ms) [
  | none ↦ object (put_member key null ms)
  | some w ↦ object ms
]
index_key key _ = object (member key null no_members)

-- Growth by null elements.
unfoldable pub grow : ℕ → Items → Items
grow zero xs = xs
grow (suc n) xs = grow n (push_item xs null)

abbrev max_auto_growth : ℕ
max_auto_growth = 1000000

abbrev pub index_items : ℕ → Items → Option Value
index_items i xs =
    if ltb i (items_size xs)
    then some (array xs)
    else if ltb max_auto_growth (i - items_size xs + 1)
    then none
    else if i == 2 ^ 64 - 1
    then none
    else some (array (grow (i + 1 - items_size xs) xs))

-- operator[](size_t): the elements up to the index are made, null. The max_size of std::vector is not
-- modelled.
unfoldable pub index_element : ℕ → Value → Option Value
index_element i (array xs) = index_items i xs
index_element i _ = index_items i no_items
