-- ===== src/Value/Access.antt =====
-- Lookups and exact extraction of pjsonlib/src/pjson.cpp: find, findIndex, size, tryGet.
use pjson.Common.{
  ℕ, ◌+◌, ◌-◌, ◌^◌, Bool, true, false, Option, none, some, leb, ltb, if◌then◌else◌, ◌==◌, List, [],
}
use pjson.Common.Bytes.{Bytes}
use pjson.Common.Int.{ℤ, pos, negsuc}
use pjson.Value.{Value, string, int, uint, boolean, array, object}
use pjson.Value.ArrayStorage.{items_size, item_at}
use pjson.Value.ObjectStorage.{members_size, members_keys, find_member}

abbrev pub int64_max : ℕ
int64_max = 2 ^ 63 - 1

-- find(const std::string&)
unfoldable pub find : Value → Bytes → Option Value
find (object ms) key = find_member key ms
find _ key = none

-- findIndex(size_t)
unfoldable pub find_index : Value → ℕ → Option Value
find_index (array xs) index = if leb (items_size xs) index then none else item_at xs index
find_index _ index = none

-- find(int): a negative index counts from the end.
unfoldable pub find_int : Value → ℤ → Option Value
find_int (array xs) (pos index) = if leb (items_size xs) index then none else item_at xs index
find_int (array xs) (negsuc n) =
    let from_end = n + 1 in
    if ltb (items_size xs) from_end then none else item_at xs (items_size xs - from_end)
find_int _ index = none

abbrev is_some {ℓ} : {A : Type ℓ} → Option A → Bool
is_some none = false
is_some (some a) = true

unfoldable pub has_key : Value → Bytes → Bool
has_key (object ms) key = is_some (find_member key ms)
has_key _ key = false

unfoldable pub has_index : Value → ℤ → Bool
unfolding find_int
has_index v index = is_some (find_int v index)

unfoldable pub size : Value → ℕ
size (array xs) = items_size xs
size (object ms) = members_size ms
size _ = 0

unfoldable pub empty : Value → Bool
unfolding size
empty v = size v == 0

unfoldable pub keys : Value → List Bytes
keys (object ms) = members_keys ms
keys _ = []

-- tryGet: none leaves the destination unchanged.
unfoldable pub try_get_int : Value → Option ℤ
try_get_int (int z) = some z
try_get_int (uint n) = if leb n int64_max then some (pos n) else none
try_get_int _ = none

unfoldable pub try_get_uint : Value → Option ℕ
try_get_uint (uint n) = some n
try_get_uint (int (pos n)) = some n
try_get_uint (int (negsuc n)) = none
try_get_uint _ = none

unfoldable pub try_get_bool : Value → Option Bool
try_get_bool (boolean b) = some b
try_get_bool _ = none

unfoldable pub try_get_string : Value → Option Bytes
try_get_string (string s) = some s
try_get_string _ = none
