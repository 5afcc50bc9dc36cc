-- ===== src/Value.antt =====
-- The document tree of pjsonlib/src/pjson_internal.h and pjson.cpp: a tagged node, the array
-- storage (a vector of children) and the object storage (a hash map from keys to children).
-- An object is the list of its entries in one of the orders in which the map may iterate; a new key
-- goes to the end. Ownership is by value: a child belongs to one parent, and a clone is the value.
pub mod ArrayStorage
pub mod ObjectStorage
pub mod Number
pub mod Access
pub mod Equality
pub mod Nodes
pub mod Mutation
use pjson.Common.{ℕ, Bool, true, false, ◌≡◌}
use pjson.Common.Bytes.{Bytes}
use pjson.Common.Int.{ℤ}

-- A binary64 value: a finite one is (-1)^negative * scaled / 2^1074, since every finite binary64
-- is an integral multiple of the least subnormal.
pub data Double : Type 0 where
  nan : Double
  infinite : Bool → Double
  finite : Bool → ℕ → Double

mutual
  pub data Value : Type 0 where
    null : Value
    string : Bytes → Value
    int : ℤ → Value
    uint : ℕ → Value
    double : Double → Value
    boolean : Bool → Value
    array : Items → Value
    object : Members → Value

  pub data Items : Type 0 where
    no_items : Items
    item : Value → Items → Items

  pub data Members : Type 0 where
    no_members : Members
    member : Bytes → Value → Members → Members

-- pjson::jsonType
pub data JsonType : Type 0 where
  json_null json_string json_number_int json_number_double json_boolean : JsonType
  json_array json_object json_number_uint : JsonType

pub JsonType-discrete : Discrete JsonType
JsonType-discrete = hlevel

abbrev pub get_type : Value → JsonType
get_type null = json_null
get_type (string s) = json_string
get_type (int z) = json_number_int
get_type (uint n) = json_number_uint
get_type (double d) = json_number_double
get_type (boolean b) = json_boolean
get_type (array xs) = json_array
get_type (object ms) = json_object

abbrev pub is_null : Value → Bool
is_null null = true
is_null _ = false

abbrev pub is_string : Value → Bool
is_string (string s) = true
is_string _ = false

abbrev pub is_number : Value → Bool
is_number (int z) = true
is_number (uint n) = true
is_number (double d) = true
is_number _ = false

abbrev pub is_integer : Value → Bool
is_integer (int z) = true
is_integer (uint n) = true
is_integer _ = false

abbrev pub is_array : Value → Bool
is_array (array xs) = true
is_array _ = false

abbrev pub is_object : Value → Bool
is_object (object ms) = true
is_object _ = false
