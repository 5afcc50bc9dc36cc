-- ===== src/Value/Equality.antt =====
-- operator== of pjsonlib/src/pjson.cpp: a worklist of pairs of nodes.
pub mod Structural
use pjson.Common.{
  ℕ, zero, suc, Bool, true, false, not, ◌&&◌, Option, none, some, List, [], ◌∷◌, ◌==◌,
  if◌then◌else◌,
}
use pjson.Common.Bytes.{bytes_eq}
use pjson.Value.{
  Value, Items, Members, null, string, int, uint, double, boolean, array, object, no_items, item,
  no_members, member, is_number,
}
use pjson.Value.ArrayStorage.{items_size}
use pjson.Value.ObjectStorage.{members_size, find_member}
use pjson.Value.Number.{Order, less, equal, greater, unordered, compare_numbers}
use pjson.Value.Nodes.{node_count}

-- What a round comes to: `differ` is the return of false.
pub data Verdict : Type 0 where
  differ : Verdict
  pending : List (Value × Value) → Verdict

abbrev pub is_equal_order : Order → Bool
is_equal_order equal = true
is_equal_order _ = false

abbrev pub same_bool : Bool → Bool → Bool
same_bool true b = b
same_bool false b = not b

-- The pairs of two arrays of one size; the back of the source's vector is the head here.
unfoldable pub push_pairs : Items → Items → List (Value × Value) → List (Value × Value)
push_pairs (item v xs) (item w ys) work = push_pairs xs ys ((v, w) ∷ work)
push_pairs _ _ work = work

unfoldable pub pair_entries : Members → Members → List (Value × Value) → Verdict
pair_entries no_members r work = pending work
pair_entries (member key v l) r work = elim (find_member key r) [
  | none ↦ differ
  | some w ↦ pair_entries l r ((v, w) ∷ work)
]

-- One round. Numbers of all three representations compare as one family; else the types must agree.
unfoldable pub equal_step : Value → Value → List (Value × Value) → Verdict
unfolding pair_entries push_pairs compare_numbers
equal_step (string l) (string r) work = if bytes_eq l r then pending work else differ
equal_step (boolean l) (boolean r) work = if same_bool l r then pending work else differ
equal_step (array l) (array r) work =
    if items_size l == items_size r then pending (push_pairs l r work) else differ
equal_step (object l) (object r) work =
    if members_size l == members_size r then pair_entries l r work else differ
equal_step null null work = pending work
equal_step l r work =
    if is_number l && is_number r && is_equal_order (compare_numbers l r)
    then pending work
    else differ

-- none means that the fuel ran out, which it does not with a round for each node.
unfoldable pub equal_loop : ℕ → List (Value × Value) → Option Bool
equal_loop fuel [] = some true
equal_loop zero (p ∷ work) = none
equal_loop (suc fuel) ((l, r) ∷ work) = elim (equal_step l r work) [
  | differ ↦ some false
  | pending rest ↦ equal_loop fuel rest
]

unfoldable pub operator_eq : Value → Value → Option Bool
unfolding equal_loop node_count
operator_eq left right = equal_loop (node_count left) ((left, right) ∷ [])
