-- ===== src/Patch/Compare.antt =====
-- patchEqual: the bounded structural comparison behind the test operation.
pub mod Sound
use pjson.Common.{
  ℕ, zero, suc, ◌+◌, Bool, true, false, not, ◌&&◌, String, Option, none, some, List, [], ◌∷◌,
  length, max, ◌==◌, if◌then◌else◌,
}
use pjson.Common.Bytes.{Bytes, bytes_eq}
use pjson.Value.{
  Value, Items, Members, null, string, int, uint, double, boolean, array, object, no_items, item,
  no_members, member, is_number,
}
use pjson.Value.ArrayStorage.{items_size}
use pjson.Value.ObjectStorage.{members_size, find_member}
use pjson.Value.Number.{compare_numbers}
use pjson.Value.Equality.{Verdict, differ, pending, is_equal_order, same_bool, push_pairs}
use pjson.Patch.{Patching, Outcome, done, failed, out_of_fuel, pure, bind, ◌>>=◌, ◌>>◌, charge_work}
use pjson.Value.Nodes.{node_count}

abbrev pub work_message : String
work_message = "JSON Patch work budget exceeded"

unfoldable pub pair_members : Members → Members → List (Value × Value) → Patching Verdict
pair_members no_members r work = pure (pending work)
pair_members (member key v l) r work = do
  charge_work (length key + 1) work_message
  (λ s. elim (find_member key r) [
    | none ↦ pure differ s
    | some w ↦ pair_members l r ((v, w) ∷ work) s
  ])

unfoldable pub compare_pair : Value → Value → List (Value × Value) → Patching Verdict
unfolding pair_members push_pairs compare_numbers
compare_pair (string l) (string r) work = do
  charge_work (max (length l) (length r)) work_message
  pure (if bytes_eq l r then pending work else differ)
compare_pair (boolean l) (boolean r) work = pure (if same_bool l r then pending work else differ)
compare_pair (array l) (array r) work =
    pure (if items_size l == items_size r then pending (push_pairs l r work) else differ)
compare_pair (object l) (object r) work =
    if members_size l == members_size r then pair_members l r work else pure differ
compare_pair null null work = pure (pending work)
compare_pair l r work = pure (
    if is_number l && is_number r && is_equal_order (compare_numbers l r)
    then pending work
    else differ)

unfoldable pub patch_equal_loop : ℕ → List (Value × Value) → Patching Bool
patch_equal_loop fuel [] s = done true s
patch_equal_loop zero (p ∷ work) s = out_of_fuel
patch_equal_loop (suc fuel) ((l, r) ∷ work) s =
    (do
      charge_work 1 work_message
      verdict ← compare_pair l r work
      (λ t. elim verdict [ differ ↦ done false t | pending rest ↦ patch_equal_loop fuel rest t ]))
      s

unfoldable pub patch_equal : Value → Value → Patching Bool
unfolding patch_equal_loop node_count
patch_equal left right = patch_equal_loop (node_count left) ((left, right) ∷ [])
