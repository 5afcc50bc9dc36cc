-- ===== src/Patch/Merge.antt =====
-- applyMergePatch of pjsonlib/src/pjson_patch.cpp: RFC 7396 by a worklist on a scratch copy. A pointer
-- into the scratch document is the path of keys that leads to the node.
pub mod Reference
pub mod Commute
pub mod Worklist
pub mod Spends
pub mod Exact
pub mod Answers
use pjson.Common.{ℕ, zero, suc, Bool, true, false, Option, none, some, List, [], ◌∷◌, ◌++◌, length}
use pjson.Common.Bytes.{Bytes}
use pjson.Value.{Value, Members, null, object, no_members, member}
use pjson.Value.ObjectStorage.{find_member, put_member, erase_member}
use pjson.Value.Nodes.{node_count}
use pjson.Patch.{
  Patching, Outcome, out_of_fuel, pure, bind, ◌>>=◌, ◌>>◌, charge_operations, charge_nodes,
  charge_bytes, charge_work, PatchOptions, patch_budget, reset_patch_error,
}
use pjson.Patch.Measure.{measure_clone, sizeof_pjson}
use pjson.Patch.Apply.{Patched, published}

-- One pending merge of an object of the patch into the node at a path.
pub record MergeItem : Type 0 where
  pub target : List Bytes
  pub patch : Members

-- The members of a target; one that is not an object is reset to an empty object.
abbrev pub object_members : Value → Members
object_members (object ms) = ms
object_members _ = no_members

abbrev pub or_null : Option Value → Value
or_null none = null
or_null (some v) = v

-- The members of the node that a path leads to.
unfoldable pub members_at : Value → List Bytes → Members
members_at v [] = object_members v
members_at v (key ∷ path) = members_at (or_null (find_member key (object_members v))) path

-- The node that a path leads to is given other members. The objects on the way are there.
unfoldable pub store_members : Value → List Bytes → Members → Value
store_members v [] ms = object ms
store_members v (key ∷ path) ms = object (
    put_member key (store_members (or_null (find_member key (object_members v))) path ms)
      (object_members v))

-- The child of the target that an object of the patch is merged into; it is made where it is missing.
abbrev pub merge_child : Bytes → Members → Option Value → Patching Members
merge_child key target none = do
  charge_nodes 1 "JSON Merge Patch cloned-node budget exceeded"
  charge_bytes sizeof_pjson "JSON Merge Patch cloned-byte budget exceeded"
  pure (put_member key (object no_members) target)
merge_child key target (some child) = pure (put_member key (object (object_members child)) target)

-- What a member of the patch does to the target's members and to the worklist, once it is charged.
unfoldable pub merge_value :
    List Bytes → Bytes → Value → Members → List MergeItem → Patching (Members × List MergeItem)
merge_value path key null target work = pure (erase_member key target, work)
merge_value path key (object patch) target work = do
  target' ← merge_child key target (find_member key target)
  pure (target', record { target = path ++ key ∷ []; patch = patch } ∷ work)
merge_value path key value target work = do
  measure_clone value
  pure (put_member key value target, work)

-- The loop over the members of one object of the patch.
unfoldable pub merge_members :
    List Bytes → Members → Members × List MergeItem → Patching (Members × List MergeItem)
unfolding merge_value
merge_members path no_members state = pure state
merge_members path (member key value patch) state = do
  charge_operations 1 "JSON Merge Patch operation budget exceeded"
  charge_work 1 "JSON Merge Patch work budget exceeded"
  charge_bytes (length key) "JSON Merge Patch cloned-byte budget exceeded"
  state' ← merge_value path key value (state.0) (state.1)
  merge_members path patch state'

-- The loop over the worklist, its back at the head of the list.
unfoldable pub merge_loop : ℕ → Value → List MergeItem → Patching Value
unfolding merge_members members_at store_members
merge_loop f scratch [] s = pure scratch s
merge_loop zero scratch (item ∷ work) s = out_of_fuel
merge_loop (suc f) scratch (item ∷ work) s =
    (do
      state ← merge_members (item.target) (item.patch) (members_at scratch (item.target), work)
      merge_loop f (store_members scratch (item.target) (state.0)) (state.1))
      s

unfoldable pub apply_merge_patch_to : Value → Value → Patching Value
unfolding merge_loop measure_clone
apply_merge_patch_to target (object patch) =
    merge_loop (node_count (object patch)) target (record { target = []; patch = patch } ∷ [])
apply_merge_patch_to target value = do
  charge_operations 1 "JSON Merge Patch operation budget exceeded"
  measure_clone value
  pure value

unfoldable pub merge_document : Value → Value → Patching Value
unfolding apply_merge_patch_to measure_clone
merge_document target patch = do measure_clone target; apply_merge_patch_to target patch

unfoldable pub apply_merge_patch : Value → Value → PatchOptions → Patched
unfolding merge_document patch_budget
apply_merge_patch target patch options = published target (
    merge_document target patch
      (record { budget = patch_budget options; error = reset_patch_error }))
