-- ===== src/Patch/Measure.antt =====
-- measureClone: what a deep copy of a value costs, charged before the copy is made.
pub mod Cost
unfoldable pub use pjson.Value.Nodes.{node_count, items_nodes, members_nodes}
use pjson.Common.{
  ℕ, zero, suc, ◌+◌, ◌-◌, ltb, if◌then◌else◌, List, [], ◌∷◌, length, min, Bool, true, false,
}
use pjson.Common.Bytes.{Bytes}
use pjson.Value.{
  Value, Items, Members, null, string, int, uint, double, boolean, array, object, no_items, item,
  no_members, member,
}
use pjson.Value.ArrayStorage.{items_size}
use pjson.Value.ObjectStorage.{members_size}
use pjson.Patch.{
  Patching, Outcome, done, failed, out_of_fuel, pure, bind, ◌>>=◌, ◌>>◌, fail_patch, charge_nodes,
  charge_bytes, charge_work, resource_limit,
}

-- sizeof(pjson): two pointers of eight bytes.
abbrev pub sizeof_pjson : ℕ
sizeof_pjson = 16

-- The back of the source's vector `work` is the head here.
unfoldable pub push_items : Items → List Value → List Value
push_items no_items work = work
push_items (item v xs) work = push_items xs (v ∷ work)

-- The loop over an object's entries: the key is charged, the child is pushed.
unfoldable pub measure_members : Members → List Value → Patching (List Value)
measure_members no_members work = pure work
measure_members (member key child ms) work = do
  charge_bytes (length key) "JSON patch cloned-byte budget exceeded"
  measure_members ms (child ∷ work)

abbrev check_room : ℕ → Patching (Unit {0})
check_room count s =
    if ltb (s.budget.work_limit - min s.budget.work s.budget.work_limit) count
    then fail_patch resource_limit "JSON patch work budget exceeded" s
    else pure tt s

-- What a round does with the popped node: the list of nodes that are left to visit.
unfoldable pub measure_node : Value → List Value → Patching (List Value)
unfolding measure_members push_items
measure_node (string s) work = do
  charge_bytes (length s) "JSON patch cloned-byte budget exceeded"
  pure work
measure_node (array xs) work = do check_room (items_size xs); pure (push_items xs work)
measure_node (object ms) work = do check_room (members_size ms); measure_members ms work
measure_node _ work = pure work

unfoldable pub measure_loop : ℕ → List Value → Patching (Unit {0})
measure_loop fuel [] s = done tt s
measure_loop zero (v ∷ work) s = out_of_fuel
measure_loop (suc fuel) (v ∷ work) s =
    (do
      charge_work 1 "JSON patch work budget exceeded"
      charge_nodes 1 "JSON patch cloned-node budget exceeded"
      charge_bytes sizeof_pjson "JSON patch cloned-byte budget exceeded"
      rest ← measure_node v work
      measure_loop fuel rest)
      s

unfoldable pub measure_clone : Value → Patching (Unit {0})
unfolding measure_loop node_count
measure_clone v = measure_loop (node_count v) (v ∷ [])
