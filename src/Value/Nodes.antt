-- ===== src/Value/Nodes.antt =====
-- The size of a document: the rounds that the worklists over it make.
use pjson.Common.{ℕ, suc, ◌+◌, ◌<◌, arith}
use pjson.Value.{Value, Items, Members, array, object, no_items, item, no_members, member}

-- The nodes of a tree: the number of rounds that the loop makes, and what a copy is charged for.
unfoldable mutual
  pub node_count : Value → ℕ
  node_count (array xs) = suc (items_nodes xs)
  node_count (object ms) = suc (members_nodes ms)
  node_count _ = 1

  pub items_nodes : Items → ℕ
  items_nodes no_items = 0
  items_nodes (item v xs) = node_count v + items_nodes xs

  pub members_nodes : Members → ℕ
  members_nodes no_members = 0
  members_nodes (member k v ms) = node_count v + members_nodes ms

pub node_count_pos : (v : Value) → 0 < node_count v
unfolding node_count
node_count_pos (array xs) = omega arith
node_count_pos v = omega arith
