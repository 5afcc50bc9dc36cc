-- ===== src/Patch/Measure/Cost.antt =====
-- What measure_clone charges, against the size of the tree that is copied.
pub mod Exact
use pjson.Common.{
  ℕ, zero, suc, ◌+◌, ◌-◌, ◌≤◌, ◌<◌, ◌≡◌, ◌≢◌, refl, sym, ap, ◌∙◌, subst, Bool, true, false, ltb,
  if◌then◌else◌, List, [], ◌∷◌, length, min, arith, Bool-cases, inl, inr, String, ◌⊎◌,
}
use pjson.Common.Bytes.{Bytes}
use pjson.Value.{
  Value, Items, Members, null, string, int, uint, double, boolean, array, object, no_items, item,
  no_members, member,
}
use pjson.Value.ArrayStorage.{items_size}
use pjson.Value.ObjectStorage.{members_size}
use pjson.Patch.{
  PatchState, PatchBudget, PatchError, Patching, Outcome, done, failed, out_of_fuel, bind, ◌>>=◌,
  ◌>>◌, fail_patch, charge_nodes, charge_bytes, charge_work, Overspent, charge_patch, set_bytes,
}
use pjson.Patch.Measure.{
  sizeof_pjson, push_items, measure_members, measure_node, measure_loop, node_count, items_nodes,
  members_nodes, measure_clone, check_room,
}

-- The bytes of a copy: each node, the text of strings and the text of keys.
mutual
  pub byte_count : Value → ℕ
  byte_count (string s) = sizeof_pjson + length s
  byte_count (array xs) = sizeof_pjson + items_bytes xs
  byte_count (object ms) = sizeof_pjson + members_bytes ms
  byte_count _ = sizeof_pjson

  pub items_bytes : Items → ℕ
  items_bytes no_items = 0
  items_bytes (item v xs) = byte_count v + items_bytes xs

  pub members_bytes : Members → ℕ
  members_bytes no_members = 0
  members_bytes (member k v ms) = length k + byte_count v + members_bytes ms

abbrev keys_bytes : Members → ℕ
keys_bytes no_members = 0
keys_bytes (member k v ms) = length k + keys_bytes ms

abbrev list_nodes : List Value → ℕ
list_nodes [] = 0
list_nodes (v ∷ work) = node_count v + list_nodes work

abbrev list_bytes : List Value → ℕ
list_bytes [] = 0
list_bytes (v ∷ work) = byte_count v + list_bytes work

-- What is left of the budget covers n nodes and b bytes.
abbrev pub Fits : PatchState → ℕ → ℕ → Type 0
Fits s n b =
    (s.budget.work + n ≤ s.budget.work_limit)
    × (s.budget.nodes + n ≤ s.budget.node_limit)
    × (s.budget.bytes + b ≤ s.budget.byte_limit)

abbrev pub spend : PatchState → ℕ → ℕ → PatchState
spend s n b = record s {
  budget = record (s.budget) {
    work = s.budget.work + n;
    nodes = s.budget.nodes + n;
    bytes = s.budget.bytes + b;
  };
}

-- An outcome that succeeds exactly if n nodes and b bytes fit, having charged just these.
abbrev pub Measured {ℓ} : {A : Type ℓ} → PatchState → ℕ → ℕ → Outcome A → Type 0
Measured s n b (done a s') = Fits s n b × (s' ≡ spend s n b)
Measured s n b (failed e) = (¬ Fits s n b) × Overspent e
Measured s n b out_of_fuel = ⊥

abbrev push_members : Members → List Value → List Value
push_members no_members work = work
push_members (member k v ms) work = push_members ms (v ∷ work)

-- The entries' keys fit, and are charged.
abbrev Keyed : Members → List Value → PatchState → Outcome (List Value) → Type 0
Keyed ms work s (done rest s') =
    (s.budget.bytes + keys_bytes ms ≤ s.budget.byte_limit)
    × (rest ≡ push_members ms work)
    × (s' ≡ set_bytes s (s.budget.bytes + keys_bytes ms))
Keyed ms work s (failed e) = (s.budget.byte_limit < s.budget.bytes + keys_bytes ms) × Overspent e
Keyed ms work s out_of_fuel = ⊥

Keyed-cons :
    (k : Bytes) (c : Value) (ms : Members) (work : List Value) (s : PatchState)
    (o : Outcome (List Value))
    → Keyed ms (c ∷ work) (set_bytes s (s.budget.bytes + length k)) o
    → Keyed (member k c ms) work s o
Keyed-cons k c ms work s (done rest s') h = (omega arith, h.1, h.2 ∙ ap (set_bytes s) (omega arith))
Keyed-cons k c ms work s (failed e) h = (omega arith, h.1)
Keyed-cons k c ms work s out_of_fuel h = h

members-Keyed :
    (ms : Members) (work : List Value) (s : PatchState)
    → s.budget.bytes ≤ s.budget.byte_limit
    → Keyed ms work s (measure_members ms work s)
unfolding measure_members charge_bytes
members-Keyed no_members work s h = (omega arith, refl, ap (set_bytes s) (omega arith))
members-Keyed (member k c ms) work s h =
    elim (Bool-cases
      (ltb (s.budget.byte_limit - min s.budget.bytes s.budget.byte_limit) (length k))) [
        | inl e ↦ rw e (ground arith, (refl, refl))
        | inr e ↦ rw e (
            Keyed-cons k c ms work s _ (
              members-Keyed ms (c ∷ work) (set_bytes s (s.budget.bytes + length k)) (ground arith)))
      ]

node_count_pos : (v : Value) → 0 < node_count v
unfolding node_count
node_count_pos (array xs) = omega arith
node_count_pos v = omega arith

items_size-le : (xs : Items) → items_size xs ≤ items_nodes xs
unfolding node_count
items_size-le no_items = omega arith
items_size-le (item v xs) = omega (arith, items_size-le xs, node_count_pos v)

members_size-le : (ms : Members) → members_size ms ≤ members_nodes ms
unfolding node_count
members_size-le no_members = omega arith
members_size-le (member k v ms) = omega (arith, members_size-le ms, node_count_pos v)

push_items_totals :
    (xs : Items) (work : List Value)
    → (list_nodes (push_items xs work) ≡ items_nodes xs + list_nodes work)
      × (list_bytes (push_items xs work) ≡ items_bytes xs + list_bytes work)
unfolding push_items node_count byte_count
push_items_totals no_items work = omega arith
push_items_totals (item v xs) work = omega (arith, push_items_totals xs (v ∷ work))

push_members_totals :
    (ms : Members) (work : List Value)
    → (list_nodes (push_members ms work) ≡ members_nodes ms + list_nodes work)
      × (keys_bytes ms + list_bytes (push_members ms work) ≡ members_bytes ms + list_bytes work)
unfolding node_count byte_count
push_members_totals no_members work = omega arith
push_members_totals (member k v ms) work = omega (arith, push_members_totals ms (v ∷ work))

-- What one round charges beyond the node itself.
abbrev own_bytes : Value → ℕ
own_bytes (string s) = length s
own_bytes (object ms) = keys_bytes ms
own_bytes _ = 0

abbrev Visited : Value → List Value → PatchState → Outcome (List Value) → Type 0
Visited v work s (done rest s') =
    (s.budget.bytes + own_bytes v ≤ s.budget.byte_limit)
    × (s' ≡ set_bytes s (s.budget.bytes + own_bytes v))
    × (list_nodes rest + 1 ≡ node_count v + list_nodes work)
    × (own_bytes v + list_bytes rest + sizeof_pjson ≡ byte_count v + list_bytes work)
Visited v work s (failed e) =
    ((s.budget.byte_limit < s.budget.bytes + own_bytes v)
      ⊎ (s.budget.work_limit + 1 < s.budget.work + node_count v))
    × Overspent e
Visited v work s out_of_fuel = ⊥

same_bytes : (s : PatchState) → s ≡ set_bytes s (s.budget.bytes + 0)
same_bytes s = ap (set_bytes s) (omega arith)

members-Visited :
    (ms : Members) (work : List Value) (s : PatchState) (o : Outcome (List Value))
    → Keyed ms work s o
    → s.budget.work + members_size ms ≤ s.budget.work_limit
    → Visited (object ms) work s o
unfolding node_count byte_count
members-Visited ms work s (done rest s') h room =
    let totals = push_members_totals ms work in
    (h.0, h.2, rw (h.1) (omega (arith, totals)), rw (h.1) (omega (arith, totals)))
members-Visited ms work s (failed e) h room = (inl h.0, h.1)
members-Visited ms work s out_of_fuel h room = h

visited :
    (v : Value) (work : List Value) (s : PatchState)
    → s.budget.bytes ≤ s.budget.byte_limit
    → s.budget.work ≤ s.budget.work_limit
    → Visited v work s (measure_node v work s)
unfolding measure_node node_count byte_count charge_bytes
visited (string t) work s h k =
    elim (Bool-cases
      (ltb (s.budget.byte_limit - min s.budget.bytes s.budget.byte_limit) (length t))) [
        | inl e ↦ rw e (inl (ground arith), (refl, refl))
        | inr e ↦ rw e (ground arith, refl, omega arith, omega arith)
      ]
visited (array xs) work s h k =
    elim (Bool-cases
      (ltb (s.budget.work_limit - min s.budget.work s.budget.work_limit) (items_size xs))) [
        | inl e ↦ rw e (inr (ground (arith, items_size-le xs)), (refl, refl))
        | inr e ↦
            let totals = push_items_totals xs work in
            rw e (omega arith, same_bytes s, omega (arith, totals), omega (arith, totals))
      ]
visited (object ms) work s h k =
    elim (Bool-cases
      (ltb (s.budget.work_limit - min s.budget.work s.budget.work_limit) (members_size ms))) [
        | inl e ↦ rw e (inr (ground (arith, members_size-le ms)), (refl, refl))
        | inr e ↦ rw e (
            members-Visited ms work s (measure_members ms work s) (members-Keyed ms work s h)
              (ground arith))
      ]
visited null work s h k = (omega arith, same_bytes s, omega arith, omega arith)
visited (int z) work s h k = (omega arith, same_bytes s, omega arith, omega arith)
visited (uint n) work s h k = (omega arith, same_bytes s, omega arith, omega arith)
visited (double d) work s h k = (omega arith, same_bytes s, omega arith, omega arith)
visited (boolean b) work s h k = (omega arith, same_bytes s, omega arith, omega arith)
