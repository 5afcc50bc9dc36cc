-- ===== src/Value/Equality/Structural.antt =====
-- The worklist of operator== against equality by recursion on the tree.
use pjson.Common.{
  ℕ, zero, suc, ◌+◌, ◌≤◌, ◌≡◌, refl, sym, ap, ◌∙◌, Bool, true, false, ◌&&◌, Option, none, some,
  List, [], ◌∷◌, ◌==◌, if◌then◌else◌, arith, Option-cases, Bool-cases, inl, inr,
}
use pjson.Common.Bytes.{bytes_eq}
use pjson.Value.{
  Value, Items, Members, null, string, boolean, array, object, no_items, item, no_members, member,
  is_number,
}
use pjson.Value.ArrayStorage.{items_size}
use pjson.Value.ObjectStorage.{members_size, find_member}
use pjson.Value.Number.{compare_numbers}
use pjson.Value.Nodes.{node_count, items_nodes, members_nodes, node_count_pos}
use pjson.Value.Equality.{
  Verdict, differ, pending, is_equal_order, same_bool, push_pairs, pair_entries, equal_step,
  equal_loop, operator_eq,
}

abbrev match_entry : Option Value → (Value → Bool) → Bool
match_entry none f = false
match_entry (some w) f = f w

-- Deep equality: arrays element by element in order, objects by key, numbers by value.
unfoldable mutual
  pub values_equal : Value → Value → Bool
  values_equal (string l) (string r) = bytes_eq l r
  values_equal (boolean l) (boolean r) = same_bool l r
  values_equal (array l) (array r) = items_equal l r
  values_equal (object l) (object r) = members_size l == members_size r && members_match l r
  values_equal null null = true
  values_equal l r = is_number l && is_number r && is_equal_order (compare_numbers l r)

  pub items_equal : Items → Items → Bool
  items_equal no_items no_items = true
  items_equal (item v xs) (item w ys) = values_equal v w && items_equal xs ys
  items_equal _ _ = false

  -- Each entry of the left object has an equal one under its key on the right.
  pub members_match : Members → Members → Bool
  members_match no_members r = true
  members_match (member key v l) r =
      match_entry (find_member key r) (values_equal v) && members_match l r

abbrev all_equal : List (Value × Value) → Bool
all_equal [] = true
all_equal ((l, r) ∷ work) = values_equal l r && all_equal work

abbrev left_nodes : List (Value × Value) → ℕ
left_nodes [] = 0
left_nodes ((l, r) ∷ work) = node_count l + left_nodes work

-- What a round leaves to compare says the same as the pair did, and has a node less.
abbrev Keeps : Bool → ℕ → List (Value × Value) → Verdict → Type 0
Keeps b n work differ = b && all_equal work ≡ false
Keeps b n work (pending rest) =
    (all_equal rest ≡ b && all_equal work) × (left_nodes rest ≡ n + left_nodes work)

and_rotate : (a b c : Bool) → b && (a && c) ≡ (a && b) && c
and_rotate a b c = ground arith

items_keep :
    (l r : Items) (work : List (Value × Value))
    → items_size l ≡ items_size r
    → (all_equal (push_pairs l r work) ≡ items_equal l r && all_equal work)
      × (left_nodes (push_pairs l r work) ≡ items_nodes l + left_nodes work)
unfolding push_pairs values_equal node_count
items_keep no_items no_items work h = (refl, omega arith)
items_keep no_items (item w ys) work h = absurd (omega arith)
items_keep (item v xs) no_items work h = absurd (omega arith)
items_keep (item v xs) (item w ys) work h =
    let ih = items_keep xs ys ((v, w) ∷ work) (omega arith) in
    (ih.0 ∙ and_rotate (values_equal v w) (items_equal xs ys) (all_equal work), omega (arith, ih.1))

Keeps-entry :
    (v w : Value) (l r : Members) (work : List (Value × Value)) (o : Verdict)
    → Keeps (members_match l r) (members_nodes l) ((v, w) ∷ work) o
    → Keeps (values_equal v w && members_match l r) (node_count v + members_nodes l) work o
Keeps-entry v w l r work differ h = ground (arith, h)
Keeps-entry v w l r work (pending rest) h = (ground (arith, h.0), omega (arith, h.1))

members_keep :
    (l r : Members) (work : List (Value × Value))
    → Keeps (members_match l r) (members_nodes l) work (pair_entries l r work)
unfolding pair_entries values_equal node_count
members_keep no_members r work = (refl, omega arith)
members_keep (member key v l) r work = elim (Option-cases (find_member key r)) [
  | inl missing ↦ rw (missing, pair_entries) refl
  | inr (w, e) ↦
      rw (e, pair_entries) (Keeps-entry v w l r work _ (members_keep l r ((v, w) ∷ work)))
]

items_equal-size : (l r : Items) → (items_size l == items_size r) ≡ false → items_equal l r ≡ false
unfolding values_equal
items_equal-size no_items no_items h = ground arith
items_equal-size no_items (item w ys) h = refl
items_equal-size (item v xs) no_items h = refl
items_equal-size (item v xs) (item w ys) h =
    let ih = items_equal-size xs ys (ground arith) in rw ih (ground arith)

-- The rounds over leaves and the dispatch on a pair of nodes.
leaf-Keeps :
    (b : Bool) (work : List (Value × Value)) → Keeps b 0 work (if b then pending work else differ)
leaf-Keeps true work = (refl, omega arith)
leaf-Keeps false work = refl

abbrev inner_nodes : Value → ℕ
inner_nodes (array xs) = items_nodes xs
inner_nodes (object ms) = members_nodes ms
inner_nodes v = 0

step-Keeps :
    (l r : Value) (work : List (Value × Value))
    → Keeps (values_equal l r) (inner_nodes l) work (equal_step l r work)
unfolding equal_step values_equal
step-Keeps (string s) (string t) work = leaf-Keeps (bytes_eq s t) work
step-Keeps (string s) r work = refl
step-Keeps (boolean b) (boolean c) work = leaf-Keeps (same_bool b c) work
step-Keeps (boolean b) r work = refl
step-Keeps null null work = (refl, omega arith)
step-Keeps null r work = refl
step-Keeps (array xs) (array ys) work = elim (Bool-cases (items_size xs == items_size ys)) [
  | inl e ↦ rw e (items_keep xs ys work (ground arith))
  | inr e ↦ rw e (ap (λ b. b && all_equal work) (items_equal-size xs ys e))
]
step-Keeps (array xs) r work = refl
step-Keeps (object l) (object r) work = elim (Bool-cases (members_size l == members_size r)) [
  | inl e ↦ rw e (members_keep l r work)
  | inr e ↦ rw e refl
]
step-Keeps (object l) r work = refl
step-Keeps l r work = leaf-Keeps (is_number r && is_equal_order (compare_numbers l r)) work

suc-inner_nodes : (v : Value) → suc (inner_nodes v) ≡ node_count v
unfolding node_count
suc-inner_nodes (array xs) = refl
suc-inner_nodes v = refl

loop_after :
    (fuel : ℕ) (l r : Value) (work : List (Value × Value)) (o : Verdict)
    → Keeps (values_equal l r) (inner_nodes l) work o
    → left_nodes ((l, r) ∷ work) ≤ suc fuel
    → ((rest : List (Value × Value))
        → left_nodes rest ≤ fuel
        → equal_loop fuel rest ≡ some (all_equal rest))
    → (elim o [ differ ↦ some false | pending rest ↦ equal_loop fuel rest ])
      ≡ some (all_equal ((l, r) ∷ work))
loop_after fuel l r work differ h enough ih = ap some (sym h)
loop_after fuel l r work (pending rest) h enough ih =
    ih rest (omega (arith, h.1, suc-inner_nodes l)) ∙ ap some h.0

equal_loop-all_equal :
    (fuel : ℕ) (work : List (Value × Value))
    → left_nodes work ≤ fuel
    → equal_loop fuel work ≡ some (all_equal work)
unfolding equal_loop
equal_loop-all_equal zero [] h = refl
equal_loop-all_equal (suc fuel) [] h = refl
equal_loop-all_equal zero ((l, r) ∷ work) h = absurd (omega (arith, node_count_pos l))
equal_loop-all_equal (suc fuel) ((l, r) ∷ work) h =
    loop_after fuel l r work (equal_step l r work) (step-Keeps l r work) h
      (equal_loop-all_equal fuel)

operator_loop : (l r : Value) → operator_eq l r ≡ equal_loop (node_count l) ((l, r) ∷ [])
unfolding operator_eq
operator_loop l r = refl

and_true : (b : Bool) → b && true ≡ b
and_true b = ground arith

-- operator== returns, within a round for each node of the left value, whether the two documents are
-- deeply equal: arrays element by element, objects key by key, numbers by value.
pub operator_eq-values_equal : (l r : Value) → operator_eq l r ≡ some (values_equal l r)
operator_eq-values_equal l r =
    operator_loop l r
    ∙ equal_loop-all_equal (node_count l) ((l, r) ∷ []) (omega arith)
    ∙ ap some (and_true (values_equal l r))
