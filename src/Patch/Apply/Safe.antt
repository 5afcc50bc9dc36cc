-- ===== src/Patch/Apply/Safe.antt =====
-- Every operation of a patch keeps to the budget, ends within its fuel and flags its failures.
pub mod Operations
use pjson.Common.{
  ℕ, zero, suc, ◌+◌, ◌-◌, ◌≤◌, ◌≡◌, refl, sym, ap, ◌∙◌, subst, Bool, true, false, Option, none,
  some, List, [], ◌∷◌, length, max, min, ltb, ◌==◌, if◌then◌else◌, arith, Bool-cases, inl, inr,
  String,
}
use pjson.Common.Bytes.{Bytes, bytes_eq}
use pjson.Value.{
  Value, Items, Members, null, string, int, uint, double, boolean, array, object, no_items, item,
  no_members, member,
}
use pjson.Patch.{
  PatchState, PatchBudget, PatchError, PatchCode, PatchOptions, Patching, Outcome, done, failed,
  out_of_fuel, bind, pure, fail_patch, fail_patch_at_token, charge_operations, charge_nodes,
  charge_bytes, charge_work, IsWithin,
}
use pjson.Common.{Option-cases}
use pjson.Value.Nodes.{node_count}
use pjson.Value.ObjectStorage.{members_size, find_member}
use pjson.Value.Equality.{Verdict, differ, pending}
use pjson.Value.Equality.Structural.{values_equal}
use pjson.Patch.Measure.{measure_clone}
use pjson.Patch.Measure.Cost.{byte_count, Measured}
use pjson.Patch.Measure.Cost.Exact.{measure_clone-Measured}
use pjson.Patch.Compare.{pair_members, compare_pair, patch_equal_loop, patch_equal, work_message}
use pjson.Patch.Compare.Sound.{Yields, patch_equal-Yields}

abbrev pub Limits : Type 0
Limits = ℕ × ℕ × ℕ × ℕ

abbrev pub limits : PatchBudget → Limits
limits b = (b.operation_limit, b.node_limit, b.byte_limit, b.work_limit)

abbrev pub IsBounded : Limits → PatchState → Type 0
IsBounded L s = IsWithin s.budget × (limits s.budget ≡ L)

abbrev pub Safe : {A : Type 0} → Limits → Outcome A → Type 0
Safe L (done a s) = IsBounded L s
Safe L (failed e) = e.ok ≡ false
Safe L out_of_fuel = ⊥

abbrev pub SafeIn : {A : Type 0} → Limits → Patching A → Type 0
SafeIn L m = (s : PatchState) → IsBounded L s → Safe L (m s)

pub Safe-bind :
    {A B : Type 0} (L : Limits) (o : Outcome A) (f : A → Patching B)
    → Safe L o
    → ((a : A) → SafeIn L (f a))
    → Safe L (bind o f)
Safe-bind L (done a s) f h k = k a s h
Safe-bind L (failed e) f h k = h
Safe-bind L out_of_fuel f h k = h

pub charge_work-SafeIn :
    (L : Limits) (amount : ℕ) (message : String) → SafeIn L (charge_work amount message)
unfolding charge_work
charge_work-SafeIn L amount message s h =
    elim (Bool-cases (ltb (s.budget.work_limit - min s.budget.work s.budget.work_limit) amount)) [
      | inl e ↦ rw e refl
      | inr e ↦ rw e (ground arith, h.1)
    ]

pub charge_bytes-SafeIn :
    (L : Limits) (amount : ℕ) (message : String) → SafeIn L (charge_bytes amount message)
unfolding charge_bytes
charge_bytes-SafeIn L amount message s h =
    elim (Bool-cases (ltb (s.budget.byte_limit - min s.budget.bytes s.budget.byte_limit) amount)) [
      | inl e ↦ rw e refl
      | inr e ↦ rw e (ground arith, h.1)
    ]

pub charge_nodes-SafeIn :
    (L : Limits) (amount : ℕ) (message : String) → SafeIn L (charge_nodes amount message)
unfolding charge_nodes
charge_nodes-SafeIn L amount message s h =
    elim (Bool-cases (ltb (s.budget.node_limit - min s.budget.nodes s.budget.node_limit) amount)) [
      | inl e ↦ rw e refl
      | inr e ↦ rw e (ground arith, h.1)
    ]

pub charge_operations-SafeIn :
    (L : Limits) (amount : ℕ) (message : String) → SafeIn L (charge_operations amount message)
unfolding charge_operations
charge_operations-SafeIn L amount message s h =
    elim (Bool-cases
      (ltb (s.budget.operation_limit - min s.budget.operations s.budget.operation_limit) amount)) [
        | inl e ↦ rw e refl
        | inr e ↦ rw e (ground arith, h.1)
      ]

Measured-Safe :
    (L : Limits) (s : PatchState) (n b : ℕ) (o : Outcome (Unit {0}))
    → IsBounded L s
    → Measured s n b o
    → Safe L o
Measured-Safe L s n b (done u t) h (fits, whole) = rw whole (
  record {
    operations_le = h.0.operations_le;
    nodes_le = fits.1;
    bytes_le = fits.2;
    work_le = fits.0;
  },
  h.1,
)
Measured-Safe L s n b (failed e) h (short, overspent) = overspent.1
Measured-Safe L s n b out_of_fuel h m = m

pub measure_clone-SafeIn : (L : Limits) (v : Value) → SafeIn L (measure_clone v)
measure_clone-SafeIn L v s h =
    Measured-Safe L s (node_count v) (byte_count v) (measure_clone v s) h
      (measure_clone-Measured v s h.0)

-- Safe, but for the fuel.
abbrev Loose : {A : Type 0} → Limits → Outcome A → Type 0
Loose L (done a s) = IsBounded L s
Loose L (failed e) = e.ok ≡ false
Loose L out_of_fuel = Unit

Loose-bind :
    {A B : Type 0} (L : Limits) (o : Outcome A) (f : A → Patching B)
    → Safe L o
    → ((a : A) (s : PatchState) → IsBounded L s → Loose L (f a s))
    → Loose L (bind o f)
Loose-bind L (done a s) f h k = k a s h
Loose-bind L (failed e) f h k = h
Loose-bind L out_of_fuel f h k = absurd h

pair_members-SafeIn :
    (L : Limits) (l r : Members) (work : List (Value × Value)) → SafeIn L (pair_members l r work)
unfolding pair_members
pair_members-SafeIn L no_members r work s h = h
pair_members-SafeIn L (member key v l) r work s h = elim (Option-cases (find_member key r)) [
  | inl missing ↦
      rw (missing, pair_members)
        (Safe-bind L _ _ (charge_work-SafeIn L _ work_message s h) (λ u t k. k))
  | inr (w, e) ↦
      rw (e, pair_members)
        (Safe-bind L _ _ (charge_work-SafeIn L _ work_message s h)
          (λ u. pair_members-SafeIn L l r ((v, w) ∷ work)))
]

compare_pair-SafeIn :
    (L : Limits) (l r : Value) (work : List (Value × Value)) → SafeIn L (compare_pair l r work)
unfolding compare_pair
compare_pair-SafeIn L (string l) (string r) work s h =
    Safe-bind L _ _ (charge_work-SafeIn L _ work_message s h) (λ u t k. k)
compare_pair-SafeIn L (string l) r work s h = h
compare_pair-SafeIn L (object l) (object r) work s h =
    elim (Bool-cases (members_size l == members_size r)) [
      | inl e ↦ rw e (pair_members-SafeIn L l r work s h)
      | inr e ↦ rw e h
    ]
compare_pair-SafeIn L (object l) r work s h = h
compare_pair-SafeIn L null null work s h = h
compare_pair-SafeIn L null r work s h = h
compare_pair-SafeIn L (boolean b) (boolean c) work s h = h
compare_pair-SafeIn L (boolean b) r work s h = h
compare_pair-SafeIn L (array l) (array r) work s h = h
compare_pair-SafeIn L (array l) r work s h = h
compare_pair-SafeIn L l r work s h = h

verdict-Loose :
    (L : Limits) (fuel : ℕ) (verdict : Verdict)
    → ((rest : List (Value × Value)) (q : PatchState)
        → IsBounded L q
        → Loose L (patch_equal_loop fuel rest q))
    → (q : PatchState) → IsBounded L q
    → Loose L (elim verdict [ differ ↦ done false q | pending rest ↦ patch_equal_loop fuel rest q ])
verdict-Loose L fuel differ ih q b = b
verdict-Loose L fuel (pending rest) ih q b = ih rest q b

equal_loop-Loose :
    (L : Limits) (fuel : ℕ) (work : List (Value × Value)) (s : PatchState)
    → IsBounded L s
    → Loose L (patch_equal_loop fuel work s)
unfolding patch_equal_loop
equal_loop-Loose L zero [] s h = h
equal_loop-Loose L (suc fuel) [] s h = h
equal_loop-Loose L zero (p ∷ work) s h = tt
equal_loop-Loose L (suc fuel) ((l, r) ∷ work) s h =
    Loose-bind L _ _ (charge_work-SafeIn L 1 work_message s h) (λ u t k.
      Loose-bind L _ _ (compare_pair-SafeIn L l r work t k)
        (λ verdict. verdict-Loose L fuel verdict (equal_loop-Loose L fuel)))

Loose-Safe : (L : Limits) (b : Bool) (o : Outcome Bool) → Yields b o → Loose L o → Safe L o
Loose-Safe L b (done a s) y h = h
Loose-Safe L b (failed e) y h = h
Loose-Safe L b out_of_fuel y h = y

equal-Loose :
    (L : Limits) (l r : Value) (s : PatchState) → IsBounded L s → Loose L (patch_equal l r s)
unfolding patch_equal
equal-Loose L l r s h = equal_loop-Loose L (node_count l) ((l, r) ∷ []) s h

pub patch_equal-SafeIn : (L : Limits) (l r : Value) → SafeIn L (patch_equal l r)
patch_equal-SafeIn L l r s h =
    Loose-Safe L (values_equal l r) (patch_equal l r s) (patch_equal-Yields l r s)
      (equal-Loose L l r s h)
