-- ===== src/Patch/Merge/Spends.antt =====
-- How the routines of pjsonlib/src/pjson_patch.cpp that charge a budget may end.
use pjson.Common.{ℕ, ◌-◌, refl, arith, ltb, min, Bool-cases, inl, inr, String}
use pjson.Value.{Value}
use pjson.Value.Nodes.{node_count}
use pjson.Patch.{
  PatchState, Patching, Outcome, done, failed, out_of_fuel, bind, charge_operations, charge_nodes,
  charge_bytes, charge_work, Overspent,
}
use pjson.Patch.Measure.{measure_clone}
use pjson.Patch.Measure.Cost.{byte_count, Measured}
use pjson.Patch.Measure.Cost.Exact.{measure_clone-Measured}
use pjson.Patch.Apply.Safe.{Limits, IsBounded, Safe, measure_clone-SafeIn}

-- A result is as P says, within the limits; a failure is for want of budget; the rounds suffice.
abbrev pub Spends : {A : Type 0} → Limits → (A → Type 0) → Outcome A → Type 0
Spends L P (done a s) = IsBounded L s × P a
Spends L P (failed e) = Overspent e
Spends L P out_of_fuel = ⊥

pub Spends-bind :
    {A B : Type 0} (L : Limits) (P : A → Type 0) (Q : B → Type 0) (o : Outcome A)
    (f : A → Patching B)
    → Spends L P o
    → ((a : A) → P a → (s : PatchState) → IsBounded L s → Spends L Q (f a s))
    → Spends L Q (bind o f)
Spends-bind L P Q (done a s) f h k = k a (h.1) s (h.0)
Spends-bind L P Q (failed e) f h k = h
Spends-bind L P Q out_of_fuel f h k = h

pub Spends-weaken :
    {A : Type 0} (L : Limits) (P Q : A → Type 0) (o : Outcome A)
    → Spends L P o
    → ((a : A) → P a → Q a)
    → Spends L Q o
Spends-weaken L P Q (done a s) h k = (h.0, k a (h.1))
Spends-weaken L P Q (failed e) h k = h
Spends-weaken L P Q out_of_fuel h k = h

-- What a charge leaves to say.
abbrev pub Paid : Unit {0} → Type 0
Paid u = Unit

pub charge_work-Spends :
    (L : Limits) (n : ℕ) (m : String) (s : PatchState)
    → IsBounded L s
    → Spends L Paid (charge_work n m s)
unfolding charge_work
charge_work-Spends L n m s h =
    elim (Bool-cases (ltb (s.budget.work_limit - min s.budget.work s.budget.work_limit) n)) [
      | inl e ↦ rw e (refl, refl)
      | inr e ↦ rw e ((ground arith, h.1), tt)
    ]

pub charge_bytes-Spends :
    (L : Limits) (n : ℕ) (m : String) (s : PatchState)
    → IsBounded L s
    → Spends L Paid (charge_bytes n m s)
unfolding charge_bytes
charge_bytes-Spends L n m s h =
    elim (Bool-cases (ltb (s.budget.byte_limit - min s.budget.bytes s.budget.byte_limit) n)) [
      | inl e ↦ rw e (refl, refl)
      | inr e ↦ rw e ((ground arith, h.1), tt)
    ]

pub charge_nodes-Spends :
    (L : Limits) (n : ℕ) (m : String) (s : PatchState)
    → IsBounded L s
    → Spends L Paid (charge_nodes n m s)
unfolding charge_nodes
charge_nodes-Spends L n m s h =
    elim (Bool-cases (ltb (s.budget.node_limit - min s.budget.nodes s.budget.node_limit) n)) [
      | inl e ↦ rw e (refl, refl)
      | inr e ↦ rw e ((ground arith, h.1), tt)
    ]

pub charge_operations-Spends :
    (L : Limits) (n : ℕ) (m : String) (s : PatchState)
    → IsBounded L s
    → Spends L Paid (charge_operations n m s)
unfolding charge_operations
charge_operations-Spends L n m s h =
    elim (Bool-cases
      (ltb (s.budget.operation_limit - min s.budget.operations s.budget.operation_limit) n)) [
        | inl e ↦ rw e (refl, refl)
        | inr e ↦ rw e ((ground arith, h.1), tt)
      ]

Measured-Spends :
    (L : Limits) (s : PatchState) (n b : ℕ) (o : Outcome (Unit {0}))
    → Measured s n b o
    → Safe L o
    → Spends L Paid o
Measured-Spends L s n b (done u t) m h = (h, tt)
Measured-Spends L s n b (failed e) (short, overspent) h = overspent
Measured-Spends L s n b out_of_fuel m h = h

pub measure_clone-Spends :
    (L : Limits) (v : Value) (s : PatchState) → IsBounded L s → Spends L Paid (measure_clone v s)
measure_clone-Spends L v s h =
    Measured-Spends L s (node_count v) (byte_count v) (measure_clone v s)
      (measure_clone-Measured v s (h.0)) (measure_clone-SafeIn L v s h)
