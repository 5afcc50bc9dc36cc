-- ===== src/Patch/Measure/Cost/Exact.antt =====
-- The loop of measureClone succeeds exactly if the tree fits the budget, and charges its size.
use pjson.Common.{
  ℕ, zero, suc, ◌+◌, ◌-◌, ◌≤◌, ◌≡◌, refl, ◌∙◌, ltb, List, [], ◌∷◌, min, arith, Bool-cases, inl, inr,
  ◌↔◌,
}
use pjson.Value.{Value, Members, no_members, member, object}
use pjson.Patch.{
  PatchState, Outcome, done, failed, out_of_fuel, bind, ◌>>◌, charge_nodes, charge_bytes,
  charge_work, set_bytes, IsWithin,
}
use pjson.Patch.Measure.{sizeof_pjson, measure_node, measure_loop, node_count, measure_clone}
use pjson.Patch.Measure.Cost.{
  byte_count, list_nodes, list_bytes, Fits, spend, Measured, own_bytes, Visited, visited,
  node_count_pos, keys_bytes, members_bytes,
}

-- The charges of one round, before the node is looked at.
charge_round : PatchState → Outcome (Unit {0})
charge_round s =
    (do
      charge_work 1 "JSON patch work budget exceeded"
      charge_nodes 1 "JSON patch cloned-node budget exceeded"
      charge_bytes sizeof_pjson "JSON patch cloned-byte budget exceeded")
      s

keys-le : (ms : Members) → keys_bytes ms ≤ members_bytes ms
unfolding byte_count
keys-le no_members = omega arith
keys-le (member k v ms) = omega (arith, keys-le ms)

round-Measured : (s : PatchState) → Measured s 1 sizeof_pjson (charge_round s)
unfolding charge_round charge_work charge_nodes charge_bytes
round-Measured s =
    elim (Bool-cases (ltb (s.budget.work_limit - min s.budget.work s.budget.work_limit) 1)) [
      | inl e ↦ rw e (λ h. ground arith, (refl, refl))
      | inr room ↦
          rw room
            (elim (Bool-cases
              (ltb (s.budget.node_limit - min s.budget.nodes s.budget.node_limit) 1)) [
                | inl e ↦ rw e (λ h. ground arith, (refl, refl))
                | inr place ↦
                    rw place
                      (elim (Bool-cases (
                        ltb (s.budget.byte_limit - min s.budget.bytes s.budget.byte_limit)
                          sizeof_pjson)) [
                            | inl e ↦ rw e (λ h. ground arith, (refl, refl))
                            | inr e ↦ rw e ((ground arith, ground arith, ground arith), refl)
                          ])
              ])
    ]

byte_count_own : (v : Value) → sizeof_pjson + own_bytes v ≤ byte_count v
unfolding byte_count
byte_count_own (object ms) = omega (arith, keys-le ms)
byte_count_own v = omega arith

loop_step :
    (fuel : ℕ) (v : Value) (work : List Value) (s : PatchState)
    → measure_loop (suc fuel) (v ∷ work) s
      ≡ bind (charge_round s) (λ _ t. bind (measure_node v work t) (λ rest. measure_loop fuel rest))
unfolding measure_loop charge_round
loop_step fuel v work s = ground arith

abbrev counters : PatchState → ℕ → ℕ → ℕ → PatchState
counters s w n b = record s { budget = record (s.budget) { work = w; nodes = n; bytes = b } }

counters_eq :
    (s : PatchState) {w w' n n' b b' : ℕ}
    → w ≡ w'
    → n ≡ n'
    → b ≡ b'
    → counters s w n b ≡ counters s w' n' b'
counters_eq s p q r = λ i. counters s (p i) (q i) (r i)

-- One round followed by the rest of the loop.
loop_joined :
    (v : Value) (work rest : List Value) (s : PatchState) (o : Outcome (Unit {0}))
    → Fits s 1 sizeof_pjson
    → (let t = spend s 1 sizeof_pjson in
        let t' = set_bytes t (t.budget.bytes + own_bytes v) in
        (t.budget.bytes + own_bytes v ≤ t.budget.byte_limit)
        × Measured t' (list_nodes rest) (list_bytes rest) o)
    → list_nodes rest + 1 ≡ node_count v + list_nodes work
    → own_bytes v + list_bytes rest + sizeof_pjson ≡ byte_count v + list_bytes work
    → Measured s (list_nodes (v ∷ work)) (list_bytes (v ∷ work)) o
loop_joined v work rest s (done u s') fits h p q = (
  (omega arith, omega arith, omega arith),
  h.1.1 ∙ counters_eq s (omega arith) (omega arith) (omega arith),
)
loop_joined v work rest s (failed e) fits h p q =
    (λ f. h.1.0 (omega arith, omega arith, omega arith), h.1.1)
loop_joined v work rest s out_of_fuel fits h p q = h.1

-- The rest of the loop after a round's charges, by what the look at the node came to.
after_visit :
    (fuel : ℕ) (v : Value) (work : List Value) (s : PatchState) (o : Outcome (List Value))
    → ((rest : List Value) (t : PatchState)
        → Fits t 0 0
        → list_nodes rest ≤ fuel
        → Measured t (list_nodes rest) (list_bytes rest) (measure_loop fuel rest t))
    → list_nodes (v ∷ work) ≤ suc fuel
    → Fits s 1 sizeof_pjson
    → Visited v work (spend s 1 sizeof_pjson) o
    → Measured s
        (list_nodes (v ∷ work))
        (list_bytes (v ∷ work))
        (bind o (λ rest. measure_loop fuel rest))
after_visit fuel v work s (done rest s') ih enough fits (keys, whole, p, q) = rw whole (
    loop_joined v work rest s _ fits
      (keys, ih rest _ (omega arith, omega arith, omega arith) (omega arith)) p q)
after_visit fuel v work s (failed e) ih enough fits (short, code) =
    (λ f. omega (arith, short, f, byte_count_own v), code)
after_visit fuel v work s out_of_fuel ih enough fits h = h

after_round :
    (fuel : ℕ) (v : Value) (work : List Value) (s : PatchState) (o : Outcome (Unit {0}))
    → ((rest : List Value) (t : PatchState)
        → Fits t 0 0
        → list_nodes rest ≤ fuel
        → Measured t (list_nodes rest) (list_bytes rest) (measure_loop fuel rest t))
    → list_nodes (v ∷ work) ≤ suc fuel
    → Measured s 1 sizeof_pjson o
    → Measured s
        (list_nodes (v ∷ work))
        (list_bytes (v ∷ work))
        (bind o (λ _ t. bind (measure_node v work t) (λ rest. measure_loop fuel rest)))
after_round fuel v work s (done u t) ih enough (fits, whole) =
    rw whole
      (after_visit fuel v work s _ ih enough fits (visited v work _ (omega arith) (omega arith)))
after_round fuel v work s (failed e) ih enough (short, code) =
    (λ f. short (omega (arith, f, byte_count_own v, node_count_pos v)), code)
after_round fuel v work s out_of_fuel ih enough h = h

loop_done : (fuel : ℕ) (s : PatchState) → measure_loop fuel [] s ≡ done tt s
unfolding measure_loop
loop_done zero s = refl
loop_done (suc fuel) s = refl

measure_loop-Measured :
    (fuel : ℕ) (work : List Value) (s : PatchState)
    → Fits s 0 0
    → list_nodes work ≤ fuel
    → Measured s (list_nodes work) (list_bytes work) (measure_loop fuel work s)
measure_loop-Measured fuel [] s within enough =
    rw (loop_done fuel s) (within, counters_eq s (omega arith) (omega arith) (omega arith))
measure_loop-Measured zero (v ∷ work) s within enough = absurd (omega (arith, node_count_pos v))
measure_loop-Measured (suc fuel) (v ∷ work) s within enough = rw (loop_step fuel v work s) (
    after_round fuel v work s (charge_round s) (measure_loop-Measured fuel) enough
      (round-Measured s))

Fits-single :
    (v : Value) (s : PatchState)
    → Fits s (node_count v + 0) (byte_count v + 0) ↔ Fits s (node_count v) (byte_count v)
Fits-single v s =
    (λ h. (omega arith, omega arith, omega arith), λ h. (omega arith, omega arith, omega arith))

Measured-single :
    (v : Value) (s : PatchState) (o : Outcome (Unit {0}))
    → Measured s (node_count v + 0) (byte_count v + 0) o
    → Measured s (node_count v) (byte_count v) o
Measured-single v s (done u t) h =
    ((Fits-single v s).0 h.0, h.1 ∙ counters_eq s (omega arith) (omega arith) (omega arith))
Measured-single v s (failed e) h = (λ f. h.0 ((Fits-single v s).1 f), h.1)
Measured-single v s out_of_fuel h = h

clone_loop :
    (v : Value) (s : PatchState) (n b : ℕ)
    → Measured s n b (measure_loop (node_count v) (v ∷ []) s)
    → Measured s n b (measure_clone v s)
unfolding measure_clone
clone_loop v s n b h = h

-- Within its limits, measure_clone succeeds exactly if the nodes and the bytes of the whole tree fit
-- what is left of the budget. It then has charged just these (a unit of work for each node); if not,
-- it fails with resource_limit. Its rounds always suffice.
pub measure_clone-Measured :
    (v : Value) (s : PatchState)
    → IsWithin s.budget
    → Measured s (node_count v) (byte_count v) (measure_clone v s)
measure_clone-Measured v s within = Measured-single v s (measure_clone v s) (
    clone_loop v s _ _ (
      measure_loop-Measured (node_count v) (v ∷ []) s (omega arith, omega arith, omega arith)
        (omega arith)))
