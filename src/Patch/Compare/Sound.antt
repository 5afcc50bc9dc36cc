-- ===== src/Patch/Compare/Sound.antt =====
-- The bounded comparison of patchEqual against operator==.
use pjson.Common.{
  ℕ, zero, suc, ◌+◌, ◌≡◌, refl, Bool, false, Option, none, some, List, [], ◌∷◌, length, max,
  Option-cases, Bool-cases, inl, inr, ltb, min, ◌-◌, if◌then◌else◌, ◌==◌, subst,
}
use pjson.Common.Bytes.{bytes_eq}
use pjson.Value.{Value, Members, null, string, boolean, array, object, no_members, member}
use pjson.Value.ObjectStorage.{members_size, find_member}
use pjson.Value.Equality.{
  Verdict, differ, pending, pair_entries, equal_step, equal_loop, operator_eq,
}
use pjson.Value.Equality.Structural.{values_equal, operator_eq-values_equal}
use pjson.Value.Nodes.{node_count}
use pjson.Patch.{
  PatchState, PatchError, Outcome, done, failed, out_of_fuel, bind, charge_work, Overspent,
}
use pjson.Patch.Compare.{pair_members, compare_pair, patch_equal_loop, patch_equal, work_message}

-- Either the result is the expected one, or the budget ran out.
abbrev pub Yields : {A : Type 0} → A → Outcome A → Type 0
Yields expected (done a s) = a ≡ expected
Yields expected (failed e) = Overspent e
Yields expected out_of_fuel = ⊥

-- A charge goes on or runs out.
after_charge :
    {A : Type 0} (expected : A) (amount : ℕ) (k : PatchState → Outcome A) (s : PatchState)
    → ((t : PatchState) → Yields expected (k t))
    → Yields expected (bind (charge_work amount work_message s) (λ _ t. k t))
unfolding charge_work
after_charge expected amount k s h =
    elim (Bool-cases (ltb (s.budget.work_limit - min s.budget.work s.budget.work_limit) amount)) [
      | inl e ↦ rw e (refl, refl)
      | inr e ↦ rw e (h _)
    ]

pair_members-Yields :
    (l r : Members) (work : List (Value × Value)) (s : PatchState)
    → Yields (pair_entries l r work) (pair_members l r work s)
unfolding pair_members pair_entries
pair_members-Yields no_members r work s = refl
pair_members-Yields (member key v l) r work s = elim (Option-cases (find_member key r)) [
  | inl missing ↦
      rw (missing, pair_entries, pair_members)
        (after_charge differ (length key + 1) (λ t. done differ t) s (λ t. refl))
  | inr (w, e) ↦
      rw (e, pair_entries, pair_members)
        (after_charge (pair_entries l r ((v, w) ∷ work)) (length key + 1)
          (λ t. pair_members l r ((v, w) ∷ work) t) s
          (λ t. pair_members-Yields l r ((v, w) ∷ work) t))
]

compare_pair-Yields :
    (l r : Value) (work : List (Value × Value)) (s : PatchState)
    → Yields (equal_step l r work) (compare_pair l r work s)
unfolding compare_pair equal_step
compare_pair-Yields (string l) (string r) work s =
    after_charge (if bytes_eq l r then pending work else differ) (max (length l) (length r))
      (λ t. done (if bytes_eq l r then pending work else differ) t) s (λ t. refl)
compare_pair-Yields (object l) (object r) work s =
    elim (Bool-cases (members_size l == members_size r)) [
      | inl e ↦ rw e (pair_members-Yields l r work s)
      | inr e ↦ rw e refl
    ]
compare_pair-Yields null null work s = refl
compare_pair-Yields null r work s = refl
compare_pair-Yields (boolean b) (boolean c) work s = refl
compare_pair-Yields (boolean b) r work s = refl
compare_pair-Yields (array l) (array r) work s = refl
compare_pair-Yields (array l) r work s = refl
compare_pair-Yields l r work s = refl

-- The loop, whose fuel runs out just where that of operator== does.
abbrev YieldsIn : Option Bool → Outcome Bool → Type 0
YieldsIn (some b) o = Yields b o
YieldsIn none (done b s) = ⊥
YieldsIn none (failed e) = Overspent e
YieldsIn none out_of_fuel = Unit

YieldsIn-failed : (b : Option Bool) (e : PatchError) → Overspent e → YieldsIn b (failed e)
YieldsIn-failed (some b) e h = h
YieldsIn-failed none e h = h

loop_after_verdict :
    (fuel : ℕ) (expected : Verdict) (o : Outcome Verdict)
    → Yields expected o
    → ((rest : List (Value × Value)) (t : PatchState)
        → YieldsIn (equal_loop fuel rest) (patch_equal_loop fuel rest t))
    → YieldsIn
        (elim expected [ differ ↦ some false | pending rest ↦ equal_loop fuel rest ])
        (bind o (λ verdict t. elim verdict [
          | differ ↦ done false t
          | pending rest ↦ patch_equal_loop fuel rest t
        ]))
loop_after_verdict fuel expected (done differ s) h ih = rw (← h) refl
loop_after_verdict fuel expected (done (pending rest) s) h ih = rw (← h) (ih rest s)
loop_after_verdict fuel expected (failed e) h ih = YieldsIn-failed _ e h
loop_after_verdict fuel expected out_of_fuel h ih = absurd h

after_work :
    (b : Option Bool) (amount : ℕ) (k : PatchState → Outcome Bool) (s : PatchState)
    → ((t : PatchState) → YieldsIn b (k t))
    → YieldsIn b (bind (charge_work amount work_message s) (λ _ t. k t))
unfolding charge_work
after_work b amount k s h =
    elim (Bool-cases (ltb (s.budget.work_limit - min s.budget.work s.budget.work_limit) amount)) [
      | inl e ↦ rw e (YieldsIn-failed b _ (refl, refl))
      | inr e ↦ rw e (h _)
    ]

patch_equal_loop-YieldsIn :
    (fuel : ℕ) (work : List (Value × Value)) (s : PatchState)
    → YieldsIn (equal_loop fuel work) (patch_equal_loop fuel work s)
unfolding equal_loop patch_equal_loop
patch_equal_loop-YieldsIn zero [] s = refl
patch_equal_loop-YieldsIn (suc fuel) [] s = refl
patch_equal_loop-YieldsIn zero (p ∷ work) s = tt
patch_equal_loop-YieldsIn (suc fuel) ((l, r) ∷ work) s = after_work _ 1 _ s (λ t.
    loop_after_verdict fuel (equal_step l r work) (compare_pair l r work t)
      (compare_pair-Yields l r work t) (patch_equal_loop-YieldsIn fuel))

equal_and_patch : (l r : Value) (s : PatchState) → YieldsIn (operator_eq l r) (patch_equal l r s)
unfolding operator_eq patch_equal
equal_and_patch l r s = patch_equal_loop-YieldsIn (node_count l) ((l, r) ∷ []) s

-- patch_equal either runs out of its work budget, or gives the verdict of deep equality, which is
-- that of operator==.
pub patch_equal-Yields :
    (l r : Value) (s : PatchState) → Yields (values_equal l r) (patch_equal l r s)
patch_equal-Yields l r s =
    subst (λ b. YieldsIn b (patch_equal l r s)) (operator_eq-values_equal l r)
      (equal_and_patch l r s)
