-- ===== src/Patch/Merge/Exact.antt =====
-- The worklist of applyMergePatchTo (pjsonlib/src/pjson_patch.cpp) against RFC 7396's recursive
-- MergePatch.
use pjson.Common.{
  ℕ, zero, suc, ◌≤◌, ◌≡◌, refl, sym, ap, ◌∙◌, subst, Option, none, some, List, [], ◌∷◌, ◌++◌,
  append_assoc, arith,
}
use pjson.Common.Bytes.{Bytes}
use pjson.Value.{Value, Members, null, object, no_members, member}
use pjson.Value.Nodes.{node_count, members_nodes}
use pjson.Value.ObjectStorage.{find_member, put_member, HasUniqueKeys}
use pjson.Patch.{PatchState, PatchOptions, patch_budget}
use pjson.Patch.Apply.Safe.{Limits, limits, IsBounded}
use pjson.Patch.Apply.Safe.Operations.{initial_state, fresh}
use pjson.Patch.Merge.{
  MergeItem, object_members, or_null, members_at, store_members, merge_child, merge_value,
  merge_members, merge_loop, apply_merge_patch_to, merge_document,
}
use pjson.Patch.Merge.Reference.{
  merge_patch, merge_object, put_merge, IsKeyed, AreKeyed, IsPresent, put-put_same, find-put_same,
}
use pjson.Patch.Merge.Commute.{merge_step, merge_object-member, put_merge-merge_object}
use pjson.Patch.Merge.Worklist.{
  finish, finish-append, pending, pending-append, KeyedWork, append-KeyedWork, ChildMerges, below,
  below-append, finish_children, finish_children-append, finish-below,
}
use pjson.Patch.Merge.Spends.{
  Spends, Spends-bind, Spends-weaken, Paid, charge_work-Spends, charge_bytes-Spends,
  charge_nodes-Spends, charge_operations-Spends, measure_clone-Spends,
}

put_merge-put_member :
    (key : Bytes) (patch ms t : Members)
    → put_merge key patch (put_member key (object ms) t)
      ≡ put_member key (object (merge_object patch ms)) t
put_merge-put_member key patch ms t =
    ap
      (λ o.
        put_member key (object (merge_object patch (object_members (or_null o))))
          (put_member key (object ms) t))
      (find-put_same key (object ms) t)
    ∙ put-put_same key (object ms) (object (merge_object patch ms)) t

-- What a part of the loop leaves: the children it has put off, whose merges complete the result.
abbrev Deferred :
    List Bytes → ℕ → Members → List MergeItem → Members × List MergeItem → ChildMerges → Type 0
Deferred path n result work state new =
    (state.1 ≡ below path new ++ work)
    × (finish_children new (state.0) ≡ result)
    × KeyedWork (below path new)
    × (pending (below path new) ≤ n)

abbrev Merged : List Bytes → Members → Members → List MergeItem → Members × List MergeItem → Type 0
Merged path patch t work state =
    (new : ChildMerges) × Deferred path (members_nodes patch) (merge_object patch t) work state new

abbrev Stepped :
    List Bytes → Bytes → Value → Members → List MergeItem → Members × List MergeItem → Type 0
Stepped path key v t work state =
    (new : ChildMerges) × Deferred path (node_count v) (merge_step key v t) work state new
    × ((ps : Members)
        → find_member key ps ≡ none
        → finish_children new (merge_object ps (state.0))
          ≡ merge_object ps (finish_children new (state.0)))

module _ (L : Limits) where
  merge_child-Spends :
      (key : Bytes) (q t : Members) (o : Option Value) (s : PatchState)
      → IsBounded L s
      → Spends L
          (λ t'.
            (put_merge key q t'
              ≡ put_member key (object (merge_object q (object_members (or_null o)))) t)
            × IsPresent key t')
          (merge_child key t o s)
  merge_child-Spends key q t none s h =
      Spends-bind L Paid _ _ _ (charge_nodes-Spends L _ _ s h) (λ u p s1 h1.
        Spends-bind L Paid _ _ _ (charge_bytes-Spends L _ _ s1 h1) (λ u p s2 h2. (
          h2,
          (put_merge-put_member key q no_members t, (_, find-put_same key (object no_members) t)),
        )))
  merge_child-Spends key q t (some child) s h = (
    h,
    (
      put_merge-put_member key q (object_members child) t,
      (_, find-put_same key (object (object_members child)) t),
    ),
  )

  merge_value-Spends :
      (path : List Bytes) (key : Bytes) (v : Value) (t : Members) (work : List MergeItem)
      (s : PatchState)
      → IsKeyed v
      → IsBounded L s
      → Spends L (Stepped path key v t work) (merge_value path key v t work s)
  unfolding merge_value merge_patch node_count IsKeyed
  merge_value-Spends path key null t work s keyed h =
      (h, ([], (refl, refl, tt, omega arith), λ ps k. refl))
  merge_value-Spends path key (object q) t work s keyed h =
      Spends-bind L _ _ _ _ (merge_child-Spends key q t (find_member key t) s h) (λ t' p s1 h1. (
        h1,
        (
          (key, q) ∷ [],
          (refl, p.0, (keyed, tt), omega arith),
          λ ps k. put_merge-merge_object key q ps t' k (p.1),
        ),
      ))
  merge_value-Spends path key v t work s keyed h =
      Spends-bind L Paid _ _ _ (measure_clone-Spends L v s h)
        (λ u p s1 h1. (h1, ([], (refl, refl, tt, omega arith), λ ps k. refl)))

  -- The rest of an object's members after one of them.
  step-Merged :
      (path : List Bytes) (key : Bytes) (v : Value) (patch t : Members) (work : List MergeItem)
      (state state' : Members × List MergeItem)
      → find_member key patch ≡ none
      → Stepped path key v t work state
      → Merged path patch (state.0) (state.1) state'
      → Merged path (member key v patch) t work state'
  unfolding node_count
  step-Merged path key v patch t work state state' once (new1, (w1, f1, k1, n1), swap)
        (new2, (w2, f2, k2, n2)) =
      (
        new2 ++ new1,
        (
          w2
              ∙ ap (λ items. below path new2 ++ items) w1
              ∙ sym (append_assoc (below path new2) (below path new1) work)
              ∙ ap (λ items. items ++ work) (sym (below-append path new2 new1)),
          finish_children-append new2 new1 (state'.0)
              ∙ ap (finish_children new1) f2
              ∙ swap patch once
              ∙ ap (merge_object patch) f1
              ∙ sym (merge_object-member key v patch t),
          subst KeyedWork (sym (below-append path new2 new1))
              (append-KeyedWork (below path new2) (below path new1) k2 k1),
          omega (
            arith,
            n1,
            n2,
            ap pending (below-append path new2 new1),
            pending-append (below path new2) (below path new1),
          ),
        ),
      )

  merge_members-Spends :
      (path : List Bytes) (patch t : Members) (work : List MergeItem) (s : PatchState)
      → HasUniqueKeys patch
      → AreKeyed patch
      → IsBounded L s
      → Spends L (Merged path patch t work) (merge_members path patch (t, work) s)
  unfolding merge_members merge_patch node_count IsKeyed
  merge_members-Spends path no_members t work s unique keyed h =
      (h, ([], (refl, refl, tt, omega arith)))
  merge_members-Spends path (member key v patch) t work s unique keyed h =
      Spends-bind L Paid _ _ _ (charge_operations-Spends L _ _ s h) (λ u p s1 h1.
        Spends-bind L Paid _ _ _ (charge_work-Spends L _ _ s1 h1) (λ u p s2 h2.
          Spends-bind L Paid _ _ _ (charge_bytes-Spends L _ _ s2 h2) (λ u p s3 h3.
            Spends-bind L (Stepped path key v t work) _ _ _
              (merge_value-Spends path key v t work s3 (keyed.0) h3)
              (λ state p s4 h4.
                Spends-weaken L _ _ _
                  (merge_members-Spends path patch (state.0) (state.1) s4 (unique.1) (keyed.1) h4)
                  (λ state' q. step-Merged path key v patch t work state state' (unique.0) p q)))))

  merge_loop-Spends :
      (f : ℕ) (scratch : Value) (work : List MergeItem) (s : PatchState)
      → pending work ≤ f
      → KeyedWork work
      → IsBounded L s
      → Spends L (λ r. r ≡ finish work scratch) (merge_loop f scratch work s)
  unfolding merge_loop
  merge_loop-Spends f scratch [] s fuel keyed h = (h, refl)
  merge_loop-Spends zero scratch (item ∷ work) s fuel keyed h = elim fuel [ ]
  merge_loop-Spends (suc f) scratch (item ∷ work) s fuel (here, later) h =
      let path = item.target in
      let t = members_at scratch path in
      Spends-bind L (Merged path (item.patch) t work) _ _ _
        (merge_members-Spends path (item.patch) t work s (here.0) (here.1) h)
        (λ state m s1 h1.
          let (new, (w, done_all, keyed, short)) = m in
          let same : finish (state.1) (store_members scratch path (state.0))
              ≡ finish (item ∷ work) scratch =
            ap (λ items. finish items (store_members scratch path (state.0))) w
            ∙ finish-append (below path new) work (store_members scratch path (state.0))
            ∙ ap (finish work) (finish-below scratch path new (state.0))
            ∙ ap (λ ms. finish work (store_members scratch path ms)) done_all in
          Spends-weaken L _ _ _
            (merge_loop-Spends f (store_members scratch path (state.0)) (state.1) s1
              (omega (arith, fuel, short, ap pending w, pending-append (below path new) work))
              (subst KeyedWork (sym w) (append-KeyedWork (below path new) work keyed later)) h1)
            (λ r e. e ∙ same))

  apply_merge_patch_to-Spends :
      (target patch : Value) (s : PatchState)
      → IsKeyed patch
      → IsBounded L s
      → Spends L (λ r. r ≡ merge_patch patch target) (apply_merge_patch_to target patch s)
  unfolding apply_merge_patch_to merge_patch node_count IsKeyed members_at store_members
  apply_merge_patch_to-Spends target (object patch) s keyed h =
      merge_loop-Spends (node_count (object patch)) target
        (record { target = []; patch = patch } ∷ []) s (omega arith) (keyed, tt) h
  apply_merge_patch_to-Spends target v s keyed h =
      Spends-bind L Paid _ _ _ (charge_operations-Spends L _ _ s h) (λ u p s1 h1.
        Spends-bind L Paid _ _ _ (measure_clone-Spends L v s1 h1) (λ u p s2 h2. (h2, refl)))

-- A merge patch run from a fresh budget ends. A success leaves every counter within its limit and is the
-- document of RFC 7396's MergePatch; a failure is for want of budget. The condition is that the
-- patch's objects hold a key once.
pub merge_document-Spends :
    (target patch : Value) (options : PatchOptions)
    → IsKeyed patch
    → Spends
        (limits (patch_budget options))
        (λ r. r ≡ merge_patch patch target)
        (merge_document target patch (initial_state options))
unfolding merge_document
merge_document-Spends target patch options keyed =
    let L = limits (patch_budget options) in
    Spends-bind L Paid _ _ _
      (measure_clone-Spends L target (initial_state options) (fresh options, refl))
      (λ u p s h. apply_merge_patch_to-Spends L target patch s keyed h)
