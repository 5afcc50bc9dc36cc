-- ===== src/Patch/Apply/Safe/Operations.antt =====
-- The edits and the operations keep to the budget; so does the whole of applyPatch.
use pjson.Common.{
  ℕ, ◌+◌, refl, Bool, true, false, ◌||◌, Option, none, some, List, [], ◌∷◌, ltb, leb, if◌then◌else◌,
  arith, Bool-cases, Option-cases, inl, inr, String,
}
use pjson.Common.Bytes.{Bytes, bytes_eq, codes}
use pjson.Value.{Value, Items, string, array, object, no_items, item}
use pjson.Value.Access.{find}
use pjson.Value.ArrayStorage.{item_at, erase_item}
use pjson.Value.ObjectStorage.{find_member}
use pjson.Pointer.{PointerResult, PointerError, found, pointer_failed}
use pjson.Pointer.Index.{
  PointerIndexResult, index_ok, index_invalid, index_overflow, parse_pointer_index,
}
use pjson.Pointer.Tokens.{decode_pointer}
use pjson.Pointer.Resolve.{dash, resolve_pointer_tokens}
use pjson.Patch.{
  PatchState, PatchCode, PatchOptions, done, fail_patch_at_token, patch_budget, reset_patch_error,
  IsWithin,
}
use pjson.Patch.Edit.{
  decode_patch_pointer, resolve_patch_tokens, index_in_array, patch_array_index, add_to_parent,
  add_owned_at_pointer, replace_in_parent, replace_at_pointer, detached_item, detach_from_parent,
  detach_at_pointer, pointer_code_for_patch,
}
use pjson.Patch.Apply.{
  string_member, value_member, require, move_resolved, Operation, add, replace, test, remove, copy,
  move, decode_source, decode_rest, decode_members, require_known, known_operation, decode_path,
  same_pointer_tokens, is_proper_pointer_ancestor, decode_operation, run_operation,
  apply_operations, patch_document,
}
use pjson.Patch.Apply.Safe.{
  Limits, limits, Safe, SafeIn, Safe-bind, charge_work-SafeIn, charge_bytes-SafeIn,
  charge_nodes-SafeIn, charge_operations-SafeIn, measure_clone-SafeIn, patch_equal-SafeIn,
}

looked_up :
    {A : Type 0} (L : Limits) (r : PointerResult A) (code : PointerError → PatchCode)
    → SafeIn L (λ s. elim r [
      | found a ↦ done a s
      | pointer_failed e ↦ fail_patch_at_token (code e) e.token_index e.token e.message s
    ])
looked_up L (found a) code s h = h
looked_up L (pointer_failed e) code s h = refl

module _ (L : Limits) where
  decode_patch_pointer-SafeIn :
      (pointer : Bytes) (b : Bool) → SafeIn L (decode_patch_pointer pointer b)
  unfolding decode_patch_pointer
  decode_patch_pointer-SafeIn pointer b s h =
      Safe-bind L _ _ (charge_work-SafeIn L _ _ s h) (λ u. looked_up L (decode_pointer pointer) _)

  resolve_patch_tokens-SafeIn :
      (root : Value) (tokens : List Bytes) (pointer : Bytes)
      → SafeIn L (resolve_patch_tokens root tokens pointer)
  unfolding resolve_patch_tokens
  resolve_patch_tokens-SafeIn root tokens pointer s h =
      Safe-bind L _ _ (charge_work-SafeIn L _ _ s h) (λ u.
        looked_up L (resolve_pointer_tokens root tokens 0 pointer)
          (λ e. pointer_code_for_patch e.code))

  index_in_array-SafeIn :
      (r : PointerIndexResult) (count : ℕ) (token : Bytes) (b : Bool) (i : ℕ)
      → SafeIn L (index_in_array r count token b i)
  index_in_array-SafeIn index_invalid count token b i s h = refl
  index_in_array-SafeIn index_overflow count token b i s h = refl
  index_in_array-SafeIn (index_ok n) count token b i s h =
      elim (Bool-cases (if b then ltb count n else leb count n)) [
        | inl e ↦ rw e refl
        | inr e ↦ rw e h
      ]

  patch_array_index-SafeIn :
      (parent : Value) (token : Bytes) (b : Bool) (i : ℕ)
      → SafeIn L (patch_array_index parent token b i)
  unfolding patch_array_index
  patch_array_index-SafeIn parent token b i s h = elim (Bool-cases (bytes_eq token dash)) [
    | inl e ↦ rw e (elim (Bool-cases b) [ inl append ↦ rw append h | inr plain ↦ rw plain refl ])
    | inr e ↦ rw e (index_in_array-SafeIn (parse_pointer_index token) _ token b i s h)
  ]

  add_to_parent-SafeIn :
      (parent : Value) (token : Bytes) (i : ℕ) (v : Value)
      → SafeIn L (add_to_parent parent token i v)
  unfolding add_to_parent
  add_to_parent-SafeIn (object ms) token i v s h = elim (Option-cases (find_member token ms)) [
    | inl missing ↦
        rw (missing, add_to_parent) (Safe-bind L _ _ (charge_bytes-SafeIn L _ _ s h) (λ u t k. k))
    | inr (w, e) ↦ rw (e, add_to_parent) h
  ]
  add_to_parent-SafeIn (array xs) token i v s h =
      Safe-bind L _ _ (patch_array_index-SafeIn (array xs) token true i s h)
        (λ n t k. Safe-bind L _ _ (charge_work-SafeIn L _ _ t k) (λ u q b. b))
  add_to_parent-SafeIn _ token i v s h = refl

  add_owned_at_pointer-SafeIn :
      (root : Value) (tokens : List Bytes) (pointer : Bytes) (v : Value)
      → SafeIn L (add_owned_at_pointer root tokens pointer v)
  unfolding add_owned_at_pointer
  add_owned_at_pointer-SafeIn root [] pointer v s h = h
  add_owned_at_pointer-SafeIn root (token ∷ tokens) pointer v s h =
      Safe-bind L _ _ (resolve_patch_tokens-SafeIn root _ pointer s h)
        (λ parent t k. Safe-bind L _ _ (add_to_parent-SafeIn parent _ _ v t k) (λ u q b. b))

  replace_in_parent-SafeIn :
      (parent : Value) (token : Bytes) (i : ℕ) (v : Value)
      → SafeIn L (replace_in_parent parent token i v)
  unfolding replace_in_parent
  replace_in_parent-SafeIn (object ms) token i v s h = elim (Option-cases (find_member token ms)) [
    | inl missing ↦ rw (missing, replace_in_parent) refl
    | inr (w, e) ↦ rw (e, replace_in_parent) h
  ]
  replace_in_parent-SafeIn (array xs) token i v s h =
      Safe-bind L _ _ (patch_array_index-SafeIn (array xs) token false i s h) (λ n t k. k)
  replace_in_parent-SafeIn _ token i v s h = refl

  replace_at_pointer-SafeIn :
      (root : Value) (tokens : List Bytes) (pointer : Bytes) (v : Value)
      → SafeIn L (replace_at_pointer root tokens pointer v)
  unfolding replace_at_pointer
  replace_at_pointer-SafeIn root [] pointer v s h = h
  replace_at_pointer-SafeIn root (token ∷ tokens) pointer v s h =
      Safe-bind L _ _ (resolve_patch_tokens-SafeIn root _ pointer s h)
        (λ parent t k. Safe-bind L _ _ (replace_in_parent-SafeIn parent _ _ v t k) (λ u q b. b))

  detached_item-SafeIn :
      (o : Option Value) (i : ℕ) (token : Bytes) (rest : Value)
      → SafeIn L (detached_item o i token rest)
  detached_item-SafeIn none i token rest s h = refl
  detached_item-SafeIn (some v) i token rest s h = h

  detach_from_parent-SafeIn :
      (parent : Value) (token : Bytes) (i : ℕ) → SafeIn L (detach_from_parent parent token i)
  unfolding detach_from_parent
  detach_from_parent-SafeIn (object ms) token i s h = elim (Option-cases (find_member token ms)) [
    | inl missing ↦ rw (missing, detach_from_parent) refl
    | inr (w, e) ↦ rw (e, detach_from_parent) h
  ]
  detach_from_parent-SafeIn (array xs) token i s h =
      Safe-bind L _ _ (patch_array_index-SafeIn (array xs) token false i s h) (λ n t k.
        Safe-bind L _ _ (charge_work-SafeIn L _ _ t k)
          (λ u. detached_item-SafeIn (item_at xs n) i token (array (erase_item xs n))))
  detach_from_parent-SafeIn _ token i s h = refl

  detach_at_pointer-SafeIn :
      (root : Value) (tokens : List Bytes) (pointer : Bytes)
      → SafeIn L (detach_at_pointer root tokens pointer)
  unfolding detach_at_pointer
  detach_at_pointer-SafeIn root [] pointer s h =
      Safe-bind L _ _ (charge_nodes-SafeIn L _ _ s h)
        (λ u t k. Safe-bind L _ _ (charge_bytes-SafeIn L _ _ t k) (λ w q b. b))
  detach_at_pointer-SafeIn root (token ∷ tokens) pointer s h =
      Safe-bind L _ _ (resolve_patch_tokens-SafeIn root _ pointer s h)
        (λ parent t k. Safe-bind L _ _ (detach_from_parent-SafeIn parent _ _ t k) (λ u q b. b))

  string_member-SafeIn :
      (o : Option Value) (code : PatchCode) (m : String) → SafeIn L (string_member o code m)
  string_member-SafeIn (some (string text)) code m s h = h
  string_member-SafeIn (some v) code m s h = refl
  string_member-SafeIn none code m s h = refl

  value_member-SafeIn : (o : Option Value) → SafeIn L (value_member o)
  value_member-SafeIn none s h = refl
  value_member-SafeIn (some v) s h = h

  require-SafeIn : (b : Bool) (code : PatchCode) (m : String) → SafeIn L (require b code m)
  require-SafeIn true code m s h = h
  require-SafeIn false code m s h = refl

  move_resolved-SafeIn :
      (scratch : Value) (from_tokens : List Bytes) (from : Bytes) (tokens : List Bytes)
      (path : Bytes)
      → SafeIn L (move_resolved scratch from_tokens from tokens path)
  move_resolved-SafeIn scratch from_tokens from tokens path s h =
      elim (Bool-cases (same_pointer_tokens from_tokens tokens)) [
        | inl e ↦ rw e h
        | inr e ↦ rw e (elim (Bool-cases (same_pointer_tokens from_tokens [])) [
          | inl r ↦ rw r refl
          | inr r ↦ rw r (elim (Bool-cases (is_proper_pointer_ancestor from_tokens tokens)) [
            | inl a ↦ rw a refl
            | inr a ↦ rw a (
                Safe-bind L _ _ (detach_at_pointer-SafeIn scratch from_tokens from s h)
                  (λ moved. add_owned_at_pointer-SafeIn moved.1 tokens path moved.0))
          ])
        ])
      ]

  run_operation-SafeIn :
      (scratch : Value) (operation : Operation) → SafeIn L (run_operation scratch operation)
  unfolding run_operation
  run_operation-SafeIn scratch (add tokens path v) s h =
      Safe-bind L _ _ (measure_clone-SafeIn L v s h)
        (λ u. add_owned_at_pointer-SafeIn scratch tokens path v)
  run_operation-SafeIn scratch (replace tokens path v) s h =
      Safe-bind L _ _ (measure_clone-SafeIn L v s h)
        (λ u. replace_at_pointer-SafeIn scratch tokens path v)
  run_operation-SafeIn scratch (test tokens path v) s h =
      Safe-bind L _ _ (resolve_patch_tokens-SafeIn scratch tokens path s h) (λ target t k.
        Safe-bind L _ _ (patch_equal-SafeIn L target v t k)
          (λ equal q b. Safe-bind L _ _ (require-SafeIn equal _ _ q b) (λ w r c. c)))
  run_operation-SafeIn scratch (remove tokens path) s h =
      Safe-bind L _ _ (detach_at_pointer-SafeIn scratch tokens path s h) (λ u t k. k)
  run_operation-SafeIn scratch (copy from_tokens from tokens path) s h =
      Safe-bind L _ _ (resolve_patch_tokens-SafeIn scratch from_tokens from s h) (λ source t k.
        Safe-bind L _ _ (measure_clone-SafeIn L source t k)
          (λ u. add_owned_at_pointer-SafeIn scratch tokens path source))
  run_operation-SafeIn scratch (move from_tokens from tokens path) s h =
      Safe-bind L _ _ (resolve_patch_tokens-SafeIn scratch from_tokens from s h)
        (λ source. move_resolved-SafeIn scratch from_tokens from tokens path)

  decode_source-SafeIn :
      (operation : Value) (op : Bytes) (tokens : List Bytes) (path : Bytes)
      → SafeIn L (decode_source operation op tokens path)
  decode_source-SafeIn operation op tokens path s h =
      Safe-bind L _ _ (string_member-SafeIn (find operation (codes "from")) _ _ s h) (λ from t k.
        Safe-bind L _ _ (decode_patch_pointer-SafeIn from true _ k) (λ from_tokens q b. b))

  decode_rest-SafeIn :
      (operation : Value) (op : Bytes) (tokens : List Bytes) (path : Bytes)
      → SafeIn L (decode_rest operation op tokens path)
  decode_rest-SafeIn operation op tokens path s h =
      elim (Bool-cases (bytes_eq op (codes "move") || bytes_eq op (codes "copy"))) [
        | inl e ↦ rw e (decode_source-SafeIn operation op tokens path s h)
        | inr e ↦ rw e (elim (Bool-cases (bytes_eq op (codes "remove"))) [
          | inl r ↦ rw r h
          | inr r ↦ rw r (
              Safe-bind L _ _ (value_member-SafeIn (find operation (codes "value")) s h)
                (λ v t k. k))
        ])
      ]

  decode_path-SafeIn : (operation : Value) (op : Bytes) → SafeIn L (decode_path operation op)
  decode_path-SafeIn operation op s h =
      Safe-bind L _ _ (string_member-SafeIn (find operation (codes "path")) _ _ s h) (λ path t k.
        Safe-bind L _ _ (decode_patch_pointer-SafeIn path false _ k)
          (λ tokens. decode_rest-SafeIn operation op tokens path))

  decode_members-SafeIn : (operation : Value) → SafeIn L (decode_members operation)
  decode_members-SafeIn operation s h =
      Safe-bind L _ _ (string_member-SafeIn (find operation (codes "op")) _ _ s h) (λ op t k.
        Safe-bind L (require_known op (record t { error = record (t.error) { op = op } })) _
          (require-SafeIn (known_operation op) _ _ _ k) (λ u. decode_path-SafeIn operation op))

  decode_operation-SafeIn : (i : ℕ) (operation : Value) → SafeIn L (decode_operation i operation)
  unfolding decode_operation
  decode_operation-SafeIn i (object ms) s h = decode_members-SafeIn (object ms) _ h
  decode_operation-SafeIn i _ s h = refl

  apply_operations-SafeIn :
      (operations : Items) (i : ℕ) (scratch : Value)
      → SafeIn L (apply_operations operations i scratch)
  unfolding apply_operations
  apply_operations-SafeIn no_items i scratch s h = h
  apply_operations-SafeIn (item operation operations) i scratch s h =
      Safe-bind L _ _ (decode_operation-SafeIn i operation s h) (λ decoded t k.
        Safe-bind L _ _ (run_operation-SafeIn scratch decoded t k)
          (λ edited. apply_operations-SafeIn operations (i + 1) edited))

  patch_document-SafeIn : (target patch : Value) → SafeIn L (patch_document target patch)
  unfolding patch_document
  patch_document-SafeIn target (array operations) s h =
      Safe-bind L _ _ (charge_operations-SafeIn L _ _ s h) (λ u t k.
        Safe-bind L _ _ (measure_clone-SafeIn L target t k)
          (λ w. apply_operations-SafeIn operations 0 target))
  patch_document-SafeIn target _ s h = refl

-- The state in which applyPatch starts.
abbrev pub initial_state : PatchOptions → PatchState
initial_state options = record { budget = patch_budget options; error = reset_patch_error }

pub fresh : (options : PatchOptions) → IsWithin (patch_budget options)
unfolding patch_budget
fresh options = omega arith

-- A run of patch_document from a fresh budget never runs out of fuel; if it succeeds, every counter
-- is within the limit that the options set, and if it fails the error is flagged.
pub patch_document-Safe :
    (target patch : Value) (options : PatchOptions)
    → Safe (limits (patch_budget options)) (patch_document target patch (initial_state options))
patch_document-Safe target patch options =
    patch_document-SafeIn (limits (patch_budget options)) target patch (initial_state options)
      (fresh options, refl)
