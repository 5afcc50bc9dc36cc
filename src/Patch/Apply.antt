-- ===== src/Patch/Apply.antt =====
-- applyPatch: an operation sequence on a scratch copy, published only if every operation succeeds.
pub mod Safe
use pjson.Common.{
  ℕ, zero, suc, ◌+◌, ◌<◌, Bool, true, false, ◌&&◌, ◌||◌, not, String, Option, none, some, List, [],
  ◌∷◌, length, ltb, if◌then◌else◌,
}
use pjson.Common.Bytes.{Bytes, codes, bytes_eq}
use pjson.Value.{Value, Items, null, string, array, object, no_items, item}
use pjson.Value.ArrayStorage.{items_size}
use pjson.Value.Access.{find}
use pjson.Patch.{
  PatchState, PatchError, PatchCode, PatchOptions, Patching, Outcome, done, failed, out_of_fuel,
  pure, bind, ◌>>=◌, ◌>>◌, fail_patch, patch_budget, reset_patch_error, charge_operations,
  invalid_patch_document, operation_not_object, missing_op, invalid_op, missing_path, missing_from,
  missing_value, test_failed, move_root_not_allowed, move_into_descendant,
}
use pjson.Patch.Measure.{measure_clone}
use pjson.Patch.Compare.{patch_equal}
use pjson.Patch.Edit.{
  decode_patch_pointer, resolve_patch_tokens, add_owned_at_pointer, replace_at_pointer,
  detach_at_pointer,
}

-- samePointerTokens
unfoldable pub same_pointer_tokens : List Bytes → List Bytes → Bool
same_pointer_tokens [] [] = true
same_pointer_tokens [] (t ∷ ts) = false
same_pointer_tokens (t ∷ ts) [] = false
same_pointer_tokens (t ∷ ts) (u ∷ us) = bytes_eq t u && same_pointer_tokens ts us

-- isProperPointerAncestor
abbrev starts_tokens : List Bytes → List Bytes → Bool
starts_tokens [] us = true
starts_tokens (t ∷ ts) [] = false
starts_tokens (t ∷ ts) (u ∷ us) = bytes_eq t u && starts_tokens ts us

unfoldable pub is_proper_pointer_ancestor : List Bytes → List Bytes → Bool
is_proper_pointer_ancestor ancestor descendant =
    ltb (length ancestor) (length descendant) && starts_tokens ancestor descendant

-- The error's metadata, which the source writes as it decodes an operation.
abbrev start_operation : ℕ → Patching (Unit {0})
start_operation op_index s = done tt (record s {
  error = record (s.error) {
    op_index = op_index;
    op = [];
    path = [];
    from = [];
    token_index = 0;
    token = [];
    message = "";
  };
})

abbrev note_op : Bytes → Patching (Unit {0})
note_op op s = done tt (record s { error = record (s.error) { op = op } })

abbrev note_path : Bytes → Patching (Unit {0})
note_path path s = done tt (record s { error = record (s.error) { path = path } })

abbrev note_from : Bytes → Patching (Unit {0})
note_from from s = done tt (record s { error = record (s.error) { from = from } })

-- A member that must be a string.
abbrev pub string_member : Option Value → PatchCode → String → Patching Bytes
string_member (some (string text)) code message = pure text
string_member _ code message = fail_patch code message

abbrev pub value_member : Option Value → Patching Value
value_member none = fail_patch missing_value "add, replace, and test require member 'value'"
value_member (some value) = pure value

abbrev pub known_operation : Bytes → Bool
known_operation op =
    bytes_eq op (codes "add")
    || bytes_eq op (codes "remove")
    || bytes_eq op (codes "replace")
    || bytes_eq op (codes "move")
    || bytes_eq op (codes "copy")
    || bytes_eq op (codes "test")

abbrev pub require : Bool → PatchCode → String → Patching (Unit {0})
require true code message = pure tt
require false code message = fail_patch code message

-- The operations on the scratch document. `value`, `path` and `from` are decoded members.
unfoldable pub apply_add : Value → List Bytes → Bytes → Value → Patching Value
unfolding measure_clone add_owned_at_pointer
apply_add scratch tokens path value = do
  measure_clone value
  add_owned_at_pointer scratch tokens path value

unfoldable pub apply_remove : Value → List Bytes → Bytes → Patching Value
unfolding detach_at_pointer
apply_remove scratch tokens path = do
  (removed, rest) ← detach_at_pointer scratch tokens path
  pure rest

unfoldable pub apply_replace : Value → List Bytes → Bytes → Value → Patching Value
unfolding measure_clone replace_at_pointer
apply_replace scratch tokens path value = do
  measure_clone value
  replace_at_pointer scratch tokens path value

unfoldable pub apply_test : Value → List Bytes → Bytes → Value → Patching Value
unfolding resolve_patch_tokens patch_equal
apply_test scratch tokens path value = do
  target ← resolve_patch_tokens scratch tokens path
  equal ← patch_equal target value
  require equal test_failed "JSON Patch test value does not match target"
  pure scratch

unfoldable pub apply_copy : Value → List Bytes → Bytes → List Bytes → Bytes → Patching Value
unfolding resolve_patch_tokens measure_clone add_owned_at_pointer
apply_copy scratch from_tokens from tokens path = do
  source ← resolve_patch_tokens scratch from_tokens from
  measure_clone source
  add_owned_at_pointer scratch tokens path source

abbrev move_detached : Value → List Bytes → Bytes → List Bytes → Bytes → Patching Value
move_detached scratch from_tokens from tokens path = do
  (moved, rest) ← detach_at_pointer scratch from_tokens from
  add_owned_at_pointer rest tokens path moved

-- `fromTokens.empty()` is the test against no tokens.
abbrev pub move_resolved : Value → List Bytes → Bytes → List Bytes → Bytes → Patching Value
move_resolved scratch from_tokens from tokens path =
    if same_pointer_tokens from_tokens tokens
    then pure scratch
    else if same_pointer_tokens from_tokens []
    then fail_patch move_root_not_allowed "cannot move the document root below itself"
    else if is_proper_pointer_ancestor from_tokens tokens
    then fail_patch move_into_descendant "cannot move a value into one of its descendants"
    else move_detached scratch from_tokens from tokens path

unfoldable pub apply_move : Value → List Bytes → Bytes → List Bytes → Bytes → Patching Value
unfolding resolve_patch_tokens detach_at_pointer add_owned_at_pointer same_pointer_tokens
    is_proper_pointer_ancestor
apply_move scratch from_tokens from tokens path = do
  source ← resolve_patch_tokens scratch from_tokens from
  move_resolved scratch from_tokens from tokens path

-- An operation with its metadata read.
pub data Operation : Type 0 where
  add replace test : List Bytes → Bytes → Value → Operation
  remove : List Bytes → Bytes → Operation
  copy move : List Bytes → Bytes → List Bytes → Bytes → Operation

abbrev operation_with_value : Bytes → List Bytes → Bytes → Value → Operation
operation_with_value op tokens path value =
    if bytes_eq op (codes "add")
    then add tokens path value
    else if bytes_eq op (codes "replace")
    then replace tokens path value
    else test tokens path value

abbrev pub decode_source : Value → Bytes → List Bytes → Bytes → Patching Operation
decode_source operation op tokens path = do
  from ←
      string_member (find operation (codes "from")) missing_from
        "move and copy require string member 'from'"
  note_from from
  from_tokens ← decode_patch_pointer from true
  pure (
      if bytes_eq op (codes "copy")
      then copy from_tokens from tokens path
      else move from_tokens from tokens path)

abbrev pub decode_rest : Value → Bytes → List Bytes → Bytes → Patching Operation
decode_rest operation op tokens path =
    if bytes_eq op (codes "move") || bytes_eq op (codes "copy")
    then decode_source operation op tokens path
    else if bytes_eq op (codes "remove")
    then pure (remove tokens path)
    else (do
      value ← value_member (find operation (codes "value"))
      pure (operation_with_value op tokens path value))

abbrev pub require_known : Bytes → Patching (Unit {0})
require_known op =
    require (known_operation op) invalid_op "JSON Patch operation name is not supported"

abbrev pub decode_path : Value → Bytes → Patching Operation
decode_path operation op = do
  path ←
      string_member (find operation (codes "path")) missing_path
        "JSON Patch operation requires string member 'path'"
  note_path path
  tokens ← decode_patch_pointer path false
  decode_rest operation op tokens path

abbrev pub decode_members : Value → Patching Operation
decode_members operation = do
  op ←
      string_member (find operation (codes "op")) missing_op
        "JSON Patch operation requires string member 'op'"
  note_op op
  require_known op
  decode_path operation op

unfoldable pub decode_operation : ℕ → Value → Patching Operation
unfolding find decode_patch_pointer
decode_operation op_index (object ms) = do start_operation op_index; decode_members (object ms)
decode_operation op_index _ = do
  start_operation op_index
  fail_patch operation_not_object "JSON Patch operation must be an object"

unfoldable pub run_operation : Value → Operation → Patching Value
unfolding apply_add apply_replace apply_test apply_remove apply_copy apply_move
run_operation scratch (add tokens path value) = apply_add scratch tokens path value
run_operation scratch (replace tokens path value) = apply_replace scratch tokens path value
run_operation scratch (test tokens path value) = apply_test scratch tokens path value
run_operation scratch (remove tokens path) = apply_remove scratch tokens path
run_operation scratch (copy from_tokens from tokens path) =
    apply_copy scratch from_tokens from tokens path
run_operation scratch (move from_tokens from tokens path) =
    apply_move scratch from_tokens from tokens path

-- The loop over the operations.
unfoldable pub apply_operations : Items → ℕ → Value → Patching Value
unfolding decode_operation run_operation
apply_operations no_items op_index scratch = pure scratch
apply_operations (item operation operations) op_index scratch = do
  decoded ← decode_operation op_index operation
  edited ← run_operation scratch decoded
  apply_operations operations (op_index + 1) edited

unfoldable pub patch_document : Value → Value → Patching Value
unfolding apply_operations measure_clone
patch_document target (array operations) = do
  charge_operations (items_size operations) "JSON Patch operation budget exceeded"
  measure_clone target
  apply_operations operations 0 target
patch_document target _ = fail_patch invalid_patch_document "JSON Patch document must be an array"

-- The result, the document and the error that the caller sees.
pub record Patched : Type 0 where
  pub result : Bool
  pub document : Value
  pub error : PatchError

abbrev pub published : Value → Outcome Value → Patched
published target (done scratch s) = record {
  result = true;
  document = scratch;
  error = reset_patch_error;
}
published target (failed e) = record { result = false; document = target; error = e }
published target out_of_fuel = record {
  result = false;
  document = target;
  error = reset_patch_error;
}

unfoldable pub apply_patch : Value → Value → PatchOptions → Patched
unfolding patch_document patch_budget
apply_patch target patch options = published target (
    patch_document target patch
      (record { budget = patch_budget options; error = reset_patch_error }))
