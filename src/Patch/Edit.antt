-- ===== src/Patch/Edit.antt =====
-- The edits of a JSON Patch: decodePatchPointer, resolvePatchTokens, patchArrayIndex,
-- addOwnedAtPointer, replaceAtPointer and detachAtPointer.
-- The source edits through the pointer to the parent node; here the edited parent is stored back
-- where its tokens lead.
use pjson.Common.{
  ℕ, ◌+◌, ◌-◌, Bool, true, false, Option, none, some, List, [], ◌∷◌, length, ltb, leb,
  if◌then◌else◌,
}
use pjson.Common.Bytes.{Bytes, bytes_eq}
use pjson.Value.{Value, null, array, object}
use pjson.Value.ArrayStorage.{items_size, item_at, set_item, insert_item, erase_item}
use pjson.Value.ObjectStorage.{find_member, put_member, erase_member}
use pjson.Value.Access.{size}
use pjson.Pointer.{
  PointerCode, PointerError, PointerResult, found, pointer_failed, invalid_syntax, invalid_escape,
  missing_target, append_token_not_allowed, expected_container,
}
use pjson.Pointer as P
use pjson.Pointer.Index.{
  PointerIndexResult, index_ok, index_invalid, index_overflow, parse_pointer_index,
}
use pjson.Pointer.Tokens.{decode_pointer}
use pjson.Pointer.Resolve.{dash, resolve_pointer_tokens}
use pjson.Patch.{
  PatchCode, Patching, done, pure, ◌>>=◌, ◌>>◌, fail_patch_at_token, charge_work, charge_nodes,
  charge_bytes, invalid_from, invalid_path, invalid_array_index, array_index_out_of_range,
  target_missing,
}
use pjson.Patch.Measure.{sizeof_pjson}

-- pointerCodeForPatch
unfoldable pub pointer_code_for_patch : PointerCode → PatchCode
pointer_code_for_patch P.invalid_array_index = invalid_array_index
pointer_code_for_patch append_token_not_allowed = invalid_array_index
pointer_code_for_patch P.array_index_out_of_range = array_index_out_of_range
pointer_code_for_patch missing_target = target_missing
pointer_code_for_patch expected_container = target_missing
pointer_code_for_patch _ = target_missing

unfoldable pub decode_patch_pointer : Bytes → Bool → Patching (List Bytes)
unfolding decode_pointer
decode_patch_pointer pointer is_from = do
  charge_work (length pointer + 1) "JSON patch work budget exceeded"
  (λ s. elim (decode_pointer pointer) [
    | found tokens ↦ done tokens s
    | pointer_failed e ↦
        fail_patch_at_token (if is_from then invalid_from else invalid_path) e.token_index e.token
          e.message s
  ])

-- The tokens are those before `count`.
unfoldable pub resolve_patch_tokens : Value → List Bytes → Bytes → Patching Value
unfolding resolve_pointer_tokens pointer_code_for_patch
resolve_patch_tokens root tokens pointer = do
  charge_work (length tokens + 1) "JSON patch work budget exceeded"
  (λ s. elim (resolve_pointer_tokens root tokens 0 pointer) [
    | found node ↦ done node s
    | pointer_failed e ↦
        fail_patch_at_token (pointer_code_for_patch e.code) e.token_index e.token e.message s
  ])

-- The second part is bAppend in the source; it is not read by the callers.
abbrev pub index_in_array : PointerIndexResult → ℕ → Bytes → Bool → ℕ → Patching ℕ
index_in_array index_invalid count token allow_append token_index =
    fail_patch_at_token invalid_array_index token_index token "array index is not canonical decimal"
index_in_array index_overflow count token allow_append token_index =
    fail_patch_at_token array_index_out_of_range token_index token "array index is out of range"
index_in_array (index_ok index) count token allow_append token_index =
    if (if allow_append then ltb count index else leb count index)
    then fail_patch_at_token array_index_out_of_range token_index token
        "array index is out of range"
    else pure index

unfoldable pub patch_array_index : Value → Bytes → Bool → ℕ → Patching ℕ
unfolding size parse_pointer_index
patch_array_index parent token allow_append token_index =
    if bytes_eq token dash
    then (if allow_append
        then pure (size parent)
        else fail_patch_at_token invalid_array_index token_index token
            "the '-' token is valid only for add destinations")
    else index_in_array (parse_pointer_index token) (size parent) token allow_append token_index

-- Putting a node in the place that tokens lead to; nothing happens where they lead nowhere.
unfoldable pub store_at : Value → List Bytes → Value → Value
store_at root [] node = node
store_at (object ms) (token ∷ tokens) node = elim (find_member token ms) [
  | none ↦ object ms
  | some child ↦ object (put_member token (store_at child tokens node) ms)
]
store_at (array xs) (token ∷ tokens) node = elim (parse_pointer_index token) [
  | index_ok i ↦ elim (item_at xs i) [
    | none ↦ array xs
    | some child ↦ array (set_item xs i (store_at child tokens node))
  ]
  | _ ↦ array xs
]
store_at root (token ∷ tokens) node = root

abbrev pub init_tokens : Bytes → List Bytes → List Bytes
init_tokens token [] = []
init_tokens token (next ∷ tokens) = token ∷ init_tokens next tokens

abbrev pub last_token : Bytes → List Bytes → Bytes
last_token token [] = token
last_token token (next ∷ tokens) = last_token next tokens

-- The parent with the value added under a token.
unfoldable pub add_to_parent : Value → Bytes → ℕ → Value → Patching Value
unfolding patch_array_index
add_to_parent (object ms) token final_index value = elim (find_member token ms) [
  | some existing ↦ pure (object (put_member token value ms))
  | none ↦ do
    charge_bytes (length token) "JSON Patch cloned-byte budget exceeded"
    pure (object (put_member token value ms))
]
add_to_parent (array xs) token final_index value = do
  index ← patch_array_index (array xs) token true final_index
  charge_work (items_size xs - index) "JSON Patch work budget exceeded"
  pure (array (insert_item xs index value))
add_to_parent _ token final_index value =
    fail_patch_at_token target_missing final_index token "add destination parent is not a container"

unfoldable pub add_owned_at_pointer : Value → List Bytes → Bytes → Value → Patching Value
unfolding resolve_patch_tokens add_to_parent store_at
add_owned_at_pointer root [] pointer value = pure value
add_owned_at_pointer root (token ∷ tokens) pointer value = do
  let path = init_tokens token tokens
  parent ← resolve_patch_tokens root path pointer
  edited ← add_to_parent parent (last_token token tokens) (length path) value
  pure (store_at root path edited)

unfoldable pub replace_in_parent : Value → Bytes → ℕ → Value → Patching Value
unfolding patch_array_index
replace_in_parent (object ms) token final_index value = elim (find_member token ms) [
  | some existing ↦ pure (object (put_member token value ms))
  | none ↦ fail_patch_at_token target_missing final_index token "replace target does not exist"
]
replace_in_parent (array xs) token final_index value = do
  index ← patch_array_index (array xs) token false final_index
  pure (array (set_item xs index value))
replace_in_parent _ token final_index value =
    fail_patch_at_token target_missing final_index token "replace target parent is not a container"

unfoldable pub replace_at_pointer : Value → List Bytes → Bytes → Value → Patching Value
unfolding resolve_patch_tokens replace_in_parent store_at
replace_at_pointer root [] pointer value = pure value
replace_at_pointer root (token ∷ tokens) pointer value = do
  let path = init_tokens token tokens
  parent ← resolve_patch_tokens root path pointer
  edited ← replace_in_parent parent (last_token token tokens) (length path) value
  pure (store_at root path edited)

-- The detached node and the parent without it.
abbrev pub detached_item : Option Value → ℕ → Bytes → Value → Patching (Value × Value)
detached_item none final_index token rest =
    fail_patch_at_token array_index_out_of_range final_index token "array index is out of range"
detached_item (some v) final_index token rest = pure (v, rest)

unfoldable pub detach_from_parent : Value → Bytes → ℕ → Patching (Value × Value)
unfolding patch_array_index
detach_from_parent (object ms) token final_index = elim (find_member token ms) [
  | some existing ↦ pure (existing, object (erase_member token ms))
  | none ↦ fail_patch_at_token target_missing final_index token "remove source does not exist"
]
detach_from_parent (array xs) token final_index = do
  index ← patch_array_index (array xs) token false final_index
  charge_work (items_size xs - index - 1) "JSON Patch work budget exceeded"
  detached_item (item_at xs index) final_index token (array (erase_item xs index))
detach_from_parent _ token final_index =
    fail_patch_at_token target_missing final_index token "remove source parent is not a container"

-- The detached node and the new root, which is null where the root itself is detached.
unfoldable pub detach_at_pointer : Value → List Bytes → Bytes → Patching (Value × Value)
unfolding resolve_patch_tokens detach_from_parent store_at
detach_at_pointer root [] pointer = do
  charge_nodes 1 "JSON Patch cloned-node budget exceeded"
  charge_bytes sizeof_pjson "JSON Patch cloned-byte budget exceeded"
  pure (root, null)
detach_at_pointer root (token ∷ tokens) pointer = do
  let path = init_tokens token tokens
  parent ← resolve_patch_tokens root path pointer
  (value, edited) ← detach_from_parent parent (last_token token tokens) (length path)
  pure (value, store_at root path edited)
