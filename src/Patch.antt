-- ===== src/Patch.antt =====
-- RFC 6902 JSON Patch and RFC 7396 Merge Patch: pjsonlib/src/pjson_patch.cpp.
-- The budget and the PatchError that the source passes by reference are one state; `failed` is a
-- return of false. Allocation failure is outside the model.
pub mod Measure
pub mod Compare
pub mod Edit
pub mod Apply
pub mod Merge
use pjson.Common.{
  ℕ, ◌+◌, ◌-◌, ◌*◌, ◌≤◌, ◌≡◌, refl, Bool, true, false, String, Option, none, some, List, [], ltb,
  ◌==◌, if◌then◌else◌, min,
}
use pjson.Common.Bytes.{Bytes}

-- pjson::PatchError::Code
pub data PatchCode : Type 0 where
  no_error invalid_patch_document operation_not_object missing_op invalid_op : PatchCode
  missing_path invalid_path missing_from invalid_from missing_value : PatchCode
  invalid_array_index array_index_out_of_range target_missing test_failed : PatchCode
  move_root_not_allowed move_into_descendant resource_limit internal_error : PatchCode

pub record PatchError : Type 0 where
  pub ok : Bool
  pub code : PatchCode
  pub op_index : ℕ
  pub op : Bytes
  pub path : Bytes
  pub from : Bytes
  pub token_index : ℕ
  pub token : Bytes
  pub message : String

-- resetPatchError
abbrev pub reset_patch_error : PatchError
reset_patch_error = record {
  ok = true;
  code = no_error;
  op_index = 0;
  op = [];
  path = [];
  from = [];
  token_index = 0;
  token = [];
  message = "";
}

pub record PatchOptions : Type 0 where
  pub max_operations : ℕ
  pub max_cloned_nodes : ℕ
  pub max_cloned_bytes : ℕ
  pub max_work : ℕ

pub record PatchBudget : Type 0 where
  pub operations : ℕ
  pub nodes : ℕ
  pub bytes : ℕ
  pub work : ℕ
  pub operation_limit : ℕ
  pub node_limit : ℕ
  pub byte_limit : ℕ
  pub work_limit : ℕ

abbrev or_default : ℕ → ℕ → ℕ
or_default n default = if n == 0 then default else n

-- The constructor of PatchBudget: a limit of 0 stands for the default.
unfoldable pub patch_budget : PatchOptions → PatchBudget
patch_budget options = record {
  operations = 0;
  nodes = 0;
  bytes = 0;
  work = 0;
  operation_limit = or_default options.max_operations 10000;
  node_limit = or_default options.max_cloned_nodes 1000000;
  byte_limit = or_default options.max_cloned_bytes (64 * 1024 * 1024);
  work_limit = or_default options.max_work 1000000;
}

pub record PatchState : Type 0 where
  pub budget : PatchBudget
  pub error : PatchError

-- `out_of_fuel` has no counterpart in the source; it is shown never to be reached.
pub data Outcome {ℓ} (A : Type ℓ) : Type ℓ where
  done : A → PatchState → Outcome A
  failed : PatchError → Outcome A
  out_of_fuel : Outcome A

abbrev pub Patching {ℓ} : Type ℓ → Type ℓ
Patching A = PatchState → Outcome A

abbrev pub pure {ℓ} : {A : Type ℓ} → A → Patching A
pure a s = done a s

abbrev pub bind {ℓ κ} : {A : Type ℓ} {B : Type κ} → Outcome A → (A → Patching B) → Outcome B
bind (done a s) f = f a s
bind (failed e) f = failed e
bind out_of_fuel f = out_of_fuel

infixl 5 ◌>>=◌ ◌>>◌
abbrev pub ◌>>=◌ {ℓ κ} : {A : Type ℓ} {B : Type κ} → Patching A → (A → Patching B) → Patching B
◌>>=◌ m f s = bind (m s) f

abbrev pub ◌>>◌ {ℓ} : {B : Type ℓ} → Patching (Unit {0}) → Patching B → Patching B
m >> k = m >>= λ _. k

-- failPatch: the metadata set by the caller is kept.
abbrev pub fail_patch {ℓ} : {A : Type ℓ} → PatchCode → String → Patching A
fail_patch code message s = failed (record (s.error) { ok = false; code = code; message = message })

abbrev pub fail_patch_at_token {ℓ} : {A : Type ℓ} → PatchCode → ℕ → Bytes → String → Patching A
fail_patch_at_token code token_index token message s = failed (record (s.error) {
  ok = false;
  code = code;
  token_index = token_index;
  token = token;
  message = message;
})

-- chargePatch on one counter: the new count, if the amount fits what is left.
abbrev pub charge_patch : ℕ → ℕ → ℕ → Option ℕ
charge_patch used limit amount =
    if ltb (limit - min used limit) amount then none else some (used + amount)

abbrev set_operations : PatchState → ℕ → PatchState
set_operations s n = record s { budget = record (s.budget) { operations = n } }

abbrev set_nodes : PatchState → ℕ → PatchState
set_nodes s n = record s { budget = record (s.budget) { nodes = n } }

abbrev set_bytes : PatchState → ℕ → PatchState
set_bytes s n = record s { budget = record (s.budget) { bytes = n } }

abbrev set_work : PatchState → ℕ → PatchState
set_work s n = record s { budget = record (s.budget) { work = n } }

abbrev charged : Option ℕ → (ℕ → PatchState) → String → Patching (Unit {0})
charged none put message s = fail_patch resource_limit message s
charged (some n) put message s = done tt (put n)

unfoldable pub charge_operations : ℕ → String → Patching (Unit {0})
charge_operations amount message s =
    charged (charge_patch s.budget.operations s.budget.operation_limit amount) (set_operations s)
      message s

unfoldable pub charge_nodes : ℕ → String → Patching (Unit {0})
charge_nodes amount message s =
    charged (charge_patch s.budget.nodes s.budget.node_limit amount) (set_nodes s) message s

unfoldable pub charge_bytes : ℕ → String → Patching (Unit {0})
charge_bytes amount message s =
    charged (charge_patch s.budget.bytes s.budget.byte_limit amount) (set_bytes s) message s

unfoldable pub charge_work : ℕ → String → Patching (Unit {0})
charge_work amount message s =
    charged (charge_patch s.budget.work s.budget.work_limit amount) (set_work s) message s

-- A failure for want of budget.
abbrev pub Overspent : PatchError → Type 0
Overspent e = (e.code ≡ resource_limit) × (e.ok ≡ false)

-- The counters stay within their limits.
pub record IsWithin (b : PatchBudget) : Type 0 where
  pub operations_le : b.operations ≤ b.operation_limit
  pub nodes_le : b.nodes ≤ b.node_limit
  pub bytes_le : b.bytes ≤ b.byte_limit
  pub work_le : b.work ≤ b.work_limit
