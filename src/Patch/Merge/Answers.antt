-- ===== src/Patch/Merge/Answers.antt =====
-- What applyMergePatch shows its caller.
use pjson.Common.{◌≡◌, ◌⊎◌, refl, true, false, inl, inr}
use pjson.Value.{Value}
use pjson.Patch.{
  PatchOptions, Outcome, done, failed, out_of_fuel, patch_budget, Overspent, reset_patch_error,
}
use pjson.Patch.Apply.{Patched, published}
use pjson.Patch.Apply.Safe.{Limits, limits}
use pjson.Patch.Apply.Safe.Operations.{initial_state}
use pjson.Patch.Merge.{merge_document, apply_merge_patch}
use pjson.Patch.Merge.Reference.{merge_patch, IsKeyed}
use pjson.Patch.Merge.Spends.{Spends}
use pjson.Patch.Merge.Exact.{merge_document-Spends}

-- What the caller sees after applyMergePatch.
abbrev pub MergesOrOverspends : Value → Value → Patched → Type 0
MergesOrOverspends target patch p =
    ((p.result ≡ true) × (p.error ≡ reset_patch_error) × (p.document ≡ merge_patch patch target))
    ⊎ ((p.result ≡ false) × Overspent (p.error) × (p.document ≡ target))

published-MergesOrOverspends :
    (L : Limits) (target patch : Value) (o : Outcome Value)
    → Spends L (λ r. r ≡ merge_patch patch target) o
    → MergesOrOverspends target patch (published target o)
published-MergesOrOverspends L target patch (done r s) h = inl (refl, refl, h.1)
published-MergesOrOverspends L target patch (failed e) h = inr (refl, h, refl)
published-MergesOrOverspends L target patch out_of_fuel h = absurd h

-- applyMergePatch returns true with the document of RFC 7396's recursive MergePatch and a reset error,
-- or false with the target unchanged and a ResourceLimit error. The condition is that the patch's
-- objects hold a key once.
pub apply_merge_patch-MergesOrOverspends :
    (target patch : Value) (options : PatchOptions)
    → IsKeyed patch
    → MergesOrOverspends target patch (apply_merge_patch target patch options)
unfolding apply_merge_patch
apply_merge_patch-MergesOrOverspends target patch options keyed =
    published-MergesOrOverspends (limits (patch_budget options)) target patch
      (merge_document target patch (initial_state options))
      (merge_document-Spends target patch options keyed)
