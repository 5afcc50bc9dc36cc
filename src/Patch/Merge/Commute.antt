-- ===== src/Patch/Merge/Commute.antt =====
-- Merges at different keys of one object.
use pjson.Common.{◌≡◌, refl, sym, ap, ◌∙◌, false, none, arith, Bool-cases, inl, inr}
use pjson.Common.Bytes.{Bytes, bytes_eq, bytes_eq_iff}
use pjson.Value.{Value, Members, null, object, no_members, member}
use pjson.Value.ObjectStorage.{find_member, put_member, erase_member}
use pjson.Patch.Merge.{object_members, or_null}
use pjson.Patch.Merge.Reference.{
  merge_patch, merge_object, put_merge, IsPresent, find-put_other, find-erase_other, put-put_other,
  put-erase_other,
}

-- One member of the patch.
abbrev pub merge_step : Bytes → Value → Members → Members
merge_step key null target = erase_member key target
merge_step key value target =
    put_member key (merge_patch value (or_null (find_member key target))) target

pub merge_object-member :
    (key : Bytes) (value : Value) (patch target : Members)
    → merge_object (member key value patch) target
      ≡ merge_object patch (merge_step key value target)
unfolding merge_patch
merge_object-member key null patch target = refl
merge_object-member key value patch target = refl

pub not_later :
    (k j : Bytes) (v : Value) (ms : Members)
    → find_member k (member j v ms) ≡ none
    → (bytes_eq j k ≡ false) × (find_member k ms ≡ none)
unfolding find_member
not_later k j v ms = elim (Bool-cases (bytes_eq j k)) [
  | inl same ↦ rw same (λ h. absurd cc)
  | inr differs ↦ rw differs (λ h. (refl, h))
]

flipped : (k j : Bytes) → bytes_eq j k ≡ false → bytes_eq k j ≡ false
flipped k j h = ground (arith, h, bytes_eq_iff k j, bytes_eq_iff j k)

merge_step-find :
    (k j : Bytes) (v : Value) (t : Members)
    → bytes_eq j k ≡ false
    → find_member k (merge_step j v t) ≡ find_member k t
merge_step-find k j null t h = find-erase_other k j t h
merge_step-find k j v t h = find-put_other k j (merge_patch v (or_null (find_member j t))) t h

put-merge_step :
    (k j : Bytes) (w v : Value) (t : Members)
    → bytes_eq j k ≡ false
    → IsPresent k t
    → put_member k w (merge_step j v t) ≡ merge_step j v (put_member k w t)
put-merge_step k j w null t h here = put-erase_other k j w t h here
put-merge_step k j w v t h here =
    put-put_other k j w (merge_patch v (or_null (find_member j t))) t h here
    ∙ ap (λ o. put_member j (merge_patch v (or_null o)) (put_member k w t))
        (sym (find-put_other j k w t (flipped k j h)))

put_merge-merge_step :
    (k j : Bytes) (q : Members) (v : Value) (t : Members)
    → bytes_eq j k ≡ false
    → IsPresent k t
    → put_merge k q (merge_step j v t) ≡ merge_step j v (put_merge k q t)
put_merge-merge_step k j q v t h here =
    ap (λ o. put_member k (object (merge_object q (object_members (or_null o)))) (merge_step j v t))
      (merge_step-find k j v t h)
    ∙ put-merge_step k j (object (merge_object q (object_members (or_null (find_member k t))))) v t
        h here

pub put_merge-merge_object :
    (k : Bytes) (q ps t : Members)
    → find_member k ps ≡ none
    → IsPresent k t
    → put_merge k q (merge_object ps t) ≡ merge_object ps (put_merge k q t)
unfolding merge_patch
put_merge-merge_object k q no_members t h here = refl
put_merge-merge_object k q (member j v ps) t h (u, e) =
    let (differs, later) = not_later k j v ps h in
    ap (put_merge k q) (merge_object-member j v ps t)
    ∙ put_merge-merge_object k q ps (merge_step j v t) later
        (u, merge_step-find k j v t differs ∙ e)
    ∙ ap (merge_object ps) (put_merge-merge_step k j q v t differs (u, e))
    ∙ sym (merge_object-member j v ps (put_merge k q t))
