-- ===== src/Patch/Merge/Reference.antt =====
-- RFC 7396's recursive MergePatch, and how its steps at different keys commute.
use pjson.Common.{◌≡◌, refl, sym, ap, ◌∙◌, false, some, arith, Bool-cases, inl, inr}
use pjson.Common.Bytes.{Bytes, bytes_eq, bytes_eq_iff, bytes_eq_refl}
use pjson.Value.{Value, Members, null, object, no_members, member}
use pjson.Value.ObjectStorage.{
  find_member, put_member, erase_member, find_member-put_member, HasUniqueKeys,
}
use pjson.Patch.Merge.{object_members, or_null}

unfoldable mutual
  pub merge_patch : Value → Value → Value
  merge_patch (object patch) target = object (merge_object patch (object_members target))
  merge_patch value target = value

  pub merge_object : Members → Members → Members
  merge_object no_members target = target
  merge_object (member key null patch) target = merge_object patch (erase_member key target)
  merge_object (member key value patch) target =
      merge_object patch
        (put_member key (merge_patch value (or_null (find_member key target))) target)

-- The merge of an object of the patch into the child at a key.
abbrev pub put_merge : Bytes → Members → Members → Members
put_merge key patch target =
    put_member key (object (merge_object patch (object_members (or_null (find_member key target)))))
      target

-- Every object of the patch holds a key once.
unfoldable mutual
  pub IsKeyed : Value → Type 0
  IsKeyed (object ms) = HasUniqueKeys ms × AreKeyed ms
  IsKeyed _ = Unit

  pub AreKeyed : Members → Type 0
  AreKeyed no_members = Unit
  AreKeyed (member key value ms) = IsKeyed value × AreKeyed ms

abbrev pub IsPresent : Bytes → Members → Type 0
IsPresent key ms = (v : Value) × (find_member key ms ≡ some v)

pub put-put_same :
    (k : Bytes) (v w : Value) (ms : Members)
    → put_member k w (put_member k v ms) ≡ put_member k w ms
unfolding put_member
put-put_same k v w no_members = rw (bytes_eq_refl k) refl
put-put_same k v w (member j u ms) = elim (Bool-cases (bytes_eq j k)) [
  | inl same ↦ rw same (rw (same, put_member) refl)
  | inr differs ↦ rw differs (rw (differs, put_member) (ap (member j u) (put-put_same k v w ms)))
]

pub find-put_same :
    (k : Bytes) (v : Value) (ms : Members) → find_member k (put_member k v ms) ≡ some v
find-put_same k v ms = rw (find_member-put_member k k v ms, bytes_eq_refl k) refl

pub find-put_other :
    (k j : Bytes) (v : Value) (ms : Members)
    → bytes_eq j k ≡ false
    → find_member k (put_member j v ms) ≡ find_member k ms
find-put_other k j v ms h = rw (find_member-put_member j k v ms, h) refl

pub find-erase_other :
    (k j : Bytes) (ms : Members)
    → bytes_eq j k ≡ false
    → find_member k (erase_member j ms) ≡ find_member k ms
unfolding find_member erase_member
find-erase_other k j no_members h = refl
find-erase_other k j (member i v ms) h =
    ground
      (arith, h, bytes_eq_iff i j, bytes_eq_iff i k, bytes_eq_iff j k, find-erase_other k j ms h)

IsPresent-later :
    (k i : Bytes) (v : Value) (ms : Members)
    → bytes_eq i k ≡ false
    → IsPresent k (member i v ms)
    → IsPresent k ms
unfolding find_member
IsPresent-later k i v ms h (w, e) = (w, sym (rw h refl) ∙ e)

-- Writing at a key that is there commutes with writing and erasing at another.
pub put-put_other :
    (k j : Bytes) (v w : Value) (ms : Members)
    → bytes_eq j k ≡ false
    → IsPresent k ms
    → put_member k v (put_member j w ms) ≡ put_member j w (put_member k v ms)
unfolding put_member find_member
put-put_other k j v w no_members h (u, e) = absurd cc
put-put_other k j v w (member i u ms) h here = elim (Bool-cases (bytes_eq i k)) [
  | inl same ↦
      let other : bytes_eq i j ≡ false =
        ground (arith, h, same, bytes_eq_iff i k, bytes_eq_iff i j, bytes_eq_iff j k) in
      rw (same, other) (rw (same, put_member) refl)
  | inr differs ↦ elim (Bool-cases (bytes_eq i j)) [
    | inl same ↦ rw (same, differs) (rw (same, put_member) refl)
    | inr other ↦
        rw (other, differs)
          (rw (other, put_member)
            (ap (member i u) (put-put_other k j v w ms h (IsPresent-later k i u ms differs here))))
  ]
]

pub put-erase_other :
    (k j : Bytes) (v : Value) (ms : Members)
    → bytes_eq j k ≡ false
    → IsPresent k ms
    → put_member k v (erase_member j ms) ≡ erase_member j (put_member k v ms)
unfolding put_member find_member erase_member
put-erase_other k j v no_members h (u, e) = absurd cc
put-erase_other k j v (member i u ms) h here = elim (Bool-cases (bytes_eq i k)) [
  | inl same ↦
      let other : bytes_eq i j ≡ false =
        ground (arith, h, same, bytes_eq_iff i k, bytes_eq_iff i j, bytes_eq_iff j k) in
      rw (same, other) (rw (same, put_member, erase_member) refl)
  | inr differs ↦ elim (Bool-cases (bytes_eq i j)) [
    | inl same ↦ rw (same, differs) (rw (same, erase_member) refl)
    | inr other ↦
        rw (other, differs)
          (rw (other, erase_member)
            (ap (member i u) (put-erase_other k j v ms h (IsPresent-later k i u ms differs here))))
  ]
]
