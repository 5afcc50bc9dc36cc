-- ===== src/Patch/Merge/Worklist.antt =====
-- The merges that a worklist holds, done one after the other on the scratch document.
use pjson.Common.{ℕ, suc, ◌+◌, ◌≡◌, refl, ap, ◌∙◌, List, [], ◌∷◌, ◌++◌, arith}
use pjson.Common.Bytes.{Bytes}
use pjson.Value.{Value, Members, object}
use pjson.Value.Nodes.{members_nodes}
use pjson.Value.ObjectStorage.{find_member, put_member, HasUniqueKeys}
use pjson.Patch.Merge.{MergeItem, object_members, or_null, members_at, store_members}
use pjson.Patch.Merge.Reference.{merge_object, put_merge, AreKeyed, put-put_same, find-put_same}

abbrev pub finish : List MergeItem → Value → Value
finish [] v = v
finish (item ∷ work) v =
    finish work
      (store_members v (item.target) (merge_object (item.patch) (members_at v (item.target))))

pub finish-append :
    (new work : List MergeItem) (v : Value) → finish (new ++ work) v ≡ finish work (finish new v)
finish-append [] work v = refl
finish-append (item ∷ new) work v =
    finish-append new work
      (store_members v (item.target) (merge_object (item.patch) (members_at v (item.target))))

-- The rounds that a worklist may take.
abbrev pub pending : List MergeItem → ℕ
pending [] = 0
pending (item ∷ work) = suc (members_nodes (item.patch) + pending work)

pub pending-append :
    (new work : List MergeItem) → pending (new ++ work) ≡ pending new + pending work
pending-append [] work = omega arith
pending-append (item ∷ new) work = omega (arith, pending-append new work)

abbrev pub KeyedItem : MergeItem → Type 0
KeyedItem item = HasUniqueKeys (item.patch) × AreKeyed (item.patch)

abbrev pub KeyedWork : List MergeItem → Type 0
KeyedWork [] = Unit
KeyedWork (item ∷ work) = KeyedItem item × KeyedWork work

pub append-KeyedWork :
    (new work : List MergeItem) → KeyedWork new → KeyedWork work → KeyedWork (new ++ work)
append-KeyedWork [] work h g = g
append-KeyedWork (item ∷ new) work (i, h) g = (i, append-KeyedWork new work h g)

-- ChildMerges to merge into, by their keys below one path.
abbrev pub ChildMerges : Type 0
ChildMerges = List (Bytes × Members)

abbrev pub below : List Bytes → ChildMerges → List MergeItem
below path [] = []
below path ((key, patch) ∷ new) =
    record { target = path ++ key ∷ []; patch = patch } ∷ below path new

abbrev pub finish_children : ChildMerges → Members → Members
finish_children [] t = t
finish_children ((key, patch) ∷ new) t = finish_children new (put_merge key patch t)

pub finish_children-append :
    (new more : ChildMerges) (t : Members)
    → finish_children (new ++ more) t ≡ finish_children more (finish_children new t)
finish_children-append [] more t = refl
finish_children-append ((j, q) ∷ new) more t = finish_children-append new more (put_merge j q t)

pub below-append :
    (path : List Bytes) (new more : ChildMerges)
    → below path (new ++ more) ≡ below path new ++ below path more
below-append path [] more = refl
below-append path ((j, q) ∷ new) more =
    ap (λ items. record { target = path ++ j ∷ []; patch = q } ∷ items) (below-append path new more)

-- Reading and writing a child of the node that has been written.
pub members_at-store :
    (v : Value) (path : List Bytes) (key : Bytes) (t : Members)
    → members_at (store_members v path t) (path ++ key ∷ [])
      ≡ object_members (or_null (find_member key t))
unfolding members_at store_members
members_at-store v [] key t = refl
members_at-store v (j ∷ path) key t =
    let below = store_members (or_null (find_member j (object_members v))) path t in
    ap (λ o. members_at (or_null o) (path ++ key ∷ [])) (find-put_same j below (object_members v))
    ∙ members_at-store (or_null (find_member j (object_members v))) path key t

pub store-store :
    (v : Value) (path : List Bytes) (key : Bytes) (t ms : Members)
    → store_members (store_members v path t) (path ++ key ∷ []) ms
      ≡ store_members v path (put_member key (object ms) t)
unfolding store_members
store-store v [] key t ms = refl
store-store v (j ∷ path) key t ms =
    let child = or_null (find_member j (object_members v)) in
    let below = store_members child path t in
    ap
      (λ o. object (
        put_member j (store_members (or_null o) (path ++ key ∷ []) ms)
          (put_member j below (object_members v))))
      (find-put_same j below (object_members v))
    ∙ ap object (
        put-put_same j below (store_members below (path ++ key ∷ []) ms) (object_members v)
        ∙ ap (λ w. put_member j w (object_members v)) (store-store child path key t ms))

-- The children of a node, merged by the worklist, are merged in the node.
pub finish-below :
    (v : Value) (path : List Bytes) (new : ChildMerges) (t : Members)
    → finish (below path new) (store_members v path t)
      ≡ store_members v path (finish_children new t)
finish-below v path [] t = refl
finish-below v path ((key, patch) ∷ new) t =
    let merged = merge_object patch (object_members (or_null (find_member key t))) in
    ap
      (λ ms.
        finish (below path new)
          (store_members (store_members v path t) (path ++ key ∷ []) (merge_object patch ms)))
      (members_at-store v path key t)
    ∙ ap (finish (below path new)) (store-store v path key t merged)
    ∙ finish-below v path new (put_merge key patch t)
