-- ===== src/Value/ArrayStorage.antt =====
-- The operations of std::vector on an array's storage (pjsonImpl::ArrayStorage).
use pjson.Common.{ℕ, zero, suc, ◌≤◌, ◌<◌, ◌≡◌, refl, ap, Option, none, some, arith, List, [], ◌∷◌}
use pjson.Value.{Value, Items, no_items, item}

abbrev pub items_size : Items → ℕ
items_size no_items = 0
items_size (item v xs) = suc (items_size xs)

-- Read, write, insert before and erase at a position below the size (the size too, for insert).
unfoldable pub item_at : Items → ℕ → Option Value
item_at no_items i = none
item_at (item v xs) zero = some v
item_at (item v xs) (suc i) = item_at xs i

unfoldable pub set_item : Items → ℕ → Value → Items
set_item no_items i w = no_items
set_item (item v xs) zero w = item w xs
set_item (item v xs) (suc i) w = item v (set_item xs i w)

unfoldable pub insert_item : Items → ℕ → Value → Items
insert_item xs zero w = item w xs
insert_item no_items (suc i) w = item w no_items
insert_item (item v xs) (suc i) w = item v (insert_item xs i w)

unfoldable pub erase_item : Items → ℕ → Items
erase_item no_items i = no_items
erase_item (item v xs) zero = xs
erase_item (item v xs) (suc i) = item v (erase_item xs i)

-- push_back
unfoldable pub push_item : Items → Value → Items
push_item no_items w = item w no_items
push_item (item v xs) w = item v (push_item xs w)

abbrev pub items_list : Items → List Value
items_list no_items = []
items_list (item v xs) = v ∷ items_list xs

pub item_at-some : (xs : Items) (i : ℕ) → i < items_size xs → (v : Value) × (item_at xs i ≡ some v)
unfolding item_at
item_at-some no_items i h = elim h [ ]
item_at-some (item v xs) zero h = (v, refl)
item_at-some (item v xs) (suc i) h = item_at-some xs i (omega arith)

pub item_at-none : (xs : Items) (i : ℕ) → items_size xs ≤ i → item_at xs i ≡ none
unfolding item_at
item_at-none no_items i h = refl
item_at-none (item v xs) zero h = elim h [ ]
item_at-none (item v xs) (suc i) h = item_at-none xs i (omega arith)

pub size-insert_item :
    (xs : Items) (i : ℕ) (w : Value) → items_size (insert_item xs i w) ≡ suc (items_size xs)
unfolding insert_item
size-insert_item no_items zero w = refl
size-insert_item (item v xs) zero w = refl
size-insert_item no_items (suc i) w = refl
size-insert_item (item v xs) (suc i) w = ap suc (size-insert_item xs i w)

pub size-set_item : (xs : Items) (i : ℕ) (w : Value) → items_size (set_item xs i w) ≡ items_size xs
unfolding set_item
size-set_item no_items i w = refl
size-set_item (item v xs) zero w = refl
size-set_item (item v xs) (suc i) w = ap suc (size-set_item xs i w)

pub size-push_item : (xs : Items) (w : Value) → items_size (push_item xs w) ≡ suc (items_size xs)
unfolding push_item
size-push_item no_items w = refl
size-push_item (item v xs) w = ap suc (size-push_item xs w)

pub item_at-push_item : (xs : Items) (w : Value) → item_at (push_item xs w) (items_size xs) ≡ some w
unfolding item_at push_item
item_at-push_item no_items w = refl
item_at-push_item (item v xs) w = item_at-push_item xs w

pub item_at-insert_item :
    (xs : Items) (i : ℕ) (w : Value) → i ≤ items_size xs → item_at (insert_item xs i w) i ≡ some w
unfolding item_at insert_item
item_at-insert_item no_items zero w h = refl
item_at-insert_item (item v xs) zero w h = refl
item_at-insert_item no_items (suc i) w h = elim h [ ]
item_at-insert_item (item v xs) (suc i) w h = item_at-insert_item xs i w (omega arith)

pub erase_item-insert_item :
    (xs : Items) (i : ℕ) (w : Value) → i ≤ items_size xs → erase_item (insert_item xs i w) i ≡ xs
unfolding erase_item insert_item
erase_item-insert_item no_items zero w h = refl
erase_item-insert_item (item v xs) zero w h = refl
erase_item-insert_item no_items (suc i) w h = elim h [ ]
erase_item-insert_item (item v xs) (suc i) w h =
    ap (item v) (erase_item-insert_item xs i w (omega arith))

pub item_at-set_item :
    (xs : Items) (i : ℕ) (w : Value) → i < items_size xs → item_at (set_item xs i w) i ≡ some w
unfolding item_at set_item
item_at-set_item no_items i w h = elim h [ ]
item_at-set_item (item v xs) zero w h = refl
item_at-set_item (item v xs) (suc i) w h = item_at-set_item xs i w (omega arith)

-- Putting an element back where it was erased restores the array.
pub insert_item-erase_item :
    (xs : Items) (i : ℕ) (w : Value)
    → item_at xs i ≡ some w
    → insert_item (erase_item xs i) i w ≡ xs
unfolding item_at erase_item insert_item
insert_item-erase_item no_items i w h = ground arith
insert_item-erase_item (item v no_items) zero w h = ground arith
insert_item-erase_item (item v (item u xs)) zero w h = ground arith
insert_item-erase_item (item v xs) (suc i) w h = ap (item v) (insert_item-erase_item xs i w h)
