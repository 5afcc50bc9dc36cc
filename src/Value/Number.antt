-- ===== src/Value/Number.antt =====
-- The comparison of stored numbers: pjsonImpl::_compareNumbers and pjson::tryCompareNumber of
-- pjsonlib/src/pjson.cpp, over signed, unsigned and binary64 values.
pub mod Exact
use pjson.Common.{
  ℕ, suc, ◌+◌, ◌-◌, ◌*◌, ◌/◌, ◌^◌, ◌<◌, Bool, true, false, ◌||◌, Option, none, some, ltb, leb, ◌==◌,
  ◌≡◌, arith, not, ◌&&◌, if◌then◌else◌,
}
use pjson.Common.Int.{ℤ, pos, negsuc, pos_part, neg_part, ltb_ℤ}
use pjson.Value.{Double, nan, infinite, finite, Value, int, uint, double, is_number}

-- The unit in which the magnitude of a finite binary64 is counted: 1 / 2^1074.
pub scale : ℕ
scale = 2 ^ 1074

pub scale_pos : 0 < scale
unfolding scale
scale_pos = omega arith

-- The results -1, 0, 1 and 2 of the comparator.
pub data Order : Type 0 where
  less equal greater unordered : Order

-- Negation of the result; 2 is never negated in the source.
abbrev pub flip : Order → Order
flip less = greater
flip equal = equal
flip greater = less
flip unordered = unordered

abbrev pub is_nan : Double → Bool
is_nan nan = true
is_nan (infinite b) = false
is_nan (finite b s) = false

-- The parts of a signed magnitude above and below zero.
abbrev pub upper : Bool → ℕ → ℕ
upper true s = 0
upper false s = s

abbrev pub lower : Bool → ℕ → ℕ
lower true s = s
lower false s = 0

-- `<` of binary64.
abbrev pub double_lt : Double → Double → Bool
double_lt nan e = false
double_lt (infinite true) nan = false
double_lt (infinite true) (infinite c) = not c
double_lt (infinite true) (finite c t) = true
double_lt (infinite false) e = false
double_lt (finite b s) nan = false
double_lt (finite b s) (infinite c) = not c
double_lt (finite b s) (finite c t) = ltb (upper b s + lower c t) (upper c t + lower b s)

-- The integer i as a binary64, where it is one.
abbrev pub double_of : ℤ → Double
double_of (pos n) = finite false (n * scale)
double_of (negsuc n) = finite true (suc n * scale)

-- static_cast<uint64_t> and static_cast<int64_t> of a finite value in range: towards zero.
abbrev pub truncate_unsigned : Double → ℕ
truncate_unsigned (finite false s) = s / scale
truncate_unsigned _ = 0

abbrev pub truncate_signed : Double → ℤ
truncate_signed (finite false s) = pos (s / scale)
truncate_signed (finite true s) = if s / scale == 0 then pos 0 else negsuc (s / scale - 1)
truncate_signed _ = pos 0

-- a < b ? -1 : (a > b ? 1 : 0)
abbrev pub order_ℕ : ℕ → ℕ → Order
order_ℕ a b = if ltb a b then less else if ltb b a then greater else equal

abbrev pub order_ℤ : ℤ → ℤ → Order
order_ℤ a b = if ltb_ℤ a b then less else if ltb_ℤ b a then greater else equal

-- One signed and one unsigned operand.
abbrev pub signed_unsigned : ℤ → ℕ → Order
signed_unsigned (negsuc s) u = less
signed_unsigned (pos s) u = order_ℕ s u

abbrev pub order_double : Double → Double → Order
order_double left right =
    if is_nan left || is_nan right
    then unordered
    else if double_lt left right
    then less
    else if double_lt right left
    then greater
    else equal

-- The fractional tiebreak: floating against the integer that it truncates to.
abbrev pub tiebreak : Double → Double → Order
tiebreak floating integral =
    if double_lt integral floating
    then less
    else if double_lt floating integral
    then greater
    else equal

unfoldable pub unsigned_double : ℕ → Double → Order
unsigned_double integer floating =
    if not (double_lt floating (double_of (pos (2 ^ 64))))
    then less
    else if double_lt floating (double_of (pos 0))
    then greater
    else (let truncated = truncate_unsigned floating in
        if integer == truncated
        then tiebreak floating (double_of (pos truncated))
        else if ltb integer truncated
        then less
        else greater)

unfoldable pub signed_double : ℤ → Double → Order
signed_double integer floating =
    if not (double_lt floating (double_of (pos (2 ^ 63))))
    then less
    else if double_lt floating (double_of (negsuc (2 ^ 63 - 1)))
    then greater
    else (let truncated = truncate_signed floating in
        if ltb_ℤ integer truncated
        then less
        else if ltb_ℤ truncated integer
        then greater
        else tiebreak floating (double_of truncated))

-- A value that is no number is not compared: the source reads its number fields only after isNumber.
unfoldable pub compare_numbers : Value → Value → Order
compare_numbers (int l) (int r) = order_ℤ l r
compare_numbers (uint l) (uint r) = order_ℕ l r
compare_numbers (int l) (uint r) = signed_unsigned l r
compare_numbers (uint l) (int r) = flip (signed_unsigned r l)
compare_numbers (double l) (double r) = order_double l r
compare_numbers (int l) (double r) = if is_nan r then unordered else signed_double l r
compare_numbers (uint l) (double r) = if is_nan r then unordered else unsigned_double l r
compare_numbers (double l) (int r) = if is_nan l then unordered else flip (signed_double r l)
compare_numbers (double l) (uint r) = if is_nan l then unordered else flip (unsigned_double r l)
compare_numbers _ _ = unordered

-- aOrder is left alone where the result is false.
unfoldable pub try_compare_number : Value → Value → Option Order
try_compare_number l r =
    if not (is_number l && is_number r)
    then none
    else elim (compare_numbers l r) [ unordered ↦ none | o ↦ some o ]
