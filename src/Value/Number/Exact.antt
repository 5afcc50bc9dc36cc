-- ===== src/Value/Number/Exact.antt =====
-- The comparator against the order of the exact values that the stored numbers stand for.
use native.Mathlib.Nat.{mod-lt, div-add-mod, add-mul}
use pjson.Value.{is_number}
use pjson.Common.{
  ℕ, suc, ◌+◌, ◌*◌, ◌/◌, ◌^◌, ◌<◌, ◌≤◌, Bool, true, false, ◌≡◌, refl, sym, ap, ◌∙◌, arith,
  if◌then◌else◌,
}
use pjson.Common.Int.{ℤ, pos, negsuc, pos_part, neg_part}
use pjson.Value.{
  Double, nan, infinite, finite, Value, null, string, int, uint, double, boolean, array, object,
}
use pjson.Value.Number.{
  scale, scale_pos, Order, less, equal, greater, unordered, flip, upper, lower, compare_numbers,
  unsigned_double, signed_double, order_ℕ, order_double,
}

-- A number of the extended line, counted in units of 1 / 2^1074: `at p n` is p - n.
pub data ExactValue : Type 0 where
  undefined bottom top : ExactValue
  at : ℕ → ℕ → ExactValue

abbrev pub exact_double : Double → ExactValue
exact_double nan = undefined
exact_double (infinite true) = bottom
exact_double (infinite false) = top
exact_double (finite b s) = at (upper b s) (lower b s)

abbrev pub exact : Value → ExactValue
exact (int z) = at (pos_part z * scale) (neg_part z * scale)
exact (uint n) = at (n * scale) 0
exact (double d) = exact_double d
exact _ = undefined

-- The order of the extended line; `undefined` is comparable with nothing.
abbrev pub exact_order : ExactValue → ExactValue → Order
exact_order undefined y = unordered
exact_order bottom undefined = unordered
exact_order bottom bottom = equal
exact_order bottom top = less
exact_order bottom (at p n) = less
exact_order top undefined = unordered
exact_order top bottom = greater
exact_order top top = equal
exact_order top (at p n) = greater
exact_order (at p n) undefined = unordered
exact_order (at p n) bottom = greater
exact_order (at p n) top = less
exact_order (at p n) (at q m) = order_ℕ (p + m) (q + n)

-- The stored integers are int64_t and uint64_t.
abbrev pub InWord : Value → Type 0
InWord (int (pos n)) = n < 2 ^ 63
InWord (int (negsuc n)) = n < 2 ^ 63
InWord (uint n) = n < 2 ^ 64
InWord _ = Unit

below_quotient : (i s k : ℕ) → i < s / k → i * k + k ≤ s
below_quotient i s k h = grind (arith, div-add-mod s k)

above_quotient : (i s k : ℕ) → 0 < k → s / k < i → s < i * k
above_quotient i s k z h = grind (arith, div-add-mod s k, mod-lt s z)

quotient_le : (s k : ℕ) → s / k * k ≤ s
quotient_le s k = grind (arith, div-add-mod s k)

-- A multiplication by the scale keeps an order.
mul_mono : (a b k : ℕ) → a ≤ b → a * k ≤ b * k
mul_mono a b k h = grind arith

mul_strict : (a b k : ℕ) → 0 < k → a < b → a * k < b * k
mul_strict a b k z h = grind arith

order-mul : (a b k : ℕ) → 0 < k → order_ℕ (a * k) (b * k) ≡ order_ℕ a b
order-mul a b k z = ground (arith, mul_strict a b k z, mul_strict b a k z)

unsigned_finite :
    (n : ℕ) (b : Bool) (s : ℕ)
    → n < 2 ^ 64
    → unsigned_double n (finite b s) ≡ order_ℕ (n * scale + lower b s) (upper b s)
unfolding unsigned_double
unsigned_finite n true s h =
    ground (arith, scale_pos, mul_strict 0 n scale scale_pos, mul_strict n (2 ^ 64) scale scale_pos)
unsigned_finite n false s h = ground (
  arith,
  scale_pos,
  mul_strict n (2 ^ 64) scale scale_pos,
  below_quotient n s scale,
  above_quotient n s scale scale_pos,
  quotient_le s scale,
)

signed_finite_pos :
    (n : ℕ) (b : Bool) (s : ℕ)
    → n < 2 ^ 63
    → signed_double (pos n) (finite b s) ≡ order_ℕ (n * scale + lower b s) (upper b s)
unfolding signed_double
signed_finite_pos n true s h = ground (
  arith,
  scale_pos,
  mul_strict 0 n scale scale_pos,
  mul_strict n (2 ^ 63) scale scale_pos,
  below_quotient 0 s scale,
  quotient_le s scale,
)
signed_finite_pos n false s h = ground (
  arith,
  scale_pos,
  mul_strict n (2 ^ 63) scale scale_pos,
  below_quotient n s scale,
  above_quotient n s scale scale_pos,
  quotient_le s scale,
)

signed_finite_neg :
    (n : ℕ) (b : Bool) (s : ℕ)
    → n < 2 ^ 63
    → signed_double (negsuc n) (finite b s) ≡ order_ℕ (lower b s) (upper b s + suc n * scale)
unfolding signed_double
signed_finite_neg n false s h =
    ground (arith, scale_pos, mul_strict 0 (suc n) scale scale_pos, quotient_le s scale)
signed_finite_neg n true s h = ground (
  arith,
  scale_pos,
  mul_strict 0 (suc n) scale scale_pos,
  mul_mono (suc n) (2 ^ 63) scale,
  below_quotient (suc n) s scale,
  above_quotient (suc n) s scale scale_pos,
  quotient_le s scale,
)

flip-order : (a b : ℕ) → flip (order_ℕ a b) ≡ order_ℕ b a
flip-order a b = ground arith

signed_infinite : (z : ℤ) (b : Bool) → signed_double z (infinite b) ≡ (if b then greater else less)
unfolding signed_double
signed_infinite (pos n) true = refl
signed_infinite (pos n) false = refl
signed_infinite (negsuc n) true = refl
signed_infinite (negsuc n) false = refl

int_double :
    (z : ℤ) (d : Double)
    → InWord (int z)
    → compare_numbers (int z) (double d) ≡ exact_order (exact (int z)) (exact_double d)
unfolding compare_numbers
int_double z nan h = refl
int_double z (infinite true) h = signed_infinite z true
int_double z (infinite false) h = signed_infinite z false
int_double (pos n) (finite b s) h = ground (arith, signed_finite_pos n b s h)
int_double (negsuc n) (finite b s) h = ground (arith, signed_finite_neg n b s h)

uint_double :
    (n : ℕ) (d : Double)
    → n < 2 ^ 64
    → compare_numbers (uint n) (double d) ≡ exact_order (exact (uint n)) (exact_double d)
unfolding compare_numbers unsigned_double
uint_double n nan h = refl
uint_double n (infinite true) h = refl
uint_double n (infinite false) h = refl
uint_double n (finite b s) h = ground (arith, unsigned_finite n b s h)

-- Swapping the operands turns the result round, on the exact side too.
exact_order-flip : (x y : ExactValue) → exact_order x y ≡ flip (exact_order y x)
exact_order-flip undefined undefined = refl
exact_order-flip undefined bottom = refl
exact_order-flip undefined top = refl
exact_order-flip undefined (at p n) = refl
exact_order-flip bottom undefined = refl
exact_order-flip bottom bottom = refl
exact_order-flip bottom top = refl
exact_order-flip bottom (at p n) = refl
exact_order-flip top undefined = refl
exact_order-flip top bottom = refl
exact_order-flip top top = refl
exact_order-flip top (at p n) = refl
exact_order-flip (at p n) undefined = refl
exact_order-flip (at p n) bottom = refl
exact_order-flip (at p n) top = refl
exact_order-flip (at p n) (at q m) = sym (flip-order (q + n) (p + m))

double_int :
    (d : Double) (z : ℤ)
    → compare_numbers (double d) (int z) ≡ flip (compare_numbers (int z) (double d))
unfolding compare_numbers
double_int nan z = refl
double_int (infinite b) z = refl
double_int (finite b s) z = refl

double_uint :
    (d : Double) (n : ℕ)
    → compare_numbers (double d) (uint n) ≡ flip (compare_numbers (uint n) (double d))
unfolding compare_numbers
double_uint nan n = refl
double_uint (infinite b) n = refl
double_uint (finite b s) n = refl

double_double : (d e : Double) → order_double d e ≡ exact_order (exact_double d) (exact_double e)
double_double nan e = refl
double_double (infinite b) nan = ground arith
double_double (infinite b) (infinite c) = ground arith
double_double (infinite b) (finite c t) = ground arith
double_double (finite b s) nan = refl
double_double (finite b s) (infinite c) = ground arith
double_double (finite b s) (finite c t) = ground arith

scaled_order :
    (a b c d : ℕ)
    → order_ℕ (a * scale + b * scale) (c * scale + d * scale) ≡ order_ℕ (a + b) (c + d)
scaled_order a b c d =
    rw (← add-mul a b scale, ← add-mul c d scale) (order-mul (a + b) (c + d) scale scale_pos)

int_int : (y z : ℤ) → compare_numbers (int y) (int z) ≡ exact_order (exact (int y)) (exact (int z))
unfolding compare_numbers
int_int y z = sym (scaled_order (pos_part y) (neg_part z) (pos_part z) (neg_part y))

uint_uint :
    (m n : ℕ) → compare_numbers (uint m) (uint n) ≡ exact_order (exact (uint m)) (exact (uint n))
unfolding compare_numbers
uint_uint m n = ground (arith, order-mul m n scale scale_pos)

int_uint :
    (z : ℤ) (n : ℕ)
    → compare_numbers (int z) (uint n) ≡ exact_order (exact (int z)) (exact (uint n))
unfolding compare_numbers
int_uint (pos m) n = ground (arith, order-mul m n scale scale_pos)
int_uint (negsuc m) n = ground (arith, mul_strict 0 (suc m) scale scale_pos)

uint_int :
    (n : ℕ) (z : ℤ) → compare_numbers (uint n) (int z) ≡ flip (compare_numbers (int z) (uint n))
unfolding compare_numbers
uint_int n z = refl

-- compare_numbers returns the order of the exact values of two stored numbers, whichever of the
-- three representations each has, for integers that fit their words: no integer is rounded to a
-- binary64 on the way, and a NaN is unordered.
pub compare_numbers-exact :
    (l r : Value)
    → is_number l ≡ true
    → is_number r ≡ true
    → InWord l
    → InWord r
    → compare_numbers l r ≡ exact_order (exact l) (exact r)
compare_numbers-exact (int y) (int z) p q h k = int_int y z
compare_numbers-exact (int y) (uint n) p q h k = int_uint y n
compare_numbers-exact (int y) (double d) p q h k = int_double y d h
compare_numbers-exact (uint m) (int z) p q h k =
    uint_int m z ∙ ap flip (int_uint z m) ∙ sym (exact_order-flip (exact (uint m)) (exact (int z)))
compare_numbers-exact (uint m) (uint n) p q h k = uint_uint m n
compare_numbers-exact (uint m) (double d) p q h k = uint_double m d h
compare_numbers-exact (double d) (int z) p q h k =
    double_int d z
    ∙ ap flip (int_double z d k)
    ∙ sym (exact_order-flip (exact_double d) (exact (int z)))
compare_numbers-exact (double d) (uint n) p q h k =
    double_uint d n
    ∙ ap flip (uint_double n d k)
    ∙ sym (exact_order-flip (exact_double d) (exact (uint n)))
compare_numbers-exact (double d) (double e) p q h k = unfold compare_numbers in double_double d e
compare_numbers-exact null r p q h k = cc
compare_numbers-exact (string s) r p q h k = cc
compare_numbers-exact (boolean b) r p q h k = cc
compare_numbers-exact (array xs) r p q h k = cc
compare_numbers-exact (object ms) r p q h k = cc
compare_numbers-exact l r p q h k = cc
