-- ===== src/Prelude/Bits.antt =====
-- `&` and `|` on words cut into a high and a low field, at every width, and tables over a byte.
use Prim.Native.Nat.{
  ℕ, zero, suc, ◌+◌, ◌-◌, ◌*◌, ◌/◌, ◌%◌, ◌^◌, ◌≤◌, ◌<◌, min, max, bit_and, bit_or, digits,
  bit_and-bitwise, bit_or-bitwise,
}
use mathlib.Core.Path.{◌≡◌, refl, ap}
use mathlib.Core.Bool.{Bool, true, false}
use nedoos.Prelude.Tests.{if◌then◌else◌}
use native.Mathlib.Nat.{pow-suc, one-le-pow}
use native.Mathlib.Omega.{arith}

-- The fuel of `digits` is enough as soon as it is not below the first number.
enough_fuel :
    (e : ℕ → ℕ) (g : ℕ → ℕ → ℕ) (x y fuel more : ℕ)
    → x ≤ fuel
    → x ≤ more
    → digits e g fuel x y ≡ digits e g more x y
enough_fuel e g zero y zero zero p q = refl
enough_fuel e g zero y zero (suc more) p q = refl
enough_fuel e g zero y (suc fuel) zero p q = refl
enough_fuel e g zero y (suc fuel) (suc more) p q = refl
enough_fuel e g (suc x) y zero more p q = absurd (omega arith)
enough_fuel e g (suc x) y (suc fuel) zero p q = absurd (omega arith)
enough_fuel e g (suc x) y (suc fuel) (suc more) p q =
    let half : ℕ = suc x / 2 in
    rw (enough_fuel e g half (y / 2) fuel more (omega arith) (omega arith))

-- The lowest digit of `x & y` and of `x | y`, and the others.
pub bit_and_digit : (x y : ℕ) → bit_and x y ≡ min (x % 2) (y % 2) + 2 * bit_and (x / 2) (y / 2)
bit_and_digit zero y = simp bit_and-bitwise (omega arith)
bit_and_digit (suc x) y =
    let half : ℕ = suc x / 2 in
    let fuel = enough_fuel (λ t. 0) min half (y / 2) x half (omega arith) (omega arith) in
    simp bit_and-bitwise (omega (arith, fuel))

pub bit_or_digit : (x y : ℕ) → bit_or x y ≡ max (x % 2) (y % 2) + 2 * bit_or (x / 2) (y / 2)
bit_or_digit zero y = simp bit_or-bitwise (omega arith)
bit_or_digit (suc x) y =
    let half : ℕ = suc x / 2 in
    let fuel = enough_fuel (λ t. t) max half (y / 2) x half (omega arith) (omega arith) in
    simp bit_or-bitwise (omega (arith, fuel))

pub zero-bit_or : (b : ℕ) → bit_or 0 b ≡ b
zero-bit_or b = bit_or-bitwise 0 b

and_zero_upto : (n a : ℕ) → a ≤ n → bit_and a 0 ≡ 0
and_zero_upto zero a h = omega (arith, ap (λ (t : ℕ). bit_and t 0) (a0 a h))
  where
    a0 : (k : ℕ) → k ≤ 0 → k ≡ 0
    a0 k h = omega arith
and_zero_upto (suc n) zero h = refl
and_zero_upto (suc n) (suc a) h =
    omega (arith, bit_and_digit (suc a) 0, and_zero_upto n (suc a / 2) (omega arith))

or_zero_upto : (n a : ℕ) → a ≤ n → bit_or a 0 ≡ a
or_zero_upto n zero h = refl
or_zero_upto zero (suc a) h = absurd (omega arith)
or_zero_upto (suc n) (suc a) h =
    omega (arith, bit_or_digit (suc a) 0, or_zero_upto n (suc a / 2) (omega arith))

pub bit_and-zero : (a : ℕ) → bit_and a 0 ≡ 0
bit_and-zero a = and_zero_upto a a (omega arith)

pub bit_or-zero : (a : ℕ) → bit_or a 0 ≡ a
bit_or-zero a = or_zero_upto a a (omega arith)

doubled : (q k : ℕ) → q * 2 ^ suc k ≡ 2 * (q * 2 ^ k)
doubled q k = omega (arith, ap (λ (t : ℕ). q * t) (pow-suc 2 k))

-- `&` works on the fields above and below bit `k` separately.
pub bit_and_fields :
    (k a b r s : ℕ)
    → r < 2 ^ k
    → s < 2 ^ k
    → bit_and (a * 2 ^ k + r) (b * 2 ^ k + s) ≡ bit_and a b * 2 ^ k + bit_and r s
bit_and_fields zero a b r s p q = ground (arith, bit_and-zero 0)
bit_and_fields (suc k) a b r s p q = ground (
  arith,
  doubled a k,
  doubled b k,
  doubled (bit_and a b) k,
  pow-suc 2 k,
  bit_and_digit (a * 2 ^ suc k + r) (b * 2 ^ suc k + s),
  bit_and_digit r s,
  bit_and_fields k a b (r / 2) (s / 2) (omega (arith, pow-suc 2 k)) (omega (arith, pow-suc 2 k)),
)

-- So does `|`.
pub bit_or_fields :
    (k a b r s : ℕ)
    → r < 2 ^ k
    → s < 2 ^ k
    → bit_or (a * 2 ^ k + r) (b * 2 ^ k + s) ≡ bit_or a b * 2 ^ k + bit_or r s
bit_or_fields zero a b r s p q = ground (arith, bit_or-zero 0)
bit_or_fields (suc k) a b r s p q = ground (
  arith,
  doubled a k,
  doubled b k,
  doubled (bit_or a b) k,
  pow-suc 2 k,
  bit_or_digit (a * 2 ^ suc k + r) (b * 2 ^ suc k + s),
  bit_or_digit r s,
  bit_or_fields k a b (r / 2) (s / 2) (omega (arith, pow-suc 2 k)) (omega (arith, pow-suc 2 k)),
)

bit_and_ones : (k r : ℕ) → r < 2 ^ k → bit_and r (2 ^ k - 1) ≡ r
bit_and_ones zero r h = ground (arith, bit_and-zero r)
bit_and_ones (suc k) r h = ground (
  arith,
  pow-suc 2 k,
  one-le-pow k 2,
  bit_and_digit r (2 ^ suc k - 1),
  bit_and_ones k (r / 2) (omega (arith, pow-suc 2 k)),
)

-- A mask of the `k` low bits is a remainder.
pub bit_and_mask : (k a : ℕ) → bit_and a (2 ^ k - 1) ≡ a % 2 ^ k
bit_and_mask k a = ground (
  arith,
  one-le-pow k 2,
  bit_and_fields k (a / 2 ^ k) 0 (a % 2 ^ k) (2 ^ k - 1),
  bit_and-zero (a / 2 ^ k),
  bit_and_ones k (a % 2 ^ k),
)

-- `(q << k) | r` is a sum when `r` fits the low `k` bits.
pub bit_or_disjoint : (k q r : ℕ) → r < 2 ^ k → bit_or (q * 2 ^ k) r ≡ q * 2 ^ k + r
bit_or_disjoint k q r h =
    ground (arith, one-le-pow k 2, bit_or_fields k q 0 0 r, bit_or-zero q, zero-bit_or r)

-- Over a small range, check every value by evaluation, the largest first.
unfoldable pub all_below : ℕ → (ℕ → Bool) → Bool
all_below zero test = true
all_below (suc last) test = let rest = all_below last test in if test last then rest else false

pub all_below_sound :
    (range : ℕ) (test : ℕ → Bool) (x : ℕ) → all_below range test ≡ true → x < range → test x ≡ true
unfolding all_below
all_below_sound zero test x checked small = absurd (omega arith)
all_below_sound (suc last) test x checked small =
    let earlier : x < last → all_below last test ≡ true → test x ≡ true =
      λ below rest. all_below_sound last test x rest below in
    ground (arith, earlier)

-- All bytes with all pairs of their bits.
unfoldable pub byte_table : (ℕ → ℕ → ℕ → Bool) → Bool
unfolding all_below
byte_table p = all_below 256 λ x. all_below 8 λ k. all_below 8 λ j. p x k j

pub byte_table_sound :
    (p : ℕ → ℕ → ℕ → Bool)
    → byte_table p ≡ true
    → (x k j : ℕ) → x < 256
    → k < 8
    → j < 8
    → p x k j ≡ true
byte_table_sound p h x k j hx hk hj =
    all_below_sound 8 (λ j. p x k j) j
      (all_below_sound 8 (λ k. all_below 8 (λ j. p x k j)) k
        (all_below_sound 256 (λ x. all_below 8 (λ k. all_below 8 (λ j. p x k j))) x
          (unfold byte_table in h) hx)
        hk)
      hj
