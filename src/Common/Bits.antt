-- ===== src/Common/Bits.antt =====
-- Shifts and masks as arithmetic: a shifted field or'ed with what lies below it is a sum, and a
-- mask of low ones is a remainder.
use Prim.Native.Nat.{ℕ, zero, suc, ◌+◌, ◌-◌, ◌*◌, ◌/◌, ◌%◌, ◌^◌, ◌≤◌, ◌<◌, min, max}
use Prim.Native.Nat.{
  bit_and, bit_or, bit_xor, differ, digits, bit_and-bitwise, bit_or-bitwise, bit_xor-bitwise,
}
use native.Mathlib.Nat.{pow-suc, one-le-pow}
use mathlib.Core.Path.{◌≡◌, refl, ap}
use native.Mathlib.Omega.{arith}

-- The digit recursion behind both operations needs no more fuel than its first number.
module _ (absent : ℕ → ℕ) (digit : ℕ → ℕ → ℕ) where
  enough_fuel :
      (a k m b : ℕ) → a ≤ k → a ≤ m → digits absent digit k a b ≡ digits absent digit m a b
  enough_fuel zero zero zero b h g = refl
  enough_fuel zero zero (suc m) b h g = refl
  enough_fuel zero (suc k) zero b h g = refl
  enough_fuel zero (suc k) (suc m) b h g = refl
  enough_fuel (suc a) zero m b h g = absurd (omega arith)
  enough_fuel (suc a) (suc k) zero b h g = absurd (omega arith)
  enough_fuel (suc a) (suc k) (suc m) b h g =
      let rest = enough_fuel (suc a / 2) k m (b / 2) (omega arith) (omega arith) in
      ap (λ t. t * 2 + digit (suc a % 2) (b % 2)) rest

or_halves : (a b : ℕ) → bit_or a b ≡ bit_or (a / 2) (b / 2) * 2 + max (a % 2) (b % 2)
or_halves zero b = rw (bit_or-bitwise zero b, bit_or-bitwise 0 (b / 2)) (omega arith)
or_halves (suc a) b =
    let fuel =
      enough_fuel (λ y. y) max (suc a / 2) a (suc a / 2) (b / 2) (omega arith) (omega arith) in
    omega (arith, fuel, bit_or-bitwise (suc a) b, bit_or-bitwise (suc a / 2) (b / 2))

and_halves : (a b : ℕ) → bit_and a b ≡ bit_and (a / 2) (b / 2) * 2 + min (a % 2) (b % 2)
and_halves zero b = rw (bit_and-bitwise zero b, bit_and-bitwise 0 (b / 2)) (omega arith)
and_halves (suc a) b =
    let fuel =
      enough_fuel (λ y. 0) min (suc a / 2) a (suc a / 2) (b / 2) (omega arith) (omega arith) in
    omega (arith, fuel, bit_and-bitwise (suc a) b, bit_and-bitwise (suc a / 2) (b / 2))

-- A zero operand, for both at once.
with_zero : (bound a : ℕ) → a ≤ bound → (bit_and a 0 ≡ 0) × (bit_or a 0 ≡ a)
with_zero bound zero below = (refl, refl)
with_zero zero (suc a) below = absurd (omega arith)
with_zero (suc bound) (suc a) below =
    let halves = with_zero bound (suc a / 2) (omega arith) in
    (omega (arith, halves, and_halves (suc a) 0), omega (arith, halves, or_halves (suc a) 0))

double_pow : (q k : ℕ) → q * 2 ^ suc k ≡ q * 2 ^ k * 2
double_pow q k = omega (arith, ap (λ (t : ℕ). q * t) (pow-suc 2 k))

pub bit_or-shift : (k q r : ℕ) → r < 2 ^ k → bit_or (q * 2 ^ k) r ≡ q * 2 ^ k + r
bit_or-shift zero q r h =
    let e : r ≡ 0 = omega arith in
    rw (e, (with_zero (q * 2 ^ 0) (q * 2 ^ 0) (omega arith)).1) (omega arith)
bit_or-shift (suc k) q r h =
    let ih = bit_or-shift k q (r / 2) (omega (arith, pow-suc 2 k)) in
    omega (arith, ih, or_halves (q * 2 ^ suc k) r, double_pow q k, ap (λ t. bit_or t (r / 2)) half)
  where
    half : q * 2 ^ suc k / 2 ≡ q * 2 ^ k
    half = omega (arith, double_pow q k)

mask_below : (k q r : ℕ) → r < 2 ^ k → bit_and (q * 2 ^ k + r) (2 ^ k - 1) ≡ r
mask_below zero q r h =
    let e : r ≡ 0 = omega arith in
    rw (e, (with_zero (q * 2 ^ 0 + 0) (q * 2 ^ 0 + 0) (omega arith)).0)
mask_below (suc k) q r h =
    let ih = mask_below k q (r / 2) (omega (arith, pow-suc 2 k)) in
    omega (
      arith,
      ih,
      and_halves (q * 2 ^ suc k + r) (2 ^ suc k - 1),
      double_pow q k,
      pow-suc 2 k,
      one-le-pow k 2,
      ap₂' (omega (arith, double_pow q k)) (omega (arith, pow-suc 2 k, one-le-pow k 2)),
    )
  where
    ap₂' :
        (q * 2 ^ suc k + r) / 2 ≡ q * 2 ^ k + r / 2
        → (2 ^ suc k - 1) / 2 ≡ 2 ^ k - 1
        → bit_and ((q * 2 ^ suc k + r) / 2) ((2 ^ suc k - 1) / 2)
          ≡ bit_and (q * 2 ^ k + r / 2) (2 ^ k - 1)
    ap₂' p s = rw (p, s)

pub bit_and-mask : (k a : ℕ) → bit_and a (2 ^ k - 1) ≡ a % 2 ^ k
bit_and-mask k a = ground (arith, one-le-pow k 2, mask_below k (a / 2 ^ k) (a % 2 ^ k))

-- Exclusive or undoes itself, and stays within the width of its operands.
xor_halves : (a b : ℕ) → bit_xor a b ≡ bit_xor (a / 2) (b / 2) * 2 + differ (a % 2) (b % 2)
xor_halves zero b = rw (bit_xor-bitwise zero b, bit_xor-bitwise 0 (b / 2)) (omega arith)
xor_halves (suc a) b =
    let fuel =
      enough_fuel (λ y. y) differ (suc a / 2) a (suc a / 2) (b / 2) (omega arith) (omega arith) in
    omega (arith, fuel, bit_xor-bitwise (suc a) b, bit_xor-bitwise (suc a / 2) (b / 2))

differ_bits :
    (x y : ℕ)
    → x < 2
    → y < 2
    → (differ x y < 2) × (differ x (differ x y) ≡ y) × (differ (differ x y) y ≡ x)
differ_bits zero zero h g = (omega arith, refl, refl)
differ_bits zero (suc zero) h g = (omega arith, refl, refl)
differ_bits (suc zero) zero h g = (omega arith, refl, refl)
differ_bits (suc zero) (suc zero) h g = (omega arith, refl, refl)
differ_bits x (suc (suc y)) h g = absurd (omega arith)
differ_bits (suc (suc x)) y h g = absurd (omega arith)

xor_cancels :
    (bound a b : ℕ)
    → a ≤ bound
    → b ≤ bound
    → (bit_xor a (bit_xor a b) ≡ b) × (bit_xor (bit_xor a b) b ≡ a)
xor_cancels zero zero zero h g = (refl, refl)
xor_cancels zero (suc a) b h g = absurd (omega arith)
xor_cancels zero zero (suc b) h g = absurd (omega arith)
xor_cancels (suc bound) a b h g =
    let ih = xor_cancels bound (a / 2) (b / 2) (omega arith) (omega arith) in
    let m = bit_xor a b in
    let d = differ_bits (a % 2) (b % 2) (omega arith) (omega arith) in
    let high : m / 2 ≡ bit_xor (a / 2) (b / 2) = omega (arith, xor_halves a b, d.0) in
    let low : m % 2 ≡ differ (a % 2) (b % 2) = omega (arith, xor_halves a b, d.0) in
    (
      omega (arith, xor_halves a m, ap (bit_xor (a / 2)) high, ap (differ (a % 2)) low, ih.0, d.1),
      omega (
        arith,
        xor_halves m b,
        ap (λ t. bit_xor t (b / 2)) high,
        ap (λ t. differ t (b % 2)) low,
        ih.1,
        d.2,
      ),
    )

pub bit_xor_left : (a b : ℕ) → bit_xor a (bit_xor a b) ≡ b
bit_xor_left a b = (xor_cancels (a + b) a b (omega arith) (omega arith)).0

pub bit_xor_right : (a b : ℕ) → bit_xor (bit_xor a b) b ≡ a
bit_xor_right a b = (xor_cancels (a + b) a b (omega arith) (omega arith)).1

pub bit_xor-lt : (k a b : ℕ) → a < 2 ^ k → b < 2 ^ k → bit_xor a b < 2 ^ k
bit_xor-lt zero a b h g =
    let p : a ≡ 0 = omega arith in let q : b ≡ 0 = omega arith in rw (p, q) (omega arith)
bit_xor-lt (suc k) a b h g =
    let d = differ_bits (a % 2) (b % 2) (omega arith) (omega arith) in
    let step = pow-suc 2 k in
    let ih = bit_xor-lt k (a / 2) (b / 2) (omega (arith, step)) (omega (arith, step)) in
    omega (arith, step, ih, xor_halves a b, d.0)
