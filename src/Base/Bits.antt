-- ===== src/Base/Bits.antt =====
-- Laws of Python's `^` and `|` at variables, from the recursion on binary digits.
use Prim.Native.Nat.{
  ℕ, zero, suc, ◌+◌, ◌*◌, ◌/◌, ◌%◌, ◌^◌, ◌≤◌, ◌<◌, max, bit_or, bit_xor, differ, digits, bitwise,
  bit_or-bitwise, bit_xor-bitwise,
}
use native.Mathlib.Nat.{le_refl, pow-suc}
use native.Mathlib.Omega.{arith}
use mathlib.Core.Path.{◌≡◌, refl, ap}

-- A bitwise operation at `x` needs no more rounds than `x`: two amounts of fuel that are enough
-- give one result.
module _ (ended : ℕ → ℕ) (digit : ℕ → ℕ → ℕ) where
  same_digits :
      (x y : ℕ) (fuel more : ℕ)
      → x ≤ more
      → x ≤ fuel
      → digits ended digit more x y ≡ digits ended digit fuel x y
  same_digits zero y zero zero h k = refl
  same_digits zero y zero (suc more) h k = refl
  same_digits zero y (suc fuel) zero h k = refl
  same_digits zero y (suc fuel) (suc more) h k = refl
  same_digits (suc x) y zero more h k = absurd (omega arith)
  same_digits (suc x) y (suc fuel) zero h k = absurd (omega arith)
  same_digits (suc x) y (suc fuel) (suc more) h k =
      let half = suc x / 2 in
      let rest = same_digits half (y / 2) fuel more (omega arith) (omega arith) in rw rest

  lowest_digit :
      (x y : ℕ)
      → let upper = bitwise ended digit (suc x / 2) (y / 2) in
        bitwise ended digit (suc x) y ≡ upper * 2 + digit (suc x % 2) (y % 2)
  lowest_digit x y =
      let half = suc x / 2 in
      let rest = same_digits half (y / 2) half x (omega arith) (le_refl half) in omega (arith, rest)

bit_xor_step : (x y : ℕ) → bit_xor x y ≡ bit_xor (x / 2) (y / 2) * 2 + differ (x % 2) (y % 2)
bit_xor_step zero y = simp bit_xor-bitwise (omega arith)
bit_xor_step (suc x) y = simp bit_xor-bitwise (lowest_digit (λ rest. rest) differ x y)

-- `|` takes the larger of two digits.
bit_or_step : (x y : ℕ) → bit_or x y ≡ max (x % 2) (y % 2) + 2 * bit_or (x / 2) (y / 2)
bit_or_step zero y = simp bit_or-bitwise (omega arith)
bit_or_step (suc x) y =
    let step = lowest_digit (λ rest. rest) max x y in simp bit_or-bitwise (omega (arith, step))

differ_digits : (x y : ℕ) → x < 2 → y < 2 → (differ x y < 2) × (differ (differ x y) y ≡ x)
differ_digits zero zero p q = (omega arith, refl)
differ_digits zero (suc zero) p q = (omega arith, refl)
differ_digits zero (suc (suc y)) p q = absurd (omega arith)
differ_digits (suc zero) zero p q = (omega arith, refl)
differ_digits (suc zero) (suc zero) p q = (omega arith, refl)
differ_digits (suc zero) (suc (suc y)) p q = absurd (omega arith)
differ_digits (suc (suc x)) y p q = absurd (omega arith)

-- Exclusive or by the same number twice changes nothing.
xor_twice_fuel : (n a b : ℕ) → a ≤ n → b ≤ n → bit_xor (bit_xor a b) b ≡ a
xor_twice_fuel zero zero zero p q = refl
xor_twice_fuel zero zero (suc b) p q = absurd (omega arith)
xor_twice_fuel zero (suc a) b p q = absurd (omega arith)
xor_twice_fuel (suc n) a b p q =
    let (small, back) = differ_digits (a % 2) (b % 2) (omega arith) (omega arith) in
    let step = bit_xor_step a b in
    let half : bit_xor a b / 2 ≡ bit_xor (a / 2) (b / 2) = omega arith in
    let last : bit_xor a b % 2 ≡ differ (a % 2) (b % 2) = omega arith in
    let ih = xor_twice_fuel n (a / 2) (b / 2) (omega arith) (omega arith) in
    rw (bit_xor_step (bit_xor a b) b, half, last, back, ih) (omega arith)

pub xor_twice : (a b : ℕ) → bit_xor (bit_xor a b) b ≡ a
xor_twice a b = xor_twice_fuel (a + b) a b (omega arith) (omega arith)

-- Exclusive or stays within the width of its operands.
pub xor-lt-pow : (k a b : ℕ) → a < 2 ^ k → b < 2 ^ k → bit_xor a b < 2 ^ k
xor-lt-pow zero zero zero p q = omega arith
xor-lt-pow zero zero (suc b) p q = absurd (omega arith)
xor-lt-pow zero (suc a) b p q = absurd (omega arith)
xor-lt-pow (suc k) a b p q =
    let (small, back) = differ_digits (a % 2) (b % 2) (omega arith) (omega arith) in
    omega (
      arith,
      pow-suc 2 k,
      bit_xor_step a b,
      xor-lt-pow k (a / 2) (b / 2) (omega (arith, pow-suc 2 k)) (omega (arith, pow-suc 2 k)),
    )

pub xor-IsByte : (a b : ℕ) → a < 256 → b < 256 → bit_xor a b < 256
xor-IsByte a b p q = xor-lt-pow 8 a b p q

bit_or-zero_fuel : (n a : ℕ) → a ≤ n → bit_or a 0 ≡ a
bit_or-zero_fuel n zero h = refl
bit_or-zero_fuel zero (suc a) h = absurd (omega arith)
bit_or-zero_fuel (suc n) (suc a) h =
    omega (arith, bit_or_step (suc a) 0, bit_or-zero_fuel n (suc a / 2) (omega arith))

-- `(q << k) | r` is a sum when `r` fits `k` bits.
pub or_fields : (k q r : ℕ) → r < 2 ^ k → bit_or (q * 2 ^ k) r ≡ q * 2 ^ k + r
or_fields zero q r h = ground (arith, bit_or-zero_fuel q q (le_refl q))
or_fields (suc k) q r h = ground (
  arith,
  bit_or_step (q * 2 ^ suc k) r,
  pow_split q k,
  or_fields k q (r / 2) (omega (arith, pow-suc 2 k)),
)
  where
    pow_split : (q k : ℕ) → q * 2 ^ suc k ≡ 2 * (q * 2 ^ k)
    pow_split q k = omega (arith, ap (λ (t : ℕ). q * t) (pow-suc 2 k))
