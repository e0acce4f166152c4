-- ===== src/Prelude/Bits.antt =====
-- Laws of the bit operations at variables: the step at the lowest digit, low masks, disjoint fields.
use Prim.Native.Nat.{ℕ, zero, suc, ◌+◌, ◌-◌, ◌*◌, ◌/◌, ◌%◌, ◌^◌, ◌≤◌, ◌<◌, min, max}
use Prim.Native.Nat.{
  differ, bit_and, bit_or, bit_xor, digits, bit_xor-bitwise, bitwise, bit_and-bitwise,
  bit_or-bitwise,
}
use mathlib.Core.Path.{◌≡◌, refl, sym, ap, ◌∙◌}
use native.Mathlib.Nat.{pow-suc, one-le-pow, pow-succ', zero-add, suc-add, div-div-eq-div-mul}
use native.Mathlib.Omega.{arith}

-- The fuel of `digits` does not matter once it reaches the first number, so that a number's lowest
-- digit can be split off.
module _ (empty : ℕ → ℕ) (op : ℕ → ℕ → ℕ) where
  same_digits : (x y p q : ℕ) → (x ≤ p) × (x ≤ q) → digits empty op p x y ≡ digits empty op q x y
  same_digits zero y zero zero h = refl
  same_digits zero y zero (suc q) h = refl
  same_digits zero y (suc p) zero h = refl
  same_digits zero y (suc p) (suc q) h = refl
  same_digits (suc x) y zero q h = absurd (omega arith)
  same_digits (suc x) y (suc p) zero h = absurd (omega arith)
  same_digits (suc x) y (suc p) (suc q) h = rw (same_digits (suc x / 2) (y / 2) p q (omega arith))

  lowest_digit :
      (x y : ℕ)
      → bitwise empty op (suc x) y
        ≡ op (suc x % 2) (y % 2) + bitwise empty op (suc x / 2) (y / 2) * 2
  lowest_digit x y =
      let half = suc x / 2 in omega (arith, same_digits half (y / 2) x half (omega arith))

pub bit_or_step : (x y : ℕ) → bit_or x y ≡ max (x % 2) (y % 2) + bit_or (x / 2) (y / 2) * 2
bit_or_step zero y = simp bit_or-bitwise (omega arith)
bit_or_step (suc x) y = simp bit_or-bitwise (lowest_digit (λ t. t) max x y)

pub bit_and_step : (x y : ℕ) → bit_and x y ≡ min (x % 2) (y % 2) + bit_and (x / 2) (y / 2) * 2
bit_and_step zero y = simp bit_and-bitwise (omega arith)
bit_and_step (suc x) y = simp bit_and-bitwise (lowest_digit (λ t. 0) min x y)

-- By recursion below a bound.
zero_laws : (bound x : ℕ) → x ≤ bound → (bit_or x 0 ≡ x) × (bit_and x 0 ≡ 0)
zero_laws bound zero h = (refl, refl)
zero_laws zero (suc x) h = absurd (omega arith)
zero_laws (suc bound) (suc x) h =
    let (ors, ands) = zero_laws bound (suc x / 2) (omega arith) in
    (omega (arith, bit_or_step (suc x) 0, ors), omega (arith, bit_and_step (suc x) 0, ands))

pub bit_or-zero : (x : ℕ) → bit_or x 0 ≡ x
bit_or-zero x = (zero_laws x x (omega arith)).0

pub bit_and-zero : (x : ℕ) → bit_and x 0 ≡ 0
bit_and-zero x = (zero_laws x x (omega arith)).1

mul-two-pow-suc : (hi k : ℕ) → hi * 2 ^ suc k ≡ 2 * (hi * 2 ^ k)
mul-two-pow-suc hi k = omega (arith, ap (λ (p : ℕ). hi * p) (pow-suc 2 k))

-- `(hi << k) | lo` is a sum when `lo` fits `k` bits.
pub bit_or_fields : (k hi lo : ℕ) → lo < 2 ^ k → bit_or (hi * 2 ^ k) lo ≡ hi * 2 ^ k + lo
bit_or_fields zero hi lo small = ground (arith, bit_or-zero hi)
bit_or_fields (suc k) hi lo small =
    let rest = bit_or_fields k hi (lo / 2) (omega arith) in
    ground (arith, rest, mul-two-pow-suc hi k, bit_or_step (hi * 2 ^ suc k) lo)

low_mask : (k hi lo : ℕ) → lo < 2 ^ k → bit_and (hi * 2 ^ k + lo) (2 ^ k - 1) ≡ lo
low_mask zero hi lo small = rw bit_and-zero (omega arith)
low_mask (suc k) hi lo small =
    let rest = low_mask k hi (lo / 2) (omega arith) in
    ground (
      arith,
      rest,
      pow-suc 2 k,
      mul-two-pow-suc hi k,
      bit_and_step (hi * 2 ^ suc k + lo) (2 ^ suc k - 1),
    )

-- A mask of `k` low bits is the remainder by `2 ^ k`.
pub bit_and_mask : (k a : ℕ) → bit_and a (2 ^ k - 1) ≡ a % 2 ^ k
bit_and_mask k a = ground (arith, one-le-pow k 2, low_mask k (a / 2 ^ k) (a % 2 ^ k))

-- The digit that `bit_xor` puts for two digits.
differ_small : (x y : ℕ) → x < 2 → y < 2 → differ x y ≡ (x + y) % 2
differ_small zero y h k = omega arith
differ_small (suc zero) zero h k = refl
differ_small (suc zero) (suc zero) h k = refl
differ_small (suc x) (suc (suc y)) h k = absurd (omega arith)
differ_small (suc (suc x)) y h k = absurd (omega arith)

differ-mod : (a b : ℕ) → differ (a % 2) (b % 2) ≡ (a % 2 + b % 2) % 2
differ-mod a b = differ_small (a % 2) (b % 2) (omega arith) (omega arith)

bit_xor_step : (a b : ℕ) → bit_xor a b ≡ bit_xor (a / 2) (b / 2) * 2 + (a % 2 + b % 2) % 2
bit_xor_step zero b = simp bit_xor-bitwise (omega arith)
bit_xor_step (suc a) b =
    simp bit_xor-bitwise (omega (arith, lowest_digit (λ b. b) differ a b, differ-mod (suc a) b))

zero-bit_or : (b : ℕ) → bit_or 0 b ≡ b
zero-bit_or b = bit_or-bitwise 0 b

bit_or_comm_fuel : (n a b : ℕ) → a ≤ n → b ≤ n → bit_or a b ≡ bit_or b a
bit_or_comm_fuel n zero b h k = zero-bit_or b ∙ sym (bit_or-zero b)
bit_or_comm_fuel zero (suc a) b h k = absurd (omega arith)
bit_or_comm_fuel (suc n) (suc a) b h k = omega (
  arith,
  bit_or_step (suc a) b,
  bit_or_step b (suc a),
  bit_or_comm_fuel n (suc a / 2) (b / 2) (omega arith) (omega arith),
)

pub bit_or_comm : (a b : ℕ) → bit_or a b ≡ bit_or b a
bit_or_comm a b = bit_or_comm_fuel (a + b) a b (omega arith) (omega arith)

-- The top bit of a field of `k + 1` bits.
pub bit_and_pow : (k b r : ℕ) → r < 2 ^ k → b < 2 → bit_and (b * 2 ^ k + r) (2 ^ k) ≡ b * 2 ^ k
bit_and_pow zero b r h hb =
    ground (arith, bit_and_step (b * 1 + r) 1, bit_and-zero ((b * 1 + r) / 2))
bit_and_pow (suc k) b r h hb = ground (
  arith,
  bit_and_step (b * 2 ^ suc k + r) (2 ^ suc k),
  mul-two-pow-suc b k,
  pow-suc 2 k,
  bit_and_pow k b (r / 2) (omega arith) hb,
)

pub two-pow-add : (a b : ℕ) → 2 ^ (a + b) ≡ 2 ^ a * 2 ^ b
two-pow-add zero b = ap (λ (n : ℕ). 2 ^ n) (zero-add b) ∙ omega arith
two-pow-add (suc a) b = rw (suc-add, pow-suc, pow-suc) (rw (two-pow-add a b) (omega arith))

pub div-two-pow-suc : (a k : ℕ) → a / 2 ^ suc k ≡ a / 2 / 2 ^ k
div-two-pow-suc a k = rw (pow-succ', ← div-div-eq-div-mul) refl

-- Bit `k` of an exclusive or.
pub bit_xor_bit : (k a b : ℕ) → bit_xor a b / 2 ^ k % 2 ≡ (a / 2 ^ k % 2 + b / 2 ^ k % 2) % 2
bit_xor_bit zero a b = omega (arith, bit_xor_step a b)
bit_xor_bit (suc k) a b =
    let halves : bit_xor a b / 2 ≡ bit_xor (a / 2) (b / 2) = omega (arith, bit_xor_step a b) in
    rw (div-two-pow-suc (bit_xor a b) k, div-two-pow-suc a k, div-two-pow-suc b k, halves)
      (bit_xor_bit k (a / 2) (b / 2))
