-- ===== src/CaCode/Bits.antt =====
-- The registers against their form over bits, as IS-GPS-200 gives it: exclusive or in place of the
-- product, 1 for the chip -1.
use mathlib.Core.Bool.{xor}
use gpsopen_cl.Prelude.{
  ℕ, zero, suc, ◌+◌, ◌-◌, ◌%◌, ◌≡◌, refl, ap, Bool, true, false, not, List, [], ◌∷◌,
}
use gpsopen_cl.Prelude.{get_or, take, replicate, map, if◌then◌else◌}
use gpsopen_cl.Prelude.Int.{ℤ, pos, negsuc, ◌*ℤ◌, ◌-ℤ◌}
use gpsopen_cl.CaCode.{Registers, chip_at, advance, outputs, all_minus, code_chip, raw_code}

abbrev pub sign : Bool → ℤ
sign b = if b then negsuc 0 else pos 1

pub record BitRegisters : Type 0 where
  pub b1 : List Bool
  pub b2 : List Bool

abbrev pub bit : List Bool → ℕ → Bool
bit r i = get_or r i false

-- The feedback of the polynomials 1 + x^3 + x^10 and 1 + x^2 + x^3 + x^6 + x^8 + x^9 + x^10.
abbrev pub advance_bits : BitRegisters → BitRegisters
advance_bits r = record {
  b1 = xor (bit r.b1 2) (bit r.b1 9) ∷ take 9 r.b1;
  b2 =
      xor (xor (xor (xor (xor (bit r.b2 1) (bit r.b2 2)) (bit r.b2 5)) (bit r.b2 7)) (bit r.b2 8))
        (bit r.b2 9)
      ∷ take 9 r.b2;
}

unfoldable pub output_bits : ℕ → BitRegisters → List Bool × List Bool
output_bits zero r = ([], [])
output_bits (suc n) r =
    let (g1, g2) = output_bits n (advance_bits r) in (bit r.b1 9 ∷ g1, bit r.b2 9 ∷ g2)

-- The registers as chips.
abbrev pub signed : BitRegisters → Registers
signed r = record { r1 = map sign r.b1; r2 = map sign r.b2 }

chip_at-sign : (r : List Bool) (i : ℕ) → chip_at (map sign r) i ≡ sign (bit r i)
chip_at-sign [] i = refl
chip_at-sign (b ∷ r) zero = refl
chip_at-sign (b ∷ r) (suc i) = chip_at-sign r i

sign-xor : (a b : Bool) → sign a *ℤ sign b ≡ sign (xor a b)
unfolding ◌*ℤ◌ xor
sign-xor true true = refl
sign-xor true false = refl
sign-xor false true = refl
sign-xor false false = refl

take-map : (n : ℕ) (r : List Bool) → take n (map sign r) ≡ map sign (take n r)
take-map zero r = refl
take-map (suc n) [] = refl
take-map (suc n) (b ∷ r) = ap (λ t. sign b ∷ t) (take-map n r)

advance-signed : (r : BitRegisters) → advance (signed r) ≡ signed (advance_bits r)
unfolding advance
advance-signed r =
    rw
      (
        chip_at-sign r.b1 2,
        chip_at-sign r.b1 9,
        chip_at-sign r.b2 1,
        chip_at-sign r.b2 2,
        chip_at-sign r.b2 5,
        chip_at-sign r.b2 7,
        chip_at-sign r.b2 8,
        chip_at-sign r.b2 9,
        sign-xor,
        sign-xor,
        sign-xor,
        sign-xor,
        sign-xor,
        sign-xor,
        take-map 9 r.b1,
        take-map 9 r.b2,
      )
      refl

outputs-signed :
    (n : ℕ) (r : BitRegisters)
    → outputs n (signed r) ≡ (map sign (output_bits n r).0, map sign (output_bits n r).1)
unfolding outputs output_bits
outputs-signed zero r = refl
outputs-signed (suc n) r =
    rw
      (
        advance-signed r,
        outputs-signed n (advance_bits r),
        chip_at-sign r.b1 9,
        chip_at-sign r.b2 9,
      )
      refl

abbrev pub all_ones : BitRegisters
all_ones = record { b1 = replicate 10 true; b2 = replicate 10 true }

ones-signed : all_minus ≡ signed all_ones
unfolding all_minus
ones-signed = refl

chip-not-xor : (a b : Bool) → (pos 0 -ℤ sign a) *ℤ sign b ≡ sign (not (xor a b))
unfolding ◌*ℤ◌ ◌-ℤ◌ xor
chip-not-xor true true = refl
chip-not-xor true false = refl
chip-not-xor false true = refl
chip-not-xor false false = refl

-- Chip `i` of the standard's code with a delay: the first register's bit and the late second one's.
abbrev pub standard_chip : ℕ → ℕ → Bool
standard_chip delay i =
    let (g1, g2) = output_bits 1023 all_ones in xor (bit g1 i) (bit g2 ((1023 - delay + i) % 1023))

-- Every chip that the generator multiplies out is the standard's bit, 1 where the bit is 1 and -1
-- where it is 0, at any delay and any place.
pub raw_code-standard_chip : (delay i : ℕ) → raw_code delay i ≡ sign (not (standard_chip delay i))
unfolding raw_code code_chip
raw_code-standard_chip delay i =
    let bits = output_bits 1023 all_ones in
    rw
      (
        ones-signed,
        outputs-signed 1023 all_ones,
        chip_at-sign bits.0 i,
        chip_at-sign bits.1 ((1023 - delay + i) % 1023),
      )
      (chip-not-xor (bit bits.0 i) (bit bits.1 ((1023 - delay + i) % 1023)))
