-- ===== src/NavDecode/Fields.antt =====
-- The fields of a word and the preamble, against their definition by position.
use native.Mathlib.Nat.{one-le-pow, pow-suc, pow-le-pow_right, mod-lt}
use native.Mathlib.Decide.{dec_lt}
use gpsopen_cl.Prelude.{ap}
use gpsopen_cl.Prelude.{ℕ, zero, suc, ◌+◌, ◌-◌, ◌*◌, ◌/◌, ◌%◌, ◌^◌, ◌≤◌, ◌<◌, ◌≡◌}
use gpsopen_cl.Prelude.{not, bit_and, bit_or, ltb, ◌==◌, if◌then◌else◌, arith}
use gpsopen_cl.Prelude.Bits.{bit_and_mask, bit_or_fields, bit_or_comm, bit_and_pow, two-pow-add}
use gpsopen_cl.Prelude.Int.{ℤ, pos, negsuc}
use gpsopen_cl.NavDecode.Words.{extract_unsigned_bits, extract_signed_bits, signed32}

-- The field of `n` bits from bit `start` of a 30-bit word: the bits to its right are dropped.
abbrev pub field : ℕ → ℕ → ℕ → ℕ
field val start n = val / 2 ^ (31 - (start + n)) % 2 ^ n

-- The integer that `n` bits stand for in two's complement.
abbrev pub twos_complement : ℕ → ℕ → ℤ
twos_complement n u = if ltb u (2 ^ (n - 1)) then pos u else negsuc (2 ^ n - u - 1)

-- For a field inside the word `extractUnsignedBits` reads exactly its bits.
pub extract_unsigned_bits-field :
    (val start n : ℕ)
    → 1 ≤ start
    → start + n ≤ 31
    → extract_unsigned_bits val start n ≡ field val start n
unfolding extract_unsigned_bits
extract_unsigned_bits-field val start n h k =
    let shift : 30 - (start + n - 1) ≡ 31 - (start + n) = omega arith in
    rw shift (bit_and_mask n (val / 2 ^ (31 - (start + n))))

-- The sign test reads the top bit of the field.
signed_top : (k u : ℕ) → u < 2 ^ suc k → (bit_and u (2 ^ k) == 0) ≡ ltb u (2 ^ k)
signed_top k u h = elim (dec_lt u (2 ^ k)) [
  | yes p ↦
      let whole : 0 * 2 ^ k + u ≡ u = omega arith in
      ground (arith, rw whole at (bit_and_pow k 0 u p (omega arith)))
  | no p ↦
      let whole : 1 * 2 ^ k + (u - 2 ^ k) ≡ u = omega arith in
      ground (
        arith,
        one-le-pow k 2,
        rw whole at (bit_and_pow k 1 (u - 2 ^ k) (omega (arith, pow-suc 2 k)) (omega arith)),
      )
]

pred_mul : (q p : ℕ) → 1 ≤ q → (q - 1) * p + p ≡ q * p
pred_mul zero p h = absurd (omega arith)
pred_mul (suc q) p h = let e : suc q - 1 ≡ q = omega arith in rw e (omega arith)

-- The complement of the mask sets every bit above the field.
signed_extend :
    (k u : ℕ)
    → suc k ≤ 31
    → u < 2 ^ suc k
    → bit_or u (2 ^ 32 - 1 - (2 ^ suc k - 1)) ≡ 2 ^ 32 - 2 ^ suc k + u
signed_extend k u h l =
    let high : 2 ^ 32 - 1 - (2 ^ suc k - 1) ≡ (2 ^ (31 - k) - 1) * 2 ^ suc k = omega (
      arith,
      powers,
      one-le-pow (suc k) 2,
      pred_mul (2 ^ (31 - k)) (2 ^ suc k) (one-le-pow (31 - k) 2 (omega arith)),
    ) in
    rw
      (
        high,
        bit_or_comm u ((2 ^ (31 - k) - 1) * 2 ^ suc k),
        bit_or_fields (suc k) (2 ^ (31 - k) - 1) u l,
      )
      (omega (
        arith,
        high,
        one-le-pow (suc k) 2,
        powers,
        pred_mul (2 ^ (31 - k)) (2 ^ suc k) (one-le-pow (31 - k) 2 (omega arith)),
      ))
  where
    total : 32 ≡ suc k + (31 - k)
    total = omega arith

    powers : 2 ^ 32 ≡ 2 ^ suc k * 2 ^ (31 - k)
    powers = rw (← two-pow-add (suc k) (31 - k)) (ap (λ (n : ℕ). 2 ^ n) total)

signed32_field :
    (k u : ℕ)
    → suc k ≤ 31
    → u < 2 ^ suc k
    → (if not (bit_and u (2 ^ k) == 0)
        then signed32 (bit_or u (2 ^ 32 - 1 - (2 ^ suc k - 1)))
        else signed32 u)
      ≡ twos_complement (suc k) u
signed32_field k u h l =
    rw (signed_top k u l, signed_extend k u h l)
      (ground (arith, pow-suc 2 k, pow-le-pow_right {n = 2} (omega arith) {i = suc k} {j = 31} h))

-- `extractSignedBits` reads the same field in two's complement, whatever its width up to 30.
pub extract_signed_bits-field :
    (val start n : ℕ)
    → 1 ≤ start
    → start + suc n ≤ 31
    → extract_signed_bits val start (suc n) ≡ twos_complement (suc n) (field val start (suc n))
unfolding extract_signed_bits
extract_signed_bits-field val start n h k =
    let before : suc n - 1 ≡ n = omega arith in
    let narrow : suc n ≤ 31 = omega arith in
    rw (extract_unsigned_bits-field val start (suc n) h k, before)
      (rw before at (
        signed32_field n (field val start (suc n)) narrow
          (mod-lt (val / 2 ^ (31 - (start + suc n))) (one-le-pow (suc n) 2 (omega arith)))))
