-- ===== src/Nmea/Checksum.antt =====
-- A receiver that checks a sentence accepts the generated one and gets its body.
use gpsopen_cl.Prelude.{ℕ, ◌+◌, ◌-◌, ◌*◌, ◌/◌, ◌%◌, ◌<◌, ◌≡◌, ◌≢◌, refl, true, false}
use gpsopen_cl.Prelude.{
  Option, none, some, List, [], ◌∷◌, ◌++◌, AllOf, ltb, ◌==◌, if◌then◌else◌, ◌&&◌, ◌>>=◌, arith,
}
use gpsopen_cl.Prelude.{bit_xor, ◌^◌, Bool, ◌≤◌, zero, suc}
use gpsopen_cl.Prelude.Bits.{bit_xor_bit}
use native.Mathlib.Nat.{zero-div}
use gpsopen_cl.Nmea.{checksum_from, calculate_checksum, hex_digit, append_checksum}

-- The body before the first star, and what follows the star.
abbrev pub until_star : List ℕ → Option (List ℕ × List ℕ)
until_star [] = none
until_star (c ∷ cs) =
    let rest = until_star cs >>= λ p. some (c ∷ p.0, p.1) in
    if c == b'*' then some ([], cs) else rest

abbrev pub hex_value : ℕ → ℕ
hex_value c = if ltb c 58 then c - 48 else c - 55

abbrev pub bit : ℕ → ℕ → ℕ
bit k n = n / 2 ^ k % 2

-- The characters in which bit `k` is set.
abbrev pub ones : ℕ → List ℕ → ℕ
ones k [] = 0
ones k (c ∷ cs) = bit k c + ones k cs

-- The exclusive-or of the characters, bit by bit: each of the `n` lowest bits is set exactly where it is
-- set in an odd number of characters.
unfoldable pub is_sum_of : ℕ → ℕ → List ℕ → Bool
is_sum_of zero sum body = true
is_sum_of (suc k) sum body = (bit k sum == ones k body % 2) && is_sum_of k sum body

-- The body of a sentence, none where its form or its checksum is wrong.
abbrev pub check_tail : List ℕ × List ℕ → Option (List ℕ)
check_tail (body, hi ∷ lo ∷ cr ∷ lf ∷ []) =
    if is_sum_of 8 (16 * hex_value hi + hex_value lo) body && (cr == 13) && (lf == 10)
    then some body
    else none
check_tail _ = none

abbrev pub check_sentence : List ℕ → Option (List ℕ)
check_sentence [] = none
check_sentence (c ∷ cs) = if c == b'$' then until_star cs >>= check_tail else none

until_star_lem :
    (body rest : List ℕ)
    → AllOf (λ c. c ≢ b'*') body
    → until_star (body ++ (b'*' ∷ rest)) ≡ some (body, rest)
until_star_lem [] rest h = refl
until_star_lem (c ∷ body) rest (here, h) =
    let other : (c == b'*') ≡ false = ground arith in rw (other, until_star_lem body rest h) refl

hex_round : (n : ℕ) → n < 16 → hex_value (hex_digit n) ≡ n
hex_round n h = ground arith

byte_bit : (k n : ℕ) → k < 8 → bit k (n % 256) ≡ bit k n
byte_bit zero n h = omega arith
byte_bit (suc zero) n h = omega arith
byte_bit (suc (suc zero)) n h = omega arith
byte_bit (suc (suc (suc zero))) n h = omega arith
byte_bit (suc (suc (suc (suc zero)))) n h = omega arith
byte_bit (suc (suc (suc (suc (suc zero))))) n h = omega arith
byte_bit (suc (suc (suc (suc (suc (suc zero)))))) n h = omega arith
byte_bit (suc (suc (suc (suc (suc (suc (suc zero))))))) n h = omega arith
byte_bit (suc (suc (suc (suc (suc (suc (suc (suc k)))))))) n h = absurd (omega arith)

checksum_from-bit :
    (k sum : ℕ) (body : List ℕ)
    → k < 8
    → bit k (checksum_from sum body) ≡ (bit k sum + ones k body) % 2
unfolding checksum_from
checksum_from-bit k sum [] h = omega arith
checksum_from-bit k sum (c ∷ cs) h = omega (
  arith,
  checksum_from-bit k (bit_xor sum (c % 256)) cs h,
  bit_xor_bit k sum (c % 256),
  byte_bit k c h,
)

is_sum_of-calculate_checksum :
    (k : ℕ) (body : List ℕ) → k ≤ 8 → is_sum_of k (calculate_checksum body) body ≡ true
unfolding calculate_checksum is_sum_of
is_sum_of-calculate_checksum zero body h = refl
is_sum_of-calculate_checksum (suc k) body h =
    let rest = is_sum_of-calculate_checksum k body (omega arith) in
    let none_set : bit k 0 ≡ 0 = omega (arith, zero-div (2 ^ k)) in
    let here : (bit k (calculate_checksum body) == ones k body % 2) ≡ true = ground (
      arith,
      byte_bit k (checksum_from 0 body) (omega arith),
      checksum_from-bit k 0 body (omega arith),
    ) in
    rw (here, rest) refl

-- A receiver whose check is the parity of each bit over the characters accepts the generated sentence
-- of any body without a star, and returns the body.
pub check_sentence-append_checksum :
    (body : List ℕ) → AllOf (λ c. c ≢ b'*') body → check_sentence (append_checksum body) ≡ some body
unfolding append_checksum calculate_checksum
check_sentence-append_checksum body h =
    let sum = calculate_checksum body in
    let small : sum < 256 = omega arith in
    let high = hex_round (sum / 16) (omega arith) in
    let low = hex_round (sum % 16) (omega arith) in
    let whole : 16 * (sum / 16) + sum % 16 ≡ sum = omega arith in
    let checked = is_sum_of-calculate_checksum 8 body (omega arith) in
    rw
      (
        until_star_lem body (hex_digit (sum / 16) ∷ hex_digit (sum % 16) ∷ 13 ∷ 10 ∷ []) h,
        high,
        low,
        whole,
        checked,
      )
      refl
