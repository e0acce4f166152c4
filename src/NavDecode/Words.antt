-- ===== src/NavDecode/Words.antt =====
-- The bit level of NavDecode/GPSOpenClNavigationDecoder.cpp: the search for the preamble, the fields
-- of a 30-bit word and its parity. A `uint32_t` is a number; the shifts of the code stay below 32.
use mathlib.Core.Bool.{xor}
use gpsopen_cl.Prelude.{ℕ, zero, suc, ◌+◌, ◌-◌, ◌*◌, ◌/◌, ◌%◌, ◌^◌, Bool, true, false, ◌&&◌, not}
use gpsopen_cl.Prelude.{
  List, [], ◌∷◌, Option, none, some, bit_and, bit_or, ltb, ◌==◌, if◌then◌else◌,
}
use gpsopen_cl.Prelude.{length, get_or}
use gpsopen_cl.Prelude.Int.{ℤ, pos, negsuc}

abbrev pub bits_per_subframe : ℕ
bits_per_subframe = 300

abbrev pub code_periods_per_bit : ℕ
code_periods_per_bit = 20

abbrev pub bit_value : Bool → ℕ
bit_value b = if b then 1 else 0

-- `byteVal = (byteVal << 1) | bit`, in eight bits.
unfoldable pub shift_in8 : ℕ → Bool → ℕ
shift_in8 v b = bit_or (v * 2) (bit_value b) % 2 ^ 8

-- The loop over `b` from 0 to 7, at `bits[i + b]`.
unfoldable pub byte_from : List Bool → ℕ → ℕ → ℕ → ℕ
unfolding shift_in8
byte_from bits i zero v = v
byte_from bits i (suc n) v = byte_from bits (i + 1) n (shift_in8 v (get_or bits i false))

abbrev pub preamble_normal : ℕ
preamble_normal = 0x8b

abbrev pub preamble_inverted : ℕ
preamble_inverted = 0x74

-- What the byte at `preambleIndex` says of the polarity: `none` where it is no preamble.
unfoldable pub polarity : ℕ → Option Bool
polarity v =
    if v == preamble_normal then some false else if v == preamble_inverted then some true else none

-- The loop from index `i`, with `rounds` indices left.
unfoldable pub search_from : List Bool → ℕ → ℕ → Option (ℕ × Bool)
unfolding byte_from polarity
search_from bits zero i = none
search_from bits (suc rounds) i =
    let rest = search_from bits rounds (i + 1) in
    elim (polarity (byte_from bits i 8 0)) [ some inverted ↦ some (i, inverted) | none ↦ rest ]

-- The index of the first preamble that a whole subframe may follow, and whether it is inverted.
unfoldable pub find_preamble : List Bool → Option (ℕ × Bool)
unfolding search_from
find_preamble bits =
    if ltb (length bits) bits_per_subframe
    then none
    else search_from bits (length bits - bits_per_subframe + 1) 0

-- `num_bits` bits from the `start`th of the 30 bits, counted from 1 at the most significant.
unfoldable pub extract_unsigned_bits : ℕ → ℕ → ℕ → ℕ
extract_unsigned_bits val start num_bits =
    let shift_right = 30 - (start + num_bits - 1) in
    bit_and (val / 2 ^ shift_right) (2 ^ num_bits - 1)

-- `static_cast<int32_t>` of a `uint32_t`.
abbrev pub signed32 : ℕ → ℤ
signed32 w = if ltb w (2 ^ 31) then pos w else negsuc (2 ^ 32 - w - 1)

-- `~mask` of the 32-bit mask is `2 ^ 32 - 1 - mask`.
unfoldable pub extract_signed_bits : ℕ → ℕ → ℕ → ℤ
extract_signed_bits val start num_bits =
    let uval = extract_unsigned_bits val start num_bits in
    let mask = 2 ^ num_bits - 1 in
    if not (bit_and uval (2 ^ (num_bits - 1)) == 0)
    then signed32 (bit_or uval (2 ^ 32 - 1 - mask))
    else signed32 uval

-- `(word >> k) & 1`, as a truth value.
unfoldable pub bit_at : ℕ → ℕ → Bool
bit_at word k = not (bit_and (word / 2 ^ k) 1 == 0)

-- A chain of `^` over the data bits with the listed numbers.
abbrev pub xors : Bool → (ℕ → Bool) → List ℕ → Bool
xors acc d [] = acc
xors acc d (i ∷ is) = xors (xor acc (d i)) d is

-- The data bits that each parity bit adds up.
abbrev pub taps25 : List ℕ
taps25 = 1 ∷ 2 ∷ 3 ∷ 5 ∷ 6 ∷ 10 ∷ 11 ∷ 12 ∷ 13 ∷ 14 ∷ 17 ∷ 18 ∷ 20 ∷ 23 ∷ []

abbrev pub taps26 : List ℕ
taps26 = 2 ∷ 3 ∷ 4 ∷ 6 ∷ 7 ∷ 11 ∷ 12 ∷ 13 ∷ 14 ∷ 15 ∷ 18 ∷ 19 ∷ 21 ∷ 24 ∷ []

abbrev pub taps27 : List ℕ
taps27 = 1 ∷ 3 ∷ 4 ∷ 5 ∷ 7 ∷ 8 ∷ 12 ∷ 13 ∷ 14 ∷ 15 ∷ 16 ∷ 19 ∷ 20 ∷ 22 ∷ []

abbrev pub taps28 : List ℕ
taps28 = 2 ∷ 4 ∷ 5 ∷ 6 ∷ 8 ∷ 9 ∷ 13 ∷ 14 ∷ 15 ∷ 16 ∷ 17 ∷ 20 ∷ 21 ∷ 23 ∷ []

abbrev pub taps29 : List ℕ
taps29 = 1 ∷ 3 ∷ 5 ∷ 6 ∷ 7 ∷ 9 ∷ 10 ∷ 14 ∷ 15 ∷ 16 ∷ 17 ∷ 18 ∷ 21 ∷ 22 ∷ 24 ∷ []

abbrev pub taps30 : List ℕ
taps30 = 3 ∷ 5 ∷ 6 ∷ 8 ∷ 9 ∷ 10 ∷ 11 ∷ 13 ∷ 15 ∷ 19 ∷ 22 ∷ 23 ∷ 24 ∷ []

-- `a == b` on truth values.
abbrev pub same : Bool → Bool → Bool
same a b = not (xor a b)

-- The six parity bits that the data bits `d` call for, with the last two bits of the word before.
abbrev pub parity_bits : (ℕ → Bool) → Bool → Bool → ℕ → Bool
parity_bits d prev_d29 prev_d30 i =
    if i == 25
    then xors prev_d29 d taps25
    else if i == 26
    then xors prev_d30 d taps26
    else if i == 27
    then xors prev_d29 d taps27
    else if i == 28
    then xors prev_d30 d taps28
    else if i == 29
    then xors prev_d30 d taps29
    else xors prev_d29 d taps30

unfoldable pub check_parity : ℕ → Bool → Bool → Bool
unfolding bit_at xor
check_parity word30bit prev_d29 prev_d30 =
    let d = λ (i : ℕ). bit_at word30bit (30 - i) in
    same (xors prev_d29 d taps25) (bit_at word30bit 5)
    && same (xors prev_d30 d taps26) (bit_at word30bit 4)
    && same (xors prev_d29 d taps27) (bit_at word30bit 3)
    && same (xors prev_d30 d taps28) (bit_at word30bit 2)
    && same (xors prev_d30 d taps29) (bit_at word30bit 1)
    && same (xors prev_d29 d taps30) (bit_at word30bit 0)
