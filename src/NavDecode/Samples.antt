-- ===== src/NavDecode/Samples.antt =====
-- The samples of the prompt history as bits, words and a start: `promptToBits` and the loops of
-- `tryDecodeAtBitPosition`. A sample is a pair of its real and imaginary part.
use gpsopen_cl.Prelude.{ℕ, zero, suc, ◌+◌, ◌-◌, ◌*◌, ◌/◌, ◌%◌, ◌^◌, Bool, false, not, Option}
use gpsopen_cl.Prelude.{none, some, List, [], ◌∷◌, bit_xor, bit_or, ltb, leb, ◌==◌, if◌then◌else◌}
use gpsopen_cl.Prelude.{length, get_or}
use gpsopen_cl.Prelude.Int.{pos, negsuc}
use gpsopen_cl.Float.{Floats, nat, max_d, min_d}
use gpsopen_cl.NavDecode.Words.{bits_per_subframe, code_periods_per_bit, bit_value}
use gpsopen_cl.NavDecode.Words.{bit_at, check_parity}

-- `raw = (raw << 1) | bit`, in 32 bits.
unfoldable pub shift_in32 : ℕ → Bool → ℕ
shift_in32 v b = bit_or (v * 2 % 2 ^ 32) (bit_value b)

-- The bits of the subframe as they read after the polarity is taken out.
abbrev pub bit_of : List Bool → Bool → ℕ → Bool
bit_of bits inverted i = let v = get_or bits i false in if inverted then not v else v

-- The loop over the 30 bits of a word.
unfoldable pub raw_word : (ℕ → Bool) → ℕ → ℕ → ℕ → ℕ
unfolding shift_in32
raw_word bit start zero raw = raw
raw_word bit start (suc n) raw = raw_word bit (start + 1) n (shift_in32 raw (bit start))

abbrev pub data_bits_mask : ℕ
data_bits_mask = 0x3fffffc0

abbrev pub data_word : ℕ → Bool → ℕ
data_word raw prev_d30 = if prev_d30 then bit_xor raw data_bits_mask else raw

-- The loop over the words from bit `start` on; `none` where a parity check fails.
unfoldable pub decode_words : (ℕ → Bool) → ℕ → ℕ → Bool → Bool → Option (List ℕ)
unfolding raw_word check_parity bit_at
decode_words bit zero start prev_d29 prev_d30 = some []
decode_words bit (suc n) start prev_d29 prev_d30 =
    let raw = raw_word bit start 30 0 in
    let word = data_word raw prev_d30 in
    let rest = decode_words bit n (start + 30) (bit_at raw 1) (bit_at raw 0) in
    if check_parity word prev_d29 prev_d30
    then elim rest [ some words ↦ some (word ∷ words) | none ↦ none ]
    else none

module _ {F D : Type 0} (fp : Floats F D) where
  open fp use {zero_f, add_f, lt_f, add, sub, mul, div, abs, lt, of_int, widen}

  -- `promptHistory[i].real()`.
  abbrev pub real_at : List (F × F) → ℕ → F
  real_at history i = (get_or history i (zero_f, zero_f)).0

  -- `sumRe` over `n` samples from `base`.
  unfoldable pub sum_re : List (F × F) → ℕ → ℕ → F → F
  sum_re history base zero sum = sum
  sum_re history base (suc n) sum = sum_re history (base + 1) n (add_f sum (real_at history base))

  -- A bit: the sign of the sum over its twenty code periods.
  unfoldable pub bit_from : List (F × F) → ℕ → Bool
  unfolding sum_re
  bit_from history base = lt_f zero_f (sum_re history base code_periods_per_bit zero_f)

  -- `n` bits from sample `base`.
  unfoldable pub demodulate : List (F × F) → ℕ → ℕ → List Bool
  unfolding bit_from
  demodulate history base zero = []
  demodulate history base (suc n) =
      bit_from history base ∷ demodulate history (base + code_periods_per_bit) n

  -- The loop stops at the last whole bit.
  unfoldable pub prompt_to_bits : List (F × F) → List Bool
  unfolding demodulate
  prompt_to_bits history = demodulate history 0 (length history / code_periods_per_bit)

  -- The last two bits before the subframe, from the third bit position on.
  unfoldable pub previous_bits : List (F × F) → ℕ → ℕ → Bool → Bool × Bool
  unfolding bit_from
  previous_bits history start_sample bit_position inverted =
      let read = λ (base : ℕ). (let b = bit_from history base in if inverted then not b else b) in
      if leb 2 bit_position
      then (
        read (start_sample - 2 * code_periods_per_bit),
        read (start_sample - code_periods_per_bit),
      )
      else (false, false)

  abbrev pub one : D
  one = of_int (pos 1)

  abbrev pub sign_of : Bool → D
  sign_of b = if b then one else of_int (negsuc 0)

  -- `edgeFraction`, from the code phase at the start; `none` is the null pointer.
  unfoldable pub edge_fraction : Option (List F) → ℕ → D
  edge_fraction none start_sample = div one (of_int (pos 2))
  edge_fraction (some phases) start_sample =
      let chips = widen (get_or phases start_sample zero_f) in
      let fraction = div (sub (nat fp 1023) chips) (nat fp 1023) in
      if ltb start_sample (length phases)
      then min_d fp (max_d fp fraction (nat fp 0)) one
      else div one (of_int (pos 2))

  -- The loop over the bits in the metric of one candidate start.
  unfoldable pub metric_from : List (F × F) → List Bool → D → ℕ → ℕ → ℕ → D → D
  unfolding sum_re
  metric_from history bits edge start i zero metric = metric
  metric_from history bits edge start i (suc n) metric =
      let base = start + i * code_periods_per_bit in
      let sign = sign_of (get_or bits i false) in
      let inner = add metric (mul sign (widen (sum_re history (base + 1) 19 zero_f))) in
      let previous = sign_of (get_or bits (i - 1) false) in
      let weight = add (mul edge previous) (mul (sub one edge) sign) in
      metric_from history bits edge start (i + 1) n
        (if i == 0 then inner else add inner (mul weight (widen (real_at history base))))

  -- One round of the loop over `candidate`, with `c = candidate + 2`: a start before the history
  -- or a subframe past its end is skipped, and a larger metric replaces the best one.
  unfoldable pub consider : ℕ → ℕ → ℕ → D → ℕ × D → ℕ × D
  consider size start c metric best =
      if ltb (start + c) 2
      then best
      else if ltb size (start + c - 2 + bits_per_subframe * code_periods_per_bit)
      then best
      else if lt best.1 metric
      then (c, metric)
      else best

  -- The loop over `candidate` from -2 to 2, here `c` from 0 to 4.
  unfoldable pub best_from : List (F × F) → List Bool → D → ℕ → ℕ → ℕ → ℕ × D → ℕ × D
  best_from history bits edge start c zero best = best
  best_from history bits edge start c (suc n) best =
      let metric = abs (metric_from history bits edge (start + c - 2) 0 300 (nat fp 0)) in
      best_from history bits edge start (c + 1) n (consider (length history) start c metric best)

  -- `startSample + bestOffset`.
  unfoldable pub refine_start : List (F × F) → List Bool → D → ℕ → ℕ
  refine_start history bits edge start =
      start + (best_from history bits edge start 0 5 (2, of_int (negsuc 0))).0 - 2
