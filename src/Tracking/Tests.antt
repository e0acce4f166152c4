-- ===== src/Tracking/Tests.antt =====
-- The loop on integers: chips at the edges of the code, sums over 19 samples, a pull-in of two blocks.
use gpsopen_cl.Prelude.{ℕ, ◌+◌, ◌*◌, ◌%◌, ◌<◌, ◌≡◌, ◌⊎◌, refl, true, false, List, [], ◌∷◌, arith}
use gpsopen_cl.Prelude.Int.{ℤ, pos, negsuc, ltb_ℤ, ◌+ℤ◌, ◌-ℤ◌}
use gpsopen_cl.Float.{ints}
use gpsopen_cl.Pvt.Tests.{toy}
use gpsopen_cl.Tracking.{Gains, Tracking}
use gpsopen_cl.Tracking.Chips.{prompt_index, early_index, late_index, count_down, count_up}
use gpsopen_cl.Tracking.Correlator.{sum_lanes}
use gpsopen_cl.Tracking.Loop.{init_tracking_state}
use gpsopen_cl.Tracking.Work.{LoopInput, gains_of, blank_tracking}
use gpsopen_cl.Tracking.Indices.{chip_indices}
use gpsopen_cl.Tracking.Sums.{Summation, value, occurrences, sum_lanes_once}
use gpsopen_cl.Prelude.{◌/◌, ltb, if◌then◌else◌}
use gpsopen_cl.Prelude.Int.{pos_part}
use gpsopen_cl.Tracking.PullIn.{run, run_pull_in}

-- Half a chip before the start of a code.
before_start : early_index true (prompt_index (negsuc 1022)) ≡ pos 1022
unfolding early_index prompt_index count_down count_up ◌+ℤ◌ ◌-ℤ◌
before_start = refl

chip_indices_example :
    (n e l down up : ℕ) × (prompt_index (negsuc 0) ≡ pos n)
    × (early_index false (prompt_index (negsuc 0)) ≡ pos e)
    × (late_index false (prompt_index (negsuc 0)) ≡ pos l)
    × (n < 1023)
    × (e < 1023)
    × (0 + 1023 * up ≡ n + 1 + 1023 * down)
    × (l ≡ (e + 1) % 1023)
    × ((e ≡ n) ⊎ (l ≡ n))
chip_indices_example = chip_indices (negsuc 0) false

-- An addition that rounds down to even numbers.
abbrev even_sum : ℤ → ℤ → ℤ
even_sum a b = pos ((pos_part a + pos_part b) / 2 * 2)

sum_lanes_once_example :
    (s : Summation) × (sum_lanes even_sum (pos 0) (λ i. pos (i * i)) 19
      ≡ value even_sum (pos 0) (λ i. pos (i * i)) s)
    × ((i : ℕ) → occurrences i s ≡ (if ltb i 19 then 1 else 0))
sum_lanes_once_example = sum_lanes_once even_sum (pos 0) (λ i. pos (i * i)) 19

abbrev loop_input : LoopInput ℤ
loop_input = record {
  pll_bandwidth_hz = pos 25;
  dll_bandwidth_hz = pos 2;
  fll_bandwidth_hz = pos 10;
  fll_pull_in_blocks = pos 75;
  rate_aid_bandwidth_hz = pos 1;
  sampling_frequency_hz = pos 4096000;
  number_of_samples_per_code = 4096;
  lock_indicator_ema_alpha = pos 1;
}

abbrev gains : Gains ℤ ℤ
unfolding gains_of
gains = gains_of ints loop_input

abbrev fresh : Tracking ℤ
unfolding blank_tracking
fresh = blank_tracking ints gains

abbrev blocks : List (List (ℤ × ℤ) × ℕ)
blocks = ((pos 3, pos 1) ∷ [], 1) ∷ ((pos 2, negsuc 4) ∷ [], 1) ∷ []

pull_in_length : gains.fll_pull_in_blocks ≡ pos 75
unfolding gains gains_of
pull_in_length = refl

run_pull_in_example :
    (let after =
        run ints gains 5 blocks (init_tracking_state ints gains (pos 1200) (pos 300) fresh) in
      (after.carr_nco ≡ pos 0)
      × (after.carr_freq_basis_hz ≡ pos 1200)
      × (after.blocks_since_init ≡ 2))
run_pull_in_example =
    run_pull_in ints gains (pos 1200) (pos 300) 5 75 blocks fresh pull_in_length (omega arith)

apart : ltb_ℤ (pos 15000) (ints.neg_f (pos 15000)) ≡ false
unfolding ◌-ℤ◌
apart = refl
