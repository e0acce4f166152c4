-- ===== src/Acquisition.antt =====
-- Source/Acquisition/GPSOpenClAcquisition.cpp: the Doppler bins and the correlation of one satellite.
-- The spectrum engine is the parameter `Gpu`; `logarithm` is `log10`, `nearest` is `lround`.
pub mod Bins
pub mod Peak
pub mod Batch
mod Tests
use gpsopen_cl.Prelude.{
  ℕ, zero, suc, ◌+◌, ◌-◌, ◌*◌, ◌/◌, ◌%◌, ◌^◌, Bool, true, false, Option, none, some, not, ◌||◌,
  ◌&&◌, max,
}
use gpsopen_cl.Prelude.{
  List, [], ◌∷◌, map, length, take, drop, get_or, ltb, leb, ◌==◌, if◌then◌else◌,
}
use gpsopen_cl.Prelude.Int.{ℤ, pos, negsuc, ◌-ℤ◌}
use gpsopen_cl.Float.{Floats}
use gpsopen_cl.Channel.Metrics.{Metrics, Bin, reset_acquisition_metrics, insert_acquisition_metrics}

-- The values of an `int`; C++ leaves a sum or difference outside them undefined.
abbrev pub fits_int : ℤ → Bool
fits_int (pos n) = ltb n (2 ^ 31)
fits_int (negsuc n) = ltb n (2 ^ 31)

-- `((span + step - 1) / step) + 1` where both are positive, none where `span + step` overflows.
abbrev pub bins_of : ℤ → ℤ → Option ℕ
bins_of (pos (suc span)) (pos (suc step)) =
    if fits_int (pos (suc span + suc step)) then some ((suc span + step) / suc step + 1) else none
bins_of (pos zero) step = some 1
bins_of (negsuc n) step = some 1
bins_of (pos (suc span)) (pos zero) = some 1
bins_of (pos (suc span)) (negsuc n) = some 1

-- None where an `int` overflows.
unfoldable pub compute_number_of_frequency_bins : ℤ → ℤ → ℤ → Option ℕ
compute_number_of_frequency_bins minimum maximum step =
    if fits_int (maximum -ℤ minimum) then bins_of (maximum -ℤ minimum) step else none

-- The numbers below `n`, from `k` on.
abbrev pub from_to : ℕ → ℕ → List ℕ
from_to k zero = []
from_to k (suc n) = k ∷ from_to (suc k) n

-- The reference spectrum of a bin and the circular shift that derives it.
unfoldable pub slot_shift : ℕ → ℕ → ℕ × ℕ
slot_shift reuse bin = (bin % reuse, bin / reuse)

unfoldable pub bin_slot_shift : ℕ → ℕ → List (ℕ × ℕ)
bin_slot_shift reuse bins = map (slot_shift reuse) (from_to 0 bins)

-- The spectrum engine with its state: a call gives whether it succeeded, its result and the state.
pub record Gpu (S F : Type 0) : Type 0 where
  pub invalidate : S → S
  pub to_slot : List (F × F) → List (F × F) → ℕ → S → Bool × S
  pub batch : List (F × F) → List (ℕ × ℕ) → S → Bool × List F × S
  pub single : List (F × F) → ℕ × ℕ → S → Bool × List F × S

-- The members that `correlate` reads.
pub record Acquisition (F : Type 0) : Type 0 where
  pub doppler_search : List (List (F × F))
  pub number_of_frequency_bins : ℕ
  pub initial_frequency_hz : F
  pub freq_spacing_hz : F
  pub samples : ℕ
  pub reuse_factor : ℕ

-- The local variables that the lambda `accumulateBin` updates.
pub record Best (F : Type 0) : Type 0 where
  pub peak_value : F
  pub peak_index : ℕ
  pub peak_frequency : F
  pub mean_total : F
  pub have_result : Bool

module _ {F D : Type 0} (fp : Floats F D) where
  open fp use {zero_f, add_f, sub_f, mul_f, div_f, abs_f, lt_f, le_f, of_int_f}

  -- The sum, the largest value and its index, over the values from index `i` on.
  unfoldable pub scan : List F → ℕ → F → F → ℕ → F × F × ℕ
  scan [] i sum best index = (sum, best, index)
  scan (v ∷ vs) i sum best index =
      let larger = scan vs (suc i) (add_f sum v) v i in
      let kept = scan vs (suc i) (add_f sum v) best index in if lt_f best v then larger else kept

  -- `values[0]` is there: the code calls it with values only.
  unfoldable pub scan_bin : List F → F × F × ℕ
  scan_bin values = scan values 0 zero_f (get_or values 0 zero_f) 0

  unfoldable pub accumulate_bin : ℕ → List F → F → Best F → Best F
  accumulate_bin bins values frequency b =
      let (sum, best, index) = scan_bin values in
      let mean = add_f b.mean_total (div_f sum (of_int_f (pos (length values * bins)))) in
      if not b.have_result || lt_f b.peak_value best
      then record {
        peak_value = best;
        peak_index = index;
        peak_frequency = frequency;
        mean_total = mean;
        have_result = true;
      }
      else record b { mean_total = mean }

  -- `n` bins of `size` values each, one after the other in a batch.
  unfoldable pub accumulate_batch : Acquisition F → ℕ → List F → F → Best F → Best F
  accumulate_batch acq zero values frequency b = b
  accumulate_batch acq (suc n) values frequency b =
      accumulate_batch acq n (drop acq.samples values) (add_f frequency acq.freq_spacing_hz)
        (accumulate_bin acq.number_of_frequency_bins (take acq.samples values) frequency b)

  module _ {S : Type 0} (gpu : Gpu S F) where
    -- The bins one by one, ended by the first that fails or is empty.
    unfoldable pub accumulate_single :
        Acquisition F → List (F × F) → List (ℕ × ℕ) → F → S → Best F → Bool × Best F × S
    accumulate_single acq code [] frequency s b = (true, b, s)
    accumulate_single acq code (p ∷ ps) frequency s b =
        let (ok, values, s') = gpu.single code p s in
        let rest =
          accumulate_single acq code ps (add_f frequency acq.freq_spacing_hz) s'
            (accumulate_bin acq.number_of_frequency_bins values frequency b) in
        if not ok || (length values == 0) then (false, b, s') else rest

    -- The forward transforms into the slots from `r` on.
    unfoldable pub fill_slots : List (F × F) → List (List (F × F)) → ℕ → S → Bool × S
    fill_slots input [] r s = (true, s)
    fill_slots input (replica ∷ replicas) r s =
        let (ok, s') = gpu.to_slot input replica r s in
        let rest = fill_slots input replicas (suc r) s' in if ok then rest else (false, s')

    abbrev pub at_first : Acquisition F → Best F
    at_first acq = record {
      peak_value = zero_f;
      peak_index = 0;
      peak_frequency = acq.initial_frequency_hz;
      mean_total = zero_f;
      have_result = false;
    }

    -- The search over the bins: the batch where it succeeds with a whole result, else bin by bin.
    unfoldable pub search_bins : Acquisition F → List (F × F) → S → Bool × Best F × S
    search_bins acq code s =
        let bins = acq.number_of_frequency_bins in
        let pairs = bin_slot_shift acq.reuse_factor bins in
        let (ok, values, s') = gpu.batch code pairs s in
        if ok && (length values == bins * acq.samples)
        then (true, accumulate_batch acq bins values acq.initial_frequency_hz (at_first acq), s')
        else accumulate_single acq code pairs acq.initial_frequency_hz s' (at_first acq)

    -- What is written to the channel at the end.
    unfoldable pub conclude : (F → F) → F → Bool × Best F × S → Metrics F → Metrics F × S
    conclude logarithm gain (ok, b, s) metrics =
        let bin : Bin F = record {
          peak = b.peak_value;
          index = pos b.peak_index;
          frequency_hz = b.peak_frequency;
          mean = b.mean_total;
        } in
        if ok && b.have_result
        then (insert_acquisition_metrics fp logarithm gain bin metrics, s)
        else (metrics, s)

    unfoldable pub correlate :
        (F → F) → F → Acquisition F → List (F × F) → List (F × F) → S → Metrics F → Metrics F × S
    correlate logarithm gain acq input code s metrics =
        let reset = reset_acquisition_metrics fp logarithm gain metrics in
        let (ok, filled) = fill_slots input acq.doppler_search 0 (gpu.invalidate s) in
        if ok then conclude logarithm gain (search_bins acq code filled) reset else (reset, filled)

  -- The rounded ratio where it is a whole number of bins up to a tolerance, 1e-3 in the code.
  unfoldable pub exact_factor : F → ℕ → F → ℤ → ℕ
  exact_factor tolerance bins ratio (negsuc n) = max bins 1
  exact_factor tolerance bins ratio (pos n) =
      if ltb n 1 || ltb bins n || lt_f tolerance (abs_f (sub_f ratio (of_int_f (pos n))))
      then max bins 1
      else n

  unfoldable pub compute_reuse_factor : (F → ℤ) → F → ℕ → ℕ → F → F → ℕ
  compute_reuse_factor nearest tolerance bins samples spacing sampling =
      let ratio = div_f (div_f sampling (of_int_f (pos samples))) spacing in
      if (samples == 0) || le_f spacing zero_f || le_f sampling zero_f
      then max bins 1
      else exact_factor tolerance bins ratio (nearest ratio)

  -- The carrier replicas: `cis` is the complex exponential of an imaginary number.
  unfoldable pub replica : F → (F → F × F) → F → F → List ℕ → List (F × F)
  replica pi_f cis frequency sampling indices =
      map
        (λ i. cis (
          add_f
            (mul_f (mul_f (mul_f (mul_f (of_int_f (pos 2)) pi_f) frequency) (of_int_f (pos i)))
              (div_f (of_int_f (pos 1)) sampling))
            zero_f))
        indices

  unfoldable pub create_doppler_search_table :
      F → (F → F × F) → ℕ → F → F → F → ℕ → List (List (F × F))
  create_doppler_search_table pi_f cis samples sampling spacing frequency zero = []
  create_doppler_search_table pi_f cis samples sampling spacing frequency (suc n) =
      replica pi_f cis frequency sampling (from_to 0 samples)
      ∷ create_doppler_search_table pi_f cis samples sampling spacing (add_f frequency spacing) n
