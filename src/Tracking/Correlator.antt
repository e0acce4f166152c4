-- ===== src/Tracking/Correlator.antt =====
-- `Tracking::correlator`: eight lanes of samples side by side, and the samples that are left over.
use gpsopen_cl.Prelude.{ℕ, zero, suc, ◌+◌, ◌-◌, ◌*◌, ◌/◌, ◌%◌, min, List, length, get_or}
use gpsopen_cl.Prelude.{ltb, if◌then◌else◌}
use gpsopen_cl.Prelude.Int.{ℤ, pos, negsuc, pos_part, ◌-ℤ◌}
use gpsopen_cl.Float.{Floats}
use gpsopen_cl.Maths.{Maths, ◌⊕◌, ◌⊗◌, ◌⊘◌, whole}
use gpsopen_cl.CaCode.{raw_ca_codes}
use gpsopen_cl.Tracking.{Gains, Correlation, Tracking}
use gpsopen_cl.Tracking.Chips.{prompt_index, early_index, late_index}

-- The chips of a sample.
pub record SampleChips (F : Type 0) : Type 0 where
  pub early : F
  pub prompt : F
  pub late : F

module _ {F : Type 0} (add : F → F → F) (zero_f : F) where
  -- What one lane adds up: the terms `lane`, `lane + 8` and so on, of `blocks` rounds.
  unfoldable pub lane_sum : (ℕ → F) → ℕ → ℕ → F
  lane_sum term lane zero = zero_f
  lane_sum term lane (suc blocks) = add (lane_sum term lane blocks) (term (8 * blocks + lane))

  -- The first `n` lanes.
  unfoldable pub add_lanes : (ℕ → F) → ℕ → ℕ → F
  add_lanes term blocks zero = zero_f
  add_lanes term blocks (suc n) = add (add_lanes term blocks n) (lane_sum term n blocks)

  -- The `n` terms from `first` on, added to a total one by one.
  unfoldable pub add_rest : (ℕ → F) → ℕ → F → ℕ → F
  add_rest term first total zero = total
  add_rest term first total (suc n) = add (add_rest term first total n) (term (first + n))

  unfoldable pub sum_lanes : (ℕ → F) → ℕ → F
  sum_lanes term count = add_rest term (8 * (count / 8)) (add_lanes term (count / 8) 8) (count % 8)

module _ {F D : Type 0} ⦃m : Maths D⦄ (fp : Floats F D) (gains : Gains F D) where
  open fp use {
    zero_f, add_f, sub_f, mul_f, cos_f, sin_f, lt_f, le_f, of_int_f, truncate, widen, narrow,
  }

  -- `std::clamp(prn - 1, 0, 31)`.
  abbrev pub sv_index : ℕ → ℕ
  sv_index prn = min (prn - 1) 31

  -- A chip as a `float`; the index is in the code (Tracking/Indices).
  abbrev pub chip : (ℕ → ℤ) → ℤ → F
  chip code i = of_int_f (code (pos_part i))

  -- The largest whole number that is not above the phase.
  unfoldable pub floor_phase : F → ℤ
  floor_phase phase =
      let raw = truncate phase in if lt_f phase (of_int_f raw) then raw -ℤ pos 1 else raw

  unfoldable pub sample_chips : (ℕ → ℤ) → Tracking F → ℕ → SampleChips F
  sample_chips code t i =
      let phase = add_f (mul_f (of_int_f (pos i)) t.code_phase_step) t.rem_code_phase in
      let raw = floor_phase phase in
      let half = lt_f (sub_f phase (of_int_f raw)) (narrow (m.decimal (pos 5) (negsuc 0))) in
      let prompt = prompt_index raw in
      record {
        early = chip code (early_index half prompt);
        prompt = chip code prompt;
        late = chip code (late_index half prompt);
      }

  abbrev pub phase_step_rad : Tracking F → D
  phase_step_rad t =
      whole 2 ⊗ m.pi ⊗ widen t.carr_freq_hz ⊘ widen (narrow gains.sampling_frequency_hz)

  unfoldable pub carrier_of : F → F × F
  carrier_of angle = (cos_f angle, sin_f angle)

  abbrev pub angle_of : Tracking F → ℕ → F
  angle_of t i = narrow (widen t.rem_carr_phase ⊕ phase_step_rad t ⊗ whole i)

  -- The phasor of a lane after some rounds, each turned on by the angle of eight samples.
  unfoldable pub turned : Tracking F → ℕ → ℕ → F × F
  turned t lane zero = carrier_of (angle_of t lane)
  turned t lane (suc n) =
      let (re, im) = turned t lane n in
      let (block_re, block_im) = carrier_of (narrow (phase_step_rad t ⊗ whole 8)) in
      (sub_f (mul_f re block_re) (mul_f im block_im), add_f (mul_f re block_im) (mul_f im block_re))

  unfoldable pub carrier : Tracking F → ℕ → ℕ → F × F
  carrier t count i =
      if ltb i (8 * (count / 8)) then turned t (i % 8) (i / 8) else carrier_of (angle_of t i)

  -- A sample with the carrier wiped off.
  unfoldable pub wiped : Tracking F → ℕ → List (F × F) → ℕ → F × F
  wiped t count input i =
      let (in_re, in_im) = get_or input i (zero_f, zero_f) in
      let (re, im) = carrier t count i in
      (add_f (mul_f in_re re) (mul_f in_im im), sub_f (mul_f in_im re) (mul_f in_re im))

  abbrev pub total : (ℕ → F) → ℕ → F
  total term count = sum_lanes add_f zero_f term count

  unfoldable pub correlate_block : Tracking F → (ℕ → ℤ) → List (F × F) → Correlation F
  correlate_block t code input =
      let count = min (length input) gains.total_samples in
      let sample = wiped t count input in
      let chips = sample_chips code t in
      record {
        ie = total (λ i. mul_f (sample i).0 (chips i).early) count;
        ip = total (λ i. mul_f (sample i).0 (chips i).prompt) count;
        il = total (λ i. mul_f (sample i).0 (chips i).late) count;
        qe = total (λ i. mul_f (sample i).1 (chips i).early) count;
        qp = total (λ i. mul_f (sample i).1 (chips i).prompt) count;
        ql = total (λ i. mul_f (sample i).1 (chips i).late) count;
      }

  unfoldable pub correlator : List (F × F) → ℕ → Tracking F → Tracking F
  correlator input prn t =
      let samples = of_int_f (pos gains.total_samples) in
      let end_phase = add_f t.rem_code_phase (mul_f samples t.code_phase_step) in
      let final = (phase_step_rad t ⊗ whole gains.total_samples) ⊕ widen t.rem_carr_phase in
      if le_f (narrow gains.sampling_frequency_hz) zero_f then t else record t {
        sums = correlate_block t (raw_ca_codes (sv_index prn)) input;
        rem_code_phase = narrow (m.fmod (widen end_phase) (whole 1023));
        rem_carr_phase = narrow (m.fmod final (whole 2 ⊗ m.pi));
      }
