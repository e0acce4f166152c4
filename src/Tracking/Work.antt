-- ===== src/Tracking/Work.antt =====
-- The rest of the loop: the code discriminator, the lock indicators, `Tracking::doWork`, and the loop
-- as the channel uses it.
use gpsopen_cl.Prelude.{ℕ, ◌+◌, not, List, if◌then◌else◌}
use gpsopen_cl.Prelude.Int.{ℤ, pos, negsuc, ltb_ℤ}
use gpsopen_cl.Float.{Floats}
use gpsopen_cl.Maths.{Maths, ◌⊕◌, ◌⊖◌, ◌⊗◌, ◌⊘◌, whole, code_period}
use gpsopen_cl.Channel.State.{Engine}
use gpsopen_cl.Tracking.{Gains, Tracking}
use gpsopen_cl.Tracking.Correlator.{correlator}
use gpsopen_cl.Tracking.Loop.{carrier_lock_indicator, code_lock_ratio, reset_accumulation, filtered}
use gpsopen_cl.Tracking.Loop.{init_tracking_state, fll_discriminator, is_prompt_signal_reliable}
use gpsopen_cl.Tracking.Loop.{rate_aid_discriminator, compute_costas_phase_error}
use gpsopen_cl.Tracking.Loop.{freq_discriminator, phase_step, loop_filter_tau1, loop_filter_tau2}
use gpsopen_cl.Tracking.Loop.{code_frequency}

-- The settings of the loop.
pub record LoopInput (D : Type 0) : Type 0 where
  pub pll_bandwidth_hz : D
  pub dll_bandwidth_hz : D
  pub fll_bandwidth_hz : D
  pub fll_pull_in_blocks : ℤ
  pub rate_aid_bandwidth_hz : D
  pub sampling_frequency_hz : D
  pub number_of_samples_per_code : ℕ
  pub lock_indicator_ema_alpha : D

module _ {F D : Type 0} ⦃m : Maths D⦄ (fp : Floats F D) where
  open m use {decimal, abs, sqrt}
  open fp use {zero_f, add_f, sub_f, mul_f, div_f, sqrt_f, of_int_f, widen, narrow}

  unfoldable pub code_discriminator : Gains F D → Tracking F → Tracking F
  code_discriminator gains t =
      let s = t.sums in
      let early = widen (sqrt_f (add_f (mul_f s.ie s.ie) (mul_f s.qe s.qe))) in
      let late = widen (sqrt_f (add_f (mul_f s.il s.il) (mul_f s.ql s.ql))) in
      let denom = early ⊕ late in
      let error =
        if m.equal denom (whole 0)
        then zero_f
        else narrow (decimal (pos 5) (negsuc 0) ⊗ (early ⊖ late) ⊘ denom) in
      let nco =
        filtered fp gains.dll_tau1 gains.dll_tau2 t.code_nco_prev error t.code_error_prev_chips
          t.code_nco in
      let code_freq =
        sub_f (add_f t.code_freq_basis_hz (div_f t.carr_freq_hz (of_int_f (pos 1540)))) nco in
      record t {
        code_error_chips = error;
        code_nco = nco;
        code_nco_prev = nco;
        code_error_prev_chips = error;
        code_freq_hz = code_freq;
        code_phase_step = phase_step fp gains code_freq t.code_phase_step;
      }

  abbrev smoothed : D → D → F → F
  smoothed alpha new old = narrow ((alpha ⊗ new) ⊕ ((whole 1 ⊖ alpha) ⊗ widen old))

  unfoldable pub update_lock_indicators : Gains F D → Tracking F → Tracking F
  update_lock_indicators gains t =
      let alpha = gains.lock_indicator_ema_alpha in
      let carrier = carrier_lock_indicator fp (widen t.sums.ip) (widen t.sums.qp) in
      let code = code_lock_ratio fp (widen t.sums.ie) (widen t.sums.ip) (widen t.sums.il) in
      record t {
        carrier_lock_ema = smoothed alpha carrier t.carrier_lock_ema;
        code_lock_ema = smoothed alpha code t.code_lock_ema;
      }

  -- The pull-in: the frequency loop, or its frequency held where the prompt signal is weak.
  unfoldable pub pull_in : Gains F D → Tracking F → Tracking F
  pull_in gains t =
      let (reliable, seen) = is_prompt_signal_reliable fp t in
      if reliable
      then fll_discriminator fp gains seen
      else record seen { carr_freq_hz = add_f seen.carr_freq_basis_hz seen.fll_nco }

  -- The first block of the phase loop takes over the frequency of the pull-in.
  unfoldable pub take_over : Tracking F → Tracking F
  take_over t = record t {
    carr_nco = t.fll_nco;
    carr_nco_prev = t.fll_nco;
    carr_error_prev_cycles = compute_costas_phase_error fp t;
  }

  unfoldable pub phase_lock : Gains F D → Tracking F → Tracking F
  phase_lock gains t =
      let (reliable, seen) = is_prompt_signal_reliable fp t in
      if reliable
      then freq_discriminator fp gains (rate_aid_discriminator fp gains seen)
      else record seen { carr_freq_hz = add_f seen.carr_freq_basis_hz seen.carr_nco }

  -- The carrier loop of a block.
  unfoldable pub carrier_loop : Gains F D → Tracking F → Tracking F
  carrier_loop gains t =
      let blocks = pos t.blocks_since_init in
      let first = not (ltb_ℤ gains.fll_pull_in_blocks blocks) in
      if ltb_ℤ blocks gains.fll_pull_in_blocks
      then pull_in gains t
      else phase_lock gains (if first then take_over t else t)

  -- A block: the new state, and the prompt sums before they are cleared.
  unfoldable pub do_work : Gains F D → List (F × F) → ℕ → ℕ → Tracking F → Tracking F × (F × F)
  do_work gains input prn channel_state t =
      let correlated =
        correlator fp gains input prn (record t { last_channel_state = channel_state }) in
      let carried = code_discriminator gains (carrier_loop gains correlated) in
      let locked = update_lock_indicators gains carried in
      (
        reset_accumulation fp (record locked { blocks_since_init = locked.blocks_since_init + 1 }),
        (locked.sums.ip, locked.sums.qp),
      )

  unfoldable pub gains_of : LoopInput D → Gains F D
  gains_of input =
      let four = of_int_f (pos 4) in
      let period = narrow code_period in
      record {
        sampling_frequency_hz = input.sampling_frequency_hz;
        lock_indicator_ema_alpha = input.lock_indicator_ema_alpha;
        total_samples = input.number_of_samples_per_code;
        pll_tau1 = loop_filter_tau1 fp input.pll_bandwidth_hz;
        pll_tau2 = loop_filter_tau2 fp input.pll_bandwidth_hz;
        fll_gain = mul_f (mul_f four (narrow input.fll_bandwidth_hz)) period;
        rate_aid_gain = mul_f (mul_f four (narrow input.rate_aid_bandwidth_hz)) period;
        fll_pull_in_blocks = input.fll_pull_in_blocks;
        dll_tau1 = loop_filter_tau1 fp input.dll_bandwidth_hz;
        dll_tau2 = loop_filter_tau2 fp input.dll_bandwidth_hz;
      }

  unfoldable pub blank_tracking : Gains F D → Tracking F
  blank_tracking gains = record {
    carr_freq_basis_hz = zero_f;
    carr_freq_hz = zero_f;
    rem_carr_phase = zero_f;
    carr_nco = zero_f;
    carr_nco_prev = zero_f;
    carr_error_cycles = zero_f;
    carr_error_prev_cycles = zero_f;
    fll_nco = zero_f;
    ip_prev = zero_f;
    qp_prev = zero_f;
    prompt_magnitude_ema = zero_f;
    blocks_since_init = 0;
    code_freq_basis_hz = code_frequency fp;
    code_freq_hz = code_frequency fp;
    code_phase_step = phase_step fp gains (code_frequency fp) zero_f;
    rem_code_phase = zero_f;
    code_nco = zero_f;
    code_nco_prev = zero_f;
    code_error_chips = zero_f;
    code_error_prev_chips = zero_f;
    sums = record { ie = zero_f; ip = zero_f; il = zero_f; qe = zero_f; qp = zero_f; ql = zero_f };
    carrier_lock_ema = zero_f;
    code_lock_ema = zero_f;
    last_channel_state = 0;
  }

  -- The loop as the channel sees it: the gains with the state. Timing is left out.
  unfoldable pub engine : Engine (LoopInput D) (Gains F D × Tracking F) F
  engine = record {
    construct = λ input. (gains_of input, blank_tracking (gains_of input));
    set_timing_enabled = λ enabled t. t;
    init_tracking_state =
        λ doppler phase t. (t.0, init_tracking_state fp (t.0) doppler phase (t.1));
    do_work = λ input prn state t.
        let (next, prompt) = do_work (t.0) input prn state (t.1) in ((t.0, next), prompt);
    code_phase_chips = λ t. t.1.rem_code_phase;
    carrier_lock_indicator = λ t. t.1.carrier_lock_ema;
    code_lock_ratio = λ t. t.1.code_lock_ema;
  }
