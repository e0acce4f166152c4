-- ===== src/Tracking/Loop.antt =====
-- The discriminators and loop filters, and `Tracking::doWork` with them.
use gpsopen_cl.Prelude.{Bool, ◌&&◌, ◌||◌, ltb, if◌then◌else◌}
use gpsopen_cl.Prelude.Int.{pos, negsuc}
use gpsopen_cl.Float.{Floats}
use gpsopen_cl.Maths.{Maths, ◌⊕◌, ◌⊖◌, ◌⊗◌, ◌⊘◌, ◌≺◌, whole, code_period}
use gpsopen_cl.Tracking.{Gains, Tracking}

module _ {F D : Type 0} ⦃m : Maths D⦄ (fp : Floats F D) where
  open m use {decimal, pi, abs, sqrt, atan2, negate}
  open fp use {
    zero_f, add_f, sub_f, mul_f, div_f, neg_f, sqrt_f, lt_f, le_f, eq_f, of_int_f, widen, narrow,
  }

  -- `LockDetector::carrierLockIndicator` and `codeLockRatio`.
  unfoldable pub carrier_lock_indicator : D → D → D
  carrier_lock_indicator ip qp =
      let denom = (ip ⊗ ip) ⊕ (qp ⊗ qp) in
      if denom ≺ decimal (pos 1) (negsuc 11) then whole 0 else (ip ⊗ ip ⊖ qp ⊗ qp) ⊘ denom

  unfoldable pub code_lock_ratio : D → D → D → D
  code_lock_ratio ie ip il =
      if abs ip ≺ decimal (pos 1) (negsuc 11) then whole 0 else (abs ie ⊕ abs il) ⊘ abs ip

  abbrev natural_frequency : D → D
  natural_frequency bandwidth =
      let zeta = decimal (pos 70710678118654752440) (negsuc 19) in
      bandwidth ⊗ whole 8 ⊗ zeta ⊘ (whole 4 ⊗ zeta ⊗ zeta ⊕ whole 1)

  unfoldable pub loop_filter_tau1 : D → F
  loop_filter_tau1 bandwidth = let wn = natural_frequency bandwidth in narrow (whole 1 ⊘ (wn ⊗ wn))

  unfoldable pub loop_filter_tau2 : D → F
  loop_filter_tau2 bandwidth =
      let zeta = decimal (pos 70710678118654752440) (negsuc 19) in
      narrow (whole 2 ⊗ zeta ⊘ natural_frequency bandwidth)

  unfoldable pub reset_accumulation : Tracking F → Tracking F
  reset_accumulation t = record t {
    sums = record { ie = zero_f; ip = zero_f; il = zero_f; qe = zero_f; qp = zero_f; ql = zero_f };
  }

  -- `m_codePhaseStep` where the sampling frequency is positive.
  abbrev pub phase_step : Gains F D → F → F → F
  phase_step gains code_freq old =
      if whole 0 ≺ gains.sampling_frequency_hz
      then div_f code_freq (narrow gains.sampling_frequency_hz)
      else old

  abbrev pub code_frequency : F
  code_frequency = of_int_f (pos 1023000)

  unfoldable pub init_tracking_state : Gains F D → F → F → Tracking F → Tracking F
  init_tracking_state gains doppler code_phase t = reset_accumulation (record t {
    carr_freq_basis_hz = doppler;
    carr_freq_hz = doppler;
    rem_carr_phase = zero_f;
    carr_nco = zero_f;
    carr_nco_prev = zero_f;
    carr_error_cycles = zero_f;
    carr_error_prev_cycles = zero_f;
    fll_nco = zero_f;
    ip_prev = zero_f;
    qp_prev = zero_f;
    prompt_magnitude_ema = zero_f;
    blocks_since_init = 0;
    code_freq_basis_hz = code_frequency;
    code_freq_hz = code_frequency;
    code_phase_step = phase_step gains code_frequency t.code_phase_step;
    rem_code_phase = code_phase;
    code_nco = zero_f;
    code_nco_prev = zero_f;
    code_error_chips = zero_f;
    code_error_prev_chips = zero_f;
    carrier_lock_ema = zero_f;
    code_lock_ema = zero_f;
  })

  unfoldable pub compute_fll_error : D → D → D → D → F
  compute_fll_error ip_prev qp_prev ip qp =
      let cross = (ip_prev ⊗ qp) ⊖ (ip ⊗ qp_prev) in
      let dot = (ip_prev ⊗ ip) ⊕ (qp_prev ⊗ qp) in
      if m.equal cross (whole 0) && m.equal dot (whole 0)
      then zero_f
      else narrow (atan2 cross dot ⊘ (whole 2 ⊗ pi ⊗ code_period))

  unfoldable pub fll_discriminator : Gains F D → Tracking F → Tracking F
  fll_discriminator gains t =
      let error =
        if ltb 0 t.blocks_since_init
        then compute_fll_error (widen t.ip_prev) (widen t.qp_prev) (widen t.sums.ip)
            (widen t.sums.qp)
        else zero_f in
      let nco = add_f t.fll_nco (mul_f error gains.fll_gain) in
      record t {
        fll_nco = nco;
        ip_prev = t.sums.ip;
        qp_prev = t.sums.qp;
        carr_freq_hz = add_f t.carr_freq_basis_hz nco;
      }

  -- Whether the prompt signal is strong enough, with the average that it updates if so.
  unfoldable pub is_prompt_signal_reliable : Tracking F → Bool × Tracking F
  is_prompt_signal_reliable t =
      let ip = widen t.sums.ip in
      let qp = widen t.sums.qp in
      let magnitude = sqrt ((ip ⊗ ip) ⊕ (qp ⊗ qp)) in
      let ema = widen t.prompt_magnitude_ema in
      let reliable =
        le_f t.prompt_magnitude_ema zero_f
        || m.less_equal (decimal (pos 3) (negsuc 0) ⊗ ema) magnitude in
      let average =
        (decimal (pos 5) (negsuc 1) ⊗ magnitude) ⊕ (decimal (pos 95) (negsuc 1) ⊗ ema) in
      (reliable, if reliable then record t { prompt_magnitude_ema = narrow average } else t)

  abbrev pub clamp_f : F → F → F → F
  clamp_f v lo hi = if lt_f v lo then lo else if lt_f hi v then hi else v

  unfoldable pub rate_aid_discriminator : Gains F D → Tracking F → Tracking F
  rate_aid_discriminator gains t =
      let bleed = mul_f gains.rate_aid_gain t.carr_nco in
      let limit = of_int_f (pos 15000) in
      let nco = sub_f t.carr_nco bleed in
      record t {
        carr_freq_basis_hz = clamp_f (add_f t.carr_freq_basis_hz bleed) (neg_f limit) limit;
        carr_nco = nco;
        carr_nco_prev = nco;
      }

  unfoldable pub compute_costas_phase_error : Tracking F → F
  compute_costas_phase_error t =
      let ip = t.sums.ip in
      let qp = t.sums.qp in
      let angle =
        atan2 (whole 2 ⊗ widen qp ⊗ widen ip) (widen (sub_f (mul_f ip ip) (mul_f qp qp))) in
      if eq_f ip zero_f && eq_f qp zero_f then zero_f else narrow (angle ⊘ (whole 4 ⊗ pi))

  -- A loop filter of second order, where `tau1` is not 0.
  abbrev pub filtered : F → F → F → F → F → F → F
  filtered tau1 tau2 prev error error_prev old =
      let next =
        add_f (add_f prev (mul_f (div_f tau2 tau1) (sub_f error error_prev)))
          (mul_f error (narrow (code_period ⊘ widen tau1))) in
      if eq_f tau1 zero_f then old else next

  unfoldable pub freq_discriminator : Gains F D → Tracking F → Tracking F
  freq_discriminator gains t =
      let error = compute_costas_phase_error t in
      let nco =
        filtered gains.pll_tau1 gains.pll_tau2 t.carr_nco_prev error t.carr_error_prev_cycles
          t.carr_nco in
      record t {
        carr_error_cycles = error;
        carr_nco = nco;
        carr_nco_prev = nco;
        carr_error_prev_cycles = error;
        ip_prev = t.sums.ip;
        qp_prev = t.sums.qp;
        carr_freq_hz = add_f t.carr_freq_basis_hz nco;
      }
