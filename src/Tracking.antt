-- ===== src/Tracking.antt =====
-- The tracking loop of a satellite: Source/Tracking/GPSOpenClTracking.cpp and GPSOpenClLockDetector.cpp.
-- `Chips` is the choice of the chips, `Correlator` the correlator, `Loop` the rest.
pub mod Chips
pub mod Correlator
pub mod Loop
pub mod Work
pub mod Indices
pub mod Sums
pub mod PullIn
mod Tests
use gpsopen_cl.Prelude.{ℕ}
use gpsopen_cl.Prelude.Int.{ℤ}

-- The settings and the gains that the constructor computes.
pub record Gains (F D : Type 0) : Type 0 where
  pub sampling_frequency_hz : D
  pub lock_indicator_ema_alpha : D
  pub total_samples : ℕ
  pub pll_tau1 : F
  pub pll_tau2 : F
  pub fll_gain : F
  pub rate_aid_gain : F
  pub fll_pull_in_blocks : ℤ
  pub dll_tau1 : F
  pub dll_tau2 : F

-- The six sums of a block.
pub record Correlation (F : Type 0) : Type 0 where
  pub ie : F
  pub ip : F
  pub il : F
  pub qe : F
  pub qp : F
  pub ql : F

-- The members that a block changes; `blocks_since_init` is an `int` that only counts up from 0.
pub record Tracking (F : Type 0) : Type 0 where
  pub carr_freq_basis_hz : F
  pub carr_freq_hz : F
  pub rem_carr_phase : F
  pub carr_nco : F
  pub carr_nco_prev : F
  pub carr_error_cycles : F
  pub carr_error_prev_cycles : F
  pub fll_nco : F
  pub ip_prev : F
  pub qp_prev : F
  pub prompt_magnitude_ema : F
  pub blocks_since_init : ℕ
  pub code_freq_basis_hz : F
  pub code_freq_hz : F
  pub code_phase_step : F
  pub rem_code_phase : F
  pub code_nco : F
  pub code_nco_prev : F
  pub code_error_chips : F
  pub code_error_prev_chips : F
  pub sums : Correlation F
  pub carrier_lock_ema : F
  pub code_lock_ema : F
  pub last_channel_state : ℕ
