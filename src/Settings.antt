-- ===== src/Settings.antt =====
-- `Settings::updateConfigurationStruct` of Source/Common/GPSOpenClSettings.cpp: what a configuration
-- file can change. The records are those of Source/Common/GPSOpenClStructs.hpp, with the fields that
-- it writes.
pub mod Usable
pub mod Text
mod Tests
use gpsopen_cl.Prelude.{ℕ, Bool, not, ◌&&◌, ◌||◌, Option, none, some, if◌then◌else◌}
use gpsopen_cl.Prelude.Int.{ℤ, pos, negsuc, ltb_ℤ}
use gpsopen_cl.Float.{Floats, nat}

-- The keys that it looks up.
pub data Key : Type 0 where
  data_source sampling_frequency acquisition_minimum_doppler : Key
  acquisition_maximum_doppler acquisition_doppler_search_range : Key
  acquisition_cn0_threshold tracking_telemetry_interval_blocks profiler_enabled : Key
  pll_bandwidth_hz dll_bandwidth_hz fll_bandwidth_hz rate_aid_bandwidth_hz : Key
  fll_pull_in_blocks fix_output_interval_blocks pvt_tropo_enabled pvt_elevation_mask_deg : Key

pub record AcquisitionInput (D : Type 0) : Type 0 where
  pub doppler_minimum : ℤ
  pub doppler_maximum : ℤ
  pub doppler_search_range : ℤ
  pub sampling_frequency_hz : D
  pub number_of_samples_per_code : ℤ
  pub cn0_threshold_db_hz : D

pub record TrackingInput (D : Type 0) : Type 0 where
  pub pll_bandwidth : D
  pub dll_bandwidth : D
  pub fll_bandwidth : D
  pub rate_aid_bandwidth : D
  pub fll_pull_in : ℤ
  pub sampling_frequency_hz : D
  pub number_of_samples_per_code : ℤ
  pub telemetry_interval_blocks : ℤ

pub record PvtSolverInput (D : Type 0) : Type 0 where
  pub min_satellites : ℕ
  pub max_pseudorange_err_meters : D
  pub fix_output_interval : ℤ
  pub tropo_enabled : ℤ
  pub elevation_mask_deg : D

pub record Configuration (S D : Type 0) : Type 0 where
  pub fifo_path : S
  pub sampling_rate_hz : D
  pub acquisition_input : AcquisitionInput D
  pub tracking_input : TrackingInput D
  pub pvt_solver_input : PvtSolverInput D
  pub profiler_input_enabled : Bool

-- The standard library's conversions, which the code calls: `std::stof`, `std::stoi` and `std::stod`
-- give none where they throw; `clip` is `snprintf` into the 256 bytes of the path.
pub record Conversions (S F D : Type 0) : Type 0 where
  pub stof : S → Option F
  pub stoi : S → Option ℤ
  pub stod : S → Option D
  pub clip : S → S
  pub is_finite_f : F → Bool
  pub is_finite : D → Bool
  pub round : D → D
  pub to_int : D → ℤ

-- One `try` block: an entry that is missing or empty, that does not parse or that the block rejects
-- leaves the configuration as it was.
unfoldable pub apply_entry :
    {S A C : Type 0} → Option S → (S → Option A) → (A → Bool) → (A → C → C) → C → C
apply_entry none parse accept write c = c
apply_entry (some s) parse accept write c = elim (parse s) [
  | none ↦ c
  | some a ↦ if accept a then write a c else c
]

abbrev pub anything : {A : Type 0} → A → Bool
anything a = Bool.true

module _ {S F D : Type 0} (fp : Floats F D) (cv : Conversions S F D) where
  open fp use {lt, div, le_f, zero_f, widen}
  open cv use {stof, stoi, stod, clip, is_finite_f, is_finite, round, to_int}

  -- `std::round(static_cast<double>(f) / (1.023e6 / 1023))`.
  abbrev pub samples_real : F → D
  samples_real f = round (div (widen f) (div (nat fp 1023000) (nat fp 1023)))

  abbrev pub accept_sampling : F → Bool
  accept_sampling f = not (
      not (is_finite_f f)
      || le_f f zero_f
      || lt (samples_real f) (nat fp 1)
      || lt (nat fp 16777216) (samples_real f))

  abbrev pub write_sampling : F → Configuration S D → Configuration S D
  write_sampling f c =
      let samples = to_int (samples_real f) in
      record c {
        sampling_rate_hz = widen f;
        acquisition_input = record c.acquisition_input {
          sampling_frequency_hz = widen f;
          number_of_samples_per_code = samples;
        };
        tracking_input = record c.tracking_input {
          sampling_frequency_hz = widen f;
          number_of_samples_per_code = samples;
        };
      }

  -- `value` is the entry at a key, none where it is missing or empty.
  module _ (value : Key → Option S) where
    unfoldable pub update_source : Configuration S D → Configuration S D
    update_source c = apply_entry (value sampling_frequency) stof accept_sampling write_sampling (
        apply_entry (value data_source) (λ s. some (clip s)) anything
          (λ s c. record c { fifo_path = s }) c)

    -- A Doppler search that is empty is put back to the defaults.
    unfoldable pub check_doppler : AcquisitionInput D → AcquisitionInput D
    check_doppler a =
        if not (ltb_ℤ (pos 0) a.doppler_search_range)
          || not (ltb_ℤ a.doppler_minimum a.doppler_maximum)
        then record a {
          doppler_minimum = negsuc 3999;
          doppler_maximum = pos 4000;
          doppler_search_range = pos 500;
        }
        else a

    unfoldable pub update_acquisition : AcquisitionInput D → AcquisitionInput D
    update_acquisition a =
        let low =
          apply_entry (value acquisition_minimum_doppler) stoi anything
            (λ n a. record a { doppler_minimum = n }) a in
        let high =
          apply_entry (value acquisition_maximum_doppler) stoi anything
            (λ n a. record a { doppler_maximum = n }) low in
        let range =
          apply_entry (value acquisition_doppler_search_range) stoi anything
            (λ n a. record a { doppler_search_range = n }) high in
        apply_entry (value acquisition_cn0_threshold) stod
          (λ d. not (not (is_finite d) || not (lt (nat fp 0) d)))
          (λ d a. record a { cn0_threshold_db_hz = d }) (check_doppler range)

    unfoldable pub update_tracking : TrackingInput D → TrackingInput D
    update_tracking t =
        let interval =
          apply_entry (value tracking_telemetry_interval_blocks) stoi (λ n. not (ltb_ℤ n (pos 1)))
            (λ n t. record t { telemetry_interval_blocks = n }) t in
        let pll =
          apply_entry (value pll_bandwidth_hz) stod anything (λ d t. record t { pll_bandwidth = d })
            interval in
        let dll =
          apply_entry (value dll_bandwidth_hz) stod anything (λ d t. record t { dll_bandwidth = d })
            pll in
        let fll =
          apply_entry (value fll_bandwidth_hz) stod anything (λ d t. record t { fll_bandwidth = d })
            dll in
        let rate =
          apply_entry (value rate_aid_bandwidth_hz) stod anything
            (λ d t. record t { rate_aid_bandwidth = d }) fll in
        apply_entry (value fll_pull_in_blocks) stoi anything (λ n t. record t { fll_pull_in = n })
          rate

    unfoldable pub update_pvt : PvtSolverInput D → PvtSolverInput D
    update_pvt p =
        let fix =
          apply_entry (value fix_output_interval_blocks) stoi anything
            (λ n p. record p { fix_output_interval = n }) p in
        let tropo =
          apply_entry (value pvt_tropo_enabled) stoi anything
            (λ n p. record p { tropo_enabled = n }) fix in
        apply_entry (value pvt_elevation_mask_deg) stod anything
          (λ d p. record p { elevation_mask_deg = d }) tropo

    unfoldable pub update_configuration_struct : Configuration S D → Configuration S D
    update_configuration_struct c =
        let source = update_source c in
        record source {
          acquisition_input = update_acquisition source.acquisition_input;
          tracking_input = update_tracking source.tracking_input;
          pvt_solver_input = update_pvt source.pvt_solver_input;
          profiler_input_enabled =
              apply_entry (value profiler_enabled) stoi anything
                (λ n enabled. not (not (ltb_ℤ n (pos 0)) && not (ltb_ℤ (pos 0) n)))
                source.profiler_input_enabled;
        }
