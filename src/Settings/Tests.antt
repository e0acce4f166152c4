-- ===== src/Settings/Tests.antt =====
-- A configuration file with good and bad entries. A text is the number that it spells, and a negative
-- number stands for a text that is no number.
use gpsopen_cl.Prelude.{◌≡◌, refl, true, Option, none, some, if◌then◌else◌}
use gpsopen_cl.Prelude.Int.{ℤ, pos, negsuc, ltb_ℤ}
use gpsopen_cl.Float.{ints}
use gpsopen_cl.Settings.{Key, Configuration, Conversions, update_acquisition}
use gpsopen_cl.Settings.{update_configuration_struct, update_tracking}
use gpsopen_cl.Settings.{check_doppler, apply_entry, acquisition_minimum_doppler, pll_bandwidth_hz}
use gpsopen_cl.Settings.{tracking_telemetry_interval_blocks}
use gpsopen_cl.Settings.Usable.{IsRunnable}
use gpsopen_cl.Settings.Usable.{update_configuration_struct-IsRunnable}

abbrev number : ℤ → Option ℤ
number n = if ltb_ℤ n (pos 0) then none else some n

abbrev conversions : Conversions ℤ ℤ ℤ
conversions = record {
  stof = number;
  stoi = number;
  stod = number;
  clip = λ s. s;
  is_finite_f = λ f. true;
  is_finite = λ d. true;
  round = λ d. d;
  to_int = λ d. d;
}

abbrev entries : Key → Option ℤ
entries acquisition_minimum_doppler = some (pos 9000)
entries pll_bandwidth_hz = some (pos 30)
entries tracking_telemetry_interval_blocks = some (pos 0)
entries _ = none

abbrev configuration : Configuration ℤ ℤ
configuration = record {
  fifo_path = pos 1;
  sampling_rate_hz = pos 4096000;
  acquisition_input = record {
    doppler_minimum = negsuc 3999;
    doppler_maximum = pos 4000;
    doppler_search_range = pos 250;
    sampling_frequency_hz = pos 4096000;
    number_of_samples_per_code = pos 4096;
    cn0_threshold_db_hz = pos 43;
  };
  tracking_input = record {
    pll_bandwidth = pos 25;
    dll_bandwidth = pos 2;
    fll_bandwidth = pos 10;
    rate_aid_bandwidth = pos 1;
    fll_pull_in = pos 75;
    sampling_frequency_hz = pos 4096000;
    number_of_samples_per_code = pos 4096;
    telemetry_interval_blocks = pos 10;
  };
  pvt_solver_input = record {
    min_satellites = 4;
    max_pseudorange_err_meters = pos 30;
    fix_output_interval = pos 100;
    tropo_enabled = pos 1;
    elevation_mask_deg = pos 10;
  };
  profiler_input_enabled = true;
}

-- The minimum above the maximum puts the search back, also its step.
doppler_put_back :
    (update_acquisition ints conversions entries
      configuration.acquisition_input).doppler_search_range
    ≡ pos 500
unfolding update_acquisition check_doppler apply_entry
doppler_put_back = refl

bandwidth_read :
    (update_tracking ints conversions entries configuration.tracking_input).pll_bandwidth ≡ pos 30
unfolding update_tracking apply_entry
bandwidth_read = refl

update_configuration_struct-IsRunnable_example :
    IsRunnable (update_configuration_struct ints conversions entries configuration)
update_configuration_struct-IsRunnable_example =
    update_configuration_struct-IsRunnable ints conversions entries configuration
      (record { uniform = record { rate = refl; samples = refl }; interval = refl })
