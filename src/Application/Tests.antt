-- ===== src/Application/Tests.antt =====
-- The schedule at the default interval, and a search that is under way brought to its end.
use gpsopen_cl.Prelude.{ℕ, ◌≡◌, refl, true, false, none, some, List, [], ◌∷◌, map, replicate}
use gpsopen_cl.Prelude.Int.{ℤ, pos}
use gpsopen_cl.Float.{ints}
use gpsopen_cl.Channel.Lock.{acquiring}
use gpsopen_cl.Channel.State.{Engine}
use gpsopen_cl.Channel.Metrics.{Metrics}
use gpsopen_cl.Pvt.Tests.{toy, solver}
use gpsopen_cl.Pvt.ChannelTests.{channel, channels}
use gpsopen_cl.Pvt.Assemble.{assemble, collect, push_channel, measure_channel}
use gpsopen_cl.Application.Schedule.{choose_channel, choices}
use gpsopen_cl.Application.Sweep.{at_start, count_up, choices_cold_start}
use gpsopen_cl.Application.State.{Application, AcquisitionJob, BlockInput, searching, state_at}
use gpsopen_cl.Application.Block.{blank_metrics}
use gpsopen_cl.Application.Pipeline.{process_block, compute_navigation_solution, solve_measured}
use gpsopen_cl.Application.Worker.{report, end_search, Steps, block, search, tell, done, further}
use gpsopen_cl.Application.Worker.{searched}
use gpsopen_cl.Application.Flight.{IsScheduled, under_way}
use gpsopen_cl.Application.Interleaved.{Steps-IsScheduled}

choices_cold_start_example :
    (let (chosen, s) = choices (pos 1000) (replicate 32 7) at_start in
      (chosen ≡ map some (count_up 0 32))
      × (choose_channel (pos 1000) 39 s
          ≡ (none, record { next_acquisition_channel = 32; cold_start_sweep_done = true })))
choices_cold_start_example = choices_cold_start (pos 1000) (replicate 32 7) 39 refl

-- A tracking loop with no state of interest.
abbrev engine : Engine ℕ ℕ ℤ
engine = record {
  construct = λ c. c;
  set_timing_enabled = λ b t. t;
  init_tracking_state = λ d p t. t;
  do_work = λ input sv code t. (t, (pos 1, pos 0));
  code_phase_chips = λ t. pos 0;
  carrier_lock_indicator = λ t. pos 1;
  code_lock_ratio = λ t. pos 1;
}

abbrev conf : BlockInput ℕ ℤ ℤ
conf = record {
  tracking = 0;
  lock_input = record {
    carrier_lock_threshold = pos 0;
    code_lock_ratio_tolerance = pos 1;
    debounce = record {
      confirm_debounce_blocks = 1;
      confirm_timeout_blocks = 1;
      loss_debounce_blocks = 1;
    };
  };
  cn0_threshold = pos 40;
  samples_per_code = pos 4096;
  reacquisition_interval_blocks = pos 1000;
  fix_output_interval_blocks = pos 100;
}

abbrev job : AcquisitionJob ℤ
job = record { input = (pos 1, pos 0) ∷ []; channel_index = 2 }

-- The search of the third channel is under way.
abbrev app : Application ℕ ℤ ℤ
app = record {
  channels = channels;
  metrics = replicate 5 (blank_metrics ints);
  nav_decoder = record {
    subframe_search_mask = 31;
    iono_params = solver.iono_params;
    has_iono_params = false;
  };
  pvt_solver = solver;
  sweep = record { next_acquisition_channel = 3; cold_start_sweep_done = false };
  acquisition_busy = true;
  jobs = record { items = []; finished = false };
  results = record { items = []; finished = false };
  searcher = searching job;
  last_pseudorange_samples = [];
}

abbrev louder : List (ℤ × ℤ) → Metrics ℤ → Metrics ℤ
louder input m = record m { cn0 = pos 45 }

abbrev sort : List ℤ → List ℤ
sort xs = xs

app-IsScheduled : IsScheduled app
unfolding state_at
app-IsScheduled = record {
  open_jobs = refl;
  open_results = refl;
  flight = under_way job refl refl refl refl refl;
}

-- The metrics that the search leaves.
abbrev found : List (Metrics ℤ)
unfolding searched
found = searched louder job (some (blank_metrics ints)) app.metrics

told :
    Steps ints sort engine conf louder app
      (report (record { channel_index = 2 }) (end_search job found app))
unfolding end_search searched found
told = further (further done (search job refl)) (tell (record { channel_index = 2 }) refl)

Steps-IsScheduled_example : IsScheduled (
    process_block ints sort engine conf job.input 4
      (report (record { channel_index = 2 }) (end_search job found app)))
Steps-IsScheduled_example =
    Steps-IsScheduled ints sort engine conf louder app _ (further told (block job.input 4))
      app-IsScheduled

-- Three channels are too few.
abbrev few : Application ℕ ℤ ℤ
few = record app { channels = channel 1 acquiring ∷ channel 2 acquiring ∷ channel 3 acquiring ∷ [] }

few_fail : (compute_navigation_solution ints sort few).0 ≡ false
unfolding compute_navigation_solution assemble collect push_channel measure_channel solve_measured
few_fail = refl
