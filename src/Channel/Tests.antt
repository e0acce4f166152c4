-- ===== src/Channel/Tests.antt =====
-- Runs of a channel, and its theorems at concrete ones.
use gpsopen_cl.Prelude.{ℕ, ◌+◌, ◌*◌, ◌≡◌, ◌≢◌, refl, true, false}
use gpsopen_cl.Prelude.{some, List, [], ◌∷◌, arith, replicate}
use gpsopen_cl.Prelude.Int.{ℤ, pos, negsuc}
use gpsopen_cl.Float.{ints}
use gpsopen_cl.NavDecode.Subframe.{GpsEphemeris, NavigationDecoder}
use gpsopen_cl.NavDecode.Search.{try_decode_at_bit_position}
use gpsopen_cl.NavDecode.Shift.{moved_by}
use gpsopen_cl.Channel.Lock.{acquiring, confirming, tracking, Lock, Debounce, compute_next_state}
use gpsopen_cl.Channel.Lock.{confirm_step, track_step, next_state_from, run_blocks}
use gpsopen_cl.Channel.Debounce.{started, run_blocks_tracks, run_blocks_decides}
use gpsopen_cl.Channel.Debounce.{run_blocks_confirms}
use gpsopen_cl.Channel.Ephemeris.{merge_subframe, merge_header, merge2, check2}
use gpsopen_cl.Channel.State.{Engine, Channel, Navigation, no_ephemeris, lost_lock}
use gpsopen_cl.Channel.State.{reset_navigation_state, track_block, track_engine, track_with}
use gpsopen_cl.Channel.State.{evaluate_lock_state, transition}
use gpsopen_cl.Channel.Steps.{IsConsistent, track_block-IsConsistent}
use gpsopen_cl.Channel.History.{compact_navigation_history, update_navigation}
use gpsopen_cl.Channel.Compact.{locked_at, IsRebased, compact-IsRebased, compact-try_decode}
use gpsopen_cl.Channel.Cursors.{searching_at, IsSearchRebased, compact-IsSearchRebased}
use gpsopen_cl.Channel.Update.{IsReport, update_navigation-IsReport}

abbrev conf : Debounce
conf = record { confirm_debounce_blocks = 2; confirm_timeout_blocks = 5; loss_debounce_blocks = 2 }

abbrev locked : Lock
locked = record {
  state = tracking;
  confirm_progress = 2;
  loss_progress = 0;
  blocks_in_confirming = 2;
}

run_confirm_and_lose :
    (run_blocks conf (true ∷ true ∷ false ∷ false ∷ []) started).state ≡ acquiring
unfolding run_blocks compute_next_state next_state_from confirm_step track_step
run_confirm_and_lose = refl

run_blocks_tracks_example : (run_blocks conf (false ∷ true ∷ []) locked).state ≡ tracking
run_blocks_tracks_example = run_blocks_tracks conf (false ∷ true ∷ []) locked refl (omega arith)

run_blocks_decides_example :
    (run_blocks conf (false ∷ true ∷ false ∷ true ∷ false ∷ []) started).state ≢ confirming
run_blocks_decides_example =
    run_blocks_decides conf false (true ∷ false ∷ true ∷ false ∷ []) started (omega arith)

run_blocks_confirms_example :
    let l = run_blocks conf (replicate 2 true) started in
    (l.state ≡ tracking) × (l.loss_progress ≡ 0)
run_blocks_confirms_example = run_blocks_confirms conf 1 refl (omega arith)

-- A decoded subframe of each of the first three numbers, of issue 44 or 45.
abbrev subframe : ℕ → ℕ → GpsEphemeris ℤ
subframe id issue = record (no_ephemeris ints) {
  subframe_id = id;
  iodc = 256 + issue;
  iode2 = issue;
  iode3 = issue;
}

abbrev empty : GpsEphemeris ℤ
empty = no_ephemeris ints

-- A new issue in subframe 2 puts the old subframes 1 and 3 out.
merge_new_issue : (merge_subframe (subframe 2 45) (record (subframe 3 44) { iode2 = 44 }) 7).1 ≡ 2
unfolding merge_subframe merge_header merge2 check2
merge_new_issue = refl

-- An engine that counts its blocks; its indicators are the values it is built with.
abbrev counter : Engine (ℤ × ℤ) (ℤ × ℤ) ℤ
counter = record {
  construct = λ c. c;
  set_timing_enabled = λ b t. t;
  init_tracking_state = λ doppler phase t. t;
  do_work = λ input prn state t. (t, t);
  code_phase_chips = λ t. pos 511;
  carrier_lock_indicator = λ t. t.0;
  code_lock_ratio = λ t. t.1;
}

abbrev history : List (ℤ × ℤ)
history = (pos 4, pos 0) ∷ (negsuc 3, pos 1) ∷ []

abbrev nav : Navigation ℤ ℤ
nav = record (reset_navigation_state ints) {
  prompt_history = history;
  code_phase_history = pos 511 ∷ pos 512 ∷ [];
  cumulative_drift_chips_history = pos 0 ∷ pos 1 ∷ [];
  accumulated_ephemeris = subframe 1 44;
  seen_subframe_mask = 1;
}

abbrev channel : Channel (ℤ × ℤ) ℤ ℤ
channel = record {
  sv_id = 7;
  engine = some (pos 0, pos 1);
  is_acquired = true;
  timing_enabled = false;
  carrier_lock_threshold = pos 1;
  code_lock_ratio_tolerance = pos 1;
  debounce = conf;
  lock = record locked { loss_progress = 1 };
  nav = nav;
  pending_state_message = [];
}

channel_loses_lock : (track_block ints counter [] channel).pending_state_message ≡ lost_lock ∷ []
unfolding track_block track_engine track_with evaluate_lock_state transition compute_next_state
    next_state_from track_step
channel_loses_lock = refl

track_block-IsConsistent_example : IsConsistent ints (track_block ints counter [] channel)
track_block-IsConsistent_example =
    track_block-IsConsistent ints counter [] channel
      (record { acquired = refl; fits = record { phases = refl; drifts = refl } })

abbrev long_nav : Navigation ℤ ℤ
long_nav = record nav {
  prompt_history = replicate 30000 (pos 4, pos 0);
  last_subframe_start_sample = 20060;
}

compact-IsRebased_example :
    IsRebased 7 1200 long_nav (compact_navigation_history (locked_at 7 1200 long_nav))
compact-IsRebased_example = compact-IsRebased 7 1200 long_nav

abbrev decoder : NavigationDecoder ℤ
decoder = record {
  subframe_search_mask = 0x1f;
  iono_params = record {
    struct_version = 1;
    alpha0 = pos 0;
    alpha1 = pos 0;
    alpha2 = pos 0;
    alpha3 = pos 0;
    beta0 = pos 0;
    beta1 = pos 0;
    beta2 = pos 0;
    beta3 = pos 0;
  };
  has_iono_params = false;
}

compact-try_decode_example :
    let after = compact_navigation_history (locked_at 7 1200 long_nav) in
    let bits = (compact-IsRebased 7 1200 long_nav).bits in
    moved_by (bits * 20) (
      try_decode_at_bit_position ints after.prompt_history
        (some after.code_phase_history)
        7
        7
        after.sync.bit_offset
        empty
        0
        decoder)
    ≡ try_decode_at_bit_position ints long_nav.prompt_history
        (some long_nav.code_phase_history)
        7
        7
        1200
        empty
        (bits * 20 + 0)
        decoder
compact-try_decode_example = compact-try_decode ints 7 7 1200 long_nav empty 0 decoder

compact-IsSearchRebased_example :
    IsSearchRebased
      (900 ∷ 700 ∷ [])
      long_nav
      (compact_navigation_history (searching_at 0 (900 ∷ 700 ∷ []) long_nav))
compact-IsSearchRebased_example = compact-IsSearchRebased 0 (900 ∷ 700 ∷ []) long_nav

update_navigation-IsReport_example : IsReport (update_navigation ints 7 nav decoder)
update_navigation-IsReport_example = update_navigation-IsReport ints 7 nav decoder (record {
  aligned = record { phases = refl; drifts = refl };
  merged = (omega arith, tt, tt, tt);
})
