-- ===== src/Pvt/ChannelTests.antt =====
-- Measurements put together from five channels, of which four are usable.
use gpsopen_cl.Prelude.{ℕ, ◌≡◌, refl, true, false, not, some, if◌then◌else◌, ltb}
use gpsopen_cl.Prelude.{List, [], ◌∷◌, length, map, replicate, arith, AllOf}
use gpsopen_cl.Prelude.Int.{ℤ, pos, ◌*ℤ◌}
use gpsopen_cl.Float.{ints}
use gpsopen_cl.Channel.Ephemeris.{has_complete_ephemeris}
use gpsopen_cl.Channel.Lock.{acquiring, tracking, ChannelState}
use gpsopen_cl.Channel.Merge.{IsMerged}
use gpsopen_cl.Channel.State.{Channel}
use gpsopen_cl.Pvt.Assemble.{assemble, measure_channel, channel_time, compute_elapsed}
use gpsopen_cl.Pvt.Ranges.{HasOneIssue, measured, assemble_lem, assemble-HasOneIssue}
use gpsopen_cl.Pvt.Tests.{toy, ephemeris, origin}

abbrev pub channel : ℕ → ChannelState → Channel ℕ ℤ ℤ
channel sv state = record {
  sv_id = sv;
  engine = some 0;
  is_acquired = true;
  timing_enabled = false;
  carrier_lock_threshold = pos 0;
  code_lock_ratio_tolerance = pos 0;
  debounce = record {
    confirm_debounce_blocks = 1;
    confirm_timeout_blocks = 1;
    loss_debounce_blocks = 1;
  };
  lock = record {
    state = state;
    confirm_progress = 0;
    loss_progress = 0;
    blocks_in_confirming = 0;
  };
  nav = record {
    prompt_history = replicate 3 (pos 1, pos 0);
    code_phase_history = pos 5 ∷ pos 6 ∷ pos 7 ∷ [];
    cumulative_drift_chips_history = pos 0 ∷ pos 1 ∷ pos 2 ∷ [];
    last_raw_code_phase_for_drift = pos 7;
    cumulative_drift_chips = pos 2;
    sync = record { bit_sync_phase = pos 0; search_positions = []; bit_offset = 0 };
    seen_subframe_mask = 7;
    accumulated_ephemeris = ephemeris sv 3 5 2;
    last_subframe_tow = pos 60;
    last_subframe_start_sample = 1;
  };
  pending_state_message = [];
}

abbrev pub channels : List (Channel ℕ ℤ ℤ)
channels =
    channel 1 tracking
    ∷ channel 2 tracking
    ∷ channel 3 acquiring
    ∷ channel 4 tracking
    ∷ channel 5 tracking
    ∷ []

four_used : map (λ c. c.sv_id) (measured ints channels) ≡ 1 ∷ 2 ∷ 4 ∷ 5 ∷ []
unfolding measure_channel has_complete_ephemeris channel_time compute_elapsed ◌*ℤ◌
four_used = refl

assemble_lem_example :
    (let (ok, out) = assemble ints (λ xs. xs) channels origin true in
      (ok ≡ not (ltb (length (measured ints channels)) 4))
      × (out.ephemerides ≡ map (λ c. c.nav.accumulated_ephemeris) (measured ints channels))
      × (out.prns ≡ map (λ c. c.sv_id) (measured ints channels))
      × (length out.transmit_times ≡ length (measured ints channels))
      × (length out.pseudoranges ≡ (if ok then length (measured ints channels) else 0)))
assemble_lem_example = assemble_lem ints (λ xs. xs) channels origin true

assemble-HasOneIssue_example :
    AllOf HasOneIssue (assemble ints (λ xs. xs) channels origin true).1.ephemerides
assemble-HasOneIssue_example =
    let merged : IsMerged (ephemeris 1 3 5 2) 7 = (omega arith, refl, refl, refl) in
    assemble-HasOneIssue ints (λ xs. xs) channels origin true
      (merged, (merged, (merged, (merged, (merged, tt)))))
