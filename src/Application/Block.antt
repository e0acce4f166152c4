-- ===== src/Application/Block.antt =====
-- `Application::processBlock` and the handlers that it calls. Console, telemetry and profiler are left
-- out: nothing reads back what they get.
use gpsopen_cl.Prelude.{ℕ, zero, suc, ◌%◌, Bool, true, false, Option, none, some}
use gpsopen_cl.Prelude.{List, map, get_or, if◌then◌else◌}
use gpsopen_cl.Prelude.Int.{ℤ, pos, negsuc, ◌-ℤ◌, pos_part, neg_part}
use gpsopen_cl.Float.{Floats}
use gpsopen_cl.BoundedQueue.Fifo
use gpsopen_cl.BoundedQueue.Fifo.{Fifo, try_push, try_pop, Reply, asleep, answer}
use gpsopen_cl.Channel.Lock.{ChannelState, acquiring, confirming, tracking}
use gpsopen_cl.Channel.Steps.{is_active}
use gpsopen_cl.Channel.State.{Channel, Engine, init_tracking, track_block}
use gpsopen_cl.Channel.State.{take_pending_state_message}
use gpsopen_cl.Channel.Metrics.{Metrics}
use gpsopen_cl.Application.Schedule.{choose_channel}
use gpsopen_cl.Application.State.{Application, AcquisitionJob, AcquisitionResult, BlockInput}
use gpsopen_cl.Application.State.{state_at, update_at}

-- `a % n` on integers, with the sign of `a`.
unfoldable pub remainder : ℤ → ℕ → ℤ
remainder a n = pos (pos_part a % n) -ℤ pos (neg_part a % n)

abbrev pub is_eligible : Option ChannelState → Bool
is_eligible (some acquiring) = true
is_eligible (some confirming) = false
is_eligible (some tracking) = false
is_eligible none = false

module _ {F D : Type 0} (fp : Floats F D) where
  open fp use {zero_f, neg_f, mul_f, div_f, le_f, lt_f, of_int_f}

  -- The metrics of a channel before its first search.
  abbrev pub blank_metrics : Metrics F
  blank_metrics = record {
    peak_index = pos 0;
    peak_value = zero_f;
    peak_frequency_hz = zero_f;
    mean_value = zero_f;
    cn0 = zero_f;
    peak_ratio = zero_f;
  }

  -- The position of the peak counted from the end of the code, in samples.
  unfoldable pub reflected_peak_index : ℤ → ℤ → ℤ
  reflected_peak_index (pos zero) peak = pos 0
  reflected_peak_index (pos (suc n)) peak = remainder (pos (suc n) -ℤ peak) (suc n)
  reflected_peak_index (negsuc n) peak = pos 0

  unfoldable pub acquired_code_phase : ℤ → ℤ → F
  acquired_code_phase samples peak =
      let scaled =
        mul_f (div_f (of_int_f (reflected_peak_index samples peak)) (of_int_f samples))
          (of_int_f (pos 1023)) in
      if lt_f zero_f (of_int_f samples) then scaled else zero_f

  module _ {C T : Type 0} (eng : Engine C T F) where
    unfoldable pub start_tracking : BlockInput C F D → Metrics F → Channel T F D → Channel T F D
    start_tracking conf m c =
        init_tracking fp eng conf.tracking conf.lock_input (neg_f m.peak_frequency_hz)
          (acquired_code_phase conf.samples_per_code m.peak_index) (record c { is_acquired = true })

    unfoldable pub finalize_acquisition :
        BlockInput C F D → ℕ → Application T F D → Application T F D
    finalize_acquisition conf i app =
        let m = get_or app.metrics i blank_metrics in
        if le_f conf.cn0_threshold m.cn0
        then record app { channels = update_at app.channels i (start_tracking conf m) }
        else app

    -- What follows `m_acquisitionResultQueue.tryPop`.
    unfoldable pub received :
        BlockInput C F D
        → Reply AcquisitionResult × Fifo AcquisitionResult
        → Application T F D
        → Application T F D
    received conf (answer true (some r), rest) app =
        let final = finalize_acquisition conf r.channel_index (record app { results = rest }) in
        record final { acquisition_busy = false }
    received conf (answer true none, rest) app = app
    received conf (answer false o, rest) app = app
    received conf (asleep, rest) app = app

    unfoldable pub receive : BlockInput C F D → Application T F D → Application T F D
    receive conf app = received conf (Fifo.call 4 try_pop app.results) app

    -- What follows `m_acquisitionJobQueue.tryPush`.
    unfoldable pub handed :
        Reply (AcquisitionJob F) × Fifo (AcquisitionJob F) → Application T F D → Application T F D
    handed (answer true o, jobs) app = record app { jobs = jobs; acquisition_busy = true }
    handed (answer false o, jobs) app = app
    handed (asleep, jobs) app = app

    -- The search of a chosen channel, where the channel is eligible.
    unfoldable pub hand_over : List (F × F) → Option ℕ → Application T F D → Application T F D
    hand_over input none app = app
    hand_over input (some i) app =
        let job : AcquisitionJob F = record { input = input; channel_index = i } in
        if is_eligible (state_at app.channels i)
        then handed (Fifo.call 1 (try_push job) app.jobs) app
        else app

    unfoldable pub dispatch :
        BlockInput C F D → List (F × F) → ℕ → Application T F D → Application T F D
    dispatch conf input block app =
        let (chosen, sweep) = choose_channel conf.reacquisition_interval_blocks block app.sweep in
        if app.acquisition_busy then app else hand_over input chosen (record app { sweep = sweep })

    -- `trackOneActiveChannel` for every active channel, and then `takePendingStateMessage`.
    unfoldable pub track_channel : List (F × F) → Channel T F D → Channel T F D
    track_channel input c =
        if is_active c.lock.state
        then (take_pending_state_message (track_block fp eng input c)).1
        else c

    unfoldable pub track_satellites : List (F × F) → Application T F D → Application T F D
    track_satellites input app = record app { channels = map (track_channel input) app.channels }
