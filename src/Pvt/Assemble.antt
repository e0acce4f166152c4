-- ===== src/Pvt/Assemble.antt =====
-- Source/Pvt/GPSOpenClMeasurementAssembler.cpp: transmit times and pseudoranges out of the channels.
-- `std::sort` is the parameter `sort`.
use gpsopen_cl.Prelude.{ℕ, ◌-◌, ◌/◌, ◌^◌, Bool, true, false, not, ◌||◌, ◌&&◌, ltb, ◌==◌}
use gpsopen_cl.Prelude.{Option, none, some, if◌then◌else◌, List, [], ◌∷◌, ◌++◌, length, map, get_or}
use gpsopen_cl.Prelude.Int.{pos, negsuc}
use gpsopen_cl.Float.{Floats}
use gpsopen_cl.Maths.{Maths, ◌⊕◌, ◌⊖◌, ◌⊗◌, ◌⊘◌, ◌≺◌, whole, speed_of_light, code_period}
use gpsopen_cl.NavDecode.Subframe.{GpsEphemeris}
use gpsopen_cl.Channel.Ephemeris.{has_complete_ephemeris}
use gpsopen_cl.Channel.State.{Channel, is_tracking}
use gpsopen_cl.Pvt.Orbit.{EcefPosition, compute_satellite_orbit, compute_receiver_time, distance}

pub record Measurements (D : Type 0) : Type 0 where
  pub ephemerides : List (GpsEphemeris D)
  pub transmit_times : List D
  pub pseudoranges : List D
  pub prns : List ℕ
  pub receiver_time : D

module _ {D : Type 0} ⦃m : Maths D⦄ where
  open m use {negate, decimal, abs, round}

  unfoldable pub compute_elapsed : ℕ → ℕ → Option D
  compute_elapsed prompt_count start_sample =
      if ltb prompt_count start_sample
      then none
      else some (whole (prompt_count - start_sample) ⊗ code_period)

  unfoldable pub compute_transmit_time : D → D → D → D → D
  compute_transmit_time tow elapsed drift anchor_raw =
      tow ⊕ elapsed ⊕ ((drift ⊕ (anchor_raw ⊖ whole 1023)) ⊘ whole 1023000)

  -- The whole code periods that an arrival is off the median, where they are applied.
  unfoldable pub snap_one : D → D → D → D
  snap_one median arrival time =
      let offset = (median ⊖ arrival) ⊘ code_period in
      let periods = round offset in
      let near = m.less_equal (abs periods) (whole 1) in
      let guarded = abs (offset ⊖ periods) ≺ decimal (pos 25) (negsuc 1) in
      if not (m.equal periods (whole 0)) && near && guarded
      then time ⊕ periods ⊗ code_period
      else time

  unfoldable pub snap_all : D → List D → List D → List D
  snap_all median (t ∷ ts) (a ∷ arrivals) = snap_one median a t ∷ snap_all median ts arrivals
  snap_all median [] arrivals = []
  snap_all median (t ∷ ts) [] = t ∷ ts

  unfoldable pub snap_to_median : (List D → List D) → List D → List D → List D
  snap_to_median sort times arrivals =
      let median = get_or (sort arrivals) (length arrivals / 2) (whole 0) in
      if (length times == 0) || not (length times == length arrivals)
      then times
      else snap_all median times arrivals

  unfoldable pub implied_arrivals : EcefPosition D → List (GpsEphemeris D) → List D → List D
  implied_arrivals reference (e ∷ es) (t ∷ ts) =
      let orbit = compute_satellite_orbit e t in
      (t ⊖ orbit.clock_bias ⊕ (distance orbit.position reference ⊘ speed_of_light))
      ∷ implied_arrivals reference es ts
  implied_arrivals reference [] ts = []
  implied_arrivals reference (e ∷ es) [] = []

  abbrev pub cleared : Measurements D
  cleared = record {
    ephemerides = [];
    transmit_times = [];
    pseudoranges = [];
    prns = [];
    receiver_time = whole 0;
  }

  -- The receiver time and the pseudoranges.
  unfoldable pub complete : EcefPosition D → Measurements D → Measurements D
  complete reference out =
      let time = compute_receiver_time out.ephemerides out.transmit_times reference in
      record out {
        receiver_time = time;
        pseudoranges = map (λ t. (time ⊖ t) ⊗ speed_of_light) out.transmit_times;
      }

  module _ {T F : Type 0} (fp : Floats F D) where
    open fp use {widen, zero_f}

    -- `getCumulativeDriftChipsAtSample` and `getCodePhaseAtSample`.
    unfoldable pub drift_at : Channel T F D → ℕ → F
    drift_at c i = get_or c.nav.cumulative_drift_chips_history i zero_f

    unfoldable pub code_phase_at : Channel T F D → ℕ → F
    code_phase_at c i = get_or c.nav.code_phase_history i zero_f

    -- The transmit time of a channel where its last subframe is not too old.
    unfoldable pub channel_time : Channel T F D → Option D → Option D
    channel_time c none = none
    channel_time c (some elapsed) =
        let count = length c.nav.prompt_history in
        let start = c.nav.last_subframe_start_sample in
        let tow = c.nav.last_subframe_tow ⊖ whole 6 in
        let last_index = if count == 0 then 2 ^ 64 - 1 else count - 1 in
        let drift = widen (drift_at c last_index) ⊖ widen (drift_at c start) in
        if whole 15 ≺ elapsed
        then none
        else some (compute_transmit_time tow elapsed drift (widen (code_phase_at c start)))

    -- The transmit time of a channel where it is usable.
    unfoldable pub measure_channel : Channel T F D → Option D
    measure_channel c =
        let elapsed =
          compute_elapsed (length c.nav.prompt_history) c.nav.last_subframe_start_sample in
        if not (is_tracking c.lock.state) || not (has_complete_ephemeris c.nav.seen_subframe_mask)
        then none
        else channel_time c elapsed

    unfoldable pub push_channel : Channel T F D → Option D → Measurements D → Measurements D
    push_channel c none out = out
    push_channel c (some time) out = record out {
      ephemerides = out.ephemerides ++ c.nav.accumulated_ephemeris ∷ [];
      transmit_times = out.transmit_times ++ time ∷ [];
      prns = out.prns ++ c.sv_id ∷ [];
    }

    unfoldable pub collect : List (Channel T F D) → Measurements D → Measurements D
    collect [] out = out
    collect (c ∷ cs) out = collect cs (push_channel c (measure_channel c) out)

    unfoldable pub assemble :
        (List D → List D) → List (Channel T F D) → EcefPosition D → Bool → Bool × Measurements D
    assemble sort channels reference trusted =
        let out = collect channels cleared in
        let arrivals = implied_arrivals reference out.ephemerides out.transmit_times in
        let snapped = record out {
          transmit_times = snap_to_median sort out.transmit_times arrivals;
        } in
        if ltb (length out.ephemerides) 4
        then (false, out)
        else (true, complete reference (if trusted then snapped else out))
