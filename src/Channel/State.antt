-- ===== src/Channel/State.antt =====
-- A channel and its handlers of a block: `initTracking`, `resetNavigationState`, `trackBlock`,
-- `evaluateLockState` and the acquisition metrics. A message is an event where the code formats text.
use gpsopen_cl.Prelude.{ℕ, Bool, true, false, ◌&&◌, Option, none, some, List, [], ◌∷◌, ◌++◌}
use gpsopen_cl.Prelude.{if◌then◌else◌}
use gpsopen_cl.Prelude.Int.{pos, negsuc}
use gpsopen_cl.Float.{Floats, nat}
use gpsopen_cl.NavDecode.Subframe.{GpsEphemeris}
use gpsopen_cl.NavDecode.Sync.{BitSync}
use gpsopen_cl.Channel.Lock.{ChannelState, acquiring, confirming, tracking, Lock, Debounce}
use gpsopen_cl.Channel.Lock.{compute_next_state}

-- The tracking loop of a channel as the channel uses it: `T` is its state and `C` its settings.
-- A block gives the new state and the prompt correlator that is put out when asked for.
pub record Engine (C T F : Type 0) : Type 0 where
  pub construct : C → T
  pub set_timing_enabled : Bool → T → T
  pub init_tracking_state : F → F → T → T
  pub do_work : List (F × F) → ℕ → ℕ → T → T × (F × F)
  pub code_phase_chips : T → F
  pub carrier_lock_indicator : T → F
  pub code_lock_ratio : T → F

-- The fields of `TrackingInput` that the channel itself reads.
pub record LockInput (D : Type 0) : Type 0 where
  pub carrier_lock_threshold : D
  pub code_lock_ratio_tolerance : D
  pub debounce : Debounce

-- What `resetNavigationState` clears.
pub record Navigation (F D : Type 0) : Type 0 where
  pub prompt_history : List (F × F)
  pub code_phase_history : List F
  pub cumulative_drift_chips_history : List F
  pub last_raw_code_phase_for_drift : F
  pub cumulative_drift_chips : F
  pub sync : BitSync
  pub seen_subframe_mask : ℕ
  pub accumulated_ephemeris : GpsEphemeris D
  pub last_subframe_tow : D
  pub last_subframe_start_sample : ℕ

pub data Message : Type 0 where
  timed_out lost_lock confirmed : Message

pub record Channel (T F D : Type 0) : Type 0 where
  pub sv_id : ℕ
  pub engine : Option T
  pub is_acquired : Bool
  pub timing_enabled : Bool
  pub carrier_lock_threshold : F
  pub code_lock_ratio_tolerance : F
  pub debounce : Debounce
  pub lock : Lock
  pub nav : Navigation F D
  pub pending_state_message : List Message

-- `static_cast<uint32_t>(m_state)`.
abbrev pub state_code : ChannelState → ℕ
state_code acquiring = 0
state_code confirming = 1
state_code tracking = 2

abbrev pub is_tracking : ChannelState → Bool
is_tracking acquiring = false
is_tracking confirming = false
is_tracking tracking = true

-- `previous == Tracking && m_state == Acquiring` and its kin.
abbrev pub message_of : ChannelState → ChannelState → Option Message
message_of confirming acquiring = some timed_out
message_of confirming tracking = some confirmed
message_of confirming confirming = none
message_of tracking acquiring = some lost_lock
message_of tracking tracking = none
message_of tracking confirming = none
message_of acquiring s = none

module _ {F D : Type 0} (fp : Floats F D) where
  open fp use {zero_f, add_f, sub_f, div_f, fmod_f, abs_f, le_f, of_int_f, of_int, narrow}

  -- `GpsEphemeris()`.
  abbrev pub no_ephemeris : GpsEphemeris D
  no_ephemeris = record {
    sv_id = 0;
    week_number = 0;
    tow = nat fp 0;
    subframe_id = 0;
    is_valid = false;
    toc = nat fp 0;
    af0 = nat fp 0;
    af1 = nat fp 0;
    af2 = nat fp 0;
    tgd = nat fp 0;
    iodc = 0;
    toe = nat fp 0;
    sqrt_a = nat fp 0;
    e = nat fp 0;
    i0 = nat fp 0;
    omega0 = nat fp 0;
    omega = nat fp 0;
    m0 = nat fp 0;
    delta_n = nat fp 0;
    omega_dot = nat fp 0;
    idot = nat fp 0;
    cuc = nat fp 0;
    cus = nat fp 0;
    crc = nat fp 0;
    crs = nat fp 0;
    cic = nat fp 0;
    cis = nat fp 0;
    iode2 = 0;
    iode3 = 0;
  }

  -- The navigation state after `resetNavigationState`.
  abbrev pub reset_navigation_state : Navigation F D
  reset_navigation_state = record {
    prompt_history = [];
    code_phase_history = [];
    cumulative_drift_chips_history = [];
    last_raw_code_phase_for_drift = zero_f;
    cumulative_drift_chips = zero_f;
    sync = record { bit_sync_phase = negsuc 0; search_positions = []; bit_offset = 0 };
    seen_subframe_mask = 0;
    accumulated_ephemeris = no_ephemeris;
    last_subframe_tow = nat fp 0;
    last_subframe_start_sample = 0;
  }

  -- `std::fmod(raw - last + 1023 + half, 1023) - half`.
  abbrev pub drift_delta : F → F → F
  drift_delta raw last =
      let code = of_int_f (pos 1023) in
      let half = div_f code (of_int_f (pos 2)) in
      sub_f (fmod_f (add_f (add_f (sub_f raw last) code) half) code) half

  -- The drift is carried on only where the history has a previous block.
  abbrev pub drift_after : List F → F → F → F → F
  drift_after [] raw last drift = drift
  drift_after (x ∷ xs) raw last drift = add_f drift (drift_delta raw last)

  -- The histories after a block that is tracked: the prompt and the code phase of the block.
  unfoldable pub record_block : F × F → F → Navigation F D → Navigation F D
  record_block prompt raw nav =
      let drift =
        drift_after nav.cumulative_drift_chips_history raw nav.last_raw_code_phase_for_drift
          nav.cumulative_drift_chips in
      record nav {
        prompt_history = nav.prompt_history ++ prompt ∷ [];
        code_phase_history = nav.code_phase_history ++ raw ∷ [];
        cumulative_drift_chips_history = nav.cumulative_drift_chips_history ++ drift ∷ [];
        last_raw_code_phase_for_drift = raw;
        cumulative_drift_chips = drift;
      }

  -- What follows a transition from one state to another.
  unfoldable pub transition : {T : Type 0} → Option Message → Channel T F D → Channel T F D
  transition none c = c
  transition (some confirmed) c = record c {
    pending_state_message = c.pending_state_message ++ confirmed ∷ [];
  }
  transition (some m) c = record c {
    is_acquired = false;
    nav = reset_navigation_state;
    pending_state_message = c.pending_state_message ++ m ∷ [];
  }

  module _ {C T : Type 0} (eng : Engine C T F) where
    open eng use {construct, set_timing_enabled, init_tracking_state, do_work, code_phase_chips}
    open eng use {carrier_lock_indicator, code_lock_ratio}

    -- The engine is built once.
    unfoldable pub init_tracking : C → LockInput D → F → F → Channel T F D → Channel T F D
    init_tracking conf input doppler_hz code_phase c =
        let built : T = elim c.engine [ none ↦ construct conf | some t ↦ t ] in
        record c {
          engine = some (
              init_tracking_state doppler_hz code_phase
                (set_timing_enabled c.timing_enabled built));
          carrier_lock_threshold = narrow input.carrier_lock_threshold;
          code_lock_ratio_tolerance = narrow input.code_lock_ratio_tolerance;
          debounce = input.debounce;
          lock = record {
            state = confirming;
            confirm_progress = 0;
            loss_progress = 0;
            blocks_in_confirming = 0;
          };
          nav = reset_navigation_state;
        }

    abbrev pub is_good : T → Channel T F D → Bool
    is_good t c =
        le_f c.carrier_lock_threshold (carrier_lock_indicator t)
        && le_f (abs_f (sub_f (code_lock_ratio t) (of_int_f (pos 1)))) c.code_lock_ratio_tolerance

    unfoldable pub evaluate_lock_state : T → Channel T F D → Channel T F D
    evaluate_lock_state t c =
        let next = compute_next_state c.debounce (is_good t c) c.lock in
        transition (message_of c.lock.state next.state) (record c { lock = next })

    -- A block, where the engine is there and the channel acquired.
    unfoldable pub track_with : List (F × F) → T → Channel T F D → Channel T F D
    track_with input t c =
        let (t', prompt) = do_work input c.sv_id (state_code c.lock.state) t in
        let worked = record c {
          engine = some t';
          nav =
              if is_tracking c.lock.state
              then record_block prompt (code_phase_chips t') c.nav
              else c.nav;
        } in
        evaluate_lock_state t' worked

    unfoldable pub track_engine : List (F × F) → Option T → Channel T F D → Channel T F D
    track_engine input none c = c
    track_engine input (some t) c = if c.is_acquired then track_with input t c else c

    unfoldable pub track_block : List (F × F) → Channel T F D → Channel T F D
    track_block input c = track_engine input c.engine c

-- The message and the channel without it.
unfoldable pub take_pending_state_message :
    {T F D : Type 0} → Channel T F D → List Message × Channel T F D
take_pending_state_message c = (c.pending_state_message, record c { pending_state_message = [] })
