-- ===== src/Channel/Steps.antt =====
-- The invariant of a channel over its blocks.
use gpsopen_cl.Prelude.{◌+◌, ◌≡◌, refl, sym, ◌∙◌, ap, Bool, true, false, Option, none, some}
use gpsopen_cl.Prelude.{List, [], ◌∷◌, length, length-append, if◌then◌else◌, arith}
use gpsopen_cl.Float.{Floats}
use gpsopen_cl.Channel.Lock.{ChannelState, acquiring, confirming, tracking, Lock, Debounce}
use gpsopen_cl.Channel.Lock.{track_step, next_state_from, compute_next_state}
use gpsopen_cl.Channel.State.{Engine, LockInput, Navigation}
use gpsopen_cl.Channel.State.{
  Channel, is_tracking, message_of, reset_navigation_state, record_block,
}
use gpsopen_cl.Channel.State.{init_tracking, transition, evaluate_lock_state, track_with}
use gpsopen_cl.Channel.State.{track_engine, track_block, drift_after}

-- The three histories have one entry per tracked block.
pub record IsAligned {F D : Type 0} (nav : Navigation F D) : Type 0 where
  pub phases : length nav.code_phase_history ≡ length nav.prompt_history
  pub drifts : length nav.cumulative_drift_chips_history ≡ length nav.prompt_history

abbrev pub is_active : ChannelState → Bool
is_active acquiring = false
is_active confirming = true
is_active tracking = true

module _ {F D : Type 0} (fp : Floats F D) where
  -- Only a tracking channel has navigation state.
  abbrev pub Fits : ChannelState → Navigation F D → Type 0
  Fits acquiring nav = nav ≡ reset_navigation_state fp
  Fits confirming nav = nav ≡ reset_navigation_state fp
  Fits tracking nav = IsAligned nav

  -- The loop runs exactly while the channel is acquired; outside tracking the navigation state is
  -- the one that a reset leaves, and in tracking its histories are aligned.
  pub record IsConsistent {T : Type 0} (c : Channel T F D) : Type 0 where
    pub acquired : c.is_acquired ≡ is_active c.lock.state
    pub fits : Fits c.lock.state c.nav

  record_block-IsAligned :
      (prompt : F × F) (raw : F) (nav : Navigation F D)
      → IsAligned nav
      → IsAligned (record_block fp prompt raw nav)
  unfolding record_block
  record_block-IsAligned prompt raw nav h =
      let drift =
        drift_after fp nav.cumulative_drift_chips_history raw nav.last_raw_code_phase_for_drift
          nav.cumulative_drift_chips in
      let p = length-append nav.prompt_history (prompt ∷ []) in
      let r = length-append nav.code_phase_history (raw ∷ []) in
      let d = length-append nav.cumulative_drift_chips_history (drift ∷ []) in
      record {
        phases = r ∙ ap (λ n. n + 1) h.phases ∙ sym p;
        drifts = d ∙ ap (λ n. n + 1) h.drifts ∙ sym p;
      }

  reset-IsAligned : (nav : Navigation F D) → nav ≡ reset_navigation_state fp → IsAligned nav
  reset-IsAligned nav e = rw e (record { phases = refl; drifts = refl })

  abbrev Allowed : ChannelState → ChannelState → Type 0
  Allowed acquiring s = s ≡ acquiring
  Allowed confirming s = Unit {0}
  Allowed tracking s = is_active s ≡ is_tracking s

  next-Allowed :
      (conf : Debounce) (s : ChannelState) (b : Bool) (l : Lock)
      → l.state ≡ s
      → Allowed s (next_state_from conf s b l).state
  unfolding next_state_from track_step
  next-Allowed conf acquiring b l e = e
  next-Allowed conf confirming b l e = tt
  next-Allowed conf tracking b l e = ground arith

  module _ {T : Type 0} where
    consistent :
        (c : Channel T F D) (s : ChannelState)
        → c.lock.state ≡ s
        → c.is_acquired ≡ is_active s
        → Fits s c.nav
        → IsConsistent c
    consistent c s e a f = record { acquired = rw e a; fits = rw e f }

    transition-IsConsistent :
        (prev next : ChannelState) (c : Channel T F D)
        → Allowed prev next
        → c.lock.state ≡ next
        → c.is_acquired ≡ is_active prev
        → Fits prev c.nav
        → IsConsistent (transition fp (message_of prev next) c)
    unfolding transition
    transition-IsConsistent acquiring acquiring c ok e a f = consistent c acquiring e a f
    transition-IsConsistent acquiring confirming c ok e a f = absurd (cc)
    transition-IsConsistent acquiring tracking c ok e a f = absurd (cc)
    transition-IsConsistent confirming acquiring c ok e a f = consistent _ acquiring e refl refl
    transition-IsConsistent confirming confirming c ok e a f = consistent c confirming e a f
    transition-IsConsistent confirming tracking c ok e a f =
        consistent _ tracking e a (reset-IsAligned c.nav f)
    transition-IsConsistent tracking acquiring c ok e a f = consistent _ acquiring e refl refl
    transition-IsConsistent tracking confirming c ok e a f = absurd (cc)
    transition-IsConsistent tracking tracking c ok e a f = consistent c tracking e a f

  record_block-Fits :
      (s : ChannelState) (prompt : F × F) (raw : F) (nav : Navigation F D)
      → Fits s nav
      → Fits s (if is_tracking s then record_block fp prompt raw nav else nav)
  record_block-Fits acquiring prompt raw nav h = h
  record_block-Fits confirming prompt raw nav h = h
  record_block-Fits tracking prompt raw nav h = record_block-IsAligned prompt raw nav h

  module _ {C T : Type 0} (eng : Engine C T F) where
    track_with-IsConsistent :
        (input : List (F × F)) (t : T) (c : Channel T F D)
        → IsConsistent c
        → IsConsistent (track_with fp eng input t c)
    unfolding track_with evaluate_lock_state compute_next_state
    track_with-IsConsistent input t c h =
        transition-IsConsistent c.lock.state _ _
          (next-Allowed c.debounce c.lock.state _ c.lock refl) refl h.acquired
          (record_block-Fits c.lock.state _ _ c.nav h.fits)

    track_engine-IsConsistent :
        (input : List (F × F)) (engine : Option T) (c : Channel T F D)
        → IsConsistent c
        → IsConsistent (track_engine fp eng input engine c)
    unfolding track_engine
    track_engine-IsConsistent input none c h = h
    track_engine-IsConsistent input (some t) c h =
        let go = track_with-IsConsistent input t c h in
        elim c.is_acquired as (λ b. IsConsistent (if b then track_with fp eng input t c else c)) [
          | true ↦ go
          | false ↦ h
        ]

    -- A block, whatever it measures, keeps the invariant: the channel is acquired exactly while its
    -- loop is active, the three histories have one entry per tracked block, and a channel that is
    -- not tracking, also one that has just lost its lock, has the navigation state of a reset.
    pub track_block-IsConsistent :
        (input : List (F × F)) (c : Channel T F D)
        → IsConsistent c
        → IsConsistent (track_block fp eng input c)
    unfolding track_block
    track_block-IsConsistent input c h = track_engine-IsConsistent input c.engine c h

    -- Initialising an acquired channel sets the invariant up.
    pub init_tracking-IsConsistent :
        (conf : C) (input : LockInput D) (doppler_hz code_phase : F) (c : Channel T F D)
        → c.is_acquired ≡ true
        → IsConsistent (init_tracking fp eng conf input doppler_hz code_phase c)
    unfolding init_tracking
    init_tracking-IsConsistent conf input doppler_hz code_phase c h = record {
      acquired = h;
      fits = refl;
    }
