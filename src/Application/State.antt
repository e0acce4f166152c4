-- ===== src/Application/State.antt =====
-- The members of `Application` that a block or the acquisition thread changes. The two queues are as
-- their contract has them (BoundedQueue/Fifo). The acquisition metrics stand beside the channels.
use gpsopen_cl.Prelude.{ℕ, zero, suc, Bool, List, [], ◌∷◌, Option, none, some}
use gpsopen_cl.Prelude.Int.{ℤ}
use gpsopen_cl.BoundedQueue.Fifo.{Fifo}
use gpsopen_cl.NavDecode.Subframe.{NavigationDecoder}
use gpsopen_cl.Channel.Lock.{ChannelState}
use gpsopen_cl.Channel.State.{Channel, LockInput}
use gpsopen_cl.Channel.Metrics.{Metrics}
use gpsopen_cl.Pvt.Solve.{PvtSolver}
use gpsopen_cl.Application.Schedule.{Sweep}

-- The recycled buffer and the time taken are left out of job and result.
pub record AcquisitionJob (F : Type 0) : Type 0 where
  pub input : List (F × F)
  pub channel_index : ℕ

pub record AcquisitionResult : Type 0 where
  pub channel_index : ℕ

pub record PseudorangeSample (D : Type 0) : Type 0 where
  pub sv_id : ℕ
  pub transmit_time_seconds : D
  pub measured_pseudorange_meters : D

-- The settings that a block reads; `tracking` is what the tracking loop is built from.
pub record BlockInput (C F D : Type 0) : Type 0 where
  pub tracking : C
  pub lock_input : LockInput D
  pub cn0_threshold : F
  pub samples_per_code : ℤ
  pub reacquisition_interval_blocks : ℤ
  pub fix_output_interval_blocks : ℤ

-- Where the acquisition thread is.
pub data Searcher (F : Type 0) : Type 0 where
  idle : Searcher F
  searching : AcquisitionJob F → Searcher F
  reporting : AcquisitionResult → Searcher F

pub record Application (T F D : Type 0) : Type 0 where
  pub channels : List (Channel T F D)
  pub metrics : List (Metrics F)
  pub nav_decoder : NavigationDecoder D
  pub pvt_solver : PvtSolver D
  pub sweep : Sweep
  pub acquisition_busy : Bool
  pub jobs : Fifo (AcquisitionJob F)
  pub results : Fifo AcquisitionResult
  pub searcher : Searcher F
  pub last_pseudorange_samples : List (PseudorangeSample D)

module _ {T F D : Type 0} where
  -- The state of the channel of an index, none out of range.
  unfoldable pub state_at : List (Channel T F D) → ℕ → Option ChannelState
  state_at [] i = none
  state_at (c ∷ cs) zero = some c.lock.state
  state_at (c ∷ cs) (suc i) = state_at cs i

  -- A change of the channel of an index.
  unfoldable pub update_at :
      List (Channel T F D) → ℕ → (Channel T F D → Channel T F D) → List (Channel T F D)
  update_at [] i f = []
  update_at (c ∷ cs) zero f = f c ∷ cs
  update_at (c ∷ cs) (suc i) f = c ∷ update_at cs i f
