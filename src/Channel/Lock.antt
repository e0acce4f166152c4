-- ===== src/Channel/Lock.antt =====
-- `Channel::computeNextState`: the lifecycle of a channel with its leaky counters. The counters start
-- at 0 and the code keeps them at 0 or above, so an `int` is a number here; `std::max(0, n - 1)` is
-- the subtraction that stops at 0.
use gpsopen_cl.Prelude.{ℕ, ◌+◌, ◌-◌, Bool, List, [], ◌∷◌, leb, if◌then◌else◌}

pub data ChannelState : Type 0 where
  acquiring confirming tracking : ChannelState

-- The state and the three counters that `computeNextState` updates.
pub record Lock : Type 0 where
  pub state : ChannelState
  pub confirm_progress : ℕ
  pub loss_progress : ℕ
  pub blocks_in_confirming : ℕ

-- The settings that it compares them with.
pub record Debounce : Type 0 where
  pub confirm_debounce_blocks : ℕ
  pub confirm_timeout_blocks : ℕ
  pub loss_debounce_blocks : ℕ

module _ (conf : Debounce) where
  unfoldable pub confirm_step : Bool → Lock → Lock
  confirm_step good_block l =
      let progress = if good_block then l.confirm_progress + 1 else l.confirm_progress - 1 in
      let blocks = l.blocks_in_confirming + 1 in
      if leb conf.confirm_debounce_blocks progress
      then record {
        state = tracking;
        confirm_progress = progress;
        loss_progress = 0;
        blocks_in_confirming = blocks;
      }
      else record l {
        state = if leb conf.confirm_timeout_blocks blocks then acquiring else confirming;
        confirm_progress = progress;
        blocks_in_confirming = blocks;
      }

  unfoldable pub track_step : Bool → Lock → Lock
  track_step good_block l =
      let progress = if good_block then l.loss_progress - 1 else l.loss_progress + 1 in
      record l {
        state = if leb conf.loss_debounce_blocks progress then acquiring else tracking;
        loss_progress = progress;
      }

  unfoldable pub next_state_from : ChannelState → Bool → Lock → Lock
  unfolding confirm_step track_step
  next_state_from confirming good_block l = confirm_step good_block l
  next_state_from tracking good_block l = track_step good_block l
  next_state_from acquiring good_block l = l

  unfoldable pub compute_next_state : Bool → Lock → Lock
  unfolding next_state_from
  compute_next_state good_block l = next_state_from l.state good_block l

  -- The state after a sequence of blocks.
  unfoldable pub run_blocks : List Bool → Lock → Lock
  unfolding compute_next_state
  run_blocks [] l = l
  run_blocks (b ∷ bs) l = run_blocks bs (compute_next_state b l)
