-- ===== src/Channel/Debounce.antt =====
-- What the leaky counters guarantee over any sequence of blocks.
use gpsopen_cl.Prelude.{ℕ, zero, suc, ◌+◌, ◌-◌, ◌≤◌, ◌<◌, ◌≡◌, ◌≢◌, refl, ap, Bool, true, false}
use gpsopen_cl.Prelude.{List, [], ◌∷◌, length, replicate, if◌then◌else◌, arith, ◌⊎◌, inl, inr}
use gpsopen_cl.Channel.Lock.{ChannelState, acquiring, confirming, tracking, Lock, Debounce}
use gpsopen_cl.Channel.Lock.{
  confirm_step, track_step, next_state_from, compute_next_state, run_blocks,
}

-- How many of the blocks are good, and how many bad.
abbrev pub goods : List Bool → ℕ
goods [] = 0
goods (true ∷ bs) = suc (goods bs)
goods (false ∷ bs) = goods bs

abbrev pub bads : List Bool → ℕ
bads [] = 0
bads (true ∷ bs) = bads bs
bads (false ∷ bs) = suc (bads bs)

-- The state that `initTracking` sets up.
abbrev pub started : Lock
started = record {
  state = confirming;
  confirm_progress = 0;
  loss_progress = 0;
  blocks_in_confirming = 0;
}

confirming_or_not : (s : ChannelState) → (s ≡ confirming) ⊎ (s ≢ confirming)
confirming_or_not acquiring = inr (λ e. cc)
confirming_or_not confirming = inl refl
confirming_or_not tracking = inr (λ e. cc)

module _ (conf : Debounce) where
  abbrev pub Bounds : ChannelState → Lock → Type 0
  Bounds acquiring l = Unit {0}
  Bounds confirming l =
      (l.confirm_progress < conf.confirm_debounce_blocks)
      × (l.blocks_in_confirming < conf.confirm_timeout_blocks)
  Bounds tracking l = l.loss_progress < conf.loss_debounce_blocks

  -- While a channel confirms, neither counter of the confirmation reaches its setting; while it
  -- tracks, the loss counter does not.
  abbrev pub IsBounded : Lock → Type 0
  IsBounded l = Bounds l.state l

  -- What the code tests next of a good or a bad block.
  abbrev cost : Bool → ℕ
  cost good_block = if good_block then 0 else 1

  track_step_keeps :
      (b : Bool) (l : Lock)
      → l.loss_progress + cost b < conf.loss_debounce_blocks
      → ((track_step conf b l).state ≡ tracking)
        × ((track_step conf b l).loss_progress ≤ l.loss_progress + cost b)
  unfolding track_step
  track_step_keeps b l h = ground arith

  compute-tracking :
      (b : Bool) (l : Lock) → l.state ≡ tracking → compute_next_state conf b l ≡ track_step conf b l
  unfolding compute_next_state next_state_from
  compute-tracking b l h = ap (λ s. next_state_from conf s b l) h

  compute-confirming :
      (b : Bool) (l : Lock)
      → l.state ≡ confirming
      → compute_next_state conf b l ≡ confirm_step conf b l
  unfolding compute_next_state next_state_from
  compute-confirming b l h = ap (λ s. next_state_from conf s b l) h

  bads-cons : (b : Bool) (bs : List Bool) → bads (b ∷ bs) ≡ cost b + bads bs
  bads-cons true bs = omega arith
  bads-cons false bs = omega arith

  -- A tracking channel keeps its lock through any blocks of which fewer than the debounce setting
  -- are bad, counting what the loss counter already holds.
  pub run_blocks_tracks :
      (bs : List Bool) (l : Lock)
      → l.state ≡ tracking
      → l.loss_progress + bads bs < conf.loss_debounce_blocks
      → (run_blocks conf bs l).state ≡ tracking
  unfolding run_blocks
  run_blocks_tracks [] l h k = h
  run_blocks_tracks (b ∷ bs) l h k =
      let (kept, less) = track_step_keeps b l (omega (arith, bads-cons b bs)) in
      rw (run_blocks, compute-tracking b l h)
        (run_blocks_tracks bs (track_step conf b l) kept (omega (arith, bads-cons b bs)))

  -- A channel that does not confirm never comes back to confirming by itself.
  never_back :
      (b : Bool) (l : Lock)
      → l.state ≢ confirming
      → (compute_next_state conf b l).state ≢ confirming
  unfolding compute_next_state next_state_from track_step
  never_back b l h = ground arith

  run_blocks_settled :
      (bs : List Bool) (l : Lock) → l.state ≢ confirming → (run_blocks conf bs l).state ≢ confirming
  unfolding run_blocks
  run_blocks_settled [] l h = h
  run_blocks_settled (b ∷ bs) l h =
      run_blocks_settled bs (compute_next_state conf b l) (never_back b l h)

  confirm_step_cases :
      (b : Bool) (l : Lock)
      → ((confirm_step conf b l).state ≢ confirming)
        ⊎ (((confirm_step conf b l).state ≡ confirming)
            × ((confirm_step conf b l).blocks_in_confirming ≡ l.blocks_in_confirming + 1)
            × (l.blocks_in_confirming + 1 < conf.confirm_timeout_blocks))
  unfolding confirm_step
  confirm_step_cases b l = ground arith

  confirming_ends :
      (bs : List Bool) (l : Lock)
      → l.state ≡ confirming
      → l.blocks_in_confirming < conf.confirm_timeout_blocks
      → conf.confirm_timeout_blocks ≤ l.blocks_in_confirming + length bs
      → (run_blocks conf bs l).state ≢ confirming
  unfolding run_blocks
  confirming_ends [] l here early h = absurd (omega arith)
  confirming_ends (b ∷ bs) l here early h =
      rw (run_blocks, compute-confirming b l here)
        (elim (confirm_step_cases b l) [
          | inl left ↦ run_blocks_settled bs (confirm_step conf b l) left
          | inr (on, blocks, soon) ↦
              confirming_ends bs (confirm_step conf b l) on (omega arith) (omega arith)
        ])

  -- Confirming ends: after as many blocks as the timeout, at least one and whatever they are, the
  -- channel has either confirmed its lock or given up.
  pub run_blocks_decides :
      (b : Bool) (bs : List Bool) (l : Lock)
      → conf.confirm_timeout_blocks ≤ l.blocks_in_confirming + length (b ∷ bs)
      → (run_blocks conf (b ∷ bs) l).state ≢ confirming
  unfolding run_blocks
  run_blocks_decides b bs l h = elim (confirming_or_not l.state) [
    | inr other ↦ run_blocks_settled bs (compute_next_state conf b l) (never_back b l other)
    | inl here ↦
        rw (run_blocks, compute-confirming b l here)
          (elim (confirm_step_cases b l) [
            | inl left ↦ run_blocks_settled bs (confirm_step conf b l) left
            | inr (on, blocks, soon) ↦
                confirming_ends bs (confirm_step conf b l) on (omega arith) (omega arith)
          ])
  ]

  confirm_good :
      (n : ℕ) (l : Lock)
      → l.state ≡ confirming
      → l.confirm_progress + suc n ≡ conf.confirm_debounce_blocks
      → l.blocks_in_confirming + suc n ≤ conf.confirm_timeout_blocks
      → ((run_blocks conf (replicate (suc n) true) l).state ≡ tracking)
        × ((run_blocks conf (replicate (suc n) true) l).loss_progress ≡ 0)
  unfolding run_blocks confirm_step
  confirm_good zero l h k m = rw (run_blocks, compute-confirming true l h) (ground arith)
  confirm_good (suc n) l h k m =
      rw (run_blocks, compute-confirming true l h)
        (confirm_good n (confirm_step conf true l) (ground arith) (ground arith) (ground arith))

  goods-cons : (b : Bool) (bs : List Bool) → goods (b ∷ bs) ≡ (1 - cost b) + goods bs
  goods-cons true bs = omega arith
  goods-cons false bs = omega arith

  unconfirmed_step :
      (b : Bool) (l : Lock)
      → l.state ≢ tracking
      → l.confirm_progress + (1 - cost b) < conf.confirm_debounce_blocks
      → ((compute_next_state conf b l).state ≢ tracking)
        × ((compute_next_state conf b l).confirm_progress ≤ l.confirm_progress + (1 - cost b))
  unfolding compute_next_state next_state_from confirm_step
  unconfirmed_step b l h k = ground arith

  -- With fewer good blocks than the debounce setting asks for, no lock is confirmed.
  pub run_blocks_unconfirmed :
      (bs : List Bool) (l : Lock)
      → l.state ≢ tracking
      → l.confirm_progress + goods bs < conf.confirm_debounce_blocks
      → (run_blocks conf bs l).state ≢ tracking
  unfolding run_blocks
  run_blocks_unconfirmed [] l h k = h
  run_blocks_unconfirmed (b ∷ bs) l h k =
      let (still, less) = unconfirmed_step b l h (omega (arith, goods-cons b bs)) in
      run_blocks_unconfirmed bs (compute_next_state conf b l) still (omega (arith, goods-cons b bs))

  next_state-Bounds :
      (s : ChannelState) (b : Bool) (l : Lock)
      → 0 < conf.loss_debounce_blocks
      → l.state ≡ s
      → Bounds s l
      → IsBounded (next_state_from conf s b l)
  unfolding next_state_from confirm_step track_step
  next_state-Bounds acquiring b l p h k = rw h tt
  next_state-Bounds confirming b l p h k = ground arith
  next_state-Bounds tracking b l p h k = ground arith

  -- One block keeps the counters of a channel below their settings, if a lock takes at least one
  -- bad block to lose.
  pub compute_next_state-IsBounded :
      (b : Bool) (l : Lock)
      → 0 < conf.loss_debounce_blocks
      → IsBounded l
      → IsBounded (compute_next_state conf b l)
  unfolding compute_next_state
  compute_next_state-IsBounded b l p h = next_state-Bounds l.state b l p refl h

  -- A channel that has just been initialised confirms its lock after an unbroken run of good blocks
  -- of the length of the debounce setting, if that is positive and within the timeout, and then has
  -- an empty loss counter.
  pub run_blocks_confirms :
      (n : ℕ)
      → conf.confirm_debounce_blocks ≡ suc n
      → conf.confirm_debounce_blocks ≤ conf.confirm_timeout_blocks
      → let l = run_blocks conf (replicate conf.confirm_debounce_blocks true) started in
        (l.state ≡ tracking) × (l.loss_progress ≡ 0)
  run_blocks_confirms n h k = simp h (confirm_good n started refl (omega arith) (omega arith))
