-- ===== src/Application/Schedule.antt =====
-- The choice of the channel to search in a block: the sweep of the cold start, then the slots of the
-- re-acquisition. From `Application::processBlock` of Source/Application/GPSOpenClApplication.cpp.
use gpsopen_cl.Prelude.{ℕ, zero, suc, ◌+◌, ◌/◌, ◌%◌, ◌^◌, max, Bool, true, Option, none, some}
use gpsopen_cl.Prelude.{List, [], ◌∷◌, ltb, ◌==◌, if◌then◌else◌}
use gpsopen_cl.Prelude.Int.{ℤ, pos, negsuc}

-- `m_nextAcquisitionChannel` and `m_coldStartSweepDone`.
pub record Sweep : Type 0 where
  pub next_acquisition_channel : ℕ
  pub cold_start_sweep_done : Bool

abbrev pub sv_count : ℕ
sv_count = 32

abbrev pub slot_width : ℕ → ℕ
slot_width interval = max 1 (interval / sv_count)

-- The value of a `uint32_t` that counts the blocks of a run: it wraps round.
abbrev pub uint32 : ℕ → ℕ
uint32 block = block % 2 ^ 32

unfoldable pub reacquire_at : ℕ → ℕ → Option ℕ
reacquire_at width block = if block % width == 0 then some (block / width % sv_count) else none

-- At a positive interval, in the block with this count.
unfoldable pub reacquire : ℕ → ℕ → Option ℕ
reacquire interval block = reacquire_at (slot_width interval) (uint32 block)

unfoldable pub reacquire_every : ℤ → ℕ → Option ℕ
reacquire_every (pos zero) block = none
reacquire_every (pos (suc n)) block = reacquire (suc n) block
reacquire_every (negsuc n) block = none

unfoldable pub choose_channel : ℤ → ℕ → Sweep → Option ℕ × Sweep
choose_channel interval block s =
    let next = s.next_acquisition_channel in
    if s.cold_start_sweep_done
    then (reacquire_every interval block, s)
    else if ltb next sv_count
    then (some next, record s { next_acquisition_channel = next + 1 })
    else (none, record s { cold_start_sweep_done = true })

-- The choices in blocks in which no search is under way.
unfoldable pub choices : ℤ → List ℕ → Sweep → List (Option ℕ) × Sweep
choices interval [] s = ([], s)
choices interval (b ∷ blocks) s =
    let (chosen, s') = choose_channel interval b s in
    let (rest, end) = choices interval blocks s' in (chosen ∷ rest, end)
