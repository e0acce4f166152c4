-- ===== src/Application/Sweep.antt =====
-- Every channel gets its searches: the cold start visits each once and in order, and afterwards each
-- has its slot, also where the count of the blocks wraps round.
use gpsopen_cl.Prelude.{ℕ, zero, suc, ◌+◌, ◌≤◌, ◌≡◌, refl, true, false}
use gpsopen_cl.Prelude.{none, some, List, [], ◌∷◌, length, map, arith, ltb, lt→ltb, ap}
use gpsopen_cl.Prelude.Int.{ℤ}
use gpsopen_cl.Application.Schedule.{Sweep}
use gpsopen_cl.Application.Schedule.{choose_channel, choices}

-- The numbers from `k` on, `n` of them.
abbrev pub count_up : ℕ → ℕ → List ℕ
count_up k zero = []
count_up k (suc n) = k ∷ count_up (k + 1) n

-- While the sweep lasts, the channels come in order.
choices_sweep :
    (interval : ℤ) (blocks : List ℕ) (k : ℕ)
    → k + length blocks ≤ 32
    → choices interval blocks
        (record { next_acquisition_channel = k; cold_start_sweep_done = false })
      ≡ (
        map some (count_up k (length blocks)),
        record { next_acquisition_channel = k + length blocks; cold_start_sweep_done = false },
      )
unfolding choices choose_channel
choices_sweep interval [] k h =
    ap (λ n. ([], record { next_acquisition_channel = n; cold_start_sweep_done = false }))
      (omega arith)
choices_sweep interval (b ∷ blocks) k h =
    let fits : ltb k 32 ≡ true = lt→ltb k 32 (omega arith) in
    let rest = choices_sweep interval blocks (k + 1) (omega arith) in
    let end : k + 1 + length blocks ≡ k + suc (length blocks) = omega arith in
    rw (choices, choose_channel, fits, rest, end) refl

abbrev pub at_start : Sweep
at_start = record { next_acquisition_channel = 0; cold_start_sweep_done = false }

-- The first 32 choices of a cold start are the channels 0 to 31, each once and in order, and the next
-- block ends the sweep without a search.
pub choices_cold_start :
    (interval : ℤ) (blocks : List ℕ) (b : ℕ)
    → length blocks ≡ 32
    → (let (chosen, s) = choices interval blocks at_start in
        (chosen ≡ map some (count_up 0 32))
        × (choose_channel interval b s
            ≡ (none, record { next_acquisition_channel = 32; cold_start_sweep_done = true })))
unfolding choose_channel
choices_cold_start interval blocks b h =
    let all = choices_sweep interval blocks 0 (omega arith) in rw (all, h) (refl, refl)
