-- ===== src/Tracking/Chips.antt =====
-- The chips of a sample: the prompt one of its phase, with the early and the late one half a chip off.
use gpsopen_cl.Prelude.{ℕ, zero, suc, Bool, if◌then◌else◌}
use gpsopen_cl.Prelude.Int.{ℤ, pos, pos_part, neg_part, ltb_ℤ, ◌+ℤ◌, ◌-ℤ◌}

abbrev pub code_length : ℤ
code_length = pos 1023

-- The two loops that bring an index into the code; the fuel is its distance from 0.
unfoldable pub count_down : ℕ → ℤ → ℤ
count_down zero i = i
count_down (suc fuel) i =
    let rest = count_down fuel (i -ℤ code_length) in if ltb_ℤ i code_length then i else rest

unfoldable pub count_up : ℕ → ℤ → ℤ
count_up zero i = i
count_up (suc fuel) i =
    let rest = count_up fuel (i +ℤ code_length) in if ltb_ℤ i (pos 0) then rest else i

unfoldable pub prompt_index : ℤ → ℤ
prompt_index raw = let low = count_down (pos_part raw) raw in count_up (neg_part low) low

-- `early_half` is `frac < 0.5f`.
unfoldable pub early_index : Bool → ℤ → ℤ
early_index early_half prompt =
    let early = if early_half then prompt -ℤ pos 1 else prompt in
    if ltb_ℤ early (pos 0) then early +ℤ code_length else early

unfoldable pub late_index : Bool → ℤ → ℤ
late_index early_half prompt =
    let late = if early_half then prompt else prompt +ℤ pos 1 in
    if ltb_ℤ late code_length then late else late -ℤ code_length
