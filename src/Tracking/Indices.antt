-- ===== src/Tracking/Indices.antt =====
-- No chip index leaves the code, and early and late are neighbours.
use gpsopen_cl.Prelude.{
  ℕ, zero, suc, ◌+◌, ◌*◌, ◌%◌, ◌<◌, ◌≤◌, ◌≡◌, refl, ◌⊎◌, inl, inr, Bool, true, false, Bool-cases,
}
use gpsopen_cl.Prelude.{arith, if◌then◌else◌}
use gpsopen_cl.Prelude.Int.{
  ℤ, pos, negsuc, pos_part, neg_part, ltb_ℤ, ◌+ℤ◌, ◌-ℤ◌, +ℤ_parts, -ℤ_parts, eq_of_parts,
}
use gpsopen_cl.Tracking.Chips.{
  code_length, count_down, count_up, prompt_index, early_index, late_index,
}

-- The same chip: the difference is a number `k` of whole codes, up or down.
abbrev pub IsRound : ℤ → ℤ → ℕ → Type 0
IsRound i j k =
    (pos_part i + neg_part j ≡ pos_part j + neg_part i + 1023 * k)
    ⊎ (pos_part j + neg_part i ≡ pos_part i + neg_part j + 1023 * k)

one_part : (i : ℤ) → (pos_part i ≡ 0) ⊎ (neg_part i ≡ 0)
one_part (pos n) = inr refl
one_part (negsuc n) = inl refl

count_down_lem :
    (fuel : ℕ) (i : ℤ)
    → pos_part i ≤ fuel
    → (k : ℕ) × (pos_part (count_down fuel i) < 1023)
      × (pos_part i + neg_part (count_down fuel i)
          ≡ pos_part (count_down fuel i) + neg_part i + 1023 * k)
unfolding count_down
count_down_lem zero i h = (0, omega arith, omega arith)
count_down_lem (suc fuel) i h =
    let next = i -ℤ code_length in
    elim (Bool-cases (ltb_ℤ i code_length)) [
      | inl e ↦ rw (count_down, e) (0, ground (arith, one_part i), omega arith)
      | inr e ↦
          let big : 1023 + neg_part i ≤ pos_part i = ground arith in
          let parts = -ℤ_parts i code_length in
          let fits : pos_part next ≤ fuel = ground (arith, one_part next, one_part i) in
          let (k, small, round) = count_down_lem fuel next fits in
          rw (count_down, e) (suc k, small, omega arith)
    ]

count_up_lem :
    (fuel : ℕ) (i : ℤ)
    → neg_part i ≤ fuel
    → pos_part i < 1023
    → (k : ℕ) × (neg_part (count_up fuel i) ≡ 0)
      × (pos_part (count_up fuel i) < 1023)
      × (pos_part (count_up fuel i) + neg_part i
          ≡ pos_part i + neg_part (count_up fuel i) + 1023 * k)
unfolding count_up
count_up_lem zero i h small = (0, omega arith, small, omega arith)
count_up_lem (suc fuel) i h small =
    let next = i +ℤ code_length in
    elim (Bool-cases (ltb_ℤ i (pos 0))) [
      | inr e ↦ rw (count_up, e) (0, ground (arith, one_part i), small, omega arith)
      | inl e ↦
          let below : pos_part i < neg_part i = ground arith in
          let parts = +ℤ_parts i code_length in
          let fits : neg_part next ≤ fuel = ground (arith, one_part next, one_part i) in
          let low : pos_part next < 1023 = ground (arith, one_part next, one_part i) in
          let (k, zero_part, bound, round) = count_up_lem fuel next fits low in
          rw (count_up, e) (suc k, zero_part, bound, omega arith)
    ]

sub_one : (n : ℕ) → pos (suc n) -ℤ pos 1 ≡ pos n
sub_one n =
    eq_of_parts (pos (suc n) -ℤ pos 1) (pos n) (omega (arith, -ℤ_parts (pos (suc n)) (pos 1)))

early_lem :
    (early_half : Bool) (n : ℕ)
    → n < 1023
    → early_index early_half (pos n) ≡ pos (if early_half then (n + 1022) % 1023 else n)
unfolding early_index ◌-ℤ◌ ◌+ℤ◌
early_lem true zero h = refl
early_lem true (suc n) h = ground (arith, sub_one n)
early_lem false n h = ground arith

late_lem :
    (early_half : Bool) (n : ℕ)
    → n < 1023
    → late_index early_half (pos n) ≡ pos (if early_half then n else (n + 1) % 1023)
unfolding late_index ◌-ℤ◌ ◌+ℤ◌
late_lem true n h = ground arith
late_lem false n h = ground arith

-- The prompt index lies in the code and is whole codes off the chip of the phase.
prompt_lem :
    (raw : ℤ)
    → (n down up : ℕ) × (prompt_index raw ≡ pos n)
      × (n < 1023)
      × (pos_part raw + 1023 * up ≡ n + neg_part raw + 1023 * down)
unfolding prompt_index
prompt_lem raw =
    let low = count_down (pos_part raw) raw in
    let high = count_up (neg_part low) low in
    let (k, small, round) = count_down_lem (pos_part raw) raw (omega arith) in
    let (j, positive, bound, back) = count_up_lem (neg_part low) low (omega arith) small in
    (pos_part high, k, j, eq_of_parts high (pos (pos_part high)) (omega arith), bound, omega arith)

-- Whatever the phase, the prompt, the early and the late index lie in the code, the prompt one is
-- whole codes off the chip of the phase, late is the chip after early, and one of the two is prompt.
pub chip_indices :
    (raw : ℤ) (early_half : Bool)
    → (n e l down up : ℕ) × (prompt_index raw ≡ pos n)
      × (early_index early_half (prompt_index raw) ≡ pos e)
      × (late_index early_half (prompt_index raw) ≡ pos l)
      × (n < 1023)
      × (e < 1023)
      × (pos_part raw + 1023 * up ≡ n + neg_part raw + 1023 * down)
      × (l ≡ (e + 1) % 1023)
      × ((e ≡ n) ⊎ (l ≡ n))
chip_indices raw true =
    let (n, down, up, here, small, round) = prompt_lem raw in
    let early : early_index true (prompt_index raw) ≡ pos ((n + 1022) % 1023) =
      rw here (early_lem true n small) in
    let late : late_index true (prompt_index raw) ≡ pos n = rw here (late_lem true n small) in
    (
      n,
      (n + 1022) % 1023,
      n,
      down,
      up,
      here,
      early,
      late,
      small,
      omega arith,
      round,
      omega arith,
      inr refl,
    )
chip_indices raw false =
    let (n, down, up, here, small, round) = prompt_lem raw in
    let early : early_index false (prompt_index raw) ≡ pos n = rw here (early_lem false n small) in
    let late : late_index false (prompt_index raw) ≡ pos ((n + 1) % 1023) =
      rw here (late_lem false n small) in
    (n, n, (n + 1) % 1023, down, up, here, early, late, small, small, round, refl, inl refl)
