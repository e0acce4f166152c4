-- ===== src/Acquisition/Bins.antt =====
-- The Doppler bins cover the search span, and each has a reference spectrum.
use gpsopen_cl.Prelude.{ℕ, zero, suc, ◌+◌, ◌-◌, ◌*◌, ◌/◌, ◌%◌, ◌<◌, ◌≤◌, ◌≡◌, ◌||◌}
use gpsopen_cl.Prelude.{max, ltb, ◌==◌, if_intro, arith, ◌^◌, true, some, lt→ltb, refl}
use gpsopen_cl.Prelude.Int.{ℤ, pos, negsuc, ◌-ℤ◌}
use native.Mathlib.Nat.{div-mul-le_self, lt-div-mul-add, mod-lt, div-add-mod'}
use gpsopen_cl.Prelude.{◌⊎◌, inl, inr, Bool-cases, false, none}
use gpsopen_cl.Float.{Floats}
use gpsopen_cl.Acquisition.{bins_of, compute_number_of_frequency_bins, slot_shift}
use gpsopen_cl.Acquisition.{compute_reuse_factor, exact_factor}

-- The number of bins, where it is known, covers the span.
abbrev Covers : ℕ → ℕ → ℕ → Type 0
Covers span step n = (span ≤ (n - 1) * step) × ((n - 1) * step < span + step)

bins_of_cover :
    (span step : ℕ)
    → 0 < span
    → 0 < step
    → span + step < 2 ^ 31
    → (n : ℕ) × (bins_of (pos span) (pos step) ≡ some n) × Covers span step n
bins_of_cover zero step h k fits = absurd (omega arith)
bins_of_cover (suc span) zero h k fits = absurd (omega arith)
bins_of_cover (suc span) (suc step) h k fits =
    let q = (suc span + step) / suc step in
    let back : q + 1 - 1 ≡ q = omega arith in
    let low = div-mul-le_self (suc span + step) (suc step) in
    let high = lt-div-mul-add {a = suc span + step} {b = suc step} (omega arith) in
    let known : ltb (suc span + suc step) (2 ^ 31) ≡ true = lt→ltb _ _ fits in
    (q + 1, rw known refl, rw back (omega arith, omega arith))

overflow_none :
    (span step : ℕ)
    → 0 < span
    → 0 < step
    → 2 ^ 31 ≤ span + step
    → bins_of (pos span) (pos step) ≡ none
overflow_none zero step h k over = absurd (omega arith)
overflow_none (suc span) zero h k over = absurd (omega arith)
overflow_none (suc span) (suc step) h k over =
    let above : ltb (suc span + suc step) (2 ^ 31) ≡ false = ground arith in rw above refl

-- Where span and step are positive, the number of bins is known exactly where the two are together below
-- 2 ^ 31, as an `int` overflows otherwise. From the minimum up in steps, the last bin then reaches the
-- maximum, and the one before does not.
pub compute_number_of_frequency_bins_cover :
    (minimum maximum : ℤ) (span step : ℕ)
    → maximum -ℤ minimum ≡ pos span
    → 0 < span
    → 0 < step
    → ((span + step < 2 ^ 31)
        × (n : ℕ) × (compute_number_of_frequency_bins minimum maximum (pos step) ≡ some n)
        × (span ≤ (n - 1) * step)
        × ((n - 1) * step < span + step))
      ⊎ ((2 ^ 31 ≤ span + step)
          × (compute_number_of_frequency_bins minimum maximum (pos step) ≡ none))
unfolding compute_number_of_frequency_bins
compute_number_of_frequency_bins_cover minimum maximum span step e h k =
    elim (Bool-cases (ltb (span + step) (2 ^ 31))) [
      | inl f ↦
          let fits : span + step < 2 ^ 31 = ground arith in
          let small : ltb span (2 ^ 31) ≡ true = lt→ltb _ _ (omega arith) in
          let (n, known, cover) = bins_of_cover span step h k fits in
          inl (fits, n, rw (e, small) known, cover.0, cover.1)
      | inr f ↦
          let over : 2 ^ 31 ≤ span + step = ground arith in
          inr (
            over,
            rw e (
                if_intro (λ o. o ≡ none) (ltb span (2 ^ 31)) _ none
                  (λ g. overflow_none span step h k over) (λ g. refl)),
          )
    ]

module _ {F D : Type 0} (fp : Floats F D) (nearest : F → ℤ) (tolerance : F) where
  exact_factor-IsFactor :
      (bins : ℕ) (ratio : F) (rounded : ℤ)
      → (1 ≤ exact_factor fp tolerance bins ratio rounded)
        × (exact_factor fp tolerance bins ratio rounded ≤ max bins 1)
  unfolding exact_factor
  exact_factor-IsFactor bins ratio (negsuc n) = (omega arith, omega arith)
  exact_factor-IsFactor bins ratio (pos n) =
      let far = fp.lt_f tolerance (fp.abs_f (fp.sub_f ratio (fp.of_int_f (pos n)))) in
      if_intro (λ r. (1 ≤ r) × (r ≤ max bins 1)) (ltb n 1 || ltb bins n || far) (max bins 1) n
        (λ e. (omega arith, omega arith)) (λ e. ground arith)

  -- The reuse factor lies between 1 and the number of bins (1 if there is none), and every bin
  -- finds its reference among as many slots, from which its shift leads back to the bin.
  pub compute_reuse_factor_slots :
      (bins samples : ℕ) (spacing sampling : F) (bin : ℕ)
      → (let r = compute_reuse_factor fp nearest tolerance bins samples spacing sampling in
          let (slot, shift) = slot_shift r bin in
          (1 ≤ r) × (r ≤ max bins 1) × (slot < r) × (shift * r + slot ≡ bin))
  unfolding compute_reuse_factor slot_shift
  compute_reuse_factor_slots bins samples spacing sampling bin =
      let ratio = fp.div_f (fp.div_f sampling (fp.of_int_f (pos samples))) spacing in
      let degenerate = (samples == 0) || fp.le_f spacing fp.zero_f || fp.le_f sampling fp.zero_f in
      if_intro (λ r. (1 ≤ r) × (r ≤ max bins 1) × (bin % r < r) × (bin / r * r + bin % r ≡ bin))
        degenerate (max bins 1) (exact_factor fp tolerance bins ratio (nearest ratio))
        (λ e. (omega arith, omega arith, mod-lt bin (omega arith), div-add-mod' bin (max bins 1)))
        (λ e.
          let (low, high) = exact_factor-IsFactor bins ratio (nearest ratio) in
          (low, high, mod-lt bin low, div-add-mod' bin _))
