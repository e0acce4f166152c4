-- ===== src/Acquisition/Tests.antt =====
-- A search of three bins over four samples, on integers.
use gpsopen_cl.Prelude.{ℕ, ◌+◌, ◌-◌, ◌*◌, ◌<◌, ◌≤◌, ◌≡◌, refl, true, false, max, none, some, arith}
use gpsopen_cl.Prelude.{List, [], ◌∷◌, get_elem?, AllOf}
use gpsopen_cl.Prelude.Int.{ℤ, pos, negsuc, ltb_ℤ, ◌-ℤ◌, -ℤ_parts, eq_of_parts}
use gpsopen_cl.Float.{ints}
use gpsopen_cl.Channel.Metrics.{Metrics}
use gpsopen_cl.Acquisition.{compute_number_of_frequency_bins, compute_reuse_factor, slot_shift}
use gpsopen_cl.Acquisition.{Gpu, Acquisition, at_first, scan_bin, fill_slots}
use gpsopen_cl.Acquisition.{accumulate_single, accumulate_batch}
use gpsopen_cl.Acquisition.Bins.{compute_number_of_frequency_bins_cover, compute_reuse_factor_slots}
use gpsopen_cl.Acquisition.Peak.{IsOrder, scan_bin_peak}
use gpsopen_cl.Acquisition.Batch.{joined, accumulate_batch_agrees}
use gpsopen_cl.Prelude.{◌⊎◌, ◌^◌}

compute_number_of_frequency_bins_cover_example :
    ((8100 + 500 < 2 ^ 31)
      × (n : ℕ) × (compute_number_of_frequency_bins (negsuc 3999) (pos 4100) (pos 500) ≡ some n)
      × (8100 ≤ (n - 1) * 500)
      × ((n - 1) * 500 < 8100 + 500))
    ⊎ ((2 ^ 31 ≤ 8100 + 500)
        × (compute_number_of_frequency_bins (negsuc 3999) (pos 4100) (pos 500) ≡ none))
compute_number_of_frequency_bins_cover_example =
    compute_number_of_frequency_bins_cover (negsuc 3999) (pos 4100) 8100 500 span (omega arith)
      (omega arith)
  where
    span : pos 4100 -ℤ negsuc 3999 ≡ pos 8100
    span = eq_of_parts _ _ (omega (arith, -ℤ_parts (pos 4100) (negsuc 3999)))

-- Settings that are accepted, with a span of 4000000000.
bins_overflow :
    compute_number_of_frequency_bins (negsuc 1999999999) (pos 2000000000) (pos 500) ≡ none
unfolding compute_number_of_frequency_bins ◌-ℤ◌
bins_overflow = refl

compute_reuse_factor_slots_example :
    (let r = compute_reuse_factor ints (λ x. x) (pos 0) 17 4000 (pos 500) (pos 4000000) in
      let (slot, shift) = slot_shift r 13 in
      (1 ≤ r) × (r ≤ max 17 1) × (slot < r) × (shift * r + slot ≡ 13))
compute_reuse_factor_slots_example =
    compute_reuse_factor_slots ints (λ x. x) (pos 0) 17 4000 (pos 500) (pos 4000000) 13

integers-IsOrder : IsOrder ltb_ℤ
integers-IsOrder = record {
  irreflexive = λ a. ground arith;
  transitive = λ a b c h k. ground arith;
}

abbrev values : List ℤ
values = pos 5 ∷ pos 9 ∷ pos 9 ∷ []

scan_bin_peak_example :
    (let (sum, top, at) = scan_bin ints (pos 2 ∷ values) in
      (get_elem? (pos 2 ∷ values) at ≡ some top)
      × AllOf (λ x. ltb_ℤ top x ≡ false) (pos 2 ∷ values))
scan_bin_peak_example = scan_bin_peak ints integers-IsOrder (pos 2) values

abbrev acquisition : Acquisition ℤ
acquisition = record {
  doppler_search = ((pos 1, pos 0) ∷ []) ∷ [];
  number_of_frequency_bins = 2;
  initial_frequency_hz = negsuc 499;
  freq_spacing_hz = pos 500;
  samples = 2;
  reuse_factor = 1;
}

-- The row of a bin repeats its shift.
abbrev row : ℕ × ℕ → List ℤ
row p = pos (p.1) ∷ pos 7 ∷ []

abbrev pairs : List (ℕ × ℕ)
pairs = (0, 0) ∷ (0, 1) ∷ []

-- An engine whose forward transforms fail.
abbrev gpu : Gpu ℕ ℤ
gpu = record {
  invalidate = λ s. s;
  to_slot = λ input replica r s. (false, s);
  batch = λ code ps s. (true, joined row ps, s);
  single = λ code p s. (true, row p, s);
}

accumulate_batch_agrees_example :
    accumulate_single ints gpu acquisition [] pairs (pos 0) 3 (at_first ints gpu acquisition) ≡ (
      true,
      accumulate_batch ints acquisition 2
          (joined row pairs)
          (pos 0)
          (at_first ints gpu acquisition),
      3,
    )
accumulate_batch_agrees_example =
    accumulate_batch_agrees ints gpu acquisition [] row pairs (pos 0) 3
      (at_first ints gpu acquisition) (omega arith) (refl, (refl, tt)) (refl, (refl, tt))

abbrev stale : Metrics ℤ
stale = record {
  peak_index = pos 3;
  peak_value = pos 4;
  peak_frequency_hz = pos 500;
  mean_value = pos 1;
  cn0 = pos 45;
  peak_ratio = pos 4;
}

no_slots : (fill_slots ints gpu [] acquisition.doppler_search 0 3).0 ≡ false
unfolding fill_slots
no_slots = refl
