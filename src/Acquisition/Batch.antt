-- ===== src/Acquisition/Batch.antt =====
-- The batch and the bins one by one find the same, and a failed transform finds nothing.
use gpsopen_cl.Prelude.{ℕ, ◌<◌, ◌≡◌, refl, ap, sym, ◌∙◌, true, false}
use gpsopen_cl.Prelude.{List, [], ◌∷◌, ◌++◌, length, take, drop, ◌==◌}
use gpsopen_cl.Prelude.{AllOf, arith}
use gpsopen_cl.Float.{Floats}
use gpsopen_cl.Channel.Metrics.{Metrics, reset_acquisition_metrics}
use gpsopen_cl.Acquisition.{Gpu, Acquisition, Best, accumulate_bin, accumulate_batch}
use gpsopen_cl.Acquisition.{accumulate_single, fill_slots, correlate}

-- The rows one after the other.
abbrev pub joined : {A P : Type 0} → (P → List A) → List P → List A
joined row [] = []
joined row (p ∷ ps) = row p ++ joined row ps

module _ {A : Type 0} where
  take_joined : (xs ys : List A) → take (length xs) (xs ++ ys) ≡ xs
  take_joined [] ys = refl
  take_joined (x ∷ xs) ys = ap (λ l. x ∷ l) (take_joined xs ys)

  drop_joined : (xs ys : List A) → drop (length xs) (xs ++ ys) ≡ ys
  drop_joined [] ys = refl
  drop_joined (x ∷ xs) ys = drop_joined xs ys

module _ {F D S : Type 0} (fp : Floats F D) (gpu : Gpu S F) where
  -- Where the batch returns the rows of the single calls, one after the other, each of as many
  -- samples as the code has, at least one, both ways over the bins give the same best peak.
  pub accumulate_batch_agrees :
      (acq : Acquisition F) (code : List (F × F)) (row : ℕ × ℕ → List F) (pairs : List (ℕ × ℕ))
      → (frequency : F) (s : S) (b : Best F) → 0 < acq.samples
      → AllOf (λ p. length (row p) ≡ acq.samples) pairs
      → AllOf (λ p. gpu.single code p s ≡ (true, row p, s)) pairs
      → accumulate_single fp gpu acq code pairs frequency s b
        ≡ (true, accumulate_batch fp acq (length pairs) (joined row pairs) frequency b, s)
  unfolding accumulate_single accumulate_batch
  accumulate_batch_agrees acq code row [] frequency s b h len calls = refl
  accumulate_batch_agrees acq code row (p ∷ ps) frequency s b h (l, len) (c, calls) =
      let next = accumulate_bin fp acq.number_of_frequency_bins (row p) frequency b in
      let rest =
        accumulate_batch_agrees acq code row ps (fp.add_f frequency acq.freq_spacing_hz) s next h
          len calls in
      let some_values : (length (row p) == 0) ≡ false = ground arith in
      let front : take acq.samples (row p ++ joined row ps) ≡ row p =
        ap (λ n. take n (row p ++ joined row ps)) (sym l) ∙ take_joined (row p) (joined row ps) in
      let back : drop acq.samples (row p ++ joined row ps) ≡ joined row ps =
        ap (λ n. drop n (row p ++ joined row ps)) (sym l) ∙ drop_joined (row p) (joined row ps) in
      rw (accumulate_single, accumulate_batch, c, some_values, front, back) rest

  -- Where a forward transform fails, the metrics of the channel are those of a reset, and no bin is
  -- searched.
  pub correlate_fails :
      (logarithm : F → F) (gain : F) (acq : Acquisition F) (input code : List (F × F)) (s : S)
      → (metrics : Metrics F)
      → (fill_slots fp gpu input acq.doppler_search 0 (gpu.invalidate s)).0 ≡ false
      → correlate fp gpu logarithm gain acq input code s metrics ≡ (
        reset_acquisition_metrics fp logarithm gain metrics,
        (fill_slots fp gpu input acq.doppler_search 0 (gpu.invalidate s)).1,
      )
  unfolding correlate
  correlate_fails logarithm gain acq input code s metrics h = rw (correlate, h) refl
