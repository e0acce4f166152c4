-- ===== src/Acquisition/Peak.antt =====
-- The peak of a bin is its largest value, and the peak found is the largest over all bins.
use gpsopen_cl.Prelude.{ℕ, suc, ◌+◌, ◌≡◌, refl, sym, ap, ◌⊎◌, inl, inr, Bool, true, false}
use gpsopen_cl.Prelude.{some, List, [], ◌∷◌, get_elem?, Bool-cases, if_intro, arith, AllOf}
use gpsopen_cl.Float.{Floats}
use gpsopen_cl.Acquisition.{scan, scan_bin}

-- `<` of floating point is irreflexive and transitive, not-a-number included.
pub record IsOrder {F : Type 0} (lt : F → F → Bool) : Type 0 where
  pub irreflexive : (a : F) → lt a a ≡ false
  pub transitive : (a b c : F) → lt a b ≡ true → lt b c ≡ true → lt a c ≡ true

module _ {F D : Type 0} (fp : Floats F D) (order : IsOrder fp.lt_f) where
  open fp use {lt_f, zero_f, add_f}

  -- No value above a smaller bound than the top is above the top.
  not_above :
      (best top v : F)
      → lt_f best v ≡ false
      → (top ≡ best) ⊎ (lt_f best top ≡ true)
      → lt_f top v ≡ false
  not_above best top v h (inl e) = rw e h
  not_above best top v h (inr k) = elim (Bool-cases (lt_f top v)) [
    | inl f ↦ let through = order.transitive best top v k f in absurd cc
    | inr f ↦ f
  ]

  -- What a scan finds: the value it started with, or a larger one of the list at the index given.
  abbrev IsFound : List F → ℕ → F → ℕ → F × F × ℕ → Type 0
  IsFound vs i best index (sum, top, at) =
      AllOf (λ v. lt_f top v ≡ false) vs
      × (((top ≡ best) × (at ≡ index))
          ⊎ ((lt_f best top ≡ true) × ((k : ℕ) × (at ≡ i + k) × (get_elem? vs k ≡ some top))))

  grown :
      (vs : List F) (v : F) (i : ℕ) (best : F) (index : ℕ) (found : F × F × ℕ)
      → lt_f best v ≡ true
      → IsFound vs (suc i) v i found
      → IsFound (v ∷ vs) i best index found
  grown vs v i best index (sum, top, at) h (all, inl (same, here)) =
      ((rw same (order.irreflexive v), all), inr (rw same h, (0, omega arith, rw same refl)))
  grown vs v i best index (sum, top, at) h (all, inr (above, (k, there, value))) =
      let through = order.transitive best v top h above in
      let below : lt_f top v ≡ false = elim (Bool-cases (lt_f top v)) [
        | inl f ↦
            let round = order.transitive v top v above f in
            let never = order.irreflexive v in absurd cc
        | inr f ↦ f
      ] in
      ((below, all), inr (through, (suc k, omega arith, value)))

  kept :
      (vs : List F) (v : F) (i : ℕ) (best : F) (index : ℕ) (found : F × F × ℕ)
      → lt_f best v ≡ false
      → IsFound vs (suc i) best index found
      → IsFound (v ∷ vs) i best index found
  kept vs v i best index (sum, top, at) h (all, inl (same, here)) =
      ((rw same h, all), inl (same, here))
  kept vs v i best index (sum, top, at) h (all, inr (above, (k, there, value))) =
      ((not_above best top v h (inr above), all), inr (above, (suc k, omega arith, value)))

  scan-IsFound :
      (vs : List F) (i : ℕ) (sum best : F) (index : ℕ)
      → IsFound vs i best index (scan fp vs i sum best index)
  unfolding scan
  scan-IsFound [] i sum best index = (tt, inl (refl, refl))
  scan-IsFound (v ∷ vs) i sum best index =
      if_intro (IsFound (v ∷ vs) i best index) (lt_f best v) _ _
        (λ e.
          grown vs v i best index (scan fp vs (suc i) (add_f sum v) v i) e
            (scan-IsFound vs (suc i) (add_f sum v) v i))
        (λ e.
          kept vs v i best index (scan fp vs (suc i) (add_f sum v) best index) e
            (scan-IsFound vs (suc i) (add_f sum v) best index))

  -- The peak of a bin is the value at its index, and no value of the bin is above it.
  pub scan_bin_peak :
      (v : F) (vs : List F)
      → (let (sum, top, at) = scan_bin fp (v ∷ vs) in
          (get_elem? (v ∷ vs) at ≡ some top) × AllOf (λ x. lt_f top x ≡ false) (v ∷ vs))
  unfolding scan_bin
  scan_bin_peak v vs =
      let (all, place) = scan-IsFound (v ∷ vs) 0 zero_f v 0 in
      elim place [
        | inl (same, here) ↦ (rw here (ap some (sym same)), all)
        | inr (above, (k, there, value)) ↦
            let at : 0 + k ≡ k = omega arith in (rw (there, at) value, all)
      ]
