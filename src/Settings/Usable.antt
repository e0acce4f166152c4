-- ===== src/Settings/Usable.antt =====
-- What holds of a configuration whatever the file says.
use gpsopen_cl.Prelude.{
  ◌≡◌, refl, ◌∙◌, sym, Bool, true, false, not, Option, none, some, Bool-cases, inl, inr,
}
use gpsopen_cl.Prelude.{arith, ◌||◌, Option-cases}
use gpsopen_cl.Prelude.Int.{ℤ, pos, ltb_ℤ}
use gpsopen_cl.Float.{Floats}
use gpsopen_cl.Settings.{Key, AcquisitionInput, TrackingInput, Configuration, Conversions}
use gpsopen_cl.Settings.{
  apply_entry, update_source, check_doppler, update_acquisition, update_tracking,
}
use gpsopen_cl.Settings.{update_configuration_struct}

-- A property of the configuration that every accepted value keeps is kept by the entry.
apply_entry-keeps :
    {S A C : Type 0} (Q : C → Type 0) (entry : Option S) (parse : S → Option A) (accept : A → Bool)
    (write : A → C → C) (c : C)
    → ((a : A) → accept a ≡ true → Q (write a c))
    → Q c
    → Q (apply_entry entry parse accept write c)
unfolding apply_entry
apply_entry-keeps Q none parse accept write c k h = h
apply_entry-keeps Q (some s) parse accept write c k h = elim (Option-cases (parse s)) [
  | inl e ↦ rw (apply_entry, e) h
  | inr (a, e) ↦ elim (Bool-cases (accept a)) [
    | inl ok ↦ rw (apply_entry, e, ok) (k a ok)
    | inr bad ↦ rw (apply_entry, e, bad) h
  ]
]

not-true-false : (b : Bool) → not b ≡ true → b ≡ false
not-true-false b h = ground arith

-- There is a Doppler bin to search.
pub record IsSearchable {D : Type 0} (a : AcquisitionInput D) : Type 0 where
  pub step : ltb_ℤ (pos 0) a.doppler_search_range ≡ true
  pub order : ltb_ℤ a.doppler_minimum a.doppler_maximum ≡ true

-- Acquisition and tracking sample alike.
pub record IsUniform {S D : Type 0} (c : Configuration S D) : Type 0 where
  pub rate : c.acquisition_input.sampling_frequency_hz ≡ c.tracking_input.sampling_frequency_hz
  pub samples :
      c.acquisition_input.number_of_samples_per_code ≡ c.tracking_input.number_of_samples_per_code

module _ {S F D : Type 0} (fp : Floats F D) (cv : Conversions S F D) (value : Key → Option S) where
  check_doppler-IsSearchable : (a : AcquisitionInput D) → IsSearchable (check_doppler fp cv value a)
  unfolding check_doppler
  check_doppler-IsSearchable a = elim (Bool-cases (ltb_ℤ (pos 0) a.doppler_search_range)) [
    | inl e ↦ elim (Bool-cases (ltb_ℤ a.doppler_minimum a.doppler_maximum)) [
      | inl e' ↦ rw (e, e') (record { step = e; order = e' })
      | inr e' ↦ rw (e, e') (record { step = refl; order = refl })
    ]
    | inr e ↦ rw e (record { step = refl; order = refl })
  ]

  -- Whatever the configuration was and whatever the file says, the Doppler search afterwards has a
  -- positive step and a minimum below its maximum.
  pub update_acquisition-IsSearchable :
      (a : AcquisitionInput D) → IsSearchable (update_acquisition fp cv value a)
  unfolding update_acquisition
  update_acquisition-IsSearchable a =
      apply_entry-keeps IsSearchable _ _ _ _ _
        (λ d ok.
          (let kept = check_doppler-IsSearchable _ in
            record { step = kept.step; order = kept.order }))
        (check_doppler-IsSearchable _)

  -- The sampling of an input, as the acquisition and the tracking have it.
  module _ (rate : D) (samples : ℤ) where
    abbrev AcquiresAt : AcquisitionInput D → Type 0
    AcquiresAt a = (a.sampling_frequency_hz ≡ rate) × (a.number_of_samples_per_code ≡ samples)

    abbrev TracksAt : TrackingInput D → Type 0
    TracksAt t =
        (t.sampling_frequency_hz ≡ rate)
        × (t.number_of_samples_per_code ≡ samples)
        × (ltb_ℤ t.telemetry_interval_blocks (pos 1) ≡ false)

    check_doppler-AcquiresAt :
        (a : AcquisitionInput D) → AcquiresAt a → AcquiresAt (check_doppler fp cv value a)
    unfolding check_doppler
    check_doppler-AcquiresAt a h =
        elim (Bool-cases (
          not (ltb_ℤ (pos 0) a.doppler_search_range)
          || not (ltb_ℤ a.doppler_minimum a.doppler_maximum))) [ inl e ↦ rw e h | inr e ↦ rw e h ]

    update_acquisition-AcquiresAt :
        (a : AcquisitionInput D) → AcquiresAt a → AcquiresAt (update_acquisition fp cv value a)
    unfolding update_acquisition
    update_acquisition-AcquiresAt a h =
        let low = apply_entry-keeps AcquiresAt _ _ _ _ a (λ n ok. h) h in
        let high = apply_entry-keeps AcquiresAt _ _ _ _ _ (λ n ok. low) low in
        let range = apply_entry-keeps AcquiresAt _ _ _ _ _ (λ n ok. high) high in
        let checked = check_doppler-AcquiresAt _ range in
        apply_entry-keeps AcquiresAt _ _ _ _ _ (λ d ok. checked) checked

    update_tracking-TracksAt :
        (t : TrackingInput D) → TracksAt t → TracksAt (update_tracking fp cv value t)
    unfolding update_tracking
    update_tracking-TracksAt t h =
        let interval =
          apply_entry-keeps TracksAt _ _ _ _ t (λ n ok. (h.0, h.1, not-true-false _ ok)) h in
        let pll = apply_entry-keeps TracksAt _ _ _ _ _ (λ d ok. interval) interval in
        let dll = apply_entry-keeps TracksAt _ _ _ _ _ (λ d ok. pll) pll in
        let fll = apply_entry-keeps TracksAt _ _ _ _ _ (λ d ok. dll) dll in
        let rate = apply_entry-keeps TracksAt _ _ _ _ _ (λ d ok. fll) fll in
        apply_entry-keeps TracksAt _ _ _ _ _ (λ n ok. rate) rate

-- Acquisition and tracking sample alike, and the telemetry interval is at least one block.
pub record IsRunnable {S D : Type 0} (c : Configuration S D) : Type 0 where
  pub uniform : IsUniform c
  pub interval : ltb_ℤ c.tracking_input.telemetry_interval_blocks (pos 1) ≡ false

module _ {S F D : Type 0} (fp : Floats F D) (cv : Conversions S F D) (value : Key → Option S) where
  update_source-IsRunnable :
      (c : Configuration S D) → IsRunnable c → IsRunnable (update_source fp cv value c)
  unfolding update_source
  update_source-IsRunnable c h =
      let path =
        apply_entry-keeps IsRunnable _ _ _ _ c
          (λ s ok. record {
            uniform = record { rate = h.uniform.rate; samples = h.uniform.samples };
            interval = h.interval;
          })
          h in
      apply_entry-keeps IsRunnable _ _ _ _ _
        (λ f ok. record {
          uniform = record { rate = refl; samples = refl };
          interval = path.interval;
        })
        path

  -- Whatever the file says, a configuration in which acquisition and tracking sample alike and the
  -- telemetry interval is at least one block is so afterwards.
  pub update_configuration_struct-IsRunnable :
      (c : Configuration S D)
      → IsRunnable c
      → IsRunnable (update_configuration_struct fp cv value c)
  unfolding update_configuration_struct
  update_configuration_struct-IsRunnable c h =
      let source = update_source fp cv value c in
      let kept = update_source-IsRunnable c h in
      let rate = source.tracking_input.sampling_frequency_hz in
      let samples = source.tracking_input.number_of_samples_per_code in
      let acquires =
        update_acquisition-AcquiresAt fp cv value rate samples source.acquisition_input
          (kept.uniform.rate, kept.uniform.samples) in
      let tracks =
        update_tracking-TracksAt fp cv value rate samples source.tracking_input
          (refl, refl, kept.interval) in
      record {
        uniform = record { rate = acquires.0 ∙ sym tracks.0; samples = acquires.1 ∙ sym tracks.1 };
        interval = tracks.2;
      }
