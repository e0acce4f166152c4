-- ===== src/Tracking/PullIn.antt =====
-- What the pull-in leaves to the phase loop, and what every block leaves.
use gpsopen_cl.Prelude.{ℕ, ◌+◌, ◌≤◌, ◌≡◌, refl, ◌∙◌, ap, true, false, List, [], ◌∷◌, length}
use gpsopen_cl.Prelude.{if_intro, arith, if◌then◌else◌}
use gpsopen_cl.Prelude.Int.{pos, ltb_ℤ}
use gpsopen_cl.Float.{Floats}
use gpsopen_cl.Maths.{Maths}
use gpsopen_cl.Tracking.{Gains, Tracking}
use gpsopen_cl.Tracking.Correlator.{correlator}
use gpsopen_cl.Tracking.Loop.{fll_discriminator, is_prompt_signal_reliable, init_tracking_state}
use gpsopen_cl.Tracking.Loop.{reset_accumulation, rate_aid_discriminator}
use gpsopen_cl.Tracking.Work.{
  code_discriminator, update_lock_indicators, pull_in, carrier_loop, do_work,
}

-- The phase loop of two states is the same, and so are basis and block count.
record SameLoop {F : Type 0} (t t' : Tracking F) : Type 0 where
  pub nco : t'.carr_nco ≡ t.carr_nco
  pub basis : t'.carr_freq_basis_hz ≡ t.carr_freq_basis_hz
  pub blocks : t'.blocks_since_init ≡ t.blocks_since_init

module _ {F D : Type 0} ⦃m : Maths D⦄ (fp : Floats F D) (gains : Gains F D) where
  correlator-SameLoop :
      (input : List (F × F)) (prn : ℕ) (t : Tracking F)
      → SameLoop t (correlator fp gains input prn t)
  unfolding correlator
  correlator-SameLoop input prn t =
      if_intro (SameLoop t) (fp.le_f (fp.narrow gains.sampling_frequency_hz) fp.zero_f) t _
        (λ e. record { nco = refl; basis = refl; blocks = refl })
        (λ e. record { nco = refl; basis = refl; blocks = refl })

  reliable-SameLoop : (t : Tracking F) → SameLoop t (is_prompt_signal_reliable fp t).1
  unfolding is_prompt_signal_reliable
  reliable-SameLoop t =
      if_intro (SameLoop t) (is_prompt_signal_reliable fp t).0 _ t
        (λ e. record { nco = refl; basis = refl; blocks = refl })
        (λ e. record { nco = refl; basis = refl; blocks = refl })

  -- The phase loop is left alone, and the frequency is that of the basis and the frequency loop.
  abbrev IsPulled : Tracking F → Tracking F → Type 0
  IsPulled t t' = SameLoop t t' × (t'.carr_freq_hz ≡ fp.add_f t'.carr_freq_basis_hz t'.fll_nco)

  pull_in-IsPulled : (t : Tracking F) → IsPulled t (pull_in fp gains t)
  unfolding pull_in fll_discriminator
  pull_in-IsPulled t =
      let h = reliable-SameLoop t in
      if_intro (IsPulled t) (is_prompt_signal_reliable fp t).0 _ _
        (λ e. (record { nco = h.nco; basis = h.basis; blocks = h.blocks }, refl))
        (λ e. (record { nco = h.nco; basis = h.basis; blocks = h.blocks }, refl))

  carrier_loop-IsPulled :
      (t : Tracking F)
      → ltb_ℤ (pos t.blocks_since_init) gains.fll_pull_in_blocks ≡ true
      → IsPulled t (carrier_loop fp gains t)
  unfolding carrier_loop
  carrier_loop-IsPulled t h = rw (carrier_loop, h) (pull_in-IsPulled t)

  -- A block of the pull-in.
  work_pulled :
      (input : List (F × F)) (prn state : ℕ) (t : Tracking F)
      → ltb_ℤ (pos t.blocks_since_init) gains.fll_pull_in_blocks ≡ true
      → (let after = (do_work fp gains input prn state t).0 in
          (after.carr_nco ≡ t.carr_nco)
          × (after.carr_freq_basis_hz ≡ t.carr_freq_basis_hz)
          × (after.blocks_since_init ≡ t.blocks_since_init + 1)
          × (after.carr_freq_hz ≡ fp.add_f after.carr_freq_basis_hz after.fll_nco))
  unfolding do_work code_discriminator update_lock_indicators reset_accumulation
  work_pulled input prn state t h =
      let start = record t { last_channel_state = state } in
      let c = correlator-SameLoop input prn start in
      let early : ltb_ℤ (pos (correlator fp gains input prn start).blocks_since_init)
            gains.fll_pull_in_blocks
          ≡ true =
        rw c.blocks h in
      let (p, frequency) = carrier_loop-IsPulled (correlator fp gains input prn start) early in
      (p.nco ∙ c.nco, p.basis ∙ c.basis, ap (λ n. n + 1) (p.blocks ∙ c.blocks), frequency)

  -- The blocks of a list, one after the other, each with its input and the state of the channel.
  unfoldable pub run : ℕ → List (List (F × F) × ℕ) → Tracking F → Tracking F
  run prn [] t = t
  run prn ((input, state) ∷ blocks) t = run prn blocks (do_work fp gains input prn state t).0

  run_pulled :
      (prn p : ℕ) (blocks : List (List (F × F) × ℕ)) (t : Tracking F)
      → gains.fll_pull_in_blocks ≡ pos p
      → t.blocks_since_init + length blocks ≤ p
      → ((run prn blocks t).carr_nco ≡ t.carr_nco)
        × ((run prn blocks t).carr_freq_basis_hz ≡ t.carr_freq_basis_hz)
        × ((run prn blocks t).blocks_since_init ≡ t.blocks_since_init + length blocks)
  unfolding run
  run_pulled prn p [] t e h = (refl, refl, omega arith)
  run_pulled prn p ((input, state) ∷ blocks) t e h =
      let early : ltb_ℤ (pos t.blocks_since_init) gains.fll_pull_in_blocks ≡ true =
        rw e (ground arith) in
      let next = (do_work fp gains input prn state t).0 in
      let (nco, basis, count, frequency) = work_pulled input prn state t early in
      let (nco', basis', count') = run_pulled prn p blocks next e (omega arith) in
      (nco' ∙ nco, basis' ∙ basis, omega arith)

  -- From an initialisation on, as long as the pull-in lasts, every block counts, the frequency of the
  -- acquisition stays the basis and the phase loop puts nothing out.
  pub run_pull_in :
      (doppler code_phase : F) (prn p : ℕ) (blocks : List (List (F × F) × ℕ)) (t : Tracking F)
      → gains.fll_pull_in_blocks ≡ pos p
      → length blocks ≤ p
      → (let after = run prn blocks (init_tracking_state fp gains doppler code_phase t) in
          (after.carr_nco ≡ fp.zero_f)
          × (after.carr_freq_basis_hz ≡ doppler)
          × (after.blocks_since_init ≡ length blocks))
  unfolding init_tracking_state reset_accumulation
  run_pull_in doppler code_phase prn p blocks t e h =
      let start = init_tracking_state fp gains doppler code_phase t in
      let (nco, basis, count) = run_pulled prn p blocks start e (omega arith) in
      (nco, basis, omega arith)

  -- The rate aiding keeps the carrier's basis within 15 kHz either way, where `<` is irreflexive and
  -- 15000 is not below -15000.
  pub rate_aid_discriminator_bounds :
      (t : Tracking F)
      → ((a : F) → fp.lt_f a a ≡ false)
      → fp.lt_f (fp.of_int_f (pos 15000)) (fp.neg_f (fp.of_int_f (pos 15000))) ≡ false
      → (let basis = (rate_aid_discriminator fp gains t).carr_freq_basis_hz in
          (fp.lt_f basis (fp.neg_f (fp.of_int_f (pos 15000))) ≡ false)
          × (fp.lt_f (fp.of_int_f (pos 15000)) basis ≡ false))
  unfolding rate_aid_discriminator
  rate_aid_discriminator_bounds t irreflexive apart =
      let hi = fp.of_int_f (pos 15000) in
      let lo = fp.neg_f hi in
      let v = fp.add_f t.carr_freq_basis_hz (fp.mul_f gains.rate_aid_gain t.carr_nco) in
      let inside : F → Type 0 = λ b. (fp.lt_f b lo ≡ false) × (fp.lt_f hi b ≡ false) in
      if_intro inside (fp.lt_f v lo) lo (if fp.lt_f hi v then hi else v)
        (λ e. (irreflexive lo, apart))
        (λ e. if_intro inside (fp.lt_f hi v) hi v (λ f. (apart, irreflexive hi)) (λ f. (e, f)))
