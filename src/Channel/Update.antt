-- ===== src/Channel/Update.antt =====
-- The navigation update as a whole: what a call keeps and what it reports.
use gpsopen_cl.Prelude.{ℕ, ◌-◌, ◌≡◌, refl, sym, ◌∙◌, ap, true}
use gpsopen_cl.Prelude.{length-drop, ◌==◌}
use gpsopen_cl.Prelude.{Bool-cases, inl, inr}
use gpsopen_cl.Float.{Floats}
use gpsopen_cl.NavDecode.Subframe.{NavigationDecoder}
use gpsopen_cl.NavDecode.Sync.{Processed}
use gpsopen_cl.Channel.Ephemeris.{has_complete_ephemeris, iodc_low8}
use gpsopen_cl.Channel.Merge.{IsMerged, merge_subframe-IsMerged, has_complete_ephemeris-IsMerged}
use gpsopen_cl.Channel.State.{Navigation}
use gpsopen_cl.Channel.Steps.{IsAligned}
use gpsopen_cl.Channel.History.{dropped, drop_history, compact_navigation_history, Updated, accept}
use gpsopen_cl.Channel.History.{update_navigation}

module _ {F D : Type 0} where
  -- The histories are aligned, and the mask fits the accumulated ephemeris.
  pub record IsSound (nav : Navigation F D) : Type 0 where
    pub aligned : IsAligned nav
    pub merged : IsMerged nav.accumulated_ephemeris nav.seen_subframe_mask

  drop_history-IsSound : (n : ℕ) (nav : Navigation F D) → IsSound nav → IsSound (drop_history n nav)
  unfolding drop_history
  drop_history-IsSound n nav h =
      let p = length-drop n nav.prompt_history in
      let c = length-drop n nav.code_phase_history in
      let d = length-drop n nav.cumulative_drift_chips_history in
      record {
        aligned = record {
          phases = c ∙ ap (λ k. k - n) h.aligned.phases ∙ sym p;
          drifts = d ∙ ap (λ k. k - n) h.aligned.drifts ∙ sym p;
        };
        merged = h.merged;
      }

  compact-IsSound : (nav : Navigation F D) → IsSound nav → IsSound (compact_navigation_history nav)
  unfolding compact_navigation_history
  compact-IsSound nav h = elim (Bool-cases (dropped nav == 0)) [
    | inl e ↦ rw e h
    | inr e ↦ rw e (drop_history-IsSound (dropped nav) nav h)
  ]

-- A call's result is true exactly where the mask of the state after it is full; then the
-- accumulated ephemeris is of one issue of data.
pub record IsReport {F D : Type 0} (u : Updated F D) : Type 0 where
  pub sound : IsSound u.nav
  pub reported : u.complete ≡ has_complete_ephemeris u.nav.seen_subframe_mask
  pub one_issue :
      u.complete ≡ true
      → (iodc_low8 u.nav.accumulated_ephemeris ≡ u.nav.accumulated_ephemeris.iode2)
        × (u.nav.accumulated_ephemeris.iode2 ≡ u.nav.accumulated_ephemeris.iode3)

module _ {F D : Type 0} (fp : Floats F D) where
  sound-IsReport :
      (u : Updated F D)
      → IsSound u.nav
      → u.complete ≡ has_complete_ephemeris u.nav.seen_subframe_mask
      → IsReport u
  sound-IsReport u s e = record {
    sound = s;
    reported = e;
    one_issue = λ c.
        has_complete_ephemeris-IsMerged u.nav.accumulated_ephemeris u.nav.seen_subframe_mask
          s.merged (sym e ∙ c);
  }

  accept-IsReport :
      (nav : Navigation F D) (r : Processed D) → IsSound nav → IsReport (accept fp nav r)
  unfolding accept
  accept-IsReport nav r h =
      let merged =
        merge_subframe-IsMerged r.ephem nav.accumulated_ephemeris nav.seen_subframe_mask h.merged in
      elim (Bool-cases r.decoded) [
        | inl e ↦ rw e (
            sound-IsReport _
              (record {
                aligned = record { phases = h.aligned.phases; drifts = h.aligned.drifts };
                merged = merged;
              })
              refl)
        | inr e ↦ rw e (
            sound-IsReport _
              (record {
                aligned = record { phases = h.aligned.phases; drifts = h.aligned.drifts };
                merged = h.merged;
              })
              refl)
      ]

  -- From a sound state, whatever the decoder finds, a call leaves a sound state, and its result is
  -- true exactly where the mask is full, with all three subframes of one issue of data.
  pub update_navigation-IsReport :
      (sv_id : ℕ) (nav : Navigation F D) (decoder : NavigationDecoder D)
      → IsSound nav
      → IsReport (update_navigation fp sv_id nav decoder)
  unfolding update_navigation
  update_navigation-IsReport sv_id nav decoder h =
      accept-IsReport (compact_navigation_history nav) _ (compact-IsSound nav h)
