-- ===== src/Pvt/Ranges.antt =====
-- Which channels the measurements come from, and that the lists belong together.
use gpsopen_cl.Prelude.{suc, ◌+◌, ◌≡◌, refl, ap, sym, ◌∙◌, Bool, true, false, not, ◌||◌, ltb, ◌==◌}
use gpsopen_cl.Prelude.{
  Option, none, some, inl, inr, Bool-cases, Option-cases, if◌then◌else◌, arith,
}
use gpsopen_cl.Prelude.{List, [], ◌∷◌, ◌++◌, length, map, length-map, length-append, AllOf}
use gpsopen_cl.Float.{Floats}
use gpsopen_cl.Maths.{Maths}
use gpsopen_cl.NavDecode.Subframe.{GpsEphemeris}
use gpsopen_cl.Channel.Ephemeris.{has_complete_ephemeris, iodc_low8}
use gpsopen_cl.Channel.Merge.{IsMerged, has_complete_ephemeris-IsMerged}
use gpsopen_cl.Channel.State.{Channel, is_tracking}
use gpsopen_cl.Pvt.Orbit.{EcefPosition}
use gpsopen_cl.Pvt.Assemble.{
  Measurements, snap_all, snap_to_median, implied_arrivals, measure_channel,
}
use gpsopen_cl.Pvt.Assemble.{push_channel, collect, cleared, complete, assemble}

append_assoc : {A : Type 0} (xs ys zs : List A) → (xs ++ ys) ++ zs ≡ xs ++ (ys ++ zs)
append_assoc [] ys zs = refl
append_assoc (x ∷ xs) ys zs = rw (append_assoc xs ys zs) refl

append-nil : {A : Type 0} (xs : List A) → xs ++ [] ≡ xs
append-nil [] = refl
append-nil (x ∷ xs) = rw (append-nil xs) refl

-- An element that is kept if there is a value for it.
abbrev pub keep : {A B : Type 0} → Option B → A → List A → List A
keep none x xs = xs
keep (some b) x xs = x ∷ xs

-- A guarded result that is there passed both guards.
opened :
    {A : Type 0} (a b : Bool) (o : Option A) (x : A)
    → (if not a || not b then none else o) ≡ some x
    → (a ≡ true) × (b ≡ true)
opened true true o x h = (refl, refl)
opened true false o x h = absurd cc
opened false b o x h = absurd cc

-- The three issues of data of an ephemeris agree.
abbrev pub HasOneIssue : {D : Type 0} → GpsEphemeris D → Type 0
HasOneIssue e = (iodc_low8 e ≡ e.iode2) × (e.iode2 ≡ e.iode3)

module _ {D : Type 0} ⦃m : Maths D⦄ where
  length-snap_all :
      (median : D) (ts arrivals : List D) → length (snap_all median ts arrivals) ≡ length ts
  unfolding snap_all
  length-snap_all median [] arrivals = refl
  length-snap_all median (t ∷ ts) [] = refl
  length-snap_all median (t ∷ ts) (a ∷ arrivals) = ap suc (length-snap_all median ts arrivals)

  length-snap_to_median :
      (sort : List D → List D) (ts arrivals : List D)
      → length (snap_to_median sort ts arrivals) ≡ length ts
  unfolding snap_to_median
  length-snap_to_median sort ts arrivals =
      elim (Bool-cases ((length ts == 0) || not (length ts == length arrivals))) [
        | inl e ↦ rw (snap_to_median, e) refl
        | inr e ↦ rw (snap_to_median, e) (length-snap_all _ ts arrivals)
      ]

  -- Snapping or not, the lists keep their lengths, and each time gets a pseudorange.
  finished :
      (sort : List D → List D) (reference : EcefPosition D) (out : Measurements D) (trusted : Bool)
      → (let arrivals = implied_arrivals reference out.ephemerides out.transmit_times in
          let snapped = record out {
            transmit_times = snap_to_median sort out.transmit_times arrivals;
          } in
          let final = complete reference (if trusted then snapped else out) in
          (final.ephemerides ≡ out.ephemerides)
          × (final.prns ≡ out.prns)
          × (length final.transmit_times ≡ length out.transmit_times)
          × (length final.pseudoranges ≡ length out.transmit_times))
  unfolding complete
  finished sort reference out true =
      let snaps = length-snap_to_median sort out.transmit_times _ in
      (refl, refl, snaps, length-map _ _ ∙ snaps)
  finished sort reference out false = (refl, refl, refl, length-map out.transmit_times _)

  module _ {T F : Type 0} (fp : Floats F D) where
    -- The channels that give a transmit time.
    abbrev pub measured : List (Channel T F D) → List (Channel T F D)
    measured [] = []
    measured (c ∷ cs) = keep (measure_channel fp c) c (measured cs)

    -- What is put together is that of the measured channels, in their order.
    abbrev pub IsOf : List (Channel T F D) → Measurements D → Measurements D → Type 0
    IsOf cs before after =
        (after.ephemerides
          ≡ before.ephemerides ++ map (λ c. c.nav.accumulated_ephemeris) (measured cs))
        × (after.prns ≡ before.prns ++ map (λ c. c.sv_id) (measured cs))
        × (length after.transmit_times ≡ length before.transmit_times + length (measured cs))
        × (after.pseudoranges ≡ before.pseudoranges)

    collect-IsOf :
        (cs : List (Channel T F D)) (out : Measurements D) → IsOf cs out (collect fp cs out)
    unfolding collect push_channel
    collect-IsOf [] out =
        (sym (append-nil out.ephemerides), sym (append-nil out.prns), omega arith, refl)
    collect-IsOf (c ∷ cs) out = elim (Option-cases (measure_channel fp c)) [
      | inl e ↦ rw (collect, push_channel, e) (collect-IsOf cs out)
      | inr (t, e) ↦
          let (ephemerides, prns, times, ranges) =
            collect-IsOf cs (push_channel fp c (some t) out) in
          rw (collect, e)
            (
              ephemerides ∙ append_assoc out.ephemerides (c.nav.accumulated_ephemeris ∷ []) _,
              prns ∙ append_assoc out.prns (c.sv_id ∷ []) _,
              omega (arith, times, length-append out.transmit_times (t ∷ [])),
              ranges,
            )
    ]

    -- The measurements are those of the channels that give a transmit time, in their order, with a
    -- transmit time for each. They suffice exactly if there are four or more, and then there is a
    -- pseudorange for each; else there is none.
    pub assemble_lem :
        (sort : List D → List D) (cs : List (Channel T F D))
        → (reference : EcefPosition D) (trusted : Bool)
        → (let (ok, out) = assemble fp sort cs reference trusted in
            (ok ≡ not (ltb (length (measured cs)) 4))
            × (out.ephemerides ≡ map (λ c. c.nav.accumulated_ephemeris) (measured cs))
            × (out.prns ≡ map (λ c. c.sv_id) (measured cs))
            × (length out.transmit_times ≡ length (measured cs))
            × (length out.pseudoranges ≡ (if ok then length (measured cs) else 0)))
    unfolding assemble
    assemble_lem sort cs reference trusted =
        let out = collect fp cs cleared in
        let (ephemerides, prns, times, ranges) = collect-IsOf cs cleared in
        let count : length out.ephemerides ≡ length (measured cs) =
          rw ephemerides (length-map (measured cs) (λ c. c.nav.accumulated_ephemeris)) in
        elim (Bool-cases (ltb (length out.ephemerides) 4)) [
          | inl e ↦
              rw (assemble, e)
                (ground arith, ephemerides, prns, omega (arith, times), rw ranges refl)
          | inr e ↦
              let (e1, p1, t1, r1) = finished sort reference out trusted in
              rw (assemble, e)
                (
                  ground arith,
                  e1 ∙ ephemerides,
                  p1 ∙ prns,
                  omega (arith, t1, times),
                  omega (arith, r1, times),
                )
        ]

    -- A channel that gives a transmit time tracks and has its ephemeris complete.
    measure_channel_usable :
        (c : Channel T F D) (t : D)
        → measure_channel fp c ≡ some t
        → (is_tracking c.lock.state ≡ true)
          × (has_complete_ephemeris c.nav.seen_subframe_mask ≡ true)
    unfolding measure_channel
    measure_channel_usable c t h =
        opened (is_tracking c.lock.state) (has_complete_ephemeris c.nav.seen_subframe_mask) _ t h

    measured-HasOneIssue :
        (cs : List (Channel T F D))
        → AllOf (λ c. IsMerged c.nav.accumulated_ephemeris c.nav.seen_subframe_mask) cs
        → AllOf HasOneIssue (map (λ c. c.nav.accumulated_ephemeris) (measured cs))
    measured-HasOneIssue [] h = tt
    measured-HasOneIssue (c ∷ cs) (h, hs) =
        let rest = measured-HasOneIssue cs hs in
        elim (Option-cases (measure_channel fp c)) [
          | inl e ↦ rw e rest
          | inr (t, e) ↦
              let (tracks, complete) = measure_channel_usable c t e in
              rw e (
                has_complete_ephemeris-IsMerged c.nav.accumulated_ephemeris c.nav.seen_subframe_mask
                    h complete,
                rest,
              )
        ]

    -- Every ephemeris that is handed to the solver comes from subframes of one issue of data, if the
    -- subframes of each channel were merged as the channels merge them.
    pub assemble-HasOneIssue :
        (sort : List D → List D) (cs : List (Channel T F D))
        → (reference : EcefPosition D) (trusted : Bool)
        → AllOf (λ c. IsMerged c.nav.accumulated_ephemeris c.nav.seen_subframe_mask) cs
        → AllOf HasOneIssue (assemble fp sort cs reference trusted).1.ephemerides
    assemble-HasOneIssue sort cs reference trusted h =
        let lem = assemble_lem sort cs reference trusted in rw (lem.1) (measured-HasOneIssue cs h)
