-- ===== src/Pvt/Position.antt =====
-- The outer loop of `PVTSolver::solvePosition`, with the solution and the members that it writes.
use gpsopen_cl.Prelude.{ℕ, zero, suc, ◌+◌, Bool, true, false, ◌||◌, ◌&&◌, Option, none, some}
use gpsopen_cl.Prelude.{List, [], ◌∷◌, length, ltb, if◌then◌else◌}
use gpsopen_cl.Prelude.Int.{pos, negsuc}
use gpsopen_cl.Maths.{Maths, ◌⊕◌, ◌⊗◌, ◌⊘◌, ◌≺◌, whole, speed_of_light}
use gpsopen_cl.NavDecode.Subframe.{GpsEphemeris}
use gpsopen_cl.Pvt.Orbit.{GeodeticPosition, ecef_to_wgs84}
use gpsopen_cl.Pvt.Matrix.{entry, invert_4x4}
use gpsopen_cl.Pvt.Solve.{PvtSolver, ReceiverPvtSolution, Measured, Row, Fix, Round, singular}
use gpsopen_cl.Pvt.Solve.{exhausted, converged, measure, above_mask, sum_from, unweighted_normal}
use gpsopen_cl.Pvt.Solve.{iterate, worst, erase, max_abs_residual, start}

-- The pairs of indices in the order of the two inner loops.
abbrev pub pairs : List (ℕ × ℕ)
pairs = (0, 0) ∷ (0, 1) ∷ (0, 2) ∷ (1, 0) ∷ (1, 1) ∷ (1, 2) ∷ (2, 0) ∷ (2, 1) ∷ (2, 2) ∷ []

-- What the call returns, with the solution and the solver after it.
abbrev pub Answer : Type 0 → Type 0
Answer D = Bool × ReceiverPvtSolution D × PvtSolver D

module _ {D : Type 0} ⦃m : Maths D⦄ where
  open m use {negate, decimal, pi, sqrt, sin, cos}

  -- What a round leads to: none inside is failure, and `retry` goes on without the worst satellite.
  unfoldable pub conclude :
      {A : Type 0}
      → PvtSolver D
      → ℕ
      → (List (Row D) → Option (Option (Fix D × A)))
      → A
      → Round D
      → Option (Option (Fix D × A))
  conclude solver count retry sats singular = some none
  conclude solver count retry sats (exhausted rows) =
      if ltb count (solver.input_config.min_satellites + 2) then some none else retry rows
  conclude solver count retry sats (converged state rows) =
      let residual = max_abs_residual (whole 0) rows in
      let again =
        if ltb count (solver.input_config.min_satellites + 2) then some none else retry rows in
      if solver.input_config.max_pseudorange_err_meters ≺ residual
      then again
      else some (some (record { state = state; max_residual = residual; rows = rows }, sats))

  -- The rounds with ever fewer satellites: none is out of fuel.
  unfoldable pub solve_with :
      PvtSolver D → ℕ → List (Measured D) → Option (Option (Fix D × List (Measured D)))
  solve_with solver zero sats = none
  solve_with solver (suc fuel) sats =
      conclude solver (length sats) (λ rows. solve_with solver fuel (erase sats (worst rows))) sats
        (iterate solver sats 15 (start solver) [])

  -- The rotation to east, north and up at a position.
  unfoldable pub enu_rotation : GeodeticPosition D → List (List D)
  enu_rotation geodetic =
      let lat = geodetic.latitude_deg ⊗ pi ⊘ whole 180 in
      let lon = geodetic.longitude_deg ⊗ pi ⊘ whole 180 in
      (negate (sin lon) ∷ cos lon ∷ whole 0 ∷ [])
      ∷ (negate (sin lat) ⊗ cos lon ∷ negate (sin lat) ⊗ sin lon ∷ cos lat ∷ [])
      ∷ (cos lat ⊗ cos lon ∷ cos lat ⊗ sin lon ∷ sin lat ∷ [])
      ∷ []

  -- A variance along one of the three directions.
  unfoldable pub enu_variance : List (List D) → List (List D) → ℕ → D
  enu_variance rotation inverse r =
      sum_from (λ p. entry rotation r (p.0) ⊗ entry inverse (p.0) (p.1) ⊗ entry rotation r (p.1))
        (whole 0) pairs

  -- The dilutions of precision, 99.9 where the matrix has no inverse.
  unfoldable pub fill_dops : Option (List (List D)) → ReceiverPvtSolution D → ReceiverPvtSolution D
  fill_dops none sol =
      let unavailable = decimal (pos 999) (negsuc 0) in
      record sol {
        dop_gdop = unavailable;
        dop_pdop = unavailable;
        dop_hdop = unavailable;
        dop_vdop = unavailable;
      }
  fill_dops (some inv) sol =
      let rotation = enu_rotation sol.geodetic_position in
      let space = entry inv 0 0 ⊕ entry inv 1 1 ⊕ entry inv 2 2 in
      record sol {
        dop_gdop = sqrt (space ⊕ entry inv 3 3);
        dop_pdop = sqrt space;
        dop_hdop = sqrt (enu_variance rotation inv 0 ⊕ enu_variance rotation inv 1);
        dop_vdop = sqrt (enu_variance rotation inv 2);
      }

  unfoldable pub accept : Fix D → ℕ → ReceiverPvtSolution D → ReceiverPvtSolution D
  accept fix count sol =
      let filled = fill_dops (invert_4x4 (unweighted_normal fix.rows)) (record sol {
        ecef_position = fix.state.position;
        geodetic_position = ecef_to_wgs84 fix.state.position;
        clock_bias_meters = fix.state.bias;
        clock_bias_seconds = fix.state.bias ⊘ speed_of_light;
        satellites_used = count;
        max_residual_meters = fix.max_residual;
      }) in
      record filled { is_valid = true }

  abbrev pub failed : ReceiverPvtSolution D → PvtSolver D → Answer D
  failed sol solver = (false, record sol { is_valid = false }, solver)

  -- What the call returns and writes.
  unfoldable pub answer :
      ReceiverPvtSolution D
      → PvtSolver D
      → Option (Option (Fix D × List (Measured D)))
      → Option (Answer D)
  answer sol solver none = none
  answer sol solver (some none) = some (failed sol solver)
  answer sol solver (some (some (fix, sats))) = some (
    true,
    accept fix (length sats) sol,
    record solver { reference_ecef = fix.state.position; has_valid_fix = true },
  )

  -- The mask applies after a first fix, unless it is disabled.
  abbrev pub masked : PvtSolver D → Bool
  masked solver = solver.has_valid_fix && (whole 0 ≺ solver.input_config.elevation_mask_deg)

  -- The satellites that the solve starts with.
  unfoldable pub usable : PvtSolver D → List (Measured D) → List (Measured D)
  usable solver sats =
      if masked solver
      then above_mask solver.reference_ecef solver.input_config.elevation_mask_deg sats
      else sats

  -- `fuel` bounds the rounds; none is out of fuel.
  unfoldable pub solve_in :
      ℕ
      → List (GpsEphemeris D)
      → List D
      → List D
      → ReceiverPvtSolution D
      → PvtSolver D
      → Option (Answer D)
  solve_in fuel ephemerides ranges times sol solver =
      let count = length ephemerides in
      let minimum = solver.input_config.min_satellites in
      let sats = usable solver (measure ephemerides ranges times) in
      if ltb count minimum || ltb (length ranges) count || ltb (length times) count
      then some (failed sol solver)
      else if masked solver && ltb (length sats) minimum
      then some (failed sol solver)
      else answer sol solver (solve_with solver fuel sats)

  -- One round for each satellite and one more.
  unfoldable pub solve_position :
      List (GpsEphemeris D)
      → List D
      → List D
      → ReceiverPvtSolution D
      → PvtSolver D
      → Option (Answer D)
  solve_position ephemerides ranges times sol solver =
      solve_in (suc (length ephemerides)) ephemerides ranges times sol solver
