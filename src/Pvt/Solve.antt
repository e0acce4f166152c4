-- ===== src/Pvt/Solve.antt =====
-- `PVTSolver::solvePosition`: weighted least squares, with the satellite of the worst residual dropped
-- as long as enough satellites are left. The three vectors of the code, of one length, are one list.
use gpsopen_cl.Prelude.{ℕ, zero, suc, ◌+◌, Bool, none, some}
use gpsopen_cl.Prelude.{List, [], ◌∷◌, map, get_or, take, drop, ◌++◌, if◌then◌else◌}
use gpsopen_cl.Prelude.Int.{pos, negsuc}
use gpsopen_cl.Maths.{Maths, ◌⊕◌, ◌⊖◌, ◌⊗◌, ◌⊘◌, ◌≺◌, whole, larger, clamped}
use gpsopen_cl.Maths.{speed_of_light, earth_rotation_rate}
use gpsopen_cl.Settings.{PvtSolverInput}
use gpsopen_cl.NavDecode.Subframe.{GpsEphemeris, AtmosphericInput}
use gpsopen_cl.Pvt.Orbit.{EcefPosition, GeodeticPosition, SatelliteOrbit, compute_satellite_orbit}
use gpsopen_cl.Pvt.Orbit.{ecef_to_wgs84}
use gpsopen_cl.Pvt.Atmosphere.{compute_azimuth_elevation, compute_corrections}
use gpsopen_cl.Pvt.Matrix.{entry, augment, gauss_jordan}

pub record PvtSolver (D : Type 0) : Type 0 where
  pub input_config : PvtSolverInput D
  pub iono_params : AtmosphericInput D
  pub reference_ecef : EcefPosition D
  pub has_valid_fix : Bool

pub record ReceiverPvtSolution (D : Type 0) : Type 0 where
  pub ecef_position : EcefPosition D
  pub geodetic_position : GeodeticPosition D
  pub clock_bias_meters : D
  pub clock_bias_seconds : D
  pub dop_gdop : D
  pub dop_pdop : D
  pub dop_hdop : D
  pub dop_vdop : D
  pub is_valid : Bool
  pub satellites_used : ℕ
  pub max_residual_meters : D

-- One satellite: its entries of `orbits`, `correctedRanges` and `usedTransmitTimes`.
pub record Measured (D : Type 0) : Type 0 where
  pub orbit : SatelliteOrbit D
  pub corrected_range : D
  pub transmit_time : D

-- One satellite's row of `H`, with its residual and its weight.
pub record Row (D : Type 0) : Type 0 where
  pub coefficients : List D
  pub delta_rho : D
  pub weight : D

-- The estimate: the position and the clock bias in metres.
pub record State (D : Type 0) : Type 0 where
  pub position : EcefPosition D
  pub bias : D

-- How the loop of at most 15 iterations ends.
pub data Round (D : Type 0) : Type 0 where
  singular : Round D
  exhausted : List (Row D) → Round D
  converged : State D → List (Row D) → Round D

-- A solution accepted: the estimate, the largest residual, the rows.
pub record Fix (D : Type 0) : Type 0 where
  pub state : State D
  pub max_residual : D
  pub rows : List (Row D)

abbrev pub axes : List ℕ
axes = 0 ∷ 1 ∷ 2 ∷ 3 ∷ []

abbrev pub erase : {A : Type 0} → List A → ℕ → List A
erase xs i = take i xs ++ drop (suc i) xs

module _ {D : Type 0} ⦃m : Maths D⦄ where
  open m use {negate, decimal, pi, abs, sqrt, sin, cos}

  unfoldable pub measure : List (GpsEphemeris D) → List D → List D → List (Measured D)
  measure (e ∷ es) (r ∷ rs) (t ∷ ts) =
      let orbit = compute_satellite_orbit e t in
      record {
        orbit = orbit;
        corrected_range = r ⊕ speed_of_light ⊗ orbit.clock_bias;
        transmit_time = t;
      }
      ∷ measure es rs ts
  measure [] rs ts = []
  measure (e ∷ es) [] ts = []
  measure (e ∷ es) (r ∷ rs) [] = []

  -- The satellites that are not below the mask.
  unfoldable pub above_mask : EcefPosition D → D → List (Measured D) → List (Measured D)
  above_mask reference mask [] = []
  above_mask reference mask (s ∷ ss) =
      let kept = above_mask reference mask ss in
      if (compute_azimuth_elevation reference s.orbit.position).1 ≺ mask then kept else s ∷ kept

  unfoldable pub linearise : PvtSolver D → State D → GeodeticPosition D → Measured D → Row D
  linearise solver state geodetic s =
      let p = s.orbit.position in
      let rx = state.position in
      let dx0 = p.x ⊖ rx.x in
      let dy0 = p.y ⊖ rx.y in
      let dz0 = p.z ⊖ rx.z in
      let range0 = sqrt ((dx0 ⊗ dx0) ⊕ (dy0 ⊗ dy0) ⊕ (dz0 ⊗ dz0)) in
      let travel = range0 ⊘ speed_of_light in
      let dx = p.x ⊕ (earth_rotation_rate ⊗ travel ⊗ p.y) ⊖ rx.x in
      let dy = p.y ⊖ (earth_rotation_rate ⊗ travel ⊗ p.x) ⊖ rx.y in
      let dz = p.z ⊖ rx.z in
      let range = sqrt ((dx ⊗ dx) ⊕ (dy ⊗ dy) ⊕ (dz ⊗ dz)) in
      let atmo =
        compute_corrections s.orbit.sv_id geodetic rx p s.transmit_time solver.iono_params in
      let predicted = range ⊕ state.bias in
      let tropo = elim solver.input_config.tropo_enabled as (λ z. D) [
        | pos zero ↦ whole 0
        | _ ↦ atmo.tropo_delay_meters
      ] in
      let elevation = clamped atmo.elevation_deg (whole 5) (whole 90) ⊗ pi ⊘ whole 180 in
      record {
        coefficients = negate dx ⊘ range ∷ negate dy ⊘ range ∷ negate dz ⊘ range ∷ whole 1 ∷ [];
        delta_rho = s.corrected_range ⊖ atmo.iono_delay_meters ⊖ tropo ⊖ predicted;
        weight = sin elevation ⊗ sin elevation;
      }

  -- A sum over a list, from the left and from 0.
  unfoldable pub sum_from : {A : Type 0} → (A → D) → D → List A → D
  sum_from f total [] = total
  sum_from f total (x ∷ xs) = sum_from f (total ⊕ f x) xs

  abbrev pub coefficient : Row D → ℕ → D
  coefficient h c = get_or h.coefficients c (whole 0)

  -- `HtY`, `HtH` and `HtHUnweighted`.
  unfoldable pub weighted_residuals : List (Row D) → List D
  weighted_residuals rows =
      map (λ r. sum_from (λ h. h.weight ⊗ coefficient h r ⊗ h.delta_rho) (whole 0) rows) axes

  unfoldable pub weighted_normal : List (Row D) → List (List D)
  weighted_normal rows =
      map
        (λ r.
          map (λ c. sum_from (λ h. h.weight ⊗ coefficient h r ⊗ coefficient h c) (whole 0) rows)
            axes)
        axes

  unfoldable pub unweighted_normal : List (Row D) → List (List D)
  unweighted_normal rows =
      map (λ r. map (λ c. sum_from (λ h. coefficient h r ⊗ coefficient h c) (whole 0) rows) axes)
        axes

  -- The correction of the estimate, from the reduced array.
  unfoldable pub correction : List (List D) → List D → ℕ → D
  correction reduced hty i =
      sum_from (λ j. entry reduced i (j + 4) ⊗ get_or hty j (whole 0)) (whole 0) axes

  abbrev pub moved : State D → (ℕ → D) → State D
  moved state delta = record {
    position = record {
      x = state.position.x ⊕ delta 0;
      y = state.position.y ⊕ delta 1;
      z = state.position.z ⊕ delta 2;
    };
    bias = state.bias ⊕ delta 3;
  }

  abbrev pub step_norm : (ℕ → D) → D
  step_norm delta = sqrt ((delta 0 ⊗ delta 0) ⊕ (delta 1 ⊗ delta 1) ⊕ (delta 2 ⊗ delta 2))

  -- The iterations that are left, from an estimate; `last` are the rows of the previous one.
  unfoldable pub iterate : PvtSolver D → List (Measured D) → ℕ → State D → List (Row D) → Round D
  iterate solver sats zero state last = exhausted last
  iterate solver sats (suc n) state last =
      let rows = map (linearise solver state (ecef_to_wgs84 state.position)) sats in
      elim (gauss_jordan (augment 0 (weighted_normal rows))) [
        | none ↦ singular
        | some reduced ↦
            let delta : ℕ → D = correction reduced (weighted_residuals rows) in
            let rest = iterate solver sats n (moved state delta) rows in
            if step_norm delta ≺ decimal (pos 1) (negsuc 3)
            then converged (moved state delta) rows
            else rest
      ]

  -- `i` is the index of the first row of the list.
  unfoldable pub worst_from : List (Row D) → ℕ → ℕ → D → ℕ
  worst_from [] i worst value = worst
  worst_from (h ∷ rows) i worst value =
      let here = abs h.delta_rho in
      let best : ℕ × D = if value ≺ here then (i, here) else (worst, value) in
      worst_from rows (suc i) (best.0) (best.1)

  unfoldable pub worst : List (Row D) → ℕ
  worst [] = 0
  worst (h ∷ rows) = worst_from rows 1 0 (abs h.delta_rho)

  unfoldable pub max_abs_residual : D → List (Row D) → D
  max_abs_residual best [] = best
  max_abs_residual best (h ∷ rows) = max_abs_residual (larger (abs h.delta_rho) best) rows

  abbrev pub start : PvtSolver D → State D
  start solver = record { position = solver.reference_ecef; bias = whole 0 }
