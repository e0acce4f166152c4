-- ===== src/Pvt/Orbit.antt =====
-- `computeSatelliteOrbit`, `ecefToWgs84` and `computeReceiverTime` of
-- Source/Pvt/GPSOpenClPVTSolver.cpp.
use gpsopen_cl.Prelude.{ℕ, zero, suc, ◌||◌, List, [], ◌∷◌, length, ltb, ◌==◌, if◌then◌else◌}
use gpsopen_cl.Prelude.Int.{pos, negsuc}
use gpsopen_cl.Maths.{Maths, ◌⊕◌, ◌⊖◌, ◌⊗◌, ◌⊘◌, ◌≺◌, whole, speed_of_light, earth_rotation_rate}
use gpsopen_cl.Maths.{semi_major_axis, gravitational_parameter}
use gpsopen_cl.NavDecode.Subframe.{GpsEphemeris}

pub record EcefPosition (D : Type 0) : Type 0 where
  pub x : D
  pub y : D
  pub z : D

pub record GeodeticPosition (D : Type 0) : Type 0 where
  pub latitude_deg : D
  pub longitude_deg : D
  pub altitude_meters : D

pub record SatelliteOrbit (D : Type 0) : Type 0 where
  pub sv_id : ℕ
  pub position : EcefPosition D
  pub clock_bias : D
  pub rel_corr : D

module _ {D : Type 0} ⦃m : Maths D⦄ where
  open m use {negate, decimal, pi, sqrt, sin, cos, atan2}

  -- The correction of a time difference for the end of the week.
  unfoldable pub wrap_week : D → D
  wrap_week t =
      let down = if whole 302400 ≺ t then t ⊖ whole 604800 else t in
      if down ≺ negate (whole 302400) then down ⊕ whole 604800 else down

  -- The ten rounds of Newton's method for the eccentric anomaly.
  unfoldable pub kepler : D → D → ℕ → D → D
  kepler e mk zero ek = ek
  kepler e mk (suc n) ek =
      let diff = ek ⊖ (e ⊗ sin ek) ⊖ mk in
      let derivative = whole 1 ⊖ (e ⊗ cos ek) in kepler e mk n (ek ⊖ diff ⊘ derivative)

  unfoldable pub compute_satellite_orbit : GpsEphemeris D → D → SatelliteOrbit D
  compute_satellite_orbit ephem t =
      let omega_e = earth_rotation_rate in
      let f = decimal (negsuc 4442807632) (negsuc 18) in
      let a = ephem.sqrt_a ⊗ ephem.sqrt_a in
      let n0 = sqrt (gravitational_parameter ⊘ (a ⊗ a ⊗ a)) in
      let dt = wrap_week (t ⊖ ephem.toc) in
      let poly = ephem.af0 ⊕ (ephem.af1 ⊗ dt) ⊕ (ephem.af2 ⊗ dt ⊗ dt) in
      let tk = wrap_week (t ⊖ poly ⊖ ephem.toe) in
      let n = n0 ⊕ ephem.delta_n in
      let mk = ephem.m0 ⊕ (n ⊗ tk) in
      let ek = kepler ephem.e mk 10 mk in
      let rel = f ⊗ ephem.e ⊗ ephem.sqrt_a ⊗ sin ek in
      let sin_vk = (sqrt (whole 1 ⊖ (ephem.e ⊗ ephem.e)) ⊗ sin ek) ⊘ (whole 1 ⊖ ephem.e ⊗ cos ek) in
      let cos_vk = (cos ek ⊖ ephem.e) ⊘ (whole 1 ⊖ ephem.e ⊗ cos ek) in
      let phi = atan2 sin_vk cos_vk ⊕ ephem.omega in
      let sin2 = sin (whole 2 ⊗ phi) in
      let cos2 = cos (whole 2 ⊗ phi) in
      let uk = phi ⊕ ((ephem.cus ⊗ sin2) ⊕ (ephem.cuc ⊗ cos2)) in
      let rk = (a ⊗ (whole 1 ⊖ ephem.e ⊗ cos ek)) ⊕ ((ephem.crs ⊗ sin2) ⊕ (ephem.crc ⊗ cos2)) in
      let ik = ephem.i0 ⊕ ((ephem.cis ⊗ sin2) ⊕ (ephem.cic ⊗ cos2)) ⊕ (ephem.idot ⊗ tk) in
      let xk = rk ⊗ cos uk in
      let yk = rk ⊗ sin uk in
      let omega_k = ephem.omega0 ⊕ ((ephem.omega_dot ⊖ omega_e) ⊗ tk) ⊖ (omega_e ⊗ ephem.toe) in
      record {
        sv_id = ephem.sv_id;
        position = record {
          x = xk ⊗ cos omega_k ⊖ yk ⊗ cos ik ⊗ sin omega_k;
          y = xk ⊗ sin omega_k ⊕ yk ⊗ cos ik ⊗ cos omega_k;
          z = yk ⊗ sin ik;
        };
        clock_bias = poly ⊕ rel ⊖ ephem.tgd;
        rel_corr = rel;
      }

  unfoldable pub ecef_to_wgs84 : EcefPosition D → GeodeticPosition D
  ecef_to_wgs84 ecef =
      let a = semi_major_axis in
      let f = whole 1 ⊘ decimal (pos 298257223563) (negsuc 8) in
      let b = a ⊗ (whole 1 ⊖ f) in
      let e2 = (a ⊗ a ⊖ b ⊗ b) ⊘ (a ⊗ a) in
      let ep2 = (a ⊗ a ⊖ b ⊗ b) ⊘ (b ⊗ b) in
      let p = sqrt ((ecef.x ⊗ ecef.x) ⊕ (ecef.y ⊗ ecef.y)) in
      let theta = atan2 (ecef.z ⊗ a) (p ⊗ b) in
      let lat =
        atan2 (ecef.z ⊕ (ep2 ⊗ b ⊗ sin theta ⊗ sin theta ⊗ sin theta))
          (p ⊖ (e2 ⊗ a ⊗ cos theta ⊗ cos theta ⊗ cos theta)) in
      let n = a ⊘ sqrt (whole 1 ⊖ (e2 ⊗ sin lat ⊗ sin lat)) in
      record {
        latitude_deg = lat ⊗ whole 180 ⊘ pi;
        longitude_deg = atan2 ecef.y ecef.x ⊗ whole 180 ⊘ pi;
        altitude_meters = (p ⊘ cos lat) ⊖ n;
      }

  -- The length of the vector from one position to another, as the code writes it.
  abbrev pub distance : EcefPosition D → EcefPosition D → D
  distance to from =
      let dx = to.x ⊖ from.x in
      let dy = to.y ⊖ from.y in let dz = to.z ⊖ from.z in sqrt ((dx ⊗ dx) ⊕ (dy ⊗ dy) ⊕ (dz ⊗ dz))

  -- The two running sums over the transmit times, each with its ephemeris.
  unfoldable pub add_transits : EcefPosition D → List (GpsEphemeris D) → List D → D × D → D × D
  add_transits reference (e ∷ es) (t ∷ ts) (times, transits) = add_transits reference es ts (
    times ⊕ t,
    transits ⊕ distance (compute_satellite_orbit e t).position reference ⊘ speed_of_light,
  )
  add_transits reference [] ts sums = sums
  add_transits reference (e ∷ es) [] sums = sums

  unfoldable pub compute_receiver_time : List (GpsEphemeris D) → List D → EcefPosition D → D
  compute_receiver_time ephemerides times reference =
      let sums = add_transits reference ephemerides times (whole 0, whole 0) in
      let n = whole (length times) in
      if (length times == 0) || ltb (length ephemerides) (length times)
      then whole 0
      else sums.0 ⊘ n ⊕ sums.1 ⊘ n
