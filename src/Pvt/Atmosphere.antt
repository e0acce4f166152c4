-- ===== src/Pvt/Atmosphere.antt =====
-- Azimuth and elevation, and the delays of the ionosphere and the troposphere:
-- Source/Pvt/GPSOpenClAtmosphericCorrections.cpp. The version tag of the output is left out.
use gpsopen_cl.Prelude.{ℕ, if◌then◌else◌}
use gpsopen_cl.Prelude.Int.{pos, negsuc}
use gpsopen_cl.Maths.{Maths, ◌⊕◌, ◌⊖◌, ◌⊗◌, ◌⊘◌, ◌≺◌, whole, larger, smaller, clamped}
use gpsopen_cl.Maths.{speed_of_light}
use gpsopen_cl.NavDecode.Subframe.{AtmosphericInput}
use gpsopen_cl.Pvt.Orbit.{EcefPosition, GeodeticPosition, ecef_to_wgs84}

pub record AtmosphericOutput (D : Type 0) : Type 0 where
  pub sv_id : ℕ
  pub azimuth_deg : D
  pub elevation_deg : D
  pub iono_delay_meters : D
  pub tropo_delay_meters : D

module _ {D : Type 0} ⦃m : Maths D⦄ where
  open m use {negate, decimal, pi, abs, sqrt, sin, cos, tan, atan2, pow, fmod}

  -- The azimuth and the elevation.
  unfoldable pub azimuth_elevation : GeodeticPosition D → EcefPosition D → EcefPosition D → D × D
  azimuth_elevation rx rx_ecef sat_ecef =
      let lat = rx.latitude_deg ⊗ pi ⊘ whole 180 in
      let lon = rx.longitude_deg ⊗ pi ⊘ whole 180 in
      let dx = sat_ecef.x ⊖ rx_ecef.x in
      let dy = sat_ecef.y ⊖ rx_ecef.y in
      let dz = sat_ecef.z ⊖ rx_ecef.z in
      let east = (negate (sin lon) ⊗ dx) ⊕ (cos lon ⊗ dy) in
      let north = (negate (sin lat) ⊗ cos lon ⊗ dx) ⊖ (sin lat ⊗ sin lon ⊗ dy) ⊕ (cos lat ⊗ dz) in
      let up = (cos lat ⊗ cos lon ⊗ dx) ⊕ (cos lat ⊗ sin lon ⊗ dy) ⊕ (sin lat ⊗ dz) in
      let horizontal = sqrt ((east ⊗ east) ⊕ (north ⊗ north)) in
      let azimuth = atan2 east north in
      let positive = if azimuth ≺ whole 0 then azimuth ⊕ whole 2 ⊗ pi else azimuth in
      (positive ⊗ whole 180 ⊘ pi, atan2 up horizontal ⊗ whole 180 ⊘ pi)

  unfoldable pub compute_azimuth_elevation : EcefPosition D → EcefPosition D → D × D
  compute_azimuth_elevation rx_ecef sat_ecef =
      azimuth_elevation (ecef_to_wgs84 rx_ecef) rx_ecef sat_ecef

  abbrev cubic : D → D → D → D → D → D
  cubic a b c d x = a ⊕ (b ⊗ x) ⊕ (c ⊗ x ⊗ x) ⊕ (d ⊗ x ⊗ x ⊗ x)

  unfoldable pub klobuchar_ionospheric_delay :
      GeodeticPosition D → D → D → D → AtmosphericInput D → D
  klobuchar_ionospheric_delay rx elevation azimuth gps_time params =
      let phi_u = rx.latitude_deg ⊘ whole 180 in
      let lambda_u = rx.longitude_deg ⊘ whole 180 in
      let az = azimuth ⊗ pi ⊘ whole 180 in
      let el = larger (elevation ⊘ whole 180) (whole 0) in
      let psi =
        (decimal (pos 137) (negsuc 3) ⊘ (el ⊕ decimal (pos 11) (negsuc 1)))
        ⊖ decimal (pos 22) (negsuc 2) in
      let bound = decimal (pos 416) (negsuc 2) in
      let phi_i = clamped (phi_u ⊕ (psi ⊗ cos az)) (negate bound) bound in
      let lambda_i = lambda_u ⊕ ((psi ⊗ sin az) ⊘ cos (phi_i ⊗ pi)) in
      let phi_m =
        phi_i
        ⊕ (decimal (pos 64) (negsuc 2) ⊗ cos ((lambda_i ⊖ decimal (pos 1617) (negsuc 2)) ⊗ pi)) in
      let local = fmod ((whole 43200 ⊗ lambda_i) ⊕ gps_time) (whole 86400) in
      let t_local = if local ≺ whole 0 then local ⊕ whole 86400 else local in
      let f = whole 1 ⊕ (whole 16 ⊗ pow (decimal (pos 53) (negsuc 1) ⊖ el) (whole 3)) in
      let per =
        larger (cubic params.beta0 params.beta1 params.beta2 params.beta3 phi_m) (whole 72000) in
      let amp =
        larger (cubic params.alpha0 params.alpha1 params.alpha2 params.alpha3 phi_m) (whole 0) in
      let x = whole 2 ⊗ pi ⊗ (t_local ⊖ whole 50400) ⊘ per in
      let night = decimal (pos 5) (negsuc 8) in
      let day = night ⊕ amp ⊗ (whole 1 ⊖ (x ⊗ x) ⊘ whole 2 ⊕ (x ⊗ x ⊗ x ⊗ x) ⊘ whole 24) in
      let delay = if abs x ≺ decimal (pos 157) (negsuc 1) then f ⊗ day else f ⊗ night in
      delay ⊗ speed_of_light

  unfoldable pub saastamoinen_tropospheric_delay : D → D → D
  saastamoinen_tropospheric_delay altitude elevation_deg =
      let elevation = larger elevation_deg (whole 2) in
      let h = smaller (larger altitude (whole 0)) (whole 10000) in
      let p0 = decimal (pos 101325) (negsuc 1) in
      let t0 = decimal (pos 28815) (negsuc 1) in
      let e0 = decimal (pos 11691) (negsuc 2) in
      let shrunk = whole 1 ⊖ (decimal (pos 22557) (negsuc 8) ⊗ h) in
      let p = p0 ⊗ pow shrunk (decimal (pos 52568) (negsuc 3)) in
      let t = t0 ⊖ (decimal (pos 65) (negsuc 3) ⊗ h) in
      let e = e0 ⊗ pow shrunk (decimal (pos 1196) (negsuc 1)) in
      let el = elevation ⊗ pi ⊘ whole 180 in
      let mapped =
        sin (el ⊕ (decimal (pos 143) (negsuc 4) ⊘ (tan el ⊕ decimal (pos 445) (negsuc 3)))) in
      let scale = decimal (pos 2277) (negsuc 5) in
      let dry = (scale ⊗ p) ⊘ mapped in
      let wet = (scale ⊗ (whole 1255 ⊘ t ⊕ decimal (pos 5) (negsuc 1)) ⊗ e) ⊘ mapped in dry ⊕ wet

  unfoldable pub compute_corrections :
      ℕ
      → GeodeticPosition D
      → EcefPosition D
      → EcefPosition D
      → D
      → AtmosphericInput D
      → AtmosphericOutput D
  compute_corrections sv_id rx rx_ecef sat_ecef gps_time input =
      let (azimuth, elevation) = azimuth_elevation rx rx_ecef sat_ecef in
      record {
        sv_id = sv_id;
        azimuth_deg = azimuth;
        elevation_deg = elevation;
        iono_delay_meters = klobuchar_ionospheric_delay rx elevation azimuth gps_time input;
        tropo_delay_meters = saastamoinen_tropospheric_delay rx.altitude_meters elevation;
      }
