-- ===== src/Pvt/Tests.antt =====
-- The solver run on four satellites, with whole numbers in the place of floating point: the
-- functions of <cmath> are simple ones, and angles count in degrees.
use gpsopen_cl.Prelude.{
  ℕ, ◌+◌, ◌*◌, ◌/◌, ◌%◌, ◌≡◌, refl, true, false, not, ◌&&◌, Option, none, some, if◌then◌else◌,
}
use gpsopen_cl.Prelude.{List, [], ◌∷◌}
use gpsopen_cl.Prelude.Int.{ℤ, pos, pos_part, neg_part, ltb_ℤ, ◌+ℤ◌, ◌-ℤ◌, ◌*ℤ◌, sub_ℕ}
use gpsopen_cl.Maths.{Maths}
use gpsopen_cl.NavDecode.Subframe.{GpsEphemeris}
use gpsopen_cl.Pvt.Orbit.{EcefPosition, kepler, wrap_week, compute_satellite_orbit, ecef_to_wgs84}
use gpsopen_cl.Pvt.Atmosphere.{azimuth_elevation, klobuchar_ionospheric_delay}
use gpsopen_cl.Pvt.Atmosphere.{saastamoinen_tropospheric_delay, compute_corrections}
use gpsopen_cl.Pvt.Atmosphere.{compute_azimuth_elevation}
use gpsopen_cl.Pvt.Matrix.{
  find_pivot, swap_rows, subtract_row, clear_column, eliminate, gauss_jordan,
}
use gpsopen_cl.Pvt.Matrix.{identity_row, augment, invert_4x4}
use gpsopen_cl.Pvt.Solve.{PvtSolver, ReceiverPvtSolution, measure, above_mask, linearise, sum_from}
use gpsopen_cl.Pvt.Solve.{
  weighted_residuals, weighted_normal, unweighted_normal, correction, iterate,
}
use gpsopen_cl.Pvt.Solve.{worst_from, worst, max_abs_residual}
use gpsopen_cl.Pvt.Position.{Answer, solve_position, solve_in, answer, solve_with, conclude, usable}
use gpsopen_cl.Pvt.Position.{accept, fill_dops, enu_rotation, enu_variance}
use gpsopen_cl.Pvt.Outcome.{solve_position_returns, solve_position_fails}

abbrev quotient : ℤ → ℤ → ℤ
quotient a b =
    sub_ℕ (pos_part a / pos_part b + neg_part a / neg_part b)
      (pos_part a / neg_part b + neg_part a / pos_part b)

abbrev cube : ℤ → ℤ
cube a = a *ℤ a *ℤ a

instance abbrev pub toy : Maths ℤ
toy = record {
  add = λ a b. a +ℤ b;
  sub = λ a b. a -ℤ b;
  mul = λ a b. a *ℤ b;
  div = quotient;
  negate = λ a. pos 0 -ℤ a;
  less = ltb_ℤ;
  less_equal = λ a b. not (ltb_ℤ b a);
  equal = λ a b. not (ltb_ℤ b a) && not (ltb_ℤ a b);
  decimal = λ n e. n;
  pi = pos 180;
  abs = λ a. pos (pos_part a + neg_part a);
  sqrt = λ a. if ltb_ℤ (pos 0) a then pos 1 else pos 0;
  sin = λ a. a;
  cos = λ a. pos 1;
  tan = λ a. a;
  atan2 = λ a b. a;
  pow = λ a b. cube a;
  fmod = λ a b. pos (pos_part a % pos_part b);
  round = λ a. a;
}

abbrev pub ephemeris : ℕ → ℕ → ℕ → ℕ → GpsEphemeris ℤ
ephemeris sv mean node inclination = record {
  sv_id = sv;
  week_number = 0;
  tow = pos 0;
  subframe_id = 0;
  is_valid = true;
  toc = pos 0;
  af0 = pos 0;
  af1 = pos 0;
  af2 = pos 0;
  tgd = pos 0;
  iodc = 0;
  toe = pos 0;
  sqrt_a = pos 1;
  e = pos 0;
  i0 = pos inclination;
  omega0 = pos node;
  omega = pos 0;
  m0 = pos mean;
  delta_n = pos 0;
  omega_dot = pos 0;
  idot = pos 0;
  cuc = pos 0;
  cus = pos 0;
  crc = pos 0;
  crs = pos 0;
  cic = pos 0;
  cis = pos 0;
  iode2 = 0;
  iode3 = 0;
}

abbrev pub four : List (GpsEphemeris ℤ)
four = ephemeris 1 3 5 2 ∷ ephemeris 2 7 1 11 ∷ ephemeris 3 13 4 17 ∷ ephemeris 4 2 9 5 ∷ []

abbrev ranges : List ℤ
ranges = pos 10 ∷ pos 20 ∷ pos 30 ∷ pos 40 ∷ []

abbrev times : List ℤ
times = pos 0 ∷ pos 0 ∷ pos 0 ∷ pos 0 ∷ []

abbrev pub origin : EcefPosition ℤ
origin = record { x = pos 0; y = pos 0; z = pos 0 }

abbrev pub solver : PvtSolver ℤ
solver = record {
  input_config = record {
    min_satellites = 4;
    max_pseudorange_err_meters = pos (10 * 10 * 10000000000000000000000000);
    fix_output_interval = pos 100;
    tropo_enabled = pos 0;
    elevation_mask_deg = pos 10;
  };
  iono_params = record {
    struct_version = 1;
    alpha0 = pos 0;
    alpha1 = pos 0;
    alpha2 = pos 0;
    alpha3 = pos 0;
    beta0 = pos 0;
    beta1 = pos 0;
    beta2 = pos 0;
    beta3 = pos 0;
  };
  reference_ecef = origin;
  has_valid_fix = false;
}

abbrev nothing : ReceiverPvtSolution ℤ
nothing = record {
  ecef_position = origin;
  geodetic_position = record {
    latitude_deg = pos 0;
    longitude_deg = pos 0;
    altitude_meters = pos 0;
  };
  clock_bias_meters = pos 0;
  clock_bias_seconds = pos 0;
  dop_gdop = pos 0;
  dop_pdop = pos 0;
  dop_hdop = pos 0;
  dop_vdop = pos 0;
  is_valid = false;
  satellites_used = 0;
  max_residual_meters = pos 0;
}

abbrev solved : Option (Answer ℤ)
solved = solve_position four ranges times nothing solver

abbrev after : ReceiverPvtSolution ℤ
after = elim solved [ none ↦ nothing | some a ↦ a.1 ]

abbrev solver_after : PvtSolver ℤ
solver_after = elim solved [ none ↦ solver | some a ↦ a.2 ]

-- With a limit of 30 m the solve fails, as there is no satellite to spare.
abbrev strict : PvtSolver ℤ
strict = record solver {
  input_config = record solver.input_config { max_pseudorange_err_meters = pos 30 };
}

strict_fails : solve_position four ranges times nothing strict ≡ some (false, nothing, strict)
unfolding solve_position solve_in answer solve_with conclude iterate gauss_jordan eliminate
    find_pivot augment weighted_normal sum_from usable measure linearise azimuth_elevation
    compute_azimuth_elevation compute_corrections klobuchar_ionospheric_delay
    saastamoinen_tropospheric_delay clear_column identity_row invert_4x4 subtract_row swap_rows
    compute_satellite_orbit ecef_to_wgs84 kepler wrap_week accept enu_rotation enu_variance
    fill_dops above_mask correction max_abs_residual unweighted_normal weighted_residuals worst
    worst_from ◌+ℤ◌ ◌*ℤ◌ ◌-ℤ◌
strict_fails = refl

solve_position_returns_example :
    (a : Answer ℤ) × (solve_position four ranges times nothing strict ≡ some a)
solve_position_returns_example = solve_position_returns four ranges times nothing strict

solve_position_fails_example : (nothing ≡ record nothing { is_valid = false }) × (strict ≡ strict)
solve_position_fails_example =
    solve_position_fails four ranges times nothing nothing strict strict strict_fails
