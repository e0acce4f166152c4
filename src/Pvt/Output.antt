-- ===== src/Pvt/Output.antt =====
-- `PVTSolver::solutionToOutput`: the solution in its wire form, without the version tag.
use gpsopen_cl.Prelude.{ℕ, if◌then◌else◌}
use gpsopen_cl.Pvt.Solve.{ReceiverPvtSolution}

pub record PvtSolverOutput (D : Type 0) : Type 0 where
  pub ecef_x_meters : D
  pub ecef_y_meters : D
  pub ecef_z_meters : D
  pub latitude_deg : D
  pub longitude_deg : D
  pub altitude_meters : D
  pub clock_bias_meters : D
  pub clock_bias_seconds : D
  pub dop_gdop : D
  pub dop_pdop : D
  pub dop_hdop : D
  pub dop_vdop : D
  pub is_valid : ℕ
  pub satellites_used : ℕ
  pub max_residual_meters : D

unfoldable pub solution_to_output : {D : Type 0} → ReceiverPvtSolution D → PvtSolverOutput D
solution_to_output sol = record {
  ecef_x_meters = sol.ecef_position.x;
  ecef_y_meters = sol.ecef_position.y;
  ecef_z_meters = sol.ecef_position.z;
  latitude_deg = sol.geodetic_position.latitude_deg;
  longitude_deg = sol.geodetic_position.longitude_deg;
  altitude_meters = sol.geodetic_position.altitude_meters;
  clock_bias_meters = sol.clock_bias_meters;
  clock_bias_seconds = sol.clock_bias_seconds;
  dop_gdop = sol.dop_gdop;
  dop_pdop = sol.dop_pdop;
  dop_hdop = sol.dop_hdop;
  dop_vdop = sol.dop_vdop;
  is_valid = if sol.is_valid then 1 else 0;
  satellites_used = sol.satellites_used;
  max_residual_meters = sol.max_residual_meters;
}
