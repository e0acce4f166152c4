-- ===== src/Application/Pipeline.antt =====
-- The second half of `Application::processBlock`: navigation, position, and the whole block.
use gpsopen_cl.Prelude.{ℕ, zero, suc, ◌%◌, Bool, true, false, Option, none, some}
use gpsopen_cl.Prelude.{List, [], ◌∷◌, ◌==◌, if◌then◌else◌}
use gpsopen_cl.Prelude.Int.{ℤ, pos, negsuc}
use gpsopen_cl.Float.{Floats}
use gpsopen_cl.Maths.{Maths, whole}
use gpsopen_cl.NavDecode.Subframe.{NavigationDecoder}
use gpsopen_cl.Channel.State.{Channel, Engine, is_tracking}
use gpsopen_cl.Channel.History.{update_navigation}
use gpsopen_cl.Application.Schedule.{uint32}
use gpsopen_cl.Pvt.Solve.{PvtSolver, ReceiverPvtSolution}
use gpsopen_cl.Pvt.Assemble.{Measurements, assemble}
use gpsopen_cl.Pvt.Position.{Answer, solve_position}
use gpsopen_cl.Application.State.{Application, BlockInput, PseudorangeSample}
use gpsopen_cl.Application.Block.{receive, dispatch, track_satellites}

-- The fix is computed in every block where the interval is not positive.
unfoldable pub fix_due : ℤ → ℕ → Bool
fix_due (pos zero) block = true
fix_due (pos (suc n)) block = uint32 block % suc n == 0
fix_due (negsuc n) block = true

-- One sample for each satellite of the measurements.
unfoldable pub pseudorange_samples :
    {D : Type 0} → List ℕ → List D → List D → List (PseudorangeSample D)
pseudorange_samples (prn ∷ prns) (t ∷ ts) (r ∷ rs) =
    record { sv_id = prn; transmit_time_seconds = t; measured_pseudorange_meters = r }
    ∷ pseudorange_samples prns ts rs
pseudorange_samples [] ts rs = []
pseudorange_samples (prn ∷ prns) [] rs = []
pseudorange_samples (prn ∷ prns) (t ∷ ts) [] = []

module _ {F D : Type 0} (fp : Floats F D) where
  unfoldable pub update_one :
      {T : Type 0} → Channel T F D → NavigationDecoder D → Channel T F D × NavigationDecoder D
  update_one c decoder =
      let updated = update_navigation fp c.sv_id c.nav decoder in
      if is_tracking c.lock.state
      then (record c { nav = updated.nav }, updated.decoder)
      else (c, decoder)

  -- The channels in order, with the one decoder.
  unfoldable pub update_channel_navigation :
      {T : Type 0}
      → List (Channel T F D)
      → NavigationDecoder D
      → List (Channel T F D) × NavigationDecoder D
  update_channel_navigation [] decoder = ([], decoder)
  update_channel_navigation (c ∷ cs) decoder =
      let (c', decoder') = update_one c decoder in
      let (rest, end) = update_channel_navigation cs decoder' in (c' ∷ rest, end)

-- The solver takes the ionosphere of the decoder where one was received.
unfoldable pub with_iono : {D : Type 0} → NavigationDecoder D → PvtSolver D → PvtSolver D
with_iono decoder solver =
    if decoder.has_iono_params then record solver { iono_params = decoder.iono_params } else solver

module _ {D : Type 0} ⦃m : Maths D⦄ where
  -- `ReceiverPvtSolution solution{}`.
  unfoldable pub blank_solution : ReceiverPvtSolution D
  blank_solution = record {
    ecef_position = record { x = whole 0; y = whole 0; z = whole 0 };
    geodetic_position = record {
      latitude_deg = whole 0;
      longitude_deg = whole 0;
      altitude_meters = whole 0;
    };
    clock_bias_meters = whole 0;
    clock_bias_seconds = whole 0;
    dop_gdop = whole 0;
    dop_pdop = whole 0;
    dop_hdop = whole 0;
    dop_vdop = whole 0;
    is_valid = false;
    satellites_used = 0;
    max_residual_meters = whole 0;
  }

  module _ {T F : Type 0} (fp : Floats F D) (sort : List D → List D) where
    -- What the solve writes; none does not occur (Pvt/Outcome).
    unfoldable pub take_answer : Option (Answer D) → Application T F D → Bool × Application T F D
    take_answer none app = (false, app)
    take_answer (some (ok, sol, solver)) app = (ok, record app { pvt_solver = solver })

    unfoldable pub solve_measured :
        Bool × Measurements D → Application T F D → Bool × Application T F D
    solve_measured (false, out) app = (false, record app { last_pseudorange_samples = [] })
    solve_measured (true, out) app =
        take_answer
          (solve_position out.ephemerides out.pseudoranges out.transmit_times blank_solution
            (with_iono app.nav_decoder app.pvt_solver))
          (record app {
            last_pseudorange_samples =
                pseudorange_samples out.prns out.transmit_times out.pseudoranges;
            pvt_solver = with_iono app.nav_decoder app.pvt_solver;
          })

    unfoldable pub compute_navigation_solution : Application T F D → Bool × Application T F D
    compute_navigation_solution app =
        solve_measured
          (assemble fp sort app.channels app.pvt_solver.reference_ecef app.pvt_solver.has_valid_fix)
          app

    module _ {C : Type 0} (eng : Engine C T F) (conf : BlockInput C F D) where
      unfoldable pub navigate : Application T F D → Application T F D
      navigate app =
          let (channels, decoder) = update_channel_navigation fp app.channels app.nav_decoder in
          record app { channels = channels; nav_decoder = decoder }

      unfoldable pub fix : ℕ → Application T F D → Application T F D
      fix block app =
          if fix_due conf.fix_output_interval_blocks block
          then (compute_navigation_solution app).1
          else app

      unfoldable pub process_block : List (F × F) → ℕ → Application T F D → Application T F D
      process_block input block app =
          let searched = dispatch fp eng conf input block (receive fp eng conf app) in
          fix block (navigate (track_satellites fp eng input searched))
