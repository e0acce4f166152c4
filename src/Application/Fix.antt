-- ===== src/Application/Fix.antt =====
-- What a navigation solution changes: a failure keeps the reference position, and a fix, once there,
-- is never lost.
use gpsopen_cl.Prelude.{◌≡◌, refl, ◌∙◌, ap, Bool, true, false, some, List, Bool-cases, inl, inr}
use gpsopen_cl.Float.{Floats}
use gpsopen_cl.Maths.{Maths}
use gpsopen_cl.NavDecode.Subframe.{NavigationDecoder}
use gpsopen_cl.Pvt.Solve.{PvtSolver}
use gpsopen_cl.Pvt.Assemble.{Measurements, assemble}
use gpsopen_cl.Pvt.Position.{Answer, solve_position}
use gpsopen_cl.Pvt.Outcome.{solve_position_returns, solve_position_fails, solve_position_fixes}
use gpsopen_cl.Application.State.{Application}
use gpsopen_cl.Application.Pipeline.{with_iono, blank_solution, take_answer, solve_measured}
use gpsopen_cl.Application.Pipeline.{compute_navigation_solution}

with_iono_keeps :
    {D : Type 0} (decoder : NavigationDecoder D) (solver : PvtSolver D)
    → ((with_iono decoder solver).reference_ecef ≡ solver.reference_ecef)
      × ((with_iono decoder solver).has_valid_fix ≡ solver.has_valid_fix)
unfolding with_iono
with_iono_keeps decoder solver = elim (Bool-cases decoder.has_iono_params) [
  | inl e ↦ rw (with_iono, e) (refl, refl)
  | inr e ↦ rw (with_iono, e) (refl, refl)
]

module _ {T F D : Type 0} ⦃m : Maths D⦄ (fp : Floats F D) (sort : List D → List D) where
  -- What a solution leaves: a fix on success, and reference and fix as they were on failure.
  abbrev IsSolved : Application T F D → Bool × Application T F D → Type 0
  IsSolved app (true, after) = after.pvt_solver.has_valid_fix ≡ true
  IsSolved app (false, after) =
      (after.pvt_solver.reference_ecef ≡ app.pvt_solver.reference_ecef)
      × (after.pvt_solver.has_valid_fix ≡ app.pvt_solver.has_valid_fix)

  answer-IsSolved :
      (out : Measurements D) (app mid : Application T F D) (a : Answer D)
      → solve_position out.ephemerides out.pseudoranges out.transmit_times blank_solution
          (with_iono app.nav_decoder app.pvt_solver)
        ≡ some a
      → IsSolved app (take_answer fp sort (some a) mid)
  unfolding take_answer
  answer-IsSolved out app mid (true, sol, solver) e =
      let taken =
        solve_position_fixes out.ephemerides out.pseudoranges out.transmit_times blank_solution sol
          (with_iono app.nav_decoder app.pvt_solver) solver e in
      rw taken refl
  answer-IsSolved out app mid (false, sol, solver) e =
      let (marked, kept) =
        solve_position_fails out.ephemerides out.pseudoranges out.transmit_times blank_solution sol
          (with_iono app.nav_decoder app.pvt_solver) solver e in
      let (reference, valid) = with_iono_keeps app.nav_decoder app.pvt_solver in
      (ap (λ s. s.reference_ecef) kept ∙ reference, ap (λ s. s.has_valid_fix) kept ∙ valid)

  measured-IsSolved :
      (measured : Bool × Measurements D) (app : Application T F D)
      → IsSolved app (solve_measured fp sort measured app)
  unfolding solve_measured
  measured-IsSolved (false, out) app = (refl, refl)
  measured-IsSolved (true, out) app =
      let (a, e) =
        solve_position_returns out.ephemerides out.pseudoranges out.transmit_times blank_solution
          (with_iono app.nav_decoder app.pvt_solver) in
      rw (solve_measured, e) (answer-IsSolved out app _ a e)

  solved :
      (app : Application T F D) (o : Bool × Application T F D)
      → IsSolved app o
      → (o.0 ≡ false
          → (o.1.pvt_solver.reference_ecef ≡ app.pvt_solver.reference_ecef)
            × (o.1.pvt_solver.has_valid_fix ≡ app.pvt_solver.has_valid_fix))
        × (app.pvt_solver.has_valid_fix ≡ true → o.1.pvt_solver.has_valid_fix ≡ true)
  solved app (true, after) h = (λ e. absurd cc, λ e. h)
  solved app (false, after) h = (λ e. h, λ e. h.1 ∙ e)

  -- A navigation solution that fails keeps the reference position and the fix.
  pub compute_navigation_solution_fails :
      (app : Application T F D)
      → (compute_navigation_solution fp sort app).0 ≡ false
      → ((compute_navigation_solution fp sort app).1.pvt_solver.reference_ecef
          ≡ app.pvt_solver.reference_ecef)
        × ((compute_navigation_solution fp sort app).1.pvt_solver.has_valid_fix
            ≡ app.pvt_solver.has_valid_fix)
  unfolding compute_navigation_solution
  compute_navigation_solution_fails app e =
      (solved app _ (
          measured-IsSolved
            (assemble fp sort app.channels app.pvt_solver.reference_ecef
              app.pvt_solver.has_valid_fix)
            app)).0
        e
