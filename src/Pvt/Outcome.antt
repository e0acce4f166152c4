-- ===== src/Pvt/Outcome.antt =====
-- What `PVTSolver::solvePosition` returns and writes on success and on failure.
use gpsopen_cl.Prelude.{ℕ, suc, ◌≤◌, ◌≡◌, refl, Bool, true, false, ◌||◌, ◌&&◌, ltb}
use gpsopen_cl.Prelude.{Option, none, some, inl, inr, Bool-cases, arith}
use gpsopen_cl.Prelude.{List, [], ◌∷◌, length}
use gpsopen_cl.Maths.{Maths, ◌≺◌}
use gpsopen_cl.NavDecode.Subframe.{GpsEphemeris}
use gpsopen_cl.Pvt.Orbit.{EcefPosition}
use gpsopen_cl.Pvt.Atmosphere.{compute_azimuth_elevation}
use gpsopen_cl.Pvt.Matrix.{invert_4x4}
use gpsopen_cl.Pvt.Solve.{PvtSolver, ReceiverPvtSolution, Measured, Fix, measure, above_mask}
use gpsopen_cl.Pvt.Solve.{unweighted_normal}
use gpsopen_cl.Pvt.Position.{
  solve_with, answer, accept, fill_dops, Answer, failed, usable, solve_in,
}
use gpsopen_cl.Pvt.Position.{solve_position, masked}
use gpsopen_cl.Pvt.Solved.{IsEnding, IsEnding-weaken, solve_with-IsEnding}
use gpsopen_cl.Pvt.Residuals.{IsIeee, AreWithin, rows_at}
use gpsopen_cl.Pvt.Solve.{State, max_abs_residual}
use gpsopen_cl.Prelude.{AllOf, if_intro, ◌∙◌}
use gpsopen_cl.Prelude.Lists.{IsIn, IsIn-all}
use gpsopen_cl.Maths.{whole}
use mathlib.Core.Path.{subst}

unmasked : (a b : Bool) → a ≡ true → (a && b) ≡ false → b ≡ false
unmasked true b h e = e
unmasked false b h e = absurd cc

module _ {D : Type 0} ⦃m : Maths D⦄ where
  length-measure :
      (es : List (GpsEphemeris D)) (rs ts : List D)
      → length es ≤ length rs
      → length es ≤ length ts
      → length (measure es rs ts) ≡ length es
  unfolding measure
  length-measure [] rs ts h k = refl
  length-measure (e ∷ es) [] ts h k = absurd (omega arith)
  length-measure (e ∷ es) (r ∷ rs) [] h k = absurd (omega arith)
  length-measure (e ∷ es) (r ∷ rs) (t ∷ ts) h k =
      omega (arith, length-measure es rs ts (omega arith) (omega arith))

  length-above_mask :
      (reference : EcefPosition D) (mask : D) (sats : List (Measured D))
      → length (above_mask reference mask sats) ≤ length sats
  unfolding above_mask
  length-above_mask reference mask [] = omega arith
  length-above_mask reference mask (s ∷ sats) =
      let low = (compute_azimuth_elevation reference s.orbit.position).1 ≺ mask in
      elim (Bool-cases low) [
        | inl e ↦ rw (above_mask, e) (omega (arith, length-above_mask reference mask sats))
        | inr e ↦ rw (above_mask, e) (omega (arith, length-above_mask reference mask sats))
      ]

  length-usable :
      (solver : PvtSolver D) (sats : List (Measured D))
      → (length (usable solver sats) ≤ length sats)
        × (masked solver ≡ false → length (usable solver sats) ≡ length sats)
  unfolding usable
  length-usable solver sats = elim (Bool-cases (masked solver)) [
    | inl e ↦ (rw (usable, e) (length-above_mask _ _ sats), λ f. absurd cc)
    | inr e ↦ (rw (usable, e) (omega arith), λ f. rw (usable, e) refl)
  ]

  AllOf-above_mask :
      (P : Measured D → Type 0) (reference : EcefPosition D) (mask : D) (sats : List (Measured D))
      → AllOf P sats
      → AllOf P (above_mask reference mask sats)
  unfolding above_mask
  AllOf-above_mask P reference mask [] h = tt
  AllOf-above_mask P reference mask (s ∷ sats) (p, h) =
      let kept = AllOf-above_mask P reference mask sats h in
      if_intro (AllOf P) ((compute_azimuth_elevation reference s.orbit.position).1 ≺ mask)
        (above_mask reference mask sats) (s ∷ above_mask reference mask sats) (λ e. kept)
        (λ e. (p, kept))

  AllOf-usable :
      (P : Measured D → Type 0) (solver : PvtSolver D) (sats : List (Measured D))
      → AllOf P sats
      → AllOf P (usable solver sats)
  unfolding usable
  AllOf-usable P solver sats h =
      let mask = solver.input_config.elevation_mask_deg in
      if_intro (AllOf P) (masked solver) (above_mask solver.reference_ecef mask sats) sats
        (λ e. AllOf-above_mask P solver.reference_ecef mask sats h) (λ e. h)

  -- What a call leaves: nothing but the mark of failure, or a fix that is taken up.
  abbrev pub IsAnswer :
      ReceiverPvtSolution D → PvtSolver D → List (Measured D) → ℕ → Answer D → Type 0
  IsAnswer sol solver given n (false, after, solver') =
      (after ≡ record sol { is_valid = false }) × (solver' ≡ solver)
  IsAnswer sol solver given n (true, after, solver') =
      (after.is_valid ≡ true)
      × (after.satellites_used ≤ n)
      × (solver' ≡ record solver { reference_ecef = after.ecef_position; has_valid_fix = true })
      × ((solver.input_config.max_pseudorange_err_meters ≺ after.max_residual_meters) ≡ false)
      × (solver.input_config.min_satellites ≤ after.satellites_used)
      × (estimate : State D) × (kept : List (Measured D)) × (after.satellites_used ≡ length kept)
      × AllOf (λ s. IsIn s given) kept
      × (after.max_residual_meters ≡ max_abs_residual (whole 0) (rows_at solver estimate kept))
      × (IsIeee m
          → AreWithin solver.input_config.max_pseudorange_err_meters (rows_at solver estimate kept))

  fill_dops_keeps :
      (o : Option (List (List D))) (sol : ReceiverPvtSolution D)
      → ((fill_dops o sol).satellites_used ≡ sol.satellites_used)
        × ((fill_dops o sol).max_residual_meters ≡ sol.max_residual_meters)
        × ((fill_dops o sol).ecef_position ≡ sol.ecef_position)
  unfolding fill_dops
  fill_dops_keeps none sol = (refl, refl, refl)
  fill_dops_keeps (some inv) sol = (refl, refl, refl)

  -- What a fix taken up says.
  accept_keeps :
      (fix : Fix D) (count : ℕ) (sol : ReceiverPvtSolution D)
      → ((accept fix count sol).is_valid ≡ true)
        × ((accept fix count sol).satellites_used ≡ count)
        × ((accept fix count sol).max_residual_meters ≡ fix.max_residual)
        × ((accept fix count sol).ecef_position ≡ fix.state.position)
  unfolding accept
  accept_keeps fix count sol =
      let (used, residual, position) =
        fill_dops_keeps (invert_4x4 (unweighted_normal fix.rows)) _ in
      (refl, used, residual, position)

  abbrev Returned :
      ReceiverPvtSolution D → PvtSolver D → List (Measured D) → ℕ → Option (Answer D) → Type 0
  Returned sol solver given n o = (a : Answer D) × (o ≡ some a) × IsAnswer sol solver given n a

  answer-Returned :
      (sol : ReceiverPvtSolution D) (solver : PvtSolver D) (given : List (Measured D)) (n : ℕ)
      → (o : Option (Option (Fix D × List (Measured D)))) → IsEnding solver given n o
      → Returned sol solver given n (answer sol solver o)
  unfolding answer
  answer-Returned sol solver given n none h = absurd h
  answer-Returned sol solver given n (some none) h = (failed sol solver, refl, (refl, refl))
  answer-Returned sol solver given n (some (some (fix, kept))) h =
      let (valid, used, residual, position) = accept_keeps fix (length kept) sol in
      (
        (true, accept fix (length kept) sol, _),
        refl,
        (
          valid,
          rw used h.none_added,
          rw position refl,
          rw residual h.within,
          rw used h.enough,
          h.estimate,
          kept,
          used,
          h.among,
          residual ∙ h.largest,
          h.judged,
        ),
      )

  solve_in-Returned :
      (es : List (GpsEphemeris D)) (rs ts : List D)
      → (sol : ReceiverPvtSolution D) (solver : PvtSolver D)
      → Returned sol solver (measure es rs ts) (length es) (solve_position es rs ts sol solver)
  unfolding solve_position solve_in
  solve_in-Returned es rs ts sol solver =
      let minimum = solver.input_config.min_satellites in
      let sats = usable solver (measure es rs ts) in
      let short =
        ltb (length es) minimum || ltb (length rs) (length es) || ltb (length ts) (length es) in
      let low = masked solver && ltb (length sats) minimum in
      elim (Bool-cases short) [
        | inl e ↦ rw (solve_position, solve_in, e) (failed sol solver, refl, (refl, refl))
        | inr e ↦ elim (Bool-cases low) [
          | inl f ↦ rw (solve_position, solve_in, e, f) (failed sol solver, refl, (refl, refl))
          | inr f ↦
              let (fewer, all) = length-usable solver (measure es rs ts) in
              let len = length-measure es rs ts (ground arith) (ground arith) in
              let enough : minimum ≤ length sats = elim (Bool-cases (masked solver)) [
                | inl g ↦ ground (arith, unmasked (masked solver) (ltb (length sats) minimum) g f)
                | inr g ↦ ground (arith, all g)
              ] in
              rw (solve_position, solve_in, e, f)
                (answer-Returned sol solver (measure es rs ts) (length es) _ (
                  IsEnding-weaken solver (measure es rs ts) (length sats) (length es)
                    (solve_with solver (suc (length es)) sats) (omega arith)
                    (solve_with-IsEnding solver (measure es rs ts) (suc (length es)) sats
                      (omega arith) enough
                      (AllOf-usable _ solver (measure es rs ts) (IsIn-all (measure es rs ts))))))
        ]
      ]

  -- What a given result is, where one is known.
  settled :
      {o : Option (Answer D)}
      → (sol : ReceiverPvtSolution D) (solver : PvtSolver D) (given : List (Measured D)) (n : ℕ)
        (a : Answer D)
      → Returned sol solver given n o
      → o ≡ some a
      → IsAnswer sol solver given n a
  settled sol solver given n a (b, e, h) f =
      let same : b ≡ a = cc in subst (λ x. IsAnswer sol solver given n x) same h

  -- The solve returns, for any measurements and any arithmetic.
  pub solve_position_returns :
      (es : List (GpsEphemeris D)) (rs ts : List D)
      → (sol : ReceiverPvtSolution D) (solver : PvtSolver D)
      → (a : Answer D) × (solve_position es rs ts sol solver ≡ some a)
  solve_position_returns es rs ts sol solver =
      let (a, e, h) = solve_in-Returned es rs ts sol solver in (a, e)

  -- A solve that fails marks the solution invalid and changes nothing else, neither in the solution
  -- nor in the solver.
  pub solve_position_fails :
      (es : List (GpsEphemeris D)) (rs ts : List D)
      → (sol after : ReceiverPvtSolution D) (solver solver' : PvtSolver D)
      → solve_position es rs ts sol solver ≡ some (false, after, solver')
      → (after ≡ record sol { is_valid = false }) × (solver' ≡ solver)
  solve_position_fails es rs ts sol after solver solver' e =
      settled sol solver (measure es rs ts) (length es) (false, after, solver')
        (solve_in-Returned es rs ts sol solver) e

  -- In any arithmetic, the position of a solve that succeeds becomes the reference.
  pub solve_position_fixes :
      (es : List (GpsEphemeris D)) (rs ts : List D)
      → (sol after : ReceiverPvtSolution D) (solver solver' : PvtSolver D)
      → solve_position es rs ts sol solver ≡ some (true, after, solver')
      → solver' ≡ record solver { reference_ecef = after.ecef_position; has_valid_fix = true }
  solve_position_fixes es rs ts sol after solver solver' e =
      (settled sol solver (measure es rs ts) (length es) (true, after, solver')
        (solve_in-Returned es rs ts sol solver) e).2
