-- ===== src/Pvt/Solved.antt =====
-- `PVTSolver::solvePosition` ends, and what it leaves behind on success and on failure.
use gpsopen_cl.Prelude.{ℕ, zero, suc, ◌+◌, ◌<◌, ◌≤◌, ◌≡◌, refl, false}
use gpsopen_cl.Prelude.{Option, none, some, inl, inr, Bool-cases, Option-cases, arith, length-map}
use gpsopen_cl.Prelude.{
  List, [], ◌∷◌, take, drop, length, length-take, length-drop, length-append, ltb,
}
use gpsopen_cl.Prelude.Int.{pos, negsuc}
use gpsopen_cl.Maths.{Maths, ◌≺◌, whole}
use gpsopen_cl.Pvt.Orbit.{ecef_to_wgs84}
use gpsopen_cl.Pvt.Matrix.{augment, gauss_jordan}
use gpsopen_cl.Pvt.Solve.{PvtSolver, Measured, Row, State, Fix, Round, singular}
use gpsopen_cl.Pvt.Solve.{exhausted, converged, weighted_normal, weighted_residuals}
use gpsopen_cl.Pvt.Solve.{
  iterate, worst, worst_from, erase, max_abs_residual, start, linearise, correction, moved,
  step_norm,
}
use gpsopen_cl.Pvt.Position.{solve_with, conclude}
use gpsopen_cl.Pvt.Residuals.{IsIeee, AreWithin, rows_at, converged-AreWithin}
use gpsopen_cl.Prelude.Lists.{AllOf-take, AllOf-drop, AllOf-append, IsIn}
use gpsopen_cl.Prelude.{AllOf, ap, ◌∙◌}
use mathlib.Core.Path.{subst}

-- Taking one entry out of a list makes it shorter by one.
length-erase :
    {A : Type 0} (xs : List A) (i : ℕ) → i < length xs → length (erase xs i) + 1 ≡ length xs
length-erase xs i h =
    omega
      (arith, length-append (take i xs) (drop (suc i) xs), length-take i xs, length-drop (suc i) xs)

AllOf-erase :
    {A : Type 0} (P : A → Type 0) (xs : List A) (i : ℕ) → AllOf P xs → AllOf P (erase xs i)
AllOf-erase P xs i h =
    AllOf-append P (take i xs) (drop (suc i) xs) (AllOf-take P i xs h) (AllOf-drop P (suc i) xs h)

module _ {D : Type 0} ⦃m : Maths D⦄ where
  open m use {abs, decimal}

  worst_from_bound :
      (rows : List (Row D)) (i w : ℕ) (v : D) → w < i → worst_from rows i w v < i + length rows
  unfolding worst_from
  worst_from_bound [] i w v h = omega arith
  worst_from_bound (r ∷ rows) i w v h =
      let here = abs r.delta_rho in
      elim (Bool-cases (v ≺ here)) [
        | inl e ↦
            rw (worst_from, e) (omega (arith, worst_from_bound rows (suc i) i here (omega arith)))
        | inr e ↦
            rw (worst_from, e) (omega (arith, worst_from_bound rows (suc i) w v (omega arith)))
      ]

  -- The worst residual is that of a row.
  worst_bound : (rows : List (Row D)) → 0 < length rows → worst rows < length rows
  unfolding worst
  worst_bound [] h = h
  worst_bound (r ∷ rows) h =
      omega (arith, worst_from_bound rows 1 0 (abs r.delta_rho) (omega arith))

  -- What a round ends with: the rows are those of the satellites, and a converged round judges them.
  abbrev HasRows : PvtSolver D → List (Measured D) → Round D → Type 0
  HasRows solver sats singular = Unit {0}
  HasRows solver sats (exhausted rows) = length rows ≡ length sats
  HasRows solver sats (converged state rows) =
      (at : State D) × (rows ≡ rows_at solver at sats)
      × ((limit : D)
          → IsIeee m
          → (limit ≺ max_abs_residual (whole 0) rows) ≡ false
          → AreWithin limit rows)

  length-rows_at :
      (solver : PvtSolver D) (at : State D) (sats : List (Measured D))
      → length (rows_at solver at sats) ≡ length sats
  length-rows_at solver at sats = length-map sats (linearise solver at (ecef_to_wgs84 at.position))

  iterate-HasRows :
      (solver : PvtSolver D) (sats : List (Measured D)) (n : ℕ) (state : State D)
      → (last : List (Row D)) → (n ≡ 0 → length last ≡ length sats)
      → HasRows solver sats (iterate solver sats n state last)
  unfolding iterate
  iterate-HasRows solver sats zero state last h = h refl
  iterate-HasRows solver sats (suc n) state last h =
      let rows = rows_at solver state sats in
      elim (Option-cases (gauss_jordan (augment 0 (weighted_normal rows)))) [
        | inl e ↦ rw (iterate, e) tt
        | inr (reduced, e) ↦
            let delta = correction reduced (weighted_residuals rows) in
            let small = decimal (pos 1) (negsuc 3) in
            elim (Bool-cases (step_norm delta ≺ small)) [
              | inl f ↦
                  rw (iterate, e, f)
                    (
                      state,
                      refl,
                      λ limit ieee k. converged-AreWithin ieee reduced rows small limit f k,
                    )
              | inr f ↦
                  rw (iterate, e, f)
                    (iterate-HasRows solver sats n (moved state delta) rows
                      (λ z. length-rows_at solver state sats))
            ]
      ]

  -- A fix keeps at least the minimum of the satellites given, and no residual above the limit.
  pub record IsFix (solver : PvtSolver D) (given : List (Measured D)) (n : ℕ) (fix : Fix D)
      (kept : List (Measured D)) : Type 0 where
    pub enough : solver.input_config.min_satellites ≤ length kept
    pub none_added : length kept ≤ n
    pub among : AllOf (λ s. IsIn s given) kept
    pub within : (solver.input_config.max_pseudorange_err_meters ≺ fix.max_residual) ≡ false
    pub estimate : State D
    pub largest : fix.max_residual ≡ max_abs_residual (whole 0) (rows_at solver estimate kept)
    pub judged :
        IsIeee m
        → AreWithin solver.input_config.max_pseudorange_err_meters (rows_at solver estimate kept)

  -- The rounds came to an end, with failure or with such a fix.
  abbrev pub IsEnding :
      PvtSolver D → List (Measured D) → ℕ → Option (Option (Fix D × List (Measured D))) → Type 0
  IsEnding solver given n none = ⊥
  IsEnding solver given n (some none) = Unit {0}
  IsEnding solver given n (some (some (fix, kept))) = IsFix solver given n fix kept

  conclude-IsEnding :
      (solver : PvtSolver D) (given sats : List (Measured D))
      → (retry : List (Row D) → Option (Option (Fix D × List (Measured D)))) → (round : Round D)
      → solver.input_config.min_satellites ≤ length sats
      → AllOf (λ s. IsIn s given) sats
      → HasRows solver sats round
      → ((rows : List (Row D))
          → length rows ≡ length sats
          → solver.input_config.min_satellites + 2 ≤ length sats
          → IsEnding solver given (length sats) (retry rows))
      → IsEnding solver given (length sats) (conclude solver (length sats) retry sats round)
  unfolding conclude
  conclude-IsEnding solver given sats retry singular h among rows again = tt
  conclude-IsEnding solver given sats retry (exhausted rows) h among len again =
      let few = ltb (length sats) (solver.input_config.min_satellites + 2) in
      elim (Bool-cases few) [
        | inl e ↦ rw (conclude, e) tt
        | inr e ↦ rw (conclude, e) (again rows len (ground arith))
      ]
  conclude-IsEnding solver given sats retry (converged state rows) h among (at, of_sats, judge)
        again =
      let few = ltb (length sats) (solver.input_config.min_satellites + 2) in
      let limit = solver.input_config.max_pseudorange_err_meters in
      let len : length rows ≡ length sats = ap length of_sats ∙ length-rows_at solver at sats in
      elim (Bool-cases (limit ≺ max_abs_residual (whole 0) rows)) [
        | inl f ↦ elim (Bool-cases few) [
          | inl e ↦ rw (conclude, f, e) tt
          | inr e ↦ rw (conclude, f, e) (again rows len (ground arith))
        ]
        | inr f ↦
            rw (conclude, f)
              (record {
                enough = h;
                none_added = omega arith;
                among = among;
                within = f;
                estimate = at;
                largest = ap (λ l. max_abs_residual (whole 0) l) of_sats;
                judged = λ ieee. subst (λ l. AreWithin limit l) of_sats (judge limit ieee f);
              })
      ]

  pub IsEnding-weaken :
      (solver : PvtSolver D) (given : List (Measured D)) (n k : ℕ)
      → (o : Option (Option (Fix D × List (Measured D)))) → n ≤ k
      → IsEnding solver given n o
      → IsEnding solver given k o
  IsEnding-weaken solver given n k none h e = e
  IsEnding-weaken solver given n k (some none) h e = tt
  IsEnding-weaken solver given n k (some (some (fix, kept))) h e = record {
    enough = e.enough;
    none_added = omega (arith, e.none_added);
    among = e.among;
    within = e.within;
    estimate = e.estimate;
    largest = e.largest;
    judged = e.judged;
  }

  -- With more fuel than satellites the rounds end.
  pub solve_with-IsEnding :
      (solver : PvtSolver D) (given : List (Measured D)) (fuel : ℕ) (sats : List (Measured D))
      → length sats < fuel
      → solver.input_config.min_satellites ≤ length sats
      → AllOf (λ s. IsIn s given) sats
      → IsEnding solver given (length sats) (solve_with solver fuel sats)
  unfolding solve_with
  solve_with-IsEnding solver given zero sats h k among = absurd (omega arith)
  solve_with-IsEnding solver given (suc fuel) sats h k among =
      conclude-IsEnding solver given sats (λ rows. solve_with solver fuel (erase sats (worst rows)))
        (iterate solver sats 15 (start solver) []) k among
        (iterate-HasRows solver sats 15 (start solver) [] (λ e. absurd (omega arith)))
        (λ rows len enough.
          let bound : worst rows < length sats = omega (arith, worst_bound rows (omega arith)) in
          let rest = erase sats (worst rows) in
          let shorter = length-erase sats (worst rows) bound in
          IsEnding-weaken solver given (length rest) (length sats) (solve_with solver fuel rest)
            (omega arith)
            (solve_with-IsEnding solver given fuel rest (omega arith) (omega arith)
              (AllOf-erase (λ s. IsIn s given) sats (worst rows) among)))
