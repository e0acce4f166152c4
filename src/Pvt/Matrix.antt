-- ===== src/Pvt/Matrix.antt =====
-- Gauss-Jordan elimination with row pivoting on four rows of eight: `invert4x4` of
-- Source/Pvt/GPSOpenClPVTSolver.cpp, and the same elimination inside `solvePosition`.
use gpsopen_cl.Prelude.{ℕ, zero, suc, ◌-◌, Option, none, some}
use gpsopen_cl.Prelude.{List, [], ◌∷◌, ◌++◌, map, get_or, set, drop}
use gpsopen_cl.Prelude.{◌==◌, if◌then◌else◌, ◌>>=◌}
use gpsopen_cl.Prelude.Int.{pos, negsuc}
use gpsopen_cl.Maths.{Maths, ◌⊖◌, ◌⊗◌, ◌⊘◌, ◌≺◌, whole}

module _ {D : Type 0} ⦃m : Maths D⦄ where
  open m use {decimal, abs}

  abbrev pub entry : List (List D) → ℕ → ℕ → D
  entry a r c = get_or (get_or a r []) c (whole 0)

  -- The rows from `k` on, `n` of them, looked through for a larger entry in column `i`.
  unfoldable pub find_pivot : List (List D) → ℕ → ℕ → ℕ → ℕ → D → ℕ × D
  find_pivot a i zero k row best = (row, best)
  find_pivot a i (suc n) k row best =
      let here = abs (entry a k i) in
      let next : ℕ × D = if best ≺ here then (k, here) else (row, best) in
      find_pivot a i n (suc k) (next.0) (next.1)

  unfoldable pub swap_rows : List (List D) → ℕ → ℕ → List (List D)
  swap_rows a i p = set (set a i (get_or a p [])) p (get_or a i [])

  unfoldable pub subtract_row : D → List D → List D → List D
  subtract_row factor (x ∷ xs) (p ∷ ps) = (x ⊖ (factor ⊗ p)) ∷ subtract_row factor xs ps
  subtract_row factor [] ps = []
  subtract_row factor (x ∷ xs) [] = x ∷ xs

  -- The pivot row, of index `i`, taken off every other row; `k` is the index of the first.
  unfoldable pub clear_column : List D → ℕ → ℕ → List (List D) → List (List D)
  clear_column pivot_row i k [] = []
  clear_column pivot_row i k (r ∷ rs) =
      (if k == i then r else subtract_row (get_or r i (whole 0)) r pivot_row)
      ∷ clear_column pivot_row i (suc k) rs

  -- One round of the elimination, none where the pivot is too small.
  unfoldable pub eliminate : ℕ → List (List D) → Option (List (List D))
  eliminate i a =
      let found = find_pivot a i (3 - i) (suc i) i (abs (entry a i i)) in
      let swapped = if found.0 == i then a else swap_rows a i (found.0) in
      let pivot_row = map (λ x. x ⊘ entry swapped i i) (get_or swapped i []) in
      if found.1 ≺ decimal (pos 1) (negsuc 11)
      then none
      else some (clear_column pivot_row i 0 (set swapped i pivot_row))

  unfoldable pub gauss_jordan : List (List D) → Option (List (List D))
  gauss_jordan a = do a1 ← eliminate 0 a; a2 ← eliminate 1 a1; a3 ← eliminate 2 a2; eliminate 3 a3

  -- The identity at the right of four rows.
  unfoldable pub identity_row : ℕ → List D
  identity_row r = set (whole 0 ∷ whole 0 ∷ whole 0 ∷ whole 0 ∷ []) r (whole 1)

  unfoldable pub augment : ℕ → List (List D) → List (List D)
  augment k [] = []
  augment k (r ∷ rs) = (r ++ identity_row k) ∷ augment (suc k) rs

  unfoldable pub invert_4x4 : List (List D) → Option (List (List D))
  invert_4x4 a = do reduced ← gauss_jordan (augment 0 a); some (map (λ r. drop 4 r) reduced)
