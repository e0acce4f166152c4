-- ===== src/Pvt/Residuals.antt =====
-- The residuals of a converged round are numbers, and their largest bounds each of them. The laws are
-- those that IEEE 754 gives `double`: NaN is handed on, and is neither below nor above anything.
use gpsopen_cl.Prelude.{
  ◌≡◌, ◌⊎◌, refl, Bool, true, false, inl, inr, Bool-cases, get_or, ◌∙◌, ap, sym, if_intro,
}
use gpsopen_cl.Prelude.{List, [], ◌∷◌, AllOf}
use gpsopen_cl.Prelude.Int.{pos}
use gpsopen_cl.Maths.{Maths, ◌≺◌, ◌⊕◌, ◌⊗◌, whole, larger}
use gpsopen_cl.Pvt.Matrix.{entry}
use gpsopen_cl.Pvt.Solve.{
  Row, sum_from, weighted_residuals, correction, step_norm, max_abs_residual,
}
use gpsopen_cl.Pvt.Solve.{coefficient, PvtSolver, State, Measured, linearise}
use gpsopen_cl.Pvt.Orbit.{ecef_to_wgs84}
use gpsopen_cl.Prelude.{map}

-- Every value but NaN is equal to itself.
abbrev pub is_number : {D : Type 0} → Maths D → D → Bool
is_number m a = m.equal a a

pub record IsIeee {D : Type 0} (m : Maths D) : Type 0 where
  pub add_left : (a b : D) → is_number m a ≡ false → is_number m (m.add a b) ≡ false
  pub add_right : (a b : D) → is_number m b ≡ false → is_number m (m.add a b) ≡ false
  pub mul_left : (a b : D) → is_number m a ≡ false → is_number m (m.mul a b) ≡ false
  pub mul_right : (a b : D) → is_number m b ≡ false → is_number m (m.mul a b) ≡ false
  pub root : (a : D) → is_number m a ≡ false → is_number m (m.sqrt a) ≡ false
  pub absolute : (a : D) → is_number m (m.abs a) ≡ is_number m a
  pub zero_number : is_number m (m.decimal (pos 0) (pos 0)) ≡ true
  pub unordered : (a b : D) → is_number m a ≡ false → m.less a b ≡ false
  pub transitive : (a b c : D) → m.less a b ≡ true → m.less b c ≡ true → m.less a c ≡ true
  pub between :
      (a b c : D)
      → is_number m b ≡ true
      → m.less a c ≡ true
      → (m.less a b ≡ true) ⊎ (m.less b c ≡ true)

module _ {D : Type 0} ⦃m : Maths D⦄ where
  -- No residual is above the limit.
  abbrev pub AreWithin : D → List (Row D) → Type 0
  AreWithin limit rows = AllOf (λ r. (limit ≺ m.abs r.delta_rho) ≡ false) rows

  -- The equations of the satellites, linearised at an estimate.
  abbrev pub rows_at : PvtSolver D → State D → List (Measured D) → List (Row D)
  rows_at solver at sats = map (linearise solver at (ecef_to_wgs84 at.position)) sats

module _ {D : Type 0} ⦃m : Maths D⦄ (ieee : IsIeee m) where
  open m use {abs}

  abbrev AreNumbers : List (Row D) → Type 0
  AreNumbers rows = AllOf (λ r. is_number m r.delta_rho ≡ true) rows

  sum_from-total :
      {A : Type 0} (f : A → D) (total : D) (xs : List A)
      → is_number m total ≡ false
      → is_number m (sum_from f total xs) ≡ false
  unfolding sum_from
  sum_from-total f total [] h = h
  sum_from-total f total (x ∷ xs) h =
      sum_from-total f (total ⊕ f x) xs (ieee.add_left total (f x) h)

  -- A sum over rows, one of which has no number for a term, is not a number.
  numbers_or :
      (f : Row D → D)
      → ((r : Row D) → is_number m r.delta_rho ≡ false → is_number m (f r) ≡ false)
      → (total : D) (rows : List (Row D))
      → AreNumbers rows ⊎ (is_number m (sum_from f total rows) ≡ false)
  unfolding sum_from
  numbers_or f lost total [] = inl tt
  numbers_or f lost total (r ∷ rows) = elim (Bool-cases (is_number m r.delta_rho)) [
    | inl e ↦ elim (numbers_or f lost (total ⊕ f r) rows) [
      | inl all ↦ inl (e, all)
      | inr bad ↦ inr bad
    ]
    | inr e ↦ inr (sum_from-total f (total ⊕ f r) rows (ieee.add_right total (f r) (lost r e)))
  ]

  -- A correction of a vector whose first component is not a number is none either.
  correction_lost :
      (reduced : List (List D)) (hty : List D)
      → is_number m (get_or hty 0 (whole 0)) ≡ false
      → is_number m (correction reduced hty 0) ≡ false
  unfolding correction sum_from
  correction_lost reduced hty h =
      let term = ieee.mul_right (entry reduced 0 4) (get_or hty 0 (whole 0)) h in
      ieee.add_left _ _ (ieee.add_left _ _ (ieee.add_left _ _ (ieee.add_right _ _ term)))

  -- A round whose step is small has numbers for residuals.
  pub small_step-AreNumbers :
      (reduced : List (List D)) (rows : List (Row D)) (limit : D)
      → (step_norm (correction reduced (weighted_residuals rows)) ≺ limit) ≡ true
      → AreNumbers rows
  unfolding weighted_residuals
  small_step-AreNumbers reduced rows limit h =
      let lost =
        numbers_or (λ r. r.weight ⊗ coefficient r 0 ⊗ r.delta_rho)
          (λ r e. ieee.mul_right (r.weight ⊗ coefficient r 0) r.delta_rho e) (whole 0) rows in
      let delta = correction reduced (weighted_residuals rows) in
      elim lost [
        | inl all ↦ all
        | inr bad ↦
            let first = correction_lost reduced (weighted_residuals rows) bad in
            let square = ieee.mul_left (delta 0) (delta 0) first in
            let norm =
              ieee.root _ (
                ieee.add_left _ (delta 2 ⊗ delta 2) (ieee.add_left _ (delta 1 ⊗ delta 1) square)) in
            let above : (step_norm delta ≺ limit) ≡ false = ieee.unordered _ limit norm in absurd cc
      ]

  larger_number :
      (a b : D) → is_number m a ≡ true → is_number m b ≡ true → is_number m (larger a b) ≡ true
  larger_number a b na nb = if_intro (λ x. is_number m x ≡ true) (a ≺ b) b a (λ e. nb) (λ e. na)

  -- Neither of two numbers is above a limit that their larger one is not above.
  larger_within :
      (limit a b : D)
      → is_number m a ≡ true
      → (limit ≺ larger a b) ≡ false
      → ((limit ≺ a) ≡ false) × ((limit ≺ b) ≡ false)
  larger_within limit a b na h = elim (Bool-cases (a ≺ b)) [
    | inl e ↦
        let chosen : larger a b ≡ b = rw e refl in
        let hb : (limit ≺ b) ≡ false = ap (λ x. limit ≺ x) (sym chosen) ∙ h in
        elim (Bool-cases (limit ≺ a)) [
          | inl f ↦ let g = ieee.transitive limit a b f e in absurd cc
          | inr f ↦ (f, hb)
        ]
    | inr e ↦
        let chosen : larger a b ≡ a = rw e refl in
        let ha : (limit ≺ a) ≡ false = ap (λ x. limit ≺ x) (sym chosen) ∙ h in
        elim (Bool-cases (limit ≺ b)) [
          | inl f ↦ elim (ieee.between limit a b na f) [ inl g ↦ absurd cc | inr g ↦ absurd cc ]
          | inr f ↦ (ha, f)
        ]
  ]

  max_abs_residual_within :
      (limit best : D) (rows : List (Row D))
      → is_number m best ≡ true
      → AreNumbers rows
      → (limit ≺ max_abs_residual best rows) ≡ false
      → ((limit ≺ best) ≡ false) × AreWithin limit rows
  unfolding max_abs_residual
  max_abs_residual_within limit best [] nb all h = (h, tt)
  max_abs_residual_within limit best (r ∷ rows) nb (here, all) h =
      let na : is_number m (abs r.delta_rho) ≡ true = ieee.absolute r.delta_rho ∙ here in
      let (later, others) =
        max_abs_residual_within limit (larger (abs r.delta_rho) best) rows
          (larger_number _ best na nb) all h in
      let (first, before) = larger_within limit (abs r.delta_rho) best na later in
      (before, (first, others))

  -- The residuals of a converged round are within a limit that their largest is not above.
  pub converged-AreWithin :
      (reduced : List (List D)) (rows : List (Row D)) (step limit : D)
      → (step_norm (correction reduced (weighted_residuals rows)) ≺ step) ≡ true
      → (limit ≺ max_abs_residual (whole 0) rows) ≡ false
      → AreWithin limit rows
  converged-AreWithin reduced rows step limit h k =
      (max_abs_residual_within limit (whole 0) rows ieee.zero_number
        (small_step-AreNumbers reduced rows step h) k).1
