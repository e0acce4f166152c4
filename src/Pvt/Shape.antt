-- ===== src/Pvt/Shape.antt =====
-- The elimination stays inside its array of four rows of eight.
use gpsopen_cl.Prelude.{
  ℕ, Bool, zero, suc, ◌+◌, ◌-◌, ◌<◌, ◌≤◌, ◌≡◌, refl, Option, none, some, inl, inr, ap, ◌∙◌,
}
use gpsopen_cl.Prelude.{List, [], ◌∷◌, map, get_or, set, length, length-set, length-map, ◌∙◌}
use gpsopen_cl.Prelude.{◌==◌, if◌then◌else◌, Bool-cases, arith, true, false, ◌>>=◌}
use gpsopen_cl.Prelude.Int.{pos, negsuc}
use gpsopen_cl.Maths.{Maths, ◌⊘◌, ◌≺◌, whole}
use gpsopen_cl.Pvt.Matrix.{entry, find_pivot, swap_rows, subtract_row, clear_column, eliminate}
use gpsopen_cl.Pvt.Matrix.{gauss_jordan}
use mathlib.Core.Path.{subst}

-- What a guarded result is.
guarded {ℓ} : {A : Type ℓ} → (t : Bool) → (x b : A) → (if t then none else some x) ≡ some b → x ≡ b
guarded true x b h = cc
guarded false x b h = cc

-- What a chain that succeeds went through.
reached {ℓ κ} :
    {A : Type ℓ} {B : Type κ}
    → (o : Option A) → (f : A → Option B) → (b : B) → (o >>= f) ≡ some b
    → (a : A) × (o ≡ some a) × (f a ≡ some b)
reached none f b h = cc
reached (some a) f b h = (a, refl, h)

module _ {D : Type 0} where
  -- Every row has eight entries.
  abbrev pub AreRows : List (List D) → Type 0
  AreRows [] = Unit {0}
  AreRows (r ∷ rs) = (length r ≡ 8) × AreRows rs

  abbrev pub IsArray : List (List D) → Type 0
  IsArray a = (length a ≡ 4) × AreRows a

  get_or-AreRows :
      (a : List (List D)) (i : ℕ) → i < length a → AreRows a → length (get_or a i []) ≡ 8
  get_or-AreRows [] i h rows = absurd (omega arith)
  get_or-AreRows (r ∷ a) zero h rows = rows.0
  get_or-AreRows (r ∷ a) (suc i) h rows = get_or-AreRows a i (omega arith) (rows.1)

  set-AreRows :
      (a : List (List D)) (i : ℕ) (r : List D) → length r ≡ 8 → AreRows a → AreRows (set a i r)
  set-AreRows [] i r h rows = tt
  set-AreRows (x ∷ a) zero r h rows = (h, rows.1)
  set-AreRows (x ∷ a) (suc i) r h rows = (rows.0, set-AreRows a i r h (rows.1))

module _ {D : Type 0} ⦃m : Maths D⦄ where
  open m use {decimal, abs}

  length-subtract_row : (f : D) (xs ps : List D) → length (subtract_row f xs ps) ≡ length xs
  unfolding subtract_row
  length-subtract_row f [] ps = refl
  length-subtract_row f (x ∷ xs) [] = refl
  length-subtract_row f (x ∷ xs) (p ∷ ps) = ap suc (length-subtract_row f xs ps)

  clear_column-AreRows :
      (p : List D) (i k : ℕ) (a : List (List D))
      → AreRows a
      → AreRows (clear_column p i k a) × (length (clear_column p i k a) ≡ length a)
  unfolding clear_column
  clear_column-AreRows p i k [] rows = (tt, refl)
  clear_column-AreRows p i k (r ∷ a) rows =
      let (h, len) = clear_column-AreRows p i (suc k) a (rows.1) in
      elim (Bool-cases (k == i)) [
        | inl e ↦ rw e ((rows.0, h), omega (arith, len))
        | inr e ↦
            rw e ((length-subtract_row (get_or r i (whole 0)) r p ∙ rows.0, h), omega (arith, len))
      ]

  -- The pivot is looked for from row `i` on, and found inside the array.
  pub find_pivot_bounds :
      (a : List (List D)) (i n k row : ℕ) (best : D)
      → i ≤ row
      → row < 4
      → i < k
      → n + k ≤ 4
      → (i ≤ (find_pivot a i n k row best).0) × ((find_pivot a i n k row best).0 < 4)
  unfolding find_pivot
  find_pivot_bounds a i zero k row best h1 h2 h3 h4 = (h1, h2)
  find_pivot_bounds a i (suc n) k row best h1 h2 h3 h4 =
      let here = abs (entry a k i) in
      elim (Bool-cases (best ≺ here)) [
        | inl e ↦
            rw (find_pivot, e)
              (find_pivot_bounds a i n (suc k) k here (omega arith) (omega arith) (omega arith)
                (omega arith))
        | inr e ↦
            rw (find_pivot, e)
              (find_pivot_bounds a i n (suc k) row best h1 h2 (omega arith) (omega arith))
      ]

  swap_rows-IsArray :
      (a : List (List D)) (i p : ℕ) → i < 4 → p < 4 → IsArray a → IsArray (swap_rows a i p)
  unfolding swap_rows
  swap_rows-IsArray a i p hi hp (len, rows) =
      let first = set a i (get_or a p []) in
      (
        length-set first p (get_or a i []) ∙ (length-set a i (get_or a p []) ∙ len),
        set-AreRows first p (get_or a i []) (get_or-AreRows a i (omega arith) rows)
            (set-AreRows a i (get_or a p []) (get_or-AreRows a p (omega arith) rows) rows),
      )

  eliminate_found :
      (a : List (List D)) (i : ℕ)
      → i < 4
      → (i ≤ (find_pivot a i (3 - i) (suc i) i (abs (entry a i i))).0)
        × ((find_pivot a i (3 - i) (suc i) i (abs (entry a i i))).0 < 4)
  eliminate_found a i h =
      find_pivot_bounds a i (3 - i) (suc i) i (abs (entry a i i)) (omega arith) h (omega arith)
        (omega arith)

  swapped-IsArray :
      (a : List (List D)) (i p : ℕ)
      → i < 4
      → p < 4
      → IsArray a
      → IsArray (if p == i then a else swap_rows a i p)
  swapped-IsArray a i p hi hp h = elim (Bool-cases (p == i)) [
    | inl e ↦ rw e h
    | inr e ↦ rw e (swap_rows-IsArray a i p hi hp h)
  ]

  cleared-IsArray :
      (a : List (List D)) (i : ℕ) (r : List D)
      → length r ≡ 8
      → IsArray a
      → IsArray (clear_column r i 0 (set a i r))
  cleared-IsArray a i r hr (len, rows) =
      let (h, kept) = clear_column-AreRows r i 0 (set a i r) (set-AreRows a i r hr rows) in
      (kept ∙ (length-set a i r ∙ len), h)

  -- A round that finds a pivot keeps the array at four rows of eight.
  pub eliminate-IsArray :
      (a b : List (List D)) (i : ℕ) → i < 4 → IsArray a → eliminate i a ≡ some b → IsArray b
  unfolding eliminate
  eliminate-IsArray a b i hi h e =
      let p = (find_pivot a i (3 - i) (suc i) i (abs (entry a i i))).0 in
      let small =
        (find_pivot a i (3 - i) (suc i) i (abs (entry a i i))).1 ≺ decimal (pos 1) (negsuc 11) in
      let swapped = if p == i then a else swap_rows a i p in
      let shaped = swapped-IsArray a i p hi ((eliminate_found a i hi).1) h in
      let row = map (λ x. x ⊘ entry swapped i i) (get_or swapped i []) in
      let full : length row ≡ 8 =
        length-map (get_or swapped i []) (λ x. x ⊘ entry swapped i i)
        ∙ get_or-AreRows swapped i (omega arith) (shaped.1) in
      let result = cleared-IsArray swapped i row full shaped in
      subst IsArray (guarded small (clear_column row i 0 (set swapped i row)) b e) result

  -- An elimination that finds its pivots keeps the array at four rows of eight.
  pub gauss_jordan-IsArray : (a b : List (List D)) → IsArray a → gauss_jordan a ≡ some b → IsArray b
  unfolding gauss_jordan
  gauss_jordan-IsArray a b h e =
      let (a1, e1, r1) = reached (eliminate 0 a) _ b e in
      let (a2, e2, r2) = reached (eliminate 1 a1) _ b r1 in
      let (a3, e3, r3) = reached (eliminate 2 a2) _ b r2 in
      let h1 = eliminate-IsArray a a1 0 (omega arith) h e1 in
      let h2 = eliminate-IsArray a1 a2 1 (omega arith) h1 e2 in
      let h3 = eliminate-IsArray a2 a3 2 (omega arith) h2 e3 in
      eliminate-IsArray a3 b 3 (omega arith) h3 r3
