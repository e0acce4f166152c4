-- ===== src/Float.antt =====
-- The machine's floating-point arithmetic, which the code uses and does not implement: `float` and
-- `double` with the operations that the modelled code calls. It is a parameter of the definitions
-- that compute with floating point. No law of it is assumed unless a theorem names it.
use gpsopen_cl.Prelude.{ℕ, Bool, if◌then◌else◌, ◌/◌, ◌%◌, ◌^◌, ◌+◌, not, ◌&&◌}
use gpsopen_cl.Prelude.Int.{ℤ, pos, pos_part, neg_part, ltb_ℤ, ◌+ℤ◌, ◌-ℤ◌, ◌*ℤ◌}

-- `F` is `float`, `D` is `double`.
pub record Floats (F D : Type 0) : Type 0 where
  pub zero_f : F
  pub add_f : F → F → F
  pub sub_f : F → F → F
  pub neg_f : F → F
  pub mul_f : F → F → F
  pub div_f : F → F → F
  pub fmod_f : F → F → F
  pub abs_f : F → F
  pub sqrt_f : F → F
  pub cos_f : F → F
  pub sin_f : F → F
  pub truncate : F → ℤ
  pub lt_f : F → F → Bool
  pub le_f : F → F → Bool
  pub eq_f : F → F → Bool
  pub of_int_f : ℤ → F
  pub add : D → D → D
  pub sub : D → D → D
  pub mul : D → D → D
  pub div : D → D → D
  pub abs : D → D
  pub lt : D → D → Bool
  pub of_int : ℤ → D
  pub pow2 : ℤ → D
  pub pi : D
  pub widen : F → D
  pub narrow : D → F

module _ {F D : Type 0} (fp : Floats F D) where
  open fp use {lt, of_int, div}

  abbrev pub nat : ℕ → D
  nat n = of_int (pos n)

  -- `std::max` and `std::min`.
  abbrev pub max_d : D → D → D
  max_d a b = if lt a b then b else a

  abbrev pub min_d : D → D → D
  min_d a b = if lt b a then b else a

-- A concrete arithmetic for tests: both types are the integers, quotients and remainders are those of
-- the nonnegative parts, and a power of two with a negative exponent is 1.
abbrev pub ints : Floats ℤ ℤ
ints = record {
  zero_f = pos 0;
  add_f = λ a b. a +ℤ b;
  sub_f = λ a b. a -ℤ b;
  neg_f = λ a. pos 0 -ℤ a;
  mul_f = λ a b. a *ℤ b;
  div_f = λ a b. pos (pos_part a / pos_part b);
  fmod_f = λ a b. pos (pos_part a % pos_part b);
  abs_f = λ a. pos (pos_part a + neg_part a);
  sqrt_f = λ a. a;
  cos_f = λ a. pos 1;
  sin_f = λ a. a;
  truncate = λ a. a;
  lt_f = λ a b. ltb_ℤ a b;
  le_f = λ a b. not (ltb_ℤ b a);
  eq_f = λ a b. not (ltb_ℤ b a) && not (ltb_ℤ a b);
  of_int_f = λ a. a;
  add = λ a b. a +ℤ b;
  sub = λ a b. a -ℤ b;
  mul = λ a b. a *ℤ b;
  div = λ a b. pos (pos_part a / pos_part b);
  abs = λ a. pos (pos_part a + neg_part a);
  lt = λ a b. ltb_ℤ a b;
  of_int = λ a. a;
  pow2 = λ a. pos (2 ^ pos_part a);
  pi = pos 3;
  widen = λ a. a;
  narrow = λ a. a;
}
