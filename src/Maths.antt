-- ===== src/Maths.antt =====
-- The `double` arithmetic of the numerical code with the functions of <cmath>, which the code calls
-- and does not implement: an instance argument of the definitions that compute with it. No law of it
-- is assumed here.
use gpsopen_cl.Prelude.{ℕ, Bool, if◌then◌else◌}
use gpsopen_cl.Prelude.Int.{ℤ, pos}

-- `decimal m e` is the literal m × 10 ^ e of the source.
pub record Maths (D : Type 0) : Type 0 where
  pub add : D → D → D
  pub sub : D → D → D
  pub mul : D → D → D
  pub div : D → D → D
  pub negate : D → D
  pub less : D → D → Bool
  pub less_equal : D → D → Bool
  pub equal : D → D → Bool
  pub decimal : ℤ → ℤ → D
  pub pi : D
  pub abs : D → D
  pub sqrt : D → D
  pub sin : D → D
  pub cos : D → D
  pub tan : D → D
  pub atan2 : D → D → D
  pub pow : D → D → D
  pub fmod : D → D → D
  pub round : D → D

module _ {D : Type 0} ⦃m : Maths D⦄ where
  infixl 65 ◌⊕◌ ◌⊖◌
  infixl 70 ◌⊗◌ ◌⊘◌
  infix 50 ◌≺◌
  abbrev pub ◌⊕◌ : D → D → D
  a ⊕ b = m.add a b

  abbrev pub ◌⊖◌ : D → D → D
  a ⊖ b = m.sub a b

  abbrev pub ◌⊗◌ : D → D → D
  a ⊗ b = m.mul a b

  abbrev pub ◌⊘◌ : D → D → D
  a ⊘ b = m.div a b

  abbrev pub ◌≺◌ : D → D → Bool
  a ≺ b = m.less a b

  abbrev pub whole : ℕ → D
  whole n = m.decimal (pos n) (pos 0)

  -- `std::max(a, b)`, `std::min(a, b)` and `std::clamp(a, lo, hi)`.
  abbrev pub larger : D → D → D
  larger a b = if a ≺ b then b else a

  abbrev pub smaller : D → D → D
  smaller a b = if b ≺ a then b else a

  abbrev pub clamped : D → D → D → D
  clamped a lo hi = if a ≺ lo then lo else if hi ≺ a then hi else a

  -- The constants of Source/Common/GPSOpenClCommon.hpp.
  abbrev pub speed_of_light : D
  speed_of_light = whole 299792458

  abbrev pub code_period : D
  code_period = m.decimal (pos 1) (ℤ.negsuc 2)

  abbrev pub earth_rotation_rate : D
  earth_rotation_rate = m.decimal (pos 72921151467) (ℤ.negsuc 14)

  abbrev pub semi_major_axis : D
  semi_major_axis = whole 6378137

  abbrev pub gravitational_parameter : D
  gravitational_parameter = m.decimal (pos 3986005) (pos 8)
