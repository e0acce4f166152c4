-- ===== src/CaCode/Tests.antt =====
-- The first ten chips of satellite 1, octal 1440 in the standard, and the theorem at one of its chips.
use mathlib.Core.Bool.{xor}
use gpsopen_cl.Prelude.{◌≡◌, refl, not, [], ◌∷◌, map, true, false}
use gpsopen_cl.CaCode.{raw_code}
use gpsopen_cl.CaCode.Bits.{sign, output_bits, standard_chip, raw_code-standard_chip}

first_chips :
    map (standard_chip 5) (0 ∷ 1 ∷ 2 ∷ 3 ∷ 4 ∷ 5 ∷ 6 ∷ 7 ∷ 8 ∷ 9 ∷ [])
    ≡ true ∷ true ∷ false ∷ false ∷ true ∷ false ∷ false ∷ false ∷ false ∷ false ∷ []
unfolding output_bits xor
first_chips = refl

raw_code-standard_chip_example : raw_code 5 1022 ≡ sign (not (standard_chip 5 1022))
raw_code-standard_chip_example = raw_code-standard_chip 5 1022
