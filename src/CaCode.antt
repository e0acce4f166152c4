-- ===== src/CaCode.antt =====
-- The C/A code of Source/Acquisition/GPSOpenClCaCodeGenerator.cpp, `rawCaCodes`: two shift registers of
-- ten chips that are 1 or -1, multiplied where the standard adds bits. A `char` is an integer here.
pub mod Bits
pub mod Lookup
mod Tests
use gpsopen_cl.Prelude.{ℕ, zero, suc, ◌+◌, ◌-◌, ◌%◌, List, [], ◌∷◌, get_or, take, replicate}
use gpsopen_cl.Prelude.Int.{ℤ, pos, negsuc, ◌*ℤ◌, ◌-ℤ◌}

-- `R1` and `R2`.
pub record Registers : Type 0 where
  pub r1 : List ℤ
  pub r2 : List ℤ

-- Every `R[i]` is in range: the registers have ten chips.
abbrev pub chip_at : List ℤ → ℕ → ℤ
chip_at r i = get_or r i (pos 1)

-- The shift by one place, from the last chip to the first.
abbrev pub shift_in : ℤ → List ℤ → List ℤ
shift_in c r = c ∷ take 9 r

unfoldable pub advance : Registers → Registers
advance r = record {
  r1 = shift_in (chip_at r.r1 2 *ℤ chip_at r.r1 9) r.r1;
  r2 =
      shift_in
        (chip_at r.r2 1
          *ℤ chip_at r.r2 2
          *ℤ chip_at r.r2 5
          *ℤ chip_at r.r2 7
          *ℤ chip_at r.r2 8
          *ℤ chip_at r.r2 9)
        r.r2;
}

-- `g1[i]` and `g2[i]` for `n` rounds.
unfoldable pub outputs : ℕ → Registers → List ℤ × List ℤ
unfolding advance
outputs zero r = ([], [])
outputs (suc n) r =
    let (g1, g2) = outputs n (advance r) in (chip_at r.r1 9 ∷ g1, chip_at r.r2 9 ∷ g2)

unfoldable pub all_minus : Registers
all_minus = record { r1 = replicate 10 (negsuc 0); r2 = replicate 10 (negsuc 0) }

-- Chip `i` of the code whose second register is late by `delay`.
unfoldable pub code_chip : List ℤ × List ℤ → ℕ → ℕ → ℤ
code_chip (g1, g2) delay i = (pos 0 -ℤ chip_at g1 i) *ℤ chip_at g2 ((1023 - delay + i) % 1023)

unfoldable pub raw_code : ℕ → ℕ → ℤ
raw_code delay i = code_chip (outputs 1023 all_minus) delay i

-- `DELAY_CHIPS` of the 32 satellites.
abbrev pub delay_chips : List ℕ
delay_chips =
    5 ∷ 6 ∷ 7 ∷ 8 ∷ 17 ∷ 18 ∷ 139 ∷ 140 ∷ 141 ∷ 251 ∷ 252 ∷ 254 ∷ 255 ∷ 256 ∷ 257 ∷ 258 ∷ 469 ∷ 470
    ∷ 471 ∷ 472 ∷ 473 ∷ 474 ∷ 509 ∷ 512 ∷ 513 ∷ 514 ∷ 515 ∷ 516 ∷ 859 ∷ 860 ∷ 861 ∷ 862 ∷ []

-- The codes of the satellites, counted from 0.
unfoldable pub raw_ca_codes : ℕ → ℕ → ℤ
raw_ca_codes sv i = raw_code (get_or delay_chips sv 0) i
