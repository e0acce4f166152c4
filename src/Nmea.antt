-- ===== src/Nmea.antt =====
-- Source/Sink/GPSOpenClNmeaGenerator.cpp: the checksum of a sentence and the satellites of the GSV
-- sentences. A character is its code.
pub mod Checksum
pub mod Groups
mod Tests
use gpsopen_cl.Prelude.{
  ℕ, zero, suc, ◌+◌, ◌*◌, ◌/◌, ◌%◌, bit_xor, Bool, true, false, Option, none, some,
}
use gpsopen_cl.Prelude.{List, [], ◌∷◌, ◌++◌, length, get_elem?, ltb, ◌==◌, if◌then◌else◌}

unfoldable pub checksum_from : ℕ → List ℕ → ℕ
checksum_from sum [] = sum
checksum_from sum (c ∷ cs) = checksum_from (bit_xor sum (c % 256)) cs

-- The sum is a `uint8_t`.
unfoldable pub calculate_checksum : List ℕ → ℕ
calculate_checksum body = checksum_from 0 body % 256

-- A digit of `%X`.
abbrev pub hex_digit : ℕ → ℕ
hex_digit n = if ltb n 10 then 48 + n else 55 + n

unfoldable pub append_checksum : List ℕ → List ℕ
append_checksum body =
    let sum = calculate_checksum body in
    b'$' ∷ body ++ (b'*' ∷ hex_digit (sum / 16) ∷ hex_digit (sum % 16) ∷ 13 ∷ 10 ∷ [])

-- The sentences that the satellites fill, four in each, and one at least.
unfoldable pub number_of_sentences : ℕ → ℕ
number_of_sentences total = let n = (total + 3) / 4 in if n == 0 then 1 else n

module _ {A : Type 0} where
  -- The four places of a sentence, none at a place for which there is no satellite left. Where there
  -- is no satellite at all, no place is written.
  unfoldable pub places : List A → ℕ → List (Option A)
  places [] s = []
  places (a ∷ sats) s =
      get_elem? (a ∷ sats) (s * 4 + 0)
      ∷ get_elem? (a ∷ sats) (s * 4 + 1)
      ∷ get_elem? (a ∷ sats) (s * 4 + 2)
      ∷ get_elem? (a ∷ sats) (s * 4 + 3)
      ∷ []

  -- The sentences from number `s` on, `n` of them.
  unfoldable pub sentences_from : List A → ℕ → ℕ → List (List (Option A))
  sentences_from sats s zero = []
  sentences_from sats s (suc n) = places sats s ∷ sentences_from sats (suc s) n

  unfoldable pub gsv_sentences : List A → List (List (Option A))
  gsv_sentences sats = sentences_from sats 0 (number_of_sentences (length sats))
