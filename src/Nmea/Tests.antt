-- ===== src/Nmea/Tests.antt =====
-- Sentences of the NMEA generator on concrete inputs.
use gpsopen_cl.Prelude.{ℕ, ◌≡◌, ◌≤◌, ◌<◌, ◌*◌, some, List, [], ◌∷◌, AllOf, arith}
use gpsopen_cl.Prelude.{length}
use gpsopen_cl.Nmea.{append_checksum, gsv_sentences}
use gpsopen_cl.Nmea.Checksum.{check_sentence, check_sentence-append_checksum}
use gpsopen_cl.Nmea.Groups.{held_all, gsv_sentences_hold}

-- `GPGSV,1`
abbrev header : List ℕ
header = 71 ∷ 80 ∷ 71 ∷ 83 ∷ 86 ∷ 44 ∷ 49 ∷ []

check_sentence-append_checksum_example : check_sentence (append_checksum header) ≡ some header
check_sentence-append_checksum_example = check_sentence-append_checksum header (
  ground arith,
  (
    ground arith,
    (ground arith, (ground arith, (ground arith, (ground arith, (ground arith, tt))))),
  ),
)

abbrev prns : List ℕ
prns = 3 ∷ 8 ∷ 14 ∷ 22 ∷ 27 ∷ []

gsv_sentences_hold_example :
    (held_all (gsv_sentences prns) ≡ prns)
    × AllOf (λ os. length os ≡ 4) (gsv_sentences prns)
    × (5 ≤ 4 * length (gsv_sentences prns))
    × (4 * length (gsv_sentences prns) < 9)
gsv_sentences_hold_example = gsv_sentences_hold prns
