-- ===== src/NavDecode/Tests.antt =====
-- Runs of the decoder on small inputs, and its theorems at concrete ones.
use gpsopen_cl.Prelude.{ℕ, ◌+◌, ◌-◌, ◌/◌, ◌^◌, ◌≡◌, refl, ap, Bool, true, false}
use gpsopen_cl.Prelude.{none, some, List, [], ◌∷◌, bit_xor, bit_and, arith, length, replicate}
use gpsopen_cl.Prelude.{length-replicate, get_or, leb, ◌==◌, not, ◌&&◌}
use gpsopen_cl.Prelude.Int.{ℤ, pos, negsuc}
use gpsopen_cl.Float.{ints}
use gpsopen_cl.NavDecode.Words.{find_preamble, extract_unsigned_bits, check_parity}
use gpsopen_cl.NavDecode.Words.{byte_from, search_from, bit_at}
use gpsopen_cl.NavDecode.Parity.{check_parity_one_flip, check_parity_two_flips}
use gpsopen_cl.NavDecode.Preamble.{IsFirst, find_preamble-IsFirst}
use gpsopen_cl.NavDecode.Subframe.{GpsEphemeris, NavigationDecoder, decode_subframe}
use gpsopen_cl.NavDecode.Subframe.{ephemeris_to_output, output_to_ephemeris}
use gpsopen_cl.NavDecode.Samples.{decode_words}
use gpsopen_cl.NavDecode.Search.{try_decode_at_bit_position}
use gpsopen_cl.NavDecode.Sync.{BitSync, process_prompt_signal}
use gpsopen_cl.NavDecode.Encode.{sent_bit, IsSent, Carries, decode_words-Carries}
use gpsopen_cl.NavDecode.Progress.{IsAttempt, try_decode-IsAttempt}
use gpsopen_cl.NavDecode.Process.{IsLocked, IsSearch, process_prompt_signal-IsLocked}
use gpsopen_cl.NavDecode.Process.{process_prompt_signal-IsSearch}
use gpsopen_cl.NavDecode.Contents.{output_to_ephemeris-ephemeris_to_output}
use gpsopen_cl.NavDecode.Contents.{decode_subframe-accepts}

-- The preamble, 16 data bits 0 and the parity after a word that ended in 00.
abbrev telemetry_word : ℕ
telemetry_word = 583008274

telemetry_passes : check_parity telemetry_word false false ≡ true
unfolding check_parity
telemetry_passes = refl

check_parity_one_flip_example : check_parity (bit_xor telemetry_word (2 ^ 17)) false false ≡ false
check_parity_one_flip_example =
    check_parity_one_flip telemetry_word 17 false false telemetry_passes (omega arith)

check_parity_two_flips_example :
    check_parity (bit_xor (bit_xor telemetry_word (2 ^ 29)) (2 ^ 4)) false false ≡ false
check_parity_two_flips_example =
    check_parity_two_flips telemetry_word 29 4 false false telemetry_passes (omega arith)
      (omega arith)

-- The inverted preamble and room for a subframe.
abbrev stream : List Bool
stream = true ∷ false ∷ true ∷ true ∷ true ∷ false ∷ true ∷ false ∷ false ∷ replicate 295 false

stream_found : find_preamble stream ≡ some (1, true)
unfolding find_preamble search_from byte_from
stream_found = refl

find_preamble-IsFirst_example : IsFirst stream 0 (length stream + 1 - 300) (find_preamble stream)
find_preamble-IsFirst_example = find_preamble-IsFirst stream

-- The data bits of the telemetry word, sent after a word that ended in 01.
abbrev telemetry_data : ℕ → ℕ → Bool
telemetry_data w i = bit_at telemetry_word (30 - i)

abbrev telemetry_sent : ℕ → Bool
telemetry_sent j = sent_bit (telemetry_data 0) false true (j + 1)

telemetry-IsSent : IsSent telemetry_sent 0 1 telemetry_data false true
telemetry-IsSent = ((λ j h. ap telemetry_sent {x = 0 + j} {y = j} (omega arith)), tt)

decode_words-Carries_example :
    (ws : List ℕ) × (decode_words telemetry_sent 1 0 false true ≡ some ws)
    × Carries ws 1 telemetry_data false true
decode_words-Carries_example =
    decode_words-Carries telemetry_sent 1 0 telemetry_data false true telemetry-IsSent

abbrev samples : List (ℤ × ℤ)
samples = replicate 6010 (pos 5, negsuc 1)

samples-length : length samples ≡ 6010
samples-length = length-replicate {A = ℤ × ℤ} 6010 (pos 5, negsuc 1)

abbrev ephemeris : GpsEphemeris ℤ
ephemeris = record {
  sv_id = 7;
  week_number = 12;
  tow = pos 6;
  subframe_id = 2;
  is_valid = true;
  toc = pos 1;
  af0 = pos 1;
  af1 = negsuc 2;
  af2 = pos 0;
  tgd = pos 0;
  iodc = 300;
  toe = pos 9;
  sqrt_a = pos 5153;
  e = pos 0;
  i0 = pos 1;
  omega0 = pos 2;
  omega = pos 3;
  m0 = pos 4;
  delta_n = pos 5;
  omega_dot = negsuc 5;
  idot = pos 1;
  cuc = pos 2;
  cus = pos 3;
  crc = pos 4;
  crs = pos 5;
  cic = pos 6;
  cis = pos 7;
  iode2 = 44;
  iode3 = 44;
}

abbrev decoder : NavigationDecoder ℤ
decoder = record {
  subframe_search_mask = 0x1f;
  iono_params = record {
    struct_version = 1;
    alpha0 = pos 0;
    alpha1 = pos 0;
    alpha2 = pos 0;
    alpha3 = pos 0;
    beta0 = pos 0;
    beta1 = pos 0;
    beta2 = pos 0;
    beta3 = pos 0;
  };
  has_iono_params = false;
}

try_decode-IsAttempt_example :
    IsAttempt
      (length samples)
      3
      0
      (try_decode_at_bit_position ints samples none 7 3 0 ephemeris 0 decoder)
try_decode-IsAttempt_example = try_decode-IsAttempt ints samples none 7 3 0 ephemeris 0 decoder

process_prompt_signal-IsLocked_example :
    let sync : BitSync = record { bit_sync_phase = pos 4; search_positions = []; bit_offset = 0 } in
    IsLocked
      (length samples)
      4
      sync
      (process_prompt_signal ints 7 samples none sync ephemeris 0 decoder)
process_prompt_signal-IsLocked_example =
    process_prompt_signal-IsLocked ints 7 samples none 4 [] 0 ephemeris 0 decoder

process_prompt_signal-IsSearch_example :
    let sync : BitSync = record {
      bit_sync_phase = negsuc 0;
      search_positions = [];
      bit_offset = 0;
    } in
    IsSearch
      (length samples)
      sync
      (process_prompt_signal ints 7 samples none sync ephemeris 0 decoder)
process_prompt_signal-IsSearch_example =
    process_prompt_signal-IsSearch ints 7 samples none 0 [] 0 ephemeris 0 decoder

output_to_ephemeris-ephemeris_to_output_example :
    output_to_ephemeris (ephemeris_to_output ephemeris)
    ≡ record ephemeris { iodc = 0; iode2 = 0; iode3 = 0 }
output_to_ephemeris-ephemeris_to_output_example = output_to_ephemeris-ephemeris_to_output ephemeris

-- Subframe 4 with data id 1 and page id 56.
abbrev page18 : List ℕ
page18 = telemetry_word ∷ 0x400 ∷ 0x1e000000 ∷ replicate 7 0x2aaaaa80

decode_subframe-accepts_example :
    let (ok, ephem', dec') = decode_subframe ints page18 ephemeris decoder in
    let id = extract_unsigned_bits (get_or page18 1 0) 20 3 in
    (ok ≡ (
      leb 1 id && leb id 5 && not (bit_and (decoder.subframe_search_mask / 2 ^ (id - 1)) 1 == 0)))
    × (ephem'.is_valid ≡ ok)
    × (ephem'.subframe_id ≡ id)
decode_subframe-accepts_example =
    decode_subframe-accepts ints page18 ephemeris decoder (omega arith)
