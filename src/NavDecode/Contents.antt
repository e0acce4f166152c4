-- ===== src/NavDecode/Contents.antt =====
-- What `decodeSubframe` accepts, writes and leaves alone.
use native.Mathlib.Decide.{dec_lt}
use gpsopen_cl.Prelude.{ap}
use gpsopen_cl.Prelude.{ℕ, ◌+◌, ◌-◌, ◌*◌, ◌/◌, ◌%◌, ◌^◌, ◌≤◌, ◌<◌, ◌≡◌, refl, Bool, true, false}
use gpsopen_cl.Prelude.{
  List, length, get_or, not, ◌||◌, ◌&&◌, ltb, leb, ◌==◌, if◌then◌else◌, arith, bit_and,
}
use gpsopen_cl.Prelude.Bits.{bit_or_fields}
use gpsopen_cl.Float.{Floats}
use gpsopen_cl.NavDecode.Words.{extract_unsigned_bits, signed32}
use gpsopen_cl.NavDecode.Fields.{field, twos_complement, extract_unsigned_bits-field}
use gpsopen_cl.NavDecode.Fields.{extract_signed_bits-field}
use gpsopen_cl.NavDecode.Subframe.{GpsEphemeris, NavigationDecoder, decode_subframe}
use gpsopen_cl.NavDecode.Subframe.{ephemeris_to_output, output_to_ephemeris, split_signed, join24}
use gpsopen_cl.NavDecode.Subframe.{split_unsigned, decode_how, decode_subframe1, decode_subframe2}
use gpsopen_cl.NavDecode.Subframe.{decode_subframe3, decode_ionospheric_params, unsigned32}

-- The wire form keeps every field but the issues of data, which come back as 0.
pub output_to_ephemeris-ephemeris_to_output :
    {D : Type 0} (ephem : GpsEphemeris D)
    → output_to_ephemeris (ephemeris_to_output ephem)
      ≡ record ephem { iodc = 0; iode2 = 0; iode3 = 0 }
unfolding output_to_ephemeris ephemeris_to_output
output_to_ephemeris-ephemeris_to_output ephem =
    λ i. record ephem { is_valid = kept ephem.is_valid i; iodc = 0; iode2 = 0; iode3 = 0 }
  where
    kept : (b : Bool) → not ((if b then 1 else 0) == 0) ≡ b
    kept true = refl
    kept false = refl

join24-sum :
    (x high low : ℕ)
    → x * 2 ^ 24 % 2 ^ 32 ≡ high * 2 ^ 24
    → low < 2 ^ 24
    → join24 x low ≡ high * 2 ^ 24 + low
join24-sum x high low e l = rw e (bit_or_fields 24 high low l)

-- The low byte of the extended number is the byte itself.
byte_extended :
    (high : ℕ) → high < 256 → unsigned32 (twos_complement 8 high) * 2 ^ 24 % 2 ^ 32 ≡ high * 2 ^ 24
byte_extended high h = elim (dec_lt high 128) [
  | yes p ↦ let e : ltb high (2 ^ 7) ≡ true = ground arith in rw e (omega arith)
  | no p ↦ let e : ltb high (2 ^ 7) ≡ false = ground arith in rw e (omega arith)
]

module _ {F D : Type 0} (fp : Floats F D) where
  -- A field that is split over two words is put together from its 8 high and 24 low bits.
  pub split_unsigned-fields :
      (w next : ℕ) → split_unsigned fp w next ≡ field w 17 8 * 2 ^ 24 + field next 1 24
  unfolding split_unsigned
  split_unsigned-fields w next =
      rw
        (
          extract_unsigned_bits-field w 17 8 (omega arith) (omega arith),
          extract_unsigned_bits-field next 1 24 (omega arith) (omega arith),
        )
        (join24-sum (field w 17 8) (field w 17 8) (field next 1 24) (omega arith) (omega arith))

  -- A signed one is read in two's complement of its 32 bits, although its high byte is first
  -- extended to 32 bits by itself.
  pub split_signed-fields :
      (w next : ℕ)
      → split_signed fp w next ≡ twos_complement 32 (field w 17 8 * 2 ^ 24 + field next 1 24)
  unfolding split_signed
  split_signed-fields w next =
      rw
        (
          extract_signed_bits-field w 17 7 (omega arith) (omega arith),
          extract_unsigned_bits-field next 1 24 (omega arith) (omega arith),
        )
        (ap signed32 (
          join24-sum (unsigned32 (twos_complement 8 (field w 17 8))) (field w 17 8)
            (field next 1 24) (byte_extended (field w 17 8) (omega arith)) (omega arith)))

  -- A subframe of ten words is accepted exactly if its number is from 1 to 5 and the mask asks for
  -- it, and the ephemeris then carries that number and is marked valid exactly if it is accepted.
  pub decode_subframe-accepts :
      (words : List ℕ) (ephem : GpsEphemeris D) (dec : NavigationDecoder D)
      → 10 ≤ length words
      → let (ok, ephem', dec') = decode_subframe fp words ephem dec in
        let id = extract_unsigned_bits (get_or words 1 0) 20 3 in
        (ok ≡ (
          leb 1 id && leb id 5 && not (bit_and (dec.subframe_search_mask / 2 ^ (id - 1)) 1 == 0)))
        × (ephem'.is_valid ≡ ok)
        × (ephem'.subframe_id ≡ id)
  unfolding decode_subframe decode_how decode_subframe1 decode_subframe2 decode_subframe3
  decode_subframe-accepts words ephem dec h =
      let id = extract_unsigned_bits (get_or words 1 0) 20 3 in
      let asked = bit_and (dec.subframe_search_mask / 2 ^ (id - 1)) 1 in ground arith

  -- The coefficients of the ionosphere are taken up from an accepted subframe 4 with data id 1 and
  -- page id 56, and are known from then on; no other subframe changes them.
  pub decode_subframe-iono :
      (words : List ℕ) (ephem : GpsEphemeris D) (dec : NavigationDecoder D)
      → let (ok, ephem', dec') = decode_subframe fp words ephem dec in
        let page18 =
          (ok && ephem'.subframe_id == 4)
          && (extract_unsigned_bits (get_or words 2 0) 1 2 == 1
              && extract_unsigned_bits (get_or words 2 0) 3 6 == 56) in
        (dec'.has_iono_params ≡ (dec.has_iono_params || page18))
        × (dec' ≡ (if page18 then decode_ionospheric_params fp words dec else dec))
  unfolding decode_subframe decode_how decode_ionospheric_params decode_subframe1 decode_subframe2
      decode_subframe3
  decode_subframe-iono words ephem dec = ground arith
