-- ===== src/NavDecode/Subframe.antt =====
-- The contents of a subframe: `decodeSubframe`, `decodeIonosphericParams` and the wire form.
-- `double` values are those of the arithmetic `fp`; an `int` field that the code fills from unsigned
-- bits is a number.
use gpsopen_cl.Prelude.{ℕ, ◌-◌, ◌*◌, ◌/◌, ◌%◌, ◌^◌, Bool, true, false, ◌||◌, not, List, bit_and}
use gpsopen_cl.Prelude.{bit_or, ltb, ◌==◌, if◌then◌else◌, length, get_or}
use gpsopen_cl.Prelude.Int.{ℤ, pos, negsuc}
use gpsopen_cl.Float.{Floats, nat}
use gpsopen_cl.NavDecode.Words.{extract_unsigned_bits, extract_signed_bits, signed32}

pub record GpsEphemeris (D : Type 0) : Type 0 where
  pub sv_id : ℕ
  pub week_number : ℕ
  pub tow : D
  pub subframe_id : ℕ
  pub is_valid : Bool
  pub toc : D
  pub af0 : D
  pub af1 : D
  pub af2 : D
  pub tgd : D
  pub iodc : ℕ
  pub toe : D
  pub sqrt_a : D
  pub e : D
  pub i0 : D
  pub omega0 : D
  pub omega : D
  pub m0 : D
  pub delta_n : D
  pub omega_dot : D
  pub idot : D
  pub cuc : D
  pub cus : D
  pub crc : D
  pub crs : D
  pub cic : D
  pub cis : D
  pub iode2 : ℕ
  pub iode3 : ℕ

-- The wire twin, which has no issue-of-data fields.
pub record NavDecoderOutput (D : Type 0) : Type 0 where
  pub struct_version : ℕ
  pub sv_id : ℕ
  pub week_number : ℕ
  pub tow : D
  pub subframe_id : ℕ
  pub is_valid : ℕ
  pub toc : D
  pub af0 : D
  pub af1 : D
  pub af2 : D
  pub tgd : D
  pub toe : D
  pub sqrt_a : D
  pub e : D
  pub i0 : D
  pub omega0 : D
  pub omega : D
  pub m0 : D
  pub delta_n : D
  pub omega_dot : D
  pub idot : D
  pub cuc : D
  pub cus : D
  pub crc : D
  pub crs : D
  pub cic : D
  pub cis : D

-- The broadcast Klobuchar coefficients.
pub record AtmosphericInput (D : Type 0) : Type 0 where
  pub struct_version : ℕ
  pub alpha0 : D
  pub alpha1 : D
  pub alpha2 : D
  pub alpha3 : D
  pub beta0 : D
  pub beta1 : D
  pub beta2 : D
  pub beta3 : D

-- The members that decoding reads and writes, less the scratch buffer and the sink.
pub record NavigationDecoder (D : Type 0) : Type 0 where
  pub subframe_search_mask : ℕ
  pub iono_params : AtmosphericInput D
  pub has_iono_params : Bool

module _ {D : Type 0} where
  unfoldable pub ephemeris_to_output : GpsEphemeris D → NavDecoderOutput D
  ephemeris_to_output ephem = record {
    struct_version = 1;
    sv_id = ephem.sv_id;
    week_number = ephem.week_number;
    tow = ephem.tow;
    subframe_id = ephem.subframe_id;
    is_valid = if ephem.is_valid then 1 else 0;
    toc = ephem.toc;
    af0 = ephem.af0;
    af1 = ephem.af1;
    af2 = ephem.af2;
    tgd = ephem.tgd;
    toe = ephem.toe;
    sqrt_a = ephem.sqrt_a;
    e = ephem.e;
    i0 = ephem.i0;
    omega0 = ephem.omega0;
    omega = ephem.omega;
    m0 = ephem.m0;
    delta_n = ephem.delta_n;
    omega_dot = ephem.omega_dot;
    idot = ephem.idot;
    cuc = ephem.cuc;
    cus = ephem.cus;
    crc = ephem.crc;
    crs = ephem.crs;
    cic = ephem.cic;
    cis = ephem.cis;
  }

  -- `GpsEphemeris ephem{}` zeroes the fields that the wire form lacks.
  unfoldable pub output_to_ephemeris : NavDecoderOutput D → GpsEphemeris D
  output_to_ephemeris out = record {
    sv_id = out.sv_id;
    week_number = out.week_number;
    tow = out.tow;
    subframe_id = out.subframe_id;
    is_valid = not (out.is_valid == 0);
    toc = out.toc;
    af0 = out.af0;
    af1 = out.af1;
    af2 = out.af2;
    tgd = out.tgd;
    iodc = 0;
    toe = out.toe;
    sqrt_a = out.sqrt_a;
    e = out.e;
    i0 = out.i0;
    omega0 = out.omega0;
    omega = out.omega;
    m0 = out.m0;
    delta_n = out.delta_n;
    omega_dot = out.omega_dot;
    idot = out.idot;
    cuc = out.cuc;
    cus = out.cus;
    crc = out.crc;
    crs = out.crs;
    cic = out.cic;
    cis = out.cis;
    iode2 = 0;
    iode3 = 0;
  }

-- `(static_cast<uint32_t>(high) << 24) | low`, of a signed or unsigned high byte.
abbrev pub join24 : ℕ → ℕ → ℕ
join24 high low = bit_or (high * 2 ^ 24 % 2 ^ 32) low

-- `static_cast<uint32_t>` of an `int32_t`.
abbrev pub unsigned32 : ℤ → ℕ
unsigned32 (pos n) = n
unsigned32 (negsuc n) = 2 ^ 32 - 1 - n

module _ {F D : Type 0} (fp : Floats F D) where
  open fp use {of_int, mul, pow2, pi}

  -- A signed field times a power of two, and the same in half circles.
  abbrev pub scaled : ℤ → ℤ → D
  scaled raw k = mul (of_int raw) (pow2 k)

  abbrev pub semicircles : ℤ → ℤ → D
  semicircles raw k = mul (scaled raw k) pi

  -- The signed 32-bit number whose high byte is in one word and whose low 24 bits are in the next.
  unfoldable pub split_signed : ℕ → ℕ → ℤ
  split_signed w next =
      signed32 (join24 (unsigned32 (extract_signed_bits w 17 8)) (extract_unsigned_bits next 1 24))

  unfoldable pub split_unsigned : ℕ → ℕ → ℕ
  split_unsigned w next = join24 (extract_unsigned_bits w 17 8) (extract_unsigned_bits next 1 24)

  -- Subframe 4, page 18 (data id 1, page id 56); any other page changes nothing.
  unfoldable pub decode_ionospheric_params : List ℕ → NavigationDecoder D → NavigationDecoder D
  decode_ionospheric_params words dec =
      let w3 = get_or words 2 0 in
      let w4 = get_or words 3 0 in
      let w5 = get_or words 4 0 in
      if not (extract_unsigned_bits w3 1 2 == 1) || not (extract_unsigned_bits w3 3 6 == 56)
      then dec
      else record dec {
        iono_params = record {
          struct_version = 1;
          alpha0 = scaled (extract_signed_bits w3 9 8) (negsuc 29);
          alpha1 = scaled (extract_signed_bits w3 17 8) (negsuc 26);
          alpha2 = scaled (extract_signed_bits w4 1 8) (negsuc 23);
          alpha3 = scaled (extract_signed_bits w4 9 8) (negsuc 23);
          beta0 = scaled (extract_signed_bits w4 17 8) (pos 11);
          beta1 = scaled (extract_signed_bits w5 1 8) (pos 14);
          beta2 = scaled (extract_signed_bits w5 9 8) (pos 16);
          beta3 = scaled (extract_signed_bits w5 17 8) (pos 16);
        };
        has_iono_params = true;
      }

  unfoldable pub decode_subframe1 : List ℕ → GpsEphemeris D → GpsEphemeris D
  decode_subframe1 words ephem =
      let w3 = get_or words 2 0 in
      let w7 = get_or words 6 0 in
      let w8 = get_or words 7 0 in
      let w9 = get_or words 8 0 in
      let w10 = get_or words 9 0 in
      record ephem {
        week_number = extract_unsigned_bits w3 1 10;
        iodc = bit_or (extract_unsigned_bits w3 23 2 * 2 ^ 8) (extract_unsigned_bits w8 1 8);
        tgd = scaled (extract_signed_bits w7 17 8) (negsuc 30);
        toc = mul (nat fp (extract_unsigned_bits w8 9 16)) (pow2 (pos 4));
        af2 = scaled (extract_signed_bits w9 1 8) (negsuc 54);
        af1 = scaled (extract_signed_bits w9 9 16) (negsuc 42);
        af0 = scaled (extract_signed_bits w10 1 22) (negsuc 30);
        is_valid = true;
      }

  unfoldable pub decode_subframe2 : List ℕ → GpsEphemeris D → GpsEphemeris D
  decode_subframe2 words ephem =
      let w3 = get_or words 2 0 in
      let w4 = get_or words 3 0 in
      let w5 = get_or words 4 0 in
      let w6 = get_or words 5 0 in
      let w7 = get_or words 6 0 in
      let w8 = get_or words 7 0 in
      let w9 = get_or words 8 0 in
      let w10 = get_or words 9 0 in
      record ephem {
        crs = scaled (extract_signed_bits w3 9 16) (negsuc 4);
        delta_n = semicircles (extract_signed_bits w4 1 16) (negsuc 42);
        m0 = semicircles (split_signed w4 w5) (negsuc 30);
        cuc = scaled (extract_signed_bits w6 1 16) (negsuc 28);
        e = mul (nat fp (split_unsigned w6 w7)) (pow2 (negsuc 32));
        cus = scaled (extract_signed_bits w8 1 16) (negsuc 28);
        sqrt_a = mul (nat fp (split_unsigned w8 w9)) (pow2 (negsuc 18));
        toe = mul (nat fp (extract_unsigned_bits w10 1 16)) (pow2 (pos 4));
        iode2 = extract_unsigned_bits w3 1 8;
        is_valid = true;
      }

  unfoldable pub decode_subframe3 : List ℕ → GpsEphemeris D → GpsEphemeris D
  decode_subframe3 words ephem =
      let w3 = get_or words 2 0 in
      let w4 = get_or words 3 0 in
      let w5 = get_or words 4 0 in
      let w6 = get_or words 5 0 in
      let w7 = get_or words 6 0 in
      let w8 = get_or words 7 0 in
      let w9 = get_or words 8 0 in
      let w10 = get_or words 9 0 in
      record ephem {
        cic = scaled (extract_signed_bits w3 1 16) (negsuc 28);
        omega0 = semicircles (split_signed w3 w4) (negsuc 30);
        cis = scaled (extract_signed_bits w5 1 16) (negsuc 28);
        i0 = semicircles (split_signed w5 w6) (negsuc 30);
        crc = scaled (extract_signed_bits w7 1 16) (negsuc 4);
        omega = semicircles (split_signed w7 w8) (negsuc 30);
        omega_dot = semicircles (extract_signed_bits w9 1 24) (negsuc 42);
        iode3 = extract_unsigned_bits w10 1 8;
        idot = semicircles (extract_signed_bits w10 9 14) (negsuc 42);
        is_valid = true;
      }

  -- `ephem.subframeId` and `ephem.tow` from the handover word.
  unfoldable pub decode_how : List ℕ → GpsEphemeris D → GpsEphemeris D
  decode_how words ephem =
      let how = get_or words 1 0 in
      record ephem {
        subframe_id = extract_unsigned_bits how 20 3;
        tow = mul (nat fp (extract_unsigned_bits how 1 17)) (nat fp 6);
      }

  abbrev pub wanted : NavigationDecoder D → ℕ → Bool
  wanted dec id =
      not (ltb id 1 || ltb 5 id || (bit_and (dec.subframe_search_mask / 2 ^ (id - 1)) 1 == 0))

  -- The result, the ephemeris and the decoder after the call.
  unfoldable pub decode_subframe :
      List ℕ → GpsEphemeris D → NavigationDecoder D → Bool × GpsEphemeris D × NavigationDecoder D
  decode_subframe words ephem dec =
      if ltb (length words) 10
      then (false, ephem, dec)
      else let headed = decode_how words ephem in
        let id = headed.subframe_id in
        if not (wanted dec id)
        then (false, record headed { is_valid = false }, dec)
        else if id == 1
        then (true, decode_subframe1 words headed, dec)
        else if id == 2
        then (true, decode_subframe2 words headed, dec)
        else if id == 3
        then (true, decode_subframe3 words headed, dec)
        else if id == 4
        then (true, record headed { is_valid = true }, decode_ionospheric_params words dec)
        else (true, record headed { is_valid = true }, dec)
