-- ===== src/Channel/Ephemeris.antt =====
-- `Channel::mergeSubframe` and `hasCompleteEphemeris`: the ephemeris that subframes 1 to 3 fill in,
-- with a mask of those whose issues of data agree. The mask is a `uint8_t`.
use gpsopen_cl.Prelude.{ℕ, Bool, not, ◌&&◌, bit_and, bit_or, ◌==◌, if◌then◌else◌}
use gpsopen_cl.NavDecode.Subframe.{GpsEphemeris}

-- `(mask & bit) != 0`, `mask |= bit` and `mask &= static_cast<uint8_t>(~bit)`.
abbrev pub has_bit : ℕ → ℕ → Bool
has_bit mask b = not (bit_and mask b == 0)

abbrev pub set_bit : ℕ → ℕ → ℕ
set_bit mask b = bit_or mask b

abbrev pub clear1 : ℕ → ℕ
clear1 mask = bit_and mask 0xfe

abbrev pub clear2 : ℕ → ℕ
clear2 mask = bit_and mask 0xfd

abbrev pub clear4 : ℕ → ℕ
clear4 mask = bit_and mask 0xfb

module _ {D : Type 0} where
  -- The fields that every subframe brings.
  unfoldable pub merge_header : GpsEphemeris D → GpsEphemeris D → GpsEphemeris D
  merge_header decoded acc = record acc {
    sv_id = decoded.sv_id;
    tow = decoded.tow;
    subframe_id = decoded.subframe_id;
  }

  unfoldable pub merge1 : GpsEphemeris D → GpsEphemeris D → GpsEphemeris D
  merge1 decoded acc = record acc {
    week_number = decoded.week_number;
    iodc = decoded.iodc;
    toc = decoded.toc;
    af0 = decoded.af0;
    af1 = decoded.af1;
    af2 = decoded.af2;
    tgd = decoded.tgd;
  }

  unfoldable pub merge2 : GpsEphemeris D → GpsEphemeris D → GpsEphemeris D
  merge2 decoded acc = record acc {
    iode2 = decoded.iode2;
    toe = decoded.toe;
    sqrt_a = decoded.sqrt_a;
    e = decoded.e;
    m0 = decoded.m0;
    delta_n = decoded.delta_n;
    cuc = decoded.cuc;
    cus = decoded.cus;
    crs = decoded.crs;
  }

  unfoldable pub merge3 : GpsEphemeris D → GpsEphemeris D → GpsEphemeris D
  merge3 decoded acc = record acc {
    iode3 = decoded.iode3;
    i0 = decoded.i0;
    idot = decoded.idot;
    omega0 = decoded.omega0;
    omega_dot = decoded.omega_dot;
    omega = decoded.omega;
    cic = decoded.cic;
    cis = decoded.cis;
    crc = decoded.crc;
  }

-- The checks of the issues of data after the merge of each subframe, on the mask.
unfoldable pub check1 : ℕ → ℕ → ℕ → ℕ → ℕ
check1 low8 iode2 iode3 mask =
    let mask' = if has_bit mask 2 && not (iode2 == low8) then clear2 mask else mask in
    if has_bit mask' 4 && not (iode3 == low8) then clear4 mask' else mask'

unfoldable pub check2 : ℕ → ℕ → ℕ → ℕ → ℕ
check2 low8 iode2 iode3 mask =
    let mask' = if has_bit mask 1 && not (iode2 == low8) then clear1 mask else mask in
    if has_bit mask' 4 && not (iode3 == iode2) then clear4 mask' else mask'

unfoldable pub check3 : ℕ → ℕ → ℕ → ℕ → ℕ
check3 low8 iode2 iode3 mask =
    let mask' = if has_bit mask 1 && not (iode3 == low8) then clear1 mask else mask in
    if has_bit mask' 2 && not (iode2 == iode3) then clear2 mask' else mask'

abbrev pub iodc_low8 : {D : Type 0} → GpsEphemeris D → ℕ
iodc_low8 acc = bit_and acc.iodc 0xff

module _ {D : Type 0} where
  -- The accumulated ephemeris and the mask after the call. A subframe that is none of 1 to 3
  -- brings its header alone.
  unfoldable pub merge_subframe : GpsEphemeris D → GpsEphemeris D → ℕ → GpsEphemeris D × ℕ
  merge_subframe decoded acc mask =
      let headed = merge_header decoded acc in
      if decoded.subframe_id == 1
      then (let a = merge1 decoded headed in
          (a, check1 (iodc_low8 a) a.iode2 a.iode3 (set_bit mask 1)))
      else if decoded.subframe_id == 2
      then (let a = merge2 decoded headed in
          (a, check2 (iodc_low8 a) a.iode2 a.iode3 (set_bit mask 2)))
      else if decoded.subframe_id == 3
      then (let a = merge3 decoded headed in
          (a, check3 (iodc_low8 a) a.iode2 a.iode3 (set_bit mask 4)))
      else (headed, mask)

-- `(m_seenSubframeMask & 0x7) == 0x7`.
unfoldable pub has_complete_ephemeris : ℕ → Bool
has_complete_ephemeris mask = bit_and mask 7 == 7
