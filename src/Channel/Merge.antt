-- ===== src/Channel/Merge.antt =====
-- A complete ephemeris is of one issue: the mask never holds two subframes of different issues.
use gpsopen_cl.Prelude.{ℕ, zero, suc, ◌<◌, ◌≡◌, Bool, true}
use gpsopen_cl.Prelude.{bit_and, arith}
use gpsopen_cl.NavDecode.Subframe.{GpsEphemeris}
use gpsopen_cl.Channel.Ephemeris.{has_bit, set_bit, check1, check2, check3}
use gpsopen_cl.Channel.Ephemeris.{merge_header, merge1, merge2, merge3, merge_subframe, iodc_low8}
use gpsopen_cl.Channel.Ephemeris.{has_complete_ephemeris}

-- Two members of the mask have the same issue of data.
abbrev Agree : Bool → Bool → ℕ → ℕ → Type 0
Agree true true x y = x ≡ y
Agree _ _ x y = Unit {0}

-- `low8`, `iode2` and `iode3` are the issues of subframes 1, 2 and 3.
abbrev pub IsOneIssue : ℕ → ℕ → ℕ → ℕ → Type 0
IsOneIssue mask low8 iode2 iode3 =
    (mask < 8)
    × Agree (has_bit mask 1) (has_bit mask 2) low8 iode2
    × Agree (has_bit mask 1) (has_bit mask 4) low8 iode3
    × Agree (has_bit mask 2) (has_bit mask 4) iode2 iode3

check1-IsOneIssue :
    (mask low8 old iode2 iode3 : ℕ)
    → IsOneIssue mask old iode2 iode3
    → IsOneIssue (check1 low8 iode2 iode3 (set_bit mask 1)) low8 iode2 iode3
unfolding check1
check1-IsOneIssue zero low8 old iode2 iode3 h = ground arith
check1-IsOneIssue (suc zero) low8 old iode2 iode3 h = ground arith
check1-IsOneIssue (suc (suc zero)) low8 old iode2 iode3 h = ground arith
check1-IsOneIssue (suc (suc (suc zero))) low8 old iode2 iode3 h = ground arith
check1-IsOneIssue (suc (suc (suc (suc zero)))) low8 old iode2 iode3 h = ground arith
check1-IsOneIssue (suc (suc (suc (suc (suc zero))))) low8 old iode2 iode3 h = ground arith
check1-IsOneIssue (suc (suc (suc (suc (suc (suc zero)))))) low8 old iode2 iode3 h = ground arith
check1-IsOneIssue (suc (suc (suc (suc (suc (suc (suc zero))))))) low8 old iode2 iode3 h =
    ground arith
check1-IsOneIssue (suc (suc (suc (suc (suc (suc (suc (suc n)))))))) low8 old iode2 iode3 h =
    absurd (omega arith)

check2-IsOneIssue :
    (mask low8 old iode2 iode3 : ℕ)
    → IsOneIssue mask low8 old iode3
    → IsOneIssue (check2 low8 iode2 iode3 (set_bit mask 2)) low8 iode2 iode3
unfolding check2
check2-IsOneIssue zero low8 old iode2 iode3 h = ground arith
check2-IsOneIssue (suc zero) low8 old iode2 iode3 h = ground arith
check2-IsOneIssue (suc (suc zero)) low8 old iode2 iode3 h = ground arith
check2-IsOneIssue (suc (suc (suc zero))) low8 old iode2 iode3 h = ground arith
check2-IsOneIssue (suc (suc (suc (suc zero)))) low8 old iode2 iode3 h = ground arith
check2-IsOneIssue (suc (suc (suc (suc (suc zero))))) low8 old iode2 iode3 h = ground arith
check2-IsOneIssue (suc (suc (suc (suc (suc (suc zero)))))) low8 old iode2 iode3 h = ground arith
check2-IsOneIssue (suc (suc (suc (suc (suc (suc (suc zero))))))) low8 old iode2 iode3 h =
    ground arith
check2-IsOneIssue (suc (suc (suc (suc (suc (suc (suc (suc n)))))))) low8 old iode2 iode3 h =
    absurd (omega arith)

check3-IsOneIssue :
    (mask low8 old iode2 iode3 : ℕ)
    → IsOneIssue mask low8 iode2 old
    → IsOneIssue (check3 low8 iode2 iode3 (set_bit mask 4)) low8 iode2 iode3
unfolding check3
check3-IsOneIssue zero low8 old iode2 iode3 h = ground arith
check3-IsOneIssue (suc zero) low8 old iode2 iode3 h = ground arith
check3-IsOneIssue (suc (suc zero)) low8 old iode2 iode3 h = ground arith
check3-IsOneIssue (suc (suc (suc zero))) low8 old iode2 iode3 h = ground arith
check3-IsOneIssue (suc (suc (suc (suc zero)))) low8 old iode2 iode3 h = ground arith
check3-IsOneIssue (suc (suc (suc (suc (suc zero))))) low8 old iode2 iode3 h = ground arith
check3-IsOneIssue (suc (suc (suc (suc (suc (suc zero)))))) low8 old iode2 iode3 h = ground arith
check3-IsOneIssue (suc (suc (suc (suc (suc (suc (suc zero))))))) low8 old iode2 iode3 h =
    ground arith
check3-IsOneIssue (suc (suc (suc (suc (suc (suc (suc (suc n)))))))) low8 old iode2 iode3 h =
    absurd (omega arith)

complete :
    (mask a b c : ℕ)
    → IsOneIssue mask a b c
    → has_complete_ephemeris mask ≡ true
    → (a ≡ b) × (b ≡ c)
unfolding has_complete_ephemeris
complete zero a b c h e = ground arith
complete (suc zero) a b c h e = ground arith
complete (suc (suc zero)) a b c h e = ground arith
complete (suc (suc (suc zero))) a b c h e = ground arith
complete (suc (suc (suc (suc zero)))) a b c h e = ground arith
complete (suc (suc (suc (suc (suc zero))))) a b c h e = ground arith
complete (suc (suc (suc (suc (suc (suc zero)))))) a b c h e = ground arith
complete (suc (suc (suc (suc (suc (suc (suc zero))))))) a b c h e = ground arith
complete (suc (suc (suc (suc (suc (suc (suc (suc n)))))))) a b c h e = absurd (omega arith)

module _ {D : Type 0} where
  -- The mask and the accumulated ephemeris belong together.
  abbrev pub IsMerged : GpsEphemeris D → ℕ → Type 0
  IsMerged acc mask = IsOneIssue mask (iodc_low8 acc) acc.iode2 acc.iode3

  -- Merging any decoded subframe, whatever its number and its issue of data, keeps the invariant:
  -- the mask is below 8 and any two subframes it holds have one issue.
  pub merge_subframe-IsMerged :
      (decoded acc : GpsEphemeris D)
      → (mask : ℕ) → IsMerged acc mask
      → (let (a, seen) = merge_subframe decoded acc mask in IsMerged a seen)
  unfolding merge_subframe merge_header merge1 merge2 merge3
  merge_subframe-IsMerged decoded acc mask h = ground (
    arith,
    check1-IsOneIssue mask (bit_and decoded.iodc 0xff) (iodc_low8 acc) acc.iode2 acc.iode3 h,
    check2-IsOneIssue mask (iodc_low8 acc) acc.iode2 decoded.iode2 acc.iode3 h,
    check3-IsOneIssue mask (iodc_low8 acc) acc.iode3 acc.iode2 decoded.iode3 h,
  )

  -- A complete ephemeris comes from three subframes of one issue of data.
  pub has_complete_ephemeris-IsMerged :
      (acc : GpsEphemeris D)
      → (mask : ℕ) → IsMerged acc mask
      → has_complete_ephemeris mask ≡ true
      → (iodc_low8 acc ≡ acc.iode2) × (acc.iode2 ≡ acc.iode3)
  has_complete_ephemeris-IsMerged acc mask = complete mask (iodc_low8 acc) acc.iode2 acc.iode3
