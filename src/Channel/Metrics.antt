-- ===== src/Channel/Metrics.antt =====
-- The acquisition metrics of a channel: `insertAcquisitionMetrics` and `resetAcquisitionMetrics` of
-- Source/Tracking/GPSOpenClChannel.cpp, each one step under its mutex.
use gpsopen_cl.Prelude.{not, if◌then◌else◌}
use gpsopen_cl.Prelude.Int.{ℤ, pos}
use gpsopen_cl.Float.{Floats}

pub record Metrics (F : Type 0) : Type 0 where
  pub peak_index : ℤ
  pub peak_value : F
  pub peak_frequency_hz : F
  pub mean_value : F
  pub cn0 : F
  pub peak_ratio : F

-- What one Doppler bin gives.
pub record Bin (F : Type 0) : Type 0 where
  pub peak : F
  pub index : ℤ
  pub frequency_hz : F
  pub mean : F

-- `log10` is the standard library's, and `gain` the processing gain that the constructor sets.
module _ {F D : Type 0} (fp : Floats F D) (log10 : F → F) (gain : F) where
  open fp use {zero_f, add_f, mul_f, div_f, lt_f, eq_f, of_int_f}

  unfoldable pub reset_acquisition_metrics : Metrics F → Metrics F
  reset_acquisition_metrics m = record {
    peak_index = pos 0;
    peak_value = zero_f;
    peak_frequency_hz = zero_f;
    mean_value = zero_f;
    cn0 = zero_f;
    peak_ratio = zero_f;
  }

  -- A larger peak replaces the one held.
  unfoldable pub take_peak : Bin F → Metrics F → Metrics F
  take_peak b m =
      if lt_f m.peak_value b.peak
      then record m {
        peak_index = b.index;
        peak_value = b.peak;
        peak_frequency_hz = b.frequency_hz;
      }
      else m

  -- The ratio of the peak to the sum of the means, and the density from it.
  unfoldable pub rate_peak : Metrics F → Metrics F
  rate_peak m =
      let ratio = div_f m.peak_value m.mean_value in
      if not (eq_f m.mean_value zero_f)
      then record m {
        peak_ratio = ratio;
        cn0 = add_f (mul_f (of_int_f (pos 10)) (log10 ratio)) gain;
      }
      else record m { peak_ratio = zero_f; cn0 = zero_f }

  unfoldable pub insert_acquisition_metrics : Bin F → Metrics F → Metrics F
  insert_acquisition_metrics b m =
      let peaked = take_peak b m in
      rate_peak (record peaked { mean_value = add_f peaked.mean_value b.mean })
