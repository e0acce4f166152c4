-- ===== src/Channel/History.antt =====
-- `compactNavigationHistory` and `updateNavigation`. Sizes and sample numbers are `size_t`; sums and
-- products of them are within the memory's size and written without the wrap-around, but the two
-- subtractions in place keep it.
use gpsopen_cl.Prelude.{ℕ, ◌+◌, ◌-◌, ◌*◌, ◌/◌, ◌^◌, Bool, ◌||◌, min}
use gpsopen_cl.Prelude.{List, [], ◌∷◌, Option, some, map, length, drop, ltb, leb, ◌==◌}
use gpsopen_cl.Prelude.{if◌then◌else◌}
use gpsopen_cl.Prelude.Int.{ℤ, pos, negsuc}
use gpsopen_cl.Float.{Floats}
use gpsopen_cl.NavDecode.Words.{code_periods_per_bit}
use gpsopen_cl.NavDecode.Subframe.{NavDecoderOutput, NavigationDecoder}
use gpsopen_cl.NavDecode.Sync.{BitSync, Processed, process_prompt_signal}
use gpsopen_cl.Channel.Ephemeris.{merge_subframe, has_complete_ephemeris}
use gpsopen_cl.Channel.State.{Navigation, no_ephemeris}

abbrev pub compact_threshold : ℕ
compact_threshold = 30000

abbrev pub compact_min_drop : ℕ
compact_min_drop = 10000

-- `a -= b` on `size_t`.
abbrev pub sub_size : ℕ → ℕ → ℕ
sub_size a b = if leb b a then a - b else 2 ^ 64 + a - b

-- The samples to drop at a found phase: whole bits before the older of the last subframe and the
-- next read, less a margin.
unfoldable pub drop_locked : ℕ → ℕ → ℕ → ℕ
drop_locked phase bit_offset last_start =
    let anchor = min last_start (phase + bit_offset * code_periods_per_bit) in
    let margin = phase + 40 in
    if ltb margin anchor then (anchor - margin) / code_periods_per_bit * code_periods_per_bit else 0

-- The loop over the cursors, `least` the smallest so far.
unfoldable pub least_from : ℕ → List ℕ → ℕ
least_from least [] = least
least_from least (p ∷ ps) = least_from (min least p) ps

-- The samples to drop while the phase is searched.
unfoldable pub drop_search : List ℕ → ℕ
unfolding least_from
drop_search [] = 0
drop_search (p ∷ ps) =
    let searched = least_from p (p ∷ ps) in
    if ltb 2 searched then (searched - 2) * code_periods_per_bit else 0

unfoldable pub drop_samples : ℤ → BitSync → ℕ → ℕ
unfolding drop_locked drop_search
drop_samples (pos phase) sync last_start = drop_locked phase sync.bit_offset last_start
drop_samples (negsuc n) sync last_start = drop_search sync.search_positions

-- A cursor after `bits` are dropped.
abbrev pub rebase_cursor : ℕ → ℕ → ℕ
rebase_cursor bits position = if ltb bits position then position - bits else 0

unfoldable pub rebase_sync : ℤ → ℕ → BitSync → BitSync
rebase_sync (pos phase) bits sync = record sync { bit_offset = sub_size sync.bit_offset bits }
rebase_sync (negsuc n) bits sync = record sync {
  search_positions = map (rebase_cursor bits) sync.search_positions;
}

abbrev pub rebase_start : ℤ → ℕ → ℕ → ℕ
rebase_start (pos phase) n start = sub_size start n
rebase_start (negsuc m) n start = start

module _ {F D : Type 0} where
  -- The histories without their first `n` samples.
  unfoldable pub drop_history : ℕ → Navigation F D → Navigation F D
  unfolding rebase_sync
  drop_history n nav = record nav {
    prompt_history = drop n nav.prompt_history;
    code_phase_history = drop n nav.code_phase_history;
    cumulative_drift_chips_history = drop n nav.cumulative_drift_chips_history;
    sync = rebase_sync nav.sync.bit_sync_phase (n / code_periods_per_bit) nav.sync;
    last_subframe_start_sample =
        rebase_start nav.sync.bit_sync_phase n nav.last_subframe_start_sample;
  }

  -- How much a call drops; 0 where it returns early.
  unfoldable pub dropped : Navigation F D → ℕ
  unfolding drop_samples
  dropped nav =
      let n = drop_samples nav.sync.bit_sync_phase nav.sync nav.last_subframe_start_sample in
      if ltb (length nav.prompt_history) compact_threshold
      then 0
      else if ltb n compact_min_drop || ltb (length nav.prompt_history) n
      then 0
      else n

  unfoldable pub compact_navigation_history : Navigation F D → Navigation F D
  unfolding dropped drop_history
  compact_navigation_history nav = let n = dropped nav in if n == 0 then nav else drop_history n nav

-- What `updateNavigation` gives: its result, the state, the decoder and what the sink gets.
pub record Updated (F D : Type 0) : Type 0 where
  pub complete : Bool
  pub nav : Navigation F D
  pub decoder : NavigationDecoder D
  pub published : Option (NavDecoderOutput D)

module _ {F D : Type 0} (fp : Floats F D) where
  -- After `processPromptSignal`: only a decoded subframe is merged.
  unfoldable pub accept : Navigation F D → Processed D → Updated F D
  accept nav r =
      let (acc, mask) = merge_subframe r.ephem nav.accumulated_ephemeris nav.seen_subframe_mask in
      let complete = has_complete_ephemeris mask in
      let kept : Updated F D = record {
        complete = has_complete_ephemeris nav.seen_subframe_mask;
        nav = record nav { sync = r.sync };
        decoder = r.decoder;
        published = r.published;
      } in
      let merged : Updated F D = record {
        complete = complete;
        nav = record nav {
          sync = r.sync;
          accumulated_ephemeris = record acc { is_valid = complete };
          seen_subframe_mask = mask;
          last_subframe_tow = r.ephem.tow;
          last_subframe_start_sample = r.subframe_start_sample;
        };
        decoder = r.decoder;
        published = r.published;
      } in
      if r.decoded then merged else kept

  unfoldable pub update_navigation : ℕ → Navigation F D → NavigationDecoder D → Updated F D
  unfolding compact_navigation_history accept
  update_navigation sv_id nav decoder =
      let kept = compact_navigation_history nav in
      accept kept (
        process_prompt_signal fp sv_id kept.prompt_history (some kept.code_phase_history) kept.sync
          (no_ephemeris fp) 0 decoder)
