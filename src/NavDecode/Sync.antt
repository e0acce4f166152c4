-- ===== src/NavDecode/Sync.antt =====
-- `processPromptSignal`: the bit synchronisation over the blocks.
use gpsopen_cl.Prelude.{ℕ, Bool, false, Option}
use gpsopen_cl.Prelude.{none, some, List, ◌==◌, if◌then◌else◌}
use gpsopen_cl.Prelude.{length, replicate}
use gpsopen_cl.Prelude.Int.{ℤ, pos, negsuc}
use gpsopen_cl.Float.{Floats}
use gpsopen_cl.NavDecode.Words.{code_periods_per_bit}
use gpsopen_cl.NavDecode.Subframe.{GpsEphemeris, NavDecoderOutput, NavigationDecoder}
use gpsopen_cl.NavDecode.Subframe.{ephemeris_to_output}
use gpsopen_cl.NavDecode.Search.{Attempt, search_phases, decode_at_phase_offset}

-- What the channel hands in and gets back: the bit synchronisation, which is -1 while it is not
-- found, the search cursors of the twenty phases, and the offset of the next subframe.
pub record BitSync : Type 0 where
  pub bit_sync_phase : ℤ
  pub search_positions : List ℕ
  pub bit_offset : ℕ

-- A decoded subframe is also handed to the sink, in its wire form.
pub record Processed (D : Type 0) : Type 0 where
  pub decoded : Bool
  pub sync : BitSync
  pub ephem : GpsEphemeris D
  pub subframe_start_sample : ℕ
  pub decoder : NavigationDecoder D
  pub published : Option (NavDecoderOutput D)

abbrev pub finish : {D : Type 0} → Attempt D → BitSync → Processed D
finish a sync = record {
  decoded = a.decoded;
  sync = sync;
  ephem = a.ephem;
  subframe_start_sample = a.subframe_start_sample;
  decoder = a.decoder;
  published = if a.decoded then some (ephemeris_to_output a.ephem) else none;
}

-- After the loop over the phases: `lock` is the phase and the offset if one decoded.
unfoldable pub settle : {D : Type 0} → BitSync → Attempt D → List ℕ → Option (ℕ × ℕ) → Processed D
settle sync a moved none = finish a (record sync { search_positions = moved })
settle sync a moved (some (phase, offset)) =
    finish a (record { bit_sync_phase = pos phase; search_positions = moved; bit_offset = offset })

module _ {F D : Type 0} (fp : Floats F D) where
  module _ (sv_id : ℕ) (history : List (F × F)) (code_phases : Option (List F)) where
    -- `bitSyncPhase >= 0`.
    unfoldable pub process_locked :
        ℕ → BitSync → GpsEphemeris D → ℕ → NavigationDecoder D → Processed D
    process_locked phase sync ephem subframe_start_sample decoder =
        let (a, offset) =
          decode_at_phase_offset fp history code_phases sv_id phase sync.bit_offset ephem
            subframe_start_sample decoder in
        finish a (record sync { bit_offset = offset })

    unfoldable pub process_search : BitSync → GpsEphemeris D → ℕ → NavigationDecoder D → Processed D
    process_search sync ephem subframe_start_sample decoder =
        let positions =
          if length sync.search_positions == code_periods_per_bit
          then sync.search_positions
          else replicate code_periods_per_bit 0 in
        let (a, moved, lock) =
          search_phases fp history code_phases sv_id 0 code_periods_per_bit positions ephem
            subframe_start_sample decoder in
        settle sync a moved lock

    unfoldable pub process_at : ℤ → BitSync → GpsEphemeris D → ℕ → NavigationDecoder D → Processed D
    process_at (pos phase) sync = process_locked phase sync
    process_at (negsuc n) sync = process_search sync

    unfoldable pub process_prompt_signal :
        BitSync → GpsEphemeris D → ℕ → NavigationDecoder D → Processed D
    process_prompt_signal sync ephem subframe_start_sample decoder =
        process_at sync.bit_sync_phase sync (record ephem { sv_id = sv_id; is_valid = false })
          subframe_start_sample decoder
