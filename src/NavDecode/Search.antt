-- ===== src/NavDecode/Search.antt =====
-- One attempt at a subframe, `tryDecodeAtBitPosition` and `decodeAtPhaseOffset`, and the loop of
-- `processPromptSignal` over the phases. What the code writes through references is returned.
use gpsopen_cl.Prelude.{ℕ, zero, suc, ◌+◌, ◌*◌, Bool, true, false, not, Option}
use gpsopen_cl.Prelude.{none, some, List, ltb, if◌then◌else◌}
use gpsopen_cl.Prelude.{length, get_or, set, ◌&&◌}
use gpsopen_cl.Float.{Floats}
use gpsopen_cl.NavDecode.Words.{bits_per_subframe, code_periods_per_bit, byte_from}
use gpsopen_cl.NavDecode.Words.{polarity}
use gpsopen_cl.NavDecode.Subframe.{GpsEphemeris, NavigationDecoder, decode_subframe}
use gpsopen_cl.NavDecode.Samples.{demodulate, previous_bits, decode_words, bit_of, edge_fraction}
use gpsopen_cl.NavDecode.Samples.{refine_start}

-- What an attempt writes: the result, `hadEnoughData`, the ephemeris, `subframeStartSample` and
-- the decoder.
pub record Attempt (D : Type 0) : Type 0 where
  pub decoded : Bool
  pub had_enough_data : Bool
  pub ephem : GpsEphemeris D
  pub subframe_start_sample : ℕ
  pub decoder : NavigationDecoder D

-- `startSample`.
abbrev pub start_of : ℕ → ℕ → ℕ
start_of phase bit_position = phase + bit_position * code_periods_per_bit

-- The two checks that a whole subframe is in a history of `size` samples.
abbrev pub has_room : ℕ → ℕ → ℕ → Bool
has_room size phase bit_position =
    not (ltb size phase)
    && not (ltb size (start_of phase bit_position + bits_per_subframe * code_periods_per_bit))

-- Nothing decoded, nothing written.
abbrev pub no_subframe : {D : Type 0} → GpsEphemeris D → ℕ → NavigationDecoder D → Bool → Attempt D
no_subframe ephem subframe_start_sample decoder enough = record {
  decoded = false;
  had_enough_data = enough;
  ephem = ephem;
  subframe_start_sample = subframe_start_sample;
  decoder = decoder;
}

module _ {F D : Type 0} (fp : Floats F D) where
  module _ (history : List (F × F)) (code_phases : Option (List F)) (sv_id : ℕ) where
    -- What follows the words: where a parity check failed, nothing; else the contents, and the
    -- refined start `refined`.
    unfoldable pub read_words : Option (List ℕ) → ℕ → Attempt D → Attempt D
    read_words none refined a = a
    read_words (some words) refined a =
        let (ok, ephem, decoder) =
          decode_subframe fp words (record a.ephem { sv_id = sv_id }) a.decoder in
        record a { decoded = ok; ephem = ephem; subframe_start_sample = refined; decoder = decoder }

    -- The attempt once the samples are known to be there.
    unfoldable pub decode_here : ℕ → ℕ → Bool → List Bool → Attempt D → Attempt D
    decode_here start_sample bit_position inverted bits a =
        let prev = previous_bits fp history start_sample bit_position inverted in
        read_words (decode_words (bit_of bits inverted) 10 0 prev.0 prev.1)
          (refine_start fp history bits (edge_fraction fp code_phases start_sample) start_sample) a

    unfoldable pub try_decode_at_bit_position :
        ℕ → ℕ → GpsEphemeris D → ℕ → NavigationDecoder D → Attempt D
    try_decode_at_bit_position phase bit_position ephem subframe_start_sample decoder =
        let start = start_of phase bit_position in
        let refused = no_subframe ephem subframe_start_sample decoder in
        let bits = demodulate fp history start bits_per_subframe in
        if has_room (length history) phase bit_position
        then elim (polarity (byte_from bits 0 8 0)) [
          | none ↦ refused true
          | some inverted ↦ decode_here start bit_position inverted bits (refused true)
        ]
        else refused false

    -- The attempt, and the bit offset after it.
    unfoldable pub decode_at_phase_offset :
        ℕ → ℕ → GpsEphemeris D → ℕ → NavigationDecoder D → Attempt D × ℕ
    decode_at_phase_offset phase bit_offset ephem subframe_start_sample decoder =
        let a = try_decode_at_bit_position phase bit_offset ephem subframe_start_sample decoder in
        (
          a,
          if a.decoded
              then bit_offset + bits_per_subframe
              else if a.had_enough_data
              then bit_offset + 1
              else bit_offset,
        )

    -- The loop over the phases that are still searched, from `phase` with `n` left: the attempt
    -- that decoded or the last one, the search positions, and the phase and offset that it locks.
    unfoldable pub search_phases :
        ℕ
        → ℕ
        → List ℕ
        → GpsEphemeris D
        → ℕ
        → NavigationDecoder D
        → Attempt D × List ℕ × Option (ℕ × ℕ)
    search_phases phase zero positions ephem subframe_start_sample decoder =
        (no_subframe ephem subframe_start_sample decoder false, positions, none)
    search_phases phase (suc n) positions ephem subframe_start_sample decoder =
        let position = get_or positions phase 0 in
        let a = try_decode_at_bit_position phase position ephem subframe_start_sample decoder in
        let moved = if a.had_enough_data then set positions phase (position + 1) else positions in
        let later = search_phases (phase + 1) n moved a.ephem a.subframe_start_sample a.decoder in
        elim a.decoded [
          | true ↦ (a, positions, some (phase, position + bits_per_subframe))
          | false ↦ later
        ]
