-- ===== src/Channel/Compact.antt =====
-- Compaction drops only what the decoder no longer reads.
use gpsopen_cl.Prelude.{ℕ, ◌+◌, ◌*◌, ◌/◌, ◌≤◌, ◌<◌, ◌≡◌, refl, ◌∙◌, ap}
use gpsopen_cl.Prelude.{false, some, List, length, drop, ◌==◌, ◌⊎◌, inl}
use gpsopen_cl.Prelude.{inr, arith}
use gpsopen_cl.Prelude.Int.{pos}
use gpsopen_cl.Float.{Floats}
use gpsopen_cl.NavDecode.Subframe.{GpsEphemeris, NavigationDecoder}
use gpsopen_cl.NavDecode.Search.{try_decode_at_bit_position}
use gpsopen_cl.NavDecode.Shift.{moved_by, try_decode-drop}
use gpsopen_cl.Channel.State.{Navigation}
use gpsopen_cl.Channel.History.{drop_locked, drop_samples, rebase_sync, dropped}
use gpsopen_cl.Channel.History.{drop_history, compact_navigation_history}

drop_locked-bounds :
    (phase offset last n : ℕ)
    → drop_locked phase offset last ≡ n
    → 0 < n
    → (n ≡ (n / 20) * 20) × (n / 20 + 2 ≤ offset) × (n + phase + 40 ≤ last)
unfolding drop_locked
drop_locked-bounds phase offset last n e h = ground arith

module _ {F D : Type 0} where
  abbrev pub locked_at : ℕ → ℕ → Navigation F D → Navigation F D
  locked_at phase offset nav = record nav {
    sync = record {
      bit_sync_phase = pos phase;
      search_positions = nav.sync.search_positions;
      bit_offset = offset;
    };
  }

  -- A compaction at a found phase: the histories lose `bits` whole bits, and every number that
  -- counts from their start is less by as much, with none of them below zero.
  pub record IsRebased (phase offset : ℕ) (nav after : Navigation F D) : Type 0 where
    pub bits : ℕ
    pub within : bits * 20 ≤ length nav.prompt_history
    pub prompts : after.prompt_history ≡ drop (bits * 20) nav.prompt_history
    pub phases : after.code_phase_history ≡ drop (bits * 20) nav.code_phase_history
    pub drifts :
        after.cumulative_drift_chips_history ≡ drop (bits * 20) nav.cumulative_drift_chips_history
    pub same_phase : after.sync.bit_sync_phase ≡ pos phase
    pub same_bit : bits + after.sync.bit_offset ≡ offset
    pub same_start : bits * 20 + after.last_subframe_start_sample ≡ nav.last_subframe_start_sample
    pub margin : (bits ≡ 0) ⊎ (2 ≤ after.sync.bit_offset)

  pub dropped-cases :
      (nav : Navigation F D)
      → (dropped nav ≡ 0)
        ⊎ ((0 < dropped nav)
            × (drop_samples nav.sync.bit_sync_phase nav.sync nav.last_subframe_start_sample
                ≡ dropped nav)
            × (dropped nav ≤ length nav.prompt_history))
  unfolding dropped
  dropped-cases nav = ground arith

  drop_history-IsRebased :
      (phase offset n : ℕ) (nav : Navigation F D)
      → (n ≡ (n / 20) * 20)
      → n / 20 + 2 ≤ offset
      → n + phase + 40 ≤ nav.last_subframe_start_sample
      → n ≤ length nav.prompt_history
      → IsRebased phase offset nav (drop_history n (locked_at phase offset nav))
  unfolding drop_history rebase_sync
  drop_history-IsRebased phase offset n nav whole bit start fits = record {
    bits = n / 20;
    within = omega arith;
    prompts = ap (λ k. drop k nav.prompt_history) whole;
    phases = ap (λ k. drop k nav.code_phase_history) whole;
    drifts = ap (λ k. drop k nav.cumulative_drift_chips_history) whole;
    same_phase = refl;
    same_bit = ground arith;
    same_start = ground arith;
    margin = inr (ground arith);
  }

  -- Compaction at a found phase drops whole bits, never more than there are, takes nothing below
  -- zero, and leaves two bits before the next one that is read, at any sizes.
  pub compact-IsRebased :
      (phase offset : ℕ) (nav : Navigation F D)
      → IsRebased phase offset nav (compact_navigation_history (locked_at phase offset nav))
  unfolding compact_navigation_history drop_samples
  compact-IsRebased phase offset nav =
      let n = dropped (locked_at phase offset nav) in
      elim (dropped-cases (locked_at phase offset nav)) [
        | inl none_dropped ↦ rw none_dropped (record {
          bits = 0;
          within = omega arith;
          prompts = refl;
          phases = refl;
          drifts = refl;
          same_phase = refl;
          same_bit = omega arith;
          same_start = omega arith;
          margin = inl refl;
        })
        | inr (some_dropped, e, fits) ↦
            let bounds =
              drop_locked-bounds phase offset nav.last_subframe_start_sample n e some_dropped in
            let nonzero : (n == 0) ≡ false = ground arith in
            rw nonzero (drop_history-IsRebased phase offset n nav bounds.0 bounds.1 bounds.2 fits)
      ]

module _ {F D : Type 0} (fp : Floats F D) where
  no_drop-try_decode :
      (q sv_id phase offset : ℕ) (history : List (F × F)) (phases : List F) (ephem : GpsEphemeris D)
      (before : ℕ) (decoder : NavigationDecoder D)
      → q ≡ 0
      → moved_by (q * 20) (
          try_decode_at_bit_position fp
            (drop (q * 20) history)
            (some (drop (q * 20) phases))
            sv_id
            phase
            offset
            ephem
            before
            decoder)
        ≡ try_decode_at_bit_position fp history
            (some phases)
            sv_id
            phase
            (q + offset)
            ephem
            (q * 20 + before)
            decoder
  no_drop-try_decode q sv_id phase offset history phases ephem before decoder e =
      let a =
        try_decode_at_bit_position fp history (some phases) sv_id phase offset ephem before
          decoder in
      let here : 0 + offset ≡ offset = omega arith in
      let start : 0 + before ≡ before = omega arith in
      let same : 0 + a.subframe_start_sample ≡ a.subframe_start_sample = omega arith in
      rw (e, here, start) (ap (λ s. record a { subframe_start_sample = s }) same)

  rebased-try_decode :
      (sv_id phase offset : ℕ) (nav after : Navigation F D) (ephem : GpsEphemeris D) (before : ℕ)
      (decoder : NavigationDecoder D) (r : IsRebased phase offset nav after)
      → moved_by (r.bits * 20) (
          try_decode_at_bit_position fp
            (drop (r.bits * 20) nav.prompt_history)
            (some (drop (r.bits * 20) nav.code_phase_history))
            sv_id
            phase
            after.sync.bit_offset
            ephem
            before
            decoder)
        ≡ try_decode_at_bit_position fp nav.prompt_history
            (some nav.code_phase_history)
            sv_id
            phase
            (r.bits + after.sync.bit_offset)
            ephem
            (r.bits * 20 + before)
            decoder
  rebased-try_decode sv_id phase offset nav after ephem before decoder r = elim r.margin [
    | inl z ↦
        no_drop-try_decode r.bits sv_id phase after.sync.bit_offset nav.prompt_history
          nav.code_phase_history ephem before decoder z
    | inr two ↦
        try_decode-drop fp sv_id r.bits nav.prompt_history nav.code_phase_history phase
          after.sync.bit_offset ephem before decoder two r.within
  ]

  rebased-attempt :
      (sv_id phase offset : ℕ) (nav after : Navigation F D) (ephem : GpsEphemeris D) (before : ℕ)
      (decoder : NavigationDecoder D) (r : IsRebased phase offset nav after)
      → moved_by (r.bits * 20) (
          try_decode_at_bit_position fp after.prompt_history
            (some after.code_phase_history)
            sv_id
            phase
            after.sync.bit_offset
            ephem
            before
            decoder)
        ≡ try_decode_at_bit_position fp nav.prompt_history
            (some nav.code_phase_history)
            sv_id
            phase
            offset
            ephem
            (r.bits * 20 + before)
            decoder
  rebased-attempt sv_id phase offset nav after ephem before decoder r =
      ap
        (λ p. moved_by (r.bits * 20) (
          try_decode_at_bit_position fp p (some after.code_phase_history) sv_id phase
            after.sync.bit_offset ephem before decoder))
        r.prompts
      ∙ ap
          (λ c. moved_by (r.bits * 20) (
            try_decode_at_bit_position fp (drop (r.bits * 20) nav.prompt_history) (some c) sv_id
              phase after.sync.bit_offset ephem before decoder))
          r.phases
      ∙ rebased-try_decode sv_id phase offset nav after ephem before decoder r
      ∙ ap
          (λ b.
            try_decode_at_bit_position fp nav.prompt_history (some nav.code_phase_history) sv_id
              phase b ephem (r.bits * 20 + before) decoder)
          r.same_bit

  -- The decoder does not see a compaction: the next attempt at the found phase has the same result,
  -- ephemeris and state on the compacted histories as on the whole ones, and its sample number is
  -- the same sample's number in the shorter history.
  pub compact-try_decode :
      (sv_id phase offset : ℕ) (nav : Navigation F D) (ephem : GpsEphemeris D) (before : ℕ)
      (decoder : NavigationDecoder D)
      → let after = compact_navigation_history (locked_at phase offset nav) in
        let bits = (compact-IsRebased phase offset nav).bits in
        moved_by (bits * 20) (
          try_decode_at_bit_position fp after.prompt_history
            (some after.code_phase_history)
            sv_id
            phase
            after.sync.bit_offset
            ephem
            before
            decoder)
        ≡ try_decode_at_bit_position fp nav.prompt_history
            (some nav.code_phase_history)
            sv_id
            phase
            offset
            ephem
            (bits * 20 + before)
            decoder
  compact-try_decode sv_id phase offset nav ephem before decoder =
      rebased-attempt sv_id phase offset nav
        (compact_navigation_history (locked_at phase offset nav)) ephem before decoder
        (compact-IsRebased phase offset nav)
