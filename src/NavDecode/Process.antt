-- ===== src/NavDecode/Process.antt =====
-- What a call of `processPromptSignal` does to the bit synchronisation, on every branch.
use gpsopen_cl.Prelude.{ℕ, ◌+◌, ◌<◌, ◌≡◌, refl, ◌∙◌, true, false, Option}
use gpsopen_cl.Prelude.{List, length, get_or, if◌then◌else◌, arith, ◌==◌, replicate}
use gpsopen_cl.Prelude.Int.{pos, negsuc}
use gpsopen_cl.Float.{Floats}
use gpsopen_cl.NavDecode.Subframe.{GpsEphemeris, NavigationDecoder}
use gpsopen_cl.NavDecode.Search.{Attempt, decode_at_phase_offset}
use gpsopen_cl.NavDecode.Sync.{BitSync, Processed, settle, process_prompt_signal, process_locked}
use gpsopen_cl.NavDecode.Sync.{process_search, process_at}
use gpsopen_cl.NavDecode.Progress.{try_decode-IsAttempt}
use gpsopen_cl.NavDecode.Locking.{advanced, IsNear, IsSearched, search_phases-IsSearched}

-- A call that is locked to `phase` stays there. A decoded subframe is near the current offset and
-- moves it on by 300 bits; without one it moves by one bit, if there was enough data.
pub record IsLocked {D : Type 0} (size phase : ℕ) (sync : BitSync) (r : Processed D) : Type 0 where
  pub same_phase : r.sync.bit_sync_phase ≡ pos phase
  pub offset :
      r.sync.bit_offset
      ≡ (if r.decoded then sync.bit_offset + 300 else advanced size phase sync.bit_offset)
  pub near : r.decoded ≡ true → IsNear size phase sync.bit_offset r.subframe_start_sample

-- The cursors that a search starts from.
abbrev pub cursors : BitSync → List ℕ
cursors sync = if length sync.search_positions == 20 then sync.search_positions else replicate 20 0

-- A call that is not locked either locks to a phase below 20 where it decoded a subframe, right
-- behind it; or stays unlocked, and each of the twenty cursors is one bit on if it had the data.
pub data IsSearch {D : Type 0} (size : ℕ) (sync : BitSync) (r : Processed D) : Type 0 where
  locks :
      (phase : ℕ)
      → phase < 20
      → r.decoded ≡ true
      → r.sync.bit_sync_phase ≡ pos phase
      → r.sync.bit_offset ≡ get_or (cursors sync) phase 0 + 300
      → IsNear size phase (get_or (cursors sync) phase 0) r.subframe_start_sample
      → IsSearch size sync r
  goes_on :
      r.decoded ≡ false
      → r.sync.bit_sync_phase ≡ sync.bit_sync_phase
      → r.sync.bit_offset ≡ sync.bit_offset
      → length r.sync.search_positions ≡ 20
      → ((k : ℕ)
          → k < 20
          → get_or r.sync.search_positions k 0 ≡ advanced size k (get_or (cursors sync) k 0))
      → IsSearch size sync r

length-cursors : (sync : BitSync) → length (cursors sync) ≡ 20
length-cursors sync = ground arith

settle-IsSearch :
    {D : Type 0} (size : ℕ) (sync : BitSync) (a : Attempt D) (moved : List ℕ)
    (lock : Option (ℕ × ℕ))
    → IsSearched size (cursors sync) 0 20 a moved lock
    → IsSearch size sync (settle sync a moved lock)
unfolding settle
settle-IsSearch size sync a moved lock (IsSearched.hit phase l _ m ok near) =
    rw l (locks phase m ok refl refl near)
settle-IsSearch size sync a moved lock (IsSearched.miss l no_code same_length ahead _) =
    rw l (
      goes_on no_code refl refl (same_length ∙ length-cursors sync)
        (λ k m. ahead k (omega arith) m))

module _ {F D : Type 0} (fp : Floats F D) (sv_id : ℕ) (history : List (F × F))
    (code_phases : Option (List F)) where
  process_locked-IsLocked :
      (phase : ℕ) (sync : BitSync) (ephem : GpsEphemeris D) (before : ℕ)
      (decoder : NavigationDecoder D)
      → IsLocked
          (length history)
          phase
          (record sync { bit_sync_phase = pos phase })
          (process_locked fp sv_id history code_phases phase
            (record sync { bit_sync_phase = pos phase })
            ephem
            before
            decoder)
  unfolding process_locked decode_at_phase_offset
  process_locked-IsLocked phase sync ephem before decoder =
      let tried =
        try_decode-IsAttempt fp history code_phases sv_id phase sync.bit_offset ephem before
          decoder in
      record { same_phase = refl; offset = rw tried.enough refl; near = tried.near }

  process_search-IsSearch :
      (sync : BitSync) (ephem : GpsEphemeris D) (before : ℕ) (decoder : NavigationDecoder D)
      → IsSearch
          (length history)
          sync
          (process_search fp sv_id history code_phases sync ephem before decoder)
  unfolding process_search
  process_search-IsSearch sync ephem before decoder = settle-IsSearch (length history) sync _ _ _ (
      search_phases-IsSearched fp history code_phases sv_id 0 20 (cursors sync) ephem before decoder
        (omega (arith, length-cursors sync)))

  -- A call with a bit synchronisation stays locked to its phase; a decoded subframe is near its
  -- offset, which it moves on by 300 bits, and otherwise the offset moves by one bit or waits.
  pub process_prompt_signal-IsLocked :
      (phase : ℕ) (positions : List ℕ) (offset : ℕ) (ephem : GpsEphemeris D) (before : ℕ)
      (decoder : NavigationDecoder D)
      → let sync : BitSync = record {
        bit_sync_phase = pos phase;
        search_positions = positions;
        bit_offset = offset;
      } in
        IsLocked
          (length history)
          phase
          sync
          (process_prompt_signal fp sv_id history code_phases sync ephem before decoder)
  unfolding process_prompt_signal process_at
  process_prompt_signal-IsLocked phase positions offset ephem before decoder =
      process_locked-IsLocked phase
        (record { bit_sync_phase = pos phase; search_positions = positions; bit_offset = offset })
        (record ephem { sv_id = sv_id; is_valid = false }) before decoder

  -- A call without one either locks to the phase at which it decoded a subframe, or leaves the
  -- phase and the offset and moves each of the twenty cursors by one bit if it had the data.
  pub process_prompt_signal-IsSearch :
      (n : ℕ) (positions : List ℕ) (offset : ℕ) (ephem : GpsEphemeris D) (before : ℕ)
      (decoder : NavigationDecoder D)
      → let sync : BitSync = record {
        bit_sync_phase = negsuc n;
        search_positions = positions;
        bit_offset = offset;
      } in
        IsSearch
          (length history)
          sync
          (process_prompt_signal fp sv_id history code_phases sync ephem before decoder)
  unfolding process_prompt_signal process_at
  process_prompt_signal-IsSearch n positions offset ephem before decoder =
      process_search-IsSearch _ _ before decoder
