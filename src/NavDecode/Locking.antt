-- ===== src/NavDecode/Locking.antt =====
-- The bit synchronisation of `processPromptSignal`: what a call does to the phase, the cursors and
-- the offset, on every branch.
use native.Mathlib.Decide.{ℕ_discrete}
use gpsopen_cl.Prelude.{◌≢◌}
use gpsopen_cl.Prelude.{ℕ, zero, suc, ◌+◌, ◌≤◌, ◌<◌, ◌≡◌, refl, ◌∙◌, ap, inl, inr}
use gpsopen_cl.Prelude.{Bool, true, false, Option, none, some, List, length, get_or, set}
use gpsopen_cl.Prelude.{if◌then◌else◌, arith, Bool-cases, length-set}
use gpsopen_cl.Prelude.{get_or-set_self, get_or-set_ne}
use gpsopen_cl.Float.{Floats}
use gpsopen_cl.NavDecode.Subframe.{GpsEphemeris, NavigationDecoder}
use gpsopen_cl.NavDecode.Search.{Attempt, has_room, start_of}
use gpsopen_cl.NavDecode.Search.{try_decode_at_bit_position, search_phases}
use gpsopen_cl.NavDecode.Progress.{try_decode-IsAttempt}

-- Where a search cursor goes when its attempt fails: one bit on, if there was enough data.
abbrev pub advanced : ℕ → ℕ → ℕ → ℕ
advanced size phase position = if has_room size phase position then position + 1 else position

-- The start that is reported for a subframe found at a place of a history of `size` samples.
abbrev pub IsNear : ℕ → ℕ → ℕ → ℕ → Type 0
IsNear size phase position start =
    (start ≤ start_of phase position + 2)
    × (start_of phase position ≤ start + 2)
    × (start + 6000 ≤ size)

-- What the loop over the phases `lo` to `hi - 1` comes back with.
pub data IsSearched {D : Type 0} (size : ℕ) (positions : List ℕ) (lo hi : ℕ) (a : Attempt D)
    (moved : List ℕ) (lock : Option (ℕ × ℕ)) : Type 0 where
  hit :
      (phase : ℕ)
      → lock ≡ some (phase, get_or positions phase 0 + 300)
      → lo ≤ phase
      → phase < hi
      → a.decoded ≡ true
      → IsNear size phase (get_or positions phase 0) a.subframe_start_sample
      → IsSearched size positions lo hi a moved lock
  miss :
      lock ≡ none
      → a.decoded ≡ false
      → length moved ≡ length positions
      → ((k : ℕ) → lo ≤ k → k < hi → get_or moved k 0 ≡ advanced size k (get_or positions k 0))
      → ((k : ℕ) → k < lo → get_or moved k 0 ≡ get_or positions k 0)
      → IsSearched size positions lo hi a moved lock

-- The cursors after a failed attempt at one phase.
abbrev bump : ℕ → ℕ → Bool → List ℕ → List ℕ
bump size phase enough positions =
    if enough then set positions phase (get_or positions phase 0 + 1) else positions

module _ (size phase : ℕ) (enough : Bool) (positions : List ℕ)
    (is_room : enough ≡ has_room size phase (get_or positions phase 0))
    (inside : phase < length positions) where
  length-bump : length (bump size phase enough positions) ≡ length positions
  length-bump = ground (arith, length-set positions phase (get_or positions phase 0 + 1))

  bump_here :
      get_or (bump size phase enough positions) phase 0
      ≡ advanced size phase (get_or positions phase 0)
  bump_here =
      rw is_room
        (ground (arith, get_or-set_self positions phase (get_or positions phase 0 + 1) 0 inside))

  bump_elsewhere :
      (k : ℕ) → phase ≢ k → get_or (bump size phase enough positions) k 0 ≡ get_or positions k 0
  bump_elsewhere k h =
      ground (arith, get_or-set_ne positions phase k (get_or positions phase 0 + 1) 0 h)

  -- A failed phase in front of a search of the phases behind it.
  IsSearched-bump :
      {D : Type 0} (hi : ℕ) (a : Attempt D) (moved : List ℕ) (lock : Option (ℕ × ℕ))
      → IsSearched size (bump size phase enough positions) (phase + 1) hi a moved lock
      → IsSearched size positions phase hi a moved lock
  IsSearched-bump hi a moved lock (hit k e l m ok near) =
      let same = bump_elsewhere k (λ (e : phase ≡ k). omega arith) in
      hit k (rw same at e) (omega arith) m ok (rw same at near)
  IsSearched-bump hi a moved lock (miss e no_code same_length ahead behind) =
      miss e no_code (same_length ∙ length-bump)
        (λ k l m. elim (ℕ_discrete phase k) [
          | yes q ↦ rw (← q) (behind phase (omega arith) ∙ bump_here)
          | no q ↦ ahead k (omega arith) m ∙ ap (advanced size k) (bump_elsewhere k q)
        ])
        (λ k l. behind k (omega arith) ∙ bump_elsewhere k (λ (e : phase ≡ k). omega arith))

module _ {F D : Type 0} (fp : Floats F D) where
  module _ (history : List (F × F)) (code_phases : Option (List F)) (sv_id : ℕ) where
    -- With a cursor for each phase, the loop stops at the first phase that decodes, behind which the
    -- later cursors stay, or tries them all; a cursor passed moves by one bit if it had the data.
    pub search_phases-IsSearched :
        (phase n : ℕ) (positions : List ℕ) (ephem : GpsEphemeris D) (before : ℕ)
        (decoder : NavigationDecoder D)
        → phase + n ≤ length positions
        → let (a, moved, lock) =
            search_phases fp history code_phases sv_id phase n positions ephem before decoder in
          IsSearched (length history) positions phase (phase + n) a moved lock
    unfolding search_phases
    search_phases-IsSearched phase zero positions ephem before decoder h =
        miss refl refl refl (λ k l m. absurd (omega arith)) (λ k l. refl)
    search_phases-IsSearched phase (suc n) positions ephem before decoder h =
        let size = length history in
        let position = get_or positions phase 0 in
        let a =
          try_decode_at_bit_position fp history code_phases sv_id phase position ephem before
            decoder in
        let tried =
          try_decode-IsAttempt fp history code_phases sv_id phase position ephem before decoder in
        let moved = bump size phase a.had_enough_data positions in
        let same_length =
          length-bump size phase a.had_enough_data positions tried.enough (omega arith) in
        let place : phase + 1 + n ≡ phase + suc n = omega arith in
        let rest =
          search_phases-IsSearched (phase + 1) n moved a.ephem a.subframe_start_sample a.decoder
            (omega arith) in
        elim (Bool-cases a.decoded) [
          | inl ok ↦
              rw (ok, search_phases) (hit phase refl (omega arith) (omega arith) ok (tried.near ok))
          | inr no_code ↦
              rw (no_code, search_phases)
                (IsSearched-bump size phase a.had_enough_data positions tried.enough (omega arith)
                  (phase + suc n) _ _ _ (rw place at rest))
        ]
