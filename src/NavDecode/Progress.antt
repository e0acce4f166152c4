-- ===== src/NavDecode/Progress.antt =====
-- What an attempt and a call of `processPromptSignal` may write, whatever the arithmetic does.
use gpsopen_cl.Prelude.{ℕ, zero, suc, ◌+◌, ◌-◌, ◌≤◌, ◌≡◌, refl, sym, ◌∙◌, inl, inr}
use gpsopen_cl.Prelude.{Bool, true, false, Option, List, length}
use gpsopen_cl.Prelude.{arith, Option-cases, Bool-cases}
use gpsopen_cl.Prelude.Int.{negsuc}
use gpsopen_cl.Float.{Floats}
use gpsopen_cl.NavDecode.Words.{polarity, byte_from}
use gpsopen_cl.NavDecode.Subframe.{GpsEphemeris, NavigationDecoder}
use gpsopen_cl.NavDecode.Samples.{
  consider, edge_fraction, best_from, refine_start, decode_words, bit_of, demodulate, previous_bits,
}
use gpsopen_cl.NavDecode.Search.{Attempt, no_subframe, read_words, decode_here, has_room, start_of}
use gpsopen_cl.NavDecode.Search.{try_decode_at_bit_position}

-- A candidate start of a subframe that lies wholly in a history of `n` samples.
abbrev Candidate : ℕ → ℕ → ℕ → Type 0
Candidate n start c = (c ≤ 4) × (2 ≤ start + c) × (start + c - 2 + 6000 ≤ n)

module _ {F D : Type 0} (fp : Floats F D) where
  consider-Candidate :
      (n start c : ℕ) (metric : D) (best : ℕ × D)
      → c ≤ 4
      → Candidate n start best.0
      → Candidate n start (consider fp n start c metric best).0
  unfolding consider
  consider-Candidate n start c metric best h k = ground arith

  best_from-Candidate :
      (history : List (F × F)) (bits : List Bool) (edge : D) (start c n : ℕ) (best : ℕ × D)
      → c + n ≤ 5
      → Candidate (length history) start best.0
      → Candidate (length history) start (best_from fp history bits edge start c n best).0
  unfolding best_from
  best_from-Candidate history bits edge start c zero best h k = k
  best_from-Candidate history bits edge start c (suc n) best h k =
      best_from-Candidate history bits edge start (c + 1) n _ (omega arith)
        (consider-Candidate (length history) start c _ best (omega arith) k)

  -- The start that the timing search settles on is at most two samples off, and the whole
  -- subframe from there on is in the history.
  pub refine_start_bounds :
      (history : List (F × F)) (bits : List Bool) (edge : D) (start : ℕ)
      → start + 6000 ≤ length history
      → let s = refine_start fp history bits edge start in
        (s ≤ start + 2) × (start ≤ s + 2) × (s + 6000 ≤ length history)
  unfolding refine_start
  refine_start_bounds history bits edge start h = omega (
    arith,
    best_from-Candidate history bits edge start 0 5 (2, fp.of_int (negsuc 0)) (omega arith)
        (omega arith),
  )

-- What an attempt at a place in a history of `size` samples may come back with: it had enough data
-- exactly if the whole subframe is there, it decodes only then, and the start that it reports is at
-- most two samples from the place, with the whole subframe in the history.
pub record IsAttempt {D : Type 0} (size phase position : ℕ) (a : Attempt D) : Type 0 where
  pub enough : a.had_enough_data ≡ has_room size phase position
  pub decoded_enough : a.decoded ≡ true → a.had_enough_data ≡ true
  pub near :
      a.decoded ≡ true
      → (a.subframe_start_sample ≤ start_of phase position + 2)
        × (start_of phase position ≤ a.subframe_start_sample + 2)
        × (a.subframe_start_sample + 6000 ≤ size)

IsAttempt-undecoded :
    {D : Type 0} (size phase position : ℕ) (a : Attempt D)
    → a.decoded ≡ false
    → a.had_enough_data ≡ has_room size phase position
    → IsAttempt size phase position a
IsAttempt-undecoded size phase position a no_code h = record {
  enough = h;
  decoded_enough = λ e. absurd (cc);
  near = λ e. absurd (cc);
}

module _ {F D : Type 0} (fp : Floats F D) where
  module _ (history : List (F × F)) (code_phases : Option (List F)) (sv_id : ℕ) where
    decode_here-IsAttempt :
        (phase position : ℕ) (inverted : Bool) (bits : List Bool) (a : Attempt D)
        → has_room (length history) phase position ≡ true
        → a.decoded ≡ false
        → a.had_enough_data ≡ true
        → IsAttempt (length history) phase position (
            decode_here fp history code_phases sv_id
              (start_of phase position)
              position
              inverted
              bits
              a)
    unfolding decode_here read_words
    decode_here-IsAttempt phase position inverted bits a room fresh enough =
        let prev = previous_bits fp history (start_of phase position) position inverted in
        let fits : start_of phase position + 6000 ≤ length history = ground arith in
        let edge = edge_fraction fp code_phases (start_of phase position) in
        elim (Option-cases (decode_words (bit_of bits inverted) 10 0 prev.0 prev.1)) [
          | inl e ↦
              rw e (IsAttempt-undecoded (length history) phase position a fresh (enough ∙ sym room))
          | inr (words, e) ↦ rw e (record {
            enough = enough ∙ sym room;
            decoded_enough = λ _. enough;
            near = λ _. refine_start_bounds fp history bits edge (start_of phase position) fits;
          })
        ]

    -- An attempt at any place is one of these.
    pub try_decode-IsAttempt :
        (phase position : ℕ) (ephem : GpsEphemeris D) (before : ℕ) (decoder : NavigationDecoder D)
        → IsAttempt (length history) phase position (
            try_decode_at_bit_position fp history code_phases sv_id phase position ephem before
              decoder)
    unfolding try_decode_at_bit_position
    try_decode-IsAttempt phase position ephem before decoder =
        let size = length history in
        let bits = demodulate fp history (start_of phase position) 300 in
        elim (Bool-cases (has_room size phase position)) [
          | inl room ↦ elim (Option-cases (polarity (byte_from bits 0 8 0))) [
            | inl e ↦
                rw (room, e)
                  (IsAttempt-undecoded size phase position (no_subframe ephem before decoder true)
                    refl (sym room))
            | inr (inverted, e) ↦
                rw (room, e)
                  (decode_here-IsAttempt phase position inverted bits
                    (no_subframe ephem before decoder true) room refl refl)
          ]
          | inr full ↦ rw full (
              IsAttempt-undecoded size phase position (no_subframe ephem before decoder false) refl
                (sym full))
        ]
