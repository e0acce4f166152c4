-- ===== src/NavDecode/Shift.antt =====
-- An attempt does not see samples long before its subframe: it can be made on a history without them.
use gpsopen_cl.Prelude.{ℕ, zero, suc, ◌+◌, ◌-◌, ◌*◌, ◌≤◌, ◌≡◌, refl, ◌∙◌, ap, Bool, true, false}
use gpsopen_cl.Prelude.{Option, none, some, List, length, drop, length-drop, get_or-drop}
use gpsopen_cl.Prelude.{Bool-cases, Option-cases, inl, inr, ltb, leb, arith}
use gpsopen_cl.Prelude.Int.{negsuc}
use gpsopen_cl.Float.{Floats}
use gpsopen_cl.NavDecode.Words.{byte_from, polarity}
use gpsopen_cl.NavDecode.Subframe.{GpsEphemeris, NavigationDecoder}
use gpsopen_cl.NavDecode.Samples.{
  real_at, sum_re, bit_from, demodulate, previous_bits, edge_fraction,
}
use gpsopen_cl.NavDecode.Samples.{metric_from, decode_words, consider, best_from, refine_start}
use gpsopen_cl.NavDecode.Search.{
  Attempt, no_subframe, start_of, has_room, read_words, decode_here, try_decode_at_bit_position,
}

module _ {F D : Type 0} (fp : Floats F D) (n : ℕ) (h : List (F × F)) where
  real_at-drop : (i : ℕ) → real_at fp (drop n h) i ≡ real_at fp h (n + i)
  real_at-drop i = ap (λ p. p.0) (get_or-drop n h i (fp.zero_f, fp.zero_f))

  sum_re-drop : (base k : ℕ) (s : F) → sum_re fp (drop n h) base k s ≡ sum_re fp h (n + base) k s
  unfolding sum_re
  sum_re-drop base zero s = refl
  sum_re-drop base (suc k) s =
      let e : n + (base + 1) ≡ n + base + 1 = omega arith in
      rw (real_at-drop base, sum_re-drop (base + 1) k _, e) refl

  bit_from-drop : (base : ℕ) → bit_from fp (drop n h) base ≡ bit_from fp h (n + base)
  unfolding bit_from
  bit_from-drop base = ap (fp.lt_f fp.zero_f) (sum_re-drop base 20 fp.zero_f)

  demodulate-drop : (base k : ℕ) → demodulate fp (drop n h) base k ≡ demodulate fp h (n + base) k
  unfolding demodulate
  demodulate-drop base zero = refl
  demodulate-drop base (suc k) =
      let e : n + (base + 20) ≡ n + base + 20 = omega arith in
      rw (bit_from-drop base, demodulate-drop (base + 20) k, e) refl

  metric_from-drop :
      (bits : List Bool) (edge : D) (start i k : ℕ) (m : D)
      → metric_from fp (drop n h) bits edge start i k m
        ≡ metric_from fp h bits edge (n + start) i k m
  unfolding metric_from
  metric_from-drop bits edge start i zero m = refl
  metric_from-drop bits edge start i (suc k) m =
      let e : n + (start + i * 20) ≡ n + start + i * 20 = omega arith in
      let e' : n + (start + i * 20 + 1) ≡ n + start + i * 20 + 1 = omega arith in
      rw
        (
          sum_re-drop (start + i * 20 + 1) 19 fp.zero_f,
          real_at-drop (start + i * 20),
          metric_from-drop bits edge start (i + 1) k _,
          e,
          e',
        )
        refl

  consider-drop :
      (start c : ℕ) (m : D) (best : ℕ × D)
      → 2 ≤ start
      → n ≤ length h
      → consider fp (length (drop n h)) start c m best ≡ consider fp (length h) (n + start) c m best
  unfolding consider
  consider-drop start c m best ok fits =
      let before : ltb (start + c) 2 ≡ false = ground arith in
      let before' : ltb (n + start + c) 2 ≡ false = ground arith in
      let size = length-drop n h in
      let past : ltb (length (drop n h)) (start + c - 2 + 6000)
          ≡ ltb (length h) (n + start + c - 2 + 6000) =
        ground (arith, size) in
      rw (before, before', past) refl

  best_from-drop :
      (bits : List Bool) (edge : D) (start c k : ℕ) (best : ℕ × D)
      → 2 ≤ start
      → n ≤ length h
      → best_from fp (drop n h) bits edge start c k best
        ≡ best_from fp h bits edge (n + start) c k best
  unfolding best_from
  best_from-drop bits edge start c zero best ok fits = refl
  best_from-drop bits edge start c (suc k) best ok fits =
      let e : n + (start + c - 2) ≡ n + start + c - 2 = omega arith in
      rw
        (
          metric_from-drop bits edge (start + c - 2) 0 300 _,
          e,
          consider-drop start c _ best ok fits,
        )
        (best_from-drop bits edge start (c + 1) k _ ok fits)

  refine_start-drop :
      (bits : List Bool) (edge : D) (start : ℕ)
      → 2 ≤ start
      → n ≤ length h
      → n + refine_start fp (drop n h) bits edge start ≡ refine_start fp h bits edge (n + start)
  unfolding refine_start
  refine_start-drop bits edge start ok fits =
      let e = best_from-drop bits edge start 0 5 (2, fp.of_int (negsuc 0)) ok fits in
      rw e (omega arith)

  previous_bits-drop :
      (start position position' : ℕ) (inverted : Bool)
      → 40 ≤ start
      → 2 ≤ position
      → 2 ≤ position'
      → previous_bits fp (drop n h) start position inverted
        ≡ previous_bits fp h (n + start) position' inverted
  unfolding previous_bits
  previous_bits-drop start position position' inverted far here there =
      let a : leb 2 position ≡ true = ground arith in
      let b : leb 2 position' ≡ true = ground arith in
      let x : n + (start - 40) ≡ n + start - 40 = omega arith in
      let y : n + (start - 20) ≡ n + start - 20 = omega arith in
      rw (a, b, bit_from-drop (start - 40), bit_from-drop (start - 20), x, y) refl

  edge_fraction-drop :
      (phases : List F) (start : ℕ)
      → edge_fraction fp (some (drop n phases)) start ≡ edge_fraction fp (some phases) (n + start)
  unfolding edge_fraction
  edge_fraction-drop phases start =
      let size = length-drop n phases in
      let past : ltb start (length (drop n phases)) ≡ ltb (n + start) (length phases) =
        ground (arith, size) in
      rw (past, get_or-drop n phases start fp.zero_f) refl

-- The same attempt, with its sample numbers moved by `n`.
abbrev pub moved_by : {D : Type 0} → ℕ → Attempt D → Attempt D
moved_by n a = record a { subframe_start_sample = n + a.subframe_start_sample }

module _ {F D : Type 0} (fp : Floats F D) (sv_id q : ℕ) (h : List (F × F)) (phases : List F) where
  read_words-moved :
      (words : Option (List ℕ)) (here there : ℕ) (a : Attempt D)
      → q * 20 + here ≡ there
      → moved_by
          (q * 20)
          (read_words fp (drop (q * 20) h) (some (drop (q * 20) phases)) sv_id words here a)
        ≡ read_words fp h (some phases) sv_id words there (moved_by (q * 20) a)
  unfolding read_words
  read_words-moved none here there a e = refl
  read_words-moved (some words) here there a e = rw e refl

  decode_here-drop :
      (start position : ℕ) (inverted : Bool) (bits : List Bool) (a : Attempt D)
      → 40 ≤ start
      → 2 ≤ position
      → q * 20 ≤ length h
      → moved_by (q * 20) (
          decode_here fp
            (drop (q * 20) h)
            (some (drop (q * 20) phases))
            sv_id
            start
            position
            inverted
            bits
            a)
        ≡ decode_here fp h
            (some phases)
            sv_id
            (q * 20 + start)
            (q + position)
            inverted
            bits
            (moved_by (q * 20) a)
  unfolding decode_here
  decode_here-drop start position inverted bits a far here fits =
      let prev =
        previous_bits-drop fp (q * 20) h start position (q + position) inverted far here
          (omega arith) in
      let edge = edge_fraction-drop fp (q * 20) h phases start in
      let begins =
        refine_start-drop fp (q * 20) h bits (edge_fraction fp (some phases) (q * 20 + start)) start
          (omega arith) fits in
      rw (prev, edge, decode_here) (read_words-moved (decode_words _ 10 0 _ _) _ _ a begins)

  has_room-drop :
      (phase position : ℕ)
      → q * 20 ≤ length h
      → has_room (length (drop (q * 20) h)) phase position
        ≡ has_room (length h) phase (q + position)
  has_room-drop phase position fits = ground (arith, length-drop (q * 20) h)

  -- An attempt from the third bit on gives the same result on a history without its first `q` bits
  -- as on the whole one at the bit that is `q` further on, with its sample number moved by `20 q`.
  pub try_decode-drop :
      (phase position : ℕ) (ephem : GpsEphemeris D) (before : ℕ) (decoder : NavigationDecoder D)
      → 2 ≤ position
      → q * 20 ≤ length h
      → moved_by (q * 20) (
          try_decode_at_bit_position fp
            (drop (q * 20) h)
            (some (drop (q * 20) phases))
            sv_id
            phase
            position
            ephem
            before
            decoder)
        ≡ try_decode_at_bit_position fp h
            (some phases)
            sv_id
            phase
            (q + position)
            ephem
            (q * 20 + before)
            decoder
  unfolding try_decode_at_bit_position
  try_decode-drop phase position ephem before decoder here fits =
      let start = start_of phase position in
      let e : q * 20 + start ≡ start_of phase (q + position) = omega arith in
      let bits = demodulate fp h (start_of phase (q + position)) 300 in
      let read : demodulate fp (drop (q * 20) h) start 300 ≡ bits =
        demodulate-drop fp (q * 20) h start 300 ∙ ap (λ s. demodulate fp h s 300) e in
      let room = has_room-drop phase position fits in
      elim (Bool-cases (has_room (length h) phase (q + position))) [
        | inl enough ↦ elim (Option-cases (polarity (byte_from bits 0 8 0))) [
          | inl p ↦ rw (room, enough, read, p) refl
          | inr (inverted, p) ↦
              rw (room, enough, read, p, read)
                (decode_here-drop start position inverted bits
                    (no_subframe ephem before decoder true) (omega arith) here fits
                  ∙ ap
                      (λ s.
                        decode_here fp h (some phases) sv_id s (q + position) inverted bits
                          (no_subframe ephem (q * 20 + before) decoder true))
                      e)
        ]
        | inr short ↦ rw (room, short) refl
      ]
