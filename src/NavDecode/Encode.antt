-- ===== src/NavDecode/Encode.antt =====
-- The words that a satellite sends, by IS-GPS-200: data bits complemented by the last bit of the
-- word before, then six parity bits. The decoder undoes it, at either polarity of the carrier.
use mathlib.Core.Bool.{xor, beq}
use gpsopen_cl.Prelude.{
  ℕ, zero, suc, ◌+◌, ◌-◌, ◌*◌, ◌/◌, ◌%◌, ◌^◌, ◌≤◌, ◌<◌, ◌≡◌, refl, sym, ◌∙◌, ap,
}
use gpsopen_cl.Prelude.{Bool, true, false, ◌&&◌, some, List, [], ◌∷◌, bit_xor}
use gpsopen_cl.Prelude.{if◌then◌else◌, arith, ltb, leb}
use native.Mathlib.Nat.{pow-suc, pow-le-pow_right}
use native.Mathlib.Decide.{dec_lt, ℕ_discrete}
use gpsopen_cl.Prelude.Bits.{bit_xor_bit, div-two-pow-suc, bit_or_fields}
use gpsopen_cl.NavDecode.Words.{bit_at, bit_value, xors, same, check_parity, parity_bits}
use gpsopen_cl.NavDecode.Words.{taps25, taps26, taps27, taps28, taps29, taps30}
use gpsopen_cl.NavDecode.Samples.{shift_in32, raw_word, data_word, data_bits_mask, decode_words}
use gpsopen_cl.NavDecode.Parity.{bit_at-value, xor-false, every_below, every_below-at}

-- The 30 bits of a word before the complement: the data `d`, numbered from 1, and the parity.
abbrev pub full_word : (ℕ → Bool) → Bool → Bool → ℕ → Bool
full_word d p q i = if leb i 24 then d i else parity_bits d p q i

-- The bit that is sent in place `i`.
abbrev pub sent_bit : (ℕ → Bool) → Bool → Bool → ℕ → Bool
sent_bit d p q i = if leb i 24 then xor (d i) q else parity_bits d p q i

-- `bit` reads, from `start` on, the words with the data `src 0`, `src 1`, … after a word that ended
-- in `p`, `q`.
abbrev pub IsSent : (ℕ → Bool) → ℕ → ℕ → (ℕ → ℕ → Bool) → Bool → Bool → Type 0
IsSent bit start zero src p q = Unit {0}
IsSent bit start (suc n) src p q =
    ((j : ℕ) → j < 30 → bit (start + j) ≡ sent_bit (src 0) p q (j + 1))
    × IsSent bit (start + 30) n (λ w. src (suc w)) (parity_bits (src 0) p q 29)
        (parity_bits (src 0) p q 30)

-- The decoded words carry those data and their parity.
abbrev pub Carries : List ℕ → ℕ → (ℕ → ℕ → Bool) → Bool → Bool → Type 0
Carries [] zero src p q = Unit {0}
Carries [] (suc n) src p q = ⊥
Carries (w ∷ ws) zero src p q = ⊥
Carries (w ∷ ws) (suc n) src p q =
    ((i : ℕ) → 1 ≤ i → i ≤ 30 → bit_at w (30 - i) ≡ full_word (src 0) p q i)
    × Carries ws n (λ w. src (suc w)) (parity_bits (src 0) p q 29) (parity_bits (src 0) p q 30)

shift_in32-value : (v : ℕ) (b : Bool) → v < 2 ^ 31 → shift_in32 v b ≡ v * 2 + bit_value b
unfolding shift_in32
shift_in32-value v b h =
    let whole : v * 2 % 2 ^ 32 ≡ v * 2 ^ 1 = omega arith in
    rw whole (bit_or_fields 1 v (bit_value b) (ground arith))

bit_at-shift_zero : (v : ℕ) (b : Bool) → bit_at (v * 2 + bit_value b) 0 ≡ b
bit_at-shift_zero v b = rw (bit_at-value (v * 2 + bit_value b) 0) (ground arith)

bit_at-shift_suc : (v k : ℕ) (b : Bool) → bit_at (v * 2 + bit_value b) (suc k) ≡ bit_at v k
bit_at-shift_suc v k b =
    let half : (v * 2 + bit_value b) / 2 ≡ v = ground arith in
    rw
      (
        bit_at-value (v * 2 + bit_value b) (suc k),
        bit_at-value v k,
        div-two-pow-suc (v * 2 + bit_value b) k,
        half,
      )
      refl

-- The word that the loop leaves: the `n` bits that it reads below those that it had.
raw_word-bit :
    (bit : ℕ → Bool) (start n raw k m : ℕ)
    → m + n ≤ 30
    → raw < 2 ^ m
    → bit_at (raw_word bit start n raw) k
      ≡ (if ltb k n then bit (start + (n - 1 - k)) else bit_at raw (k - n))
unfolding raw_word
raw_word-bit bit start zero raw k m h l = ground arith
raw_word-bit bit start (suc n) raw k m h l =
    rw (shift_in32-value raw (bit start) (omega (arith, small))) (
      raw_word-bit bit (start + 1) n (raw * 2 + bit_value (bit start)) k (suc m) (omega arith) grown
      ∙ cases (dec_lt k n) (ℕ_discrete k n))
  where
    small : 2 ^ m ≤ 2 ^ 30
    small = pow-le-pow_right {n = 2} (omega arith) {i = m} {j = 30} (omega arith)

    grown : raw * 2 + bit_value (bit start) < 2 ^ suc m
    grown = ground (arith, pow-suc 2 m)

    cases :
        Dec (k < n)
        → Dec (k ≡ n)
        → (if ltb k n
            then bit (start + 1 + (n - 1 - k))
            else bit_at (raw * 2 + bit_value (bit start)) (k - n))
          ≡ (if ltb k (suc n) then bit (start + (suc n - 1 - k)) else bit_at raw (k - suc n))
    cases (yes p) e =
        let same_place : start + 1 + (n - 1 - k) ≡ start + (suc n - 1 - k) = omega arith in
        ground (arith, same_place)
    cases (no p) (yes e) =
        let last : k - n ≡ 0 = omega arith in
        let here : start + (suc n - 1 - k) ≡ start = omega arith in
        ground (arith, bit_at-shift_zero raw (bit start), last, here)
    cases (no p) (no e) =
        let up : k - n ≡ suc (k - suc n) = omega arith in
        ground (arith, bit_at-shift_suc raw (k - suc n) (bit start), up)

bit_at-xor : (a b k : ℕ) → bit_at (bit_xor a b) k ≡ xor (bit_at a k) (bit_at b k)
unfolding xor
bit_at-xor a b k =
    rw (bit_at-value (bit_xor a b) k, bit_at-value a k, bit_at-value b k)
      (ground (arith, bit_xor_bit k a b))

mask_table : every_below 30 (λ k. same (bit_at data_bits_mask k) (leb 6 k)) ≡ true
unfolding every_below bit_at xor
mask_table = refl

same→eq : (a b : Bool) → same a b ≡ true → a ≡ b
unfolding xor
same→eq a b h = ground arith

mask_bit : (k : ℕ) → k < 30 → bit_at data_bits_mask k ≡ leb 6 k
mask_bit k h =
    same→eq (bit_at data_bits_mask k) (leb 6 k)
      (every_below-at 30 (λ k. same (bit_at data_bits_mask k) (leb 6 k)) k mask_table h)

-- Taking the complement out touches the data bits alone.
data_word_bit :
    (raw k : ℕ) (q : Bool) → k < 30 → bit_at (data_word raw q) k ≡ xor (bit_at raw k) (q && leb 6 k)
data_word_bit raw k true h = rw (bit_at-xor raw data_bits_mask k, mask_bit k h) refl
data_word_bit raw k false h = sym (xor-false (bit_at raw k))

untwist :
    (i : ℕ) (x y q : Bool)
    → 1 ≤ i
    → i ≤ 30
    → xor (if leb i 24 then xor x q else y) (q && leb 6 (30 - i)) ≡ (if leb i 24 then x else y)
unfolding xor
untwist i x y q h l = ground arith

beq_self : (a : Bool) → beq a a ≡ true
beq_self true = refl
beq_self false = refl

module _ (bit : ℕ → Bool) (start : ℕ) (d : ℕ → Bool) (p q : Bool)
    (sent : (j : ℕ) → j < 30 → bit (start + j) ≡ sent_bit d p q (j + 1)) where
  abbrev raw : ℕ
  raw = raw_word bit start 30 0

  abbrev word : ℕ
  word = data_word raw q

  raw_bit : (i : ℕ) → 1 ≤ i → i ≤ 30 → bit_at raw (30 - i) ≡ sent_bit d p q i
  raw_bit i h l =
      let place : 29 - (30 - i) ≡ i - 1 = omega arith in
      let test : ltb (30 - i) 30 ≡ true = ground arith in
      let next : i - 1 + 1 ≡ i = omega arith in
      rw (raw_word-bit bit start 30 0 (30 - i) 0 (omega arith) (omega arith), test, place)
        (sent (i - 1) (omega arith) ∙ ap (sent_bit d p q) next)

  -- Taking out the complement restores the word before it.
  word_bit : (i : ℕ) → 1 ≤ i → i ≤ 30 → bit_at word (30 - i) ≡ full_word d p q i
  word_bit i h l =
      rw (data_word_bit raw (30 - i) q (omega arith), raw_bit i h l)
        (untwist i (d i) (parity_bits d p q i) q h l)

  abbrev InData : List ℕ → Type 0
  InData [] = Unit {0}
  InData (i ∷ is) = (1 ≤ i) × (i ≤ 24) × InData is

  xors-word :
      (acc : Bool) (is : List ℕ)
      → InData is
      → xors acc (λ i. bit_at word (30 - i)) is ≡ xors acc d is
  xors-word acc [] h = refl
  xors-word acc (i ∷ is) h =
      let e : bit_at word (30 - i) ≡ d i = ground (arith, word_bit i h.0) in
      rw e (xors-word (xor acc (d i)) is h.2)

  word_passes : check_parity word p q ≡ true
  unfolding check_parity
  word_passes =
      rw
        (
          xors-word p taps25 (omega arith),
          xors-word q taps26 (omega arith),
          xors-word p taps27 (omega arith),
          xors-word q taps28 (omega arith),
          xors-word q taps29 (omega arith),
          xors-word p taps30 (omega arith),
          word_bit 25 (omega arith) (omega arith),
          word_bit 26 (omega arith) (omega arith),
          word_bit 27 (omega arith) (omega arith),
          word_bit 28 (omega arith) (omega arith),
          word_bit 29 (omega arith) (omega arith),
          word_bit 30 (omega arith) (omega arith),
        )
        (simp beq_self)

-- Whatever ten words were sent, the decoder accepts them all and gets back words with their data
-- and parity, whether or not a word was complemented.
pub decode_words-Carries :
    (bit : ℕ → Bool) (n start : ℕ) (src : ℕ → ℕ → Bool) (p q : Bool)
    → IsSent bit start n src p q
    → (ws : List ℕ) × (decode_words bit n start p q ≡ some ws) × Carries ws n src p q
unfolding decode_words
decode_words-Carries bit zero start src p q h = ([], refl, tt)
decode_words-Carries bit (suc n) start src p q h =
    let raw29 : bit_at (raw_word bit start 30 0) 1 ≡ parity_bits (src 0) p q 29 =
      raw_bit bit start (src 0) p q h.0 29 (omega arith) (omega arith) in
    let raw30 : bit_at (raw_word bit start 30 0) 0 ≡ parity_bits (src 0) p q 30 =
      raw_bit bit start (src 0) p q h.0 30 (omega arith) (omega arith) in
    let (ws, e, carried) =
      decode_words-Carries bit n (start + 30) (λ w. src (suc w)) (parity_bits (src 0) p q 29)
        (parity_bits (src 0) p q 30) h.1 in
    (
      word bit start (src 0) p q h.0 ∷ ws,
      rw (word_passes bit start (src 0) p q h.0, raw29, raw30, e) refl,
      (word_bit bit start (src 0) p q h.0, carried),
    )
