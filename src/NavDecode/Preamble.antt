-- ===== src/NavDecode/Preamble.antt =====
-- `findPreamble`: it finds the first preamble that leaves room for a subframe, and no other.
use gpsopen_cl.Prelude.{ℕ, zero, suc, ◌+◌, ◌-◌, ◌≤◌, ◌<◌, ◌≡◌, refl, inl, inr}
use gpsopen_cl.Prelude.{Bool, List, Option, none, some, ltb, length, arith, Option-cases, false}
use native.Mathlib.Decide.{dec_lt, ℕ_discrete}
use gpsopen_cl.NavDecode.Words.{byte_from, polarity, search_from, find_preamble}

-- The polarity of the eight bits at `i`.
abbrev pub polarity_at : List Bool → ℕ → Option Bool
polarity_at bits i = polarity (byte_from bits i 8 0)

-- The answer of a search through the indices from `lo` up to `hi`: the first preamble, or none.
pub data IsFirst (bits : List Bool) (lo hi : ℕ) (r : Option (ℕ × Bool)) : Type 0 where
  found :
      (i : ℕ) (inverted : Bool)
      → r ≡ some (i, inverted)
      → lo ≤ i
      → i < hi
      → polarity_at bits i ≡ some inverted
      → ((k : ℕ) → lo ≤ k → k < i → polarity_at bits k ≡ none)
      → IsFirst bits lo hi r
  absent : r ≡ none → ((k : ℕ) → lo ≤ k → k < hi → polarity_at bits k ≡ none) → IsFirst bits lo hi r

search_from-IsFirst :
    (bits : List Bool) (rounds lo : ℕ) → IsFirst bits lo (lo + rounds) (search_from bits rounds lo)
unfolding search_from
search_from-IsFirst bits zero lo = absent refl (λ k h l. absurd (omega arith))
search_from-IsFirst bits (suc rounds) lo = elim (Option-cases (polarity_at bits lo)) [
  | inl miss ↦ later miss (search_from-IsFirst bits rounds (lo + 1))
  | inr (inverted, hit) ↦
      found lo inverted (rw (hit, search_from)) (omega arith) (omega arith) hit
        (λ k h l. absurd (omega arith))
]
  where
    below :
        (hi : ℕ)
        → polarity_at bits lo ≡ none
        → ((k : ℕ) → lo + 1 ≤ k → k < hi → polarity_at bits k ≡ none)
        → (k : ℕ) → lo ≤ k
        → k < hi
        → polarity_at bits k ≡ none
    below hi miss rest k h l = elim (ℕ_discrete lo k) [
      | yes e ↦ rw e at miss
      | no ne ↦ rest k (omega arith) l
    ]

    later :
        polarity_at bits lo ≡ none
        → IsFirst bits (lo + 1) (lo + 1 + rounds) (search_from bits rounds (lo + 1))
        → IsFirst bits lo (lo + suc rounds) (search_from bits (suc rounds) lo)
    later miss (found i inverted e h l p all) =
        found i inverted (rw (miss, search_from) e) (omega arith) (omega arith) p (below i miss all)
    later miss (absent e all) =
        absent (rw (miss, search_from) e)
          (λ k h l. below (lo + 1 + rounds) miss all k h (omega arith))

-- With at least 300 bits the answer is the first preamble, of either polarity, that is followed by
-- a whole subframe, and there is none only if no such index has one; with fewer bits it is none.
pub find_preamble-IsFirst :
    (bits : List Bool) → IsFirst bits 0 (length bits + 1 - 300) (find_preamble bits)
unfolding find_preamble
find_preamble-IsFirst bits = elim (dec_lt (length bits) 300) [
  | yes h ↦ absent (ground arith) (λ k l m. absurd (omega arith))
  | no h ↦
      let test : ltb (length bits) 300 ≡ false = ground arith in
      let room : length bits + 1 - 300 ≡ 0 + (length bits - 300 + 1) = omega arith in
      rw (room, test) (search_from-IsFirst bits (length bits - 300 + 1) 0)
]
