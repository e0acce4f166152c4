-- ===== src/NavDecode/Parity.antt =====
-- What the parity check detects. The check is linear: flipping bits flips a fixed set of the six
-- parity equations, the column of the bit.
use mathlib.Core.Bool.{xor}
use gpsopen_cl.Prelude.{ℕ, zero, suc, ◌-◌, ◌/◌, ◌%◌, ◌^◌, ◌<◌, ◌≡◌, refl, sym, ◌∙◌}
use gpsopen_cl.Prelude.{Bool, true, false, not, ◌&&◌, List, [], ◌∷◌, bit_xor, ◌==◌}
use mathlib.Core.Path.{fun_ext}
use native.Mathlib.Nat.{pow-suc, zero-div}
use gpsopen_cl.Prelude.{if◌then◌else◌, arith}
use gpsopen_cl.Prelude.Bits.{bit_and_mask, bit_xor_bit, div-two-pow-suc}
use gpsopen_cl.NavDecode.Words.{bit_at, xors, check_parity}
use gpsopen_cl.NavDecode.Words.{taps25, taps26, taps27, taps28, taps29, taps30}

-- The six equations of the check, each as the exclusive or of its two sides.
pub record Syndrome : Type 0 where
  pub s25 : Bool
  pub s26 : Bool
  pub s27 : Bool
  pub s28 : Bool
  pub s29 : Bool
  pub s30 : Bool

-- Of bits by their position, 0 at the least significant.
unfoldable pub syndrome : (ℕ → Bool) → Bool → Bool → Syndrome
syndrome b p q =
    let d = λ (i : ℕ). b (30 - i) in
    record {
      s25 = xor (xors p d taps25) (b 5);
      s26 = xor (xors q d taps26) (b 4);
      s27 = xor (xors p d taps27) (b 3);
      s28 = xor (xors q d taps28) (b 2);
      s29 = xor (xors q d taps29) (b 1);
      s30 = xor (xors p d taps30) (b 0);
    }

abbrev pub clear : Syndrome
clear = record { s25 = false; s26 = false; s27 = false; s28 = false; s29 = false; s30 = false }

add : Syndrome → Syndrome → Syndrome
add a b = record {
  s25 = xor a.s25 b.s25;
  s26 = xor a.s26 b.s26;
  s27 = xor a.s27 b.s27;
  s28 = xor a.s28 b.s28;
  s29 = xor a.s29 b.s29;
  s30 = xor a.s30 b.s30;
}

all_same : Syndrome → Bool
all_same s = not s.s25 && not s.s26 && not s.s27 && not s.s28 && not s.s29 && not s.s30

check_parity-all_same :
    (w : ℕ) (p q : Bool) → check_parity w p q ≡ all_same (syndrome (bit_at w) p q)
unfolding check_parity syndrome all_same
check_parity-all_same w p q = refl

all_same_iff_clear : (s : Syndrome) → all_same s ≡ true → s ≡ clear
unfolding all_same
all_same_iff_clear s h = ground arith

xor_swap : (a b c d : Bool) → xor (xor a b) (xor c d) ≡ xor (xor a c) (xor b d)
unfolding xor
xor_swap a b c d = ground arith

xors_linear :
    (a b : Bool) (d e : ℕ → Bool) (is : List ℕ)
    → xors (xor a b) (λ i. xor (d i) (e i)) is ≡ xor (xors a d is) (xors b e is)
xors_linear a b d e [] = refl
xors_linear a b d e (i ∷ is) =
    rw (xor_swap a b (d i) (e i)) (xors_linear (xor a (d i)) (xor b (e i)) d e is)

component :
    (a b : Bool) (d e : ℕ → Bool) (is : List ℕ) (x y : Bool)
    → xor (xors (xor a b) (λ i. xor (d i) (e i)) is) (xor x y)
      ≡ xor (xor (xors a d is) x) (xor (xors b e is) y)
component a b d e is x y = rw (xors_linear a b d e is) (xor_swap (xors a d is) (xors b e is) x y)

-- The syndrome of an exclusive or of two words is that of the two syndromes.
syndrome_linear :
    (b c : ℕ → Bool) (p q r s : Bool)
    → syndrome (λ k. xor (b k) (c k)) (xor p r) (xor q s) ≡ add (syndrome b p q) (syndrome c r s)
unfolding syndrome add
syndrome_linear b c p q r s = λ i. record {
  s25 = component p r (λ n. b (30 - n)) (λ n. c (30 - n)) taps25 (b 5) (c 5) i;
  s26 = component q s (λ n. b (30 - n)) (λ n. c (30 - n)) taps26 (b 4) (c 4) i;
  s27 = component p r (λ n. b (30 - n)) (λ n. c (30 - n)) taps27 (b 3) (c 3) i;
  s28 = component q s (λ n. b (30 - n)) (λ n. c (30 - n)) taps28 (b 2) (c 2) i;
  s29 = component q s (λ n. b (30 - n)) (λ n. c (30 - n)) taps29 (b 1) (c 1) i;
  s30 = component p r (λ n. b (30 - n)) (λ n. c (30 - n)) taps30 (b 0) (c 0) i;
}

-- The word with the one bit `j` set, and its syndrome.
abbrev unit_bits : ℕ → ℕ → Bool
unit_bits j k = k == j

column : ℕ → Syndrome
column j = syndrome (unit_bits j) false false

two-pow-bit : (j k : ℕ) → 2 ^ j / 2 ^ k % 2 ≡ (if k == j then 1 else 0)
two-pow-bit zero zero = refl
two-pow-bit zero (suc k) = rw (div-two-pow-suc 1 k, zero-div) (ground arith)
two-pow-bit (suc j) zero = ground (arith, pow-suc 2 j)
two-pow-bit (suc j) (suc k) =
    let half : 2 ^ suc j / 2 ≡ 2 ^ j = omega (arith, pow-suc 2 j) in
    rw (div-two-pow-suc (2 ^ suc j) k, half) (ground (arith, two-pow-bit j k))

pub bit_at-value : (w k : ℕ) → bit_at w k ≡ not (w / 2 ^ k % 2 == 0)
unfolding bit_at
bit_at-value w k = rw (bit_and_mask 1 (w / 2 ^ k)) refl

bit_at-flip : (w j k : ℕ) → bit_at (bit_xor w (2 ^ j)) k ≡ xor (bit_at w k) (k == j)
unfolding xor
bit_at-flip w j k =
    rw (bit_at-value (bit_xor w (2 ^ j)) k, bit_at-value w k)
      (ground (arith, bit_xor_bit k w (2 ^ j), two-pow-bit j k))

pub xor-false : (a : Bool) → xor a false ≡ a
unfolding xor
xor-false a = ground arith

syndrome-flip :
    (w j : ℕ) (p q : Bool)
    → syndrome (bit_at (bit_xor w (2 ^ j))) p q ≡ add (syndrome (bit_at w) p q) (column j)
unfolding column
syndrome-flip w j p q =
    rw (fun_ext (bit_at-flip w j))
      (rw (xor-false p, xor-false q) at (syndrome_linear (bit_at w) (unit_bits j) p q false false))

add_clear : (s t : Syndrome) → s ≡ clear → add s t ≡ t
unfolding xor add
add_clear s t h = rw h (ground arith)

-- A test holds of every number below a bound.
unfoldable pub every_below : ℕ → (ℕ → Bool) → Bool
every_below (suc bound) test = every_below bound test && test bound
every_below zero test = true

pub every_below-at :
    (bound : ℕ) (test : ℕ → Bool) (k : ℕ)
    → every_below bound test ≡ true
    → k < bound
    → test k ≡ true
unfolding every_below
every_below-at (suc bound) test k all below =
    let earlier = every_below-at bound test k in ground (arith, earlier)
every_below-at zero test k all below = absurd (omega arith)

columns_nonzero : every_below 30 (λ j. not (all_same (column j))) ≡ true
unfolding every_below all_same column syndrome xor
columns_nonzero = refl

columns_distinct :
    every_below 30 (λ i. every_below i (λ j. not (all_same (add (column i) (column j))))) ≡ true
unfolding every_below all_same column syndrome xor add
columns_distinct = refl

not-true : (b : Bool) → not b ≡ true → b ≡ false
not-true b h = ground arith

-- A word that passes the parity check fails it when any one of its 30 bits is flipped.
pub check_parity_one_flip :
    (w j : ℕ) (p q : Bool)
    → check_parity w p q ≡ true
    → j < 30
    → check_parity (bit_xor w (2 ^ j)) p q ≡ false
check_parity_one_flip w j p q h l =
    let ok = all_same_iff_clear _ (sym (check_parity-all_same w p q) ∙ h) in
    rw
      (
        check_parity-all_same (bit_xor w (2 ^ j)) p q,
        syndrome-flip w j p q,
        add_clear _ (column j) ok,
      )
      (not-true _ (every_below-at 30 (λ j. not (all_same (column j))) j columns_nonzero l))

-- It also fails when any two different bits are flipped.
pub check_parity_two_flips :
    (w i j : ℕ) (p q : Bool)
    → check_parity w p q ≡ true
    → i < 30
    → j < i
    → check_parity (bit_xor (bit_xor w (2 ^ i)) (2 ^ j)) p q ≡ false
check_parity_two_flips w i j p q h l m =
    let ok = all_same_iff_clear _ (sym (check_parity-all_same w p q) ∙ h) in
    rw
      (
        check_parity-all_same (bit_xor (bit_xor w (2 ^ i)) (2 ^ j)) p q,
        syndrome-flip (bit_xor w (2 ^ i)) j p q,
        syndrome-flip w i p q,
        add_clear _ (column i) ok,
      )
      (not-true _ (
        every_below-at i (λ j. not (all_same (add (column i) (column j)))) j
          (every_below-at 30 (λ i. every_below i (λ j. not (all_same (add (column i) (column j)))))
            i columns_distinct l)
          m))
