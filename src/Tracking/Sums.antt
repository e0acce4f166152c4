-- ===== src/Tracking/Sums.antt =====
-- The eight lanes add up each sample once, in an order of their own: in exact arithmetic they give the
-- sum in order, and in any arithmetic a sum of the same terms.
use gpsopen_cl.Prelude.{
  ℕ, zero, suc, ◌+◌, ◌*◌, ◌/◌, ◌%◌, ◌≡◌, refl, sym, ap, ◌∙◌, arith, ltb, ◌==◌, if◌then◌else◌,
}
use gpsopen_cl.Tracking.Correlator.{lane_sum, add_lanes, add_rest, sum_lanes}

-- Addition as in exact arithmetic.
pub record IsExact {F : Type 0} (add : F → F → F) (zero_f : F) : Type 0 where
  pub associative : (a b c : F) → add (add a b) c ≡ add a (add b c)
  pub commutative : (a b : F) → add a b ≡ add b a
  pub unit : (a : F) → add a zero_f ≡ a

module _ {F : Type 0} (add : F → F → F) (zero_f : F) (exact : IsExact add zero_f) where
  open exact use {associative, commutative, unit}

  -- A sum from a first index is that of the shifted terms.
  rest_shifted :
      (term : ℕ → F) (first : ℕ) (total : F) (n : ℕ)
      → add_rest add zero_f term first total n
        ≡ add total (add_rest add zero_f (λ l. term (first + l)) 0 zero_f n)
  unfolding add_rest
  rest_shifted term first total zero = sym (unit total)
  rest_shifted term first total (suc n) =
      let same : 0 + n ≡ n = omega arith in
      rw (same, rest_shifted term first total n) (associative _ _ _)

  rest_split :
      (term : ℕ → F) (total : F) (a n : ℕ)
      → add_rest add zero_f term 0 total (a + n)
        ≡ add_rest add zero_f term a (add_rest add zero_f term 0 total a) n
  unfolding add_rest
  rest_split term total a zero = ap (λ k. add_rest add zero_f term 0 total k) (omega arith)
  rest_split term total a (suc n) =
      let next : a + suc n ≡ suc (a + n) = omega arith in
      let here : 0 + (a + n) ≡ a + n = omega arith in
      rw (next, add_rest, here, rest_split term total a n) refl

  exchange : (a b c d : F) → add (add a b) (add c d) ≡ add (add a c) (add b d)
  exchange a b c d =
      associative a b (add c d)
      ∙ ap (λ x. add a x)
          (sym (associative b c d) ∙ (ap (λ x. add x d) (commutative b c) ∙ associative c b d))
      ∙ sym (associative a c (add b d))

  -- One more round of the lanes adds as many consecutive terms.
  lanes_round :
      (term : ℕ → F) (b n : ℕ)
      → add_lanes add zero_f term (suc b) n
        ≡ add
            (add_lanes add zero_f term b n)
            (add_rest add zero_f (λ l. term (8 * b + l)) 0 zero_f n)
  unfolding add_lanes lane_sum add_rest
  lanes_round term b zero = sym (unit zero_f)
  lanes_round term b (suc n) =
      let same : 0 + n ≡ n = omega arith in
      rw (add_lanes, lane_sum, same, lanes_round term b n) (exchange _ _ _ _)

  lanes_empty : (term : ℕ → F) (n : ℕ) → add_lanes add zero_f term 0 n ≡ zero_f
  unfolding add_lanes lane_sum
  lanes_empty term zero = refl
  lanes_empty term (suc n) = unit (add_lanes add zero_f term 0 n) ∙ lanes_empty term n

  lanes_all :
      (term : ℕ → F) (b : ℕ)
      → add_lanes add zero_f term b 8 ≡ add_rest add zero_f term 0 zero_f (8 * b)
  unfolding add_rest
  lanes_all term zero = lanes_empty term 8
  lanes_all term (suc b) =
      let wide : 8 * suc b ≡ 8 * b + 8 = omega arith in
      rw
        (
          wide,
          rest_split term zero_f (8 * b) 8,
          rest_shifted term (8 * b) _ 8,
          lanes_round term b 8,
          lanes_all term b,
        )
        refl

  -- Where addition is associative, commutative and has 0, the sum over the lanes and the samples left
  -- over is the sum over the samples in order.
  pub sum_lanes_in_order :
      (term : ℕ → F) (count : ℕ)
      → sum_lanes add zero_f term count ≡ add_rest add zero_f term 0 zero_f count
  unfolding sum_lanes
  sum_lanes_in_order term count =
      let whole : 8 * (count / 8) + count % 8 ≡ count = omega arith in
      rw (sum_lanes, lanes_all term (count / 8))
        (sym (rest_split term zero_f (8 * (count / 8)) (count % 8))
          ∙ ap (λ k. add_rest add zero_f term 0 zero_f k) whole)

-- A sum as it is written: 0, the term of a sample, or the sum of two. The order in which a machine
-- adds, which matters where addition rounds, can be read off it.
pub data Summation : Type 0 where
  nothing : Summation
  sample : ℕ → Summation
  plus : Summation → Summation → Summation

module _ {F : Type 0} (add : F → F → F) (zero_f : F) (term : ℕ → F) where
  abbrev pub value : Summation → F
  value nothing = zero_f
  value (sample i) = term i
  value (plus s t) = add (value s) (value t)

  value-lane_sum :
      (lane blocks : ℕ)
      → value (lane_sum plus nothing sample lane blocks) ≡ lane_sum add zero_f term lane blocks
  unfolding lane_sum
  value-lane_sum lane zero = refl
  value-lane_sum lane (suc blocks) =
      ap (λ x. add x (term (8 * blocks + lane))) (value-lane_sum lane blocks)

  value-add_lanes :
      (blocks n : ℕ)
      → value (add_lanes plus nothing sample blocks n) ≡ add_lanes add zero_f term blocks n
  unfolding add_lanes
  value-add_lanes blocks zero = refl
  value-add_lanes blocks (suc n) = rw (value-add_lanes blocks n, value-lane_sum n blocks) refl

  value-add_rest :
      (first : ℕ) (total : Summation) (n : ℕ)
      → value (add_rest plus nothing sample first total n)
        ≡ add_rest add zero_f term first (value total) n
  unfolding add_rest
  value-add_rest first total zero = refl
  value-add_rest first total (suc n) =
      ap (λ x. add x (term (first + n))) (value-add_rest first total n)

  value-sum_lanes :
      (count : ℕ) → value (sum_lanes plus nothing sample count) ≡ sum_lanes add zero_f term count
  unfolding sum_lanes
  value-sum_lanes count =
      rw
        (
          value-add_rest (8 * (count / 8)) (add_lanes plus nothing sample (count / 8) 8)
              (count % 8),
          value-add_lanes (count / 8) 8,
        )
        refl

-- How often a sum has the term of sample `i`.
abbrev pub occurrences : ℕ → Summation → ℕ
occurrences i nothing = 0
occurrences i (sample j) = if j == i then 1 else 0
occurrences i (plus s t) = occurrences i s + occurrences i t

indicator : ℕ → ℕ → ℕ
indicator i j = if j == i then 1 else 0

occurrences-value :
    (i : ℕ) (s : Summation) → occurrences i s ≡ value (λ a b. a + b) 0 (indicator i) s
unfolding indicator
occurrences-value i nothing = refl
occurrences-value i (sample j) = refl
occurrences-value i (plus s t) = rw (occurrences-value i s, occurrences-value i t) refl

addition-IsExact : IsExact (λ (a b : ℕ). a + b) 0
addition-IsExact = record {
  associative = λ a b c. omega arith;
  commutative = λ a b. omega arith;
  unit = λ a. omega arith;
}

in_order_once :
    (i count : ℕ)
    → add_rest (λ a b. a + b) 0 (indicator i) 0 0 count ≡ (if ltb i count then 1 else 0)
unfolding add_rest indicator
in_order_once i zero = ground arith
in_order_once i (suc n) = ground (arith, in_order_once i n)

-- In any arithmetic, also one that rounds, the sum over the lanes and the samples left over is a sum
-- in which the term of each sample of the block occurs once, and no other term.
pub sum_lanes_once :
    {F : Type 0} (add : F → F → F) (zero_f : F) (term : ℕ → F) (count : ℕ)
    → (s : Summation) × (sum_lanes add zero_f term count ≡ value add zero_f term s)
      × ((i : ℕ) → occurrences i s ≡ (if ltb i count then 1 else 0))
sum_lanes_once add zero_f term count =
    let s = sum_lanes plus nothing sample count in
    (
      s,
      sym (value-sum_lanes add zero_f term count),
      λ i.
          occurrences-value i s
          ∙ (value-sum_lanes (λ a b. a + b) 0 (indicator i) count
              ∙ (sum_lanes_in_order (λ a b. a + b) 0 addition-IsExact (indicator i) count
                  ∙ in_order_once i count)),
    )
