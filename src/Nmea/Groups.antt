-- ===== src/Nmea/Groups.antt =====
-- Every satellite stands in the GSV sentences once and in order.
use gpsopen_cl.Prelude.{
  ℕ, zero, suc, ◌+◌, ◌*◌, ◌≤◌, ◌<◌, max, ◌≡◌, refl, ap, ◌∙◌, Option, none, some,
}
use gpsopen_cl.Prelude.{List, [], ◌∷◌, ◌++◌, length, get_elem?, take, drop, AllOf, arith}
use gpsopen_cl.Nmea.{places, sentences_from, gsv_sentences, number_of_sentences}
use gpsopen_cl.Prelude.Lists.{drop-drop}

module _ {A : Type 0} where
  -- What the places hold.
  abbrev pub held : List (Option A) → List A
  held [] = []
  held (none ∷ os) = held os
  held (some a ∷ os) = a ∷ held os

  abbrev pub held_all : List (List (Option A)) → List A
  held_all [] = []
  held_all (os ∷ rest) = held os ++ held_all rest

  get_elem?-drop : (n : ℕ) (xs : List A) (i : ℕ) → get_elem? xs (n + i) ≡ get_elem? (drop n xs) i
  get_elem?-drop zero xs i = ap (λ k. get_elem? xs k) (omega arith)
  get_elem?-drop (suc n) [] i = refl
  get_elem?-drop (suc n) (x ∷ xs) i =
      let e : suc n + i ≡ suc (n + i) = omega arith in rw e (get_elem?-drop n xs i)

  take-add : (a b : ℕ) (xs : List A) → take (a + b) xs ≡ take a xs ++ take b (drop a xs)
  take-add zero b xs = ap (λ k. take k xs) (omega arith)
  take-add (suc a) zero [] = let e : suc a + 0 ≡ suc a = omega arith in rw e refl
  take-add (suc a) (suc b) [] = let e : suc a + suc b ≡ suc (a + suc b) = omega arith in rw e refl
  take-add (suc a) b (x ∷ xs) =
      let e : suc a + b ≡ suc (a + b) = omega arith in rw e (ap (λ l. x ∷ l) (take-add a b xs))

  take_all : (n : ℕ) (xs : List A) → length xs ≤ n → take n xs ≡ xs
  take_all zero [] h = refl
  take_all zero (x ∷ xs) h = absurd (omega arith)
  take_all (suc n) [] h = refl
  take_all (suc n) (x ∷ xs) h = ap (λ l. x ∷ l) (take_all n xs (omega arith))

  first_four :
      (xs : List A)
      → held (get_elem? xs 0 ∷ get_elem? xs 1 ∷ get_elem? xs 2 ∷ get_elem? xs 3 ∷ []) ≡ take 4 xs
  first_four [] = refl
  first_four (a ∷ []) = refl
  first_four (a ∷ b ∷ []) = refl
  first_four (a ∷ b ∷ c ∷ []) = refl
  first_four (a ∷ b ∷ c ∷ d ∷ xs) = refl

  drop-nil : (n : ℕ) → (let none_left : List A = [] in drop n none_left ≡ [])
  drop-nil zero = refl
  drop-nil (suc n) = refl

  held-places : (sats : List A) (s : ℕ) → held (places sats s) ≡ take 4 (drop (s * 4) sats)
  unfolding places
  held-places [] s = rw (drop-nil (s * 4)) refl
  held-places (a ∷ sats) s =
      rw
        (
          get_elem?-drop (s * 4) (a ∷ sats) 0,
          get_elem?-drop (s * 4) (a ∷ sats) 1,
          get_elem?-drop (s * 4) (a ∷ sats) 2,
          get_elem?-drop (s * 4) (a ∷ sats) 3,
        )
        (first_four (drop (s * 4) (a ∷ sats)))

  held-sentences_from :
      (sats : List A) (s n : ℕ)
      → held_all (sentences_from sats s n) ≡ take (n * 4) (drop (s * 4) sats)
  unfolding sentences_from
  held-sentences_from sats s zero = refl
  held-sentences_from sats s (suc n) =
      let wide : suc n * 4 ≡ 4 + n * 4 = omega arith in
      let next : suc s * 4 ≡ s * 4 + 4 = omega arith in
      rw
        (
          wide,
          take-add 4 (n * 4) (drop (s * 4) sats),
          held-places sats s,
          held-sentences_from sats (suc s) n,
          next,
          drop-drop (s * 4) 4 sats,
        )
        refl

  -- The places of a sentence: four, or none where there is no satellite.
  abbrev pub place_count : List A → ℕ
  place_count [] = 0
  place_count (a ∷ sats) = 4

  length-places : (sats : List A) (s : ℕ) → length (places sats s) ≡ place_count sats
  unfolding places
  length-places [] s = refl
  length-places (a ∷ sats) s = refl

  length-sentences_from :
      (sats : List A) (s n : ℕ)
      → (length (sentences_from sats s n) ≡ n)
        × AllOf (λ os. length os ≡ place_count sats) (sentences_from sats s n)
  unfolding sentences_from
  length-sentences_from sats s zero = (refl, tt)
  length-sentences_from sats s (suc n) =
      let (len, all) = length-sentences_from sats (suc s) n in
      (ap suc len, (length-places sats s, all))

  -- The sentences hold all satellites in order and each once, in four places each, or in none where
  -- there is no satellite. They are the fewest that have the places, and at least one.
  pub gsv_sentences_hold :
      (sats : List A)
      → (held_all (gsv_sentences sats) ≡ sats)
        × AllOf (λ os. length os ≡ place_count sats) (gsv_sentences sats)
        × (max (length sats) 1 ≤ 4 * length (gsv_sentences sats))
        × (4 * length (gsv_sentences sats) < max (length sats) 1 + 4)
  unfolding gsv_sentences number_of_sentences
  gsv_sentences_hold sats =
      let n = number_of_sentences (length sats) in
      let (len, all) = length-sentences_from sats 0 n in
      let enough : length sats ≤ n * 4 = ground arith in
      let needed : max (length sats) 1 ≤ 4 * n = ground arith in
      let least : 4 * n < max (length sats) 1 + 4 = ground arith in
      (
        held-sentences_from sats 0 n ∙ take_all (n * 4) sats enough,
        all,
        rw len needed,
        rw len least,
      )
