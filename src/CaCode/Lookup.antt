-- ===== src/CaCode/Lookup.antt =====
-- Source/Acquisition/GPSOpenClCaCodeGenerator.cpp, `createLookupTable`: the codes at the sampling of
-- the capture, and their spectra. The transform is the spectrum engine's and `ceil` the standard
-- library's; both are parameters.
use gpsopen_cl.Prelude.{ℕ, zero, suc, ◌+◌, ◌≡◌, refl, ap, Option, none, some}
use gpsopen_cl.Prelude.{List, [], ◌∷◌, length, map, min, ◌==◌, if◌then◌else◌, AllOf, ◌>>=◌}
use gpsopen_cl.Prelude.Int.{ℤ, pos, negsuc, pos_part, ◌-ℤ◌}
use gpsopen_cl.Float.{Floats}
use gpsopen_cl.CaCode.{raw_ca_codes}

-- The sample length, and what is looked up.
pub record CaCodeGenerator (F : Type 0) : Type 0 where
  pub sample_length : ℤ
  pub sampling_frequency_hz : F
  pub upsampled_ca_code : List (List F)
  pub upsampled_freq_domain_ca_code : List (List (F × F))

module _ {F D : Type 0} (fp : Floats F D) (ceil : F → ℤ) where
  open fp use {of_int_f, mul_f, div_f, zero_f}

  -- The chip of sample `j` of `n`, counted from 0: the last sample has the last chip.
  unfoldable pub code_index : F → ℕ → ℕ → ℕ
  code_index rate n j =
      let index = ceil (div_f (mul_f (of_int_f (pos (j + 1))) (of_int_f (pos 1023000))) rate) in
      let last = if j + 1 == n then pos 1023 else index in min 1022 (pos_part (last -ℤ pos 1))

  -- `m` samples from `j` on.
  unfoldable pub upsample : F → ℕ → ℕ → ℕ → ℕ → List F
  upsample rate n sv j zero = []
  upsample rate n sv j (suc m) =
      of_int_f (raw_ca_codes sv (code_index rate n j)) ∷ upsample rate n sv (suc j) m

  -- The conjugates of a spectrum.
  unfoldable pub conjugates : List (F × F) → List (F × F)
  conjugates [] = []
  conjugates ((re, im) ∷ xs) = (re, mul_f im (of_int_f (negsuc 0))) ∷ conjugates xs

  -- The rows of `m` satellites from `sv` on, none where a transform fails.
  unfoldable pub rows_from :
      (List (F × F) → Option (List (F × F)))
      → F
      → ℕ
      → ℕ
      → ℕ
      → Option (List (List F) × List (List (F × F)))
  rows_from fft rate n sv zero = some ([], [])
  rows_from fft rate n sv (suc m) = do
    let code = upsample rate n sv 0 n
    spectrum ← fft (map (λ x. (x, zero_f)) code)
    rest ← rows_from fft rate n (suc sv) m
    some (code ∷ rest.0, conjugates spectrum ∷ rest.1)

  abbrev pub with_rows :
      Option (List (List F) × List (List (F × F))) → CaCodeGenerator F → CaCodeGenerator F
  with_rows none g = record g { upsampled_ca_code = []; upsampled_freq_domain_ca_code = [] }
  with_rows (some (codes, spectra)) g = record g {
    upsampled_ca_code = codes;
    upsampled_freq_domain_ca_code = spectra;
  }

  unfoldable pub create_lookup_table :
      (List (F × F) → Option (List (F × F))) → CaCodeGenerator F → CaCodeGenerator F
  create_lookup_table fft g = elim g.sample_length [
    | pos zero ↦ with_rows none g
    | pos (suc n) ↦ with_rows (rows_from fft g.sampling_frequency_hz (suc n) 0 32) g
    | negsuc n ↦ with_rows none g
  ]

  length-upsample : (rate : F) (n sv j m : ℕ) → length (upsample rate n sv j m) ≡ m
  unfolding upsample
  length-upsample rate n sv j zero = refl
  length-upsample rate n sv j (suc m) = ap suc (length-upsample rate n sv (suc j) m)

  -- As many codes as spectra, and each code of the sample length.
  abbrev pub AreRows : ℕ → ℕ → Option (List (List F) × List (List (F × F))) → Type 0
  AreRows n m none = Unit
  AreRows n m (some (codes, spectra)) =
      (length codes ≡ m) × (length spectra ≡ m) × AllOf (λ row. length row ≡ n) codes

  AreRows-suc :
      (n m : ℕ) (code : List F) (spectrum : List (F × F))
      (rest : Option (List (List F) × List (List (F × F))))
      → length code ≡ n
      → AreRows n m rest
      → AreRows n (suc m) (rest >>= λ r. some (code ∷ r.0, spectrum ∷ r.1))
  AreRows-suc n m code spectrum none e h = tt
  AreRows-suc n m code spectrum (some (codes, spectra)) e (c, s, all) =
      (ap suc c, ap suc s, (e, all))

  -- A lookup table has a code and a spectrum for each satellite, with as many samples in each code as
  -- the sample length, or none because a transform failed.
  pub rows_from-AreRows :
      (fft : List (F × F) → Option (List (F × F))) (rate : F) (n sv m : ℕ)
      → AreRows n m (rows_from fft rate n sv m)
  unfolding rows_from
  rows_from-AreRows fft rate n sv zero = (refl, refl, tt)
  rows_from-AreRows fft rate n sv (suc m) =
      elim (fft (map (λ x. (x, zero_f)) (upsample rate n sv 0 n)))
        as (λ o. AreRows n (suc m) (
          o >>= λ spectrum. rows_from fft rate n (suc sv) m >>= λ rest.
          some (upsample rate n sv 0 n ∷ rest.0, conjugates spectrum ∷ rest.1))) [
            | none ↦ tt
            | some spectrum ↦
                AreRows-suc n m (upsample rate n sv 0 n) (conjugates spectrum)
                  (rows_from fft rate n (suc sv) m) (length-upsample rate n sv 0 n)
                  (rows_from-AreRows fft rate n (suc sv) m)
          ]
