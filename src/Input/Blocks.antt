-- ===== src/Input/Blocks.antt =====
-- The blocks that `readBlock` gives, from a binary capture and from samples in memory.
use gpsopen_cl.Prelude.{ℕ, zero, suc, ◌+◌, ◌*◌, ◌/◌, ◌<◌, ◌≡◌, refl, ap, true, false, inl, inr}
use gpsopen_cl.Prelude.{
  Option, none, some, List, [], ◌∷◌, length, take, drop, map, ltb, ◌==◌, if◌then◌else◌, Bool-cases,
  arith, length-take, length-drop, length-map, replicate,
}
use gpsopen_cl.Prelude.Lists.{drop-drop}
use gpsopen_cl.Prelude.Int.{ℤ}
use gpsopen_cl.Input.{
  SourceOutput, FileSource, pair_up, samples_of, telemetry, open_streaming, read_sized, read_block,
}

module _ {F : Type 0} where
  -- What `n` calls reply, and the source after them.
  unfoldable pub read_blocks :
      (ℤ → F) → ℕ → FileSource F → List (Option (List (F × F) × SourceOutput))
  read_blocks of_int zero source = []
  read_blocks of_int (suc n) source =
      let (reply, next) = read_block of_int source in reply ∷ read_blocks of_int n next

  -- The block number `i` of the samples, none where they do not fill it.
  abbrev pub block_of : ℕ → List (F × F) → ℕ → Option (List (F × F) × SourceOutput)
  block_of size samples i =
      if ltb (length samples) (i * size + size)
      then none
      else some (take size (drop (i * size) samples), telemetry i)

  -- The blocks from number `i` on.
  abbrev pub blocks_from : ℕ → List (F × F) → ℕ → ℕ → List (Option (List (F × F) × SourceOutput))
  blocks_from size samples i zero = []
  blocks_from size samples i (suc n) = block_of size samples i ∷ blocks_from size samples (suc i) n

  length-pair_up : (xs : List F) → length (pair_up xs) ≡ length xs / 2
  unfolding pair_up
  length-pair_up [] = refl
  length-pair_up (a ∷ []) = omega arith
  length-pair_up (a ∷ b ∷ xs) = omega (arith, length-pair_up xs)

  pair_up-take : (n : ℕ) (xs : List F) → pair_up (take (n * 2) xs) ≡ take n (pair_up xs)
  unfolding pair_up
  pair_up-take zero xs = refl
  pair_up-take (suc n) [] = let two : suc n * 2 ≡ suc (suc (n * 2)) = omega arith in rw two refl
  pair_up-take (suc n) (a ∷ []) =
      let two : suc n * 2 ≡ suc (suc (n * 2)) = omega arith in rw two refl
  pair_up-take (suc n) (a ∷ b ∷ xs) =
      let two : suc n * 2 ≡ suc (suc (n * 2)) = omega arith in
      rw two (ap (λ l. (a, b) ∷ l) (pair_up-take n xs))

  pair_up-drop : (n : ℕ) (xs : List F) → pair_up (drop (n * 2) xs) ≡ drop n (pair_up xs)
  unfolding pair_up
  pair_up-drop zero xs = refl
  pair_up-drop (suc n) [] = let two : suc n * 2 ≡ suc (suc (n * 2)) = omega arith in rw two refl
  pair_up-drop (suc n) (a ∷ []) =
      let two : suc n * 2 ≡ suc (suc (n * 2)) = omega arith in rw two refl
  pair_up-drop (suc n) (a ∷ b ∷ xs) =
      let two : suc n * 2 ≡ suc (suc (n * 2)) = omega arith in rw two (pair_up-drop n xs)

  map-take : {B : Type 0} (n : ℕ) (xs : List B) (f : B → F) → map f (take n xs) ≡ take n (map f xs)
  map-take zero xs f = refl
  map-take (suc n) [] f = refl
  map-take (suc n) (x ∷ xs) f = ap (λ l. f x ∷ l) (map-take n xs f)

  map-drop : {B : Type 0} (n : ℕ) (xs : List B) (f : B → F) → map f (drop n xs) ≡ drop n (map f xs)
  map-drop zero xs f = refl
  map-drop (suc n) [] f = refl
  map-drop (suc n) (x ∷ xs) f = map-drop n xs f

  samples_of-take :
      (of_int : ℤ → F) (n : ℕ) (bytes : List ℤ)
      → samples_of of_int (take (n * 2) bytes) ≡ take n (samples_of of_int bytes)
  unfolding samples_of
  samples_of-take of_int n bytes =
      rw (map-take (n * 2) bytes of_int) (pair_up-take n (map of_int bytes))

  samples_of-drop :
      (of_int : ℤ → F) (n : ℕ) (bytes : List ℤ)
      → samples_of of_int (drop (n * 2) bytes) ≡ drop n (samples_of of_int bytes)
  unfolding samples_of
  samples_of-drop of_int n bytes =
      rw (map-drop (n * 2) bytes of_int) (pair_up-drop n (map of_int bytes))

  length-samples_of :
      (of_int : ℤ → F) (bytes : List ℤ) → length (samples_of of_int bytes) ≡ length bytes / 2
  unfolding samples_of
  length-samples_of of_int bytes =
      rw (length-pair_up (map of_int bytes), length-map bytes of_int) refl

  -- The source that has read `i` blocks.
  abbrev pub streamed : List (F × F) → List ℤ → ℕ → ℕ → FileSource F
  streamed old bytes size i = record {
    all_samples = old;
    current_block_index = i;
    samples_per_block = size;
    bin_file = drop (i * size * 2) bytes;
    streaming = true;
    total_samples = length bytes / 2;
  }

  abbrev pub in_memory : List (F × F) → List ℤ → ℕ → ℕ → ℕ → FileSource F
  in_memory samples unread total size i = record {
    all_samples = samples;
    current_block_index = i;
    samples_per_block = size;
    bin_file = unread;
    streaming = false;
    total_samples = total;
  }

  -- What a call does that finds a whole block, or none.
  abbrev Stepped : (ℤ → F) → ℕ → List (F × F) → (ℕ → FileSource F) → ℕ → Type 0
  Stepped of_int size samples at i = read_block of_int (at i) ≡ (
    block_of size samples i,
    if ltb (length samples) (i * size + size) then at i else at (suc i),
  )

  read_block-streamed :
      (of_int : ℤ → F) (old : List (F × F)) (bytes : List ℤ) (size i : ℕ)
      → 0 < size
      → Stepped of_int size (samples_of of_int bytes) (streamed old bytes size) i
  unfolding read_block read_sized
  read_block-streamed of_int old bytes size i h =
      let sized : (size == 0) ≡ false = ground arith in
      let len = length-samples_of of_int bytes in
      elim (Bool-cases (ltb (length bytes / 2) (i * size + size))) [
        | inl e ↦ rw (sized, len, e) refl
        | inr e ↦
            let whole : ltb (length (take (size * 2) (drop (i * size * 2) bytes))) (size * 2)
                ≡ false =
              ground (
                arith,
                length-take (size * 2) (drop (i * size * 2) bytes),
                length-drop (i * size * 2) bytes,
              ) in
            let next : drop (size * 2) (drop (i * size * 2) bytes) ≡ drop (suc i * size * 2) bytes =
              let wide : suc i * size * 2 ≡ i * size * 2 + size * 2 = omega arith in
              rw (wide, drop-drop (i * size * 2) (size * 2) bytes) refl in
            let up : i + 1 ≡ suc i = omega arith in
            rw
              (
                sized,
                len,
                e,
                whole,
                next,
                samples_of-take of_int size (drop (i * size * 2) bytes),
                samples_of-drop of_int (i * size) bytes,
                up,
              )
              refl
      ]

  read_block-in_memory :
      (of_int : ℤ → F) (samples : List (F × F)) (unread : List ℤ) (total size i : ℕ)
      → 0 < size
      → Stepped of_int size samples (in_memory samples unread total size) i
  unfolding read_block read_sized
  read_block-in_memory of_int samples unread total size i h =
      let sized : (size == 0) ≡ false = ground arith in
      elim (Bool-cases (ltb (length samples) (i * size + size))) [
        | inl e ↦ rw (sized, e) refl
        | inr e ↦ let up : i + 1 ≡ suc i = omega arith in rw (sized, e, up) refl
      ]

  no_blocks :
      (size : ℕ) (samples : List (F × F)) (i n : ℕ)
      → length samples < i * size + size
      → blocks_from size samples i n ≡ replicate n none
  no_blocks size samples i zero h = refl
  no_blocks size samples i (suc n) h =
      let short : ltb (length samples) (i * size + size) ≡ true = ground arith in
      let wide : suc i * size ≡ i * size + size = omega arith in
      rw (short, no_blocks size samples (suc i) n (omega arith)) refl

  read_blocks-blocks_from :
      (of_int : ℤ → F) (size : ℕ) (samples : List (F × F)) (at : ℕ → FileSource F)
      → ((i : ℕ) → Stepped of_int size samples at i)
      → (n i : ℕ) → read_blocks of_int n (at i) ≡ blocks_from size samples i n
  unfolding read_blocks
  read_blocks-blocks_from of_int size samples at step zero i = refl
  read_blocks-blocks_from of_int size samples at step (suc n) i =
      elim (Bool-cases (ltb (length samples) (i * size + size))) [
        | inl e ↦
            let wide : suc i * size ≡ i * size + size = omega arith in
            rw
              (
                step i,
                e,
                read_blocks-blocks_from of_int size samples at step n i,
                no_blocks size samples i n (ground arith),
                no_blocks size samples (suc i) n (ground arith),
              )
              refl
        | inr e ↦ rw (step i, e, read_blocks-blocks_from of_int size samples at step n (suc i)) refl
      ]

  -- A binary capture that is read as it goes gives the blocks that its samples give in memory: block
  -- `i` of the calls is the samples from `i` blocks on, as long as they fill a block, and then there is
  -- none, for a positive size of the block.
  pub read_blocks_agree :
      (of_int : ℤ → F) (source : FileSource F) (unread : List ℤ) (total : ℕ) (bytes : List ℤ)
      (size n : ℕ)
      → 0 < size
      → (read_blocks of_int n (open_streaming bytes size source).1
          ≡ blocks_from size (samples_of of_int bytes) 0 n)
        × (read_blocks of_int n (in_memory (samples_of of_int bytes) unread total size 0)
            ≡ blocks_from size (samples_of of_int bytes) 0 n)
  unfolding open_streaming
  read_blocks_agree of_int source unread total bytes size n h =
      let samples = samples_of of_int bytes in
      let unread_all : 0 * size * 2 ≡ 0 = omega arith in
      let opened : (open_streaming bytes size source).1 ≡ streamed source.all_samples bytes size 0 =
        rw unread_all refl in
      (
        rw opened (
            read_blocks-blocks_from of_int size samples (streamed source.all_samples bytes size)
              (λ i. read_block-streamed of_int source.all_samples bytes size i h) n 0),
        read_blocks-blocks_from of_int size samples (in_memory samples unread total size)
            (λ i. read_block-in_memory of_int samples unread total size i h) n 0,
      )
