-- ===== src/Input/Tests.antt =====
-- Captures of a few samples.
use gpsopen_cl.Prelude.{
  ℕ, ◌≡◌, refl, true, if◌then◌else◌, ◌==◌, false, Option, none, some, List, [], ◌∷◌, arith,
}
use gpsopen_cl.Prelude.Int.{ℤ, pos, negsuc}
use gpsopen_cl.Input.{
  FileSource, open_streaming, samples_of, load_all_samples, parse_lines, pair_up,
}
use gpsopen_cl.Input.Blocks.{read_blocks, blocks_from, in_memory, read_blocks_agree}

-- Five samples and a byte.
abbrev capture : List ℤ
capture =
    pos 1 ∷ pos 2 ∷ pos 3 ∷ negsuc 0 ∷ pos 5 ∷ pos 6 ∷ pos 7 ∷ pos 8 ∷ pos 9 ∷ pos 10 ∷ pos 11 ∷ []

abbrev closed : FileSource ℤ
closed = record {
  all_samples = [];
  current_block_index = 0;
  samples_per_block = 4096;
  bin_file = [];
  streaming = false;
  total_samples = 0;
}

abbrev identity : ℤ → ℤ
identity i = i

read_blocks_agree_example :
    (read_blocks identity 4 (open_streaming capture 2 closed).1
      ≡ blocks_from 2 (samples_of identity capture) 0 4)
    × (read_blocks identity 4 (in_memory (samples_of identity capture) [] 0 2 0)
        ≡ blocks_from 2 (samples_of identity capture) 0 4)
read_blocks_agree_example = read_blocks_agree identity closed [] 0 capture 2 4 (omega arith)

abbrev first : List ℕ → Option ℤ
first [] = none
first (c ∷ cs) = if c == 0 then none else some (pos c)

-- An empty line and a line that does not parse are skipped.
text_capture :
    load_all_samples first (some ((1 ∷ []) ∷ [] ∷ (0 ∷ []) ∷ (2 ∷ []) ∷ (3 ∷ []) ∷ [])) 2 closed
    ≡ (true, record closed { all_samples = (pos 1, pos 2) ∷ []; samples_per_block = 2 })
unfolding load_all_samples parse_lines pair_up
text_capture = refl
