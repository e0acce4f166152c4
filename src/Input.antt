-- ===== src/Input.antt =====
-- Source/Input/GPSOpenClFileSource.cpp: the source that reads a capture from a file, block by block
-- where it is binary and at once where it is text. The content of the file is a parameter.
pub mod Blocks
mod Tests
use gpsopen_cl.Prelude.{
  ℕ, zero, suc, ◌+◌, ◌*◌, ◌/◌, ◌%◌, ◌^◌, Bool, true, false, not, Option, none, some,
}
use gpsopen_cl.Prelude.{List, [], ◌∷◌, ◌++◌, length, take, drop, map, ltb, ◌==◌, if◌then◌else◌}
use gpsopen_cl.Prelude.Int.{ℤ, pos}

-- The timestamp, the block index times the duration of a code, is left out.
pub record SourceOutput : Type 0 where
  pub block_index : ℕ
  pub fifo_underrun_count : ℕ
  pub fifo_overrun_count : ℕ

-- `bin_file` holds the bytes that the stream has not read yet, each an `int8_t`.
pub record FileSource (F : Type 0) : Type 0 where
  pub all_samples : List (F × F)
  pub current_block_index : ℕ
  pub samples_per_block : ℕ
  pub bin_file : List ℤ
  pub streaming : Bool
  pub total_samples : ℕ

abbrev pub telemetry : ℕ → SourceOutput
telemetry index = record {
  block_index = index % 2 ^ 32;
  fifo_underrun_count = 0;
  fifo_overrun_count = 0;
}

module _ {F : Type 0} where
  -- `initialize` for a binary capture that could be opened.
  unfoldable pub open_streaming : List ℤ → ℕ → FileSource F → Bool × FileSource F
  open_streaming bytes samples source = (
    not (length bytes / 2 == 0),
    record source {
      current_block_index = 0;
      samples_per_block = samples;
      bin_file = bytes;
      streaming = true;
      total_samples = length bytes / 2;
    },
  )

  abbrev append_value : Option F → List F → List F
  append_value none rest = rest
  append_value (some parsed) rest = parsed ∷ rest

  -- The values of the lines that are not empty and parse; `stof` is none where it throws.
  unfoldable pub parse_lines : (List ℕ → Option F) → List (List ℕ) → List F
  parse_lines stof [] = []
  parse_lines stof (line ∷ lines) =
      let rest = parse_lines stof lines in
      if length line == 0 then rest else append_value (stof line) rest

  -- Real and imaginary parts in turn.
  unfoldable pub pair_up : List F → List (F × F)
  pair_up (re ∷ im ∷ rest) = (re, im) ∷ pair_up rest
  pair_up (re ∷ []) = []
  pair_up [] = []

  abbrev pub loaded :
      (List ℕ → Option F) → Option (List (List ℕ)) → FileSource F → Bool × FileSource F
  loaded stof none source = (false, source)
  loaded stof (some lines) source =
      let samples = pair_up (parse_lines stof lines) in
      (not (length samples == 0), record source { all_samples = samples })

  -- `loadAllSamples`, none where the file cannot be opened.
  unfoldable pub load_all_samples :
      (List ℕ → Option F) → Option (List (List ℕ)) → ℕ → FileSource F → Bool × FileSource F
  load_all_samples stof file samples source =
      let cleared = record source {
        all_samples = [];
        current_block_index = 0;
        samples_per_block = samples;
        streaming = false;
      } in
      loaded stof file cleared

  -- The samples of interleaved bytes.
  unfoldable pub samples_of : (ℤ → F) → List ℤ → List (F × F)
  samples_of of_int bytes = pair_up (map of_int bytes)

  abbrev pub next_block : FileSource F → FileSource F
  next_block source = record source { current_block_index = source.current_block_index + 1 }

  -- `readBlock` of a source whose block has at least one sample.
  unfoldable pub read_sized :
      (ℤ → F) → FileSource F → Option (List (F × F) × SourceOutput) × FileSource F
  read_sized of_int source =
      let size = source.samples_per_block in
      let start = source.current_block_index * size in
      let bytes = take (size * 2) source.bin_file in
      let read = record source { bin_file = drop (size * 2) source.bin_file } in
      let out = telemetry source.current_block_index in
      if source.streaming
      then if ltb source.total_samples (start + size)
        then (none, source)
        else if ltb (length bytes) (size * 2)
        then (none, read)
        else (some (samples_of of_int bytes, out), next_block read)
      else if ltb (length source.all_samples) (start + size)
      then (none, source)
      else (some (take size (drop start source.all_samples), out), next_block source)

  unfoldable pub read_block :
      (ℤ → F) → FileSource F → Option (List (F × F) × SourceOutput) × FileSource F
  read_block of_int source =
      if source.samples_per_block == 0
      then read_sized of_int (record source { samples_per_block = 4096 })
      else read_sized of_int source
