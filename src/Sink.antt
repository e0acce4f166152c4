-- ===== src/Sink.antt =====
-- The telemetry log: `SinkMessage::fill` of Source/Sink/GPSOpenClSink.hpp, the framing of
-- Source/Sink/GPSOpenClFileSink.cpp on a little-endian host, and `swapBytes` of
-- Source/Common/GPSOpenClEndian.hpp. A byte is a number below 256.
pub mod Framing
mod Tests
use gpsopen_cl.Prelude.{
  ℕ, zero, suc, ◌+◌, ◌*◌, ◌/◌, ◌%◌, ◌^◌, Bool, true, false, ◌||◌, Option, none, some,
}
use gpsopen_cl.Prelude.{List, [], ◌∷◌, ◌++◌, length, ltb, if◌then◌else◌}

pub record SinkMessage : Type 0 where
  pub identifier : List ℕ
  pub content : List ℕ

abbrev pub max_identifier_bytes : ℕ
max_identifier_bytes = 32

abbrev pub max_data_bytes : ℕ
max_data_bytes = 512

-- None where the message does not fit.
unfoldable pub fill : List ℕ → List ℕ → Option SinkMessage
fill id bytes =
    if ltb max_identifier_bytes (length id) || ltb max_data_bytes (length bytes)
    then none
    else some (record { identifier = id; content = bytes })

-- The bytes of a `uint32_t`, the lowest first.
unfoldable pub bytes_of : ℕ → List ℕ
bytes_of n = (n % 256) ∷ (n / 256 % 256) ∷ (n / 65536 % 256) ∷ (n / 16777216 % 256) ∷ []

-- The record of a message in the log.
unfoldable pub record_of : SinkMessage → List ℕ
record_of message =
    bytes_of (length message.identifier)
    ++ message.identifier
    ++ bytes_of (length message.content)
    ++ message.content

-- What the writer thread has written after some messages.
unfoldable pub log_of : List SinkMessage → List ℕ
log_of [] = []
log_of (message ∷ messages) = record_of message ++ log_of messages

abbrev snoc : List ℕ → ℕ → List ℕ
snoc xs x = xs ++ x ∷ []

-- The bytes of a value in the opposite order.
unfoldable pub swap_bytes : List ℕ → List ℕ
swap_bytes [] = []
swap_bytes (b ∷ bytes) = snoc (swap_bytes bytes) b
