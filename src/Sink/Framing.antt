-- ===== src/Sink/Framing.antt =====
-- A reader of the framing gets the messages back from the log.
use gpsopen_cl.Prelude.{
  ℕ, zero, suc, ◌+◌, ◌*◌, ◌/◌, ◌%◌, ◌<◌, ◌≤◌, ◌≡◌, refl, ap, Option, none, some,
}
use gpsopen_cl.Prelude.{List, [], ◌∷◌, ◌++◌, length, take, drop, AllOf, arith, ◌>>=◌}
use gpsopen_cl.Sink.{SinkMessage, bytes_of, record_of, log_of, max_identifier_bytes, max_data_bytes}

-- A field with its length before it, and what follows.
abbrev pub read_field : List ℕ → Option (List ℕ × List ℕ)
read_field (a ∷ b ∷ c ∷ d ∷ rest) =
    let n = a + 256 * b + 65536 * c + 16777216 * d in some (take n rest, drop n rest)
read_field _ = none

abbrev read_record : List ℕ → Option (SinkMessage × List ℕ)
read_record bytes = do
  (id, rest) ← read_field bytes
  (content, end) ← read_field rest
  some (record { identifier = id; content = content }, end)

-- The messages of a log, as many as asked for.
abbrev pub read_log : ℕ → List ℕ → Option (List SinkMessage)
read_log zero bytes = some []
read_log (suc n) bytes = do
  (message, rest) ← read_record bytes
  messages ← read_log n rest
  some (message ∷ messages)

take_front : (xs ys : List ℕ) → take (length xs) (xs ++ ys) ≡ xs
take_front [] ys = refl
take_front (x ∷ xs) ys = ap (λ l. x ∷ l) (take_front xs ys)

drop_front : (xs ys : List ℕ) → drop (length xs) (xs ++ ys) ≡ ys
drop_front [] ys = refl
drop_front (x ∷ xs) ys = drop_front xs ys

append_assoc : (xs ys zs : List ℕ) → (xs ++ ys) ++ zs ≡ xs ++ (ys ++ zs)
append_assoc [] ys zs = refl
append_assoc (x ∷ xs) ys zs = ap (λ l. x ∷ l) (append_assoc xs ys zs)

-- A field is read back with what follows it, as long as its length fits four bytes.
read_field_lem :
    (xs rest : List ℕ)
    → length xs < 4294967296
    → read_field (bytes_of (length xs) ++ (xs ++ rest)) ≡ some (xs, rest)
unfolding bytes_of
read_field_lem xs rest h =
    let n = length xs in
    let value : n % 256
          + 256 * (n / 256 % 256)
          + 65536 * (n / 65536 % 256)
          + 16777216 * (n / 16777216 % 256)
        ≡ n =
      omega arith in
    rw (bytes_of, value, take_front xs rest, drop_front xs rest) refl

-- The lengths of a message that `fill` accepts.
abbrev pub IsFilled : SinkMessage → Type 0
IsFilled message =
    (length message.identifier ≤ max_identifier_bytes) × (length message.content ≤ max_data_bytes)

read_record_lem :
    (message : SinkMessage) (rest : List ℕ)
    → IsFilled message
    → read_record (record_of message ++ rest) ≡ some (message, rest)
unfolding record_of
read_record_lem message rest (short, small) =
    let id = message.identifier in
    let content = message.content in
    let whole : record_of message ++ rest
        ≡ bytes_of (length id) ++ (id ++ (bytes_of (length content) ++ (content ++ rest))) =
      simp append_assoc refl in
    rw
      (
        whole,
        read_field_lem id (bytes_of (length content) ++ (content ++ rest)) (omega arith),
        read_field_lem content rest (omega arith),
      )
      refl

-- The log of any messages that fit is read back as those messages.
pub read_log-log_of :
    (messages : List SinkMessage)
    → AllOf IsFilled messages
    → read_log (length messages) (log_of messages) ≡ some messages
unfolding log_of
read_log-log_of [] h = refl
read_log-log_of (message ∷ messages) (fits, all) =
    rw (read_record_lem message (log_of messages) fits, read_log-log_of messages all) refl
