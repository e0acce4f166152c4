-- ===== src/Sink/Tests.antt =====
-- A log of two messages.
use gpsopen_cl.Prelude.{◌≡◌, refl, some, none, List, [], ◌∷◌, arith, replicate}
use gpsopen_cl.Sink.{SinkMessage, fill, log_of}
use gpsopen_cl.Sink.Framing.{read_log, read_log-log_of}

abbrev messages : List SinkMessage
messages =
    record { identifier = 80 ∷ 118 ∷ 116 ∷ []; content = 1 ∷ 2 ∷ 255 ∷ [] }
    ∷ record { identifier = 84 ∷ []; content = [] }
    ∷ []

too_long : fill (replicate 33 65) [] ≡ none
unfolding fill
too_long = refl

read_log-log_of_example : read_log 2 (log_of messages) ≡ some messages
read_log-log_of_example =
    read_log-log_of messages ((omega arith, omega arith), ((omega arith, omega arith), tt))
