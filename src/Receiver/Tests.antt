-- ===== src/Receiver/Tests.antt =====
-- A heartbeat that comes with the beginning of a second frame, and a silence that ends the loop.
use slipstream_volume_aware.Prelude.{
  ℕ, ◌+◌, ◌≡◌, refl, List, [], ◌∷◌, ◌++◌, replicate, length-replicate, false, arith, inl, inr,
}
use slipstream_volume_aware.Prelude.Words.{of_bytes}
use slipstream_volume_aware.Prelude.Outcome.{ok}
use slipstream_volume_aware.Codec.Frame.{read_at, header_at, header_of}
use slipstream_volume_aware.Codec.Gcmd.{MdMessage, message_type_from_num, to_heartbeat}
use slipstream_volume_aware.Codec.Gcmd.Wire.{heartbeat_of}
use slipstream_volume_aware.Codec.Gcmd.Deserialise.{
  deserialise_message, get_message_type, deserialise_as, get_heartbeat_message,
}
use slipstream_volume_aware.Reconstructor
use slipstream_volume_aware.Reconstructor.{MessageReconstructor}
use slipstream_volume_aware.Reconstructor.Frames.{IsFrame, Splits, rest, frame}
use slipstream_volume_aware.Reconstructor.Fill.{Represents}
use slipstream_volume_aware.Receiver.{
  NetworkMessageReceiver, try_receive, note_heartbeat, signal_init,
}
use slipstream_volume_aware.Receiver.Stream.{Carries, none_left, carry, noted}
use slipstream_volume_aware.Receiver.Refine.{try_receive_delivers}
use slipstream_volume_aware.Receiver.Chunks.{
  Arrives, Goes, Read, ended, quiet, piece, arrived, run-Arrives,
}
use slipstream_volume_aware.Receiver.Loop.{Round}

blank : List ℕ
blank = replicate 2048 0

fresh : MessageReconstructor
unfolding Reconstructor.init
fresh = Reconstructor.init blank

fresh-Represents : Represents fresh []
unfolding fresh Reconstructor.init blank
fresh-Represents = record {
  slots = length-replicate {A = ℕ} 2048 0;
  sized = refl;
  fits = omega arith;
  place = refl;
}

abbrev receiver : NetworkMessageReceiver ℕ
receiver = record {
  connection = 1;
  reconstructor = fresh;
  should_stop = false;
  last_heartbeat = 5000;
  heartbeat_timeout_ms = 5000;
}

-- A frame with the timestamp 7777, and three bytes more.
abbrev beat : List ℕ
beat = 8 ∷ 0 ∷ 3 ∷ 1 ∷ 97 ∷ 30 ∷ 0 ∷ 0 ∷ 0 ∷ 0 ∷ 0 ∷ 0 ∷ []

abbrev message : MdMessage
message = MdMessage.heartbeat (record { timestamp = 7777 })

beat-message : deserialise_message beat ≡ ok message
unfolding deserialise_message get_message_type deserialise_as get_heartbeat_message read_at
    header_at header_of of_bytes message_type_from_num to_heartbeat heartbeat_of
beat-message = refl

beat-IsFrame : IsFrame beat
unfolding of_bytes
beat-IsFrame = record { header = omega arith; whole = refl }

abbrev part : List ℕ
part = 8 ∷ 0 ∷ 3 ∷ []

beat-Splits : Splits (beat ++ part) (beat ∷ []) part
beat-Splits = frame beat beat-IsFrame refl (rest (λ h. omega (arith, h.0)))

abbrev enqueue : List MdMessage → MdMessage → List MdMessage
enqueue q m = q ++ (m ∷ [])

try_receive_delivers_example :
    (m : MessageReconstructor) × (try_receive enqueue receiver [] (ok (beat ++ part)) ≡ (
      ok tt,
      (
        record receiver { reconstructor = m; last_heartbeat = noted 5000 (message ∷ []) },
        message ∷ [],
      ),
    ))
    × Represents m part
    × (m.dirty_start + 3 ≡ 15)
try_receive_delivers_example =
    try_receive_delivers enqueue receiver [] [] (beat ++ part) part (beat ∷ []) (message ∷ [])
      fresh-Represents (inl (unfold fresh Reconstructor.init in refl)) (omega arith) (omega arith)
      beat-Splits (carry beat message beat-message none_left)

abbrev silence : List Round
silence = record { told_to_stop = false; reads = ok []; now = 10001 } ∷ []

abbrev close : ℕ → ℕ
close c = 0

-- The heartbeat in two pieces, with a round between them that reads nothing.
abbrev beyond : List ℕ
beyond = 1 ∷ 97 ∷ 30 ∷ 0 ∷ 0 ∷ 0 ∷ 0 ∷ 0 ∷ 0 ∷ []

abbrev last_round : Round
last_round = record { told_to_stop = false; reads = ok beyond; now = 8000 }

abbrev rounds : List Round
rounds =
    record { told_to_stop = false; reads = ok part; now = 6000 }
    ∷ record { told_to_stop = false; reads = ok []; now = 7000 }
    ∷ last_round
    ∷ []

last_round-Goes : Goes 5000 (noted 5000 (message ∷ [])) last_round
unfolding note_heartbeat
last_round-Goes = record { not_told = refl; not_stale = refl }

rounds-Arrives : Arrives 5000 5000 [] rounds (beat ∷ []) (message ∷ []) []
rounds-Arrives =
    piece part part [] [] (record { not_told = refl; not_stale = refl }) refl (omega arith)
      (omega arith) (rest (λ h. omega (arith, h.0))) none_left (inl refl)
      (quiet (record { not_told = refl; not_stale = refl }) refl
        (piece beyond [] (beat ∷ []) (message ∷ []) last_round-Goes refl (omega arith) (omega arith)
          (frame beat beat-IsFrame refl (rest (λ h. omega (arith, h.0))))
          (carry beat message beat-message none_left) (inr (omega arith))
          (ended (λ h. omega (arith, h.0)))))

run-Arrives_example :
    Splits ([] ++ arrived rounds) (beat ∷ []) []
    × Carries (beat ∷ []) (message ∷ [])
    × Read enqueue close receiver [] signal_init rounds (message ∷ []) []
run-Arrives_example =
    run-Arrives enqueue close 5000 [] [] rounds (beat ∷ []) (message ∷ []) receiver [] signal_init
      refl refl fresh-Represents (inl (unfold fresh Reconstructor.init in refl)) rounds-Arrives
