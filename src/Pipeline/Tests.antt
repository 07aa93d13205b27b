-- ===== src/Pipeline/Tests.antt =====
-- A file of two quotes, 30 milliseconds apart, and the stream that comes of it, cut within the second.
use slipstream_volume_aware.Prelude.{
  ℕ, ◌^◌, ◌≡◌, refl, inl, inr, List, [], ◌∷◌, ◌++◌, take, drop, length-replicate, replicate, false,
  true, some, arith,
}
use slipstream_volume_aware.Prelude.Words.{of_bytes, to_bytes}
use slipstream_volume_aware.Prelude.Outcome.{ok}
use slipstream_volume_aware.Codec.Frame
use slipstream_volume_aware.Codec.Gcmd
use slipstream_volume_aware.Codec.Gcmd.{MdMessage}
use slipstream_volume_aware.Codec.Gcmd.Wire
use slipstream_volume_aware.Codec.Gcmd.Serialise
use slipstream_volume_aware.Codec.Gcmd.Deserialise
use slipstream_volume_aware.Codec.Gcmd.Deserialise.{deserialise_message}
use slipstream_volume_aware.Csv
use slipstream_volume_aware.Csv.{CsvParser, read_quote}
use slipstream_volume_aware.Csv.Fields.{joined}
use slipstream_volume_aware.Reconstructor.{MessageReconstructor}
use slipstream_volume_aware.Reconstructor.Frames.{IsFrame, Splits, rest, frame}
use slipstream_volume_aware.Reconstructor.Fill.{Represents}
use slipstream_volume_aware.Receiver.{NetworkMessageReceiver, signal_init, note_heartbeat}
use slipstream_volume_aware.Receiver.Stream.{none_left, carry, noted}
use slipstream_volume_aware.Receiver.Loop.{Round}
use slipstream_volume_aware.Receiver.Chunks.{Arrives, Goes, Read, ended, piece}
use slipstream_volume_aware.Replay
use slipstream_volume_aware.Replay.{Environment, Client}
use slipstream_volume_aware.Replay.Clients
use slipstream_volume_aware.Replay.Clients.{run_market}
use slipstream_volume_aware.Replay.Waiting.{Ready}
use slipstream_volume_aware.Replay.Pace.{Yields, row, no_more}
use slipstream_volume_aware.Replay.Played.{FitsQuote, quote_message}
use slipstream_volume_aware.Pipeline.{Told, run_market-received}

abbrev env : Environment
env = record { lag = λ k. 1; wall = λ k. 1764000000000; accepts = λ k. ok tt }

env-Ready : Ready env
env-Ready = record { accepts = λ k. refl; wall_in = λ k. omega arith }

abbrev isin : List ℕ
isin = replicate 12 b'A'

-- A line whose time ends in the digits `d` and 0.
abbrev quote_line : ℕ → List ℕ
quote_line d =
    joined (b'0' ∷ b'9' ∷ b':' ∷ b'3' ∷ b'0' ∷ b':' ∷ b'1' ∷ b'5' ∷ b'.' ∷ b'1' ∷ d ∷ b'0' ∷ [])
      ((b'Q' ∷ []) ∷ isin ∷ (b'1' ∷ []) ∷ (b'2' ∷ []) ∷ (b'3' ∷ []) ∷ (b'4' ∷ []) ∷ [])

abbrev quote_at : ℕ → Csv.Quote
quote_at t = record {
  timestamp = t;
  symbol = isin;
  bid_price = 10000;
  bid_quantity = 2;
  ask_price = 30000;
  ask_quantity = 4;
}

abbrev lines : CsvParser
lines = record { reached_end = false; file = quote_line b'1' ∷ quote_line b'4' ∷ [] }

quote_at-FitsQuote : (t : ℕ) → FitsQuote (quote_at t)
quote_at-FitsQuote t = record {
  symbol_in = record { twelve = refl; bytes = omega arith };
  bid_price_in = omega arith;
  ask_price_in = omega arith;
}

lines-quotes : Yields read_quote FitsQuote lines (quote_at 34215110 ∷ quote_at 34215140 ∷ [])
unfolding read_quote Csv.read_loop Csv.read_line Csv.quote_fields Csv.cut Csv.get_field Csv.digit
    Csv.parse_timestamp Csv.is_letter Csv.copy_symbol Csv.parse_price Csv.price_loop Csv.pad_price
    Csv.parse_u_int Csv.digits_value
lines-quotes =
    row (quote_at 34215110) refl refl (quote_at-FitsQuote 34215110)
      (row (quote_at 34215140) refl refl (quote_at-FitsQuote 34215140) (no_more refl refl))

abbrev client : Client
client = record {
  parser = lines;
  buffer = replicate 48 0;
  last_sent_heartbeat_ms = 0;
  steady = 5000;
  readings = 0;
  walls = 0;
  handed = [];
}

-- The frames of both quotes, which bear no time of the file, and of the heartbeat between them.
abbrev quote_frame : List ℕ
quote_frame =
    44 ∷ 0 ∷ 1 ∷ 1 ∷ 65 ∷ 65 ∷ 65 ∷ 65 ∷ 65 ∷ 65 ∷ 65 ∷ 65 ∷ 65 ∷ 65 ∷ 65 ∷ 65 ∷ 0 ∷ 232 ∷ 151 ∷ 182
    ∷ 154 ∷ 1 ∷ 0 ∷ 0 ∷ 2 ∷ 0 ∷ 0 ∷ 0 ∷ 16 ∷ 39 ∷ 0 ∷ 0 ∷ 0 ∷ 0 ∷ 0 ∷ 0 ∷ 4 ∷ 0 ∷ 0 ∷ 0 ∷ 48 ∷ 117
    ∷ 0 ∷ 0 ∷ 0 ∷ 0 ∷ 0 ∷ 0 ∷ []

abbrev beat_frame : List ℕ
beat_frame = 8 ∷ 0 ∷ 3 ∷ 1 ∷ 0 ∷ 232 ∷ 151 ∷ 182 ∷ 154 ∷ 1 ∷ 0 ∷ 0 ∷ []

abbrev played : Client
played = record {
  parser = record { reached_end = true; file = [] };
  buffer = quote_frame;
  last_sent_heartbeat_ms = 0;
  steady = 5032;
  readings = 3;
  walls = 3;
  handed =
      record { at_ms = 5001; bytes = quote_frame }
      ∷ record { at_ms = 5002; bytes = beat_frame }
      ∷ record { at_ms = 5032; bytes = quote_frame }
      ∷ [];
}

client-played : run_market env 2 (2 ^ 64) client ≡ some (ok tt, played)
unfolding run_market Replay.run Replay.after_first read_quote Csv.parse_timestamp Csv.get_field
    Csv.cut Csv.is_letter Csv.copy_symbol Clients.send_quote Replay.send_serialised
    Serialise.serialise_quote_message Frame.write_frame Frame.memcpy Frame.header_bytes to_bytes
    Wire.quote_bytes Serialise.to_quote_body Clients.body_from_quote Replay.wait
    Serialise.serialise_heartbeat_message Serialise.to_heartbeat_body Wire.heartbeat_bytes
    Gcmd.message_type_to_num Csv.digit Csv.digits_value Csv.pad_price Csv.parse_price
    Csv.parse_u_int Csv.price_loop Csv.quote_fields Csv.read_line Csv.read_loop
    Replay.after_first_send Replay.after_read Replay.after_send Replay.after_wait Replay.beat_if_due
    Replay.caught Replay.get_now Replay.get_wall_clock_now Replay.run_loop Replay.send_heart_beat
    Replay.sleep_for Replay.turn
client-played = refl

-- What the receiver makes of the frames.
abbrev messages : List MdMessage
messages =
    quote_message (quote_at 34215110) 1764000000000
    ∷ MdMessage.heartbeat (record { timestamp = 1764000000000 })
    ∷ quote_message (quote_at 34215140) 1764000000000
    ∷ []

quote_frame-message :
    (t : ℕ) → deserialise_message quote_frame ≡ ok (quote_message (quote_at t) 1764000000000)
unfolding deserialise_message Deserialise.get_message_type Deserialise.deserialise_as
    Deserialise.get_quote_message Frame.read_at Frame.header_at Frame.header_of of_bytes
    Gcmd.message_type_from_num Gcmd.to_quote Wire.quote_of
quote_frame-message t = refl

beat_frame-message :
    deserialise_message beat_frame ≡ ok (MdMessage.heartbeat (record { timestamp = 1764000000000 }))
unfolding deserialise_message Deserialise.get_message_type Deserialise.deserialise_as
    Deserialise.get_heartbeat_message Frame.read_at Frame.header_at Frame.header_of of_bytes
    Gcmd.message_type_from_num Gcmd.to_heartbeat Wire.heartbeat_of
beat_frame-message = refl

quote_frame-IsFrame : IsFrame quote_frame
unfolding of_bytes
quote_frame-IsFrame = record { header = omega arith; whole = refl }

beat_frame-IsFrame : IsFrame beat_frame
unfolding of_bytes
beat_frame-IsFrame = record { header = omega arith; whole = refl }

abbrev slots : List ℕ
slots = replicate 2048 0

abbrev new_reconstructor : MessageReconstructor
new_reconstructor = record { buffer = slots; size = 0; dirty_start = 0 }

new_reconstructor-Represents : Represents new_reconstructor []
new_reconstructor-Represents = record {
  slots = length-replicate {A = ℕ} 2048 0;
  sized = refl;
  fits = omega arith;
  place = refl;
}

abbrev receiver : NetworkMessageReceiver ℕ
receiver = record {
  connection = 1;
  reconstructor = new_reconstructor;
  should_stop = false;
  last_heartbeat = 1763999999000;
  heartbeat_timeout_ms = 5000;
}

-- Both quotes and the heartbeat, but for all of the second quote behind its header.
abbrev first_round : Round
first_round = record {
  told_to_stop = false;
  reads = ok (quote_frame ++ beat_frame ++ take 4 quote_frame);
  now = 1764000000100;
}

abbrev second_round : Round
second_round = record { told_to_stop = false; reads = ok (drop 4 quote_frame); now = 1764000000200 }

abbrev first_messages : List MdMessage
first_messages =
    quote_message (quote_at 34215110) 1764000000000
    ∷ MdMessage.heartbeat (record { timestamp = 1764000000000 })
    ∷ []

first_round-Goes : Goes 5000 (noted 1763999999000 first_messages) first_round
unfolding note_heartbeat
first_round-Goes = record { not_told = refl; not_stale = refl }

second_round-Goes :
    Goes 5000
      (noted
        (noted 1763999999000 first_messages)
        (quote_message (quote_at 34215140) 1764000000000 ∷ []))
      second_round
unfolding note_heartbeat
second_round-Goes = record { not_told = refl; not_stale = refl }

header-incomplete : Splits (take 4 quote_frame) [] (take 4 quote_frame)
unfolding of_bytes
header-incomplete = rest (λ h. omega (arith, h.1))

rounds-Arrives :
    Arrives 5000 1763999999000 []
      (first_round ∷ second_round ∷ [])
      (quote_frame ∷ beat_frame ∷ quote_frame ∷ [])
      messages
      []
rounds-Arrives =
    piece (quote_frame ++ beat_frame ++ take 4 quote_frame) (take 4 quote_frame)
      (quote_frame ∷ beat_frame ∷ []) first_messages first_round-Goes refl (omega arith)
      (omega arith)
      (frame quote_frame quote_frame-IsFrame refl
        (frame beat_frame beat_frame-IsFrame refl header-incomplete))
      (carry quote_frame _ (quote_frame-message 34215110)
        (carry beat_frame _ beat_frame-message none_left))
      (inr (omega arith))
      (piece (drop 4 quote_frame) [] (quote_frame ∷ [])
        (quote_message (quote_at 34215140) 1764000000000 ∷ []) second_round-Goes refl (omega arith)
        (omega arith) (frame quote_frame quote_frame-IsFrame refl (rest (λ h. omega (arith, h.0))))
        (carry quote_frame _ (quote_frame-message 34215140) none_left) (inr (omega arith))
        (ended (λ h. omega (arith, h.0))))

abbrev enqueue : List MdMessage → MdMessage → List MdMessage
enqueue q m = q ++ (m ∷ [])

abbrev close : ℕ → ℕ
close c = 0

run_market-received_example :
    Told quote_message (quote_at 34215110 ∷ quote_at 34215140 ∷ []) messages
    × (◌≡◌ {A = List ℕ} [] [])
    × Read enqueue close receiver [] signal_init (first_round ∷ second_round ∷ []) messages []
run_market-received_example =
    run_market-received enqueue close 5000 receiver [] signal_init refl refl
      new_reconstructor-Represents (inl refl) env 2 (2 ^ 64) client played (quote_at 34215110)
      (quote_at 34215140 ∷ []) (first_round ∷ second_round ∷ [])
      (quote_frame ∷ beat_frame ∷ quote_frame ∷ []) messages [] env-Ready (omega arith)
      (omega arith) (omega arith) refl lines-quotes client-played refl rounds-Arrives
