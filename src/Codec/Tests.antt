-- ===== src/Codec/Tests.antt =====
-- Frames of the two codecs, written and read.
use slipstream_volume_aware.Prelude.{ℕ, ◌≡◌, refl, List, [], ◌∷◌, replicate, length, take, arith}
use slipstream_volume_aware.Prelude.Words.{to_bytes, of_bytes}
use slipstream_volume_aware.Prelude.Outcome.{ok, err, logic_error}
use slipstream_volume_aware.Codec.Frame.{header_at, write_frame, memcpy, header_bytes}
use slipstream_volume_aware.Codec.Gcmd.{
  Quote, Trade, SessionControl, MdMessage, buy, halt, close, message_type_to_num,
  message_type_from_num,
}
use slipstream_volume_aware.Codec.Gcmd.Wire.{heartbeat_bytes}
use slipstream_volume_aware.Codec.Gcmd.Serialise.{
  serialise_quote_message, serialise_trade_message, serialise_heartbeat_message,
  serialise_session_control_message, to_heartbeat_body,
}
use slipstream_volume_aware.Codec.Gcmd.Deserialise.{deserialise_message, get_message_type}
use slipstream_volume_aware.Codec.Gcmd.Framed.{Carries}
use slipstream_volume_aware.Codec.Gcmd.Typed.{Deserialised, deserialise_message-Deserialised}
use slipstream_volume_aware.Codec.Gcmd.RoundTrip.{
  quote_round_trip, trade_round_trip, session_control_swaps,
}
use slipstream_volume_aware.Codec.Oe.{
  NewOrder, ExecReport, accepted, sell, partial, nothing, new_order_body,
}
use slipstream_volume_aware.Codec.Oe.Serialise.{serialise_new_order_message}
use slipstream_volume_aware.Codec.Oe.RoundTrip.{CarriesOrder, new_order_round_trip}

abbrev isin : List ℕ
isin = b'U' ∷ b'S' ∷ b'0' ∷ b'3' ∷ b'7' ∷ b'8' ∷ b'3' ∷ b'3' ∷ b'1' ∷ b'0' ∷ b'0' ∷ b'5' ∷ []

abbrev buffer : List ℕ
buffer = replicate 64 0xee

abbrev sample_quote : Quote
sample_quote = record {
  symbol = isin;
  timestamp_ns = 1_700_000_000_000;
  bid_quantity = 100;
  bid_price = 1_012_500;
  ask_quantity = 200;
  ask_price = 1_012_700;
}

abbrev sample_trade : Trade
sample_trade = record {
  symbol = isin;
  timestamp_ns = 1_700_000_000_001;
  quantity = 300;
  price = 1_012_600;
  aggressor = buy;
  id = 7;
}

abbrev halt_message : SessionControl
halt_message = record { timestamp = 5; state = halt }

abbrev sample_order : NewOrder
sample_order = record {
  client_order_id = 1;
  symbol = isin;
  status = accepted;
  ts_ns = 99;
  trade_id = 7;
  side = sell;
  qty = 300;
  limit_px = 1_012_600;
}

abbrev sample_report : ExecReport
sample_report = record {
  client_order_id = 1;
  ts_ns = 100;
  status = partial;
  filled_qty = 10;
  avg_px = 1_012_600;
  reason_code = nothing;
}

heartbeat_frame :
    serialise_heartbeat_message (replicate 13 9) (record { timestamp = 258 })
    ≡ ok (12, 8 ∷ 0 ∷ 3 ∷ 1 ∷ 2 ∷ 1 ∷ 0 ∷ 0 ∷ 0 ∷ 0 ∷ 0 ∷ 0 ∷ 9 ∷ [])
unfolding serialise_heartbeat_message write_frame memcpy header_bytes to_bytes heartbeat_bytes
    to_heartbeat_body message_type_to_num
heartbeat_frame = refl

unknown_type : deserialise_message (8 ∷ 0 ∷ 5 ∷ 1 ∷ []) ≡ err logic_error
unfolding deserialise_message get_message_type header_at of_bytes message_type_from_num
unknown_type = refl

quote_round_trip_example :
    Carries buffer 48 (MdMessage.quote sample_quote) (serialise_quote_message buffer sample_quote)
quote_round_trip_example = quote_round_trip buffer sample_quote (omega arith) (omega arith)

trade_round_trip_example :
    Carries buffer 45 (MdMessage.trade sample_trade) (serialise_trade_message buffer sample_trade)
trade_round_trip_example = trade_round_trip buffer sample_trade (omega arith) (omega arith)

session_control_swaps_example :
    Carries buffer 13
      (MdMessage.session_control (record { timestamp = 5; state = close }))
      (serialise_session_control_message buffer halt_message)
session_control_swaps_example =
    session_control_swaps buffer halt_message (omega arith) (omega arith)

new_order_round_trip_example :
    (b : List ℕ) × (serialise_new_order_message buffer (new_order_body sample_order) ≡ ok (54, b))
    × (length b ≡ length buffer)
    × CarriesOrder sample_order b
    × CarriesOrder sample_order (take 54 b)
new_order_round_trip_example = new_order_round_trip sample_order (omega arith) buffer (omega arith)

-- A heartbeat with bytes behind it, from no serialiser.
abbrev stray : List ℕ
stray = 8 ∷ 0 ∷ 3 ∷ 9 ∷ 255 ∷ 1 ∷ 0 ∷ 0 ∷ 0 ∷ 0 ∷ 0 ∷ 0 ∷ 77 ∷ []

deserialise_message-Deserialised_example : Deserialised stray (deserialise_message stray)
deserialise_message-Deserialised_example = deserialise_message-Deserialised stray (omega arith)
