-- ===== src/Codec/Gcmd/Serialise.antt =====
-- src/libs/networking/gcmd/serialisation/GCMDSerialiser.cpp. A serialiser returns the number of
-- bytes of the frame beside the buffer that it has written into.
use slipstream_volume_aware.Prelude.{ℕ, ◌+◌, List}
use slipstream_volume_aware.Prelude.Outcome.{Outcome, ok, ◌>>=◌}
use slipstream_volume_aware.Codec.Frame.{FrameHeader, header_size, protocol_version, write_frame}
use slipstream_volume_aware.Codec.Gcmd.{
  MessageType, QuoteBody, TradeBody, HeartbeatBody, SessionControlBody, Quote, Trade, Heartbeat,
  SessionControl, message_type_to_num, aggressor_to_char, session_control_state_to_num,
}
use slipstream_volume_aware.Codec.Gcmd.Wire.{
  quote_bytes, trade_bytes, heartbeat_bytes, session_control_bytes,
}

-- `sizeof` of the packed bodies.
abbrev pub quote_body_size : ℕ
quote_body_size = 44

abbrev pub trade_body_size : ℕ
trade_body_size = 41

abbrev pub heartbeat_body_size : ℕ
heartbeat_body_size = 8

abbrev pub session_control_body_size : ℕ
session_control_body_size = 9

unfoldable pub to_quote_body : Quote → QuoteBody
to_quote_body q = record {
  symbol = q.symbol;
  timestamp_ns = q.timestamp_ns;
  bid_quantity = q.bid_quantity;
  bid_price = q.bid_price;
  ask_quantity = q.ask_quantity;
  ask_price = q.ask_price;
}

unfoldable pub to_trade_body : Trade → TradeBody
unfolding aggressor_to_char
to_trade_body t = record {
  symbol = t.symbol;
  timestamp_ns = t.timestamp_ns;
  quantity = t.quantity;
  price = t.price;
  aggressor = aggressor_to_char t.aggressor;
  id = t.id;
}

unfoldable pub to_heartbeat_body : Heartbeat → HeartbeatBody
to_heartbeat_body h = record { timestamp = h.timestamp }

unfoldable pub to_session_control_body : SessionControl → SessionControlBody
to_session_control_body c = record {
  timestamp = c.timestamp;
  state = session_control_state_to_num c.state;
}

abbrev pub frame_header : ℕ → MessageType → FrameHeader
frame_header n t = record {
  body_len = n;
  msg_type = message_type_to_num t;
  version = protocol_version;
}

unfoldable pub serialise_heartbeat_message : List ℕ → Heartbeat → Outcome (ℕ × List ℕ)
serialise_heartbeat_message buffer h = do
  b ←
      write_frame buffer (frame_header heartbeat_body_size MessageType.heartbeat)
        (heartbeat_bytes (to_heartbeat_body h))
  ok (header_size + heartbeat_body_size, b)

unfoldable pub serialise_quote_message : List ℕ → Quote → Outcome (ℕ × List ℕ)
serialise_quote_message buffer q = do
  b ←
      write_frame buffer (frame_header quote_body_size MessageType.quote)
        (quote_bytes (to_quote_body q))
  ok (header_size + quote_body_size, b)

unfoldable pub serialise_trade_message : List ℕ → Trade → Outcome (ℕ × List ℕ)
serialise_trade_message buffer t = do
  b ←
      write_frame buffer (frame_header trade_body_size MessageType.trade)
        (trade_bytes (to_trade_body t))
  ok (header_size + trade_body_size, b)

unfoldable pub serialise_session_control_message : List ℕ → SessionControl → Outcome (ℕ × List ℕ)
serialise_session_control_message buffer c = do
  b ←
      write_frame buffer (frame_header session_control_body_size MessageType.session_control)
        (session_control_bytes (to_session_control_body c))
  ok (header_size + session_control_body_size, b)
