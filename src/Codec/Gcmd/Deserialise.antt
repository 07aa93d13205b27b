-- ===== src/Codec/Gcmd/Deserialise.antt =====
-- src/libs/networking/gcmd/deserialisation/GCMDDeserialiser.cpp. Neither the version nor the
-- length of the body is looked at before the body is read.
use slipstream_volume_aware.Prelude.{ℕ, ◌+◌, List, Bool, leb}
use slipstream_volume_aware.Prelude.Outcome.{Outcome, ok, ◌>>=◌}
use slipstream_volume_aware.Codec.Frame.{header_size, header_at, read_at}
use slipstream_volume_aware.Codec.Gcmd.{
  MessageType, Quote, Trade, Heartbeat, SessionControl, MdMessage, message_type_from_num, to_quote,
  to_trade, to_heartbeat, to_session_control,
}
use slipstream_volume_aware.Codec.Gcmd.Wire.{quote_of, trade_of, heartbeat_of, session_control_of}
use slipstream_volume_aware.Codec.Gcmd.Serialise.{
  quote_body_size, trade_body_size, heartbeat_body_size, session_control_body_size,
}

unfoldable pub get_heartbeat_message : List ℕ → Outcome Heartbeat
get_heartbeat_message buffer = do
  bs ← read_at buffer header_size heartbeat_body_size
  ok (to_heartbeat (heartbeat_of bs))

unfoldable pub get_quote_message : List ℕ → Outcome Quote
get_quote_message buffer = do
  bs ← read_at buffer header_size quote_body_size
  ok (to_quote (quote_of bs))

unfoldable pub get_trade_message : List ℕ → Outcome Trade
get_trade_message buffer = do
  bs ← read_at buffer header_size trade_body_size
  to_trade (trade_of bs)

unfoldable pub get_session_control_message : List ℕ → Outcome SessionControl
get_session_control_message buffer = do
  bs ← read_at buffer header_size session_control_body_size
  to_session_control (session_control_of bs)

unfoldable pub get_body_size : List ℕ → Outcome ℕ
get_body_size buffer = do h ← header_at buffer; ok h.body_len

unfoldable pub get_message_size : List ℕ → Outcome ℕ
get_message_size buffer = do n ← get_body_size buffer; ok (header_size + n)

unfoldable pub get_message_type : List ℕ → Outcome MessageType
get_message_type buffer = do h ← header_at buffer; message_type_from_num h.msg_type

unfoldable pub is_complete_header : ℕ → Bool
is_complete_header size = leb header_size size

-- The body of the `switch` in `deserialiseMessage`.
unfoldable pub deserialise_as : List ℕ → MessageType → Outcome MdMessage
deserialise_as buffer MessageType.quote = do q ← get_quote_message buffer; ok (MdMessage.quote q)
deserialise_as buffer MessageType.trade = do t ← get_trade_message buffer; ok (MdMessage.trade t)
deserialise_as buffer MessageType.heartbeat = do
  h ← get_heartbeat_message buffer
  ok (MdMessage.heartbeat h)
deserialise_as buffer MessageType.session_control = do
  c ← get_session_control_message buffer
  ok (MdMessage.session_control c)

unfoldable pub deserialise_message : List ℕ → Outcome MdMessage
deserialise_message buffer = do t ← get_message_type buffer; deserialise_as buffer t
