-- ===== src/Codec/Oe/Serialise.antt =====
-- src/libs/networking/oe/serialisation/OESerialiser.cpp and oe/deserialisation/OEDeserialiser.cpp.
use slipstream_volume_aware.Prelude.{ℕ, ◌+◌, List, Bool, leb}
use slipstream_volume_aware.Prelude.Outcome.{Outcome, ok, ◌>>=◌}
use slipstream_volume_aware.Codec.Frame.{
  FrameHeader, header_size, protocol_version, write_frame, header_at, read_at,
}
use slipstream_volume_aware.Codec.Oe.{
  OeMessageType, new_order, exec_report, NewOrderBody, ExecReportBody, oe_message_type_to_num,
  oe_message_type_from_num,
}
use slipstream_volume_aware.Codec.Oe.Wire.{
  new_order_bytes, exec_report_bytes, new_order_of, exec_report_of,
}

-- `sizeof` of the packed bodies.
abbrev pub new_order_body_size : ℕ
new_order_body_size = 50

abbrev pub exec_report_body_size : ℕ
exec_report_body_size = 30

-- `OESerialiser::MAX_FRAME_SIZE`.
abbrev pub max_frame_size : ℕ
max_frame_size = 54

abbrev pub frame_header : ℕ → OeMessageType → FrameHeader
frame_header n t = record {
  body_len = n;
  msg_type = oe_message_type_to_num t;
  version = protocol_version;
}

unfoldable pub serialise_new_order_message : List ℕ → NewOrderBody → Outcome (ℕ × List ℕ)
serialise_new_order_message buffer b = do
  bs ← write_frame buffer (frame_header new_order_body_size new_order) (new_order_bytes b)
  ok (header_size + new_order_body_size, bs)

unfoldable pub serialise_exec_report_message : List ℕ → ExecReportBody → Outcome (ℕ × List ℕ)
serialise_exec_report_message buffer b = do
  bs ← write_frame buffer (frame_header exec_report_body_size exec_report) (exec_report_bytes b)
  ok (header_size + exec_report_body_size, bs)

unfoldable pub get_new_order_message : List ℕ → Outcome NewOrderBody
get_new_order_message buffer = do
  bs ← read_at buffer header_size new_order_body_size
  ok (new_order_of bs)

unfoldable pub get_exec_report_message : List ℕ → Outcome ExecReportBody
get_exec_report_message buffer = do
  bs ← read_at buffer header_size exec_report_body_size
  ok (exec_report_of bs)

unfoldable pub get_body_size : List ℕ → Outcome ℕ
get_body_size buffer = do h ← header_at buffer; ok h.body_len

unfoldable pub get_message_type : List ℕ → Outcome OeMessageType
get_message_type buffer = do h ← header_at buffer; oe_message_type_from_num h.msg_type

unfoldable pub is_complete_header : ℕ → Bool
is_complete_header n = leb header_size n
