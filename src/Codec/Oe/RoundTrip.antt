-- ===== src/Codec/Oe/RoundTrip.antt =====
-- What `OEDeserialiser` reads from the frames that `OESerialiser` writes.
use slipstream_volume_aware.Prelude.{
  ℕ, ◌+◌, ◌≤◌, ◌≡◌, refl, sym, ap, ◌∙◌, List, [], ◌++◌, arith, length, take, drop, append-nil,
  append_assoc, length-append, length-drop, take-length_append,
}
use mathlib.Core.Path.{subst}
use slipstream_volume_aware.Prelude.Outcome.{Outcome, ok, ◌>>=◌}
use slipstream_volume_aware.Prelude.Words.{to_bytes}
use slipstream_volume_aware.Codec.Frame.{
  header_bytes, write_frame, write_frame_lem, IsHeader, header_at, read_at, read_at-append,
  header_at-header_bytes, length-header_bytes,
}
use slipstream_volume_aware.Codec.Oe.{
  OeMessageType, new_order, exec_report, NewOrder, ExecReport, IsNewOrder, IsExecReport,
  oe_message_type_to_num, oe_message_type_from_num, to_new_order, new_order_body, to_exec_report,
  exec_report_body,
}
use slipstream_volume_aware.Codec.Oe.Wire.{
  new_order_bytes, exec_report_bytes, new_order_of, exec_report_of, length-new_order_bytes,
  new_order_back, exec_report_back,
}
use slipstream_volume_aware.Codec.Oe.Serialise.{
  frame_header, serialise_new_order_message, serialise_exec_report_message, get_new_order_message,
  get_exec_report_message, get_body_size, get_message_type,
}

-- A buffer that begins with a frame of type `t` and body `body`.
abbrev framed : OeMessageType → ℕ → List ℕ → List ℕ → List ℕ
framed t n body rest = header_bytes (frame_header n t) ++ (body ++ rest)

type_back : (t : OeMessageType) → oe_message_type_from_num (oe_message_type_to_num t) ≡ ok t
unfolding oe_message_type_from_num oe_message_type_to_num
type_back t = ground arith

frame_header-IsHeader : (n : ℕ) (t : OeMessageType) → n ≤ 65535 → IsHeader (frame_header n t)
unfolding oe_message_type_to_num
frame_header-IsHeader n new_order h = omega arith
frame_header-IsHeader n exec_report h = omega arith

module _ (t : OeMessageType) (n : ℕ) (small : n ≤ 65535) (body rest : List ℕ) where
  header_at-framed : header_at (framed t n body rest) ≡ ok (frame_header n t)
  header_at-framed =
      header_at-header_bytes (frame_header n t) (body ++ rest) (frame_header-IsHeader n t small)

  get_message_type-framed : get_message_type (framed t n body rest) ≡ ok t
  unfolding get_message_type
  get_message_type-framed =
      ap (λ m. m >>= (λ hd. oe_message_type_from_num hd.msg_type)) header_at-framed ∙ type_back t

  get_body_size-framed : get_body_size (framed t n body rest) ≡ ok n
  unfolding get_body_size
  get_body_size-framed = ap (λ m. m >>= (λ hd. ok hd.body_len)) header_at-framed

  read_body : length body ≡ n → read_at (framed t n body rest) 4 n ≡ ok body
  read_body e =
      read_at-append (header_bytes (frame_header n t)) body rest 4 n
        (length-header_bytes (frame_header n t)) e

-- What a serialiser returns: the number of bytes, and the buffer.
abbrev sized : ℕ → List ℕ → Outcome (ℕ × List ℕ)
sized n b = ok (n, b)

written :
    (t : OeMessageType) (n : ℕ) (body buffer : List ℕ)
    → length body ≡ n
    → 4 + n ≤ length buffer
    → (write_frame buffer (frame_header n t) body >>= sized (4 + n))
      ≡ ok (4 + n, framed t n body (drop (4 + n) buffer))
written t n body buffer e room =
    ap (λ r. r >>= sized (4 + n))
      (write_frame_lem buffer (frame_header n t) body (omega (arith, e))
        ∙ ap (λ k. ok (framed t n body (drop (4 + k) buffer))) e)

-- The frame cut out alone.
cut :
    (t : OeMessageType) (n : ℕ) (body rest : List ℕ)
    → length body ≡ n
    → take (4 + n) (framed t n body rest) ≡ framed t n body []
cut t n body rest e =
    ap (take (4 + n)) (sym (append_assoc (header_bytes (frame_header n t)) body rest))
    ∙ take-length_append (4 + n) (header_bytes (frame_header n t) ++ body) rest (
        omega (
          arith,
          e,
          length-append (header_bytes (frame_header n t)) body,
          length-header_bytes (frame_header n t),
        ))
    ∙ ap (λ l. header_bytes (frame_header n t) ++ l) (sym (append-nil body))

length-framed :
    (t : OeMessageType) (n : ℕ) (body buffer : List ℕ)
    → length body ≡ n
    → 4 + n ≤ length buffer
    → length (framed t n body (drop (4 + n) buffer)) ≡ length buffer
length-framed t n body buffer e room = omega (
  arith,
  e,
  length-append (header_bytes (frame_header n t)) (body ++ drop (4 + n) buffer),
  length-append body (drop (4 + n) buffer),
  length-header_bytes (frame_header n t),
  length-drop (4 + n) buffer,
)

-- The bytes are a frame that carries its type and length, and whose body converts to the order, or to
-- the report.
abbrev pub CarriesOrder : NewOrder → List ℕ → Type 0
CarriesOrder o b =
    (get_message_type b ≡ ok new_order)
    × (get_body_size b ≡ ok 50)
    × ((get_new_order_message b >>= to_new_order) ≡ ok o)

abbrev pub CarriesReport : ExecReport → List ℕ → Type 0
CarriesReport r b =
    (get_message_type b ≡ ok exec_report)
    × (get_body_size b ≡ ok 30)
    × ((get_exec_report_message b >>= to_exec_report) ≡ ok r)

module _ (o : NewOrder) (v : IsNewOrder o) where
  order_bytes : List ℕ
  order_bytes = new_order_bytes (new_order_body o)

  length-order_bytes : length order_bytes ≡ 50
  unfolding order_bytes new_order_body
  length-order_bytes = length-new_order_bytes (new_order_body o) v.symbol_in

  framed-CarriesOrder : (rest : List ℕ) → CarriesOrder o (framed new_order 50 order_bytes rest)
  unfolding order_bytes get_new_order_message
  framed-CarriesOrder rest = (
    get_message_type-framed new_order 50 (omega arith) order_bytes rest,
    get_body_size-framed new_order 50 (omega arith) order_bytes rest,
    ap (λ r. (r >>= (λ bs. ok (new_order_of bs))) >>= to_new_order)
          (read_body new_order 50 (omega arith) order_bytes rest length-order_bytes)
        ∙ new_order_back o v,
  )

  -- An order that a `NewOrder` can hold, turned into a body and serialised into a buffer of 54 bytes or
  -- more, gives a frame of 54 bytes that carries its type and length, and whose body converts back to
  -- the same order, also when the frame is cut out of the buffer.
  pub new_order_round_trip :
      (buffer : List ℕ)
      → 54 ≤ length buffer
      → (b : List ℕ) × (serialise_new_order_message buffer (new_order_body o) ≡ ok (54, b))
        × (length b ≡ length buffer)
        × CarriesOrder o b
        × CarriesOrder o (take 54 b)
  unfolding serialise_new_order_message order_bytes
  new_order_round_trip buffer room = (
    framed new_order 50 order_bytes (drop 54 buffer),
    written new_order 50 order_bytes buffer length-order_bytes room,
    length-framed new_order 50 order_bytes buffer length-order_bytes room,
    framed-CarriesOrder (drop 54 buffer),
    subst (CarriesOrder o) (sym (cut new_order 50 order_bytes (drop 54 buffer) length-order_bytes))
        (framed-CarriesOrder []),
  )

module _ (r : ExecReport) (v : IsExecReport r) where
  report_bytes : List ℕ
  report_bytes = exec_report_bytes (exec_report_body r)

  length-report_bytes : length report_bytes ≡ 30
  unfolding report_bytes exec_report_bytes to_bytes
  length-report_bytes = refl

  framed-CarriesReport : (rest : List ℕ) → CarriesReport r (framed exec_report 30 report_bytes rest)
  unfolding report_bytes get_exec_report_message
  framed-CarriesReport rest = (
    get_message_type-framed exec_report 30 (omega arith) report_bytes rest,
    get_body_size-framed exec_report 30 (omega arith) report_bytes rest,
    ap (λ x. (x >>= (λ bs. ok (exec_report_of bs))) >>= to_exec_report)
          (read_body exec_report 30 (omega arith) report_bytes rest length-report_bytes)
        ∙ exec_report_back r v,
  )

  -- An execution report that an `ExecReport` can hold, turned into a body and serialised into a buffer
  -- of 34 bytes or more, gives a frame of 34 bytes that carries its type and length, and whose body
  -- converts back to the same report, also when the frame is cut out of the buffer.
  pub exec_report_round_trip :
      (buffer : List ℕ)
      → 34 ≤ length buffer
      → (b : List ℕ) × (serialise_exec_report_message buffer (exec_report_body r) ≡ ok (34, b))
        × (length b ≡ length buffer)
        × CarriesReport r b
        × CarriesReport r (take 34 b)
  unfolding serialise_exec_report_message report_bytes
  exec_report_round_trip buffer room = (
    framed exec_report 30 report_bytes (drop 34 buffer),
    written exec_report 30 report_bytes buffer length-report_bytes room,
    length-framed exec_report 30 report_bytes buffer length-report_bytes room,
    framed-CarriesReport (drop 34 buffer),
    subst (CarriesReport r)
        (sym (cut exec_report 30 report_bytes (drop 34 buffer) length-report_bytes))
        (framed-CarriesReport []),
  )
