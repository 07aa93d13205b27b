-- ===== src/Codec/Gcmd/RoundTrip.antt =====
-- What `GCMDDeserialiser` reads from the frames that `GCMDSerialiser` writes.
use slipstream_volume_aware.Prelude.{ℕ, ◌<◌, ◌≤◌, ◌≡◌, refl, ap, ◌∙◌, List, arith, length}
use slipstream_volume_aware.Prelude.Outcome.{ok, ◌>>=◌}
use slipstream_volume_aware.Prelude.Words.{IsU64, to_bytes}
use slipstream_volume_aware.Codec.Gcmd.{
  MessageType, aggressor_to_char, aggressor_from_char, session_control_state_from_num,
  session_control_state_to_num, TradeAggressor, buy, sell, unknown, SessionControlState, opened,
  halt, close, Quote, Trade, Heartbeat, SessionControl, MdMessage, IsQuote, IsTrade, to_quote,
  to_trade, to_heartbeat, to_session_control,
}
use slipstream_volume_aware.Codec.Gcmd.Wire.{
  quote_bytes, trade_bytes, heartbeat_bytes, session_control_bytes, quote_of, trade_of,
  heartbeat_of, session_control_of, length-quote_bytes, length-trade_bytes, quote_of-quote_bytes,
  trade_of-trade_bytes, heartbeat_of-heartbeat_bytes, session_control_of-session_control_bytes,
}
use slipstream_volume_aware.Codec.Gcmd.Serialise.{
  to_quote_body, to_trade_body, to_heartbeat_body, to_session_control_body, serialise_quote_message,
  serialise_trade_message, serialise_heartbeat_message, serialise_session_control_message,
}
use slipstream_volume_aware.Codec.Gcmd.Deserialise.{
  deserialise_as, get_quote_message, get_trade_message, get_heartbeat_message,
  get_session_control_message,
}
use slipstream_volume_aware.Codec.Gcmd.Framed.{framed, read_body, Carries, write_frame-Carries}

-- Every quote that a `Quote` can hold, serialised into a buffer of 48 bytes or more, is read back as
-- the same quote, also when the frame is cut out of the buffer; the frame is 48 bytes long by the
-- return value and by its own header, and the bytes behind it are untouched.
pub quote_round_trip :
    (buffer : List ℕ) (q : Quote)
    → 48 ≤ length buffer
    → IsQuote q
    → Carries buffer 48 (MdMessage.quote q) (serialise_quote_message buffer q)
unfolding serialise_quote_message
quote_round_trip buffer q room v =
    write_frame-Carries MessageType.quote 44 body buffer (MdMessage.quote q) (omega arith) len room
      reads
  where
    body : List ℕ
    body = quote_bytes (to_quote_body q)

    len : length body ≡ 44
    len = unfold to_quote_body in length-quote_bytes (to_quote_body q) v.symbol_in.twelve

    back : to_quote (quote_of body) ≡ q
    back =
        unfold to_quote to_quote_body in
        ap to_quote (
          quote_of-quote_bytes (to_quote_body q) v.symbol_in.twelve v.timestamp_in v.bid_quantity_in
            v.bid_price_in v.ask_quantity_in v.ask_price_in)

    reads :
        (rest : List ℕ)
        → deserialise_as (framed MessageType.quote 44 body rest) MessageType.quote
          ≡ ok (MdMessage.quote q)
    reads rest =
        unfold deserialise_as get_quote_message in
        ap (λ r. (r >>= (λ bs. ok (to_quote (quote_of bs)))) >>= (λ x. ok (MdMessage.quote x)))
          (read_body MessageType.quote 44 (omega arith) body rest len)
        ∙ ap (λ x. ok (MdMessage.quote x)) back

aggressor_from_char-aggressor_to_char :
    (a : TradeAggressor) → aggressor_from_char (aggressor_to_char a) ≡ ok a
unfolding aggressor_from_char aggressor_to_char
aggressor_from_char-aggressor_to_char buy = refl
aggressor_from_char-aggressor_to_char sell = refl
aggressor_from_char-aggressor_to_char unknown = refl

aggressor_to_char-IsByte : (a : TradeAggressor) → aggressor_to_char a < 256
unfolding aggressor_to_char
aggressor_to_char-IsByte buy = omega arith
aggressor_to_char-IsByte sell = omega arith
aggressor_to_char-IsByte unknown = omega arith

-- Every trade that a `Trade` can hold, serialised into a buffer of 45 bytes or more, is read back as
-- the same trade, also when the frame is cut out of the buffer; the frame is 45 bytes long by the
-- return value and by its own header, and the bytes behind it are untouched.
pub trade_round_trip :
    (buffer : List ℕ) (t : Trade)
    → 45 ≤ length buffer
    → IsTrade t
    → Carries buffer 45 (MdMessage.trade t) (serialise_trade_message buffer t)
unfolding serialise_trade_message
trade_round_trip buffer t room v =
    write_frame-Carries MessageType.trade 41 body buffer (MdMessage.trade t) (omega arith) len room
      reads
  where
    body : List ℕ
    body = trade_bytes (to_trade_body t)

    len : length body ≡ 41
    len = unfold to_trade_body in length-trade_bytes (to_trade_body t) v.symbol_in.twelve

    back : to_trade (trade_of body) ≡ ok t
    back =
        unfold to_trade to_trade_body in
        ap to_trade (
          trade_of-trade_bytes (to_trade_body t) v.symbol_in.twelve v.timestamp_in v.quantity_in
            v.price_in (aggressor_to_char-IsByte t.aggressor) v.id_in)
        ∙ rw (aggressor_from_char-aggressor_to_char t.aggressor)

    reads :
        (rest : List ℕ)
        → deserialise_as (framed MessageType.trade 41 body rest) MessageType.trade
          ≡ ok (MdMessage.trade t)
    reads rest =
        unfold deserialise_as get_trade_message in
        ap (λ r. (r >>= (λ bs. to_trade (trade_of bs))) >>= (λ x. ok (MdMessage.trade x)))
          (read_body MessageType.trade 41 (omega arith) body rest len)
        ∙ ap (λ r. r >>= (λ x. ok (MdMessage.trade x))) back

-- Every heartbeat with a 64-bit timestamp, serialised into a buffer of 12 bytes or more, is read
-- back as the same heartbeat; the frame is 12 bytes long by the return value and by its own header,
-- and the bytes behind it are untouched.
pub heartbeat_round_trip :
    (buffer : List ℕ) (h : Heartbeat)
    → 12 ≤ length buffer
    → IsU64 h.timestamp
    → Carries buffer 12 (MdMessage.heartbeat h) (serialise_heartbeat_message buffer h)
unfolding serialise_heartbeat_message
heartbeat_round_trip buffer h room v =
    write_frame-Carries MessageType.heartbeat 8 body buffer (MdMessage.heartbeat h) (omega arith)
      len room reads
  where
    body : List ℕ
    body = heartbeat_bytes (to_heartbeat_body h)

    len : length body ≡ 8
    len = unfold heartbeat_bytes to_bytes in refl

    back : to_heartbeat (heartbeat_of body) ≡ h
    back =
        unfold to_heartbeat to_heartbeat_body in
        ap to_heartbeat (heartbeat_of-heartbeat_bytes (to_heartbeat_body h) v)

    reads :
        (rest : List ℕ)
        → deserialise_as (framed MessageType.heartbeat 8 body rest) MessageType.heartbeat
          ≡ ok (MdMessage.heartbeat h)
    reads rest =
        unfold deserialise_as get_heartbeat_message in
        ap
          (λ r.
            (r >>= (λ bs. ok (to_heartbeat (heartbeat_of bs))))
            >>= (λ x. ok (MdMessage.heartbeat x)))
          (read_body MessageType.heartbeat 8 (omega arith) body rest len)
        ∙ ap (λ x. ok (MdMessage.heartbeat x)) back

-- The state that a receiver is told: halt and close trade places.
abbrev pub received_state : SessionControlState → SessionControlState
received_state opened = opened
received_state halt = close
received_state close = halt

from_num-to_num :
    (s : SessionControlState)
    → session_control_state_from_num (session_control_state_to_num s) ≡ ok (received_state s)
unfolding session_control_state_from_num session_control_state_to_num
from_num-to_num opened = refl
from_num-to_num halt = refl
from_num-to_num close = refl

state_to_num-IsByte : (s : SessionControlState) → session_control_state_to_num s < 256
unfolding session_control_state_to_num
state_to_num-IsByte opened = omega arith
state_to_num-IsByte halt = omega arith
state_to_num-IsByte close = omega arith

-- A session control message with a 64-bit timestamp, serialised into a buffer of 13 bytes or more,
-- is read back with its timestamp, but with halt and close exchanged: only `OPEN` survives. The
-- frame is 13 bytes long, and the bytes behind it are untouched.
pub session_control_swaps :
    (buffer : List ℕ) (c : SessionControl)
    → 13 ≤ length buffer
    → IsU64 c.timestamp
    → Carries buffer 13
        (MdMessage.session_control (record c { state = received_state c.state }))
        (serialise_session_control_message buffer c)
unfolding serialise_session_control_message
session_control_swaps buffer c room v =
    write_frame-Carries MessageType.session_control 9 body buffer (MdMessage.session_control c')
      (omega arith) len room reads
  where
    c' : SessionControl
    c' = record c { state = received_state c.state }

    body : List ℕ
    body = session_control_bytes (to_session_control_body c)

    len : length body ≡ 9
    len = unfold session_control_bytes to_bytes in refl

    back : to_session_control (session_control_of body) ≡ ok c'
    back =
        unfold to_session_control to_session_control_body in
        ap to_session_control (
          session_control_of-session_control_bytes (to_session_control_body c) v
            (state_to_num-IsByte c.state))
        ∙ rw (from_num-to_num c.state)

    reads :
        (rest : List ℕ)
        → deserialise_as
            (framed MessageType.session_control 9 body rest)
            MessageType.session_control
          ≡ ok (MdMessage.session_control c')
    reads rest =
        unfold deserialise_as get_session_control_message in
        ap
          (λ r.
            (r >>= (λ bs. to_session_control (session_control_of bs)))
            >>= (λ x. ok (MdMessage.session_control x)))
          (read_body MessageType.session_control 9 (omega arith) body rest len)
        ∙ ap (λ r. r >>= (λ x. ok (MdMessage.session_control x))) back
