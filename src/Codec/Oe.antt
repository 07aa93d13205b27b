-- ===== src/Codec/Oe.antt =====
-- src/libs/networking/oe/types/OETypes.h and .cpp: the order-entry messages, their packed wire
-- structs, and the conversions between the two.
use slipstream_volume_aware.Prelude.{ℕ, List, ◌==◌, if◌then◌else◌, length, All, ◌≡◌}
use slipstream_volume_aware.Prelude.Words.{IsByte, IsU32, IsU64}
use slipstream_volume_aware.Prelude.Outcome.{Outcome, ok, err, logic_error, ◌>>=◌}
pub mod Wire
pub mod Serialise
pub mod RoundTrip

pub data OeMessageType : Type 0 where
  new_order exec_report : OeMessageType

pub data OrderStatus : Type 0 where
  accepted rejected : OrderStatus

pub data OrderSide : Type 0 where
  buy sell : OrderSide

pub data ExecStatus : Type 0 where
  ack fill partial reject : ExecStatus

pub data RejectReason : Type 0 where
  nothing risk price size throttle : RejectReason

pub record NewOrderBody : Type 0 where
  pub client_order_id : ℕ
  pub symbol : List ℕ
  pub status : ℕ
  pub ts_ns : ℕ
  pub trade_id : ℕ
  pub side : ℕ
  pub qty : ℕ
  pub limit_px : ℕ

pub record ExecReportBody : Type 0 where
  pub client_order_id : ℕ
  pub ts_ns : ℕ
  pub status : ℕ
  pub filled_qty : ℕ
  pub avg_px : ℕ
  pub reason_code : ℕ

pub record NewOrder : Type 0 where
  pub client_order_id : ℕ
  pub symbol : List ℕ
  pub status : OrderStatus
  pub ts_ns : ℕ
  pub trade_id : ℕ
  pub side : OrderSide
  pub qty : ℕ
  pub limit_px : ℕ

pub record ExecReport : Type 0 where
  pub client_order_id : ℕ
  pub ts_ns : ℕ
  pub status : ExecStatus
  pub filled_qty : ℕ
  pub avg_px : ℕ
  pub reason_code : RejectReason

unfoldable pub oe_message_type_from_num : ℕ → Outcome OeMessageType
oe_message_type_from_num n =
    if n == 10 then ok new_order else if n == 11 then ok exec_report else err logic_error

unfoldable pub oe_message_type_to_num : OeMessageType → ℕ
oe_message_type_to_num new_order = 10
oe_message_type_to_num exec_report = 11

unfoldable pub order_status_from_char : ℕ → Outcome OrderStatus
order_status_from_char c =
    if c == b'A' then ok accepted else if c == b'R' then ok rejected else err logic_error

unfoldable pub order_status_to_char : OrderStatus → ℕ
order_status_to_char accepted = b'A'
order_status_to_char rejected = b'R'

unfoldable pub order_side_from_char : ℕ → Outcome OrderSide
order_side_from_char c =
    if c == b'B' then ok buy else if c == b'S' then ok sell else err logic_error

unfoldable pub order_side_to_char : OrderSide → ℕ
order_side_to_char buy = b'B'
order_side_to_char sell = b'S'

unfoldable pub exec_status_from_num : ℕ → Outcome ExecStatus
exec_status_from_num n =
    if n == 0
    then ok ack
    else if n == 1
    then ok fill
    else if n == 2
    then ok partial
    else if n == 3
    then ok reject
    else err logic_error

unfoldable pub exec_status_to_num : ExecStatus → ℕ
exec_status_to_num ack = 0
exec_status_to_num fill = 1
exec_status_to_num partial = 2
exec_status_to_num reject = 3

unfoldable pub reject_reason_from_num : ℕ → Outcome RejectReason
reject_reason_from_num n =
    if n == 0
    then ok nothing
    else if n == 1
    then ok risk
    else if n == 2
    then ok price
    else if n == 3
    then ok size
    else if n == 4
    then ok throttle
    else err logic_error

unfoldable pub reject_reason_to_num : RejectReason → ℕ
reject_reason_to_num nothing = 0
reject_reason_to_num risk = 1
reject_reason_to_num price = 2
reject_reason_to_num size = 3
reject_reason_to_num throttle = 4

-- `toNewOrder`, with the constructor that it calls.
unfoldable pub to_new_order : NewOrderBody → Outcome NewOrder
to_new_order b = do
  st ← order_status_from_char b.status
  sd ← order_side_from_char b.side
  ok record {
    client_order_id = b.client_order_id;
    symbol = b.symbol;
    status = st;
    ts_ns = b.ts_ns;
    trade_id = b.trade_id;
    side = sd;
    qty = b.qty;
    limit_px = b.limit_px;
  }

-- `NewOrder::toBody`.
unfoldable pub new_order_body : NewOrder → NewOrderBody
new_order_body o = record {
  client_order_id = o.client_order_id;
  symbol = o.symbol;
  status = order_status_to_char o.status;
  ts_ns = o.ts_ns;
  trade_id = o.trade_id;
  side = order_side_to_char o.side;
  qty = o.qty;
  limit_px = o.limit_px;
}

unfoldable pub to_exec_report : ExecReportBody → Outcome ExecReport
to_exec_report b = do
  st ← exec_status_from_num b.status
  rs ← reject_reason_from_num b.reason_code
  ok record {
    client_order_id = b.client_order_id;
    ts_ns = b.ts_ns;
    status = st;
    filled_qty = b.filled_qty;
    avg_px = b.avg_px;
    reason_code = rs;
  }

-- `ExecReport::toBody`.
unfoldable pub exec_report_body : ExecReport → ExecReportBody
exec_report_body r = record {
  client_order_id = r.client_order_id;
  ts_ns = r.ts_ns;
  status = exec_status_to_num r.status;
  filled_qty = r.filled_qty;
  avg_px = r.avg_px;
  reason_code = reject_reason_to_num r.reason_code;
}

-- The values that the C++ fields can hold.
pub record IsNewOrder (o : NewOrder) : Type 0 where
  pub id_in : IsU64 o.client_order_id
  pub symbol_in : length o.symbol ≡ 12
  pub symbol_bytes : All IsByte o.symbol
  pub ts_in : IsU64 o.ts_ns
  pub trade_in : IsU64 o.trade_id
  pub qty_in : IsU32 o.qty
  pub limit_in : IsU64 o.limit_px

pub record IsExecReport (r : ExecReport) : Type 0 where
  pub id_in : IsU64 r.client_order_id
  pub ts_in : IsU64 r.ts_ns
  pub filled_in : IsU32 r.filled_qty
  pub avg_in : IsU64 r.avg_px
