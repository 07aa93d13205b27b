-- ===== src/Codec/Gcmd.antt =====
-- src/libs/networking/gcmd/types/GCMDTypes.h and .cpp: the market-data messages, their packed wire
-- structs, and the conversions between the two. A `char` array is the list of its bytes, and an
-- `int64_t` is its bit pattern. A `default:` that throws on a value outside an enum has no clause.
use slipstream_volume_aware.Prelude.{ℕ, ◌≡◌, List, ◌==◌, if◌then◌else◌, length, All, ◌^◌, ◌<◌}
use slipstream_volume_aware.Prelude.Words.{IsByte, IsU32, IsU64}
use slipstream_volume_aware.Prelude.Outcome.{Outcome, ok, err, logic_error, ◌>>=◌}
pub mod Wire
pub mod Serialise
pub mod Deserialise
pub mod Framed
pub mod RoundTrip
pub mod Typed

pub data MessageType : Type 0 where
  quote trade heartbeat session_control : MessageType

pub data TradeAggressor : Type 0 where
  buy sell unknown : TradeAggressor

-- The constants of the enum are `OPEN = 0`, `HALT = 1`, `CLOSE = 2`.
pub data SessionControlState : Type 0 where
  opened halt close : SessionControlState

pub record QuoteBody : Type 0 where
  pub symbol : List ℕ
  pub timestamp_ns : ℕ
  pub bid_quantity : ℕ
  pub bid_price : ℕ
  pub ask_quantity : ℕ
  pub ask_price : ℕ

pub record TradeBody : Type 0 where
  pub symbol : List ℕ
  pub timestamp_ns : ℕ
  pub quantity : ℕ
  pub price : ℕ
  pub aggressor : ℕ
  pub id : ℕ

pub record HeartbeatBody : Type 0 where
  pub timestamp : ℕ

pub record SessionControlBody : Type 0 where
  pub timestamp : ℕ
  pub state : ℕ

pub record Quote : Type 0 where
  pub symbol : List ℕ
  pub timestamp_ns : ℕ
  pub bid_quantity : ℕ
  pub bid_price : ℕ
  pub ask_quantity : ℕ
  pub ask_price : ℕ

pub record Trade : Type 0 where
  pub symbol : List ℕ
  pub timestamp_ns : ℕ
  pub quantity : ℕ
  pub price : ℕ
  pub aggressor : TradeAggressor
  pub id : ℕ

pub record Heartbeat : Type 0 where
  pub timestamp : ℕ

pub record SessionControl : Type 0 where
  pub timestamp : ℕ
  pub state : SessionControlState

-- `std::variant<Quote, Trade, Heartbeat, SessionControl>`.
pub data MdMessage : Type 0 where
  quote : Quote → MdMessage
  trade : Trade → MdMessage
  heartbeat : Heartbeat → MdMessage
  session_control : SessionControl → MdMessage

unfoldable pub message_type_from_num : ℕ → Outcome MessageType
message_type_from_num n =
    if n == 1
    then ok MessageType.quote
    else if n == 2
    then ok MessageType.trade
    else if n == 3
    then ok MessageType.heartbeat
    else if n == 4
    then ok MessageType.session_control
    else err logic_error

unfoldable pub message_type_to_num : MessageType → ℕ
message_type_to_num MessageType.quote = 1
message_type_to_num MessageType.trade = 2
message_type_to_num MessageType.heartbeat = 3
message_type_to_num MessageType.session_control = 4

unfoldable pub aggressor_from_char : ℕ → Outcome TradeAggressor
aggressor_from_char c =
    if c == b'B'
    then ok buy
    else if c == b'S'
    then ok sell
    else if c == b'?'
    then ok unknown
    else err logic_error

unfoldable pub aggressor_to_char : TradeAggressor → ℕ
aggressor_to_char buy = b'B'
aggressor_to_char sell = b'S'
aggressor_to_char unknown = b'?'

unfoldable pub session_control_state_from_num : ℕ → Outcome SessionControlState
session_control_state_from_num n =
    if n == 0
    then ok opened
    else if n == 1
    then ok halt
    else if n == 2
    then ok close
    else err logic_error

unfoldable pub session_control_state_to_num : SessionControlState → ℕ
session_control_state_to_num opened = 0
session_control_state_to_num close = 1
session_control_state_to_num halt = 2

unfoldable pub to_quote : QuoteBody → Quote
to_quote b = record {
  symbol = b.symbol;
  timestamp_ns = b.timestamp_ns;
  bid_quantity = b.bid_quantity;
  bid_price = b.bid_price;
  ask_quantity = b.ask_quantity;
  ask_price = b.ask_price;
}

unfoldable pub to_trade : TradeBody → Outcome Trade
to_trade b = do
  a ← aggressor_from_char b.aggressor
  ok record {
    symbol = b.symbol;
    timestamp_ns = b.timestamp_ns;
    quantity = b.quantity;
    price = b.price;
    aggressor = a;
    id = b.id;
  }

unfoldable pub to_heartbeat : HeartbeatBody → Heartbeat
to_heartbeat b = record { timestamp = b.timestamp }

unfoldable pub to_session_control : SessionControlBody → Outcome SessionControl
to_session_control b = do
  st ← session_control_state_from_num b.state
  ok record { timestamp = b.timestamp; state = st }

-- `char symbol[12]`.
pub record IsSymbol (s : List ℕ) : Type 0 where
  pub twelve : length s ≡ 12
  pub bytes : All IsByte s

-- The values that the C++ fields can hold.
pub record IsQuote (q : Quote) : Type 0 where
  pub symbol_in : IsSymbol q.symbol
  pub timestamp_in : IsU64 q.timestamp_ns
  pub bid_quantity_in : IsU32 q.bid_quantity
  pub bid_price_in : IsU64 q.bid_price
  pub ask_quantity_in : IsU32 q.ask_quantity
  pub ask_price_in : IsU64 q.ask_price

pub record IsTrade (t : Trade) : Type 0 where
  pub symbol_in : IsSymbol t.symbol
  pub timestamp_in : IsU64 t.timestamp_ns
  pub quantity_in : IsU32 t.quantity
  pub price_in : IsU64 t.price
  pub id_in : IsU64 t.id

-- A message that the C++ variant can hold.
abbrev pub IsMessage : MdMessage → Type 0
IsMessage (MdMessage.quote q) = IsQuote q
IsMessage (MdMessage.trade t) = IsTrade t
IsMessage (MdMessage.heartbeat h) = IsU64 h.timestamp
IsMessage (MdMessage.session_control c) = IsU64 c.timestamp
