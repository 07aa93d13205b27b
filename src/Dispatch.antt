-- ===== src/Dispatch.antt =====
-- src/slipstream/market/OrderBookService, market/QuoteMessageHandler, orders/TradeMessageHandler and
-- network/MasterMessageHandler: what each message does to the services.
use slipstream_volume_aware.Prelude.{
  ℕ, zero, suc, ◌+◌, ◌%◌, ◌^◌, List, [], ◌∷◌, ◌++◌, length, Bool, true, false, ◌&&◌, ◌==◌, not,
  if◌then◌else◌, Option, none, some,
}
use slipstream_volume_aware.Prelude.Words.{add64}
use slipstream_volume_aware.Prelude.Outcome.{Outcome, ok, err, logic_error, invalid_argument, ◌>>=◌}
use slipstream_volume_aware.Codec.Gcmd.{Quote, Trade, MdMessage}
use slipstream_volume_aware.Codec.Oe.{NewOrder}
use slipstream_volume_aware.Vwap
use slipstream_volume_aware.Vwap.{VwapService, overwrite_oldest}
use slipstream_volume_aware.Engine
use slipstream_volume_aware.Engine.{ExecutionEngine, Readings, on_quote_received}
pub mod Counts
pub mod Orders
pub mod Fits
pub mod Average
mod Tests

pub record OrderBookService : Type 0 where
  pub symbol : List ℕ
  pub latest_quote : Quote
  pub quotes_received : ℕ

-- The constructor. `latestQuote` is left indeterminate: `any` stands for it.
unfoldable pub init : List ℕ → Quote → Outcome OrderBookService
init symbol any =
    if length symbol == 12
    then ok record { symbol = symbol; latest_quote = any; quotes_received = 0 }
    else err invalid_argument

-- `memcmp(...) == 0`, between symbols of one length.
unfoldable pub same_symbol : List ℕ → List ℕ → Bool
same_symbol [] [] = true
same_symbol [] (b ∷ bs) = false
same_symbol (a ∷ xs) [] = false
same_symbol (a ∷ xs) (b ∷ bs) = let rest = same_symbol xs bs in a == b && rest

unfoldable pub set_quote : OrderBookService → Quote → OrderBookService
set_quote b q =
    if not (same_symbol q.symbol b.symbol)
    then b
    else record b { latest_quote = q; quotes_received = add64 b.quotes_received 1 }

-- The services that the handlers share. `sent` is what has been handed to `OrderMessageSender.send`.
pub record Services : Type 0 where
  pub book : OrderBookService
  pub engine : ExecutionEngine
  pub vwap : VwapService
  pub sent : List NewOrder

pub data Handler : Type 0 where
  quote_handler trade_handler : Handler

unfoldable pub can_handle_message : Handler → MdMessage → Bool
can_handle_message quote_handler (MdMessage.quote q) = true
can_handle_message quote_handler (MdMessage.trade t) = false
can_handle_message quote_handler (MdMessage.heartbeat h) = false
can_handle_message quote_handler (MdMessage.session_control c) = false
can_handle_message trade_handler (MdMessage.quote q) = false
can_handle_message trade_handler (MdMessage.trade t) = true
can_handle_message trade_handler (MdMessage.heartbeat h) = false
can_handle_message trade_handler (MdMessage.session_control c) = false

-- `if (newOrder.has_value()) send(newOrder.value())`.
abbrev pub send_if : Option NewOrder → List NewOrder → List NewOrder
send_if none sent = sent
send_if (some o) sent = sent ++ (o ∷ [])

-- `QuoteMessageHandler::onMessage`.
unfoldable pub on_quote : Services → Readings → MdMessage → Outcome Services
on_quote s now (MdMessage.quote q) =
    ok (record s { book = set_quote s.book q; engine = on_quote_received s.engine now.steady_ms })
on_quote s now (MdMessage.trade t) = err logic_error
on_quote s now (MdMessage.heartbeat h) = err logic_error
on_quote s now (MdMessage.session_control c) = err logic_error

-- `TradeMessageHandler::onMessage`.
unfoldable pub on_trade : Services → Readings → MdMessage → Outcome Services
on_trade s now (MdMessage.trade t) = do
  v ← Vwap.handle_trade overwrite_oldest s.vwap t
  let (o, e, v') = Engine.handle_trade s.engine v now t in
      ok (record s { engine = e; vwap = v'; sent = send_if o s.sent })
on_trade s now (MdMessage.quote q) = err logic_error
on_trade s now (MdMessage.heartbeat h) = err logic_error
on_trade s now (MdMessage.session_control c) = err logic_error

unfoldable pub on_message : Handler → Services → Readings → MdMessage → Outcome Services
on_message quote_handler s now m = on_quote s now m
on_message trade_handler s now m = on_trade s now m

-- `MasterMessageHandler::onMessage`, over its list of handlers.
unfoldable pub master_on_message : List Handler → Services → Readings → MdMessage → Outcome Services
unfolding can_handle_message on_message
master_on_message [] s now m = ok s
master_on_message (h ∷ hs) s now m =
    let rest = master_on_message hs s now m in
    if can_handle_message h m then on_message h s now m else rest

-- `MasterMessageHandler::canHandleMessage`.
unfoldable pub master_can_handle : List Handler → MdMessage → Bool
unfolding can_handle_message
master_can_handle [] m = false
master_can_handle (h ∷ hs) m =
    let rest = master_can_handle hs m in if can_handle_message h m then true else rest

-- The messages that `MessageDeMultiplexer::run` pops, one after the other.
unfoldable pub run : List Handler → Services → List (Readings × MdMessage) → Outcome Services
run hs s [] = ok s
run hs s (i ∷ is) = do s' ← master_on_message hs s i.0 i.1; run hs s' is
