-- ===== src/Engine.antt =====
-- src/slipstream/engine/ExecutionEngine.h and .cpp: which trades are followed by an order, and the
-- quantities that limit them. The engine shares the `VWAPService` with the trade handler, so the
-- service is passed in and out. What the clocks return during a call is an argument.
use slipstream_volume_aware.Prelude.{
  ℕ, ◌+◌, ◌*◌, ◌/◌, ◌%◌, ◌^◌, Bool, true, false, ◌&&◌, not, ◌==◌, leb, if◌then◌else◌, Option, none,
  some,
}
use slipstream_volume_aware.Prelude.Words.{add64, sub64, mul64}
use slipstream_volume_aware.Codec.Gcmd.{Trade, TradeAggressor}
use slipstream_volume_aware.Codec.Oe.{
  NewOrder, OrderStatus, accepted, rejected, OrderSide, buy, sell,
}
use slipstream_volume_aware.Vwap.{VwapService, get_vwap}
pub mod Orders
pub mod Limits
pub mod Report
mod Tests

pub record ExecutionEngine : Type 0 where
  pub quotes_received : ℕ
  pub trading_started : Bool
  pub is_halted : Bool
  pub max_quantity : ℕ
  pub participation_cap : ℕ
  pub vwap_window_ms : ℕ
  pub band_bps : ℕ
  pub timestamp_started : ℕ
  pub traded_quantity : ℕ
  pub cumulative_traded_quantity : ℕ
  pub client_order_id_counter : ℕ

-- The readings of the steady clock in milliseconds and in nanoseconds, and of the system clock in
-- milliseconds.
pub record Readings : Type 0 where
  pub steady_ms : ℕ
  pub steady_ns : ℕ
  pub system_ms : ℕ

-- `MIN_QUOTES_REQUIRED`.
abbrev pub min_quotes_required : ℕ
min_quotes_required = 10

-- The constructor. `timestampStarted` is left indeterminate: `any` stands for it.
unfoldable pub init : ℕ → ℕ → ℕ → ℕ → ℕ → ExecutionEngine
init max cap' window band any = record {
  quotes_received = 0;
  trading_started = false;
  is_halted = false;
  max_quantity = max;
  participation_cap = cap';
  vwap_window_ms = window;
  band_bps = band;
  timestamp_started = any;
  traded_quantity = 0;
  cumulative_traded_quantity = 0;
  client_order_id_counter = 0;
}

unfoldable pub on_quote_received : ExecutionEngine → ℕ → ExecutionEngine
on_quote_received e now =
    let received = (e.quotes_received + 1) % 2 ^ 32 in
    if received == 1 && not e.trading_started
    then record e { quotes_received = received; timestamp_started = now }
    else record e { quotes_received = received }

unfoldable pub halt_trading : ExecutionEngine → ExecutionEngine
halt_trading e = record e { is_halted = true }

unfoldable pub resume_trading : ExecutionEngine → ExecutionEngine
resume_trading e = record e { is_halted = false }

unfoldable pub get_elapsed_time_ms : ExecutionEngine → ℕ → ℕ
get_elapsed_time_ms e now = sub64 now e.timestamp_started

unfoldable pub is_ready_to_trade : ExecutionEngine → ℕ → Bool × ExecutionEngine
unfolding get_elapsed_time_ms
is_ready_to_trade e now =
    if e.trading_started
    then (true, e)
    else if leb min_quotes_required e.quotes_received
        && leb e.vwap_window_ms (get_elapsed_time_ms e now)
    then (true, record e { trading_started = true })
    else (false, e)

-- The tests of `shouldBuy` and `shouldSell` at a given average.
unfoldable pub buy_test : ExecutionEngine → ℕ → Trade → Bool
buy_test e vwap t =
    leb t.price (mul64 vwap (sub64 10000 e.band_bps) / 10000)
    && (leb (add64 e.cumulative_traded_quantity t.quantity) e.participation_cap
        && leb (add64 e.traded_quantity t.quantity) e.max_quantity)

unfoldable pub sell_test : ExecutionEngine → ℕ → Trade → Bool
sell_test e vwap t =
    leb (mul64 vwap (add64 10000 e.band_bps) / 10000) t.price && leb t.quantity e.traded_quantity

unfoldable pub should_buy : ExecutionEngine → VwapService → ℕ → Trade → Bool × VwapService
should_buy e s now t = let (vwap, s') = get_vwap s now in (buy_test e vwap t, s')

unfoldable pub should_sell : ExecutionEngine → VwapService → ℕ → Trade → Bool × VwapService
should_sell e s now t = let (vwap, s') = get_vwap s now in (sell_test e vwap t, s')

-- The order that each handler builds.
abbrev pub order : ExecutionEngine → OrderStatus → OrderSide → ℕ → Trade → NewOrder
order e status side ts t = record {
  client_order_id = e.client_order_id_counter;
  symbol = t.symbol;
  status = status;
  ts_ns = ts;
  trade_id = t.id;
  side = side;
  qty = t.quantity;
  limit_px = t.price;
}

-- The quantities and the counter after an accepted trade, and after a rejected one.
abbrev pub booked : ExecutionEngine → Trade → ExecutionEngine
booked e t = record e {
  traded_quantity = add64 e.traded_quantity t.quantity;
  cumulative_traded_quantity = add64 e.cumulative_traded_quantity t.quantity;
  client_order_id_counter = add64 e.client_order_id_counter 1;
}

abbrev pub passed : ExecutionEngine → Trade → ExecutionEngine
passed e t = record e {
  cumulative_traded_quantity = add64 e.cumulative_traded_quantity t.quantity;
  client_order_id_counter = add64 e.client_order_id_counter 1;
}

unfoldable pub handle_buy : ExecutionEngine → ℕ → Trade → NewOrder × ExecutionEngine
handle_buy e ts t = (order e accepted buy ts t, booked e t)

unfoldable pub handle_sell : ExecutionEngine → ℕ → Trade → NewOrder × ExecutionEngine
handle_sell e ts t = (order e accepted sell ts t, booked e t)

abbrev pub side_of : TradeAggressor → OrderSide
side_of TradeAggressor.buy = buy
side_of TradeAggressor.sell = sell
side_of TradeAggressor.unknown = sell

unfoldable pub handle_reject : ExecutionEngine → ℕ → Trade → NewOrder × ExecutionEngine
handle_reject e ts t = (order e rejected (side_of t.aggressor) ts t, passed e t)

abbrev pub Result : Type 0
Result = Option NewOrder × ExecutionEngine × VwapService

abbrev pub with_order : NewOrder × ExecutionEngine → VwapService → Result
with_order (o, e) s = (some o, e, s)

-- The last part of `handleTrade`: neither waiting nor halted.
unfoldable pub handle_side :
    TradeAggressor → ExecutionEngine → VwapService → Readings → Trade → Result
unfolding should_buy should_sell handle_buy handle_sell handle_reject
handle_side TradeAggressor.buy e s now t =
    let (go, s') = should_buy e s now.system_ms t in
    if go
    then with_order (handle_buy e now.steady_ns t) s'
    else with_order (handle_reject e now.steady_ns t) s'
handle_side TradeAggressor.sell e s now t =
    let (go, s') = should_sell e s now.system_ms t in
    if go
    then with_order (handle_sell e now.steady_ns t) s'
    else with_order (handle_reject e now.steady_ns t) s'
handle_side TradeAggressor.unknown e s now t = with_order (handle_reject e now.steady_ns t) s

unfoldable pub handle_trade : ExecutionEngine → VwapService → Readings → Trade → Result
unfolding is_ready_to_trade handle_side handle_reject
handle_trade e s now t =
    let (ready, e') = is_ready_to_trade e now.steady_ms in
    if not ready
    then with_order (handle_reject e' now.steady_ns t) s
    else if e'.is_halted
    then (none, (handle_reject e' now.steady_ns t).1, s)
    else handle_side t.aggressor e' s now t
