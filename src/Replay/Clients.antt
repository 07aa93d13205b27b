-- ===== src/Replay/Clients.antt =====
-- The two clients: `MarketClient` with the quotes of a file and `TradeClient` with its trades.
use slipstream_volume_aware.Prelude.{ℕ, ◌%◌, ◌^◌, Option}
use slipstream_volume_aware.Prelude.Outcome.{Outcome}
use slipstream_volume_aware.Codec.Gcmd
use slipstream_volume_aware.Codec.Gcmd.{unknown}
use slipstream_volume_aware.Codec.Gcmd.Serialise.{serialise_quote_message, serialise_trade_message}
use slipstream_volume_aware.Csv
use slipstream_volume_aware.Csv.{read_quote, read_trade}
use slipstream_volume_aware.Replay.{Environment, Client, get_wall_clock_now, send_serialised, run}

-- `bodyFromQuote`, at a reading of the clock. A `size_t` is cut to the field that it goes into.
unfoldable pub body_from_quote : Csv.Quote → ℕ → Gcmd.Quote
body_from_quote q now = record {
  symbol = q.symbol;
  timestamp_ns = now;
  bid_quantity = q.bid_quantity % 2 ^ 32;
  bid_price = q.bid_price;
  ask_quantity = q.ask_quantity % 2 ^ 32;
  ask_price = q.ask_price;
}

unfoldable pub body_from_trade : Csv.Trade → ℕ → Gcmd.Trade
body_from_trade t now = record {
  symbol = t.symbol;
  timestamp_ns = now;
  quantity = t.quantity % 2 ^ 32;
  price = t.price;
  aggressor = unknown;
  id = 0;
}

unfoldable pub send_quote : Environment → Client → Csv.Quote → Outcome (Unit {0}) × Client
unfolding get_wall_clock_now
send_quote env c q =
    let (now, c') = get_wall_clock_now env c in
    send_serialised env c' (serialise_quote_message c'.buffer (body_from_quote q now))

unfoldable pub send_trade : Environment → Client → Csv.Trade → Outcome (Unit {0}) × Client
unfolding get_wall_clock_now
send_trade env c t =
    let (now, c') = get_wall_clock_now env c in
    send_serialised env c' (serialise_trade_message c'.buffer (body_from_trade t now))

-- `MarketClient::run` and `TradeClient::run`.
unfoldable pub run_market :
    Environment → (fuel wait_fuel : ℕ) → Client → Option (Outcome (Unit {0}) × Client)
run_market env = run read_quote (λ q. q.timestamp) send_quote env

unfoldable pub run_trades :
    Environment → (fuel wait_fuel : ℕ) → Client → Option (Outcome (Unit {0}) × Client)
run_trades env = run read_trade (λ t. t.timestamp) send_trade env
