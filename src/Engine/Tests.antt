-- ===== src/Engine/Tests.antt =====
-- Runs of the engine with an average of 100.0000 and a band of 50, which it takes for 0.5 percent.
use slipstream_volume_aware.Prelude.{ℕ, ◌≡◌, refl, [], ◌∷◌, true, false, some, arith}
use slipstream_volume_aware.Codec.Gcmd.{Trade, TradeAggressor}
use slipstream_volume_aware.Codec.Oe.{accepted, buy}
use slipstream_volume_aware.Vwap.{VwapService, get_vwap, remove_old_trades, remove_loop, loop_test}
use slipstream_volume_aware.Engine.{
  ExecutionEngine, Readings, on_quote_received, buy_test, order, handle_trade,
}
use slipstream_volume_aware.Engine.Limits.{begin, trade, NoSell, Session-capped, wide_band_buys}

abbrev trade_like : TradeAggressor → ℕ → ℕ → Trade
trade_like a q p = record {
  symbol = [];
  timestamp_ns = 0;
  quantity = q;
  price = p;
  aggressor = a;
  id = 7;
}

abbrev engine : ExecutionEngine
engine = record {
  quotes_received = 12;
  trading_started = true;
  is_halted = false;
  max_quantity = 100;
  participation_cap = 1000;
  vwap_window_ms = 5000;
  band_bps = 50;
  timestamp_started = 0;
  traded_quantity = 40;
  cumulative_traded_quantity = 60;
  client_order_id_counter = 3;
}

abbrev readings : Readings
readings = record { steady_ms = 9000; steady_ns = 9_000_000; system_ms = 9500 }

-- One trade of 10 at 100.0000 is in the window.
service : VwapService
service = record {
  total_priced_quantity = 10_000_000;
  total_quantity = 10;
  rolling_window_size_ms = 5000;
  trades = record (trade_like TradeAggressor.buy 10 1_000_000) { timestamp_ns = 9000 } ∷ [];
  head = 1;
  tail = 0;
}

average : (get_vwap service 9500).0 ≡ 1_000_000
unfolding get_vwap remove_old_trades remove_loop loop_test service
average = refl

bought :
    (handle_trade engine service readings (trade_like TradeAggressor.buy 30 990_000)).0
    ≡ some (order engine accepted buy 9_000_000 (trade_like TradeAggressor.buy 30 990_000))
unfolding handle_trade get_vwap remove_old_trades remove_loop loop_test service buy_test
bought = refl

abbrev halted : ExecutionEngine
halted = record engine { is_halted = true }

abbrev at_max : ExecutionEngine
at_max = record engine { traded_quantity = 100 }

-- A quote, a halt, a resumption and a trade that is turned down, as the engine still waits.
abbrev new_engine : ExecutionEngine
new_engine = record engine {
  quotes_received = 0;
  trading_started = false;
  traded_quantity = 0;
  cumulative_traded_quantity = 0;
  client_order_id_counter = 0;
}

buyer-NoSell : NoSell (trade_like TradeAggressor.buy 30 990_000)
buyer-NoSell = λ e. cc

after : ExecutionEngine
after =
    (handle_trade (on_quote_received new_engine 5) service readings
      (trade_like TradeAggressor.buy 30 990_000)).1

abbrev capped : ExecutionEngine
capped = record engine { participation_cap = 60 }

Session-capped_example :
    let t = trade_like TradeAggressor.buy 30 990_000 in
    let f = (handle_trade capped service readings t).1 in
    (f.traded_quantity ≡ 40) × (f.cumulative_traded_quantity ≡ 90) × (f.participation_cap ≡ 60)
Session-capped_example = Session-capped capped 30 (omega arith) (omega arith) (
    trade service readings (trade_like TradeAggressor.buy 30 990_000) (buyer-NoSell, omega arith)
      refl begin)

-- A band of 10100, which is what `--band-bps 101` is passed on as: a price of 900.0000 is bought at an
-- average of 100.0000.
wide_band_buys_example :
    buy_test
      (record engine { band_bps = 10100 })
      1_000_000
      (trade_like TradeAggressor.buy 30 9_000_000)
    ≡ true
wide_band_buys_example =
    wide_band_buys (record engine { band_bps = 10100 }) 1_000_000
      (trade_like TradeAggressor.buy 30 9_000_000) (omega arith) (omega arith) (omega arith)
      (omega arith) (omega arith) (omega arith) (omega arith)
