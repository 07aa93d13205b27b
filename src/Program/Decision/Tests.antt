-- ===== src/Program/Decision/Tests.antt =====
-- Ten quotes and a trade, and then a buyer's trade below the average.
use slipstream_volume_aware.Prelude.{ℕ, ◌≡◌, refl, List, [], ◌∷◌, ◌++◌, replicate, arith}
use slipstream_volume_aware.Prelude.Outcome.{ok, err}
use slipstream_volume_aware.Codec.Gcmd.{Quote, Trade, TradeAggressor, MdMessage}
use slipstream_volume_aware.Engine
use slipstream_volume_aware.Engine.{Readings}
use slipstream_volume_aware.Vwap
use slipstream_volume_aware.Vwap.Average
use slipstream_volume_aware.Vwap.Bag
use slipstream_volume_aware.Vwap.Freshness
use slipstream_volume_aware.Vwap.Window
use slipstream_volume_aware.Dispatch
use slipstream_volume_aware.Dispatch.{Services, master_on_message, run}
use slipstream_volume_aware.Dispatch.Counts.{handlers}
use slipstream_volume_aware.Program.{Options, new_services}
use slipstream_volume_aware.Program.Decision.Bought.{Bought, run-Bought}
use slipstream_volume_aware.Program.Decision.Sold.{Sold, run-Sold}

abbrev options : Options
options = record {
  symbol = replicate 12 65;
  max_quantity = 100;
  participation_cap = 1000;
  vwap_window_ms = 5000;
  band_bps = 50;
}

abbrev quote : Quote
quote = record {
  symbol = replicate 12 66;
  timestamp_ns = 1;
  bid_quantity = 2;
  bid_price = 3;
  ask_quantity = 4;
  ask_price = 5;
}

abbrev earlier : Trade
earlier = record {
  symbol = replicate 12 65;
  timestamp_ns = 6500;
  quantity = 30;
  price = 1_000_000;
  aggressor = TradeAggressor.unknown;
  id = 1;
}

abbrev cheap : Trade
cheap = record earlier {
  timestamp_ns = 7100;
  quantity = 10;
  price = 900_000;
  aggressor = TradeAggressor.buy;
}

abbrev at : ℕ → Readings
at ms = record { steady_ms = ms; steady_ns = ms; system_ms = ms }

abbrev messages : List (Readings × MdMessage)
messages =
    replicate 10 (at 1000, MdMessage.quote quote) ++ ((at 7000, MdMessage.trade earlier) ∷ [])

abbrev start : Services
start = new_services options quote earlier 0

abbrev services : Services
services = elim (run handlers start messages) [ ok s ↦ s | err e ↦ start ]

run-Bought_example :
    (s' : Services) × (master_on_message handlers services (at 7200) (MdMessage.trade cheap)
      ≡ ok s')
    × Bought options 30 975_000 (at 7200) cheap services s'
unfolding run master_on_message Dispatch.on_trade Dispatch.on_quote Engine.is_ready_to_trade
    Engine.handle_trade Engine.on_quote_received Engine.init Vwap.handle_trade Vwap.full_test
    Vwap.remove_old_trades Vwap.remove_loop Vwap.loop_test Vwap.init Freshness.keep Bag.average
    Bag.quantity Bag.young Bag.value Window.quantity_sum Average.exact_sum
run-Bought_example =
    run-Bought options quote earlier 0 messages services (at 7200) cheap refl (omega arith)
      (refl, refl) refl (omega arith) (omega arith) (omega arith)

abbrev sold : Trade
sold = record cheap { aggressor = TradeAggressor.sell }

run-Sold_example :
    (s' : Services) × (master_on_message handlers services (at 7200) (MdMessage.trade sold) ≡ ok s')
    × Sold options 975_000 (at 7200) sold services s'
unfolding run master_on_message Dispatch.on_trade Dispatch.on_quote Engine.is_ready_to_trade
    Engine.handle_trade Engine.on_quote_received Engine.init Vwap.handle_trade Vwap.full_test
    Vwap.remove_old_trades Vwap.remove_loop Vwap.loop_test Vwap.init Freshness.keep Bag.average
    Bag.quantity Bag.young Bag.value Window.quantity_sum Average.exact_sum
run-Sold_example =
    run-Sold options quote earlier 0 messages services (at 7200) sold refl (omega arith)
      (refl, refl) refl (omega arith) (omega arith) (omega arith)
