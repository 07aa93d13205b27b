-- ===== src/System/Orders/Tests.antt =====
-- A quote and two trades, one with a buyer, and the two orders that answer them.
use slipstream_volume_aware.Prelude.{ℕ, ◌≡◌, refl, List, [], ◌∷◌, replicate, false, arith, map}
use slipstream_volume_aware.Prelude.Outcome.{ok}
use slipstream_volume_aware.Codec.Gcmd
use slipstream_volume_aware.Codec.Gcmd.{MdMessage, TradeAggressor}
use slipstream_volume_aware.Codec.Oe.{NewOrder, OrderSide, rejected}
use slipstream_volume_aware.Concurrency.Spsc.{Represents}
use slipstream_volume_aware.Engine
use slipstream_volume_aware.Engine.{Readings}
use slipstream_volume_aware.Vwap
use slipstream_volume_aware.Dispatch
use slipstream_volume_aware.Dispatch.{Services}
use slipstream_volume_aware.Dispatch.Counts.{handlers}
use slipstream_volume_aware.Dispatch.Orders.{Ordered}
use slipstream_volume_aware.Sender
use slipstream_volume_aware.Sender.{Message, order, OrderMessageSender, Round, running}
use slipstream_volume_aware.Sender.Frames.{AllCarry}
use slipstream_volume_aware.Program
use slipstream_volume_aware.Program.{Options}
use slipstream_volume_aware.System.Orders.{run-frames}

abbrev options : Options
options = record {
  symbol = replicate 12 65;
  max_quantity = 100;
  participation_cap = 1000;
  vwap_window_ms = 5000;
  band_bps = 50;
}

abbrev any_quote : Gcmd.Quote
any_quote = record {
  symbol = replicate 12 0;
  timestamp_ns = 0;
  bid_quantity = 0;
  bid_price = 0;
  ask_quantity = 0;
  ask_price = 0;
}

abbrev trade : TradeAggressor → ℕ → Gcmd.Trade
trade a n = record {
  symbol = replicate 12 65;
  timestamp_ns = 1000;
  quantity = n;
  price = 20000;
  aggressor = a;
  id = 3;
}

abbrev clock : Readings
clock = record { steady_ms = 9; steady_ns = 9_000_000; system_ms = 9500 }

abbrev messages : List (Readings × MdMessage)
messages =
    (clock, MdMessage.trade (trade TradeAggressor.buy 5))
    ∷ (clock, MdMessage.quote any_quote)
    ∷ (clock, MdMessage.trade (trade TradeAggressor.unknown 7))
    ∷ []

abbrev answer : ℕ → OrderSide → ℕ → NewOrder
answer k side n = record {
  client_order_id = k;
  symbol = replicate 12 65;
  status = rejected;
  ts_ns = 9_000_000;
  trade_id = 3;
  side = side;
  qty = n;
  limit_px = 20000;
}

abbrev answers : List NewOrder
answers = answer 0 OrderSide.buy 5 ∷ answer 1 OrderSide.sell 7 ∷ []

abbrev pushing : List Message → Round
pushing ms = record { told_to_stop = false; pushes = ms; accepts = ok tt }

abbrev start : Services
start = Program.new_services options any_quote (trade TradeAggressor.buy 0) 0

-- A round with nothing to do, one in which both orders come, and two more.
run-frames_example :
    (s s' : Services) × (sender : OrderMessageSender) × (Program.start options any_quote
        (trade TradeAggressor.buy 0)
        0
      ≡ ok s)
    × (Dispatch.run handlers s messages ≡ ok s')
    × Ordered 0 messages s'.sent
    × (Sender.run
          (Sender.init (order (answer 0 OrderSide.sell 0)) (replicate 54 0))
          (pushing [] ∷ pushing (map order answers) ∷ pushing [] ∷ pushing [] ∷ [])
        ≡ (running, sender))
    × AllCarry (map order s'.sent) sender.handed
    × Represents 1024 sender.message_queue []
unfolding Dispatch.run Dispatch.master_on_message Dispatch.on_trade Dispatch.on_quote
    Engine.handle_trade Engine.init Engine.on_quote_received Vwap.handle_trade Vwap.full_test
    Vwap.remove_old_trades Vwap.remove_loop Vwap.loop_test Vwap.init Vwap.add_trade
run-frames_example =
    run-frames options any_quote (trade TradeAggressor.buy 0) 0 (order (answer 0 OrderSide.sell 0))
      (replicate 54 0) messages (pushing [] ∷ pushing (map order answers) ∷ [])
      (pushing [] ∷ pushing [] ∷ []) refl refl (omega arith)
      (record { not_told = refl; accepts = refl }, (record { not_told = refl; accepts = refl }, tt))
      (record { not_told = refl; accepts = refl }, (record { not_told = refl; accepts = refl }, tt))
      (refl, (refl, tt)) (omega arith) refl (omega arith)
