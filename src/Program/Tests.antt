-- ===== src/Program/Tests.antt =====
-- A quote and a trade that a buyer started.
use slipstream_volume_aware.Prelude.{
  Bool, some, ◌≡◌, ◌≤◌, refl, List, [], ◌∷◌, replicate, true, false, arith,
}
use slipstream_volume_aware.Prelude.Outcome.{ok}
use slipstream_volume_aware.Codec.Gcmd.{Quote, Trade, TradeAggressor, MdMessage}
use slipstream_volume_aware.Engine.{Readings}
use slipstream_volume_aware.Engine.Limits.{NoSell}
use slipstream_volume_aware.Dispatch.{Services, run}
use slipstream_volume_aware.Dispatch.Counts.{handlers}
use slipstream_volume_aware.Sockets.{Accepted, accept_failed, accepted, eintr}
use slipstream_volume_aware.Program.Listening.{Endpoint, connections, Reaches, connections-Reaches}
use slipstream_volume_aware.Program.{Options, start, start-run}

abbrev options : Options
options = record {
  symbol = replicate 12 65;
  max_quantity = 100;
  participation_cap = 1000;
  vwap_window_ms = 5000;
  band_bps = 50;
}

abbrev quote : Quote
quote = record {
  symbol = replicate 12 65;
  timestamp_ns = 1;
  bid_quantity = 2;
  bid_price = 3;
  ask_quantity = 4;
  ask_price = 5;
}

abbrev trade : Trade
trade = record {
  symbol = replicate 12 65;
  timestamp_ns = 2;
  quantity = 30;
  price = 4;
  aggressor = TradeAggressor.buy;
  id = 7;
}

abbrev readings : Readings
readings = record { steady_ms = 9000; steady_ns = 9_000_000; system_ms = 9500 }

abbrev messages : List (Readings × MdMessage)
messages = (readings, MdMessage.quote quote) ∷ (readings, MdMessage.trade trade) ∷ []

trade-NoSell : NoSell trade
trade-NoSell e = absurd (cc e)

start-run_example :
    (s s' : Services) × (start options quote trade 0 ≡ ok s)
    × (run handlers s messages ≡ ok s')
    × (s'.engine.cumulative_traded_quantity ≡ 30)
    × (s'.engine.traded_quantity ≤ 30)
    × (s'.engine.traded_quantity ≤ 100)
start-run_example = start-run options quote trade 0 messages refl (omega arith) (trade-NoSell, tt)

abbrev services : Services
services = record {
  book = record { symbol = replicate 12 65; latest_quote = quote; quotes_received = 12 };
  engine = record {
    quotes_received = 12;
    trading_started = true;
    is_halted = false;
    max_quantity = 100;
    participation_cap = 1000;
    vwap_window_ms = 5000;
    band_bps = 50;
    timestamp_started = 0;
    traded_quantity = 40;
    cumulative_traded_quantity = 60;
    client_order_id_counter = 3;
  };
  vwap = record {
    total_priced_quantity = 0;
    total_quantity = 0;
    rolling_window_size_ms = 5000;
    trades = [];
    head = 0;
    tail = 0;
  };
  sent = [];
}

abbrev unsided : List (Readings × MdMessage)
unsided =
    (readings, MdMessage.trade (record trade { aggressor = TradeAggressor.unknown }))
    ∷ (readings, MdMessage.quote quote)
    ∷ (
      readings,
      MdMessage.trade (record trade { aggressor = TradeAggressor.unknown; quantity = 1 }),
    )
    ∷ []

-- An interrupted `accept` in one, an address in use at the other.
abbrev endpoint : Bool → List Accepted → Endpoint
endpoint bound accepts = record {
  address = true;
  socket = some 7;
  bound = bound;
  listening = true;
  accepts = accepts;
}

connections-Reaches_example : Reaches (0 ∷ 1 ∷ 2 ∷ []) (
    connections
      (0 ∷ 1 ∷ 2 ∷ [])
      (endpoint true (accept_failed eintr ∷ accepted 9 ∷ []))
      (endpoint false []))
connections-Reaches_example =
    connections-Reaches (0 ∷ 1 ∷ 2 ∷ []) (endpoint true (accept_failed eintr ∷ accepted 9 ∷ []))
      (endpoint false [])
