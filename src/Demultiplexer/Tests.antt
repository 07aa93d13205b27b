-- ===== src/Demultiplexer/Tests.antt =====
-- A queue that is a list, with two quotes, and the destructor.
use slipstream_volume_aware.Prelude.{
  ℕ, ◌≡◌, refl, List, [], ◌∷◌, ◌++◌, replicate, true, false, arith,
}
use slipstream_volume_aware.Prelude.Outcome.{ok, ◌>>=◌}
use slipstream_volume_aware.Codec.Gcmd.{MdMessage}
use slipstream_volume_aware.Engine
use slipstream_volume_aware.Engine.{Readings}
use slipstream_volume_aware.Dispatch
use slipstream_volume_aware.Dispatch.{Services, master_on_message}
use slipstream_volume_aware.Dispatch.Counts.{handlers}
use slipstream_volume_aware.Demultiplexer.{waiting, testing, Tick, MessageDeMultiplexer, run}
use slipstream_volume_aware.Demultiplexer.Order.{result, messages, run-Between}
use slipstream_volume_aware.Demultiplexer.Drain.{run-handles_all}
use slipstream_volume_aware.Demultiplexer.ListQueue.{list_queue}

abbrev quote_for : ℕ → MdMessage
quote_for c = MdMessage.quote record {
  symbol = replicate 12 c;
  timestamp_ns = 1;
  bid_quantity = 2;
  bid_price = 3;
  ask_quantity = 4;
  ask_price = 5;
}

abbrev readings : Readings
readings = record { steady_ms = 9000; steady_ns = 9_000_000; system_ms = 9500 }

-- Services to begin with.
abbrev services : Services
services = record {
  book = record {
    symbol = replicate 12 65;
    latest_quote = record {
      symbol = replicate 12 0;
      timestamp_ns = 0;
      bid_quantity = 0;
      bid_price = 0;
      ask_quantity = 0;
      ask_price = 0;
    };
    quotes_received = 0;
  };
  engine = Engine.init 100 1000 5000 50 0;
  vwap = record {
    total_priced_quantity = 0;
    total_quantity = 0;
    rolling_window_size_ms = 5000;
    trades = [];
    head = 0;
    tail = 0;
  };
  sent = [];
}

abbrev bringing : List MdMessage → Tick
bringing ms = record { arrivals = ms; destroyed = false; now = readings }

abbrev destroying : Tick
destroying = record { arrivals = []; destroyed = true; now = readings }

abbrev ticks : List Tick
ticks = bringing (quote_for 66 ∷ []) ∷ bringing [] ∷ bringing [] ∷ destroying ∷ []

abbrev loaded : MessageDeMultiplexer (List MdMessage)
loaded = record {
  message_queue = quote_for 65 ∷ [];
  services = services;
  should_stop = false;
  position = testing;
}

run-Between_example :
    (done : List (Readings × MdMessage)) × (messages done
        ++ (run list_queue handlers ticks loaded).message_queue
      ≡ quote_for 65 ∷ quote_for 66 ∷ [])
    × (result (run list_queue handlers ticks loaded)
        ≡ (ok services >>= (λ s. Dispatch.run handlers s done)))
run-Between_example = run-Between list_queue handlers ticks loaded

abbrev idle : MessageDeMultiplexer (List MdMessage)
idle = record { message_queue = []; services = services; should_stop = false; position = waiting }

abbrev quiet_ticks : List Tick
quiet_ticks = replicate 6 (bringing [])

run-handles_all_example :
    let d' =
      run list_queue handlers quiet_ticks
        (run list_queue handlers (bringing (quote_for 66 ∷ []) ∷ bringing [] ∷ []) loaded) in
    (done : List (Readings × MdMessage)) × (messages done ≡ quote_for 65 ∷ quote_for 66 ∷ [])
    × (Dispatch.run handlers services done ≡ ok d'.services)
    × (d'.message_queue ≡ [])
run-handles_all_example =
    run-handles_all list_queue (bringing (quote_for 66 ∷ []) ∷ bringing [] ∷ []) quiet_ticks loaded
      tt refl (refl, (refl, tt)) (refl, (refl, (refl, (refl, (refl, (refl, tt))))))
      (refl, (refl, (refl, (refl, (refl, (refl, tt)))))) (omega arith)
