-- ===== src/Dispatch/Tests.antt =====
-- A quote for the book's symbol and one for another.
use slipstream_volume_aware.Prelude.{ℕ, ◌+◌, ◌%◌, ◌^◌, ◌≡◌, refl, List, [], ◌∷◌, replicate, arith}
use slipstream_volume_aware.Prelude.Outcome.{ok}
use slipstream_volume_aware.Codec.Gcmd.{Quote, MdMessage}
use slipstream_volume_aware.Engine
use slipstream_volume_aware.Engine.{Readings}
use slipstream_volume_aware.Dispatch.{Services, set_quote, same_symbol, run}
use slipstream_volume_aware.Dispatch.Counts.{handlers, quotes_seen, quote_count, run-counts}

abbrev quote_for : ℕ → Quote
quote_for c = record {
  symbol = replicate 12 c;
  timestamp_ns = 1;
  bid_quantity = 2;
  bid_price = 3;
  ask_quantity = 4;
  ask_price = 5;
}

abbrev services : Services
services = record {
  book = record { symbol = replicate 12 65; latest_quote = quote_for 0; quotes_received = 0 };
  engine = Engine.init 100 1000 5000 50 0;
  vwap = record {
    total_priced_quantity = 0;
    total_quantity = 0;
    rolling_window_size_ms = 5000;
    trades = [];
    head = 0;
    tail = 0;
  };
  sent = [];
}

abbrev readings : Readings
readings = record { steady_ms = 9000; steady_ns = 9_000_000; system_ms = 9500 }

abbrev messages : List (Readings × MdMessage)
messages =
    (readings, MdMessage.quote (quote_for 65)) ∷ (readings, MdMessage.quote (quote_for 66)) ∷ []

-- The book counts one of the two.
book_counts : (quotes_seen services.book messages).quotes_received ≡ 1
unfolding set_quote same_symbol
book_counts = refl

run-counts_example :
    (s' : Services) × (run handlers services messages ≡ ok s')
    × (s'.book ≡ quotes_seen services.book messages)
    × (s'.engine.quotes_received
        ≡ (services.engine.quotes_received + quote_count messages) % 2 ^ 32)
run-counts_example = run-counts services messages (unfold Engine.init in omega arith)
