-- ===== src/Replay/Tests.antt =====
-- A file of a quote, a trade and a second quote 200 milliseconds after the first, on a clock that loses
-- a millisecond before each reading.
use slipstream_volume_aware.Prelude.{
  ℕ, ◌^◌, ◌≡◌, refl, List, [], ◌∷◌, replicate, false, some, arith,
}
use slipstream_volume_aware.Prelude.Words.{sub64}
use slipstream_volume_aware.Prelude.Outcome.{ok}
use slipstream_volume_aware.Csv
use slipstream_volume_aware.Csv.{CsvParser, read_quote, read_trade}
use slipstream_volume_aware.Csv.Fields.{joined}
use slipstream_volume_aware.Replay.{Environment, Client, Handed}
use slipstream_volume_aware.Replay.Clients.{run_market}
use slipstream_volume_aware.Replay.Waiting.{Shows, Ready}
use slipstream_volume_aware.Replay.Pace.{Yields, Replayed, row, no_more}
use slipstream_volume_aware.Replay.Played.{FitsQuote, FitsTrade, quote_message, run_market-Replayed}

abbrev steady_env : Environment
steady_env = record { lag = λ k. 1; wall = λ k. 1764000000000; accepts = λ k. ok tt }

steady_env-Ready : Ready steady_env
steady_env-Ready = record { accepts = λ k. refl; wall_in = λ k. omega arith }

abbrev time_at : ℕ → List ℕ
time_at d = b'0' ∷ b'9' ∷ b':' ∷ b'3' ∷ b'0' ∷ b':' ∷ b'1' ∷ b'5' ∷ b'.' ∷ d ∷ b'5' ∷ b'0' ∷ []

abbrev isin : List ℕ
isin = replicate 12 b'A'

abbrev quote_line : ℕ → List ℕ
quote_line d =
    joined (time_at d)
      ((b'Q' ∷ []) ∷ isin ∷ (b'1' ∷ []) ∷ (b'2' ∷ []) ∷ (b'3' ∷ []) ∷ (b'4' ∷ []) ∷ [])

abbrev trade_line : ℕ → List ℕ
trade_line d = joined (time_at d) ((b'T' ∷ []) ∷ isin ∷ [] ∷ [] ∷ (b'1' ∷ []) ∷ (b'2' ∷ []) ∷ [])

abbrev quote_at : ℕ → Csv.Quote
quote_at t = record {
  timestamp = t;
  symbol = isin;
  bid_price = 10000;
  bid_quantity = 2;
  ask_price = 30000;
  ask_quantity = 4;
}

abbrev trade_at : ℕ → Csv.Trade
trade_at t = record { timestamp = t; symbol = isin; price = 10000; quantity = 2 }

abbrev lines : CsvParser
lines = record {
  reached_end = false;
  file = quote_line b'1' ∷ trade_line b'1' ∷ quote_line b'3' ∷ [];
}

quote_at-FitsQuote : (t : ℕ) → FitsQuote (quote_at t)
quote_at-FitsQuote t = record {
  symbol_in = record { twelve = refl; bytes = omega arith };
  bid_price_in = omega arith;
  ask_price_in = omega arith;
}

trade_at-FitsTrade : (t : ℕ) → FitsTrade (trade_at t)
trade_at-FitsTrade t = record {
  symbol_in = record { twelve = refl; bytes = omega arith };
  price_in = omega arith;
}

lines-quotes : Yields read_quote FitsQuote lines (quote_at 34215150 ∷ quote_at 34215350 ∷ [])
unfolding read_quote Csv.read_loop Csv.read_line Csv.quote_fields Csv.cut Csv.get_field Csv.digit
    Csv.parse_timestamp Csv.is_letter Csv.copy_symbol Csv.parse_price Csv.price_loop Csv.pad_price
    Csv.parse_u_int Csv.digits_value
lines-quotes =
    row (quote_at 34215150) refl refl (quote_at-FitsQuote 34215150)
      (row (quote_at 34215350) refl refl (quote_at-FitsQuote 34215350) (no_more refl refl))

lines-trades : Yields read_trade FitsTrade lines (trade_at 34215150 ∷ [])
unfolding read_trade Csv.read_loop Csv.read_line Csv.trade_fields Csv.cut Csv.get_field
    Csv.skip_commas Csv.peek_loop Csv.digit Csv.parse_timestamp Csv.is_letter Csv.copy_symbol
    Csv.parse_price Csv.price_loop Csv.pad_price Csv.parse_u_int Csv.digits_value
lines-trades = row (trade_at 34215150) refl refl (trade_at-FitsTrade 34215150) (no_more refl refl)

abbrev client : Client
client = record {
  parser = lines;
  buffer = replicate 64 0;
  last_sent_heartbeat_ms = 0;
  steady = 5000;
  readings = 0;
  walls = 0;
  handed = [];
}

run_market-Replayed_example :
    (c' : Client) × (h : Handed) × (hs : List Handed) × (now : ℕ) × (run_market steady_env 2
        (2 ^ 64)
        client
      ≡ some (ok tt, c'))
    × (c'.handed ≡ h ∷ hs)
    × Shows (quote_message (quote_at 34215150) now) h
    × Replayed (λ r. r.timestamp) quote_message (sub64 h.at_ms 34215150) (quote_at 34215350 ∷ []) hs
run_market-Replayed_example =
    run_market-Replayed steady_env steady_env-Ready 2 (2 ^ 64) client (quote_at 34215150)
      (quote_at 34215350 ∷ []) (omega arith) (omega arith) (omega arith) refl lines-quotes
