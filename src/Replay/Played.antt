-- ===== src/Replay/Played.antt =====
-- The two clients on a file whose rows fit their messages.
use slipstream_volume_aware.Prelude.{
  ℕ, ◌+◌, ◌%◌, ◌^◌, ◌≤◌, ◌<◌, ◌≡◌, List, [], ◌∷◌, length, some, arith,
}
use slipstream_volume_aware.Prelude.Words.{IsU64, sub64}
use slipstream_volume_aware.Prelude.Outcome.{ok}
use slipstream_volume_aware.Codec.Gcmd.{MdMessage, IsSymbol, IsQuote, IsTrade, unknown}
use slipstream_volume_aware.Codec.Gcmd.Serialise.{serialise_quote_message, serialise_trade_message}
use slipstream_volume_aware.Codec.Gcmd.RoundTrip.{quote_round_trip, trade_round_trip}
use slipstream_volume_aware.Csv
use slipstream_volume_aware.Csv.{CsvParser, read_quote, read_trade}
use slipstream_volume_aware.Replay.{Environment, Client, Handed, get_wall_clock_now}
use slipstream_volume_aware.Replay.Clients.{
  body_from_quote, body_from_trade, send_quote, send_trade, run_market, run_trades,
}
use slipstream_volume_aware.Replay.Waiting.{Shows, SentOne, Ready, send_serialised-SentOne}
use slipstream_volume_aware.Replay.Pace.{Yields, Replayed, run-Replayed}

-- A symbol of twelve bytes, and prices in 64 bits.
pub record FitsQuote (q : Csv.Quote) : Type 0 where
  pub symbol_in : IsSymbol q.symbol
  pub bid_price_in : IsU64 q.bid_price
  pub ask_price_in : IsU64 q.ask_price

pub record FitsTrade (t : Csv.Trade) : Type 0 where
  pub symbol_in : IsSymbol t.symbol
  pub price_in : IsU64 t.price

body_from_quote-IsQuote :
    (q : Csv.Quote) (now : ℕ) → FitsQuote q → IsU64 now → IsQuote (body_from_quote q now)
unfolding body_from_quote
body_from_quote-IsQuote q now f h = record {
  symbol_in = f.symbol_in;
  timestamp_in = h;
  bid_quantity_in = omega arith;
  bid_price_in = f.bid_price_in;
  ask_quantity_in = omega arith;
  ask_price_in = f.ask_price_in;
}

body_from_trade-IsTrade :
    (t : Csv.Trade) (now : ℕ) → FitsTrade t → IsU64 now → IsTrade (body_from_trade t now)
unfolding body_from_trade
body_from_trade-IsTrade t now f h = record {
  symbol_in = f.symbol_in;
  timestamp_in = h;
  quantity_in = omega arith;
  price_in = f.price_in;
  id_in = omega arith;
}

-- The message that a row is to become: its own fields, the quantities cut to 32 bits.
abbrev pub quote_message : Csv.Quote → ℕ → MdMessage
quote_message q now = MdMessage.quote record {
  symbol = q.symbol;
  timestamp_ns = now;
  bid_quantity = q.bid_quantity % 2 ^ 32;
  bid_price = q.bid_price;
  ask_quantity = q.ask_quantity % 2 ^ 32;
  ask_price = q.ask_price;
}

abbrev pub trade_message : Csv.Trade → ℕ → MdMessage
trade_message t now = MdMessage.trade record {
  symbol = t.symbol;
  timestamp_ns = now;
  quantity = t.quantity % 2 ^ 32;
  price = t.price;
  aggressor = unknown;
  id = 0;
}

-- A reading of the clock before does not matter.
after_wall :
    (m : MdMessage) (c c' : Client)
    → SentOne m (record c { walls = c.walls + 1 }) c'
    → SentOne m c c'
after_wall m c c' s = record {
  one = s.one;
  shows = s.shows;
  handed = s.handed;
  at_time = s.at_time;
  on_time = s.on_time;
  same = record { parser = s.same.parser; room = s.same.room };
}

module _ (env : Environment) (ready : Ready env) where
  send_quote-SentOne :
      (c : Client) (q : Csv.Quote)
      → 48 ≤ length c.buffer
      → FitsQuote q
      → (c' : Client) × (now : ℕ) × (send_quote env c q ≡ (ok tt, c'))
        × SentOne (quote_message q now) c c'
  unfolding send_quote get_wall_clock_now body_from_quote
  send_quote-SentOne c q space fits =
      let now = env.wall c.walls in
      let (c', sends, one) =
        send_serialised-SentOne env ready (record c { walls = c.walls + 1 }) 48
          (quote_message q now) (serialise_quote_message c.buffer (body_from_quote q now))
          (quote_round_trip c.buffer (body_from_quote q now) space
            (body_from_quote-IsQuote q now fits (ready.wall_in c.walls))) in
      (c', now, sends, after_wall (quote_message q now) c c' one)

  send_trade-SentOne :
      (c : Client) (t : Csv.Trade)
      → 45 ≤ length c.buffer
      → FitsTrade t
      → (c' : Client) × (now : ℕ) × (send_trade env c t ≡ (ok tt, c'))
        × SentOne (trade_message t now) c c'
  unfolding send_trade get_wall_clock_now body_from_trade
  send_trade-SentOne c t space fits =
      let now = env.wall c.walls in
      let (c', sends, one) =
        send_serialised-SentOne env ready (record c { walls = c.walls + 1 }) 45
          (trade_message t now) (serialise_trade_message c.buffer (body_from_trade t now))
          (trade_round_trip c.buffer (body_from_trade t now) space
            (body_from_trade-IsTrade t now fits (ready.wall_in c.walls))) in
      (c', now, sends, after_wall (trade_message t now) c c' one)

  -- `MarketClient::run` ends by itself at the end of a file whose quotes fit, with a buffer of 48
  -- bytes or more and a connection that takes all it is given, for any delays of the clock; 2 ^ 64
  -- rounds are enough for each wait. It has then handed over every quote of the file once and in the
  -- file's order, each as one frame that a reader takes for the quote, each after the first no earlier
  -- than its time in the file says (modulo 2 ^ 64 milliseconds), counted from the moment the first
  -- was sent, and between them nothing but heartbeats.
  pub run_market-Replayed :
      (fuel wait_fuel : ℕ) (c : Client) (q : Csv.Quote) (qs : List Csv.Quote)
      → length qs < fuel
      → 2 ^ 64 ≤ wait_fuel
      → 48 ≤ length c.buffer
      → c.handed ≡ []
      → Yields read_quote FitsQuote c.parser (q ∷ qs)
      → (c' : Client) × (h : Handed) × (hs : List Handed) × (now : ℕ) × (run_market env fuel
            wait_fuel c
          ≡ some (ok tt, c'))
        × (c'.handed ≡ h ∷ hs)
        × Shows (quote_message q now) h
        × Replayed (λ r. r.timestamp) quote_message (sub64 h.at_ms q.timestamp) qs hs
  unfolding run_market
  run_market-Replayed =
      run-Replayed read_quote (λ q. q.timestamp) send_quote env ready quote_message FitsQuote 48
        (omega arith) send_quote-SentOne

  -- `TradeClient::run` does the same with the trades of a file and a buffer of 45 bytes or more.
  pub run_trades-Replayed :
      (fuel wait_fuel : ℕ) (c : Client) (t : Csv.Trade) (ts : List Csv.Trade)
      → length ts < fuel
      → 2 ^ 64 ≤ wait_fuel
      → 45 ≤ length c.buffer
      → c.handed ≡ []
      → Yields read_trade FitsTrade c.parser (t ∷ ts)
      → (c' : Client) × (h : Handed) × (hs : List Handed) × (now : ℕ) × (run_trades env fuel
            wait_fuel c
          ≡ some (ok tt, c'))
        × (c'.handed ≡ h ∷ hs)
        × Shows (trade_message t now) h
        × Replayed (λ r. r.timestamp) trade_message (sub64 h.at_ms t.timestamp) ts hs
  unfolding run_trades
  run_trades-Replayed =
      run-Replayed read_trade (λ t. t.timestamp) send_trade env ready trade_message FitsTrade 45
        (omega arith) send_trade-SentOne
