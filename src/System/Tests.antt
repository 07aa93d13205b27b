-- ===== src/System/Tests.antt =====
-- A file of one quote and a file of two trades, and the queue of main that is a list.
use slipstream_volume_aware.Prelude.{
  ℕ, zero, suc, ◌%◌, ◌^◌, ◌<◌, ◌≡◌, refl, List, [], ◌∷◌, ◌++◌, All, replicate, false, arith,
}
use slipstream_volume_aware.Prelude.Outcome.{ok}
use slipstream_volume_aware.Codec.Gcmd
use slipstream_volume_aware.Codec.Gcmd.{MdMessage, unknown}
use slipstream_volume_aware.Csv
use slipstream_volume_aware.Dispatch
use slipstream_volume_aware.Dispatch.{Services}
use slipstream_volume_aware.Engine
use slipstream_volume_aware.Vwap
use slipstream_volume_aware.Dispatch.Counts.{handlers}
use slipstream_volume_aware.Demultiplexer
use slipstream_volume_aware.Demultiplexer.{Tick, run}
use slipstream_volume_aware.Demultiplexer.Stop.{Still}
use slipstream_volume_aware.Demultiplexer.Drain.{Untold}
use slipstream_volume_aware.Demultiplexer.ListQueue.{list_queue}
use slipstream_volume_aware.Replay.Played.{quote_message, trade_message}
use slipstream_volume_aware.Pipeline.{Told, nothing_told, beat_told, row_told}
use slipstream_volume_aware.Program
use slipstream_volume_aware.Program.{Options}
use slipstream_volume_aware.Codec.Oe.{NewOrder, rejected, sell}
use slipstream_volume_aware.Dispatch.Fits.{InReading}
use slipstream_volume_aware.Demultiplexer.Order.{all_arrivals}
use slipstream_volume_aware.Demultiplexer.Keeps.{Clocked}
use slipstream_volume_aware.Sender
use slipstream_volume_aware.Sender.{Message, order, OrderMessageSender, Round, running}
use slipstream_volume_aware.Sender.Served.{Works}
use slipstream_volume_aware.System.Wire.{AnswerFrames, run-AnswerFrames}
use slipstream_volume_aware.System.{Mixed, none_left, from_left, from_right, Booked, Answers}
use slipstream_volume_aware.System.Files.{run-files}

abbrev options : Options
options = record {
  symbol = replicate 12 65;
  max_quantity = 100;
  participation_cap = 1000;
  vwap_window_ms = 5000;
  band_bps = 50;
}

abbrev quote : Csv.Quote
quote = record {
  timestamp = 34215150;
  symbol = replicate 12 65;
  bid_price = 10000;
  bid_quantity = 2;
  ask_price = 30000;
  ask_quantity = 4;
}

abbrev trade : ℕ → Csv.Trade
trade n = record { timestamp = 34215150; symbol = replicate 12 65; price = 20000; quantity = n }

-- What the objects leave indeterminate.
abbrev any_quote : Gcmd.Quote
any_quote = record {
  symbol = replicate 12 0;
  timestamp_ns = 0;
  bid_quantity = 0;
  bid_price = 0;
  ask_quantity = 0;
  ask_price = 0;
}

abbrev any_trade : Gcmd.Trade
any_trade = record {
  symbol = replicate 12 0;
  timestamp_ns = 0;
  quantity = 0;
  price = 0;
  aggressor = unknown;
  id = 0;
}

abbrev beat : MdMessage
beat = MdMessage.heartbeat (record { timestamp = 1764000000000 })

abbrev quote_came : MdMessage
quote_came = quote_message quote 1764000000000

abbrev trade_came : ℕ → MdMessage
trade_came n = trade_message (trade n) 1764000000000

abbrev bringing : List MdMessage → Tick
bringing ms = record {
  arrivals = ms;
  destroyed = false;
  now = record { steady_ms = 9000; steady_ns = 9_000_000; system_ms = 9500 };
}

abbrev ticks : List Tick
ticks = bringing (trade_came 5 ∷ quote_came ∷ []) ∷ bringing (beat ∷ trade_came 7 ∷ []) ∷ []

abbrev quiet : List Tick
quiet = replicate 12 (bringing [])

quiet-Untold : (n : ℕ) → Untold (replicate n (bringing []))
quiet-Untold zero = tt
quiet-Untold (suc n) = (refl, quiet-Untold n)

quiet-Still : (n : ℕ) → Still (replicate n (bringing []))
quiet-Still zero = tt
quiet-Still (suc n) = (refl, quiet-Still n)

quotes-Told : Told quote_message (quote ∷ []) (quote_came ∷ beat ∷ [])
quotes-Told = row_told quote 1764000000000 (beat_told 1764000000000 nothing_told)

trades-Told : Told trade_message (trade 5 ∷ trade 7 ∷ []) (trade_came 5 ∷ trade_came 7 ∷ [])
trades-Told = row_told (trade 5) 1764000000000 (row_told (trade 7) 1764000000000 nothing_told)

mixed :
    Mixed
      (quote_came ∷ beat ∷ [])
      (trade_came 5 ∷ trade_came 7 ∷ [])
      (trade_came 5 ∷ quote_came ∷ beat ∷ trade_came 7 ∷ [])
mixed =
    from_right (trade_came 5)
      (from_left quote_came (from_left beat (from_right (trade_came 7) none_left)))

run-files_example :
    (s : Services) × (Program.start options any_quote any_trade 0 ≡ ok s)
    × (let d =
          run list_queue handlers quiet
            (run list_queue handlers ticks (Demultiplexer.start [] s)) in
        (d.message_queue ≡ [])
        × Booked s.book (quote ∷ []) d.services.book
        × (d.services.engine.quotes_received ≡ 1 % 2 ^ 32)
        × (d.services.engine.traded_quantity ≡ 0)
        × Answers (trade 5 ∷ trade 7 ∷ []) d.services.sent)
run-files_example =
    run-files list_queue options any_quote any_trade 0 (quote ∷ []) (trade 5 ∷ trade 7 ∷ [])
      (quote_came ∷ beat ∷ []) (trade_came 5 ∷ trade_came 7 ∷ []) ticks quiet [] refl refl
      quotes-Told trades-Told mixed (refl, (refl, tt)) (quiet-Untold 12) (quiet-Still 12)
      (omega arith)

-- The order that answers each trade, and the sender's rounds.
abbrev rejection : ℕ → ℕ → NewOrder
rejection k n = record {
  client_order_id = k;
  symbol = replicate 12 65;
  status = rejected;
  ts_ns = 9_000_000;
  trade_id = 0;
  side = sell;
  qty = n;
  limit_px = 20000;
}

abbrev pushing : List Message → Round
pushing ms = record { told_to_stop = false; pushes = ms; accepts = ok tt }

pushing-Works : (ms : List Message) → Works (pushing ms)
pushing-Works ms = record { not_told = refl; accepts = refl }

abbrev rounds : List Round
rounds = pushing [] ∷ pushing (order (rejection 0 5) ∷ order (rejection 1 7) ∷ []) ∷ []

arrivals-IsMessage : All Gcmd.IsMessage (all_arrivals ticks)
arrivals-IsMessage = (came 5 (omega arith), (quote_in, (omega arith, (came 7 (omega arith), tt))))
  where
    isin : Gcmd.IsSymbol (replicate 12 65)
    isin = record { twelve = refl; bytes = omega arith }

    came : (n : ℕ) → n < 2 ^ 32 → Gcmd.IsMessage (trade_came n)
    came n h = record {
      symbol_in = isin;
      timestamp_in = omega arith;
      quantity_in = omega (arith, h);
      price_in = omega arith;
      id_in = omega arith;
    }

    quote_in : Gcmd.IsMessage quote_came
    quote_in = record {
      symbol_in = isin;
      timestamp_in = omega arith;
      bid_quantity_in = omega arith;
      bid_price_in = omega arith;
      ask_quantity_in = omega arith;
      ask_price_in = omega arith;
    }

quiet-Clocked : (n : ℕ) → Clocked InReading (replicate n (bringing []))
quiet-Clocked zero = tt
quiet-Clocked (suc n) = (omega arith, quiet-Clocked n)

run-AnswerFrames_example :
    (sender : OrderMessageSender) × (Program.start options any_quote any_trade 0
      ≡ ok (Program.new_services options any_quote any_trade 0))
    × (Sender.run
          (Sender.init (order (rejection 0 0)) (replicate 54 0))
          (rounds ++ (pushing [] ∷ pushing [] ∷ []))
        ≡ (running, sender))
    × AnswerFrames (trade 5 ∷ trade 7 ∷ []) sender.handed
unfolding run Demultiplexer.start Dispatch.master_on_message Dispatch.on_trade Dispatch.on_quote
    Engine.handle_trade Engine.init Engine.on_quote_received Vwap.handle_trade Vwap.full_test
    Vwap.remove_old_trades Vwap.remove_loop Vwap.loop_test Vwap.init Vwap.add_trade
run-AnswerFrames_example =
    run-AnswerFrames list_queue options any_quote any_trade 0 (order (rejection 0 0))
      (replicate 54 0) (quote ∷ []) (trade 5 ∷ trade 7 ∷ []) (quote_came ∷ beat ∷ [])
      (trade_came 5 ∷ trade_came 7 ∷ []) ticks quiet rounds (pushing [] ∷ pushing [] ∷ []) [] refl
      refl quotes-Told trades-Told mixed arrivals-IsMessage (omega arith, (omega arith, tt))
      (quiet-Clocked 12) (refl, (refl, tt)) (quiet-Untold 12) (quiet-Still 12) (omega arith) refl
      (pushing-Works [], (pushing-Works _, tt)) (pushing-Works [], (pushing-Works [], tt))
      (refl, (refl, tt)) (omega arith, (omega arith, tt)) (omega arith) refl
