-- ===== src/Dispatch/Counts.antt =====
-- No message makes a handler throw, and what quotes leave behind.
use slipstream_volume_aware.Prelude.{
  ℕ, suc, ◌+◌, ◌%◌, ◌^◌, ◌≡◌, ◌<◌, inl, inr, refl, ap, ◌∙◌, List, [], ◌∷◌, arith, Bool-cases,
}
use slipstream_volume_aware.Prelude.Outcome.{ok}
use slipstream_volume_aware.Codec.Gcmd.{Trade, MdMessage}
use slipstream_volume_aware.Vwap
use slipstream_volume_aware.Vwap.{VwapService, overwrite_oldest, full_test}
use slipstream_volume_aware.Engine
use slipstream_volume_aware.Engine.{ExecutionEngine, Readings, on_quote_received}
use slipstream_volume_aware.Dispatch.{
  OrderBookService, set_quote, Services, Handler, quote_handler, trade_handler, send_if, on_quote,
  on_trade, master_on_message, run,
}

-- The handlers that the program's `main` sets up.
abbrev pub handlers : List Handler
handlers = quote_handler ∷ trade_handler ∷ []

-- The service with the policy OVERWRITE_OLDEST takes every trade.
pub handle_trade-ok :
    (v : VwapService) (t : Trade)
    → (v' : VwapService) × (Vwap.handle_trade overwrite_oldest v t ≡ ok v')
unfolding Vwap.handle_trade Vwap.overflow
handle_trade-ok v t = elim (Bool-cases (full_test (Vwap.remove_old_trades v t.timestamp_ns))) [
  | inl h ↦
      rw h (
        Vwap.add_trade (Vwap.remove_oldest_trade (Vwap.remove_old_trades v t.timestamp_ns)) t,
        refl,
      )
  | inr h ↦ rw h (Vwap.add_trade (Vwap.remove_old_trades v t.timestamp_ns) t, refl)
]

handle_trade-quotes :
    (e : ExecutionEngine) (v : VwapService) (now : Readings) (t : Trade)
    → let (o, e', v') = Engine.handle_trade e v now t in e'.quotes_received ≡ e.quotes_received
unfolding Engine.handle_trade
handle_trade-quotes e v now t = ground arith

on_quote_received-quotes :
    (e : ExecutionEngine) (now : ℕ)
    → (on_quote_received e now).quotes_received ≡ (e.quotes_received + 1) % 2 ^ 32
unfolding on_quote_received
on_quote_received-quotes e now = ground arith

-- What the quotes among some messages do to a book: its latest quote and its count.
abbrev pub quotes_seen : OrderBookService → List (Readings × MdMessage) → OrderBookService
quotes_seen b [] = b
quotes_seen b ((now, MdMessage.quote q) ∷ is) = quotes_seen (set_quote b q) is
quotes_seen b ((now, MdMessage.trade t) ∷ is) = quotes_seen b is
quotes_seen b ((now, MdMessage.heartbeat h) ∷ is) = quotes_seen b is
quotes_seen b ((now, MdMessage.session_control c) ∷ is) = quotes_seen b is

abbrev pub quote_count : List (Readings × MdMessage) → ℕ
quote_count [] = 0
quote_count ((now, MdMessage.quote q) ∷ is) = suc (quote_count is)
quote_count ((now, MdMessage.trade t) ∷ is) = quote_count is
quote_count ((now, MdMessage.heartbeat h) ∷ is) = quote_count is
quote_count ((now, MdMessage.session_control c) ∷ is) = quote_count is

-- The orders that follow the trade, and the services, when a trade comes to them.
trade_step :
    (s : Services) (now : Readings) (t : Trade)
    → (s' : Services) × (master_on_message handlers s now (MdMessage.trade t) ≡ ok s')
      × (s'.book ≡ s.book)
      × (s'.engine.quotes_received ≡ s.engine.quotes_received)
unfolding master_on_message on_trade
trade_step s now t =
    let (v, e) = handle_trade-ok s.vwap t in
    let (o, e', v') = Engine.handle_trade s.engine v now t in
    (
      record s { engine = e'; vwap = v'; sent = send_if o s.sent },
      rw e refl,
      refl,
      handle_trade-quotes s.engine v now t,
    )

-- No message makes the handlers of `main` throw.
pub message-ok :
    (s : Services) (now : Readings) (m : MdMessage)
    → (s' : Services) × (master_on_message handlers s now m ≡ ok s')
unfolding master_on_message on_quote
message-ok s now (MdMessage.quote q) = (_, refl)
message-ok s now (MdMessage.trade t) = let (s1, e, b, n) = trade_step s now t in (s1, e)
message-ok s now (MdMessage.heartbeat h) = (s, refl)
message-ok s now (MdMessage.session_control c) = (s, refl)

-- A message that is handled, and what is handled after it.
pub run-one_more :
    (hs : List Handler) (s s1 s' : Services) (now : Readings) (m : MdMessage)
    (is : List (Readings × MdMessage))
    → master_on_message hs s now m ≡ ok s1
    → run hs s1 is ≡ ok s'
    → run hs s ((now, m) ∷ is) ≡ ok s'
unfolding run
run-one_more hs s s1 s' now m is e f = cc (e, f)

-- No sequence of messages makes the handlers of `main` throw. The book ends with what the quotes
-- alone make of it; the engine has counted every quote, those for other symbols too, in 32 bits;
-- heartbeats and session messages leave no trace.
pub run-counts :
    (s : Services) (is : List (Readings × MdMessage))
    → s.engine.quotes_received < 2 ^ 32
    → (s' : Services) × (run handlers s is ≡ ok s')
      × (s'.book ≡ quotes_seen s.book is)
      × (s'.engine.quotes_received ≡ (s.engine.quotes_received + quote_count is) % 2 ^ 32)
unfolding run master_on_message on_quote
run-counts s [] h = (s, refl, refl, omega arith)
run-counts s ((now, MdMessage.quote q) ∷ is) h =
    let c = on_quote_received-quotes s.engine now.steady_ms in
    let s1 = record s {
      book = set_quote s.book q;
      engine = on_quote_received s.engine now.steady_ms;
    } in
    let (s', e, b, n) = run-counts s1 is (omega (arith, c)) in (s', e, b, omega (arith, n, c))
run-counts s ((now, MdMessage.trade t) ∷ is) h =
    let (s1, e1, b1, n1) = trade_step s now t in
    let (s', e, b, n) = run-counts s1 is (omega (arith, n1)) in
    (
      s',
      run-one_more handlers s s1 s' now (MdMessage.trade t) is e1 e,
      b ∙ ap (λ x. quotes_seen x is) b1,
      omega (arith, n, n1),
    )
run-counts s ((now, MdMessage.heartbeat x) ∷ is) h = run-counts s is h
run-counts s ((now, MdMessage.session_control c) ∷ is) h = run-counts s is h
