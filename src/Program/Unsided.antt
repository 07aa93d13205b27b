-- ===== src/Program/Unsided.antt =====
-- src/order_client/TradeClient.cpp with src/slipstream/engine/ExecutionEngine.cpp: trades whose
-- aggressor is UNKNOWN, the only ones that the trade client sends.
use slipstream_volume_aware.Prelude.{
  ℕ, ◌≡◌, refl, sym, ap, ◌∙◌, List, [], ◌∷◌, ◌++◌, append_assoc, append-nil, false, some, arith,
}
use slipstream_volume_aware.Prelude.Words.{add64}
use slipstream_volume_aware.Prelude.Outcome.{ok}
use slipstream_volume_aware.Codec.Gcmd.{Trade, TradeAggressor, MdMessage}
use slipstream_volume_aware.Codec.Oe.{NewOrder, rejected, sell}
use slipstream_volume_aware.Vwap.{VwapService}
use slipstream_volume_aware.Engine.{
  ExecutionEngine, Readings, on_quote_received, order, handle_trade,
}
use slipstream_volume_aware.Dispatch.{
  Services, set_quote, send_if, on_quote, on_trade, master_on_message, run,
}
use slipstream_volume_aware.Dispatch.Counts.{handlers, handle_trade-ok, run-one_more}
use slipstream_volume_aware.Dispatch.Orders.{on_quote_received-same}
use slipstream_volume_aware.Program.{AllTrades}

abbrev pub Unsided : Trade → Type 0
Unsided t = t.aggressor ≡ TradeAggressor.unknown

-- The orders that reject the trades among some messages, numbered from `k`.
abbrev pub rejections : ℕ → List (Readings × MdMessage) → List NewOrder
rejections k [] = []
rejections k ((now, MdMessage.trade t) ∷ is) =
    record {
      client_order_id = k;
      symbol = t.symbol;
      status = rejected;
      ts_ns = now.steady_ns;
      trade_id = t.id;
      side = sell;
      qty = t.quantity;
      limit_px = t.price;
    }
    ∷ rejections (add64 k 1) is
rejections k ((now, MdMessage.quote q) ∷ is) = rejections k is
rejections k ((now, MdMessage.heartbeat h) ∷ is) = rejections k is
rejections k ((now, MdMessage.session_control c) ∷ is) = rejections k is

handle_trade-Unsided :
    (e : ExecutionEngine) (v : VwapService) (now : Readings) (t : Trade)
    → Unsided t
    → e.is_halted ≡ false
    → let (o, e', v') = handle_trade e v now t in
      (o ≡ some (order e rejected sell now.steady_ns t))
      × (e'.traded_quantity ≡ e.traded_quantity)
      × (e'.is_halted ≡ false)
      × (e'.client_order_id_counter ≡ add64 e.client_order_id_counter 1)
unfolding handle_trade
handle_trade-Unsided e v now t u h = ground arith

-- One such trade.
trade-rejected :
    (s : Services) (now : Readings) (t : Trade)
    → Unsided t
    → s.engine.is_halted ≡ false
    → (s' : Services) × (master_on_message handlers s now (MdMessage.trade t) ≡ ok s')
      × (s'.sent ≡ s.sent ++ (order s.engine rejected sell now.steady_ns t ∷ []))
      × (s'.engine.traded_quantity ≡ s.engine.traded_quantity)
      × (s'.engine.is_halted ≡ false)
      × (s'.engine.client_order_id_counter ≡ add64 s.engine.client_order_id_counter 1)
unfolding master_on_message on_trade
trade-rejected s now t u h =
    let (v, e) = handle_trade-ok s.vwap t in
    let (o, e', v') = handle_trade s.engine v now t in
    let (answer, same, on, next) = handle_trade-Unsided s.engine v now t u h in
    (
      record s { engine = e'; vwap = v'; sent = send_if o s.sent },
      rw e refl,
      ap (λ o. send_if o s.sent) answer,
      same,
      on,
      next,
    )

-- An engine that is not halted executes no trade whose aggressor is unknown: over any messages among
-- which all trades are such trades, no handler throws, the executed quantity stays, and what is sent
-- is one rejected order for each trade, a sell order that copies it, in the order of the trades and
-- numbered on from the engine's counter (modulo 2^64).
pub run-rejects :
    (s : Services) (is : List (Readings × MdMessage))
    → s.engine.is_halted ≡ false
    → AllTrades Unsided is
    → (s' : Services) × (run handlers s is ≡ ok s')
      × (s'.sent ≡ s.sent ++ rejections s.engine.client_order_id_counter is)
      × (s'.engine.traded_quantity ≡ s.engine.traded_quantity)
unfolding run master_on_message on_quote
run-rejects s [] on a = (s, refl, sym (append-nil s.sent), refl)
run-rejects s ((now, MdMessage.trade t) ∷ is) on (u, a) =
    let (s1, e1, sent, same, on1, next) = trade-rejected s now t u on in
    let (s', e, sent', same') = run-rejects s1 is on1 a in
    let first = order s.engine rejected sell now.steady_ns t in
    (
      s',
      run-one_more handlers s s1 s' now (MdMessage.trade t) is e1 e,
      sent'
          ∙ ap (λ l. l ++ rejections s1.engine.client_order_id_counter is) sent
          ∙ append_assoc s.sent (first ∷ []) (rejections s1.engine.client_order_id_counter is)
          ∙ ap (λ k. s.sent ++ (first ∷ rejections k is)) next,
      same' ∙ same,
    )
run-rejects s ((now, MdMessage.quote q) ∷ is) on a =
    let same = on_quote_received-same s.engine now.steady_ms in
    let s1 : Services = record s {
      book = set_quote s.book q;
      engine = on_quote_received s.engine now.steady_ms;
    } in
    let (s', e, sent', same') = run-rejects s1 is (same.0 ∙ on) a in
    (s', e, sent' ∙ ap (λ k. s.sent ++ rejections k is) same.2, same' ∙ same.1)
run-rejects s ((now, MdMessage.heartbeat h) ∷ is) on a = run-rejects s is on a
run-rejects s ((now, MdMessage.session_control c) ∷ is) on a = run-rejects s is on a
