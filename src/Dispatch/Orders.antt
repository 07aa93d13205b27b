-- ===== src/Dispatch/Orders.antt =====
-- src/slipstream/orders/TradeMessageHandler.cpp with engine/ExecutionEngine.cpp: the orders that any
-- messages lead to while the engine is not halted.
use slipstream_volume_aware.Prelude.{
  ℕ, ◌≡◌, ◌⊎◌, inl, inr, refl, sym, ap, ◌∙◌, List, [], ◌∷◌, ◌++◌, All, append_assoc, append-nil,
  false, some, arith,
}
use mathlib.Core.Path.{subst}
use slipstream_volume_aware.Prelude.Words.{IsU64, add64}
use slipstream_volume_aware.Prelude.Outcome.{ok}
use slipstream_volume_aware.Codec.Gcmd
use slipstream_volume_aware.Codec.Gcmd.{Quote, Trade, MdMessage}
use slipstream_volume_aware.Codec.Oe.{NewOrder, IsNewOrder, OrderStatus, accepted, rejected}
use slipstream_volume_aware.Vwap.{VwapService}
use slipstream_volume_aware.Engine.{
  ExecutionEngine, Readings, on_quote_received, order, side_of, handle_trade,
}
use slipstream_volume_aware.Dispatch.{
  Services, set_quote, send_if, on_quote, on_trade, master_on_message, run,
}
use slipstream_volume_aware.Dispatch.Counts.{handlers, handle_trade-ok, run-one_more}

-- One order for each trade, in the order of the trades and numbered on from `k`: it copies the trade,
-- is on the trade's side (SELL where that is unknown), accepted or rejected, and is stamped with the
-- clock's reading at the trade.
pub data Ordered : ℕ → List (Readings × MdMessage) → List NewOrder → Type 0 where
  nothing_ordered : {k : ℕ} → Ordered k [] []
  quote_ordered :
      {k : ℕ} {is : List (Readings × MdMessage)} {os : List NewOrder} (r : Readings) (q : Quote)
      → Ordered k is os
      → Ordered k ((r, MdMessage.quote q) ∷ is) os
  heartbeat_ordered :
      {k : ℕ} {is : List (Readings × MdMessage)} {os : List NewOrder} (r : Readings)
      (h : Gcmd.Heartbeat)
      → Ordered k is os
      → Ordered k ((r, MdMessage.heartbeat h) ∷ is) os
  control_ordered :
      {k : ℕ} {is : List (Readings × MdMessage)} {os : List NewOrder} (r : Readings)
      (c : Gcmd.SessionControl)
      → Ordered k is os
      → Ordered k ((r, MdMessage.session_control c) ∷ is) os
  trade_ordered :
      {k : ℕ} {is : List (Readings × MdMessage)} {os : List NewOrder} (r : Readings) (t : Trade)
      (status : OrderStatus)
      → Ordered (add64 k 1) is os
      → Ordered k ((r, MdMessage.trade t) ∷ is) (
          record {
            client_order_id = k;
            symbol = t.symbol;
            status = status;
            ts_ns = r.steady_ns;
            trade_id = t.id;
            side = side_of t.aggressor;
            qty = t.quantity;
            limit_px = t.price;
          }
          ∷ os)

handle_trade-orders :
    (e : ExecutionEngine) (v : VwapService) (now : Readings) (t : Trade)
    → e.is_halted ≡ false
    → let (o, e', v') = handle_trade e v now t in
      ((o ≡ some (order e accepted (side_of t.aggressor) now.steady_ns t))
        ⊎ (o ≡ some (order e rejected (side_of t.aggressor) now.steady_ns t)))
      × (e'.is_halted ≡ false)
      × (e'.client_order_id_counter ≡ add64 e.client_order_id_counter 1)
unfolding handle_trade
handle_trade-orders e v now t h = ground arith

-- One trade.
trade-ordered :
    (s : Services) (now : Readings) (t : Trade)
    → s.engine.is_halted ≡ false
    → (s' : Services) × (status : OrderStatus) × (master_on_message handlers s now
          (MdMessage.trade t)
        ≡ ok s')
      × (s'.sent ≡ s.sent ++ (order s.engine status (side_of t.aggressor) now.steady_ns t ∷ []))
      × (s'.engine.is_halted ≡ false)
      × (s'.engine.client_order_id_counter ≡ add64 s.engine.client_order_id_counter 1)
unfolding master_on_message on_trade
trade-ordered s now t h =
    let (v, e) = handle_trade-ok s.vwap t in
    let (o, e', v') = handle_trade s.engine v now t in
    let (answer, on, next) = handle_trade-orders s.engine v now t h in
    let s' : Services = record s { engine = e'; vwap = v'; sent = send_if o s.sent } in
    elim answer [
      | inl a ↦ (s', accepted, rw e refl, ap (λ o. send_if o s.sent) a, on, next)
      | inr a ↦ (s', rejected, rw e refl, ap (λ o. send_if o s.sent) a, on, next)
    ]

pub on_quote_received-same :
    (e : ExecutionEngine) (now : ℕ)
    → let e' = on_quote_received e now in
      (e'.is_halted ≡ e.is_halted)
      × (e'.traded_quantity ≡ e.traded_quantity)
      × (e'.client_order_id_counter ≡ e.client_order_id_counter)
unfolding on_quote_received
on_quote_received-same e now = ground arith

-- While the engine is not halted, no sequence of messages makes the handlers of `main` throw, and each
-- trade among them is answered with one order.
pub run-Ordered :
    (s : Services) (is : List (Readings × MdMessage))
    → s.engine.is_halted ≡ false
    → (s' : Services) × (os : List NewOrder) × (run handlers s is ≡ ok s')
      × (s'.sent ≡ s.sent ++ os)
      × Ordered s.engine.client_order_id_counter is os
unfolding run master_on_message on_quote
run-Ordered s [] on = (s, [], refl, sym (append-nil s.sent), nothing_ordered)
run-Ordered s ((now, MdMessage.trade t) ∷ is) on =
    let (s1, status, e1, sent, on1, next) = trade-ordered s now t on in
    let (s', os, e, sent', ordered) = run-Ordered s1 is on1 in
    let first = order s.engine status (side_of t.aggressor) now.steady_ns t in
    (
      s',
      first ∷ os,
      run-one_more handlers s s1 s' now (MdMessage.trade t) is e1 e,
      sent' ∙ ap (λ l. l ++ os) sent ∙ append_assoc s.sent (first ∷ []) os,
      trade_ordered now t status (subst (λ k. Ordered k is os) next ordered),
    )
run-Ordered s ((now, MdMessage.quote q) ∷ is) on =
    let same = on_quote_received-same s.engine now.steady_ms in
    let s1 : Services = record s {
      book = set_quote s.book q;
      engine = on_quote_received s.engine now.steady_ms;
    } in
    let (s', os, e, sent, ordered) = run-Ordered s1 is (same.0 ∙ on) in
    (s', os, e, sent, quote_ordered now q (subst (λ k. Ordered k is os) same.2 ordered))
run-Ordered s ((now, MdMessage.heartbeat h) ∷ is) on =
    let (s', os, e, sent, ordered) = run-Ordered s is on in
    (s', os, e, sent, heartbeat_ordered now h ordered)
run-Ordered s ((now, MdMessage.session_control c) ∷ is) on =
    let (s', os, e, sent, ordered) = run-Ordered s is on in
    (s', os, e, sent, control_ordered now c ordered)

-- A message and a clock's reading in the widths of the C++ fields.
abbrev pub Fits : Readings × MdMessage → Type 0
Fits (r, m) = IsU64 r.steady_ns × Gcmd.IsMessage m

-- The orders then fit into their fields, too.
pub Ordered-IsNewOrder :
    {k : ℕ} {is : List (Readings × MdMessage)} {os : List NewOrder}
    → Ordered k is os
    → IsU64 k
    → All Fits is
    → All IsNewOrder os
Ordered-IsNewOrder nothing_ordered u h = tt
Ordered-IsNewOrder (quote_ordered r q o) u (f, h) = Ordered-IsNewOrder o u h
Ordered-IsNewOrder (heartbeat_ordered r x o) u (f, h) = Ordered-IsNewOrder o u h
Ordered-IsNewOrder (control_ordered r c o) u (f, h) = Ordered-IsNewOrder o u h
Ordered-IsNewOrder (trade_ordered r t status o) u (f, h) = (
  record {
    id_in = u;
    symbol_in = f.1.symbol_in.twelve;
    symbol_bytes = f.1.symbol_in.bytes;
    ts_in = f.0;
    trade_in = f.1.id_in;
    qty_in = f.1.quantity_in;
    limit_in = f.1.price_in;
  },
  Ordered-IsNewOrder o (omega arith) h,
)
