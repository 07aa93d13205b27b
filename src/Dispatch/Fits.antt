-- ===== src/Dispatch/Fits.antt =====
-- The orders of the trade handler fit their C++ fields, halted or not.
use slipstream_volume_aware.Prelude.{
  ◌≡◌, ◌⊎◌, inl, inr, refl, sym, List, [], ◌∷◌, All, All-append, none, some, arith, Option,
}
use mathlib.Core.Path.{subst}
use slipstream_volume_aware.Prelude.Words.{IsU64, add64}
use slipstream_volume_aware.Prelude.Outcome.{ok}
use slipstream_volume_aware.Codec.Gcmd
use slipstream_volume_aware.Codec.Gcmd.{Trade, MdMessage}
use slipstream_volume_aware.Codec.Oe.{NewOrder, IsNewOrder, OrderStatus, accepted, rejected}
use slipstream_volume_aware.Vwap.{VwapService}
use slipstream_volume_aware.Engine.{
  ExecutionEngine, Readings, on_quote_received, order, side_of, handle_trade,
}
use slipstream_volume_aware.Dispatch.{
  Services, set_quote, send_if, on_quote, on_trade, master_on_message,
}
use slipstream_volume_aware.Dispatch.Counts.{handlers, handle_trade-ok}
use slipstream_volume_aware.Dispatch.Orders.{on_quote_received-same}

-- The orders passed to `send` fit their fields, and so does the number of the next.
pub record Fitting (s : Services) : Type 0 where
  pub counter_in : IsU64 s.engine.client_order_id_counter
  pub orders_in : All IsNewOrder s.sent

abbrev pub InReading : Readings → Type 0
InReading r = IsU64 r.steady_ns

handle_trade-order :
    (e : ExecutionEngine) (v : VwapService) (now : Readings) (t : Trade)
    → let (o, e', v') = handle_trade e v now t in
      ((o ≡ none)
        ⊎ ((o ≡ some (order e accepted (side_of t.aggressor) now.steady_ns t))
            ⊎ (o ≡ some (order e rejected (side_of t.aggressor) now.steady_ns t))))
      × (e'.client_order_id_counter ≡ add64 e.client_order_id_counter 1)
unfolding handle_trade
handle_trade-order e v now t = ground arith

order-IsNewOrder :
    (e : ExecutionEngine) (status : OrderStatus) (now : Readings) (t : Trade)
    → IsU64 e.client_order_id_counter
    → IsU64 now.steady_ns
    → Gcmd.IsTrade t
    → IsNewOrder (order e status (side_of t.aggressor) now.steady_ns t)
order-IsNewOrder e status now t id ts f = record {
  id_in = id;
  symbol_in = f.symbol_in.twelve;
  symbol_bytes = f.symbol_in.bytes;
  ts_in = ts;
  trade_in = f.id_in;
  qty_in = f.quantity_in;
  limit_in = f.price_in;
}

send_if-Fitting :
    (sent : List NewOrder) (o : Option NewOrder) (p : NewOrder)
    → All IsNewOrder sent
    → IsNewOrder p
    → o ≡ some p
    → All IsNewOrder (send_if o sent)
send_if-Fitting sent o p h f e =
    subst (λ x. All IsNewOrder (send_if x sent)) (sym e)
      (All-append IsNewOrder sent (p ∷ []) h (f, tt))

trade-Fitting :
    (s : Services) (now : Readings) (t : Trade)
    → IsU64 now.steady_ns
    → Gcmd.IsTrade t
    → Fitting s
    → (s' : Services) × (master_on_message handlers s now (MdMessage.trade t) ≡ ok s') × Fitting s'
unfolding master_on_message on_trade
trade-Fitting s now t ts f h =
    let (v, e) = handle_trade-ok s.vwap t in
    let (o, e', v') = handle_trade s.engine v now t in
    let (answer, next) = handle_trade-order s.engine v now t in
    let fits = λ (status : OrderStatus). order-IsNewOrder s.engine status now t h.counter_in ts f in
    (
      record s { engine = e'; vwap = v'; sent = send_if o s.sent },
      rw e refl,
      record {
        counter_in = subst IsU64 (sym next) (omega arith);
        orders_in = elim answer [
          | inl a ↦ subst (λ x. All IsNewOrder (send_if x s.sent)) (sym a) h.orders_in
          | inr (inl a) ↦ send_if-Fitting s.sent o _ h.orders_in (fits accepted) a
          | inr (inr a) ↦ send_if-Fitting s.sent o _ h.orders_in (fits rejected) a
        ];
      },
    )

-- Whatever message is handled, in words that fit.
pub message-Fitting :
    (s s' : Services) (now : Readings) (m : MdMessage)
    → IsU64 now.steady_ns
    → Gcmd.IsMessage m
    → Fitting s
    → master_on_message handlers s now m ≡ ok s'
    → Fitting s'
unfolding master_on_message on_quote
message-Fitting s s' now (MdMessage.quote q) ts f h e =
    let same = on_quote_received-same s.engine now.steady_ms in
    let one : record s {
      book = set_quote s.book q;
      engine = on_quote_received s.engine now.steady_ms;
    }
        ≡ s' =
      cc e in
    subst Fitting one
      (record { counter_in = subst IsU64 (sym same.2) h.counter_in; orders_in = h.orders_in })
message-Fitting s s' now (MdMessage.trade t) ts f h e =
    let (s1, runs, fits) = trade-Fitting s now t ts f h in
    let one : s1 ≡ s' = cc (e, runs) in subst Fitting one fits
message-Fitting s s' now (MdMessage.heartbeat x) ts f h e =
    let one : s ≡ s' = cc e in subst Fitting one h
message-Fitting s s' now (MdMessage.session_control c) ts f h e =
    let one : s ≡ s' = cc e in subst Fitting one h
