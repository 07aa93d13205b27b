-- ===== src/Program/Decision/Sold.antt =====
-- The answer to a seller's trade.
use slipstream_volume_aware.Prelude.{
  ℕ, ◌+◌, ◌*◌, ◌^◌, ◌≤◌, ◌<◌, ◌≡◌, ◌⊎◌, inl, inr, ap, ap₂, ◌∙◌, List, [], ◌∷◌, ◌++◌, arith,
}
use slipstream_volume_aware.Prelude.Outcome.{ok}
use slipstream_volume_aware.Codec.Gcmd.{Quote, Trade, TradeAggressor, MdMessage}
use slipstream_volume_aware.Codec.Oe.{accepted, rejected, sell}
use slipstream_volume_aware.Engine.{Readings, order}
use slipstream_volume_aware.Engine.Orders.{Trades, handle_trade-sell}
use slipstream_volume_aware.Dispatch.{Services, send_if, master_on_message, run}
use slipstream_volume_aware.Dispatch.Counts.{handlers}
use slipstream_volume_aware.Dispatch.Average.{Paced}
use slipstream_volume_aware.Program.{Options, new_services, volume}
use slipstream_volume_aware.Program.Decision.{vwap_with, run-Facing}

-- How a seller's trade is answered, where `vwap` is the average.
abbrev pub Sold : Options → (vwap : ℕ) → Readings → Trade → Services → Services → Type 0
Sold o vwap r t s s' =
    ((s'.sent ≡ s.sent ++ (order s.engine accepted sell r.steady_ns t ∷ []))
      × (vwap * (10000 + o.band_bps) < t.price * 10000 + 10000)
      × (t.quantity ≤ s.engine.traded_quantity)
      × (s'.engine.traded_quantity ≡ s.engine.traded_quantity + t.quantity))
    ⊎ ((s'.sent ≡ s.sent ++ (order s.engine rejected sell r.steady_ns t ∷ []))
        × ¬ (
            (vwap * (10000 + o.band_bps) < t.price * 10000 + 10000)
            × (t.quantity ≤ s.engine.traded_quantity))
        × (s'.engine.traded_quantity ≡ s.engine.traded_quantity))

-- The services of main have handled any messages, and a seller's trade comes while the engine is ready
-- and not halted. The trades, this one included, stand in the order of their times, have positive
-- quantities and no negative price, are handled at their times or later, by a system clock that does
-- not go back, and leave a slot of the ring free; the band is below 2^63, and no sum or product passes
-- 64 bits. Then the trade is answered with one order that copies it. It is accepted exactly when the
-- price is at least the average over the trades of the window that ends now, this one included, plus
-- the band, rounded down to a whole price, and its quantity is at most what was executed; neither the
-- cap nor the maximum is looked at. The executed quantity then grows by the trade's, and else stays.
pub run-Sold :
    (o : Options) (any_quote : Quote) (any_trade : Trade) (any_time : ℕ)
    (is : List (Readings × MdMessage)) (s : Services) (r : Readings) (t : Trade)
    → run handlers (new_services o any_quote any_trade any_time) is ≡ ok s
    → Paced o.vwap_window_ms 0 [] (is ++ ((r, MdMessage.trade t) ∷ []))
    → Trades s.engine r
    → t.aggressor ≡ TradeAggressor.sell
    → o.band_bps < 2 ^ 63
    → volume is + t.quantity < 2 ^ 64
    → vwap_with o is r t * (10000 + o.band_bps) < 2 ^ 64
    → (s' : Services) × (master_on_message handlers s r (MdMessage.trade t) ≡ ok s')
      × Sold o (vwap_with o is r t) r t s s'
run-Sold o any_quote any_trade any_time is s r t runs paced ready side band small fits =
    let f = run-Facing o any_quote any_trade any_time is s r t runs paced (omega (arith, small)) in
    let bound = ap₂ (λ (a b : ℕ). a * (10000 + b)) f.told f.width in
    elim (handle_trade-sell s.engine f.given r t ready side (omega (arith, f.width, band))
      (omega (arith, bound, fits)) (omega (arith, f.executed, small))) [
        | inl (a, price, held, grows) ↦ (
          f.after,
          f.takes,
          inl (
            f.sends ∙ ap (λ x. send_if x s.sent) a,
            omega (arith, price, bound),
            held,
            ap (λ x. x.traded_quantity) f.executes ∙ grows,
          ),
        )
        | inr (a, not_all, stays) ↦ (
          f.after,
          f.takes,
          inr (
            f.sends ∙ ap (λ x. send_if x s.sent) a,
            (λ c. not_all (omega (arith, c.0, bound), c.1)),
            ap (λ x. x.traded_quantity) f.executes ∙ stays,
          ),
        )
      ]
