-- ===== src/Program/Decision/Bought.antt =====
-- The answer to a buyer's trade.
use slipstream_volume_aware.Prelude.{
  ℕ, ◌+◌, ◌*◌, ◌-◌, ◌^◌, ◌≤◌, ◌<◌, ◌≡◌, ◌⊎◌, inl, inr, ap, ap₂, ◌∙◌, List, [], ◌∷◌, ◌++◌, arith,
}
use slipstream_volume_aware.Prelude.Outcome.{ok}
use slipstream_volume_aware.Codec.Gcmd.{Quote, Trade, TradeAggressor, MdMessage}
use slipstream_volume_aware.Codec.Oe.{accepted, rejected, buy}
use slipstream_volume_aware.Engine.{Readings, order}
use slipstream_volume_aware.Engine.Orders.{Trades, handle_trade-buy}
use slipstream_volume_aware.Dispatch.{Services, send_if, master_on_message, run}
use slipstream_volume_aware.Dispatch.Counts.{handlers}
use slipstream_volume_aware.Dispatch.Average.{Paced}
use slipstream_volume_aware.Program.{Options, new_services, volume}
use slipstream_volume_aware.Program.Decision.{vwap_with, run-Facing}

-- How a buyer's trade is answered: `market` is the quantity of all trades before it, `vwap` the average.
abbrev pub Bought : Options → (market vwap : ℕ) → Readings → Trade → Services → Services → Type 0
Bought o market vwap r t s s' =
    ((s'.sent ≡ s.sent ++ (order s.engine accepted buy r.steady_ns t ∷ []))
      × (t.price * 10000 ≤ vwap * (10000 - o.band_bps))
      × (market + t.quantity ≤ o.participation_cap)
      × (s.engine.traded_quantity + t.quantity ≤ o.max_quantity)
      × (s'.engine.traded_quantity ≡ s.engine.traded_quantity + t.quantity))
    ⊎ ((s'.sent ≡ s.sent ++ (order s.engine rejected buy r.steady_ns t ∷ []))
        × ¬ (
            (t.price * 10000 ≤ vwap * (10000 - o.band_bps))
            × (market + t.quantity ≤ o.participation_cap)
            × (s.engine.traded_quantity + t.quantity ≤ o.max_quantity))
        × (s'.engine.traded_quantity ≡ s.engine.traded_quantity))

-- The services of main have handled any messages, and a buyer's trade comes while the engine is ready
-- and not halted. The trades, this one included, stand in the order of their times, have positive
-- quantities and no negative price, are handled at their times or later, by a system clock that does
-- not go back, and leave a slot of the ring free; the band is at most 10000, and no sum or product
-- passes 64 bits. Then the trade is answered with one order that copies it. It is accepted exactly when
-- the price is at most the average over the trades of the window that ends now, this one included, less
-- the band; the quantities of all trades so far sum up to the cap at most; and what was executed, with
-- this trade, is at most the maximum. The executed quantity then grows by the trade's, and else stays.
pub run-Bought :
    (o : Options) (any_quote : Quote) (any_trade : Trade) (any_time : ℕ)
    (is : List (Readings × MdMessage)) (s : Services) (r : Readings) (t : Trade)
    → run handlers (new_services o any_quote any_trade any_time) is ≡ ok s
    → Paced o.vwap_window_ms 0 [] (is ++ ((r, MdMessage.trade t) ∷ []))
    → Trades s.engine r
    → t.aggressor ≡ TradeAggressor.buy
    → o.band_bps ≤ 10000
    → volume is + t.quantity < 2 ^ 64
    → vwap_with o is r t * (10000 - o.band_bps) < 2 ^ 64
    → (s' : Services) × (master_on_message handlers s r (MdMessage.trade t) ≡ ok s')
      × Bought o (volume is) (vwap_with o is r t) r t s s'
run-Bought o any_quote any_trade any_time is s r t runs paced ready side band small fits =
    let f = run-Facing o any_quote any_trade any_time is s r t runs paced (omega (arith, small)) in
    let bound = ap₂ (λ (a b : ℕ). a * (10000 - b)) f.told f.width in
    elim (handle_trade-buy s.engine f.given r t ready side (omega (arith, f.width, band))
      (omega (arith, bound, fits)) (omega (arith, f.seen, small))
      (omega (arith, f.executed, small))) [
        | inl (a, price, market, most, grows) ↦ (
          f.after,
          f.takes,
          inl (
            f.sends ∙ ap (λ x. send_if x s.sent) a,
            omega (arith, price, bound),
            omega (arith, market, f.seen, f.cap),
            omega (arith, most, f.maximum),
            ap (λ x. x.traded_quantity) f.executes ∙ grows,
          ),
        )
        | inr (a, not_all, stays) ↦ (
          f.after,
          f.takes,
          inr (
            f.sends ∙ ap (λ x. send_if x s.sent) a,
            (λ c. not_all (
              omega (arith, c.0, bound),
              omega (arith, c.1, f.seen, f.cap),
              omega (arith, c.2, f.maximum),
            )),
            ap (λ x. x.traded_quantity) f.executes ∙ stays,
          ),
        )
      ]
