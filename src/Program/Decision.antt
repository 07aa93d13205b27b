-- ===== src/Program/Decision.antt =====
-- src/slipstream/main.cpp with the services behind it: the answer to a trade after any messages, by the
-- trades that came and main's options.
use slipstream_volume_aware.Prelude.{
  ℕ, ◌+◌, ◌*◌, ◌-◌, ◌^◌, ◌≤◌, ◌<◌, ◌≡◌, ◌⊎◌, inl, inr, refl, sym, ap, ap₂, ◌∙◌, List, [], ◌∷◌, ◌++◌,
  All-append, arith,
}
use mathlib.Core.Path.{subst}
use slipstream_volume_aware.Prelude.Outcome.{ok}
use slipstream_volume_aware.Codec.Gcmd.{Quote, Trade, TradeAggressor, MdMessage}
use slipstream_volume_aware.Codec.Oe.{accepted, rejected, buy}
use slipstream_volume_aware.Vwap
use slipstream_volume_aware.Vwap.{VwapService, get_vwap}
use slipstream_volume_aware.Vwap.Kept.{init-Kept}
use slipstream_volume_aware.Vwap.Bag.{of_list, young, average}
use slipstream_volume_aware.Engine
use slipstream_volume_aware.Engine.{
  ExecutionEngine, Readings, order, handle_trade, on_quote_received, halt_trading, resume_trading,
}
use slipstream_volume_aware.Engine.Limits.{
  Session, begin, quote, trade, halt, resume, Any, Session-observed,
}
use slipstream_volume_aware.Engine.Orders.{Trades, handle_trade-buy}
use slipstream_volume_aware.Dispatch.{Services, send_if, master_on_message, run}
use slipstream_volume_aware.Dispatch.Counts.{handlers}
use slipstream_volume_aware.Dispatch.Average.{trades_of, Paced, trade-Step, run-After}
use slipstream_volume_aware.Program.{Options, new_services, volume, AllTrades, run-Session}
pub mod Bought
pub mod Sold
mod Tests

handle_trade-options :
    (e : ExecutionEngine) (s : VwapService) (now : Readings) (t : Trade)
    → let (o, e', s') = handle_trade e s now t in
      (e'.max_quantity ≡ e.max_quantity)
      × (e'.participation_cap ≡ e.participation_cap)
      × (e'.band_bps ≡ e.band_bps)
unfolding handle_trade
handle_trade-options e s now t = ground arith

-- No call changes the limits.
Session-options :
    {P : Trade → Type 0} (e : ExecutionEngine) (n : ℕ) {f : ExecutionEngine}
    → Session P e n f
    → (f.max_quantity ≡ e.max_quantity)
      × (f.participation_cap ≡ e.participation_cap)
      × (f.band_bps ≡ e.band_bps)
unfolding on_quote_received halt_trading resume_trading
Session-options e n begin = (refl, refl, refl)
Session-options e n (quote {f = f} now r) = ground (arith, Session-options e n r)
Session-options e n (trade {n = k} {f = f} s now t p m r) =
    let ih = Session-options e k r in
    let same = handle_trade-options f s now t in (same.0 ∙ ih.0, same.1 ∙ ih.1, same.2 ∙ ih.2)
Session-options e n (halt r) = Session-options e n r
Session-options e n (resume r) = Session-options e n r

Any-AllTrades : (is : List (Readings × MdMessage)) → AllTrades Any is
Any-AllTrades [] = tt
Any-AllTrades ((now, MdMessage.trade t) ∷ is) = (tt, Any-AllTrades is)
Any-AllTrades ((now, MdMessage.quote q) ∷ is) = Any-AllTrades is
Any-AllTrades ((now, MdMessage.heartbeat h) ∷ is) = Any-AllTrades is
Any-AllTrades ((now, MdMessage.session_control c) ∷ is) = Any-AllTrades is

-- The engine of main after some messages.
pub engine_after :
    (o : Options) (any_quote : Quote) (any_trade : Trade) (any_time : ℕ)
    (is : List (Readings × MdMessage)) (s : Services)
    → run handlers (new_services o any_quote any_trade any_time) is ≡ ok s
    → volume is < 2 ^ 64
    → (s.engine.cumulative_traded_quantity ≡ volume is)
      × (s.engine.traded_quantity ≤ volume is)
      × (s.engine.max_quantity ≡ o.max_quantity)
      × (s.engine.participation_cap ≡ o.participation_cap)
      × (s.engine.band_bps ≡ o.band_bps)
unfolding Engine.init
engine_after o any_quote any_trade any_time is s e small =
    let s0 = new_services o any_quote any_trade any_time in
    let (s1, runs, session) = run-Session Any s0.engine 0 s0 is begin (Any-AllTrades is) in
    let same : s1 ≡ s = cc (e, runs) in
    let seen =
      Session-observed o.max_quantity o.participation_cap o.vwap_window_ms o.band_bps any_time
        (0 + volume is) (omega (arith, small)) session in
    let fixed = Session-options s0.engine (0 + volume is) session in
    subst
      (λ (x : Services).
        (x.engine.cumulative_traded_quantity ≡ volume is)
        × (x.engine.traded_quantity ≤ volume is)
        × (x.engine.max_quantity ≡ o.max_quantity)
        × (x.engine.participation_cap ≡ o.participation_cap)
        × (x.engine.band_bps ≡ o.band_bps))
      same (omega (arith, seen.0), omega (arith, seen.1), fixed.0, fixed.1, fixed.2)

-- A trade that comes after some messages, and what the engine knows when it decides.
pub record Facing (o : Options) (market vwap : ℕ) (r : Readings) (t : Trade) (s : Services)
    : Type 0 where
  pub given : VwapService
  pub after : Services
  pub takes : master_on_message handlers s r (MdMessage.trade t) ≡ ok after
  pub told : (get_vwap given r.system_ms).0 ≡ vwap
  pub sends : after.sent ≡ send_if (handle_trade s.engine given r t).0 s.sent
  pub executes : after.engine ≡ (handle_trade s.engine given r t).1
  pub seen : s.engine.cumulative_traded_quantity ≡ market
  pub executed : s.engine.traded_quantity ≤ market
  pub maximum : s.engine.max_quantity ≡ o.max_quantity
  pub cap : s.engine.participation_cap ≡ o.participation_cap
  pub width : s.engine.band_bps ≡ o.band_bps

-- The average over the trades among some messages and one more.
abbrev pub vwap_with : Options → List (Readings × MdMessage) → Readings → Trade → ℕ
vwap_with o is r t =
    average (young o.vwap_window_ms r.system_ms (of_list (trades_of is ++ (t ∷ []))))

pub run-Facing :
    (o : Options) (any_quote : Quote) (any_trade : Trade) (any_time : ℕ)
    (is : List (Readings × MdMessage)) (s : Services) (r : Readings) (t : Trade)
    → run handlers (new_services o any_quote any_trade any_time) is ≡ ok s
    → Paced o.vwap_window_ms 0 [] (is ++ ((r, MdMessage.trade t) ∷ []))
    → volume is < 2 ^ 64
    → Facing o (volume is) (vwap_with o is r t) r t s
unfolding Vwap.init
run-Facing o any_quote any_trade any_time is s r t runs paced small =
    let past =
      run-After o.vwap_window_ms 0 [] (new_services o any_quote any_trade any_time) s is
        ((r, MdMessage.trade t) ∷ []) (init-Kept o.vwap_window_ms any_trade) tt paced runs in
    let (s', takes, step) =
      trade-Step o.vwap_window_ms past.last (trades_of is) s r t past.kept past.paced in
    let (seen, executed, most, cap', width) =
      engine_after o any_quote any_trade any_time is s runs small in
    record {
      given = step.given;
      after = s';
      takes = takes;
      told = step.told (
          All-append (λ u. u.price < 2 ^ 63) (trades_of is) (t ∷ []) past.prices_in
            (past.paced.6, tt));
      sends = ap (λ x. x.sent) step.result;
      executes = ap (λ x. x.engine) step.result;
      seen = seen;
      executed = executed;
      maximum = most;
      cap = cap';
      width = width;
    }
