-- ===== src/Engine/Limits.antt =====
-- The quantities of `ExecutionEngine` over whole sessions: any sequence of quotes, trades, halts and
-- resumptions, whatever the clocks and the average are.
use slipstream_volume_aware.Prelude.{
  ℕ, ◌+◌, ◌*◌, ◌/◌, ◌-◌, ◌%◌, ◌^◌, ◌≤◌, ◌<◌, ◌≡◌, ◌≢◌, inl, inr, sym, ap, ◌∙◌, true, arith,
}
use native.Mathlib.Nat.{one-le-mul, mul-add}
use slipstream_volume_aware.Prelude.Words.{add64, sub64, mul64}
use slipstream_volume_aware.Codec.Gcmd.{Trade, TradeAggressor}
use slipstream_volume_aware.Vwap.{VwapService, get_vwap}
use slipstream_volume_aware.Engine.{
  ExecutionEngine, Readings, init, on_quote_received, halt_trading, resume_trading, buy_test,
  handle_trade,
}
use slipstream_volume_aware.Engine.Orders.{
  all_three, handle_trade-counts, Trades, handle_trade-sell,
}

-- From `e` the engine comes to another state by calls in which the quantities of all trades, each of
-- which has the property `P`, sum up to `volume`.
pub data Session (P : Trade → Type 0) (e : ExecutionEngine) : ℕ → ExecutionEngine → Type 0 where
  begin : Session P e 0 e
  quote :
      {n : ℕ} {f : ExecutionEngine} (now : ℕ)
      → Session P e n f
      → Session P e n (on_quote_received f now)
  trade :
      {n m : ℕ} {f : ExecutionEngine} (s : VwapService) (now : Readings) (t : Trade)
      → P t
      → m ≡ n + t.quantity
      → Session P e n f
      → Session P e m (handle_trade f s now t).1
  halt : {n : ℕ} {f : ExecutionEngine} → Session P e n f → Session P e n (halt_trading f)
  resume : {n : ℕ} {f : ExecutionEngine} → Session P e n f → Session P e n (resume_trading f)

abbrev pub Any : Trade → Type 0
Any t = Unit

abbrev pub NoSell : Trade → Type 0
NoSell t = t.aggressor ≢ TradeAggressor.sell

-- The executed quantity after one trade that no seller started.
within :
    (e : ExecutionEngine) (s : VwapService) (now : Readings) (t : Trade)
    → NoSell t
    → e.traded_quantity ≤ e.max_quantity
    → (handle_trade e s now t).1.traded_quantity ≤ e.max_quantity
unfolding handle_trade buy_test
within e s now t h le = ground (arith, h)

-- Without sellers' trades the executed quantity never passes the maximum, over any session of a new
-- engine.
pub Session-within :
    (max cap' window band any n : ℕ) {e : ExecutionEngine}
    → Session NoSell (init max cap' window band any) n e
    → (e.traded_quantity ≤ max) × (e.max_quantity ≡ max)
unfolding init on_quote_received halt_trading resume_trading
Session-within max cap' window band any n begin = omega arith
Session-within max cap' window band any n (quote {f = f} now r) =
    ground (arith, Session-within max cap' window band any n r)
Session-within max cap' window band any n (trade {n = k} {f = f} s now t h e r) =
    let ih = Session-within max cap' window band any k r in
    let c = handle_trade-counts f s now t in
    let w = within f s now t h (omega (arith, ih.0, ih.1)) in omega (arith, ih.1, w, c.3)
Session-within max cap' window band any n (halt r) = Session-within max cap' window band any n r
Session-within max cap' window band any n (resume r) = Session-within max cap' window band any n r

-- In any session of a new engine whose trades sum up to less than 2^64, the observed quantity is
-- their sum, and no more was executed than was observed.
pub Session-observed :
    (max cap' window band any n : ℕ) {e : ExecutionEngine}
    → n < 2 ^ 64
    → Session Any (init max cap' window band any) n e
    → (e.cumulative_traded_quantity ≡ n) × (e.traded_quantity ≤ n)
unfolding init on_quote_received halt_trading resume_trading
Session-observed max cap' window band any n small begin = omega arith
Session-observed max cap' window band any n small (quote {f = f} now r) =
    ground (arith, Session-observed max cap' window band any n small r)
Session-observed max cap' window band any n small (trade {n = k} {f = f} s now t h e r) =
    let ih = Session-observed max cap' window band any k (omega (arith, e)) r in
    let c = handle_trade-counts f s now t in omega (arith, e, ih.0, ih.1, c.1, c.2)
Session-observed max cap' window band any n small (halt r) =
    Session-observed max cap' window band any n small r
Session-observed max cap' window band any n small (resume r) =
    Session-observed max cap' window band any n small r

-- One trade that no seller started, when the observed quantity has passed the cap.
capped :
    (e : ExecutionEngine) (s : VwapService) (now : Readings) (t : Trade)
    → NoSell t
    → e.cumulative_traded_quantity + t.quantity < 2 ^ 64
    → e.participation_cap ≤ e.cumulative_traded_quantity
    → 0 < t.quantity
    → (handle_trade e s now t).1.traded_quantity ≡ e.traded_quantity
unfolding handle_trade buy_test
capped e s now t h small le pos = ground (arith, h)

-- A trade of a positive quantity that no seller started.
abbrev pub Bought : Trade → Type 0
Bought t = NoSell t × (0 < t.quantity)

-- Once the observed quantity has reached the participation cap, no buyer's trade is executed any
-- more: over any session without sellers' trades, of positive quantities that keep the observed
-- quantity below 2^64, the executed quantity stays.
pub Session-capped :
    (e : ExecutionEngine) (n : ℕ) {f : ExecutionEngine}
    → e.participation_cap ≤ e.cumulative_traded_quantity
    → e.cumulative_traded_quantity + n < 2 ^ 64
    → Session Bought e n f
    → (f.traded_quantity ≡ e.traded_quantity)
      × (f.cumulative_traded_quantity ≡ e.cumulative_traded_quantity + n)
      × (f.participation_cap ≡ e.participation_cap)
unfolding on_quote_received halt_trading resume_trading
Session-capped e n le small begin = omega arith
Session-capped e n le small (quote {f = f} now r) = ground (arith, Session-capped e n le small r)
Session-capped e n le small (trade {n = k} {f = f} s now t h q r) =
    let ih = Session-capped e k le (omega (arith, q)) r in
    let c = handle_trade-counts f s now t in
    let w = capped f s now t h.0 (omega (arith, q, ih.1)) (omega (arith, ih.1, ih.2)) h.1 in
    omega (arith, q, ih.0, ih.1, ih.2, c.1, c.4, w)
Session-capped e n le small (halt r) = Session-capped e n le small r
Session-capped e n le small (resume r) = Session-capped e n le small r

-- A seller's trade that is accepted when the executed quantity stands at the maximum takes it past
-- the maximum: an engine that is ready and not halted, a positive quantity no larger than the
-- executed one, a price at the average plus the band or above, and no wrap-around.
pub sell_passes_max :
    (e : ExecutionEngine) (s : VwapService) (now : Readings) (t : Trade)
    → Trades e now
    → t.aggressor ≡ TradeAggressor.sell
    → e.band_bps < 2 ^ 63
    → (get_vwap s now.system_ms).0 * (10000 + e.band_bps) < t.price * 10000 + 10000
    → (get_vwap s now.system_ms).0 * (10000 + e.band_bps) < 2 ^ 64
    → 0 < t.quantity
    → t.quantity ≤ e.traded_quantity
    → e.traded_quantity + t.quantity < 2 ^ 64
    → e.traded_quantity ≡ e.max_quantity
    → (handle_trade e s now t).1.max_quantity < (handle_trade e s now t).1.traded_quantity
sell_passes_max e s now t tr a band price fits pos held trd top =
    let c = handle_trade-counts e s now t in
    elim (handle_trade-sell e s now t tr a band fits trd) [
      | inl y ↦ omega (arith, y.3, c.3, top, pos)
      | inr n ↦ absurd (n.1 (price, held))
    ]

-- A product with a number that has wrapped below zero.
wrapped_product :
    (v d k : ℕ) → k + d ≡ 2 ^ 64 → 0 < v → 0 < d → v * d < 2 ^ 64 → v * k % 2 ^ 64 ≡ 2 ^ 64 - v * d
wrapped_product v d k e pos posd fits =
    let whole : v * k + v * d ≡ v * 2 ^ 64 = sym (mul-add v k d) ∙ ap (λ (x : ℕ). v * x) e in
    let some_of : 1 ≤ v * d = one-le-mul pos posd in omega (arith, whole, some_of, fits)

-- A band above 10000 makes the unsigned `10000 - bandBps` wrap: a buyer's trade within the two
-- quantity limits passes `shouldBuy` at any price up to (2^64 - vwap * (band - 10000)) / 10000, far
-- above the average. The average is positive and `vwap * (band - 10000)` at most 2^64.
pub wide_band_buys :
    (e : ExecutionEngine) (v : ℕ) (t : Trade)
    → 10000 < e.band_bps
    → e.band_bps < 2 ^ 64
    → 0 < v
    → v * (e.band_bps - 10000) ≤ 2 ^ 64
    → t.price * 10000 + v * (e.band_bps - 10000) < 2 ^ 64
    → e.cumulative_traded_quantity + t.quantity ≤ e.participation_cap
    → e.traded_quantity + t.quantity ≤ e.max_quantity
    → buy_test e v t ≡ true
unfolding buy_test
wide_band_buys e v t wide small pos fits price cum trd =
    let k : sub64 10000 e.band_bps + (e.band_bps - 10000) ≡ 2 ^ 64 = omega arith in
    let w =
      wrapped_product v (e.band_bps - 10000) (sub64 10000 e.band_bps) k pos (omega arith)
        (omega arith) in
    let i =
      all_three t.price (mul64 v (sub64 10000 e.band_bps) / 10000)
        (add64 e.cumulative_traded_quantity t.quantity) e.participation_cap
        (add64 e.traded_quantity t.quantity) e.max_quantity in
    i.1 (omega (arith, w))
