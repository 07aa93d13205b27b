-- ===== src/Engine/Orders.antt =====
-- What `ExecutionEngine::handleTrade` does with a trade, on every branch.
use slipstream_volume_aware.Prelude.{
  ℕ, ◌+◌, ◌*◌, ◌/◌, ◌^◌, ◌≤◌, ◌<◌, ◌≡◌, ◌⊎◌, ◌↔◌, inl, inr, ◌-◌, if◌then◌else◌, Bool, true, false,
  ◌&&◌, leb, none, some, arith, ap, ◌∙◌, Bool-cases,
}
use slipstream_volume_aware.Prelude.Words.{add64, sub64, mul64}
use slipstream_volume_aware.Codec.Gcmd.{Trade, TradeAggressor}
use slipstream_volume_aware.Codec.Oe.{accepted, rejected, buy, sell}
use slipstream_volume_aware.Vwap.{VwapService, get_vwap}
use slipstream_volume_aware.Engine.{
  ExecutionEngine, Readings, is_ready_to_trade, buy_test, sell_test, order, side_of, handle_trade,
}

-- Every trade moves the order counter and the observed quantity on, order or not; the executed
-- quantity moves with them or stays; the limits and the halt are not touched.
pub handle_trade-counts :
    (e : ExecutionEngine) (s : VwapService) (now : Readings) (t : Trade)
    → let (o, e', s') = handle_trade e s now t in
      (e'.client_order_id_counter ≡ add64 e.client_order_id_counter 1)
      × (e'.cumulative_traded_quantity ≡ add64 e.cumulative_traded_quantity t.quantity)
      × ((e'.traded_quantity ≡ e.traded_quantity)
          ⊎ (e'.traded_quantity ≡ add64 e.traded_quantity t.quantity))
      × (e'.max_quantity ≡ e.max_quantity)
      × (e'.participation_cap ≡ e.participation_cap)
      × (e'.is_halted ≡ e.is_halted)
unfolding handle_trade
handle_trade-counts e s now t = ground arith

-- While the engine waits it answers every trade with a rejected order, halted or not; once it is
-- ready, a halted engine answers with no order. In both cases nothing is executed and the average is
-- not asked for.
pub handle_trade-held :
    (e : ExecutionEngine) (s : VwapService) (now : Readings) (t : Trade)
    → ((is_ready_to_trade e now.steady_ms).0 ≡ false) ⊎ (e.is_halted ≡ true)
    → let ready = (is_ready_to_trade e now.steady_ms).0 in
      let (o, e', s') = handle_trade e s now t in
      (o ≡ (if ready then none else some (order e rejected (side_of t.aggressor) now.steady_ns t)))
      × (e'.traded_quantity ≡ e.traded_quantity)
      × (s' ≡ s)
unfolding handle_trade
handle_trade-held e s now t h = ground arith

pub all_three :
    (a b c d f g : ℕ) → ((leb a b && (leb c d && leb f g)) ≡ true) ↔ ((a ≤ b) × (c ≤ d) × (f ≤ g))
all_three a b c d f g = (λ h. (ground arith, ground arith, ground arith), λ h. ground arith)

both : (a b c d : ℕ) → ((leb a b && leb c d) ≡ true) ↔ ((a ≤ b) × (c ≤ d))
both a b c d = (λ h. (ground arith, ground arith), λ h. ground arith)

-- The bounds of `shouldBuy` and `shouldSell`, with no wrap-around.
buy_bound :
    (v band : ℕ)
    → band ≤ 10000
    → v * (10000 - band) < 2 ^ 64
    → mul64 v (sub64 10000 band) ≡ v * (10000 - band)
buy_bound v band h fits =
    let d : sub64 10000 band ≡ 10000 - band = omega arith in rw d (omega arith)

sell_bound :
    (v band : ℕ)
    → band < 2 ^ 63
    → v * (10000 + band) < 2 ^ 64
    → mul64 v (add64 10000 band) ≡ v * (10000 + band)
sell_bound v band h fits =
    let d : add64 10000 band ≡ 10000 + band = omega arith in rw d (omega arith)

module _ (e : ExecutionEngine) (v : ℕ) (t : Trade) where
  pub buy_test_iff :
      e.band_bps ≤ 10000
      → v * (10000 - e.band_bps) < 2 ^ 64
      → e.cumulative_traded_quantity + t.quantity < 2 ^ 64
      → e.traded_quantity + t.quantity < 2 ^ 64
      → (buy_test e v t ≡ true) ↔ (
          (t.price * 10000 ≤ v * (10000 - e.band_bps))
          × (e.cumulative_traded_quantity + t.quantity ≤ e.participation_cap)
          × (e.traded_quantity + t.quantity ≤ e.max_quantity))
  unfolding buy_test
  buy_test_iff band fits cum trd =
      let b = buy_bound v e.band_bps band fits in
      let i =
        all_three t.price (mul64 v (sub64 10000 e.band_bps) / 10000)
          (add64 e.cumulative_traded_quantity t.quantity) e.participation_cap
          (add64 e.traded_quantity t.quantity) e.max_quantity in
      (λ h. omega (arith, b, i.0 h), λ h. i.1 (omega (arith, b, h)))

  pub sell_test_iff :
      e.band_bps < 2 ^ 63
      → v * (10000 + e.band_bps) < 2 ^ 64
      → (sell_test e v t ≡ true)
        ↔ ((v * (10000 + e.band_bps) < t.price * 10000 + 10000) × (t.quantity ≤ e.traded_quantity))
  unfolding sell_test
  sell_test_iff band fits =
      let b = sell_bound v e.band_bps band fits in
      let i =
        both (mul64 v (add64 10000 e.band_bps) / 10000) t.price t.quantity e.traded_quantity in
      (λ h. omega (arith, b, i.0 h), λ h. i.1 (omega (arith, b, h)))

-- A ready engine that is not halted.
abbrev pub Trades : ExecutionEngine → Readings → Type 0
Trades e now = ((is_ready_to_trade e now.steady_ms).0 ≡ true) × (e.is_halted ≡ false)

module _ (e : ExecutionEngine) (s : VwapService) (now : Readings) (t : Trade)
    (tr : Trades e now) where
  answer_buy :
      t.aggressor ≡ TradeAggressor.buy
      → let test = buy_test e (get_vwap s now.system_ms).0 t in
        let (o, e', s') = handle_trade e s now t in
        (o ≡ some (order e (if test then accepted else rejected) buy now.steady_ns t))
        × (e'.traded_quantity
            ≡ (if test then add64 e.traded_quantity t.quantity else e.traded_quantity))
        × (s' ≡ (get_vwap s now.system_ms).1)
  unfolding handle_trade buy_test
  answer_buy a = ground arith

  answer_sell :
      t.aggressor ≡ TradeAggressor.sell
      → let test = sell_test e (get_vwap s now.system_ms).0 t in
        let (o, e', s') = handle_trade e s now t in
        (o ≡ some (order e (if test then accepted else rejected) sell now.steady_ns t))
        × (e'.traded_quantity
            ≡ (if test then add64 e.traded_quantity t.quantity else e.traded_quantity))
        × (s' ≡ (get_vwap s now.system_ms).1)
  unfolding handle_trade sell_test
  answer_sell a = ground arith

  -- A ready engine that is not halted answers a buyer's trade with a buy order that copies it. The
  -- order is accepted exactly when the price is at most the average less the band, the observed
  -- quantity with the trade is within the participation cap, and the executed quantity with the trade
  -- is within the maximum; then the executed quantity grows by the trade's, and else it stays. The
  -- band is at most 10000, and no sum or product passes 64 bits.
  pub handle_trade-buy :
      t.aggressor ≡ TradeAggressor.buy
      → e.band_bps ≤ 10000
      → (get_vwap s now.system_ms).0 * (10000 - e.band_bps) < 2 ^ 64
      → e.cumulative_traded_quantity + t.quantity < 2 ^ 64
      → e.traded_quantity + t.quantity < 2 ^ 64
      → let v = (get_vwap s now.system_ms).0 in
        let (o, e', s') = handle_trade e s now t in
        ((o ≡ some (order e accepted buy now.steady_ns t))
          × (t.price * 10000 ≤ v * (10000 - e.band_bps))
          × (e.cumulative_traded_quantity + t.quantity ≤ e.participation_cap)
          × (e.traded_quantity + t.quantity ≤ e.max_quantity)
          × (e'.traded_quantity ≡ e.traded_quantity + t.quantity))
        ⊎ ((o ≡ some (order e rejected buy now.steady_ns t))
            × ¬ (
                (t.price * 10000 ≤ v * (10000 - e.band_bps))
                × (e.cumulative_traded_quantity + t.quantity ≤ e.participation_cap)
                × (e.traded_quantity + t.quantity ≤ e.max_quantity))
            × (e'.traded_quantity ≡ e.traded_quantity))
  handle_trade-buy a band fits cum trd = elim (Bool-cases test) [
    | inl y ↦
        let c = i.0 y in
        inl (
          r.0 ∙ ap (λ b. some (order e (if b then accepted else rejected) buy now.steady_ns t)) y,
          c.0,
          c.1,
          c.2,
          r.1
              ∙ ap (λ b. if b then add64 e.traded_quantity t.quantity else e.traded_quantity) y
              ∙ omega arith,
        )
    | inr n ↦ inr (
      r.0 ∙ ap (λ b. some (order e (if b then accepted else rejected) buy now.steady_ns t)) n,
      (λ c. cc (n, i.1 c)),
      r.1 ∙ ap (λ b. if b then add64 e.traded_quantity t.quantity else e.traded_quantity) n,
    )
  ]
    where
      test : Bool
      test = buy_test e (get_vwap s now.system_ms).0 t

      r :
          let (o, e', s') = handle_trade e s now t in
          (o ≡ some (order e (if test then accepted else rejected) buy now.steady_ns t))
          × (e'.traded_quantity
              ≡ (if test then add64 e.traded_quantity t.quantity else e.traded_quantity))
          × (s' ≡ (get_vwap s now.system_ms).1)
      r = answer_buy a

      i : (test ≡ true) ↔ (
          (t.price * 10000 ≤ (get_vwap s now.system_ms).0 * (10000 - e.band_bps))
          × (e.cumulative_traded_quantity + t.quantity ≤ e.participation_cap)
          × (e.traded_quantity + t.quantity ≤ e.max_quantity))
      i = buy_test_iff e (get_vwap s now.system_ms).0 t band fits cum trd

  -- A ready engine that is not halted answers a seller's trade with a sell order that copies it. The
  -- order is accepted exactly when the price is at least the average plus the band, rounded down, and
  -- the executed quantity is at least the trade's; then the executed quantity GROWS by the trade's,
  -- and else it stays. Neither limit is looked at. No sum or product passes 64 bits.
  pub handle_trade-sell :
      t.aggressor ≡ TradeAggressor.sell
      → e.band_bps < 2 ^ 63
      → (get_vwap s now.system_ms).0 * (10000 + e.band_bps) < 2 ^ 64
      → e.traded_quantity + t.quantity < 2 ^ 64
      → let v = (get_vwap s now.system_ms).0 in
        let (o, e', s') = handle_trade e s now t in
        ((o ≡ some (order e accepted sell now.steady_ns t))
          × (v * (10000 + e.band_bps) < t.price * 10000 + 10000)
          × (t.quantity ≤ e.traded_quantity)
          × (e'.traded_quantity ≡ e.traded_quantity + t.quantity))
        ⊎ ((o ≡ some (order e rejected sell now.steady_ns t))
            × ¬ (
                (v * (10000 + e.band_bps) < t.price * 10000 + 10000)
                × (t.quantity ≤ e.traded_quantity))
            × (e'.traded_quantity ≡ e.traded_quantity))
  handle_trade-sell a band fits trd = elim (Bool-cases test) [
    | inl y ↦
        let c = i.0 y in
        inl (
          r.0 ∙ ap (λ b. some (order e (if b then accepted else rejected) sell now.steady_ns t)) y,
          c.0,
          c.1,
          r.1
              ∙ ap (λ b. if b then add64 e.traded_quantity t.quantity else e.traded_quantity) y
              ∙ omega arith,
        )
    | inr n ↦ inr (
      r.0 ∙ ap (λ b. some (order e (if b then accepted else rejected) sell now.steady_ns t)) n,
      (λ c. cc (n, i.1 c)),
      r.1 ∙ ap (λ b. if b then add64 e.traded_quantity t.quantity else e.traded_quantity) n,
    )
  ]
    where
      test : Bool
      test = sell_test e (get_vwap s now.system_ms).0 t

      r :
          let (o, e', s') = handle_trade e s now t in
          (o ≡ some (order e (if test then accepted else rejected) sell now.steady_ns t))
          × (e'.traded_quantity
              ≡ (if test then add64 e.traded_quantity t.quantity else e.traded_quantity))
          × (s' ≡ (get_vwap s now.system_ms).1)
      r = answer_sell a

      i : (test ≡ true) ↔ (
          ((get_vwap s now.system_ms).0 * (10000 + e.band_bps) < t.price * 10000 + 10000)
          × (t.quantity ≤ e.traded_quantity))
      i = sell_test_iff e (get_vwap s now.system_ms).0 t band fits
