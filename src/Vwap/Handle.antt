-- ===== src/Vwap/Handle.antt =====
-- `handleTrade` under each policy, against the window.
use slipstream_volume_aware.Prelude.{
  ◌<◌, ◌≡◌, ◌≢◌, refl, List, [], ◌∷◌, length, false, ◌&&◌, ◌==◌, if◌then◌else◌, arith, Bool-cases,
  ==_iff, inl, inr,
}
use slipstream_volume_aware.Prelude.Words.{IsU32}
use slipstream_volume_aware.Prelude.Outcome.{Outcome, ok, err}
use slipstream_volume_aware.Codec.Gcmd.{Trade}
use slipstream_volume_aware.Vwap.{
  OverflowPolicy, reject_new, overwrite_oldest, throw, VwapService, add_trade, remove_old_trades,
  remove_oldest_trade, overflow, handle_trade, full_test,
}
use slipstream_volume_aware.Vwap.Window
use slipstream_volume_aware.Vwap.Window.{quantity_sum, add, drop_first, remove_old}
use slipstream_volume_aware.Vwap.Refine.{Represents, drop_oldest-Represents, add_trade-Represents}
use slipstream_volume_aware.Vwap.Expiry.{full_test-eq, full_test-ne, remove_old_trades-Represents}

-- `removeOldestTrade` on a full ring takes the oldest trade out.
remove_oldest_trade-Represents :
    (s : VwapService) (ts : List Trade)
    → length ts ≡ 1024
    → Represents s ts
    → Represents (remove_oldest_trade s) (drop_first ts)
unfolding remove_oldest_trade drop_first
remove_oldest_trade-Represents s [] e r = absurd (omega (arith, e))
remove_oldest_trade-Represents s (t ∷ ts) e r =
    rw (busy, r.holds.0) (drop_oldest-Represents s t ts r)
  where
    busy : (s.head == s.tail && s.total_quantity == 0) ≡ false
    busy = ground (arith, r.quantity, r.full_positive e)

length-drop_first : (ts : List Trade) → length ts ≡ 1024 → length (drop_first ts) < 1024
unfolding drop_first
length-drop_first [] e = absurd (omega (arith, e))
length-drop_first (t ∷ ts) e = omega (arith, e)

-- Two outcomes agree: both fail in the same way, or the service keeps the window.
abbrev pub Agrees : Outcome VwapService → Outcome (List Trade) → Type 0
Agrees (ok s) (ok ts) = Represents s ts
Agrees (ok s) (err f) = ⊥
Agrees (err e) (ok ts) = ⊥
Agrees (err e) (err f) = e ≡ f

overflow-Agrees :
    (policy : OverflowPolicy) (s : VwapService) (ts : List Trade) (t : Trade)
    → IsU32 t.quantity
    → length ts ≡ 1024
    → Represents s ts
    → Agrees (overflow policy s t) (Window.overflow policy ts t)
unfolding overflow Window.overflow
overflow-Agrees reject_new s ts t h e r = r
overflow-Agrees overwrite_oldest s ts t h e r =
    add_trade-Represents (remove_oldest_trade s) t (drop_first ts)
      (remove_oldest_trade-Represents s ts e r) (length-drop_first ts e) h
overflow-Agrees throw s ts t h e r = refl

after_expiry :
    (policy : OverflowPolicy) (s : VwapService) (ts : List Trade) (t : Trade)
    → IsU32 t.quantity
    → Represents s ts
    → Agrees
        (if full_test s then overflow policy s t else ok (add_trade s t))
        (if length ts == 1024 then Window.overflow policy ts t else ok (add ts t))
after_expiry policy s ts t h r = elim (Bool-cases (length ts == 1024)) [
  | inl e ↦
      let e' = (==_iff _ _).0 e in rw (e, full_test-eq r e') (overflow-Agrees policy s ts t h e' r)
  | inr e ↦
      let ne : length ts ≢ 1024 = ground arith in
      rw (e, full_test-ne r ne) (add_trade-Represents s t ts r (omega (arith, ne, r.fits)) h)
]

-- Under every policy `handleTrade` does to the ring what `Window.handle` does to the list of its
-- trades, for any trade with a 32-bit quantity: the same failure, or a service that keeps the new
-- window, with totals that are the sums over it.
pub handle_trade_refines :
    (policy : OverflowPolicy) (s : VwapService) (ts : List Trade) (t : Trade)
    → IsU32 t.quantity
    → Represents s ts
    → Agrees (handle_trade policy s t) (Window.handle policy s.rolling_window_size_ms ts t)
unfolding handle_trade Window.handle
handle_trade_refines policy s ts t h r =
    after_expiry policy (remove_old_trades s t.timestamp_ns)
      (remove_old s.rolling_window_size_ms t.timestamp_ns ts) t h
      (remove_old_trades-Represents t.timestamp_ns s ts r)
