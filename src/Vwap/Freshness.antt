-- ===== src/Vwap/Freshness.antt =====
-- Which trades the rolling window of `VWAPService` keeps, by their age.
use slipstream_volume_aware.Prelude.{
  ℕ, ◌+◌, ◌-◌, ◌^◌, ◌≤◌, ◌<◌, ◌≡◌, refl, ap, ◌∙◌, List, [], ◌∷◌, ◌++◌, length, true, leb, ltb,
  if◌then◌else◌, All, arith, length-append,
}
use mathlib.Core.Path.{subst}
use slipstream_volume_aware.Prelude.Words.{IsU32, IsU64}
use slipstream_volume_aware.Prelude.Outcome.{Outcome, ok}
use slipstream_volume_aware.Codec.Gcmd.{Trade}
use slipstream_volume_aware.Vwap.{VwapService, overwrite_oldest, remove_old_trades, handle_trade}
use slipstream_volume_aware.Vwap.Window
use slipstream_volume_aware.Vwap.Window.{
  quantity_sum, expire, remove_old, add, settle, drop_first, stale, quantity_sum-append,
}
use slipstream_volume_aware.Vwap.Refine.{Represents}
use slipstream_volume_aware.Vwap.Expiry.{remove_old_trades-Represents}
use slipstream_volume_aware.Vwap.Handle.{Agrees, handle_trade_refines}

-- The trades of age at most `window`, where no trade is newer than `now`.
unfoldable pub keep : ℕ → ℕ → List Trade → List Trade
keep window now [] = []
keep window now (t ∷ ts) =
    let rest = keep window now ts in if leb (now - t.timestamp_ns) window then t ∷ rest else rest

-- The trades stand in the order of their times, none of which is after `now`.
abbrev pub Timed : ℕ → List Trade → Type 0
Timed now [] = Unit
Timed now (t ∷ ts) =
    (t.timestamp_ns ≤ now) × All (λ u. t.timestamp_ns ≤ u.timestamp_ns) ts × Timed now ts

abbrev pub Sold : List Trade → Type 0
Sold = All (λ t. 0 < t.quantity)

-- Behind a fresh trade all are fresh.
keep-All :
    (window now low : ℕ) (ts : List Trade)
    → now - low ≤ window
    → All (λ u. low ≤ u.timestamp_ns) ts
    → keep window now ts ≡ ts
unfolding keep
keep-All window now low [] h a = refl
keep-All window now low (t ∷ ts) h (a, as') = ground (arith, keep-All window now low ts h as')

-- The wrapped difference is the true one.
stale-true :
    (window now : ℕ) (t : Trade)
    → t.timestamp_ns ≤ now
    → now < 2 ^ 64
    → stale window now t ≡ ltb window (now - t.timestamp_ns)
stale-true window now t h k = ap (ltb window) (omega arith)

pub expire-keep :
    (window now : ℕ) (ts : List Trade)
    → now < 2 ^ 64
    → Sold ts
    → Timed now ts
    → expire window now ts ≡ keep window now ts
unfolding expire keep quantity_sum
expire-keep window now [] k s h = refl
expire-keep window now (t ∷ ts) k (s, ss) (a, b, c) =
    let fresh =
      λ (le : now - t.timestamp_ns ≤ window). keep-All window now t.timestamp_ns ts le b in
    ground (arith, expire-keep window now ts k ss c, stale-true window now t a k, fresh)

pub remove_old-room :
    (window now : ℕ) (ts : List Trade)
    → length ts < 1024
    → remove_old window now ts ≡ expire window now ts
unfolding remove_old
remove_old-room window now ts h = ground arith

remove_old-full :
    (window now : ℕ) (ts : List Trade) → length ts ≡ 1024 → remove_old window now ts ≡ ts
unfolding remove_old
remove_old-full window now ts e = ground arith

-- While the ring has a free slot, all quantities are positive, and the trades stand in the order of
-- their times with none after the current time, `removeOldTrades` keeps exactly the trades whose age
-- is at most the window's length.
pub remove_old_trades-keep :
    (now : ℕ) (s : VwapService) (ts : List Trade)
    → Represents s ts
    → length ts < 1024
    → now < 2 ^ 64
    → Sold ts
    → Timed now ts
    → Represents (remove_old_trades s now) (keep s.rolling_window_size_ms now ts)
remove_old_trades-keep now s ts r room k sold timed =
    subst (Represents (remove_old_trades s now))
      (remove_old-room s.rolling_window_size_ms now ts room
        ∙ expire-keep s.rolling_window_size_ms now ts k sold timed)
      (remove_old_trades-Represents now s ts r)

-- A trade is newer than `now`, by less than what the wrapped difference leaves above the window.
abbrev pub Newer : ℕ → ℕ → Trade → Type 0
Newer window now t =
    (now < t.timestamp_ns) × (t.timestamp_ns - now + window < 2 ^ 64) × IsU64 t.timestamp_ns

expire-Newer :
    (window now : ℕ) (ts : List Trade)
    → Sold ts
    → All (Newer window now) ts
    → expire window now ts ≡ []
unfolding expire quantity_sum
expire-Newer window now [] s h = refl
expire-Newer window now (t ∷ ts) (s, ss) (h, hs) =
    let old : stale window now t ≡ true = ground arith in
    ground (arith, expire-Newer window now ts ss hs, old)

-- A current time that is before the times of all trades in the window (by less than 2^64 minus the
-- window's length) empties a ring that has a free slot: the unsigned difference wraps, and every
-- trade counts as too old. The quantities are taken to be positive.
pub remove_old_trades-Newer :
    (now : ℕ) (s : VwapService) (ts : List Trade)
    → Represents s ts
    → length ts < 1024
    → Sold ts
    → All (Newer s.rolling_window_size_ms now) ts
    → Represents (remove_old_trades s now) []
remove_old_trades-Newer now s ts r room sold newer =
    subst (Represents (remove_old_trades s now))
      (remove_old-room s.rolling_window_size_ms now ts room
        ∙ expire-Newer s.rolling_window_size_ms now ts sold newer)
      (remove_old_trades-Represents now s ts r)

pub Agrees-ok :
    (o : Outcome VwapService) (ts : List Trade)
    → Agrees o (ok ts)
    → (s : VwapService) × (o ≡ ok s) × Represents s ts
Agrees-ok (ok s) ts r = (s, refl, r)
Agrees-ok (Outcome.err e) ts r = absurd r

length-replaced :
    (ts : List Trade) (t : Trade) → length ts ≡ 1024 → length (drop_first ts ++ (t ∷ [])) ≡ 1024
unfolding drop_first
length-replaced [] t e = absurd (omega (arith, e))
length-replaced (u ∷ ts) t e = omega (arith, e, length-append ts (t ∷ []))

handle-full :
    (window : ℕ) (ts : List Trade) (t : Trade)
    → length ts ≡ 1024
    → 0 < t.quantity
    → Window.handle overwrite_oldest window ts t ≡ ok (drop_first ts ++ (t ∷ []))
unfolding Window.handle Window.overflow add settle
handle-full window ts t e pos =
    rw (remove_old-full window t.timestamp_ns ts e) (ground (arith, length-replaced ts t e, sums))
  where
    sums :
        quantity_sum (drop_first ts ++ (t ∷ [])) ≡ quantity_sum (drop_first ts) + (t.quantity + 0)
    sums = unfold quantity_sum in quantity_sum-append (drop_first ts) (t ∷ [])

-- A full ring no longer expires. Whatever the times, `removeOldTrades` leaves its window as it is,
-- and a trade with a positive quantity replaces the oldest trade alone and leaves the ring full.
pub full_ring_stays :
    (now : ℕ) (s : VwapService) (ts : List Trade) (t : Trade)
    → Represents s ts
    → length ts ≡ 1024
    → IsU32 t.quantity
    → 0 < t.quantity
    → Represents (remove_old_trades s now) ts
      × ((s' : VwapService) × (handle_trade overwrite_oldest s t ≡ ok s')
          × Represents s' (drop_first ts ++ (t ∷ [])))
      × (length (drop_first ts ++ (t ∷ [])) ≡ 1024)
full_ring_stays now s ts t r e small pos = (
  subst (Represents (remove_old_trades s now)) (remove_old-full s.rolling_window_size_ms now ts e)
      (remove_old_trades-Represents now s ts r),
  Agrees-ok (handle_trade overwrite_oldest s t) (drop_first ts ++ (t ∷ [])) (
      subst (Agrees (handle_trade overwrite_oldest s t))
        (handle-full s.rolling_window_size_ms ts t e pos)
        (handle_trade_refines overwrite_oldest s ts t small r)),
  length-replaced ts t e,
)
