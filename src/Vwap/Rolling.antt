-- ===== src/Vwap/Rolling.antt =====
-- A service that has been given any sequence of trades in the order of their times, against the
-- average over the trades of the window, taken at once and in no order.
use slipstream_volume_aware.Prelude.{
  ℕ, ◌^◌, ◌≤◌, ◌<◌, ◌≡◌, refl, sym, ap, ◌∙◌, List, [], ◌∷◌, ◌++◌, length, All, arith, append-nil,
  append_assoc,
}
use mathlib.Core.Path.{subst}
use slipstream_volume_aware.Prelude.Outcome.{Outcome, ok, ◌>>=◌}
use slipstream_volume_aware.Codec.Gcmd.{Trade}
use slipstream_volume_aware.Vwap.{VwapService, overwrite_oldest, handle_trade, get_vwap, init}
use slipstream_volume_aware.Vwap.Window.{Sized}
use slipstream_volume_aware.Vwap.Average.{IsPriced}
use slipstream_volume_aware.Vwap.Freshness.{keep, Timed, Sold}
use slipstream_volume_aware.Vwap.Young.{Timed-later, Timed-snoc}
use slipstream_volume_aware.Vwap.Kept.{Kept, init-Kept, handle_trade-Kept, get_vwap-average}
use slipstream_volume_aware.Vwap.Bag.{of_list, young, average}

-- The trades that the trade handler gives to the service, one after the other.
unfoldable pub handle_all : VwapService → List Trade → Outcome VwapService
handle_all s [] = ok s
handle_all s (t ∷ ts) = do s' ← handle_trade overwrite_oldest s t; handle_all s' ts

-- Beside the trades that are young at its time, each finds a slot to spare in the ring.
abbrev pub Spaced : ℕ → List Trade → List Trade → Type 0
Spaced window past [] = Unit
Spaced window past (t ∷ ts) =
    (length (keep window t.timestamp_ns past) < 1023) × Spaced window (past ++ (t ∷ [])) ts

-- A service that was given all the trades, and when the last of them came.
record Given (window now : ℕ) (all : List Trade) (o : Outcome VwapService) : Type 0 where
  service : VwapService
  last : ℕ
  takes : o ≡ ok service
  before : last ≤ now
  kept : Kept window last all service

handle_all-Given :
    (window m now : ℕ) (past ts : List Trade) (s : VwapService)
    → Kept window m past s
    → Timed m past
    → m ≤ now
    → now < 2 ^ 64
    → All (λ u. m ≤ u.timestamp_ns) ts
    → Timed now ts
    → Sized ts
    → Sold ts
    → Spaced window past ts
    → Given window now (past ++ ts) (handle_all s ts)
unfolding handle_all
handle_all-Given window m now past [] s k before le small later timed sized sold spaced = record {
  service = s;
  last = m;
  takes = refl;
  before = le;
  kept = subst (λ l. Kept window m l s) (sym (append-nil past)) k;
}
handle_all-Given window m now past (t ∷ ts) s k before le small (from, later) (upto, next, timed)
      (fits, sized) (pos, sold) (room, spaced) =
    let at = t.timestamp_ns in
    let (s1, e1, k1) =
      handle_trade-Kept window m at past s t k from (omega arith) (omega (arith, upto, small))
        (Timed-later m at past from before) fits pos room in
    let g =
      handle_all-Given window at now (past ++ (t ∷ [])) ts s1 k1 (Timed-snoc m past t from before)
        upto small next timed sized sold spaced in
    record {
      service = g.service;
      last = g.last;
      takes = ap (λ r. r >>= (λ x. handle_all x ts)) e1 ∙ g.takes;
      before = g.before;
      kept = subst (λ l. Kept window g.last l g.service) (append_assoc past (t ∷ []) ts) g.kept;
    }

-- A new service is given any trades in the order of their times, of positive 32-bit quantities and
-- prices that are not negative, none after `now`, while the trades that are young at the time of each
-- leave a slot for it and one more. It takes them all, and `getVWAP` at `now` then returns the average over the trades
-- that are young at `now`, as if it were computed at once from all trades and in no order: the sum of
-- quantity times price over the sum of quantities, rounded down, and 0 where no trade is young.
pub handle_all-average :
    (window now : ℕ) (any : Trade) (ts : List Trade)
    → now < 2 ^ 64
    → Timed now ts
    → Sized ts
    → Sold ts
    → IsPriced ts
    → Spaced window [] ts
    → (s : VwapService) × (handle_all (init window any) ts ≡ ok s)
      × ((get_vwap s now).0 ≡ average (young window now (of_list ts)))
handle_all-average window now any ts small timed sized sold priced spaced =
    let g =
      handle_all-Given window 0 now [] ts (init window any) (init-Kept window any) tt (omega arith)
        small (from_zero ts) timed sized sold spaced in
    (
      g.service,
      g.takes,
      get_vwap-average window g.last now ts g.service g.kept g.before small timed priced,
    )
  where
    from_zero : (us : List Trade) → All (λ u. 0 ≤ u.timestamp_ns) us
    from_zero [] = tt
    from_zero (u ∷ us) = (omega arith, from_zero us)
