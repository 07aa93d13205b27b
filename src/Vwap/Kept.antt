-- ===== src/Vwap/Kept.antt =====
-- What a service has of all the trades that it was given, while `getVWAP` is called in between.
use slipstream_volume_aware.Prelude.{
  ℕ, zero, suc, ◌^◌, ◌≤◌, ◌<◌, ◌≡◌, refl, sym, ap, ◌∙◌, List, [], ◌∷◌, ◌++◌, length, ◌==◌, false,
  All-append, arith, length-append,
}
use mathlib.Core.Path.{subst}
use slipstream_volume_aware.Prelude.Words.{IsU32}
use slipstream_volume_aware.Prelude.Outcome.{ok}
use slipstream_volume_aware.Codec.Gcmd.{Trade}
use slipstream_volume_aware.Vwap.{
  VwapService, overwrite_oldest, remove_loop, remove_old_trades, remove_oldest_trade, drop_oldest,
  overflow, add_trade, handle_trade, get_vwap, init,
}
use slipstream_volume_aware.Vwap.Window
use slipstream_volume_aware.Vwap.Window.{quantity_sum, remove_old, add, settle, quantity_sum-append}
use slipstream_volume_aware.Vwap.Refine.{Represents, init-Represents}
use slipstream_volume_aware.Vwap.Handle.{Agrees, handle_trade_refines}
use slipstream_volume_aware.Vwap.Average.{IsPriced, get_vwap_average, All-below}
use slipstream_volume_aware.Vwap.Freshness.{
  keep, Timed, Sold, remove_old-room, expire-keep, remove_old_trades-keep, Agrees-ok,
}
use slipstream_volume_aware.Vwap.Young.{
  keep-All, length-keep, keep-Timed, keep-keep, keep-append, length-keep-keep, Timed-later,
  Timed-snoc, Timed-last,
}
use slipstream_volume_aware.Vwap.Bag.{of_list, young, average, quantity, value}

remove_loop-window :
    (fuel now : ℕ) (s : VwapService)
    → (remove_loop fuel now s).rolling_window_size_ms ≡ s.rolling_window_size_ms
unfolding remove_loop drop_oldest
remove_loop-window zero now s = refl
remove_loop-window (suc fuel) now s =
    grind (arith, λ (o : Trade). remove_loop-window fuel now (drop_oldest s o))

settle-sold :
    (ts : List Trade) (t : Trade) → 0 < t.quantity → settle (ts ++ (t ∷ [])) ≡ ts ++ (t ∷ [])
unfolding settle quantity_sum
settle-sold ts t pos = ground (arith, quantity_sum-append ts (t ∷ []))

handle_trade-window :
    (s s' : VwapService) (t : Trade)
    → handle_trade overwrite_oldest s t ≡ ok s'
    → s'.rolling_window_size_ms ≡ s.rolling_window_size_ms
unfolding handle_trade overflow add_trade remove_oldest_trade drop_oldest remove_old_trades
handle_trade-window s s' t e = grind (arith, e, remove_loop-window 1024 t.timestamp_ns s)

-- A trade on the window, while there is a slot to spare.
handle-room :
    (window : ℕ) (ts : List Trade) (t : Trade)
    → t.timestamp_ns < 2 ^ 64
    → length ts < 1024
    → Sold ts
    → Timed t.timestamp_ns ts
    → 0 < t.quantity
    → Window.handle overwrite_oldest window ts t ≡ ok (keep window t.timestamp_ns ts ++ (t ∷ []))
unfolding Window.handle add
handle-room window ts t small room sold timed pos =
    let now = t.timestamp_ns in
    let same = remove_old-room window now ts room ∙ expire-keep window now ts small sold timed in
    let less = length-keep window now ts in
    let some_room : (length (keep window now ts) == 1024) ≡ false = ground (arith, less, room) in
    rw (same, some_room, settle-sold, pos) refl

-- The ring of the service holds some of `all` the trades that it was given, among them those that are
-- young at `last` or will be later.
pub record Kept (window last : ℕ) (all : List Trade) (s : VwapService) : Type 0 where
  pub ring : List Trade
  pub window_is : s.rolling_window_size_ms ≡ window
  pub represents : Represents s ring
  pub timed : (now : ℕ) → Timed now all → Timed now ring
  pub sold : Sold ring
  pub room : length ring < 1024
  pub agrees : (now : ℕ) → last ≤ now → keep window now ring ≡ keep window now all
  pub fewer : (now : ℕ) → length (keep window now ring) ≤ length (keep window now all)

pub init-Kept : (window : ℕ) (any : Trade) → Kept window 0 [] (init window any)
unfolding init
init-Kept window any = record {
  ring = [];
  window_is = refl;
  represents = init-Represents window any;
  timed = λ now h. h;
  sold = tt;
  room = omega arith;
  agrees = λ now h. refl;
  fewer = λ now. omega arith;
}

-- One trade, at least as late as those before it, with a slot to spare for it. What is handled may come
-- later than its time.
pub handle_trade-Kept :
    (window last now : ℕ) (all : List Trade) (s : VwapService) (t : Trade)
    → Kept window last all s
    → last ≤ now
    → t.timestamp_ns ≤ now
    → now < 2 ^ 64
    → Timed t.timestamp_ns all
    → IsU32 t.quantity
    → 0 < t.quantity
    → length (keep window t.timestamp_ns all) < 1023
    → (s' : VwapService) × (handle_trade overwrite_oldest s t ≡ ok s')
      × Kept window now (all ++ (t ∷ [])) s'
handle_trade-Kept window last now all s t k later from small timed sized pos room =
    let at = t.timestamp_ns in
    let ring' = keep window at k.ring ++ (t ∷ []) in
    let timed_ring = k.timed at timed in
    let refined = handle_trade_refines overwrite_oldest s k.ring t sized k.represents in
    let result =
      ap (λ w. Window.handle overwrite_oldest w k.ring t) k.window_is
      ∙ handle-room window k.ring t (omega (arith, from, small)) k.room k.sold timed_ring pos in
    let (s', e, r) =
      Agrees-ok (handle_trade overwrite_oldest s t) ring'
        (subst (Agrees (handle_trade overwrite_oldest s t)) result refined) in
    (
      s',
      e,
      record {
        ring = ring';
        window_is = handle_trade-window s s' t e ∙ k.window_is;
        represents = r;
        timed = λ n h. Timed-later at n ring' (Timed-last n all t h) (
            Timed-snoc at (keep window at k.ring) t (omega arith)
              (keep-Timed window at at k.ring timed_ring));
        sold =
            All-append (λ u. 0 < u.quantity) (keep window at k.ring) (t ∷ [])
              (keep-All (λ u. 0 < u.quantity) window at k.ring k.sold) (pos, tt);
        room = omega (arith, k.fewer at, room, length-append (keep window at k.ring) (t ∷ []));
        agrees = λ n h.
            keep-append window n (keep window at k.ring) (t ∷ [])
            ∙ ap (λ l. l ++ keep window n (t ∷ []))
                (keep-keep window at n k.ring (omega (arith, h, from))
                  ∙ k.agrees n (omega (arith, h, later)))
            ∙ sym (keep-append window n all (t ∷ []));
        fewer = λ n.
            let ours = ap length (keep-append window n (keep window at k.ring) (t ∷ [])) in
            let theirs = ap length (keep-append window n all (t ∷ [])) in
            omega (
              arith,
              ours,
              theirs,
              k.fewer n,
              length-keep-keep window at n k.ring,
              length-append (keep window n (keep window at k.ring)) (keep window n (t ∷ [])),
              length-append (keep window n all) (keep window n (t ∷ [])),
            );
      },
    )

get_vwap-service : (s : VwapService) (now : ℕ) → (get_vwap s now).1 ≡ remove_old_trades s now
unfolding get_vwap
get_vwap-service s now = ground arith

-- `getVWAP` takes out only what is too old from now on.
pub get_vwap-Kept :
    (window last now : ℕ) (all : List Trade) (s : VwapService)
    → Kept window last all s
    → last ≤ now
    → now < 2 ^ 64
    → Timed now all
    → Kept window now all (get_vwap s now).1
unfolding remove_old_trades
get_vwap-Kept window last now all s k later small timed =
    let r =
      remove_old_trades-keep now s k.ring k.represents k.room small k.sold (k.timed now timed) in
    subst (Kept window now all) (sym (get_vwap-service s now)) (record {
      ring = keep window now k.ring;
      window_is = remove_loop-window 1024 now s ∙ k.window_is;
      represents =
          subst (λ w. Represents (remove_old_trades s now) (keep w now k.ring)) k.window_is r;
      timed = λ n h. keep-Timed window now n k.ring (k.timed n h);
      sold = keep-All (λ u. 0 < u.quantity) window now k.ring k.sold;
      room = omega (arith, k.room, length-keep window now k.ring);
      agrees = λ n h. keep-keep window now n k.ring h ∙ k.agrees n (omega (arith, h, later));
      fewer = λ n. omega (arith, k.fewer n, length-keep-keep window now n k.ring);
    })

-- What it returns is the average over the trades that are young, of all that the service was given.
pub get_vwap-average :
    (window last now : ℕ) (all : List Trade) (s : VwapService)
    → Kept window last all s
    → last ≤ now
    → now < 2 ^ 64
    → Timed now all
    → IsPriced all
    → (get_vwap s now).0 ≡ average (young window now (of_list all))
unfolding average young quantity value
get_vwap-average window last now all s k later small timed priced =
    let young_at : remove_old s.rolling_window_size_ms now k.ring ≡ keep window now all =
      ap (λ w. remove_old w now k.ring) k.window_is
      ∙ remove_old-room window now k.ring k.room
      ∙ expire-keep window now k.ring small k.sold (k.timed now timed)
      ∙ k.agrees now later in
    let fine = keep-All (λ u. u.price < 2 ^ 63) window now all priced in
    let (kept, returned) =
      get_vwap_average now s k.ring (keep window now all) 0 (2 ^ 63) k.represents young_at fine
        (All-below (keep window now all) fine) in
    ground (arith, returned)
