-- ===== src/Vwap/Tests.antt =====
-- Windows of one trade, and a full one.
use slipstream_volume_aware.Prelude.{
  ℕ, zero, suc, ◌+◌, ◌*◌, ◌/◌, ◌%◌, ◌^◌, ◌≤◌, ◌<◌, ◌≡◌, ◌⊎◌, refl, sym, ap, List, [], ◌∷◌, ◌++◌,
  length, replicate, length-replicate, get_elem?, some, All, arith,
}
use slipstream_volume_aware.Prelude.Words.{IsU32}
use slipstream_volume_aware.Prelude.Outcome.{ok}
use slipstream_volume_aware.Prelude.Circular.{Holds}
use slipstream_volume_aware.Codec.Gcmd.{Trade, buy}
use slipstream_volume_aware.Vwap.{
  VwapService, overwrite_oldest, priced, init, add_trade, remove_old_trades, handle_trade, get_vwap,
  loop_test, remove_loop,
}
use slipstream_volume_aware.Vwap.Window
use slipstream_volume_aware.Vwap.Window.{
  quantity_sum, priced_sum, remove_old, expire, add, settle, drop_first,
}
use slipstream_volume_aware.Vwap.Refine.{Represents, init-Represents, add_trade-Represents}
use slipstream_volume_aware.Vwap.Handle.{Agrees, handle_trade_refines}
use slipstream_volume_aware.Vwap.Average.{exact_sum, get_vwap_average}
use slipstream_volume_aware.Vwap.Freshness.{keep, full_ring_stays}
use slipstream_volume_aware.Vwap.Bag.{of_list, young, average, quantity, value}
use slipstream_volume_aware.Vwap.Rolling.{handle_all, handle_all-average}

abbrev first : Trade
first = record {
  symbol = [];
  timestamp_ns = 10_000;
  quantity = 30;
  price = 1_000_000;
  aggressor = buy;
  id = 1;
}

abbrev second : Trade
second = record first { timestamp_ns = 11_000; quantity = 10; price = 1_040_000 }

fresh : VwapService
unfolding init
fresh = init 5000 first

one : VwapService
unfolding fresh add_trade
one = add_trade fresh first

fresh-Represents : Represents fresh []
unfolding fresh
fresh-Represents = init-Represents 5000 first

one-Represents : Represents one (first ∷ [])
unfolding one add settle quantity_sum fresh
one-Represents = add_trade-Represents fresh first [] fresh-Represents (omega arith) (omega arith)

-- The average of 30 at 100.0000 and 10 at 104.0000.
average_of_two : (get_vwap (add_trade one second) 12_000).0 ≡ 1_010_000
unfolding get_vwap one fresh remove_old_trades remove_loop loop_test priced
average_of_two = refl

handle_trade_refines_example :
    Agrees
      (handle_trade overwrite_oldest one second)
      (Window.handle overwrite_oldest 5000 (first ∷ []) second)
unfolding one fresh
handle_trade_refines_example =
    handle_trade_refines overwrite_oldest one (first ∷ []) second (omega arith) one-Represents

get_vwap_average_example :
    let (v, s') = get_vwap one 12_000 in
    Represents s' (first ∷ [])
    × ((quantity_sum (first ∷ []) ≡ 0) × (v ≡ 0)
        ⊎ (0 < 30) × (v ≡ 30_000_000 / 30) × (5 ≤ v) × (v ≤ 1_000_001))
unfolding one fresh remove_old expire quantity_sum exact_sum
get_vwap_average_example =
    get_vwap_average 12_000 one (first ∷ []) (first ∷ []) 5 1_000_001 one-Represents refl
      (omega arith) (omega arith)

get_elem?-replicate : (n i : ℕ) (t : Trade) → i < n → get_elem? (replicate n t) i ≡ some t
get_elem?-replicate zero i t h = absurd (omega arith)
get_elem?-replicate (suc n) zero t h = refl
get_elem?-replicate (suc n) (suc i) t h = get_elem?-replicate n i t (omega arith)

Holds-replicate : (n k i : ℕ) (t : Trade) → i < n → Holds n (replicate n t) i (replicate k t)
Holds-replicate n zero i t h = tt
Holds-replicate n (suc k) i t h =
    (get_elem?-replicate n i t h, Holds-replicate n k ((i + 1) % n) t (omega arith))

All-replicate : (P : Trade → Type 0) (n : ℕ) (t : Trade) → P t → All P (replicate n t)
All-replicate P zero t h = tt
All-replicate P (suc n) t h = (h, All-replicate P n t h)

quantity_sum-replicate : (n : ℕ) (t : Trade) → quantity_sum (replicate n t) ≡ n * t.quantity
unfolding quantity_sum
quantity_sum-replicate zero t = omega arith
quantity_sum-replicate (suc n) t = omega (arith, quantity_sum-replicate n t)

priced_sum-replicate : (n : ℕ) (t : Trade) → priced_sum (replicate n t) ≡ n * priced t
unfolding priced_sum
priced_sum-replicate zero t = omega arith
priced_sum-replicate (suc n) t = omega (arith, priced_sum-replicate n t)

-- 1024 trades, shut so that they are not written out.
many : List Trade
many = replicate 1024 first

full : VwapService
unfolding many priced
full = record {
  total_priced_quantity = 1024 * priced first % 2 ^ 128;
  total_quantity = 1024 * 30;
  rolling_window_size_ms = 5000;
  trades = many;
  head = 0;
  tail = 0;
}

length-many : length many ≡ 1024
unfolding many
length-many = length-replicate 1024 first

full-Represents : Represents full many
unfolding full many
full-Represents = record {
  slots = length-replicate 1024 first;
  tail_in = omega arith;
  fits = omega (arith, length-replicate 1024 first);
  head_at = omega (arith, length-replicate 1024 first);
  holds = Holds-replicate 1024 1024 0 first (omega arith);
  sized = All-replicate (λ t. IsU32 t.quantity) 1024 first (omega arith);
  quantity = sym (quantity_sum-replicate 1024 first);
  value = ap (λ v. v % 2 ^ 128) (sym (priced_sum-replicate 1024 first));
  full_positive = λ e. omega (arith, quantity_sum-replicate 1024 first);
}

full_ring_stays_example :
    Represents (remove_old_trades full 99_000) many
    × ((s' : VwapService) × (handle_trade overwrite_oldest full second ≡ ok s')
        × Represents s' (drop_first many ++ (second ∷ [])))
    × (length (drop_first many ++ (second ∷ [])) ≡ 1024)
full_ring_stays_example =
    full_ring_stays 99_000 full many second full-Represents length-many (omega arith) (omega arith)

abbrev history : List Trade
history = first ∷ second ∷ []

-- At 15_500 the first trade is too old, at 12_000 neither is.
average_of_young : average (young 5000 15_500 (of_list history)) ≡ 1_040_000
unfolding average young quantity value keep quantity_sum exact_sum
average_of_young = refl

average_of_unordered : average (young 5000 12_000 (of_list (second ∷ first ∷ []))) ≡ 1_010_000
unfolding average young quantity value keep quantity_sum exact_sum
average_of_unordered = refl

handle_all-average_example :
    (s : VwapService) × (handle_all (init 5000 first) history ≡ ok s)
    × ((get_vwap s 15_500).0 ≡ average (young 5000 15_500 (of_list history)))
unfolding keep
handle_all-average_example =
    handle_all-average 5000 15_500 first history (omega arith) (omega arith) (omega arith)
      (omega arith) (omega arith) (omega arith)
