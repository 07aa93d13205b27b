-- ===== src/Vwap.antt =====
-- src/slipstream/orders/VWAPService.hpp and .cpp: the rolling window of trades behind the
-- volume-weighted average price, a ring of 1024 slots with running totals.
use slipstream_volume_aware.Prelude.{
  ℕ, zero, suc, ◌+◌, ◌-◌, ◌*◌, ◌/◌, ◌%◌, ◌^◌, List, Bool, true, false, ◌&&◌, not, ◌==◌, ltb, leb,
  if◌then◌else◌, Option, none, some, get_elem?, set, replicate,
}
use slipstream_volume_aware.Prelude.Words.{add64, sub64}
use slipstream_volume_aware.Prelude.Outcome.{Outcome, ok, err, runtime_error}
use slipstream_volume_aware.Codec.Gcmd.{Trade}
pub mod Window
pub mod Refine
pub mod Expiry
pub mod Handle
pub mod Average
pub mod Freshness
pub mod Young
pub mod Kept
pub mod Bag
pub mod Rolling
mod Tests

pub data OverflowPolicy : Type 0 where
  reject_new overwrite_oldest throw : OverflowPolicy

-- `BUFFER_SIZE`.
abbrev pub buffer_size : ℕ
buffer_size = 1024

pub record VwapService : Type 0 where
  pub total_priced_quantity : ℕ
  pub total_quantity : ℕ
  pub rolling_window_size_ms : ℕ
  pub trades : List Trade
  pub head : ℕ
  pub tail : ℕ

-- An `int64_t` converted to `unsigned __int128`: the sign bit is extended.
abbrev pub sign_extend : ℕ → ℕ
sign_extend p = if ltb p (2 ^ 63) then p else p + (2 ^ 128 - 2 ^ 64)

-- `static_cast<unsigned __int128>(trade.quantity) * trade.price`.
unfoldable pub priced : Trade → ℕ
priced t = t.quantity * sign_extend t.price % 2 ^ 128

-- A new service. The elements of `trades` start out indeterminate; any trade stands for them.
unfoldable pub init : ℕ → Trade → VwapService
init window any = record {
  total_priced_quantity = 0;
  total_quantity = 0;
  rolling_window_size_ms = window;
  trades = replicate buffer_size any;
  head = 0;
  tail = 0;
}

unfoldable pub add_trade : VwapService → Trade → VwapService
add_trade s t = record s {
  trades = set s.trades s.head t;
  head = (s.head + 1) % buffer_size;
  total_quantity = add64 s.total_quantity t.quantity;
  total_priced_quantity = (s.total_priced_quantity + priced t) % 2 ^ 128;
}

-- The three statements by which both removals take the oldest trade out.
unfoldable pub drop_oldest : VwapService → Trade → VwapService
drop_oldest s oldest = record s {
  total_quantity = sub64 s.total_quantity oldest.quantity;
  total_priced_quantity = (s.total_priced_quantity + 2 ^ 128 - priced oldest) % 2 ^ 128;
  tail = (s.tail + 1) % buffer_size;
}

-- The test of the loop in `removeOldTrades`, and the test for a full ring in `handleTrade`.
unfoldable pub loop_test : VwapService → Bool
loop_test s = not (s.head == s.tail) && ltb 0 s.total_quantity

unfoldable pub full_test : VwapService → Bool
full_test s = s.head == s.tail && ltb 0 s.total_quantity

-- The loop of `removeOldTrades`, on fuel. The tail is never out of range.
unfoldable pub remove_loop : ℕ → ℕ → VwapService → VwapService
remove_loop zero now s = s
remove_loop (suc fuel) now s = elim (loop_test s) [
  | false ↦ s
  | true ↦ elim (get_elem? s.trades s.tail) [
    | none ↦ s
    | some oldest ↦ elim (leb (sub64 now oldest.timestamp_ns) s.rolling_window_size_ms) [
      | true ↦ s
      | false ↦ remove_loop fuel now (drop_oldest s oldest)
    ]
  ]
]

-- Each round frees a slot, so `buffer_size` rounds are enough.
unfoldable pub remove_old_trades : VwapService → ℕ → VwapService
remove_old_trades s now = remove_loop buffer_size now s

unfoldable pub remove_oldest_trade : VwapService → VwapService
remove_oldest_trade s =
    if s.head == s.tail && s.total_quantity == 0
    then s
    else elim (get_elem? s.trades s.tail) [ none ↦ s | some oldest ↦ drop_oldest s oldest ]

-- What `handleTrade` does with a trade that finds the ring full, by the policy.
unfoldable pub overflow : OverflowPolicy → VwapService → Trade → Outcome VwapService
overflow reject_new s t = ok s
overflow overwrite_oldest s t = ok (add_trade (remove_oldest_trade s) t)
overflow throw s t = err runtime_error

unfoldable pub handle_trade : OverflowPolicy → VwapService → Trade → Outcome VwapService
handle_trade policy s t =
    let s' = remove_old_trades s t.timestamp_ns in
    if full_test s' then overflow policy s' t else ok (add_trade s' t)

-- `now` is what the clock returns, in milliseconds.
unfoldable pub get_vwap : VwapService → ℕ → ℕ × VwapService
get_vwap s now =
    let s' = remove_old_trades s now in
    if s'.total_quantity == 0
    then (0, s')
    else (s'.total_priced_quantity / s'.total_quantity % 2 ^ 64, s')
