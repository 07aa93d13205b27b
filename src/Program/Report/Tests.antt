-- ===== src/Program/Report/Tests.antt =====
-- The report after ten quotes, a trade that only starts trading and one that is bought, with whole
-- numbers for `double`.
use slipstream_volume_aware.Prelude.{
  ℕ, ◌*◌, ◌/◌, ◌≤◌, ◌≡◌, refl, List, [], ◌∷◌, ◌++◌, replicate, take, arith,
}
use slipstream_volume_aware.Prelude.Outcome.{ok, err}
use slipstream_volume_aware.Codec.Gcmd.{Quote, Trade, TradeAggressor, MdMessage}
use slipstream_volume_aware.Engine
use slipstream_volume_aware.Engine.{Readings}
use slipstream_volume_aware.Engine.Report.{
  Doubles, text, characters, number, real, end_line, report_init, print_execution_report,
}
use slipstream_volume_aware.Vwap
use slipstream_volume_aware.Dispatch
use slipstream_volume_aware.Dispatch.{Services, master_on_message, run}
use slipstream_volume_aware.Dispatch.Counts.{handlers}
use slipstream_volume_aware.Program.{Options, new_services}
use slipstream_volume_aware.Program.Report.{print_execution_report-run}

abbrev whole : Doubles ℕ
whole = record { of_uint64 = λ n. n; times = λ a b. a * b; over = λ a b. a / b; hundred = 100 }

abbrev isin : List ℕ
isin = replicate 12 65

abbrev options : Options
options = record {
  symbol = isin;
  max_quantity = 100;
  participation_cap = 1000;
  vwap_window_ms = 5000;
  band_bps = 50;
}

abbrev quote : Quote
quote = record {
  symbol = isin;
  timestamp_ns = 1;
  bid_quantity = 2;
  bid_price = 3;
  ask_quantity = 4;
  ask_price = 5;
}

abbrev passed_by : Trade
passed_by = record {
  symbol = isin;
  timestamp_ns = 6500;
  quantity = 30;
  price = 1_000_000;
  aggressor = TradeAggressor.unknown;
  id = 1;
}

abbrev bought : Trade
bought = record passed_by {
  timestamp_ns = 7100;
  quantity = 10;
  price = 900_000;
  aggressor = TradeAggressor.buy;
}

abbrev at : ℕ → Readings
at ms = record { steady_ms = ms; steady_ns = ms; system_ms = ms }

abbrev messages : List (Readings × MdMessage)
messages =
    replicate 10 (at 1000, MdMessage.quote quote)
    ++ ((at 7000, MdMessage.trade passed_by) ∷ (at 7200, MdMessage.trade bought) ∷ [])

abbrev services : Services
services = elim (run handlers (new_services options quote bought 0) messages) [
  | ok s ↦ s
  | err e ↦ new_services options quote bought 0
]

print_execution_report-run_example :
    (10 ≤ 40)
    × (print_execution_report whole (report_init isin 1000 services.engine)
        ≡ text "=== SLIPSTREAM EXECUTION REPORT ==="
          ∷ end_line
          ∷ text "symbol              "
          ∷ characters (take 12 isin)
          ∷ end_line
          ∷ text "market qty          "
          ∷ number 40
          ∷ end_line
          ∷ text "executed qty        "
          ∷ number 10
          ∷ text "   ("
          ∷ real (10 * 100 / 40)
          ∷ text "%)"
          ∷ end_line
          ∷ [])
unfolding run master_on_message Dispatch.on_trade Dispatch.on_quote Engine.is_ready_to_trade
    Engine.handle_trade Engine.on_quote_received Engine.init Vwap.handle_trade Vwap.full_test
    Vwap.remove_old_trades Vwap.remove_loop Vwap.loop_test Vwap.init Vwap.add_trade Engine.buy_test
    Vwap.get_vwap Vwap.priced
print_execution_report-run_example =
    print_execution_report-run whole isin 1000 options quote bought 0 messages services refl
      (omega arith)
