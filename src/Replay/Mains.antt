-- ===== src/Replay/Mains.antt =====
-- src/market_client/main.cpp and src/order_client/main.cpp. What the file system holds and what the
-- constructor of `ClientConnection` does are arguments.
use slipstream_volume_aware.Prelude.{ℕ, ◌≡◌, List, [], Option, none}
use slipstream_volume_aware.Prelude.Outcome.{Outcome, ok, err, runtime_error, ◌>>=◌}
use slipstream_volume_aware.Csv.{CsvParser, open_file}
use slipstream_volume_aware.Sockets.{ClientConnection}
use slipstream_volume_aware.Replay.{Environment, Client}
use slipstream_volume_aware.Replay.Clients.{run_market, run_trades}

-- `CSV_FILENAME`.
abbrev pub csv_filename : List ℕ
csv_filename = []

-- The client's constructor. `any_buffer` is the memory behind the pointer that it does not set, and
-- `steady` the time on the steady clock.
unfoldable pub init : CsvParser → (any_buffer : List ℕ) → (steady : ℕ) → Client
init p any_buffer steady = record {
  parser = p;
  buffer = any_buffer;
  last_sent_heartbeat_ms = 0;
  steady = steady;
  readings = 0;
  walls = 0;
  handed = [];
}

-- `files` gives the lines of a file by its name, if it opens. The result is what `run` gives.
module _ (files : List ℕ → Option (List (List ℕ))) (connection : Outcome ClientConnection)
    (env : Environment) (fuel wait_fuel : ℕ) (any_buffer : List ℕ) (steady : ℕ) where
  unfoldable pub market_main : Outcome (Option (Outcome (Unit {0}) × Client))
  unfolding init
  market_main = do
    p ← open_file (files csv_filename)
    c ← connection
    ok (run_market env fuel wait_fuel (init p any_buffer steady))

  unfoldable pub trade_main : Outcome (Option (Outcome (Unit {0}) × Client))
  unfolding init
  trade_main = do
    p ← open_file (files csv_filename)
    c ← connection
    ok (run_trades env fuel wait_fuel (init p any_buffer steady))

  -- No file has the empty name: both mains throw before they connect.
  pub mains-unopened :
      files [] ≡ none → (market_main ≡ err runtime_error) × (trade_main ≡ err runtime_error)
  unfolding market_main trade_main open_file
  mains-unopened h = (simp h, simp h)
