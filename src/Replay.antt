-- ===== src/Replay.antt =====
-- src/market_client/MarketClient.h and .cpp, src/order_client/TradeClient.h and .cpp: the clients that
-- replay a file, each row at its time, with heartbeats in between. The two classes differ in the rows
-- that they read and the messages that they make of them; what they share stands here.
use slipstream_volume_aware.Prelude.{
  ℕ, zero, suc, ◌+◌, ◌-◌, List, [], ◌∷◌, ◌++◌, length, take, Bool, true, false, ltb, if◌then◌else◌,
  Option, none, some,
}
use slipstream_volume_aware.Prelude.Words.{add64, sub64}
use slipstream_volume_aware.Prelude.Outcome.{
  Outcome, ok, err, Failure, logic_error, runtime_error, out_of_range, invalid_argument, bad_alloc,
  fault,
}
use slipstream_volume_aware.Codec.Gcmd.Serialise.{serialise_heartbeat_message}
use slipstream_volume_aware.Csv.{CsvParser}
use Prim.Native.Nat.{min}
pub mod Clients
pub mod Waiting
pub mod Pace
pub mod Played
pub mod Files
pub mod Mains
mod Tests

-- The clocks and the connection. The steady clock goes `lag k` milliseconds on before its `k`th
-- reading, beside the time that the client sleeps; `wall k` is the `k`th reading of the system clock;
-- `accepts k` is what the `k`th call of `sendBuffer` does.
pub record Environment : Type 0 where
  pub lag : ℕ → ℕ
  pub wall : ℕ → ℕ
  pub accepts : ℕ → Outcome (Unit {0})

-- Bytes handed to `sendBuffer`, and the steady clock then.
pub record Handed : Type 0 where
  pub at_ms : ℕ
  pub bytes : List ℕ

-- `buffer` is the memory that the pointer `buffer` points to; no code sets that pointer. `steady` is
-- the time on the steady clock, `readings` and `walls` count the readings of the two clocks.
pub record Client : Type 0 where
  pub parser : CsvParser
  pub buffer : List ℕ
  pub last_sent_heartbeat_ms : ℕ
  pub steady : ℕ
  pub readings : ℕ
  pub walls : ℕ
  pub handed : List Handed

-- `HEARTBEAT_PER_MS`.
abbrev pub heartbeat_per_ms : ℕ
heartbeat_per_ms = 50

unfoldable pub get_now : Environment → Client → ℕ × Client
get_now env c =
    let now = c.steady + env.lag c.readings in
    (now, record c { steady = now; readings = c.readings + 1 })

unfoldable pub get_wall_clock_now : Environment → Client → ℕ × Client
get_wall_clock_now env c = (env.wall c.walls, record c { walls = c.walls + 1 })

-- `sleep_for`, which sleeps at least so long; more is in the next `lag`.
unfoldable pub sleep_for : ℕ → Client → Client
sleep_for d c = record c { steady = c.steady + d }

-- A serialiser's result, handed to `sendBuffer`.
unfoldable pub send_serialised :
    Environment → Client → Outcome (ℕ × List ℕ) → Outcome (Unit {0}) × Client
send_serialised env c (err e) = (err e, c)
send_serialised env c (ok (n, b)) = (
  env.accepts (length c.handed),
  record c {
    buffer = b;
    handed = c.handed ++ (record { at_ms = c.steady; bytes = take n b } ∷ []);
  },
)

unfoldable pub send_heart_beat : Environment → Client → Outcome (Unit {0}) × Client
unfolding send_serialised get_wall_clock_now
send_heart_beat env c =
    let (t, c') = get_wall_clock_now env c in
    send_serialised env c' (serialise_heartbeat_message c'.buffer (record { timestamp = t }))

-- The `if` of the waiting loop. `lastSentHeartbeatMS` is not set when a heartbeat is sent.
unfoldable pub beat_if_due : Environment → ℕ → Client → Outcome (Unit {0}) × Client
unfolding send_heart_beat
beat_if_due env now c =
    if ltb heartbeat_per_ms (sub64 now c.last_sent_heartbeat_ms)
    then send_heart_beat env c
    else (ok tt, c)

-- The loop that waits for `timeToSend`, on fuel; `none` where it still waits without any left.
unfoldable pub wait :
    Environment → ℕ → (time_to_send : ℕ) → Client → Option (Outcome (Unit {0}) × Client)
unfolding get_now beat_if_due sleep_for
wait env zero time_to_send c = none
wait env (suc fuel) time_to_send c =
    let (now, c1) = get_now env c in
    elim (ltb now time_to_send) [
      | false ↦ some (ok tt, c1)
      | true ↦
          let (r, c2) = beat_if_due env now c1 in
          elim r [
            | err e ↦ some (err e, c2)
            | ok u ↦
                wait env fuel time_to_send
                  (sleep_for (min heartbeat_per_ms (time_to_send - now)) c2)
          ]
    ]

-- The `catch` of `run`: it ends the loop, and other exceptions leave `run`.
unfoldable pub caught : Failure → Outcome (Unit {0})
caught out_of_range = ok tt
caught logic_error = err logic_error
caught runtime_error = err runtime_error
caught invalid_argument = err invalid_argument
caught bad_alloc = err bad_alloc
caught fault = err fault

-- How a round of the loop in `run` ends.
pub data Turn : Type 0 where
  next : Client → Turn
  stop : Outcome (Unit {0}) → Client → Turn
  waiting : Turn

module _ {ℓ} {R : Type ℓ} (read : CsvParser → Outcome R × CsvParser) (timestamp : R → ℕ)
    (send : Environment → Client → R → Outcome (Unit {0}) × Client) (env : Environment) where
  unfoldable pub after_send : Outcome (Unit {0}) × Client → Turn
  after_send (ok u, c) = next c
  after_send (err e, c) = stop (caught e) c

  unfoldable pub after_wait : R → Option (Outcome (Unit {0}) × Client) → Turn
  unfolding after_send
  after_wait row none = waiting
  after_wait row (some (ok u, c)) = after_send (send env c row)
  after_wait row (some (err e, c)) = stop (caught e) c

  unfoldable pub after_read : (wait_fuel start : ℕ) → Outcome R → Client → Turn
  unfolding after_wait
  after_read wait_fuel start (err e) c = stop (caught e) c
  after_read wait_fuel start (ok row) c =
      after_wait row (wait env wait_fuel (add64 start (timestamp row)) c)

  -- The `try` block of one round.
  unfoldable pub turn : (wait_fuel start : ℕ) → Client → Turn
  unfolding after_read
  turn wait_fuel start c =
      after_read wait_fuel start (read c.parser).0 (record c { parser = (read c.parser).1 })

  -- The loop of `run`, on fuel for its rounds and for each wait; `none` where it still runs without
  -- any left.
  unfoldable pub run_loop :
      ℕ → (wait_fuel start : ℕ) → Client → Option (Outcome (Unit {0}) × Client)
  unfolding turn
  run_loop zero wait_fuel start c = none
  run_loop (suc fuel) wait_fuel start c = elim c.parser.reached_end [
    | true ↦ some (ok tt, c)
    | false ↦ elim (turn wait_fuel start c) [
      | next c' ↦ run_loop fuel wait_fuel start c'
      | stop r c' ↦ some (r, c')
      | waiting ↦ none
    ]
  ]

  -- What follows the first `sendQuote` or `sendTrade`.
  unfoldable pub after_first_send :
      (fuel wait_fuel start : ℕ)
      → Outcome (Unit {0}) × Client
      → Option (Outcome (Unit {0}) × Client)
  unfolding run_loop
  after_first_send fuel wait_fuel start (err e, c) = some (err e, c)
  after_first_send fuel wait_fuel start (ok u, c) = run_loop fuel wait_fuel start c

  -- What follows the first row: the time at which the file is taken to begin, the row, and the loop.
  unfoldable pub after_first :
      (fuel wait_fuel : ℕ) → Outcome R → Client → Option (Outcome (Unit {0}) × Client)
  unfolding after_first_send get_now
  after_first fuel wait_fuel (err e) c = some (err e, c)
  after_first fuel wait_fuel (ok row) c =
      let (now, c1) = get_now env c in
      after_first_send fuel wait_fuel (sub64 now (timestamp row)) (send env c1 row)

  unfoldable pub run : (fuel wait_fuel : ℕ) → Client → Option (Outcome (Unit {0}) × Client)
  unfolding after_first
  run fuel wait_fuel c =
      after_first fuel wait_fuel (read c.parser).0 (record c { parser = (read c.parser).1 })
