-- ===== src/Receiver.antt =====
-- src/slipstream/network/NetworkMessageReceiver.h and .cpp, with ShutdownSignal.h: the thread that
-- reads market data. What the socket and the clocks give is an argument. The queue's type is not in
-- the repository: it is `Q`, and `enqueue q m` is the queue once a `push` of `m` has returned true.
use slipstream_volume_aware.Prelude.{
  ℕ, zero, suc, ◌-◌, List, [], ◌∷◌, length, drop, Bool, true, false, ◌==◌, ltb, if◌then◌else◌,
  Option, none, some,
}
use slipstream_volume_aware.Prelude.Words.{sub64}
use slipstream_volume_aware.Prelude.Outcome.{Outcome, ok, err}
use slipstream_volume_aware.Codec.Gcmd.{Heartbeat, MdMessage}
use slipstream_volume_aware.Codec.Gcmd.Deserialise.{deserialise_message, get_message_size}
use slipstream_volume_aware.Reconstructor.{MessageReconstructor, MessagesRecieved, recieve}
pub mod Loop
pub mod Stream
pub mod Refine
pub mod Chunks
pub mod Overlap
mod Tests

-- `latch` is the counter of the `std::latch`, which starts at 1.
pub record ShutdownSignal : Type 0 where
  pub latch : ℕ
  pub triggered : Bool

unfoldable pub signal_init : ShutdownSignal
signal_init = record { latch = 1; triggered = false }

unfoldable pub trigger : ShutdownSignal → ShutdownSignal
trigger s = if s.triggered then s else record { latch = s.latch - 1; triggered = true }

-- `wait` returns once the counter is zero.
unfoldable pub wait_returns : ShutdownSignal → Bool
wait_returns s = s.latch == 0

-- `C` is the type of the connection, whose `shutdown` is `close`.
pub record NetworkMessageReceiver {κ} (C : Type κ) : Type κ where
  pub connection : C
  pub reconstructor : MessageReconstructor
  pub should_stop : Bool
  pub last_heartbeat : ℕ
  pub heartbeat_timeout_ms : ℕ

module _ {κ} {C : Type κ} where
  unfoldable pub init :
      C → MessageReconstructor → (now heartbeat_timeout_ms : ℕ) → NetworkMessageReceiver C
  init c m now timeout = record {
    connection = c;
    reconstructor = m;
    should_stop = false;
    last_heartbeat = now;
    heartbeat_timeout_ms = timeout;
  }

  unfoldable pub shutdown : (C → C) → NetworkMessageReceiver C → NetworkMessageReceiver C
  shutdown close r = record r { connection = close r.connection; should_stop = true }

  unfoldable pub heartbeat_stale : NetworkMessageReceiver C → ℕ → Bool
  heartbeat_stale r now = ltb r.heartbeat_timeout_ms (sub64 now r.last_heartbeat)

-- `lastHeartbeat` after a message.
unfoldable pub note_heartbeat : ℕ → MdMessage → ℕ
note_heartbeat last (MdMessage.heartbeat h) = if ltb last h.timestamp then h.timestamp else last
note_heartbeat last (MdMessage.quote q) = last
note_heartbeat last (MdMessage.trade t) = last
note_heartbeat last (MdMessage.session_control c) = last

-- The bytes that a pointer into the buffer points to; none are behind a null pointer.
abbrev pub behind : List ℕ → Option ℕ → List ℕ
behind buffer none = []
behind buffer (some off) = drop off buffer

module _ {ℓ} {Q : Type ℓ} (enqueue : Q → MdMessage → Q) where
  -- The loop of `tryReceive` over `count` messages, from `lastHeartbeat` and the queue to what they
  -- are when it ends or throws.
  unfoldable pub deliver : ℕ → List ℕ → ℕ → Q → Outcome (Unit {0}) × (ℕ × Q)
  deliver zero bs last q = (ok tt, (last, q))
  deliver (suc count) bs last q = elim (deserialise_message bs) [
    | err e ↦ (err e, (last, q))
    | ok m ↦
        let last' = note_heartbeat last m in
        let q' = enqueue q m in
        elim (get_message_size bs) [
          | err e ↦ (err e, (last', q'))
          | ok k ↦ deliver count (drop k bs) last' q'
        ]
  ]

  module _ {κ} {C : Type κ} where
    -- What the receiver and the queue are after `tryReceive`, and whether it threw. `mem` is what
    -- `receiveBuffer` read, or its exception.
    unfoldable pub receive_chunk :
        NetworkMessageReceiver C → Q → List ℕ → Outcome (Unit {0}) × (NetworkMessageReceiver C × Q)
    receive_chunk r q mem = elim (recieve r.reconstructor mem) [
      | err e ↦ (err e, (r, q))
      | ok (got, m) ↦
          let out = deliver got.messages_count (behind m.buffer got.start) r.last_heartbeat q in
          (out.0, (record r { reconstructor = m; last_heartbeat = out.1.0 }, out.1.1))
    ]

    unfoldable pub try_receive :
        NetworkMessageReceiver C
        → Q
        → Outcome (List ℕ)
        → Outcome (Unit {0}) × (NetworkMessageReceiver C × Q)
    unfolding receive_chunk
    try_receive r q (err e) = (err e, (r, q))
    try_receive r q (ok mem) = if length mem == 0 then (ok tt, (r, q)) else receive_chunk r q mem
