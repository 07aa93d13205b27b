-- ===== src/Program/Ending.antt =====
-- src/slipstream/main.cpp: main and the threads that it starts, from the wait for the signal to the end
-- of its destructors, with the destructors of src/slipstream/network and SessionControlHandler.cpp. The
-- threads take turns in any order: a receiver a round, the demultiplexer a step, the sender a round, the
-- operator's thread a line, main a destructor.
use slipstream_volume_aware.Prelude.{ℕ, List, [], ◌∷◌, Bool, true, false, if◌then◌else◌}
use slipstream_volume_aware.Prelude.Outcome.{Outcome}
use slipstream_volume_aware.Codec.Gcmd.{SessionControlState}
use slipstream_volume_aware.Engine.{Readings}
use slipstream_volume_aware.Dispatch.Counts.{handlers}
use slipstream_volume_aware.Receiver.{
  ShutdownSignal, trigger, wait_returns, NetworkMessageReceiver, shutdown,
}
use slipstream_volume_aware.Receiver.Loop
use slipstream_volume_aware.Receiver.Loop.{left}
use slipstream_volume_aware.Demultiplexer
use slipstream_volume_aware.Demultiplexer.{
  InboundMessageQueue, Position, testing, waiting, popping, finished, threw, MessageDeMultiplexer,
}
use slipstream_volume_aware.Sender
use slipstream_volume_aware.Sender.{OrderMessageSender, Message}
use slipstream_volume_aware.Session.{SessionControlHandler, Input, handle_input}
pub mod Joined
pub mod Triggers
pub mod Signal
pub mod Hanging
mod Tests

-- Where main stands: in `wait`, in the `join` of a destructor, or at its end. `terminated` is the end of
-- the program by an exception that leaves a thread, `undefined` the use of an object that main has
-- destroyed.
pub data Stage : Type 0 where
  in_wait joining_demultiplexer joining_oe joining_md joining_sender returned : Stage
  terminated undefined : Stage

-- The threads and what they share. `session_state` and `session_stop` are the members of
-- `SessionControlHandler`; the queue is with the demultiplexer, and so are the services.
pub record Threads {ℓ κ} (Q : Type ℓ) (C : Type κ) : Type (ℓ ⊔ κ) where
  pub signal : ShutdownSignal
  pub md_receiver : NetworkMessageReceiver C
  pub md_exit : Loop.Exit
  pub oe_receiver : NetworkMessageReceiver C
  pub oe_exit : Loop.Exit
  pub demultiplexer : MessageDeMultiplexer Q
  pub sender : OrderMessageSender
  pub sender_exit : Sender.Exit
  pub session_state : SessionControlState
  pub session_stop : Bool
  pub stage : Stage

-- Whose turn it is, and what it meets: what the socket gives and the clock says, what the handlers
-- push and what `sendBuffer` does, or a line of the operator.
pub data Turn : Type 0 where
  md_turn oe_turn : (reads : Outcome (List ℕ)) (now : ℕ) → Turn
  demultiplexer_turn : Readings → Turn
  sender_turn : (pushes : List Message) (accepts : Outcome (Unit {0})) → Turn
  operator_turn : Input → Turn
  main_turn : Turn

-- `TriggerOnExit`.
abbrev pub signalled : Loop.Exit → ShutdownSignal → ShutdownSignal
signalled e s = if left e then trigger s else s

abbrev pub is_finished : Position → Bool
is_finished testing = false
is_finished waiting = false
is_finished popping = false
is_finished finished = true
is_finished (threw e) = false

abbrev pub is_stopped : Sender.Exit → Bool
is_stopped Sender.Exit.running = false
is_stopped Sender.Exit.stopped = true
is_stopped (Sender.Exit.threw e) = false

-- An exception that leaves `run` of the sender ends the program.
abbrev pub after_round : Sender.Exit → Stage → Stage
after_round Sender.Exit.running s = s
after_round Sender.Exit.stopped s = s
after_round (Sender.Exit.threw e) s = terminated

module _ {ℓ κ} {Q : Type ℓ} {C : Type κ} (queue : InboundMessageQueue Q) (close : C → C) where
  -- A round of `run` of each receiver.
  unfoldable pub md_round : Outcome (List ℕ) → ℕ → Threads Q C → Threads Q C
  md_round reads now p =
      let i : Loop.Round = record { told_to_stop = false; reads = reads; now = now } in
      let out = Loop.round queue.enqueue close p.md_receiver p.demultiplexer.message_queue i in
      if left p.md_exit then p else record p {
        md_receiver = out.1.0;
        md_exit = out.0;
        demultiplexer = record p.demultiplexer { message_queue = out.1.1 };
        signal = signalled out.0 p.signal;
      }

  unfoldable pub oe_round : Outcome (List ℕ) → ℕ → Threads Q C → Threads Q C
  oe_round reads now p =
      let i : Loop.Round = record { told_to_stop = false; reads = reads; now = now } in
      let out = Loop.round queue.enqueue close p.oe_receiver p.demultiplexer.message_queue i in
      if left p.oe_exit then p else record p {
        oe_receiver = out.1.0;
        oe_exit = out.0;
        demultiplexer = record p.demultiplexer { message_queue = out.1.1 };
        signal = signalled out.0 p.signal;
      }

  unfoldable pub demultiplexer_step : Readings → Threads Q C → Threads Q C
  demultiplexer_step now p = record p {
    demultiplexer =
        Demultiplexer.step queue handlers (record { arrivals = []; destroyed = false; now = now })
          p.demultiplexer;
  }

  -- `sender_exit` is `running` while the thread is in `run`.
  unfoldable pub sender_round :
      List Message → Outcome (Unit {0}) → Sender.Exit → Threads Q C → Threads Q C
  sender_round pushes accepts Sender.Exit.running p =
      let i : Sender.Round = record { told_to_stop = false; pushes = pushes; accepts = accepts } in
      let out = Sender.round p.sender i in
      record p { sender = out.1; sender_exit = out.0; stage = after_round out.0 p.stage }
  sender_round pushes accepts Sender.Exit.stopped p = p
  sender_round pushes accepts (Sender.Exit.threw e) p = p

  -- A line, while `SessionControlHandler` is there. Its destructor, the first of main's, detaches the
  -- thread, which goes on to use the object.
  unfoldable pub operator_line : Input → Stage → Threads Q C → Threads Q C
  operator_line i in_wait p =
      let h =
        handle_input close
          (record {
            current_state = p.session_state;
            engine = p.demultiplexer.services.engine;
            oe_receiver = p.oe_receiver;
            md_receiver = p.md_receiver;
            signal = p.signal;
            should_stop = p.session_stop;
          })
          i in
      if p.session_stop then p else record p {
        session_state = h.current_state;
        demultiplexer = record p.demultiplexer {
          services = record p.demultiplexer.services { engine = h.engine };
        };
        oe_receiver = h.oe_receiver;
        md_receiver = h.md_receiver;
        signal = h.signal;
        session_stop = h.should_stop;
      }
  operator_line i joining_demultiplexer p = record p { stage = undefined }
  operator_line i joining_oe p = record p { stage = undefined }
  operator_line i joining_md p = record p { stage = undefined }
  operator_line i joining_sender p = record p { stage = undefined }
  operator_line i returned p = p
  operator_line i terminated p = p
  operator_line i undefined p = p

  -- What main does when the call in which it stands can return: the calls behind `wait` and the
  -- destructors that follow, up to the next join.
  unfoldable pub main_step : Stage → Threads Q C → Threads Q C
  main_step in_wait p =
      if wait_returns p.signal
      then record p {
        md_receiver = shutdown close p.md_receiver;
        oe_receiver = shutdown close p.oe_receiver;
        demultiplexer = record p.demultiplexer { should_stop = true };
        stage = joining_demultiplexer;
      }
      else p
  main_step joining_demultiplexer p =
      if is_finished p.demultiplexer.position
      then record p { oe_receiver = shutdown close p.oe_receiver; stage = joining_oe }
      else p
  main_step joining_oe p =
      if left p.oe_exit
      then record p { md_receiver = shutdown close p.md_receiver; stage = joining_md }
      else p
  main_step joining_md p =
      if left p.md_exit
      then record p { sender = record p.sender { should_stop = true }; stage = joining_sender }
      else p
  main_step joining_sender p = if is_stopped p.sender_exit then record p { stage = returned } else p
  main_step returned p = p
  main_step terminated p = p
  main_step undefined p = p

  unfoldable pub turn : Turn → Threads Q C → Threads Q C
  unfolding md_round oe_round demultiplexer_step sender_round operator_line main_step
  turn (md_turn reads now) p = md_round reads now p
  turn (oe_turn reads now) p = oe_round reads now p
  turn (demultiplexer_turn now) p = demultiplexer_step now p
  turn (sender_turn pushes accepts) p = sender_round pushes accepts p.sender_exit p
  turn (operator_turn i) p = operator_line i p.stage p
  turn main_turn p = main_step p.stage p

  unfoldable pub run : List Turn → Threads Q C → Threads Q C
  unfolding turn
  run [] p = p
  run (t ∷ ts) p = run ts (turn t p)
