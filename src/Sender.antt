-- ===== src/Sender.antt =====
-- src/slipstream/network/OrderMessageSender.h and .cpp: orders and reports go through a queue to the
-- thread that writes their frames to the connection.
use slipstream_volume_aware.Prelude.{
  ℕ, zero, suc, List, [], ◌∷◌, ◌++◌, take, Bool, true, false, ◌||◌, if◌then◌else◌, Option, none,
  some,
}
use slipstream_volume_aware.Prelude.Outcome.{Outcome, ok, err, Failure, ◌>>=◌}
use slipstream_volume_aware.Codec.Oe.{NewOrder, ExecReport, new_order_body, exec_report_body}
use slipstream_volume_aware.Codec.Oe.Serialise.{
  serialise_new_order_message, serialise_exec_report_message,
}
use slipstream_volume_aware.Concurrency.Spsc
use slipstream_volume_aware.Concurrency.Spsc.{SpscQueue}
pub mod Waiting
pub mod Frames
pub mod Served
pub mod Rounds
mod Tests

-- `QUEUE_SIZE`.
abbrev pub queue_size : ℕ
queue_size = 1024

-- `std::variant<NewOrder, ExecReport>`.
pub data Message : Type 0 where
  order : NewOrder → Message
  report : ExecReport → Message

-- The sending thread pops so many messages.
unfoldable pub popped : ℕ → SpscQueue Message → SpscQueue Message
popped zero q = q
popped (suc k) q = popped k (Spsc.pop queue_size q).1

-- Both overloads of `send`: push until it succeeds. The list says how many messages the sending
-- thread pops before each attempt; `none` is a call that still waits when the list is at its end.
unfoldable pub send : SpscQueue Message → Message → List ℕ → Option (SpscQueue Message)
unfolding popped
send q m [] = none
send q m (k ∷ ks) =
    let (done, q') = Spsc.push queue_size (popped k q) m in
    let rest = send q' m ks in if done then some q' else rest

-- The buffer after a message is written, and the bytes that are handed to the connection.
unfoldable pub send_new_order : List ℕ → NewOrder → Outcome (List ℕ × List ℕ)
send_new_order buffer o = do
  r ← serialise_new_order_message buffer (new_order_body o)
  ok (take r.0 r.1, r.1)

unfoldable pub send_exec_report : List ℕ → ExecReport → Outcome (List ℕ × List ℕ)
send_exec_report buffer x = do
  r ← serialise_exec_report_message buffer (exec_report_body x)
  ok (take r.0 r.1, r.1)

-- A round of `run`, once a message has been popped.
unfoldable pub send_message : List ℕ → Message → Outcome (List ℕ × List ℕ)
send_message buffer (order o) = send_new_order buffer o
send_message buffer (report x) = send_exec_report buffer x

-- `clientConnection` is what `run` has handed to `sendBuffer`, each time the bytes of one message.
pub record OrderMessageSender : Type 0 where
  pub message_queue : SpscQueue Message
  pub buffer : List ℕ
  pub handed : List (List ℕ)
  pub should_stop : Bool

-- The constructor. The slots of the ring and the buffer are left as they are: `any` stands for them.
unfoldable pub init : (any_message : Message) (any_buffer : List ℕ) → OrderMessageSender
init any_message any_buffer = record {
  message_queue = Spsc.init queue_size any_message;
  buffer = any_buffer;
  handed = [];
  should_stop = false;
}

-- What one iteration of `run` meets: whether the destructor has set `shouldStop`, what `send` has
-- pushed since the last one, and what `sendBuffer` does.
pub record Round : Type 0 where
  pub told_to_stop : Bool
  pub pushes : List Message
  pub accepts : Outcome (Unit {0})

-- Whether `run` goes on, has returned, or has thrown.
pub data Exit : Type 0 where
  running stopped : Exit
  threw : Failure → Exit

abbrev pub push_all : SpscQueue Message → List Message → SpscQueue Message
push_all q [] = q
push_all q (m ∷ ms) = push_all (Spsc.push queue_size q m).1 ms

-- `sendBuffer` on what the serialiser wrote.
unfoldable pub hand_over :
    Outcome (Unit {0}) → Outcome (List ℕ × List ℕ) → OrderMessageSender → Exit × OrderMessageSender
hand_over accepts (err e) s = (threw e, s)
hand_over (ok u) (ok (bytes, b)) s =
    (running, record s { buffer = b; handed = s.handed ++ (bytes ∷ []) })
hand_over (err e) (ok (bytes, b)) s =
    (threw e, record s { buffer = b; handed = s.handed ++ (bytes ∷ []) })

-- What follows the `pop`.
unfoldable pub after_pop :
    Outcome (Unit {0})
    → Option Message × SpscQueue Message
    → OrderMessageSender
    → Exit × OrderMessageSender
unfolding hand_over send_message
after_pop accepts (none, q) s = (running, record s { message_queue = q })
after_pop accepts (some m, q) s =
    hand_over accepts (send_message s.buffer m) (record s { message_queue = q })

unfoldable pub round : OrderMessageSender → Round → Exit × OrderMessageSender
unfolding after_pop
round s i =
    if s.should_stop || i.told_to_stop
    then (stopped, s)
    else after_pop i.accepts (Spsc.pop queue_size (push_all s.message_queue i.pushes)) s

-- `run`, over the rounds given.
unfoldable pub run : OrderMessageSender → List Round → Exit × OrderMessageSender
unfolding round
run s [] = (running, s)
run s (i ∷ is) = elim (round s i).0 [
  | running ↦ run (round s i).1 is
  | stopped ↦ round s i
  | threw e ↦ round s i
]
