-- ===== src/Demultiplexer.antt =====
-- src/slipstream/network/MessageDeMultiplexer.h and .cpp: the thread that takes messages from the
-- queue to the handlers. The queue's type is not in the repository: `InboundMessageQueue` says what is
-- used of it, and what that relies on.
use slipstream_volume_aware.Prelude.{
  ℕ, ◌≡◌, List, [], ◌∷◌, ◌++◌, Bool, true, false, ◌||◌, if◌then◌else◌, Option, none, some,
}
use slipstream_volume_aware.Prelude.Outcome.{Outcome, ok, err, Failure}
use slipstream_volume_aware.Codec.Gcmd.{MdMessage}
use slipstream_volume_aware.Engine.{Readings}
use slipstream_volume_aware.Dispatch.{Services, Handler, master_on_message}
pub mod Order
pub mod Stop
pub mod Drain
pub mod Keeps
pub mod ListQueue
mod Tests

abbrev pub is_nil {ℓ} : {A : Type ℓ} → List A → Bool
is_nil [] = true
is_nil (x ∷ xs) = false

-- A queue of messages, first in, first out. `enqueue q m` is the queue once a `push` of `m` has
-- returned true.
pub record InboundMessageQueue {ℓ} (Q : Type ℓ) : Type ℓ where
  pub enqueue : Q → MdMessage → Q
  pub empty : Q → Bool
  pub pop : Q → Option MdMessage × Q
  pub contents : Q → List MdMessage
  pub enqueue_last : (q : Q) (m : MdMessage) → contents (enqueue q m) ≡ contents q ++ (m ∷ [])
  pub empty_nil : (q : Q) → empty q ≡ is_nil (contents q)
  pub pop_none : (q : Q) → contents q ≡ [] → pop q ≡ (none, q)
  pub pop_first :
      (q : Q) (m : MdMessage) (ms : List MdMessage)
      → contents q ≡ m ∷ ms
      → (q' : Q) × (pop q ≡ (some m, q')) × (contents q' ≡ ms)

-- Where the thread stands: before the test of the outer loop, before that of the inner one, before
-- the `pop`, or out of `run`.
pub data Position : Type 0 where
  testing waiting popping finished : Position
  threw : Failure → Position

-- What happens before a step: messages that the receivers push, and whether the destructor sets
-- `shouldStop`. `now` is what the clocks read in the step.
pub record Tick : Type 0 where
  pub arrivals : List MdMessage
  pub destroyed : Bool
  pub now : Readings

pub record MessageDeMultiplexer {ℓ} (Q : Type ℓ) : Type ℓ where
  pub message_queue : Q
  pub services : Services
  pub should_stop : Bool
  pub position : Position

-- `start`, on a new object.
unfoldable pub start {ℓ} : {Q : Type ℓ} → Q → Services → MessageDeMultiplexer Q
start q s = record { message_queue = q; services = s; should_stop = false; position = testing }

module _ {ℓ} {Q : Type ℓ} (queue : InboundMessageQueue Q) (hs : List Handler) where
  abbrev pub enqueue_all : Q → List MdMessage → Q
  enqueue_all q [] = q
  enqueue_all q (m ∷ ms) = enqueue_all (queue.enqueue q m) ms

  abbrev pub arrive : Tick → MessageDeMultiplexer Q → MessageDeMultiplexer Q
  arrive t d = record d {
    message_queue = enqueue_all d.message_queue t.arrivals;
    should_stop = d.should_stop || t.destroyed;
  }

  -- `onMessage` has returned, or thrown.
  unfoldable pub handled : Outcome Services → MessageDeMultiplexer Q → MessageDeMultiplexer Q
  handled (ok s) d = record d { services = s; position = testing }
  handled (err e) d = record d { position = threw e }

  unfoldable pub popped :
      Readings → Option MdMessage × Q → MessageDeMultiplexer Q → MessageDeMultiplexer Q
  unfolding handled
  popped now (none, q) d = record d { message_queue = q; position = testing }
  popped now (some m, q) d =
      handled (master_on_message hs d.services now m) (record d { message_queue = q })

  -- One test, one sleep, or one message of `run`.
  unfoldable pub act : Readings → Position → MessageDeMultiplexer Q → MessageDeMultiplexer Q
  unfolding popped
  act now testing d = record d { position = if d.should_stop then finished else waiting }
  act now waiting d = record d {
    position = if queue.empty d.message_queue then waiting else popping;
  }
  act now popping d = popped now (queue.pop d.message_queue) d
  act now finished d = d
  act now (threw e) d = d

  unfoldable pub step : Tick → MessageDeMultiplexer Q → MessageDeMultiplexer Q
  unfolding act
  step t d = act t.now d.position (arrive t d)

  unfoldable pub run : List Tick → MessageDeMultiplexer Q → MessageDeMultiplexer Q
  unfolding step
  run [] d = d
  run (t ∷ ts) d = run ts (step t d)
