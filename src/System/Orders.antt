-- ===== src/System/Orders.antt =====
-- From the messages that the services handle to the bytes that the sending thread hands to the
-- connection: the orders, by the queue of `OrderMessageSender`.
use slipstream_volume_aware.Prelude.{
  ℕ, ◌+◌, ◌≤◌, ◌≡◌, refl, sym, ap, ◌∙◌, List, [], ◌∷◌, ◌++◌, All, length, map, arith,
}
use mathlib.Core.Path.{subst}
use slipstream_volume_aware.Prelude.Outcome.{ok, err}
use slipstream_volume_aware.Codec.Gcmd.{Quote, Trade, MdMessage}
use slipstream_volume_aware.Codec.Oe.{NewOrder, IsNewOrder}
use slipstream_volume_aware.Concurrency.Spsc.{Represents}
use slipstream_volume_aware.Concurrency.Spsc.Refine.{init-Represents}
use slipstream_volume_aware.Engine
use slipstream_volume_aware.Engine.{Readings}
use slipstream_volume_aware.Dispatch
use slipstream_volume_aware.Dispatch.{Services}
use slipstream_volume_aware.Dispatch.Counts.{handlers}
use slipstream_volume_aware.Dispatch.Orders.{Ordered, run-Ordered, Fits, Ordered-IsNewOrder}
use slipstream_volume_aware.Sender
use slipstream_volume_aware.Sender.{Message, order, OrderMessageSender, Round, running}
use slipstream_volume_aware.Sender.Frames.{IsMessage, AllCarry}
use slipstream_volume_aware.Sender.Served.{Works, all_pushes, run-Serves}
use slipstream_volume_aware.Sender.Rounds.{Quiet, Roomy, all-Serves}
use slipstream_volume_aware.Program
use slipstream_volume_aware.Program.{Options}
mod Tests

-- What the trade handler has passed to `send` after some messages.
abbrev pub sent_after : Services → List (Readings × MdMessage) → List NewOrder
sent_after s is = elim (Dispatch.run handlers s is) [ ok s' ↦ s'.sent | err e ↦ [] ]

orders-IsMessage : (os : List NewOrder) → All IsNewOrder os → All IsMessage (map order os)
orders-IsMessage [] h = tt
orders-IsMessage (o ∷ os) (p, h) = (p, orders-IsMessage os h)

-- A new sender whose rounds push these orders, with room in the queue, and then are quiet for long
-- enough, hands over a frame for each.
pub orders-Carry :
    (any_message : Message) (any_buffer : List ℕ) (os : List NewOrder) (rounds more : List Round)
    → length any_buffer ≡ 54
    → All IsNewOrder os
    → All Works rounds
    → All Works more
    → All Quiet more
    → Roomy [] rounds
    → all_pushes rounds ≡ map order os
    → length (all_pushes rounds) ≤ length more
    → (sender : OrderMessageSender) × (Sender.run
          (Sender.init any_message any_buffer)
          (rounds ++ more)
        ≡ (running, sender))
      × AllCarry (map order os) sender.handed
      × Represents 1024 sender.message_queue []
unfolding Sender.init
orders-Carry any_message any_buffer os rounds more room fits w ws q roomy pushed enough =
    let fit = subst (All IsMessage) (sym pushed) (orders-IsMessage os fits) in
    let serves = all-Serves [] rounds more w ws q roomy (omega arith) enough fit in
    let ran =
      (run-Serves (Sender.init any_message any_buffer) [] (all_pushes rounds) [] (rounds ++ more)
        refl (omega (arith, room)) (init-Represents 1024 (omega arith) any_message) serves).1 in
    (
      ran.sender,
      ran.runs,
      subst (λ l. AllCarry l ran.sender.handed) pushed
          (subst (AllCarry (all_pushes rounds)) (sym ran.handed) ran.all_carry),
      ran.waiting,
    )

-- The services and the sender of main, new, with a symbol of 12 characters. Any messages are handled
-- whose words fit the C++ fields, while no command halts the engine. The sending thread has rounds in
-- which the orders are pushed, in the order in which the trade handler passes them to `send`, while
-- there is room in the queue, and then as many rounds as there are orders; it is not told to stop and
-- the connection takes all it is given. Then no handler throws, each trade among the messages is
-- answered with one order that copies it, and the thread has handed over, for each order and in this
-- order, the bytes of one frame that is read as this order, and nothing else; the queue is empty.
pub run-frames :
    (o : Options) (any_quote : Quote) (any_trade : Trade) (any_time : ℕ) (any_message : Message)
    (any_buffer : List ℕ) (is : List (Readings × MdMessage)) (rounds more : List Round)
    → length o.symbol ≡ 12
    → length any_buffer ≡ 54
    → All Fits is
    → All Works rounds
    → All Works more
    → All Quiet more
    → Roomy [] rounds
    → all_pushes rounds
      ≡ map order (sent_after (Program.new_services o any_quote any_trade any_time) is)
    → length (all_pushes rounds) ≤ length more
    → (s s' : Services) × (sender : OrderMessageSender) × (Program.start o any_quote any_trade
          any_time
        ≡ ok s)
      × (Dispatch.run handlers s is ≡ ok s')
      × Ordered 0 is s'.sent
      × (Sender.run (Sender.init any_message any_buffer) (rounds ++ more) ≡ (running, sender))
      × AllCarry (map order s'.sent) sender.handed
      × Represents 1024 sender.message_queue []
unfolding Engine.init
run-frames o any_quote any_trade any_time any_message any_buffer is rounds more twelve room fits w
      ws q roomy pushed enough =
    let s = Program.new_services o any_quote any_trade any_time in
    let (s', os, runs, sent, ordered) = run-Ordered s is refl in
    let all : all_pushes rounds ≡ map order s'.sent =
      pushed ∙ ap (λ r. map order (elim r [ ok x ↦ x.sent | err e ↦ [] ])) runs in
    let ordered' = subst (Ordered 0 is) (sym sent) ordered in
    let (sender, sends, carry, empty) =
      orders-Carry any_message any_buffer s'.sent rounds more room
        (Ordered-IsNewOrder ordered' (omega arith) fits) w ws q roomy all enough in
    (
      s,
      s',
      sender,
      Program.start-ok o any_quote any_trade any_time twelve,
      runs,
      ordered',
      sends,
      carry,
      empty,
    )
