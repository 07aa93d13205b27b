-- ===== src/System/Wire.antt =====
-- From the files of the two clients to the bytes on the order connection.
use slipstream_volume_aware.Prelude.{
  ℕ, ◌*◌, ◌%◌, ◌^◌, ◌≤◌, ◌≡◌, refl, sym, List, [], ◌∷◌, ◌++◌, All, length, map, arith,
}
use mathlib.Core.Path.{subst}
use slipstream_volume_aware.Prelude.Outcome.{ok}
use slipstream_volume_aware.Codec.Gcmd
use slipstream_volume_aware.Codec.Gcmd.{MdMessage}
use slipstream_volume_aware.Codec.Oe.{NewOrder, rejected, sell}
use slipstream_volume_aware.Codec.Oe.RoundTrip.{CarriesOrder}
use slipstream_volume_aware.Csv
use slipstream_volume_aware.Engine
use slipstream_volume_aware.Dispatch.{Services}
use slipstream_volume_aware.Dispatch.Counts.{handlers}
use slipstream_volume_aware.Dispatch.Fits.{Fitting, InReading, message-Fitting}
use slipstream_volume_aware.Demultiplexer
use slipstream_volume_aware.Demultiplexer.{InboundMessageQueue, Tick, run}
use slipstream_volume_aware.Demultiplexer.Order.{all_arrivals}
use slipstream_volume_aware.Demultiplexer.Stop.{Still}
use slipstream_volume_aware.Demultiplexer.Drain.{Untold, arrivals-Still}
use slipstream_volume_aware.Demultiplexer.Keeps.{Clocked, run-Kept}
use slipstream_volume_aware.Replay.Played.{quote_message, trade_message}
use slipstream_volume_aware.Pipeline.{Told}
use slipstream_volume_aware.Program
use slipstream_volume_aware.Program.{Options}
use slipstream_volume_aware.Sender
use slipstream_volume_aware.Sender.{Message, order, OrderMessageSender, Round, running}
use slipstream_volume_aware.Sender.Frames.{Carries, AllCarry, none_carried, carried}
use slipstream_volume_aware.Sender.Served.{Works, all_pushes}
use slipstream_volume_aware.Sender.Rounds.{Quiet, Roomy}
use slipstream_volume_aware.System.{Mixed, Answers, none_answered, answered}
use slipstream_volume_aware.System.Files.{run-files}
use slipstream_volume_aware.System.Orders.{orders-Carry}

-- One frame for each trade of the file, read as a rejected sell order that copies the trade, the
-- quantity cut to 32 bits.
pub data AnswerFrames : List Csv.Trade → List (List ℕ) → Type 0 where
  none_framed : AnswerFrames [] []
  framed :
      {ts : List Csv.Trade} {fs : List (List ℕ)} (t : Csv.Trade) (o : NewOrder) (f : List ℕ)
      → o.symbol ≡ t.symbol
      → o.status ≡ rejected
      → o.side ≡ sell
      → o.qty ≡ t.quantity % 2 ^ 32
      → o.limit_px ≡ t.price
      → CarriesOrder o f
      → AnswerFrames ts fs
      → AnswerFrames (t ∷ ts) (f ∷ fs)

Answers-AnswerFrames :
    {ts : List Csv.Trade} {os : List NewOrder} {ms : List Message} {fs : List (List ℕ)}
    → Answers ts os
    → AllCarry ms fs
    → ms ≡ map order os
    → AnswerFrames ts fs
Answers-AnswerFrames none_answered none_carried e = none_framed
Answers-AnswerFrames none_answered (carried m f c k) e = absurd (cc e)
Answers-AnswerFrames (answered t o a b x y z h) none_carried e = absurd (cc e)
Answers-AnswerFrames (answered t o a b x y z h) (carried m f c k) e =
    let same : m ≡ order o = cc e in
    framed t o f a b x y z (subst (λ n. Carries n f) same c) (Answers-AnswerFrames h k (cc e))

module _ {ℓ} {Q : Type ℓ} (queue : InboundMessageQueue Q) where
  -- The services of main, its queue and its sender, new, with a symbol of 12 characters. The receivers
  -- push the quotes of one file and the trades of another, in words that fit the C++ fields, each in
  -- the file's order and with heartbeats in between, mixed with each other and with the steps of the
  -- demultiplexer's thread in any way; this thread then has three steps for each message and is not
  -- told to stop. The sending thread has rounds in which the orders are pushed, in the order in which
  -- the trade handler passes them to `send`, while there is room in the queue, and then as many rounds
  -- as there are orders; it is not told to stop, and the connection takes all it is given. Then what it
  -- has handed to the connection is, for each trade of the file and in the file's order, the bytes of
  -- one frame that is read as a rejected sell order that copies the trade.
  pub run-AnswerFrames :
      (o : Options) (any_quote : Gcmd.Quote) (any_trade : Gcmd.Trade) (any_time : ℕ)
      (any_message : Message) (any_buffer : List ℕ) (qs : List Csv.Quote) (ts : List Csv.Trade)
      (ms ns : List MdMessage) (ticks more : List Tick) (rounds quiet : List Round) (q : Q)
      → length o.symbol ≡ 12
      → queue.contents q ≡ []
      → Told quote_message qs ms
      → Told trade_message ts ns
      → Mixed ms ns (all_arrivals ticks)
      → All Gcmd.IsMessage (all_arrivals ticks)
      → Clocked InReading ticks
      → Clocked InReading more
      → Untold ticks
      → Untold more
      → Still more
      → 3 * length (all_arrivals ticks) ≤ length more
      → length any_buffer ≡ 54
      → All Works rounds
      → All Works quiet
      → All Quiet quiet
      → Roomy [] rounds
      → length (all_pushes rounds) ≤ length quiet
      → let s = Program.new_services o any_quote any_trade any_time in
        let d = run queue handlers more (run queue handlers ticks (Demultiplexer.start q s)) in
        all_pushes rounds ≡ map order d.services.sent
        → (sender : OrderMessageSender) × (Program.start o any_quote any_trade any_time ≡ ok s)
          × (Sender.run (Sender.init any_message any_buffer) (rounds ++ quiet) ≡ (running, sender))
          × AnswerFrames ts sender.handed
  unfolding Demultiplexer.start Engine.init
  run-AnswerFrames o any_quote any_trade any_time any_message any_buffer qs ts ms ns ticks more
        rounds quiet q twelve nil told_q told_t mixed fits clocks clocks' u v still long room w ws
        silent roomy enough pushed =
      let s = Program.new_services o any_quote any_trade any_time in
      let starts = Program.start-ok o any_quote any_trade any_time twelve in
      let d0 = Demultiplexer.start q s in
      let (s', starts', (empty, book, counted, executed, answers)) =
        run-files queue o any_quote any_trade any_time qs ts ms ns ticks more q twelve nil told_q
          told_t mixed u v still long in
      let same : s' ≡ s = cc (starts, starts') in
      let result = λ (x : Services).
        (run queue handlers more
          (run queue handlers ticks (Demultiplexer.start q x))).services.sent in
      let keep = run-Kept queue handlers Fitting InReading Gcmd.IsMessage message-Fitting in
      let kept = keep ticks d0 clocks fits (record {
        services = record { counter_in = omega arith; orders_in = tt };
        waits = subst (All Gcmd.IsMessage) (sym nil) tt;
      }) in
      let none_came = subst (All Gcmd.IsMessage) (sym (arrivals-Still more still)) tt in
      let kept' = keep more (run queue handlers ticks d0) clocks' none_came kept in
      let (sender, sends, carry, rest) =
        orders-Carry any_message any_buffer (result s) rounds quiet room kept'.services.orders_in w
          ws silent roomy pushed enough in
      (
        sender,
        starts,
        sends,
        Answers-AnswerFrames (subst (λ x. Answers ts (result x)) same answers) carry refl,
      )
