-- ===== src/System/Files.antt =====
-- From the files of the two clients to the services, by the queue and its thread.
use slipstream_volume_aware.Prelude.{
  ℕ, ◌+◌, ◌*◌, ◌%◌, ◌^◌, ◌≤◌, ◌≡◌, refl, sym, ap, ◌∙◌, List, [], ◌++◌, length, arith,
}
use mathlib.Core.Path.{subst}
use slipstream_volume_aware.Prelude.Outcome.{ok}
use slipstream_volume_aware.Codec.Gcmd
use slipstream_volume_aware.Codec.Gcmd.{MdMessage}
use slipstream_volume_aware.Csv
use slipstream_volume_aware.Engine
use slipstream_volume_aware.Dispatch.{Services}
use slipstream_volume_aware.Dispatch.Counts.{handlers, run-counts}
use slipstream_volume_aware.Demultiplexer
use slipstream_volume_aware.Demultiplexer.{InboundMessageQueue, Tick, run}
use slipstream_volume_aware.Demultiplexer.Order.{all_arrivals}
use slipstream_volume_aware.Demultiplexer.Stop.{Still}
use slipstream_volume_aware.Demultiplexer.Drain.{Untold, run-handles_all}
use slipstream_volume_aware.Replay.Played.{quote_message, trade_message}
use slipstream_volume_aware.Pipeline.{Told}
use slipstream_volume_aware.Program
use slipstream_volume_aware.Program.{Options}
use slipstream_volume_aware.Program.Unsided.{run-rejects}
use slipstream_volume_aware.System.{
  Mixed, Mixed-Heard, Heard-Unsided, quote_count-Heard, Answers, rejections-Answers, Booked,
  quotes_seen-Booked,
}

module _ {ℓ} {Q : Type ℓ} (queue : InboundMessageQueue Q) where
  -- The services of main, new, with a symbol of 12 characters, and the queue, empty. The receivers
  -- push the quotes of one file and the trades of another, each in the file's order and with
  -- heartbeats in between, mixed with each other and with the steps of the thread in any way, and the
  -- thread has three steps for each message after the last and is not told to stop. Then every
  -- message has been handled and the queue is empty; the book is what the file's quotes for its
  -- symbol make of it; the engine has counted all the file's quotes, in 32 bits; and the answer to
  -- the trades is one rejected sell order each, in the file's order, with nothing executed.
  pub run-files :
      (o : Options) (any_quote : Gcmd.Quote) (any_trade : Gcmd.Trade) (any_time : ℕ)
      (qs : List Csv.Quote) (ts : List Csv.Trade) (ms ns : List MdMessage) (ticks more : List Tick)
      (q : Q)
      → length o.symbol ≡ 12
      → queue.contents q ≡ []
      → Told quote_message qs ms
      → Told trade_message ts ns
      → Mixed ms ns (all_arrivals ticks)
      → Untold ticks
      → Untold more
      → Still more
      → 3 * length (all_arrivals ticks) ≤ length more
      → (s : Services) × (Program.start o any_quote any_trade any_time ≡ ok s)
        × (let d = run queue handlers more (run queue handlers ticks (Demultiplexer.start q s)) in
            (queue.contents d.message_queue ≡ [])
            × Booked s.book qs d.services.book
            × (d.services.engine.quotes_received ≡ length qs % 2 ^ 32)
            × (d.services.engine.traded_quantity ≡ 0)
            × Answers ts d.services.sent)
  unfolding Demultiplexer.start Engine.init
  run-files o any_quote any_trade any_time qs ts ms ns ticks more q twelve nil told_q told_t mixed u
        v still long =
      let s = Program.new_services o any_quote any_trade any_time in
      let d0 = Demultiplexer.start q s in
      let d = run queue handlers more (run queue handlers ticks d0) in
      let came = ap (λ l. l ++ all_arrivals ticks) nil in
      let few = ap length came in
      let (done, same, runs, empty) =
        run-handles_all queue ticks more d0 tt refl u v still (omega (arith, few, long)) in
      let heard = Mixed-Heard mixed told_q told_t done (same ∙ came) in
      let (s1, runs1, book, quotes) = run-counts s done (omega arith) in
      let (s2, runs2, sent, executed) = run-rejects s done refl (Heard-Unsided heard) in
      let one : s1 ≡ d.services = cc runs1 in
      let two : s2 ≡ d.services = cc runs2 in
      (
        s,
        Program.start-ok o any_quote any_trade any_time twelve,
        (
          empty,
          subst (Booked s.book qs) (sym book ∙ ap (λ x. x.book) one)
              (quotes_seen-Booked s.book heard),
          ap (λ x. x.engine.quotes_received) (sym one)
              ∙ quotes
              ∙ ap (λ k. (0 + k) % 2 ^ 32) (quote_count-Heard heard)
              ∙ omega arith,
          ap (λ x. x.engine.traded_quantity) (sym two) ∙ executed,
          subst (Answers ts) (sym sent ∙ ap (λ x. x.sent) two) (rejections-Answers 0 heard),
        ),
      )
