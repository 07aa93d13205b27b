-- ===== src/Demultiplexer/Stop.antt =====
-- What the thread does next, and where it cannot be stopped.
use slipstream_volume_aware.Prelude.{◌≡◌, refl, sym, ap, ◌∙◌, List, [], ◌∷◌, ◌++◌, false}
use mathlib.Core.Path.{subst}
use slipstream_volume_aware.Codec.Gcmd.{MdMessage}
use slipstream_volume_aware.Dispatch.{Handler, master_on_message}
use slipstream_volume_aware.Demultiplexer.{
  InboundMessageQueue, testing, waiting, popping, is_nil, Tick, MessageDeMultiplexer, enqueue_all,
  arrive, popped, act, step, run,
}
use slipstream_volume_aware.Demultiplexer.Order.{
  enqueue_all-contents, result, result-handled, queue-handled,
}

-- Ticks that bring nothing.
abbrev pub Still : List Tick → Type 0
Still [] = Unit
Still (t ∷ ts) = (t.arrivals ≡ []) × Still ts

module _ {ℓ} {Q : Type ℓ} (queue : InboundMessageQueue Q) (hs : List Handler) where
  pub step-waiting :
      (t : Tick) (d : MessageDeMultiplexer Q)
      → d.position ≡ waiting
      → queue.contents d.message_queue ≡ []
      → t.arrivals ≡ []
      → ((step queue hs t d).position ≡ waiting)
        × (queue.contents (step queue hs t d).message_queue ≡ [])
  unfolding step act
  step-waiting t d w c a =
      let none_came = ap (enqueue_all queue hs d.message_queue) a in
      let no_more = ap queue.contents none_came ∙ c in
      let nil =
        queue.empty_nil (enqueue_all queue hs d.message_queue t.arrivals) ∙ ap is_nil no_more in
      (simp (w, nil), simp (w, no_more))

  -- The destructor sets `shouldStop` and joins the thread. While the thread waits at an empty queue
  -- and nothing more arrives, it goes on waiting, for any number of steps and whenever `shouldStop`
  -- is set: it does not leave `run`, and the join does not return.
  pub run-waiting :
      (ts : List Tick) (d : MessageDeMultiplexer Q)
      → d.position ≡ waiting
      → queue.contents d.message_queue ≡ []
      → Still ts
      → ((run queue hs ts d).position ≡ waiting)
        × (queue.contents (run queue hs ts d).message_queue ≡ [])
  unfolding run
  run-waiting [] d w c s = (w, c)
  run-waiting (t ∷ ts) d w c (a, s) =
      let (w', c') = step-waiting t d w c a in run-waiting ts (step queue hs t d) w' c' s

  pub step-testing :
      (t : Tick) (d : MessageDeMultiplexer Q)
      → d.position ≡ testing
      → d.should_stop ≡ false
      → t.destroyed ≡ false
      → step queue hs t d ≡ record (arrive queue hs t d) { position = waiting }
  unfolding step act
  step-testing t d p s e = simp (p, s, e)

  pub step-popping :
      (t : Tick) (d : MessageDeMultiplexer Q) (m : MdMessage) (ms : List MdMessage)
      → d.position ≡ waiting
      → queue.contents d.message_queue ≡ m ∷ ms
      → step queue hs t d ≡ record (arrive queue hs t d) { position = popping }
  unfolding step act
  step-popping t d m ms p c =
      let full =
        enqueue_all-contents queue hs d.message_queue t.arrivals ∙ ap (λ l. l ++ t.arrivals) c in
      let more =
        queue.empty_nil (enqueue_all queue hs d.message_queue t.arrivals) ∙ ap is_nil full in
      simp (p, more)

  pub come :
      (t : Tick) (d : MessageDeMultiplexer Q) {xs : List MdMessage}
      → queue.contents d.message_queue ≡ xs
      → queue.contents (arrive queue hs t d).message_queue ≡ xs ++ t.arrivals
  come t d c =
      enqueue_all-contents queue hs d.message_queue t.arrivals ∙ ap (λ l. l ++ t.arrivals) c

  step-pop :
      (t : Tick) (d : MessageDeMultiplexer Q) (m : MdMessage) (ms : List MdMessage)
      → queue.contents d.message_queue ≡ m ∷ ms
      → let d' = step queue hs t (record d { position = popping }) in
        (result d' ≡ master_on_message hs d.services t.now m)
        × (queue.contents d'.message_queue ≡ ms ++ t.arrivals)
  unfolding step act popped
  step-pop t d m ms c =
      let d1 = arrive queue hs t (record d { position = popping }) in
      let (q', pops, more) = queue.pop_first d1.message_queue m (ms ++ t.arrivals) (come t d c) in
      let o = master_on_message hs d.services t.now m in
      rw pops (
        result-handled queue hs o (record d1 { message_queue = q' }),
        ap queue.contents (queue-handled queue hs o (record d1 { message_queue = q' })) ∙ more,
      )

  -- The thread at the head of its loop, not told to stop before it tests for it, and a queue that is
  -- not empty: in three steps it has handed the first message to the handlers, whatever arrives
  -- meanwhile, and what is in the queue is the other messages and what has arrived, in order.
  pub run-next :
      (t1 t2 t3 : Tick) (d : MessageDeMultiplexer Q) (m : MdMessage) (ms : List MdMessage)
      → d.position ≡ testing
      → d.should_stop ≡ false
      → t1.destroyed ≡ false
      → queue.contents d.message_queue ≡ m ∷ ms
      → let d' = run queue hs (t1 ∷ t2 ∷ t3 ∷ []) d in
        (result d' ≡ master_on_message hs d.services t3.now m)
        × (queue.contents d'.message_queue ≡ ((ms ++ t1.arrivals) ++ t2.arrivals) ++ t3.arrivals)
  unfolding run
  run-next t1 t2 t3 d m ms p s e c =
      let d1 = record (arrive queue hs t1 d) { position = waiting } in
      let d2 = record (arrive queue hs t2 d1) { position = popping } in
      let first = step-testing t1 d p s e in
      let second = step-popping t2 d1 m (ms ++ t1.arrivals) refl (come t1 d c) in
      subst
        (λ x.
          (result (step queue hs t3 x) ≡ master_on_message hs d.services t3.now m)
          × (queue.contents (step queue hs t3 x).message_queue
              ≡ ((ms ++ t1.arrivals) ++ t2.arrivals) ++ t3.arrivals))
        (sym (ap (step queue hs t2) first ∙ second))
        (step-pop t3 d2 m ((ms ++ t1.arrivals) ++ t2.arrivals) (come t2 d1 (come t1 d c)))
