-- ===== src/Demultiplexer/Keeps.antt =====
-- What every message keeps of the services, the thread keeps.
use slipstream_volume_aware.Prelude.{◌≡◌, refl, sym, List, [], ◌∷◌, All, All-append, All-split}
use mathlib.Core.Path.{subst}
use slipstream_volume_aware.Prelude.Outcome.{Outcome, ok, err}
use slipstream_volume_aware.Codec.Gcmd.{MdMessage}
use slipstream_volume_aware.Engine.{Readings}
use slipstream_volume_aware.Dispatch.{Services, Handler, master_on_message}
use slipstream_volume_aware.Demultiplexer.{
  InboundMessageQueue, Position, testing, waiting, popping, finished, threw, Tick,
  MessageDeMultiplexer, arrive, handled, popped, act, step, run,
}
use slipstream_volume_aware.Demultiplexer.Order.{all_arrivals, enqueue_all-contents, queue-handled}

-- Each tick's reading of the clocks.
abbrev pub Clocked : (Readings → Type 0) → List Tick → Type 0
Clocked P [] = Unit
Clocked P (t ∷ ts) = P t.now × Clocked P ts

-- `I` is a property of the services that a handler keeps, for readings in `P` and messages in `M`.
module _ {ℓ} {Q : Type ℓ} (queue : InboundMessageQueue Q) (hs : List Handler)
    (I : Services → Type 0) (P : Readings → Type 0) (M : MdMessage → Type 0)
    (keeps : (s s' : Services) (now : Readings) (m : MdMessage)
      → P now
      → M m
      → I s
      → master_on_message hs s now m ≡ ok s'
      → I s') where
  pub record Kept (d : MessageDeMultiplexer Q) : Type 0 where
    pub services : I d.services
    pub waits : All M (queue.contents d.message_queue)

  handled-I :
      (r : Outcome Services) (d : MessageDeMultiplexer Q)
      → ((s' : Services) → r ≡ ok s' → I s')
      → I d.services
      → I (handled queue hs r d).services
  unfolding handled
  handled-I (ok s) d f i = f s refl
  handled-I (err e) d f i = i

  popped-Kept :
      (now : Readings) (d : MessageDeMultiplexer Q) (ms : List MdMessage)
      → P now
      → queue.contents d.message_queue ≡ ms
      → Kept d
      → Kept (popped queue hs now (queue.pop d.message_queue) d)
  unfolding popped
  popped-Kept now d [] p e k =
      subst (λ o. Kept (popped queue hs now o d)) (sym (queue.pop_none d.message_queue e))
        (record { services = k.services; waits = k.waits })
  popped-Kept now d (m ∷ ms) p e k =
      let (q', pops, more) = queue.pop_first d.message_queue m ms e in
      let d1 = record d { message_queue = q' } in
      let o = master_on_message hs d.services now m in
      let (first, others) = subst (All M) e k.waits in
      subst (λ o. Kept (popped queue hs now o d)) (sym pops)
        (record {
          services =
              handled-I o d1 (λ s' r. keeps d.services s' now m p first k.services r) k.services;
          waits =
              subst (λ q. All M (queue.contents q)) (sym (queue-handled queue hs o d1))
                (subst (All M) (sym more) others);
        })

  act-Kept :
      (now : Readings) (d : MessageDeMultiplexer Q) (p : Position)
      → P now
      → Kept d
      → Kept (act queue hs now p d)
  unfolding act
  act-Kept now d testing p k = record { services = k.services; waits = k.waits }
  act-Kept now d waiting p k = record { services = k.services; waits = k.waits }
  act-Kept now d popping p k = popped-Kept now d (queue.contents d.message_queue) p refl k
  act-Kept now d finished p k = k
  act-Kept now d (threw e) p k = k

  step-Kept :
      (t : Tick) (d : MessageDeMultiplexer Q)
      → P t.now
      → All M t.arrivals
      → Kept d
      → Kept (step queue hs t d)
  unfolding step
  step-Kept t d p a k = act-Kept t.now (arrive queue hs t d) d.position p (record {
    services = k.services;
    waits =
        subst (All M) (sym (enqueue_all-contents queue hs d.message_queue t.arrivals))
          (All-append M _ t.arrivals k.waits a);
  })

  pub run-Kept :
      (ts : List Tick) (d : MessageDeMultiplexer Q)
      → Clocked P ts
      → All M (all_arrivals ts)
      → Kept d
      → Kept (run queue hs ts d)
  unfolding run
  run-Kept [] d c a k = k
  run-Kept (t ∷ ts) d (p, c) a k =
      let (here, later) = All-split M t.arrivals (all_arrivals ts) a in
      run-Kept ts (step queue hs t d) c later (step-Kept t d p here k)
