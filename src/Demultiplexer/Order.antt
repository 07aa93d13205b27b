-- ===== src/Demultiplexer/Order.antt =====
-- Every message that arrives is handled once and in its turn, or is still in the queue.
use slipstream_volume_aware.Prelude.{
  ◌≡◌, refl, sym, ap, ◌∙◌, List, [], ◌∷◌, ◌++◌, map, append_assoc, append-nil, Bool, true, false,
  if◌then◌else◌,
}
use slipstream_volume_aware.Prelude.Outcome.{Outcome, ok, err, ◌>>=◌}
use mathlib.Core.Path.{subst}
use slipstream_volume_aware.Codec.Gcmd.{MdMessage}
use slipstream_volume_aware.Engine.{Readings}
use slipstream_volume_aware.Dispatch
use slipstream_volume_aware.Dispatch.{Services, Handler, master_on_message}
use slipstream_volume_aware.Demultiplexer.{
  InboundMessageQueue, Position, testing, waiting, popping, finished, threw, Tick,
  MessageDeMultiplexer, enqueue_all, arrive, handled, popped, act, step, run,
}

-- The services after what has been handled, unless a handler has thrown.
abbrev pub result_at : Services → Position → Outcome Services
result_at s testing = ok s
result_at s waiting = ok s
result_at s popping = ok s
result_at s finished = ok s
result_at s (threw e) = err e

abbrev pub result {ℓ} : {Q : Type ℓ} → MessageDeMultiplexer Q → Outcome Services
result d = result_at d.services d.position

run-nothing : (hs : List Handler) (r : Outcome Services) → (r >>= (λ s. Dispatch.run hs s [])) ≡ r
unfolding Dispatch.run
run-nothing hs (ok s) = refl
run-nothing hs (err e) = refl

run-append :
    (hs : List Handler) (r : Outcome Services) (is js : List (Readings × MdMessage))
    → ((r >>= (λ s. Dispatch.run hs s is)) >>= (λ s. Dispatch.run hs s js))
      ≡ (r >>= (λ s. Dispatch.run hs s (is ++ js)))
unfolding Dispatch.run
run-append hs (err e) is js = refl
run-append hs (ok s) [] js = refl
run-append hs (ok s) (i ∷ is) js = run-append hs (master_on_message hs s i.0 i.1) is js

abbrev pub all_arrivals : List Tick → List MdMessage
all_arrivals [] = []
all_arrivals (t ∷ ts) = t.arrivals ++ all_arrivals ts

abbrev pub messages : List (Readings × MdMessage) → List MdMessage
messages is = map (λ i. i.1) is

messages-append :
    (is js : List (Readings × MdMessage)) → messages (is ++ js) ≡ messages is ++ messages js
messages-append [] js = refl
messages-append (i ∷ is) js = ap (λ l. i.1 ∷ l) (messages-append is js)

module _ {ℓ} {Q : Type ℓ} (queue : InboundMessageQueue Q) (hs : List Handler) where
  pub enqueue_all-contents :
      (q : Q) (ms : List MdMessage)
      → queue.contents (enqueue_all queue hs q ms) ≡ queue.contents q ++ ms
  enqueue_all-contents q [] = sym (append-nil (queue.contents q))
  enqueue_all-contents q (m ∷ ms) =
      enqueue_all-contents (queue.enqueue q m) ms
      ∙ ap (λ l. l ++ ms) (queue.enqueue_last q m)
      ∙ append_assoc (queue.contents q) (m ∷ []) ms

  -- `done` is what has been handled from `d` to `d'`, of what was in the queue and the `ms` that came.
  pub record Between (d : MessageDeMultiplexer Q) (ms : List MdMessage)
      (d' : MessageDeMultiplexer Q) : Type ℓ where
    pub done : List (Readings × MdMessage)
    pub kept :
        messages done ++ queue.contents d'.message_queue ≡ queue.contents d.message_queue ++ ms
    pub services : result d' ≡ (result d >>= (λ s. Dispatch.run hs s done))

  -- Nothing is handled, and the queue stays.
  same-Between :
      (d d' : MessageDeMultiplexer Q)
      → queue.contents d'.message_queue ≡ queue.contents d.message_queue
      → result d' ≡ result d
      → Between d [] d'
  same-Between d d' e f = record {
    done = [];
    kept = e ∙ sym (append-nil (queue.contents d.message_queue));
    services = f ∙ sym (run-nothing hs (result d));
  }

  pub result-handled :
      (r : Outcome Services) (d : MessageDeMultiplexer Q) → result (handled queue hs r d) ≡ r
  unfolding handled
  result-handled (ok s) d = refl
  result-handled (err e) d = refl

  pub queue-handled :
      (r : Outcome Services) (d : MessageDeMultiplexer Q)
      → (handled queue hs r d).message_queue ≡ d.message_queue
  unfolding handled
  queue-handled (ok s) d = refl
  queue-handled (err e) d = refl

  run-one :
      (s : Services) (now : Readings) (m : MdMessage)
      → Dispatch.run hs s ((now, m) ∷ []) ≡ master_on_message hs s now m
  unfolding Dispatch.run
  run-one s now m = run-nothing hs (master_on_message hs s now m)

  -- A `pop`, from what was in the queue.
  popped-Between :
      (now : Readings) (d : MessageDeMultiplexer Q) (ms : List MdMessage)
      → result d ≡ ok d.services
      → queue.contents d.message_queue ≡ ms
      → Between d [] (popped queue hs now (queue.pop d.message_queue) d)
  unfolding popped
  popped-Between now d [] r e =
      subst (λ o. Between d [] (popped queue hs now o d)) (sym (queue.pop_none d.message_queue e))
        (same-Between d _ refl (sym r))
  popped-Between now d (m ∷ ms) r e =
      let (q', pops, more) = queue.pop_first d.message_queue m ms e in
      let d1 = record d { message_queue = q' } in
      let o = master_on_message hs d.services now m in
      subst (λ o. Between d [] (popped queue hs now o d)) (sym pops)
        (record {
          done = (now, m) ∷ [];
          kept =
              ap (λ q. m ∷ queue.contents q) (queue-handled o d1)
              ∙ ap (λ l. m ∷ l) more
              ∙ sym e
              ∙ sym (append-nil (queue.contents d.message_queue));
          services =
              result-handled o d1
              ∙ sym (run-one d.services now m)
              ∙ ap (λ x. x >>= (λ s. Dispatch.run hs s ((now, m) ∷ []))) (sym r);
        })

  if-waits : (b : Bool) (s : Services) → result_at s (if b then finished else waiting) ≡ ok s
  if-waits true s = refl
  if-waits false s = refl

  if-pops : (b : Bool) (s : Services) → result_at s (if b then waiting else popping) ≡ ok s
  if-pops true s = refl
  if-pops false s = refl

  act-Between :
      (now : Readings) (d : MessageDeMultiplexer Q) (p : Position)
      → d.position ≡ p
      → Between d [] (act queue hs now p d)
  unfolding act
  act-Between now d testing e =
      same-Between d _ refl (if-waits d.should_stop d.services ∙ sym (ap (result_at d.services) e))
  act-Between now d waiting e =
      same-Between d _ refl
        (if-pops (queue.empty d.message_queue) d.services ∙ sym (ap (result_at d.services) e))
  act-Between now d popping e =
      popped-Between now d (queue.contents d.message_queue) (ap (result_at d.services) e) refl
  act-Between now d finished e = same-Between d d refl refl
  act-Between now d (threw f) e = same-Between d d refl refl

  step-Between : (t : Tick) (d : MessageDeMultiplexer Q) → Between d t.arrivals (step queue hs t d)
  unfolding step
  step-Between t d =
      let b = act-Between t.now (arrive queue hs t d) d.position refl in
      record {
        done = b.done;
        kept =
            b.kept
            ∙ append-nil (queue.contents (enqueue_all queue hs d.message_queue t.arrivals))
            ∙ enqueue_all-contents d.message_queue t.arrivals;
        services = b.services;
      }

  pub Between-trans :
      {d d1 d' : MessageDeMultiplexer Q} {ms ns : List MdMessage}
      → Between d ms d1
      → Between d1 ns d'
      → Between d (ms ++ ns) d'
  Between-trans {d = d} {d' = d'} {ms = ms} {ns = ns} a b = record {
    done = a.done ++ b.done;
    kept =
        ap (λ l. l ++ queue.contents d'.message_queue) (messages-append a.done b.done)
        ∙ append_assoc (messages a.done) (messages b.done) (queue.contents d'.message_queue)
        ∙ ap (λ l. messages a.done ++ l) b.kept
        ∙ sym (append_assoc (messages a.done) _ ns)
        ∙ ap (λ l. l ++ ns) a.kept
        ∙ append_assoc (queue.contents d.message_queue) ms ns;
    services =
        b.services
        ∙ ap (λ r. r >>= (λ s. Dispatch.run hs s b.done)) a.services
        ∙ run-append hs (result d) a.done b.done;
  }

  pub run-keeps :
      (ts : List Tick) (d : MessageDeMultiplexer Q)
      → Between d (all_arrivals ts) (run queue hs ts d)
  unfolding run
  run-keeps [] d = same-Between d d refl refl
  run-keeps (t ∷ ts) d = Between-trans (step-Between t d) (run-keeps ts (step queue hs t d))

  -- However the pushes of the receivers fall between the steps of the thread, and whenever it is
  -- told to stop: what it has handled, with what is still in the queue behind it, is what was in the
  -- queue at the start and then all that has arrived, nothing lost, doubled or out of turn; and the
  -- services are what the handlers make of these messages one after the other, up to the first that
  -- throws.
  pub run-Between :
      (ts : List Tick) (d : MessageDeMultiplexer Q)
      → (done : List (Readings × MdMessage)) × (messages done
            ++ queue.contents (run queue hs ts d).message_queue
          ≡ queue.contents d.message_queue ++ all_arrivals ts)
        × (result (run queue hs ts d) ≡ (result d >>= (λ s. Dispatch.run hs s done)))
  run-Between ts d = let b = run-keeps ts d in (b.done, b.kept, b.services)
