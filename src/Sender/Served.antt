-- ===== src/Sender/Served.antt =====
-- `run` of the sender against a list of messages, of which each round serves the first.
use slipstream_volume_aware.Prelude.{
  ℕ, ◌≤◌, ◌≡◌, refl, sym, ap, ◌∙◌, List, [], ◌∷◌, ◌++◌, length, true, false, none, some, arith,
  append-nil, append_assoc, length-append, lt→ltb, ltb,
}
use mathlib.Core.Path.{subst}
use slipstream_volume_aware.Prelude.Outcome.{ok}
use slipstream_volume_aware.Concurrency.Fifo
use slipstream_volume_aware.Concurrency.Spsc
use slipstream_volume_aware.Concurrency.Spsc.{SpscQueue, Represents}
use slipstream_volume_aware.Concurrency.Spsc.Refine.{push_refines, pop_refines}
use slipstream_volume_aware.Sender.{
  Message, send_message, OrderMessageSender, Round, running, push_all, hand_over, after_pop, round,
  run,
}
use slipstream_volume_aware.Sender.Frames.{
  IsMessage, Carries, AllCarry, none_carried, carried, send_message-Carries,
}

-- A round that neither stops nor fails.
pub record Works (i : Round) : Type 0 where
  pub not_told : i.told_to_stop ≡ false
  pub accepts : i.accepts ≡ ok tt

-- Rounds that begin with some messages in the queue, find room for what is pushed, and serve the first
-- message that is there; the messages served, and those that are left.
pub data Serves : List Message → List Round → List Message → List Message → Type 0 where
  over : {ms : List Message} → Serves ms [] [] ms
  idle :
      {i : Round} {is : List Round} {out left : List Message}
      → Works i
      → i.pushes ≡ []
      → Serves [] is out left
      → Serves [] (i ∷ is) out left
  serve :
      {ms more out left : List Message} {i : Round} {is : List Round} (m : Message)
      → Works i
      → ms ++ i.pushes ≡ m ∷ more
      → length (ms ++ i.pushes) ≤ 1024
      → IsMessage m
      → Serves more is out left
      → Serves ms (i ∷ is) (m ∷ out) left

abbrev pub all_pushes : List Round → List Message
all_pushes [] = []
all_pushes (i ∷ is) = i.pushes ++ all_pushes is

Serves-order :
    {ms out left : List Message} {is : List Round}
    → Serves ms is out left
    → out ++ left ≡ ms ++ all_pushes is
Serves-order {ms = ms} over = sym (append-nil ms)
Serves-order (idle {is = is} w e v) = Serves-order v ∙ ap (λ l. l ++ all_pushes is) (sym e)
Serves-order {ms = ms} (serve {i = i} {is = is} m w e fits k v) =
    ap (λ l. m ∷ l) (Serves-order v)
    ∙ ap (λ l. l ++ all_pushes is) (sym e)
    ∙ append_assoc ms i.pushes (all_pushes is)

push_all-Represents :
    (q : SpscQueue Message) (xs ms : List Message)
    → Represents 1024 q xs
    → length (xs ++ ms) ≤ 1024
    → Represents 1024 (push_all q ms) (xs ++ ms)
unfolding Fifo.push
push_all-Represents q xs [] r h = subst (Represents 1024 q) (sym (append-nil xs)) r
push_all-Represents q xs (m ∷ ms) r h =
    let room = lt→ltb (length xs) 1024 (omega (arith, h, length-append xs (m ∷ ms))) in
    let one = (push_refines 1024 (omega arith) r m).1 in
    let q' = (Spsc.push 1024 q m).1 in
    let whole = append_assoc xs (m ∷ []) ms in
    subst (Represents 1024 (push_all q' ms)) whole (
      push_all-Represents q' (xs ++ (m ∷ [])) ms
        (subst (Represents 1024 q') (ap (λ o. o.1) (fifo_room xs m room)) one)
        (omega (arith, h, ap length whole)))
  where
    fifo_room :
        (xs : List Message) (m : Message)
        → ltb (length xs) 1024 ≡ true
        → Fifo.push 1024 xs m ≡ (true, xs ++ (m ∷ []))
    fifo_room xs m e = rw e refl

round-sends :
    (s : OrderMessageSender) (i : Round) (q' : SpscQueue Message) (m : Message) (f b : List ℕ)
    → s.should_stop ≡ false
    → Works i
    → Spsc.pop 1024 (push_all s.message_queue i.pushes) ≡ (some m, q')
    → send_message s.buffer m ≡ ok (f, b)
    → round s i
      ≡ (running, record s { message_queue = q'; buffer = b; handed = s.handed ++ (f ∷ []) })
unfolding round after_pop hand_over
round-sends s i q' m f b go w p e = simp (go, w.not_told, p, w.accepts, e)

round-idles :
    (s : OrderMessageSender) (i : Round) (q' : SpscQueue Message)
    → s.should_stop ≡ false
    → Works i
    → Spsc.pop 1024 (push_all s.message_queue i.pushes) ≡ (none, q')
    → round s i ≡ (running, record s { message_queue = q' })
unfolding round after_pop
round-idles s i q' go w p = simp (go, w.not_told, p)

run-round :
    (s s' : OrderMessageSender) (i : Round) (is : List Round)
    → round s i ≡ (running, s')
    → run s (i ∷ is) ≡ run s' is
unfolding run
run-round s s' i is e = cc e

round-serves :
    (s : OrderMessageSender) (i : Round) (ms more : List Message) (m : Message)
    → s.should_stop ≡ false
    → Represents 1024 s.message_queue ms
    → 54 ≤ length s.buffer
    → Works i
    → ms ++ i.pushes ≡ m ∷ more
    → length (ms ++ i.pushes) ≤ 1024
    → IsMessage m
    → (s' : OrderMessageSender) × (f : List ℕ) × (round s i ≡ (running, s'))
      × (s'.handed ≡ s.handed ++ (f ∷ []))
      × Carries m f
      × Represents 1024 s'.message_queue more
      × (length s'.buffer ≡ length s.buffer)
      × (s'.should_stop ≡ false)
unfolding round after_pop hand_over Fifo.pop
round-serves s i ms more m go r room w e fits v =
    let q = push_all s.message_queue i.pushes in
    let full =
      subst (Represents 1024 q) e (push_all-Represents s.message_queue ms i.pushes r fits) in
    let (given, kept) = pop_refines 1024 (omega arith) (m ∷ more) full in
    let (f, b, sends, same, carries) = send_message-Carries s.buffer m room v in
    let q' = (Spsc.pop 1024 q).1 in
    (
      record s { message_queue = q'; buffer = b; handed = s.handed ++ (f ∷ []) },
      f,
      round-sends s i q' m f b go w (ap (λ o. (o, q')) given) sends,
      refl,
      carries,
      kept,
      same,
      go,
    )

-- What the rounds have done: each message served is in the bytes of one call of `sendBuffer`.
pub record Ran (s : OrderMessageSender) (is : List Round) (out left : List Message) : Type 0 where
  pub sender : OrderMessageSender
  pub frames : List (List ℕ)
  pub runs : run s is ≡ (running, sender)
  pub handed : sender.handed ≡ s.handed ++ frames
  pub all_carry : AllCarry out frames
  pub waiting : Represents 1024 sender.message_queue left

run-Ran :
    {ms out left : List Message} {is : List Round} (s : OrderMessageSender)
    → s.should_stop ≡ false
    → 54 ≤ length s.buffer
    → Represents 1024 s.message_queue ms
    → Serves ms is out left
    → Ran s is out left
unfolding Fifo.pop
run-Ran s go room r over = record {
  sender = s;
  frames = [];
  runs = unfold run in refl;
  handed = sym (append-nil s.handed);
  all_carry = none_carried;
  waiting = r;
}
run-Ran s go room r (idle {i = i} {is = is} w e v) =
    let none_pushed = subst (λ l. Represents 1024 (push_all s.message_queue l) []) (sym e) r in
    let q = push_all s.message_queue i.pushes in
    let (given, kept) = pop_refines 1024 (omega arith) [] none_pushed in
    let q' = (Spsc.pop 1024 q).1 in
    let s' = record s { message_queue = q' } in
    let more = run-Ran s' go room kept v in
    record {
      sender = more.sender;
      frames = more.frames;
      runs = run-round s s' i is (round-idles s i q' go w (ap (λ o. (o, q')) given)) ∙ more.runs;
      handed = more.handed;
      all_carry = more.all_carry;
      waiting = more.waiting;
    }
run-Ran {ms = ms} s go room r (serve {more = rest} {i = i} {is = is} m w e fits v k) =
    let (s', f, rounds, handed, carries, kept, same, go') =
      round-serves s i ms rest m go r room w e fits v in
    let more = run-Ran s' go' (omega (arith, same, room)) kept k in
    record {
      sender = more.sender;
      frames = f ∷ more.frames;
      runs = run-round s s' i is rounds ∙ more.runs;
      handed =
          more.handed
          ∙ ap (λ l. l ++ more.frames) handed
          ∙ append_assoc s.handed (f ∷ []) more.frames;
      all_carry = carried m f carries more.all_carry;
      waiting = more.waiting;
    }

-- A sender that is not told to stop, with a buffer of 54 bytes or more, on a connection that takes all
-- it is given, when there is room in the queue for what is pushed: it does not throw, and each round
-- in which a message is there sends one, the first, in one call of `sendBuffer` with the bytes of one
-- frame that is read as this message. The messages sent, with those still in the queue behind them,
-- are what was in the queue at the start and then all that was pushed, in order.
pub run-Serves :
    (s : OrderMessageSender) (ms out left : List Message) (is : List Round)
    → s.should_stop ≡ false
    → 54 ≤ length s.buffer
    → Represents 1024 s.message_queue ms
    → Serves ms is out left
    → (out ++ left ≡ ms ++ all_pushes is) × Ran s is out left
run-Serves s ms out left is go room r v = (Serves-order v, run-Ran s go room r v)
