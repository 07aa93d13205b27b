-- ===== src/Demultiplexer/Drain.antt =====
-- The thread with main's handlers, until the queue is empty.
use slipstream_volume_aware.Prelude.{
  ℕ, zero, suc, ◌+◌, ◌-◌, ◌*◌, ◌≤◌, ◌≡◌, refl, sym, ap, ◌∙◌, List, [], ◌∷◌, ◌++◌, length,
  length-append, append-nil, false, ◌||◌, arith,
}
use mathlib.Core.Path.{subst}
use slipstream_volume_aware.Prelude.Outcome.{ok, ◌>>=◌}
use slipstream_volume_aware.Codec.Gcmd.{MdMessage}
use slipstream_volume_aware.Engine.{Readings}
use slipstream_volume_aware.Dispatch
use slipstream_volume_aware.Dispatch.Counts.{handlers, message-ok}
use slipstream_volume_aware.Demultiplexer.{
  InboundMessageQueue, Position, testing, waiting, popping, finished, threw, is_nil, Tick,
  MessageDeMultiplexer, arrive, handled, popped, act, step, run,
}
use slipstream_volume_aware.Demultiplexer.Order.{
  messages, all_arrivals, enqueue_all-contents, result_at, run-keeps, Between-trans,
}
use slipstream_volume_aware.Demultiplexer.Stop.{Still}

-- Ticks at which the destructor does not set `shouldStop`.
abbrev pub Untold : List Tick → Type 0
Untold [] = Unit
Untold (t ∷ ts) = (t.destroyed ≡ false) × Untold ts

-- Still in the loop of `run`.
abbrev pub InLoop : Position → Type 0
InLoop testing = Unit
InLoop waiting = Unit
InLoop popping = Unit
InLoop finished = ⊥
InLoop (threw e) = ⊥

result_at-InLoop : (s : Dispatch.Services) (p : Position) → InLoop p → result_at s p ≡ ok s
result_at-InLoop s testing l = refl
result_at-InLoop s waiting l = refl
result_at-InLoop s popping l = refl
result_at-InLoop s finished l = elim l [ ]
result_at-InLoop s (threw e) l = elim l [ ]

pub arrivals-Still : (ts : List Tick) → Still ts → all_arrivals ts ≡ []
arrivals-Still [] s = refl
arrivals-Still (t ∷ ts) (e, s) = ap (λ l. l ++ all_arrivals ts) e ∙ arrivals-Still ts s

-- How many steps are left to take `n` messages out of the queue.
abbrev left : Position → ℕ → ℕ
left p zero = 0
left testing (suc n) = 3 * n + 3
left waiting (suc n) = 3 * n + 2
left popping (suc n) = 3 * n + 1
left finished (suc n) = 0
left (threw e) (suc n) = 0

left-bound : (p : Position) (n : ℕ) → left p n ≤ 3 * n
left-bound p zero = omega arith
left-bound testing (suc n) = omega arith
left-bound waiting (suc n) = omega arith
left-bound popping (suc n) = omega arith
left-bound finished (suc n) = omega arith
left-bound (threw e) (suc n) = omega arith

left-zero : (p : Position) (ms : List MdMessage) → InLoop p → left p (length ms) ≡ 0 → ms ≡ []
left-zero p [] l e = refl
left-zero testing (m ∷ ms) l e = absurd (omega (arith, e))
left-zero waiting (m ∷ ms) l e = absurd (omega (arith, e))
left-zero popping (m ∷ ms) l e = absurd (omega (arith, e))
left-zero finished (m ∷ ms) l e = elim l [ ]
left-zero (threw f) (m ∷ ms) l e = elim l [ ]

module _ {ℓ} {Q : Type ℓ} (queue : InboundMessageQueue Q) where
  -- A step of the thread keeps it in its loop, and takes it on.
  record Went (p : Position) (n : ℕ) (d' : MessageDeMultiplexer Q) : Type ℓ where
    goes : d'.should_stop ≡ false
    in_loop : InLoop d'.position
    less : left d'.position (length (queue.contents d'.message_queue)) ≡ left p n - 1

  act-testing :
      (now : Readings) (d : MessageDeMultiplexer Q) (n : ℕ)
      → d.should_stop ≡ false
      → length (queue.contents d.message_queue) ≡ n
      → Went testing n (act queue handlers now testing d)
  unfolding act
  act-testing now d n go e =
      rw go (record { goes = refl; in_loop = tt; less = rw e (left-testing n) })
    where
      left-testing : (n : ℕ) → left waiting n ≡ left testing n - 1
      left-testing zero = omega arith
      left-testing (suc n) = omega arith

  act-waiting :
      (now : Readings) (d : MessageDeMultiplexer Q) (ms : List MdMessage)
      → d.should_stop ≡ false
      → queue.contents d.message_queue ≡ ms
      → Went waiting (length ms) (act queue handlers now waiting d)
  unfolding act
  act-waiting now d [] go e =
      let nil = queue.empty_nil d.message_queue ∙ ap is_nil e in
      rw nil (record { goes = go; in_loop = tt; less = rw e refl })
  act-waiting now d (m ∷ ms) go e =
      let more = queue.empty_nil d.message_queue ∙ ap is_nil e in
      rw more (record { goes = go; in_loop = tt; less = rw e (omega arith) })

  left-popped : (n : ℕ) → left testing n ≡ left popping (suc n) - 1
  left-popped zero = omega arith
  left-popped (suc n) = omega arith

  act-popping :
      (now : Readings) (d : MessageDeMultiplexer Q) (ms : List MdMessage)
      → d.should_stop ≡ false
      → queue.contents d.message_queue ≡ ms
      → Went popping (length ms) (act queue handlers now popping d)
  unfolding act popped handled
  act-popping now d [] go e =
      rw (queue.pop_none d.message_queue e) (record { goes = go; in_loop = tt; less = rw e refl })
  act-popping now d (m ∷ ms) go e =
      let (q, pops, more) = queue.pop_first d.message_queue m ms e in
      let (s, ends) = message-ok d.services now m in
      rw (pops, ends) (record { goes = go; in_loop = tt; less = rw more (left-popped (length ms)) })

  act-Went :
      (now : Readings) (d : MessageDeMultiplexer Q) (p : Position)
      → InLoop p
      → d.should_stop ≡ false
      → Went p (length (queue.contents d.message_queue)) (act queue handlers now p d)
  act-Went now d testing l go = act-testing now d _ go refl
  act-Went now d waiting l go = act-waiting now d _ go refl
  act-Went now d popping l go = act-popping now d _ go refl
  act-Went now d finished l go = elim l [ ]
  act-Went now d (threw e) l go = elim l [ ]

  step-Went :
      (t : Tick) (d : MessageDeMultiplexer Q)
      → InLoop d.position
      → d.should_stop ≡ false
      → t.destroyed ≡ false
      → Went d.position
          (length (queue.contents d.message_queue ++ t.arrivals))
          (step queue handlers t d)
  unfolding step
  step-Went t d l go u =
      let still : (d.should_stop || t.destroyed) ≡ false = rw (go, u) refl in
      subst (λ ms. Went d.position (length ms) (step queue handlers t d))
        (enqueue_all-contents queue handlers d.message_queue t.arrivals)
        (act-Went t.now (arrive queue handlers t d) d.position l still)

  run-InLoop :
      (ts : List Tick) (d : MessageDeMultiplexer Q)
      → InLoop d.position
      → d.should_stop ≡ false
      → Untold ts
      → InLoop (run queue handlers ts d).position × ((run queue handlers ts d).should_stop ≡ false)
  unfolding run
  run-InLoop [] d l go u = (l, go)
  run-InLoop (t ∷ ts) d l go (h, u) =
      let w = step-Went t d l go h in run-InLoop ts (step queue handlers t d) w.in_loop w.goes u

  run-left :
      (ts : List Tick) (d : MessageDeMultiplexer Q)
      → InLoop d.position
      → d.should_stop ≡ false
      → Untold ts
      → Still ts
      → left d.position (length (queue.contents d.message_queue)) ≤ length ts
      → queue.contents (run queue handlers ts d).message_queue ≡ []
  unfolding run
  run-left [] d l go u s few = left-zero d.position _ l (omega (arith, few))
  run-left (t ∷ ts) d l go (h, u) (none_came, s) few =
      let w = step-Went t d l go h in
      let same =
        ap (λ a. length (queue.contents d.message_queue ++ a)) none_came
        ∙ ap length (append-nil (queue.contents d.message_queue)) in
      let less = w.less ∙ ap (λ n. left d.position n - 1) same in
      run-left ts (step queue handlers t d) w.in_loop w.goes u s (omega (arith, less, few))

  -- The thread in its loop, with any messages in the queue. Whatever arrives in some steps and however
  -- it falls between them: if nothing arrives in the steps after these, which are three or more for
  -- each message that was there or came, and the destructor does not tell the thread to stop, then
  -- every message has been handed to main's handlers, once, in order, with no handler throwing, and
  -- the queue is empty.
  pub run-handles_all :
      (ts more : List Tick) (d : MessageDeMultiplexer Q)
      → InLoop d.position
      → d.should_stop ≡ false
      → Untold ts
      → Untold more
      → Still more
      → 3 * length (queue.contents d.message_queue ++ all_arrivals ts) ≤ length more
      → let d' = run queue handlers more (run queue handlers ts d) in
        (done : List (Readings × MdMessage)) × (messages done
          ≡ queue.contents d.message_queue ++ all_arrivals ts)
        × (Dispatch.run handlers d.services done ≡ ok d'.services)
        × (queue.contents d'.message_queue ≡ [])
  run-handles_all ts more d l go u v s long =
      let d1 = run queue handlers ts d in
      let d' = run queue handlers more d1 in
      let (l1, go1) = run-InLoop ts d l go u in
      let (l2, go2) = run-InLoop more d1 l1 go1 v in
      let first = run-keeps queue handlers ts d in
      let both = Between-trans queue handlers first (run-keeps queue handlers more d1) in
      let count =
        sym (length-append (messages first.done) (queue.contents d1.message_queue))
        ∙ ap length first.kept in
      let enough = left-bound d1.position (length (queue.contents d1.message_queue)) in
      let nil = run-left more d1 l1 go1 v s (omega (arith, count, enough, long)) in
      (
        both.done,
        sym (append-nil (messages both.done))
            ∙ ap (λ l. messages both.done ++ l) (sym nil)
            ∙ both.kept
            ∙ ap (λ l. queue.contents d.message_queue ++ (all_arrivals ts ++ l))
                (arrivals-Still more s)
            ∙ ap (λ l. queue.contents d.message_queue ++ l) (append-nil (all_arrivals ts)),
        ap (λ r. r >>= (λ s. Dispatch.run handlers s both.done))
              (sym (result_at-InLoop d.services d.position l))
            ∙ sym both.services
            ∙ result_at-InLoop d'.services d'.position l2,
        nil,
      )
