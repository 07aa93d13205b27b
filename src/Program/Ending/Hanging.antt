-- ===== src/Program/Ending/Hanging.antt =====
-- The end that main does not come to.
use slipstream_volume_aware.Prelude.{
  ◌≡◌, ◌⊎◌, inl, inr, refl, sym, ap, List, [], ◌∷◌, true, false, Bool-cases,
}
use mathlib.Core.Path.{subst}
use slipstream_volume_aware.Prelude.Outcome.{Outcome}
use slipstream_volume_aware.Engine.{Readings}
use slipstream_volume_aware.Receiver.{wait_returns}
use slipstream_volume_aware.Receiver.Loop.{left}
use slipstream_volume_aware.Dispatch.Counts.{handlers}
use slipstream_volume_aware.Demultiplexer
use slipstream_volume_aware.Demultiplexer.{InboundMessageQueue, testing, waiting}
use slipstream_volume_aware.Demultiplexer.Stop.{step-waiting}
use slipstream_volume_aware.Sender
use slipstream_volume_aware.Sender.{Message}
use slipstream_volume_aware.Program.Ending.{
  Stage, in_wait, joining_demultiplexer, joining_oe, joining_md, joining_sender, returned,
  terminated, undefined, Threads, Turn, md_turn, oe_turn, demultiplexer_turn, sender_turn,
  operator_turn, main_turn, is_finished, after_round, md_round, oe_round, demultiplexer_step,
  sender_round, main_step, turn, run,
}

-- Not a line of the operator.
abbrev pub NoLine : List Turn → Type 0
NoLine [] = Unit
NoLine (md_turn reads now ∷ ts) = NoLine ts
NoLine (oe_turn reads now ∷ ts) = NoLine ts
NoLine (demultiplexer_turn now ∷ ts) = NoLine ts
NoLine (sender_turn pushes accepts ∷ ts) = NoLine ts
NoLine (operator_turn i ∷ ts) = ⊥
NoLine (main_turn ∷ ts) = NoLine ts

-- Stages from which no join has returned.
abbrev BeforeJoins : Stage → Type 0
BeforeJoins in_wait = Unit
BeforeJoins joining_demultiplexer = Unit
BeforeJoins joining_oe = ⊥
BeforeJoins joining_md = ⊥
BeforeJoins joining_sender = ⊥
BeforeJoins returned = ⊥
BeforeJoins terminated = Unit
BeforeJoins undefined = ⊥

which :
    (st : Stage)
    → BeforeJoins st
    → (st ≡ in_wait) ⊎ (st ≡ joining_demultiplexer) ⊎ (st ≡ terminated)
which in_wait b = inl refl
which joining_demultiplexer b = inr (inl refl)
which joining_oe b = elim b [ ]
which joining_md b = elim b [ ]
which joining_sender b = elim b [ ]
which returned b = elim b [ ]
which terminated b = inr (inr refl)
which undefined b = elim b [ ]

module _ {ℓ κ} {Q : Type ℓ} {C : Type κ} (queue : InboundMessageQueue Q) (close : C → C) where
  -- Both receivers have left their loops, and the demultiplexer waits at an empty queue.
  record Stuck (p : Threads Q C) : Type ℓ where
    md_left : left p.md_exit ≡ true
    oe_left : left p.oe_exit ≡ true
    waits : p.demultiplexer.position ≡ waiting
    nothing : queue.contents p.demultiplexer.message_queue ≡ []
    before : BeforeJoins p.stage

  step-Stuck :
      (now : Readings) (p : Threads Q C) → Stuck p → Stuck (demultiplexer_step queue close now p)
  unfolding demultiplexer_step
  step-Stuck now p s =
      let (w, c) =
        step-waiting queue handlers (record { arrivals = []; destroyed = false; now = now })
          p.demultiplexer s.waits s.nothing refl in
      record { md_left = s.md_left; oe_left = s.oe_left; waits = w; nothing = c; before = s.before }

  after_round-Before :
      (x : Sender.Exit) (st : Stage) → BeforeJoins st → BeforeJoins (after_round x st)
  after_round-Before Sender.Exit.running st b = b
  after_round-Before Sender.Exit.stopped st b = b
  after_round-Before (Sender.Exit.threw e) st b = tt

  sender_round-Stuck :
      (pushes : List Message) (accepts : Outcome (Unit {0})) (x : Sender.Exit) (p : Threads Q C)
      → Stuck p
      → Stuck (sender_round queue close pushes accepts x p)
  unfolding sender_round
  sender_round-Stuck pushes accepts Sender.Exit.running p s =
      let i : Sender.Round = record { told_to_stop = false; pushes = pushes; accepts = accepts } in
      record {
        md_left = s.md_left;
        oe_left = s.oe_left;
        waits = s.waits;
        nothing = s.nothing;
        before = after_round-Before (Sender.round p.sender i).0 p.stage s.before;
      }
  sender_round-Stuck pushes accepts Sender.Exit.stopped p s = s
  sender_round-Stuck pushes accepts (Sender.Exit.threw e) p s = s

  main_step-Stuck :
      (st : Stage) (p : Threads Q C) → BeforeJoins st → Stuck p → Stuck (main_step queue close st p)
  unfolding main_step
  main_step-Stuck in_wait p b s = elim (Bool-cases (wait_returns p.signal)) [
    | inl y ↦ rw y (record {
      md_left = s.md_left;
      oe_left = s.oe_left;
      waits = s.waits;
      nothing = s.nothing;
      before = tt;
    })
    | inr n ↦ rw n s
  ]
  main_step-Stuck joining_demultiplexer p b s =
      let runs : is_finished p.demultiplexer.position ≡ false = ap is_finished s.waits in rw runs s
  main_step-Stuck joining_oe p b s = elim b [ ]
  main_step-Stuck joining_md p b s = elim b [ ]
  main_step-Stuck joining_sender p b s = elim b [ ]
  main_step-Stuck returned p b s = elim b [ ]
  main_step-Stuck terminated p b s = s
  main_step-Stuck undefined p b s = elim b [ ]

  turn-Stuck :
      (t : Turn) (ts : List Turn) (p : Threads Q C)
      → NoLine (t ∷ ts)
      → Stuck p
      → Stuck (turn queue close t p) × NoLine ts
  unfolding turn md_round oe_round
  turn-Stuck (md_turn reads now) ts p n s = (rw s.md_left s, n)
  turn-Stuck (oe_turn reads now) ts p n s = (rw s.oe_left s, n)
  turn-Stuck (demultiplexer_turn now) ts p n s = (step-Stuck now p s, n)
  turn-Stuck (sender_turn pushes accepts) ts p n s =
      (sender_round-Stuck pushes accepts p.sender_exit p s, n)
  turn-Stuck (operator_turn i) ts p n s = elim n [ ]
  turn-Stuck main_turn ts p n s = (main_step-Stuck p.stage p s.before s, n)

  run-Stuck :
      (ts : List Turn) (p : Threads Q C) → NoLine ts → Stuck p → Stuck (run queue close ts p)
  unfolding run
  run-Stuck [] p n s = s
  run-Stuck (t ∷ ts) p n s =
      let (s', n') = turn-Stuck t ts p n s in run-Stuck ts (turn queue close t p) n' s'

  -- When both receivers have left their loops and the demultiplexer waits at an empty queue, main
  -- does not return: in whatever order main and the threads take their turns, as long as the operator
  -- gives no line, main stands in its wait or in the join of the demultiplexer's destructor, unless an
  -- exception in the sender's thread has ended the program.
  pub run-hangs :
      (ts : List Turn) (p : Threads Q C)
      → NoLine ts
      → p.stage ≡ in_wait
      → left p.md_exit ≡ true
      → left p.oe_exit ≡ true
      → p.demultiplexer.position ≡ waiting
      → queue.contents p.demultiplexer.message_queue ≡ []
      → let p' = run queue close ts p in
        (p'.stage ≡ in_wait) ⊎ (p'.stage ≡ joining_demultiplexer) ⊎ (p'.stage ≡ terminated)
  run-hangs ts p n at m o w c =
      let s = run-Stuck ts p n (record {
        md_left = m;
        oe_left = o;
        waits = w;
        nothing = c;
        before = subst BeforeJoins (sym at) tt;
      }) in
      which (run queue close ts p).stage s.before

  -- It returns when the demultiplexer stands at the head of its loop instead.
  pub run-returns :
      (p : Threads Q C) (now : Readings) (accepts : Outcome (Unit {0}))
      → p.stage ≡ in_wait
      → wait_returns p.signal ≡ true
      → left p.md_exit ≡ true
      → left p.oe_exit ≡ true
      → p.demultiplexer.position ≡ testing
      → p.sender_exit ≡ Sender.Exit.running
      → (run queue close
          (main_turn
            ∷ demultiplexer_turn now
            ∷ main_turn
            ∷ main_turn
            ∷ main_turn
            ∷ sender_turn [] accepts
            ∷ main_turn
            ∷ [])
          p).stage
        ≡ returned
  unfolding run turn main_step demultiplexer_step sender_round Demultiplexer.step Demultiplexer.act
      Sender.round
  run-returns p now accepts at go m o w x = simp (at, go, m, o, w, x)
