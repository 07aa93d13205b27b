-- ===== src/Program/Ending/Joined.antt =====
-- main goes past a join only when the thread has ended.
use slipstream_volume_aware.Prelude.{
  ℕ, ◌≡◌, inl, inr, refl, sym, ap, List, [], ◌∷◌, true, false, Bool-cases,
}
use mathlib.Core.Path.{subst}
use slipstream_volume_aware.Prelude.Outcome.{Outcome}
use slipstream_volume_aware.Engine.{Readings}
use slipstream_volume_aware.Dispatch.Counts.{handlers}
use slipstream_volume_aware.Receiver.{wait_returns}
use slipstream_volume_aware.Receiver.Loop
use slipstream_volume_aware.Receiver.Loop.{left}
use slipstream_volume_aware.Demultiplexer
use slipstream_volume_aware.Demultiplexer.{
  InboundMessageQueue, Position, testing, waiting, popping, finished, threw, act,
}
use slipstream_volume_aware.Sender
use slipstream_volume_aware.Sender.{Message}
use slipstream_volume_aware.Session.{Input}
use slipstream_volume_aware.Program.Ending.{
  Stage, in_wait, joining_demultiplexer, joining_oe, joining_md, joining_sender, returned,
  terminated, undefined, Threads, Turn, md_turn, oe_turn, demultiplexer_turn, sender_turn,
  operator_turn, main_turn, is_finished, is_stopped, after_round, md_round, oe_round,
  demultiplexer_step, sender_round, operator_line, main_step, turn, run,
}

-- The threads that main has joined, by where it stands. The order is that of the destructors.
abbrev pub Ended : Stage → Position → Loop.Exit → Loop.Exit → Sender.Exit → Type 0
Ended in_wait d oe md s = Unit
Ended joining_demultiplexer d oe md s = Unit
Ended joining_oe d oe md s = is_finished d ≡ true
Ended joining_md d oe md s = (is_finished d ≡ true) × (left oe ≡ true)
Ended joining_sender d oe md s = (is_finished d ≡ true) × (left oe ≡ true) × (left md ≡ true)
Ended returned d oe md s =
    (is_finished d ≡ true) × (left oe ≡ true) × (left md ≡ true) × (is_stopped s ≡ true)
Ended terminated d oe md s = Unit
Ended undefined d oe md s = Unit

module _ {ℓ κ} {Q : Type ℓ} {C : Type κ} (queue : InboundMessageQueue Q) (close : C → C) where
  abbrev pub Joined : Threads Q C → Type 0
  Joined p = Ended p.stage p.demultiplexer.position p.oe_exit p.md_exit p.sender_exit

  Ended-mono :
      (st : Stage) (d d' : Position) (oe oe' md md' : Loop.Exit) (s s' : Sender.Exit)
      → (is_finished d ≡ true → is_finished d' ≡ true)
      → (left oe ≡ true → left oe' ≡ true)
      → (left md ≡ true → left md' ≡ true)
      → (is_stopped s ≡ true → is_stopped s' ≡ true)
      → Ended st d oe md s
      → Ended st d' oe' md' s'
  Ended-mono in_wait d d' oe oe' md md' s s' f g h k e = tt
  Ended-mono joining_demultiplexer d d' oe oe' md md' s s' f g h k e = tt
  Ended-mono joining_oe d d' oe oe' md md' s s' f g h k e = f e
  Ended-mono joining_md d d' oe oe' md md' s s' f g h k e = (f e.0, g e.1)
  Ended-mono joining_sender d d' oe oe' md md' s s' f g h k e = (f e.0, g e.1, h e.2)
  Ended-mono returned d d' oe oe' md md' s s' f g h k e = (f e.0, g e.1, h e.2, k e.3)
  Ended-mono terminated d d' oe oe' md md' s s' f g h k e = tt
  Ended-mono undefined d d' oe oe' md md' s s' f g h k e = tt

  md_round-Joined :
      (reads : Outcome (List ℕ)) (now : ℕ) (p : Threads Q C)
      → Joined p
      → Joined (md_round queue close reads now p)
  unfolding md_round
  md_round-Joined reads now p j = elim (Bool-cases (left p.md_exit)) [
    | inl y ↦ rw y j
    | inr n ↦
        rw n (
          Ended-mono p.stage _ _ _ _ _ _ _ _ (λ e. e) (λ e. e) (λ e. absurd (cc (e, n))) (λ e. e) j)
  ]

  oe_round-Joined :
      (reads : Outcome (List ℕ)) (now : ℕ) (p : Threads Q C)
      → Joined p
      → Joined (oe_round queue close reads now p)
  unfolding oe_round
  oe_round-Joined reads now p j = elim (Bool-cases (left p.oe_exit)) [
    | inl y ↦ rw y j
    | inr n ↦
        rw n (
          Ended-mono p.stage _ _ _ _ _ _ _ _ (λ e. e) (λ e. absurd (cc (e, n))) (λ e. e) (λ e. e) j)
  ]

  act-finished :
      (now : Readings) (d : Demultiplexer.MessageDeMultiplexer Q) (x : Position)
      → d.position ≡ x
      → is_finished x ≡ true
      → is_finished (act queue handlers now x d).position ≡ true
  unfolding act
  act-finished now d finished e f = ap is_finished e
  act-finished now d testing e f = absurd (cc f)
  act-finished now d waiting e f = absurd (cc f)
  act-finished now d popping e f = absurd (cc f)
  act-finished now d (threw x) e f = absurd (cc f)

  step-Joined :
      (now : Readings) (p : Threads Q C) → Joined p → Joined (demultiplexer_step queue close now p)
  unfolding demultiplexer_step Demultiplexer.step
  step-Joined now p j =
      Ended-mono p.stage _ _ _ _ _ _ _ _ (act-finished now _ p.demultiplexer.position refl) (λ e. e)
        (λ e. e) (λ e. e) j

  sent-Joined :
      (p : Threads Q C) (o : Sender.Exit × Sender.OrderMessageSender)
      → p.sender_exit ≡ Sender.Exit.running
      → Joined p
      → Joined (record p { sender = o.1; sender_exit = o.0; stage = after_round o.0 p.stage })
  sent-Joined p (Sender.Exit.running, s) e j =
      Ended-mono p.stage _ _ _ _ _ _ _ _ (λ f. f) (λ f. f) (λ f. f)
        (λ f. absurd (cc (f, ap is_stopped e))) j
  sent-Joined p (Sender.Exit.stopped, s) e j =
      Ended-mono p.stage _ _ _ _ _ _ _ _ (λ f. f) (λ f. f) (λ f. f) (λ f. refl) j
  sent-Joined p (Sender.Exit.threw x, s) e j = tt

  sender_round-Joined :
      (pushes : List Message) (accepts : Outcome (Unit {0})) (x : Sender.Exit) (p : Threads Q C)
      → p.sender_exit ≡ x
      → Joined p
      → Joined (sender_round queue close pushes accepts x p)
  unfolding sender_round
  sender_round-Joined pushes accepts Sender.Exit.running p e j =
      let i : Sender.Round = record { told_to_stop = false; pushes = pushes; accepts = accepts } in
      sent-Joined p (Sender.round p.sender i) e j
  sender_round-Joined pushes accepts Sender.Exit.stopped p e j = j
  sender_round-Joined pushes accepts (Sender.Exit.threw x) p e j = j

  waiting-Joined : (p : Threads Q C) → p.stage ≡ in_wait → Joined p
  waiting-Joined p e =
      subst (λ st. Ended st p.demultiplexer.position p.oe_exit p.md_exit p.sender_exit) (sym e) tt

  operator_line-Joined :
      (i : Input) (st : Stage) (p : Threads Q C)
      → p.stage ≡ st
      → Joined p
      → Joined (operator_line queue close i st p)
  unfolding operator_line
  operator_line-Joined i in_wait p e j = elim (Bool-cases p.session_stop) [
    | inl y ↦ rw y j
    | inr n ↦ rw n j
  ]
  operator_line-Joined i joining_demultiplexer p e j = tt
  operator_line-Joined i joining_oe p e j = tt
  operator_line-Joined i joining_md p e j = tt
  operator_line-Joined i joining_sender p e j = tt
  operator_line-Joined i returned p e j = j
  operator_line-Joined i terminated p e j = j
  operator_line-Joined i undefined p e j = j

  -- What `Joined` says at the stage where main stands.
  at_stage :
      (p : Threads Q C) (st : Stage)
      → p.stage ≡ st
      → Joined p
      → Ended st p.demultiplexer.position p.oe_exit p.md_exit p.sender_exit
  at_stage p st e j =
      subst (λ st. Ended st p.demultiplexer.position p.oe_exit p.md_exit p.sender_exit) e j

  main_step-Joined :
      (st : Stage) (p : Threads Q C) → p.stage ≡ st → Joined p → Joined (main_step queue close st p)
  unfolding main_step
  main_step-Joined in_wait p e j = elim (Bool-cases (wait_returns p.signal)) [
    | inl y ↦ rw y tt
    | inr n ↦ rw n j
  ]
  main_step-Joined joining_demultiplexer p e j =
      elim (Bool-cases (is_finished p.demultiplexer.position)) [ inl y ↦ rw y y | inr n ↦ rw n j ]
  main_step-Joined joining_oe p e j =
      let k = at_stage p joining_oe e j in
      elim (Bool-cases (left p.oe_exit)) [ inl y ↦ rw y (k, y) | inr n ↦ rw n j ]
  main_step-Joined joining_md p e j =
      let k = at_stage p joining_md e j in
      elim (Bool-cases (left p.md_exit)) [ inl y ↦ rw y (k.0, k.1, y) | inr n ↦ rw n j ]
  main_step-Joined joining_sender p e j =
      let k = at_stage p joining_sender e j in
      elim (Bool-cases (is_stopped p.sender_exit)) [
        | inl y ↦ rw y (k.0, k.1, k.2, y)
        | inr n ↦ rw n j
      ]
  main_step-Joined returned p e j = j
  main_step-Joined terminated p e j = j
  main_step-Joined undefined p e j = j

  turn-Joined : (t : Turn) (p : Threads Q C) → Joined p → Joined (turn queue close t p)
  unfolding turn
  turn-Joined (md_turn reads now) p j = md_round-Joined reads now p j
  turn-Joined (oe_turn reads now) p j = oe_round-Joined reads now p j
  turn-Joined (demultiplexer_turn now) p j = step-Joined now p j
  turn-Joined (sender_turn pushes accepts) p j =
      sender_round-Joined pushes accepts p.sender_exit p refl j
  turn-Joined (operator_turn i) p j = operator_line-Joined i p.stage p refl j
  turn-Joined main_turn p j = main_step-Joined p.stage p refl j

  keep_Joined : (ts : List Turn) (p : Threads Q C) → Joined p → Joined (run queue close ts p)
  unfolding run
  keep_Joined [] p j = j
  keep_Joined (t ∷ ts) p j = keep_Joined ts (turn queue close t p) (turn-Joined t p j)

  -- In whatever order main and its threads take their turns from the wait for the signal on: main
  -- stands behind a join only when that thread has left its `run`. When main returns, both receivers,
  -- the demultiplexer and the sender have.
  pub run-Joined :
      (ts : List Turn) (p : Threads Q C) → p.stage ≡ in_wait → Joined (run queue close ts p)
  run-Joined ts p e = keep_Joined ts p (waiting-Joined p e)
