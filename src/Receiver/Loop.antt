-- ===== src/Receiver/Loop.antt =====
-- `run` of the receiver: rounds of `tryReceive` until the thread is told to stop, the heartbeats
-- cease, or something throws.
use slipstream_volume_aware.Prelude.{
  ℕ, ◌≡◌, ◌↔◌, ◌⊎◌, inl, inr, List, [], ◌∷◌, Bool, true, false, ◌||◌, if◌then◌else◌, refl, sym,
  arith,
}
use slipstream_volume_aware.Prelude.Outcome.{Outcome, ok, err}
use slipstream_volume_aware.Codec.Gcmd.{MdMessage}
use mathlib.Core.Path.{subst}
use slipstream_volume_aware.Receiver.{
  ShutdownSignal, trigger, wait_returns, NetworkMessageReceiver, shutdown, heartbeat_stale,
  try_receive,
}

-- What one round of the loop meets: whether another thread has called for a stop before it, what the
-- socket gives, and the system clock in milliseconds at the end.
pub record Round : Type 0 where
  pub told_to_stop : Bool
  pub reads : Outcome (List ℕ)
  pub now : ℕ

-- Whether the thread has left `run`, and by which way.
pub data Exit : Type 0 where
  running stopped stale closed : Exit

abbrev pub left : Exit → Bool
left running = false
left stopped = true
left stale = true
left closed = true

Exit-cases : (e : Exit) → (e ≡ running) ⊎ (left e ≡ true)
Exit-cases running = inl refl
Exit-cases stopped = inr refl
Exit-cases stale = inr refl
Exit-cases closed = inr refl

-- The signal counts its latch down once.
abbrev pub IsSignal : ShutdownSignal → Type 0
IsSignal s = ((s.triggered ≡ false) × (s.latch ≡ 1)) ⊎ ((s.triggered ≡ true) × (s.latch ≡ 0))

pub trigger-IsSignal : (s : ShutdownSignal) → IsSignal s → IsSignal (trigger s)
unfolding trigger
trigger-IsSignal s v = ground (arith, v)

pub trigger-wait : (s : ShutdownSignal) → IsSignal s → wait_returns (trigger s) ≡ true
unfolding trigger wait_returns
trigger-wait s v = ground (arith, v)

module _ {ℓ κ} {Q : Type ℓ} {C : Type κ} (enqueue : Q → MdMessage → Q) (close : C → C) where
  -- The body of the loop, the catch clauses included: each of them returns.
  unfoldable pub round :
      NetworkMessageReceiver C → Q → Round → Exit × (NetworkMessageReceiver C × Q)
  round r q i =
      if r.should_stop || i.told_to_stop
      then (stopped, (r, q))
      else (let out = try_receive enqueue r q i.reads in
          elim out.0 [
            | err e ↦ (closed, out.1)
            | ok u ↦
                if heartbeat_stale out.1.0 i.now
                then (stale, (shutdown close out.1.0, out.1.1))
                else (running, out.1)
          ])

  -- `run` over the rounds given; `TriggerOnExit` acts whichever way it returns.
  unfoldable pub run :
      NetworkMessageReceiver C
      → Q
      → ShutdownSignal
      → List Round
      → Exit × (ShutdownSignal × (NetworkMessageReceiver C × Q))
  run r q s [] = (running, (s, (r, q)))
  run r q s (i ∷ is) =
      let out = round r q i in
      elim out.0 [
        | running ↦ run out.1.0 out.1.1 s is
        | stopped ↦ (stopped, (trigger s, out.1))
        | stale ↦ (stale, (trigger s, out.1))
        | closed ↦ (closed, (trigger s, out.1))
      ]

  run_on :
      (r : NetworkMessageReceiver C) (q : Q) (s : ShutdownSignal) (i : Round) (is : List Round)
      → (round r q i).0 ≡ running
      → run r q s (i ∷ is) ≡ run (round r q i).1.0 (round r q i).1.1 s is
  unfolding run
  run_on r q s i is e = cc e

  pub run-round :
      (r : NetworkMessageReceiver C) (q : Q) (s : ShutdownSignal) (i : Round) (is : List Round)
      {r' : NetworkMessageReceiver C} {q' : Q}
      → round r q i ≡ (running, (r', q'))
      → run r q s (i ∷ is) ≡ run r' q' s is
  unfolding run
  run-round r q s i is e = cc e

  -- A round that reads on.
  pub round-running :
      (r : NetworkMessageReceiver C) (q : Q) (i : Round) {r' : NetworkMessageReceiver C} {q' : Q}
      → r.should_stop ≡ false
      → i.told_to_stop ≡ false
      → try_receive enqueue r q i.reads ≡ (ok tt, (r', q'))
      → heartbeat_stale r' i.now ≡ false
      → round r q i ≡ (running, (r', q'))
  unfolding round
  round-running r q i a b e f = cc (a, b, e, f)

  run_left :
      (r : NetworkMessageReceiver C) (q : Q) (s : ShutdownSignal) (i : Round) (is : List Round)
      (e : Exit)
      → (round r q i).0 ≡ e
      → left e ≡ true
      → run r q s (i ∷ is) ≡ (e, (trigger s, (round r q i).1))
  unfolding run
  run_left r q s i is running p h = absurd (cc h)
  run_left r q s i is stopped p h = cc p
  run_left r q s i is stale p h = cc p
  run_left r q s i is closed p h = cc p

  abbrev Signals :
      ShutdownSignal → Exit × (ShutdownSignal × (NetworkMessageReceiver C × Q)) → Type 0
  Signals s out =
      IsSignal out.1.0
      × ((wait_returns out.1.0 ≡ true) ↔ ((wait_returns s ≡ true) ⊎ (left out.0 ≡ true)))

  -- For a signal whose latch counts 1 before it is triggered and 0 after: however the loop is left,
  -- told to stop, by an exception caught, or by stale heartbeats, the signal is triggered once, so
  -- that `wait` returns; and while the loop runs on, it is not touched.
  pub run-wait :
      (r : NetworkMessageReceiver C) (q : Q) (s : ShutdownSignal) (is : List Round)
      → IsSignal s
      → IsSignal (run r q s is).1.0
        × ((wait_returns (run r q s is).1.0 ≡ true)
            ↔ ((wait_returns s ≡ true) ⊎ (left (run r q s is).0 ≡ true)))
  unfolding run
  run-wait r q s [] v = (v, (λ h. inl h, λ h. elim h [ inl p ↦ p | inr p ↦ absurd (cc p) ]))
  run-wait r q s (i ∷ is) v = elim (Exit-cases (round r q i).0) [
    | inl e ↦
        subst (Signals s) (sym (run_on r q s i is e))
          (run-wait (round r q i).1.0 (round r q i).1.1 s is v)
    | inr e ↦
        subst (Signals s) (sym (run_left r q s i is (round r q i).0 refl e))
          (trigger-IsSignal s v, (λ h. inr e, λ h. trigger-wait s v))
  ]
