-- ===== src/Program/Ending/Triggers.antt =====
-- What a thread that ends and a line of the operator do to the signal.
use slipstream_volume_aware.Prelude.{◌≡◌, ◌⊎◌, inl, inr, true, false, Bool-cases, arith}
use slipstream_volume_aware.Receiver.{ShutdownSignal, trigger, wait_returns}
use slipstream_volume_aware.Receiver.Loop
use slipstream_volume_aware.Receiver.Loop.{left, IsSignal, trigger-IsSignal}
use slipstream_volume_aware.Session.{
  SessionControlHandler, Input, halt_line, open_line, close_line, other_line, handle_halt,
  handle_open, handle_close, handle_input, is_open, is_halt, is_close,
}
use slipstream_volume_aware.Program.Ending.{signalled}

trigger-triggered : (s : ShutdownSignal) → (trigger s).triggered ≡ true
unfolding trigger
trigger-triggered s = ground arith

pub signalled-IsSignal :
    (e : Loop.Exit) (s : ShutdownSignal) → IsSignal s → IsSignal (signalled e s)
signalled-IsSignal Loop.Exit.running s v = v
signalled-IsSignal Loop.Exit.stopped s v = trigger-IsSignal s v
signalled-IsSignal Loop.Exit.stale s v = trigger-IsSignal s v
signalled-IsSignal Loop.Exit.closed s v = trigger-IsSignal s v

pub signalled-triggered :
    (e : Loop.Exit) (s : ShutdownSignal)
    → (left e ≡ true) ⊎ (s.triggered ≡ true)
    → (signalled e s).triggered ≡ true
signalled-triggered Loop.Exit.running s (inl h) = absurd (cc h)
signalled-triggered Loop.Exit.running s (inr h) = h
signalled-triggered Loop.Exit.stopped s h = trigger-triggered s
signalled-triggered Loop.Exit.stale s h = trigger-triggered s
signalled-triggered Loop.Exit.closed s h = trigger-triggered s

pub wait-triggered : (s : ShutdownSignal) → IsSignal s → s.triggered ≡ true → wait_returns s ≡ true
unfolding wait_returns
wait-triggered s v h = ground (arith, v, h)

-- A line of the operator: the signal stays a signal, and a session that is closed has triggered it.
module _ {κ} {C : Type κ} (close_connection : C → C) where
  abbrev pub Heard : SessionControlHandler C → SessionControlHandler C → Type 0
  Heard h h' =
      IsSignal h'.signal
      × (h'.should_stop ≡ true → h'.signal.triggered ≡ true)
      × (h.signal.triggered ≡ true → h'.signal.triggered ≡ true)

  module _ (h : SessionControlHandler C) (go : h.should_stop ≡ false) (v : IsSignal h.signal) where
    same-Heard : Heard h h
    same-Heard = (v, (λ e. absurd (cc (go, e))), λ e. e)

    halt-Heard : Heard h (handle_halt h)
    unfolding handle_halt
    halt-Heard = elim (Bool-cases (is_open h.current_state)) [
      | inl y ↦ rw y same-Heard
      | inr n ↦ rw n same-Heard
    ]

    open-Heard : Heard h (handle_open h)
    unfolding handle_open
    open-Heard = elim (Bool-cases (is_halt h.current_state)) [
      | inl y ↦ rw y same-Heard
      | inr n ↦ rw n same-Heard
    ]

    close-Heard : Heard h (handle_close close_connection h)
    unfolding handle_close
    close-Heard = elim (Bool-cases (is_close h.current_state)) [
      | inl y ↦ rw y same-Heard
      | inr n ↦ rw n (
        trigger-IsSignal h.signal v,
        (λ e. trigger-triggered h.signal),
        λ e. trigger-triggered h.signal,
      )
    ]

    pub input-Heard : (i : Input) → Heard h (handle_input close_connection h i)
    unfolding handle_input
    input-Heard halt_line = halt-Heard
    input-Heard open_line = open-Heard
    input-Heard close_line = close-Heard
    input-Heard other_line = same-Heard
