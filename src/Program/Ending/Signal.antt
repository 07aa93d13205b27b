-- ===== src/Program/Ending/Signal.antt =====
-- What releases main from its wait.
use slipstream_volume_aware.Prelude.{
  ℕ, ◌≡◌, ◌⊎◌, inl, inr, refl, sym, ap, List, [], ◌∷◌, true, false, Bool-cases, arith,
}
use mathlib.Core.Path.{subst}
use slipstream_volume_aware.Prelude.Outcome.{Outcome}
use slipstream_volume_aware.Receiver.{signal_init, wait_returns}
use slipstream_volume_aware.Receiver.Loop
use slipstream_volume_aware.Receiver.Loop.{left, IsSignal, trigger-IsSignal}
use slipstream_volume_aware.Demultiplexer.{InboundMessageQueue}
use slipstream_volume_aware.Sender
use slipstream_volume_aware.Sender.{Message}
use slipstream_volume_aware.Session.{SessionControlHandler, Input}
use slipstream_volume_aware.Program.Ending.{
  Stage, in_wait, joining_demultiplexer, joining_oe, joining_md, joining_sender, returned,
  terminated, undefined, Threads, Turn, md_turn, oe_turn, demultiplexer_turn, sender_turn,
  operator_turn, main_turn, md_round, oe_round, demultiplexer_step, sender_round, operator_line,
  main_step, turn, run,
}
use slipstream_volume_aware.Program.Ending.Triggers.{
  signalled-IsSignal, signalled-triggered, wait-triggered, input-Heard,
}

module _ {ℓ κ} {Q : Type ℓ} {C : Type κ} (queue : InboundMessageQueue Q) (close_ : C → C) where
  -- Whatever has ended has triggered the signal.
  record Told (p : Threads Q C) : Type 0 where
    is_signal : IsSignal p.signal
    by_md : left p.md_exit ≡ true → p.signal.triggered ≡ true
    by_oe : left p.oe_exit ≡ true → p.signal.triggered ≡ true
    by_session : p.session_stop ≡ true → p.signal.triggered ≡ true

  md_round-Told :
      (reads : Outcome (List ℕ)) (now : ℕ) (p : Threads Q C)
      → Told p
      → Told (md_round queue close_ reads now p)
  unfolding md_round
  md_round-Told reads now p t = elim (Bool-cases (left p.md_exit)) [
    | inl y ↦ rw y t
    | inr n ↦ rw n (record {
      is_signal = signalled-IsSignal _ p.signal t.is_signal;
      by_md = λ e. signalled-triggered _ p.signal (inl e);
      by_oe = λ e. signalled-triggered _ p.signal (inr (t.by_oe e));
      by_session = λ e. signalled-triggered _ p.signal (inr (t.by_session e));
    })
  ]

  oe_round-Told :
      (reads : Outcome (List ℕ)) (now : ℕ) (p : Threads Q C)
      → Told p
      → Told (oe_round queue close_ reads now p)
  unfolding oe_round
  oe_round-Told reads now p t = elim (Bool-cases (left p.oe_exit)) [
    | inl y ↦ rw y t
    | inr n ↦ rw n (record {
      is_signal = signalled-IsSignal _ p.signal t.is_signal;
      by_md = λ e. signalled-triggered _ p.signal (inr (t.by_md e));
      by_oe = λ e. signalled-triggered _ p.signal (inl e);
      by_session = λ e. signalled-triggered _ p.signal (inr (t.by_session e));
    })
  ]

  sender_round-Told :
      (pushes : List Message) (accepts : Outcome (Unit {0})) (x : Sender.Exit) (p : Threads Q C)
      → Told p
      → Told (sender_round queue close_ pushes accepts x p)
  unfolding sender_round
  sender_round-Told pushes accepts Sender.Exit.running p t = record {
    is_signal = t.is_signal;
    by_md = t.by_md;
    by_oe = t.by_oe;
    by_session = t.by_session;
  }
  sender_round-Told pushes accepts Sender.Exit.stopped p t = t
  sender_round-Told pushes accepts (Sender.Exit.threw e) p t = t

  -- A state with the same signal, receivers' threads and session.
  at_other_stage :
      (p p' : Threads Q C)
      → p'.signal ≡ p.signal
      → p'.md_exit ≡ p.md_exit
      → p'.oe_exit ≡ p.oe_exit
      → p'.session_stop ≡ p.session_stop
      → Told p
      → Told p'
  at_other_stage p p' e m o s t = record {
    is_signal = subst IsSignal (sym e) t.is_signal;
    by_md = λ h. cc (e, t.by_md (cc (m, h)));
    by_oe = λ h. cc (e, t.by_oe (cc (o, h)));
    by_session = λ h. cc (e, t.by_session (cc (s, h)));
  }

  main_step-same :
      (st : Stage) (p : Threads Q C)
      → let p' = main_step queue close_ st p in
        (p'.signal ≡ p.signal)
        × (p'.md_exit ≡ p.md_exit)
        × (p'.oe_exit ≡ p.oe_exit)
        × (p'.session_stop ≡ p.session_stop)
  unfolding main_step
  main_step-same in_wait p = ground arith
  main_step-same joining_demultiplexer p = ground arith
  main_step-same joining_oe p = ground arith
  main_step-same joining_md p = ground arith
  main_step-same joining_sender p = ground arith
  main_step-same returned p = (refl, refl, refl, refl)
  main_step-same terminated p = (refl, refl, refl, refl)
  main_step-same undefined p = (refl, refl, refl, refl)

  operator_line-Told :
      (i : Input) (st : Stage) (p : Threads Q C) → Told p → Told (operator_line queue close_ i st p)
  unfolding operator_line
  operator_line-Told i in_wait p t = elim (Bool-cases p.session_stop) [
    | inl y ↦ simp y t
    | inr n ↦
        let h : SessionControlHandler C = record {
          current_state = p.session_state;
          engine = p.demultiplexer.services.engine;
          oe_receiver = p.oe_receiver;
          md_receiver = p.md_receiver;
          signal = p.signal;
          should_stop = false;
        } in
        let (v, stops, stays) = input-Heard close_ h refl t.is_signal i in
        simp n (record {
          is_signal = v;
          by_md = λ e. stays (t.by_md e);
          by_oe = λ e. stays (t.by_oe e);
          by_session = stops;
        })
  ]
  operator_line-Told i joining_demultiplexer p t = at_other_stage p _ refl refl refl refl t
  operator_line-Told i joining_oe p t = at_other_stage p _ refl refl refl refl t
  operator_line-Told i joining_md p t = at_other_stage p _ refl refl refl refl t
  operator_line-Told i joining_sender p t = at_other_stage p _ refl refl refl refl t
  operator_line-Told i returned p t = t
  operator_line-Told i terminated p t = t
  operator_line-Told i undefined p t = t

  turn-Told : (u : Turn) (p : Threads Q C) → Told p → Told (turn queue close_ u p)
  unfolding turn demultiplexer_step
  turn-Told (md_turn reads now) p t = md_round-Told reads now p t
  turn-Told (oe_turn reads now) p t = oe_round-Told reads now p t
  turn-Told (demultiplexer_turn now) p t = at_other_stage p _ refl refl refl refl t
  turn-Told (sender_turn pushes accepts) p t = sender_round-Told pushes accepts p.sender_exit p t
  turn-Told (operator_turn i) p t = operator_line-Told i p.stage p t
  turn-Told main_turn p t =
      let (a, b, c, d) = main_step-same p.stage p in
      at_other_stage p (main_step queue close_ p.stage p) a b c d t

  keep_Told : (us : List Turn) (p : Threads Q C) → Told p → Told (run queue close_ us p)
  unfolding run
  keep_Told [] p t = t
  keep_Told (u ∷ us) p t = keep_Told us (turn queue close_ u p) (turn-Told u p t)

  -- From a new signal on, with both receivers in their loops and the session open, in whatever order
  -- main and the threads take their turns: as soon as a receiver has left its loop, or the operator
  -- has closed the session, the wait of main returns.
  pub run-releases :
      (us : List Turn) (p : Threads Q C)
      → p.signal ≡ signal_init
      → p.md_exit ≡ Loop.Exit.running
      → p.oe_exit ≡ Loop.Exit.running
      → p.session_stop ≡ false
      → let p' = run queue close_ us p in
        (left p'.md_exit ≡ true) ⊎ (left p'.oe_exit ≡ true) ⊎ (p'.session_stop ≡ true)
        → wait_returns p'.signal ≡ true
  unfolding signal_init
  run-releases us p new m o s h =
      let t = keep_Told us p (record {
        is_signal = inl (ap (λ x. x.triggered) new, ap (λ x. x.latch) new);
        by_md = λ e. absurd (cc (e, m));
        by_oe = λ e. absurd (cc (e, o));
        by_session = λ e. absurd (cc (e, s));
      }) in
      let done : (run queue close_ us p).signal.triggered ≡ true = elim h [
        | inl e ↦ t.by_md e
        | inr k ↦ elim k [ inl e ↦ t.by_oe e | inr e ↦ t.by_session e ]
      ] in
      wait-triggered (run queue close_ us p).signal t.is_signal done
