-- ===== src/Session/Machine.antt =====
-- What the handler's parts have to do with its state, and that the session closes for good.
use slipstream_volume_aware.Prelude.{
  ◌≡◌, refl, ap, ◌∙◌, List, [], ◌∷◌, ◌++◌, Bool, true, false, if◌then◌else◌, Bool-cases, inl, inr,
}
use slipstream_volume_aware.Codec.Gcmd.{SessionControlState, opened, halt, close}
use slipstream_volume_aware.Engine.{ExecutionEngine, halt_trading, resume_trading}
use slipstream_volume_aware.Receiver.{ShutdownSignal, trigger, NetworkMessageReceiver, shutdown}
use slipstream_volume_aware.Session.{
  SessionControlHandler, Input, halt_line, open_line, close_line, other_line, is_close, init,
  handle_halt, handle_open, handle_close, handle_input, run_session,
}

-- The states as the operator's lines move them. A line that has no rule does nothing.
unfoldable pub moved : SessionControlState → Input → SessionControlState
moved opened halt_line = halt
moved halt open_line = opened
moved opened close_line = close
moved halt close_line = close
moved s i = s

unfoldable pub moved_by : SessionControlState → List Input → SessionControlState
unfolding moved
moved_by s [] = s
moved_by s (i ∷ is) = moved_by (moved s i) is

-- The engine is halted in HALT and not in OPEN; closing leaves it as it is.
abbrev pub Halted : SessionControlState → Bool → Type 0
Halted opened b = b ≡ false
Halted halt b = b ≡ true
Halted close b = Unit

module _ {κ} {C : Type κ} (close_connection : C → C) where
  -- `h` is in state `s`, having begun with the parts of `h0`.
  pub record Consistent (h0 : SessionControlHandler C) (s : SessionControlState)
      (h : SessionControlHandler C) : Type κ where
    pub state : h.current_state ≡ s
    pub halted : Halted s h.engine.is_halted
    pub engine_else : resume_trading h.engine ≡ resume_trading h0.engine
    pub stops : h.should_stop ≡ is_close s
    pub oe :
        h.oe_receiver
        ≡ (if is_close s then shutdown close_connection h0.oe_receiver else h0.oe_receiver)
    pub md :
        h.md_receiver
        ≡ (if is_close s then shutdown close_connection h0.md_receiver else h0.md_receiver)
    pub signalled : h.signal ≡ (if is_close s then trigger h0.signal else h0.signal)

  handle_input-Consistent :
      (h0 h : SessionControlHandler C) (s : SessionControlState) (i : Input)
      → Consistent h0 s h
      → Consistent h0 (moved s i) (handle_input close_connection h i)
  unfolding moved handle_input handle_halt handle_open handle_close halt_trading resume_trading
  handle_input-Consistent h0 h opened halt_line c = simp (c.state) record {
    state = refl;
    halted = refl;
    engine_else = c.engine_else;
    stops = c.stops;
    oe = c.oe;
    md = c.md;
    signalled = c.signalled;
  }
  handle_input-Consistent h0 h opened open_line c = simp (c.state) c
  handle_input-Consistent h0 h opened close_line c = simp (c.state) record {
    state = refl;
    halted = tt;
    engine_else = c.engine_else;
    stops = refl;
    oe = ap (shutdown close_connection) c.oe;
    md = ap (shutdown close_connection) c.md;
    signalled = ap trigger c.signalled;
  }
  handle_input-Consistent h0 h opened other_line c = c
  handle_input-Consistent h0 h halt halt_line c = simp (c.state) c
  handle_input-Consistent h0 h halt open_line c = simp (c.state) record {
    state = refl;
    halted = refl;
    engine_else = c.engine_else;
    stops = c.stops;
    oe = c.oe;
    md = c.md;
    signalled = c.signalled;
  }
  handle_input-Consistent h0 h halt close_line c = simp (c.state) record {
    state = refl;
    halted = tt;
    engine_else = c.engine_else;
    stops = refl;
    oe = ap (shutdown close_connection) c.oe;
    md = ap (shutdown close_connection) c.md;
    signalled = ap trigger c.signalled;
  }
  handle_input-Consistent h0 h halt other_line c = c
  handle_input-Consistent h0 h close halt_line c = simp (c.state) c
  handle_input-Consistent h0 h close open_line c = simp (c.state) c
  handle_input-Consistent h0 h close close_line c = simp (c.state) c
  handle_input-Consistent h0 h close other_line c = c

  moved-closed : (is : List Input) → moved_by close is ≡ close
  unfolding moved_by moved
  moved-closed [] = refl
  moved-closed (halt_line ∷ is) = moved-closed is
  moved-closed (open_line ∷ is) = moved-closed is
  moved-closed (close_line ∷ is) = moved-closed is
  moved-closed (other_line ∷ is) = moved-closed is

  run_session-from :
      (h0 h : SessionControlHandler C) (s : SessionControlState) (is : List Input)
      → Consistent h0 s h
      → Consistent h0 (moved_by s is) (run_session close_connection h is)
  unfolding moved_by run_session
  run_session-from h0 h s [] c = c
  run_session-from h0 h opened (i ∷ is) c = simp (c.stops) (
      run_session-from h0 (handle_input close_connection h i) (moved opened i) is
        (handle_input-Consistent h0 h opened i c))
  run_session-from h0 h halt (i ∷ is) c = simp (c.stops) (
      run_session-from h0 (handle_input close_connection h i) (moved halt i) is
        (handle_input-Consistent h0 h halt i c))
  run_session-from h0 h close (i ∷ is) c = simp (c.stops, moved-closed (i ∷ is)) c

  -- Whatever lines the operator gives, a session over an engine that is not halted is in the state
  -- that `moved_by` says: the engine is halted in HALT and not in OPEN and is otherwise as it was,
  -- and exactly in CLOSE the loop has stopped, both receivers are shut down, and the signal is
  -- triggered, each once.
  pub run_session-Consistent :
      (e : ExecutionEngine) (oe md : NetworkMessageReceiver C) (s : ShutdownSignal)
      (is : List Input)
      → e.is_halted ≡ false
      → Consistent
          (init e oe md s)
          (moved_by opened is)
          (run_session close_connection (init e oe md s) is)
  unfolding init
  run_session-Consistent e oe md s is h =
      run_session-from (init e oe md s) (init e oe md s) opened is record {
        state = refl;
        halted = h;
        engine_else = refl;
        stops = refl;
        oe = refl;
        md = refl;
        signalled = refl;
      }

  run_session-stopped :
      (h : SessionControlHandler C) (is : List Input)
      → h.should_stop ≡ true
      → run_session close_connection h is ≡ h
  unfolding run_session
  run_session-stopped h [] e = refl
  run_session-stopped h (i ∷ is) e = cc e

  run_session-append :
      (h : SessionControlHandler C) (is js : List Input)
      → run_session close_connection h (is ++ js)
        ≡ run_session close_connection (run_session close_connection h is) js
  unfolding run_session
  run_session-append h [] js = refl
  run_session-append h (i ∷ is) js = elim (Bool-cases h.should_stop) [
    | inl t ↦ cc (t, run_session-stopped h js t)
    | inr f ↦ cc (f, run_session-append (handle_input close_connection h i) is js)
  ]

  close_closes : (s : SessionControlState) → moved s close_line ≡ close
  unfolding moved
  close_closes opened = refl
  close_closes halt = refl
  close_closes close = refl

  moved-append :
      (s : SessionControlState) (is js : List Input)
      → moved_by s (is ++ js) ≡ moved_by (moved_by s is) js
  unfolding moved_by
  moved-append s [] js = refl
  moved-append s (i ∷ is) js = moved-append (moved s i) is js

  moved-close :
      (s : SessionControlState) (is : List Input) → moved_by s (is ++ (close_line ∷ [])) ≡ close
  unfolding moved_by
  moved-close s is = moved-append s is (close_line ∷ []) ∙ close_closes (moved_by s is)

  -- After a CLOSE line the session is in the state CLOSE, whatever came before it, and what comes
  -- behind it changes nothing: neither the state nor the engine nor the receivers nor the signal.
  pub run_session-close :
      (e : ExecutionEngine) (oe md : NetworkMessageReceiver C) (s : ShutdownSignal)
      (is js : List Input)
      → e.is_halted ≡ false
      → ((run_session close_connection (init e oe md s) (is ++ (close_line ∷ []))).current_state
          ≡ close)
        × (run_session close_connection (init e oe md s) ((is ++ (close_line ∷ [])) ++ js)
            ≡ run_session close_connection (init e oe md s) (is ++ (close_line ∷ [])))
  run_session-close e oe md s is js h =
      let h0 = init e oe md s in
      let cs = is ++ (close_line ∷ []) in
      let c = run_session-Consistent e oe md s cs h in
      let m = moved-close opened is in
      (
        c.state ∙ m,
        run_session-append h0 cs js
            ∙ run_session-stopped (run_session close_connection h0 cs) js (c.stops ∙ ap is_close m),
      )
