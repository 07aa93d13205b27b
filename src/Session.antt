-- ===== src/Session.antt =====
-- src/slipstream/SessionControlHandler.h and .cpp: the operator's commands. The two receivers and
-- the shutdown signal are shared with their threads; the handler's calls on them come one at a time.
use slipstream_volume_aware.Prelude.{List, [], ◌∷◌, Bool, true, false, if◌then◌else◌}
use slipstream_volume_aware.Codec.Gcmd.{SessionControlState, opened, halt, close}
use slipstream_volume_aware.Engine.{ExecutionEngine, halt_trading, resume_trading}
use slipstream_volume_aware.Receiver.{ShutdownSignal, trigger, NetworkMessageReceiver, shutdown}
pub mod Machine
mod Tests

-- `C` is the type of the connections. `should_stop` is of the handler's own thread.
pub record SessionControlHandler {κ} (C : Type κ) : Type κ where
  pub current_state : SessionControlState
  pub engine : ExecutionEngine
  pub oe_receiver : NetworkMessageReceiver C
  pub md_receiver : NetworkMessageReceiver C
  pub signal : ShutdownSignal
  pub should_stop : Bool

-- A line of standard input.
pub data Input : Type 0 where
  halt_line open_line close_line other_line : Input

-- `currentState != OPEN`, and the two tests like it.
abbrev pub is_open : SessionControlState → Bool
is_open opened = true
is_open halt = false
is_open close = false

abbrev pub is_halt : SessionControlState → Bool
is_halt opened = false
is_halt halt = true
is_halt close = false

abbrev pub is_close : SessionControlState → Bool
is_close opened = false
is_close halt = false
is_close close = true

module _ {κ} {C : Type κ} where
  unfoldable pub init :
      ExecutionEngine
      → (oe md : NetworkMessageReceiver C) → ShutdownSignal
      → SessionControlHandler C
  init e oe md s = record {
    current_state = opened;
    engine = e;
    oe_receiver = oe;
    md_receiver = md;
    signal = s;
    should_stop = false;
  }

  unfoldable pub handle_halt : SessionControlHandler C → SessionControlHandler C
  handle_halt h =
      if is_open h.current_state
      then record h { engine = halt_trading h.engine; current_state = halt }
      else h

  unfoldable pub handle_open : SessionControlHandler C → SessionControlHandler C
  handle_open h =
      if is_halt h.current_state
      then record h { engine = resume_trading h.engine; current_state = opened }
      else h

  unfoldable pub handle_close : (C → C) → SessionControlHandler C → SessionControlHandler C
  handle_close close_connection h = if is_close h.current_state then h else record h {
    current_state = close;
    should_stop = true;
    oe_receiver = shutdown close_connection h.oe_receiver;
    md_receiver = shutdown close_connection h.md_receiver;
    signal = trigger h.signal;
  }

  -- The body of the loop in `runSession`.
  unfoldable pub handle_input : (C → C) → SessionControlHandler C → Input → SessionControlHandler C
  handle_input close_connection h halt_line = handle_halt h
  handle_input close_connection h open_line = handle_open h
  handle_input close_connection h close_line = handle_close close_connection h
  handle_input close_connection h other_line = h

  -- `runSession` over the lines that come in.
  unfoldable pub run_session :
      (C → C) → SessionControlHandler C → List Input → SessionControlHandler C
  run_session close_connection h [] = h
  run_session close_connection h (i ∷ is) =
      let rest = run_session close_connection (handle_input close_connection h i) is in
      if h.should_stop then h else rest
