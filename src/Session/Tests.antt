-- ===== src/Session/Tests.antt =====
-- An operator who halts, opens and closes a session.
use slipstream_volume_aware.Prelude.{refl, List, [], ◌∷◌, ℕ}
use slipstream_volume_aware.Codec.Gcmd.{opened}
use slipstream_volume_aware.Engine
use slipstream_volume_aware.Engine.{ExecutionEngine}
use slipstream_volume_aware.Reconstructor
use slipstream_volume_aware.Receiver
use slipstream_volume_aware.Receiver.{NetworkMessageReceiver, signal_init}
use slipstream_volume_aware.Session.{Input, halt_line, open_line, init, run_session}
use slipstream_volume_aware.Session.Machine.{moved_by, Consistent, run_session-Consistent}

abbrev engine : ExecutionEngine
engine = Engine.init 100 1000 5000 50 0

abbrev receiver : NetworkMessageReceiver ℕ
receiver = Receiver.init 1 (Reconstructor.init []) 0 5000

abbrev shut : ℕ → ℕ
shut c = 0

abbrev lines : List Input
lines = halt_line ∷ halt_line ∷ open_line ∷ []

run_session-Consistent_example :
    Consistent shut
      (init engine receiver receiver signal_init)
      (moved_by opened lines)
      (run_session shut (init engine receiver receiver signal_init) lines)
run_session-Consistent_example =
    run_session-Consistent shut engine receiver receiver signal_init lines
      (unfold Engine.init in refl)
