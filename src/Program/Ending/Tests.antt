-- ===== src/Program/Ending/Tests.antt =====
-- A program whose receivers have left their loops, and main's way on from there.
use slipstream_volume_aware.Prelude.{ℕ, ◌≡◌, ◌⊎◌, inl, refl, List, [], ◌∷◌, replicate, true, false}
use slipstream_volume_aware.Prelude.Outcome.{ok, err, out_of_range}
use slipstream_volume_aware.Codec.Gcmd.{MdMessage, opened}
use slipstream_volume_aware.Codec.Oe.{accepted, sell}
use slipstream_volume_aware.Concurrency.Spsc
use slipstream_volume_aware.Engine
use slipstream_volume_aware.Engine.{Readings}
use slipstream_volume_aware.Receiver
use slipstream_volume_aware.Receiver.{NetworkMessageReceiver, signal_init}
use slipstream_volume_aware.Receiver.Loop
use slipstream_volume_aware.Receiver.Loop.{left}
use slipstream_volume_aware.Session
use slipstream_volume_aware.Session.{halt_line}
use slipstream_volume_aware.Demultiplexer.{Position, waiting, testing}
use slipstream_volume_aware.Demultiplexer.ListQueue.{list_queue}
use slipstream_volume_aware.Sender
use slipstream_volume_aware.Sender.{Message, order}
use slipstream_volume_aware.Program.Ending.{
  in_wait, joining_demultiplexer, terminated, Threads, Turn, md_turn, demultiplexer_turn,
  sender_turn, operator_turn, main_turn, md_round, operator_line, turn, run,
}
use slipstream_volume_aware.Program.Ending.Joined.{Joined, run-Joined}
use slipstream_volume_aware.Program.Ending.Signal.{run-releases}
use slipstream_volume_aware.Program.Ending.Hanging.{run-hangs}

abbrev shut : ℕ → ℕ
shut c = 0

abbrev receiver : NetworkMessageReceiver ℕ
receiver = record {
  connection = 1;
  reconstructor = record { buffer = []; size = 0; dirty_start = 0 };
  should_stop = false;
  last_heartbeat = 0;
  heartbeat_timeout_ms = 5000;
}

abbrev message : Message
message = order record {
  client_order_id = 1;
  symbol = replicate 12 65;
  status = accepted;
  ts_ns = 2;
  trade_id = 3;
  side = sell;
  qty = 4;
  limit_px = 5;
}

abbrev readings : Readings
readings = record { steady_ms = 9000; steady_ns = 9_000_000; system_ms = 9500 }

-- Both connections have been closed by the peers.
abbrev threads : Position → Threads (List MdMessage) ℕ
threads position = record {
  signal = record { latch = 0; triggered = true };
  md_receiver = receiver;
  md_exit = Loop.Exit.closed;
  oe_receiver = receiver;
  oe_exit = Loop.Exit.closed;
  demultiplexer = record {
    message_queue = [];
    services = record {
      book = record {
        symbol = replicate 12 65;
        latest_quote = record {
          symbol = replicate 12 0;
          timestamp_ns = 0;
          bid_quantity = 0;
          bid_price = 0;
          ask_quantity = 0;
          ask_price = 0;
        };
        quotes_received = 0;
      };
      engine = Engine.init 100 1000 5000 50 0;
      vwap = record {
        total_priced_quantity = 0;
        total_quantity = 0;
        rolling_window_size_ms = 5000;
        trades = [];
        head = 0;
        tail = 0;
      };
      sent = [];
    };
    should_stop = false;
    position = position;
  };
  sender = record {
    message_queue = Spsc.init 1024 message;
    buffer = replicate 54 0;
    handed = [];
    should_stop = false;
  };
  sender_exit = Sender.Exit.running;
  session_state = opened;
  session_stop = false;
  stage = in_wait;
}

abbrev turns : List Turn
turns =
    main_turn
    ∷ md_turn (err out_of_range) 9500
    ∷ demultiplexer_turn readings
    ∷ main_turn
    ∷ main_turn
    ∷ main_turn
    ∷ sender_turn [] (ok tt)
    ∷ main_turn
    ∷ []

run-Joined_example : Joined list_queue shut (run list_queue shut turns (threads testing))
run-Joined_example = run-Joined list_queue shut turns (threads testing) refl

run-hangs_example :
    let p' = run list_queue shut turns (threads waiting) in
    (p'.stage ≡ in_wait) ⊎ (p'.stage ≡ joining_demultiplexer) ⊎ (p'.stage ≡ terminated)
run-hangs_example = run-hangs list_queue shut turns (threads waiting) tt refl refl refl refl refl

-- Both threads read on, and then the peer closes one connection.
abbrev reading : Threads (List MdMessage) ℕ
reading = record (threads testing) {
  signal = record { latch = 1; triggered = false };
  md_exit = Loop.Exit.running;
  oe_exit = Loop.Exit.running;
}

abbrev closing : List Turn
closing = operator_turn halt_line ∷ md_turn (err out_of_range) 9500 ∷ []

reading-closed : left (run list_queue shut closing reading).md_exit ≡ true
unfolding run turn md_round operator_line Loop.round Session.handle_input Session.handle_halt
    Receiver.try_receive
reading-closed = refl

reading-new : reading.signal ≡ signal_init
unfolding signal_init
reading-new = refl

run-releases_example : Receiver.wait_returns (run list_queue shut closing reading).signal ≡ true
run-releases_example =
    run-releases list_queue shut closing reading reading-new refl refl refl (inl reading-closed)
