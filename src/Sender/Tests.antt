-- ===== src/Sender/Tests.antt =====
-- An order that goes into a new queue, and rounds that send two.
use slipstream_volume_aware.Prelude.{◌≡◌, [], ◌∷◌, replicate, false, refl, List, arith}
use slipstream_volume_aware.Codec.Oe.{accepted, sell}
use slipstream_volume_aware.Concurrency.Spsc
use slipstream_volume_aware.Concurrency.Spsc.{SpscQueue, Represents}
use slipstream_volume_aware.Concurrency.Spsc.Refine.{init-Represents}
use slipstream_volume_aware.Prelude.Outcome.{ok}
use slipstream_volume_aware.Sender.{Message, order, OrderMessageSender, Round}
use slipstream_volume_aware.Sender.Frames.{IsMessage}
use slipstream_volume_aware.Sender.Served.{Serves, over, idle, serve, Ran, run-Serves}

abbrev message : Message
message = order record {
  client_order_id = 1;
  symbol = replicate 12 65;
  status = accepted;
  ts_ns = 2;
  trade_id = 3;
  side = sell;
  qty = 4;
  limit_px = 5;
}

abbrev queue : SpscQueue Message
queue = Spsc.init 1024 message

abbrev sender : OrderMessageSender
sender = record { message_queue = queue; buffer = replicate 54 0; handed = []; should_stop = false }

abbrev quiet_round : Round
quiet_round = record { told_to_stop = false; pushes = []; accepts = ok tt }

abbrev busy_round : Round
busy_round = record { told_to_stop = false; pushes = message ∷ message ∷ []; accepts = ok tt }

message-IsMessage : IsMessage message
message-IsMessage = record {
  id_in = omega arith;
  symbol_in = refl;
  symbol_bytes = omega arith;
  ts_in = omega arith;
  trade_in = omega arith;
  qty_in = omega arith;
  limit_in = omega arith;
}

-- A round with nothing to do, one in which two messages come, and one more.
rounds-Serves : Serves [] (quiet_round ∷ busy_round ∷ quiet_round ∷ []) (message ∷ message ∷ []) []
rounds-Serves =
    idle (record { not_told = refl; accepts = refl }) refl
      (serve message (record { not_told = refl; accepts = refl }) refl (omega arith)
        message-IsMessage
        (serve message (record { not_told = refl; accepts = refl }) refl (omega arith)
          message-IsMessage over))

run-Serves_example :
    (◌≡◌ {A = List Message} (message ∷ message ∷ []) (message ∷ message ∷ []))
    × Ran sender (quiet_round ∷ busy_round ∷ quiet_round ∷ []) (message ∷ message ∷ []) []
run-Serves_example =
    run-Serves sender [] (message ∷ message ∷ []) [] (quiet_round ∷ busy_round ∷ quiet_round ∷ [])
      refl (omega arith) (init-Represents 1024 (omega arith) message) rounds-Serves
