-- ===== src/Sender/Frames.antt =====
-- The bytes of one message of the sender.
use slipstream_volume_aware.Prelude.{ℕ, ◌≤◌, ◌≡◌, List, [], ◌∷◌, length, take, arith}
use slipstream_volume_aware.Prelude.Outcome.{ok}
use slipstream_volume_aware.Codec.Oe.{IsNewOrder, IsExecReport}
use slipstream_volume_aware.Codec.Oe.RoundTrip.{
  CarriesOrder, CarriesReport, new_order_round_trip, exec_report_round_trip,
}
use slipstream_volume_aware.Sender.{
  Message, order, report, send_new_order, send_exec_report, send_message,
}

-- A message that the C++ variant can hold, and bytes that carry it.
abbrev pub IsMessage : Message → Type 0
IsMessage (order o) = IsNewOrder o
IsMessage (report r) = IsExecReport r

abbrev pub Carries : Message → List ℕ → Type 0
Carries (order o) bs = CarriesOrder o bs
Carries (report r) bs = CarriesReport r bs

pub data AllCarry : List Message → List (List ℕ) → Type 0 where
  none_carried : AllCarry [] []
  carried :
      {ms : List Message} {fs : List (List ℕ)} (m : Message) (f : List ℕ)
      → Carries m f
      → AllCarry ms fs
      → AllCarry (m ∷ ms) (f ∷ fs)

-- A message goes out in bytes that carry it.
pub send_message-Carries :
    (buffer : List ℕ) (m : Message)
    → 54 ≤ length buffer
    → IsMessage m
    → (f b : List ℕ) × (send_message buffer m ≡ ok (f, b))
      × (length b ≡ length buffer)
      × Carries m f
unfolding send_message send_new_order send_exec_report
send_message-Carries buffer (order o) room v =
    let (b, e, l, c, d) = new_order_round_trip o v buffer room in (take 54 b, b, simp e, l, d)
send_message-Carries buffer (report r) room v =
    let (b, e, l, c, d) = exec_report_round_trip r v buffer (omega (arith, room)) in
    (take 34 b, b, simp e, l, d)
