-- ===== src/Reconstructor/Tests.antt =====
-- A frame that comes in two chunks.
use slipstream_volume_aware.Prelude.{
  ℕ, ◌≡◌, refl, List, [], ◌∷◌, replicate, length-replicate, arith, inl,
}
use slipstream_volume_aware.Prelude.Outcome.{ok}
use slipstream_volume_aware.Reconstructor.{MessageReconstructor, MessagesRecieved, init, recieve}
use slipstream_volume_aware.Reconstructor.Fill.{Represents}
use slipstream_volume_aware.Reconstructor.Refine.{Recieved, recieve_refines}

-- The buffer of a new reconstructor, shut so that its 2048 bytes are not written out.
blank : List ℕ
blank = replicate 2048 0

fresh : MessageReconstructor
unfolding init
fresh = init blank

fresh-Represents : Represents fresh []
unfolding fresh init blank
fresh-Represents = record {
  slots = length-replicate {A = ℕ} 2048 0;
  sized = refl;
  fits = omega arith;
  place = refl;
}

-- A heartbeat frame, and the beginning of another.
abbrev chunk : List ℕ
chunk = 2 ∷ 0 ∷ 3 ∷ 1 ∷ 5 ∷ 5 ∷ 2 ∷ 0 ∷ 3 ∷ []

recieve_refines_example :
    (out : MessagesRecieved × MessageReconstructor) × (recieve fresh chunk ≡ ok out)
    × Recieved [] chunk out
recieve_refines_example =
    recieve_refines fresh [] chunk fresh-Represents (omega arith) (inl (unfold fresh init in refl))
