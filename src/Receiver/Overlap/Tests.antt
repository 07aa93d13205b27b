-- ===== src/Receiver/Overlap/Tests.antt =====
-- A heartbeat comes with 40 of the 48 bytes of a quote, and then the other 8.
use slipstream_volume_aware.Prelude.{
  ℕ, ◌≡◌, refl, List, [], ◌∷◌, ◌++◌, replicate, length-replicate, arith, inl, inr,
}
use slipstream_volume_aware.Prelude.Words.{of_bytes}
use slipstream_volume_aware.Prelude.Outcome.{ok, err, fault}
use slipstream_volume_aware.Reconstructor.{MessageReconstructor, MessagesRecieved, init, recieve}
use slipstream_volume_aware.Reconstructor.Frames.{IsFrame, Splits, rest, frame}
use slipstream_volume_aware.Reconstructor.Fill.{Represents}
use slipstream_volume_aware.Receiver.Overlap.{TakesNext, recieve_again}

blank : List ℕ
blank = replicate 2048 0

fresh : MessageReconstructor
unfolding init
fresh = init blank

fresh-Represents : Represents fresh []
unfolding fresh init blank
fresh-Represents = record {
  slots = length-replicate {A = ℕ} 2048 0;
  sized = refl;
  fits = omega arith;
  place = refl;
}

abbrev beat : List ℕ
beat = 8 ∷ 0 ∷ 3 ∷ 1 ∷ 97 ∷ 30 ∷ 0 ∷ 0 ∷ 0 ∷ 0 ∷ 0 ∷ 0 ∷ []

abbrev begun : List ℕ
begun = 44 ∷ 0 ∷ 1 ∷ 1 ∷ replicate 36 9

abbrev ending : List ℕ
ending = replicate 8 9

beat-IsFrame : IsFrame beat
unfolding of_bytes
beat-IsFrame = record { header = omega arith; whole = refl }

begun-Splits : Splits (beat ++ begun) (beat ∷ []) begun
unfolding of_bytes
begun-Splits = frame beat beat-IsFrame refl (rest (λ h. omega (arith, h.1)))

recieve_again_example :
    (out : MessagesRecieved × MessageReconstructor) × (recieve fresh (beat ++ begun) ≡ ok out)
    × (out.0.messages_count ≡ 1)
    × TakesNext [] (beat ++ begun) begun ending out.1
recieve_again_example =
    recieve_again fresh [] (beat ++ begun) begun ending (beat ∷ []) fresh-Represents
      (inl (unfold fresh init in refl)) (omega arith) begun-Splits (omega arith)

-- 40 bytes are kept behind 12: the second call copies between ranges that overlap.
copies_overlapping :
    (out : MessagesRecieved × MessageReconstructor) × (recieve fresh (beat ++ begun) ≡ ok out)
    × (recieve out.1 ending ≡ err fault)
copies_overlapping =
    let (out, runs, n, next) =
      recieve_again fresh [] (beat ++ begun) begun ending (beat ∷ []) fresh-Represents
        (inl (unfold fresh init in refl)) (omega arith) begun-Splits (omega arith) in
    elim next [
      | inl (big, e) ↦ absurd (omega (arith, big))
      | inr (inl (room, overlaps, e)) ↦ (out, runs, e)
      | inr (inr (room, inl all, again, goes, d)) ↦ absurd (omega (arith, all))
      | inr (inr (room, inr half, again, goes, d)) ↦ absurd (omega (arith, half))
    ]
