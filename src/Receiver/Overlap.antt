-- ===== src/Receiver/Overlap.antt =====
-- src/libs/networking/libslipstream_codec/MessageReconstructor.cpp: which chunk `recieve` takes after
-- another one, told by the stream alone.
use slipstream_volume_aware.Prelude.{
  ℕ, ◌+◌, ◌*◌, ◌^◌, ◌≤◌, ◌<◌, ◌≡◌, ◌⊎◌, inl, inr, refl, sym, ap, ◌∙◌, List, ◌++◌, length, ltb, true,
  false, arith,
}
use mathlib.Core.Path.{subst}
use native.Mathlib.Decide.{dec_le}
use slipstream_volume_aware.Prelude.Outcome.{ok, err, bad_alloc, fault}
use slipstream_volume_aware.Reconstructor.{MessageReconstructor, MessagesRecieved, recieve}
use slipstream_volume_aware.Reconstructor.Frames.{Splits}
use slipstream_volume_aware.Reconstructor.Fill.{Represents, Apart}
use slipstream_volume_aware.Reconstructor.Refine.{Recieved, recieve_refines, recieve_fails}
use slipstream_volume_aware.Receiver.Refine.{Splits-unique}
mod Tests

-- Where a call leaves what it keeps, when the bytes before it and the chunk divide into `fs` and `over`.
record Left (p mem over : List ℕ) (r : MessageReconstructor) : Type 0 where
  kept : Represents r over
  behind_frames : r.dirty_start + length over ≡ length p + length mem

Recieved-Left :
    (p mem over : List ℕ) (fs : List (List ℕ)) (out : MessagesRecieved × MessageReconstructor)
    → Splits (p ++ mem) fs over
    → Recieved p mem out
    → Left p mem over out.1
Recieved-Left p mem over fs out s d =
    let (same_frames, same) = Splits-unique refl d.splits s in
    subst (λ l. Left p mem l out.1) same (record { kept = d.kept; behind_frames = d.behind_frames })

-- The three ways in which a reconstructor meets the chunk `next`, when it has taken `mem` after the
-- bytes `p`, and `over` is what their frames leave: no room, an overlap, or the next frames.
abbrev pub TakesNext : (p mem over next : List ℕ) → MessageReconstructor → Type 0
TakesNext p mem over next r =
    ((2048 < length over + length next) × (recieve r next ≡ err bad_alloc))
    ⊎ (((length over + length next ≤ 2048)
          × ((length over < length p + length mem) × (length p + length mem < 2 * length over))
          × (recieve r next ≡ err fault))
        ⊎ ((length over + length next ≤ 2048)
            × ((length over ≡ length p + length mem) ⊎ (2 * length over ≤ length p + length mem))
            × (out : MessagesRecieved × MessageReconstructor) × (recieve r next ≡ ok out)
            × Recieved over next out))

Left-TakesNext :
    (p mem over next : List ℕ) (r : MessageReconstructor)
    → Left p mem over r
    → length next < 2 ^ 63
    → TakesNext p mem over next r
Left-TakesNext p mem over next r l small = elim (dec_le (length over + length next) 2048) [
  | no big ↦
      let over_full : 2048 < length over + length next = omega (arith, big) in
      let failed = recieve_fails r over next l.kept small (inl over_full) in
      let above : ltb 2048 (length over + length next) ≡ true = ground (arith, over_full) in
      inl (over_full, failed ∙ (rw above refl))
  | yes room ↦ elim (dec_le (length p + length mem) (length over)) [
    | yes whole ↦
        let same : length over ≡ length p + length mem = omega (arith, whole, l.behind_frames) in
        let (out, runs, d) =
          recieve_refines r over next l.kept room (inl (omega (arith, same, l.behind_frames))) in
        inr (inr (room, inl same, out, runs, d))
    | no some_done ↦ elim (dec_le (2 * length over) (length p + length mem)) [
      | yes half ↦
          let (out, runs, d) =
            recieve_refines r over next l.kept room
              (inr (omega (arith, half, l.kept.sized, l.behind_frames))) in
          inr (inr (room, inr half, out, runs, d))
      | no longer ↦
          let failed = recieve_fails r over next l.kept small (
            inr (
              room,
              omega (arith, some_done, l.behind_frames),
              omega (arith, longer, l.behind_frames),
            )) in
          let fits : ltb 2048 (length over + length next) ≡ false = ground (arith, room) in
          inr
            (inl (room, (omega (arith, some_done), omega (arith, longer)), failed ∙ (rw fits refl)))
    ]
  ]
]

-- A reconstructor that keeps `p`, at the front of its buffer or behind at least as many bytes, takes a
-- chunk `mem` that fits beside it: the call succeeds, and tells the number of frames in `p` and `mem`.
-- `over`, the rest behind these frames, alone decides what becomes of any next chunk of less than 2^63
-- bytes. When it does not fit beside `over` into 2048 bytes, the call throws `bad_alloc`. When it fits
-- and `over` is longer than the frames in front of it, of which there is one at least, `memcpy` is asked
-- to copy between ranges that overlap. And when it fits, and there was no frame or they are at least as
-- long as `over`, the call succeeds and divides `over` and the chunk into frames and a rest again.
pub recieve_again :
    (r : MessageReconstructor) (p mem over next : List ℕ) (fs : List (List ℕ))
    → Represents r p
    → Apart r
    → length p + length mem ≤ 2048
    → Splits (p ++ mem) fs over
    → length next < 2 ^ 63
    → (out : MessagesRecieved × MessageReconstructor) × (recieve r mem ≡ ok out)
      × (out.0.messages_count ≡ length fs)
      × TakesNext p mem over next out.1
recieve_again r p mem over next fs v apart room s small =
    let (out, runs, d) = recieve_refines r p mem v room apart in
    let (same, left) = Splits-unique refl d.splits s in
    (
      out,
      runs,
      d.counted ∙ ap length same,
      Left-TakesNext p mem over next out.1 (Recieved-Left p mem over fs out s d) small,
    )
