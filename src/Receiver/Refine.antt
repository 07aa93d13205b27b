-- ===== src/Receiver/Refine.antt =====
-- `tryReceive` from the bytes that come in to the messages on the queue.
use slipstream_volume_aware.Prelude.{
  ℕ, ◌+◌, ◌-◌, ◌^◌, ◌≤◌, ◌<◌, ◌≡◌, ◌⊎◌, refl, sym, ap, ap₂, ◌∙◌, List, [], ◌∷◌, ◌++◌, length, take,
  drop, arith, length-append, take-append-drop, take-append_le, take-length_append,
  drop-length_append, true, false, ◌==◌, ◌↔◌, ltb→lt, lt→ltb,
}
use slipstream_volume_aware.Prelude.Words.{sub64, of_bytes}
use slipstream_volume_aware.Prelude.Outcome.{ok}
use slipstream_volume_aware.Codec.Frame.{word}
use slipstream_volume_aware.Codec.Gcmd.{MdMessage}
use slipstream_volume_aware.Reconstructor.{MessageReconstructor, MessagesRecieved, recieve}
use slipstream_volume_aware.Reconstructor.Frames.{IsFrame, Splits, rest, frame, Complete}
use slipstream_volume_aware.Reconstructor.Fill.{Represents, Apart}
use slipstream_volume_aware.Reconstructor.Refine.{Recieved, recieve_refines}
use slipstream_volume_aware.Receiver.{
  NetworkMessageReceiver, behind, deliver, receive_chunk, try_receive, heartbeat_stale,
}
use slipstream_volume_aware.Receiver.Stream.{Carries, none_left, noted, enqueued, deliver_lem}
use mathlib.Core.Path.{subst}

-- The frame at the front of some bytes is fixed by them.
module _ (f tail : List ℕ) (v : IsFrame f) where
  front_word : word 2 (f ++ tail) ≡ word 2 f
  front_word = ap of_bytes (take-append_le 2 f tail (omega (arith, v.header)))

  front_length : 4 + word 2 (f ++ tail) ≡ length f
  front_length = omega (arith, v.whole, front_word)

  front-Complete : Complete (f ++ tail)
  front-Complete =
      let l = length-append f tail in (omega (arith, v.header, l), omega (arith, front_length, l))

  front_frame : take (4 + word 2 (f ++ tail)) (f ++ tail) ≡ f
  front_frame = take-length_append (4 + word 2 (f ++ tail)) f tail (sym front_length)

  front_tail : drop (4 + word 2 (f ++ tail)) (f ++ tail) ≡ tail
  front_tail = drop-length_append (4 + word 2 (f ++ tail)) f tail (sym front_length)

same_front :
    (f f' tail tail' : List ℕ)
    → IsFrame f
    → IsFrame f'
    → f ++ tail ≡ f' ++ tail'
    → (f ≡ f') × (tail ≡ tail')
same_front f f' tail tail' v v' e = (
  sym (front_frame f tail v) ∙ ap (λ b. take (4 + word 2 b) b) e ∙ front_frame f' tail' v',
  sym (front_tail f tail v) ∙ ap (λ b. drop (4 + word 2 b) b) e ∙ front_tail f' tail' v',
)

-- Bytes divide into frames in one way.
pub Splits-unique :
    {bs bs' r r' : List ℕ} {fs gs : List (List ℕ)}
    → bs ≡ bs'
    → Splits bs fs r
    → Splits bs' gs r'
    → (fs ≡ gs) × (r ≡ r')
Splits-unique p (rest h) (rest h') = (refl, p)
Splits-unique p (rest h) (frame {tail = tail} f v e s) =
    absurd (h (subst Complete (sym (p ∙ e)) (front-Complete f tail v)))
Splits-unique p (frame {tail = tail} f v e s) (rest h) =
    absurd (h (subst Complete (sym e ∙ p) (front-Complete f tail v)))
Splits-unique p (frame {tail = tail} f v e s) (frame {tail = tail'} f' v' e' s') =
    let same = same_front f f' tail tail' v v' (sym e ∙ p ∙ e') in
    let more = Splits-unique same.1 s s' in (ap₂ (λ a b. a ∷ b) same.0 more.0, more.1)

module _ {ℓ κ} {Q : Type ℓ} {C : Type κ} (enqueue : Q → MdMessage → Q)
    (r : NetworkMessageReceiver C) (q : Q) where
  -- A loop over the messages that `recieve` announces.
  deliver-Recieved :
      {p mem left : List ℕ} {fs : List (List ℕ)} {ms : List MdMessage}
      (out : MessagesRecieved × MessageReconstructor)
      → Recieved p mem out
      → Splits (p ++ mem) fs left
      → Carries fs ms
      → deliver enqueue out.0.messages_count (behind out.1.buffer out.0.start) r.last_heartbeat q
        ≡ (ok tt, (noted r.last_heartbeat ms, enqueued enqueue q ms))
  unfolding deliver
  deliver-Recieved {fs = []} out d s none_left =
      let u = Splits-unique refl d.splits s in
      ap (λ n. deliver enqueue n (behind out.1.buffer out.0.start) r.last_heartbeat q)
        (d.counted ∙ ap length u.0)
  deliver-Recieved {p = p} {mem = mem} {fs = f ∷ fs} out d s c =
      let u = Splits-unique refl d.splits s in
      let n = length (p ++ mem) in
      let at = d.some_start (omega (arith, ap length u.0)) in
      let buffer =
        sym (take-append-drop n out.1.buffer) ∙ ap (λ b. b ++ drop n out.1.buffer) d.at_start in
      ap₂ (λ k b. deliver enqueue k b r.last_heartbeat q) (d.counted ∙ ap length u.0)
        (ap (behind out.1.buffer) at ∙ buffer)
      ∙ deliver_lem enqueue (drop n out.1.buffer) r.last_heartbeat q s c

  receive_chunk-ok :
      (mem : List ℕ) (out : MessagesRecieved × MessageReconstructor) {last : ℕ} {q' : Q}
      → recieve r.reconstructor mem ≡ ok out
      → deliver enqueue out.0.messages_count (behind out.1.buffer out.0.start) r.last_heartbeat q
        ≡ (ok tt, (last, q'))
      → receive_chunk enqueue r q mem
        ≡ (ok tt, (record r { reconstructor = out.1; last_heartbeat = last }, q'))
  unfolding receive_chunk
  receive_chunk-ok mem out e d = cc (e, d)

  -- A chunk that fits beside what the reconstructor keeps, when that can move to the front without
  -- an overlap, and when each frame that it completes is read as a message from its own bytes:
  -- `tryReceive` does not throw, queues exactly these messages in their order, notes the
  -- heartbeats among them, and leaves the rest of the stream with the reconstructor, behind the bytes
  -- of the frames.
  pub try_receive_delivers :
      (p mem left : List ℕ) (fs : List (List ℕ)) (ms : List MdMessage)
      → Represents r.reconstructor p
      → Apart r.reconstructor
      → 0 < length mem
      → length p + length mem ≤ 2048
      → Splits (p ++ mem) fs left
      → Carries fs ms
      → (m : MessageReconstructor) × (try_receive enqueue r q (ok mem) ≡ (
        ok tt,
        (
          record r { reconstructor = m; last_heartbeat = noted r.last_heartbeat ms },
          enqueued enqueue q ms,
        ),
      ))
        × Represents m left
        × (m.dirty_start + length left ≡ length p + length mem)
  unfolding try_receive
  try_receive_delivers p mem left fs ms v apart some_bytes room s c =
      let (out, e, d) = recieve_refines r.reconstructor p mem v room apart in
      let u = Splits-unique refl d.splits s in
      let more : (length mem == 0) ≡ false = ground arith in
      (
        out.1,
        rw more (receive_chunk-ok mem out e (deliver-Recieved out d s c)),
        subst (Represents out.1) u.1 d.kept,
        omega (arith, d.behind_frames, ap length u.1),
      )

-- The silence is measured by a difference that wraps. While the last heartbeat is not ahead of the
-- clock, the receiver gives up exactly when the time since then is above the limit; when it is
-- ahead, by however little, the difference is taken for an age of `2 ^ 64` less the lead, which is
-- above any limit that leaves room for the lead.
pub heartbeat_stale_iff {κ} :
    {C : Type κ} (r : NetworkMessageReceiver C) (now : ℕ)
    → now < 2 ^ 64
    → r.last_heartbeat < 2 ^ 64
    → r.heartbeat_timeout_ms + (r.last_heartbeat - now) < 2 ^ 64
    → (heartbeat_stale r now ≡ true)
      ↔ ((r.heartbeat_timeout_ms < now - r.last_heartbeat) ⊎ (now < r.last_heartbeat))
unfolding heartbeat_stale
heartbeat_stale_iff r now hn hl ht = (
  λ h. omega (arith, ltb→lt r.heartbeat_timeout_ms (sub64 now r.last_heartbeat) h),
  λ h. lt→ltb r.heartbeat_timeout_ms (sub64 now r.last_heartbeat) (omega (arith, h)),
)
