-- ===== src/Sender/Waiting.antt =====
-- A call of `send` waits for a free slot, and the queue keeps its order meanwhile.
use slipstream_volume_aware.Prelude.{
  ℕ, zero, suc, ◌+◌, ◌<◌, ◌≡◌, refl, ap, ◌∙◌, List, [], ◌∷◌, ◌++◌, length, drop, true, false, some,
  arith, Option, length-drop, drop-drop, lt→ltb, not_lt→ltb,
}
use slipstream_volume_aware.Concurrency.Fifo
use slipstream_volume_aware.Concurrency.Spsc
use slipstream_volume_aware.Concurrency.Spsc.{SpscQueue, Represents}
use slipstream_volume_aware.Concurrency.Spsc.Refine.{push_refines, pop_refines}
use slipstream_volume_aware.Sender.{Message, popped, send}
use mathlib.Core.Path.{subst}
use native.Mathlib.Decide.{dec_lt}

popped-Represents :
    (k : ℕ) (q : SpscQueue Message) (ms : List Message)
    → Represents 1024 q ms
    → Represents 1024 (popped k q) (drop k ms)
unfolding popped Fifo.pop
popped-Represents zero q ms r = r
popped-Represents (suc k) q [] r =
    subst (Represents 1024 (popped (suc k) q)) (nothing_left k)
      (popped-Represents k (Spsc.pop 1024 q).1 [] ((pop_refines 1024 (omega arith) [] r).1))
  where
    nothing_left : (k : ℕ) → drop {A = Message} k [] ≡ drop (suc k) []
    nothing_left zero = refl
    nothing_left (suc k) = refl
popped-Represents (suc k) q (m ∷ ms) r =
    popped-Represents k (Spsc.pop 1024 q).1 ms ((pop_refines 1024 (omega arith) (m ∷ ms) r).1)

-- What a call that returns leaves in the queue.
Sent : List Message → Message → Option (SpscQueue Message) → Type 0
Sent ms m o =
    (q : SpscQueue Message) × (n : ℕ) × (o ≡ some q) × Represents 1024 q (drop n ms ++ (m ∷ []))

module _ (q : SpscQueue Message) (ms : List Message) (m : Message) (r : Represents 1024 q ms)
    (k : ℕ) where
  pushed :
      ((Spsc.push 1024 (popped k q) m).0 ≡ (Fifo.push 1024 (drop k ms) m).0)
      × Represents 1024 (Spsc.push 1024 (popped k q) m).1 (Fifo.push 1024 (drop k ms) m).1
  pushed = push_refines 1024 (omega arith) (popped-Represents k q ms r) m

  fifo_room :
      length (drop k ms) < 1024 → Fifo.push 1024 (drop k ms) m ≡ (true, drop k ms ++ (m ∷ []))
  unfolding Fifo.push
  fifo_room h = rw (lt→ltb (length (drop k ms)) 1024 h) refl

  fifo_full : ¬ (length (drop k ms) < 1024) → Fifo.push 1024 (drop k ms) m ≡ (false, drop k ms)
  unfolding Fifo.push
  fifo_full h = rw (not_lt→ltb (length (drop k ms)) 1024 h) refl

  send_room : (ks : List ℕ) → length (drop k ms) < 1024 → Sent ms m (send q m (k ∷ ks))
  unfolding send Sent
  send_room ks h =
      let e = pushed.0 ∙ ap (λ o. o.0) (fifo_room h) in
      (
        (Spsc.push 1024 (popped k q) m).1,
        k,
        cc e,
        subst (Represents 1024 (Spsc.push 1024 (popped k q) m).1) (ap (λ o. o.1) (fifo_room h))
            pushed.1,
      )

  send_full :
      (ks : List ℕ)
      → ¬ (length (drop k ms) < 1024)
      → (send q m (k ∷ ks) ≡ send (Spsc.push 1024 (popped k q) m).1 m ks)
        × Represents 1024 (Spsc.push 1024 (popped k q) m).1 (drop k ms)
  unfolding send
  send_full ks h =
      let e = pushed.0 ∙ ap (λ o. o.0) (fifo_full h) in
      (
        cc e,
        subst (Represents 1024 (Spsc.push 1024 (popped k q) m).1) (ap (λ o. o.1) (fifo_full h))
            pushed.1,
      )

-- Once the sending thread pops a message between two attempts, `send` returns, whatever the queue
-- held and however long it waited before; the queue then ends with the new message, behind those
-- of the old ones that have not been popped, in their order.
pub send-returns :
    (q : SpscQueue Message) (ms : List Message) (m : Message) (ks js : List ℕ) (k : ℕ)
    → Represents 1024 q ms
    → (q' : SpscQueue Message) × (n : ℕ) × (send q m (ks ++ (suc k ∷ js)) ≡ some q')
      × Represents 1024 q' (drop n ms ++ (m ∷ []))
unfolding Sent
send-returns q ms m [] js k r =
    send_room q ms m r (suc k) js (omega (arith, length-drop (suc k) ms, r.fits))
send-returns q ms m (i ∷ ks) js k r = elim (dec_lt (length (drop i ms)) 1024) [
  | yes h ↦ send_room q ms m r i (ks ++ (suc k ∷ js)) h
  | no h ↦
      let (e, r') = send_full q ms m r i (ks ++ (suc k ∷ js)) h in
      let (q', n, e', s) =
        send-returns (Spsc.push 1024 (popped i q) m).1 (drop i ms) m ks js k r' in
      (q', i + n, e ∙ e', subst (λ l. Represents 1024 q' (l ++ (m ∷ []))) (drop-drop n i ms) s)
]
