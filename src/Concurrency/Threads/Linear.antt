-- ===== src/Concurrency/Threads/Linear.antt =====
-- The interleaved threads of an `SPSCQueue` against the FIFO, and the slots that they touch.
use slipstream_volume_aware.Prelude.{
  ℕ, ◌+◌, ◌^◌, ◌<◌, ◌≡◌, ◌≢◌, refl, sym, ap, ◌∙◌, List, [], ◌∷◌, length, get_elem?, some, arith,
}
use slipstream_volume_aware.Prelude.Circular.{mod-cases}
use slipstream_volume_aware.Concurrency.Fifo
use slipstream_volume_aware.Concurrency.Fifo.{Op, Reply}
use slipstream_volume_aware.Concurrency.Spsc.{SpscQueue, Represents}
use slipstream_volume_aware.Concurrency.Spsc.Refine.{init-Represents}
use slipstream_volume_aware.Concurrency.Threads.{
  Producer, Consumer, Label, System, Step, call, produce, consume, Run, here, quiet, settle, start,
}
use slipstream_volume_aware.Concurrency.Threads.Invariant.{
  Inv, AtProducer, AtConsumer, Answers, Emplace-Inv, Take-Inv,
}
use mathlib.Core.Path.{subst}

module _ {ℓ} {A : Type ℓ} where
  -- The head's slot is free and the tail's is filled, while the queue is neither full nor empty.
  apart :
      (capacity : ℕ) (q : SpscQueue A) (xs : List A) (v : A) (h k : ℕ)
      → Represents capacity q xs
      → AtProducer capacity q xs (Producer.free_slot v h)
      → AtConsumer q.tail xs (Consumer.filled_slot k)
      → (h ≢ k)
        × (h < length q.buffer)
        × (k < length q.buffer)
        × (w : A) × (get_elem? q.buffer k ≡ some w)
  apart capacity q [] v h k r (eh, room, u) (ek, some_held, u') = absurd (omega arith)
  apart capacity q (x ∷ xs) v h k r (eh, room, u) (ek, some_held, u') =
      let m =
        mod-cases (q.tail + length (x ∷ xs)) (capacity + 1) (omega (arith, r.tail_in, room)) in
      (
        λ e. omega (arith, e, eh, ek, r.head_at, r.tail_in, m, room),
        omega (arith, eh, r.slots, r.head_at),
        omega (arith, ek, r.slots, r.tail_in),
        x,
        ap (get_elem? q.buffer) ek ∙ r.holds.0,
      )

module _ (capacity : ℕ) (small : capacity + 1 < 2 ^ 64) where
  module _ {ℓ} {A : Type ℓ} where
    abbrev pub SystemInv : System A → List A → Type ℓ
    SystemInv s xs = Inv capacity s.queue xs s.producer s.consumer

    pub Step-Inv :
        {s t : System A} {l : Label A} {xs : List A}
        → Step capacity s l t
        → SystemInv s xs
        → (ys : List A) × SystemInv t ys × Answers capacity xs l ys
    Step-Inv {xs = xs} (call v e) i =
        (xs, record { holds = i.holds; producer = tt; consumer = i.consumer }, refl)
    Step-Inv {s = s} (produce m) i = Emplace-Inv capacity small s.consumer m i
    Step-Inv {s = s} (consume m) i = Take-Inv capacity small s.producer m i

    -- The replies are the FIFO's, and some FIFO is in the queue at the end.
    pub Run-Inv :
        {s t : System A} {os : List (Op A)} {rs : List (Reply A)} {xs : List A}
        → Run capacity s os rs t
        → SystemInv s xs
        → (rs ≡ Fifo.run capacity xs os) × (ys : List A) × SystemInv t ys
    unfolding Fifo.run
    Run-Inv {xs = xs} (here) i = (refl, xs, i)
    Run-Inv (quiet {os = os} st r) i =
        let (ys, j, e) = Step-Inv st i in
        let (f, zs, k) = Run-Inv r j in (f ∙ ap (λ l. Fifo.run capacity l os) e, zs, k)
    Run-Inv (settle {os = os} {r = x} st r) i =
        let (ys, j, e) = Step-Inv st i in
        let (f, zs, k) = Run-Inv r j in (ap (λ l. x ∷ l) f ∙ sym (e os), zs, k)

    pub start-Inv : (default : A) → SystemInv (start capacity default) []
    unfolding start
    start-Inv default = record {
      holds = init-Represents capacity small default;
      producer = tt;
      consumer = tt;
    }

    -- Whatever the order of the loads and stores of the two threads, each call of `push`, `pop` and
    -- `empty` returns what the FIFO that holds at most `capacity` values returns, when the calls are
    -- put in the order of the steps that settle them: the store of the head or the load that finds no
    -- free slot, the store of the tail or the load that finds nothing. The queue starts new, and a
    -- `size_t` can number its slots.
    pub Run-linear :
        (default : A) {t : System A} (os : List (Op A)) (rs : List (Reply A))
        → Run capacity (start capacity default) os rs t
        → rs ≡ Fifo.run capacity [] os
    Run-linear default os rs r = (Run-Inv r (start-Inv default)).0

    -- While the producer is about to write a slot and the consumer about to read one, these are two
    -- different slots, both in the array, and the consumer's holds a value.
    pub Run-no_race :
        (default : A) (t : System A) (os : List (Op A)) (rs : List (Reply A)) (v : A) (h k : ℕ)
        → Run capacity (start capacity default) os rs t
        → t.producer ≡ Producer.free_slot v h
        → t.consumer ≡ Consumer.filled_slot k
        → (h ≢ k)
          × (h < length t.queue.buffer)
          × (k < length t.queue.buffer)
          × (w : A) × (get_elem? t.queue.buffer k ≡ some w)
    Run-no_race default t os rs v h k r ep ec =
        let (f, xs, i) = Run-Inv r (start-Inv default) in
        apart capacity t.queue xs v h k i.holds
          (subst (AtProducer capacity t.queue xs) ep i.producer)
          (subst (AtConsumer t.queue.tail xs) ec i.consumer)
