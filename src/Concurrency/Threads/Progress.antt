-- ===== src/Concurrency/Threads/Progress.antt =====
-- No call on an `SPSCQueue` waits for the other thread.
use slipstream_volume_aware.Prelude.{
  ℕ, ◌+◌, ◌^◌, ◌≤◌, ◌<◌, ◌≡◌, ◌≢◌, ◌⊎◌, inl, inr, refl, ap, ◌∙◌, List, [], ◌∷◌, get_elem?, arith,
}
use slipstream_volume_aware.Concurrency.Fifo.{Op, Reply}
use slipstream_volume_aware.Concurrency.Spsc.{SpscQueue, next, Represents}
use slipstream_volume_aware.Concurrency.Threads.{
  Producer, Consumer, Label, System, Emplace, load_head, full, not_full, write, store_head, Take,
  nothing, something, move, store_tail, load_tail, ask, answer, call, produce, consume, Run, start,
}
use slipstream_volume_aware.Concurrency.Threads.Invariant.{AtConsumer}
use slipstream_volume_aware.Concurrency.Threads.Linear.{SystemInv, Step-Inv, Run-Inv, start-Inv}
use native.Mathlib.Decide.{ℕ_discrete}

module _ {ℓ} {A : Type ℓ} where
  -- Steps of both threads in which the producer begins no call; how many of them are the producer's own.
  pub data PushSteps (capacity : ℕ) (s : System A) : ℕ → System A → Type ℓ where
    at_push : PushSteps capacity s 0 s
    own_push :
        {n : ℕ} {t : System A} {l : Label A} {q : SpscQueue A} {p : Producer A}
        → PushSteps capacity s n t
        → Emplace capacity t.queue t.producer l q p
        → PushSteps capacity s (n + 1) (record t { queue = q; producer = p })
    beside_push :
        {n : ℕ} {t : System A} {l : Label A} {q : SpscQueue A} {c : Consumer A}
        → PushSteps capacity s n t
        → Take capacity t.queue t.consumer l q c
        → PushSteps capacity s n (record t { queue = q; consumer = c })

  -- The same of the consumer, which begins no call; the producer may.
  pub data PopSteps (capacity : ℕ) (s : System A) : ℕ → System A → Type ℓ where
    at_pop : PopSteps capacity s 0 s
    own_pop :
        {n : ℕ} {t : System A} {l : Label A} {q : SpscQueue A} {c : Consumer A}
        → PopSteps capacity s n t
        → t.consumer ≢ Consumer.idle
        → Take capacity t.queue t.consumer l q c
        → PopSteps capacity s (n + 1) (record t { queue = q; consumer = c })
    beside_pop :
        {n : ℕ} {t : System A} {l : Label A} {q : SpscQueue A} {p : Producer A}
        → PopSteps capacity s n t
        → Emplace capacity t.queue t.producer l q p
        → PopSteps capacity s n (record t { queue = q; producer = p })
    call_beside_pop :
        {n : ℕ} {t : System A} (v : A)
        → PopSteps capacity s n t
        → t.producer ≡ Producer.idle
        → PopSteps capacity s n (record t { producer = Producer.calling v })

  -- The thread has a step that it can take.
  abbrev pub CanPush : ℕ → SpscQueue A → Producer A → Type ℓ
  CanPush capacity q p =
      (l : Label A) × (q' : SpscQueue A) × (p' : Producer A) × Emplace capacity q p l q' p'

  abbrev pub CanPop : ℕ → SpscQueue A → Consumer A → Type ℓ
  CanPop capacity q c =
      (l : Label A) × (q' : SpscQueue A) × (c' : Consumer A) × Take capacity q c l q' c'

  -- What a call has still to do, which every step of its thread makes less.
  push_left : Producer A → ℕ
  push_left Producer.idle = 0
  push_left (Producer.calling v) = 4
  push_left (Producer.loaded_head v h) = 3
  push_left (Producer.free_slot v h) = 2
  push_left (Producer.wrote v h) = 1

  pop_left : Consumer A → ℕ
  pop_left Consumer.idle = 0
  pop_left (Consumer.loaded_tail t) = 3
  pop_left (Consumer.filled_slot t) = 2
  pop_left (Consumer.read t v) = 1
  pop_left (Consumer.asking t) = 1

  push_left-Emplace :
      (capacity : ℕ) {q q' : SpscQueue A} {p p' : Producer A} {l : Label A}
      → Emplace capacity q p l q' p'
      → push_left p' + 1 ≤ push_left p
  unfolding push_left
  push_left-Emplace capacity load_head = omega arith
  push_left-Emplace capacity (full e) = omega arith
  push_left-Emplace capacity (not_full n) = omega arith
  push_left-Emplace capacity write = omega arith
  push_left-Emplace capacity store_head = omega arith

  pop_left-Take :
      (capacity : ℕ) {q q' : SpscQueue A} {c c' : Consumer A} {l : Label A}
      → Take capacity q c l q' c'
      → c ≢ Consumer.idle
      → pop_left c' + 1 ≤ pop_left c
  unfolding pop_left
  pop_left-Take capacity load_tail busy = absurd (busy refl)
  pop_left-Take capacity (nothing e) busy = omega arith
  pop_left-Take capacity (something n) busy = omega arith
  pop_left-Take capacity (move e) busy = omega arith
  pop_left-Take capacity store_tail busy = omega arith
  pop_left-Take capacity ask busy = absurd (busy refl)
  pop_left-Take capacity answer busy = omega arith

  push_left-PushSteps :
      (capacity : ℕ) {s t : System A} {n : ℕ}
      → PushSteps capacity s n t
      → n + push_left t.producer ≤ push_left s.producer
  push_left-PushSteps capacity at_push = omega arith
  push_left-PushSteps capacity (own_push r m) =
      omega (arith, push_left-PushSteps capacity r, push_left-Emplace capacity m)
  push_left-PushSteps capacity (beside_push r m) = push_left-PushSteps capacity r

  pop_left-PopSteps :
      (capacity : ℕ) {s t : System A} {n : ℕ}
      → PopSteps capacity s n t
      → n + pop_left t.consumer ≤ pop_left s.consumer
  pop_left-PopSteps capacity at_pop = omega arith
  pop_left-PopSteps capacity (own_pop r busy m) =
      omega (arith, pop_left-PopSteps capacity r, pop_left-Take capacity m busy)
  pop_left-PopSteps capacity (beside_pop r m) = pop_left-PopSteps capacity r
  pop_left-PopSteps capacity (call_beside_pop v r e) = pop_left-PopSteps capacity r

  few_pushes : (p : Producer A) → push_left p ≤ 4
  unfolding push_left
  few_pushes p = ground arith

  few_pops : (c : Consumer A) → pop_left c ≤ 3
  unfolding pop_left
  few_pops c = ground arith

  -- A call under way can go on, with something left to do.
  push_goes :
      (capacity : ℕ) (q : SpscQueue A) (p : Producer A)
      → (p ≡ Producer.idle) ⊎ ((0 < push_left p) × CanPush capacity q p)
  unfolding push_left
  push_goes capacity q Producer.idle = inl refl
  push_goes capacity q (Producer.calling v) = inr (omega arith, (_, _, _, load_head))
  push_goes capacity q (Producer.loaded_head v h) = elim (ℕ_discrete (next capacity h) q.tail) [
    | yes e ↦ inr (omega arith, (_, _, _, full e))
    | no n ↦ inr (omega arith, (_, _, _, not_full n))
  ]
  push_goes capacity q (Producer.free_slot v h) = inr (omega arith, (_, _, _, write))
  push_goes capacity q (Producer.wrote v h) = inr (omega arith, (_, _, _, store_head))

  pop_goes :
      (capacity : ℕ) (q : SpscQueue A) (xs : List A) (c : Consumer A)
      → Represents capacity q xs
      → AtConsumer q.tail xs c
      → (c ≡ Consumer.idle) ⊎ ((0 < pop_left c) × CanPop capacity q c)
  unfolding pop_left
  pop_goes capacity q xs Consumer.idle r a = inl refl
  pop_goes capacity q xs (Consumer.loaded_tail t) r a = elim (ℕ_discrete t q.head) [
    | yes e ↦ inr (omega arith, (_, _, _, nothing e))
    | no n ↦ inr (omega arith, (_, _, _, something n))
  ]
  pop_goes capacity q [] (Consumer.filled_slot t) r (e, h, u) = absurd (omega arith)
  pop_goes capacity q (x ∷ xs) (Consumer.filled_slot t) r (e, h, u) =
      inr (omega arith, (_, _, _, move (ap (get_elem? q.buffer) e ∙ r.holds.0)))
  pop_goes capacity q xs (Consumer.read t v) r a = inr (omega arith, (_, _, _, store_tail))
  pop_goes capacity q xs (Consumer.asking t) r a = inr (omega arith, (_, _, _, answer))

module _ {ℓ} {A : Type ℓ} (capacity : ℕ) (small : capacity + 1 < 2 ^ 64) where
  PopSteps-Inv :
      {s t : System A} {n : ℕ} {xs : List A}
      → PopSteps capacity s n t
      → SystemInv capacity small s xs
      → (ys : List A) × SystemInv capacity small t ys
  PopSteps-Inv {xs = xs} at_pop i = (xs, i)
  PopSteps-Inv (own_pop r busy m) i =
      let (ys, j) = PopSteps-Inv r i in
      let (zs, k, e) = Step-Inv capacity small (consume m) j in (zs, k)
  PopSteps-Inv (beside_pop r m) i =
      let (ys, j) = PopSteps-Inv r i in
      let (zs, k, e) = Step-Inv capacity small (produce m) j in (zs, k)
  PopSteps-Inv (call_beside_pop v r e) i =
      let (ys, j) = PopSteps-Inv r i in
      let (zs, k, f) = Step-Inv capacity small (call v e) j in (zs, k)

-- From any state `s` that two threads reach from a new queue whose slots a `size_t` can number, let
-- them go on in any order. While the producer begins no call it takes at most four steps, whatever they
-- are, and its call has returned or it has another of these steps that it can take; so `push` returns
-- after at most four steps of its thread. While the consumer begins no call it takes at most three, and
-- the same holds; so `pop` and `empty` return after at most three steps behind the first, which loads
-- the tail. No step waits for the other thread.
pub Run-wait_free {ℓ} :
    {A : Type ℓ} (capacity : ℕ) (default : A) (s t u : System A) (n m : ℕ) (os : List (Op A))
    (rs : List (Reply A))
    → capacity + 1 < 2 ^ 64
    → Run capacity (start capacity default) os rs s
    → PushSteps capacity s n t
    → PopSteps capacity s m u
    → ((n ≤ 4) × ((t.producer ≡ Producer.idle) ⊎ ((n < 4) × CanPush capacity t.queue t.producer)))
      × ((m ≤ 3) × ((u.consumer ≡ Consumer.idle) ⊎ ((m < 3) × CanPop capacity u.queue u.consumer)))
Run-wait_free capacity default s t u n m os rs small r pushes pops =
    let (f, xs, i) = Run-Inv capacity small r (start-Inv capacity small default) in
    let (ys, j) = PopSteps-Inv capacity small pops i in
    let pushed = push_left-PushSteps capacity pushes in
    let popped = pop_left-PopSteps capacity pops in
    let four = few_pushes s.producer in
    let three = few_pops s.consumer in
    (
      (
        omega (arith, pushed, four),
        elim (push_goes capacity t.queue t.producer) [
          | inl e ↦ inl e
          | inr (more, goes) ↦ inr (omega (arith, more, pushed, four), goes)
        ],
      ),
      (
        omega (arith, popped, three),
        elim (pop_goes capacity u.queue ys u.consumer j.holds j.consumer) [
          | inl e ↦ inl e
          | inr (more, goes) ↦ inr (omega (arith, more, popped, three), goes)
        ],
      ),
    )
