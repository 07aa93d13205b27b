-- ===== src/Concurrency/Threads/Invariant.antt =====
-- What a queue holds while its threads are at work, and that each step which settles a call answers
-- as the bounded FIFO of these values does.
use slipstream_volume_aware.Prelude.{
  ℕ, ◌+◌, ◌^◌, ◌<◌, ◌≡◌, ◌≢◌, refl, sym, ap, ◌∙◌, List, [], ◌∷◌, ◌++◌, length, get_elem?,
  length-set, length-append, get_elem?-set_self, true, false, some, arith, ◌==◌, ltb, lt→ltb,
  not_lt→ltb,
}
use slipstream_volume_aware.Prelude.Circular.{Holds, Holds-set, Holds-snoc}
use slipstream_volume_aware.Concurrency.Fifo
use slipstream_volume_aware.Concurrency.Fifo.{Op, put, get, ask_empty, Reply, took, gave, is_empty}
use slipstream_volume_aware.Concurrency.Spsc
use slipstream_volume_aware.Concurrency.Spsc.{SpscQueue, next, Represents}
use slipstream_volume_aware.Concurrency.Spsc.Refine.{
  next_head-snoc, next_head-eq-tail_iff, tail-eq-head_iff, popped-Represents, empty_refines,
}
use slipstream_volume_aware.Concurrency.Threads.{
  Producer, Consumer, Label, silent, event, Emplace, load_head, full, not_full, write, store_head,
  Take, load_tail, nothing, something, move, store_tail, ask, answer,
}
use mathlib.Core.Path.{subst}

module _ {ℓ} {A : Type ℓ} where
  -- What the producer's locals say of the queue `q` that holds `xs`.
  abbrev pub AtProducer : ℕ → SpscQueue A → List A → Producer A → Type ℓ
  AtProducer capacity q xs Producer.idle = Unit
  AtProducer capacity q xs (Producer.calling v) = Unit
  AtProducer capacity q xs (Producer.loaded_head v h) = (h ≡ q.head) × Unit {ℓ}
  AtProducer capacity q xs (Producer.free_slot v h) =
      (h ≡ q.head) × (length xs < capacity) × Unit {ℓ}
  AtProducer capacity q xs (Producer.wrote v h) =
      (h ≡ q.head) × (length xs < capacity) × (get_elem? q.buffer h ≡ some v)

  abbrev pub FrontIs : A → List A → Type ℓ
  FrontIs v xs = (ys : List A) × (xs ≡ v ∷ ys)

  abbrev pub AtConsumer : ℕ → List A → Consumer A → Type ℓ
  AtConsumer tail xs Consumer.idle = Unit
  AtConsumer tail xs (Consumer.loaded_tail t) = (t ≡ tail) × Unit {ℓ}
  AtConsumer tail xs (Consumer.filled_slot t) = (t ≡ tail) × (0 < length xs) × Unit {ℓ}
  AtConsumer tail xs (Consumer.read t v) = (t ≡ tail) × FrontIs v xs
  AtConsumer tail xs (Consumer.asking t) = (t ≡ tail) × Unit {ℓ}

  pub record Inv (capacity : ℕ) (q : SpscQueue A) (xs : List A) (p : Producer A) (c : Consumer A)
      : Type ℓ where
    pub holds : Represents capacity q xs
    pub producer : AtProducer capacity q xs p
    pub consumer : AtConsumer q.tail xs c

  -- A step turns the FIFO `xs` into `ys`; one that settles a call gives the FIFO's reply.
  abbrev pub Answers : ℕ → List A → Label A → List A → Type ℓ
  Answers capacity xs silent ys = ys ≡ xs
  Answers capacity xs (event o r) ys =
      (os : List (Op A)) → Fifo.run capacity xs (o ∷ os) ≡ r ∷ Fifo.run capacity ys os

module _ {ℓ} {A : Type ℓ} where
  -- The consumer's facts outlast a push, and the producer's a pop.
  AtConsumer-snoc :
      (tail : ℕ) (xs : List A) (v : A) (c : Consumer A)
      → AtConsumer tail xs c
      → AtConsumer tail (xs ++ (v ∷ [])) c
  AtConsumer-snoc tail xs v Consumer.idle h = h
  AtConsumer-snoc tail xs v (Consumer.loaded_tail t) h = h
  AtConsumer-snoc tail xs v (Consumer.filled_slot t) (e, h, u) =
      (e, omega (arith, length-append xs (v ∷ []), h), u)
  AtConsumer-snoc tail xs v (Consumer.read t w) (e, (ys, h)) =
      (e, (ys ++ (v ∷ []), ap (λ l. l ++ (v ∷ [])) h))
  AtConsumer-snoc tail xs v (Consumer.asking t) h = h

  length-eq-zero : (xs : List A) → length xs ≡ 0 → xs ≡ []
  length-eq-zero [] h = refl
  length-eq-zero (x ∷ xs) h = absurd (omega (arith, h))

  front-lem :
      (n : ℕ) (buf : List A) (i : ℕ) (v : A) (xs : List A)
      → 0 < length xs
      → get_elem? buf i ≡ some v
      → Holds n buf i xs
      → FrontIs v xs
  front-lem n buf i v [] h e w = absurd (omega arith)
  front-lem n buf i v (x ∷ xs) h e (w, ws) = (xs, ap (λ y. y ∷ xs) (cc (w, e)))

  AtProducer-tail :
      (capacity : ℕ) (q : SpscQueue A) (v : A) (xs : List A) (t : ℕ) (p : Producer A)
      → AtProducer capacity q (v ∷ xs) p
      → AtProducer capacity (record q { tail = t }) xs p
  AtProducer-tail capacity q v xs t Producer.idle h = h
  AtProducer-tail capacity q v xs t (Producer.calling w) h = h
  AtProducer-tail capacity q v xs t (Producer.loaded_head w i) h = h
  AtProducer-tail capacity q v xs t (Producer.free_slot w i) (e, h, u) = (e, omega (arith, h), u)
  AtProducer-tail capacity q v xs t (Producer.wrote w i) (e, h, u) = (e, omega (arith, h), u)

module _ {ℓ} {A : Type ℓ} (capacity : ℕ) (xs : List A) where
  -- A step to `q'`, `p'` and `c'` keeps the invariant, with a FIFO that answers the step's label.
  abbrev pub Kept : Label A → SpscQueue A → Producer A → Consumer A → Type ℓ
  Kept l q' p' c' = (ys : List A) × Inv capacity q' ys p' c' × Answers capacity xs l ys

module _ (capacity : ℕ) (small : capacity + 1 < 2 ^ 64) where
  module _ {ℓ} {A : Type ℓ} {q : SpscQueue A} {xs : List A} where
    pub Emplace-Inv :
        {l : Label A} {q' : SpscQueue A} {p p' : Producer A} (c : Consumer A)
        → Emplace capacity q p l q' p'
        → Inv capacity q xs p c
        → Kept capacity xs l q' p' c
    unfolding Fifo.run Fifo.push
    Emplace-Inv c (load_head) i =
        (xs, record { holds = i.holds; producer = (refl, tt); consumer = i.consumer }, refl)
    Emplace-Inv c (full {v = v} {h = h} e) i =
        let none_free : length xs ≡ capacity =
          (next_head-eq-tail_iff capacity small i.holds).0
            (ap (next capacity) (sym i.producer.0) ∙ e) in
        let no : ltb (length xs) capacity ≡ false =
          not_lt→ltb (length xs) capacity (omega (arith, none_free)) in
        (xs, record { holds = i.holds; producer = tt; consumer = i.consumer }, λ os. rw no refl)
    Emplace-Inv c (not_full {v = v} {h = h} e) i =
        let some_free : length xs ≢ capacity = λ n.
          e (
            ap (next capacity) i.producer.0 ∙ (next_head-eq-tail_iff capacity small i.holds).1 n) in
        (
          xs,
          record {
            holds = i.holds;
            producer = (i.producer.0, omega (arith, some_free, i.holds.fits), tt);
            consumer = i.consumer;
          },
          refl,
        )
    Emplace-Inv c (write {v = v} {h = h}) i = (
      xs,
      record {
        holds = record {
          slots = length-set q.buffer h v ∙ i.holds.slots;
          fits = i.holds.fits;
          tail_in = i.holds.tail_in;
          head_at = i.holds.head_at;
          holds =
              Holds-set (capacity + 1) q.buffer q.tail h (length xs) v xs i.holds.tail_in
                (omega (arith, i.holds.fits)) (omega arith) (i.producer.0 ∙ i.holds.head_at)
                i.holds.holds;
        };
        producer = (
          i.producer.0,
          i.producer.1,
          get_elem?-set_self q.buffer h v
              (omega (arith, i.producer.0, i.holds.head_at, i.holds.slots)),
        );
        consumer = i.consumer;
      },
      refl,
    )
    Emplace-Inv c (store_head {v = v} {h = h}) i =
        let room : ltb (length xs) capacity ≡ true = lt→ltb (length xs) capacity i.producer.1 in
        (
          xs ++ (v ∷ []),
          record {
            holds = record {
              slots = i.holds.slots;
              fits = omega (arith, length-append xs (v ∷ []), i.producer.1);
              tail_in = i.holds.tail_in;
              head_at = ap (next capacity) i.producer.0 ∙ next_head-snoc capacity small i.holds v;
              holds =
                  Holds-snoc (capacity + 1) q.buffer q.tail v xs i.holds.tail_in
                    (ap (get_elem? q.buffer) (sym (i.producer.0 ∙ i.holds.head_at)) ∙ i.producer.2)
                    i.holds.holds;
            };
            producer = tt;
            consumer = AtConsumer-snoc q.tail xs v c i.consumer;
          },
          λ os. rw room refl,
        )

    asked : {t : ℕ} → t ≡ q.tail → Represents capacity q xs → (t == q.head) ≡ Fifo.empty xs
    unfolding Spsc.empty
    asked e r = ap (λ k. k == q.head) e ∙ empty_refines capacity small xs r

    pub Take-Inv :
        {l : Label A} {q' : SpscQueue A} {c c' : Consumer A} (p : Producer A)
        → Take capacity q c l q' c'
        → Inv capacity q xs p c
        → Kept capacity xs l q' p c'
    unfolding Fifo.run Fifo.pop Fifo.empty
    Take-Inv p (load_tail) i =
        (xs, record { holds = i.holds; producer = i.producer; consumer = (refl, tt) }, refl)
    Take-Inv p (nothing {t = t} e) i =
        let none_held : length xs ≡ 0 =
          (tail-eq-head_iff capacity small i.holds).0 (sym i.consumer.0 ∙ e) in
        (
          xs,
          record { holds = i.holds; producer = i.producer; consumer = tt },
          λ os. rw (length-eq-zero xs none_held) refl,
        )
    Take-Inv p (something {t = t} e) i =
        let some_held : length xs ≢ 0 =
          λ n. e (i.consumer.0 ∙ (tail-eq-head_iff capacity small i.holds).1 n) in
        (
          xs,
          record {
            holds = i.holds;
            producer = i.producer;
            consumer = (i.consumer.0, omega (arith, some_held), tt);
          },
          refl,
        )
    Take-Inv p (move {t = t} {v = v} e) i = (
      xs,
      record {
        holds = i.holds;
        producer = i.producer;
        consumer = (
          i.consumer.0,
          front-lem (capacity + 1) q.buffer q.tail v xs i.consumer.1
              (ap (get_elem? q.buffer) (sym i.consumer.0) ∙ e) i.holds.holds,
        );
      },
      refl,
    )
    Take-Inv p (store_tail {t = t} {v = v}) i =
        let (ys, e) = i.consumer.1 in
        let r = subst (Represents capacity q) e i.holds in
        let at_tail = ap (next capacity) i.consumer.0 in
        (
          ys,
          record {
            holds =
                subst (λ k. Represents capacity (record q { tail = k }) ys) (sym at_tail)
                  (popped-Represents capacity small v ys r);
            producer =
                AtProducer-tail capacity q v ys (next capacity t) p
                  (subst (λ l. AtProducer capacity q l p) e i.producer);
            consumer = tt;
          },
          λ os. rw e refl,
        )
    Take-Inv p (ask) i =
        (xs, record { holds = i.holds; producer = i.producer; consumer = (refl, tt) }, refl)
    Take-Inv p (answer {t = t}) i = (
      xs,
      record { holds = i.holds; producer = i.producer; consumer = tt },
      λ os. ap (λ b. is_empty b ∷ Fifo.run capacity xs os) (sym (asked i.consumer.0 i.holds)),
    )
