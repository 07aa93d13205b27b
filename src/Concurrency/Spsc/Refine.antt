-- ===== src/Concurrency/Spsc/Refine.antt =====
-- An `SPSCQueue` is the bounded FIFO of the values that it holds.
use slipstream_volume_aware.Prelude.{
  ℕ, suc, ◌+◌, ◌%◌, ◌^◌, ◌<◌, ◌≡◌, refl, sym, ap, ◌∙◌, List, [], ◌∷◌, ◌++◌, length, set, length-set,
  length-append, length-replicate, true, false, none, some, arith, ◌↔◌, lt→ltb, not_lt→ltb, ap₂,
}
use slipstream_volume_aware.Prelude.Circular.{mod-cases, Holds-push, step-mod}
use slipstream_volume_aware.Concurrency.Fifo
use slipstream_volume_aware.Concurrency.Fifo.{Op, put, get, ask_empty, took, gave, is_empty}
use native.Mathlib.Nat.{mod-add-mod, mod-eq_of_lt}
use native.Mathlib.Decide.{dec_lt}
use slipstream_volume_aware.Concurrency.Spsc.{
  SpscQueue, next, init, push, pop, empty, run, Represents,
}

-- The index does not wrap, being below the number of slots.
pub next_lem :
    (capacity i : ℕ)
    → capacity + 1 < 2 ^ 64
    → i < capacity + 1
    → next capacity i ≡ (i + 1) % (capacity + 1)
unfolding next
next_lem capacity i hc hi = ap (λ t. t % (capacity + 1)) (omega arith)

-- The slot behind the window is the tail exactly when the window is full, and the head is the tail
-- exactly when it is empty.
pub full_iff : (n t k : ℕ) → t < n → k < n → (((t + k) % n + 1) % n ≡ t) ↔ (suc k ≡ n)
full_iff n t k ht hk =
    let a = mod-cases (t + k) n (omega arith) in
    let b = mod-cases ((t + k) % n + 1) n (omega arith) in
    (λ e. omega (arith, a, b, e), λ e. omega (arith, a, b, e))

pub empty_iff : (n t k : ℕ) → t < n → k < n → (t ≡ (t + k) % n) ↔ (k ≡ 0)
empty_iff n t k ht hk =
    let a = mod-cases (t + k) n (omega arith) in
    (λ e. omega (arith, a, e), λ e. omega (arith, a, e))

module _ (capacity : ℕ) (small : capacity + 1 < 2 ^ 64) where
  module _ {ℓ} {A : Type ℓ} {q : SpscQueue A} {xs : List A} (r : Represents capacity q xs) where
    pub next_head : next capacity q.head ≡ (q.head + 1) % (capacity + 1)
    next_head = next_lem capacity q.head small (omega (arith, r.head_at))

    pub next_head-eq-tail_iff : (next capacity q.head ≡ q.tail) ↔ (length xs ≡ capacity)
    next_head-eq-tail_iff =
        let f = full_iff (capacity + 1) q.tail (length xs) r.tail_in (omega (arith, r.fits)) in
        let e = next_head ∙ ap (λ h. (h + 1) % (capacity + 1)) r.head_at in
        (λ p. omega (arith, f.0 (sym e ∙ p)), λ p. e ∙ f.1 (omega (arith, p)))

    pub tail-eq-head_iff : (q.tail ≡ q.head) ↔ (length xs ≡ 0)
    tail-eq-head_iff =
        let f = empty_iff (capacity + 1) q.tail (length xs) r.tail_in (omega (arith, r.fits)) in
        (λ p. f.0 (p ∙ r.head_at), λ p. f.1 p ∙ sym r.head_at)

    push_full : (v : A) → length xs ≡ capacity → push capacity q v ≡ (false, q)
    unfolding push
    push_full v e = ground (arith, next_head-eq-tail_iff.1 e)

    abbrev pushed : A → SpscQueue A
    pushed v = record q { buffer = set q.buffer q.head v; head = next capacity q.head }

    push_room : (v : A) → length xs < capacity → push capacity q v ≡ (true, pushed v)
    unfolding push
    push_room v h = ground (arith, next_head-eq-tail_iff.0)

    pub next_head-snoc :
        (v : A) → next capacity q.head ≡ (q.tail + length (xs ++ (v ∷ []))) % (capacity + 1)
    next_head-snoc v =
        next_head
        ∙ ap (λ a. (a + 1) % (capacity + 1)) r.head_at
        ∙ mod-add-mod (q.tail + length xs) (capacity + 1) 1
        ∙ ap (λ t. t % (capacity + 1)) longer
      where
        longer : q.tail + length xs + 1 ≡ q.tail + length (xs ++ (v ∷ []))
        longer = omega (arith, length-append xs (v ∷ []))

    pushed-Represents :
        (v : A) → length xs < capacity → Represents capacity (pushed v) (xs ++ (v ∷ []))
    pushed-Represents v h = record {
      slots = length-set q.buffer q.head v ∙ r.slots;
      fits = omega (arith, length-append xs (v ∷ []));
      tail_in = r.tail_in;
      head_at = next_head-snoc v;
      holds =
          Holds-push (capacity + 1) q.buffer q.tail q.head v xs r.tail_in r.slots
            (omega (arith, r.fits)) r.head_at r.holds;
    }

    pub push_refines :
        (v : A)
        → ((push capacity q v).0 ≡ (Fifo.push capacity xs v).0)
          × Represents capacity (push capacity q v).1 (Fifo.push capacity xs v).1
    unfolding Fifo.push
    push_refines v = elim (dec_lt (length xs) capacity) [
      | yes h ↦ rw (push_room v h, lt→ltb (length xs) capacity h) (refl, pushed-Represents v h)
      | no h ↦ rw (push_full v (omega (arith, r.fits)), not_lt→ltb (length xs) capacity h) (refl, r)
    ]

  module _ {ℓ} {A : Type ℓ} {q : SpscQueue A} where
    pop_nil : Represents capacity q [] → pop capacity q ≡ (none, q)
    unfolding pop
    pop_nil r = ground (arith, (tail-eq-head_iff r).1 refl)

    pop_cons :
        (x : A) (xs : List A)
        → Represents capacity q (x ∷ xs)
        → pop capacity q ≡ (some x, record q { tail = next capacity q.tail })
    unfolding pop
    pop_cons x xs r = ground (arith, (tail-eq-head_iff r).0, r.holds)

    pub popped-Represents :
        (x : A) (xs : List A)
        → Represents capacity q (x ∷ xs)
        → Represents capacity (record q { tail = next capacity q.tail }) xs
    popped-Represents x xs r =
        let e = next_lem capacity q.tail small r.tail_in in
        record {
          slots = r.slots;
          fits = omega (arith, r.fits);
          tail_in = omega (arith, e);
          head_at =
              r.head_at
              ∙ sym (step-mod (capacity + 1) q.tail (length xs))
              ∙ ap (λ t. (t + length xs) % (capacity + 1)) (sym e);
          holds = rw e (r.holds.1);
        }

    pub pop_refines :
        (xs : List A)
        → Represents capacity q xs
        → ((pop capacity q).0 ≡ (Fifo.pop xs).0)
          × Represents capacity (pop capacity q).1 (Fifo.pop xs).1
    unfolding Fifo.pop
    pop_refines [] r = rw (pop_nil r) (refl, r)
    pop_refines (x ∷ xs) r = rw (pop_cons x xs r) (refl, popped-Represents x xs r)

    pub empty_refines : (xs : List A) → Represents capacity q xs → empty q ≡ Fifo.empty xs
    unfolding empty Fifo.empty
    empty_refines [] r = ground (arith, (tail-eq-head_iff r).1 refl)
    empty_refines (x ∷ xs) r = ground (arith, (tail-eq-head_iff r).0)

  module _ {ℓ} {A : Type ℓ} where
    pub init-Represents : (default : A) → Represents capacity (init capacity default) []
    unfolding init
    init-Represents default = record {
      slots = length-replicate (capacity + 1) default;
      fits = omega arith;
      tail_in = omega arith;
      head_at = omega (arith, mod-eq_of_lt {n = 0} {m = capacity + 1} (omega arith));
      holds = tt;
    }

    run_refines :
        (ops : List (Op A)) (q : SpscQueue A) (xs : List A)
        → Represents capacity q xs
        → run capacity q ops ≡ Fifo.run capacity xs ops
    unfolding run Fifo.run
    run_refines [] q xs r = refl
    run_refines (put v ∷ ops) q xs r =
        let s = push_refines r v in
        ap₂ (λ b l. took b ∷ l) s.0
          (run_refines ops (push capacity q v).1 (Fifo.push capacity xs v).1 s.1)
    run_refines (get ∷ ops) q xs r =
        let s = pop_refines xs r in
        ap₂ (λ o l. gave o ∷ l) s.0 (run_refines ops (pop capacity q).1 (Fifo.pop xs).1 s.1)
    run_refines (ask_empty ∷ ops) q xs r =
        ap₂ (λ b l. is_empty b ∷ l) (empty_refines xs r) (run_refines ops q xs r)

    -- No sequence of `push`, `pop` and `empty` calls tells a new queue from the FIFO that holds at
    -- most `capacity` values, for any capacity whose slots a `size_t` can number.
    pub run_new :
        (default : A) (ops : List (Op A))
        → run capacity (init capacity default) ops ≡ Fifo.run capacity [] ops
    run_new default ops = run_refines ops (init capacity default) [] (init-Represents default)
