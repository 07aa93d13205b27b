-- ===== src/Concurrency/Mpsc/Linear.antt =====
-- Under the lock the producers are one producer of an `SPSCQueue`.
use slipstream_volume_aware.Prelude.{
  ℕ, ◌+◌, ◌^◌, ◌<◌, ◌≡◌, ◌⊎◌, inl, inr, refl, sym, ap, ◌∙◌, List, [], ◌∷◌, ◌==◌, true, false,
  Option, none, some, arith,
}
use slipstream_volume_aware.Concurrency.Fifo
use slipstream_volume_aware.Concurrency.Fifo.{Op, Reply}
use slipstream_volume_aware.Concurrency.Spsc.Refine.{init-Represents}
use slipstream_volume_aware.Concurrency.Threads.{Producer, Label}
use slipstream_volume_aware.Concurrency.Threads.Invariant.{Inv, Answers, Emplace-Inv, Take-Inv}
use slipstream_volume_aware.Concurrency.Mpsc.{
  Caller, outside, inside, update, System, Step, lock, produce, unlock, consume, Run, here, quiet,
  settle, start,
}
use mathlib.Core.Path.{subst}
use native.Mathlib.Decide.{ℕ_discrete}

eq_true : (i j : ℕ) → i ≡ j → (i == j) ≡ true
eq_true i j e = ground arith

eq_false : (i j : ℕ) → ¬ (i ≡ j) → (i == j) ≡ false
eq_false i j n = ground arith

module _ {ℓ} {A : Type ℓ} where
  -- Producer `i` is outside, or has the lock and stands where the one producer `p` does.
  abbrev pub Stands : Option ℕ → (ℕ → Caller A) → Producer A → ℕ → Type ℓ
  Stands owner callers p i = (callers i ≡ outside) ⊎ ((owner ≡ some i) × (callers i ≡ inside p))

  -- `p` is where the producer with the lock stands.
  pub record SystemInv (capacity : ℕ) (s : System A) (xs : List A) (p : Producer A) : Type ℓ where
    pub ring : Inv capacity s.queue xs p s.consumer
    pub stands : (i : ℕ) → Stands s.producer_lock s.callers p i

  inside-owner :
      (owner : Option ℕ) (callers : ℕ → Caller A) (p p' : Producer A) (i : ℕ)
      → Stands owner callers p i
      → callers i ≡ inside p'
      → (owner ≡ some i) × (p ≡ p')
  inside-owner owner callers p p' i h e = ground (arith, h, e)

  outside_others :
      (owner : Option ℕ) (callers : ℕ → Caller A) (p : Producer A) (i j : ℕ)
      → Stands owner callers p j
      → (owner ≡ none) ⊎ (owner ≡ some i)
      → ¬ (i ≡ j)
      → callers j ≡ outside
  outside_others owner callers p i j h e n = ground (arith, h, e, n)

  enters :
      (owner : Option ℕ) (callers : ℕ → Caller A) (p : Producer A) (i j : ℕ)
      → owner ≡ some i
      → (¬ (i ≡ j) → callers j ≡ outside)
      → Stands owner (update callers i (inside p)) p j
  enters owner callers p i j e out = elim (ℕ_discrete i j) [
    | yes same ↦ inr (e ∙ ap some same, rw (eq_true i j same) refl)
    | no apart ↦ inl (rw (eq_false i j apart) (out apart))
  ]

  leaves :
      (callers : ℕ → Caller A) (p : Producer A) (i j : ℕ)
      → (¬ (i ≡ j) → callers j ≡ outside)
      → Stands none (update callers i outside) p j
  leaves callers p i j out = elim (ℕ_discrete i j) [
    | yes same ↦ inl (rw (eq_true i j same) refl)
    | no apart ↦ inl (rw (eq_false i j apart) (out apart))
  ]

  alone :
      (owner : Option ℕ) (callers : ℕ → Caller A) (p : Producer A) (i j : ℕ)
      → Stands owner callers p i
      → Stands owner callers p j
      → (callers i ≡ outside) ⊎ (callers j ≡ outside) ⊎ (i ≡ j)
  alone owner callers p i j a b = ground (arith, a, b)

module _ (capacity producers : ℕ) (small : capacity + 1 < 2 ^ 64) where
  module _ {ℓ} {A : Type ℓ} where
    abbrev Goes : List A → Label A → System A → Type ℓ
    Goes xs l t =
        (ys : List A) × (p : Producer A) × SystemInv capacity t ys p × Answers capacity xs l ys

    Step-Inv :
        {s t : System A} {l : Label A} {xs : List A} {p : Producer A}
        → Step capacity producers s l t
        → SystemInv capacity s xs p
        → Goes xs l t
    Step-Inv {s = s} {xs = xs} {p = p} (lock i v hi out free) inv = (
      xs,
      Producer.calling v,
      record {
        ring = record { holds = inv.ring.holds; producer = tt; consumer = inv.ring.consumer };
        stands = λ j.
            enters (some i) s.callers (Producer.calling v) i j refl
              (outside_others s.producer_lock s.callers p i j (inv.stands j) (inl free));
      },
      refl,
    )
    Step-Inv {s = s} {xs = xs} {p = p} (produce i {p = p0} {p' = p1} {q = q} at m) inv =
        let (owner, same) = inside-owner s.producer_lock s.callers p p0 i (inv.stands i) at in
        let (ys, ring, e) =
          Emplace-Inv capacity small s.consumer m
            (subst (λ x. Inv capacity s.queue xs x s.consumer) same inv.ring) in
        (
          ys,
          p1,
          record {
            ring = ring;
            stands = λ j.
                enters s.producer_lock s.callers p1 i j owner
                  (outside_others s.producer_lock s.callers p i j (inv.stands j) (inr owner));
          },
          e,
        )
    Step-Inv {s = s} {xs = xs} {p = p} (unlock i at) inv =
        let (owner, same) =
          inside-owner s.producer_lock s.callers p Producer.idle i (inv.stands i) at in
        (
          xs,
          Producer.idle,
          record {
            ring = subst (λ x. Inv capacity s.queue xs x s.consumer) same inv.ring;
            stands = λ j.
                leaves s.callers Producer.idle i j
                  (outside_others s.producer_lock s.callers p i j (inv.stands j) (inr owner));
          },
          refl,
        )
    Step-Inv {s = s} {xs = xs} {p = p} (consume m) inv =
        let (ys, ring, e) = Take-Inv capacity small p m inv.ring in
        (ys, p, record { ring = ring; stands = inv.stands }, e)

    Run-Inv :
        {s t : System A} {os : List (Op A)} {rs : List (Reply A)} {xs : List A} {p : Producer A}
        → Run capacity producers s os rs t
        → SystemInv capacity s xs p
        → (rs ≡ Fifo.run capacity xs os)
          × (ys : List A) × (p' : Producer A) × SystemInv capacity t ys p'
    unfolding Fifo.run
    Run-Inv {xs = xs} {p = p} (here) i = (refl, xs, p, i)
    Run-Inv (quiet {os = os} st r) i =
        let (ys, p', j, e) = Step-Inv st i in
        let (f, zs, p'', k) = Run-Inv r j in (f ∙ ap (λ l. Fifo.run capacity l os) e, zs, p'', k)
    Run-Inv (settle {os = os} {r = x} st r) i =
        let (ys, p', j, e) = Step-Inv st i in
        let (f, zs, p'', k) = Run-Inv r j in (ap (λ l. x ∷ l) f ∙ sym (e os), zs, p'', k)

    start-Inv :
        (default : A) → SystemInv capacity (start capacity producers default) [] Producer.idle
    unfolding start
    start-Inv default = record {
      ring = record {
        holds = init-Represents capacity small default;
        producer = tt;
        consumer = tt;
      };
      stands = λ i. inl refl;
    }

    -- With any number of producers, and whatever the order in which they get the lock and all loads
    -- and stores happen: each call of `push`, `pop` and `empty` returns what the FIFO that holds at
    -- most `capacity` values returns, when the calls are put in the order of the steps that settle
    -- them; and no two producers are behind the lock at once. The queue starts new, and a `size_t`
    -- can number its slots.
    pub Run-mpsc_linear :
        (default : A) (t : System A) (os : List (Op A)) (rs : List (Reply A))
        → Run capacity producers (start capacity producers default) os rs t
        → (rs ≡ Fifo.run capacity [] os)
          × ((i j : ℕ) → (t.callers i ≡ outside) ⊎ (t.callers j ≡ outside) ⊎ (i ≡ j))
    Run-mpsc_linear default t os rs r =
        let (f, ys, p, inv) = Run-Inv r (start-Inv default) in
        (f, λ i j. alone t.producer_lock t.callers p i j (inv.stands i) (inv.stands j))
