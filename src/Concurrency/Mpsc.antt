-- ===== src/Concurrency/Mpsc.antt =====
-- src/libs/concurrency/MPSCQueue.hpp: the ring of `SPSCQueue` with a lock round `emplace`, so that any
-- number of producers may push. `Emplace` and `Take` of `Threads` are the loads and stores of both
-- classes, whose `emplace`, `pop` and `empty` differ in the lock alone. The lock is `std::mutex`: it
-- is taken when no thread has it.
use slipstream_volume_aware.Prelude.{
  ℕ, ◌≡◌, ◌<◌, List, [], ◌∷◌, Bool, true, false, ◌==◌, if◌then◌else◌, Option, none, some,
}
use slipstream_volume_aware.Concurrency.Fifo.{Op, Reply}
use slipstream_volume_aware.Concurrency.Spsc
use slipstream_volume_aware.Concurrency.Spsc.{SpscQueue}
use slipstream_volume_aware.Concurrency.Threads.{
  Producer, Consumer, Label, silent, event, Emplace, Take,
}
pub mod Linear
mod Tests

-- A producer is outside `emplace`, or has the lock and stands somewhere behind it.
pub data Caller {ℓ} (A : Type ℓ) : Type ℓ where
  outside : Caller A
  inside : Producer A → Caller A

abbrev pub update {ℓ} : {A : Type ℓ} → (ℕ → A) → ℕ → A → ℕ → A
update f i a j = if i == j then a else f j

-- `queue` has the fields `buffer`, `head` and `tail`, and `producer_lock` the producer that has the
-- lock. The producers are numbered.
pub record System {ℓ} (A : Type ℓ) : Type ℓ where
  pub queue : SpscQueue A
  pub producer_lock : Option ℕ
  pub callers : ℕ → Caller A
  pub consumer : Consumer A

module _ {ℓ} {A : Type ℓ} (capacity producers : ℕ) where
  unfoldable pub start : A → System A
  start default = record {
    queue = Spsc.init capacity default;
    producer_lock = none;
    callers = λ i. outside;
    consumer = Consumer.idle;
  }

  pub data Step (s : System A) : Label A → System A → Type ℓ where
    -- A call of `push` that gets the lock; before that it touches nothing.
    lock :
        (i : ℕ) (v : A)
        → i < producers
        → s.callers i ≡ outside
        → s.producer_lock ≡ none
        → Step s silent (record s {
          producer_lock = some i;
          callers = update s.callers i (inside (Producer.calling v));
        })
    produce :
        (i : ℕ) {p p' : Producer A} {l : Label A} {q : SpscQueue A}
        → s.callers i ≡ inside p
        → Emplace capacity s.queue p l q p'
        → Step s l (record s { queue = q; callers = update s.callers i (inside p') })
    -- `emplace` returns, and its `lock_guard` goes.
    unlock :
        (i : ℕ)
        → s.callers i ≡ inside Producer.idle
        → Step s silent (record s { producer_lock = none; callers = update s.callers i outside })
    consume :
        {l : Label A} {q : SpscQueue A} {c : Consumer A}
        → Take capacity s.queue s.consumer l q c
        → Step s l (record s { queue = q; consumer = c })

  -- Some steps, the calls that they settle, in that order, and the replies to these.
  pub data Run : System A → List (Op A) → List (Reply A) → System A → Type ℓ where
    here : {s : System A} → Run s [] [] s
    quiet :
        {s t u : System A} {os : List (Op A)} {rs : List (Reply A)}
        → Step s silent t
        → Run t os rs u
        → Run s os rs u
    settle :
        {s t u : System A} {os : List (Op A)} {rs : List (Reply A)} {o : Op A} {r : Reply A}
        → Step s (event o r) t
        → Run t os rs u
        → Run s (o ∷ os) (r ∷ rs) u
