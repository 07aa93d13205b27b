-- ===== src/Concurrency/Threads.antt =====
-- src/libs/concurrency/SPSCQueue.hpp, the two threads interleaved: each load and each store of
-- `emplace`, `pop` and `empty` is one step, and either thread may take the next. The acquire loads
-- and release stores are taken as sequentially consistent; a relaxed load is of the index that only
-- the loading thread stores.
use slipstream_volume_aware.Prelude.{
  ℕ, ◌≡◌, ◌≢◌, List, [], ◌∷◌, set, get_elem?, Bool, true, false, ◌==◌, Option, none, some,
}
use slipstream_volume_aware.Concurrency.Fifo.{Op, put, get, ask_empty, Reply, took, gave, is_empty}
use slipstream_volume_aware.Concurrency.Spsc
use slipstream_volume_aware.Concurrency.Spsc.{SpscQueue, next}
pub mod Invariant
pub mod Linear
pub mod Progress
mod Tests

-- Where the producer stands in `emplace`, with the locals that are live there.
pub data Producer {ℓ} (A : Type ℓ) : Type ℓ where
  idle : Producer A
  calling : (value : A) → Producer A
  loaded_head : (value : A) (current_head : ℕ) → Producer A
  free_slot : (value : A) (current_head : ℕ) → Producer A
  wrote : (value : A) (current_head : ℕ) → Producer A

-- Where the consumer stands in `pop`, or in `empty` (`asking`).
pub data Consumer {ℓ} (A : Type ℓ) : Type ℓ where
  idle : Consumer A
  loaded_tail : (current_tail : ℕ) → Consumer A
  filled_slot : (current_tail : ℕ) → Consumer A
  read : (current_tail : ℕ) (value : A) → Consumer A
  asking : (current_tail : ℕ) → Consumer A

-- A step that settles what a call returns bears that call and its reply.
pub data Label {ℓ} (A : Type ℓ) : Type ℓ where
  silent : Label A
  event : Op A → Reply A → Label A

module _ {ℓ} {A : Type ℓ} (capacity : ℕ) where
  -- The steps of `emplace`.
  pub data Emplace (q : SpscQueue A)
      : Producer A → Label A → SpscQueue A → Producer A → Type ℓ where
    load_head : {v : A} → Emplace q (Producer.calling v) silent q (Producer.loaded_head v q.head)
    full :
        {v : A} {h : ℕ}
        → next capacity h ≡ q.tail
        → Emplace q (Producer.loaded_head v h) (event (put v) (took false)) q Producer.idle
    not_full :
        {v : A} {h : ℕ}
        → next capacity h ≢ q.tail
        → Emplace q (Producer.loaded_head v h) silent q (Producer.free_slot v h)
    write :
        {v : A} {h : ℕ}
        → Emplace q
            (Producer.free_slot v h)
            silent
            (record q { buffer = set q.buffer h v })
            (Producer.wrote v h)
    store_head :
        {v : A} {h : ℕ}
        → Emplace q
            (Producer.wrote v h)
            (event (put v) (took true))
            (record q { head = next capacity h })
            Producer.idle

  -- The steps of `pop` and of `empty`.
  pub data Take (q : SpscQueue A) : Consumer A → Label A → SpscQueue A → Consumer A → Type ℓ where
    load_tail : Take q Consumer.idle silent q (Consumer.loaded_tail q.tail)
    nothing :
        {t : ℕ}
        → t ≡ q.head
        → Take q (Consumer.loaded_tail t) (event get (gave none)) q Consumer.idle
    something :
        {t : ℕ} → t ≢ q.head → Take q (Consumer.loaded_tail t) silent q (Consumer.filled_slot t)
    move :
        {t : ℕ} {v : A}
        → get_elem? q.buffer t ≡ some v
        → Take q (Consumer.filled_slot t) silent q (Consumer.read t v)
    store_tail :
        {t : ℕ} {v : A}
        → Take q
            (Consumer.read t v)
            (event get (gave (some v)))
            (record q { tail = next capacity t })
            Consumer.idle
    ask : Take q Consumer.idle silent q (Consumer.asking q.tail)
    answer :
        {t : ℕ}
        → Take q (Consumer.asking t) (event ask_empty (is_empty (t == q.head))) q Consumer.idle

-- One producer and one consumer.
pub record System {ℓ} (A : Type ℓ) : Type ℓ where
  pub queue : SpscQueue A
  pub producer : Producer A
  pub consumer : Consumer A

module _ {ℓ} {A : Type ℓ} (capacity : ℕ) where
  -- A new queue, and no call under way.
  unfoldable pub start : A → System A
  start default = record {
    queue = Spsc.init capacity default;
    producer = Producer.idle;
    consumer = Consumer.idle;
  }

  pub data Step (s : System A) : Label A → System A → Type ℓ where
    call :
        (v : A)
        → s.producer ≡ Producer.idle
        → Step s silent (record s { producer = Producer.calling v })
    produce :
        {l : Label A} {q : SpscQueue A} {p : Producer A}
        → Emplace capacity s.queue s.producer l q p
        → Step s l (record s { queue = q; producer = p })
    consume :
        {l : Label A} {q : SpscQueue A} {c : Consumer A}
        → Take capacity s.queue s.consumer l q c
        → Step s l (record s { queue = q; consumer = c })

  -- Some steps, the calls that they settle, in that order, and the replies to these.
  pub data Run : System A → List (Op A) → List (Reply A) → System A → Type ℓ where
    here : {s : System A} → Run s [] [] s
    quiet :
        {s t u : System A} {os : List (Op A)} {rs : List (Reply A)}
        → Step s silent t
        → Run t os rs u
        → Run s os rs u
    settle :
        {s t u : System A} {os : List (Op A)} {rs : List (Reply A)} {o : Op A} {r : Reply A}
        → Step s (event o r) t
        → Run t os rs u
        → Run s (o ∷ os) (r ∷ rs) u
