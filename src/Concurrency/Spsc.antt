-- ===== src/Concurrency/Spsc.antt =====
-- src/libs/concurrency/SPSCQueue.hpp, the calls taken one after the other; Concurrency/Threads has the
-- loads and stores of the two threads. `Capacity` is the template's parameter.
use slipstream_volume_aware.Prelude.{
  ℕ, ◌+◌, ◌%◌, ◌^◌, ◌≤◌, ◌<◌, ◌≡◌, List, [], ◌∷◌, length, set, get_elem?, replicate, Bool, true,
  false, ◌==◌, if◌then◌else◌, Option, none, some,
}
use slipstream_volume_aware.Prelude.Words.{add64}
use slipstream_volume_aware.Prelude.Circular.{Holds}
use slipstream_volume_aware.Concurrency.Fifo.{Op, put, get, ask_empty, Reply, took, gave, is_empty}
pub mod Refine

pub record SpscQueue {ℓ} (A : Type ℓ) : Type ℓ where
  pub buffer : List A
  pub head : ℕ
  pub tail : ℕ

-- `SlotCount`.
abbrev pub slot_count : ℕ → ℕ
slot_count capacity = capacity + 1

unfoldable pub next : ℕ → ℕ → ℕ
next capacity index = add64 index 1 % slot_count capacity

module _ {ℓ} {A : Type ℓ} where
  -- A new queue: `buffer{}` holds `slot_count` default values.
  unfoldable pub init : ℕ → A → SpscQueue A
  init capacity default = record {
    buffer = replicate (slot_count capacity) default;
    head = 0;
    tail = 0;
  }

  unfoldable pub emplace : ℕ → SpscQueue A → A → Bool × SpscQueue A
  unfolding next
  emplace capacity q v =
      let next_head = next capacity q.head in
      if next_head == q.tail
      then (false, q)
      else (true, record q { buffer = set q.buffer q.head v; head = next_head })

  -- Both overloads of `push`, which differ only in whether the argument is copied or moved.
  unfoldable pub push : ℕ → SpscQueue A → A → Bool × SpscQueue A
  unfolding emplace
  push = emplace

  -- A read outside the array would give `none`; the tail never leaves it.
  unfoldable pub pop : ℕ → SpscQueue A → Option A × SpscQueue A
  unfolding next
  pop capacity q =
      if q.tail == q.head
      then (none, q)
      else (get_elem? q.buffer q.tail, record q { tail = next capacity q.tail })

  unfoldable pub empty : SpscQueue A → Bool
  empty q = q.tail == q.head

  -- A client's calls in order, with what each returns.
  unfoldable pub run : ℕ → SpscQueue A → List (Op A) → List (Reply A)
  run capacity q [] = []
  run capacity q (put v ∷ ops) = let (b, q') = push capacity q v in took b ∷ run capacity q' ops
  run capacity q (get ∷ ops) = let (o, q') = pop capacity q in gave o ∷ run capacity q' ops
  run capacity q (ask_empty ∷ ops) = is_empty (empty q) ∷ run capacity q ops

  -- The queue holds `xs`, oldest first, in the slots from the tail up to the head.
  pub record Represents (capacity : ℕ) (q : SpscQueue A) (xs : List A) : Type ℓ where
    pub slots : length q.buffer ≡ slot_count capacity
    pub fits : length xs ≤ capacity
    pub tail_in : q.tail < slot_count capacity
    pub head_at : q.head ≡ (q.tail + length xs) % slot_count capacity
    pub holds : Holds (slot_count capacity) q.buffer q.tail xs
