-- ===== src/Concurrency/Threads/Tests.antt =====
-- A push that is done, and another under way while the consumer is about to read.
use slipstream_volume_aware.Prelude.{
  ℕ, ◌≡◌, ◌≢◌, ◌<◌, ◌≤◌, ◌⊎◌, refl, List, [], ◌∷◌, length, get_elem?, true, some, arith,
}
use slipstream_volume_aware.Concurrency.Fifo
use slipstream_volume_aware.Concurrency.Fifo.{Op, Reply, put, took}
use slipstream_volume_aware.Concurrency.Spsc
use slipstream_volume_aware.Concurrency.Spsc.{next}
use slipstream_volume_aware.Concurrency.Threads.{
  Producer, Consumer, System, Run, here, quiet, settle, call, produce, consume, start, load_head,
  not_full, write, store_head, load_tail, something, move,
}
use slipstream_volume_aware.Concurrency.Threads.Linear.{Run-linear, Run-no_race}
use slipstream_volume_aware.Concurrency.Threads.Progress.{
  CanPush, CanPop, at_push, own_push, beside_push, at_pop, own_pop, beside_pop, Run-wait_free,
}

abbrev busy : System ℕ
busy = record {
  queue = record { buffer = 7 ∷ 0 ∷ 0 ∷ []; head = 1; tail = 0 };
  producer = Producer.free_slot 8 1;
  consumer = Consumer.filled_slot 0;
}

Run-busy : Run 2 (start 2 0) (put 7 ∷ []) (took true ∷ []) busy
unfolding start Spsc.init next
Run-busy = quiet (call 7 refl) (
    quiet (produce load_head) (
      quiet (produce (not_full (omega arith))) (
        quiet (consume load_tail) (
          quiet (produce write) (
            settle (produce store_head) (
              quiet (call 8 refl) (
                quiet (produce load_head) (
                  quiet (consume (something (omega arith)))
                    (quiet (produce (not_full (omega arith))) here)))))))))

Run-linear_example : ◌≡◌ {A = List (Reply ℕ)} (took true ∷ []) (Fifo.run 2 [] (put 7 ∷ []))
Run-linear_example = Run-linear 2 (omega arith) 0 (put 7 ∷ []) (took true ∷ []) Run-busy

Run-no_race_example :
    (◌≢◌ {A = ℕ} 1 0)
    × (1 < length busy.queue.buffer)
    × (0 < length busy.queue.buffer)
    × (w : ℕ) × (get_elem? busy.queue.buffer 0 ≡ some w)
Run-no_race_example =
    Run-no_race 2 (omega arith) 0 busy (put 7 ∷ []) (took true ∷ []) 8 1 0 Run-busy refl refl

-- The push writes its slot while the pop moves its value out.
abbrev pushed : System ℕ
pushed = record {
  queue = record { buffer = 7 ∷ 8 ∷ 0 ∷ []; head = 1; tail = 0 };
  producer = Producer.wrote 8 1;
  consumer = Consumer.read 0 7;
}

Run-wait_free_example :
    ((1 ≤ 4)
      × ((pushed.producer ≡ Producer.idle) ⊎ ((1 < 4) × CanPush 2 pushed.queue pushed.producer)))
    × ((1 ≤ 3)
        × ((pushed.consumer ≡ Consumer.idle) ⊎ ((1 < 3) × CanPop 2 pushed.queue pushed.consumer)))
Run-wait_free_example =
    Run-wait_free 2 0 busy pushed pushed 1 1 (put 7 ∷ []) (took true ∷ []) (omega arith) Run-busy
      (beside_push (own_push at_push write) (move refl))
      (own_pop (beside_pop at_pop write) (λ e. grind arith) (move refl))
