-- ===== src/Concurrency/Mpsc/Tests.antt =====
-- Two producers, one after the other behind the lock.
use slipstream_volume_aware.Prelude.{ℕ, ◌≡◌, ◌⊎◌, refl, List, [], ◌∷◌, true, some, arith}
use slipstream_volume_aware.Concurrency.Fifo
use slipstream_volume_aware.Concurrency.Fifo.{Op, Reply, put, took}
use slipstream_volume_aware.Concurrency.Spsc
use slipstream_volume_aware.Concurrency.Spsc.{next}
use slipstream_volume_aware.Concurrency.Threads.{
  Producer, Consumer, load_head, not_full, write, store_head,
}
use slipstream_volume_aware.Concurrency.Mpsc.{
  outside, inside, update, System, Run, here, quiet, settle, lock, produce, unlock, start,
}
use slipstream_volume_aware.Concurrency.Mpsc.Linear.{Run-mpsc_linear}

-- Producer 4 has pushed 7, and producer 9 has the lock.
abbrev handed_over : System ℕ
handed_over = record {
  queue = record { buffer = 7 ∷ 0 ∷ 0 ∷ []; head = 1; tail = 0 };
  producer_lock = some 9;
  callers =
      update
        (update
          (update
            (update
              (update
                (update (update (λ i. outside) 4 (inside (Producer.calling 7))) 4
                  (inside (Producer.loaded_head 7 0)))
                4 (inside (Producer.free_slot 7 0)))
              4 (inside (Producer.wrote 7 0)))
            4 (inside Producer.idle))
          4 outside)
        9 (inside (Producer.calling 8));
  consumer = Consumer.idle;
}

Run-handed_over : Run 2 10 (start 2 10 0) (put 7 ∷ []) (took true ∷ []) handed_over
unfolding start Spsc.init next
Run-handed_over = quiet (lock 4 7 (omega arith) refl refl) (
    quiet (produce 4 refl load_head) (
      quiet (produce 4 refl (not_full (omega arith))) (
        quiet (produce 4 refl write) (
          settle (produce 4 refl store_head)
            (quiet (unlock 4 refl) (quiet (lock 9 8 (omega arith) refl refl) here))))))

Run-mpsc_linear_example :
    (◌≡◌ {A = List (Reply ℕ)} (took true ∷ []) (Fifo.run 2 [] (put 7 ∷ [])))
    × ((i j : ℕ) → (handed_over.callers i ≡ outside) ⊎ (handed_over.callers j ≡ outside) ⊎ (i ≡ j))
Run-mpsc_linear_example =
    Run-mpsc_linear 2 10 (omega arith) 0 handed_over (put 7 ∷ []) (took true ∷ []) Run-handed_over
