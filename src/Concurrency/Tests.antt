-- ===== src/Concurrency/Tests.antt =====
-- A queue of capacity 2.
use slipstream_volume_aware.Prelude.{ℕ, ◌≡◌, refl, List, [], ◌∷◌, true, false, none, some, arith}
use slipstream_volume_aware.Concurrency.Fifo
use slipstream_volume_aware.Concurrency.Fifo.{Op, put, get, ask_empty, took, gave, is_empty}
use slipstream_volume_aware.Concurrency.Spsc.{init, run, push, pop, empty}
use slipstream_volume_aware.Concurrency.Spsc.Refine.{run_new}

abbrev script : List (Op ℕ)
script = put 7 ∷ put 8 ∷ put 9 ∷ get ∷ put 9 ∷ get ∷ get ∷ get ∷ ask_empty ∷ []

run-script :
    run 2 (init 2 0) script
    ≡ took true
      ∷ took true
      ∷ took false
      ∷ gave (some 7)
      ∷ took true
      ∷ gave (some 8)
      ∷ gave (some 9)
      ∷ gave none
      ∷ is_empty true
      ∷ []
unfolding run init push pop empty
run-script = refl

run_new_example : run 2 (init 2 0) script ≡ Fifo.run 2 [] script
run_new_example = run_new 2 (omega arith) 0 script
