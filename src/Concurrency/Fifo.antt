-- ===== src/Concurrency/Fifo.antt =====
-- What a bounded queue promises: a list of at most `capacity` values, oldest first.
use slipstream_volume_aware.Prelude.{
  ℕ, List, [], ◌∷◌, ◌++◌, length, Bool, true, false, ltb, if◌then◌else◌, Option, none, some,
}

-- What a client asks of a queue, and what it is told.
pub data Op {ℓ} (A : Type ℓ) : Type ℓ where
  put : A → Op A
  get : Op A
  ask_empty : Op A

pub data Reply {ℓ} (A : Type ℓ) : Type ℓ where
  took : Bool → Reply A
  gave : Option A → Reply A
  is_empty : Bool → Reply A

module _ {ℓ} {A : Type ℓ} where
  unfoldable pub push : ℕ → List A → A → Bool × List A
  push capacity xs v = if ltb (length xs) capacity then (true, xs ++ (v ∷ [])) else (false, xs)

  unfoldable pub pop : List A → Option A × List A
  pop [] = (none, [])
  pop (x ∷ xs) = (some x, xs)

  unfoldable pub empty : List A → Bool
  empty [] = true
  empty (x ∷ xs) = false

  unfoldable pub run : ℕ → List A → List (Op A) → List (Reply A)
  run capacity xs [] = []
  run capacity xs (put v ∷ ops) = let (b, ys) = push capacity xs v in took b ∷ run capacity ys ops
  run capacity xs (get ∷ ops) = let (o, ys) = pop xs in gave o ∷ run capacity ys ops
  run capacity xs (ask_empty ∷ ops) = is_empty (empty xs) ∷ run capacity xs ops
