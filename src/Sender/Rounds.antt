-- ===== src/Sender/Rounds.antt =====
-- Rounds of `OrderMessageSender::run` in which all that is pushed goes out.
use slipstream_volume_aware.Prelude.{
  ◌≤◌, ◌≡◌, refl, sym, ap, ◌∙◌, List, [], ◌∷◌, ◌++◌, All, All-split, length, take, drop,
  length-drop, append-nil, append_assoc, arith,
}
use mathlib.Core.Path.{subst}
use slipstream_volume_aware.Sender.{Message, Round}
use slipstream_volume_aware.Sender.Frames.{IsMessage}
use slipstream_volume_aware.Sender.Served.{Works, Serves, over, idle, serve, all_pushes}

abbrev pub Quiet : Round → Type 0
Quiet i = i.pushes ≡ []

-- In each round there is room in the queue for what is pushed; each takes one message out.
abbrev pub Roomy : List Message → List Round → Type 0
Roomy ms [] = Unit
Roomy ms (i ∷ is) = (length (ms ++ i.pushes) ≤ 1024) × Roomy (drop 1 (ms ++ i.pushes)) is

-- A round that works serves the first message in the queue, if there is one.
round-Serves :
    {out left : List Message} {is : List Round} (ms : List Message) (i : Round) (ns : List Message)
    → Works i
    → ms ++ i.pushes ≡ ns
    → length ns ≤ 1024
    → All IsMessage ns
    → Serves (drop 1 ns) is out left
    → Serves ms (i ∷ is) (take 1 ns ++ out) left
round-Serves [] i [] w e fits h v = idle w e v
round-Serves (m ∷ ms) i [] w e fits h v = absurd (cc e)
round-Serves ms i (n ∷ ns) w e fits (p, h) v = serve n w e (omega (arith, fits, ap length e)) p v

quiet-Serves :
    (ms : List Message) (js : List Round)
    → All Works js
    → All Quiet js
    → length ms ≤ length js
    → length ms ≤ 1024
    → All IsMessage ms
    → Serves ms js ms []
quiet-Serves [] [] w q enough fits h = over
quiet-Serves (m ∷ ms) [] w q enough fits h = absurd (omega (arith, enough))
quiet-Serves [] (j ∷ js) (w, ws) (q, qs) enough fits h =
    round-Serves [] j [] w q fits h (quiet-Serves [] js ws qs (omega arith) (omega arith) tt)
quiet-Serves (m ∷ ms) (j ∷ js) (w, ws) (q, qs) enough fits h =
    round-Serves (m ∷ ms) j (m ∷ ms) w (ap (λ l. m ∷ (ms ++ l)) q ∙ append-nil (m ∷ ms)) fits h
      (quiet-Serves ms js ws qs (omega (arith, enough)) (omega (arith, fits)) h.1)

-- The first message of some, and the others with those behind them.
first_out : (ns rest : List Message) → take 1 ns ++ (drop 1 ns ++ rest) ≡ ns ++ rest
first_out [] rest = refl
first_out (n ∷ ns) rest = refl

others-IsMessage :
    (ns rest : List Message) → All IsMessage (ns ++ rest) → All IsMessage (drop 1 ns ++ rest)
others-IsMessage [] rest h = h
others-IsMessage (n ∷ ns) rest (p, h) = h

fewer : (ns rest : List Message) → length (drop 1 ns ++ rest) ≤ length (ns ++ rest)
fewer [] rest = omega arith
fewer (n ∷ ns) rest = omega arith

-- Rounds with room for what is pushed, and then as many quiet ones as there are messages, serve all
-- messages in order.
pub all-Serves :
    (ms : List Message) (is js : List Round)
    → All Works is
    → All Works js
    → All Quiet js
    → Roomy ms is
    → length ms ≤ 1024
    → length (ms ++ all_pushes is) ≤ length js
    → All IsMessage (ms ++ all_pushes is)
    → Serves ms (is ++ js) (ms ++ all_pushes is) []
all-Serves ms [] js u w q room fits enough h =
    let nil = append-nil ms in
    subst (λ l. Serves ms js l []) (sym nil)
      (quiet-Serves ms js w q (omega (arith, enough, ap length nil)) fits
        (subst (All IsMessage) nil h))
all-Serves ms (i ∷ is) js (u, us) w q (room, rooms) fits enough h =
    let ns = ms ++ i.pushes in
    let rest = all_pushes is in
    let whole = append_assoc ms i.pushes rest in
    let h' = subst (All IsMessage) (sym whole) h in
    subst (λ l. Serves ms (i ∷ (is ++ js)) l []) (first_out ns rest ∙ whole)
      (round-Serves ms i ns u refl room (All-split IsMessage ns rest h').0 (
        all-Serves (drop 1 ns) is js us w q rooms (omega (arith, room, length-drop 1 ns))
          (omega (arith, enough, fewer ns rest, ap length whole)) (others-IsMessage ns rest h')))
