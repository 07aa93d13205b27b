-- ===== src/Replay/Pace.antt =====
-- The replay of a whole file, for any kind of row.
use slipstream_volume_aware.Prelude.{
  ℕ, zero, suc, ◌+◌, ◌^◌, ◌≤◌, ◌<◌, ◌≡◌, sym, ap, ◌∙◌, List, [], ◌∷◌, ◌++◌, length, true, false,
  some, arith, append_assoc, append-nil,
}
use mathlib.Core.Path.{subst}
use slipstream_volume_aware.Prelude.Words.{add64, sub64}
use slipstream_volume_aware.Prelude.Outcome.{Outcome, ok, err, out_of_range}
use slipstream_volume_aware.Codec.Gcmd.{MdMessage}
use slipstream_volume_aware.Csv.{CsvParser}
use slipstream_volume_aware.Replay.{
  Environment, Client, Handed, Turn, get_now, caught, after_send, after_wait, after_read, turn,
  run_loop, after_first, after_first_send, run,
}
use slipstream_volume_aware.Replay.Waiting.{Shows, SentOne, Ready, Beats, wait-Beaten}

module _ {ℓ} {R : Type ℓ} where
  -- The rows that a parser gives until it comes to the end of its file, each of which `Fits`.
  pub data Yields (read : CsvParser → Outcome R × CsvParser) (Fits : R → Type 0)
      : CsvParser → List R → Type ℓ where
    at_end : {p : CsvParser} → p.reached_end ≡ true → Yields read Fits p []
    no_more :
        {p p' : CsvParser}
        → p.reached_end ≡ false
        → read p ≡ (err out_of_range, p')
        → Yields read Fits p []
    row :
        {p p' : CsvParser} {rs : List R} (r : R)
        → p.reached_end ≡ false
        → read p ≡ (ok r, p')
        → Fits r
        → Yields read Fits p' rs
        → Yields read Fits p (r ∷ rs)

  -- The rows in their order, each in a frame that a reader takes for its message, none before its
  -- time on a clock at which the file begins at `start`, with only heartbeats in between.
  pub data Replayed (timestamp : R → ℕ) (message : R → ℕ → MdMessage) (start : ℕ)
      : List R → List Handed → Type ℓ where
    finished : Replayed timestamp message start [] []
    row :
        {rs : List R} {gs hs : List Handed} (r : R) (h : Handed) (now : ℕ)
        → Beats gs
        → Shows (message r now) h
        → add64 start (timestamp r) ≤ h.at_ms
        → Replayed timestamp message start rs hs
        → Replayed timestamp message start (r ∷ rs) (gs ++ (h ∷ hs))

module _ {ℓ} {R : Type ℓ} (read : CsvParser → Outcome R × CsvParser) (timestamp : R → ℕ)
    (send : Environment → Client → R → Outcome (Unit {0}) × Client) (env : Environment)
    (ready : Ready env) (message : R → ℕ → MdMessage) (Fits : R → Type 0) (room : ℕ)
    (roomy : 12 ≤ room)
    (send_lem : (c : Client) (r : R)
      → room ≤ length c.buffer
      → Fits r
      → (c' : Client) × (now : ℕ) × (send env c r ≡ (ok tt, c'))
        × SentOne (message r now) c c') where
  -- A round that reads a row sends it, when its time has come.
  turn-row :
      (wait_fuel start : ℕ) (c : Client) (p' : CsvParser) (r : R)
      → 2 ^ 64 ≤ wait_fuel
      → room ≤ length c.buffer
      → read c.parser ≡ (ok r, p')
      → Fits r
      → (c' : Client) × (gs : List Handed) × (h : Handed) × (now : ℕ) × (turn read timestamp send
            env wait_fuel start c
          ≡ Turn.next c')
        × Beats gs
        × Shows (message r now) h
        × (add64 start (timestamp r) ≤ h.at_ms)
        × (c'.handed ≡ c.handed ++ (gs ++ (h ∷ [])))
        × (c'.parser ≡ p')
        × (length c'.buffer ≡ length c.buffer)
  unfolding turn after_read after_wait after_send
  turn-row wait_fuel start c p' r long space e fits =
      let c1 = record c { parser = p' } in
      let (c2, waits, b, late) =
        wait-Beaten env ready wait_fuel (add64 start (timestamp r)) c1 (omega (arith, roomy, space))
          (omega (arith, long)) in
      let (c', now, sends, one) = send_lem c2 r (omega (arith, space, b.same.room)) fits in
      (
        c',
        b.beats,
        one.one,
        now,
        simp (e, waits, sends),
        b.all_beats,
        one.shows,
        omega (arith, late, one.at_time),
        one.handed
            ∙ ap (λ l. l ++ (one.one ∷ [])) b.handed
            ∙ append_assoc c.handed b.beats (one.one ∷ []),
        one.same.parser ∙ b.same.parser,
        one.same.room ∙ b.same.room,
      )

  turn-end :
      (wait_fuel start : ℕ) (c : Client) (p' : CsvParser)
      → read c.parser ≡ (err out_of_range, p')
      → turn read timestamp send env wait_fuel start c
        ≡ Turn.stop (ok tt) (record c { parser = p' })
  unfolding turn after_read caught
  turn-end wait_fuel start c p' e = simp e

  loop-stop :
      (fuel wait_fuel start : ℕ) (c : Client) (r : Outcome (Unit {0})) (c' : Client)
      → c.parser.reached_end ≡ false
      → turn read timestamp send env wait_fuel start c ≡ Turn.stop r c'
      → run_loop read timestamp send env (suc fuel) wait_fuel start c ≡ some (r, c')
  unfolding run_loop
  loop-stop fuel wait_fuel start c r c' e t = cc (e, t)

  loop-next :
      (fuel wait_fuel start : ℕ) (c c' : Client)
      → c.parser.reached_end ≡ false
      → turn read timestamp send env wait_fuel start c ≡ Turn.next c'
      → run_loop read timestamp send env (suc fuel) wait_fuel start c
        ≡ run_loop read timestamp send env fuel wait_fuel start c'
  unfolding run_loop
  loop-next fuel wait_fuel start c c' e t = cc (e, t)

  run-first :
      (fuel wait_fuel : ℕ) (c c' : Client) (p' : CsvParser) (r : R)
      → read c.parser ≡ (ok r, p')
      → let t = c.steady + env.lag c.readings in
        send env (record c { parser = p'; steady = t; readings = c.readings + 1 }) r ≡ (ok tt, c')
        → run read timestamp send env fuel wait_fuel c
          ≡ run_loop read timestamp send env fuel wait_fuel
              (sub64 (c.steady + env.lag c.readings) (timestamp r))
              c'
  unfolding run after_first after_first_send get_now
  run-first fuel wait_fuel c c' p' r e s = simp (e, s)

  run_loop-Replayed :
      (fuel wait_fuel start : ℕ) (c : Client) (rs : List R)
      → length rs < fuel
      → 2 ^ 64 ≤ wait_fuel
      → room ≤ length c.buffer
      → Yields read Fits c.parser rs
      → (c' : Client) × (hs : List Handed) × (run_loop read timestamp send env fuel wait_fuel start
            c
          ≡ some (ok tt, c'))
        × (c'.handed ≡ c.handed ++ hs)
        × Replayed timestamp message start rs hs
  unfolding run_loop
  run_loop-Replayed zero wait_fuel start c rs h long space y = absurd (omega arith)
  run_loop-Replayed (suc fuel) wait_fuel start c [] h long space (at_end e) =
      (c, [], cc e, sym (append-nil c.handed), finished)
  run_loop-Replayed (suc fuel) wait_fuel start c [] h long space (no_more {p' = p'} e f) = (
    record c { parser = p' },
    [],
    loop-stop fuel wait_fuel start c (ok tt) (record c { parser = p' }) e
        (turn-end wait_fuel start c p' f),
    sym (append-nil c.handed),
    finished,
  )
  run_loop-Replayed (suc fuel) wait_fuel start c (_ ∷ rs) h long space
        (row {p' = p'} r e f fits y) =
      let (c1, gs, one, now, turns, beats, shows, late, handed, parsed, same) =
        turn-row wait_fuel start c p' r long space f fits in
      let (c', hs, runs, rest, replayed) =
        run_loop-Replayed fuel wait_fuel start c1 rs (omega (arith, h)) long
          (omega (arith, same, space)) (subst (λ p. Yields read Fits p rs) (sym parsed) y) in
      (
        c',
        gs ++ (one ∷ hs),
        loop-next fuel wait_fuel start c c1 e turns ∙ runs,
        rest
            ∙ ap (λ l. l ++ hs) handed
            ∙ append_assoc c.handed (gs ++ (one ∷ [])) hs
            ∙ ap (λ l. c.handed ++ l) (append_assoc gs (one ∷ []) hs),
        row r one now beats shows late replayed,
      )

  -- The whole of `run`.
  pub run-Replayed :
      (fuel wait_fuel : ℕ) (c : Client) (r : R) (rs : List R)
      → length rs < fuel
      → 2 ^ 64 ≤ wait_fuel
      → room ≤ length c.buffer
      → c.handed ≡ []
      → Yields read Fits c.parser (r ∷ rs)
      → (c' : Client) × (h : Handed) × (hs : List Handed) × (now : ℕ) × (run read timestamp send env
            fuel wait_fuel c
          ≡ some (ok tt, c'))
        × (c'.handed ≡ h ∷ hs)
        × Shows (message r now) h
        × Replayed timestamp message (sub64 h.at_ms (timestamp r)) rs hs
  unfolding run after_first get_now
  run-Replayed fuel wait_fuel c _ rs h long space fresh (row {p' = p'} r e f fits y) =
      let t = c.steady + env.lag c.readings in
      let c1 = record c { parser = p'; steady = t; readings = c.readings + 1 } in
      let (c2, now, sends, one) = send_lem c1 r space fits in
      let (c', hs, runs, rest, replayed) =
        run_loop-Replayed fuel wait_fuel (sub64 t (timestamp r)) c2 rs h long
          (omega (arith, one.same.room, space))
          (subst (λ p. Yields read Fits p rs) (sym one.same.parser) y) in
      (
        c',
        one.one,
        hs,
        now,
        run-first fuel wait_fuel c c2 p' r f sends ∙ runs,
        rest ∙ ap (λ l. l ++ hs) (one.handed ∙ ap (λ l. l ++ (one.one ∷ [])) fresh),
        one.shows,
        subst (λ a. Replayed timestamp message (sub64 a (timestamp r)) rs hs) (sym one.at_time)
            replayed,
      )
