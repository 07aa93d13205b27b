-- ===== src/Program/Report.antt =====
-- src/slipstream/main.cpp with engine/ExecutionReportService.cpp: what main prints at the end, by the
-- messages that came and the orders that were sent.
use slipstream_volume_aware.Prelude.{
  ℕ, ◌+◌, ◌^◌, ◌≤◌, ◌<◌, ◌≡◌, ◌⊎◌, inl, inr, refl, sym, ap, ◌∙◌, List, [], ◌∷◌, ◌++◌, take, none,
  some, arith, Option,
}
use mathlib.Core.Path.{subst}
use slipstream_volume_aware.Prelude.Words.{add64}
use slipstream_volume_aware.Prelude.Outcome.{ok}
use slipstream_volume_aware.Codec.Gcmd.{Quote, Trade, MdMessage}
use slipstream_volume_aware.Codec.Oe.{NewOrder, OrderStatus, accepted, rejected}
use slipstream_volume_aware.Vwap.{VwapService}
use slipstream_volume_aware.Engine
use slipstream_volume_aware.Engine.{
  ExecutionEngine, Readings, order, side_of, handle_trade, on_quote_received,
}
use slipstream_volume_aware.Engine.Report.{
  Doubles, text, characters, number, real, end_line, report_init, get_executed_quantity,
  get_cumulative_executed_quantity, print_execution_report, take_twice,
}
use slipstream_volume_aware.Dispatch.{
  Services, set_quote, send_if, on_quote, on_trade, master_on_message, run,
}
use slipstream_volume_aware.Dispatch.Average.{run-rest}
use slipstream_volume_aware.Dispatch.Counts.{handlers, handle_trade-ok}
use slipstream_volume_aware.Program.{Options, new_services, volume}
use slipstream_volume_aware.Program.Decision.{engine_after}
mod Tests

-- The sum of the quantities of the accepted orders among some.
abbrev counted : OrderStatus → ℕ → ℕ
counted accepted n = n
counted rejected n = 0

abbrev pub accepted_sum : List NewOrder → ℕ
accepted_sum [] = 0
accepted_sum (o ∷ os) = counted o.status o.qty + accepted_sum os

accepted_sum-append :
    (os : List NewOrder) (o : NewOrder)
    → accepted_sum (os ++ (o ∷ [])) ≡ accepted_sum os + counted o.status o.qty
accepted_sum-append [] o = omega arith
accepted_sum-append (p ∷ os) o = omega (arith, accepted_sum-append os o)

-- The executed quantity grows with an accepted order and with nothing else.
handle_trade-executed :
    (e : ExecutionEngine) (v : VwapService) (now : Readings) (t : Trade)
    → let (o, e', v') = handle_trade e v now t in
      ((e'.traded_quantity ≡ e.traded_quantity)
        × ((o ≡ none) ⊎ (o ≡ some (order e rejected (side_of t.aggressor) now.steady_ns t))))
      ⊎ ((e'.traded_quantity ≡ add64 e.traded_quantity t.quantity)
          × (o ≡ some (order e accepted (side_of t.aggressor) now.steady_ns t)))
unfolding handle_trade
handle_trade-executed e v now t = ground arith

on_quote_received-executed :
    (e : ExecutionEngine) (now : ℕ) → (on_quote_received e now).traded_quantity ≡ e.traded_quantity
unfolding on_quote_received
on_quote_received-executed e now = ground arith

-- The engine has executed what was accepted.
abbrev IsCounted : Services → Type 0
IsCounted s = s.engine.traded_quantity ≡ accepted_sum s.sent

trade-IsCounted :
    (s : Services) (now : Readings) (t : Trade)
    → IsCounted s
    → s.engine.traded_quantity + t.quantity < 2 ^ 64
    → (s' : Services) × (master_on_message handlers s now (MdMessage.trade t) ≡ ok s')
      × IsCounted s'
      × (s'.engine.traded_quantity ≤ s.engine.traded_quantity + t.quantity)
unfolding master_on_message on_trade
trade-IsCounted s now t i small =
    let (v, e) = handle_trade-ok s.vwap t in
    let (o, e', v') = handle_trade s.engine v now t in
    let s1 = record s { engine = e'; vwap = v'; sent = send_if o s.sent } in
    let sums = λ (status : OrderStatus).
      accepted_sum-append s.sent (order s.engine status (side_of t.aggressor) now.steady_ns t) in
    let sent = λ (x : Option NewOrder) (a : o ≡ x). ap (λ y. accepted_sum (send_if y s.sent)) a in
    let (counts, most) : IsCounted s1
        × (e'.traded_quantity ≤ s.engine.traded_quantity + t.quantity) =
      elim (handle_trade-executed s.engine v now t) [
        | inl (same, inl a) ↦ (same ∙ i ∙ sym (sent none a), omega (arith, same))
        | inl (same, inr a) ↦ (omega (arith, same, i, sent _ a, sums rejected), omega (arith, same))
        | inr (more, a) ↦
            (omega (arith, more, i, sent _ a, sums accepted, small), omega (arith, more, small))
      ] in
    (s1, rw e refl, counts, most)

run-IsCounted :
    (n : ℕ) (s s' : Services) (is : List (Readings × MdMessage))
    → IsCounted s
    → s.engine.traded_quantity ≤ n
    → n + volume is < 2 ^ 64
    → run handlers s is ≡ ok s'
    → IsCounted s'
unfolding run master_on_message on_quote
run-IsCounted n s s' [] i most small e = let same : s ≡ s' = cc e in subst IsCounted same i
run-IsCounted n s s' ((now, MdMessage.trade t) ∷ is) i most small e =
    let (s1, runs, counts, more) = trade-IsCounted s now t i (omega (arith, most, small)) in
    run-IsCounted (n + t.quantity) s1 s' is counts (omega (arith, more, most))
      (omega (arith, small)) (run-rest s s1 s' now (MdMessage.trade t) is runs e)
run-IsCounted n s s' ((now, MdMessage.quote q) ∷ is) i most small e =
    let same = on_quote_received-executed s.engine now.steady_ms in
    run-IsCounted n
      (record s { book = set_quote s.book q; engine = on_quote_received s.engine now.steady_ms }) s'
      is (same ∙ i) (omega (arith, same, most)) small e
run-IsCounted n s s' ((now, MdMessage.heartbeat x) ∷ is) i most small e =
    run-IsCounted n s s' is i most small e
run-IsCounted n s s' ((now, MdMessage.session_control c) ∷ is) i most small e =
    run-IsCounted n s s' is i most small e

-- After main's handlers have taken any messages whose trades sum up to less than 2^64, the report gives
-- the first 12 characters of the symbol, the sum of all these trades as the market's quantity, and as
-- the executed quantity the sum over the accepted orders that were sent, with the percentage that the
-- second number is of the first; and it is not above the first.
pub print_execution_report-run {ℓ} :
    {R : Type ℓ} (d : Doubles R) (symbol : List ℕ) (cap0 : ℕ) (o : Options) (any_quote : Quote)
    (any_trade : Trade) (any_time : ℕ) (is : List (Readings × MdMessage)) (s : Services)
    → run handlers (new_services o any_quote any_trade any_time) is ≡ ok s
    → volume is < 2 ^ 64
    → let market = volume is in
      let exec = accepted_sum s.sent in
      (exec ≤ market)
      × (print_execution_report d (report_init symbol cap0 s.engine)
          ≡ text "=== SLIPSTREAM EXECUTION REPORT ==="
            ∷ end_line
            ∷ text "symbol              "
            ∷ characters (take 12 symbol)
            ∷ end_line
            ∷ text "market qty          "
            ∷ number market
            ∷ end_line
            ∷ text "executed qty        "
            ∷ number exec
            ∷ text "   ("
            ∷ real (d.over (d.times (d.of_uint64 exec) d.hundred) (d.of_uint64 market))
            ∷ text "%)"
            ∷ end_line
            ∷ [])
unfolding print_execution_report report_init get_executed_quantity get_cumulative_executed_quantity
    Engine.init
print_execution_report-run d symbol cap0 o any_quote any_trade any_time is s runs small =
    let after = engine_after o any_quote any_trade any_time is s runs small in
    let counts =
      run-IsCounted 0 (new_services o any_quote any_trade any_time) s is refl (omega arith)
        (omega (arith, small)) runs in
    (omega (arith, after.1, counts), simp (after.0, counts, take_twice 12 symbol))
