-- ===== src/Program.antt =====
-- src/slipstream/main.cpp: the services that main makes of its options, and what every sequence of
-- messages does to them. The two options that are fractions come in as main passes them on, times
-- 10000 and 100 and cut to whole numbers.
use slipstream_volume_aware.Prelude.{
  ℕ, ◌+◌, ◌^◌, ◌≤◌, ◌<◌, ◌≡◌, refl, sym, ap, ◌∙◌, List, [], ◌∷◌, length, true, false, not,
  if◌then◌else◌, inl, inr, Bool-cases, ◌==◌, arith,
}
use mathlib.Core.Path.{subst}
use Prim.Native.String.{String}
use slipstream_volume_aware.Prelude.Outcome.{Outcome, ok, ◌>>=◌}
use slipstream_volume_aware.Codec.Gcmd.{Quote, Trade, MdMessage}
use slipstream_volume_aware.Vwap
use slipstream_volume_aware.Vwap.{VwapService}
use slipstream_volume_aware.Engine
use slipstream_volume_aware.Engine.{ExecutionEngine, Readings, on_quote_received}
use slipstream_volume_aware.Engine.Limits.{
  Session, begin, quote, trade, halt, resume, Any, NoSell, Session-within, Session-observed,
}
use slipstream_volume_aware.Dispatch
use slipstream_volume_aware.Dispatch.{
  Services, on_quote, on_trade, set_quote, send_if, master_on_message, run,
}
use slipstream_volume_aware.Dispatch.Counts.{handlers, handle_trade-ok, run-one_more}
pub mod Unsided
pub mod Ending
pub mod Listening
pub mod Decision
pub mod Report
mod Tests

pub record Options : Type 0 where
  pub symbol : List ℕ
  pub max_quantity : ℕ
  pub participation_cap : ℕ
  pub vwap_window_ms : ℕ
  pub band_bps : ℕ

-- `any_quote`, `any_trade` and `any_time` stand for what main's objects leave indeterminate.
unfoldable pub start :
    Options → (any_quote : Quote) (any_trade : Trade) (any_time : ℕ) → Outcome Services
start o any_quote any_trade any_time = do
  book ← Dispatch.init o.symbol any_quote
  ok record {
    book = book;
    engine = Engine.init o.max_quantity o.participation_cap o.vwap_window_ms o.band_bps any_time;
    vwap = Vwap.init o.vwap_window_ms any_trade;
    sent = [];
  }

-- The services that `start` makes when it does not throw.
abbrev pub new_services : Options → Quote → Trade → ℕ → Services
new_services o any_quote any_trade any_time = record {
  book = record { symbol = o.symbol; latest_quote = any_quote; quotes_received = 0 };
  engine = Engine.init o.max_quantity o.participation_cap o.vwap_window_ms o.band_bps any_time;
  vwap = Vwap.init o.vwap_window_ms any_trade;
  sent = [];
}

pub start-ok :
    (o : Options) (any_quote : Quote) (any_trade : Trade) (any_time : ℕ)
    → length o.symbol ≡ 12
    → start o any_quote any_trade any_time ≡ ok (new_services o any_quote any_trade any_time)
unfolding start Dispatch.init
start-ok o any_quote any_trade any_time twelve =
    let right : (length o.symbol == 12) ≡ true = ground (arith, twelve) in rw right refl

-- The test that CLI11 makes of `--symbol`; an empty text passes.
unfoldable pub check_symbol : List ℕ → String
check_symbol s = if not (length s == 12) then "must be exactly 12 characters (ISIN)" else ""

-- A symbol that passes it does not make the order book's constructor throw.
pub check_symbol-start :
    (o : Options) (any_quote : Quote) (any_trade : Trade) (any_time : ℕ)
    → check_symbol o.symbol ≡ ""
    → start o any_quote any_trade any_time ≡ ok (new_services o any_quote any_trade any_time)
unfolding check_symbol
check_symbol-start o any_quote any_trade any_time e = elim (Bool-cases (length o.symbol == 12)) [
  | inl y ↦ start-ok o any_quote any_trade any_time (ground (arith, y))
  | inr n ↦ absurd (cc (e, n))
]

-- The quantities of the trades among some messages, and a property of all of them.
abbrev pub volume : List (Readings × MdMessage) → ℕ
volume [] = 0
volume ((now, MdMessage.trade t) ∷ is) = t.quantity + volume is
volume ((now, MdMessage.quote q) ∷ is) = volume is
volume ((now, MdMessage.heartbeat h) ∷ is) = volume is
volume ((now, MdMessage.session_control c) ∷ is) = volume is

abbrev pub AllTrades : (Trade → Type 0) → List (Readings × MdMessage) → Type 0
AllTrades P [] = Unit
AllTrades P ((now, MdMessage.trade t) ∷ is) = P t × AllTrades P is
AllTrades P ((now, MdMessage.quote q) ∷ is) = AllTrades P is
AllTrades P ((now, MdMessage.heartbeat h) ∷ is) = AllTrades P is
AllTrades P ((now, MdMessage.session_control c) ∷ is) = AllTrades P is

pub Session-Any :
    {P : Trade → Type 0} {e f : ExecutionEngine} {n : ℕ} → Session P e n f → Session Any e n f
Session-Any begin = begin
Session-Any (quote now r) = quote now (Session-Any r)
Session-Any (trade s now t p e r) = trade s now t tt e (Session-Any r)
Session-Any (halt r) = halt (Session-Any r)
Session-Any (resume r) = resume (Session-Any r)

trade_step :
    (s : Services) (now : Readings) (t : Trade)
    → (s' : Services) × (v : VwapService) × (master_on_message handlers s now (MdMessage.trade t)
        ≡ ok s')
      × (s'.engine ≡ (Engine.handle_trade s.engine v now t).1)
unfolding master_on_message on_trade
trade_step s now t =
    let (v, e) = handle_trade-ok s.vwap t in
    let (o, e', v') = Engine.handle_trade s.engine v now t in
    (record s { engine = e'; vwap = v'; sent = send_if o s.sent }, v, rw e refl, refl)

-- The handlers take the engine through a session with the trades among the messages.
pub run-Session :
    (P : Trade → Type 0) (e0 : ExecutionEngine) (n : ℕ) (s : Services)
    (is : List (Readings × MdMessage))
    → Session P e0 n s.engine
    → AllTrades P is
    → (s' : Services) × (run handlers s is ≡ ok s') × Session P e0 (n + volume is) s'.engine
unfolding run master_on_message on_quote
run-Session P e0 n s [] r a = (s, refl, subst (λ k. Session P e0 k s.engine) (omega arith) r)
run-Session P e0 n s ((now, MdMessage.trade t) ∷ is) r (p, a) =
    let (s1, v, e1, engine) = trade_step s now t in
    let r1 = subst (Session P e0 (n + t.quantity)) (sym engine) (trade v now t p refl r) in
    let (s', e, r') = run-Session P e0 (n + t.quantity) s1 is r1 a in
    (
      s',
      run-one_more handlers s s1 s' now (MdMessage.trade t) is e1 e,
      subst (λ k. Session P e0 k s'.engine) (omega arith) r',
    )
run-Session P e0 n s ((now, MdMessage.quote q) ∷ is) r a =
    run-Session P e0 n
      (record s { book = set_quote s.book q; engine = on_quote_received s.engine now.steady_ms }) is
      (quote now.steady_ms r) a
run-Session P e0 n s ((now, MdMessage.heartbeat h) ∷ is) r a = run-Session P e0 n s is r a
run-Session P e0 n s ((now, MdMessage.session_control c) ∷ is) r a = run-Session P e0 n s is r a

-- Whatever main is told, with a symbol of 12 characters it makes its services, and no sequence of
-- messages makes their handlers throw. When no trade among the messages was started by a seller and
-- their quantities sum up to less than 2^64, the engine has then observed this sum, and executed no
-- more than it and no more than the maximum that main was given.
pub start-run :
    (o : Options) (any_quote : Quote) (any_trade : Trade) (any_time : ℕ)
    (is : List (Readings × MdMessage))
    → length o.symbol ≡ 12
    → volume is < 2 ^ 64
    → AllTrades NoSell is
    → (s s' : Services) × (start o any_quote any_trade any_time ≡ ok s)
      × (run handlers s is ≡ ok s')
      × (s'.engine.cumulative_traded_quantity ≡ volume is)
      × (s'.engine.traded_quantity ≤ volume is)
      × (s'.engine.traded_quantity ≤ o.max_quantity)
start-run o any_quote any_trade any_time is twelve small a =
    let s0 = new_services o any_quote any_trade any_time in
    let e0 = s0.engine in
    let (s', runs, session) = run-Session NoSell e0 0 s0 is begin a in
    let observed =
      Session-observed o.max_quantity o.participation_cap o.vwap_window_ms o.band_bps any_time
        (0 + volume is) (omega (arith, small)) (Session-Any session) in
    let inside =
      Session-within o.max_quantity o.participation_cap o.vwap_window_ms o.band_bps any_time
        (0 + volume is) session in
    (
      s0,
      s',
      start-ok o any_quote any_trade any_time twelve,
      runs,
      omega (arith, observed.0),
      omega (arith, observed.1),
      inside.0,
    )
