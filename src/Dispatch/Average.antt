-- ===== src/Dispatch/Average.antt =====
-- The average by which the engine decides, after any messages.
use slipstream_volume_aware.Prelude.{
  ℕ, ◌^◌, ◌≤◌, ◌<◌, ◌≡◌, ◌⊎◌, inl, inr, refl, sym, List, [], ◌∷◌, ◌++◌, All-append, append_assoc,
  append-nil, length, arith,
}
use mathlib.Core.Path.{subst}
use slipstream_volume_aware.Prelude.Words.{IsU32}
use slipstream_volume_aware.Prelude.Outcome.{ok}
use slipstream_volume_aware.Codec.Gcmd.{Trade, MdMessage}
use slipstream_volume_aware.Vwap
use slipstream_volume_aware.Vwap.{VwapService, get_vwap, overwrite_oldest}
use slipstream_volume_aware.Vwap.Average.{IsPriced}
use slipstream_volume_aware.Vwap.Freshness.{keep, Timed}
use slipstream_volume_aware.Vwap.Kept.{Kept, handle_trade-Kept, get_vwap-Kept, get_vwap-average}
use slipstream_volume_aware.Vwap.Young.{Timed-later, Timed-snoc}
use slipstream_volume_aware.Vwap.Bag.{of_list, young, average}
use slipstream_volume_aware.Engine.{ExecutionEngine, Readings, on_quote_received, handle_trade}
use slipstream_volume_aware.Dispatch.{
  Services, set_quote, send_if, on_quote, on_trade, master_on_message, run,
}
use slipstream_volume_aware.Dispatch.Counts.{handlers}

-- The trades among some messages.
abbrev pub trades_of : List (Readings × MdMessage) → List Trade
trades_of [] = []
trades_of ((now, MdMessage.trade t) ∷ is) = t ∷ trades_of is
trades_of ((now, MdMessage.quote q) ∷ is) = trades_of is
trades_of ((now, MdMessage.heartbeat h) ∷ is) = trades_of is
trades_of ((now, MdMessage.session_control c) ∷ is) = trades_of is

-- Trades in the order of their times, of positive quantities and prices that are not negative, each
-- handled at its time or later and in the order of the system clock, with a slot left in the ring
-- beside those that are young at its time. `all` came before, the last at `last`.
abbrev pub Paced : ℕ → ℕ → List Trade → List (Readings × MdMessage) → Type 0
Paced window last all [] = Unit
Paced window last all ((now, MdMessage.trade t) ∷ is) =
    (last ≤ now.system_ms)
    × (t.timestamp_ns ≤ now.system_ms)
    × (now.system_ms < 2 ^ 64)
    × Timed t.timestamp_ns all
    × IsU32 t.quantity
    × (0 < t.quantity)
    × (t.price < 2 ^ 63)
    × (length (keep window t.timestamp_ns all) < 1023)
    × Paced window now.system_ms (all ++ (t ∷ [])) is
Paced window last all ((now, MdMessage.quote q) ∷ is) = Paced window last all is
Paced window last all ((now, MdMessage.heartbeat h) ∷ is) = Paced window last all is
Paced window last all ((now, MdMessage.session_control c) ∷ is) = Paced window last all is

-- The engine asks for the average at most once, at its reading of the system clock.
handle_trade-asks :
    (e : ExecutionEngine) (v : VwapService) (now : Readings) (t : Trade)
    → let (o, e', v') = handle_trade e v now t in (v' ≡ v) ⊎ (v' ≡ (get_vwap v now.system_ms).1)
unfolding handle_trade
handle_trade-asks e v now t = ground arith

-- One trade, and what the engine is told while it decides.
pub record Step (window : ℕ) (all : List Trade) (s s' : Services) (now : Readings) (t : Trade)
    : Type 0 where
  pub given : VwapService
  pub takes : Vwap.handle_trade overwrite_oldest s.vwap t ≡ ok given
  pub told :
      IsPriced (all ++ (t ∷ []))
      → (get_vwap given now.system_ms).0
        ≡ average (young window now.system_ms (of_list (all ++ (t ∷ []))))
  pub result :
      let (o, e, v) = handle_trade s.engine given now t in
      s' ≡ record s { engine = e; vwap = v; sent = send_if o s.sent }
  pub kept : Kept window now.system_ms (all ++ (t ∷ [])) s'.vwap

pub trade-Step :
    (window last : ℕ) (all : List Trade) (s : Services) (now : Readings) (t : Trade)
    → Kept window last all s.vwap
    → Paced window last all ((now, MdMessage.trade t) ∷ [])
    → (s' : Services) × (master_on_message handlers s now (MdMessage.trade t) ≡ ok s')
      × Step window all s s' now t
unfolding master_on_message on_trade
trade-Step window last all s now t k (later, from, small, timed, sized, pos, fine, room, rest) =
    let at = now.system_ms in
    let (v, takes, k1) =
      handle_trade-Kept window last at all s.vwap t k later from small timed sized pos room in
    let (o, e, v') = handle_trade s.engine v now t in
    let all' = all ++ (t ∷ []) in
    let timed' : Timed at all' =
      Timed-later t.timestamp_ns at all' from
        (Timed-snoc t.timestamp_ns all t (omega arith) timed) in
    (
      record s { engine = e; vwap = v'; sent = send_if o s.sent },
      rw takes refl,
      record {
        given = v;
        takes = takes;
        told = get_vwap-average window at at all' v k1 (omega arith) small timed';
        result = refl;
        kept = elim (handle_trade-asks s.engine v now t) [
          | inl same ↦ subst (Kept window at all') (sym same) k1
          | inr asked ↦
              subst (Kept window at all') (sym asked)
                (get_vwap-Kept window at at all' v k1 (omega arith) small timed')
        ];
      },
    )

pub run-rest :
    (s s1 s' : Services) (now : Readings) (m : MdMessage) (is : List (Readings × MdMessage))
    → master_on_message handlers s now m ≡ ok s1
    → run handlers s ((now, m) ∷ is) ≡ ok s'
    → run handlers s1 is ≡ ok s'
unfolding run
run-rest s s1 s' now m is e f = cc (e, f)

-- After some messages, what those that follow rely on.
pub record After (window : ℕ) (all : List Trade) (s : Services) (rest : List (Readings × MdMessage))
    : Type 0 where
  pub last : ℕ
  pub kept : Kept window last all s.vwap
  pub paced : Paced window last all rest
  pub prices_in : IsPriced all

pub run-After :
    (window last : ℕ) (all : List Trade) (s s' : Services) (is rest : List (Readings × MdMessage))
    → Kept window last all s.vwap
    → IsPriced all
    → Paced window last all (is ++ rest)
    → run handlers s is ≡ ok s'
    → After window (all ++ trades_of is) s' rest
unfolding run master_on_message on_quote
run-After window last all s s' [] rest k p h e =
    let same : s ≡ s' = cc e in
    subst (λ l. After window l s' rest) (sym (append-nil all))
      (record {
        last = last;
        kept = subst (λ x. Kept window last all x.vwap) same k;
        paced = h;
        prices_in = p;
      })
run-After window last all s s' ((now, MdMessage.trade t) ∷ is) rest k p
      (later, from, small, timed, sized, pos, fine, room, h) e =
    let (s1, runs, step) =
      trade-Step window last all s now t k
        (later, from, small, timed, sized, pos, fine, room, tt) in
    subst (λ l. After window l s' rest) (append_assoc all (t ∷ []) (trades_of is))
      (run-After window now.system_ms (all ++ (t ∷ [])) s1 s' is rest step.kept
        (All-append (λ u. u.price < 2 ^ 63) all (t ∷ []) p (fine, tt)) h
        (run-rest s s1 s' now (MdMessage.trade t) is runs e))
run-After window last all s s' ((now, MdMessage.quote q) ∷ is) rest k p h e =
    run-After window last all
      (record s { book = set_quote s.book q; engine = on_quote_received s.engine now.steady_ms }) s'
      is rest k p h e
run-After window last all s s' ((now, MdMessage.heartbeat x) ∷ is) rest k p h e =
    run-After window last all s s' is rest k p h e
run-After window last all s s' ((now, MdMessage.session_control c) ∷ is) rest k p h e =
    run-After window last all s s' is rest k p h e
