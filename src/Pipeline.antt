-- ===== src/Pipeline.antt =====
-- src/market_client and src/slipstream/network: the file that a client replays, the stream of bytes
-- between the two programs, and the queue that the receiver fills. The stream is taken to bring what
-- is sent, in order, in pieces of any size.
use slipstream_volume_aware.Prelude.{
  ℕ, ◌+◌, ◌^◌, ◌≤◌, ◌<◌, ◌≡◌, refl, sym, ap, ap₂, ◌∙◌, List, [], ◌∷◌, ◌++◌, length, map, false,
  some, arith,
}
use mathlib.Core.Path.{subst}
use slipstream_volume_aware.Prelude.Outcome.{ok}
use slipstream_volume_aware.Codec.Gcmd.{MdMessage}
use slipstream_volume_aware.Csv
use slipstream_volume_aware.Csv.{read_quote, read_trade}
use slipstream_volume_aware.Reconstructor.Frames.{Splits, rest, frame, IsFrame}
use slipstream_volume_aware.Reconstructor.Fill.{Represents, Apart}
use slipstream_volume_aware.Receiver.{ShutdownSignal, NetworkMessageReceiver}
use slipstream_volume_aware.Receiver.Stream.{Carries, none_left, carry}
use slipstream_volume_aware.Receiver.Refine.{Splits-unique}
use slipstream_volume_aware.Receiver.Loop.{Round}
use slipstream_volume_aware.Receiver.Chunks.{Arrives, arrived, Read, run-Arrives}
use slipstream_volume_aware.Replay.{Environment, Client, Handed}
use slipstream_volume_aware.Replay.Clients.{run_market, run_trades}
use slipstream_volume_aware.Replay.Waiting.{Shows, Ready, Beats, quiet, beat}
use slipstream_volume_aware.Replay.Pace
use slipstream_volume_aware.Replay.Pace.{Yields, Replayed, finished}
use slipstream_volume_aware.Replay.Played.{
  FitsQuote, FitsTrade, quote_message, trade_message, run_market-Replayed, run_trades-Replayed,
}
mod Tests

-- What goes into the stream.
abbrev pub sent_bytes : List Handed → List ℕ
sent_bytes [] = []
sent_bytes (h ∷ hs) = h.bytes ++ sent_bytes hs

abbrev frames : List Handed → List (List ℕ)
frames hs = map (λ h. h.bytes) hs

-- The messages of the rows in their order, with only heartbeats in between.
pub data Told {ℓ} {R : Type ℓ} (message : R → ℕ → MdMessage)
    : List R → List MdMessage → Type ℓ where
  nothing_told : Told message [] []
  beat_told :
      {rs : List R} {ms : List MdMessage} (t : ℕ)
      → Told message rs ms
      → Told message rs (MdMessage.heartbeat (record { timestamp = t }) ∷ ms)
  row_told :
      {rs : List R} {ms : List MdMessage} (r : R) (now : ℕ)
      → Told message rs ms
      → Told message (r ∷ rs) (message r now ∷ ms)

-- Each is read as its message.
data Shown : List Handed → List MdMessage → Type 0 where
  no_more_shown : Shown [] []
  shown :
      {hs : List Handed} {ms : List MdMessage} (h : Handed) (m : MdMessage)
      → Shows m h
      → Shown hs ms
      → Shown (h ∷ hs) (m ∷ ms)

Shown-Splits :
    {hs : List Handed} {ms : List MdMessage} → Shown hs ms → Splits (sent_bytes hs) (frames hs) []
Shown-Splits no_more_shown = rest (λ h. omega (arith, h.0))
Shown-Splits (shown h m s t) = frame h.bytes s.framed refl (Shown-Splits t)

Shown-Carries : {hs : List Handed} {ms : List MdMessage} → Shown hs ms → Carries (frames hs) ms
Shown-Carries no_more_shown = none_left
Shown-Carries (shown h m s t) = carry h.bytes m s.reads (Shown-Carries t)

-- A frame carries one message.
Carries-unique :
    {fs gs : List (List ℕ)} {ms ns : List MdMessage}
    → fs ≡ gs
    → Carries fs ms
    → Carries gs ns
    → ms ≡ ns
Carries-unique e none_left none_left = refl
Carries-unique e none_left (carry f m d c) = absurd (cc e)
Carries-unique e (carry f m d c) none_left = absurd (cc e)
Carries-unique e (carry f m d c) (carry g n d' c') =
    ap₂ (λ a b. a ∷ b) (cc (e, d, d')) (Carries-unique (cc e) c c')

module _ {ℓ} {R : Type ℓ} (timestamp : R → ℕ) (message : R → ℕ → MdMessage) where
  Beats-Shown :
      {gs hs : List Handed} {rs : List R} {ms : List MdMessage}
      → Beats gs
      → Shown hs ms
      → Told message rs ms
      → (ns : List MdMessage) × Shown (gs ++ hs) ns × Told message rs ns
  Beats-Shown {ms = ms} quiet s t = (ms, s, t)
  Beats-Shown (beat h k shows b) s t =
      let (ns, s', t') = Beats-Shown b s t in (_, shown h _ shows s', beat_told k t')

  Replayed-Shown :
      {start : ℕ} {rs : List R} {hs : List Handed}
      → Replayed timestamp message start rs hs
      → (ms : List MdMessage) × Shown hs ms × Told message rs ms
  Replayed-Shown finished = ([], no_more_shown, nothing_told)
  Replayed-Shown (Pace.row r h now b s late p) =
      let (ms, s', t') = Replayed-Shown p in Beats-Shown b (shown h _ s s') (row_told r now t')

module _ {ℓ κ} {Q : Type ℓ} {C : Type κ} (enqueue : Q → MdMessage → Q) (close : C → C) (timeout : ℕ)
    (r : NetworkMessageReceiver C) (queue : Q) (s : ShutdownSignal) (go : r.should_stop ≡ false)
    (limit : r.heartbeat_timeout_ms ≡ timeout) (fresh : Represents r.reconstructor [])
    (apart : Apart r.reconstructor) where
  -- What the receiver makes of a stream of frames.
  Shown-Read :
      {hs : List Handed} {ms ns : List MdMessage} {is : List Round} {fs : List (List ℕ)}
      {left : List ℕ}
      → Shown hs ns
      → arrived is ≡ sent_bytes hs
      → Arrives timeout r.last_heartbeat [] is fs ms left
      → (ns ≡ ms) × (left ≡ []) × Read enqueue close r queue s is ms left
  Shown-Read {hs = hs} {ms = ms} {is = is} {fs = fs} {left = left} sh e a =
      let (splits, carries, reads) =
        run-Arrives enqueue close timeout [] left is fs ms r queue s go limit fresh apart a in
      let same = Splits-unique e splits (Shown-Splits sh) in
      (Carries-unique (sym same.0) (Shown-Carries sh) carries, same.1, reads)

  -- `MarketClient::run` replays a file with at least one quote, whose numbers all fit their fields: its
  -- connection takes all it is given, its buffer has 48 bytes or more, the wall clock shows 64 bits, and
  -- there is fuel for each quote and each wait. At the other end is a new receiver. The stream between
  -- them brings the bytes that were sent, in order, cut into pieces under these conditions. Each piece
  -- fits into the receiver's 2048 bytes beside what is kept then. What is left behind the frames that it
  -- completes is no longer than those frames, or there are none, so that `memcpy` never copies between
  -- ranges that overlap. In every round the receiver is not told to stop, and its clock is past the last
  -- heartbeat by no more than the timeout. All complete frames have been read at the end. Then the queue
  -- has been given every quote of the file, once and in the file's order, with nothing but heartbeats in
  -- between; no byte is left over, and the receiver runs on.
  pub run_market-received :
      (env : Environment) (fuel wait_fuel : ℕ) (c c' : Client) (q : Csv.Quote) (qs : List Csv.Quote)
      (is : List Round) (fs : List (List ℕ)) (ms : List MdMessage) (left : List ℕ)
      → Ready env
      → length qs < fuel
      → 2 ^ 64 ≤ wait_fuel
      → 48 ≤ length c.buffer
      → c.handed ≡ []
      → Yields read_quote FitsQuote c.parser (q ∷ qs)
      → run_market env fuel wait_fuel c ≡ some (ok tt, c')
      → arrived is ≡ sent_bytes c'.handed
      → Arrives timeout r.last_heartbeat [] is fs ms left
      → Told quote_message (q ∷ qs) ms × (left ≡ []) × Read enqueue close r queue s is ms left
  run_market-received env fuel wait_fuel c c' q qs is fs ms left ready few long room new y runs e
        a =
      let (c1, h, hs, now, runs1, handed, shows, replayed) =
        run_market-Replayed env ready fuel wait_fuel c q qs few long room new y in
      let (ns, sh, told) = Replayed-Shown (λ x. x.timestamp) quote_message replayed in
      let same : c' ≡ c1 = cc (runs, runs1) in
      let (messages, none_over, reads) =
        Shown-Read (shown h (quote_message q now) shows sh)
          (e ∙ ap (λ x. sent_bytes x.handed) same ∙ ap sent_bytes handed) a in
      (subst (Told quote_message (q ∷ qs)) messages (row_told q now told), none_over, reads)

  -- The same of `TradeClient::run` and the trades of a file.
  pub run_trades-received :
      (env : Environment) (fuel wait_fuel : ℕ) (c c' : Client) (t : Csv.Trade) (ts : List Csv.Trade)
      (is : List Round) (fs : List (List ℕ)) (ms : List MdMessage) (left : List ℕ)
      → Ready env
      → length ts < fuel
      → 2 ^ 64 ≤ wait_fuel
      → 45 ≤ length c.buffer
      → c.handed ≡ []
      → Yields read_trade FitsTrade c.parser (t ∷ ts)
      → run_trades env fuel wait_fuel c ≡ some (ok tt, c')
      → arrived is ≡ sent_bytes c'.handed
      → Arrives timeout r.last_heartbeat [] is fs ms left
      → Told trade_message (t ∷ ts) ms × (left ≡ []) × Read enqueue close r queue s is ms left
  run_trades-received env fuel wait_fuel c c' t ts is fs ms left ready few long room new y runs e
        a =
      let (c1, h, hs, now, runs1, handed, shows, replayed) =
        run_trades-Replayed env ready fuel wait_fuel c t ts few long room new y in
      let (ns, sh, told) = Replayed-Shown (λ x. x.timestamp) trade_message replayed in
      let same : c' ≡ c1 = cc (runs, runs1) in
      let (messages, none_over, reads) =
        Shown-Read (shown h (trade_message t now) shows sh)
          (e ∙ ap (λ x. sent_bytes x.handed) same ∙ ap sent_bytes handed) a in
      (subst (Told trade_message (t ∷ ts)) messages (row_told t now told), none_over, reads)
