-- ===== src/System.antt =====
-- src/market_client, src/order_client and src/slipstream: what the messages of the two clients, mixed
-- in the queue in any way, are for the handlers of main.
use slipstream_volume_aware.Prelude.{
  ℕ, suc, ◌%◌, ◌^◌, ◌≡◌, ◌≢◌, inl, inr, refl, sym, ap, ap₂, ◌∙◌, List, [], ◌∷◌, length, Bool, true,
  false, ◌==◌, not, if◌then◌else◌, arith, Bool-cases,
}
use mathlib.Core.Path.{subst}
use slipstream_volume_aware.Prelude.Words.{add64}
use slipstream_volume_aware.Codec.Gcmd
use slipstream_volume_aware.Codec.Gcmd.{MdMessage, unknown}
use slipstream_volume_aware.Codec.Oe.{NewOrder, rejected, sell}
use slipstream_volume_aware.Csv
use slipstream_volume_aware.Engine.{Readings}
use slipstream_volume_aware.Dispatch.{OrderBookService, set_quote, same_symbol}
use slipstream_volume_aware.Dispatch.Counts.{quotes_seen, quote_count}
use slipstream_volume_aware.Demultiplexer.Order.{messages}
use slipstream_volume_aware.Replay.Played.{quote_message, trade_message}
use slipstream_volume_aware.Pipeline.{Told, nothing_told, beat_told, row_told}
use slipstream_volume_aware.Program.{AllTrades}
use slipstream_volume_aware.Program.Unsided.{Unsided, rejections}
pub mod Files
pub mod Orders
pub mod Wire
mod Tests

-- Two lists, mixed, each in its own order.
pub data Mixed {ℓ} {A : Type ℓ} : List A → List A → List A → Type ℓ where
  none_left : Mixed [] [] []
  from_left : {xs ys zs : List A} (x : A) → Mixed xs ys zs → Mixed (x ∷ xs) ys (x ∷ zs)
  from_right : {xs ys zs : List A} (y : A) → Mixed xs ys zs → Mixed xs (y ∷ ys) (y ∷ zs)

-- What is handled is the quotes of one file and the trades of another, each in the file's order, with
-- heartbeats in between.
pub data Heard : List Csv.Quote → List Csv.Trade → List (Readings × MdMessage) → Type 0 where
  nothing_heard : Heard [] [] []
  beat_heard :
      {qs : List Csv.Quote} {ts : List Csv.Trade} {is : List (Readings × MdMessage)} (r : Readings)
      (t : ℕ)
      → Heard qs ts is
      → Heard qs ts ((r, MdMessage.heartbeat (record { timestamp = t })) ∷ is)
  quote_heard :
      {qs : List Csv.Quote} {ts : List Csv.Trade} {is : List (Readings × MdMessage)} (r : Readings)
      (q : Csv.Quote) (now : ℕ)
      → Heard qs ts is
      → Heard (q ∷ qs) ts ((r, quote_message q now) ∷ is)
  trade_heard :
      {qs : List Csv.Quote} {ts : List Csv.Trade} {is : List (Readings × MdMessage)} (r : Readings)
      (t : Csv.Trade) (now : ℕ)
      → Heard qs ts is
      → Heard qs (t ∷ ts) ((r, trade_message t now) ∷ is)

-- The first of what is handled, by its message.
headed :
    {qs : List Csv.Quote} {ts : List Csv.Trade} (r : Readings) (m n : MdMessage)
    (is : List (Readings × MdMessage))
    → m ≡ n
    → Heard qs ts ((r, n) ∷ is)
    → Heard qs ts ((r, m) ∷ is)
headed {qs = qs} {ts = ts} r m n is e h = subst (λ x. Heard qs ts ((r, x) ∷ is)) (sym e) h

pub Mixed-Heard :
    {ms ns all : List MdMessage}
    → Mixed ms ns all
    → {qs : List Csv.Quote} {ts : List Csv.Trade} → Told quote_message qs ms
    → Told trade_message ts ns
    → (is : List (Readings × MdMessage)) → messages is ≡ all
    → Heard qs ts is
Mixed-Heard none_left nothing_told nothing_told [] e = nothing_heard
Mixed-Heard none_left nothing_told nothing_told (i ∷ is) e = absurd (cc e)
Mixed-Heard (from_left x m) p q [] e = absurd (cc e)
Mixed-Heard (from_right x m) p q [] e = absurd (cc e)
Mixed-Heard (from_left y m) (beat_told t p) q ((r, x) ∷ is) e =
    headed r x y is (cc e) (beat_heard r t (Mixed-Heard m p q is (cc e)))
Mixed-Heard (from_left y m) (row_told c now p) q ((r, x) ∷ is) e =
    headed r x y is (cc e) (quote_heard r c now (Mixed-Heard m p q is (cc e)))
Mixed-Heard (from_right y m) p (beat_told t q) ((r, x) ∷ is) e =
    headed r x y is (cc e) (beat_heard r t (Mixed-Heard m p q is (cc e)))
Mixed-Heard (from_right y m) p (row_told c now q) ((r, x) ∷ is) e =
    headed r x y is (cc e) (trade_heard r c now (Mixed-Heard m p q is (cc e)))

pub Heard-Unsided :
    {qs : List Csv.Quote} {ts : List Csv.Trade} {is : List (Readings × MdMessage)}
    → Heard qs ts is
    → AllTrades Unsided is
Heard-Unsided nothing_heard = tt
Heard-Unsided (beat_heard r t h) = Heard-Unsided h
Heard-Unsided (quote_heard r q now h) = Heard-Unsided h
Heard-Unsided (trade_heard r t now h) = (refl, Heard-Unsided h)

pub quote_count-Heard :
    {qs : List Csv.Quote} {ts : List Csv.Trade} {is : List (Readings × MdMessage)}
    → Heard qs ts is
    → quote_count is ≡ length qs
quote_count-Heard nothing_heard = refl
quote_count-Heard (beat_heard r t h) = quote_count-Heard h
quote_count-Heard (quote_heard r q now h) = ap suc (quote_count-Heard h)
quote_count-Heard (trade_heard r t now h) = quote_count-Heard h

-- One order for each trade of the file: a rejected sell order that copies it, the quantity cut to 32
-- bits.
pub data Answers : List Csv.Trade → List NewOrder → Type 0 where
  none_answered : Answers [] []
  answered :
      {ts : List Csv.Trade} {os : List NewOrder} (t : Csv.Trade) (o : NewOrder)
      → o.symbol ≡ t.symbol
      → o.status ≡ rejected
      → o.side ≡ sell
      → o.qty ≡ t.quantity % 2 ^ 32
      → o.limit_px ≡ t.price
      → Answers ts os
      → Answers (t ∷ ts) (o ∷ os)

pub rejections-Answers :
    {qs : List Csv.Quote} {ts : List Csv.Trade} {is : List (Readings × MdMessage)} (k : ℕ)
    → Heard qs ts is
    → Answers ts (rejections k is)
rejections-Answers k nothing_heard = none_answered
rejections-Answers k (beat_heard r t h) = rejections-Answers k h
rejections-Answers k (quote_heard r q now h) = rejections-Answers k h
rejections-Answers k (trade_heard r t now h) =
    answered t _ refl refl refl refl refl (rejections-Answers (add64 k 1) h)

-- A quote of the file, as it comes with a reading of the client's clock.
abbrev pub quote_of : Csv.Quote → ℕ → Gcmd.Quote
quote_of q now = record {
  symbol = q.symbol;
  timestamp_ns = now;
  bid_quantity = q.bid_quantity % 2 ^ 32;
  bid_price = q.bid_price;
  ask_quantity = q.ask_quantity % 2 ^ 32;
  ask_price = q.ask_price;
}

-- A book after the quotes of a file: a quote for the book's symbol is its latest quote and counts, one
-- for another symbol does neither.
pub data Booked : OrderBookService → List Csv.Quote → OrderBookService → Type 0 where
  unchanged : {b : OrderBookService} → Booked b [] b
  passed_over :
      {b b' : OrderBookService} {qs : List Csv.Quote} (q : Csv.Quote)
      → q.symbol ≢ b.symbol
      → Booked b qs b'
      → Booked b (q ∷ qs) b'
  taken :
      {b b' : OrderBookService} {qs : List Csv.Quote} (q : Csv.Quote) (now : ℕ)
      → q.symbol ≡ b.symbol
      → Booked
          (record {
            symbol = b.symbol;
            latest_quote = quote_of q now;
            quotes_received = add64 b.quotes_received 1;
          })
          qs
          b'
      → Booked b (q ∷ qs) b'

same_symbol_self : (xs : List ℕ) → same_symbol xs xs ≡ true
unfolding same_symbol
same_symbol_self [] = refl
same_symbol_self (x ∷ xs) = ground (arith, same_symbol_self xs)

same_symbol-true : (xs ys : List ℕ) → same_symbol xs ys ≡ true → xs ≡ ys
unfolding same_symbol
same_symbol-true [] [] e = refl
same_symbol-true [] (y ∷ ys) e = absurd (cc e)
same_symbol-true (x ∷ xs) [] e = absurd (cc e)
same_symbol-true (x ∷ xs) (y ∷ ys) e =
    let head : x ≡ y = ground (arith, e) in
    let tail : same_symbol xs ys ≡ true = ground (arith, e) in
    ap₂ (λ a as'. a ∷ as') head (same_symbol-true xs ys tail)

set_quote-Booked :
    {b' : OrderBookService} {qs : List Csv.Quote} (b : OrderBookService) (q : Csv.Quote) (now : ℕ)
    → Booked (set_quote b (quote_of q now)) qs b'
    → Booked b (q ∷ qs) b'
unfolding set_quote
set_quote-Booked {b' = b'} {qs = qs} b q now k =
    let after : Bool → OrderBookService = λ same. if not same then b else record b {
      latest_quote = quote_of q now;
      quotes_received = add64 b.quotes_received 1;
    } in
    elim (Bool-cases (same_symbol q.symbol b.symbol)) [
      | inl y ↦
          taken q now (same_symbol-true q.symbol b.symbol y)
            (subst (λ same. Booked (after same) qs b') y k)
      | inr n ↦
          passed_over q (λ e. cc (n, e, same_symbol_self q.symbol))
            (subst (λ same. Booked (after same) qs b') n k)
    ]

pub quotes_seen-Booked :
    {qs : List Csv.Quote} {ts : List Csv.Trade} {is : List (Readings × MdMessage)}
    (b : OrderBookService)
    → Heard qs ts is
    → Booked b qs (quotes_seen b is)
quotes_seen-Booked b nothing_heard = unchanged
quotes_seen-Booked b (beat_heard r t h) = quotes_seen-Booked b h
quotes_seen-Booked b (quote_heard r q now h) =
    set_quote-Booked b q now (quotes_seen-Booked (set_quote b (quote_of q now)) h)
quotes_seen-Booked b (trade_heard r t now h) = quotes_seen-Booked b h
