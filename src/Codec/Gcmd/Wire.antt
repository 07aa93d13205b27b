-- ===== src/Codec/Gcmd/Wire.antt =====
-- The packed wire structs of src/libs/networking/gcmd/types/GCMDTypes.h as bytes: the memory that
-- `memcpy` copies out of a struct, and the struct that a cast reads out of memory.
use slipstream_volume_aware.Prelude.{
  ℕ, ◌≡◌, List, [], ◌∷◌, arith, length, take, drop, take-length_append, drop-length_append,
  length-append,
}
use slipstream_volume_aware.Prelude.Words.{to_bytes, IsU32, IsU64, IsByte}
use slipstream_volume_aware.Codec.Frame.{pack, word, word-to_bytes, skip-to_bytes}
use slipstream_volume_aware.Codec.Gcmd.{QuoteBody, TradeBody, HeartbeatBody, SessionControlBody}

unfoldable pub quote_bytes : QuoteBody → List ℕ
quote_bytes b = pack (
    b.symbol
    ∷ to_bytes 8 b.timestamp_ns
    ∷ to_bytes 4 b.bid_quantity
    ∷ to_bytes 8 b.bid_price
    ∷ to_bytes 4 b.ask_quantity
    ∷ to_bytes 8 b.ask_price
    ∷ [])

unfoldable pub quote_of : List ℕ → QuoteBody
quote_of bs =
    let r1 = drop 12 bs in
    let r2 = drop 8 r1 in
    let r3 = drop 4 r2 in
    let r4 = drop 8 r3 in
    let r5 = drop 4 r4 in
    record {
      symbol = take 12 bs;
      timestamp_ns = word 8 r1;
      bid_quantity = word 4 r2;
      bid_price = word 8 r3;
      ask_quantity = word 4 r4;
      ask_price = word 8 r5;
    }

unfoldable pub trade_bytes : TradeBody → List ℕ
trade_bytes b = pack (
    b.symbol
    ∷ to_bytes 8 b.timestamp_ns
    ∷ to_bytes 4 b.quantity
    ∷ to_bytes 8 b.price
    ∷ to_bytes 1 b.aggressor
    ∷ to_bytes 8 b.id
    ∷ [])

unfoldable pub trade_of : List ℕ → TradeBody
trade_of bs =
    let r1 = drop 12 bs in
    let r2 = drop 8 r1 in
    let r3 = drop 4 r2 in
    let r4 = drop 8 r3 in
    let r5 = drop 1 r4 in
    record {
      symbol = take 12 bs;
      timestamp_ns = word 8 r1;
      quantity = word 4 r2;
      price = word 8 r3;
      aggressor = word 1 r4;
      id = word 8 r5;
    }

unfoldable pub heartbeat_bytes : HeartbeatBody → List ℕ
heartbeat_bytes b = pack (to_bytes 8 b.timestamp ∷ [])

unfoldable pub heartbeat_of : List ℕ → HeartbeatBody
heartbeat_of bs = record { timestamp = word 8 bs }

unfoldable pub session_control_bytes : SessionControlBody → List ℕ
session_control_bytes b = pack (to_bytes 8 b.timestamp ∷ to_bytes 1 b.state ∷ [])

unfoldable pub session_control_of : List ℕ → SessionControlBody
session_control_of bs = record { timestamp = word 8 bs; state = word 1 (drop 8 bs) }

pub length-quote_bytes : (b : QuoteBody) → length b.symbol ≡ 12 → length (quote_bytes b) ≡ 44
unfolding quote_bytes to_bytes
length-quote_bytes b h = omega (arith, length-append {0})

pub length-trade_bytes : (b : TradeBody) → length b.symbol ≡ 12 → length (trade_bytes b) ≡ 41
unfolding trade_bytes to_bytes
length-trade_bytes b h = omega (arith, length-append {0})

pub quote_of-quote_bytes :
    (b : QuoteBody)
    → length b.symbol ≡ 12
    → IsU64 b.timestamp_ns
    → IsU32 b.bid_quantity
    → IsU64 b.bid_price
    → IsU32 b.ask_quantity
    → IsU64 b.ask_price
    → quote_of (quote_bytes b) ≡ b
unfolding quote_of quote_bytes
quote_of-quote_bytes b hs ht hbq hbp haq hap = simp (
  take-length_append 12 b.symbol _ hs,
  drop-length_append 12 b.symbol _ hs,
  skip-to_bytes,
  word-to_bytes 8 b.timestamp_ns _ ht,
  word-to_bytes 4 b.bid_quantity _ hbq,
  word-to_bytes 8 b.bid_price _ hbp,
  word-to_bytes 4 b.ask_quantity _ haq,
  word-to_bytes 8 b.ask_price _ hap,
)

pub trade_of-trade_bytes :
    (b : TradeBody)
    → length b.symbol ≡ 12
    → IsU64 b.timestamp_ns
    → IsU32 b.quantity
    → IsU64 b.price
    → IsByte b.aggressor
    → IsU64 b.id
    → trade_of (trade_bytes b) ≡ b
unfolding trade_of trade_bytes
trade_of-trade_bytes b hs ht hq hp ha hi = simp (
  take-length_append 12 b.symbol _ hs,
  drop-length_append 12 b.symbol _ hs,
  skip-to_bytes,
  word-to_bytes 8 b.timestamp_ns _ ht,
  word-to_bytes 4 b.quantity _ hq,
  word-to_bytes 8 b.price _ hp,
  word-to_bytes 1 b.aggressor _ ha,
  word-to_bytes 8 b.id _ hi,
)

pub heartbeat_of-heartbeat_bytes :
    (b : HeartbeatBody) → IsU64 b.timestamp → heartbeat_of (heartbeat_bytes b) ≡ b
unfolding heartbeat_of heartbeat_bytes
heartbeat_of-heartbeat_bytes b h = simp (word-to_bytes 8 b.timestamp _ h)

pub session_control_of-session_control_bytes :
    (b : SessionControlBody)
    → IsU64 b.timestamp
    → IsByte b.state
    → session_control_of (session_control_bytes b) ≡ b
unfolding session_control_of session_control_bytes
session_control_of-session_control_bytes b h hs =
    simp (skip-to_bytes, word-to_bytes 8 b.timestamp _ h, word-to_bytes 1 b.state _ hs)
