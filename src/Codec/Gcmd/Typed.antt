-- ===== src/Codec/Gcmd/Typed.antt =====
-- What `GCMDDeserialiser::deserialiseMessage` makes of any bytes, those of no serialiser too.
use slipstream_volume_aware.Prelude.{
  ℕ, zero, suc, ◌+◌, ◌^◌, ◌<◌, ◌≤◌, ◌≡◌, ◌⊎◌, inl, inr, refl, sym, ap, ◌∙◌, List, [], ◌∷◌, All,
  length, take, drop, length-take, length-drop, arith, leb, leb→le, Bool-cases,
}
use native.Mathlib.Nat.{pow-suc, one-le-pow}
use slipstream_volume_aware.Prelude.Words.{IsByte, of_bytes}
use slipstream_volume_aware.Prelude.Outcome.{
  Outcome, ok, err, Failure, logic_error, fault, ◌>>=◌, Outcome-cases,
}
use slipstream_volume_aware.Codec.Frame.{word, read_at, header_at}
use slipstream_volume_aware.Codec.Gcmd.{
  MessageType, MdMessage, IsMessage, IsQuote, IsSymbol, to_quote, to_trade, to_heartbeat,
  to_session_control, aggressor_from_char, session_control_state_from_num, message_type_from_num,
}
use slipstream_volume_aware.Codec.Gcmd.Wire.{quote_of, trade_of, heartbeat_of, session_control_of}
use slipstream_volume_aware.Codec.Gcmd.Deserialise.{
  get_message_type, deserialise_as, deserialise_message, get_quote_message, get_trade_message,
  get_heartbeat_message, get_session_control_message,
}

-- The alternative of the variant, as the number in the header names it.
abbrev pub type_of : MdMessage → MessageType
type_of (MdMessage.quote q) = MessageType.quote
type_of (MdMessage.trade t) = MessageType.trade
type_of (MdMessage.heartbeat h) = MessageType.heartbeat
type_of (MdMessage.session_control c) = MessageType.session_control

All-take : (n : ℕ) (bs : List ℕ) → All IsByte bs → All IsByte (take n bs)
All-take zero bs h = tt
All-take (suc n) [] h = tt
All-take (suc n) (b ∷ bs) (p, h) = (p, All-take n bs h)

All-drop : (n : ℕ) (bs : List ℕ) → All IsByte bs → All IsByte (drop n bs)
All-drop zero bs h = h
All-drop (suc n) [] h = tt
All-drop (suc n) (b ∷ bs) (p, h) = All-drop n bs h

word-fits : (n : ℕ) (bs : List ℕ) → All IsByte bs → word n bs < 256 ^ n
unfolding of_bytes
word-fits zero bs h = omega arith
word-fits (suc n) [] h = one-le-pow (suc n) 256 (omega arith)
word-fits (suc n) (b ∷ bs) (p, h) = omega (arith, p, word-fits n bs h, pow-suc 256 n)

-- What a call that reads the body returns: what it makes of it is of the type `t` and fits the C++
-- fields, or it throws on the body, or the buffer ends before the body does.
abbrev Fits : MessageType → List ℕ → Outcome MdMessage → Type 0
Fits t bs (ok m) = IsMessage m × (type_of m ≡ t)
Fits t bs (err e) = (e ≡ logic_error) ⊎ ((e ≡ fault) × (length bs < 48))

-- What `read_at` returns for a body of `n` bytes.
abbrev Read : List ℕ → ℕ → Outcome (List ℕ) → Type 0
Read bs n (ok body) = All IsByte body × (length body ≡ n)
Read bs n (err e) = (e ≡ fault) × (length bs < 4 + n)

read_at-Read : (bs : List ℕ) (n : ℕ) → All IsByte bs → Read bs n (read_at bs 4 n)
unfolding read_at
read_at-Read bs n h = elim (Bool-cases (leb (4 + n) (length bs))) [
  | inl y ↦ rw y (
    All-take n (drop 4 bs) (All-drop 4 bs h),
    omega (arith, leb→le _ _ y, length-drop 4 bs, length-take n (drop 4 bs)),
  )
  | inr short ↦ rw short (refl, ground (arith, short))
]

take-IsSymbol : (body : List ℕ) → All IsByte body → 12 ≤ length body → IsSymbol (take 12 body)
take-IsSymbol body h room = record {
  twelve = omega (arith, room, length-take 12 body);
  bytes = All-take 12 body h;
}

quote_of-IsQuote :
    (body : List ℕ) → All IsByte body → length body ≡ 44 → IsQuote (to_quote (quote_of body))
unfolding to_quote quote_of
quote_of-IsQuote body h e =
    let h1 = All-drop 12 body h in
    let h2 = All-drop 8 _ h1 in
    let h3 = All-drop 4 _ h2 in
    let h4 = All-drop 8 _ h3 in
    record {
      symbol_in = take-IsSymbol body h (omega (arith, e));
      timestamp_in = word-fits 8 _ h1;
      bid_quantity_in = word-fits 4 _ h2;
      bid_price_in = word-fits 8 _ h3;
      ask_quantity_in = word-fits 4 _ h4;
      ask_price_in = word-fits 8 _ (All-drop 4 _ h4);
    }

aggressor_from_char-err : (c : ℕ) (f : Failure) → aggressor_from_char c ≡ err f → f ≡ logic_error
unfolding aggressor_from_char
aggressor_from_char-err c f k = ground (arith, k)

state_from_num-err :
    (n : ℕ) (f : Failure) → session_control_state_from_num n ≡ err f → f ≡ logic_error
unfolding session_control_state_from_num
state_from_num-err n f k = ground (arith, k)

type_from_num-err : (n : ℕ) (f : Failure) → message_type_from_num n ≡ err f → f ≡ logic_error
unfolding message_type_from_num
type_from_num-err n f k = ground (arith, k)

-- The body of each type, read or not.
quote-Fits :
    (bs : List ℕ) (r : Outcome (List ℕ))
    → Read bs 44 r
    → Fits MessageType.quote bs
        ((r >>= (λ b. ok (to_quote (quote_of b)))) >>= (λ q. ok (MdMessage.quote q)))
quote-Fits bs (ok body) (h, e) = (quote_of-IsQuote body h e, refl)
quote-Fits bs (err e) (f, short) = inr (f, omega (arith, short))

trade-Fits :
    (bs : List ℕ) (r : Outcome (List ℕ))
    → Read bs 41 r
    → Fits MessageType.trade bs
        ((r >>= (λ b. to_trade (trade_of b))) >>= (λ t. ok (MdMessage.trade t)))
unfolding to_trade trade_of
trade-Fits bs (ok body) (h, e) =
    let h1 = All-drop 12 body h in
    let h2 = All-drop 8 _ h1 in
    let h3 = All-drop 4 _ h2 in
    let h4 = All-drop 1 _ (All-drop 8 _ h3) in
    elim (Outcome-cases (aggressor_from_char (trade_of body).aggressor)) [
      | inl (a, k) ↦ rw k (
        record {
          symbol_in = take-IsSymbol body h (omega (arith, e));
          timestamp_in = word-fits 8 _ h1;
          quantity_in = word-fits 4 _ h2;
          price_in = word-fits 8 _ h3;
          id_in = word-fits 8 _ h4;
        },
        refl,
      )
      | inr (f, k) ↦ rw k (inl (aggressor_from_char-err _ f k))
    ]
trade-Fits bs (err e) (f, short) = inr (f, omega (arith, short))

heartbeat-Fits :
    (bs : List ℕ) (r : Outcome (List ℕ))
    → Read bs 8 r
    → Fits MessageType.heartbeat bs
        ((r >>= (λ b. ok (to_heartbeat (heartbeat_of b)))) >>= (λ x. ok (MdMessage.heartbeat x)))
unfolding to_heartbeat heartbeat_of
heartbeat-Fits bs (ok body) (h, e) = (word-fits 8 body h, refl)
heartbeat-Fits bs (err e) (f, short) = inr (f, omega (arith, short))

control-Fits :
    (bs : List ℕ) (r : Outcome (List ℕ))
    → Read bs 9 r
    → Fits MessageType.session_control bs (
        (r >>= (λ b. to_session_control (session_control_of b)))
        >>= (λ c. ok (MdMessage.session_control c)))
unfolding to_session_control session_control_of
control-Fits bs (ok body) (h, e) =
    elim (Outcome-cases (session_control_state_from_num (session_control_of body).state)) [
      | inl (a, k) ↦ rw k (word-fits 8 body h, refl)
      | inr (f, k) ↦ rw k (inl (state_from_num-err _ f k))
    ]
control-Fits bs (err e) (f, short) = inr (f, omega (arith, short))

deserialise_as-Fits :
    (bs : List ℕ) (t : MessageType) → All IsByte bs → Fits t bs (deserialise_as bs t)
unfolding deserialise_as get_quote_message get_trade_message get_heartbeat_message
    get_session_control_message
deserialise_as-Fits bs MessageType.quote h = quote-Fits bs (read_at bs 4 44) (read_at-Read bs 44 h)
deserialise_as-Fits bs MessageType.trade h = trade-Fits bs (read_at bs 4 41) (read_at-Read bs 41 h)
deserialise_as-Fits bs MessageType.heartbeat h =
    heartbeat-Fits bs (read_at bs 4 8) (read_at-Read bs 8 h)
deserialise_as-Fits bs MessageType.session_control h =
    control-Fits bs (read_at bs 4 9) (read_at-Read bs 9 h)

-- What `deserialiseMessage` returns: the alternative that the header names, in words that its C++
-- fields can hold; or it throws `logic_error`; or the buffer has fewer than 48 bytes.
abbrev pub Deserialised : List ℕ → Outcome MdMessage → Type 0
Deserialised bs (ok m) = IsMessage m × (get_message_type bs ≡ ok (type_of m))
Deserialised bs (err e) = (e ≡ logic_error) ⊎ ((e ≡ fault) × (length bs < 48))

get_message_type-err :
    (bs : List ℕ) (e : Failure)
    → get_message_type bs ≡ err e
    → (e ≡ logic_error) ⊎ ((e ≡ fault) × (length bs < 48))
unfolding get_message_type header_at read_at
get_message_type-err bs e k = elim (Bool-cases (leb 4 (length bs))) [
  | inl y ↦ inl (type_from_num-err _ e (rw y at k))
  | inr short ↦ inr (cc (rw short at k), ground (arith, short))
]

Fits-Deserialised :
    (bs : List ℕ) (t : MessageType) (r : Outcome MdMessage)
    → get_message_type bs ≡ ok t
    → Fits t bs r
    → Deserialised bs r
Fits-Deserialised bs t (ok m) k (h, e) = (h, k ∙ ap ok (sym e))
Fits-Deserialised bs t (err e) k h = h

-- Of any bytes, whoever wrote them, `deserialiseMessage` makes the alternative of the variant that
-- the type in the header names, with a symbol of 12 bytes and numbers within the widths of the C++
-- fields; or it throws `logic_error`. It reads outside the buffer only where that has fewer than 48
-- bytes.
pub deserialise_message-Deserialised :
    (bs : List ℕ) → All IsByte bs → Deserialised bs (deserialise_message bs)
unfolding deserialise_message
deserialise_message-Deserialised bs h = elim (Outcome-cases (get_message_type bs)) [
  | inl (t, k) ↦ rw k (Fits-Deserialised bs t (deserialise_as bs t) k (deserialise_as-Fits bs t h))
  | inr (e, k) ↦ rw k (get_message_type-err bs e k)
]
