-- ===== src/Csv/Trades.antt =====
-- Lines with a trade: `readTrade` and the run of commas that it passes over.
use slipstream_volume_aware.Prelude.{
  ℕ, zero, suc, ◌≡◌, ◌≢◌, List, [], ◌∷◌, ◌++◌, length, true, ◌==◌, some, arith,
}
use slipstream_volume_aware.Prelude.Outcome.{ok}
use slipstream_volume_aware.Csv.{
  skip_commas, peek_loop, trade_fields, read_line, copy_symbol, parse_timestamp, parse_price,
  parse_u_int, is_letter,
}
use slipstream_volume_aware.Csv.Fields.{IsField, joined, get_field-next, get_field-joined}

-- The line behind the symbol: `n` empty fields, the price, which is not empty, the quantity, and what
-- follows.
abbrev pub behind_symbol : ℕ → ℕ → List ℕ → List ℕ → List (List ℕ) → List ℕ
behind_symbol zero p price qty more = joined (p ∷ price) (qty ∷ more)
behind_symbol (suc n) p price qty more = b',' ∷ behind_symbol n p price qty more

abbrev pub trade_text :
    (t symbol : List ℕ) (n p : ℕ) (price qty : List ℕ) (more : List (List ℕ)) → List ℕ
trade_text t symbol n p price qty more =
    t ++ (b',' ∷ b'T' ∷ b',' ∷ (symbol ++ (b',' ∷ behind_symbol n p price qty more)))

skip_commas-behind :
    (n p : ℕ) (price qty : List ℕ) (more : List (List ℕ))
    → p ≢ b','
    → skip_commas (behind_symbol n p price qty more)
      ≡ record { rest = joined (p ∷ price) (qty ∷ more); good = true }
unfolding skip_commas
skip_commas-behind zero p price qty more h = ground (arith, h)
skip_commas-behind (suc n) p price qty more h = skip_commas-behind n p price qty more h

module _ (symbol : List ℕ) (n p : ℕ) (price qty : List ℕ) (more : List (List ℕ))
    (vs : IsField symbol) (v1 : IsField (p ∷ price)) (v2 : IsField qty) where
  trade_fields_lem :
      (ts : ℕ) (buffer : List ℕ)
      → length symbol ≡ 12
      → trade_fields ts
          (record { rest = symbol ++ (b',' ∷ behind_symbol n p price qty more); good = true })
          buffer
        ≡ ok record {
          timestamp = ts;
          symbol = symbol;
          price = parse_price (p ∷ price);
          quantity = parse_u_int qty;
        }
  unfolding trade_fields copy_symbol peek_loop
  trade_fields_lem ts buffer h =
      let l : (length symbol == 12) ≡ true = ground (arith, h) in
      simp (
        get_field-next symbol (behind_symbol n p price qty more) buffer vs,
        skip_commas-behind n p price qty more v1.0,
        get_field-next (p ∷ price) (joined qty more) symbol v1,
        get_field-joined qty (p ∷ price) more v2,
        l,
      )

  -- A line with a time, the letter T, a symbol of 12 characters, any number of empty fields, a price
  -- and a quantity gives the trade that its fields say, each by its own parser.
  pub trade_line :
      (c : ℕ) (t : List ℕ) (m : ℕ)
      → IsField (c ∷ t)
      → parse_timestamp (c ∷ t) ≡ ok m
      → length symbol ≡ 12
      → read_line b'T' trade_fields (trade_text (c ∷ t) symbol n p price qty more)
        ≡ ok (
            some record {
              timestamp = m;
              symbol = symbol;
              price = parse_price (p ∷ price);
              quantity = parse_u_int qty;
            })
  unfolding read_line is_letter
  trade_line c t m v e h =
      let tail = symbol ++ (b',' ∷ behind_symbol n p price qty more) in
      simp (
        get_field-next (c ∷ t) (b'T' ∷ b',' ∷ tail) [] v,
        get_field-next (b'T' ∷ []) tail (c ∷ t) (omega arith, tt),
        e,
        trade_fields_lem m (b'T' ∷ []) h,
      )
