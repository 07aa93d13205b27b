-- ===== src/Replay/Files/Tests.antt =====
-- A file with a comment, a blank line, titles, two quotes and a trade between them.
use slipstream_volume_aware.Prelude.{ℕ, ◌≡◌, refl, List, [], ◌∷◌, replicate, some, arith, All}
use slipstream_volume_aware.Prelude.Outcome.{ok}
use slipstream_volume_aware.Csv
use slipstream_volume_aware.Csv.{
  CsvParser, read_quote, read_trade, open_file, parse_timestamp, parse_price, parse_u_int,
}
use slipstream_volume_aware.Csv.Fields.{joined, Skipped, other}
use slipstream_volume_aware.Csv.Trades.{trade_text}
use slipstream_volume_aware.Replay.Pace.{Yields}
use slipstream_volume_aware.Replay.Played.{FitsQuote, FitsTrade}
use slipstream_volume_aware.Replay.Files.{
  QuoteLine, TradeLine, Rows, no_rows, passed, line, quote_text, trade_text_of, Comment, blank,
  marked, open_file-quotes, open_file-trades,
}

-- 09:30:15.250, behind the first digit, and a symbol.
abbrev time_text : List ℕ
time_text = b'9' ∷ b':' ∷ b'3' ∷ b'0' ∷ b':' ∷ b'1' ∷ b'5' ∷ b'.' ∷ b'2' ∷ b'5' ∷ b'0' ∷ []

abbrev isin : List ℕ
isin = replicate 12 b'A'

abbrev quote_line : List ℕ
quote_line =
    joined (b'0' ∷ time_text)
      ((b'Q' ∷ []) ∷ isin ∷ (b'1' ∷ []) ∷ (b'2' ∷ []) ∷ (b'3' ∷ []) ∷ (b'4' ∷ []) ∷ [] ∷ [] ∷ [])

abbrev trade_line : List ℕ
trade_line = trade_text (b'0' ∷ time_text) isin 4 b'7' [] (b'8' ∷ []) []

abbrev file : List (List ℕ)
file = quote_line ∷ trade_line ∷ quote_line ∷ []

abbrev quote : Csv.Quote
quote = record {
  timestamp = 34215250;
  symbol = isin;
  bid_price = parse_price (b'1' ∷ []);
  bid_quantity = parse_u_int (b'2' ∷ []);
  ask_price = parse_price (b'3' ∷ []);
  ask_quantity = parse_u_int (b'4' ∷ []);
}

abbrev trade : Csv.Trade
trade = record {
  timestamp = 34215250;
  symbol = isin;
  price = parse_price (b'7' ∷ []);
  quantity = parse_u_int (b'8' ∷ []);
}

time_text-time : parse_timestamp (b'0' ∷ time_text) ≡ ok 34215250
unfolding parse_timestamp Csv.digit
time_text-time = refl

quote_line-Skipped : Skipped b'T' quote_line
unfolding Csv.is_letter
quote_line-Skipped =
    other b'0' time_text (b'Q' ∷ [])
      (isin ∷ (b'1' ∷ []) ∷ (b'2' ∷ []) ∷ (b'3' ∷ []) ∷ (b'4' ∷ []) ∷ [] ∷ [] ∷ []) 34215250
      (omega arith) (omega arith) time_text-time refl

trade_line-Skipped : Skipped b'Q' trade_line
unfolding Csv.is_letter
trade_line-Skipped =
    other b'0' time_text (b'T' ∷ []) (isin ∷ [] ∷ [] ∷ [] ∷ [] ∷ (b'7' ∷ []) ∷ (b'8' ∷ []) ∷ [])
      34215250 (omega arith) (omega arith) time_text-time refl

file-quotes : Rows b'Q' QuoteLine file (quote ∷ quote ∷ [])
file-quotes =
    line quote_line quote a_quote
      (passed trade_line trade_line-Skipped (line quote_line quote a_quote no_rows))
  where
    a_quote : QuoteLine quote_line quote
    a_quote =
        quote_text b'0' time_text isin (b'1' ∷ []) (b'2' ∷ []) (b'3' ∷ []) (b'4' ∷ [])
          ([] ∷ [] ∷ []) 34215250 (omega arith) time_text-time
          (record { twelve = refl; bytes = omega arith })

file-trades : Rows b'T' TradeLine file (trade ∷ [])
file-trades = passed quote_line quote_line-Skipped (
    line trade_line trade
      (trade_text_of b'0' time_text isin 4 b'7' [] (b'8' ∷ []) [] 34215250 (omega arith)
        time_text-time (record { twelve = refl; bytes = omega arith }))
      (passed quote_line quote_line-Skipped no_rows))

abbrev comments : List (List ℕ)
comments = (b'#' ∷ b' ' ∷ b'T' ∷ []) ∷ [] ∷ []

comments-Comment : All Comment comments
comments-Comment = (marked (b' ' ∷ b'T' ∷ []), (blank, tt))

abbrev text : List (List ℕ)
text = (b'#' ∷ b' ' ∷ b'T' ∷ []) ∷ [] ∷ (b'T' ∷ b'i' ∷ []) ∷ file

open_file-quotes_example :
    (p : CsvParser) × (open_file (some text) ≡ ok p)
    × Yields read_quote FitsQuote p (quote ∷ quote ∷ [])
open_file-quotes_example =
    open_file-quotes comments file b'T' (b'i' ∷ []) (quote ∷ quote ∷ []) comments-Comment
      (λ e. absurd (omega (arith, e))) file-quotes

open_file-trades_example :
    (p : CsvParser) × (open_file (some text) ≡ ok p) × Yields read_trade FitsTrade p (trade ∷ [])
open_file-trades_example =
    open_file-trades comments file b'T' (b'i' ∷ []) (trade ∷ []) comments-Comment
      (λ e. absurd (omega (arith, e))) file-trades
