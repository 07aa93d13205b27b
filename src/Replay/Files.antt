-- ===== src/Replay/Files.antt =====
-- The text of a file and the rows that a client reads from it, from the constructor of the parser to
-- the end of the file.
use slipstream_volume_aware.Prelude.{
  ℕ, zero, suc, ◌+◌, ◌*◌, ◌%◌, ◌-◌, ◌^◌, ◌<◌, ◌≡◌, ◌≢◌, refl, sym, ap, ◌∙◌, List, [], ◌∷◌, ◌++◌,
  length, Bool, true, false, if◌then◌else◌, Option, none, some, arith, All,
}
use slipstream_volume_aware.Prelude.Words.{IsU64}
use slipstream_volume_aware.Prelude.Outcome.{Outcome, ok, err, out_of_range}
use slipstream_volume_aware.Codec.Gcmd.{IsSymbol}
use slipstream_volume_aware.Csv
use slipstream_volume_aware.Csv.{
  CsvParser, Stream, read_line, read_loop, read_quote, read_trade, quote_fields, trade_fields,
  parse_timestamp, parse_price, parse_u_int, price_loop, pad_price, digit_value, skip_header,
  open_file,
}
use slipstream_volume_aware.Csv.Fields.{IsField, joined, Skipped, quote_line, read_line-Skipped}
use slipstream_volume_aware.Csv.Trades.{trade_text, trade_line}
use slipstream_volume_aware.Replay.Pace.{Yields, at_end, no_more, row}
use slipstream_volume_aware.Replay.Played.{FitsQuote, FitsTrade}
mod Tests

-- A price fits into 64 bits, whatever its text.
price_loop-bound :
    (cs : List ℕ) (v n : ℕ) (b : Bool) → v < 2 ^ 64 → (price_loop cs v n b).0 < 2 ^ 64
unfolding price_loop
price_loop-bound [] v n b h = h
price_loop-bound (c ∷ cs) v n b h =
    let skip = price_loop-bound cs v n true h in
    let take_digit =
      price_loop-bound cs ((v * 10 + digit_value 64 c) % 2 ^ 64) (if b then suc n else n) b
        (omega arith) in
    ground (arith, skip, take_digit)

pad_price-bound : (n v : ℕ) → v < 2 ^ 64 → pad_price n v < 2 ^ 64
unfolding pad_price
pad_price-bound zero v h = h
pad_price-bound (suc n) v h = pad_price-bound n _ (omega arith)

parse_price-IsU64 : (cs : List ℕ) → IsU64 (parse_price cs)
unfolding parse_price
parse_price-IsU64 cs =
    pad_price-bound (4 - (price_loop cs 0 0 false).1) (price_loop cs 0 0 false).0
      (price_loop-bound cs 0 0 false (omega arith))

-- A line with a quote, and one with a trade.
pub data QuoteLine : List ℕ → Csv.Quote → Type 0 where
  quote_text :
      (c : ℕ) (t symbol bp bq ap' aq : List ℕ) (more : List (List ℕ)) (n : ℕ)
      → All IsField ((c ∷ t) ∷ symbol ∷ bp ∷ bq ∷ ap' ∷ aq ∷ [])
      → parse_timestamp (c ∷ t) ≡ ok n
      → IsSymbol symbol
      → QuoteLine (joined (c ∷ t) ((b'Q' ∷ []) ∷ symbol ∷ bp ∷ bq ∷ ap' ∷ aq ∷ more)) (record {
        timestamp = n;
        symbol = symbol;
        bid_price = parse_price bp;
        bid_quantity = parse_u_int bq;
        ask_price = parse_price ap';
        ask_quantity = parse_u_int aq;
      })

pub data TradeLine : List ℕ → Csv.Trade → Type 0 where
  trade_text_of :
      (c : ℕ) (t symbol : List ℕ) (n p : ℕ) (price qty : List ℕ) (more : List (List ℕ)) (m : ℕ)
      → All IsField ((c ∷ t) ∷ symbol ∷ (p ∷ price) ∷ qty ∷ [])
      → parse_timestamp (c ∷ t) ≡ ok m
      → IsSymbol symbol
      → TradeLine (trade_text (c ∷ t) symbol n p price qty more) (record {
        timestamp = m;
        symbol = symbol;
        price = parse_price (p ∷ price);
        quantity = parse_u_int qty;
      })

-- The lines of a file with these rows, and lines between them that the search passes over.
pub data Rows {ℓ} {R : Type ℓ} (letter : ℕ) (Line : List ℕ → R → Type 0)
    : List (List ℕ) → List R → Type ℓ where
  no_rows : Rows letter Line [] []
  passed :
      {ls : List (List ℕ)} {rs : List R} (l : List ℕ)
      → Skipped letter l
      → Rows letter Line ls rs
      → Rows letter Line (l ∷ ls) rs
  line :
      {ls : List (List ℕ)} {rs : List R} (l : List ℕ) (r : R)
      → Line l r
      → Rows letter Line ls rs
      → Rows letter Line (l ∷ ls) (r ∷ rs)

module _ {ℓ} {R : Type ℓ} (line : List ℕ → Outcome (Option R)) where
  loop-end : read_loop line [] ≡ (err out_of_range, record { reached_end = true; file = [] })
  unfolding read_loop
  loop-end = refl

  loop-passed :
      (l : List ℕ) (ls : List (List ℕ))
      → line l ≡ ok none
      → read_loop line (l ∷ ls) ≡ read_loop line ls
  unfolding read_loop
  loop-passed l ls e = cc e

  loop-row :
      (l : List ℕ) (r : R) (ls : List (List ℕ))
      → line l ≡ ok (some r)
      → read_loop line (l ∷ ls) ≡ (ok r, record { reached_end = false; file = ls })
  unfolding read_loop
  loop-row l r ls e = cc e

abbrev pub reading : List (List ℕ) → CsvParser
reading ls = record { reached_end = false; file = ls }

module _ {ℓ} {R : Type ℓ} (read : CsvParser → Outcome R × CsvParser) (Fits : R → Type 0)
    (letter : ℕ) (Line : List ℕ → R → Type 0) (fields : ℕ → Stream → List ℕ → Outcome R)
    (reads : (ls : List (List ℕ)) → read (reading ls) ≡ read_loop (read_line letter fields) ls)
    (line_lem : (l : List ℕ) (r : R) → Line l r → read_line letter fields l ≡ ok (some r))
    (fits : (l : List ℕ) (r : R) → Line l r → Fits r) where
  skip-Yields :
      {rs : List R} (ls ms : List (List ℕ))
      → read (reading ls) ≡ read (reading ms)
      → Yields read Fits (reading ms) rs
      → Yields read Fits (reading ls) rs
  skip-Yields ls ms e (at_end h) = absurd (cc h)
  skip-Yields ls ms e (no_more h f) = no_more refl (e ∙ f)
  skip-Yields ls ms e (row r h f g y) = row r refl (e ∙ f) g y

  Rows-Yields :
      {ls : List (List ℕ)} {rs : List R} → Rows letter Line ls rs → Yields read Fits (reading ls) rs
  Rows-Yields no_rows = no_more refl (reads [] ∙ loop-end (read_line letter fields))
  Rows-Yields (passed {ls = ls} l s y) =
      skip-Yields (l ∷ ls) ls
        (reads (l ∷ ls)
          ∙ loop-passed (read_line letter fields) l ls (read_line-Skipped letter fields l s)
          ∙ sym (reads ls))
        (Rows-Yields y)
  Rows-Yields (line {ls = ls} l r h y) =
      row r refl (reads (l ∷ ls) ∙ loop-row (read_line letter fields) l r ls (line_lem l r h))
        (fits l r h) (Rows-Yields y)

-- The lines before the rows: comments and blank lines, then one line that is neither.
pub data Comment : List ℕ → Type 0 where
  blank : Comment []
  marked : (text : List ℕ) → Comment (b'#' ∷ text)

skip_header_lem :
    (comments ls : List (List ℕ)) (c : ℕ) (titles : List ℕ)
    → All Comment comments
    → c ≢ b'#'
    → skip_header (comments ++ ((c ∷ titles) ∷ ls)) ≡ ls
unfolding skip_header
skip_header_lem [] ls c titles a h = ground (arith, h)
skip_header_lem ([] ∷ cs) ls c titles (blank, a) h = skip_header_lem cs ls c titles a h
skip_header_lem ((d ∷ cs0) ∷ cs) ls c titles (marked text, a) h = skip_header_lem cs ls c titles a h

open_file_lem :
    (comments ls : List (List ℕ)) (c : ℕ) (titles : List ℕ)
    → All Comment comments
    → c ≢ b'#'
    → open_file (some (comments ++ ((c ∷ titles) ∷ ls))) ≡ ok (reading ls)
unfolding open_file
open_file_lem comments ls c titles a h =
    ap (λ x. ok (reading x)) (skip_header_lem comments ls c titles a h)

quote-Fits : (l : List ℕ) (q : Csv.Quote) → QuoteLine l q → FitsQuote q
quote-Fits l q (quote_text c t symbol bp bq ap' aq more n f e s) = record {
  symbol_in = s;
  bid_price_in = parse_price-IsU64 bp;
  ask_price_in = parse_price-IsU64 ap';
}

trade-Fits : (l : List ℕ) (t : Csv.Trade) → TradeLine l t → FitsTrade t
trade-Fits l r (trade_text_of c t symbol n p price qty more m f e s) = record {
  symbol_in = s;
  price_in = parse_price-IsU64 (p ∷ price);
}

QuoteLine-read :
    (l : List ℕ) (q : Csv.Quote) → QuoteLine l q → read_line b'Q' quote_fields l ≡ ok (some q)
QuoteLine-read l q
      (quote_text c t symbol bp bq ap' aq more n (vt, (vs, (v1, (v2, (v3, (v4, u)))))) e s) =
    quote_line c t symbol bp bq ap' aq more n vt vs v1 v2 v3 v4 e s.twelve

TradeLine-read :
    (l : List ℕ) (r : Csv.Trade) → TradeLine l r → read_line b'T' trade_fields l ≡ ok (some r)
TradeLine-read l r (trade_text_of c t symbol n p price qty more m (vt, (vs, (v1, (v2, u)))) e s) =
    trade_line symbol n p price qty more vs v1 v2 c t m vt e s.twelve

-- A file of comments and blank lines, a line of titles, and rows: the constructor of the parser passes
-- over all before the rows, and calls of `readQuote` then give the quotes of the file, all of them, in
-- its order, each of which fits a message, and after the last throw `out_of_range`. Blank lines and
-- lines with a time and another letter may stand between the rows.
pub open_file-quotes :
    (comments ls : List (List ℕ)) (c : ℕ) (titles : List ℕ) (qs : List Csv.Quote)
    → All Comment comments
    → c ≢ b'#'
    → Rows b'Q' QuoteLine ls qs
    → (p : CsvParser) × (open_file (some (comments ++ ((c ∷ titles) ∷ ls))) ≡ ok p)
      × Yields read_quote FitsQuote p qs
unfolding read_quote
open_file-quotes comments ls c titles qs a h rows = (
  reading ls,
  open_file_lem comments ls c titles a h,
  Rows-Yields read_quote FitsQuote b'Q' QuoteLine quote_fields (λ l. refl) QuoteLine-read quote-Fits
      rows,
)

-- The same of `readTrade` and the trades of a file.
pub open_file-trades :
    (comments ls : List (List ℕ)) (c : ℕ) (titles : List ℕ) (ts : List Csv.Trade)
    → All Comment comments
    → c ≢ b'#'
    → Rows b'T' TradeLine ls ts
    → (p : CsvParser) × (open_file (some (comments ++ ((c ∷ titles) ∷ ls))) ≡ ok p)
      × Yields read_trade FitsTrade p ts
unfolding read_trade
open_file-trades comments ls c titles ts a h rows = (
  reading ls,
  open_file_lem comments ls c titles a h,
  Rows-Yields read_trade FitsTrade b'T' TradeLine trade_fields (λ l. refl) TradeLine-read trade-Fits
      rows,
)
