-- ===== src/Csv.antt =====
-- src/libs/csvparser/CSVParser.h, CSVParser.cpp and CSVTypes.h: quotes and trades from the lines of a
-- file. Text is a list of bytes. The file is the list of the lines that `getline` has still to give.
use slipstream_volume_aware.Prelude.{
  ℕ, zero, suc, ◌+◌, ◌-◌, ◌*◌, ◌%◌, ◌^◌, List, [], ◌∷◌, length, get_elem?, Bool, true, false, ◌==◌,
  ltb, leb, ◌&&◌, if◌then◌else◌, Option, none, some,
}
use slipstream_volume_aware.Prelude.Outcome.{
  Outcome, ok, err, out_of_range, runtime_error, fault, ◌>>=◌,
}
pub mod Numbers
pub mod Fields
pub mod Trades
mod Tests

-- `SYMBOL_MAX_LEN`.
abbrev pub symbol_max_len : ℕ
symbol_max_len = 12

-- `csv::Quote` and `csv::Trade`.
pub record Quote : Type 0 where
  pub timestamp : ℕ
  pub symbol : List ℕ
  pub bid_price : ℕ
  pub bid_quantity : ℕ
  pub ask_price : ℕ
  pub ask_quantity : ℕ

pub record Trade : Type 0 where
  pub timestamp : ℕ
  pub symbol : List ℕ
  pub price : ℕ
  pub quantity : ℕ

pub record CsvParser : Type 0 where
  pub reached_end : Bool
  pub file : List (List ℕ)

-- `c - '0'` in a word of `w` bits, for a `char` that is signed, as on x86-64.
abbrev pub digit_value : ℕ → ℕ → ℕ
digit_value w c = if ltb c 128 then (c + 2 ^ w - 48) % 2 ^ w else (c + 2 ^ w - 304) % 2 ^ w

-- `digit(i)` of `parseTimestamp`. An index past the field is undefined.
unfoldable pub digit : List ℕ → ℕ → Outcome ℕ
digit field i = elim (get_elem? field i) [ none ↦ err fault | some c ↦ ok (digit_value 32 c) ]

-- Arithmetic on `unsigned`, which may as well wrap once at the end.
unfoldable pub parse_timestamp : List ℕ → Outcome ℕ
unfolding digit
parse_timestamp field = do
  h ← digit field 0
  h' ← digit field 1
  m ← digit field 3
  m' ← digit field 4
  s ← digit field 6
  s' ← digit field 7
  l ← digit field 9
  l' ← digit field 10
  l'' ← digit field 11
  ok (
      ((((h * 10 + h') * 60 + (m * 10 + m')) * 60 + (s * 10 + s')) * 1000
        + (l * 100 + l' * 10 + l''))
      % 2 ^ 32)

-- The loop of `parsePrice`: the value and `fracDigits` when it ends.
unfoldable pub price_loop : List ℕ → (value frac_digits : ℕ) → Bool → ℕ × ℕ
price_loop [] value frac_digits saw_point = (value, frac_digits)
price_loop (c ∷ cs) value frac_digits saw_point =
    let skip = price_loop cs value frac_digits true in
    let take_digit =
      price_loop cs ((value * 10 + digit_value 64 c) % 2 ^ 64)
        (if saw_point then suc frac_digits else frac_digits) saw_point in
    if c == b'.'
    then skip
    else if saw_point && frac_digits == 4
    then (value, frac_digits)
    else take_digit

-- `value *= 10`, `n` times.
unfoldable pub pad_price : ℕ → ℕ → ℕ
pad_price zero value = value
pad_price (suc n) value = pad_price n (value * 10 % 2 ^ 64)

unfoldable pub parse_price : List ℕ → ℕ
unfolding price_loop pad_price
parse_price field =
    let (value, frac_digits) = price_loop field 0 0 false in pad_price (4 - frac_digits) value

-- The digits that `from_chars` reads, as one number.
unfoldable pub digits_value : List ℕ → ℕ → ℕ
digits_value [] value = value
digits_value (c ∷ cs) value =
    let rest = digits_value cs (value * 10 + (c - 48)) in
    if leb 48 c && leb c 57 then rest else value

-- `from_chars` leaves the value at 0 where there is no digit, and where the number does not fit.
unfoldable pub parse_u_int : List ℕ → ℕ
unfolding digits_value
parse_u_int field = let n = digits_value field 0 in if ltb n (2 ^ 64) then n else 0

unfoldable pub copy_symbol : List ℕ → Outcome (List ℕ)
copy_symbol field = if length field == symbol_max_len then ok field else err runtime_error

-- A `stringstream`: what is left, and whether its state is still good.
pub record Stream : Type 0 where
  pub rest : List ℕ
  pub good : Bool

-- The bytes before the first comma, and those behind it if there is one.
unfoldable pub cut : List ℕ → List ℕ × Option (List ℕ)
cut [] = ([], none)
cut (c ∷ cs) = let (field, tail) = cut cs in if c == b',' then ([], some cs) else (c ∷ field, tail)

-- `getline(ss, buffer, ',')`: the buffer and the stream after it. A stream that is not good leaves
-- the buffer as it is.
unfoldable pub get_field : Stream → List ℕ → List ℕ × Stream
get_field ss buffer =
    if ss.good
    then elim (cut ss.rest).1 [
      | none ↦ ((cut ss.rest).0, record { rest = []; good = false })
      | some tail ↦ ((cut ss.rest).0, record { rest = tail; good = true })
    ]
    else (buffer, ss)

-- The loop over `peek` and `ignore` in `readTrade`. A `peek` at the end leaves the stream not good.
unfoldable pub skip_commas : List ℕ → Stream
skip_commas [] = record { rest = []; good = false }
skip_commas (c ∷ cs) =
    let more = skip_commas cs in if c == b',' then more else record { rest = c ∷ cs; good = true }

unfoldable pub peek_loop : Stream → Stream
peek_loop ss = if ss.good then skip_commas ss.rest else ss

-- The text equals the one letter.
unfoldable pub is_letter : List ℕ → ℕ → Bool
is_letter [] l = false
is_letter (c ∷ []) l = c == l
is_letter (c ∷ d ∷ cs) l = false

-- The part of `readQuote` behind the letter, from the stream and the buffer.
unfoldable pub quote_fields : ℕ → Stream → List ℕ → Outcome Quote
quote_fields timestamp ss b0 =
    let (b1, s1) = get_field ss b0 in
    let (b2, s2) = get_field s1 b1 in
    let (b3, s3) = get_field s2 b2 in
    let (b4, s4) = get_field s3 b3 in
    let (b5, s5) = get_field s4 b4 in
    (do
      symbol ← copy_symbol b1
      ok record {
        timestamp = timestamp;
        symbol = symbol;
        bid_price = parse_price b2;
        bid_quantity = parse_u_int b3;
        ask_price = parse_price b4;
        ask_quantity = parse_u_int b5;
      })

unfoldable pub trade_fields : ℕ → Stream → List ℕ → Outcome Trade
trade_fields timestamp ss b0 =
    let (b1, s1) = get_field ss b0 in
    let (b2, s2) = get_field (peek_loop s1) b1 in
    let (b3, s3) = get_field s2 b2 in
    (do
      symbol ← copy_symbol b1
      ok record {
        timestamp = timestamp;
        symbol = symbol;
        price = parse_price b2;
        quantity = parse_u_int b3;
      })

-- One line of `readQuote` or `readTrade`: `none` where the loop goes on to the next line. `letter`
-- is 'Q' or 'T', and `fields` the part behind it.
unfoldable pub read_line {ℓ} :
    {A : Type ℓ} → ℕ → (ℕ → Stream → List ℕ → Outcome A) → List ℕ → Outcome (Option A)
read_line letter fields [] = ok none
read_line letter fields (c ∷ cs) =
    let (b0, s0) = get_field (record { rest = c ∷ cs; good = true }) [] in
    let (b1, s1) = get_field s0 b0 in
    (do
      timestamp ← parse_timestamp b0
      if is_letter b1 letter then (do a ← fields timestamp s1 b1; ok (some a)) else ok none)

-- The loop over the lines, with the parser that is left.
unfoldable pub read_loop {ℓ} :
    {A : Type ℓ} → (List ℕ → Outcome (Option A)) → List (List ℕ) → Outcome A × CsvParser
read_loop line [] = (err out_of_range, record { reached_end = true; file = [] })
read_loop line (l ∷ ls) = elim (line l) [
  | err e ↦ (err e, record { reached_end = false; file = ls })
  | ok o ↦ elim o [
    | none ↦ read_loop line ls
    | some a ↦ (ok a, record { reached_end = false; file = ls })
  ]
]

unfoldable pub read_quote : CsvParser → Outcome Quote × CsvParser
unfolding read_loop read_line quote_fields
read_quote p =
    if p.reached_end then (err out_of_range, p) else read_loop (read_line b'Q' quote_fields) p.file

unfoldable pub read_trade : CsvParser → Outcome Trade × CsvParser
unfolding read_loop read_line trade_fields
read_trade p =
    if p.reached_end then (err out_of_range, p) else read_loop (read_line b'T' trade_fields) p.file

-- `skipHeader`: the comments and the first line that is none. The `seekg` at the end of the file
-- does nothing, the failed `getline` having left the stream failed.
unfoldable pub skip_header : List (List ℕ) → List (List ℕ)
skip_header [] = []
skip_header ([] ∷ ls) = skip_header ls
skip_header ((c ∷ cs) ∷ ls) = let rest = skip_header ls in if c == b'#' then rest else ls

-- The constructor, on a file that opened (`some` of its lines) or did not.
unfoldable pub open_file : Option (List (List ℕ)) → Outcome CsvParser
unfolding skip_header
open_file none = err runtime_error
open_file (some ls) = ok record { reached_end = false; file = skip_header ls }
